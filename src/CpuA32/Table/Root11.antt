-- ===== src/CpuA32/Table/Root11.antt =====
-- CpuA32/opcode_tab.py, the instructions under `root11`.
use Prim.Native.String.{String, ◌++◌ as concat}
use text.Mathlib.Text.{◌==◌ as str_eq}
use cwerg.Prelude.{ℕ, List, [], ◌∷◌, ◌++◌, flat_map, if◌then◌else◌}
use cwerg.CpuA32.Fields.{
  OperandKind, reg_12_15, reg_16_19, dreg_0_3_5, dreg_12_15_22, dreg_16_19_7, sreg_0_3_5,
  sreg_12_15_22, sreg_16_19_7, reg_range_0_7, reg_range_1_7, addr_base_with_offset2, addr_multi,
  imm_0_7_times4, imm_0_23, imm_zero,
}
use cwerg.CpuA32.Pack.{NatPattern}
use cwerg.CpuA32.Opcode.{load, store, multiple, vfp, syscall, nczv}
use cwerg.CpuA32.Table.Rows.{Row, root11, opcode, opcode_sr}

unfoldable pub vfp_transfers : List Row
unfolding opcode
vfp_transfers =
    opcode "svc" "" (root11 ∷ (3, 3, 24) ∷ []) (imm_0_23 ∷ []) (syscall ∷ [])
    ∷ opcode "vldr" "f32" (root11 ∷ (0x3, 1, 24) ∷ (0x3, 1, 20) ∷ (0xf, 0xa, 8) ∷ [])
        (sreg_12_15_22 ∷ addr_base_with_offset2 ∷ reg_16_19 ∷ imm_0_7_times4 ∷ []) (vfp ∷ load ∷ [])
    ∷ opcode "vldr" "f64" (root11 ∷ (0x3, 1, 24) ∷ (0x3, 1, 20) ∷ (0xf, 0xb, 8) ∷ [])
        (dreg_12_15_22 ∷ addr_base_with_offset2 ∷ reg_16_19 ∷ imm_0_7_times4 ∷ []) (vfp ∷ load ∷ [])
    ∷ opcode "vstr" "f32" (root11 ∷ (0x3, 1, 24) ∷ (0x3, 0, 20) ∷ (0xf, 0xa, 8) ∷ [])
        (addr_base_with_offset2 ∷ reg_16_19 ∷ imm_0_7_times4 ∷ sreg_12_15_22 ∷ [])
        (vfp ∷ store ∷ [])
    ∷ opcode "vstr" "f64" (root11 ∷ (0x3, 1, 24) ∷ (0x3, 0, 20) ∷ (0xf, 0xb, 8) ∷ [])
        (addr_base_with_offset2 ∷ reg_16_19 ∷ imm_0_7_times4 ∷ dreg_12_15_22 ∷ [])
        (vfp ∷ store ∷ [])
    ∷ opcode "vmov" "atof" (root11 ∷ (0x3f, 4, 20) ∷ (0xfd, 0xb1, 4) ∷ [])
        (dreg_0_3_5 ∷ reg_12_15 ∷ reg_16_19 ∷ []) (vfp ∷ [])
    ∷ opcode "vmov" "ftoa" (root11 ∷ (0x3f, 5, 20) ∷ (0xfd, 0xb1, 4) ∷ [])
        (reg_12_15 ∷ reg_16_19 ∷ dreg_0_3_5 ∷ []) (vfp ∷ [])
    ∷ opcode "vmov" "atos" (root11 ∷ (0x3f, 0x20, 20) ∷ (0xf, 0xa, 8) ∷ (0x7f, 0x10, 0) ∷ [])
        (sreg_16_19_7 ∷ reg_12_15 ∷ []) (vfp ∷ [])
    ∷ opcode "vmov" "stoa" (root11 ∷ (0x3f, 0x21, 20) ∷ (0xf, 0xa, 8) ∷ (0x7f, 0x10, 0) ∷ [])
        (reg_12_15 ∷ sreg_16_19_7 ∷ []) (vfp ∷ [])
    ∷ []

-- `VCVT_DST` and `VCVT_SRC`: only f64 has a double register.
abbrev vcvt_dst : String → OperandKind
vcvt_dst t = if str_eq t "f64" then dreg_12_15_22 else sreg_12_15_22

abbrev vcvt_src : String → OperandKind
vcvt_src t = if str_eq t "f64" then dreg_0_3_5 else sreg_0_3_5

unfoldable pub vfp_conversions : List Row
unfolding opcode flat_map
vfp_conversions =
    flat_map
      (λ (dst, src, a, b).
        opcode (concat "vcvt." (concat dst (concat "." src))) ""
          (root11 ∷ (7, 5, 23) ∷ (0x3f, a, 16) ∷ (0xfd, b, 4) ∷ [])
          (vcvt_dst dst ∷ vcvt_src src ∷ []) (vfp ∷ [])
        ∷ [])
      (("f32", "f64", 0x37, 0xbc)
        ∷ ("f64", "f32", 0x37, 0xac)
        ∷ ("s32", "f64", 0x3d, 0xbc)
        ∷ ("s32", "f32", 0x3d, 0xac)
        ∷ ("u32", "f64", 0x3c, 0xbc)
        ∷ ("u32", "f32", 0x3c, 0xac)
        ∷ ("f64", "s32", 0x38, 0xbc)
        ∷ ("f32", "s32", 0x38, 0xac)
        ∷ ("f64", "u32", 0x38, 0xb4)
        ∷ ("f32", "u32", 0x38, 0xa4)
        ∷ [])

vfp_compare : String × ℕ × ℕ → List Row
unfolding opcode
vfp_compare (name, a, c) =
    let bits : List NatPattern = root11 ∷ (3, 3, 20) ∷ (7, a, 23) ∷ (0xd, c, 4) ∷ [] in
    opcode (concat name ".f32") "" (bits ++ (0xf, 4, 16) ∷ (0xf, 0xa, 8) ∷ [])
      (sreg_12_15_22 ∷ sreg_0_3_5 ∷ []) (vfp ∷ [])
    ∷ opcode (concat name ".f64") "" (bits ++ (0xf, 4, 16) ∷ (0xf, 0xb, 8) ∷ [])
        (dreg_12_15_22 ∷ dreg_0_3_5 ∷ []) (vfp ∷ [])
    ∷ opcode (concat name ".f32") "zero" (bits ++ (0xf, 5, 16) ∷ (0xf, 0xa, 8) ∷ (0x2f, 0, 0) ∷ [])
        (sreg_12_15_22 ∷ imm_zero ∷ []) (vfp ∷ [])
    ∷ opcode (concat name ".f64") "zero" (bits ++ (0xf, 5, 16) ∷ (0xf, 0xb, 8) ∷ (0x2f, 0, 0) ∷ [])
        (dreg_12_15_22 ∷ imm_zero ∷ []) (vfp ∷ [])
    ∷ []

vfp_unary : String × ℕ × ℕ × ℕ → List Row
unfolding opcode
vfp_unary (name, a, b, c) =
    let bits : List NatPattern = root11 ∷ (7, a, 23) ∷ (0xf, b, 16) ∷ (0xd, c, 4) ∷ [] in
    opcode (concat name ".f32") "" (bits ++ (3, 3, 20) ∷ (0xf, 0xa, 8) ∷ [])
      (sreg_12_15_22 ∷ sreg_0_3_5 ∷ []) (vfp ∷ [])
    ∷ opcode (concat name ".f64") "" (bits ++ (3, 3, 20) ∷ (0xf, 0xb, 8) ∷ [])
        (dreg_12_15_22 ∷ dreg_0_3_5 ∷ []) (vfp ∷ [])
    ∷ []

vfp_binary : String × ℕ × ℕ × ℕ → List Row
unfolding opcode
vfp_binary (name, a, b, c) =
    let bits : List NatPattern = root11 ∷ (7, a, 23) ∷ (3, b, 20) ∷ (5, c, 4) ∷ [] in
    opcode (concat name ".f32") "" (bits ++ (0xf, 0xa, 8) ∷ [])
      (sreg_12_15_22 ∷ sreg_16_19_7 ∷ sreg_0_3_5 ∷ []) (vfp ∷ [])
    ∷ opcode (concat name ".f64") "" (bits ++ (0xf, 0xb, 8) ∷ [])
        (dreg_12_15_22 ∷ dreg_16_19_7 ∷ dreg_0_3_5 ∷ []) (vfp ∷ [])
    ∷ []

unfoldable pub vfp_arithmetic : List Row
unfolding vfp_compare vfp_unary vfp_binary flat_map
vfp_arithmetic =
    flat_map vfp_compare (("vcmp", 5, 4) ∷ ("vcmpe", 5, 0xc) ∷ [])
    ++ flat_map vfp_unary
        (("vabs", 5, 0, 0xc) ∷ ("vmov", 5, 0, 4) ∷ ("vsqrt", 5, 1, 0xc) ∷ ("vneg", 5, 1, 4) ∷ [])
    ++ flat_map vfp_binary
        (("vdiv", 5, 0, 0) ∷ ("vmul", 4, 2, 0) ∷ ("vadd", 4, 3, 0) ∷ ("vsub", 4, 3, 4) ∷ [])
    ++ flat_map vfp_binary (
        ("vnmul", 4, 2, 4)
        ∷ ("vnmls", 4, 1, 0)
        ∷ ("vnmla", 4, 1, 4)
        ∷ ("vmls", 4, 0, 4)
        ∷ ("vmla", 4, 0, 0)
        ∷ [])

unfoldable pub vfp_blocks : List Row
unfolding opcode opcode_sr
vfp_blocks =
    opcode "vldm" "s" (root11 ∷ (1, 0, 25) ∷ (1, 1, 20) ∷ (0xf, 0xa, 8) ∷ [])
      (reg_range_0_7 ∷ sreg_12_15_22 ∷ addr_multi ∷ reg_16_19 ∷ []) (load ∷ multiple ∷ vfp ∷ [])
    ∷ opcode "vldm" "f" (root11 ∷ (1, 0, 25) ∷ (1, 1, 20) ∷ (0xf, 0xb, 8) ∷ (1, 0, 0) ∷ [])
        (reg_range_1_7 ∷ dreg_12_15_22 ∷ addr_multi ∷ reg_16_19 ∷ []) (load ∷ multiple ∷ vfp ∷ [])
    ∷ opcode "vstm" "s" (root11 ∷ (1, 0, 25) ∷ (1, 0, 20) ∷ (0xf, 0xa, 8) ∷ [])
        (addr_multi ∷ reg_16_19 ∷ reg_range_0_7 ∷ sreg_12_15_22 ∷ []) (store ∷ multiple ∷ vfp ∷ [])
    ∷ opcode "vstm" "f" (root11 ∷ (1, 0, 25) ∷ (1, 0, 20) ∷ (0xf, 0xb, 8) ∷ (1, 0, 0) ∷ [])
        (addr_multi ∷ reg_16_19 ∷ reg_range_1_7 ∷ dreg_12_15_22 ∷ []) (store ∷ multiple ∷ vfp ∷ [])
    ∷ opcode_sr "vmrs" "APSR_nzcv_fpscr" (root11 ∷ (0x3ffffff, 0x2f1fa10, 0) ∷ []) [] (vfp ∷ [])
        nczv
    ∷ []
