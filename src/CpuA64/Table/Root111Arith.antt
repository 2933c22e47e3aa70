-- ===== src/CpuA64/Table/Root111Arith.antt =====
-- CpuA64/opcode_tab.py, the arithmetic instructions and moves under `root111`; a loop of the source is a `flat_map`.
use Prim.Native.String.{String, ◌++◌ as concat}
use text.Mathlib.Text.{◌==◌ as str_eq}
use cwerg.Prelude.{List, [], ◌∷◌, ◌++◌, flat_map, if◌then◌else◌}
use cwerg.CpuA32.Pack.{NatPattern}
use cwerg.CpuA64.Fields.{
  wreg_0_4, wreg_5_9, xreg_0_4, xreg_5_9, sreg_0_4, sreg_5_9, sreg_10_14, sreg_16_20, dreg_0_4,
  dreg_5_9, dreg_10_14, dreg_16_20, imm_0_3, imm_13_20_flt, imm_flt_zero,
}
use cwerg.CpuA64.Opcode.{cond_param}
use cwerg.CpuA64.Table.Rows.{Row, root111, conditions, opcode}

float_arithmetic_forms : String × NatPattern → List Row
unfolding opcode flat_map
float_arithmetic_forms (ext, w_bit) =
    let dst_reg = if str_eq ext "d" then dreg_0_4 else sreg_0_4 in
    let src1_reg = if str_eq ext "d" then dreg_5_9 else sreg_5_9 in
    let src2_reg = if str_eq ext "d" then dreg_16_20 else sreg_16_20 in
    let src3_reg = if str_eq ext "d" then dreg_10_14 else sreg_10_14 in
    opcode "fmov" (concat ext "_imm")
        ((7, 0, 29) ∷ root111 ∷ (7, 4, 23) ∷ w_bit ∷ (1, 1, 21) ∷ (0xff, 0x80, 5) ∷ [])
        (dst_reg ∷ imm_13_20_flt ∷ []) []
      ∷ flat_map
          (λ (name, bits).
            opcode name ext ((7, 0, 29) ∷ root111 ∷ (7, 4, 23) ∷ w_bit ∷ (1, 1, 21) ∷ bits ∷ [])
              (dst_reg ∷ src1_reg ∷ src2_reg ∷ []) []
            ∷ [])
          (("fmul", (0x3f, 2, 10))
            ∷ ("fdiv", (0x3f, 6, 10))
            ∷ ("fadd", (0x3f, 0xa, 10))
            ∷ ("fsub", (0x3f, 0xe, 10))
            ∷ ("fmax", (0x3f, 0x12, 10))
            ∷ ("fmaxnm", (0x3f, 0x1a, 10))
            ∷ ("fmin", (0x3f, 0x16, 10))
            ∷ ("fminnm", (0x3f, 0x1e, 10))
            ∷ ("fnmul", (0x3f, 0x22, 10))
            ∷ [])
    ++ flat_map
        (λ (name, bits).
          opcode name ext (root111 ∷ (7, 0, 29) ∷ w_bit ∷ bits)
            (dst_reg ∷ src1_reg ∷ src2_reg ∷ src3_reg ∷ []) []
          ∷ [])
        (("fmadd", (7, 6, 23) ∷ (1, 0, 21) ∷ (1, 0, 15) ∷ [])
          ∷ ("fmsub", (7, 6, 23) ∷ (1, 0, 21) ∷ (1, 1, 15) ∷ [])
          ∷ ("fnmadd", (7, 6, 23) ∷ (1, 1, 21) ∷ (1, 0, 15) ∷ [])
          ∷ ("fnmsub", (7, 6, 23) ∷ (1, 1, 21) ∷ (1, 1, 15) ∷ [])
          ∷ [])
    ++ flat_map
        (λ (name, bits).
          opcode name ext (root111 ∷ (7, 3, 29) ∷ w_bit ∷ (1, 1, 21) ∷ bits)
            (dst_reg ∷ src1_reg ∷ src2_reg ∷ []) []
          ∷ [])
        (("fabd", (7, 5, 23) ∷ (0x3f, 0x35, 10) ∷ [])
          ∷ ("fcmge", (7, 4, 23) ∷ (0x3f, 0x39, 10) ∷ [])
          ∷ ("fcmgt", (7, 5, 23) ∷ (0x3f, 0x39, 10) ∷ [])
          ∷ [])

float_compare_forms : String × NatPattern → List Row
unfolding opcode flat_map
float_compare_forms (ext, w_bit) =
    let dst_reg = if str_eq ext "d" then dreg_0_4 else sreg_0_4 in
    let src1_reg = if str_eq ext "d" then dreg_5_9 else sreg_5_9 in
    let src2_reg = if str_eq ext "d" then dreg_16_20 else sreg_16_20 in
    opcode "fcmp" (concat ext "_zero")
        (root111
          ∷ (7, 0, 29)
          ∷ w_bit
          ∷ (1, 1, 21)
          ∷ (7, 4, 23)
          ∷ (0x1f, 0, 16)
          ∷ (0x3f, 8, 10)
          ∷ (0x1f, 8, 0)
          ∷ [])
        (src1_reg ∷ imm_flt_zero ∷ []) []
      ∷ opcode "fcmp" ext
          (root111
            ∷ (7, 0, 29)
            ∷ w_bit
            ∷ (1, 1, 21)
            ∷ (7, 4, 23)
            ∷ (0x3f, 8, 10)
            ∷ (0x1f, 0, 0)
            ∷ [])
          (src1_reg ∷ src2_reg ∷ []) []
      ∷ flat_map
          (λ (name, bits).
            opcode name ext (root111 ∷ (7, 0, 29) ∷ w_bit ∷ (1, 1, 21) ∷ bits)
              (dst_reg ∷ src1_reg ∷ []) []
            ∷ [])
          (("fabs", (7, 4, 23) ∷ (0x7ff, 0x30, 10) ∷ [])
            ∷ ("fneg", (7, 4, 23) ∷ (0x7ff, 0x50, 10) ∷ [])
            ∷ ("fsqrt", (7, 4, 23) ∷ (0x7ff, 0x70, 10) ∷ [])
            ∷ ("frinta", (7, 4, 23) ∷ (0x7ff, 0x190, 10) ∷ [])
            ∷ ("frinti", (7, 4, 23) ∷ (0x7ff, 0x1f0, 10) ∷ [])
            ∷ ("frintm", (7, 4, 23) ∷ (0x7ff, 0x150, 10) ∷ [])
            ∷ ("frintn", (7, 4, 23) ∷ (0x7ff, 0x110, 10) ∷ [])
            ∷ ("frintp", (7, 4, 23) ∷ (0x7ff, 0x130, 10) ∷ [])
            ∷ ("frintx", (7, 4, 23) ∷ (0x7ff, 0x1d0, 10) ∷ [])
            ∷ ("frintz", (7, 4, 23) ∷ (0x7ff, 0x170, 10) ∷ [])
            ∷ [])
    ++ flat_map
        (λ (cond_val, cond_name).
          opcode "fcsel" (concat ext (concat "_" cond_name))
            ((7, 0, 29)
              ∷ root111
              ∷ (7, 4, 23)
              ∷ w_bit
              ∷ (1, 1, 21)
              ∷ (0xf, cond_val, 12)
              ∷ (3, 3, 10)
              ∷ [])
            (dst_reg ∷ src1_reg ∷ src2_reg ∷ []) (cond_param ∷ [])
          ∷ opcode "fccmp" (concat ext (concat "_" cond_name))
              ((7, 0, 29)
                ∷ root111
                ∷ (7, 4, 23)
                ∷ w_bit
                ∷ (1, 1, 21)
                ∷ (0xf, cond_val, 12)
                ∷ (3, 1, 10)
                ∷ (1, 0, 4)
                ∷ [])
              (src1_reg ∷ src2_reg ∷ imm_0_3 ∷ []) (cond_param ∷ [])
          ∷ [])
        conditions

unfoldable pub float_arithmetic : List Row
unfolding float_arithmetic_forms float_compare_forms flat_map
float_arithmetic =
    flat_map (λ form. float_arithmetic_forms form ++ float_compare_forms form)
      (("s", (1, 0, 22)) ∷ ("d", (1, 1, 22)) ∷ [])

unfoldable pub float_moves : List Row
unfolding opcode flat_map
float_moves =
    flat_map
      (λ (ext, dst, src, bits).
        opcode "fmov" ext
          ((3, 0, 29) ∷ root111 ∷ (3, 6, 24) ∷ (3, 2, 20) ∷ (3, 3, 17) ∷ (0x3f, 0, 10) ∷ bits)
          (dst ∷ src ∷ []) []
        ∷ [])
      (("s_from_w", sreg_0_4, wreg_5_9, (1, 0, 31) ∷ (3, 0, 22) ∷ (1, 0, 19) ∷ (1, 1, 16) ∷ [])
        ∷ ("w_from_s", wreg_0_4, sreg_5_9, (1, 0, 31) ∷ (3, 0, 22) ∷ (1, 0, 19) ∷ (1, 0, 16) ∷ [])
        ∷ ("d_from_x", dreg_0_4, xreg_5_9, (1, 1, 31) ∷ (3, 1, 22) ∷ (1, 0, 19) ∷ (1, 1, 16) ∷ [])
        ∷ ("x_from_d", xreg_0_4, dreg_5_9, (1, 1, 31) ∷ (3, 1, 22) ∷ (1, 0, 19) ∷ (1, 0, 16) ∷ [])
        ∷ [])
