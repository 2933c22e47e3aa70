-- ===== src/CpuA64/Table/Root100.antt =====
-- CpuA64/opcode_tab.py, the instructions under `root011` and `root100`; a loop of the source is a `flat_map`.
use Prim.Native.String.{String, ◌++◌ as concat}
use text.Mathlib.Text.{◌==◌ as str_eq}
use cwerg.Prelude.{List, [], ◌∷◌, ◌++◌, flat_map, if◌then◌else◌}
use cwerg.CpuA32.Pack.{NatPattern}
use cwerg.CpuA64.Fields.{
  OperandKind, wreg_0_4, wreg_5_9, wreg_16_20, xreg_0_4, xreg_5_9, xreg_16_20, sreg_0_4, sreg_10_14,
  dreg_0_4, dreg_10_14, qreg_0_4, qreg_10_14, wreg_0_4_sp, wreg_5_9_sp, xreg_0_4_sp, xreg_5_9_sp,
  imm_10_21_22, imm_10_15, imm_10_15_16_22, imm_5_20, imm_16_22, imm_5_20_21_22, imm_5_20_21_22_not,
  simm_15_21_times4, simm_15_21_times8, simm_15_21_times16, simm_5_23_29_30, shift_21_22_times16,
}
use cwerg.CpuA64.Opcode.{load, stack_ops, store}
use cwerg.CpuA64.Table.Rows.{Row, root011, root100, opcode, opcode_nz}

float_pair_forms : String × OperandKind × OperandKind × OperandKind × NatPattern → List Row
unfolding opcode
float_pair_forms (ext, reg1, reg2, imm, bits) =
    opcode "fstp" (concat ext "_imm_post") (bits ∷ root011 ∷ (0xf, 2, 22) ∷ [])
      (xreg_5_9 ∷ imm ∷ reg1 ∷ reg2 ∷ []) (store ∷ [])
    ∷ opcode "fstp" (concat ext "_imm_pre") (bits ∷ root011 ∷ (0xf, 6, 22) ∷ [])
        (xreg_5_9 ∷ imm ∷ reg1 ∷ reg2 ∷ []) []
    ∷ opcode "fstp" (concat ext "_imm") (bits ∷ root011 ∷ (0xf, 4, 22) ∷ [])
        (xreg_5_9 ∷ imm ∷ reg1 ∷ reg2 ∷ []) (store ∷ [])
    ∷ opcode "fldp" (concat ext "_imm_post") (bits ∷ root011 ∷ (0xf, 3, 22) ∷ [])
        (reg1 ∷ reg2 ∷ xreg_5_9 ∷ imm ∷ []) (load ∷ [])
    ∷ opcode "fldp" (concat ext "_imm_pre") (bits ∷ root011 ∷ (0xf, 7, 22) ∷ [])
        (reg1 ∷ reg2 ∷ xreg_5_9 ∷ imm ∷ []) (load ∷ [])
    ∷ opcode "fldp" (concat ext "_imm") (bits ∷ root011 ∷ (0xf, 5, 22) ∷ [])
        (reg1 ∷ reg2 ∷ xreg_5_9 ∷ imm ∷ []) (load ∷ [])
    ∷ []

unfoldable pub float_pairs : List Row
unfolding float_pair_forms flat_map
float_pairs = flat_map float_pair_forms (
    ("s", sreg_0_4, sreg_10_14, simm_15_21_times4, (7, 1, 29))
    ∷ ("d", dreg_0_4, dreg_10_14, simm_15_21_times8, (7, 3, 29))
    ∷ ("q", qreg_0_4, qreg_10_14, simm_15_21_times16, (7, 5, 29))
    ∷ [])

immediate_arithmetic : String × NatPattern → List Row
unfolding opcode opcode_nz flat_map
immediate_arithmetic (ext, w_bit) =
    let dst_reg = if str_eq ext "x" then xreg_0_4 else wreg_0_4 in
    let dst_reg_sp = if str_eq ext "x" then xreg_0_4_sp else wreg_0_4_sp in
    let src1_reg = if str_eq ext "x" then xreg_5_9 else wreg_5_9 in
    let src1_reg_sp = if str_eq ext "x" then xreg_5_9_sp else wreg_5_9_sp in
    flat_map
      (λ (name, bits).
        opcode name (concat "imm_" ext) (root100 ∷ w_bit ∷ (1, 0, 23) ∷ bits)
          (dst_reg_sp ∷ src1_reg_sp ∷ imm_10_21_22 ∷ []) (stack_ops ∷ [])
        ∷ [])
      (("add", (3, 0, 29) ∷ (3, 1, 24) ∷ []) ∷ ("sub", (3, 2, 29) ∷ (3, 1, 24) ∷ []) ∷ [])
    ++ flat_map
        (λ (name, bits).
          opcode_nz name (concat "imm_" ext) (root100 ∷ w_bit ∷ (1, 0, 23) ∷ bits)
            (dst_reg ∷ src1_reg ∷ imm_10_21_22 ∷ []) []
          ∷ [])
        (("adds", (3, 1, 29) ∷ (3, 1, 24) ∷ []) ∷ ("subs", (3, 3, 29) ∷ (3, 1, 24) ∷ []) ∷ [])
    ++ flat_map
        (λ (name, bits).
          opcode name (concat "imm_" ext) (root100 ∷ w_bit ∷ bits)
            (dst_reg_sp ∷ src1_reg ∷ imm_10_15_16_22 ∷ []) (stack_ops ∷ [])
          ∷ [])
        (("and", (3, 0, 29) ∷ (7, 4, 23) ∷ [])
          ∷ ("eor", (3, 2, 29) ∷ (7, 4, 23) ∷ [])
          ∷ ("orr", (3, 1, 29) ∷ (7, 4, 23) ∷ [])
          ∷ [])
    ++ flat_map
        (λ (name, bits).
          opcode_nz name (concat "imm_" ext) (root100 ∷ w_bit ∷ bits)
            (dst_reg ∷ src1_reg ∷ imm_10_15_16_22 ∷ []) []
          ∷ [])
        (("ands", (3, 3, 29) ∷ (7, 4, 23) ∷ []) ∷ [])

bitfields_and_moves : String × NatPattern → List Row
unfolding opcode flat_map
bitfields_and_moves (ext, w_bit) =
    let dst_reg = if str_eq ext "x" then xreg_0_4 else wreg_0_4 in
    let src1_reg = if str_eq ext "x" then xreg_5_9 else wreg_5_9 in
    let src2_reg = if str_eq ext "x" then xreg_16_20 else wreg_16_20 in
    flat_map
      (λ (name, bits).
        opcode name ext (root100 ∷ w_bit ∷ bits) (dst_reg ∷ src1_reg ∷ imm_16_22 ∷ imm_10_15 ∷ [])
          []
        ∷ [])
      (("bfm", (3, 1, 29) ∷ (7, 6, 23) ∷ [])
        ∷ ("ubfm", (3, 2, 29) ∷ (7, 6, 23) ∷ [])
        ∷ ("sbfm", (3, 0, 29) ∷ (7, 6, 23) ∷ [])
        ∷ [])
    ++ opcode "extr" ext
        (w_bit
          ∷ (3, 0, 29)
          ∷ root100
          ∷ (7, 7, 23)
          ∷ (1, (if str_eq ext "x" then 1 else 0), 22)
          ∷ (1, 0, 21)
          ∷ [])
        (dst_reg ∷ src1_reg ∷ src2_reg ∷ imm_10_15 ∷ []) []
      ∷ opcode "movk" ext (w_bit ∷ (3, 3, 29) ∷ root100 ∷ (7, 5, 23) ∷ [])
          (dst_reg ∷ shift_21_22_times16 ∷ imm_5_20 ∷ []) []
      ∷ opcode "movz" (concat ext "_imm") (w_bit ∷ (3, 2, 29) ∷ root100 ∷ (7, 5, 23) ∷ [])
          (dst_reg ∷ imm_5_20_21_22 ∷ []) []
      ∷ opcode "movn" (concat ext "_imm_") (w_bit ∷ (3, 0, 29) ∷ root100 ∷ (7, 5, 23) ∷ [])
          (dst_reg ∷ imm_5_20_21_22_not ∷ []) []
      ∷ []

unfoldable pub immediates : List Row
unfolding immediate_arithmetic bitfields_and_moves flat_map
immediates =
    flat_map (λ form. immediate_arithmetic form ++ bitfields_and_moves form)
      (("w", (1, 0, 31)) ∷ ("x", (1, 1, 31)) ∷ [])

unfoldable pub addresses : List Row
unfolding opcode
addresses =
    opcode "adr" "" (root100 ∷ (1, 0, 31) ∷ (3, 0, 24) ∷ []) (xreg_0_4 ∷ simm_5_23_29_30 ∷ []) []
    ∷ opcode "adrp" "" (root100 ∷ (1, 1, 31) ∷ (3, 0, 24) ∷ []) (xreg_0_4 ∷ simm_5_23_29_30 ∷ []) []
    ∷ []
