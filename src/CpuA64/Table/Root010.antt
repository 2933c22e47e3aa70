-- ===== src/CpuA64/Table/Root010.antt =====
-- CpuA64/opcode_tab.py, the instructions under `root010`; a loop of the source is a `flat_map`.
use Prim.Native.String.{String, ◌++◌ as concat}
use text.Mathlib.Text.{◌==◌ as str_eq}
use cwerg.Prelude.{List, [], ◌∷◌, ◌++◌, flat_map, if◌then◌else◌}
use cwerg.CpuA32.Pack.{NatPattern}
use cwerg.CpuA64.Fields.{
  OperandKind, wreg_0_4, wreg_5_9, wreg_10_14, wreg_16_20, xreg_0_4, xreg_5_9, xreg_10_14,
  xreg_16_20, wreg_0_4_sp, wreg_5_9_sp, xreg_0_4_sp, xreg_5_9_sp, imm_10_15, simm_15_21_times4,
  simm_15_21_times8, shift_22_23, shift_10_12_limit4,
}
use cwerg.CpuA64.Opcode.{atomic, load, stack_ops, store}
use cwerg.CpuA64.Table.Rows.{Row, root010, opcode, opcode_nz}

register_forms : String × NatPattern → List Row
unfolding opcode opcode_nz flat_map
register_forms (ext, w_bit) =
    let dst_reg = if str_eq ext "x" then xreg_0_4 else wreg_0_4 in
    let src1_reg = if str_eq ext "x" then xreg_5_9 else wreg_5_9 in
    let src2_reg = if str_eq ext "x" then xreg_16_20 else wreg_16_20 in
    flat_map
      (λ (name, bits).
        opcode name (concat ext "_reg") (root010 ∷ w_bit ∷ bits)
          (dst_reg ∷ src1_reg ∷ shift_22_23 ∷ src2_reg ∷ imm_10_15 ∷ []) []
        ∷ [])
      (("add", (3, 0, 29) ∷ (3, 3, 24) ∷ (1, 0, 21) ∷ [])
        ∷ ("and", (3, 0, 29) ∷ (3, 2, 24) ∷ (1, 0, 21) ∷ [])
        ∷ ("bic", (3, 0, 29) ∷ (3, 2, 24) ∷ (1, 1, 21) ∷ [])
        ∷ ("sub", (3, 2, 29) ∷ (3, 3, 24) ∷ (1, 0, 21) ∷ [])
        ∷ ("orr", (3, 1, 29) ∷ (3, 2, 24) ∷ (1, 0, 21) ∷ [])
        ∷ ("orn", (3, 1, 29) ∷ (3, 2, 24) ∷ (1, 1, 21) ∷ [])
        ∷ ("eor", (3, 2, 29) ∷ (3, 2, 24) ∷ (1, 0, 21) ∷ [])
        ∷ ("eon", (3, 2, 29) ∷ (3, 2, 24) ∷ (1, 1, 21) ∷ [])
        ∷ [])
    ++ flat_map
        (λ (name, bits).
          opcode_nz name (concat ext "_reg") (root010 ∷ w_bit ∷ bits)
            (dst_reg ∷ src1_reg ∷ shift_22_23 ∷ src2_reg ∷ imm_10_15 ∷ []) []
          ∷ [])
        (("adds", (3, 1, 29) ∷ (3, 3, 24) ∷ (1, 0, 21) ∷ [])
          ∷ ("ands", (3, 3, 29) ∷ (3, 2, 24) ∷ (1, 0, 21) ∷ [])
          ∷ ("bics", (3, 3, 29) ∷ (3, 2, 24) ∷ (1, 1, 21) ∷ [])
          ∷ ("subs", (3, 3, 29) ∷ (3, 3, 24) ∷ (1, 0, 21) ∷ [])
          ∷ [])

extended_forms : String × NatPattern → List Row
unfolding opcode opcode_nz flat_map
extended_forms (ext, w_bit) =
    let dst_reg = if str_eq ext "x" then xreg_0_4 else wreg_0_4 in
    let dst_reg_sp = if str_eq ext "x" then xreg_0_4_sp else wreg_0_4_sp in
    let src1_reg = if str_eq ext "x" then xreg_5_9 else wreg_5_9 in
    let src1_reg_sp = if str_eq ext "x" then xreg_5_9_sp else wreg_5_9_sp in
    let src2_reg = if str_eq ext "x" then xreg_16_20 else wreg_16_20 in
    flat_map
      (λ (ext2, option).
        flat_map
          (λ (name, bits).
            opcode name (concat (concat ext "_reg_") ext2) (root010 ∷ w_bit ∷ option ∷ bits)
              (dst_reg_sp ∷ src1_reg_sp ∷ shift_10_12_limit4 ∷ src2_reg ∷ []) (stack_ops ∷ [])
            ∷ [])
          (("add", (3, 0, 29) ∷ (0x1f, 0x19, 21) ∷ [])
            ∷ ("sub", (3, 2, 29) ∷ (0x1f, 0x19, 21) ∷ [])
            ∷ [])
        ++ flat_map
            (λ (name, bits).
              opcode_nz name (concat (concat ext "_reg_") ext2) (root010 ∷ w_bit ∷ option ∷ bits)
                (dst_reg ∷ src1_reg ∷ shift_10_12_limit4 ∷ src2_reg ∷ []) []
              ∷ [])
            (("adds", (3, 1, 29) ∷ (0x1f, 0x19, 21) ∷ [])
              ∷ ("subs", (3, 3, 29) ∷ (0x1f, 0x19, 21) ∷ [])
              ∷ []))
      (("b", (7, 0, 13))
        ∷ ("h", (7, 1, 13))
        ∷ ("w", (7, 2, 13))
        ∷ ("x", (7, 3, 13))
        ∷ ("sb", (7, 4, 13))
        ∷ ("sh", (7, 5, 13))
        ∷ ("sw", (7, 6, 13))
        ∷ ("sx", (7, 7, 13))
        ∷ [])

unfoldable pub register_arithmetic : List Row
unfolding register_forms extended_forms flat_map
register_arithmetic =
    flat_map (λ form. register_forms form ++ extended_forms form)
      (("w", (1, 0, 31)) ∷ ("x", (1, 1, 31)) ∷ [])

exclusive_forms : String × NatPattern → List Row
unfolding opcode
exclusive_forms (ext, w_bit) =
    let reg = if str_eq ext "x" then xreg_0_4 else wreg_0_4 in
    opcode "ldxr" ext (w_bit ∷ root010 ∷ (0xffff, 0x17df, 10) ∷ []) (reg ∷ xreg_5_9 ∷ [])
      (load ∷ atomic ∷ [])
    ∷ opcode "ldaxr" ext (w_bit ∷ root010 ∷ (0xffff, 0x17ff, 10) ∷ []) (reg ∷ xreg_5_9 ∷ [])
        (load ∷ atomic ∷ [])
    ∷ opcode "ldar" ext (w_bit ∷ root010 ∷ (0xffff, 0x37ff, 10) ∷ []) (reg ∷ xreg_5_9 ∷ [])
        (load ∷ atomic ∷ [])
    ∷ opcode "stxr" ext (w_bit ∷ root010 ∷ (0x1f, 0, 21) ∷ (0x3f, 0x1f, 10) ∷ [])
        (wreg_16_20 ∷ xreg_5_9 ∷ reg ∷ []) (store ∷ atomic ∷ [])
    ∷ opcode "stlxr" ext (w_bit ∷ root010 ∷ (0x1f, 0, 21) ∷ (0x3f, 0x3f, 10) ∷ [])
        (wreg_16_20 ∷ xreg_5_9 ∷ reg ∷ []) (store ∷ atomic ∷ [])
    ∷ opcode "stlr" ext (w_bit ∷ root010 ∷ (0xffff, 0x27ff, 10) ∷ []) (xreg_5_9 ∷ reg ∷ [])
        (store ∷ atomic ∷ [])
    ∷ []

unfoldable pub exclusives : List Row
unfolding exclusive_forms flat_map
exclusives =
    flat_map exclusive_forms
      (("x", (7, 6, 29)) ∷ ("w", (7, 4, 29)) ∷ ("h", (7, 2, 29)) ∷ ("b", (7, 0, 29)) ∷ [])

load_pair_forms : String × NatPattern × OperandKind → List Row
unfolding opcode
load_pair_forms (ext, w_bit, imm) =
    let dst1 = if str_eq ext "x" then xreg_0_4 else wreg_0_4 in
    let dst2 = if str_eq ext "x" then xreg_10_14 else wreg_10_14 in
    opcode "ldp" (concat ext "_imm_post") (w_bit ∷ root010 ∷ (0xf, 3, 22) ∷ [])
      (dst1 ∷ dst2 ∷ xreg_5_9 ∷ imm ∷ []) (load ∷ [])
    ∷ opcode "ldp" (concat ext "_imm_pre") (w_bit ∷ root010 ∷ (0xf, 7, 22) ∷ [])
        (dst1 ∷ dst2 ∷ xreg_5_9 ∷ imm ∷ []) (load ∷ [])
    ∷ opcode "ldp" (concat ext "_imm") (w_bit ∷ root010 ∷ (0xf, 5, 22) ∷ [])
        (dst1 ∷ dst2 ∷ xreg_5_9 ∷ imm ∷ []) (load ∷ [])
    ∷ []

unfoldable pub load_pairs : List Row
unfolding load_pair_forms flat_map
load_pairs = flat_map load_pair_forms (
    ("x", (7, 5, 29), simm_15_21_times8)
    ∷ ("w", (7, 1, 29), simm_15_21_times4)
    ∷ ("sw", (7, 3, 29), simm_15_21_times4)
    ∷ [])

store_pair_forms : String × NatPattern × OperandKind → List Row
unfolding opcode
store_pair_forms (ext, w_bit, imm) =
    let src1 = if str_eq ext "x" then xreg_0_4 else wreg_0_4 in
    let src2 = if str_eq ext "x" then xreg_10_14 else wreg_10_14 in
    opcode "stp" (concat ext "_imm_post") (w_bit ∷ root010 ∷ (0xf, 2, 22) ∷ [])
      (xreg_5_9 ∷ imm ∷ src1 ∷ src2 ∷ []) (store ∷ [])
    ∷ opcode "stp" (concat ext "_imm_pre") (w_bit ∷ root010 ∷ (0xf, 6, 22) ∷ [])
        (xreg_5_9 ∷ imm ∷ src1 ∷ src2 ∷ []) (store ∷ [])
    ∷ opcode "stp" (concat ext "_imm") (w_bit ∷ root010 ∷ (0xf, 4, 22) ∷ [])
        (xreg_5_9 ∷ imm ∷ src1 ∷ src2 ∷ []) (store ∷ [])
    ∷ []

unfoldable pub store_pairs : List Row
unfolding store_pair_forms flat_map
store_pairs =
    flat_map store_pair_forms
      (("x", (7, 5, 29), simm_15_21_times8) ∷ ("w", (7, 1, 29), simm_15_21_times4) ∷ [])
