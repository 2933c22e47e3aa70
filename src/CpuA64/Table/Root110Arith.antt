-- ===== src/CpuA64/Table/Root110Arith.antt =====
-- CpuA64/opcode_tab.py, the arithmetic instructions under `root110`; a loop of the source is a `flat_map`.
use Prim.Native.String.{String}
use text.Mathlib.Text.{◌==◌ as str_eq}
use cwerg.Prelude.{List, [], ◌∷◌, ◌++◌, flat_map, if◌then◌else◌}
use cwerg.CpuA32.Pack.{NatPattern}
use cwerg.CpuA64.Fields.{
  wreg_0_4, wreg_5_9, wreg_10_14, wreg_16_20, xreg_0_4, xreg_5_9, xreg_10_14, xreg_16_20,
}
use cwerg.CpuA64.Table.Rows.{Row, root110, opcode, opcode_nz}

divide_forms : String × NatPattern → List Row
unfolding opcode opcode_nz flat_map
divide_forms (ext, w_bit) =
    let dst_reg = if str_eq ext "x" then xreg_0_4 else wreg_0_4 in
    let src1_reg = if str_eq ext "x" then xreg_5_9 else wreg_5_9 in
    let src2_reg = if str_eq ext "x" then xreg_16_20 else wreg_16_20 in
    let src3_reg = if str_eq ext "x" then xreg_10_14 else wreg_10_14 in
    flat_map
      (λ (name, bits).
        opcode name ext (root110 ∷ w_bit ∷ (3, 3, 24) ∷ (7, 0, 21) ∷ bits)
          (dst_reg ∷ src1_reg ∷ src2_reg ∷ src3_reg ∷ []) []
        ∷ [])
      (("madd", (3, 0, 29) ∷ (1, 0, 15) ∷ []) ∷ ("msub", (3, 0, 29) ∷ (1, 1, 15) ∷ []) ∷ [])
    ++ flat_map
        (λ (name, bits).
          opcode name ext (root110 ∷ w_bit ∷ bits) (dst_reg ∷ src1_reg ∷ src2_reg ∷ []) [] ∷ [])
        (("udiv", (3, 0, 29) ∷ (0x1f, 0x16, 21) ∷ (0x3f, 2, 10) ∷ [])
          ∷ ("sdiv", (3, 0, 29) ∷ (0x1f, 0x16, 21) ∷ (0x3f, 3, 10) ∷ [])
          ∷ ("lslv", (3, 0, 29) ∷ (0x1f, 0x16, 21) ∷ (0x3f, 8, 10) ∷ [])
          ∷ ("lsrv", (3, 0, 29) ∷ (0x1f, 0x16, 21) ∷ (0x3f, 9, 10) ∷ [])
          ∷ ("asrv", (3, 0, 29) ∷ (0x1f, 0x16, 21) ∷ (0x3f, 0xa, 10) ∷ [])
          ∷ ("rorv", (3, 0, 29) ∷ (0x1f, 0x16, 21) ∷ (0x3f, 0xb, 10) ∷ [])
          ∷ ("adc", (3, 0, 29) ∷ (0x1f, 0x10, 21) ∷ (0x3f, 0, 10) ∷ [])
          ∷ ("sbc", (3, 2, 29) ∷ (0x1f, 0x10, 21) ∷ (0x3f, 0, 10) ∷ [])
          ∷ [])
    ++ flat_map
        (λ (name, bits).
          opcode_nz name ext (root110 ∷ w_bit ∷ bits) (dst_reg ∷ src1_reg ∷ src2_reg ∷ []) [] ∷ [])
        (("adcs", (3, 1, 29) ∷ (0x1f, 0x10, 21) ∷ (0x3f, 0, 10) ∷ [])
          ∷ ("sbcs", (3, 3, 29) ∷ (0x1f, 0x10, 21) ∷ (0x3f, 0, 10) ∷ [])
          ∷ [])

unfoldable pub multiplies_and_divides : List Row
unfolding divide_forms flat_map
multiplies_and_divides = flat_map divide_forms (("w", (1, 0, 31)) ∷ ("x", (1, 1, 31)) ∷ [])

unfoldable pub long_multiplies : List Row
unfolding opcode flat_map
long_multiplies =
    flat_map
      (λ (name, bits).
        opcode name "" (root110 ∷ (1, 1, 31) ∷ (3, 3, 24) ∷ bits)
          (xreg_0_4 ∷ wreg_5_9 ∷ wreg_16_20 ∷ xreg_10_14 ∷ []) []
        ∷ [])
      (("smaddl", (3, 0, 29) ∷ (7, 1, 21) ∷ (1, 0, 15) ∷ [])
        ∷ ("smsubl", (3, 0, 29) ∷ (7, 1, 21) ∷ (1, 1, 15) ∷ [])
        ∷ ("umaddl", (3, 0, 29) ∷ (7, 5, 21) ∷ (1, 0, 15) ∷ [])
        ∷ ("umsubl", (3, 0, 29) ∷ (7, 5, 21) ∷ (1, 1, 15) ∷ [])
        ∷ [])
    ++ flat_map
        (λ (name, bits).
          opcode name "" (root110 ∷ (1, 1, 31) ∷ (3, 3, 24) ∷ (0x1f, 0x1f, 10) ∷ bits)
            (xreg_0_4 ∷ xreg_5_9 ∷ xreg_16_20 ∷ []) []
          ∷ [])
        (("smulh", (3, 0, 29) ∷ (7, 2, 21) ∷ (1, 0, 15) ∷ [])
          ∷ ("umulh", (3, 0, 29) ∷ (7, 6, 21) ∷ (1, 0, 15) ∷ [])
          ∷ [])
