-- ===== src/CpuA64/Table/Root110Select.antt =====
-- CpuA64/opcode_tab.py, the conditional instructions and those on bits under `root110`; a loop of the source is a `flat_map`.
use Prim.Native.String.{String, ◌++◌ as concat}
use text.Mathlib.Text.{◌==◌ as str_eq}
use cwerg.Prelude.{not, List, [], ◌∷◌, ◌++◌, flat_map, if◌then◌else◌}
use cwerg.CpuA32.Pack.{NatPattern}
use cwerg.CpuA64.Fields.{
  wreg_0_4, wreg_5_9, wreg_16_20, xreg_0_4, xreg_5_9, xreg_16_20, imm_0_3, imm_16_20,
}
use cwerg.CpuA64.Opcode.{cond_param}
use cwerg.CpuA64.Table.Rows.{Row, root110, conditions, opcode}

conditional_forms : String × NatPattern → List Row
unfolding opcode flat_map
conditional_forms (ext, w_bits) =
    let dst_reg = if str_eq ext "x" then xreg_0_4 else wreg_0_4 in
    let src1_reg = if str_eq ext "x" then xreg_5_9 else wreg_5_9 in
    let src2_reg = if str_eq ext "x" then xreg_16_20 else wreg_16_20 in
    flat_map
      (λ (cond_val, cond_name).
        flat_map
          (λ (name, bits).
            opcode name (concat ext (concat "_" cond_name))
              (w_bits ∷ root110 ∷ (0x1f, 0x14, 21) ∷ (0xf, cond_val, 12) ∷ bits)
              (dst_reg ∷ src1_reg ∷ src2_reg ∷ []) (cond_param ∷ [])
            ∷ [])
          (("csel", (3, 0, 29) ∷ (3, 0, 10) ∷ [])
            ∷ ("csneg", (3, 2, 29) ∷ (3, 1, 10) ∷ [])
            ∷ ("csinc", (3, 0, 29) ∷ (3, 1, 10) ∷ [])
            ∷ ("csinv", (3, 2, 29) ∷ (3, 0, 10) ∷ [])
            ∷ [])
        ++ flat_map
            (λ (name, bits).
              opcode name (concat ext (concat "_reg_" cond_name))
                (w_bits
                  ∷ bits
                  ∷ root110
                  ∷ (0x1f, 0x12, 21)
                  ∷ (0xf, cond_val, 12)
                  ∷ (3, 0, 10)
                  ∷ (1, 0, 4)
                  ∷ [])
                (src1_reg ∷ src2_reg ∷ imm_0_3 ∷ []) []
              ∷ opcode name (concat ext (concat "_imm_" cond_name))
                  (w_bits
                    ∷ bits
                    ∷ root110
                    ∷ (0x1f, 0x12, 21)
                    ∷ (0xf, cond_val, 12)
                    ∷ (3, 2, 10)
                    ∷ (1, 0, 4)
                    ∷ [])
                  (src1_reg ∷ imm_16_20 ∷ imm_0_3 ∷ []) []
              ∷ [])
            (("ccmp", (3, 3, 29)) ∷ ("ccmn", (3, 1, 29)) ∷ []))
      conditions

unfoldable pub conditionals : List Row
unfolding conditional_forms flat_map
conditionals = flat_map conditional_forms (("w", (1, 0, 31)) ∷ ("x", (1, 1, 31)) ∷ [])

bit_forms : String × String × List NatPattern → List Row
unfolding opcode
bit_forms (name, ext, bits) =
    let dst = if not (str_eq ext "w") then xreg_0_4 else wreg_0_4 in
    let src = if not (str_eq ext "w") then xreg_5_9 else wreg_5_9 in
    opcode name ext (root110 ∷ (0x1fff, 0x1600, 13) ∷ bits) (dst ∷ src ∷ []) [] ∷ []

unfoldable pub bit_operations : List Row
unfolding bit_forms flat_map
bit_operations = flat_map bit_forms (
    ("rbit", "x", (7, 6, 29) ∷ (7, 0, 10) ∷ [])
    ∷ ("rbit", "w", (7, 2, 29) ∷ (7, 0, 10) ∷ [])
    ∷ ("clz", "x", (7, 6, 29) ∷ (7, 4, 10) ∷ [])
    ∷ ("clz", "w", (7, 2, 29) ∷ (7, 4, 10) ∷ [])
    ∷ ("cls", "x", (7, 6, 29) ∷ (7, 5, 10) ∷ [])
    ∷ ("cls", "w", (7, 2, 29) ∷ (7, 5, 10) ∷ [])
    ∷ ("rev", "x", (7, 6, 29) ∷ (7, 3, 10) ∷ [])
    ∷ ("rev", "w", (7, 2, 29) ∷ (7, 2, 10) ∷ [])
    ∷ ("rev32", "", (7, 6, 29) ∷ (7, 2, 10) ∷ [])
    ∷ ("rev16", "x", (7, 6, 29) ∷ (7, 1, 10) ∷ [])
    ∷ ("rev16", "w", (7, 2, 29) ∷ (7, 1, 10) ∷ [])
    ∷ [])
