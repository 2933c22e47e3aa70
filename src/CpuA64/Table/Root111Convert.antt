-- ===== src/CpuA64/Table/Root111Convert.antt =====
-- CpuA64/opcode_tab.py, the conversions under `root111`; a loop of the source is a `flat_map`.
use Prim.Native.String.{String, ◌++◌ as concat}
use text.Mathlib.Text.{◌==◌ as str_eq}
use cwerg.Prelude.{not, List, [], ◌∷◌, flat_map, if◌then◌else◌}
use cwerg.CpuA32.Pack.{NatPattern}
use cwerg.CpuA64.Fields.{
  OperandKind, wreg_0_4, wreg_5_9, xreg_0_4, xreg_5_9, sreg_0_4, sreg_5_9, dreg_0_4, dreg_5_9,
  hreg_0_4, hreg_5_9,
}
use cwerg.CpuA64.Table.Rows.{Row, root111, opcode}

unfoldable pub float_precisions : List Row
unfolding opcode flat_map
float_precisions =
    flat_map
      (λ (dst_ext, dst_reg, dst_bits).
        flat_map
          (λ (src_ext, src_reg, src_bits).
            (if not (str_eq src_ext dst_ext)
              then opcode "fcvt" (concat (concat dst_ext "_") src_ext)
                  ((7, 0, 29)
                    ∷ root111
                    ∷ (3, 2, 24)
                    ∷ src_bits
                    ∷ (0x1f, 0x11, 17)
                    ∷ dst_bits
                    ∷ (0x1f, 0x10, 10)
                    ∷ [])
                  (dst_reg ∷ src_reg ∷ []) []
                ∷ []
              else []))
          (("h", hreg_5_9, (3, 3, 22))
            ∷ ("s", sreg_5_9, (3, 0, 22))
            ∷ ("d", dreg_5_9, (3, 1, 22))
            ∷ []))
      (("h", hreg_0_4, (3, 3, 15)) ∷ ("s", sreg_0_4, (3, 0, 15)) ∷ ("d", dreg_0_4, (3, 1, 15)) ∷ [])

float_to_int_forms : String × OperandKind × NatPattern → List Row
unfolding opcode flat_map
float_to_int_forms (dst_ext, dst_reg, dst_bits) =
    flat_map
      (λ (type_ext, bits).
        flat_map
          (λ (src_ext, src_reg, src_bits).
            opcode (concat "fcvt" type_ext) (concat (concat dst_ext "_") src_ext)
              (dst_bits ∷ (3, 0, 29) ∷ root111 ∷ (7, 4, 23) ∷ src_bits ∷ bits ∷ [])
              (dst_reg ∷ src_reg ∷ []) []
            ∷ [])
          (("s", sreg_5_9, (1, 0, 22)) ∷ ("d", dreg_5_9, (1, 1, 22)) ∷ []))
      (("as", (0xfff, 0x900, 10))
        ∷ ("au", (0xfff, 0x940, 10))
        ∷ ("ms", (0xfff, 0xc00, 10))
        ∷ ("mu", (0xfff, 0xc40, 10))
        ∷ ("ns", (0xfff, 0x800, 10))
        ∷ ("nu", (0xfff, 0x840, 10))
        ∷ ("ps", (0xfff, 0xa00, 10))
        ∷ ("pu", (0xfff, 0xa40, 10))
        ∷ ("zs", (0xfff, 0xe00, 10))
        ∷ ("zu", (0xfff, 0xe40, 10))
        ∷ [])

unfoldable pub float_to_int : List Row
unfolding float_to_int_forms flat_map
float_to_int =
    flat_map float_to_int_forms (("w", wreg_0_4, (1, 0, 31)) ∷ ("x", xreg_0_4, (1, 1, 31)) ∷ [])

int_to_float_forms : String × OperandKind × NatPattern → List Row
unfolding opcode flat_map
int_to_float_forms (src_ext, src_reg, src_bits) =
    flat_map
      (λ (dst_ext, dst_reg, dst_bits).
        opcode "scvtf" (concat (concat dst_ext "_from_") src_ext)
          (src_bits ∷ (3, 0, 29) ∷ root111 ∷ (7, 4, 23) ∷ dst_bits ∷ (0xfff, 0x880, 10) ∷ [])
          (dst_reg ∷ src_reg ∷ []) []
        ∷ opcode "ucvtf" (concat (concat dst_ext "_from_") src_ext)
            (src_bits ∷ (3, 0, 29) ∷ root111 ∷ (7, 4, 23) ∷ dst_bits ∷ (0xfff, 0x8c0, 10) ∷ [])
            (dst_reg ∷ src_reg ∷ []) []
        ∷ [])
      (("s", sreg_0_4, (1, 0, 22)) ∷ ("d", dreg_0_4, (1, 1, 22)) ∷ [])

unfoldable pub int_to_float : List Row
unfolding int_to_float_forms flat_map
int_to_float =
    flat_map int_to_float_forms (("w", wreg_5_9, (1, 0, 31)) ∷ ("x", xreg_5_9, (1, 1, 31)) ∷ [])
