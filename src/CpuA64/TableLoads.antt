-- ===== src/CpuA64/TableLoads.antt =====
-- CpuA64/opcode_tab.py, what the assertions made at load time establish of the table, and
-- `AssembleOperands` against `DisassembleOperands`.
use Prim.Native.Nat.{bit_and}
use cwerg.Prelude.{
  ℕ, ◌^◌, ◌<◌, Bool, true, false, ◌≡◌, refl, some, none, ◌==◌, ◌&&◌, all, List, ◌∷◌, flat_map,
  get_elem?, all-get_elem?, length, ==_refl, arith,
}
use cwerg.Prelude.Int.{ℤ, pos}
use cwerg.Prelude.Word.{ones}
use cwerg.Arm.Words.{AllInRange, IsLaidOut, MakesWord, length-AllInRange, laid_out-MakesWord}
use cwerg.CpuA32.Pack.{claim}
use cwerg.CpuA64.Opcode.{Opcode, assemble_operands, disassemble_operands}
use cwerg.CpuA64.Operands.{operand_claims, a64_codec}
use cwerg.CpuA64.Table.{opcode_table}

-- the layout of an opcode, as a test
layout_test : Opcode → Bool
layout_test o =
    elim (claim 0 ((o.bit_mask, 0) ∷ flat_map operand_claims o.fields)) [
      | none ↦ false
      | some m ↦ m == 0xffffffff
    ]
    && bit_and o.bit_value o.bit_mask == o.bit_value

abbrev LaidOut : Opcode → Type 0
LaidOut o = IsLaidOut a64_codec o.bit_mask o.bit_value o.fields

layout_test-LaidOut : (o : Opcode) → layout_test o ≡ true → LaidOut o
unfolding layout_test
layout_test-LaidOut o h = ground arith

table_layout : all layout_test opcode_table ≡ true
unfolding opcode_table layout_test claim operand_claims ones
table_layout = refl

-- The opcode assembles the operands to a word of 32 bits that it matches and disassembles to them.
abbrev pub AssembledAndBack : Opcode → List ℤ → Type 0
AssembledAndBack o os =
    (word : ℕ) × (assemble_operands o os ≡ some (pos word))
    × (word < 2 ^ 32)
    × (bit_and word o.bit_mask ≡ o.bit_value)
    × (disassemble_operands o word ≡ some os)

made_word :
    (o : Opcode) (os : List ℤ)
    → length os ≡ length o.fields
    → MakesWord a64_codec o.bit_mask o.bit_value o.fields os
    → AssembledAndBack o os
unfolding assemble_operands disassemble_operands
made_word o os same (word, ps, there, packed, bound, back, hit) =
    (word, rw (same, ==_refl, there, packed), bound, hit, rw (hit, ==_refl, back))

-- Each opcode of the table assembles operands in range to a 32-bit word that has the opcode's fixed
-- bits, and disassembles that word to the same operands.
pub opcode_table-AssembledAndBack :
    (n : ℕ) (o : Opcode) (os : List ℤ)
    → get_elem? opcode_table n ≡ some o
    → AllInRange a64_codec o.fields os
    → AssembledAndBack o os
opcode_table-AssembledAndBack n o os e range =
    let sound = layout_test-LaidOut o (all-get_elem? layout_test opcode_table n table_layout e) in
    made_word o os (length-AllInRange a64_codec o.fields os range)
      (laid_out-MakesWord a64_codec o.bit_mask o.bit_value o.fields os sound range)
