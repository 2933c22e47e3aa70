-- ===== src/CpuA32/TableLoads.antt =====
-- CpuA32/opcode_tab.py, what the assertions made at load time establish of the table.
use Prim.Native.Nat.{bit_and}
use cwerg.Prelude.{
  ℕ, Bool, true, false, ◌≡◌, refl, some, none, ◌==◌, ◌&&◌, all, List, ◌∷◌, flat_map, get_elem?,
  all-get_elem?, arith,
}
use cwerg.Prelude.Int.{ℤ}
use cwerg.Prelude.Word.{ones}
use cwerg.CpuA32.Pack.{claim}
use cwerg.CpuA32.Opcode.{Opcode, ins_classifier}
use cwerg.CpuA32.Operands.{operand_claims}
use cwerg.CpuA32.Table.{opcode_table}
use cwerg.CpuA32.Assemble.{AllInRange, Assembles, IsLaidOut, laid_out-Assembles}

-- the layout of an opcode, as a test
pub layout_test : Opcode → Bool
layout_test o =
    elim (claim 0 ((o.bit_mask, 0) ∷ flat_map operand_claims o.fields)) [
      | none ↦ false
      | some m ↦ m == 0xffffffff
    ]
    && bit_and o.bit_value o.bit_mask == o.bit_value
    && bit_and o.bit_mask ins_classifier == ins_classifier

abbrev pub IsSound : Opcode → Type 0
IsSound o = IsLaidOut o × (bit_and o.bit_mask ins_classifier ≡ ins_classifier)

pub layout_test-IsSound : (o : Opcode) → layout_test o ≡ true → IsSound o
unfolding layout_test
layout_test-IsSound o h = ground arith

pub table_layout : all layout_test opcode_table ≡ true
unfolding opcode_table layout_test claim operand_claims ones
table_layout = refl

pub opcode-IsSound : (n : ℕ) (o : Opcode) → get_elem? opcode_table n ≡ some o → IsSound o
opcode-IsSound n o e =
    layout_test-IsSound o (all-get_elem? layout_test opcode_table n table_layout e)

-- Each opcode of the table assembles operands in range to a 32-bit word that has the opcode's fixed
-- bits, and disassembles that word to the same operands.
pub disassemble_operands-assemble_operands :
    (n : ℕ) (o : Opcode) (os : List ℤ)
    → get_elem? opcode_table n ≡ some o
    → AllInRange o.fields os
    → Assembles o os
disassemble_operands-assemble_operands n o os e range =
    laid_out-Assembles o os (opcode-IsSound n o e).0 range
