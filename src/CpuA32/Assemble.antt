-- ===== src/CpuA32/Assemble.antt =====
-- CpuA32/opcode_tab.py, `AssembleOperands` against `DisassembleOperands`.
use Prim.Native.Nat.{bit_and}
use cwerg.Prelude.{ℕ, ◌<◌, ◌^◌, ◌≡◌, some, List, length, ==_refl}
use cwerg.Prelude.Int.{ℤ, pos}
use cwerg.Arm.Words.{
  AllInRange as AllInRangeOf, IsLaidOut as IsLaidOutOf, MakesWord, length-AllInRange,
  laid_out-MakesWord,
}
use cwerg.CpuA32.Fields.{OperandKind}
use cwerg.CpuA32.Operands.{a32_codec}
use cwerg.CpuA32.Opcode.{Opcode, assemble_operands, disassemble_operands}

-- One value in range for each operand.
abbrev pub AllInRange : List OperandKind → List ℤ → Type 0
AllInRange fs os = AllInRangeOf a32_codec fs os

-- The fixed bits and the operands share no bit and fill the word; the fixed value lies in its mask.
abbrev pub IsLaidOut : Opcode → Type 0
IsLaidOut o = IsLaidOutOf a32_codec o.bit_mask o.bit_value o.fields

-- The operands are assembled into a 32-bit word, from which they are read back.
abbrev pub Assembles : Opcode → List ℤ → Type 0
Assembles o os =
    (word : ℕ) × (assemble_operands o os ≡ some (pos word))
    × (word < 2 ^ 32)
    × (disassemble_operands o word ≡ some os)
    × (bit_and word o.bit_mask ≡ o.bit_value)

made_word :
    (o : Opcode) (os : List ℤ)
    → length os ≡ length o.fields
    → MakesWord a32_codec o.bit_mask o.bit_value o.fields os
    → Assembles o os
unfolding assemble_operands disassemble_operands
made_word o os same (word, ps, there, packed, bound, back, own) =
    (word, rw (same, ==_refl, there, packed), bound, rw (own, ==_refl, back), own)

pub laid_out-Assembles :
    (o : Opcode) (os : List ℤ) → IsLaidOut o → AllInRange o.fields os → Assembles o os
laid_out-Assembles o os sound range =
    made_word o os (length-AllInRange a32_codec o.fields os range)
      (laid_out-MakesWord a32_codec o.bit_mask o.bit_value o.fields os sound range)
