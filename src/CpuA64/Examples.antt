-- ===== src/CpuA64/Examples.antt =====
-- CpuA64/opcode_tab.py at concrete instructions and words.
use cwerg.Prelude.{
  ℕ, ◌<◌, ◌^◌, ◌+◌, true, ◌≡◌, ◌≢◌, refl, none, some, List, [], ◌∷◌, get_elem?, arith,
}
use cwerg.Prelude.Int.{ℤ, pos, negsuc}
use cwerg.Prelude.Word.{shl}
use cwerg.CpuA32.Ints.{bits}
use cwerg.Arm.Words.{AllInRange}
use cwerg.Arm.Codec.{Encodes}
use cwerg.CpuA32.Opcode.{unchanged, na}
use cwerg.CpuA64.Fields.{
  xreg_0_4, xreg_5_9, shift_22_23, xreg_16_20, imm_10_15, imm_flt_zero, encode_operand,
  decode_operand, imm_19_23_31, simm_0_25, shift_12_14_15_x,
}
use cwerg.CpuA64.Opcode.{Opcode, find_opcode, find_first, matches, assemble, disassemble_operands}
use cwerg.CpuA64.Operands.{operand_claims, a64_codec, a64_operand_encodes}
use cwerg.CpuA64.Table.{opcode_table}
use cwerg.CpuA64.Find.{find_opcode-whole_table}
use cwerg.CpuA64.Separate.{opcode_table-unambiguous, find_opcode-assemble}
use cwerg.CpuA64.Unchecked.{encode_operand-negative, encode_operand-bit_number}

-- `add_x_reg`, entry 44 of the table
abbrev add_x_reg : Opcode
add_x_reg = record {
  name = "add";
  variant = "x_reg";
  bit_mask = 0xff200000;
  bit_value = 0x8b000000;
  fields = xreg_0_4 ∷ xreg_5_9 ∷ shift_22_23 ∷ xreg_16_20 ∷ imm_10_15 ∷ [];
  classes = [];
  sr_update = unchanged;
  mem_width = na;
}

-- x0, x1, lsl, x2, 3
abbrev operands : List ℤ
operands = pos 0 ∷ pos 1 ∷ pos 0 ∷ pos 2 ∷ pos 3 ∷ []

entry_44 : get_elem? opcode_table 44 ≡ some add_x_reg
unfolding opcode_table
entry_44 = refl

in_range : AllInRange a64_codec add_x_reg.fields operands
in_range = (
  (0, refl, omega arith),
  (
    (1, refl, omega arith),
    ((0, refl, omega arith), ((2, refl, omega arith), ((3, refl, omega arith), tt))),
  ),
)

-- The word of the instruction is 0x8b020c20.
assembled_word :
    assemble (record { opcode = add_x_reg; operands = operands }) ≡ some (pos 0x8b020c20)
unfolding assemble encode_operand shl bits
assembled_word = refl

matched : matches 0x8b020c20 add_x_reg ≡ true
unfolding matches
matched = refl

find_opcode-assemble_example :
    (word : ℕ) × (assemble (record { opcode = add_x_reg; operands = operands }) ≡ some (pos word))
    × (word < 2 ^ 32)
    × (find_opcode opcode_table word ≡ some (some add_x_reg))
    × (disassemble_operands add_x_reg word ≡ some operands)
find_opcode-assemble_example = find_opcode-assemble 44 add_x_reg operands entry_44 in_range

find_opcode-whole_table_example :
    find_opcode opcode_table 0x8b020c20 ≡ some (find_first 0x8b020c20 opcode_table)
find_opcode-whole_table_example = find_opcode-whole_table 0x8b020c20 (omega arith)

abbrev index : ℕ
index = 44

opcode_table-unambiguous_example : index ≡ index
opcode_table-unambiguous_example =
    opcode_table-unambiguous 0x8b020c20 44 44 add_x_reg add_x_reg entry_44 entry_44 matched matched

a64_operand_encodes_example :
    Encodes
      (encode_operand shift_12_14_15_x (pos 5))
      (decode_operand shift_12_14_15_x)
      (operand_claims shift_12_14_15_x)
      (pos 5)
a64_operand_encodes_example = a64_operand_encodes shift_12_14_15_x (pos 5) (5, refl, omega arith)

not_zero_constant : simm_0_25 ≢ imm_flt_zero
not_zero_constant h = cc

encode_operand-negative_example : encode_operand simm_0_25 (negsuc 0) ≡ none
encode_operand-negative_example = encode_operand-negative simm_0_25 0 not_zero_constant

encode_operand-bit_number_example :
    (encode_operand imm_19_23_31 (pos 33) ≡ none)
    × (decode_operand imm_19_23_31 (0x36080000 + 2 ^ 31) ≡ decode_operand imm_19_23_31 0x36080000)
encode_operand-bit_number_example = encode_operand-bit_number 31 0x36080000 (omega arith)
