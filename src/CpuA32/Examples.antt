-- ===== src/CpuA32/Examples.antt =====
-- Runs of CpuA32/opcode_tab.py at concrete instructions.
use cwerg.Prelude.{ℕ, ◌<◌, ◌^◌, ◌≡◌, refl, true, some, List, [], ◌∷◌, get_elem?, arith}
use cwerg.Prelude.Int.{ℤ, pos, negsuc}
use cwerg.Prelude.Word.{shl, shr}
use cwerg.CpuA32.Ints.{
  bits_from_signed_int, signed_int_from_bits, encode_rotate_imm, encode_rotate_loop,
  decode_rotated_imm,
}
use cwerg.CpuA32.Fields.{pred_28_31, reg_12_15, reg_16_19, imm_0_7_8_11, simm_0_23}
use cwerg.Prelude.Int.{◌-ℤ◌}
use cwerg.CpuA32.Unchecked.{
  vldr_f32, vldr_f64, loads_from, assemble-vldr_offset, signed_int_from_bits-bits_from_unsigned,
}
use cwerg.CpuA32.Signed.{signed_int_from_bits-bits_from_signed_int}
use cwerg.CpuA32.Rotate.{decode-encode_rotate_imm}
use cwerg.CpuA32.Operands.{EncodesOperand, operand_encodes}
use cwerg.CpuA32.Opcode.{Opcode, alu, unchanged, na, assemble, disassemble, find_opcode, find_first}
use cwerg.CpuA32.Table.{opcode_table}
use cwerg.CpuA32.Assemble.{AllInRange, Assembles}
use cwerg.CpuA32.TableLoads.{disassemble_operands-assemble_operands}
use cwerg.CpuA32.Find.{clear_of, separate, find_opcode-eq-find_first, disassemble-assemble}

-- `add_imm`, entry 61 of the table
abbrev add_imm : Opcode
add_imm = record {
  name = "add";
  variant = "imm";
  bit_mask = 0x0ff00000;
  bit_value = 0x02800000;
  fields = pred_28_31 ∷ reg_12_15 ∷ reg_16_19 ∷ imm_0_7_8_11 ∷ [];
  classes = alu ∷ [];
  sr_update = unchanged;
  mem_width = na;
}

-- always, r1, r2, 0x3fc00
abbrev operands : List ℤ
operands = pos 14 ∷ pos 1 ∷ pos 2 ∷ pos 0x3fc00 ∷ []

entry_61 : get_elem? opcode_table 61 ≡ some add_imm
unfolding opcode_table
entry_61 = refl

clear_61 : clear_of add_imm 61 opcode_table ≡ true
unfolding opcode_table clear_of separate
clear_61 = refl

rotated_literal : encode_rotate_imm (pos 0x3fc00) ≡ some (some 0xbff)
unfolding encode_rotate_imm encode_rotate_loop shl shr
rotated_literal = refl

in_range : AllInRange add_imm.fields operands
in_range = (
  (14, refl, omega arith),
  (
    (1, refl, omega arith),
    ((2, refl, omega arith), (((omega arith, omega arith), 0xbff, rotated_literal), tt)),
  ),
)

disassemble-assemble_example :
    (word : ℕ) × (assemble (record { opcode = add_imm; operands = operands }) ≡ some (pos word))
    × (disassemble opcode_table word
        ≡ some (some (record { opcode = add_imm; operands = operands })))
disassemble-assemble_example = disassemble-assemble 61 add_imm operands entry_61 clear_61 in_range

disassemble_operands-assemble_operands_example : Assembles add_imm operands
disassemble_operands-assemble_operands_example =
    disassemble_operands-assemble_operands 61 add_imm operands entry_61 in_range

find_opcode-eq-find_first_example :
    find_opcode opcode_table 0xe2821bff ≡ find_first 0xe2821bff opcode_table
find_opcode-eq-find_first_example = find_opcode-eq-find_first 0xe2821bff

operand_encodes_example : EncodesOperand simm_0_23 (negsuc 1)
operand_encodes_example = operand_encodes simm_0_23 (negsuc 1) (omega arith, omega arith)

decode-encode_rotate_imm_example : (0xbff < 4096) × (decode_rotated_imm 0xbff ≡ pos 0x3fc00)
decode-encode_rotate_imm_example =
    decode-encode_rotate_imm (pos 0x3fc00) 0xbff (omega arith, omega arith) rotated_literal

signed_int_from_bits-bits_from_signed_int_example :
    (e : ℕ) × (bits_from_signed_int 24 (negsuc 1) ≡ some (pos e))
    × (e < 2 ^ 24)
    × (signed_int_from_bits e 24 ≡ some (negsuc 1))
signed_int_from_bits-bits_from_signed_int_example =
    signed_int_from_bits-bits_from_signed_int 23 (negsuc 1) (omega arith, omega arith)

assemble-vldr_offset_example :
    (get_elem? opcode_table 158 ≡ some vldr_f32)
    × (get_elem? opcode_table 159 ≡ some vldr_f64)
    × ((word : ℕ) × (assemble (record { opcode = vldr_f32; operands = loads_from 2 1036 })
          ≡ some (pos word))
        × (assemble (record { opcode = vldr_f64; operands = loads_from 2 12 }) ≡ some (pos word)))
assemble-vldr_offset_example = assemble-vldr_offset 2 3 (omega arith) (omega arith)

signed_int_from_bits-bits_from_unsigned_example :
    (bits_from_signed_int 24 (pos 0x800000) ≡ some (pos 0x800000))
    × (signed_int_from_bits 0x800000 24 ≡ some (pos 0x800000 -ℤ pos (2 ^ 24)))
signed_int_from_bits-bits_from_unsigned_example =
    signed_int_from_bits-bits_from_unsigned 23 0x800000 (omega arith) (omega arith)
