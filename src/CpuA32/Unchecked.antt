-- ===== src/CpuA32/Unchecked.antt =====
-- CpuA32/opcode_tab.py, values out of range that `EncodeOperand` and `BitsFromSignedInt` accept.
use cwerg.Prelude.{
  Bool, true, false, refl, sym, ap, Option, none, List, get_elem?, ◌==◌, ==_iff, ◌+◌, ℕ, suc, ◌*◌,
  ◌^◌, ◌≤◌, ◌<◌, ◌≡◌, some, [], ◌∷◌, arith,
}
use native.Mathlib.Nat.{pow-suc}
use cwerg.Prelude.Int.{ℤ, pos, negsuc, ◌-ℤ◌}
use cwerg.Prelude.Word.{shl, shr}
use cwerg.Prelude.Bits.{pow_pos, all_below, all_below_sound}
use cwerg.CpuA32.Ints.{bits, bits_from_signed_int, signed_int_from_bits}
use cwerg.CpuA32.Fields.{
  encode_operand, encode_ranges, field_details, pred_28_31, sreg_12_15_22, dreg_12_15_22,
  addr_base_with_offset2, reg_16_19, imm_0_7_times4,
}
use cwerg.CpuA32.Opcode.{Opcode, vfp, load, unchanged, na, assemble}
use cwerg.CpuA32.Table.{opcode_table}
use cwerg.CpuA32.Signed.{low_word, shl_one-pow, high_digit_set}

-- the two opcodes `vldr`, with the masks and values that the table gives them
abbrev pub vldr_f32 : Opcode
vldr_f32 = record {
  name = "vldr";
  variant = "f32";
  bit_mask = 0x0f300f00;
  bit_value = 0x0d100a00;
  fields = pred_28_31 ∷ sreg_12_15_22 ∷ addr_base_with_offset2 ∷ reg_16_19 ∷ imm_0_7_times4 ∷ [];
  classes = vfp ∷ load ∷ [];
  sr_update = unchanged;
  mem_width = na;
}

abbrev pub vldr_f64 : Opcode
vldr_f64 = record {
  name = "vldr";
  variant = "f64";
  bit_mask = 0x0f300f00;
  bit_value = 0x0d100b00;
  fields = pred_28_31 ∷ dreg_12_15_22 ∷ addr_base_with_offset2 ∷ reg_16_19 ∷ imm_0_7_times4 ∷ [];
  classes = vfp ∷ load ∷ [];
  sr_update = unchanged;
  mem_width = na;
}

-- always, register 0, the address mode 4, the base register, the offset
abbrev pub loads_from : ℕ → ℕ → List ℤ
loads_from base offset = pos 14 ∷ pos 0 ∷ pos 4 ∷ pos base ∷ pos offset ∷ []

abbrev same_word : Option ℤ → Option ℤ → Bool
same_word (some (pos a)) (some (pos b)) = a == b
same_word _ _ = false

same_word-eq :
    (x y : Option ℤ)
    → same_word x y ≡ true
    → (word : ℕ) × (x ≡ some (pos word)) × (y ≡ some (pos word))
same_word-eq (some (pos a)) (some (pos b)) h =
    (a, refl, ap (λ t. some (pos t)) (sym ((==_iff a b).0 h)))
same_word-eq (some (pos a)) (some (negsuc b)) h = cc
same_word-eq (some (negsuc a)) y h = cc
same_word-eq (some (pos a)) none h = cc
same_word-eq none y h = cc

overflow_test : ℕ → ℕ → Bool
overflow_test base k =
    same_word (assemble (record { opcode = vldr_f32; operands = loads_from base (1024 + k * 4) }))
      (assemble (record { opcode = vldr_f64; operands = loads_from base (k * 4) }))

overflow_tests : all_below 16 (λ base. all_below 256 (overflow_test base)) ≡ true
unfolding overflow_test assemble encode_operand encode_ranges field_details shl shr all_below bits
overflow_tests = refl

-- The offset of `vldr` is not bounded: with an offset of 1024 + 4 k for k below 256, `vldr.f32` of
-- register 0 from a base register is assembled, without a failed assertion, to the word that `vldr.f64`
-- has with the offset 4 k, since the ninth bit of the quotient falls on a fixed bit of the opcode. Both
-- are opcodes of the table.
pub assemble-vldr_offset :
    (base k : ℕ)
    → base < 16
    → k < 256
    → (get_elem? opcode_table 158 ≡ some vldr_f32)
      × (get_elem? opcode_table 159 ≡ some vldr_f64)
      × ((word : ℕ) × (assemble
              (record { opcode = vldr_f32; operands = loads_from base (1024 + k * 4) })
            ≡ some (pos word))
          × (assemble (record { opcode = vldr_f64; operands = loads_from base (k * 4) })
              ≡ some (pos word)))
unfolding overflow_test opcode_table
assemble-vldr_offset base k low small =
    let row = all_below_sound 16 (λ b. all_below 256 (overflow_test b)) base overflow_tests low in
    (refl, refl, same_word-eq _ _ (all_below_sound 256 (overflow_test base) k row small))

-- An integer that n + 1 bits hold unsigned but not signed is accepted, and is read back less by
-- 2 ^ (n + 1).
pub signed_int_from_bits-bits_from_unsigned :
    (n x : ℕ)
    → 2 ^ n ≤ x
    → x < 2 ^ n * 2
    → (bits_from_signed_int (suc n) (pos x) ≡ some (pos x))
      × (signed_int_from_bits x (suc n) ≡ some (pos x -ℤ pos (2 ^ suc n)))
unfolding bits_from_signed_int signed_int_from_bits
signed_int_from_bits-bits_from_unsigned n x low high =
    let fits : x < 2 ^ suc n = rw pow-suc high in
    (
      rw shl_one-pow (ground arith),
      rw (low_word n x fits, high_digit_set n x low high)
          (rw shl_one-pow (ground (arith, pow_pos n))),
    )
