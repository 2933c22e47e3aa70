-- ===== src/CpuA32/Operands.antt =====
-- CpuA32/opcode_tab.py, `EncodeOperand` and `DecodeOperand` for each operand kind.
use cwerg.Prelude.{
  ℕ, ◌*◌, ◌%◌, ◌^◌, ◌<◌, ◌≡◌, refl, none, some, List, [], ◌∷◌, map, reverse, All, ◌⊎◌, ◌==◌,
  if◌then◌else◌, arith,
}
use cwerg.Prelude.Int.{ℤ, pos}
use cwerg.Prelude.Word.{shr, ones}
use cwerg.Arm.Codec.{Codec}
use cwerg.CpuA32.Ints.{encode_rotate_imm}
use cwerg.CpuA32.Fields.{
  OperandKind, BitRange, field_details, decode_operand, encode_operand, invalid, reg_0_3, reg_8_11,
  reg_12_15, reg_16_19, reg_link, reg_pair_12_15, dreg_0_3_5, dreg_12_15_22, dreg_16_19_7,
  sreg_0_3_5, sreg_12_15_22, sreg_16_19_7, shift_mode_5_6, shift_mode_5_6_addr, shift_mode_rot,
  reglist_0_15, reg_range_0_7, reg_range_1_7, pred_28_31, addr_base_only, addr_base_with_offset,
  addr_base_with_offset2, addr_multi, imm_0_7_times4, imm_0_11, imm_0_3_8_11, imm_7_11, imm_10_11,
  imm_0_23, imm_0_7_8_11, imm_zero, imm_0_11_16_19, simm_0_23,
}
use cwerg.CpuA32.Pack.{NatPattern, lift, range_of, Fits, Holds}
use cwerg.CpuA32.Rotate.{Int32}
use cwerg.CpuA32.Signed.{Signed}
use cwerg.CpuA32.Ranges.{
  verbatim-Encodes, times8-Encodes, times4-Encodes, times2_plus4-Encodes, signed-Encodes,
  rotated-Encodes, hi_lo-Encodes, puw-Encodes,
}

abbrev pub Unsigned : ℕ → ℤ → Type 0
Unsigned w val = (n : ℕ) × (val ≡ pos n) × (n < 2 ^ w)

abbrev pub Multiple : ℕ → ℕ → ℤ → Type 0
Multiple k w val = (n : ℕ) × (val ≡ pos n) × (n % k ≡ 0) × (n < 2 ^ w * k)

-- The values that an operand of the kind can take in an instruction.
abbrev pub InRange : OperandKind → ℤ → Type 0
InRange invalid val = ⊥
InRange reg_0_3 val = Unsigned 4 val
InRange reg_8_11 val = Unsigned 4 val
InRange reg_12_15 val = Unsigned 4 val
InRange reg_16_19 val = Unsigned 4 val
InRange reg_link val = val ≡ pos 14
InRange reg_pair_12_15 val = Unsigned 4 val
InRange dreg_0_3_5 val = Unsigned 5 val
InRange dreg_12_15_22 val = Unsigned 5 val
InRange dreg_16_19_7 val = Unsigned 5 val
InRange sreg_0_3_5 val = Unsigned 5 val
InRange sreg_12_15_22 val = Unsigned 5 val
InRange sreg_16_19_7 val = Unsigned 5 val
InRange shift_mode_5_6 val = Unsigned 2 val
InRange shift_mode_5_6_addr val = Unsigned 2 val
InRange shift_mode_rot val = val ≡ pos 3
InRange reglist_0_15 val = Unsigned 16 val
InRange reg_range_0_7 val = Unsigned 8 val
InRange reg_range_1_7 val = Unsigned 7 val
InRange pred_28_31 val = Unsigned 4 val
InRange addr_base_only val = val ≡ pos 6
InRange addr_base_with_offset val = Unsigned 3 val
InRange addr_base_with_offset2 val = (n : ℕ) × (val ≡ pos n) × ((n ≡ 4) ⊎ (n ≡ 6))
InRange addr_multi val = Unsigned 3 val
InRange imm_0_7_times4 val = Multiple 4 8 val
InRange imm_0_11 val = Unsigned 12 val
InRange imm_0_3_8_11 val = Unsigned 8 val
InRange imm_7_11 val = Unsigned 5 val
InRange imm_10_11 val = Multiple 8 2 val
InRange imm_0_23 val = Unsigned 24 val
InRange imm_0_7_8_11 val = Int32 val × (d : ℕ) × (encode_rotate_imm val ≡ some (some d))
InRange imm_zero val = val ≡ pos 0
InRange imm_0_11_16_19 val = Unsigned 16 val
InRange simm_0_23 val = Signed 23 val

-- mask and place of the bit ranges that an operand fills, in the order of `EncodeOperand`
unfoldable pub claims_of : List BitRange → List (ℕ × ℕ)
claims_of [] = []
claims_of ((kind, width, place) ∷ ranges) =
    let rest = claims_of ranges in if width == 0 then rest else (ones width, place) ∷ rest

unfoldable pub operand_claims : OperandKind → List (ℕ × ℕ)
unfolding claims_of field_details
operand_claims kind = elim (field_details kind) [
  | none ↦ []
  | some ranges ↦ claims_of (reverse ranges)
]

-- `val` is encoded into patterns that fill the places of the kind, and decoded from each word that
-- holds these patterns.
abbrev pub EncodesOperand : OperandKind → ℤ → Type 0
EncodesOperand kind val =
    (ps : List NatPattern) × (encode_operand kind val ≡ some (map lift ps))
    × (map range_of ps ≡ operand_claims kind)
    × All Fits ps
    × ((data_ : ℕ) → All (Holds data_) ps → decode_operand kind data_ ≡ some val)

-- A value in range of an operand kind is encoded into patterns that fill the places of the kind, and
-- is decoded from each word that holds these patterns.
pub operand_encodes : (kind : OperandKind) (val : ℤ) → InRange kind val → EncodesOperand kind val
unfolding encode_operand decode_operand operand_claims
operand_encodes invalid val h = absurd h
operand_encodes reg_0_3 val (n, e, h) = rw e (verbatim-Encodes 4 0 n h)
operand_encodes reg_8_11 val (n, e, h) = rw e (verbatim-Encodes 4 8 n h)
operand_encodes reg_12_15 val (n, e, h) = rw e (verbatim-Encodes 4 12 n h)
operand_encodes reg_16_19 val (n, e, h) = rw e (verbatim-Encodes 4 16 n h)
operand_encodes reg_link val e = rw e ([], refl, refl, tt, λ data_ held. refl)
operand_encodes reg_pair_12_15 val (n, e, h) = rw e (verbatim-Encodes 4 12 n h)
operand_encodes dreg_0_3_5 val (n, e, h) =
    rw e (hi_lo-Encodes 1 5 4 0 n (unfold shr in omega arith))
operand_encodes dreg_12_15_22 val (n, e, h) =
    rw e (hi_lo-Encodes 1 22 4 12 n (unfold shr in omega arith))
operand_encodes dreg_16_19_7 val (n, e, h) =
    rw e (hi_lo-Encodes 1 7 4 16 n (unfold shr in omega arith))
operand_encodes sreg_0_3_5 val (n, e, h) =
    rw e (hi_lo-Encodes 4 0 1 5 n (unfold shr in omega arith))
operand_encodes sreg_12_15_22 val (n, e, h) =
    rw e (hi_lo-Encodes 4 12 1 22 n (unfold shr in omega arith))
operand_encodes sreg_16_19_7 val (n, e, h) =
    rw e (hi_lo-Encodes 4 16 1 7 n (unfold shr in omega arith))
operand_encodes shift_mode_5_6 val (n, e, h) = rw e (verbatim-Encodes 2 5 n h)
operand_encodes shift_mode_5_6_addr val (n, e, h) = rw e (verbatim-Encodes 2 5 n h)
operand_encodes shift_mode_rot val e = rw e ([], refl, refl, tt, λ data_ held. refl)
operand_encodes reglist_0_15 val (n, e, h) = rw e (verbatim-Encodes 16 0 n h)
operand_encodes reg_range_0_7 val (n, e, h) = rw e (verbatim-Encodes 8 0 n h)
operand_encodes reg_range_1_7 val (n, e, h) = rw e (verbatim-Encodes 7 1 n h)
operand_encodes pred_28_31 val (n, e, h) = rw e (verbatim-Encodes 4 28 n h)
operand_encodes addr_base_only val e = rw e ([], refl, refl, tt, λ data_ held. refl)
operand_encodes addr_base_with_offset val (n, e, h) =
    rw e (puw-Encodes 1 24 1 23 1 21 n (unfold shr in omega arith))
operand_encodes addr_base_with_offset2 val (n, e, h) = rw e (times2_plus4-Encodes 23 n h)
operand_encodes addr_multi val (n, e, h) =
    rw e (puw-Encodes 1 24 1 23 1 21 n (unfold shr in omega arith))
operand_encodes imm_0_7_times4 val (n, e, whole, h) = rw e (times4-Encodes 8 0 n whole h)
operand_encodes imm_0_11 val (n, e, h) = rw e (verbatim-Encodes 12 0 n h)
operand_encodes imm_0_3_8_11 val (n, e, h) =
    rw e (hi_lo-Encodes 4 8 4 0 n (unfold shr in omega arith))
operand_encodes imm_7_11 val (n, e, h) = rw e (verbatim-Encodes 5 7 n h)
operand_encodes imm_10_11 val (n, e, whole, h) = rw e (times8-Encodes 2 10 n whole h)
operand_encodes imm_0_23 val (n, e, h) = rw e (verbatim-Encodes 24 0 n h)
operand_encodes imm_0_7_8_11 val (range, d, found) = rotated-Encodes 0 val d range found
operand_encodes imm_zero val e = rw e ([], refl, refl, tt, λ data_ held. refl)
operand_encodes imm_0_11_16_19 val (n, e, h) =
    rw e (hi_lo-Encodes 4 16 12 0 n (unfold shr in omega arith))
operand_encodes simm_0_23 val h = signed-Encodes 0 val h

-- The operand kinds of A32 behind the interface of the instruction words.
abbrev pub a32_codec : Codec OperandKind
a32_codec = record {
  encode = encode_operand;
  decode = decode_operand;
  claims = operand_claims;
  InRange = InRange;
  encodes = operand_encodes;
}
