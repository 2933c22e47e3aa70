-- ===== src/CpuA64/Operands.antt =====
-- CpuA64/opcode_tab.py, `EncodeOperand` and `DecodeOperand` for each operand kind.
use Prim.Native.Nat.{bit_or}
use cwerg.Prelude.{ℕ, ◌≡◌, refl, ap, ◌⊎◌, inl, inr, none, some, List, [], ◌∷◌, reverse, arith}
use cwerg.Prelude.Int.{ℤ, pos}
use cwerg.Prelude.Word.{shl, shr, ones}
use cwerg.Prelude.Bits.{bit-le-ones}
use cwerg.Arm.Codec.{Codec, Encodes as EncodedAs}
use cwerg.CpuA32.Fields.{encode_ranges, decode_ranges}
use cwerg.CpuA32.Operands.{Unsigned, claims_of}
use cwerg.CpuA32.Ranges.{verbatim-Encodes, hi_lo-Encodes}
use cwerg.CpuA64.Fields.{
  OperandKind, field_details, decode_operand, encode_operand, invalid, wreg_0_4, wreg_5_9,
  wreg_10_14, wreg_16_20, xreg_0_4, xreg_5_9, xreg_10_14, xreg_16_20, sreg_0_4, sreg_5_9,
  sreg_10_14, sreg_16_20, dreg_0_4, dreg_5_9, dreg_10_14, dreg_16_20, breg_0_4, breg_5_9,
  breg_10_14, breg_16_20, hreg_0_4, hreg_5_9, hreg_10_14, hreg_16_20, qreg_0_4, qreg_5_9,
  qreg_10_14, qreg_16_20, wreg_0_4_sp, wreg_5_9_sp, xreg_0_4_sp, xreg_5_9_sp, imm_10_21,
  imm_10_21_22, imm_10_15, imm_12_20, imm_10_15_16_22, imm_10_21_times_2, imm_10_21_times_4,
  imm_10_21_times_8, imm_19_23_31, imm_5_20, imm_16_22, imm_0_3, imm_16_20, imm_5_20_21_22,
  imm_5_20_21_22_not, imm_13_20_flt, imm_flt_zero, simm_0_25, simm_12_20, simm_5_23, simm_5_18,
  simm_15_21_times4, simm_15_21_times8, simm_15_21_times16, simm_5_23_29_30, shift_22_23,
  shift_12_14_15_w, shift_12_14_15_x, shift_10_12_limit4, shift_21_22_times16,
}

-- The values that an operand of the kind can take in an instruction. The bit number of `tbz` and
-- `tbnz` is 0 or 1: `EncodeOperand` goes to the high part of `IMM_19_23_31`, of one bit, first.
abbrev pub InRange : OperandKind → ℤ → Type 0
InRange invalid val = ⊥
InRange wreg_0_4 val = Unsigned 5 val
InRange wreg_5_9 val = Unsigned 5 val
InRange wreg_10_14 val = Unsigned 5 val
InRange wreg_16_20 val = Unsigned 5 val
InRange xreg_0_4 val = Unsigned 5 val
InRange xreg_5_9 val = Unsigned 5 val
InRange xreg_10_14 val = Unsigned 5 val
InRange xreg_16_20 val = Unsigned 5 val
InRange sreg_0_4 val = Unsigned 5 val
InRange sreg_5_9 val = Unsigned 5 val
InRange sreg_10_14 val = Unsigned 5 val
InRange sreg_16_20 val = Unsigned 5 val
InRange dreg_0_4 val = Unsigned 5 val
InRange dreg_5_9 val = Unsigned 5 val
InRange dreg_10_14 val = Unsigned 5 val
InRange dreg_16_20 val = Unsigned 5 val
InRange breg_0_4 val = Unsigned 5 val
InRange breg_5_9 val = Unsigned 5 val
InRange breg_10_14 val = Unsigned 5 val
InRange breg_16_20 val = Unsigned 5 val
InRange hreg_0_4 val = Unsigned 5 val
InRange hreg_5_9 val = Unsigned 5 val
InRange hreg_10_14 val = Unsigned 5 val
InRange hreg_16_20 val = Unsigned 5 val
InRange qreg_0_4 val = Unsigned 5 val
InRange qreg_5_9 val = Unsigned 5 val
InRange qreg_10_14 val = Unsigned 5 val
InRange qreg_16_20 val = Unsigned 5 val
InRange wreg_0_4_sp val = Unsigned 5 val
InRange wreg_5_9_sp val = Unsigned 5 val
InRange xreg_0_4_sp val = Unsigned 5 val
InRange xreg_5_9_sp val = Unsigned 5 val
InRange imm_10_21 val = Unsigned 12 val
InRange imm_10_21_22 val = Unsigned 13 val
InRange imm_10_15 val = Unsigned 6 val
InRange imm_12_20 val = Unsigned 9 val
InRange imm_10_15_16_22 val = Unsigned 13 val
InRange imm_10_21_times_2 val = Unsigned 12 val
InRange imm_10_21_times_4 val = Unsigned 12 val
InRange imm_10_21_times_8 val = Unsigned 12 val
InRange imm_19_23_31 val = Unsigned 1 val
InRange imm_5_20 val = Unsigned 16 val
InRange imm_16_22 val = Unsigned 7 val
InRange imm_0_3 val = Unsigned 4 val
InRange imm_16_20 val = Unsigned 5 val
InRange imm_5_20_21_22 val = Unsigned 18 val
InRange imm_5_20_21_22_not val = Unsigned 18 val
InRange imm_13_20_flt val = Unsigned 8 val
InRange imm_flt_zero val = val ≡ pos 0
InRange simm_0_25 val = Unsigned 26 val
InRange simm_12_20 val = Unsigned 9 val
InRange simm_5_23 val = Unsigned 19 val
InRange simm_5_18 val = Unsigned 14 val
InRange simm_15_21_times4 val = Unsigned 7 val
InRange simm_15_21_times8 val = Unsigned 7 val
InRange simm_15_21_times16 val = Unsigned 7 val
InRange simm_5_23_29_30 val = Unsigned 21 val
InRange shift_22_23 val = Unsigned 2 val
InRange shift_12_14_15_w val = Unsigned 3 val
InRange shift_12_14_15_x val = Unsigned 3 val
InRange shift_10_12_limit4 val = Unsigned 3 val
InRange shift_21_22_times16 val = Unsigned 2 val

unfoldable pub operand_claims : OperandKind → List (ℕ × ℕ)
unfolding claims_of field_details
operand_claims kind = elim (field_details kind) [
  | none ↦ []
  | some ranges ↦ claims_of (reverse ranges)
]

bit_number_encodes :
    (n : ℕ)
    → (n ≡ 0) ⊎ (n ≡ 1)
    → EncodedAs
        (encode_operand imm_19_23_31 (pos n))
        (decode_operand imm_19_23_31)
        (operand_claims imm_19_23_31)
        (pos n)
unfolding encode_operand decode_operand operand_claims shl ones
bit_number_encodes n (inl e) = rw e (
  (ones 1, 0, 31) ∷ (ones 5, 0, 19) ∷ [],
  refl,
  refl,
  ((λ i. bit-le-ones 1 0 i (omega arith)), ((λ i. bit-le-ones 5 0 i (omega arith)), tt)),
  λ data_ held. ap (λ (t : ℕ). some (pos (bit_or 0 t))) held.1.0,
)
bit_number_encodes n (inr e) = rw e (
  (ones 1, 1, 31) ∷ (ones 5, 1, 19) ∷ [],
  refl,
  refl,
  ((λ i. bit-le-ones 1 1 i (omega arith)), ((λ i. bit-le-ones 5 1 i (omega arith)), tt)),
  λ data_ held. ap (λ (t : ℕ). some (pos (bit_or 0 t))) held.1.0,
)

-- A value in range of an operand kind is encoded into patterns that fill the places of the kind, and
-- is decoded from each word that holds these patterns.
pub a64_operand_encodes :
    (kind : OperandKind) (val : ℤ)
    → InRange kind val
    → EncodedAs (encode_operand kind val) (decode_operand kind) (operand_claims kind) val
unfolding encode_operand decode_operand operand_claims encode_ranges decode_ranges shl
a64_operand_encodes invalid val h = absurd h
a64_operand_encodes wreg_0_4 val (n, e, h) = rw e (verbatim-Encodes 5 0 n h)
a64_operand_encodes wreg_5_9 val (n, e, h) = rw e (verbatim-Encodes 5 5 n h)
a64_operand_encodes wreg_10_14 val (n, e, h) = rw e (verbatim-Encodes 5 10 n h)
a64_operand_encodes wreg_16_20 val (n, e, h) = rw e (verbatim-Encodes 5 16 n h)
a64_operand_encodes xreg_0_4 val (n, e, h) = rw e (verbatim-Encodes 5 0 n h)
a64_operand_encodes xreg_5_9 val (n, e, h) = rw e (verbatim-Encodes 5 5 n h)
a64_operand_encodes xreg_10_14 val (n, e, h) = rw e (verbatim-Encodes 5 10 n h)
a64_operand_encodes xreg_16_20 val (n, e, h) = rw e (verbatim-Encodes 5 16 n h)
a64_operand_encodes sreg_0_4 val (n, e, h) = rw e (verbatim-Encodes 5 0 n h)
a64_operand_encodes sreg_5_9 val (n, e, h) = rw e (verbatim-Encodes 5 5 n h)
a64_operand_encodes sreg_10_14 val (n, e, h) = rw e (verbatim-Encodes 5 10 n h)
a64_operand_encodes sreg_16_20 val (n, e, h) = rw e (verbatim-Encodes 5 16 n h)
a64_operand_encodes dreg_0_4 val (n, e, h) = rw e (verbatim-Encodes 5 0 n h)
a64_operand_encodes dreg_5_9 val (n, e, h) = rw e (verbatim-Encodes 5 5 n h)
a64_operand_encodes dreg_10_14 val (n, e, h) = rw e (verbatim-Encodes 5 10 n h)
a64_operand_encodes dreg_16_20 val (n, e, h) = rw e (verbatim-Encodes 5 16 n h)
a64_operand_encodes breg_0_4 val (n, e, h) = rw e (verbatim-Encodes 5 0 n h)
a64_operand_encodes breg_5_9 val (n, e, h) = rw e (verbatim-Encodes 5 5 n h)
a64_operand_encodes breg_10_14 val (n, e, h) = rw e (verbatim-Encodes 5 10 n h)
a64_operand_encodes breg_16_20 val (n, e, h) = rw e (verbatim-Encodes 5 16 n h)
a64_operand_encodes hreg_0_4 val (n, e, h) = rw e (verbatim-Encodes 5 0 n h)
a64_operand_encodes hreg_5_9 val (n, e, h) = rw e (verbatim-Encodes 5 5 n h)
a64_operand_encodes hreg_10_14 val (n, e, h) = rw e (verbatim-Encodes 5 10 n h)
a64_operand_encodes hreg_16_20 val (n, e, h) = rw e (verbatim-Encodes 5 16 n h)
a64_operand_encodes qreg_0_4 val (n, e, h) = rw e (verbatim-Encodes 5 0 n h)
a64_operand_encodes qreg_5_9 val (n, e, h) = rw e (verbatim-Encodes 5 5 n h)
a64_operand_encodes qreg_10_14 val (n, e, h) = rw e (verbatim-Encodes 5 10 n h)
a64_operand_encodes qreg_16_20 val (n, e, h) = rw e (verbatim-Encodes 5 16 n h)
a64_operand_encodes wreg_0_4_sp val (n, e, h) = rw e (verbatim-Encodes 5 0 n h)
a64_operand_encodes wreg_5_9_sp val (n, e, h) = rw e (verbatim-Encodes 5 5 n h)
a64_operand_encodes xreg_0_4_sp val (n, e, h) = rw e (verbatim-Encodes 5 0 n h)
a64_operand_encodes xreg_5_9_sp val (n, e, h) = rw e (verbatim-Encodes 5 5 n h)
a64_operand_encodes imm_10_21 val (n, e, h) = rw e (verbatim-Encodes 12 10 n h)
a64_operand_encodes imm_10_21_22 val (n, e, h) = rw e (verbatim-Encodes 13 10 n h)
a64_operand_encodes imm_10_15 val (n, e, h) = rw e (verbatim-Encodes 6 10 n h)
a64_operand_encodes imm_12_20 val (n, e, h) = rw e (verbatim-Encodes 9 12 n h)
a64_operand_encodes imm_10_15_16_22 val (n, e, h) = rw e (verbatim-Encodes 13 10 n h)
a64_operand_encodes imm_10_21_times_2 val (n, e, h) = rw e (verbatim-Encodes 12 10 n h)
a64_operand_encodes imm_10_21_times_4 val (n, e, h) = rw e (verbatim-Encodes 12 10 n h)
a64_operand_encodes imm_10_21_times_8 val (n, e, h) = rw e (verbatim-Encodes 12 10 n h)
a64_operand_encodes imm_19_23_31 val (n, e, h) = rw e (bit_number_encodes n (omega arith))
a64_operand_encodes imm_5_20 val (n, e, h) = rw e (verbatim-Encodes 16 5 n h)
a64_operand_encodes imm_16_22 val (n, e, h) = rw e (verbatim-Encodes 7 16 n h)
a64_operand_encodes imm_0_3 val (n, e, h) = rw e (verbatim-Encodes 4 0 n h)
a64_operand_encodes imm_16_20 val (n, e, h) = rw e (verbatim-Encodes 5 16 n h)
a64_operand_encodes imm_5_20_21_22 val (n, e, h) = rw e (verbatim-Encodes 18 5 n h)
a64_operand_encodes imm_5_20_21_22_not val (n, e, h) = rw e (verbatim-Encodes 18 5 n h)
a64_operand_encodes imm_13_20_flt val (n, e, h) = rw e (verbatim-Encodes 8 13 n h)
a64_operand_encodes imm_flt_zero val e = rw e ([], refl, refl, tt, λ data_ held. refl)
a64_operand_encodes simm_0_25 val (n, e, h) = rw e (verbatim-Encodes 26 0 n h)
a64_operand_encodes simm_12_20 val (n, e, h) = rw e (verbatim-Encodes 9 12 n h)
a64_operand_encodes simm_5_23 val (n, e, h) = rw e (verbatim-Encodes 19 5 n h)
a64_operand_encodes simm_5_18 val (n, e, h) = rw e (verbatim-Encodes 14 5 n h)
a64_operand_encodes simm_15_21_times4 val (n, e, h) = rw e (verbatim-Encodes 7 15 n h)
a64_operand_encodes simm_15_21_times8 val (n, e, h) = rw e (verbatim-Encodes 7 15 n h)
a64_operand_encodes simm_15_21_times16 val (n, e, h) = rw e (verbatim-Encodes 7 15 n h)
a64_operand_encodes simm_5_23_29_30 val (n, e, h) =
    rw e (hi_lo-Encodes 19 5 2 29 n (unfold shr in omega arith))
a64_operand_encodes shift_22_23 val (n, e, h) = rw e (verbatim-Encodes 2 22 n h)
a64_operand_encodes shift_12_14_15_w val (n, e, h) =
    rw e (hi_lo-Encodes 2 14 1 12 n (unfold shr in omega arith))
a64_operand_encodes shift_12_14_15_x val (n, e, h) =
    rw e (hi_lo-Encodes 2 14 1 12 n (unfold shr in omega arith))
a64_operand_encodes shift_10_12_limit4 val (n, e, h) = rw e (verbatim-Encodes 3 10 n h)
a64_operand_encodes shift_21_22_times16 val (n, e, h) = rw e (verbatim-Encodes 2 21 n h)

-- The operand kinds of A64 behind the interface of the instruction words.
abbrev pub a64_codec : Codec OperandKind
a64_codec = record {
  encode = encode_operand;
  decode = decode_operand;
  claims = operand_claims;
  InRange = InRange;
  encodes = a64_operand_encodes;
}
