-- ===== src/CpuA64/Fields.antt =====
-- CpuA64/opcode_tab.py, the operand fields: `OK`, `FIELD_DETAILS`, `DecodeOperand` and
-- `EncodeOperand`. `BRK` has the text that it has in CpuA32/opcode_tab.py.
use Prim.Native.Nat.{bit_and, bit_or}
use cwerg.Prelude.{
  ℕ, ◌+◌, ◌-◌, ◌*◌, Option, none, some, List, [], ◌∷◌, reverse, ◌==◌, ◌>>=◌, ◌>>◌, assert,
}
use cwerg.Prelude.Int.{ℤ, pos, ◌-ℤ◌, eqb_ℤ, shr_ℤ, and_ℤ, mod_ℤ}
use cwerg.Prelude.Word.{shl, shr}
use cwerg.CpuA32.Ints.{Pattern, signed_int_from_bits, bits_from_signed_int}
use cwerg.CpuA32.Fields.{
  BitRange, verbatim, hi, lo, rotated, signed, times8, times4, times2, times2_plus4, force0, force1,
  force3, force6, force14, u, w, p,
}

-- `OK`, the operand kinds
pub data OperandKind : Type 0 where
  invalid wreg_0_4 wreg_5_9 wreg_10_14 wreg_16_20 xreg_0_4 : OperandKind
  xreg_5_9 xreg_10_14 xreg_16_20 sreg_0_4 sreg_5_9 sreg_10_14 : OperandKind
  sreg_16_20 dreg_0_4 dreg_5_9 dreg_10_14 dreg_16_20 breg_0_4 : OperandKind
  breg_5_9 breg_10_14 breg_16_20 hreg_0_4 hreg_5_9 hreg_10_14 : OperandKind
  hreg_16_20 qreg_0_4 qreg_5_9 qreg_10_14 qreg_16_20 wreg_0_4_sp : OperandKind
  wreg_5_9_sp xreg_0_4_sp xreg_5_9_sp imm_10_21 imm_10_21_22 imm_10_15 : OperandKind
  imm_12_20 imm_10_15_16_22 imm_10_21_times_2 imm_10_21_times_4 imm_10_21_times_8 imm_19_23_31 :
      OperandKind
  imm_5_20 imm_16_22 imm_0_3 imm_16_20 imm_5_20_21_22 imm_5_20_21_22_not : OperandKind
  imm_13_20_flt imm_flt_zero simm_0_25 simm_12_20 simm_5_23 simm_5_18 : OperandKind
  simm_15_21_times4 simm_15_21_times8 simm_15_21_times16 simm_5_23_29_30 shift_22_23
        shift_12_14_15_w :
      OperandKind
  shift_12_14_15_x shift_10_12_limit4 shift_21_22_times16 : OperandKind

-- `FIELD_DETAILS`, which has no entry for `OK.Invalid`
unfoldable pub field_details : OperandKind → Option (List BitRange)
field_details invalid = none
field_details wreg_0_4 = some ((verbatim, 5, 0) ∷ [])
field_details wreg_5_9 = some ((verbatim, 5, 5) ∷ [])
field_details wreg_10_14 = some ((verbatim, 5, 10) ∷ [])
field_details wreg_16_20 = some ((verbatim, 5, 16) ∷ [])
field_details xreg_0_4 = some ((verbatim, 5, 0) ∷ [])
field_details xreg_5_9 = some ((verbatim, 5, 5) ∷ [])
field_details xreg_10_14 = some ((verbatim, 5, 10) ∷ [])
field_details xreg_16_20 = some ((verbatim, 5, 16) ∷ [])
field_details sreg_0_4 = some ((verbatim, 5, 0) ∷ [])
field_details sreg_5_9 = some ((verbatim, 5, 5) ∷ [])
field_details sreg_10_14 = some ((verbatim, 5, 10) ∷ [])
field_details sreg_16_20 = some ((verbatim, 5, 16) ∷ [])
field_details dreg_0_4 = some ((verbatim, 5, 0) ∷ [])
field_details dreg_5_9 = some ((verbatim, 5, 5) ∷ [])
field_details dreg_10_14 = some ((verbatim, 5, 10) ∷ [])
field_details dreg_16_20 = some ((verbatim, 5, 16) ∷ [])
field_details breg_0_4 = some ((verbatim, 5, 0) ∷ [])
field_details breg_5_9 = some ((verbatim, 5, 5) ∷ [])
field_details breg_10_14 = some ((verbatim, 5, 10) ∷ [])
field_details breg_16_20 = some ((verbatim, 5, 16) ∷ [])
field_details hreg_0_4 = some ((verbatim, 5, 0) ∷ [])
field_details hreg_5_9 = some ((verbatim, 5, 5) ∷ [])
field_details hreg_10_14 = some ((verbatim, 5, 10) ∷ [])
field_details hreg_16_20 = some ((verbatim, 5, 16) ∷ [])
field_details qreg_0_4 = some ((verbatim, 5, 0) ∷ [])
field_details qreg_5_9 = some ((verbatim, 5, 5) ∷ [])
field_details qreg_10_14 = some ((verbatim, 5, 10) ∷ [])
field_details qreg_16_20 = some ((verbatim, 5, 16) ∷ [])
field_details wreg_0_4_sp = some ((verbatim, 5, 0) ∷ [])
field_details wreg_5_9_sp = some ((verbatim, 5, 5) ∷ [])
field_details xreg_0_4_sp = some ((verbatim, 5, 0) ∷ [])
field_details xreg_5_9_sp = some ((verbatim, 5, 5) ∷ [])
field_details imm_10_21 = some ((verbatim, 12, 10) ∷ [])
field_details imm_10_21_22 = some ((verbatim, 13, 10) ∷ [])
field_details imm_10_15 = some ((verbatim, 6, 10) ∷ [])
field_details imm_12_20 = some ((verbatim, 9, 12) ∷ [])
field_details imm_10_15_16_22 = some ((verbatim, 13, 10) ∷ [])
field_details imm_10_21_times_2 = some ((verbatim, 12, 10) ∷ [])
field_details imm_10_21_times_4 = some ((verbatim, 12, 10) ∷ [])
field_details imm_10_21_times_8 = some ((verbatim, 12, 10) ∷ [])
field_details imm_19_23_31 = some ((lo, 5, 19) ∷ (hi, 1, 31) ∷ [])
field_details imm_5_20 = some ((verbatim, 16, 5) ∷ [])
field_details imm_16_22 = some ((verbatim, 7, 16) ∷ [])
field_details imm_0_3 = some ((verbatim, 4, 0) ∷ [])
field_details imm_16_20 = some ((verbatim, 5, 16) ∷ [])
field_details imm_5_20_21_22 = some ((verbatim, 18, 5) ∷ [])
field_details imm_5_20_21_22_not = some ((verbatim, 18, 5) ∷ [])
field_details imm_13_20_flt = some ((verbatim, 8, 13) ∷ [])
field_details imm_flt_zero = some ((force0, 0, 0) ∷ [])
field_details simm_0_25 = some ((verbatim, 26, 0) ∷ [])
field_details simm_12_20 = some ((verbatim, 9, 12) ∷ [])
field_details simm_5_23 = some ((verbatim, 19, 5) ∷ [])
field_details simm_5_18 = some ((verbatim, 14, 5) ∷ [])
field_details simm_15_21_times4 = some ((verbatim, 7, 15) ∷ [])
field_details simm_15_21_times8 = some ((verbatim, 7, 15) ∷ [])
field_details simm_15_21_times16 = some ((verbatim, 7, 15) ∷ [])
field_details simm_5_23_29_30 = some ((hi, 19, 5) ∷ (lo, 2, 29) ∷ [])
field_details shift_22_23 = some ((verbatim, 2, 22) ∷ [])
field_details shift_12_14_15_w = some ((hi, 2, 14) ∷ (lo, 1, 12) ∷ [])
field_details shift_12_14_15_x = some ((hi, 2, 14) ∷ (lo, 1, 12) ∷ [])
field_details shift_10_12_limit4 = some ((verbatim, 3, 10) ∷ [])
field_details shift_21_22_times16 = some ((verbatim, 2, 21) ∷ [])

-- The loop of `DecodeOperand` over the bit ranges; `tmp` holds the high part read so far. There is no
-- branch for `BRK.Rotated`, which fails the assertion at the end.
unfoldable pub decode_ranges : List BitRange → ℕ → ℕ → Option ℤ
decode_ranges [] tmp value = some (pos 0)
decode_ranges ((kind, width, place) ∷ ranges) tmp value =
    let x = bit_and (shr value place) (shl 1 width - 1) in
    elim kind [
      | verbatim ↦ some (pos x)
      | hi ↦ decode_ranges ranges x value
      | lo ↦ some (pos (bit_or (shl tmp width) x))
      | rotated ↦ none
      | signed ↦ signed_int_from_bits x width
      | times8 ↦ some (pos (x * 8))
      | times4 ↦ some (pos (x * 4))
      | times2 ↦ some (pos (x * 2))
      | times2_plus4 ↦ some (pos (x * 2 + 4))
      | force0 ↦ some (pos 0)
      | force1 ↦ some (pos 1)
      | force3 ↦ some (pos 3)
      | force6 ↦ some (pos 6)
      | force14 ↦ some (pos 14)
      | u ↦ decode_ranges ranges (bit_or (shl tmp width) x) value
      | w ↦ some (pos (bit_or (shl tmp width) x))
      | p ↦ decode_ranges ranges x value
    ]

unfoldable pub decode_operand : OperandKind → ℕ → Option ℤ
unfolding decode_ranges field_details
decode_operand kind value = do ranges ← field_details kind; decode_ranges ranges 0 value

-- The loop of `EncodeOperand` over the reversed bit ranges.
unfoldable pub encode_ranges : List BitRange → ℤ → Option (List Pattern)
encode_ranges [] val = some []
encode_ranges ((kind, width, place) ∷ ranges) val =
    let mask = shl 1 width - 1 in
    let low : Pattern = (mask, and_ℤ val (pos mask), place) in
    let rest = encode_ranges ranges val in
    let rest_high = encode_ranges ranges (shr_ℤ val width) in
    elim kind [
      | verbatim ↦ do
        assert (eqb_ℤ (and_ℤ (pos mask) val) val)
        some ((mask, val, place) ∷ (← rest))
      | hi ↦ do assert (eqb_ℤ (and_ℤ (pos mask) val) val); some ((mask, val, place) ∷ (← rest))
      | lo ↦ do some (low ∷ (← rest_high))
      | rotated ↦ none
      | signed ↦ do enc ← bits_from_signed_int width val; some ((mask, enc, place) ∷ (← rest))
      | times8 ↦ do assert (mod_ℤ val 8 == 0); some ((mask, shr_ℤ val 3, place) ∷ (← rest))
      | times4 ↦ do assert (mod_ℤ val 4 == 0); some ((mask, shr_ℤ val 2, place) ∷ (← rest))
      | times2 ↦ do assert (mod_ℤ val 2 == 0); some ((mask, shr_ℤ val 1, place) ∷ (← rest))
      | times2_plus4 ↦ do
        assert (eqb_ℤ (and_ℤ val (pos 4)) (pos 4))
        assert (mod_ℤ val 2 == 0)
        some ((mask, shr_ℤ (val -ℤ pos 4) 1, place) ∷ (← rest))
      | force0 ↦ rest
      | force1 ↦ rest
      | force3 ↦ rest
      | force6 ↦ rest
      | force14 ↦ rest
      | u ↦ do some (low ∷ (← rest_high))
      | w ↦ do some (low ∷ (← rest_high))
      | p ↦ do assert (eqb_ℤ (and_ℤ (pos mask) val) val); some ((mask, val, place) ∷ (← rest))
    ]

-- `FIELD_DETAILS[OK.Invalid]` raises.
unfoldable pub encode_operand : OperandKind → ℤ → Option (List Pattern)
unfolding encode_ranges field_details
encode_operand kind val = do ranges ← field_details kind; encode_ranges (reverse ranges) val
