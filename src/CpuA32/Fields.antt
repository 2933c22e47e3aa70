-- ===== src/CpuA32/Fields.antt =====
-- CpuA32/opcode_tab.py, the operand fields: `OK`, `BRK`, `FIELD_DETAILS`, `DecodeOperand` and
-- `EncodeOperand`.
use Prim.Native.Nat.{bit_and, bit_or}
use cwerg.Prelude.{
  ℕ, ◌+◌, ◌-◌, ◌*◌, Option, none, some, List, [], ◌∷◌, reverse, ◌==◌, ◌>>=◌, ◌>>◌, assert,
}
use cwerg.Prelude.Int.{ℤ, pos, ◌-ℤ◌, eqb_ℤ, shr_ℤ, and_ℤ, mod_ℤ}
use cwerg.Prelude.Word.{shl, shr}
use cwerg.CpuA32.Ints.{
  Pattern, signed_int_from_bits, bits_from_signed_int, decode_rotated_imm, encode_rotate_imm,
}

-- `OK`, the operand kinds
pub data OperandKind : Type 0 where
  invalid reg_0_3 reg_8_11 reg_12_15 reg_16_19 reg_link reg_pair_12_15 dreg_0_3_5 : OperandKind
  dreg_12_15_22 dreg_16_19_7 sreg_0_3_5 sreg_12_15_22 sreg_16_19_7 shift_mode_5_6 : OperandKind
  shift_mode_5_6_addr shift_mode_rot reglist_0_15 reg_range_0_7 reg_range_1_7 pred_28_31 :
      OperandKind
  addr_base_only addr_base_with_offset addr_base_with_offset2 addr_multi imm_0_7_times4 :
      OperandKind
  imm_0_11 imm_0_3_8_11 imm_7_11 imm_10_11 imm_0_23 imm_0_7_8_11 imm_zero imm_0_11_16_19 :
      OperandKind
  simm_0_23 : OperandKind

-- `BRK`, the bit range kinds
pub data BitRangeKind : Type 0 where
  verbatim hi lo rotated signed times8 times4 times2 times2_plus4 : BitRangeKind
  force0 force1 force3 force6 force14 u w p : BitRangeKind

-- kind, width, position
abbrev pub BitRange : Type 0
BitRange = BitRangeKind × ℕ × ℕ

-- `FIELD_DETAILS`, which has no entry for `OK.Invalid`
unfoldable pub field_details : OperandKind → Option (List BitRange)
field_details invalid = none
field_details reg_0_3 = some ((verbatim, 4, 0) ∷ [])
field_details reg_8_11 = some ((verbatim, 4, 8) ∷ [])
field_details reg_12_15 = some ((verbatim, 4, 12) ∷ [])
field_details reg_16_19 = some ((verbatim, 4, 16) ∷ [])
field_details reg_link = some ((force14, 0, 0) ∷ [])
field_details reg_pair_12_15 = some ((verbatim, 4, 12) ∷ [])
field_details dreg_0_3_5 = some ((hi, 1, 5) ∷ (lo, 4, 0) ∷ [])
field_details dreg_12_15_22 = some ((hi, 1, 22) ∷ (lo, 4, 12) ∷ [])
field_details dreg_16_19_7 = some ((hi, 1, 7) ∷ (lo, 4, 16) ∷ [])
field_details sreg_0_3_5 = some ((hi, 4, 0) ∷ (lo, 1, 5) ∷ [])
field_details sreg_12_15_22 = some ((hi, 4, 12) ∷ (lo, 1, 22) ∷ [])
field_details sreg_16_19_7 = some ((hi, 4, 16) ∷ (lo, 1, 7) ∷ [])
field_details shift_mode_5_6 = some ((verbatim, 2, 5) ∷ [])
field_details shift_mode_5_6_addr = some ((verbatim, 2, 5) ∷ [])
field_details shift_mode_rot = some ((force3, 0, 0) ∷ [])
field_details reglist_0_15 = some ((verbatim, 16, 0) ∷ [])
field_details reg_range_0_7 = some ((verbatim, 8, 0) ∷ [])
field_details reg_range_1_7 = some ((verbatim, 7, 1) ∷ [])
field_details pred_28_31 = some ((verbatim, 4, 28) ∷ [])
field_details addr_base_only = some ((force6, 0, 0) ∷ [])
field_details addr_base_with_offset = some ((p, 1, 24) ∷ (u, 1, 23) ∷ (w, 1, 21) ∷ [])
field_details addr_base_with_offset2 = some ((times2_plus4, 1, 23) ∷ [])
field_details addr_multi = some ((p, 1, 24) ∷ (u, 1, 23) ∷ (w, 1, 21) ∷ [])
field_details imm_0_7_times4 = some ((times4, 8, 0) ∷ [])
field_details imm_0_11 = some ((verbatim, 12, 0) ∷ [])
field_details imm_0_3_8_11 = some ((hi, 4, 8) ∷ (lo, 4, 0) ∷ [])
field_details imm_7_11 = some ((verbatim, 5, 7) ∷ [])
field_details imm_10_11 = some ((times8, 2, 10) ∷ [])
field_details imm_0_23 = some ((verbatim, 24, 0) ∷ [])
field_details imm_0_7_8_11 = some ((rotated, 12, 0) ∷ [])
field_details imm_zero = some ((force0, 0, 0) ∷ [])
field_details imm_0_11_16_19 = some ((hi, 4, 16) ∷ (lo, 12, 0) ∷ [])
field_details simm_0_23 = some ((signed, 24, 0) ∷ [])

-- The loop of `DecodeOperand` over the bit ranges; `tmp` holds the high part read so far.
unfoldable pub decode_ranges : List BitRange → ℕ → ℕ → Option ℤ
decode_ranges [] tmp value = some (pos 0)
decode_ranges ((kind, width, place) ∷ ranges) tmp value =
    let x = bit_and (shr value place) (shl 1 width - 1) in
    elim kind [
      | verbatim ↦ some (pos x)
      | hi ↦ decode_ranges ranges x value
      | lo ↦ some (pos (bit_or (shl tmp width) x))
      | rotated ↦ some (decode_rotated_imm x)
      | signed ↦ signed_int_from_bits x width
      | times8 ↦ some (pos (x * 8))
      | times4 ↦ some (pos (x * 4))
      | times2 ↦ some (pos (x * 2))
      | times2_plus4 ↦ some (pos (x * 2 + 4))
      | force0 ↦ some (pos 0)
      | force1 ↦ some (pos 1)
      | force3 ↦ some (pos 3)
      | force6 ↦ some (pos 6)
      | force14 ↦ some (pos 14)
      | u ↦ decode_ranges ranges (bit_or (shl tmp width) x) value
      | w ↦ some (pos (bit_or (shl tmp width) x))
      | p ↦ decode_ranges ranges x value
    ]

unfoldable pub decode_operand : OperandKind → ℕ → Option ℤ
unfolding decode_ranges field_details
decode_operand kind value = do ranges ← field_details kind; decode_ranges ranges 0 value

-- The loop of `EncodeOperand` over the reversed bit ranges.
unfoldable pub encode_ranges : List BitRange → ℤ → Option (List Pattern)
encode_ranges [] val = some []
encode_ranges ((kind, width, place) ∷ ranges) val =
    let mask = shl 1 width - 1 in
    let low : Pattern = (mask, and_ℤ val (pos mask), place) in
    let rest = encode_ranges ranges val in
    let rest_high = encode_ranges ranges (shr_ℤ val width) in
    elim kind [
      | verbatim ↦ do
        assert (eqb_ℤ (and_ℤ (pos mask) val) val)
        some ((mask, val, place) ∷ (← rest))
      | hi ↦ do assert (eqb_ℤ (and_ℤ (pos mask) val) val); some ((mask, val, place) ∷ (← rest))
      | lo ↦ do some (low ∷ (← rest_high))
      | rotated ↦ do
        found ← encode_rotate_imm val
        enc ← found
        some ((mask, pos enc, place) ∷ (← rest))
      | signed ↦ do enc ← bits_from_signed_int width val; some ((mask, enc, place) ∷ (← rest))
      | times8 ↦ do assert (mod_ℤ val 8 == 0); some ((mask, shr_ℤ val 3, place) ∷ (← rest))
      | times4 ↦ do assert (mod_ℤ val 4 == 0); some ((mask, shr_ℤ val 2, place) ∷ (← rest))
      | times2 ↦ do assert (mod_ℤ val 2 == 0); some ((mask, shr_ℤ val 1, place) ∷ (← rest))
      | times2_plus4 ↦ do
        assert (eqb_ℤ (and_ℤ val (pos 4)) (pos 4))
        assert (mod_ℤ val 2 == 0)
        some ((mask, shr_ℤ (val -ℤ pos 4) 1, place) ∷ (← rest))
      | force0 ↦ rest
      | force1 ↦ rest
      | force3 ↦ rest
      | force6 ↦ rest
      | force14 ↦ rest
      | u ↦ do some (low ∷ (← rest_high))
      | w ↦ do some (low ∷ (← rest_high))
      | p ↦ do assert (eqb_ℤ (and_ℤ (pos mask) val) val); some ((mask, val, place) ∷ (← rest))
    ]

-- `FIELD_DETAILS[OK.Invalid]` raises.
unfoldable pub encode_operand : OperandKind → ℤ → Option (List Pattern)
unfolding encode_ranges field_details
encode_operand kind val = do ranges ← field_details kind; encode_ranges (reverse ranges) val
