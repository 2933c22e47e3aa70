-- ===== src/CpuA64/Unchecked.antt =====
-- CpuA64/opcode_tab.py, the operands that `EncodeOperand` refuses and those that it confuses.
use Prim.Native.Nat.{bit_and}
use cwerg.Prelude.{ℕ, ◌+◌, ◌^◌, ◌<◌, ◌≡◌, ◌≢◌, refl, none, false, ◌==◌, arith}
use cwerg.Prelude.Bits.{bit_and-ones, bit_and_comm}
use cwerg.Prelude.Int.{pos, negsuc}
use cwerg.Prelude.Word.{shl, shr, ones}
use cwerg.CpuA64.Fields.{
  OperandKind, decode_operand, encode_operand, invalid, wreg_0_4, wreg_5_9, wreg_10_14, wreg_16_20,
  xreg_0_4, xreg_5_9, xreg_10_14, xreg_16_20, sreg_0_4, sreg_5_9, sreg_10_14, sreg_16_20, dreg_0_4,
  dreg_5_9, dreg_10_14, dreg_16_20, breg_0_4, breg_5_9, breg_10_14, breg_16_20, hreg_0_4, hreg_5_9,
  hreg_10_14, hreg_16_20, qreg_0_4, qreg_5_9, qreg_10_14, qreg_16_20, wreg_0_4_sp, wreg_5_9_sp,
  xreg_0_4_sp, xreg_5_9_sp, imm_10_21, imm_10_21_22, imm_10_15, imm_12_20, imm_10_15_16_22,
  imm_10_21_times_2, imm_10_21_times_4, imm_10_21_times_8, imm_19_23_31, imm_5_20, imm_16_22,
  imm_0_3, imm_16_20, imm_5_20_21_22, imm_5_20_21_22_not, imm_13_20_flt, imm_flt_zero, simm_0_25,
  simm_12_20, simm_5_23, simm_5_18, simm_15_21_times4, simm_15_21_times8, simm_15_21_times16,
  simm_5_23_29_30, shift_22_23, shift_12_14_15_w, shift_12_14_15_x, shift_10_12_limit4,
  shift_21_22_times16,
}

-- No negative value is encoded for an operand kind other than `IMM_FLT_ZERO`, the branch offsets and
-- the other kinds that are called signed among them.
pub encode_operand-negative :
    (kind : OperandKind) (n : ℕ) → kind ≢ imm_flt_zero → encode_operand kind (negsuc n) ≡ none
unfolding encode_operand shl
encode_operand-negative invalid n h = refl
encode_operand-negative wreg_0_4 n h = refl
encode_operand-negative wreg_5_9 n h = refl
encode_operand-negative wreg_10_14 n h = refl
encode_operand-negative wreg_16_20 n h = refl
encode_operand-negative xreg_0_4 n h = refl
encode_operand-negative xreg_5_9 n h = refl
encode_operand-negative xreg_10_14 n h = refl
encode_operand-negative xreg_16_20 n h = refl
encode_operand-negative sreg_0_4 n h = refl
encode_operand-negative sreg_5_9 n h = refl
encode_operand-negative sreg_10_14 n h = refl
encode_operand-negative sreg_16_20 n h = refl
encode_operand-negative dreg_0_4 n h = refl
encode_operand-negative dreg_5_9 n h = refl
encode_operand-negative dreg_10_14 n h = refl
encode_operand-negative dreg_16_20 n h = refl
encode_operand-negative breg_0_4 n h = refl
encode_operand-negative breg_5_9 n h = refl
encode_operand-negative breg_10_14 n h = refl
encode_operand-negative breg_16_20 n h = refl
encode_operand-negative hreg_0_4 n h = refl
encode_operand-negative hreg_5_9 n h = refl
encode_operand-negative hreg_10_14 n h = refl
encode_operand-negative hreg_16_20 n h = refl
encode_operand-negative qreg_0_4 n h = refl
encode_operand-negative qreg_5_9 n h = refl
encode_operand-negative qreg_10_14 n h = refl
encode_operand-negative qreg_16_20 n h = refl
encode_operand-negative wreg_0_4_sp n h = refl
encode_operand-negative wreg_5_9_sp n h = refl
encode_operand-negative xreg_0_4_sp n h = refl
encode_operand-negative xreg_5_9_sp n h = refl
encode_operand-negative imm_10_21 n h = refl
encode_operand-negative imm_10_21_22 n h = refl
encode_operand-negative imm_10_15 n h = refl
encode_operand-negative imm_12_20 n h = refl
encode_operand-negative imm_10_15_16_22 n h = refl
encode_operand-negative imm_10_21_times_2 n h = refl
encode_operand-negative imm_10_21_times_4 n h = refl
encode_operand-negative imm_10_21_times_8 n h = refl
encode_operand-negative imm_19_23_31 n h = refl
encode_operand-negative imm_5_20 n h = refl
encode_operand-negative imm_16_22 n h = refl
encode_operand-negative imm_0_3 n h = refl
encode_operand-negative imm_16_20 n h = refl
encode_operand-negative imm_5_20_21_22 n h = refl
encode_operand-negative imm_5_20_21_22_not n h = refl
encode_operand-negative imm_13_20_flt n h = refl
encode_operand-negative imm_flt_zero n h = absurd (h refl)
encode_operand-negative simm_0_25 n h = refl
encode_operand-negative simm_12_20 n h = refl
encode_operand-negative simm_5_23 n h = refl
encode_operand-negative simm_5_18 n h = refl
encode_operand-negative simm_15_21_times4 n h = refl
encode_operand-negative simm_15_21_times8 n h = refl
encode_operand-negative simm_15_21_times16 n h = refl
encode_operand-negative simm_5_23_29_30 n h = refl
encode_operand-negative shift_22_23 n h = refl
encode_operand-negative shift_12_14_15_w n h = refl
encode_operand-negative shift_12_14_15_x n h = refl
encode_operand-negative shift_10_12_limit4 n h = refl
encode_operand-negative shift_21_22_times16 n h = refl

-- The bit numbers from 2 on are not encoded for `tbz` and `tbnz`, and decoding drops the bit 31,
-- which is the high part of the bit number.
pub encode_operand-bit_number :
    (n data_ : ℕ)
    → data_ < 2 ^ 31
    → (encode_operand imm_19_23_31 (pos (n + 2)) ≡ none)
      × (decode_operand imm_19_23_31 (data_ + 2 ^ 31) ≡ decode_operand imm_19_23_31 data_)
unfolding encode_operand decode_operand shl shr ones
encode_operand-bit_number n data_ h = (rw (too_large) refl, rw (same_number) refl)
  where
    too_large : (bit_and 1 (n + 2) == n + 2) ≡ false
    too_large = ground (arith, bit_and_comm 1 (n + 2), bit_and-ones 1 (n + 2))

    same_number : bit_and (shr (data_ + 2 ^ 31) 19) 31 ≡ bit_and (shr data_ 19) 31
    same_number =
        omega (arith, bit_and-ones 5 (shr (data_ + 2 ^ 31) 19), bit_and-ones 5 (shr data_ 19))
