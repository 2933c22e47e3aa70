-- ===== src/CpuA32/Ints.antt =====
-- CpuA32/opcode_tab.py, the bit helpers: `Bits`, `SignedIntFromBits`,
-- `BitsFromSignedInt`, `DecodeRotatedImm` and `EncodeRotateImm`.
use Prim.Native.Nat.{bit_and, bit_or}
use cwerg.Prelude.{
  ℕ, zero, suc, ◌+◌, ◌-◌, ◌*◌, Option, none, some, List, [], ◌∷◌, leb, ◌==◌, if◌then◌else◌, ◌>>◌,
  assert,
}
use cwerg.Prelude.Int.{ℤ, pos, negsuc, ◌+ℤ◌, ◌-ℤ◌, ltb_ℤ, shl_ℤ, or_ℤ}
use cwerg.Prelude.Word.{shl, shr}

-- A bit field: its mask and its value before they are shifted, and the shift.
abbrev pub Pattern : Type 0
Pattern = ℕ × ℤ × ℕ

unfoldable pub bits_from : ℕ → ℤ → List Pattern → Option (ℕ × ℤ)
bits_from m v [] = some (m, v)
bits_from m v ((mask, val, place) ∷ patterns) = do
  assert (bit_and m (shl mask place) == 0)
  bits_from (bit_or m (shl mask place)) (or_ℤ v (shl_ℤ val place)) patterns

unfoldable pub bits : List Pattern → Option (ℕ × ℤ)
unfolding bits_from
bits patterns = bits_from 0 (pos 0) patterns

-- With no bits `1 << (n_bits - 1)` shifts by a negative count, which raises.
unfoldable pub signed_int_from_bits : ℕ → ℕ → Option ℤ
signed_int_from_bits data_ zero = none
signed_int_from_bits data_ (suc n) =
    let x = bit_and data_ (shl 1 (suc n) - 1) in
    if bit_and x (shl 1 n) == 0 then some (pos x) else some (pos x -ℤ pos (shl 1 (suc n)))

unfoldable pub bits_from_signed_int : ℕ → ℤ → Option ℤ
bits_from_signed_int n_bits x =
    let y = if ltb_ℤ x (pos 0) then pos (shl 1 n_bits) +ℤ x else x in
    do assert (ltb_ℤ y (pos (shl 1 n_bits))); some y

unfoldable pub decode_rotated_imm : ℕ → ℤ
decode_rotated_imm data_ =
    let imm = bit_and data_ 0xff in
    let rot = shr (bit_and data_ 0xf00) 7 in
    let x = bit_and (shr (imm + shl imm 32) rot) 0xffffffff in
    if leb (shl 1 31) x then pos x -ℤ pos (shl 1 32) else pos x

-- `for r in range(16)`, with `n` rounds to go; `x` holds the bit pattern twice.
unfoldable pub encode_rotate_loop : ℕ → ℕ → ℕ → Option ℕ
encode_rotate_loop zero r x = none
encode_rotate_loop (suc n) r x =
    let y = shr x (32 - r * 2) in
    let rest = encode_rotate_loop n (r + 1) x in
    if bit_and y 0xff == bit_and y 0xffffffff
    then some (bit_or (shl r 8) (bit_and y 0xff))
    else rest

-- The outer option is the assertion `x >= 0`, the inner one the result.
unfoldable pub encode_rotate_imm : ℤ → Option (Option ℕ)
encode_rotate_imm (pos x) = some (encode_rotate_loop 16 0 (x + shl x 32))
encode_rotate_imm (negsuc n) = do
  assert (leb (suc n) (shl 1 32))
  let x = shl 1 32 - suc n
  some (encode_rotate_loop 16 0 (x + shl x 32))
