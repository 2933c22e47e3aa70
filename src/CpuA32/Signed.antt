-- ===== src/CpuA32/Signed.antt =====
-- CpuA32/opcode_tab.py, `BitsFromSignedInt` against `SignedIntFromBits`.
use Prim.Native.Nat.{bit_and}
use native.Mathlib.Nat.{mod-eq_of_lt, pow-suc, div-eq_of_lt, div-eq_of_lt-le}
use cwerg.Prelude.{ℕ, suc, ◌-◌, ◌*◌, ◌/◌, ◌^◌, ◌≤◌, ◌<◌, ◌≡◌, some, arith}
use cwerg.Prelude.Int.{ℤ, pos, negsuc, ◌≤ℤ◌}
use cwerg.Prelude.Word.{shl}
use cwerg.Prelude.Bits.{
  bit_and-ones, mask_ones, bit_and-shl_one, shl-eq-mul-pow, shr-eq-div-pow, pow_pos,
}
use cwerg.CpuA32.Ints.{signed_int_from_bits, bits_from_signed_int}

-- the integers that n + 1 bits hold in two's complement
abbrev pub Signed : ℕ → ℤ → Type 0
Signed n x = (negsuc (2 ^ n - 1) ≤ℤ x) × (x ≤ℤ pos (2 ^ n - 1))

pub low_word : (n e : ℕ) → e < 2 ^ suc n → bit_and e (shl 1 (suc n) - 1) ≡ e
low_word n e h = rw (mask_ones, bit_and-ones (suc n) e) (mod-eq_of_lt h)

pub shl_one-pow : (n : ℕ) → shl 1 n ≡ 2 ^ n
shl_one-pow n = omega (arith, shl-eq-mul-pow n 1)

high_digit_clear : (n e : ℕ) → e < 2 ^ n → bit_and e (shl 1 n) ≡ 0
high_digit_clear n e h = rw (bit_and-shl_one, shr-eq-div-pow, div-eq_of_lt h) (omega arith)

pub high_digit_set : (n e : ℕ) → 2 ^ n ≤ e → e < 2 ^ n * 2 → bit_and e (shl 1 n) ≡ 2 ^ n
high_digit_set n e h k =
    let one : e / 2 ^ n ≡ 1 = div-eq_of_lt-le {k = 1} (2 ^ n) (omega arith) (omega arith) in
    rw (bit_and-shl_one, shr-eq-div-pow, one) (omega arith)

-- An integer that n + 1 bits hold in two's complement is written in n + 1 bits, from which it is read back.
pub signed_int_from_bits-bits_from_signed_int :
    (n : ℕ) (x : ℤ)
    → Signed n x
    → (e : ℕ) × (bits_from_signed_int (suc n) x ≡ some (pos e))
      × (e < 2 ^ suc n)
      × (signed_int_from_bits e (suc n) ≡ some x)
unfolding bits_from_signed_int signed_int_from_bits
signed_int_from_bits-bits_from_signed_int n (pos m) range =
    let fits : m < 2 ^ n = omega (arith, pow_pos n) in
    let fits' : m < 2 ^ suc n = rw pow-suc (omega arith) in
    (m, rw shl_one-pow (ground arith), fits', rw (low_word n m fits', high_digit_clear n m fits))
signed_int_from_bits-bits_from_signed_int n (negsuc m) range =
    let e = 2 ^ suc n - suc m in
    let q : 2 ^ suc n ≡ 2 ^ n * 2 = pow-suc 2 n in
    let fits : suc m ≤ 2 ^ n = omega (arith, pow_pos n) in
    let fits' : e < 2 ^ suc n = omega (arith, pow_pos n) in
    (
      e,
      rw shl_one-pow (ground arith),
      fits',
      rw (low_word n e fits', high_digit_set n e (omega arith) (omega arith))
          (rw shl_one-pow (ground (arith, pow_pos n))),
    )
