-- ===== src/Base/Const/Powers.antt =====
-- Base/ir.py, `IsIntPowerOfTwo` with `IntBinaryLog`.
use Prim.Native.Nat.{bit_and}
use cwerg.Prelude.{
  ℕ, zero, suc, ◌+◌, ◌-◌, ◌*◌, ◌%◌, ◌/◌, ◌^◌, ◌≤◌, ◌<◌, true, ◌≡◌, refl, ap, sym, ◌∙◌, ◌==◌,
  Bool-cases, inl, inr, arith, some, min, subst,
}
use native.Mathlib.Nat.{pow-suc}
use cwerg.Prelude.Int.{ℤ, pos, negsuc, and_ℤ, ◌-ℤ◌, ltb_ℤ, eqb_ℤ}
use cwerg.Prelude.Bits.{lowest_and}
use cwerg.Base.Kinds.{Dk}
use cwerg.Base.Const.{Const, bit_length, is_int_power_of_two, int_binary_log, log_loop}
use cwerg.Base.Const.Read.{bit_length-le, bit_length-suc, lt-bit_length, lt-pow_two}
use cwerg.Prelude.Word.{shr}

bit_and_same : (f n : ℕ) → n < 2 ^ f → bit_and n n ≡ n
bit_and_same zero n h = let e : n ≡ 0 = omega arith in subst (λ t. bit_and t t ≡ t) (sym e) refl
bit_and_same (suc f) n h =
    let half : n / 2 < 2 ^ f = omega (arith, pow-suc 2 f) in
    omega (arith, lowest_and n n, bit_and_same f (n / 2) half)

long_enough : (b m : ℕ) → 0 < m → m < 2 ^ b → b ≡ suc (b - 1)
long_enough zero m p h = absurd (omega arith)
long_enough (suc b) m p h = omega arith

even_power :
    (f n : ℕ)
    → 0 < n
    → n % 2 ≡ 0
    → n / 2 < 2 ^ f
    → n / 2 ≡ 2 ^ (bit_length f (n / 2) - 1)
    → n ≡ 2 ^ (suc (bit_length f (n / 2)) - 1)
even_power f n p even h e =
    let b = bit_length f (n / 2) in
    let digits : n / 2 < 2 ^ b = lt-bit_length f (n / 2) h in
    let long : b ≡ suc (b - 1) = long_enough b (n / 2) (omega arith) digits in
    let same : suc b - 1 ≡ suc (b - 1) = omega arith in rw (same, pow-suc 2 (b - 1)) (omega arith)

odd_power : (f n : ℕ) → n / 2 ≡ 0 → n % 2 ≡ 1 → n ≡ 2 ^ (suc (bit_length f (n / 2)) - 1)
odd_power f n half odd =
    let empty : bit_length f (n / 2) ≤ 0 = bit_length-le f (n / 2) 0 (omega arith) in
    let short : suc (bit_length f (n / 2)) - 1 ≡ 0 = omega arith in rw short (omega arith)

-- A number that shares no digit with its predecessor is the power of two of its length.
is_power : (f n : ℕ) → 0 < n → n < 2 ^ f → bit_and n (n - 1) ≡ 0 → n ≡ 2 ^ (bit_length f n - 1)
is_power zero n p h e = absurd (omega arith)
is_power (suc f) n p h e =
    let half : n / 2 < 2 ^ f = omega (arith, pow-suc 2 f) in
    let digits : bit_and (n / 2) ((n - 1) / 2) * 2 + min (n % 2) ((n - 1) % 2) ≡ 0 =
      sym (lowest_and n (n - 1)) ∙ e in
    rw (bit_length-suc f n p) (elim (Bool-cases (n % 2 == 0)) [
      | inl even ↦
          let before : (n - 1) / 2 ≡ n / 2 - 1 = ground arith in
          let rest : bit_and (n / 2) (n / 2 - 1) ≡ 0 =
            subst (λ t. bit_and (n / 2) t ≡ 0) before (omega arith) in
          even_power f n p (ground arith) half (is_power f (n / 2) (ground arith) half rest)
      | inr odd ↦
          let before : (n - 1) / 2 ≡ n / 2 = ground arith in
          let none_left : bit_and (n / 2) (n / 2) ≡ 0 =
            subst (λ t. bit_and (n / 2) t ≡ 0) before (omega arith) in
          let one : n / 2 ≡ 0 = sym (bit_and_same f (n / 2) half) ∙ none_left in
          odd_power f n one (ground arith)
    ])

log_loop-bit_length : (f n c : ℕ) → log_loop f n c ≡ bit_length f n + c
unfolding log_loop bit_length
log_loop-bit_length zero n c = omega arith
log_loop-bit_length (suc f) n c = let rest = log_loop-bit_length f (shr n 1) (suc c) in ground arith

by_sign :
    (x : ℤ) (k : Dk)
    → is_int_power_of_two (record { kind = k; value = x }) ≡ true
    → ltb_ℤ (pos 0) x ≡ true
    → (j : ℕ) × (int_binary_log (record { kind = k; value = x }) ≡ some j) × (x ≡ pos (2 ^ j))
unfolding is_int_power_of_two int_binary_log
by_sign (pos n) k test h =
    let alone : bit_and n (n - 1) ≡ 0 =
      let minus : pos n -ℤ pos 1 ≡ pos (n - 1) = ground arith in
      let passed : eqb_ℤ (pos (bit_and n (n - 1))) (pos 0) ≡ true =
        subst (λ t. eqb_ℤ (and_ℤ (pos n) t) (pos 0) ≡ true) minus test in
      ground arith in
    let log : int_binary_log (record { kind = k; value = pos n }) ≡ some (bit_length n n - 1) =
      let count : log_loop n n 0 ≡ bit_length n n = omega (arith, log_loop-bit_length n n 0) in
      let positive : ltb_ℤ (pos 0) (pos n) ≡ true = h in rw (positive, count) refl in
    (bit_length n n - 1, log, ap (λ t. pos t) (is_power n n (ground arith) (lt-pow_two n) alone))
by_sign (negsuc n) k test h = absurd (ground arith)

-- A positive constant that passes the test is the power of two of its logarithm.
pub is_int_power_of_two-int_binary_log :
    (c : Const)
    → is_int_power_of_two c ≡ true
    → ltb_ℤ (pos 0) c.value ≡ true
    → (k : ℕ) × (int_binary_log c ≡ some k) × (c.value ≡ pos (2 ^ k))
is_int_power_of_two-int_binary_log c test h = by_sign c.value c.kind test h
