-- ===== src/Base/Const/Read.antt =====
-- Base/ir.py, `ParseConst` and `OffsetConst` against the ranges of the kinds.
use cwerg.Prelude.{
  ℕ, zero, suc, ◌-◌, ◌/◌, ◌^◌, ◌≤◌, ◌<◌, ◌&&◌, ◌↔◌, Bool, true, false, ◌≡◌, refl, sym, ◌∙◌, ◌==◌,
  not, ◌>>◌, assert, if◌then◌else◌, Bool-cases, inl, inr, arith, Option, some, none,
}
use native.Mathlib.Nat.{pow-suc}
use cwerg.Prelude.Int.{ℤ, pos, negsuc, ◌-ℤ◌, ltb_ℤ}
use cwerg.Prelude.Word.{shl, shr}
use cwerg.Prelude.Bits.{shr-eq-div-pow, pow_pos}
use cwerg.Base.Kinds.{Dk, flavor, bitwidth, flavor_u, flavor_s, flavor_f, reg_is_int}
use cwerg.Base.Const.{Const, bit_length, parse_int_const}
use cwerg.Base.Const.Ranges.{InWidth, Fits, shl_one, int_kind}

pub shr_one : (n : ℕ) → shr n 1 ≡ n / 2
shr_one n = shr-eq-div-pow 1 n

pub bit_length-suc : (f n : ℕ) → 0 < n → bit_length (suc f) n ≡ suc (bit_length f (n / 2))
unfolding bit_length
bit_length-suc f n h = let test : n == 0 ≡ false = ground arith in rw (shr_one n, test) refl

-- The bit length is the least width of an unsigned number that holds n.
pub bit_length-le : (f n w : ℕ) → n < 2 ^ w → bit_length f n ≤ w
unfolding bit_length
bit_length-le zero n w h = omega arith
bit_length-le (suc f) zero w h = omega arith
bit_length-le (suc f) (suc n) zero h = absurd (omega arith)
bit_length-le (suc f) (suc n) (suc w) h =
    let half : suc n / 2 < 2 ^ w = omega (arith, pow-suc 2 w) in
    let rest : bit_length f (suc n / 2) ≤ w = bit_length-le f (suc n / 2) w half in
    rw (bit_length-suc f (suc n) (omega arith)) (omega arith)

pub lt-bit_length : (f n : ℕ) → n < 2 ^ f → n < 2 ^ bit_length f n
unfolding bit_length
lt-bit_length zero n h = h
lt-bit_length (suc f) zero h = pow_pos 0
lt-bit_length (suc f) (suc n) h =
    let half : suc n / 2 < 2 ^ f = omega (arith, pow-suc 2 f) in
    let rest : suc n / 2 < 2 ^ bit_length f (suc n / 2) = lt-bit_length f (suc n / 2) half in
    rw (bit_length-suc f (suc n) (omega arith), pow-suc 2 (bit_length f (suc n / 2))) (omega arith)

pub lt-pow_two : (n : ℕ) → n < 2 ^ n
lt-pow_two zero = pow_pos 0
lt-pow_two (suc n) = rw (pow-suc 2 n) (let rest = lt-pow_two n in omega arith)

-- `parse_int_const` on the flavors
parse_unsigned :
    (x : ℤ) (kind : Dk)
    → flavor kind == flavor_u ≡ true
    → parse_int_const x kind ≡ (do
      assert (not (ltb_ℤ x (pos 0)) && ltb_ℤ x (pos (shl 1 (bitwidth kind))))
      some (record { kind = kind; value = x }))
unfolding parse_int_const
parse_unsigned x kind h =
    let float : flavor kind == flavor_f ≡ false = ground arith in rw (float, h) refl

parse_signed :
    (x : ℤ) (kind : Dk)
    → flavor kind == flavor_s ≡ true
    → parse_int_const x kind ≡ (do
      assert (
          if ltb_ℤ x (pos 0)
          then not (ltb_ℤ (pos (shl 1 (bitwidth kind - 1))) (pos 0 -ℤ x))
          else ltb_ℤ x (pos (shl 1 (bitwidth kind - 1))))
      some (record { kind = kind; value = x }))
unfolding parse_int_const
parse_signed x kind h =
    let float : flavor kind == flavor_f ≡ false = ground arith in
    let other : flavor kind == flavor_u ≡ false = ground arith in rw (float, other) refl

unsigned_range :
    (x : ℤ) (w : ℕ) → not (ltb_ℤ x (pos 0)) && ltb_ℤ x (pos (shl 1 w)) ≡ true ↔ InWidth true w x
unsigned_range (pos n) w =
    ((λ h. ground (arith, shl_one w, pow_pos w)), λ h. ground (arith, shl_one w, pow_pos w))
unsigned_range (negsuc n) w =
    ((λ h. ground (arith, shl_one w, pow_pos w)), λ h. ground (arith, shl_one w, pow_pos w))

signed_range :
    (x : ℤ) (w : ℕ)
    → (if ltb_ℤ x (pos 0)
          then not (ltb_ℤ (pos (shl 1 (w - 1))) (pos 0 -ℤ x))
          else ltb_ℤ x (pos (shl 1 (w - 1))))
        ≡ true
      ↔ InWidth false w x
signed_range (pos n) w = (
  (λ h. ground (arith, shl_one (w - 1), pow_pos (w - 1))),
  λ h. ground (arith, shl_one (w - 1), pow_pos (w - 1)),
)
signed_range (negsuc n) w = (
  (λ h. ground (arith, shl_one (w - 1), pow_pos (w - 1))),
  λ h. ground (arith, shl_one (w - 1), pow_pos (w - 1)),
)

asserted :
    {b : Bool} {r : Option Const} {c : Const} {T : Type 0}
    → r ≡ (do assert b; some c)
    → (b ≡ true ↔ T)
    → r ≡ some c ↔ T
asserted {b = true} e (to, from) = (λ h. to refl, λ t. e)
asserted {b = false} {r} {c} e (to, from) = (
  (λ h. let clash : none ≡ some c = sym e ∙ h in cc),
  λ t. let wrong : false ≡ true = from t in cc,
)

-- A constant is read exactly for a value in the range of its integer kind.
pub parse_int_const-Fits :
    (x : ℤ) (kind : Dk)
    → reg_is_int kind ≡ true
    → parse_int_const x kind ≡ some (record { kind = kind; value = x }) ↔ Fits kind x
parse_int_const-Fits x kind h =
    let (wide, flavors) = int_kind kind h in
    elim (Bool-cases (flavor kind == flavor_u)) [
      | inl u ↦ rw u (asserted (parse_unsigned x kind u) (unsigned_range x (bitwidth kind)))
      | inr s ↦
          rw s (asserted (parse_signed x kind (ground arith)) (signed_range x (bitwidth kind)))
    ]
