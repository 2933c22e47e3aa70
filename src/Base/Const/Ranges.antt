-- ===== src/Base/Const/Ranges.antt =====
-- Base/ir.py and Base/reaching_defs.py, the ranges of integer constants.
use cwerg.Prelude.{
  ℕ, zero, suc, ◌+◌, ◌-◌, ◌*◌, ◌%◌, ◌/◌, ◌^◌, ◌≤◌, ◌<◌, ltb, not, all, ◌||◌, ◌&&◌, Bool, true,
  false, ◌≡◌, refl, ap, ◌∙◌, ◌==◌, if◌then◌else◌, Bool-cases, inl, inr, arith,
}
use native.Mathlib.Nat.{
  mod-lt, pow-suc, mul-le-mul_right, add-mul, mul_assoc, mul_comm, mul-add-mod_self_right,
  mod-eq_of_lt, div-add-mod', pow-le-pow_right,
}
use cwerg.Prelude.Int.{ℤ, pos, negsuc, ◌-ℤ◌, ◌≤ℤ◌, mod_ℤ, and_ℤ, eqb_ℤ}
use cwerg.Prelude.Word.{shl, ones}
use cwerg.Prelude.Bits.{
  bit_and-ones, mask_ones, pow_pos, shl-eq-mul-pow, shr-eq-div-pow, bit_and-shl_one,
}
use cwerg.Base.Kinds.{Dk, flavor, flavor_u, flavor_s, bitwidth, reg_is_int}
use cwerg.Base.Constraints.{every_kind, all_kinds}

-- The value is one of an unsigned or signed number of the width.
abbrev pub InWidth : Bool → ℕ → ℤ → Type 0
InWidth true w x = (pos 0 ≤ℤ x) × (x ≤ℤ pos (2 ^ w - 1))
InWidth false w x = (negsuc (2 ^ (w - 1) - 1) ≤ℤ x) × (x ≤ℤ pos (2 ^ (w - 1) - 1))

abbrev pub Fits : Dk → ℤ → Type 0
Fits kind x = InWidth (flavor kind == flavor_u) (bitwidth kind) x

pub shl_one : (w : ℕ) → shl 1 w ≡ 2 ^ w
shl_one w = omega (arith, shl-eq-mul-pow w 1)

ones-eq : (w : ℕ) → ones w ≡ 2 ^ w - 1
ones-eq w = omega (arith, mask_ones w, shl_one w)

-- the low digits of an integer
pub and_mask : (x : ℤ) (w : ℕ) → and_ℤ x (pos (shl 1 w - 1)) ≡ pos (mod_ℤ x (2 ^ w))
and_mask (pos n) w = rw (mask_ones, bit_and-ones w n)
and_mask (negsuc n) w = rw (mask_ones, bit_and-ones w n, ones-eq)

pub mod_ℤ-lt : (x : ℤ) (w : ℕ) → mod_ℤ x (2 ^ w) < 2 ^ w
mod_ℤ-lt (pos n) w = mod-lt n (pow_pos w)
mod_ℤ-lt (negsuc n) w = omega (arith, pow_pos w)

-- A number below twice p is a digit of weight p and the rest.
small_bound : (d p r : ℕ) → d < 2 → r < p → d * p + r < p * 2
small_bound d p r h k = omega (arith, mul-le-mul_right {m = d} {n = 1} p (omega arith))

half : (n p : ℕ) → 0 < p → n % (p * 2) ≡ n / p % 2 * p + n % p
half n p h =
    let q = n / p in
    let d = q % 2 in
    let whole : q * p ≡ q / 2 * (p * 2) + d * p = omega (
      arith,
      ap (λ t. t * p) (div-add-mod' q 2),
      add-mul (q / 2 * 2) d p,
      mul_assoc (q / 2) 2 p,
      ap (λ t. q / 2 * t) (mul_comm 2 p),
    ) in
    let split : n ≡ q / 2 * (p * 2) + (d * p + n % p) = omega (arith, div-add-mod' n p) in
    let low : d * p + n % p < p * 2 = small_bound d p (n % p) (omega arith) (mod-lt n h) in
    ap (λ t. t % (p * 2)) split
    ∙ (mul-add-mod_self_right (q / 2) (p * 2) (d * p + n % p) ∙ mod-eq_of_lt low)

digit_low : (d p r : ℕ) → d < 2 → r < p → (d * p == 0) ≡ ltb (d * p + r) p
digit_low zero p r h k = ground arith
digit_low (suc zero) p r h k = ground arith
digit_low (suc (suc d)) p r h k = absurd (omega arith)

digit_high : (d p r : ℕ) → d < 2 → r < p → (p - d * p == 0) ≡ ltb (p * 2 - 1 - (d * p + r)) p
digit_high zero p r h k = ground arith
digit_high (suc zero) p r h k = ground arith
digit_high (suc (suc d)) p r h k = absurd (omega arith)

-- The digit of weight 2 ^ k decides in which half the low k + 1 digits lie.
pub digit_test :
    (x : ℤ) (k : ℕ) → eqb_ℤ (and_ℤ x (pos (shl 1 k))) (pos 0) ≡ ltb (mod_ℤ x (2 ^ suc k)) (2 ^ k)
digit_test (pos n) k =
    rw (bit_and-shl_one k n, shr-eq-div-pow k n, pow-suc, half n (2 ^ k) (pow_pos k))
      (digit_low (n / 2 ^ k % 2) (2 ^ k) (n % 2 ^ k) (omega arith) (mod-lt n (pow_pos k)))
digit_test (negsuc n) k =
    rw (bit_and-shl_one k n, shr-eq-div-pow k n, shl_one, pow-suc, half n (2 ^ k) (pow_pos k))
      (digit_high (n / 2 ^ k % 2) (2 ^ k) (n % 2 ^ k) (omega arith) (mod-lt n (pow_pos k)))

-- The signed number with the given low digits.
unfoldable pub signed_of : ℕ → ℕ → ℤ
signed_of k u = if ltb u (2 ^ k) then pos u else pos u -ℤ pos (2 ^ suc k)

pub signed_of-InWidth : (k u : ℕ) → u < 2 ^ suc k → InWidth false (suc k) (signed_of k u)
unfolding signed_of
signed_of-InWidth k u h = ground (arith, pow-suc 2 k, pow_pos k)

sub_larger : (u m : ℕ) → u < m → pos u -ℤ pos m ≡ negsuc (m - u - 1)
sub_larger u m h = ground arith

signed_of-high : (k u : ℕ) → 2 ^ k ≤ u → u < 2 ^ suc k → signed_of k u ≡ negsuc (2 ^ suc k - u - 1)
unfolding signed_of
signed_of-high k u low h =
    let test : ltb u (2 ^ k) ≡ false = ground arith in rw test (sub_larger u (2 ^ suc k) h)

high_half : (k u : ℕ) → 2 ^ k ≤ u → u < 2 ^ suc k → mod_ℤ (signed_of k u) (2 ^ suc k) ≡ u
high_half k u low h =
    let small : 2 ^ suc k - u - 1 < 2 ^ suc k = omega arith in
    let rest : 2 ^ suc k - 1 - (2 ^ suc k - u - 1) ≡ u = omega arith in
    rw (signed_of-high k u low h, mod-eq_of_lt small, rest) refl

pub mod_ℤ-signed_of : (k u : ℕ) → u < 2 ^ suc k → mod_ℤ (signed_of k u) (2 ^ suc k) ≡ u
unfolding signed_of
mod_ℤ-signed_of k u h = elim (Bool-cases (ltb u (2 ^ k))) [
  | inl low ↦ rw low (mod-eq_of_lt h)
  | inr high ↦ high_half k u (ground arith) h
]

wider :
    (us : Bool) (ws wd : ℕ) (x : ℤ)
    → 2 ^ ws ≤ 2 ^ (wd - 1)
    → 2 ^ ws ≤ 2 ^ wd
    → 2 ^ (ws - 1) ≤ 2 ^ (wd - 1)
    → 0 < 2 ^ ws
    → InWidth us ws x
    → InWidth false wd x × (us ≡ true → InWidth true wd x)
wider true ws wd (pos n) more most half some fits = ground arith
wider true ws wd (negsuc n) more most half some fits = ground arith
wider false ws wd (pos n) more most half some fits = ground arith
wider false ws wd (negsuc n) more most half some fits = ground arith

pub InWidth-wider :
    (us : Bool) (ws wd : ℕ) (x : ℤ)
    → ws < wd
    → 0 < ws
    → InWidth us ws x
    → InWidth false wd x × (us ≡ true → InWidth true wd x)
InWidth-wider us ws wd x h k fits =
    let more : 2 ^ ws ≤ 2 ^ (wd - 1) = pow-le-pow_right {n = 2} (omega arith) (omega arith) in
    let most : 2 ^ ws ≤ 2 ^ wd = pow-le-pow_right {n = 2} (omega arith) (omega arith) in
    let half : 2 ^ (ws - 1) ≤ 2 ^ (wd - 1) = pow-le-pow_right {n = 2} (omega arith) (omega arith) in
    wider us ws wd x more most half (pow_pos ws) fits

int_test : Dk → Bool
int_test kind =
    not (reg_is_int kind)
    || (ltb 0 (bitwidth kind) && ((flavor kind == flavor_u) || (flavor kind == flavor_s)))

int_test-all : all int_test all_kinds ≡ true
unfolding int_test reg_is_int flavor bitwidth
int_test-all = refl

int_parts :
    (kind : Dk)
    → reg_is_int kind ≡ true
    → int_test kind ≡ true
    → (0 < bitwidth kind) × ((flavor kind == flavor_u) || (flavor kind == flavor_s)) ≡ true
unfolding int_test
int_parts kind h t = (ground arith, ground arith)

pub int_kind :
    (kind : Dk)
    → reg_is_int kind ≡ true
    → (0 < bitwidth kind) × ((flavor kind == flavor_u) || (flavor kind == flavor_s)) ≡ true
int_kind kind h = int_parts kind h (every_kind int_test kind int_test-all)
