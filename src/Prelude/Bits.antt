-- ===== src/Prelude/Bits.antt =====
-- The laws of `bit_and` and `bit_or` at variables, digit by digit, and of shifts and masks.
use Prim.Native.Nat.{
  ℕ, zero, suc, ◌+◌, ◌-◌, ◌*◌, ◌/◌, ◌%◌, ◌^◌, ◌≤◌, ◌<◌, min, max, bit_and, bit_or, digits,
  bit_and-bitwise, bit_or-bitwise, bit_xor, bit_xor-bitwise, differ,
}
use mathlib.Core.Path.{◌≡◌, subst, refl, sym, ap, ◌∙◌}
use mathlib.Core.Logic.{inl, inr}
use mathlib.Core.Bool.{Bool, true, ◌&&◌}
use cwerg.Prelude.Tests.{ltb, if◌then◌else◌, Bool-cases}
use native.Mathlib.Nat.{
  pow-suc, mod-one, mod-lt, mod-eq_of_lt, mul_comm, div-div-eq-div-mul, mul-add-div_right,
  mul-add-mod_self_right, div-eq_of_lt,
}
use native.Mathlib.Omega.{arith}
use cwerg.Prelude.Word.{shl, shr, bit, ones}

module _ (last : ℕ → ℕ) (f : ℕ → ℕ → ℕ) where
  run_out : (count b : ℕ) → digits last f count 0 b ≡ last b
  run_out zero b = refl
  run_out (suc count) b = refl

  -- Two counts that both suffice give the same digits.
  counts : (n m x y : ℕ) → x ≤ min n m → digits last f n x y ≡ digits last f m x y
  counts n m zero y h = run_out n y ∙ sym (run_out m y)
  counts (suc n) (suc m) (suc x) y h =
      ap (λ r. r * 2 + f (suc x % 2) (y % 2)) (counts n m (suc x / 2) (y / 2) (omega arith))
  counts zero m (suc x) y h = absurd (omega arith)
  counts (suc n) zero (suc x) y h = absurd (omega arith)

  lowest_digit :
      ((y : ℕ) → last y ≡ last (y / 2) * 2 + f 0 (y % 2))
      → (x y : ℕ)
      → digits last f x x y ≡ digits last f (x / 2) (x / 2) (y / 2) * 2 + f (x % 2) (y % 2)
  lowest_digit base zero y = base y
  lowest_digit base (suc x) y =
      ap (λ r. r * 2 + f (suc x % 2) (y % 2))
        (counts x (suc x / 2) (suc x / 2) (y / 2) (omega arith))

-- The lowest digit, and the rest.
pub lowest_and : (x y : ℕ) → bit_and x y ≡ bit_and (x / 2) (y / 2) * 2 + min (x % 2) (y % 2)
lowest_and x y =
    rw (bit_and-bitwise x y, bit_and-bitwise (x / 2) (y / 2))
      (lowest_digit (λ b. zero) min (λ t. omega arith) x y)

lowest_or : (x y : ℕ) → bit_or x y ≡ bit_or (x / 2) (y / 2) * 2 + max (x % 2) (y % 2)
lowest_or x y =
    rw (bit_or-bitwise x y, bit_or-bitwise (x / 2) (y / 2))
      (lowest_digit (λ b. b) max (λ t. omega arith) x y)

differ_zero : (t : ℕ) → differ t 0 ≡ t
differ_zero zero = refl
differ_zero (suc t) = refl

differ_same : (t : ℕ) → differ t t ≡ 0
differ_same zero = refl
differ_same (suc t) = differ_same t

lowest_xor : (x y : ℕ) → bit_xor x y ≡ bit_xor (x / 2) (y / 2) * 2 + differ (x % 2) (y % 2)
lowest_xor x y =
    rw (bit_xor-bitwise x y, bit_xor-bitwise (x / 2) (y / 2))
      (lowest_digit (λ b. b) differ (λ t. omega arith) x y)

-- Exclusive or with nothing, and of a number with itself.
bit_xor_below : (f x : ℕ) → x ≤ f → (bit_xor x 0 ≡ x) × (bit_xor x x ≡ 0)
bit_xor_below zero x h =
    let e : x ≡ 0 = omega arith in
    subst (λ t. (bit_xor t 0 ≡ t) × (bit_xor t t ≡ 0)) (sym e) (refl, refl)
bit_xor_below (suc f) x h =
    let (rest, same) = bit_xor_below f (x / 2) (omega arith) in
    (
      omega (arith, lowest_xor x 0, rest, differ_zero (x % 2)),
      omega (arith, lowest_xor x x, same, differ_same (x % 2)),
    )

pub bit_xor-zero : (x : ℕ) → bit_xor x 0 ≡ x
bit_xor-zero x = (bit_xor_below x x (omega arith)).0

pub bit_xor-same : (x : ℕ) → bit_xor x x ≡ 0
bit_xor-same x = (bit_xor_below x x (omega arith)).1

pub zero-bit_xor : (y : ℕ) → bit_xor 0 y ≡ y
zero-bit_xor y = bit_xor-bitwise 0 y

pub zero-bit_or : (y : ℕ) → bit_or 0 y ≡ y
zero-bit_or y = bit_or-bitwise 0 y

half_and : (a b : ℕ) → bit_and a b / 2 ≡ bit_and (a / 2) (b / 2)
half_and a b = omega (arith, lowest_and a b)

half_or : (a b : ℕ) → bit_or a b / 2 ≡ bit_or (a / 2) (b / 2)
half_or a b = omega (arith, lowest_or a b)

-- Digit by digit.
pub bit-bit_and : (i a b : ℕ) → bit (bit_and a b) i ≡ min (bit a i) (bit b i)
unfolding bit
bit-bit_and zero a b = omega (arith, lowest_and a b)
bit-bit_and (suc i) a b = rw half_and (bit-bit_and i (a / 2) (b / 2))

pub bit-bit_or : (i a b : ℕ) → bit (bit_or a b) i ≡ max (bit a i) (bit b i)
unfolding bit
bit-bit_or zero a b = omega (arith, lowest_or a b)
bit-bit_or (suc i) a b = rw half_or (bit-bit_or i (a / 2) (b / 2))

differ_gap : (a b : ℕ) → differ a b ≡ (a - b) + (b - a)
differ_gap zero b = omega arith
differ_gap (suc a) zero = omega arith
differ_gap (suc a) (suc b) = omega (arith, differ_gap a b)

half_xor : (a b : ℕ) → bit_xor a b / 2 ≡ bit_xor (a / 2) (b / 2)
half_xor a b = omega (arith, lowest_xor a b, differ_gap (a % 2) (b % 2))

pub bit-bit_xor : (i a b : ℕ) → bit (bit_xor a b) i ≡ (bit a i - bit b i) + (bit b i - bit a i)
unfolding bit
bit-bit_xor zero a b = omega (arith, lowest_xor a b, differ_gap (a % 2) (b % 2))
bit-bit_xor (suc i) a b = rw half_xor (bit-bit_xor i (a / 2) (b / 2))

pub bit-lt-two : (i a : ℕ) → bit a i < 2
unfolding bit
bit-lt-two zero a = omega arith
bit-lt-two (suc i) a = bit-lt-two i (a / 2)

pub bit-zero : (i : ℕ) → bit 0 i ≡ 0
unfolding bit
bit-zero zero = refl
bit-zero (suc i) = bit-zero i

-- Numbers with the same digits are equal.
bit_ext_below : (n a b : ℕ) → a ≤ n → b ≤ n → ((i : ℕ) → bit a i ≡ bit b i) → a ≡ b
unfolding bit
bit_ext_below zero a b p q h = omega arith
bit_ext_below (suc n) a b p q h =
    omega (arith, h 0, bit_ext_below n (a / 2) (b / 2) (omega arith) (omega arith) (λ i. h (suc i)))

pub bit_ext : (a b : ℕ) → ((i : ℕ) → bit a i ≡ bit b i) → a ≡ b
bit_ext a b h = bit_ext_below (a + b) a b (omega arith) (omega arith) h

-- Two values that a word has under two masks agree where both masks have a one.
pub overlap :
    (data_ m1 v1 m2 v2 : ℕ)
    → bit_and data_ m1 ≡ v1
    → bit_and data_ m2 ≡ v2
    → bit_and v1 (bit_and m1 m2) ≡ bit_and v2 (bit_and m1 m2)
overlap data_ m1 v1 m2 v2 h k = bit_ext _ _ λ i. omega (
  arith,
  bit-bit_and i v1 (bit_and m1 m2),
  bit-bit_and i v2 (bit_and m1 m2),
  bit-bit_and i m1 m2,
  bit-bit_and i data_ m1,
  bit-bit_and i data_ m2,
  ap (λ (t : ℕ). bit t i) h,
  ap (λ (t : ℕ). bit t i) k,
)

pub bit-suc : (i x : ℕ) → bit x (suc i) ≡ bit (x / 2) i
unfolding bit
bit-suc i x = refl

pub bit-shr : (k i x : ℕ) → bit (shr x k) i ≡ bit x (k + i)
unfolding shr
bit-shr zero i x = ap (bit x) (omega arith)
bit-shr (suc k) i x =
    let e : suc k + i ≡ suc (k + i) = omega arith in rw (e, bit-suc) (bit-shr k i (x / 2))

half_shl : (k x : ℕ) → shl x (suc k) / 2 ≡ shl x k
unfolding shl
half_shl k x = omega arith

pub bit-shl_ge : (k i x : ℕ) → bit (shl x k) (k + i) ≡ bit x i
bit-shl_ge zero i x = unfold shl in ap (bit x) (omega arith)
bit-shl_ge (suc k) i x =
    let e : suc k + i ≡ suc (k + i) = omega arith in rw (e, bit-suc, half_shl) (bit-shl_ge k i x)

pub bit-shl_lt : (k i x : ℕ) → i < k → bit (shl x k) i ≡ 0
bit-shl_lt zero i x h = elim h [ ]
bit-shl_lt (suc k) zero x h = unfold shl bit in omega arith
bit-shl_lt (suc k) (suc i) x h = rw (bit-suc, half_shl) (bit-shl_lt k i x (omega arith))

-- A shifted number's digits, at every place.
pub bit-shl : (k i x : ℕ) → bit (shl x k) i ≡ (if ltb i k then 0 else bit x (i - k))
bit-shl k i x = elim (Bool-cases (ltb i k)) [
  | inl lt ↦ rw lt (bit-shl_lt k i x (ground arith))
  | inr ge ↦ rw ge (
      let e : k + (i - k) ≡ i = ground arith in ap (bit (shl x k)) (sym e) ∙ bit-shl_ge k (i - k) x)
]

pub bit-ones_lt : (k i : ℕ) → i < k → bit (ones k) i ≡ 1
unfolding ones bit
bit-ones_lt zero i h = elim h [ ]
bit-ones_lt (suc k) zero h = omega arith
bit-ones_lt (suc k) (suc i) h =
    let half : (ones k * 2 + 1) / 2 ≡ ones k = omega arith in
    rw half (bit-ones_lt k i (omega arith))

-- The digits below k, as a remainder.
mod_double : (m x : ℕ) → 0 < m → x % (m * 2) ≡ x / 2 % m * 2 + x % 2
mod_double m x h = grind arith

pub pow_pos : (k : ℕ) → 0 < 2 ^ k
pow_pos zero = omega arith
pow_pos (suc k) = rw (pow-suc) (omega (arith, pow_pos k))

pub bit_and-zero : (x : ℕ) → bit_and x 0 ≡ 0
bit_and-zero x =
    bit_ext (bit_and x 0) 0 (λ i. omega (arith, bit-bit_and i x 0, bit-zero i, bit-lt-two i x))

pub bit_or-zero : (x : ℕ) → bit_or x 0 ≡ x
bit_or-zero x =
    bit_ext (bit_or x 0) x (λ i. omega (arith, bit-bit_or i x 0, bit-zero i, bit-lt-two i x))

half_ones : (k : ℕ) → ones (suc k) / 2 ≡ ones k
unfolding ones
half_ones k = omega arith

-- `x & (2 ^ k - 1)`
pub bit_and-ones : (k x : ℕ) → bit_and x (ones k) ≡ x % 2 ^ k
bit_and-ones zero x = unfold ones in rw bit_and-zero (sym (mod-one x))
bit_and-ones (suc k) x =
    rw (lowest_and x (ones (suc k)), half_ones, bit_and-ones k (x / 2), pow-suc)
      (unfold ones in omega (arith, mod_double (2 ^ k) x (pow_pos k)))

half_split : (k x : ℕ) → bit_and x (ones (suc k)) / 2 ≡ bit_and (x / 2) (ones k)
half_split k x = rw (half_and, half_ones)

shr-suc : (k x : ℕ) → shr x (suc k) ≡ shr (x / 2) k
unfolding shr
shr-suc k x = refl

split_low : (k x y : ℕ) → x / 2 * 2 + max (shl y (suc k) % 2) (bit_and x (ones (suc k)) % 2) ≡ x
unfolding shl ones
split_low k x y = omega (arith, lowest_and x (ones k * 2 + 1))

-- A number is its digits from k on, and those below k.
pub split_at : (k x : ℕ) → bit_or (shl (shr x k) k) (bit_and x (ones k)) ≡ x
split_at zero x = unfold shl shr ones in rw (bit_and-zero, bit_or-zero)
split_at (suc k) x =
    rw
      (
        lowest_or (shl (shr x (suc k)) (suc k)) (bit_and x (ones (suc k))),
        half_shl,
        half_split,
        shr-suc,
        split_at k (x / 2),
      )
      (split_low k x (shr (x / 2) k))

shl_one : (k : ℕ) → shl 1 k ≡ ones k + 1
unfolding shl ones
shl_one zero = refl
shl_one (suc k) = omega (arith, shl_one k)

-- `(1 << k) - 1`
pub mask_ones : (k : ℕ) → shl 1 k - 1 ≡ ones k
mask_ones k = omega (arith, shl_one k)

pub shl-eq-mul-pow : (k x : ℕ) → shl x k ≡ x * 2 ^ k
unfolding shl
shl-eq-mul-pow zero x = omega arith
shl-eq-mul-pow (suc k) x = rw pow-suc (omega (arith, ap (λ (t : ℕ). t * 2) (shl-eq-mul-pow k x)))

pub shr-eq-div-pow : (k x : ℕ) → shr x k ≡ x / 2 ^ k
unfolding shr
shr-eq-div-pow zero x = omega arith
shr-eq-div-pow (suc k) x =
    shr-eq-div-pow k (x / 2)
    ∙ div-div-eq-div-mul x 2 (2 ^ k)
    ∙ ap (λ (t : ℕ). x / t) (rw pow-suc (mul_comm 2 (2 ^ k)))

pub bit_and_comm : (a b : ℕ) → bit_and a b ≡ bit_and b a
bit_and_comm a b = bit_ext _ _ (λ i. omega (arith, bit-bit_and i a b, bit-bit_and i b a))

bit_and_one : (x : ℕ) → bit_and x 1 ≡ x % 2 * 1
bit_and_one x = omega (arith, lowest_and x 1, bit_and-zero (x / 2))

-- The digit of weight 2 ^ k, in its place.
pub bit_and-shl_one : (k x : ℕ) → bit_and x (shl 1 k) ≡ shr x k % 2 * 2 ^ k
bit_and-shl_one zero x = unfold shl shr in bit_and_one x
bit_and-shl_one (suc k) x =
    rw (lowest_and x (shl 1 (suc k)), half_shl, bit_and-shl_one k (x / 2), shr-suc, pow-suc)
      (unfold shl in omega arith)

-- A number below 2 ^ k lies within k ones.
pub bit-le-ones : (k x i : ℕ) → x < 2 ^ k → bit x i ≤ bit (ones k) i
bit-le-ones k x i h =
    let e : bit_and x (ones k) ≡ x = bit_and-ones k x ∙ mod-eq_of_lt h in
    omega (arith, bit-bit_and i x (ones k), ap (λ t. bit t i) e)

pub lt-pow_of_bits : (k x : ℕ) → ((i : ℕ) → bit x i ≤ bit (ones k) i) → x < 2 ^ k
lt-pow_of_bits k x h =
    let e : bit_and x (ones k) ≡ x =
      bit_ext _ _ (λ i. omega (arith, bit-bit_and i x (ones k), h i)) in
    rw (sym e ∙ bit_and-ones k x) (mod-lt x (pow_pos k))

-- `(a << k) | b` where `b` has k digits
pub bit_or-shl : (k a b : ℕ) → b < 2 ^ k → bit_or (shl a k) b ≡ a * 2 ^ k + b
bit_or-shl k a b h = cc (split_at k w, high, low)
  where
    w : ℕ
    w = a * 2 ^ k + b

    high : shr w k ≡ a
    high = shr-eq-div-pow k w ∙ mul-add-div_right (pow_pos k) a b ∙ omega (arith, div-eq_of_lt h)

    low : bit_and w (ones k) ≡ b
    low = bit_and-ones k w ∙ mul-add-mod_self_right a (2 ^ k) b ∙ mod-eq_of_lt h

-- Over a small range, every value is checked by evaluation.
unfoldable pub all_below : ℕ → (ℕ → Bool) → Bool
all_below zero test = true
all_below (suc n) test = test n && all_below n test

pub all_below_sound :
    (n : ℕ) (test : ℕ → Bool) (x : ℕ) → all_below n test ≡ true → x < n → test x ≡ true
unfolding all_below
all_below_sound zero test x h lt = absurd (omega arith)
all_below_sound (suc n) test x h lt = ground (arith, all_below_sound n test x)
