-- ===== src/Base/Const/Offset.antt =====
-- Base/ir.py, `OffsetConst`, whose constants `ParseConst` reads.
use cwerg.Prelude.{
  ℕ, zero, suc, ◌+◌, ◌-◌, ◌^◌, ◌≤◌, ◌<◌, leb, Bool, true, false, ◌≡◌, refl, ◌==◌, not, ◌>>=◌,
  if◌then◌else◌, Bool-cases, inl, inr, arith, Option, some, none,
}
use native.Mathlib.Nat.{pow-le-pow_right}
use cwerg.Prelude.Int.{ℤ, pos, negsuc, ltb_ℤ}
use cwerg.Base.Kinds.{
  Dk, s8, s16, s32, s64, u8, u16, u32, u64, flavor, bitwidth, flavor_u, reg_is_int,
}
use cwerg.Base.Const.{Const, bit_length, bit_width, offset_const, parse_int_const}
use cwerg.Base.Const.Ranges.{InWidth, Fits}
use cwerg.Base.Const.Read.{bit_length-le, lt-bit_length, lt-pow_two, parse_int_const-Fits}

bit_width-pos : (n : ℕ) → bit_width (pos n) ≡ bit_length n n
unfolding bit_width bit_length
bit_width-pos zero = refl
bit_width-pos (suc n) = let test : suc n == 0 ≡ false = ground arith in rw test refl

bit_width-negsuc : (n : ℕ) → bit_width (negsuc n) ≡ bit_length n n
unfolding bit_width
bit_width-negsuc n = refl

-- The kind that `offset_const` chooses for a bit width.
kind_for : Bool → ℕ → Option Dk
kind_for neg b =
    if leb (1 + b) 8
    then some (if neg then s8 else u8)
    else if leb (1 + b) 16
    then some (if neg then s16 else u16)
    else if leb (1 + b) 32
    then some (if neg then s32 else u32)
    else if leb (1 + b) 64
    then some (if neg then s64 else u64)
    else none

offset_const-kind_for :
    (x : ℤ)
    → offset_const x
      ≡ kind_for (ltb_ℤ x (pos 0)) (bit_width x) >>= (λ k. some (record { kind = k; value = x }))
unfolding offset_const kind_for
offset_const-kind_for x = ground arith

abbrev Holds : Bool → ℕ → Dk → Type 0
Holds neg b k =
    (kind_for neg b ≡ some k)
    × (reg_is_int k ≡ true)
    × (flavor k == flavor_u ≡ not neg)
    × (b < bitwidth k)

kind_for-Holds : (neg : Bool) (b : ℕ) → b < 64 → (k : Dk) × Holds neg b k
unfolding kind_for reg_is_int flavor bitwidth
kind_for-Holds true b h = elim (Bool-cases (leb (1 + b) 8)) [
  | inl a ↦ (s8, (rw a refl, refl, refl, ground arith))
  | inr a ↦ elim (Bool-cases (leb (1 + b) 16)) [
    | inl c ↦ (s16, (rw (a, c) refl, refl, refl, ground arith))
    | inr c ↦ elim (Bool-cases (leb (1 + b) 32)) [
      | inl d ↦ (s32, (rw (a, c, d) refl, refl, refl, ground arith))
      | inr d ↦
          let e : leb (1 + b) 64 ≡ true = ground arith in
          (s64, (rw (a, c, d, e) refl, refl, refl, ground arith))
    ]
  ]
]
kind_for-Holds false b h = elim (Bool-cases (leb (1 + b) 8)) [
  | inl a ↦ (u8, (rw a refl, refl, refl, ground arith))
  | inr a ↦ elim (Bool-cases (leb (1 + b) 16)) [
    | inl c ↦ (u16, (rw (a, c) refl, refl, refl, ground arith))
    | inr c ↦ elim (Bool-cases (leb (1 + b) 32)) [
      | inl d ↦ (u32, (rw (a, c, d) refl, refl, refl, ground arith))
      | inr d ↦
          let e : leb (1 + b) 64 ≡ true = ground arith in
          (u64, (rw (a, c, d, e) refl, refl, refl, ground arith))
    ]
  ]
]

kind_for-none : (neg : Bool) (b : ℕ) → 64 ≤ b → kind_for neg b ≡ none
unfolding kind_for
kind_for-none neg b h = ground arith

-- A value of at most b digits fits the kind.
holds-Fits :
    (n b : ℕ) (k : Dk)
    → n < 2 ^ b
    → b < bitwidth k
    → (flavor k == flavor_u ≡ true → Fits k (pos n))
      × (flavor k == flavor_u ≡ false → Fits k (negsuc n))
holds-Fits n b k h wide =
    let unsigned : 2 ^ b ≤ 2 ^ bitwidth k = pow-le-pow_right {n = 2} (omega arith) (omega arith) in
    let signed : 2 ^ b ≤ 2 ^ (bitwidth k - 1) =
      pow-le-pow_right {n = 2} (omega arith) (omega arith) in
    ((λ u. rw u (omega arith, omega arith)), λ s. rw s (omega arith, omega arith))

fails : (x : ℤ) (b : ℕ) → bit_width x ≡ b → 64 ≤ b → offset_const x ≡ none
fails x b e h = rw (offset_const-kind_for x, e, kind_for-none (ltb_ℤ x (pos 0)) b h) refl

reads_back :
    (x : ℤ) (neg : Bool) (b : ℕ) (k : Dk)
    → ltb_ℤ x (pos 0) ≡ neg
    → bit_width x ≡ b
    → kind_for neg b ≡ some k
    → reg_is_int k ≡ true
    → Fits k x
    → (c : Const) × (offset_const x ≡ some c) × (c.value ≡ x) × (parse_int_const x c.kind ≡ some c)
reads_back x neg b k sign e kinds int fits =
    let (reads, range) = parse_int_const-Fits x k int in
    (
      record { kind = k; value = x },
      rw (offset_const-kind_for x, sign, e, kinds) refl,
      refl,
      range fits,
    )

many : (n b : ℕ) → n < 2 ^ b → (n < 2 ^ 63 → ⊥) → 64 ≤ b
many n b h big = elim (Bool-cases (leb 64 b)) [
  | inl more ↦ ground arith
  | inr few ↦ absurd (
      big (
        let low : 2 ^ b ≤ 2 ^ 63 =
          pow-le-pow_right {n = 2} (omega arith) {i = b} {j = 63} (ground arith) in
        omega arith))
]

-- A value that 64 bits with a sign hold becomes a constant with which it is read back.
pub offset_const-parse_int_const :
    (x : ℤ)
    → InWidth false 64 x
    → (c : Const) × (offset_const x ≡ some c) × (c.value ≡ x) × (parse_int_const x c.kind ≡ some c)
offset_const-parse_int_const (pos n) fits =
    let b = bit_length n n in
    let digits : n < 2 ^ b = lt-bit_length n n (lt-pow_two n) in
    let short : b ≤ 63 = bit_length-le n n 63 (omega arith) in
    let (k, (kinds, int, flavors, wide)) = kind_for-Holds false b (omega arith) in
    let (unsigned, signed) = holds-Fits n b k digits wide in
    reads_back (pos n) false b k (ground arith) (bit_width-pos n) kinds int (unsigned flavors)
offset_const-parse_int_const (negsuc n) fits =
    let b = bit_length n n in
    let digits : n < 2 ^ b = lt-bit_length n n (lt-pow_two n) in
    let short : b ≤ 63 = bit_length-le n n 63 (omega arith) in
    let (k, (kinds, int, flavors, wide)) = kind_for-Holds true b (omega arith) in
    let (unsigned, signed) = holds-Fits n b k digits wide in
    reads_back (negsuc n) true b k (ground arith) (bit_width-negsuc n) kinds int (signed flavors)

-- A value that 64 bits with a sign do not hold fails an assertion.
pub offset_const-none : (x : ℤ) → ¬ InWidth false 64 x → offset_const x ≡ none
offset_const-none (pos n) out =
    let digits : n < 2 ^ bit_length n n = lt-bit_length n n (lt-pow_two n) in
    fails (pos n) (bit_length n n) (bit_width-pos n)
      (many n (bit_length n n) digits (λ low. out (omega arith, omega arith)))
offset_const-none (negsuc n) out =
    let digits : n < 2 ^ bit_length n n = lt-bit_length n n (lt-pow_two n) in
    fails (negsuc n) (bit_length n n) (bit_width-negsuc n)
      (many n (bit_length n n) digits (λ low. out (omega arith, omega arith)))
