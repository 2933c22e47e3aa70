-- ===== src/Base/Finite.antt =====
-- Sets of registers as lists: their sizes, and maps from blocks to such sets.
use cwerg.Prelude.{
  ℕ, zero, suc, ◌+◌, ◌*◌, ◌≤◌, ◌<◌, Bool, true, false, not, ◌&&◌, ◌≡◌, refl, ap, ◌∙◌, List, [], ◌∷◌,
  length, ◌==◌, ==_iff, ==_refl, if◌then◌else◌, Bool-cases, inl, inr, and_true, arith,
}
use native.Mathlib.Nat.{suc-mul}
use cwerg.Base.Ir.{mem, discard, add, discard_all, add_all}
use cwerg.Base.Sets.{mem-discard}

abbrev pub Subset : List ℕ → List ℕ → Type 0
Subset xs ys = (r : ℕ) → mem r xs ≡ true → mem r ys ≡ true

-- no element twice
abbrev pub distinct : List ℕ → Bool
distinct [] = true
distinct (x ∷ xs) = not (mem x xs) && distinct xs

length-discard-le : (x : ℕ) (ys : List ℕ) → length (discard x ys) ≤ length ys
length-discard-le x [] = omega arith
length-discard-le x (y ∷ ys) = ground (arith, length-discard-le x ys)

length-discard-lt : (x : ℕ) (ys : List ℕ) → mem x ys ≡ true → length (discard x ys) < length ys
length-discard-lt x [] h = cc
length-discard-lt x (y ∷ ys) h = ground (arith, length-discard-le x ys, length-discard-lt x ys)

mem_of_eq : (r x : ℕ) (s : List ℕ) → (r == x) ≡ true → mem r s ≡ mem x s
mem_of_eq r x s h = ap (λ t. mem t s) ((==_iff r x).0 h)

pub Subset-∷ : (x : ℕ) (xs ys : List ℕ) → mem x ys ≡ true → Subset xs ys → Subset (x ∷ xs) ys
Subset-∷ x xs ys h k r e = elim (Bool-cases (r == x)) [
  | inl same ↦ mem_of_eq r x ys same ∙ h
  | inr other ↦ k r (ground arith)
]

Subset-discard :
    (x : ℕ) (xs ys : List ℕ) → mem x xs ≡ false → Subset xs ys → Subset xs (discard x ys)
Subset-discard x xs ys fresh h r k = elim (Bool-cases (r == x)) [
  | inl same ↦ absurd (ground (arith, mem_of_eq r x xs same))
  | inr other ↦ ground (arith, mem-discard r x ys, h r k)
]

pub length-Subset-le : (xs ys : List ℕ) → distinct xs ≡ true → Subset xs ys → length xs ≤ length ys
length-Subset-le [] ys d h = omega arith
length-Subset-le (x ∷ xs) ys d h =
    let (fresh, rest) = and_true (not (mem x xs)) (distinct xs) d in
    let within = Subset-discard x xs ys (ground arith) (λ r k. h r (ground arith)) in
    omega (
      arith,
      length-Subset-le xs (discard x ys) rest within,
      length-discard-lt x ys (h x (rw ==_refl)),
    )

-- A subset that is no smaller is the whole set.
pub Subset-of_length :
    (xs ys : List ℕ) → distinct xs ≡ true → Subset xs ys → length ys ≤ length xs → Subset ys xs
Subset-of_length xs ys d h le r k = elim (Bool-cases (mem r xs)) [
  | inl here ↦ here
  | inr missing ↦
      absurd (omega (arith, length-Subset-le (r ∷ xs) ys (rw (missing, d)) (Subset-∷ r xs ys k h)))
]

pub distinct-discard : (x : ℕ) (s : List ℕ) → distinct s ≡ true → distinct (discard x s) ≡ true
distinct-discard x [] d = refl
distinct-discard x (y ∷ s) d =
    let (fresh, rest) = and_true (not (mem y s)) (distinct s) d in
    ground (arith, distinct-discard x s rest, mem-discard y x s)

pub distinct-discard_all : (xs s : List ℕ) → distinct s ≡ true → distinct (discard_all xs s) ≡ true
distinct-discard_all [] s d = d
distinct-discard_all (x ∷ xs) s d = distinct-discard_all xs (discard x s) (distinct-discard x s d)

pub distinct-add_all : (xs s : List ℕ) → distinct s ≡ true → distinct (add_all xs s) ≡ true
distinct-add_all [] s d = d
distinct-add_all (x ∷ xs) s d = distinct-add_all xs (add x s) (ground arith)

length-add_all-ge : (xs s : List ℕ) → length s ≤ length (add_all xs s)
length-add_all-ge [] s = omega arith
length-add_all-ge (x ∷ xs) s = ground (arith, length-add_all-ge xs (add x s))

-- `update` that does not lengthen a set leaves it as it is.
pub add_all-same : (xs s : List ℕ) → length (add_all xs s) ≤ length s → add_all xs s ≡ s
add_all-same [] s h = refl
add_all-same (x ∷ xs) s h = elim (Bool-cases (mem x s)) [
  | inl old ↦
      let e : add x s ≡ s = rw old in add_all-same xs (add x s) (omega (arith, ap length e)) ∙ e
  | inr new ↦
      let e : add x s ≡ x ∷ s = rw new in
      absurd (omega (arith, length-add_all-ge xs (add x s), ap length e))
]

-- A map from blocks, by their number, with the entry of `b` replaced.
abbrev pub put : (ℕ → List ℕ) → ℕ → List ℕ → ℕ → List ℕ
put f b v i = if i == b then v else f i

-- the number of elements in the entries below n
abbrev pub size : ℕ → (ℕ → List ℕ) → ℕ
size zero f = 0
size (suc n) f = length (f n) + size n f

pub size-put-above :
    (n : ℕ) (f : ℕ → List ℕ) (b : ℕ) (v : List ℕ) → n ≤ b → size n (put f b v) ≡ size n f
size-put-above zero f b v h = refl
size-put-above (suc n) f b v h = ground (arith, size-put-above n f b v)

pub size-put :
    (n : ℕ) (f : ℕ → List ℕ) (b : ℕ) (v : List ℕ)
    → b < n
    → size n (put f b v) + length (f b) ≡ size n f + length v
size-put zero f b v h = absurd (omega arith)
size-put (suc n) f b v h = elim (Bool-cases (n == b)) [
  | inl last ↦
      let e : n ≡ b = (==_iff n b).0 last in
      rw last (omega (arith, size-put-above n f b v (omega arith), ap (λ i. length (f i)) e))
  | inr other ↦ ground (arith, size-put n f b v)
]

pub size-le : (n c : ℕ) (f : ℕ → List ℕ) → ((b : ℕ) → length (f b) ≤ c) → size n f ≤ n * c
size-le zero c f h = omega arith
size-le (suc n) c f h = omega (arith, h n, size-le n c f h, suc-mul)
