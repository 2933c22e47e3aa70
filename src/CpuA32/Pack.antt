-- ===== src/CpuA32/Pack.antt =====
-- CpuA32/opcode_tab.py, `Bits` on patterns whose values are natural numbers.
use Prim.Native.Nat.{bit_and, bit_or}
use cwerg.Prelude.{
  ℕ, ◌+◌, ◌-◌, ◌≤◌, min, ◌≡◌, refl, ap, ◌∙◌, Option, some, List, [], ◌∷◌, map, All, ◌==◌, ◌>>◌,
  assert, arith,
}
use cwerg.Prelude.Int.{pos}
use cwerg.Prelude.Word.{shl, shr, bit}
use cwerg.Prelude.Bits.{
  bit_ext, bit-bit_and, bit-bit_or, bit-zero, bit-lt-two, bit-shr, bit-shl, bit-shl_ge,
}
use cwerg.CpuA32.Ints.{Pattern, bits_from}

-- mask, value and place
abbrev pub NatPattern : Type 0
NatPattern = ℕ × ℕ × ℕ

abbrev pub lift : NatPattern → Pattern
lift (mask, n, place) = (mask, pos n, place)

abbrev pub range_of : NatPattern → ℕ × ℕ
range_of (mask, n, place) = (mask, place)

-- `Bits` on the masks alone
unfoldable pub claim : ℕ → List (ℕ × ℕ) → Option ℕ
claim m [] = some m
claim m ((mask, place) ∷ ranges) = do
  assert (bit_and m (shl mask place) == 0)
  claim (bit_or m (shl mask place)) ranges

-- Every digit of the first is a digit of the second.
abbrev pub Within : ℕ → ℕ → Type 0
Within a b = (i : ℕ) → bit a i ≤ bit b i

abbrev pub Fits : NatPattern → Type 0
Fits (mask, n, place) = Within n mask

abbrev pub Holds : ℕ → NatPattern → Type 0
Holds data_ (mask, n, place) = bit_and (shr data_ place) mask ≡ n

-- `new` has the digits of `old` wherever `mask` has a one.
abbrev Keeps : ℕ → ℕ → ℕ → Type 0
Keeps mask old new = (i : ℕ) → min (bit mask i) (bit new i) ≡ min (bit mask i) (bit old i)

disjoint_bits : (a b i : ℕ) → bit_and a b ≡ 0 → min (bit a i) (bit b i) ≡ 0
disjoint_bits a b i h = omega (arith, bit-bit_and i a b, bit-zero i, ap (λ x. bit x i) h)

Within-shl : (k a b : ℕ) → Within a b → Within (shl a k) (shl b k)
Within-shl k a b h i = ground (arith, bit-shl k i a, bit-shl k i b, h (i - k))

Within-bit_or : (a b c d : ℕ) → Within a b → Within c d → Within (bit_or a c) (bit_or b d)
Within-bit_or a b c d h k i = omega (arith, bit-bit_or i a c, bit-bit_or i b d, h i, k i)

-- A word that keeps a shifted value under its mask has the value in that place.
Keeps-Holds :
    (mask n place data_ : ℕ)
    → Within n mask
    → Keeps (shl mask place) (shl n place) data_
    → Holds data_ (mask, n, place)
Keeps-Holds mask n place data_ fits keeps = bit_ext _ n λ i. omega (
  arith,
  bit-bit_and i (shr data_ place) mask,
  bit-shr place i data_,
  bit-shl_ge place i mask,
  bit-shl_ge place i n,
  bit-lt-two i mask,
  bit-lt-two (place + i) data_,
  fits i,
  keeps (place + i),
)

-- What packing the patterns behind the masks `m` and the value `v` comes to.
abbrev pub Packed : ℕ → ℕ → ℕ → List NatPattern → Type 0
Packed m v m' ps =
    (v' : ℕ) × (bits_from m (pos v) (map lift ps) ≡ some (m', pos v'))
    × Within v' m'
    × Keeps m v v'
    × All (Holds v') ps

pack_step :
    (m v mask n place v'' : ℕ)
    → bit_and m (shl mask place) ≡ 0
    → Within v m
    → Within n mask
    → Keeps (bit_or m (shl mask place)) (bit_or v (shl n place)) v''
    → Keeps m v v'' × Holds v'' (mask, n, place)
pack_step m v mask n place v'' free old fits keeps =
    (λ i. (digits_of i).0, Keeps-Holds mask n place v'' fits (λ i. (digits_of i).1))
  where
    digits_of :
        (i : ℕ)
        → (min (bit m i) (bit v'' i) ≡ min (bit m i) (bit v i))
          × (min (bit (shl mask place) i) (bit v'' i)
              ≡ min (bit (shl mask place) i) (bit (shl n place) i))
    digits_of i = omega (
      arith,
      disjoint_bits m (shl mask place) i free,
      bit-bit_or i m (shl mask place),
      bit-bit_or i v (shl n place),
      old i,
      Within-shl place n mask fits i,
      keeps i,
      bit-lt-two i v'',
      bit-lt-two i m,
      bit-lt-two i (shl mask place),
    )

claim-nil : (m m' : ℕ) → claim m [] ≡ some m' → m ≡ m'
unfolding claim
claim-nil m m' h = cc

claim_cons :
    (m mask place m' : ℕ) (ranges : List (ℕ × ℕ))
    → claim m ((mask, place) ∷ ranges) ≡ some m'
    → (bit_and m (shl mask place) ≡ 0) × (claim (bit_or m (shl mask place)) ranges ≡ some m')
claim_cons m mask place m' ranges = unfold claim in λ h. ground arith

bits_from_cons :
    (m v mask n place : ℕ) (ps : List NatPattern)
    → bit_and m (shl mask place) ≡ 0
    → bits_from m (pos v) (map lift ((mask, n, place) ∷ ps))
      ≡ bits_from (bit_or m (shl mask place)) (pos (bit_or v (shl n place))) (map lift ps)
bits_from_cons m v mask n place ps free = unfold bits_from in rw (free)

pub pack :
    (m v m' : ℕ) (ps : List NatPattern)
    → Within v m
    → All Fits ps
    → claim m (map range_of ps) ≡ some m'
    → Packed m v m' ps
pack m v m' [] old fits h =
    let e = claim-nil m m' h in
    (v, unfold bits_from in ap (λ (x : ℕ). some (x, pos v)) e, rw (← e) old, λ i. refl, tt)
pack m v m' ((mask, n, place) ∷ ps) old (fit, fits) h =
    let (free, h') = claim_cons m mask place m' (map range_of ps) h in
    let (v'', packed, within, keeps, holds) =
      pack (bit_or m (shl mask place)) (bit_or v (shl n place)) m' ps
        (Within-bit_or v m (shl n place) (shl mask place) old (Within-shl place n mask fit)) fits
        h' in
    let (kept, held) = pack_step m v mask n place v'' free old fit keeps in
    (v'', bits_from_cons m v mask n place ps free ∙ packed, within, kept, (held, holds))
