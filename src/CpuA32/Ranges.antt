-- ===== src/CpuA32/Ranges.antt =====
-- CpuA32/opcode_tab.py, `EncodeOperand` and `DecodeOperand` on the bit ranges of one operand.
use Prim.Native.Nat.{bit_and}
use native.Mathlib.Nat.{mod-eq_of_lt}
use cwerg.Prelude.{
  ℕ, ◌*◌, ◌/◌, ◌%◌, ◌^◌, ◌≤◌, ◌<◌, ◌≡◌, refl, ap, ◌∙◌, ◌⊎◌, inl, inr, true, some, List, [], ◌∷◌,
  map, reverse, All, ◌==◌, arith,
}
use cwerg.Prelude.Int.{ℤ, pos, eqb_ℤ, and_ℤ}
use cwerg.Prelude.Word.{shr, bit, ones}
use cwerg.Prelude.Bits.{bit_and-ones, bit_and_comm, mask_ones, split_at, bit-le-ones, bit-bit_and}
use cwerg.CpuA32.Ints.{encode_rotate_imm}
use cwerg.CpuA32.Fields.{
  BitRangeKind, BitRange, verbatim, hi, lo, rotated, signed, times8, times4, times2_plus4,
  decode_ranges, encode_ranges,
}
use cwerg.CpuA32.Pack.{NatPattern, lift, range_of, Fits, Holds}
use cwerg.CpuA32.Signed.{signed_int_from_bits-bits_from_signed_int, Signed}
use cwerg.CpuA32.Rotate.{Int32, decode-encode_rotate_imm}

-- mask and place of the range of width w
abbrev pub claimed : ℕ → ℕ → ℕ × ℕ
claimed w place = (ones w, place)

-- `val` is encoded into patterns at the places `claims`, and is decoded from each word that holds
-- the patterns.
abbrev pub Encodes : List BitRange → List (ℕ × ℕ) → ℤ → Type 0
Encodes ranges claims val =
    (ps : List NatPattern) × (encode_ranges (reverse ranges) val ≡ some (map lift ps))
    × (map range_of ps ≡ claims)
    × All Fits ps
    × ((data_ : ℕ) → All (Holds data_) ps → decode_ranges ranges 0 data_ ≡ some val)

mask-bit_and : (w n : ℕ) → n < 2 ^ w → bit_and (ones w) n ≡ n
mask-bit_and w n h = bit_and_comm (ones w) n ∙ bit_and-ones w n ∙ mod-eq_of_lt h

eqb_refl : (n : ℕ) → (n == n) ≡ true
eqb_refl n = ground arith

mask_test : (w n : ℕ) → n < 2 ^ w → eqb_ℤ (and_ℤ (pos (ones w)) (pos n)) (pos n) ≡ true
mask_test w n h = rw (mask-bit_and w n h) (eqb_refl n)

bit-low-le : (w n i : ℕ) → bit (bit_and n (ones w)) i ≤ bit (ones w) i
bit-low-le w n i = omega (arith, bit-bit_and i n (ones w))

module _ (w place : ℕ) where
  pub verbatim-Encodes :
      (n : ℕ) → n < 2 ^ w → Encodes ((verbatim, w, place) ∷ []) (claimed w place ∷ []) (pos n)
  unfolding encode_ranges decode_ranges
  verbatim-Encodes n h = (
    (ones w, n, place) ∷ [],
    rw (mask_ones, mask_test w n h),
    refl,
    (λ i. bit-le-ones w n i h, tt),
    λ data_ held. rw (mask_ones, held.0),
  )

  pub times8-Encodes :
      (n : ℕ)
      → n % 8 ≡ 0
      → n < 2 ^ w * 8
      → Encodes ((times8, w, place) ∷ []) (claimed w place ∷ []) (pos n)
  unfolding encode_ranges decode_ranges shr
  times8-Encodes n whole h = (
    (ones w, n / 2 / 2 / 2, place) ∷ [],
    rw (mask_ones, whole),
    refl,
    (λ i. bit-le-ones w (n / 2 / 2 / 2) i (omega arith), tt),
    λ data_ held. rw (mask_ones, held.0) (ap (λ t. some (pos t)) (omega arith)),
  )

  pub times4-Encodes :
      (n : ℕ)
      → n % 4 ≡ 0
      → n < 2 ^ w * 4
      → Encodes ((times4, w, place) ∷ []) (claimed w place ∷ []) (pos n)
  unfolding encode_ranges decode_ranges shr
  times4-Encodes n whole h = (
    (ones w, n / 2 / 2, place) ∷ [],
    rw (mask_ones, whole),
    refl,
    (λ i. bit-le-ones w (n / 2 / 2) i (omega arith), tt),
    λ data_ held. rw (mask_ones, held.0) (ap (λ t. some (pos t)) (omega arith)),
  )

module _ (place : ℕ) where
  pub rotated-Encodes :
      (val : ℤ) (d : ℕ)
      → Int32 val
      → encode_rotate_imm val ≡ some (some d)
      → Encodes ((rotated, 12, place) ∷ []) (claimed 12 place ∷ []) val
  unfolding encode_ranges decode_ranges
  rotated-Encodes val d range found =
      let (fits, back) = decode-encode_rotate_imm val d range found in
      (
        (ones 12, d, place) ∷ [],
        rw (mask_ones, found),
        refl,
        (λ i. bit-le-ones 12 d i fits, tt),
        λ data_ held. rw (mask_ones, held.0, back),
      )

  pub signed-Encodes :
      (val : ℤ) → Signed 23 val → Encodes ((signed, 24, place) ∷ []) (claimed 24 place ∷ []) val
  unfolding encode_ranges decode_ranges
  signed-Encodes val range =
      let (e, there, fits, back) = signed_int_from_bits-bits_from_signed_int 23 val range in
      (
        (ones 24, e, place) ∷ [],
        rw (mask_ones, there),
        refl,
        (λ i. bit-le-ones 24 e i fits, tt),
        λ data_ held. rw (mask_ones, held.0, back),
      )

  pub times2_plus4-Encodes :
      (n : ℕ)
      → (n ≡ 4) ⊎ (n ≡ 6)
      → Encodes ((times2_plus4, 1, place) ∷ []) (claimed 1 place ∷ []) (pos n)
  unfolding encode_ranges decode_ranges shr
  times2_plus4-Encodes n (inl four) = (
    (ones 1, 0, place) ∷ [],
    rw (four, mask_ones),
    refl,
    (λ i. bit-le-ones 1 0 i (omega arith), tt),
    λ data_ held. rw (four, mask_ones, held.0),
  )
  times2_plus4-Encodes n (inr six) = (
    (ones 1, 1, place) ∷ [],
    rw (six, mask_ones),
    refl,
    (λ i. bit-le-ones 1 1 i (omega arith), tt),
    λ data_ held. rw (six, mask_ones, held.0),
  )

module _ (w place w' place' : ℕ) where
  pub hi_lo-Encodes :
      (n : ℕ)
      → shr n w' < 2 ^ w
      → Encodes
          ((hi, w, place) ∷ (lo, w', place') ∷ [])
          (claimed w' place' ∷ claimed w place ∷ [])
          (pos n)
  unfolding encode_ranges decode_ranges
  hi_lo-Encodes n h = (
    (ones w', bit_and n (ones w'), place') ∷ (ones w, shr n w', place) ∷ [],
    rw (mask_ones w', mask_ones w, mask_test w (shr n w') h),
    refl,
    (bit-low-le w' n, (λ i. bit-le-ones w (shr n w') i h, tt)),
    λ data_ held. rw (mask_ones w, mask_ones w', held.0, held.1.0, split_at),
  )

module _ (wp pp wu pu ww pw : ℕ) where
  pub puw-Encodes :
      (n : ℕ)
      → shr (shr n ww) wu < 2 ^ wp
      → Encodes
          ((BitRangeKind.p, wp, pp) ∷ (BitRangeKind.u, wu, pu) ∷ (BitRangeKind.w, ww, pw) ∷ [])
          (claimed ww pw ∷ claimed wu pu ∷ claimed wp pp ∷ [])
          (pos n)
  unfolding encode_ranges decode_ranges
  puw-Encodes n h = (
    (ones ww, bit_and n (ones ww), pw)
        ∷ (ones wu, bit_and (shr n ww) (ones wu), pu)
        ∷ (ones wp, shr (shr n ww) wu, pp)
        ∷ [],
    rw (mask_ones ww, mask_ones wu, mask_ones wp, mask_test wp (shr (shr n ww) wu) h),
    refl,
    (
      bit-low-le ww n,
      (bit-low-le wu (shr n ww), (λ i. bit-le-ones wp (shr (shr n ww) wu) i h, tt)),
    ),
    λ data_ held. rw (
      mask_ones wp,
      mask_ones wu,
      mask_ones ww,
      held.0,
      held.1.0,
      held.1.1.0,
      split_at,
      split_at,
    ),
  )
