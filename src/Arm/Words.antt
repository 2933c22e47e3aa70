-- ===== src/Arm/Words.antt =====
-- `AssembleOperands` against `DisassembleOperands`, for any set of operand kinds.
use Prim.Native.Nat.{bit_and}
use mathlib.Core.List.{map-append}
use cwerg.Prelude.{
  ℕ, suc, ◌<◌, ◌≤◌, ◌^◌, ◌≡◌, refl, ap, ap₂, ◌∙◌, some, List, [], ◌∷◌, ◌++◌, map, flat_map, length,
  All, All-append, arith,
}
use cwerg.Prelude.Int.{ℤ, pos}
use cwerg.Prelude.Word.{shr, bit, ones}
use cwerg.Prelude.Bits.{bit-bit_and, lt-pow_of_bits}
use cwerg.CpuA32.Ints.{bits}
use cwerg.CpuA32.Pack.{NatPattern, lift, range_of, Fits, Holds, claim, pack}
use cwerg.Arm.Codec.{Codec, encode_all, decode_all}

All-split :
    (P : NatPattern → Type 0) (xs ys : List NatPattern) → All P (xs ++ ys) → All P xs × All P ys
All-split P [] ys h = (tt, h)
All-split P (x ∷ xs) ys (px, h) = let (hx, hy) = All-split P xs ys h in ((px, hx), hy)

module _ {K : Type 0} (c : Codec K) where
  open c use {encode, decode, claims, InRange, encodes}

  -- One value in range for each operand.
  abbrev pub AllInRange : List K → List ℤ → Type 0
  AllInRange [] [] = Unit
  AllInRange (f ∷ fs) (o ∷ os) = InRange f o × AllInRange fs os
  AllInRange _ _ = ⊥

  abbrev EncodesAll : List K → List ℤ → Type 0
  EncodesAll fs os =
      (ps : List NatPattern) × (encode_all encode fs os ≡ some (map lift ps))
      × (map range_of ps ≡ flat_map claims fs)
      × All Fits ps
      × ((data_ : ℕ) → All (Holds data_) ps → decode_all decode fs data_ ≡ some os)

  operands_encode : (fs : List K) (os : List ℤ) → AllInRange fs os → EncodesAll fs os
  unfolding encode_all decode_all flat_map
  operands_encode [] [] h = ([], refl, refl, tt, λ data_ held. refl)
  operands_encode [] (o ∷ os) h = absurd h
  operands_encode (f ∷ fs) [] h = absurd h
  operands_encode (f ∷ fs) (o ∷ os) (here, rest) =
      let (ps, there, at, fits, back) = encodes f o here in
      let (ps', there', at', fits', back') = operands_encode fs os rest in
      (
        ps ++ ps',
        rw (there, there', map-append),
        map-append range_of ps ps' ∙ ap₂ ◌++◌ at at',
        All-append Fits ps ps' fits fits',
        λ data_ held.
            let (h, h') = All-split (Holds data_) ps ps' held in rw (back data_ h, back' data_ h'),
      )

  pub length-AllInRange : (fs : List K) (os : List ℤ) → AllInRange fs os → length os ≡ length fs
  length-AllInRange [] [] h = refl
  length-AllInRange [] (o ∷ os) h = absurd h
  length-AllInRange (f ∷ fs) [] h = absurd h
  length-AllInRange (f ∷ fs) (o ∷ os) h = ap suc (length-AllInRange fs os h.1)

  -- The fixed bits and the operands share no bit and fill the word; the fixed value lies in its mask.
  abbrev pub IsLaidOut : ℕ → ℕ → List K → Type 0
  IsLaidOut mask value fields =
      (claim 0 ((mask, 0) ∷ flat_map claims fields) ≡ some 0xffffffff)
      × (bit_and value mask ≡ value)

  -- The operands and the fixed bits make a word, from which the operands are read back.
  abbrev pub MakesWord : ℕ → ℕ → List K → List ℤ → Type 0
  MakesWord mask value fields os =
      (word : ℕ) × (ps : List NatPattern) × (encode_all encode fields os ≡ some (map lift ps))
      × (bits (map lift ((mask, value, 0) ∷ ps)) ≡ some (0xffffffff, pos word))
      × (word < 2 ^ 32)
      × (decode_all decode fields word ≡ some os)
      × (bit_and word mask ≡ value)

  word_bound : (v : ℕ) → ((i : ℕ) → bit v i ≤ bit 0xffffffff i) → v < 2 ^ 32
  unfolding ones
  word_bound v h = lt-pow_of_bits 32 v h

  pub laid_out-MakesWord :
      (mask value : ℕ) (fields : List K) (os : List ℤ)
      → IsLaidOut mask value fields
      → AllInRange fields os
      → MakesWord mask value fields os
  laid_out-MakesWord mask value fields os (layout, own) range =
      let (ps, there, at, fits, back) = operands_encode fields os range in
      let (word, packed, within, keeps, held) =
        pack 0 0 0xffffffff ((mask, value, 0) ∷ ps) (λ i. omega arith)
          ((λ i. omega (arith, bit-bit_and i value mask, ap (λ (t : ℕ). bit t i) own)), fits)
          (rw at layout) in
      (
        word,
        ps,
        there,
        unfold bits in packed,
        word_bound word within,
        back word held.1,
        unfold shr in held.0,
      )
