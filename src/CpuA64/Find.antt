-- ===== src/CpuA64/Find.antt =====
-- CpuA64/opcode_tab.py, `FindOpcode` and `Disassemble`.
use Prim.Native.Nat.{bit_and, bit_or}
use cwerg.Prelude.{
  ℕ, zero, suc, ◌+◌, ◌^◌, ◌<◌, true, false, ◌≡◌, refl, ap, some, List, [], ◌∷◌, ltb, ◌==◌, ==_iff,
  ==_refl, Bool-cases, inl, inr, ◌⊎◌, arith,
}
use cwerg.Prelude.Word.{without, shr, bit, ones}
use cwerg.Prelude.Bits.{
  bit_ext, bit-bit_and, bit-bit_or, bit-shr, bit-lt-two, bit-bit_xor, bit-le-ones,
}
use cwerg.CpuA64.Opcode.{
  Opcode, matches, some_dont_care, in_bucket, ordered_opcodes, find_first, find_opcode,
}
use cwerg.CpuA64.Table.{opcode_table}

-- The byte of the word is made of the fixed byte and of its own digits outside the mask.
byte_of_match :
    (data_ mask value : ℕ)
    → bit_and data_ mask ≡ value
    → bit_or (shr value 24) (without (shr mask 24) (shr data_ 24)) ≡ shr data_ 24
byte_of_match data_ mask value hit = bit_ext _ _ λ i. omega (
  arith,
  bit-bit_or i (shr value 24) (without (shr mask 24) (shr data_ 24)),
  bit-bit_xor i (shr data_ 24) (bit_and (shr data_ 24) (shr mask 24)),
  bit-bit_and i (shr data_ 24) (shr mask 24),
  bit-shr 24 i data_,
  bit-lt-two (24 + i) data_,
  bit-lt-two (24 + i) mask,
  bit-shr 24 i mask,
  bit-shr 24 i value,
  bit-bit_and (24 + i) data_ mask,
  ap (λ (t : ℕ). bit t (24 + i)) hit,
)

upper_byte : (data_ : ℕ) → data_ < 2 ^ 32 → shr data_ 24 < 2 ^ 8
unfolding shr
upper_byte data_ h = omega arith

-- If the fixed bits take the whole upper byte, they make the byte of the word.
fixed_byte_of_match :
    (data_ mask value : ℕ)
    → data_ < 2 ^ 32
    → shr mask 24 ≡ 0xff
    → bit_and data_ mask ≡ value
    → shr value 24 ≡ shr data_ 24
unfolding ones
fixed_byte_of_match data_ mask value bound whole hit = bit_ext _ _ λ i. omega (
  arith,
  bit-shr 24 i data_,
  bit-shr 24 i mask,
  bit-shr 24 i value,
  bit-bit_and (24 + i) data_ mask,
  ap (λ (t : ℕ). bit t (24 + i)) hit,
  ap (λ (t : ℕ). bit t i) whole,
  bit-le-ones 8 (shr data_ 24) i (upper_byte data_ bound),
)

some_dont_care_found :
    (b m key n x : ℕ) → x < n → bit_or b (without m x) ≡ key → some_dont_care b m key n ≡ true
unfolding some_dont_care
some_dont_care_found b m key zero x h e = absurd (omega arith)
some_dont_care_found b m key (suc n) x h e = elim at_or_below [
  | inl at ↦ rw (← at, e, ==_refl)
  | inr below ↦ rw (some_dont_care_found b m key n x below e) (ground arith)
]
  where
    at_or_below : (x ≡ n) ⊎ (x < n)
    at_or_below = omega arith

module _ (data_ : ℕ) (bound : data_ < 2 ^ 32) where
  -- An opcode that the word matches is in the bucket of the word's upper byte.
  in_bucket_of_match : (o : Opcode) → matches data_ o ≡ true → in_bucket (shr data_ 24) o ≡ true
  unfolding in_bucket matches
  in_bucket_of_match o h =
      let hit = (==_iff (bit_and data_ o.bit_mask) o.bit_value).0 h in
      elim (Bool-cases (shr o.bit_mask 24 == 0xff)) [
        | inl whole ↦
            rw
              (
                whole,
                fixed_byte_of_match data_ o.bit_mask o.bit_value bound
                    ((==_iff (shr o.bit_mask 24) 0xff).0 whole) hit,
              )
              (==_refl (shr data_ 24))
        | inr part ↦ rw part (
            some_dont_care_found (shr o.bit_value 24) (shr o.bit_mask 24) (shr data_ 24) 256
              (shr data_ 24) (upper_byte data_ bound)
              (byte_of_match data_ o.bit_mask o.bit_value hit))
      ]

  miss_of_bucket : (o : Opcode) → in_bucket (shr data_ 24) o ≡ false → matches data_ o ≡ false
  miss_of_bucket o outside = elim (Bool-cases (matches data_ o)) [
    | inl hit ↦ ground (arith, in_bucket_of_match o hit)
    | inr miss ↦ miss
  ]

  find_first-ordered_opcodes :
      (os : List Opcode)
      → find_first data_ (ordered_opcodes (shr data_ 24) os) ≡ find_first data_ os
  unfolding find_first ordered_opcodes
  find_first-ordered_opcodes [] = refl
  find_first-ordered_opcodes (o ∷ os) =
      let ih = find_first-ordered_opcodes os in
      elim (Bool-cases (in_bucket (shr data_ 24) o)) [
        | inl inside ↦ rw (inside, ih)
        | inr outside ↦ rw (outside, ih, miss_of_bucket o outside)
      ]

-- For a word of 32 bits the index into `ordered_opcodes` is in bounds, and looking at the opcodes of
-- its upper byte finds what a search of the whole table would find.
pub find_opcode-whole_table :
    (data_ : ℕ)
    → data_ < 2 ^ 32
    → find_opcode opcode_table data_ ≡ some (find_first data_ opcode_table)
unfolding find_opcode
find_opcode-whole_table data_ bound =
    rw (in_bounds, find_first-ordered_opcodes data_ bound opcode_table)
  where
    in_bounds : ltb (shr data_ 24) 256 ≡ true
    in_bounds = let h = upper_byte data_ bound in ground arith
