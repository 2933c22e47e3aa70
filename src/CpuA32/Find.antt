-- ===== src/CpuA32/Find.antt =====
-- CpuA32/opcode_tab.py, `FindOpcode` and `Disassemble` after `Assemble`.
use Prim.Native.Nat.{bit_and}
use cwerg.Prelude.{
  ℕ, zero, suc, Bool, true, false, not, ◌≡◌, refl, ap, ◌∙◌, some, List, [], ◌∷◌, all, get_elem?,
  ◌==◌, ==_iff, ==_refl, Bool-cases, inl, inr, ◌&&◌, some_inj, and_true, arith,
}
use cwerg.Prelude.Int.{ℤ, pos}
use cwerg.Prelude.Word.{bit}
use cwerg.Prelude.Bits.{overlap, bit_ext, bit-bit_and}
use cwerg.CpuA32.Opcode.{
  Opcode, ins_classifier, matches, ordered_opcodes, find_first, find_opcode, assemble, disassemble,
  disassemble_operands,
}
use cwerg.CpuA32.Table.{opcode_table}
use cwerg.CpuA32.Assemble.{AllInRange}
use cwerg.CpuA32.TableLoads.{
  IsSound, layout_test, layout_test-IsSound, table_layout, disassemble_operands-assemble_operands,
}

-- If the mask covers the classifier, a word that matches has the opcode's discriminant.
matches-key :
    (data_ mask value : ℕ)
    → bit_and mask ins_classifier ≡ ins_classifier
    → bit_and data_ mask ≡ value
    → bit_and data_ ins_classifier ≡ bit_and value ins_classifier
matches-key data_ mask value covers hit = bit_ext _ _ λ i. omega (
  arith,
  bit-bit_and i data_ ins_classifier,
  bit-bit_and i value ins_classifier,
  bit-bit_and i mask ins_classifier,
  bit-bit_and i data_ mask,
  ap (λ (t : ℕ). bit t i) covers,
  ap (λ (t : ℕ). bit t i) hit,
)

module _ (data_ : ℕ) where
  miss_of_key :
      (o : Opcode)
      → IsSound o
      → (bit_and o.bit_value ins_classifier == bit_and data_ ins_classifier) ≡ false
      → matches data_ o ≡ false
  unfolding matches
  miss_of_key o sound other = elim (Bool-cases (bit_and data_ o.bit_mask == o.bit_value)) [
    | inl hit ↦
        ground (arith, matches-key data_ o.bit_mask o.bit_value sound.1 ((==_iff _ _).0 hit))
    | inr miss ↦ miss
  ]

  -- Searching the opcodes with the word's discriminant finds what searching all of them finds.
  find_first-ordered_opcodes :
      (os : List Opcode)
      → all layout_test os ≡ true
      → find_first data_ (ordered_opcodes (bit_and data_ ins_classifier) os) ≡ find_first data_ os
  unfolding find_first ordered_opcodes
  find_first-ordered_opcodes [] h = refl
  find_first-ordered_opcodes (o ∷ os) h =
      let ih = find_first-ordered_opcodes os (ground arith) in
      elim (Bool-cases (bit_and o.bit_value ins_classifier == bit_and data_ ins_classifier)) [
        | inl same ↦ rw (same, ih)
        | inr other ↦ rw (other, ih, miss_of_key o (layout_test-IsSound o (ground arith)) other)
      ]

-- `FindOpcode` looks only at the opcodes with the word's discriminant, and finds what a search of
-- the whole table would find.
pub find_opcode-eq-find_first :
    (data_ : ℕ) → find_opcode opcode_table data_ ≡ find_first data_ opcode_table
unfolding find_opcode
find_opcode-eq-find_first data_ = find_first-ordered_opcodes data_ opcode_table table_layout

-- Where the fixed bits of both opcodes overlap they differ.
unfoldable pub separate : Opcode → Opcode → Bool
separate o1 o2 =
    let m = bit_and o1.bit_mask o2.bit_mask in
    not (bit_and o1.bit_value m == bit_and o2.bit_value m)

-- The opcode is separate from the first n of the list.
unfoldable pub clear_of : Opcode → ℕ → List Opcode → Bool
unfolding separate
clear_of o zero os = true
clear_of o (suc n) [] = true
clear_of o (suc n) (o1 ∷ os) = separate o1 o && clear_of o n os

module _ (data_ : ℕ) (o : Opcode) (hit : bit_and data_ o.bit_mask ≡ o.bit_value) where
  separate-miss : (o1 : Opcode) → separate o1 o ≡ true → matches data_ o1 ≡ false
  unfolding matches separate
  separate-miss o1 h = elim (Bool-cases (bit_and data_ o1.bit_mask == o1.bit_value)) [
    | inl both ↦ ground (
      arith,
      overlap data_ o1.bit_mask o1.bit_value o.bit_mask o.bit_value ((==_iff _ _).0 both) hit,
    )
    | inr miss ↦ miss
  ]

  find_first-clear :
      (n : ℕ) (os : List Opcode)
      → get_elem? os n ≡ some o
      → clear_of o n os ≡ true
      → find_first data_ os ≡ some o
  unfolding find_first clear_of
  find_first-clear n [] e h = cc
  find_first-clear zero (o1 ∷ os) e h = rw (some_inj e, hit, ==_refl)
  find_first-clear (suc n) (o1 ∷ os) e h =
      let (here, rest) = and_true (separate o1 o) (clear_of o n os) h in
      rw (separate-miss o1 here) (find_first-clear n os e rest)

disassemble_found :
    (table : List Opcode) (word : ℕ) (o : Opcode) (os : List ℤ)
    → find_opcode table word ≡ some o
    → disassemble_operands o word ≡ some os
    → disassemble table word ≡ some (some (record { opcode = o; operands = os }))
unfolding disassemble
disassemble_found table word o os found back = rw (found, disassemble) (rw back)

-- What an opcode of the table assembles is disassembled to the same instruction, if its operands are
-- in range and no opcode before it can match a word that it matches.
pub disassemble-assemble :
    (n : ℕ) (o : Opcode) (os : List ℤ)
    → get_elem? opcode_table n ≡ some o
    → clear_of o n opcode_table ≡ true
    → AllInRange o.fields os
    → (word : ℕ) × (assemble (record { opcode = o; operands = os }) ≡ some (pos word))
      × (disassemble opcode_table word ≡ some (some (record { opcode = o; operands = os })))
disassemble-assemble n o os e clear range =
    let (word, made, bound, back, hit) = disassemble_operands-assemble_operands n o os e range in
    let found : find_opcode opcode_table word ≡ some o =
      find_opcode-eq-find_first word ∙ find_first-clear word o hit n opcode_table e clear in
    (word, unfold assemble in made, disassemble_found opcode_table word o os found back)
