-- ===== src/CpuA64/Separate.antt =====
-- CpuA64/opcode_tab.py, no word belongs to two opcodes: `FindOpcode` and `Disassemble` after
-- `Assemble`.
use Prim.Native.Nat.{bit_and}
use cwerg.Prelude.{
  ℕ, zero, suc, ◌<◌, ◌^◌, Bool, true, false, not, ◌≡◌, refl, ap, ◌∙◌, some, List, [], ◌∷◌, all,
  all-get_elem?, get_elem?, ◌==◌, ==_iff, ==_refl, ◌&&◌, some_inj, and_true, Bool-cases, inl, inr,
  arith,
}
use cwerg.Prelude.Int.{ℤ, pos}
use cwerg.Prelude.Bits.{overlap}
use cwerg.Arm.Words.{AllInRange}
use cwerg.CpuA64.Opcode.{Opcode, matches, find_first, find_opcode, assemble, disassemble_operands}
use cwerg.CpuA64.Operands.{a64_codec}
use cwerg.CpuA64.Table.{opcode_table}
use cwerg.CpuA64.TableLoads.{opcode_table-AssembledAndBack}
use cwerg.CpuA64.Find.{find_opcode-whole_table}

-- Where the fixed bits of both opcodes overlap they differ.
separate : Opcode → Opcode → Bool
separate o1 o2 =
    let m = bit_and o1.bit_mask o2.bit_mask in
    not (bit_and o1.bit_value m == bit_and o2.bit_value m)

all_separate : List Opcode → Bool
all_separate [] = true
all_separate (o ∷ os) = all (separate o) os && all_separate os

opcode_table-separate : all_separate opcode_table ≡ true
unfolding opcode_table all_separate separate
opcode_table-separate = refl

module _ (data_ : ℕ) where
  only_one :
      (o1 o2 : Opcode) → separate o1 o2 ≡ true → matches data_ o1 ≡ true → matches data_ o2 ≡ false
  unfolding matches separate
  only_one o1 o2 h k = elim (Bool-cases (bit_and data_ o2.bit_mask == o2.bit_value)) [
    | inl both ↦ ground (
      arith,
      overlap data_ o1.bit_mask o1.bit_value o2.bit_mask o2.bit_value
          ((==_iff (bit_and data_ o1.bit_mask) o1.bit_value).0 k)
          ((==_iff (bit_and data_ o2.bit_mask) o2.bit_value).0 both),
    )
    | inr miss ↦ miss
  ]

  one_match :
      (os : List Opcode) (i j : ℕ) (o1 o2 : Opcode)
      → all_separate os ≡ true
      → get_elem? os i ≡ some o1
      → get_elem? os j ≡ some o2
      → matches data_ o1 ≡ true
      → matches data_ o2 ≡ true
      → i ≡ j
  unfolding all_separate
  one_match [] i j o1 o2 h e1 e2 m1 m2 = cc
  one_match (o ∷ os) zero zero o1 o2 h e1 e2 m1 m2 = refl
  one_match (o ∷ os) zero (suc j) o1 o2 h e1 e2 m1 m2 =
      let (here, rest) = and_true (all (separate o) os) (all_separate os) h in
      let apart = all-get_elem? (separate o) os j here e2 in
      absurd (ground (arith, m2, only_one o o2 apart (rw (some_inj e1) m1)))
  one_match (o ∷ os) (suc i) zero o1 o2 h e1 e2 m1 m2 =
      let (here, rest) = and_true (all (separate o) os) (all_separate os) h in
      let apart = all-get_elem? (separate o) os i here e1 in
      absurd (ground (arith, m1, only_one o o1 apart (rw (some_inj e2) m2)))
  one_match (o ∷ os) (suc i) (suc j) o1 o2 h e1 e2 m1 m2 =
      let (here, rest) = and_true (all (separate o) os) (all_separate os) h in
      ap suc (one_match os i j o1 o2 rest e1 e2 m1 m2)

  find_first_of_match :
      (os : List Opcode) (n : ℕ) (o : Opcode)
      → all_separate os ≡ true
      → get_elem? os n ≡ some o
      → matches data_ o ≡ true
      → find_first data_ os ≡ some o
  unfolding all_separate find_first
  find_first_of_match [] n o h e m = cc
  find_first_of_match (o1 ∷ os) zero o h e m = rw (some_inj e, m)
  find_first_of_match (o1 ∷ os) (suc n) o h e m =
      let (here, rest) = and_true (all (separate o1) os) (all_separate os) h in
      let apart = all-get_elem? (separate o1) os n here e in
      elim (Bool-cases (matches data_ o1)) [
        | inl both ↦ absurd (ground (arith, m, only_one o1 o apart both))
        | inr miss ↦ rw miss (find_first_of_match os n o rest e m)
      ]

-- A word matches one opcode of the table at most.
pub opcode_table-unambiguous :
    (data_ i j : ℕ) (o1 o2 : Opcode)
    → get_elem? opcode_table i ≡ some o1
    → get_elem? opcode_table j ≡ some o2
    → matches data_ o1 ≡ true
    → matches data_ o2 ≡ true
    → i ≡ j
opcode_table-unambiguous data_ i j o1 o2 e1 e2 m1 m2 =
    one_match data_ opcode_table i j o1 o2 opcode_table-separate e1 e2 m1 m2

found_of_match :
    (data_ n : ℕ) (o : Opcode)
    → data_ < 2 ^ 32
    → get_elem? opcode_table n ≡ some o
    → matches data_ o ≡ true
    → find_opcode opcode_table data_ ≡ some (some o)
found_of_match data_ n o bound e m =
    find_opcode-whole_table data_ bound
    ∙ ap some (find_first_of_match data_ opcode_table n o opcode_table-separate e m)

-- What an opcode of the table assembles from operands in range is a word of 32 bits for which
-- `FindOpcode` finds that opcode, which disassembles the word to the operands.
pub find_opcode-assemble :
    (n : ℕ) (o : Opcode) (os : List ℤ)
    → get_elem? opcode_table n ≡ some o
    → AllInRange a64_codec o.fields os
    → (word : ℕ) × (assemble (record { opcode = o; operands = os }) ≡ some (pos word))
      × (word < 2 ^ 32)
      × (find_opcode opcode_table word ≡ some (some o))
      × (disassemble_operands o word ≡ some os)
find_opcode-assemble n o os e range =
    let (word, made, bound, hit, back) = opcode_table-AssembledAndBack n o os e range in
    let m : matches word o ≡ true = unfold matches in rw (hit, ==_refl) refl in
    (word, unfold assemble in made, bound, found_of_match word n o bound e m, back)
