-- ===== src/Base/Loaded.antt =====
-- Base/opcode_tab.py, what loading the module establishes of `Opcode.Table` and `Opcode.TableByNo`.
use Prim.Native.String.{String}
use text.Mathlib.Text.{◌==◌ as str_eq}
use text.Mathlib.TextEquality.{eq_iff}
use cwerg.Prelude.{
  ℕ, zero, suc, Bool, true, false, not, ◌&&◌, ◌||◌, ◌≡◌, refl, sym, subst, Option, none, some,
  some_inj, List, [], ◌∷◌, all, get_elem?, all-get_elem?, ◌==◌, ==_iff, ==_refl, Bool-cases, inl,
  inr, and_true, arith,
}
use cwerg.Base.Kinds.{
  OpcKind, opc_kind_value, nop, directive, cond_bra, switch, bra, ret, bsr, jsr, syscall,
}
use cwerg.Base.Opcode.{
  Opcode, Row, is_none, lookup, lookup_no, register_all, has_side_effect, def_ops_count, OpcGenus,
  base, is_call, is_bbl_terminator, has_fallthrough,
}
use cwerg.Base.Table.{opcode_table, loaded, registrations}

-- Both tables give each of their opcodes back.
abbrev pub IsFaithful : List Opcode → Type 0
IsFaithful table =
    (n : ℕ) (o : Opcode)
    → get_elem? table n ≡ some o
    → (lookup table o.name ≡ some o) × (lookup_no table o.no ≡ some o)

lookup_taken : {r : Option Opcode} {p : Opcode} → is_none r ≡ true → r ≡ some p → ⊥
unfolding is_none
lookup_taken {r} free found = cc

str_eq_refl : (s : String) → str_eq s s ≡ true
str_eq_refl s = (eq_iff s s).1 refl

module _ (table : List Opcode) (o : Opcode) where
  lookup-kept :
      (name : String) (p : Opcode)
      → is_none (lookup table o.name) ≡ true
      → lookup table name ≡ some p
      → lookup (o ∷ table) name ≡ some p
  unfolding lookup is_none
  lookup-kept name p free found = elim (Bool-cases (str_eq o.name name)) [
    | inl same ↦ absurd (
        lookup_taken free
          (subst (λ s. lookup table s ≡ some p) (sym ((eq_iff o.name name).0 same)) found))
    | inr other ↦ rw (other, found)
  ]

  lookup_no-kept :
      (number : ℕ) (p : Opcode)
      → is_none (lookup_no table o.no) ≡ true
      → lookup_no table number ≡ some p
      → lookup_no (o ∷ table) number ≡ some p
  unfolding lookup_no is_none
  lookup_no-kept number p free found = elim (Bool-cases (o.no == number)) [
    | inl same ↦ absurd (
        lookup_taken free
          (subst (λ k. lookup_no table k ≡ some p) (sym ((==_iff o.no number).0 same)) found))
    | inr other ↦ rw (other, found)
  ]

IsFaithful-∷ :
    (table : List Opcode) (o : Opcode)
    → IsFaithful table
    → is_none (lookup table o.name) ≡ true
    → is_none (lookup_no table o.no) ≡ true
    → IsFaithful (o ∷ table)
unfolding lookup lookup_no
IsFaithful-∷ table o faithful free free' zero p e =
    let same = some_inj e in rw (sym same) (rw (str_eq_refl o.name, ==_refl o.no) (refl, refl))
IsFaithful-∷ table o faithful free free' (suc n) p e =
    let (by_name, by_no) = faithful n p e in
    (lookup-kept table o p.name p free by_name, lookup_no-kept table o p.no p free' by_no)

register_step :
    (table : List Opcode) (row : Row) (rows : List Row) (result : List Opcode)
    → register_all table (row ∷ rows) ≡ some result
    → (o : Opcode) × (is_none (lookup table o.name) ≡ true)
      × (is_none (lookup_no table o.no) ≡ true)
      × (register_all (o ∷ table) rows ≡ some result)
unfolding register_all
register_step table none rows result h = ground arith
register_step table (some o) rows result h = elim (Bool-cases (is_none (lookup table o.name))) [
  | inl free ↦ elim (Bool-cases (is_none (lookup_no table o.no))) [
    | inl free' ↦ (o, free, free', ground arith)
    | inr taken ↦ ground arith
  ]
  | inr taken ↦ ground arith
]

register_all-IsFaithful :
    (table : List Opcode) (rows : List Row) (result : List Opcode)
    → IsFaithful table
    → register_all table rows ≡ some result
    → IsFaithful result
unfolding register_all
register_all-IsFaithful table [] result faithful h = subst IsFaithful (some_inj h) faithful
register_all-IsFaithful table (row ∷ rows) result faithful h =
    let (o, free, free', rest) = register_step table row rows result h in
    register_all-IsFaithful (o ∷ table) rows result (IsFaithful-∷ table o faithful free free') rest

loads : loaded ≡ some opcode_table
unfolding loaded opcode_table
loads = refl

IsFaithful-[] : IsFaithful []
IsFaithful-[] n o e = cc

-- Each opcode of the table is found by its name in `Opcode.Table` and by its number in
-- `Opcode.TableByNo`.
pub lookup-opcode_table :
    (n : ℕ) (o : Opcode)
    → get_elem? opcode_table n ≡ some o
    → (lookup opcode_table o.name ≡ some o) × (lookup_no opcode_table o.no ≡ some o)
unfolding loaded
lookup-opcode_table n o e =
    register_all-IsFaithful [] registrations opcode_table IsFaithful-[] loads n o e

abbrev is_base : OpcGenus → Bool
is_base base = true
is_base _ = false

abbrev pub is_idle : OpcKind → Bool
is_idle nop = true
is_idle directive = true
is_idle _ = false

-- the kinds that transfer control within a function or leave it
abbrev pub kind_ends_bbl : OpcKind → Bool
kind_ends_bbl cond_bra = true
kind_ends_bbl switch = true
kind_ends_bbl bra = true
kind_ends_bbl ret = true
kind_ends_bbl _ = false

abbrev pub kind_calls : OpcKind → Bool
kind_calls bsr = true
kind_calls jsr = true
kind_calls syscall = true
kind_calls _ = false

abbrev pub eqb : Bool → Bool → Bool
eqb true b = b
eqb false b = not b

pub eqb_path : (a b : Bool) → eqb a b ≡ true → a ≡ b
eqb_path true true h = refl
eqb_path false false h = refl
eqb_path false true h = cc
eqb_path true false h = cc

-- an opcode's attributes against its kind, as a test
attributes_test : Opcode → Bool
attributes_test o =
    eqb (is_call o) (kind_calls o.kind)
    && (eqb (is_bbl_terminator o) (kind_ends_bbl o.kind)
        && eqb (has_fallthrough o)
            (not (kind_ends_bbl o.kind) || (opc_kind_value o.kind == opc_kind_value cond_bra)))

attributes_agree :
    (o : Opcode)
    → attributes_test o ≡ true
    → (is_call o ≡ kind_calls o.kind)
      × (is_bbl_terminator o ≡ kind_ends_bbl o.kind)
      × (has_fallthrough o
          ≡ not (kind_ends_bbl o.kind) || (opc_kind_value o.kind == opc_kind_value cond_bra))
unfolding attributes_test
attributes_agree o h =
    let (a, rest) = and_true (eqb (is_call o) (kind_calls o.kind)) _ h in
    let (b, c) = and_true (eqb (is_bbl_terminator o) (kind_ends_bbl o.kind)) _ rest in
    (eqb_path _ _ a, eqb_path _ _ b, eqb_path _ _ c)

removal_test : Opcode → Bool
removal_test o =
    not (is_base o.group) || (has_side_effect o || (def_ops_count o == 1 || is_idle o.kind))

table_attributes : all attributes_test opcode_table ≡ true
unfolding opcode_table attributes_test is_call is_bbl_terminator has_fallthrough
table_attributes = refl

-- In each opcode of the table the attributes agree with the kind: exactly `bsr`, `jsr` and `syscall`
-- are calls, exactly the branches, `switch` and `ret` end a basic block, and of these only the
-- conditional branches fall through.
pub attributes-opcode_table :
    (n : ℕ) (o : Opcode)
    → get_elem? opcode_table n ≡ some o
    → (is_call o ≡ kind_calls o.kind)
      × (is_bbl_terminator o ≡ kind_ends_bbl o.kind)
      × (has_fallthrough o
          ≡ not (kind_ends_bbl o.kind) || (opc_kind_value o.kind == opc_kind_value cond_bra))
attributes-opcode_table n o e =
    attributes_agree o (all-get_elem? attributes_test opcode_table n table_attributes e)

removal_step :
    (o : Opcode)
    → removal_test o ≡ true
    → is_base o.group ≡ true
    → has_side_effect o ≡ false
    → is_idle o.kind ≡ false
    → def_ops_count o ≡ 1
unfolding removal_test
removal_step o h group free busy = ground arith

table_removal : all removal_test opcode_table ≡ true
unfolding opcode_table removal_test has_side_effect def_ops_count
table_removal = refl

-- An opcode of the base group without a side effect writes one register, unless it is `nop` or a
-- directive.
pub removable-opcode_table :
    (n : ℕ) (o : Opcode)
    → get_elem? opcode_table n ≡ some o
    → is_base o.group ≡ true
    → has_side_effect o ≡ false
    → is_idle o.kind ≡ false
    → def_ops_count o ≡ 1
removable-opcode_table n o e group free busy =
    removal_step o (all-get_elem? removal_test opcode_table n table_removal e) group free busy
