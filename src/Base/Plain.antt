-- ===== src/Base/Plain.antt =====
-- Base/liveness.py, what the passes rely on in an instruction: a call names its callee, nothing is read
-- but the operands, and what changes the machine has a side effect by its attributes.
use mathlib.Core.List.{reverse_aux}
use cwerg.Prelude.{
  ℕ, Bool, true, false, not, ◌&&◌, ◌||◌, ◌≡◌, refl, Option, none, some, List, [], ◌∷◌, all,
  and_true, arith,
}
use cwerg.Base.Opcode.{Opcode, is_call, has_side_effect}
use cwerg.Base.Ir.{Ins, Bbl, Fun, ins_callee}
use cwerg.Base.Meaning.{hidden_reads, changes_machine}

unfoldable pub is_some : {A : Type 0} → Option A → Bool
is_some none = false
is_some (some a) = true

abbrev is_empty : List ℕ → Bool
is_empty [] = true
is_empty (r ∷ rs) = false

-- A call names its callee.
unfoldable pub has_callee : Ins → Bool
unfolding is_some
has_callee ins = not (is_call ins.opcode) || is_some (ins_callee ins)

-- An opcode whose kind changes the machine has a side effect by its attributes.
unfoldable pub declares_effect : Opcode → Bool
declares_effect o = not (changes_machine o.kind) || has_side_effect o

-- A call names its callee, and the instruction reads its operands only.
unfoldable pub is_explicit : Fun → Ins → Bool
unfolding has_callee
is_explicit f ins = has_callee ins && is_empty (hidden_reads f ins)

unfoldable pub is_plain : Fun → Ins → Bool
unfolding is_explicit declares_effect
is_plain f ins = is_explicit f ins && declares_effect ins.opcode

is_empty-path : (rs : List ℕ) → is_empty rs ≡ true → rs ≡ []
is_empty-path [] h = refl
is_empty-path (r ∷ rs) h = cc

module _ (f : Fun) (ins : Ins) where
  pub is_explicit-has_callee : is_explicit f ins ≡ true → has_callee ins ≡ true
  unfolding is_explicit
  is_explicit-has_callee h = (and_true (has_callee ins) (is_empty (hidden_reads f ins)) h).0

  pub is_explicit-hidden_reads : is_explicit f ins ≡ true → hidden_reads f ins ≡ []
  unfolding is_explicit
  is_explicit-hidden_reads h =
      is_empty-path (hidden_reads f ins)
        (and_true (has_callee ins) (is_empty (hidden_reads f ins)) h).1

  pub is_plain-is_explicit : is_plain f ins ≡ true → is_explicit f ins ≡ true
  unfolding is_plain
  is_plain-is_explicit h = (and_true (is_explicit f ins) (declares_effect ins.opcode) h).0

  pub is_plain-unchanged :
      is_plain f ins ≡ true
      → has_side_effect ins.opcode ≡ false
      → changes_machine ins.opcode.kind ≡ false
  unfolding is_plain declares_effect
  is_plain-unchanged h pure =
      let declared = (and_true (is_explicit f ins) (declares_effect ins.opcode) h).1 in
      ground (arith, declared, pure)

pub all-is_explicit :
    (f : Fun) (inss : List Ins) → all (is_plain f) inss ≡ true → all (is_explicit f) inss ≡ true
all-is_explicit f [] h = refl
all-is_explicit f (ins ∷ inss) h =
    let (here, rest) = and_true (is_plain f ins) (all (is_plain f) inss) h in
    rw (is_plain-is_explicit f ins here, all-is_explicit f inss rest)

pub all-reverse_aux :
    (p : Ins → Bool) (xs ys : List Ins)
    → all p xs ≡ true
    → all p ys ≡ true
    → all p (reverse_aux xs ys) ≡ true
all-reverse_aux p [] ys hx hy = hy
all-reverse_aux p (x ∷ xs) ys hx hy =
    let (here, rest) = and_true (p x) (all p xs) hx in
    all-reverse_aux p xs (x ∷ ys) rest (rw (here, hy))

-- Each instruction of the blocks relies on nothing that the passes leave out.
abbrev pub all_plain : Fun → List Bbl → Bool
all_plain f bbls = all (λ bbl. all (is_plain f) bbl.inss) bbls
