-- ===== src/Base/Removal.antt =====
-- Base/liveness.py, a block before and after `_BblRemoveUselessInstructions`.
use mathlib.Core.Path.{subst₂}
use mathlib.Core.List.{reverse-cons, reverse-reverse}
use cwerg.Prelude.{
  ℕ, Bool, true, false, ◌≡◌, refl, ap, sym, ◌∙◌, some, List, [], ◌∷◌, ◌++◌, reverse, all,
  if◌then◌else◌, Bool-cases, inl, inr, Option-cases, and_true, arith,
}
use cwerg.Base.Opcode.{is_call, has_side_effect, def_ops_count}
use cwerg.Base.Ir.{Callee, call_results, Ins, Bbl, Fun, mem, discard_all, ins_callee}
use cwerg.Base.Liveness.{
  call_defs, live_operands, ins_update_liveness, removal_loop, bbl_remove_useless_instructions,
}
use cwerg.Base.Sets.{live_operands-Updated, mem-discard_all, Updated}
use cwerg.Base.Plain.{
  has_callee, is_plain, is_explicit-has_callee, is_explicit-hidden_reads, is_plain-is_explicit,
  is_plain-unchanged, all-reverse_aux,
}
use cwerg.Base.Meaning.{
  clobbers_of, defs_of, results_of, Machine, State, exec, run, Agree, exec-Agree, exec-idle,
  is_call-has_side_effect,
}

results_of-eq :
    (f : Fun) (ins : Ins) (written : List ℕ)
    → call_defs f ins ≡ some written
    → results_of f ins ≡ written
unfolding results_of
results_of-eq f ins written e = rw (e, results_of)

call_defs-other : (f : Fun) (ins : Ins) → is_call ins.opcode ≡ false → call_defs f ins ≡ some []
unfolding call_defs
call_defs-other f ins other = rw other

call_defs-call :
    (f : Fun) (ins : Ins) (callee : Callee)
    → is_call ins.opcode ≡ true
    → ins_callee ins ≡ some callee
    → call_defs f ins ≡ some (call_results f callee)
unfolding call_defs
call_defs-call f ins callee calls found = rw (calls, found)

call_defs-named :
    (f : Fun) (ins : Ins)
    → has_callee ins ≡ true
    → (written : List ℕ) × (call_defs f ins ≡ some written)
unfolding has_callee
call_defs-named f ins h = elim (Bool-cases (is_call ins.opcode)) [
  | inl calls ↦ elim (Option-cases (ins_callee ins)) [
    | inl missing ↦ absurd (ground arith)
    | inr (callee, found) ↦ (call_results f callee, call_defs-call f ins callee calls found)
  ]
  | inr other ↦ ([], call_defs-other f ins other)
]

pub call_defs-some :
    (f : Fun) (ins : Ins) → has_callee ins ≡ true → call_defs f ins ≡ some (results_of f ins)
call_defs-some f ins h =
    let (written, e) = call_defs-named f ins h in e ∙ ap some (sym (results_of-eq f ins written e))

clobbers_of-pure :
    (f : Fun) (ins : Ins) → has_side_effect ins.opcode ≡ false → clobbers_of f ins ≡ []
unfolding clobbers_of
clobbers_of-pure f ins pure = elim (Bool-cases (is_call ins.opcode)) [
  | inl calls ↦ absurd (ground (arith, is_call-has_side_effect ins calls))
  | inr other ↦ rw other
]

results_of-pure : (f : Fun) (ins : Ins) → has_side_effect ins.opcode ≡ false → results_of f ins ≡ []
results_of-pure f ins pure = elim (Bool-cases (is_call ins.opcode)) [
  | inl calls ↦ absurd (ground (arith, is_call-has_side_effect ins calls))
  | inr other ↦ results_of-eq f ins [] (call_defs-other f ins other)
]

-- The loop on the reversed instructions is read from the back of the block.
unfoldable run_back : {V W : Type 0} → Machine V W → Fun → List Ins → State V W → State V W
run_back m f [] s = s
run_back m f (ins ∷ inss) s = exec m f ins (run_back m f inss s)

module _ {V W : Type 0} (m : Machine V W) (f : Fun) where
  run-append : (xs ys : List Ins) (s : State V W) → run m f (xs ++ ys) s ≡ run m f ys (run m f xs s)
  unfolding run
  run-append [] ys s = refl
  run-append (x ∷ xs) ys s = run-append xs ys (exec m f x s)

  run-reverse : (xs : List Ins) (s : State V W) → run m f (reverse xs) s ≡ run_back m f xs s
  unfolding run run_back
  run-reverse [] s = refl
  run-reverse (x ∷ xs) s =
      ap (λ l. run m f l s) (reverse-cons x xs)
      ∙ (run-append (reverse xs) (x ∷ []) s ∙ ap (exec m f x) (run-reverse xs s))

-- what `_InsUpdateLiveness` returns
abbrev updated : Fun → Ins → List ℕ → Bool × List ℕ
updated f ins live =
    live_operands (def_ops_count ins.opcode) 0 (has_side_effect ins.opcode) ins.operands
      (discard_all (results_of f ins) live)

module _ (f : Fun) (ins : Ins) (live : List ℕ) (named : has_callee ins ≡ true) where
  ins_update-updated : ins_update_liveness f ins live ≡ some (updated f ins live)
  unfolding ins_update_liveness
  ins_update-updated = rw (call_defs-some f ins named)

  removal_loop-step :
      (inss keep : List Ins)
      → removal_loop f inss (updated f ins live).1 ≡ some keep
      → removal_loop f (ins ∷ inss) live
        ≡ some (if (updated f ins live).0 then ins ∷ keep else keep)
  unfolding removal_loop
  removal_loop-step inss keep e = rw (ins_update-updated, e)

module _ {V W : Type 0} (m : Machine V W) (f : Fun) (ins : Ins) (live : List ℕ) where
  facts :
      Updated
        (def_ops_count ins.opcode)
        0
        ins.operands
        (has_side_effect ins.opcode)
        (discard_all (results_of f ins) live)
        (updated f ins live)
  facts = live_operands-Updated _ 0 ins.operands _ _

  kept_ins :
      (s s' : State V W)
      → is_plain f ins ≡ true
      → (updated f ins live).0 ≡ true
      → Agree (updated f ins live).1 s s'
      → Agree live (exec m f ins s) (exec m f ins s')
  kept_ins s s' plain alive agree =
      let (_, b, c, _) = facts in
      exec-Agree m f ins live (updated f ins live).1 s s'
        (is_explicit-hidden_reads f ins (is_plain-is_explicit f ins plain)) (λ r h. c alive r h)
        (λ r h. ground (arith, b r, mem-discard_all r (results_of f ins) live)) agree

  removed_ins :
      (s s' : State V W)
      → is_plain f ins ≡ true
      → (updated f ins live).0 ≡ false
      → Agree (updated f ins live).1 s s'
      → Agree live (exec m f ins s) s'
  removed_ins s s' plain dead agree =
      let (a, b, _, d) = facts in
      let pure : has_side_effect ins.opcode ≡ false = ground arith in
      exec-idle m f ins live (updated f ins live).1 s s' (is_plain-unchanged f ins plain pure)
        (clobbers_of-pure f ins pure)
        (λ r h.
          let no_result : mem r (results_of f ins) ≡ false =
            ap (λ l. mem r l) (results_of-pure f ins pure) in
          let stays : mem r (discard_all (results_of f ins) live) ≡ true =
            ground (arith, mem-discard_all r (results_of f ins) live) in
          let no_def : mem r (defs_of ins) ≡ false = ground (arith, d dead r) in
          (ground (arith, b r stays), ground arith))
        agree

removal_loop-Agree :
    {V W : Type 0} (m : Machine V W) (f : Fun) (inss : List Ins) (live : List ℕ)
    → all (is_plain f) inss ≡ true
    → (keep : List Ins) × (removal_loop f inss live ≡ some keep)
      × ((s : State V W) → Agree live (run_back m f inss s) (run_back m f keep s))
unfolding removal_loop run_back
removal_loop-Agree m f [] live h = ([], refl, λ s. (λ r k. refl, refl))
removal_loop-Agree m f (ins ∷ inss) live h =
    let (plain, rest) = and_true (is_plain f ins) (all (is_plain f) inss) h in
    let (keep, done, agree) = removal_loop-Agree m f inss (updated f ins live).1 rest in
    let step =
      removal_loop-step f ins live (is_explicit-has_callee f ins (is_plain-is_explicit f ins plain))
        inss keep done in
    elim (Bool-cases (updated f ins live).0) [
      | inl alive ↦
          (ins ∷ keep, step ∙ rw alive, λ s. kept_ins m f ins live _ _ plain alive (agree s))
      | inr dead ↦ (keep, step ∙ rw dead, λ s. removed_ins m f ins live _ _ plain dead (agree s))
    ]

bbl_step :
    (f : Fun) (bbl : Bbl) (keep : List Ins)
    → removal_loop f (reverse bbl.inss) bbl.live_out ≡ some keep
    → bbl_remove_useless_instructions f bbl
      ≡ some (record { inss = reverse keep; live_out = bbl.live_out })
unfolding bbl_remove_useless_instructions
bbl_step f bbl keep e = rw e

-- If each call of a block names its callee, no register of the function stands in a CPU register in
-- which a callee takes its parameters or, where the block has a `ret`, in which the function leaves its
-- results, and each instruction whose kind changes the machine has a side effect by its attributes,
-- then the removal of useless instructions succeeds and keeps `live_out`, and from every state the new
-- block leaves the same machine and the same values in the registers of `live_out` as the old one,
-- whatever the instructions compute.
pub bbl_remove_useless_instructions-Agree :
    {V W : Type 0} (m : Machine V W) (f : Fun) (bbl : Bbl)
    → all (is_plain f) bbl.inss ≡ true
    → (new : Bbl) × (bbl_remove_useless_instructions f bbl ≡ some new)
      × (new.live_out ≡ bbl.live_out)
      × ((s : State V W) → Agree bbl.live_out (run m f bbl.inss s) (run m f new.inss s))
bbl_remove_useless_instructions-Agree m f bbl plain =
    let (keep, done, agree) =
      removal_loop-Agree m f (reverse bbl.inss) bbl.live_out
        (all-reverse_aux (is_plain f) bbl.inss [] plain refl) in
    (
      record { inss = reverse keep; live_out = bbl.live_out },
      bbl_step f bbl keep done,
      refl,
      λ s.
          let old : run m f bbl.inss s ≡ run_back m f (reverse bbl.inss) s =
            ap (λ l. run m f l s) (sym (reverse-reverse bbl.inss))
            ∙ run-reverse m f (reverse bbl.inss) s in
          subst₂ (Agree bbl.live_out) (sym old) (sym (run-reverse m f keep s)) (agree s),
    )
