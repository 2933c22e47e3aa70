-- ===== src/Base/Function/Preserved.antt =====
-- Base/liveness.py, what a function does before and after `FunRemoveUselessInstructions`.
use cwerg.Prelude.{
  leb, ltb, ℕ, zero, suc, ◌+◌, ◌*◌, ◌≤◌, ◌<◌, true, ◌||◌, ◌≡◌, refl, subst, ◌∙◌, Option, none, some,
  List, [], ◌∷◌, ◌++◌, length, arith,
}
use cwerg.Base.Ir.{Bbl, Fun, mem}
use cwerg.Base.Finite.{Subset}
use cwerg.Base.Fixpoint.{Flow, AllLiveness, fun_liveness_fixpoint}
use cwerg.Base.Fixpoint.Solution.{IsWellFormed, fun_liveness_fixpoint-solves}
use cwerg.Base.Meaning.{Machine, State}
use cwerg.Base.Function.{
  FunBody, bbls_def_use, entry, set_live_out, rewrite_bbls, fun_compute_liveness_info,
  fun_remove_useless_instructions, run_fun,
}
use cwerg.Base.Plain.{all_plain}
use cwerg.Base.Function.Follow.{bbls-AllFollow, run_fun-same, EachFollows-of_zero}

-- every register that some block uses
abbrev used : List (List ℕ × List ℕ) → List ℕ
used [] = []
used (sets ∷ rest) = sets.1 ++ used rest

mem-append : (r : ℕ) (xs ys : List ℕ) → mem r (xs ++ ys) ≡ mem r xs || mem r ys
mem-append r [] ys = refl
mem-append r (x ∷ xs) ys = ground (arith, mem-append r xs ys)

entry-used : (sets : List (List ℕ × List ℕ)) (b : ℕ) → Subset (entry sets b).1 (used sets)
entry-used [] b r h = cc
entry-used (sets ∷ rest) zero r h = ground (arith, mem-append r sets.1 (used rest))
entry-used (sets ∷ rest) (suc b) r h =
    ground (arith, mem-append r sets.1 (used rest), entry-used rest b r h)

abbrev rounds_for : ℕ → List ℕ → ℕ
rounds_for count regs = count * length regs * suc count + count

abbrev rounds_of : List Bbl → Option (List (List ℕ × List ℕ)) → ℕ
rounds_of bbls none = 0
rounds_of bbls (some sets) = rounds_for (length bbls) (used sets)

-- rounds for every register that some block uses in every block
abbrev pub fuel_for : Fun → List Bbl → ℕ
fuel_for f bbls = rounds_of bbls (bbls_def_use f bbls)

fuel_for-sets :
    (f : Fun) (bbls : List Bbl) (sets : List (List ℕ × List ℕ))
    → bbls_def_use f bbls ≡ some sets
    → fuel_for f bbls ≡ rounds_for (length bbls) (used sets)
fuel_for-sets f bbls sets e = rw e refl

compute_step :
    (fuel : ℕ) (f : Fun) (body : FunBody) (edge_out : List ℕ) (edge_in : ℕ → List ℕ)
    (sets : List (List ℕ × List ℕ)) (live : AllLiveness)
    → leb (length body.bbls) 1 || ltb 0 (length edge_out) ≡ true
    → bbls_def_use f body.bbls ≡ some sets
    → fun_liveness_fixpoint fuel
        (record { count = length body.bbls; edge_in = edge_in; def_use = entry sets })
      ≡ some live
    → fun_compute_liveness_info fuel f body edge_out edge_in
      ≡ some (record { bbls = set_live_out 0 live.live_out body.bbls; liveness_valid = true })
unfolding fun_compute_liveness_info
compute_step fuel f body edge_out edge_in sets live edges e e' = rw (edges, e, e')

removal_done :
    (f : Fun) (bbls new : List Bbl)
    → rewrite_bbls f bbls ≡ some new
    → fun_remove_useless_instructions f (record { bbls = bbls; liveness_valid = true })
      ≡ some (record { bbls = new; liveness_valid = true })
unfolding fun_remove_useless_instructions
removal_done f bbls new e = rw e

-- If the edges have been made, control passes only along the edges, these stay in the function, each
-- call names its callee, no register of the function stands in a CPU register in which a callee takes
-- its parameters or, where the function has a `ret`, in which it leaves its results, and each
-- instruction whose kind changes the machine has a side effect by its attributes, then with the fuel
-- `fuel_for` `FunComputeLivenessInfo` and `FunRemoveUselessInstructions` succeed one after the other,
-- and the new function runs like the old one from every state: after any number of blocks it has come
-- to the same block with the same machine, but for registers.
pub fun_remove_useless_instructions-run_fun :
    {V W : Type 0} (m : Machine V W) (f : Fun) (goto : ℕ → W → Option ℕ) (body : FunBody)
    (edge_out : List ℕ) (edge_in : ℕ → List ℕ) (fuel : ℕ)
    → leb (length body.bbls) 1 || ltb 0 (length edge_out) ≡ true
    → all_plain f body.bbls ≡ true
    → ((b c : ℕ) (w : W) → goto b w ≡ some c → (c < length body.bbls) × (mem b (edge_in c) ≡ true))
    → ((b p : ℕ) → mem p (edge_in b) ≡ true → p < length body.bbls)
    → fuel_for f body.bbls ≤ fuel
    → (mid : FunBody) × (new : FunBody) × (fun_compute_liveness_info fuel f body edge_out edge_in
        ≡ some mid)
      × (fun_remove_useless_instructions f mid ≡ some new)
      × ((steps : ℕ) (s : State V W)
          → run_fun m f goto body.bbls steps 0 s ≡ run_fun m f goto new.bbls steps 0 s)
fun_remove_useless_instructions-run_fun m f goto body edge_out edge_in fuel edges plain along inside
      enough =
    let bbls = body.bbls in
    let (sets, e, follow) = bbls-AllFollow m f bbls plain in
    let flow : Flow = record { count = length bbls; edge_in = edge_in; def_use = entry sets } in
    let wf : IsWellFormed flow (used sets) = record { edges = inside; uses = entry-used sets } in
    let rounds : rounds_for (length bbls) (used sets) ≤ fuel =
      subst (λ t. t ≤ fuel) (fuel_for-sets f bbls sets e) enough in
    let (live, solved, equal, passed) =
      fun_liveness_fixpoint-solves flow (used sets) fuel wf rounds in
    let (new, done, all_follow, ends) = follow 0 live.live_out in
    (
      record { bbls = set_live_out 0 live.live_out bbls; liveness_valid = true },
      record { bbls = new; liveness_valid = true },
      compute_step fuel f body edge_out edge_in sets live edges e solved,
      removal_done f (set_live_out 0 live.live_out bbls) new done,
      λ steps s.
          run_fun-same m f goto bbls new sets live.live_out
            (EachFollows-of_zero m f live.live_out sets bbls new all_follow) ends
            (λ b c w goes r k.
              passed c b (along b c w goes).1 r (equal c r (along b c w goes).0 ∙ k))
            steps 0 s s ((λ r k. refl), refl),
    )
