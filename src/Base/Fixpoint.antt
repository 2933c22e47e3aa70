-- ===== src/Base/Fixpoint.antt =====
-- Base/liveness.py, `_FunLivenessFixpoint`: the loop over the active blocks.
pub mod Preds
pub mod Invariant
pub mod Solution
use cwerg.Prelude.{
  ℕ, zero, suc, Bool, Option, none, some, List, [], ◌∷◌, length, leb, ltb, ◌&&◌, not, if◌then◌else◌,
}
use cwerg.Base.Ir.{mem, add_all}
use cwerg.Base.Liveness.{live_in_of}
use cwerg.Base.Finite.{put}

-- What the loop reads of a function: its blocks, here numbered from 0, each with its predecessors and
-- the pair of `live_def` and `live_use`.
pub record Flow : Type 0 where
  pub count : ℕ
  pub edge_in : ℕ → List ℕ
  pub def_use : ℕ → List ℕ × List ℕ

-- `live_in` and `live_out` of the blocks
pub record AllLiveness : Type 0 where
  pub live_in : ℕ → List ℕ
  pub live_out : ℕ → List ℕ

-- The loop over `bbl.edge_in`; `active` is the list of the source from its end on.
unfoldable pub visit_preds : List ℕ → List ℕ → (ℕ → List ℕ) → List ℕ → (ℕ → List ℕ) × List ℕ
visit_preds [] live_in live_out active = (live_out, active)
visit_preds (p ∷ preds) live_in live_out active =
    let grown = add_all live_in (live_out p) in
    let active' =
      if ltb (length (live_out p)) (length grown) && not (mem p active)
      then p ∷ active
      else active in
    visit_preds preds live_in (put live_out p grown) active'

-- `_FunLivenessFixpoint`; `none` is a lack of fuel.
unfoldable pub fixpoint_loop : ℕ → Flow → List ℕ → AllLiveness → Option AllLiveness
fixpoint_loop fuel flow [] live = some live
fixpoint_loop zero flow (b ∷ active) live = none
fixpoint_loop (suc fuel) flow (b ∷ active) live =
    let live_in = live_in_of (flow.def_use b) (live.live_out b) in
    let rest = fixpoint_loop fuel flow active live in
    let (live_out, active') = visit_preds (flow.edge_in b) live_in live.live_out active in
    let rest' =
      fixpoint_loop fuel flow active'
        (record { live_in = put live.live_in b live_in; live_out = live_out }) in
    if leb (length live_in) (length (live.live_in b)) then rest else rest'

-- `fun.bbls[:]` from its end on
unfoldable pub all_active : ℕ → List ℕ
all_active zero = []
all_active (suc n) = n ∷ all_active n

abbrev pub none_live : AllLiveness
none_live = record { live_in = λ b. []; live_out = λ b. [] }

unfoldable pub fun_liveness_fixpoint : ℕ → Flow → Option AllLiveness
unfolding fixpoint_loop all_active
fun_liveness_fixpoint fuel flow = fixpoint_loop fuel flow (all_active flow.count) none_live
