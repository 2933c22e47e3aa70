-- ===== src/Base/Function.antt =====
-- Base/liveness.py, the passes on whole functions: `FunComputeLivenessInfo` and
-- `FunRemoveUselessInstructions`.
pub mod Follow
pub mod Preserved
use cwerg.Prelude.{
  ℕ, Bool, true, zero, suc, Option, none, some, List, [], ◌∷◌, length, get_elem?, ◌>>=◌, ◌>>◌,
  assert, leb, ltb, ◌||◌,
}
use cwerg.Base.Ir.{Bbl, Fun}
use cwerg.Base.Liveness.{bbl_def_use, bbl_remove_useless_instructions}
use cwerg.Base.Fixpoint.{Flow, AllLiveness, fun_liveness_fixpoint}
use cwerg.Base.Meaning.{Machine, State, run}

-- The pairs that `_BblDefUse` returns for the blocks.
unfoldable pub bbls_def_use : Fun → List Bbl → Option (List (List ℕ × List ℕ))
bbls_def_use f [] = some []
bbls_def_use f (bbl ∷ bbls) = do
  sets ← bbl_def_use f bbl
  rest ← bbls_def_use f bbls
  some (sets ∷ rest)

abbrev pub entry : List (List ℕ × List ℕ) → ℕ → List ℕ × List ℕ
entry [] b = ([], [])
entry (sets ∷ rest) zero = sets
entry (sets ∷ rest) (suc b) = entry rest b

-- The assignments to `bbl.live_out`, from block n on.
unfoldable pub set_live_out : ℕ → (ℕ → List ℕ) → List Bbl → List Bbl
set_live_out n live_out [] = []
set_live_out n live_out (bbl ∷ bbls) =
    record { inss = bbl.inss; live_out = live_out n } ∷ set_live_out (suc n) live_out bbls

-- The blocks of a function, and whether LIVENESS_VALID is one of its flags.
pub record FunBody : Type 0 where
  pub bbls : List Bbl
  pub liveness_valid : Bool

-- `FunComputeLivenessInfo` on a function, the successors of its first block, and the predecessors of
-- all, without the round count it returns
unfoldable pub fun_compute_liveness_info :
    ℕ → Fun → FunBody → List ℕ → (ℕ → List ℕ) → Option FunBody
unfolding bbls_def_use
fun_compute_liveness_info fuel f body edge_out edge_in = do
  assert (leb (length body.bbls) 1 || ltb 0 (length edge_out))
  sets ← bbls_def_use f body.bbls
  live ←
      fun_liveness_fixpoint fuel
        (record { count = length body.bbls; edge_in = edge_in; def_use = entry sets })
  some (record { bbls = set_live_out 0 live.live_out body.bbls; liveness_valid = true })

-- `FunGenericRewriteBbl` for `_BblRemoveUselessInstructions`, without the count it returns
unfoldable pub rewrite_bbls : Fun → List Bbl → Option (List Bbl)
rewrite_bbls f [] = some []
rewrite_bbls f (bbl ∷ bbls) = do
  new ← bbl_remove_useless_instructions f bbl
  rest ← rewrite_bbls f bbls
  some (new ∷ rest)

unfoldable pub fun_remove_useless_instructions : Fun → FunBody → Option FunBody
unfolding rewrite_bbls
fun_remove_useless_instructions f body = do
  assert body.liveness_valid
  bbls ← rewrite_bbls f body.bbls
  some (record { bbls = bbls; liveness_valid = body.liveness_valid })

-- What a function does: it runs block after block. The block that follows, if any, is told by `goto`
-- from what the instructions have done to the machine besides its registers. The result is the block
-- that would run after `steps` blocks, and the machine.
unfoldable pub run_fun :
    {V W : Type 0}
    → Machine V W
    → Fun
    → (ℕ → W → Option ℕ)
    → List Bbl
    → ℕ
    → ℕ
    → State V W
    → Option ℕ × W
run_fun m f goto bbls zero b s = (some b, s.1)
run_fun m f goto bbls (suc steps) b s = elim (get_elem? bbls b) [
  | none ↦ (none, s.1)
  | some bbl ↦
      let s' = run m f bbl.inss s in
      elim (goto b s'.1) [ none ↦ (none, s'.1) | some c ↦ run_fun m f goto bbls steps c s' ]
]
