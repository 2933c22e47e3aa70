-- ===== src/Base/RegAlloc.antt =====
-- Base/reg_alloc.py, class `PreAllocation`: the live ranges for which a CPU register is reserved.
-- Base/liveness.py, `LiveRange`.
pub mod Conflicts
use cwerg.Prelude.{
  ℕ, zero, suc, Bool, true, false, ◌&&◌, ◌||◌, Option, none, some, List, [], ◌∷◌, ◌++◌, ltb, leb,
  ◌==◌, if◌then◌else◌, ◌>>◌, ◌>>=◌, assert,
}
use cwerg.Base.Ir.{Reg}

-- `LiveRange`, without the uses. A position is counted from `BEFORE_BBL`, so that none is negative.
-- Of the flags, `lac` is `LAC`.
pub record LiveRange : Type 0 where
  pub def_pos : ℕ
  pub last_use_pos : ℕ
  pub reg : Reg
  pub lac : Bool

-- `LiveRange.__lt__`, the order of pairs
unfoldable pub lt : LiveRange → LiveRange → Bool
lt a b = ltb a.def_pos b.def_pos || a.def_pos == b.def_pos && ltb a.last_use_pos b.last_use_pos

pub record PreAllocation : Type 0 where
  pub ranges : List LiveRange
  pub current : ℕ

unfoldable pub empty : PreAllocation
empty = record { ranges = []; current = 0 }

-- `self.ranges[-1] < lr`, or there is no range yet
unfoldable pub all_before : List LiveRange → LiveRange → Bool
unfolding lt
all_before [] lr = true
all_before (r ∷ []) lr = lt r lr
all_before (r ∷ rs) lr = all_before rs lr

unfoldable pub add : PreAllocation → LiveRange → Option PreAllocation
unfolding all_before
add p lr = do
  assert (all_before p.ranges lr)
  some (record { ranges = p.ranges ++ lr ∷ []; current = p.current })

-- `ranges[current:]`
unfoldable pub ranges_from : ℕ → List LiveRange → List LiveRange
ranges_from zero rs = rs
ranges_from (suc n) [] = []
ranges_from (suc n) (r ∷ rs) = ranges_from n rs

-- The loop of `has_conflict` over the ranges from `current` on; the result has the new `current`.
unfoldable pub conflict_loop : List LiveRange → ℕ → LiveRange → Bool × ℕ
conflict_loop [] current lr = (false, current)
conflict_loop (top ∷ ranges) current lr =
    let rest = conflict_loop ranges (suc current) lr in
    if leb top.last_use_pos lr.def_pos then rest else (ltb top.def_pos lr.last_use_pos, current)

unfoldable pub has_conflict : PreAllocation → LiveRange → Bool × PreAllocation
unfolding conflict_loop ranges_from
has_conflict p lr =
    let (found, current) = conflict_loop (ranges_from p.current p.ranges) p.current lr in
    (found, record { ranges = p.ranges; current = current })

-- `add` for each of the ranges, as `_RunLinearScan` of CodeGenA32/regs.py does for one register
unfoldable pub reserve : List LiveRange → PreAllocation → Option PreAllocation
unfolding add
reserve [] p = some p
reserve (r ∷ rs) p = do p' ← add p r; reserve rs p'

-- `has_conflict` for one live range after the other
unfoldable pub answers : PreAllocation → List LiveRange → List Bool
unfolding has_conflict
answers p [] = []
answers p (lr ∷ lrs) = let (found, p') = has_conflict p lr in found ∷ answers p' lrs
