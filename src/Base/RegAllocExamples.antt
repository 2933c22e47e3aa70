-- ===== src/Base/RegAllocExamples.antt =====
-- Base/reg_alloc.py at concrete live ranges.
use cwerg.Prelude.{ℕ, true, false, ◌≡◌, refl, none, some, List, [], ◌∷◌, map, arith}
use cwerg.Base.Kinds.{u32}
use cwerg.Base.RegAlloc.{LiveRange, PreAllocation, empty, reserve, answers, lt}
use cwerg.Base.RegAlloc.Conflicts.{overlaps_some, IsIncreasing, DefinedFrom, reserve-answers}

abbrev live : ℕ → ℕ → LiveRange
live def_pos last_use_pos = record {
  def_pos = def_pos;
  last_use_pos = last_use_pos;
  reg = record { name = 0; kind = u32; cpu_reg = none };
  lac = false;
}

abbrev reserved : List LiveRange
reserved = live 2 4 ∷ live 6 9 ∷ live 9 12 ∷ []

abbrev asked : List LiveRange
asked = live 1 2 ∷ live 1 5 ∷ live 4 6 ∷ live 8 10 ∷ live 12 20 ∷ []

reserved-IsIncreasing : IsIncreasing reserved
unfolding lt
reserved-IsIncreasing = (refl, (refl, tt))

asked-DefinedFrom : DefinedFrom 0 asked
asked-DefinedFrom = (omega arith, (omega arith, (omega arith, (omega arith, (omega arith, tt)))))

reserve-answers_example :
    (p : PreAllocation) × (reserve reserved empty ≡ some p)
    × (answers p asked ≡ map (λ lr. overlaps_some lr reserved) asked)
reserve-answers_example = reserve-answers reserved asked reserved-IsIncreasing asked-DefinedFrom

-- Only the second and the fourth overlap.
answered : map (λ lr. overlaps_some lr reserved) asked ≡ false ∷ true ∷ false ∷ true ∷ false ∷ []
unfolding overlaps_some
answered = refl
