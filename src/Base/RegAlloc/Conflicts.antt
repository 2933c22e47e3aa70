-- ===== src/Base/RegAlloc/Conflicts.antt =====
-- Base/reg_alloc.py, what `PreAllocation.has_conflict` answers to live ranges that come in order.
use cwerg.Prelude.{
  ℕ, zero, suc, ◌+◌, ◌≤◌, Bool, true, false, ◌&&◌, ◌||◌, ◌≡◌, refl, ap, ap₂, subst, ◌∙◌, append-nil,
  append_assoc, some, List, [], ◌∷◌, ◌++◌, ltb, leb, Bool-cases, inl, inr, map, arith,
}
use cwerg.Base.RegAlloc.{
  LiveRange, PreAllocation, lt, empty, all_before, add, ranges_from, conflict_loop, has_conflict,
  reserve, answers,
}

-- Each range is still live when the other is defined.
unfoldable pub overlaps : LiveRange → LiveRange → Bool
overlaps lr r = ltb lr.def_pos r.last_use_pos && ltb r.def_pos lr.last_use_pos

unfoldable pub overlaps_some : LiveRange → List LiveRange → Bool
unfolding overlaps
overlaps_some lr [] = false
overlaps_some lr (r ∷ rs) = overlaps lr r || overlaps_some lr rs

-- The ranges are defined in order.
abbrev pub DefinedFrom : ℕ → List LiveRange → Type 0
DefinedFrom n [] = Unit
DefinedFrom n (r ∷ rs) = (n ≤ r.def_pos) × DefinedFrom r.def_pos rs

none_from :
    (lr : LiveRange) (n : ℕ) (rs : List LiveRange)
    → lr.last_use_pos ≤ n
    → DefinedFrom n rs
    → overlaps_some lr rs ≡ false
unfolding overlaps_some overlaps
none_from lr n [] late sorted = refl
none_from lr n (r ∷ rs) late (from, sorted) =
    let ih = none_from lr r.def_pos rs (omega arith) sorted in ground arith

-- The loop finds out whether a range overlaps, and skips ranges that have ended.
conflict_loop-overlaps_some :
    (rs : List LiveRange) (n current : ℕ) (lr : LiveRange)
    → DefinedFrom n rs
    → (conflict_loop rs current lr).0 ≡ overlaps_some lr rs
unfolding conflict_loop overlaps_some overlaps
conflict_loop-overlaps_some [] n current lr sorted = refl
conflict_loop-overlaps_some (r ∷ rs) n current lr (from, sorted) =
    let ih = conflict_loop-overlaps_some rs r.def_pos (suc current) lr sorted in
    elim (Bool-cases (leb r.last_use_pos lr.def_pos)) [
      | inl ended ↦ ground arith
      | inr live ↦ elim (Bool-cases (ltb r.def_pos lr.last_use_pos)) [
        | inl before ↦ ground arith
        | inr after ↦
            let late : lr.last_use_pos ≤ r.def_pos = ground arith in
            let apart = none_from lr r.def_pos rs late sorted in ground arith
      ]
    ]

-- The first k ranges have ended at n.
abbrev pub Ended : ℕ → ℕ → List LiveRange → Type 0
Ended zero n rs = Unit
Ended (suc k) n [] = ⊥
Ended (suc k) n (r ∷ rs) = (r.last_use_pos ≤ n) × Ended k n rs

overlaps_some-Ended :
    (lr : LiveRange) (k n : ℕ) (rs : List LiveRange)
    → n ≤ lr.def_pos
    → Ended k n rs
    → overlaps_some lr (ranges_from k rs) ≡ overlaps_some lr rs
unfolding overlaps_some overlaps ranges_from
overlaps_some-Ended lr zero n rs late ended = refl
overlaps_some-Ended lr (suc k) n [] late ended = absurd ended
overlaps_some-Ended lr (suc k) n (r ∷ rs) late (here, rest) =
    let ih = overlaps_some-Ended lr k n rs late rest in ground arith

pub Ended-later : (k n m : ℕ) (rs : List LiveRange) → n ≤ m → Ended k n rs → Ended k m rs
Ended-later zero n m rs late ended = tt
Ended-later (suc k) n m [] late ended = absurd ended
Ended-later (suc k) n m (r ∷ rs) late (here, rest) = (omega arith, Ended-later k n m rs late rest)

Ended-add :
    (k j n : ℕ) (rs : List LiveRange)
    → Ended k n rs
    → Ended j n (ranges_from k rs)
    → Ended (k + j) n rs
unfolding ranges_from
Ended-add zero j n rs first more =
    let sum : j ≡ 0 + j = omega arith in subst (λ t. Ended t n rs) sum more
Ended-add (suc k) j n [] first more = absurd first
Ended-add (suc k) j n (r ∷ rs) (here, rest) more =
    let sum : suc (k + j) ≡ suc k + j = omega arith in
    subst (λ t. Ended t n (r ∷ rs)) sum (here, Ended-add k j n rs rest more)

conflict_loop-Ended :
    (rs : List LiveRange) (current : ℕ) (lr : LiveRange)
    → (j : ℕ) × ((conflict_loop rs current lr).1 ≡ current + j) × Ended j lr.def_pos rs
unfolding conflict_loop
conflict_loop-Ended [] current lr = (0, omega arith, tt)
conflict_loop-Ended (r ∷ rs) current lr =
    let (j, at, ended) = conflict_loop-Ended rs (suc current) lr in
    elim (Bool-cases (leb r.last_use_pos lr.def_pos)) [
      | inl over ↦ (suc j, rw over (omega arith), (ground arith, ended))
      | inr live ↦ (0, rw live (omega arith), tt)
    ]

DefinedFrom-earlier : (n m : ℕ) (rs : List LiveRange) → n ≤ m → DefinedFrom m rs → DefinedFrom n rs
DefinedFrom-earlier n m [] early sorted = tt
DefinedFrom-earlier n m (r ∷ rs) early (from, sorted) = (omega arith, sorted)

DefinedFrom-ranges_from :
    (k n : ℕ) (rs : List LiveRange) → DefinedFrom n rs → DefinedFrom n (ranges_from k rs)
unfolding ranges_from
DefinedFrom-ranges_from zero n rs sorted = sorted
DefinedFrom-ranges_from (suc k) n [] sorted = tt
DefinedFrom-ranges_from (suc k) n (r ∷ rs) (from, sorted) =
    DefinedFrom-ranges_from k n rs (DefinedFrom-earlier n r.def_pos rs from sorted)

-- The ranges are in order, and those that are skipped have ended at n.
abbrev pub IsReady : ℕ → PreAllocation → Type 0
IsReady n p = DefinedFrom 0 p.ranges × Ended p.current n p.ranges

-- For a live range that is not defined before n the answer is whether it overlaps a reserved range,
-- and the state is ready for those that are not defined before it.
pub has_conflict-overlaps_some :
    (n : ℕ) (p : PreAllocation) (lr : LiveRange)
    → n ≤ lr.def_pos
    → IsReady n p
    → ((has_conflict p lr).0 ≡ overlaps_some lr p.ranges)
      × ((has_conflict p lr).1.ranges ≡ p.ranges)
      × IsReady lr.def_pos (has_conflict p lr).1
unfolding has_conflict
has_conflict-overlaps_some n p lr late (sorted, ended) =
    let (j, at, more) = conflict_loop-Ended (ranges_from p.current p.ranges) p.current lr in
    (
      conflict_loop-overlaps_some (ranges_from p.current p.ranges) 0 p.current lr
            (DefinedFrom-ranges_from p.current 0 p.ranges sorted)
          ∙ overlaps_some-Ended lr p.current n p.ranges late ended,
      refl,
      (
        sorted,
        rw at (
            Ended-add p.current j lr.def_pos p.ranges
              (Ended-later p.current n lr.def_pos p.ranges late ended) more),
      ),
    )

answers-overlaps_some :
    (n : ℕ) (p : PreAllocation) (lrs : List LiveRange)
    → IsReady n p
    → DefinedFrom n lrs
    → answers p lrs ≡ map (λ lr. overlaps_some lr p.ranges) lrs
unfolding answers
answers-overlaps_some n p [] ready later = refl
answers-overlaps_some n p (lr ∷ lrs) ready (late, later) =
    let (found, same, ready') = has_conflict-overlaps_some n p lr late ready in
    let ih = answers-overlaps_some lr.def_pos (has_conflict p lr).1 lrs ready' later in
    ap₂ ◌∷◌ found ih

-- Each range comes before the next in the order of `__lt__`.
abbrev pub IsIncreasing : List LiveRange → Type 0
IsIncreasing [] = Unit
IsIncreasing (r ∷ []) = Unit
IsIncreasing (r ∷ r' ∷ rs) = (lt r r' ≡ true) × IsIncreasing (r' ∷ rs)

all_before-IsIncreasing :
    (done : List LiveRange) (r : LiveRange) (rs : List LiveRange)
    → IsIncreasing (done ++ r ∷ rs)
    → all_before done r ≡ true
unfolding all_before
all_before-IsIncreasing [] r rs h = refl
all_before-IsIncreasing (d ∷ []) r rs (here, rest) = here
all_before-IsIncreasing (d ∷ d' ∷ done) r rs (here, rest) =
    all_before-IsIncreasing (d' ∷ done) r rs rest

reserve-IsIncreasing :
    (done rs : List LiveRange) (k : ℕ)
    → IsIncreasing (done ++ rs)
    → reserve rs (record { ranges = done; current = k })
      ≡ some (record { ranges = done ++ rs; current = k })
unfolding reserve add
reserve-IsIncreasing done [] k h = rw (append-nil done) refl
reserve-IsIncreasing done (r ∷ rs) k h =
    let before = all_before-IsIncreasing done r rs h in
    let whole : (done ++ r ∷ []) ++ rs ≡ done ++ r ∷ rs = append_assoc done (r ∷ []) rs in
    rw before (
      reserve-IsIncreasing (done ++ r ∷ []) rs k (rw whole h)
      ∙ ap (λ t. some (record { ranges = t; current = k })) whole)

DefinedFrom-IsIncreasing : (rs : List LiveRange) → IsIncreasing rs → DefinedFrom 0 rs
unfolding lt
DefinedFrom-IsIncreasing [] h = tt
DefinedFrom-IsIncreasing (r ∷ []) h = (omega arith, tt)
DefinedFrom-IsIncreasing (r ∷ r' ∷ rs) (here, rest) =
    let (from, sorted) = DefinedFrom-IsIncreasing (r' ∷ rs) rest in
    (omega arith, (ground arith, sorted))

-- Ranges that come in the order of `__lt__` can all be reserved, and then `has_conflict` answers to
-- live ranges that come in the order of their definitions, one after the other, whether each of them
-- overlaps one of the reserved ranges.
pub reserve-answers :
    (rs lrs : List LiveRange)
    → IsIncreasing rs
    → DefinedFrom 0 lrs
    → (p : PreAllocation) × (reserve rs empty ≡ some p)
      × (answers p lrs ≡ map (λ lr. overlaps_some lr rs) lrs)
unfolding empty
reserve-answers rs lrs sorted later =
    let p : PreAllocation = record { ranges = rs; current = 0 } in
    (
      p,
      reserve-IsIncreasing [] rs 0 sorted,
      answers-overlaps_some 0 p lrs (DefinedFrom-IsIncreasing rs sorted, tt) later,
    )
