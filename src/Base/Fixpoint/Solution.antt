-- ===== src/Base/Fixpoint/Solution.antt =====
-- Base/liveness.py, `_FunLivenessFixpoint`: that it ends, and with what.
use native.Mathlib.Nat.{suc-mul, mul-le-mul_right}
use cwerg.Prelude.{
  ℕ, zero, suc, ◌+◌, ◌-◌, ◌*◌, ◌≤◌, ◌<◌, Bool, true, false, not, ◌≡◌, refl, ap, sym, subst, ◌∙◌,
  some, some_inj, List, [], ◌∷◌, length, ◌==◌, ==_iff, ==_refl, Bool-cases, inl, inr, leb, and_true,
  arith,
}
use cwerg.Base.Ir.{mem}
use cwerg.Base.Finite.{Subset, distinct, size, size-put, size-le, length-Subset-le}
use cwerg.Base.Fixpoint.{
  Flow, AllLiveness, fixpoint_loop, all_active, none_live, fun_liveness_fixpoint,
}
use cwerg.Base.Fixpoint.Preds.{visit_preds-IsVisited}
use cwerg.Base.Fixpoint.Invariant.{
  transfer, mem-transfer, IsStable, IsClosed, updated, visited, IsStable-skip, IsStable-update,
}

mem-all_active : (n c : ℕ) → c < n → mem c (all_active n) ≡ true
unfolding all_active
mem-all_active zero c h = absurd (omega arith)
mem-all_active (suc n) c h = elim (Bool-cases (c == n)) [
  | inl here ↦ rw here
  | inr other ↦ ground (arith, mem-all_active n c)
]

all_active-lt : (n c : ℕ) → mem c (all_active n) ≡ true → c < n
unfolding all_active
all_active-lt zero c h = cc
all_active-lt (suc n) c h = elim (Bool-cases (c == n)) [
  | inl here ↦ omega (arith, (==_iff c n).0 here)
  | inr other ↦ let below = all_active-lt n c (ground arith) in omega arith
]

distinct-all_active : (n : ℕ) → distinct (all_active n) ≡ true
unfolding all_active
distinct-all_active zero = refl
distinct-all_active (suc n) = ground (arith, distinct-all_active n, all_active-lt n n)

length-all_active : (n : ℕ) → length (all_active n) ≡ n
unfolding all_active
length-all_active zero = refl
length-all_active (suc n) = ap suc (length-all_active n)

-- Blocks of the function, each once, are no more than it has.
length-blocks-le :
    (n : ℕ) (active : List ℕ)
    → distinct active ≡ true
    → ((c : ℕ) → mem c active ≡ true → c < n)
    → length active ≤ n
length-blocks-le n active d below = omega (
  arith,
  length-all_active n,
  length-Subset-le active (all_active n) d (λ c h. mem-all_active n c (below c h)),
)

module _ (flow : Flow) (b : ℕ) (active : List ℕ) (live : AllLiveness) where
  loop-skip :
      (fuel : ℕ)
      → length (transfer flow b (live.live_out b)) ≤ length (live.live_in b)
      → fixpoint_loop (suc fuel) flow (b ∷ active) live ≡ fixpoint_loop fuel flow active live
  unfolding fixpoint_loop
  loop-skip fuel h =
      let e : leb (length (transfer flow b (live.live_out b))) (length (live.live_in b)) ≡ true =
        ground arith in
      rw e

  loop-update :
      (fuel : ℕ)
      → length (live.live_in b) < length (transfer flow b (live.live_out b))
      → fixpoint_loop (suc fuel) flow (b ∷ active) live
        ≡ fixpoint_loop fuel flow (visited flow b active live).1 (updated flow b active live)
  unfolding fixpoint_loop
  loop-update fuel h =
      let e : leb (length (transfer flow b (live.live_out b))) (length (live.live_in b)) ≡ false =
        ground arith in
      rw e

fixpoint_loop-keeps :
    (flow : Flow) (bound : ℕ → List ℕ) (fuel : ℕ) (active : List ℕ) (live result : AllLiveness)
    → IsClosed flow bound
    → IsStable flow bound active live
    → fixpoint_loop fuel flow active live ≡ some result
    → IsStable flow bound [] result
unfolding fixpoint_loop
fixpoint_loop-keeps flow bound zero [] live result closed s h =
    subst (IsStable flow bound []) (some_inj h) s
fixpoint_loop-keeps flow bound (suc fuel) [] live result closed s h =
    subst (IsStable flow bound []) (some_inj h) s
fixpoint_loop-keeps flow bound zero (b ∷ active) live result closed s h = cc
fixpoint_loop-keeps flow bound (suc fuel) (b ∷ active) live result closed s h =
    elim (Bool-cases (leb (length (transfer flow b (live.live_out b))) (length (live.live_in b)))) [
      | inl short ↦
          let le : length (transfer flow b (live.live_out b)) ≤ length (live.live_in b) =
            ground arith in
          fixpoint_loop-keeps flow bound fuel active live result closed
            (IsStable-skip flow bound b active live le s)
            (sym (loop-skip flow b active live fuel le) ∙ h)
      | inr long ↦
          fixpoint_loop-keeps flow bound fuel _ _ result closed
            (IsStable-update flow bound b active live closed s)
            (sym (loop-update flow b active live fuel (ground arith)) ∙ h)
    ]

-- The edges lead to blocks of the function, and `regs` has every register that is used.
pub record IsWellFormed (flow : Flow) (regs : List ℕ) : Type 0 where
  pub edges : (b p : ℕ) → mem p (flow.edge_in b) ≡ true → p < flow.count
  pub uses : (b : ℕ) → Subset (flow.def_use b).1 regs

module _ (flow : Flow) (regs : List ℕ) (wf : IsWellFormed flow regs) where
  abbrev all_regs : ℕ → List ℕ
  all_regs b = regs

  transfer-regs : (b : ℕ) (s : List ℕ) → Subset s regs → Subset (transfer flow b s) regs
  transfer-regs b s h r k = ground (arith, mem-transfer flow b r s, h r, wf.uses b r)

  all_regs-IsClosed : IsClosed flow all_regs
  all_regs-IsClosed b p edge = transfer-regs b regs (λ r k. k)

  live_in-le :
      (active : List ℕ) (live : AllLiveness)
      → IsStable flow all_regs active live
      → (b : ℕ) → length (live.live_in b) ≤ length regs
  live_in-le active live s b =
      length-Subset-le (live.live_in b) regs (s.distinct_in b)
        (λ r k. transfer-regs b (live.live_out b) (s.bounded b) r (s.within b r k))

  -- `room` counts the registers that can still become live in some block.
  fixpoint_loop-ends :
      (fuel room : ℕ) (active : List ℕ) (live : AllLiveness)
      → IsStable flow all_regs active live
      → distinct active ≡ true
      → ((c : ℕ) → mem c active ≡ true → c < flow.count)
      → room + size flow.count live.live_in ≡ flow.count * length regs
      → room * suc flow.count + length active ≤ fuel
      → (result : AllLiveness) × (fixpoint_loop fuel flow active live ≡ some result)
  unfolding fixpoint_loop
  fixpoint_loop-ends zero room [] live s d below total enough = (live, refl)
  fixpoint_loop-ends (suc fuel) room [] live s d below total enough = (live, refl)
  fixpoint_loop-ends zero room (b ∷ active) live s d below total enough = absurd (omega arith)
  fixpoint_loop-ends (suc fuel) room (b ∷ active) live s d below total enough =
      let (fresh, rest) = and_true (not (mem b active)) (distinct active) d in
      elim (Bool-cases
        (leb (length (transfer flow b (live.live_out b))) (length (live.live_in b)))) [
          | inl short ↦
              let le : length (transfer flow b (live.live_out b)) ≤ length (live.live_in b) =
                ground arith in
              let (result, e) =
                fixpoint_loop-ends fuel room active live
                  (IsStable-skip flow all_regs b active live le s) rest
                  (λ c k. below c (ground arith)) total (omega arith) in
              (result, loop-skip flow b active live fuel le ∙ e)
          | inr long ↦
              let lt : length (live.live_in b) < length (transfer flow b (live.live_out b)) =
                ground arith in
              let s' = IsStable-update flow all_regs b active live all_regs-IsClosed s in
              let v =
                visit_preds-IsVisited (flow.edge_in b) (transfer flow b (live.live_out b))
                  live.live_out active in
              let active' = (visited flow b active live).1 in
              let below' : (c : ℕ) → mem c active' ≡ true → c < flow.count = λ c k.
                elim (Bool-cases (mem c active)) [
                  | inl old ↦ below c (ground arith)
                  | inr new ↦ wf.edges b c (ground (arith, v.active_from c k))
                ] in
              let d' = v.active_distinct rest in
              let few = length-blocks-le flow.count active' d' below' in
              let room' =
                flow.count * length regs - size flow.count (updated flow b active live).live_in in
              let fits =
                size-le flow.count (length regs) (updated flow b active live).live_in
                  (live_in-le active' (updated flow b active live) s') in
              let total' : room' + size flow.count (updated flow b active live).live_in
                  ≡ flow.count * length regs =
                omega arith in
              let grown =
                size-put flow.count live.live_in b (transfer flow b (live.live_out b))
                  (below b (rw ==_refl)) in
              let fewer : room' * suc flow.count + suc flow.count ≤ room * suc flow.count = omega (
                arith,
                suc-mul room' (suc flow.count),
                mul-le-mul_right {m = suc room'} {n = room} (suc flow.count) (omega arith),
              ) in
              let (result, e) =
                fixpoint_loop-ends fuel room' active' (updated flow b active live) s' d' below'
                  total' (omega (arith, fewer, few)) in
              (result, loop-update flow b active live fuel lt ∙ e)
        ]

IsStable-none_live :
    (flow : Flow) (bound : ℕ → List ℕ) → IsStable flow bound (all_active flow.count) none_live
IsStable-none_live flow bound = record {
  settled = λ b below idle. absurd (ground (arith, mem-all_active flow.count b below));
  passed = λ b p edge r h. cc;
  within = λ b r h. cc;
  distinct_in = λ b. refl;
  distinct_out = λ b. refl;
  bounded = λ b r h. cc;
}

size-none : (n : ℕ) → size n (λ b. []) ≡ 0
size-none zero = refl
size-none (suc n) = omega (arith, size-none n)

both_ways : (a b : Bool) → (a ≡ true → b ≡ true) → (b ≡ true → a ≡ true) → a ≡ b
both_ways true b f g = sym (f refl)
both_ways false true f g = g refl
both_ways false false f g = refl

-- With rounds for every register in every block, the fixpoint loop ends, and then `live_in` of each
-- block has the registers that the block uses and those live out of it that it does not define, and
-- what is live in a block is live out of each of its predecessors.
pub fun_liveness_fixpoint-solves :
    (flow : Flow) (regs : List ℕ) (fuel : ℕ)
    → IsWellFormed flow regs
    → flow.count * length regs * suc flow.count + flow.count ≤ fuel
    → (live : AllLiveness) × (fun_liveness_fixpoint fuel flow ≡ some live)
      × ((b r : ℕ)
          → b < flow.count
          → mem r (live.live_in b) ≡ mem r (transfer flow b (live.live_out b)))
      × ((b p : ℕ) → mem p (flow.edge_in b) ≡ true → Subset (live.live_in b) (live.live_out p))
unfolding fun_liveness_fixpoint
fun_liveness_fixpoint-solves flow regs fuel wf enough =
    let start = IsStable-none_live flow (all_regs flow regs wf) in
    let (live, done) =
      fixpoint_loop-ends flow regs wf fuel (flow.count * length regs) (all_active flow.count)
        none_live start (distinct-all_active flow.count) (all_active-lt flow.count)
        (omega (arith, size-none flow.count)) (omega (arith, length-all_active flow.count)) in
    let s =
      fixpoint_loop-keeps flow (all_regs flow regs wf) fuel (all_active flow.count) none_live live
        (all_regs-IsClosed flow regs wf) start done in
    (live, done, λ b r below. both_ways _ _ (s.within b r) (s.settled b below refl r), s.passed)

-- The fixpoint is the least one: what it has live out of a block is in every family of sets that
-- passes on, by the equation, what is live in a block to the predecessors of the block.
pub fun_liveness_fixpoint-least :
    (flow : Flow) (fuel : ℕ) (live : AllLiveness) (bound : ℕ → List ℕ)
    → IsClosed flow bound
    → fun_liveness_fixpoint fuel flow ≡ some live
    → (b : ℕ) → Subset (live.live_out b) (bound b)
unfolding fun_liveness_fixpoint
fun_liveness_fixpoint-least flow fuel live bound closed done =
    let s =
      fixpoint_loop-keeps flow bound fuel (all_active flow.count) none_live live closed
        (IsStable-none_live flow bound) done in
    s.bounded
