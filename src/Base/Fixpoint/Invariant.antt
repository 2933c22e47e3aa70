-- ===== src/Base/Fixpoint/Invariant.antt =====
-- Base/liveness.py, what `_FunLivenessFixpoint` keeps true from round to round.
use cwerg.Prelude.{
  ℕ, ◌≤◌, ◌<◌, true, false, not, ◌&&◌, ◌||◌, ◌≡◌, ap, sym, subst, ◌∙◌, List, ◌∷◌, length, ◌==◌,
  ==_iff, Bool-cases, inl, inr, arith,
}
use cwerg.Base.Ir.{mem, discard_all}
use cwerg.Base.Sets.{mem-add_all, mem-discard_all}
use cwerg.Base.Liveness.{live_in_of}
use cwerg.Base.Finite.{
  Subset, distinct, put, Subset-of_length, distinct-discard_all, distinct-add_all,
}
use cwerg.Base.Fixpoint.{Flow, AllLiveness, visit_preds}
use cwerg.Base.Fixpoint.Preds.{visit_preds-IsVisited, not_before}

-- `live_in` as the dataflow equation has it
abbrev pub transfer : Flow → ℕ → List ℕ → List ℕ
transfer flow b live_out = live_in_of (flow.def_use b) live_out

pub mem-transfer :
    (flow : Flow) (b r : ℕ) (s : List ℕ)
    → mem r (transfer flow b s)
      ≡ mem r (flow.def_use b).1 || not (mem r (flow.def_use b).0) && mem r s
unfolding live_in_of
mem-transfer flow b r s =
    mem-add_all r (flow.def_use b).1 (discard_all (flow.def_use b).0 s)
    ∙ ap (λ t. mem r (flow.def_use b).1 || t) (mem-discard_all r (flow.def_use b).0 s)

pub transfer-Subset :
    (flow : Flow) (b : ℕ) (s t : List ℕ)
    → Subset s t
    → Subset (transfer flow b s) (transfer flow b t)
transfer-Subset flow b s t h r k =
    ground (arith, mem-transfer flow b r s, mem-transfer flow b r t, h r)

pub distinct-transfer :
    (flow : Flow) (b : ℕ) (s : List ℕ) → distinct s ≡ true → distinct (transfer flow b s) ≡ true
unfolding live_in_of
distinct-transfer flow b s d =
    distinct-add_all (flow.def_use b).1 _ (distinct-discard_all (flow.def_use b).0 s d)

-- Of the blocks: each that is not active satisfies its equation, what is live in a block is live out of
-- its predecessors, no set has an element twice, and every set lies in `bound`.
pub record IsStable (flow : Flow) (bound : ℕ → List ℕ) (active : List ℕ) (live : AllLiveness)
    : Type 0 where
  pub settled :
      (b : ℕ)
      → b < flow.count
      → mem b active ≡ false
      → Subset (transfer flow b (live.live_out b)) (live.live_in b)
  pub passed : (b p : ℕ) → mem p (flow.edge_in b) ≡ true → Subset (live.live_in b) (live.live_out p)
  pub within : (b : ℕ) → Subset (live.live_in b) (transfer flow b (live.live_out b))
  pub distinct_in : (b : ℕ) → distinct (live.live_in b) ≡ true
  pub distinct_out : (b : ℕ) → distinct (live.live_out b) ≡ true
  pub bounded : (b : ℕ) → Subset (live.live_out b) (bound b)

-- The sets of `bound` satisfy the equations, or are larger.
abbrev pub IsClosed : Flow → (ℕ → List ℕ) → Type 0
IsClosed flow bound =
    (b p : ℕ) → mem p (flow.edge_in b) ≡ true → Subset (transfer flow b (bound b)) (bound p)

module _ (flow : Flow) (b : ℕ) where
  abbrev new_in : AllLiveness → List ℕ
  new_in live = transfer flow b (live.live_out b)

  abbrev pub visited : List ℕ → AllLiveness → (ℕ → List ℕ) × List ℕ
  visited active live = visit_preds (flow.edge_in b) (new_in live) live.live_out active

  abbrev pub updated : List ℕ → AllLiveness → AllLiveness
  updated active live = record {
    live_in = put live.live_in b (new_in live);
    live_out = (visited active live).0;
  }

module _ (flow : Flow) (bound : ℕ → List ℕ) (b : ℕ) (active : List ℕ) (live : AllLiveness) where
  pub IsStable-skip :
      length (new_in flow b live) ≤ length (live.live_in b)
      → IsStable flow bound (b ∷ active) live
      → IsStable flow bound active live
  IsStable-skip short s = record {
    settled = λ c below idle. elim (Bool-cases (c == b)) [
      | inl here ↦
          subst (λ t. Subset (transfer flow t (live.live_out t)) (live.live_in t))
            (sym ((==_iff c b).0 here))
            (Subset-of_length (live.live_in b) (new_in flow b live) (s.distinct_in b) (s.within b)
              short)
      | inr other ↦ s.settled c below (ground arith)
    ];
    passed = s.passed;
    within = s.within;
    distinct_in = s.distinct_in;
    distinct_out = s.distinct_out;
    bounded = s.bounded;
  }

  pub IsStable-update :
      IsClosed flow bound
      → IsStable flow bound (b ∷ active) live
      → IsStable flow bound (visited flow b active live).1 (updated flow b active live)
  IsStable-update closed s =
      let v = visit_preds-IsVisited (flow.edge_in b) (new_in flow b live) live.live_out active in
      record {
        settled = λ c below idle.
            let same = v.unchanged c idle in
            elim (Bool-cases (c == b)) [
              | inl here ↦
                  rw (here, same)
                    (subst (λ t. Subset (transfer flow t (live.live_out t)) (new_in flow b live))
                      (sym ((==_iff c b).0 here)) (λ r k. k))
              | inr other ↦
                  let was_idle =
                    not_before active (visited flow b active live).1 v.stays_active c idle in
                  rw (other, same) (s.settled c below (ground arith))
            ];
        passed = λ c p edge. elim (Bool-cases (c == b)) [
          | inl here ↦
              let edge' = subst (λ t. mem p (flow.edge_in t) ≡ true) ((==_iff c b).0 here) edge in
              rw here (v.reached p edge')
          | inr other ↦ rw other (λ r k. v.grows p r (s.passed c p edge r k))
        ];
        within = λ c. elim (Bool-cases (c == b)) [
          | inl here ↦ rw here (
              subst
                (λ t.
                  Subset (new_in flow b live) (transfer flow t ((visited flow b active live).0 t)))
                (sym ((==_iff c b).0 here))
                (transfer-Subset flow b (live.live_out b) ((visited flow b active live).0 b)
                  (v.grows b)))
          | inr other ↦ rw other (λ r k.
              transfer-Subset flow c (live.live_out c) ((visited flow b active live).0 c)
                (v.grows c) r (s.within c r k))
        ];
        distinct_in = λ c. elim (Bool-cases (c == b)) [
          | inl here ↦ rw here (distinct-transfer flow b (live.live_out b) (s.distinct_out b))
          | inr other ↦ rw other (s.distinct_in c)
        ];
        distinct_out = v.keeps_distinct s.distinct_out;
        bounded = λ c r h. elim (v.origin c r h) [
          | inl old ↦ s.bounded c r old
          | inr (edge, k) ↦
              closed b c edge r
                (transfer-Subset flow b (live.live_out b) (bound b) (s.bounded b) r k)
        ];
      }
