-- ===== src/Base/Fixpoint/Preds.antt =====
-- Base/liveness.py, the loop over `bbl.edge_in` in `_FunLivenessFixpoint`.
use cwerg.Prelude.{
  ℕ, true, false, not, ◌&&◌, ◌||◌, ◌≡◌, refl, ap, sym, subst, ◌∙◌, List, [], ◌∷◌, length, ◌==◌,
  ==_iff, ==_refl, if◌then◌else◌, Bool-cases, ◌⊎◌, inl, inr, ltb, arith,
}
use cwerg.Base.Ir.{mem, add_all}
use cwerg.Base.Sets.{mem-add_all}
use cwerg.Base.Finite.{Subset, distinct, put, distinct-add_all, add_all-same}
use cwerg.Base.Fixpoint.{visit_preds}

-- What the loop makes of `live_out` and of the active blocks.
pub record IsVisited (preds live_in : List ℕ) (out : ℕ → List ℕ) (active : List ℕ)
    (out' : ℕ → List ℕ) (active' : List ℕ) : Type 0 where
  pub grows : (c : ℕ) → Subset (out c) (out' c)
  pub reached : (p : ℕ) → mem p preds ≡ true → Subset live_in (out' p)
  pub origin :
      (c r : ℕ)
      → mem r (out' c) ≡ true
      → (mem r (out c) ≡ true) ⊎ ((mem c preds ≡ true) × (mem r live_in ≡ true))
  pub keeps_distinct : ((c : ℕ) → distinct (out c) ≡ true) → (c : ℕ) → distinct (out' c) ≡ true
  pub stays_active : (c : ℕ) → mem c active ≡ true → mem c active' ≡ true
  pub unchanged : (c : ℕ) → mem c active' ≡ false → out' c ≡ out c
  pub active_distinct : distinct active ≡ true → distinct active' ≡ true
  pub active_from : (c : ℕ) → mem c active' ≡ true → (mem c active || mem c preds) ≡ true

abbrev next_active : ℕ → List ℕ → List ℕ → List ℕ → List ℕ
next_active p old grown active =
    if ltb (length old) (length grown) && not (mem p active) then p ∷ active else active

next_active-stays :
    (p : ℕ) (old grown active : List ℕ) (c : ℕ)
    → mem c active ≡ true
    → mem c (next_active p old grown active) ≡ true
next_active-stays p old grown active c h = ground arith

next_active-distinct :
    (p : ℕ) (old grown active : List ℕ)
    → distinct active ≡ true
    → distinct (next_active p old grown active) ≡ true
next_active-distinct p old grown active h = ground arith

next_active-from :
    (p : ℕ) (old grown active : List ℕ) (c : ℕ)
    → mem c (next_active p old grown active) ≡ true
    → (c == p || mem c active) ≡ true
next_active-from p old grown active c h = ground arith

-- A block whose set has grown is active.
next_active-grown :
    (p : ℕ) (live_in old active : List ℕ)
    → mem p (next_active p old (add_all live_in old) active) ≡ false
    → add_all live_in old ≡ old
next_active-grown p live_in old active h = add_all-same live_in old (ground arith)

module _ (p : ℕ) (live_in : List ℕ) (out : ℕ → List ℕ) where
  put-grows : (c : ℕ) → Subset (out c) (put out p (add_all live_in (out p)) c)
  put-grows c r h = elim (Bool-cases (c == p)) [
    | inl here ↦
        let e : out c ≡ out p = ap out ((==_iff c p).0 here) in
        rw here (ground (arith, mem-add_all r live_in (out p), ap (mem r) e))
    | inr other ↦ rw other h
  ]

  put-distinct :
      ((c : ℕ) → distinct (out c) ≡ true)
      → (c : ℕ) → distinct (put out p (add_all live_in (out p)) c) ≡ true
  put-distinct h c = elim (Bool-cases (c == p)) [
    | inl here ↦ rw here (distinct-add_all live_in (out p) (h p))
    | inr other ↦ rw other (h c)
  ]

  put-reached : Subset live_in (put out p (add_all live_in (out p)) p)
  put-reached r h = rw ==_refl (ground (arith, mem-add_all r live_in (out p)))

  put-origin :
      (c r : ℕ)
      → mem r (put out p (add_all live_in (out p)) c) ≡ true
      → (mem r (out c) ≡ true) ⊎ (((c == p) ≡ true) × (mem r live_in ≡ true))
  put-origin c r = elim (Bool-cases (c == p)) [
    | inl here ↦
        let e : out c ≡ out p = ap out ((==_iff c p).0 here) in
        rw here (λ h. ground (arith, mem-add_all r live_in (out p), ap (mem r) e))
    | inr other ↦ rw other (λ h. inl h)
  ]

  put-unchanged :
      (active : List ℕ) (c : ℕ)
      → mem c (next_active p (out p) (add_all live_in (out p)) active) ≡ false
      → put out p (add_all live_in (out p)) c ≡ out c
  put-unchanged active c h = elim (Bool-cases (c == p)) [
    | inl here ↦
        let e : c ≡ p = (==_iff c p).0 here in
        let quiet =
          subst (λ t. mem t (next_active p (out p) (add_all live_in (out p)) active) ≡ false) e h in
        rw here (next_active-grown p live_in (out p) active quiet ∙ ap out (sym e))
    | inr other ↦ rw other
  ]

  put-traced :
      (preds : List ℕ) (c r : ℕ)
      → (mem r (put out p (add_all live_in (out p)) c) ≡ true)
        ⊎ ((mem c preds ≡ true) × (mem r live_in ≡ true))
      → (mem r (out c) ≡ true) ⊎ ((mem c (p ∷ preds) ≡ true) × (mem r live_in ≡ true))
  put-traced preds c r (inr (there, k)) = inr (ground arith, k)
  put-traced preds c r (inl h) = elim (put-origin c r h) [
    | inl old ↦ inl old
    | inr (same, k) ↦ inr (ground arith, k)
  ]

pub not_before :
    (active active' : List ℕ)
    → ((c : ℕ) → mem c active ≡ true → mem c active' ≡ true)
    → (c : ℕ) → mem c active' ≡ false
    → mem c active ≡ false
not_before active active' stays c h = ground (arith, stays c)

pub visit_preds-IsVisited :
    (preds live_in : List ℕ) (out : ℕ → List ℕ) (active : List ℕ)
    → IsVisited preds live_in out active
        (visit_preds preds live_in out active).0
        (visit_preds preds live_in out active).1
unfolding visit_preds
visit_preds-IsVisited [] live_in out active = record {
  grows = λ c r h. h;
  reached = λ p h. cc;
  origin = λ c r h. inl h;
  keeps_distinct = λ h. h;
  stays_active = λ c h. h;
  unchanged = λ c h. refl;
  active_distinct = λ h. h;
  active_from = λ c h. ground arith;
}
visit_preds-IsVisited (p ∷ preds) live_in out active =
    let grown = add_all live_in (out p) in
    let active1 = next_active p (out p) grown active in
    let v = visit_preds-IsVisited preds live_in (put out p grown) active1 in
    let (out', active') = visit_preds preds live_in (put out p grown) active1 in
    let here_or_there : (q : ℕ) → mem q (p ∷ preds) ≡ true → Subset live_in (out' q) = λ q h r k.
      elim (Bool-cases (q == p)) [
        | inl here ↦
            subst (λ t. mem r (out' t) ≡ true) (sym ((==_iff q p).0 here))
              (v.grows p r (put-reached p live_in out r k))
        | inr other ↦ v.reached q (ground arith) r k
      ] in
    record {
      grows = λ c r h. v.grows c r (put-grows p live_in out c r h);
      reached = λ q h r k. here_or_there q h r k;
      origin = λ c r h. put-traced p live_in out preds c r (v.origin c r h);
      keeps_distinct = λ h. v.keeps_distinct (put-distinct p live_in out h);
      stays_active = λ c h. v.stays_active c (next_active-stays p (out p) grown active c h);
      unchanged = λ c h.
          v.unchanged c h
          ∙ put-unchanged p live_in out active c (not_before active1 active' v.stays_active c h);
      active_distinct = λ h. v.active_distinct (next_active-distinct p (out p) grown active h);
      active_from =
          λ c h. ground (arith, v.active_from c h, next_active-from p (out p) grown active c);
    }
