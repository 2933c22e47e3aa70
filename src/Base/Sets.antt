-- ===== src/Base/Sets.antt =====
-- Base/ir.py and Base/liveness.py, the sets of registers and what the operands of an instruction
-- define and use.
use cwerg.Prelude.{
  ℕ, suc, ◌≤◌, Bool, true, false, not, ◌&&◌, ◌||◌, ◌≡◌, refl, ap, sym, subst, List, [], ◌∷◌, ltb,
  ◌==◌, if◌then◌else◌, Bool-cases, inl, inr, arith,
}
use cwerg.Base.Ir.{Reg, Operand, reg, const, func, other, mem, discard, add, discard_all, add_all}
use cwerg.Base.Liveness.{live_operands}

pub mem-discard : (r x : ℕ) (s : List ℕ) → mem r (discard x s) ≡ not (r == x) && mem r s
mem-discard r x [] = ground arith
mem-discard r x (y ∷ s) = ground (arith, mem-discard r x s)

pub mem-add : (r x : ℕ) (s : List ℕ) → mem r (add x s) ≡ r == x || mem r s
mem-add r x s = ground arith

pub mem-discard_all : (r : ℕ) (xs s : List ℕ) → mem r (discard_all xs s) ≡ not (mem r xs) && mem r s
mem-discard_all r [] s = ground arith
mem-discard_all r (x ∷ xs) s = ground (arith, mem-discard_all r xs (discard x s), mem-discard r x s)

-- the registers among the operands from position n on that are written
unfoldable pub defs_from : ℕ → ℕ → List Operand → List ℕ
defs_from d n [] = []
defs_from d n (reg r ∷ ops) =
    let rest = defs_from d (suc n) ops in if ltb n d then r.name ∷ rest else rest
defs_from d n (op ∷ ops) = defs_from d (suc n) ops

-- those that are read
unfoldable pub uses_from : ℕ → ℕ → List Operand → List ℕ
uses_from d n [] = []
uses_from d n (reg r ∷ ops) =
    let rest = uses_from d (suc n) ops in if ltb n d then rest else r.name ∷ rest
uses_from d n (op ∷ ops) = uses_from d (suc n) ops

pub defs_from-late : (d n : ℕ) (ops : List Operand) → d ≤ n → defs_from d n ops ≡ []
unfolding defs_from
defs_from-late d n [] h = refl
defs_from-late d n (reg r ∷ ops) h = ground (arith, defs_from-late d (suc n) ops)
defs_from-late d n (const k v ∷ ops) h = defs_from-late d (suc n) ops (ground arith)
defs_from-late d n (func c ∷ ops) h = defs_from-late d (suc n) ops (ground arith)
defs_from-late d n (other k ∷ ops) h = defs_from-late d (suc n) ops (ground arith)

-- What the loop over the operands makes of `is_live` and `live_out`.
abbrev pub Updated : ℕ → ℕ → List Operand → Bool → List ℕ → Bool × List ℕ → Type 0
Updated d n ops is_live live (is_live', live') =
    (is_live ≡ true → is_live' ≡ true)
    × ((r : ℕ) → mem r live ≡ true → (mem r live' || mem r (defs_from d n ops)) ≡ true)
    × (is_live' ≡ true → (r : ℕ) → mem r (uses_from d n ops) ≡ true → mem r live' ≡ true)
    × (is_live' ≡ false → (r : ℕ) → mem r (defs_from d n ops) ≡ true → mem r live ≡ false)

module _ (d n : ℕ) (r : ℕ) (ops : List Operand) (is_live : Bool) (live : List ℕ)
    (out : Bool × List ℕ) where
  Updated-def :
      (o : Operand)
      → defs_from d n (o ∷ ops) ≡ r ∷ defs_from d (suc n) ops
      → uses_from d n (o ∷ ops) ≡ uses_from d (suc n) ops
      → Updated d (suc n) ops (is_live || mem r live) (discard r live) out
      → Updated d n (o ∷ ops) is_live live out
  Updated-def o e e' (a, b, c, f) =
      rw (e, e')
        (
          λ h. a (ground arith),
          λ q h. ground (arith, b q, mem-discard q r live),
          c,
          λ h q k. ground (arith, f h q, mem-discard q r live, a),
        )

  Updated-use :
      (o : Operand)
      → defs_from d n (o ∷ ops) ≡ defs_from d (suc n) ops
      → uses_from d n (o ∷ ops) ≡ r ∷ uses_from d (suc n) ops
      → defs_from d (suc n) ops ≡ []
      → Updated d (suc n) ops is_live (add r live) out
      → is_live ≡ true
      → Updated d n (o ∷ ops) is_live live out
  Updated-use o e e' none_left (a, b, c, f) alive =
      let kept : (q : ℕ) → mem q (add r live) ≡ true → mem q out.1 ≡ true =
        λ q h. ground (arith, b q h, ap (mem q) none_left) in
      rw (e, e', none_left)
        (
          a,
          λ q h. ground (arith, kept q, mem-add q r live),
          λ h q k. ground (arith, kept q, mem-add q r live, c h q),
          λ h q k. ground arith,
        )

Updated-[] :
    (d n : ℕ) (is_live : Bool) (live : List ℕ)
    → Updated d n [] is_live live (live_operands d n is_live [] live)
unfolding live_operands defs_from uses_from
Updated-[] d n is_live live = (λ h. h, λ r h. ground arith, λ h r k. cc, λ h r k. cc)

module _ (d n : ℕ) (o : Operand) (ops : List Operand) (is_live : Bool) (live : List ℕ) where
  Updated-skip :
      defs_from d n (o ∷ ops) ≡ defs_from d (suc n) ops
      → uses_from d n (o ∷ ops) ≡ uses_from d (suc n) ops
      → live_operands d n is_live (o ∷ ops) live ≡ live_operands d (suc n) is_live ops live
      → Updated d (suc n) ops is_live live (live_operands d (suc n) is_live ops live)
      → Updated d n (o ∷ ops) is_live live (live_operands d n is_live (o ∷ ops) live)
  Updated-skip e e' step ih = rw (e, e', step) ih

module _ (d n : ℕ) (r : Reg) (ops : List Operand) (is_live : Bool) (live : List ℕ) where
  Updated-reg_def :
      ltb n d ≡ true
      → Updated d
          (suc n)
          ops
          (is_live || mem r.name live)
          (discard r.name live)
          (live_operands d (suc n) (is_live || mem r.name live) ops (discard r.name live))
      → Updated d n (reg r ∷ ops) is_live live (live_operands d n is_live (reg r ∷ ops) live)
  unfolding live_operands defs_from uses_from
  Updated-reg_def is_def ih =
      let step : live_operands d n is_live (reg r ∷ ops) live
          ≡ live_operands d (suc n) (is_live || mem r.name live) ops (discard r.name live) =
        rw is_def in
      subst (Updated d n (reg r ∷ ops) is_live live) (sym step)
        (Updated-def d n r.name ops is_live live _ (reg r) (rw is_def) (rw is_def) ih)

  Updated-reg_use :
      ltb n d ≡ false
      → is_live ≡ true
      → defs_from d (suc n) ops ≡ []
      → Updated d
          (suc n)
          ops
          is_live
          (add r.name live)
          (live_operands d (suc n) is_live ops (add r.name live))
      → Updated d n (reg r ∷ ops) is_live live (live_operands d n is_live (reg r ∷ ops) live)
  unfolding live_operands defs_from uses_from
  Updated-reg_use is_use alive late ih =
      let step : live_operands d n is_live (reg r ∷ ops) live
          ≡ live_operands d (suc n) is_live ops (add r.name live) =
        rw (is_use, alive) in
      subst (Updated d n (reg r ∷ ops) is_live live) (sym step)
        (Updated-use d n r.name ops is_live live _ (reg r) (rw is_use) (rw is_use) late ih alive)

  Updated-break :
      ltb n d ≡ false
      → is_live ≡ false
      → defs_from d (suc n) ops ≡ []
      → Updated d n (reg r ∷ ops) is_live live (live_operands d n is_live (reg r ∷ ops) live)
  unfolding live_operands defs_from uses_from
  Updated-break is_use dead late =
      let step : live_operands d n is_live (reg r ∷ ops) live ≡ (is_live, live) =
        rw (is_use, dead) in
      let no_defs : defs_from d n (reg r ∷ ops) ≡ [] = rw is_use late in
      subst (Updated d n (reg r ∷ ops) is_live live) (sym step)
        (λ h. h, λ q h. ground arith, λ h q k. cc, λ h q k. ground (arith, ap (mem q) no_defs))

-- The loop over the operands from position n on.
pub live_operands-Updated :
    (d n : ℕ) (ops : List Operand) (is_live : Bool) (live : List ℕ)
    → Updated d n ops is_live live (live_operands d n is_live ops live)
unfolding live_operands defs_from uses_from
live_operands-Updated d n [] is_live live = Updated-[] d n is_live live
live_operands-Updated d n (reg r ∷ ops) is_live live = elim (Bool-cases (ltb n d)) [
  | inl is_def ↦
      Updated-reg_def d n r ops is_live live is_def
        (live_operands-Updated d (suc n) ops (is_live || mem r.name live) (discard r.name live))
  | inr is_use ↦
      let late = defs_from-late d (suc n) ops (ground arith) in
      elim (Bool-cases is_live) [
        | inl alive ↦
            Updated-reg_use d n r ops is_live live is_use alive late
              (live_operands-Updated d (suc n) ops is_live (add r.name live))
        | inr dead ↦ Updated-break d n r ops is_live live is_use dead late
      ]
]
live_operands-Updated d n (const k v ∷ ops) is_live live =
    Updated-skip d n (const k v) ops is_live live refl refl refl
      (live_operands-Updated d (suc n) ops is_live live)
live_operands-Updated d n (func c ∷ ops) is_live live =
    Updated-skip d n (func c) ops is_live live refl refl refl
      (live_operands-Updated d (suc n) ops is_live live)
live_operands-Updated d n (other k ∷ ops) is_live live =
    Updated-skip d n (other k) ops is_live live refl refl refl
      (live_operands-Updated d (suc n) ops is_live live)

pub mem-add_all : (r : ℕ) (xs s : List ℕ) → mem r (add_all xs s) ≡ mem r xs || mem r s
mem-add_all r [] s = ground arith
mem-add_all r (x ∷ xs) s = ground (arith, mem-add_all r xs (add x s), mem-add r x s)
