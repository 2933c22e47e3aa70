-- ===== src/Base/DefUse.antt =====
-- Base/liveness.py, `_BblDefUse` and the `live_in` of `_FunLivenessFixpoint` against the meaning of a
-- block.
use mathlib.Core.List.{reverse_aux, reverse-reverse}
use cwerg.Prelude.{
  ℕ, suc, true, false, not, ◌&&◌, ◌||◌, ◌≡◌, refl, ap, sym, subst, ◌∙◌, some, List, [], ◌∷◌,
  reverse, all, ltb, Bool-cases, inl, inr, and_true, arith,
}
use cwerg.Base.Opcode.{def_ops_count}
use cwerg.Base.Ir.{
  Reg, Operand, reg, const, func, other, Ins, Bbl, Fun, mem, discard, add, discard_all, add_all,
}
use cwerg.Base.Liveness.{
  def_use_operands, ins_update_def_use, def_use_loop, bbl_def_use, live_in_of,
}
use cwerg.Base.Sets.{
  defs_from, uses_from, defs_from-late, mem-discard, mem-add, mem-discard_all, mem-add_all,
}
use cwerg.Base.Meaning.{defs_of, uses_of, results_of, Machine, State, exec, run, Agree, exec-Agree}
use cwerg.Base.Plain.{
  is_explicit, is_explicit-has_callee, is_explicit-hidden_reads, all-reverse_aux,
}
use cwerg.Base.Removal.{call_defs-some}

-- What the loop over the operands makes of the two sets.
abbrev Collected : ℕ → ℕ → List Operand → List ℕ × List ℕ → List ℕ × List ℕ → Type 0
Collected d n ops (defs, uses) (defs', uses') =
    ((r : ℕ) → mem r (uses_from d n ops) ≡ true → mem r uses' ≡ true)
    × ((r : ℕ) → mem r uses ≡ true → (mem r uses' || mem r (defs_from d n ops)) ≡ true)
    × ((r : ℕ) → mem r defs' ≡ true → (mem r defs || mem r (defs_from d n ops)) ≡ true)

module _ (d n : ℕ) (r : Reg) (ops : List Operand) (defs uses : List ℕ) where
  Collected-def :
      ltb n d ≡ true
      → Collected d
          (suc n)
          ops
          (add r.name defs, discard r.name uses)
          (def_use_operands d (suc n) ops (add r.name defs, discard r.name uses))
      → Collected d n (reg r ∷ ops) (defs, uses) (def_use_operands d n (reg r ∷ ops) (defs, uses))
  unfolding def_use_operands defs_from uses_from
  Collected-def is_def (a, b, c) =
      let step : def_use_operands d n (reg r ∷ ops) (defs, uses)
          ≡ def_use_operands d (suc n) ops (add r.name defs, discard r.name uses) =
        rw is_def in
      let e : defs_from d n (reg r ∷ ops) ≡ r.name ∷ defs_from d (suc n) ops = rw is_def in
      let e' : uses_from d n (reg r ∷ ops) ≡ uses_from d (suc n) ops = rw is_def in
      subst (Collected d n (reg r ∷ ops) (defs, uses)) (sym step) (
        λ q h. a q (ground (arith, ap (mem q) e')),
        λ q h. ground (arith, b q, mem-discard q r.name uses, ap (mem q) e),
        λ q h. ground (arith, c q h, mem-add q r.name defs, ap (mem q) e),
      )

  Collected-use :
      ltb n d ≡ false
      → defs_from d (suc n) ops ≡ []
      → Collected d
          (suc n)
          ops
          (defs, add r.name uses)
          (def_use_operands d (suc n) ops (defs, add r.name uses))
      → Collected d n (reg r ∷ ops) (defs, uses) (def_use_operands d n (reg r ∷ ops) (defs, uses))
  unfolding def_use_operands defs_from uses_from
  Collected-use is_use late (a, b, c) =
      let step : def_use_operands d n (reg r ∷ ops) (defs, uses)
          ≡ def_use_operands d (suc n) ops (defs, add r.name uses) =
        rw is_use in
      let e : defs_from d n (reg r ∷ ops) ≡ defs_from d (suc n) ops = rw is_use in
      let e' : uses_from d n (reg r ∷ ops) ≡ r.name ∷ uses_from d (suc n) ops = rw is_use in
      subst (Collected d n (reg r ∷ ops) (defs, uses)) (sym step) (
        λ q h. ground (arith, a q, b q, mem-add q r.name uses, ap (mem q) e', ap (mem q) late),
        λ q h. ground (arith, b q, mem-add q r.name uses, ap (mem q) e),
        λ q h. ground (arith, c q h, ap (mem q) e),
      )

def_use_operands-Collected :
    (d n : ℕ) (ops : List Operand) (defs uses : List ℕ)
    → Collected d n ops (defs, uses) (def_use_operands d n ops (defs, uses))
unfolding def_use_operands defs_from uses_from
def_use_operands-Collected d n [] defs uses = (λ r h. cc, λ r h. ground arith, λ r h. ground arith)
def_use_operands-Collected d n (reg r ∷ ops) defs uses = elim (Bool-cases (ltb n d)) [
  | inl is_def ↦
      Collected-def d n r ops defs uses is_def
        (def_use_operands-Collected d (suc n) ops (add r.name defs) (discard r.name uses))
  | inr is_use ↦
      Collected-use d n r ops defs uses is_use (defs_from-late d (suc n) ops (ground arith))
        (def_use_operands-Collected d (suc n) ops defs (add r.name uses))
]
def_use_operands-Collected d n (const k v ∷ ops) defs uses =
    def_use_operands-Collected d (suc n) ops defs uses
def_use_operands-Collected d n (func c ∷ ops) defs uses =
    def_use_operands-Collected d (suc n) ops defs uses
def_use_operands-Collected d n (other k ∷ ops) defs uses =
    def_use_operands-Collected d (suc n) ops defs uses

-- what `_InsUpdateDefUse` returns
abbrev collected : Fun → Ins → List ℕ × List ℕ → List ℕ × List ℕ
collected f ins (defs, uses) =
    def_use_operands (def_ops_count ins.opcode) 0 ins.operands
      (add_all (results_of f ins) defs, discard_all (results_of f ins) uses)

module _ {V W : Type 0} (m : Machine V W) (f : Fun) where
  -- Agreement on `live_in` before the instructions gives agreement on the live registers after them.
  abbrev IsSummary : List ℕ × List ℕ → List Ins → Type 0
  IsSummary sets inss =
      (live_out : List ℕ) (s s' : State V W)
      → Agree (live_in_of sets live_out) s s'
      → Agree live_out (run m f inss s) (run m f inss s')

  mem-live_in_of :
      (r : ℕ) (defs uses live_out : List ℕ)
      → mem r (live_in_of (defs, uses) live_out) ≡ mem r uses || not (mem r defs) && mem r live_out
  unfolding live_in_of
  mem-live_in_of r defs uses live_out =
      mem-add_all r uses (discard_all defs live_out)
      ∙ ap (λ b. mem r uses || b) (mem-discard_all r defs live_out)

  module _ (ins : Ins) (defs uses live_out : List ℕ) where
    sets' : List ℕ × List ℕ
    sets' = collected f ins (defs, uses)

    reads_in : (r : ℕ) → mem r (uses_of ins) ≡ true → mem r (live_in_of sets' live_out) ≡ true
    unfolding sets'
    reads_in r h =
        let (a, _, _) =
          def_use_operands-Collected (def_ops_count ins.opcode) 0 ins.operands
            (add_all (results_of f ins) defs) (discard_all (results_of f ins) uses) in
        ground (arith, a r h, mem-live_in_of r sets'.0 sets'.1 live_out)

    rest_in :
        (r : ℕ)
        → mem r (live_in_of (defs, uses) live_out) ≡ true
        → (mem r (live_in_of sets' live_out) || (mem r (results_of f ins) || mem r (defs_of ins)))
          ≡ true
    unfolding sets'
    rest_in r h =
        let (_, b, c) =
          def_use_operands-Collected (def_ops_count ins.opcode) 0 ins.operands
            (add_all (results_of f ins) defs) (discard_all (results_of f ins) uses) in
        ground (
          arith,
          b r,
          c r,
          mem-live_in_of r sets'.0 sets'.1 live_out,
          mem-live_in_of r defs uses live_out,
          mem-discard_all r (results_of f ins) uses,
          mem-add_all r (results_of f ins) defs,
        )

  IsSummary-∷ :
      (ins : Ins) (inss : List Ins) (sets : List ℕ × List ℕ)
      → is_explicit f ins ≡ true
      → IsSummary sets inss
      → IsSummary (collected f ins sets) (ins ∷ inss)
  unfolding run sets'
  IsSummary-∷ ins inss (defs, uses) explicit summary live_out s s' agree =
      summary live_out (exec m f ins s) (exec m f ins s') (
        exec-Agree m f ins (live_in_of (defs, uses) live_out)
          (live_in_of (collected f ins (defs, uses)) live_out) s s'
          (is_explicit-hidden_reads f ins explicit) (reads_in ins defs uses live_out)
          (rest_in ins defs uses live_out) agree)

  IsSummary-[] : IsSummary ([], []) []
  unfolding run live_in_of
  IsSummary-[] live_out s s' agree = agree

loop_step :
    (f : Fun) (ins : Ins) (inss : List Ins) (sets : List ℕ × List ℕ)
    → is_explicit f ins ≡ true
    → def_use_loop f (ins ∷ inss) sets ≡ def_use_loop f inss (collected f ins sets)
unfolding def_use_loop ins_update_def_use
loop_step f ins inss (defs, uses) explicit =
    rw (call_defs-some f ins (is_explicit-has_callee f ins explicit))

def_use_loop-IsSummary :
    {V W : Type 0} (m : Machine V W) (f : Fun) (inss after : List Ins) (sets : List ℕ × List ℕ)
    → all (is_explicit f) inss ≡ true
    → IsSummary m f sets after
    → (sets' : List ℕ × List ℕ) × (def_use_loop f inss sets ≡ some sets')
      × IsSummary m f sets' (reverse_aux inss after)
unfolding def_use_loop
def_use_loop-IsSummary m f [] after sets explicit summary = (sets, refl, summary)
def_use_loop-IsSummary m f (ins ∷ inss) after sets explicit summary =
    let (here, rest) = and_true (is_explicit f ins) (all (is_explicit f) inss) explicit in
    let (sets', done, summary') =
      def_use_loop-IsSummary m f inss (ins ∷ after) (collected f ins sets) rest
        (IsSummary-∷ m f ins after sets here summary) in
    (sets', loop_step f ins inss sets here ∙ done, summary')

-- If each call of a block names its callee, and no register of the function stands in a CPU register in
-- which a callee takes its parameters or, where the block has a `ret`, in which the function leaves its
-- results, then the sets that `_BblDefUse` computes exist, and for each `live_out` two states that agree
-- on the registers of the `live_in` made from them are taken by the block to states that agree on
-- `live_out`, whatever the instructions compute.
pub bbl_def_use-IsSummary :
    {V W : Type 0} (m : Machine V W) (f : Fun) (bbl : Bbl)
    → all (is_explicit f) bbl.inss ≡ true
    → (sets : List ℕ × List ℕ) × (bbl_def_use f bbl ≡ some sets)
      × ((live_out : List ℕ) (s s' : State V W)
          → Agree (live_in_of sets live_out) s s'
          → Agree live_out (run m f bbl.inss s) (run m f bbl.inss s'))
unfolding bbl_def_use
bbl_def_use-IsSummary m f bbl explicit =
    let (sets, done, summary) =
      def_use_loop-IsSummary m f (reverse bbl.inss) [] ([], [])
        (all-reverse_aux (is_explicit f) bbl.inss [] explicit refl) (IsSummary-[] m f) in
    (sets, done, subst (IsSummary m f sets) (reverse-reverse bbl.inss) summary)
