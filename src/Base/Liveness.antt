-- ===== src/Base/Liveness.antt =====
-- Base/liveness.py: the registers that instructions and blocks define and use, and the removal of
-- useless instructions.
use cwerg.Prelude.{
  ℕ, suc, Bool, ◌||◌, Option, some, List, [], ◌∷◌, reverse, ltb, if◌then◌else◌, ◌>>=◌,
}
use cwerg.Base.Opcode.{is_call, has_side_effect, def_ops_count}
use cwerg.Base.Ir.{
  Operand, reg, Ins, Bbl, Fun, mem, discard, add, discard_all, add_all, ins_callee, call_results,
}

-- What a call writes by the code at the head of `_InsUpdateDefUse` and `_InsUpdateLiveness`.
unfoldable pub call_defs : Fun → Ins → Option (List ℕ)
call_defs f ins =
    if is_call ins.opcode
    then (do callee ← ins_callee ins; some (call_results f callee))
    else some []

-- The loop of `_InsUpdateDefUse` over the operands; the pair is `defs`, `uses`.
unfoldable pub def_use_operands : ℕ → ℕ → List Operand → List ℕ × List ℕ → List ℕ × List ℕ
def_use_operands num_defs n [] sets = sets
def_use_operands num_defs n (reg r ∷ ops) (defs, uses) =
    def_use_operands num_defs (suc n) ops
      (if ltb n num_defs then (add r.name defs, discard r.name uses) else (defs, add r.name uses))
def_use_operands num_defs n (op ∷ ops) sets = def_use_operands num_defs (suc n) ops sets

-- `_InsUpdateDefUse`
unfoldable pub ins_update_def_use : Fun → Ins → List ℕ × List ℕ → Option (List ℕ × List ℕ)
unfolding call_defs def_use_operands
ins_update_def_use f ins (defs, uses) = do
  written ← call_defs f ins
  some (
      def_use_operands (def_ops_count ins.opcode) 0 ins.operands
        (add_all written defs, discard_all written uses))

-- The loop of `_BblDefUse` over the reversed instructions.
unfoldable pub def_use_loop : Fun → List Ins → List ℕ × List ℕ → Option (List ℕ × List ℕ)
def_use_loop f [] sets = some sets
def_use_loop f (ins ∷ inss) sets = do
  sets' ← ins_update_def_use f ins sets
  def_use_loop f inss sets'

-- `_BblDefUse`
unfoldable pub bbl_def_use : Fun → Bbl → Option (List ℕ × List ℕ)
unfolding def_use_loop
bbl_def_use f bbl = def_use_loop f (reverse bbl.inss) ([], [])

-- `live_in` of a block in `_FunLivenessFixpoint`; the pair is `live_def`, `live_use`.
unfoldable pub live_in_of : List ℕ × List ℕ → List ℕ → List ℕ
live_in_of (live_def, live_use) live_out = add_all live_use (discard_all live_def live_out)

-- The loop of `_InsUpdateLiveness` over the operands, with its `break`.
unfoldable pub live_operands : ℕ → ℕ → Bool → List Operand → List ℕ → Bool × List ℕ
live_operands num_defs n is_live [] live_out = (is_live, live_out)
live_operands num_defs n is_live (reg r ∷ ops) live_out =
    let after_def =
      live_operands num_defs (suc n) (is_live || mem r.name live_out) ops
        (discard r.name live_out) in
    let after_use = live_operands num_defs (suc n) is_live ops (add r.name live_out) in
    if ltb n num_defs then after_def else if is_live then after_use else (is_live, live_out)
live_operands num_defs n is_live (op ∷ ops) live_out =
    live_operands num_defs (suc n) is_live ops live_out

-- `_InsUpdateLiveness`: whether the instruction is live, and `live_out` as it leaves it.
unfoldable pub ins_update_liveness : Fun → Ins → List ℕ → Option (Bool × List ℕ)
unfolding call_defs live_operands
ins_update_liveness f ins live_out = do
  written ← call_defs f ins
  some (
      live_operands (def_ops_count ins.opcode) 0 (has_side_effect ins.opcode) ins.operands
        (discard_all written live_out))

-- The loop of `_BblRemoveUselessInstructions` over the reversed instructions; the result is `keep`.
unfoldable pub removal_loop : Fun → List Ins → List ℕ → Option (List Ins)
removal_loop f [] live_out = some []
removal_loop f (ins ∷ inss) live_out = do
  out ← ins_update_liveness f ins live_out
  keep ← removal_loop f inss out.1
  some (if out.0 then ins ∷ keep else keep)

-- `_BblRemoveUselessInstructions`, which leaves `bbl.live_out` as it is
unfoldable pub bbl_remove_useless_instructions : Fun → Bbl → Option Bbl
unfolding removal_loop
bbl_remove_useless_instructions f bbl = do
  keep ← removal_loop f (reverse bbl.inss) bbl.live_out
  some (record { inss = reverse keep; live_out = bbl.live_out })
