-- ===== src/Base/FlowExamples.antt =====
-- Runs of Base/liveness.py on a function with a loop, and of the constants of Base/ir.py.
use cwerg.Prelude.{
  ℕ, zero, suc, ◌≡◌, refl, sym, subst, true, false, Option, none, some, List, [], ◌∷◌, ◌≤◌, ◌<◌,
  arith, ◌^◌,
}
use cwerg.Prelude.Int.{pos, negsuc}
use cwerg.Base.Kinds.{s8, u8, reg_is_int, flavor, bitwidth, flags}
use cwerg.Base.Ir.{Bbl, mem}
use cwerg.Base.Liveness.{call_defs, live_in_of, bbl_def_use, ins_update_def_use}
use cwerg.Base.Opcode.{is_call, def_ops_count}
use cwerg.Base.Finite.{Subset}
use cwerg.Base.Fixpoint.{Flow, AllLiveness, fun_liveness_fixpoint}
use cwerg.Base.Fixpoint.Invariant.{transfer, IsClosed}
use cwerg.Base.Fixpoint.Solution.{
  IsWellFormed, fun_liveness_fixpoint-solves, fun_liveness_fixpoint-least,
}
use cwerg.Base.Function.{
  FunBody, bbls_def_use, fun_compute_liveness_info, fun_remove_useless_instructions, run_fun,
}
use cwerg.Base.Function.Preserved.{fuel_for, fun_remove_useless_instructions-run_fun}
use cwerg.Base.Plain.{is_plain, all_plain}
use cwerg.Base.Meaning.{State, hidden_reads, call_reads, return_reads, changes_machine}
use cwerg.Base.Examples.{add_opcode, register, no_regs, summing, three_adds}
use cwerg.Base.Const.{
  Const, convert_int_value, parse_int_const, offset_const, is_int_power_of_two, int_binary_log,
}
use cwerg.Base.Const.Ranges.{Fits}
use cwerg.Base.Const.Convert.{Converts, convert_int_value-Fits}
use cwerg.Base.Const.Read.{parse_int_const-Fits}
use cwerg.Base.Const.Offset.{offset_const-parse_int_const, offset_const-none}
use cwerg.Base.Const.Powers.{is_int_power_of_two-int_binary_log}

-- Block 1 follows blocks 0 and 1. Block 0 defines register 1, and block 1 uses 1 and 2.
abbrev preds : ℕ → List ℕ
preds (suc zero) = 0 ∷ 1 ∷ []
preds _ = []

abbrev sets_of : ℕ → List ℕ × List ℕ
sets_of zero = (1 ∷ [], [])
sets_of (suc zero) = (3 ∷ [], 1 ∷ 2 ∷ [])
sets_of _ = ([], [])

abbrev looping : Flow
looping = record { count = 2; edge_in = preds; def_use = sets_of }

abbrev both : List ℕ
both = 1 ∷ 2 ∷ []

preds-below : (b p : ℕ) → mem p (preds b) ≡ true → p < 2
preds-below zero p h = absurd (ground arith)
preds-below (suc zero) p h = ground arith
preds-below (suc (suc b)) p h = absurd (ground arith)

sets_of-both : (b : ℕ) → Subset (sets_of b).1 both
sets_of-both zero r h = absurd (ground arith)
sets_of-both (suc zero) r h = h
sets_of-both (suc (suc b)) r h = absurd (ground arith)

looping-IsWellFormed : IsWellFormed looping both
looping-IsWellFormed = record { edges = preds-below; uses = sets_of-both }

fun_liveness_fixpoint-solves_example :
    (live : AllLiveness) × (fun_liveness_fixpoint 14 looping ≡ some live)
    × ((b r : ℕ) → b < 2 → mem r (live.live_in b) ≡ mem r (transfer looping b (live.live_out b)))
    × ((b p : ℕ) → mem p (preds b) ≡ true → Subset (live.live_in b) (live.live_out p))
fun_liveness_fixpoint-solves_example =
    fun_liveness_fixpoint-solves looping both 14 looping-IsWellFormed (omega arith)

shrunk : transfer looping 1 both ≡ 1 ∷ 2 ∷ []
unfolding live_in_of
shrunk = refl

bound-IsClosed : IsClosed looping (λ b. both)
bound-IsClosed zero p edge = absurd (ground arith)
bound-IsClosed (suc zero) p edge = subst (λ t. Subset t both) (sym shrunk) (λ r h. h)
bound-IsClosed (suc (suc b)) p edge = absurd (ground arith)

solution :
    (live : AllLiveness) × (fun_liveness_fixpoint 14 looping ≡ some live)
    × ((b r : ℕ) → b < 2 → mem r (live.live_in b) ≡ mem r (transfer looping b (live.live_out b)))
    × ((b p : ℕ) → mem p (preds b) ≡ true → Subset (live.live_in b) (live.live_out p))
solution = fun_liveness_fixpoint-solves looping both 14 looping-IsWellFormed (omega arith)

fun_liveness_fixpoint-least_example : Subset (solution.0.live_out 0) both
fun_liveness_fixpoint-least_example =
    fun_liveness_fixpoint-least looping 14 solution.0 (λ b. both) bound-IsClosed solution.1 0

-- The function of these two blocks goes round the second one for ever.
abbrev two_blocks : List Bbl
two_blocks =
    record { inss = three_adds; live_out = [] }
    ∷ record {
      inss =
          record { opcode = add_opcode; operands = register 1 ∷ register 1 ∷ register 2 ∷ [] } ∷ [];
      live_out = [];
    }
    ∷ []

abbrev next : ℕ → List ℕ → Option ℕ
next zero w = some 1
next (suc zero) w = some 1
next _ w = none

next-along : (b c : ℕ) (w : List ℕ) → next b w ≡ some c → (c < 2) × (mem b (preds c) ≡ true)
next-along zero zero w h = cc
next-along zero (suc zero) w h = (omega arith, refl)
next-along zero (suc (suc c)) w h = cc
next-along (suc zero) zero w h = cc
next-along (suc zero) (suc zero) w h = (omega arith, refl)
next-along (suc zero) (suc (suc c)) w h = cc
next-along (suc (suc b)) c w h = cc

plain : all_plain no_regs two_blocks ≡ true
unfolding is_plain hidden_reads call_reads return_reads changes_machine is_call flags
plain = refl

fuel_16 : fuel_for no_regs two_blocks ≤ 20
unfolding bbls_def_use bbl_def_use is_call call_defs def_ops_count ins_update_def_use
fuel_16 = omega arith

abbrev looping_body : FunBody
looping_body = record { bbls = two_blocks; liveness_valid = false }

fun_remove_useless_instructions-run_fun_example :
    (mid : FunBody) × (new : FunBody) × (fun_compute_liveness_info 20 no_regs looping_body
        (1 ∷ [])
        preds
      ≡ some mid)
    × (fun_remove_useless_instructions no_regs mid ≡ some new)
    × ((steps : ℕ) (s : State ℕ (List ℕ))
        → run_fun summing no_regs next two_blocks steps 0 s
          ≡ run_fun summing no_regs next new.bbls steps 0 s)
fun_remove_useless_instructions-run_fun_example =
    fun_remove_useless_instructions-run_fun summing no_regs next looping_body (1 ∷ []) preds 20 refl
      plain next-along preds-below fuel_16

abbrev minus_one : Const
minus_one = record { kind = s8; value = negsuc 0 }

minus_one-Fits : Fits s8 (negsuc 0)
unfolding flavor bitwidth
minus_one-Fits = (omega arith, omega arith)

int_u8 : reg_is_int u8 ≡ true
unfolding reg_is_int
int_u8 = refl

int_s8 : reg_is_int s8 ≡ true
unfolding reg_is_int
int_s8 = refl

convert_int_value-Fits_example : Converts u8 minus_one (convert_int_value u8 minus_one)
convert_int_value-Fits_example = convert_int_value-Fits u8 minus_one int_u8 int_s8 minus_one-Fits

parse_int_const-Fits_example :
    (parse_int_const (pos 200) u8 ≡ some (record { kind = u8; value = pos 200 })
      → Fits u8 (pos 200))
    × (Fits u8 (pos 200)
        → parse_int_const (pos 200) u8 ≡ some (record { kind = u8; value = pos 200 }))
parse_int_const-Fits_example = parse_int_const-Fits (pos 200) u8 int_u8

offset_const-parse_int_const_example :
    (c : Const) × (offset_const (pos 200) ≡ some c)
    × (c.value ≡ pos 200)
    × (parse_int_const (pos 200) c.kind ≡ some c)
offset_const-parse_int_const_example =
    offset_const-parse_int_const (pos 200) (omega arith, omega arith)

offset_const-none_example : offset_const (pos (2 ^ 63)) ≡ none
offset_const-none_example = offset_const-none (pos (2 ^ 63)) (λ h. absurd (omega arith))

abbrev sixteen : Const
sixteen = record { kind = u8; value = pos 16 }

one_bit : is_int_power_of_two sixteen ≡ true
unfolding is_int_power_of_two
one_bit = refl

is_int_power_of_two-int_binary_log_example :
    (k : ℕ) × (int_binary_log sixteen ≡ some k) × (pos 16 ≡ pos (2 ^ k))
is_int_power_of_two-int_binary_log_example = is_int_power_of_two-int_binary_log sixteen one_bit refl
