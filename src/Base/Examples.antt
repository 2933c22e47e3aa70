-- ===== src/Base/Examples.antt =====
-- Runs of Base/opcode_tab.py and Base/liveness.py at concrete opcodes and blocks.
use cwerg.Prelude.{ℕ, ◌+◌, true, false, ◌≡◌, refl, none, some, List, [], ◌∷◌, all, get_elem?}
use cwerg.Prelude.Int.{pos}
use cwerg.Base.Kinds.{
  OpcKind, flags, s32, reg, reg_or_const, num, same_as_prev, OpKind, Tc, addr, offset, any,
}
use cwerg.Base.Opcode.{
  Opcode, lookup, lookup_no, base, is_call, is_bbl_terminator, has_fallthrough, has_side_effect,
  def_ops_count,
}
use cwerg.Base.Table.{opcode_table}
use cwerg.Base.Loaded.{lookup-opcode_table, attributes-opcode_table, removable-opcode_table}
use cwerg.Base.Ir as Ir
use cwerg.Base.Ir.{Reg, Operand, other, Ins, Bbl, Fun, ins_callee, standing_in}
use cwerg.Base.Liveness.{call_defs, ins_update_liveness, bbl_remove_useless_instructions}
use cwerg.Base.Meaning.{
  Machine, State, run, Agree, hidden_reads, call_reads, return_reads, changes_machine,
}
use cwerg.Prelude.{◌||◌, ◌==◌}
use cwerg.Prelude.{flat_map, All, ◌++◌}
use cwerg.Base.SplitBbl.{
  slice, sub_ranges_loop, bbl_find_sub_ranges, ends_at_last, flat_map-bbl_find_sub_ranges,
  bbl_find_sub_ranges-ends_at_last,
}
use cwerg.Base.DefUse.{bbl_def_use-IsSummary}
use cwerg.Base.Liveness.{bbl_def_use, live_in_of}
use cwerg.Base.Kinds.{
  check_type_constraint, flavor, flavor_a, reg_is_int, int, addr_int, uint, u8, a32,
}
use cwerg.Base.Constraints.{uint_int, check_type_constraint-Wider, check_type_constraint-int}
use cwerg.Base.Plain.{is_plain, is_explicit, declares_effect, all-is_explicit}
use cwerg.Base.Effects.{declares_effect-opcode_table}
use cwerg.Base.Removal.{bbl_remove_useless_instructions-Agree}

abbrev pub add_opcode : Opcode
add_opcode = record {
  no = 0x10;
  name = "add";
  kind = OpcKind.alu;
  operand_kinds = reg ∷ reg_or_const ∷ reg_or_const ∷ [];
  constraints = num ∷ same_as_prev ∷ same_as_prev ∷ [];
  group = base;
  attributes = 8;
}

-- The entry that was made last stands first.
entry_add : get_elem? opcode_table 81 ≡ some add_opcode
unfolding opcode_table
entry_add = refl

lookup-opcode_table_example :
    (lookup opcode_table "add" ≡ some add_opcode) × (lookup_no opcode_table 0x10 ≡ some add_opcode)
lookup-opcode_table_example = lookup-opcode_table 81 add_opcode entry_add

attributes-opcode_table_example :
    (is_call add_opcode ≡ false)
    × (is_bbl_terminator add_opcode ≡ false)
    × (has_fallthrough add_opcode ≡ true)
attributes-opcode_table_example = attributes-opcode_table 81 add_opcode entry_add

add_pure : has_side_effect add_opcode ≡ false
unfolding has_side_effect flags
add_pure = refl

removable-opcode_table_example : def_ops_count add_opcode ≡ 1
removable-opcode_table_example = removable-opcode_table 81 add_opcode entry_add refl add_pure refl

declares_effect-opcode_table_example : declares_effect add_opcode ≡ true
declares_effect-opcode_table_example = declares_effect-opcode_table 81 add_opcode entry_add

abbrev pub register : ℕ → Operand
register n = Ir.reg (record { name = n; kind = s32; cpu_reg = none })

abbrev pub three_adds : List Ins
three_adds =
    record { opcode = add_opcode; operands = register 1 ∷ register 2 ∷ Ir.const s32 (pos 5) ∷ [] }
    ∷ record { opcode = add_opcode; operands = register 3 ∷ register 1 ∷ register 2 ∷ [] }
    ∷ record { opcode = add_opcode; operands = register 4 ∷ register 3 ∷ register 3 ∷ [] }
    ∷ []

-- Register 3 is used after the block, so that the last addition is useless.
abbrev block : Bbl
block = record { inss = three_adds; live_out = 3 ∷ [] }

abbrev pub no_regs : Fun
no_regs = record { regs = []; cpu_live_out = [] }

abbrev pub sum : List ℕ → ℕ
sum [] = 0
sum (n ∷ ns) = n + sum ns

-- Each instruction writes the sum of what it reads.
abbrev pub summing : Machine ℕ (List ℕ)
summing = record { result = λ ins vs w r. sum vs; effect = λ ins vs w. vs }

abbrev ret_opcode : Opcode
ret_opcode = record {
  no = 0x2a;
  name = "ret";
  kind = OpcKind.ret;
  operand_kinds = [];
  constraints = [];
  group = base;
  attributes = 3;
}

abbrev st_opcode : Opcode
st_opcode = record {
  no = 0x48;
  name = "st";
  kind = OpcKind.st;
  operand_kinds = reg ∷ reg_or_const ∷ reg_or_const ∷ [];
  constraints = addr ∷ offset ∷ any ∷ [];
  group = base;
  attributes = 32;
}

abbrev bsr_opcode : Opcode
bsr_opcode = record {
  no = 0x2b;
  name = "bsr";
  kind = OpcKind.bsr;
  operand_kinds = OpKind.func ∷ [];
  constraints = Tc.invalid ∷ [];
  group = base;
  attributes = 4;
}

-- Register 5 stands in the CPU register 0, in which the callee leaves its result.
abbrev with_result : Fun
with_result = record {
  regs = record { name = 5; kind = s32; cpu_reg = some 0 } ∷ [];
  cpu_live_out = 2 ∷ [];
}

-- the three additions, a store of register 4, a call and a return
abbrev with_effects : List Ins
with_effects =
    three_adds
    ++ record { opcode = st_opcode; operands = register 6 ∷ Ir.const s32 (pos 0) ∷ register 4 ∷ [] }
      ∷ record {
        opcode = bsr_opcode;
        operands =
            Ir.func (record {
              cpu_live_in = 1 ∷ [];
              cpu_live_out = 0 ∷ [];
              cpu_live_clobber = 0 ∷ 3 ∷ [];
            })
            ∷ [];
      }
      ∷ record { opcode = ret_opcode; operands = [] }
      ∷ []

-- The result of the call is used after the block.
abbrev busy_block : Bbl
busy_block = record { inss = with_effects; live_out = 5 ∷ [] }

effects_plain : all (is_plain with_result) with_effects ≡ true
unfolding is_plain hidden_reads call_reads return_reads changes_machine is_call has_side_effect
    flags ins_callee standing_in flat_map
effects_plain = refl

effects_explicit : all (is_explicit with_result) with_effects ≡ true
effects_explicit = all-is_explicit with_result with_effects effects_plain

bbl_remove_useless_instructions-Agree_example :
    (new : Bbl) × (bbl_remove_useless_instructions with_result busy_block ≡ some new)
    × (new.live_out ≡ 5 ∷ [])
    × ((s : State ℕ (List ℕ))
        → Agree
            (5 ∷ [])
            (run summing with_result with_effects s)
            (run summing with_result new.inss s))
bbl_remove_useless_instructions-Agree_example =
    bbl_remove_useless_instructions-Agree summing with_result busy_block effects_plain

-- Two of the three instructions are kept.
two_kept :
    bbl_remove_useless_instructions no_regs block
    ≡ some (record {
      inss =
          record {
            opcode = add_opcode;
            operands = register 1 ∷ register 2 ∷ Ir.const s32 (pos 5) ∷ [];
          }
          ∷ record { opcode = add_opcode; operands = register 3 ∷ register 1 ∷ register 2 ∷ [] }
          ∷ [];
      live_out = 3 ∷ [];
    })
unfolding bbl_remove_useless_instructions ins_update_liveness call_defs is_call has_side_effect
    flags def_ops_count
two_kept = refl

bbl_def_use-IsSummary_example :
    (sets : List ℕ × List ℕ) × (bbl_def_use with_result busy_block ≡ some sets)
    × ((live_out : List ℕ) (s s' : State ℕ (List ℕ))
        → Agree (live_in_of sets live_out) s s'
        → Agree live_out
            (run summing with_result with_effects s)
            (run summing with_result with_effects s'))
bbl_def_use-IsSummary_example =
    bbl_def_use-IsSummary summing with_result busy_block effects_explicit

uint_meets_int : check_type_constraint s32 uint u8 ≡ some true
unfolding check_type_constraint flavor
uint_meets_int = refl

check_type_constraint-Wider_example : check_type_constraint s32 int u8 ≡ some true
check_type_constraint-Wider_example = check_type_constraint-Wider s32 uint_int u8 uint_meets_int

check_type_constraint-int_example :
    (check_type_constraint s32 int a32 ≡ some (reg_is_int a32))
    × (check_type_constraint s32 addr_int a32 ≡ some (reg_is_int a32 || (flavor a32 == flavor_a)))
check_type_constraint-int_example = check_type_constraint-int s32 a32

-- an addition, a return and the three additions
abbrev with_return : List Ins
with_return =
    record { opcode = add_opcode; operands = [] }
    ∷ record { opcode = ret_opcode; operands = [] }
    ∷ three_adds

two_pieces : bbl_find_sub_ranges with_return ≡ (0, 2) ∷ (2, 5) ∷ []
unfolding bbl_find_sub_ranges sub_ranges_loop is_bbl_terminator
two_pieces = refl

flat_map-bbl_find_sub_ranges_example :
    flat_map (slice with_return) (bbl_find_sub_ranges with_return) ≡ with_return
flat_map-bbl_find_sub_ranges_example = flat_map-bbl_find_sub_ranges with_return

bbl_find_sub_ranges-ends_at_last_example :
    All (λ r. ends_at_last (slice with_return r) ≡ true) (bbl_find_sub_ranges with_return)
bbl_find_sub_ranges-ends_at_last_example = bbl_find_sub_ranges-ends_at_last with_return
