-- ===== src/Base/Effects.antt =====
-- Base/opcode_tab.py, the side effects that the attributes declare against the kinds.
use cwerg.Prelude.{ℕ, Bool, true, not, ◌||◌, ◌==◌, ◌≡◌, refl, some, all, get_elem?, all-get_elem?}
use cwerg.Base.Kinds.{flags}
use cwerg.Base.Opcode.{Opcode, has_side_effect}
use cwerg.Base.Table.{opcode_table}
use cwerg.Base.Meaning.{changes_machine}
use cwerg.Base.Plain.{declares_effect}
use cwerg.Base.Loaded.{eqb, eqb_path}

abbrev pub is_stack_store : Opcode → Bool
is_stack_store o = o.no == 0xc0 || o.no == 0xc4

effect_test : Opcode → Bool
effect_test o = eqb (declares_effect o) (not (is_stack_store o))

effect_agree : (o : Opcode) → effect_test o ≡ true → declares_effect o ≡ not (is_stack_store o)
unfolding effect_test
effect_agree o h = eqb_path _ _ h

table_effects : all effect_test opcode_table ≡ true
unfolding opcode_table effect_test declares_effect changes_machine has_side_effect flags
table_effects = refl

-- Of the opcodes of the table whose kind changes the machine, a store, a call, a transfer of control
-- or of an argument, all have a side effect by their attributes but `st.stks` and `sts`, the opcodes
-- with the numbers 0xc0 and 0xc4.
pub declares_effect-opcode_table :
    (n : ℕ) (o : Opcode)
    → get_elem? opcode_table n ≡ some o
    → declares_effect o ≡ not (is_stack_store o)
declares_effect-opcode_table n o e =
    effect_agree o (all-get_elem? effect_test opcode_table n table_effects e)
