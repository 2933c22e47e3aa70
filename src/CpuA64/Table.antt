-- ===== src/CpuA64/Table.antt =====
-- CpuA64/opcode_tab.py, the table of A64 instructions, in the order of registration.
pub mod Rows
pub mod Root010
pub mod Root100
pub mod Root101
pub mod Root110Arith
pub mod Root110Memory
pub mod Root110Select
pub mod Root111Arith
pub mod Root111Memory
pub mod Root111Convert
use cwerg.Prelude.{Option, none, some, List, [], ◌∷◌, flat_map}
use cwerg.CpuA64.Opcode.{Opcode, register_all}
use Rows.{Row}
use Root010.{register_arithmetic, exclusives, load_pairs, store_pairs}
use Root100.{float_pairs, immediates, addresses}
use Root101.{branches, conditional_branches, system_calls, hints_and_barriers}
use Root110Arith.{multiplies_and_divides, long_multiplies}
use Root110Memory.{transfers}
use Root110Select.{conditionals, bit_operations}
use Root111Arith.{float_arithmetic, float_moves}
use Root111Memory.{float_loads, float_stores}
use Root111Convert.{float_precisions, float_to_int, int_to_float}

unfoldable pub registrations : List Row
unfolding register_arithmetic exclusives load_pairs store_pairs float_pairs immediates addresses
    branches conditional_branches system_calls hints_and_barriers multiplies_and_divides
    long_multiplies transfers conditionals bit_operations float_arithmetic float_moves float_loads
    float_stores float_precisions float_to_int int_to_float flat_map
registrations =
    flat_map (λ (rows : List Row). rows)
      (register_arithmetic ∷ exclusives ∷ load_pairs ∷ store_pairs ∷ float_pairs ∷ immediates
        ∷ addresses ∷ branches ∷ conditional_branches ∷ system_calls ∷ hints_and_barriers
        ∷ multiplies_and_divides ∷ long_multiplies ∷ transfers ∷ conditionals ∷ bit_operations
        ∷ float_arithmetic ∷ float_moves ∷ float_loads ∷ float_stores ∷ float_precisions
        ∷ float_to_int ∷ int_to_float ∷ [])

-- The table when the module is loaded; `none` would be a failed assertion.
unfoldable pub loaded : Option (List Opcode)
unfolding register_all registrations
loaded = register_all [] registrations

unfoldable pub opcode_table : List Opcode
unfolding loaded
opcode_table = elim loaded [ none ↦ [] | some table ↦ table ]
