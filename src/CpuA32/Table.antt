-- ===== src/CpuA32/Table.antt =====
-- CpuA32/opcode_tab.py, the table of A32 instructions, in the order of registration.
pub mod Rows
pub mod Root00
pub mod Root01
pub mod Root11
use cwerg.Prelude.{Option, none, some, List, [], ◌++◌}
use cwerg.CpuA32.Opcode.{Opcode, register_all}
use Rows.{Row}
use Root00.{
  multiplies, exclusives, halfword_transfers, alu_opcodes, swaps_and_branches, test_opcodes,
  move_opcodes,
}
use Root01.{divides, extends, word_transfers, block_transfers_and_branches}
use Root11.{vfp_transfers, vfp_conversions, vfp_arithmetic, vfp_blocks}

unfoldable pub registrations : List Row
unfolding multiplies exclusives halfword_transfers alu_opcodes swaps_and_branches test_opcodes
    move_opcodes divides extends word_transfers block_transfers_and_branches vfp_transfers
    vfp_conversions vfp_arithmetic vfp_blocks
registrations =
    multiplies
    ++ (exclusives
        ++ (halfword_transfers
            ++ (alu_opcodes
                ++ (swaps_and_branches
                    ++ (test_opcodes
                        ++ (move_opcodes
                            ++ (divides
                                ++ (extends
                                    ++ (word_transfers
                                        ++ (block_transfers_and_branches
                                            ++ (vfp_transfers
                                                ++ (vfp_conversions
                                                    ++ (vfp_arithmetic ++ vfp_blocks)))))))))))))

-- The table when the module is loaded; `none` would be a failed assertion.
unfoldable pub loaded : Option (List Opcode)
unfolding register_all registrations
loaded = register_all [] registrations

unfoldable pub opcode_table : List Opcode
unfolding loaded
opcode_table = elim loaded [ none ↦ [] | some table ↦ table ]
