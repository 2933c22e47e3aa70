-- ===== src/CpuA32/Table/Rows.antt =====
-- The notation of the instruction tables: `Opcode(...)` with the default arguments.
use Prim.Native.String.{String}
use cwerg.Prelude.{true, Option, List}
use cwerg.CpuA32.Fields.{OperandKind}
use cwerg.CpuA32.Pack.{NatPattern}
use cwerg.CpuA32.Opcode.{OpcFlag, SrUpdate, unchanged, MemWidth, na, Opcode, init}

-- a registration, which an assertion may stop
abbrev pub Row : Type 0
Row = Option Opcode

module _ (name variant : String) (bits : List NatPattern) (fields : List OperandKind)
    (classes : List OpcFlag) where
  unfoldable pub opcode : Row
  unfolding init
  opcode = init name variant bits fields classes true na unchanged

  unfoldable pub opcode_sr : SrUpdate → Row
  unfolding init
  opcode_sr sr_update = init name variant bits fields classes true na sr_update

  unfoldable pub opcode_mem : MemWidth → Row
  unfolding init
  opcode_mem mem_width = init name variant bits fields classes true mem_width unchanged

abbrev pub root00 : NatPattern
root00 = (3, 0, 26)

abbrev pub root01 : NatPattern
root01 = (3, 1, 26)

abbrev pub root10 : NatPattern
root10 = (3, 2, 26)

abbrev pub root11 : NatPattern
root11 = (3, 3, 26)
