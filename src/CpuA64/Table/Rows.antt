-- ===== src/CpuA64/Table/Rows.antt =====
-- The notation of the A64 instruction tables: `Opcode(...)` with the default arguments.
use Prim.Native.String.{String}
use cwerg.Prelude.{ℕ, Option, List, [], ◌∷◌}
use cwerg.CpuA32.Pack.{NatPattern}
use cwerg.CpuA32.Opcode.{unchanged, nz, na}
use cwerg.CpuA64.Fields.{OperandKind}
use cwerg.CpuA64.Opcode.{OpcFlag, Opcode, init}

-- a registration, which an assertion may stop
abbrev pub Row : Type 0
Row = Option Opcode

module _ (name variant : String) (bits : List NatPattern) (fields : List OperandKind)
    (classes : List OpcFlag) where
  unfoldable pub opcode : Row
  unfolding init
  opcode = init name variant bits fields classes na unchanged

  unfoldable pub opcode_nz : Row
  unfolding init
  opcode_nz = init name variant bits fields classes na nz

abbrev pub root010 : NatPattern
root010 = (7, 2, 26)

abbrev pub root011 : NatPattern
root011 = (7, 3, 26)

abbrev pub root100 : NatPattern
root100 = (7, 4, 26)

abbrev pub root101 : NatPattern
root101 = (7, 5, 26)

abbrev pub root110 : NatPattern
root110 = (7, 6, 26)

abbrev pub root111 : NatPattern
root111 = (7, 7, 26)

-- `enumerate` of the conditions
abbrev pub conditions : List (ℕ × String)
conditions =
    (0, "eq")
    ∷ (1, "ne")
    ∷ (2, "cs")
    ∷ (3, "cc")
    ∷ (4, "mi")
    ∷ (5, "pl")
    ∷ (6, "vs")
    ∷ (7, "vc")
    ∷ (8, "hi")
    ∷ (9, "ls")
    ∷ (10, "ge")
    ∷ (11, "lt")
    ∷ (12, "gt")
    ∷ (13, "le")
    ∷ []
