-- ===== src/Arm/Names.antt =====
-- The names of opcodes, which CpuA32/opcode_tab.py and CpuA64/opcode_tab.py treat alike:
-- `_RE_OPCODE_NAME` and the test and the spelling of names for the enumeration.
use Prim.Native.Char.{code}
use Prim.Native.String.{String, ◌++◌ as concat}
use text.Mathlib.Text.{◌==◌ as str_eq}
use cwerg.Prelude.{Bool, false, ◌&&◌, ◌||◌, List, [], ◌∷◌, leb, ◌==◌, if◌then◌else◌}

unfoldable pub contains : String → List String → Bool
contains s [] = false
contains s (t ∷ ts) = str_eq s t || contains s ts

-- `re.match` with `[a-z.0-9]+` looks at the first character.
unfoldable pub name_starts_well : String → Bool
name_starts_well String.[] = false
name_starts_well (String.◌∷◌ c s) =
    leb b'a' (code c) && leb (code c) b'z'
    || (code c == b'.')
    || leb b'0' (code c) && leb (code c) b'9'

-- `name.replace(".", "_")`
unfoldable pub undot : String → String
undot String.[] = String.[]
undot (String.◌∷◌ c s) =
    let rest = undot s in if code c == b'.' then concat "_" rest else String.◌∷◌ c rest
