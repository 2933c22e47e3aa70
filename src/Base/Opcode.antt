-- ===== src/Base/Opcode.antt =====
-- Base/opcode_tab.py, class `Opcode` with the assertions of its constructor, and the two tables of
-- the class, `Table` by name and `TableByNo` by number.
use Prim.Native.Nat.{bit_and}
use Prim.Native.Char.{code}
use Prim.Native.String.{String}
use text.Mathlib.Text.{◌==◌ as str_eq}
use cwerg.Prelude.{
  ℕ, Bool, true, false, not, ◌&&◌, ◌||◌, Option, none, some, List, [], ◌∷◌, length, leb, ◌==◌,
  if◌then◌else◌, ◌>>=◌, ◌>>◌, assert,
}
use cwerg.Base.Kinds.{
  OpcKind, opc_kind_value, directive, ofs_no_def, Oa, oa_value, flags, bbl_terminator,
  no_fall_through, call, oas_side_effect, OpKind, oks_allowed_for_instructions,
  oks_allowed_for_directives, is_typed, Tc,
}

-- `OPC_GENUS`
pub data OpcGenus : Type 0 where
  invalid base misc struct tbd : OpcGenus

-- `Opcode`; `purpose` and `desc` serve the documentation only.
pub record Opcode : Type 0 where
  pub no : ℕ
  pub name : String
  pub kind : OpcKind
  pub operand_kinds : List OpKind
  pub constraints : List Tc
  pub group : OpcGenus
  pub attributes : ℕ

abbrev pub max_operands : ℕ
max_operands = 5

abbrev is_directive : OpcKind → Bool
is_directive kind = opc_kind_value kind == opc_kind_value directive

-- `len(_OF_TO_PURPOSE[kind])`
abbrev pub purpose_count : OpcKind → Option ℕ
purpose_count OpcKind.alu = some 3
purpose_count OpcKind.alu1 = some 2
purpose_count OpcKind.cond_bra = some 3
purpose_count OpcKind.switch = some 2
purpose_count OpcKind.bra = some 1
purpose_count OpcKind.ret = some 0
purpose_count OpcKind.bsr = some 1
purpose_count OpcKind.jsr = some 2
purpose_count OpcKind.syscall = some 2
purpose_count OpcKind.lea = some 3
purpose_count OpcKind.lea1 = some 2
purpose_count OpcKind.ld = some 3
purpose_count OpcKind.st = some 3
purpose_count OpcKind.nop = some 0
purpose_count OpcKind.nop1 = some 1
purpose_count OpcKind.bzero = some 2
purpose_count OpcKind.bcopy = some 3
purpose_count OpcKind.poparg = some 1
purpose_count OpcKind.pusharg = some 1
purpose_count OpcKind.conv = some 2
purpose_count OpcKind.mov = some 2
purpose_count OpcKind.cmp = some 5
purpose_count _ = none

-- `_DIR_TO_PURPOSE`, each name with the number of its purposes
abbrev pub dir_to_purpose : List (String × ℕ)
dir_to_purpose =
    (".mem", 3)
    ∷ (".data", 2)
    ∷ (".addr.fun", 2)
    ∷ (".addr.mem", 3)
    ∷ (".fun", 4)
    ∷ (".bbl", 1)
    ∷ (".reg", 2)
    ∷ (".stk", 3)
    ∷ (".jtb", 4)
    ∷ (".struct", 1)
    ∷ (".field", 3)
    ∷ (".endstruct", 0)
    ∷ (".stk.s", 2)
    ∷ []

find_count : String → List (String × ℕ) → Option ℕ
find_count s [] = none
find_count s ((t, n) ∷ rows) = if str_eq s t then some n else find_count s rows

starts_with_dot : String → Bool
starts_with_dot String.[] = false
starts_with_dot (String.◌∷◌ c s) = code c == b'.'

is_invalid : Tc → Bool
is_invalid Tc.invalid = true
is_invalid _ = false

-- The loop of the constructor over operands and constraints.
unfoldable pub operands_ok : Bool → List OpKind → List Tc → Bool
unfolding is_invalid
operands_ok in_directive (ok ∷ oks) (tc ∷ tcs) =
    (oks_allowed_for_instructions ok || oks_allowed_for_directives ok)
    && (if is_typed ok then not (is_invalid tc) else is_invalid tc)
    && (if in_directive then oks_allowed_for_directives ok else oks_allowed_for_instructions ok)
    && operands_ok in_directive oks tcs
operands_ok in_directive _ _ = true

abbrev pub Row : Type 0
Row = Option Opcode

-- `Opcode.__init__` but for the entry into the tables, which `register_all` makes.
unfoldable pub init : ℕ → String → OpcKind → List OpKind → List Tc → OpcGenus → List Oa → Row
unfolding find_count starts_with_dot operands_ok flags
init number name kind operand_kinds constraints group attributes = do
  assert (leb (length operand_kinds) max_operands)
  assert (not (opc_kind_value kind == 0))
  assert (not (is_directive kind) || starts_with_dot name)
  purpose ← if is_directive kind then find_count name dir_to_purpose else purpose_count kind
  assert (purpose == length operand_kinds)
  assert (length operand_kinds == length constraints)
  assert (operands_ok (is_directive kind) operand_kinds constraints)
  some (record {
    no = number;
    name = name;
    kind = kind;
    operand_kinds = operand_kinds;
    constraints = constraints;
    group = group;
    attributes = flags attributes;
  })

-- `Directive`
unfoldable pub directive_row : ℕ → String → List OpKind → List Tc → OpcGenus → Row
unfolding init
directive_row number name operands constraints group =
    init number name directive operands constraints group []

-- `Opcode.Lookup`, on the opcodes in the order in which they were entered
unfoldable pub lookup : List Opcode → String → Option Opcode
lookup [] name = none
lookup (o ∷ os) name = if str_eq o.name name then some o else lookup os name

-- `Opcode.TableByNo.get`
unfoldable pub lookup_no : List Opcode → ℕ → Option Opcode
lookup_no [] number = none
lookup_no (o ∷ os) number = if o.no == number then some o else lookup_no os number

unfoldable pub is_none : Option Opcode → Bool
is_none none = true
is_none (some o) = false

-- The opcodes of a table are entered one by one; a name or a number that is taken fails.
unfoldable pub register_all : List Opcode → List Row → Option (List Opcode)
unfolding lookup lookup_no is_none
register_all table [] = some table
register_all table (row ∷ rows) = do
  o ← row
  assert (is_none (lookup table o.name))
  assert (is_none (lookup_no table o.no))
  register_all (o ∷ table) rows

unfoldable pub is_call : Opcode → Bool
is_call o = bit_and o.attributes (oa_value call) == oa_value call

unfoldable pub is_bbl_terminator : Opcode → Bool
is_bbl_terminator o = bit_and o.attributes (oa_value bbl_terminator) == oa_value bbl_terminator

unfoldable pub has_fallthrough : Opcode → Bool
has_fallthrough o =
    not (bit_and o.attributes (oa_value no_fall_through) == oa_value no_fall_through)

unfoldable pub has_side_effect : Opcode → Bool
unfolding flags
has_side_effect o = not (bit_and (flags oas_side_effect) o.attributes == 0)

-- How many of the leading operands are register writes.
unfoldable pub def_ops_count : Opcode → ℕ
def_ops_count o =
    if opc_kind_value o.kind == 0 || is_directive o.kind || ofs_no_def o.kind then 0 else 1
