-- ===== src/CpuA64/Opcode.antt =====
-- CpuA64/opcode_tab.py, class `Opcode`: the constructor with its assertions, `AssembleOperands`,
-- `DisassembleOperands` and `FindOpcode`; `Ins`, `Assemble` and `Disassemble`. `MEM_WIDTH` and
-- `SR_UPDATE` have the text that they have in CpuA32/opcode_tab.py.
use Prim.Native.Nat.{bit_and, bit_or}
use Prim.Native.String.{String, ◌++◌ as concat}
use text.Mathlib.Text.{◌==◌ as str_eq}
use cwerg.Prelude.{
  ℕ, zero, suc, ◌-◌, Bool, true, false, not, ◌||◌, Option, none, some, List, [], ◌∷◌, ◌++◌, map,
  flat_map, length, all, ltb, leb, ◌==◌, if◌then◌else◌, ◌>>=◌, ◌>>◌, assert,
}
use cwerg.Prelude.Int.{ℤ, pos}
use cwerg.Prelude.Word.{shl, shr, without}
use cwerg.Arm.Names.{contains, name_starts_well, undot}
use cwerg.Arm.Codec.{encode_all, decode_all}
use cwerg.CpuA32.Ints.{Pattern, bits}
use cwerg.CpuA32.Pack.{NatPattern, lift}
use cwerg.CpuA32.Opcode.{MemWidth, SrUpdate}
use cwerg.CpuA64.Fields.{OperandKind, field_details, decode_operand, encode_operand}

-- `OPC_FLAG`
pub data OpcFlag : Type 0 where
  result_64bit src_dst_0_1 dst_0_1 div mul mulacc load store atomic : OpcFlag
  alu alu1 signextend jump link movetosr movefromsr test prefetch : OpcFlag
  multiple vfp syscall bytereorder misc reg_pair cond_param domain_param stack_ops : OpcFlag

pub record Opcode : Type 0 where
  pub name : String
  pub variant : String
  pub bit_mask : ℕ
  pub bit_value : ℕ
  pub fields : List OperandKind
  pub classes : List OpcFlag
  pub sr_update : SrUpdate
  pub mem_width : MemWidth

abbrev pub max_operands : ℕ
max_operands = 7

-- the masks of the bit ranges of an operand kind, with the value 0
range_patterns : OperandKind → List Pattern
range_patterns kind = elim (field_details kind) [
  | none ↦ []
  | some ranges ↦ map (λ r. (shl 1 r.1 - 1, pos 0, r.2)) ranges
]

has_details : OperandKind → Bool
has_details kind = elim (field_details kind) [ none ↦ false | some ranges ↦ true ]

-- `Opcode.__init__`; that no two opcodes have one name is checked by `register_all`. The last
-- assertion is the bound of the index into `ordered_opcodes`.
unfoldable pub init :
    String
    → String
    → List NatPattern
    → List OperandKind
    → List OpcFlag
    → MemWidth
    → SrUpdate
    → Option Opcode
unfolding name_starts_well range_patterns has_details field_details shl shr bits
init name variant patterns fields classes mem_width sr_update = do
  assert (name_starts_well name)
  assert (all has_details fields)
  assert (leb (length fields) max_operands)
  own ← bits (map lift patterns)
  all_bits ← bits (map lift patterns ++ flat_map range_patterns fields)
  assert (all_bits.0 == 0xffffffff)
  value ← elim own.1 [ pos n ↦ some n | _ ↦ none ]
  assert (ltb (shr value 24) 256)
  some (record {
    name = name;
    variant = variant;
    bit_mask = own.0;
    bit_value = value;
    fields = fields;
    classes = classes;
    sr_update = sr_update;
    mem_width = mem_width;
  })

unfoldable pub name_for_enum : Opcode → String
unfolding undot
name_for_enum o =
    undot (if str_eq o.variant "" then o.name else concat o.name (concat "_" o.variant))

-- The registrations of a table in order, with the assertion on `name_to_opcode`.
unfoldable pub register_all : List String → List (Option Opcode) → Option (List Opcode)
unfolding name_for_enum contains
register_all taken [] = some []
register_all taken (row ∷ rows) = do
  o ← row
  assert (not (contains (name_for_enum o) taken))
  rest ← register_all (name_for_enum o ∷ taken) rows
  some (o ∷ rest)

unfoldable pub assemble_operands : Opcode → List ℤ → Option ℤ
unfolding encode_all
assemble_operands opcode operands = do
  assert (length operands == length opcode.fields)
  ps ← encode_all encode_operand opcode.fields operands
  word ← bits ((opcode.bit_mask, pos opcode.bit_value, 0) ∷ ps)
  assert (word.0 == 0xffffffff)
  some word.1

unfoldable pub disassemble_operands : Opcode → ℕ → Option (List ℤ)
unfolding decode_all
disassemble_operands opcode data_ = do
  assert (bit_and data_ opcode.bit_mask == opcode.bit_value)
  decode_all decode_operand opcode.fields data_

unfoldable pub matches : ℕ → Opcode → Bool
matches data_ opcode = bit_and data_ opcode.bit_mask == opcode.bit_value

-- `key` is `b | (m_inv & x)` for some x below n.
unfoldable pub some_dont_care : ℕ → ℕ → ℕ → ℕ → Bool
some_dont_care b m key zero = false
some_dont_care b m key (suc x) = bit_or b (without m x) == key || some_dont_care b m key x

-- The constructor appends the opcode to `ordered_opcodes[key]`.
unfoldable pub in_bucket : ℕ → Opcode → Bool
unfolding some_dont_care
in_bucket key opcode =
    if shr opcode.bit_mask 24 == 0xff
    then shr opcode.bit_value 24 == key
    else some_dont_care (shr opcode.bit_value 24) (shr opcode.bit_mask 24) key 256

-- `ordered_opcodes[key]`, in the order of registration
unfoldable pub ordered_opcodes : ℕ → List Opcode → List Opcode
unfolding in_bucket
ordered_opcodes key [] = []
ordered_opcodes key (o ∷ os) =
    let rest = ordered_opcodes key os in if in_bucket key o then o ∷ rest else rest

unfoldable pub find_first : ℕ → List Opcode → Option Opcode
unfolding matches
find_first data_ [] = none
find_first data_ (o ∷ os) =
    let rest = find_first data_ os in if matches data_ o then some o else rest

-- The outer option is the index into `ordered_opcodes`, the inner one the result.
unfoldable pub find_opcode : List Opcode → ℕ → Option (Option Opcode)
unfolding find_first ordered_opcodes
find_opcode table data_ = do
  assert (ltb (shr data_ 24) 256)
  some (find_first data_ (ordered_opcodes (shr data_ 24) table))

-- `Ins` without its relocation, which `Assemble` wants resolved
pub record Ins : Type 0 where
  pub opcode : Opcode
  pub operands : List ℤ

-- For an `Ins` whose attributes have been assigned.
unfoldable pub assemble : Ins → Option ℤ
unfolding assemble_operands
assemble ins = assemble_operands ins.opcode ins.operands
