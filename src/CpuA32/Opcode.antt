-- ===== src/CpuA32/Opcode.antt =====
-- CpuA32/opcode_tab.py, class `Opcode`: the constructor with its assertions, `AssembleOperands`,
-- `DisassembleOperands` and `FindOpcode`; `Ins`, `Assemble` and `Disassemble`.
use Prim.Native.Nat.{bit_and}
use Prim.Native.String.{String, ◌++◌ as concat}
use text.Mathlib.Text.{◌==◌ as str_eq}
use cwerg.Prelude.{
  ℕ, ◌-◌, Bool, true, false, not, Option, none, some, List, [], ◌∷◌, ◌++◌, map, flat_map, length,
  all, leb, ◌==◌, if◌then◌else◌, ◌>>=◌, ◌>>◌, assert,
}
use cwerg.Prelude.Int.{ℤ, pos}
use cwerg.Prelude.Word.{shl}
use cwerg.Arm.Names.{contains, name_starts_well, undot}
use cwerg.Arm.Codec.{encode_all, decode_all}
use cwerg.CpuA32.Ints.{Pattern, bits}
use cwerg.CpuA32.Fields.{OperandKind, field_details, decode_operand, encode_operand, pred_28_31}
use cwerg.CpuA32.Pack.{NatPattern, lift}

-- `OPC_FLAG`
pub data OpcFlag : Type 0 where
  result_64bit src_dst_0_1 dst_0_1 div mul mulacc load store atomic alu alu1 signextend jump :
      OpcFlag
  link thumb movetosr movefromsr test prefetch multiple vfp syscall bytereorder misc : OpcFlag

-- `MEM_WIDTH`
pub data MemWidth : Type 0 where
  na w1 w2 w4 w8 w12 variable : MemWidth

-- `SR_UPDATE`
pub data SrUpdate : Type 0 where
  unchanged nz ncz_psr ncz nczv : SrUpdate

pub record Opcode : Type 0 where
  pub name : String
  pub variant : String
  pub bit_mask : ℕ
  pub bit_value : ℕ
  pub fields : List OperandKind
  pub classes : List OpcFlag
  pub sr_update : SrUpdate
  pub mem_width : MemWidth

abbrev pub ins_classifier : ℕ
ins_classifier = 0x0e000000

abbrev pub max_operands : ℕ
max_operands = 7

abbrev pub variants : List String
variants =
    "" ∷ "imm" ∷ "reg" ∷ "regreg" ∷ "regimm" ∷ "f32" ∷ "f64" ∷ "atof" ∷ "ftoa" ∷ "atos" ∷ "stoa"
    ∷ "zero" ∷ "s" ∷ "f" ∷ "APSR_nzcv_fpscr" ∷ []

-- the masks of the bit ranges of an operand kind, with the value 0
range_patterns : OperandKind → List Pattern
range_patterns kind = elim (field_details kind) [
  | none ↦ []
  | some ranges ↦ map (λ r. (shl 1 r.1 - 1, pos 0, r.2)) ranges
]

has_details : OperandKind → Bool
has_details kind = elim (field_details kind) [ none ↦ false | some ranges ↦ true ]

-- `Opcode.__init__`; that no two opcodes have one name is checked by `register_all`.
unfoldable pub init :
    String
    → String
    → List NatPattern
    → List OperandKind
    → List OpcFlag
    → Bool
    → MemWidth
    → SrUpdate
    → Option Opcode
unfolding contains name_starts_well range_patterns has_details field_details shl bits
init name variant patterns fields classes has_pred mem_width sr_update = do
  assert (contains variant variants)
  assert (name_starts_well name)
  assert (all has_details fields)
  let fields' = if has_pred then pred_28_31 ∷ fields else fields
  assert (leb (length fields') max_operands)
  all_bits ← bits (map lift patterns ++ flat_map range_patterns fields')
  assert (all_bits.0 == 0xffffffff)
  own ← bits (map lift patterns)
  assert (bit_and own.0 ins_classifier == ins_classifier)
  value ← elim own.1 [ pos n ↦ some n | _ ↦ none ]
  some (record {
    name = name;
    variant = variant;
    bit_mask = own.0;
    bit_value = value;
    fields = fields';
    classes = classes;
    sr_update = sr_update;
    mem_width = mem_width;
  })

unfoldable pub name_for_enum : Opcode → String
unfolding undot
name_for_enum o =
    undot (if str_eq o.variant "" then o.name else concat o.name (concat "_" o.variant))

-- The registrations of a table in order, with the assertion on `name_to_opcode`.
unfoldable pub register_all : List String → List (Option Opcode) → Option (List Opcode)
unfolding name_for_enum contains
register_all taken [] = some []
register_all taken (row ∷ rows) = do
  o ← row
  assert (not (contains (name_for_enum o) taken))
  rest ← register_all (name_for_enum o ∷ taken) rows
  some (o ∷ rest)

unfoldable pub assemble_operands : Opcode → List ℤ → Option ℤ
unfolding encode_all
assemble_operands opcode operands = do
  assert (length operands == length opcode.fields)
  ps ← encode_all encode_operand opcode.fields operands
  word ← bits ((opcode.bit_mask, pos opcode.bit_value, 0) ∷ ps)
  assert (word.0 == 0xffffffff)
  some word.1

unfoldable pub disassemble_operands : Opcode → ℕ → Option (List ℤ)
unfolding decode_all
disassemble_operands opcode data_ = do
  assert (bit_and data_ opcode.bit_mask == opcode.bit_value)
  decode_all decode_operand opcode.fields data_

unfoldable pub matches : ℕ → Opcode → Bool
matches data_ opcode = bit_and data_ opcode.bit_mask == opcode.bit_value

-- `ordered_opcodes[key]`: the opcodes with that discriminant, in the order of registration
unfoldable pub ordered_opcodes : ℕ → List Opcode → List Opcode
ordered_opcodes key [] = []
ordered_opcodes key (o ∷ os) =
    let rest = ordered_opcodes key os in
    if bit_and o.bit_value ins_classifier == key then o ∷ rest else rest

unfoldable pub find_first : ℕ → List Opcode → Option Opcode
unfolding matches
find_first data_ [] = none
find_first data_ (o ∷ os) =
    let rest = find_first data_ os in if matches data_ o then some o else rest

unfoldable pub find_opcode : List Opcode → ℕ → Option Opcode
unfolding find_first ordered_opcodes
find_opcode table data_ = find_first data_ (ordered_opcodes (bit_and data_ ins_classifier) table)

-- `Ins` without its relocation, which `Assemble` wants resolved
pub record Ins : Type 0 where
  pub opcode : Opcode
  pub operands : List ℤ

unfoldable pub assemble : Ins → Option ℤ
unfolding assemble_operands
assemble ins = assemble_operands ins.opcode ins.operands

-- The outer option is an assertion, the inner one the result `None`.
unfoldable pub disassemble : List Opcode → ℕ → Option (Option Ins)
disassemble table data_ = elim (find_opcode table data_) [
  | none ↦ some none
  | some opcode ↦ do
    operands ← disassemble_operands opcode data_
    some (some (record { opcode = opcode; operands = operands }))
]
