-- ===== src/Base/Kinds.antt =====
-- Base/opcode_tab.py, the kinds of opcodes, operands, types and attributes, and
-- `CheckTypeConstraint`.
use Prim.Native.Nat.{bit_and, bit_or}
use cwerg.Prelude.{
  ℕ, ◌+◌, Bool, true, false, not, ◌&&◌, ◌||◌, Option, none, some, List, [], ◌∷◌, leb, ◌==◌,
}
use cwerg.Prelude.Word.{shl}

-- `OPC_KIND`
pub data OpcKind : Type 0 where
  invalid alu alu1 mov lea lea1 cond_bra bra bsr jsr switch ret syscall st ld : OpcKind
  pusharg poparg nop nop1 conv cmp bcopy bzero directive : OpcKind

abbrev pub opc_kind_value : OpcKind → ℕ
opc_kind_value OpcKind.invalid = 0
opc_kind_value alu = 1
opc_kind_value alu1 = 2
opc_kind_value mov = 3
opc_kind_value lea = 4
opc_kind_value lea1 = 5
opc_kind_value cond_bra = 6
opc_kind_value bra = 7
opc_kind_value bsr = 8
opc_kind_value jsr = 9
opc_kind_value switch = 10
opc_kind_value ret = 11
opc_kind_value syscall = 12
opc_kind_value st = 13
opc_kind_value ld = 14
opc_kind_value pusharg = 15
opc_kind_value poparg = 16
opc_kind_value nop = 17
opc_kind_value nop1 = 18
opc_kind_value conv = 19
opc_kind_value cmp = 20
opc_kind_value bcopy = 21
opc_kind_value bzero = 22
opc_kind_value directive = 23

-- `_OFS_CFG`
abbrev pub ofs_cfg : OpcKind → Bool
ofs_cfg bsr = true
ofs_cfg jsr = true
ofs_cfg syscall = true
ofs_cfg switch = true
ofs_cfg bra = true
ofs_cfg cond_bra = true
ofs_cfg ret = true
ofs_cfg _ = false

-- `_OFS_NO_DEF`
abbrev pub ofs_no_def : OpcKind → Bool
ofs_no_def st = true
ofs_no_def bcopy = true
ofs_no_def bzero = true
ofs_no_def pusharg = true
ofs_no_def nop = true
ofs_no_def kind = ofs_cfg kind

-- `OA`, the opcode attributes
pub data Oa : Type 0 where
  bbl_terminator no_fall_through call commutative mem_rd mem_wr special : Oa

abbrev pub oa_value : Oa → ℕ
oa_value bbl_terminator = 1
oa_value no_fall_through = 2
oa_value call = 4
oa_value commutative = 8
oa_value mem_rd = 16
oa_value mem_wr = 32
oa_value special = 64

-- `OA(0) | a | b | ...`
unfoldable pub flags : List Oa → ℕ
flags [] = 0
flags (a ∷ rest) = bit_or (oa_value a) (flags rest)

-- `OAS_SIDE_EFFECT`
abbrev pub oas_side_effect : List Oa
oas_side_effect = call ∷ bbl_terminator ∷ mem_rd ∷ mem_wr ∷ special ∷ []

-- `OP_KIND`
pub data OpKind : Type 0 where
  invalid reg const reg_or_const bbl mem stk func jtb type_list data_kind mem_kind fun_kind : OpKind
  field name name_list value bbl_tab bytes : OpKind

-- `OKS_ALLOWED_FOR_INSTRUCTIONS`
abbrev pub oks_allowed_for_instructions : OpKind → Bool
oks_allowed_for_instructions reg = true
oks_allowed_for_instructions const = true
oks_allowed_for_instructions reg_or_const = true
oks_allowed_for_instructions func = true
oks_allowed_for_instructions bbl = true
oks_allowed_for_instructions jtb = true
oks_allowed_for_instructions mem = true
oks_allowed_for_instructions stk = true
oks_allowed_for_instructions field = true
oks_allowed_for_instructions _ = false

-- `OKS_ALLOWED_FOR_DIRECTIVES`
abbrev pub oks_allowed_for_directives : OpKind → Bool
oks_allowed_for_directives const = true
oks_allowed_for_directives value = true
oks_allowed_for_directives mem_kind = true
oks_allowed_for_directives bytes = true
oks_allowed_for_directives name = true
oks_allowed_for_directives bbl_tab = true
oks_allowed_for_directives fun_kind = true
oks_allowed_for_directives type_list = true
oks_allowed_for_directives name_list = true
oks_allowed_for_directives data_kind = true
oks_allowed_for_directives func = true
oks_allowed_for_directives mem = true
oks_allowed_for_directives bbl = true
oks_allowed_for_directives _ = false

-- the operand kinds that carry a type
abbrev pub is_typed : OpKind → Bool
is_typed reg = true
is_typed const = true
is_typed reg_or_const = true
is_typed _ = false

-- `TC`, the type constraints
pub data Tc : Type 0 where
  invalid any addr_num addr_int num flt int addr code uint sint offset same_as_prev : Tc
  same_size_as_prev : Tc

-- `DK`, the data kinds
pub data Dk : Type 0 where
  invalid s8 s16 s32 s64 u8 u16 u32 u64 f8 f16 f32 f64 a32 a64 c32 c64 : Dk

-- `DK_FLAVOR_S`, `DK_FLAVOR_U`, `DK_FLAVOR_F`, `DK_FLAVOR_A`, `DK_FLAVOR_C`
abbrev pub flavor_s : ℕ
flavor_s = 0x20

abbrev pub flavor_u : ℕ
flavor_u = 0x40

abbrev pub flavor_f : ℕ
flavor_f = 0x60

abbrev pub flavor_a : ℕ
flavor_a = 0x80

abbrev pub flavor_c : ℕ
flavor_c = 0xa0

-- `DK(...).value`
unfoldable pub dk_value : Dk → ℕ
dk_value Dk.invalid = 0
dk_value s8 = flavor_s + 0
dk_value s16 = flavor_s + 1
dk_value s32 = flavor_s + 2
dk_value s64 = flavor_s + 3
dk_value u8 = flavor_u + 0
dk_value u16 = flavor_u + 1
dk_value u32 = flavor_u + 2
dk_value u64 = flavor_u + 3
dk_value f8 = flavor_f + 0
dk_value f16 = flavor_f + 1
dk_value f32 = flavor_f + 2
dk_value f64 = flavor_f + 3
dk_value a32 = flavor_a + 2
dk_value a64 = flavor_a + 3
dk_value c32 = flavor_c + 2
dk_value c64 = flavor_c + 3

unfoldable pub flavor : Dk → ℕ
unfolding dk_value
flavor k = bit_and (dk_value k) 0xe0

unfoldable pub bitwidth : Dk → ℕ
unfolding dk_value shl
bitwidth k = shl 8 (bit_and (dk_value k) 0x7)

-- `RegIsInt`
unfoldable pub reg_is_int : Dk → Bool
unfolding dk_value
reg_is_int k = leb (dk_value s8) (dk_value k) && leb (dk_value k) (dk_value u64)

-- `RegIsAddrInt`
unfoldable pub reg_is_addr_int : Dk → Bool
unfolding dk_value
reg_is_addr_int k =
    leb (dk_value a32) (dk_value k) && leb (dk_value k) (dk_value a64)
    || leb (dk_value s8) (dk_value k) && leb (dk_value k) (dk_value u64)

-- `TC_TO_CHECKER`
unfoldable pub checker : Tc → Option (Dk → Bool)
unfolding flavor reg_is_addr_int
checker any = some (λ x. true)
checker addr_num = some (λ x. not (flavor x == flavor_c))
checker num = some (λ x. flavor x == flavor_u || (flavor x == flavor_s) || (flavor x == flavor_f))
checker int = some (λ x. flavor x == flavor_u || (flavor x == flavor_s))
checker addr = some (λ x. flavor x == flavor_a)
checker code = some (λ x. flavor x == flavor_c)
checker sint = some (λ x. flavor x == flavor_s)
checker uint = some (λ x. flavor x == flavor_u)
checker addr_int = some reg_is_addr_int
checker flt = some (λ x. flavor x == flavor_f)
checker offset = some (λ x. flavor x == flavor_u || (flavor x == flavor_s))
checker _ = none

-- `CheckTypeConstraint`; `none` is the failed assertion.
unfoldable pub check_type_constraint : Dk → Tc → Dk → Option Bool
unfolding checker dk_value bitwidth
check_type_constraint last_type constraint this_type = elim (checker constraint) [
  | some check ↦ some (check this_type)
  | none ↦ elim constraint [
    | same_as_prev ↦ some (dk_value last_type == dk_value this_type)
    | same_size_as_prev ↦ some (bitwidth last_type == bitwidth this_type)
    | _ ↦ none
  ]
]
