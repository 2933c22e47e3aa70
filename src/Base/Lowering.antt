-- ===== src/Base/Lowering.antt =====
-- Base/lowering.py, `_InsStrengthReduction`.
pub mod Values
pub mod Reduction
pub mod Soundness
use Prim.Native.String.{String}
use cwerg.Prelude.{
  ℕ, zero, suc, Bool, true, false, ◌&&◌, ◌||◌, Option, none, some, List, [], ◌∷◌, length, get_elem?,
  ◌==◌, if◌then◌else◌, ◌>>=◌, ◌>>◌, assert,
}
use cwerg.Prelude.Int.{ℤ, pos, eqb_ℤ}
use cwerg.Base.Kinds.{
  Dk, dk_value, flavor, flavor_u, flavor_s, OpcKind, reg_or_const, any, same_as_prev, int,
}
use cwerg.Base.Kinds as Kinds
use cwerg.Base.Opcode.{Opcode, base}
use cwerg.Base.Ir.{Reg, Operand, reg, const, func, other, Ins}
use cwerg.Base.Const.{Const, is_zero, is_one, is_int_power_of_two, int_binary_log}

abbrev pub mov_opcode : Opcode
mov_opcode = record {
  no = 0x34;
  name = "mov";
  kind = OpcKind.mov;
  operand_kinds = Kinds.reg ∷ reg_or_const ∷ [];
  constraints = any ∷ same_as_prev ∷ [];
  group = base;
  attributes = 0;
}

abbrev pub shl_opcode : Opcode
shl_opcode = record {
  no = 0x1b;
  name = "shl";
  kind = OpcKind.alu;
  operand_kinds = Kinds.reg ∷ reg_or_const ∷ reg_or_const ∷ [];
  constraints = int ∷ same_as_prev ∷ same_as_prev ∷ [];
  group = base;
  attributes = 0;
}

-- ADD, SUB, SHL, SHR, OR, XOR, LEA
abbrev pub opc_nop_if_src2_is_zero : ℕ → Bool
opc_nop_if_src2_is_zero opc =
    (opc == 0x10)
    || ((opc == 0x11)
        || ((opc == 0x1b)
            || ((opc == 0x1c) || ((opc == 0x1a) || ((opc == 0x18) || (opc == 0x38))))))

abbrev pub opc_nop_if_src1_is_zero : ℕ → Bool
opc_nop_if_src1_is_zero opc = (opc == 0x10) || ((opc == 0x1a) || (opc == 0x18))

abbrev pub opc_nop_if_src2_is_one : ℕ → Bool
opc_nop_if_src2_is_one opc = (opc == 0x12) || (opc == 0x13)

abbrev pub opc_nop_if_src1_is_one : ℕ → Bool
opc_nop_if_src1_is_one opc = opc == 0x12

abbrev pub opc_zero_if_ops_same : ℕ → Bool
opc_zero_if_ops_same opc = (opc == 0x18) || (opc == 0x11)

-- SHL, SHR, MUL
abbrev pub opc_zero_if_src1_is_zero : ℕ → Bool
opc_zero_if_src1_is_zero opc = (opc == 0x1b) || ((opc == 0x1c) || (opc == 0x12))

abbrev pub opc_zero_if_src2_is_zero : ℕ → Bool
opc_zero_if_src2_is_zero opc = opc == 0x12

-- A test of the operand, if it is a `Const`.
abbrev pub const_and : (Const → Bool) → Option Operand → Bool
const_and p (some (const kind value)) = p (record { kind = kind; value = value })
const_and p _ = false

-- `==` on operands: registers differ by their names; a function is none of the operands compared.
abbrev pub same_operand : Option Operand → Option Operand → Bool
same_operand (some (reg r)) (some (reg s)) = r.name == s.name
same_operand (some (const k x)) (some (const l y)) = dk_value k == dk_value l && eqb_ℤ x y
same_operand (some (other a)) (some (other b)) = a == b
same_operand _ _ = false

module _ (opc : ℕ) (ops : List Operand) where
  unfoldable pub ins_is_nop2 : Bool
  unfolding is_zero is_one
  ins_is_nop2 =
      opc_nop_if_src1_is_zero opc && const_and is_zero (get_elem? ops 1)
      || opc_nop_if_src1_is_one opc && const_and is_one (get_elem? ops 1)

  unfoldable pub ins_is_nop1 : Bool
  unfolding is_zero is_one
  ins_is_nop1 =
      opc_nop_if_src2_is_zero opc && const_and is_zero (get_elem? ops 2)
      || opc_nop_if_src2_is_one opc && const_and is_one (get_elem? ops 2)

  -- The opcodes tested have three operands, which `Ins.Init` asserts.
  unfoldable pub ins_is_zero : Bool
  unfolding is_zero
  ins_is_zero =
      opc_zero_if_ops_same opc && same_operand (get_elem? ops 1) (get_elem? ops 2)
      || (opc_zero_if_src1_is_zero opc && const_and is_zero (get_elem? ops 1)
          || opc_zero_if_src2_is_zero opc && const_and is_zero (get_elem? ops 2))

-- `ops.pop(n)`
abbrev pub pop : ℕ → List Operand → List Operand
pop n [] = []
pop zero (op ∷ ops) = ops
pop (suc n) (op ∷ ops) = op ∷ pop n ops

-- `Ins.Init`, in a list of one instruction
unfoldable pub init_ins : Opcode → List Operand → Option (List Ins)
init_ins opcode operands = do
  assert (length operands == length opcode.operand_kinds)
  some (record { opcode = opcode; operands = operands } ∷ [])

-- `kind` of a register or constant
abbrev pub kind_of : Option Operand → Option Dk
kind_of (some (reg r)) = some r.kind
kind_of (some (const kind value)) = some kind
kind_of _ = none

-- `IsIntReg`
abbrev pub is_int_reg : Option Operand → Bool
is_int_reg (some (reg r)) = flavor r.kind == flavor_u || (flavor r.kind == flavor_s)
is_int_reg _ = false

abbrev pub log_of : Option Operand → Option ℕ
log_of (some (const kind value)) = int_binary_log (record { kind = kind; value = value })
log_of _ = none

-- `ops[0] << IntBinaryLog`: the shift that takes the place of a multiplication
unfoldable pub shift_by : List Operand → Option Operand → Option Operand → Option (List Ins)
unfolding init_ins
shift_by ops src power = do
  shift ← log_of power
  dst ← get_elem? ops 0
  kind ← kind_of (some dst)
  op ← src
  init_ins shl_opcode (dst ∷ op ∷ const kind (pos shift) ∷ [])

unfoldable pub set_zero : List Operand → Option (List Ins)
unfolding init_ins
set_zero ops = do
  dst ← get_elem? ops 0
  kind ← kind_of (some dst)
  init_ins mov_opcode (dst ∷ const kind (pos 0) ∷ [])

abbrev pub rewritten : Option (List Ins) → Option (Option (List Ins))
rewritten none = none
rewritten (some inss) = some (some inss)

-- `_InsStrengthReduction` on the number of the opcode and the operands: `none` is a failed assertion,
-- `some none` leaves the instruction as it is.
unfoldable pub strength_reduction : ℕ → List Operand → Option (Option (List Ins))
unfolding ins_is_nop1 ins_is_nop2 ins_is_zero set_zero shift_by is_int_power_of_two
strength_reduction opc ops =
    if ins_is_nop1 opc ops
    then rewritten (init_ins mov_opcode (pop 2 ops))
    else if ins_is_nop2 opc ops
    then rewritten (init_ins mov_opcode (pop 1 ops))
    else if ins_is_zero opc ops
    then rewritten (set_zero ops)
    else if opc == 0x12
        && (is_int_reg (get_elem? ops 0) && const_and is_int_power_of_two (get_elem? ops 2))
    then rewritten (shift_by ops (get_elem? ops 1) (get_elem? ops 2))
    else if opc == 0x12
        && (is_int_reg (get_elem? ops 0) && const_and is_int_power_of_two (get_elem? ops 1))
    then rewritten (shift_by ops (get_elem? ops 2) (get_elem? ops 1))
    else some none

unfoldable pub ins_strength_reduction : Ins → Option (Option (List Ins))
ins_strength_reduction ins = strength_reduction ins.opcode.no ins.operands
