-- ===== src/Base/LoweringExamples.antt =====
-- Runs of Base/lowering.py: a multiplication by eight.
use cwerg.Prelude.{ℕ, true, ◌≡◌, refl, Option, some, none, List, [], ◌∷◌, ◌/◌, ◌^◌, ◌+◌, arith}
use cwerg.Prelude.Int.{pos}
use cwerg.Prelude.Word.{shr}
use native.Mathlib.Nat.{zero-div}
use cwerg.Base.Kinds.{
  u32, reg_is_int, flavor, bitwidth, OpcKind, reg, reg_or_const, num, same_as_prev,
}
use cwerg.Base.Opcode.{Opcode, base}
use cwerg.Base.Ir as Ir
use cwerg.Base.Ir.{Reg, Operand, Ins}
use cwerg.Base.Const.Ranges.{Fits}
use cwerg.Base.Const.{is_int_power_of_two, int_binary_log, log_loop}
use cwerg.Base.Lowering.{
  ins_strength_reduction, strength_reduction, ins_is_nop1, ins_is_nop2, ins_is_zero, shift_by,
  init_ins, shl_opcode,
}
use cwerg.Base.Lowering.Values.{Alu, Signed, assigned, assigned_by, alu_value, operand_value}
use cwerg.Base.Lowering.Soundness.{ins_strength_reduction-assigned}

abbrev mul_opcode : Opcode
mul_opcode = record {
  no = 0x12;
  name = "mul";
  kind = OpcKind.alu;
  operand_kinds = reg ∷ reg_or_const ∷ reg_or_const ∷ [];
  constraints = num ∷ same_as_prev ∷ same_as_prev ∷ [];
  group = base;
  attributes = 8;
}

abbrev dst : Reg
dst = record { name = 1; kind = u32; cpu_reg = none }

abbrev src : Operand
src = Ir.reg (record { name = 2; kind = u32; cpu_reg = none })

abbrev by_eight : Ins
by_eight = record { opcode = mul_opcode; operands = Ir.reg dst ∷ src ∷ Ir.const u32 (pos 8) ∷ [] }

-- Division and shifts as of unsigned numbers.
abbrev unsigned : Signed
unsigned = record {
  quotient = λ k a b. a / b;
  shifted = λ k a b. a / 2 ^ b;
  quotient_one = λ k a h. omega arith;
  shifted-by_zero = λ k a h. omega arith;
  zero-shifted = λ k b. zero-div (2 ^ b);
}

int_u32 : reg_is_int u32 ≡ true
unfolding reg_is_int
int_u32 = refl

eight-Fits : Fits u32 (pos 8)
unfolding flavor bitwidth
eight-Fits = (omega arith, omega arith)

-- Each register holds its number and five.
abbrev holding : ℕ → ℕ
holding r = r + 5

ins_strength_reduction-assigned_example :
    (r : Option (List Ins)) × (ins_strength_reduction by_eight ≡ some r)
    × (assigned_by unsigned holding r (assigned unsigned holding 0x12 by_eight.operands)
        ≡ assigned unsigned holding 0x12 by_eight.operands)
    × (assigned unsigned holding 0x12 by_eight.operands
        ≡ some (
          1,
          alu_value unsigned Alu.mul u32
              (operand_value holding u32 src)
              (operand_value holding u32 (Ir.const u32 (pos 8))),
        ))
ins_strength_reduction-assigned_example =
    ins_strength_reduction-assigned unsigned holding by_eight Alu.mul dst src (Ir.const u32 (pos 8))
      refl refl int_u32 refl (refl, eight-Fits)

-- The multiplication becomes a shift by three.
shift_by_three :
    ins_strength_reduction by_eight
    ≡ some (
        some (
          record { opcode = shl_opcode; operands = Ir.reg dst ∷ src ∷ Ir.const u32 (pos 3) ∷ [] }
          ∷ []))
unfolding ins_strength_reduction strength_reduction ins_is_nop1 ins_is_nop2 ins_is_zero shift_by
    init_ins is_int_power_of_two int_binary_log log_loop shr flavor
shift_by_three = refl
