-- ===== src/Base/Lowering/Values.antt =====
-- What the instructions that Base/lowering.py rewrites compute: numbers modulo a power of two, as
-- Base/opcode_tab.py describes the opcodes. What division and shifts to the right compute is a parameter.
use Prim.Native.Nat.{bit_or, bit_xor}
use cwerg.Prelude.{
  ℕ, true, Option, none, some, List, [], ◌∷◌, ◌+◌, ◌-◌, ◌*◌, ◌%◌, ◌^◌, ◌<◌, ◌≡◌, ◌==◌, refl,
  if◌then◌else◌, arith, ◌>>=◌,
}
use native.Mathlib.Nat.{mod-eq_of_lt, zero-mod, mod_self, add-mod_right, mul_comm}
use cwerg.Prelude.Int.{mod_ℤ}
use cwerg.Prelude.Word.{shl}
use cwerg.Prelude.Bits.{
  shl-eq-mul-pow, bit_or-zero, zero-bit_or, bit_xor-zero, zero-bit_xor, bit_xor-same,
}
use cwerg.Base.Kinds.{Dk, bitwidth}
use cwerg.Base.Ir.{Operand, reg, const, Ins}
use cwerg.Base.Lowering.{
  opc_nop_if_src2_is_zero, opc_nop_if_src1_is_zero, opc_nop_if_src2_is_one, opc_nop_if_src1_is_one,
  opc_zero_if_ops_same, opc_zero_if_src1_is_zero, opc_zero_if_src2_is_zero,
}

-- the opcodes with two sources
pub data Alu : Type 0 where
  add sub mul div xor or shl_ shr_ : Alu

abbrev pub no_of : Alu → ℕ
no_of add = 0x10
no_of sub = 0x11
no_of mul = 0x12
no_of div = 0x13
no_of xor = 0x18
no_of or = 0x1a
no_of shl_ = 0x1b
no_of shr_ = 0x1c

-- Division and shifts to the right depend on the sign, so that they are given the kind.
pub record Signed : Type 0 where
  pub quotient : Dk → ℕ → ℕ → ℕ
  pub shifted : Dk → ℕ → ℕ → ℕ
  pub quotient_one : (k : Dk) (a : ℕ) → a < 2 ^ bitwidth k → quotient k a 1 ≡ a
  pub shifted-by_zero : (k : Dk) (a : ℕ) → a < 2 ^ bitwidth k → shifted k a 0 ≡ a
  pub zero-shifted : (k : Dk) (b : ℕ) → shifted k 0 b ≡ 0

module _ (s : Signed) where
  unfoldable pub alu_value : Alu → Dk → ℕ → ℕ → ℕ
  alu_value add k a b = (a + b) % 2 ^ bitwidth k
  alu_value sub k a b = (a + (2 ^ bitwidth k - b)) % 2 ^ bitwidth k
  alu_value mul k a b = a * b % 2 ^ bitwidth k
  alu_value div k a b = s.quotient k a b
  alu_value xor k a b = bit_xor a b
  alu_value or k a b = bit_or a b
  alu_value shl_ k a b = shl a (b % bitwidth k) % 2 ^ bitwidth k
  alu_value shr_ k a b = s.shifted k a b

  -- The laws that the rewrites rest on.
  module _ (k : Dk) (w : 0 < bitwidth k) where
    pub src2_zero :
        (op : Alu) (a : ℕ)
        → a < 2 ^ bitwidth k
        → opc_nop_if_src2_is_zero (no_of op) ≡ true
        → alu_value op k a 0 ≡ a
    unfolding alu_value
    src2_zero add a h t = let same : a + 0 ≡ a = omega arith in rw same (mod-eq_of_lt h)
    src2_zero sub a h t =
        let same : 2 ^ bitwidth k - 0 ≡ 2 ^ bitwidth k = omega arith in
        rw (same, add-mod_right a (2 ^ bitwidth k)) (mod-eq_of_lt h)
    src2_zero mul a h t = cc
    src2_zero div a h t = cc
    src2_zero xor a h t = bit_xor-zero a
    src2_zero or a h t = bit_or-zero a
    src2_zero shl_ a h t =
        let same : shl a 0 ≡ a = omega (arith, shl-eq-mul-pow 0 a) in
        rw (zero-mod (bitwidth k), same) (mod-eq_of_lt h)
    src2_zero shr_ a h t = s.shifted-by_zero k a h

    pub src2_one :
        (op : Alu) (a : ℕ)
        → a < 2 ^ bitwidth k
        → opc_nop_if_src2_is_one (no_of op) ≡ true
        → alu_value op k a 1 ≡ a
    unfolding alu_value
    src2_one mul a h t = let same : a * 1 ≡ a = omega arith in rw same (mod-eq_of_lt h)
    src2_one div a h t = s.quotient_one k a h
    src2_one add a h t = cc
    src2_one sub a h t = cc
    src2_one xor a h t = cc
    src2_one or a h t = cc
    src2_one shl_ a h t = cc
    src2_one shr_ a h t = cc

    pub src1_zero :
        (op : Alu) (b : ℕ)
        → b < 2 ^ bitwidth k
        → opc_nop_if_src1_is_zero (no_of op) ≡ true
        → alu_value op k 0 b ≡ b
    unfolding alu_value
    src1_zero add b h t = let same : 0 + b ≡ b = omega arith in rw same (mod-eq_of_lt h)
    src1_zero xor b h t = zero-bit_xor b
    src1_zero or b h t = zero-bit_or b
    src1_zero mul b h t = cc
    src1_zero div b h t = cc
    src1_zero sub b h t = cc
    src1_zero shl_ b h t = cc
    src1_zero shr_ b h t = cc

    pub src1_one :
        (op : Alu) (b : ℕ)
        → b < 2 ^ bitwidth k
        → opc_nop_if_src1_is_one (no_of op) ≡ true
        → alu_value op k 1 b ≡ b
    unfolding alu_value
    src1_one mul b h t = let same : 1 * b ≡ b = omega arith in rw same (mod-eq_of_lt h)
    src1_one add b h t = cc
    src1_one div b h t = cc
    src1_one sub b h t = cc
    src1_one xor b h t = cc
    src1_one or b h t = cc
    src1_one shl_ b h t = cc
    src1_one shr_ b h t = cc

    pub ops_same :
        (op : Alu) (a : ℕ)
        → a < 2 ^ bitwidth k
        → opc_zero_if_ops_same (no_of op) ≡ true
        → alu_value op k a a ≡ 0
    unfolding alu_value
    ops_same sub a h t =
        let whole : a + (2 ^ bitwidth k - a) ≡ 2 ^ bitwidth k = omega arith in
        rw whole (mod_self (2 ^ bitwidth k))
    ops_same xor a h t = bit_xor-same a
    ops_same add a h t = cc
    ops_same mul a h t = cc
    ops_same div a h t = cc
    ops_same or a h t = cc
    ops_same shl_ a h t = cc
    ops_same shr_ a h t = cc

    pub zero_src1 :
        (op : Alu) (b : ℕ) → opc_zero_if_src1_is_zero (no_of op) ≡ true → alu_value op k 0 b ≡ 0
    unfolding alu_value
    zero_src1 mul b t = let same : 0 * b ≡ 0 = omega arith in rw same (zero-mod (2 ^ bitwidth k))
    zero_src1 shl_ b t =
        let same : shl 0 (b % bitwidth k) ≡ 0 = omega (arith, shl-eq-mul-pow (b % bitwidth k) 0) in
        rw same (zero-mod (2 ^ bitwidth k))
    zero_src1 shr_ b t = s.zero-shifted k b
    zero_src1 add b t = cc
    zero_src1 sub b t = cc
    zero_src1 div b t = cc
    zero_src1 xor b t = cc
    zero_src1 or b t = cc

    pub zero_src2 :
        (op : Alu) (a : ℕ) → opc_zero_if_src2_is_zero (no_of op) ≡ true → alu_value op k a 0 ≡ 0
    unfolding alu_value
    zero_src2 mul a t = let same : a * 0 ≡ 0 = omega arith in rw same (zero-mod (2 ^ bitwidth k))
    zero_src2 add a t = cc
    zero_src2 sub a t = cc
    zero_src2 div a t = cc
    zero_src2 xor a t = cc
    zero_src2 or a t = cc
    zero_src2 shl_ a t = cc
    zero_src2 shr_ a t = cc

    pub power_src2 : (a j : ℕ) → j < bitwidth k → alu_value mul k a (2 ^ j) ≡ alu_value shl_ k a j
    unfolding alu_value
    power_src2 a j h = rw (mod-eq_of_lt h, shl-eq-mul-pow j a) refl

    pub power_src1 : (b j : ℕ) → j < bitwidth k → alu_value mul k (2 ^ j) b ≡ alu_value shl_ k b j
    unfolding alu_value
    power_src1 b j h = rw (mod-eq_of_lt h, shl-eq-mul-pow j b, mul_comm (2 ^ j) b) refl

-- The value of an operand of an instruction of the kind.
abbrev pub operand_value : (ℕ → ℕ) → Dk → Operand → ℕ
operand_value regs k (reg r) = regs r.name % 2 ^ bitwidth k
operand_value regs k (const kind value) = mod_ℤ value (2 ^ bitwidth k)
operand_value regs k _ = 0

abbrev alu_of : ℕ → Option Alu
alu_of opc =
    if opc == 0x10
    then some add
    else if opc == 0x11
    then some sub
    else if opc == 0x12
    then some mul
    else if opc == 0x13
    then some div
    else if opc == 0x18
    then some xor
    else if opc == 0x1a
    then some or
    else if opc == 0x1b
    then some shl_
    else if opc == 0x1c
    then some shr_
    else none

-- What an instruction assigns: the name of its register, and the value.
module _ (s : Signed) (regs : ℕ → ℕ) where
  abbrev computed : Dk → ℕ → ℕ → Option Alu → Option ℕ
  computed k a b none = none
  computed k a b (some op) = some (alu_value s op k a b)

  unfoldable pub assigned : ℕ → List Operand → Option (ℕ × ℕ)
  assigned opc (reg d ∷ a ∷ b ∷ []) = do
    v ← computed d.kind (operand_value regs d.kind a) (operand_value regs d.kind b) (alu_of opc)
    some (d.name, v)
  assigned opc (reg d ∷ a ∷ []) =
      if opc == 0x34 then some (d.name, operand_value regs d.kind a) else none
  assigned opc _ = none

  -- The assignment of the instructions that are to stand in the place of the old one.
  unfoldable pub assigned_by : Option (List Ins) → Option (ℕ × ℕ) → Option (ℕ × ℕ)
  unfolding assigned
  assigned_by none old = old
  assigned_by (some (ins ∷ [])) old = assigned ins.opcode.no ins.operands
  assigned_by (some _) old = none
