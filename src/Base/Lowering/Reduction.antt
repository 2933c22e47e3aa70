-- ===== src/Base/Lowering/Reduction.antt =====
-- Base/lowering.py, the branches of `_InsStrengthReduction` and the values that they assign.
use cwerg.Prelude.{
  ℕ, Bool, true, false, Option, none, some, List, [], ◌∷◌, ◌^◌, ◌<◌, ◌≤◌, ◌≡◌, ◌⊎◌, inl, inr, ◌==◌,
  ◌||◌, ◌&&◌, refl, sym, ◌∙◌, arith,
}
use native.Mathlib.Nat.{mod-eq_of_lt, mod-lt, zero-mod, pow-le-pow_right}
use cwerg.Prelude.Int.{pos, negsuc}
use cwerg.Prelude.Bits.{pow_pos}
use cwerg.Base.Kinds.{Dk, bitwidth}
use cwerg.Base.Ir.{Reg, Operand, reg, const, func, other, Ins}
use cwerg.Base.Const.{is_zero, is_one, is_int_power_of_two}
use cwerg.Base.Const.Ranges.{Fits, mod_ℤ-lt}
use cwerg.Base.Lowering.{
  opc_nop_if_src2_is_zero, opc_nop_if_src1_is_zero, opc_nop_if_src2_is_one, opc_nop_if_src1_is_one,
  opc_zero_if_ops_same, opc_zero_if_src1_is_zero, opc_zero_if_src2_is_zero, const_and, is_int_reg,
  log_of, same_operand, strength_reduction, ins_is_nop1, ins_is_nop2, ins_is_zero, init_ins,
  set_zero, shift_by, mov_opcode, shl_opcode,
}
use cwerg.Base.Lowering.Values.{
  Alu, no_of, Signed, alu_value, operand_value, assigned, assigned_by, src2_zero, src2_one,
  src1_zero, src1_one, ops_same, zero_src1, zero_src2,
}

-- A register or a constant of the kind.
abbrev pub IsSource : Dk → Operand → Type 0
IsSource k (reg r) = r.kind ≡ k
IsSource k (const kind value) = (kind ≡ k) × Fits k value
IsSource k _ = ⊥

module _ (regs : ℕ → ℕ) (k : Dk) where
  value-lt : (x : Operand) → operand_value regs k x < 2 ^ bitwidth k
  value-lt (reg r) = mod-lt (regs r.name) (pow_pos (bitwidth k))
  value-lt (const kind value) = mod_ℤ-lt value (bitwidth k)
  value-lt (func callee) = pow_pos (bitwidth k)
  value-lt (other n) = pow_pos (bitwidth k)

  value-zero : (x : Operand) → const_and is_zero (some x) ≡ true → operand_value regs k x ≡ 0
  unfolding is_zero
  value-zero (const kind (pos n)) h =
      let e : n ≡ 0 = ground arith in rw e (zero-mod (2 ^ bitwidth k))
  value-zero (const kind (negsuc n)) h = cc
  value-zero (reg r) h = cc
  value-zero (func callee) h = refl
  value-zero (other n) h = refl

  value-one :
      0 < bitwidth k → (x : Operand) → const_and is_one (some x) ≡ true → operand_value regs k x ≡ 1
  unfolding is_one
  value-one w (const kind (pos n)) h =
      let e : n ≡ 1 = ground arith in
      let two : 2 ^ 1 ≤ 2 ^ bitwidth k = pow-le-pow_right {n = 2} (omega arith) {i = 1} w in
      rw e (mod-eq_of_lt (omega arith))
  value-one w (const kind (negsuc n)) h = cc
  value-one w (reg r) h = cc
  value-one w (func callee) h = cc
  value-one w (other n) h = cc

  value-same :
      (x y : Operand)
      → same_operand (some x) (some y) ≡ true
      → operand_value regs k x ≡ operand_value regs k y
  value-same (reg r) (reg t) h = let e : r.name ≡ t.name = ground arith in rw e refl
  value-same (const i (pos n)) (const j (pos m)) h = let e : n ≡ m = ground arith in rw e refl
  value-same (const i (negsuc n)) (const j (negsuc m)) h = let e : n ≡ m = ground arith in rw e refl
  value-same (const i (pos n)) (const j (negsuc m)) h = absurd (ground arith)
  value-same (const i (negsuc n)) (const j (pos m)) h = absurd (ground arith)
  value-same (other n) (other m) h = refl
  value-same _ _ h = cc

either :
    (x y z t : Bool)
    → x && y || z && t ≡ true
    → ((x ≡ true) × (y ≡ true)) ⊎ ((z ≡ true) × (t ≡ true))
either true true z t h = inl (refl, refl)
either true false true true h = inr (refl, refl)
either false y true true h = inr (refl, refl)
either true false true false h = cc
either true false false t h = cc
either false y true false h = cc
either false y false t h = cc

either_of : (x y r : Bool) → x && y || r ≡ true → ((x ≡ true) × (y ≡ true)) ⊎ (r ≡ true)
either_of true true r h = inl (refl, refl)
either_of true false r h = inr h
either_of false y r h = inr h

module _ (s : Signed) (regs : ℕ → ℕ) (d : Reg) (a b : Operand) where
  abbrev pub value_of : Alu → ℕ
  value_of op = alu_value s op d.kind (operand_value regs d.kind a) (operand_value regs d.kind b)

  pub assigned-alu :
      (op : Alu) → assigned s regs (no_of op) (reg d ∷ a ∷ b ∷ []) ≡ some (d.name, value_of op)
  unfolding assigned
  assigned-alu Alu.add = refl
  assigned-alu Alu.sub = refl
  assigned-alu Alu.mul = refl
  assigned-alu Alu.div = refl
  assigned-alu Alu.xor = refl
  assigned-alu Alu.or = refl
  assigned-alu Alu.shl_ = refl
  assigned-alu Alu.shr_ = refl

  abbrev pub operands : List Operand
  operands = reg d ∷ a ∷ b ∷ []

  -- The rewriting succeeds, and what it leaves assigns the value to the same register.
  abbrev pub Assigns : ℕ → ℕ → Type 0
  Assigns opc v =
      (r : Option (List Ins)) × (strength_reduction opc operands ≡ some r)
      × (assigned_by s regs r (assigned s regs opc operands) ≡ some (d.name, v))

  moved :
      (opc : ℕ) (x : Operand) (v : ℕ)
      → strength_reduction opc operands
        ≡ some (some (record { opcode = mov_opcode; operands = reg d ∷ x ∷ [] } ∷ []))
      → operand_value regs d.kind x ≡ v
      → Assigns opc v
  unfolding assigned assigned_by
  moved opc x v e h =
      (some (record { opcode = mov_opcode; operands = reg d ∷ x ∷ [] } ∷ []), e, rw h refl)

  module _ (opc : ℕ) where
    nop1_step :
        ins_is_nop1 opc operands ≡ true
        → strength_reduction opc operands
          ≡ some (some (record { opcode = mov_opcode; operands = reg d ∷ a ∷ [] } ∷ []))
    unfolding strength_reduction init_ins
    nop1_step h = rw h refl

    nop2_step :
        ins_is_nop1 opc operands ≡ false
        → ins_is_nop2 opc operands ≡ true
        → strength_reduction opc operands
          ≡ some (some (record { opcode = mov_opcode; operands = reg d ∷ b ∷ [] } ∷ []))
    unfolding strength_reduction init_ins
    nop2_step g h = rw (g, h) refl

    zero_step :
        ins_is_nop1 opc operands ≡ false
        → ins_is_nop2 opc operands ≡ false
        → ins_is_zero opc operands ≡ true
        → strength_reduction opc operands
          ≡ some (
              some
                (record { opcode = mov_opcode; operands = reg d ∷ const d.kind (pos 0) ∷ [] } ∷ []))
    unfolding strength_reduction init_ins set_zero
    zero_step g h i = rw (g, h, i) refl

    pub none_step :
        ins_is_nop1 opc operands ≡ false
        → ins_is_nop2 opc operands ≡ false
        → ins_is_zero opc operands ≡ false
        → opc == 0x12 && (is_int_reg (some (reg d)) && const_and is_int_power_of_two (some b))
          ≡ false
        → opc == 0x12 && (is_int_reg (some (reg d)) && const_and is_int_power_of_two (some a))
          ≡ false
        → strength_reduction opc operands ≡ some none
    unfolding strength_reduction
    none_step g h i j k = rw (g, h, i, j, k) refl

    pub shift2_step :
        (n : ℕ)
        → ins_is_nop1 opc operands ≡ false
        → ins_is_nop2 opc operands ≡ false
        → ins_is_zero opc operands ≡ false
        → opc == 0x12 && (is_int_reg (some (reg d)) && const_and is_int_power_of_two (some b))
          ≡ true
        → log_of (some b) ≡ some n
        → strength_reduction opc operands
          ≡ some (
              some (
                record { opcode = shl_opcode; operands = reg d ∷ a ∷ const d.kind (pos n) ∷ [] }
                ∷ []))
    unfolding strength_reduction init_ins shift_by
    shift2_step n g h i j e = rw (g, h, i, j, e) refl

    pub shift1_step :
        (n : ℕ)
        → ins_is_nop1 opc operands ≡ false
        → ins_is_nop2 opc operands ≡ false
        → ins_is_zero opc operands ≡ false
        → opc == 0x12 && (is_int_reg (some (reg d)) && const_and is_int_power_of_two (some b))
          ≡ false
        → opc == 0x12 && (is_int_reg (some (reg d)) && const_and is_int_power_of_two (some a))
          ≡ true
        → log_of (some a) ≡ some n
        → strength_reduction opc operands
          ≡ some (
              some (
                record { opcode = shl_opcode; operands = reg d ∷ b ∷ const d.kind (pos n) ∷ [] }
                ∷ []))
    unfolding strength_reduction init_ins shift_by
    shift1_step n g h i j k e = rw (g, h, i, j, k, e) refl

    pub shifted :
        (x : Operand) (n v : ℕ)
        → strength_reduction opc operands
          ≡ some (
              some (
                record { opcode = shl_opcode; operands = reg d ∷ x ∷ const d.kind (pos n) ∷ [] }
                ∷ []))
        → n < 2 ^ bitwidth d.kind
        → v ≡ alu_value s Alu.shl_ d.kind (operand_value regs d.kind x) n
        → Assigns opc v
    unfolding assigned assigned_by
    shifted x n v e low h = (
      some (record { opcode = shl_opcode; operands = reg d ∷ x ∷ const d.kind (pos n) ∷ [] } ∷ []),
      e,
      rw (mod-eq_of_lt low, h) refl,
    )

  module _ (op : Alu) (w : 0 < bitwidth d.kind) where
    va-lt : operand_value regs d.kind a < 2 ^ bitwidth d.kind
    va-lt = value-lt regs d.kind a

    vb-lt : operand_value regs d.kind b < 2 ^ bitwidth d.kind
    vb-lt = value-lt regs d.kind b

    pub nop1 : ins_is_nop1 (no_of op) operands ≡ true → Assigns (no_of op) (value_of op)
    unfolding ins_is_nop1
    nop1 h =
        moved (no_of op) a (value_of op) (nop1_step (no_of op) h)
          (elim (either (opc_nop_if_src2_is_zero (no_of op)) (const_and is_zero (some b))
            (opc_nop_if_src2_is_one (no_of op)) (const_and is_one (some b)) h) [
              | inl (can, zero_b) ↦
                  sym (rw (value-zero regs d.kind b zero_b) (src2_zero s d.kind w op _ va-lt can))
              | inr (can, one_b) ↦
                  sym (rw (value-one regs d.kind w b one_b) (src2_one s d.kind w op _ va-lt can))
            ])

    pub nop2 :
        ins_is_nop1 (no_of op) operands ≡ false
        → ins_is_nop2 (no_of op) operands ≡ true
        → Assigns (no_of op) (value_of op)
    unfolding ins_is_nop2
    nop2 g h =
        moved (no_of op) b (value_of op) (nop2_step (no_of op) g h)
          (elim (either (opc_nop_if_src1_is_zero (no_of op)) (const_and is_zero (some a))
            (opc_nop_if_src1_is_one (no_of op)) (const_and is_one (some a)) h) [
              | inl (can, zero_a) ↦
                  sym (rw (value-zero regs d.kind a zero_a) (src1_zero s d.kind w op _ vb-lt can))
              | inr (can, one_a) ↦
                  sym (rw (value-one regs d.kind w a one_a) (src1_one s d.kind w op _ vb-lt can))
            ])

    pub zeroed :
        ins_is_nop1 (no_of op) operands ≡ false
        → ins_is_nop2 (no_of op) operands ≡ false
        → ins_is_zero (no_of op) operands ≡ true
        → Assigns (no_of op) (value_of op)
    unfolding ins_is_zero
    zeroed f g h =
        moved (no_of op) (const d.kind (pos 0)) (value_of op) (zero_step (no_of op) f g h) (
          zero-mod (2 ^ bitwidth d.kind)
          ∙ sym
              (elim (either_of (opc_zero_if_ops_same (no_of op)) (same_operand (some a) (some b))
                (opc_zero_if_src1_is_zero (no_of op) && const_and is_zero (some a)
                  || opc_zero_if_src2_is_zero (no_of op) && const_and is_zero (some b))
                h) [
                  | inl (can, same) ↦
                      rw (value-same regs d.kind a b same) (ops_same s d.kind w op _ vb-lt can)
                  | inr rest ↦
                      elim (either (opc_zero_if_src1_is_zero (no_of op))
                        (const_and is_zero (some a)) (opc_zero_if_src2_is_zero (no_of op))
                        (const_and is_zero (some b)) rest) [
                          | inl (can, zero_a) ↦
                              rw (value-zero regs d.kind a zero_a) (zero_src1 s d.kind w op _ can)
                          | inr (can, zero_b) ↦
                              rw (value-zero regs d.kind b zero_b) (zero_src2 s d.kind w op _ can)
                        ]
                ]))
