-- ===== src/Base/Lowering/Soundness.antt =====
-- Base/lowering.py, `_InsStrengthReduction` on the instructions with two sources.
use cwerg.Prelude.{
  ℕ, Bool, true, false, Option, none, some, List, [], ◌∷◌, ◌-◌, ◌^◌, ◌<◌, ◌≤◌, ◌≡◌, inl, inr, ◌==◌,
  refl, sym, ◌∙◌, subst, arith, Bool-cases, ltb,
}
use native.Mathlib.Nat.{mod-eq_of_lt, pow-le-pow_right}
use cwerg.Prelude.Int.{ℤ, pos, negsuc, ltb_ℤ, eqb_ℤ}
use cwerg.Prelude.Bits.{pow_pos}
use cwerg.Base.Kinds.{Dk, bitwidth, reg_is_int, flavor, flavor_u}
use cwerg.Base.Ir.{Reg, Operand, reg, const, func, other, Ins}
use cwerg.Base.Const.{is_zero, is_int_power_of_two}
use cwerg.Base.Const.Ranges.{Fits, InWidth, int_kind}
use cwerg.Base.Const.Powers.{is_int_power_of_two-int_binary_log}
use cwerg.Base.Const.Read.{lt-pow_two}
use cwerg.Base.Lowering.{
  const_and, is_int_reg, log_of, strength_reduction, ins_strength_reduction, ins_is_nop1,
  ins_is_nop2, ins_is_zero,
}
use cwerg.Base.Lowering.Values.{
  Alu, no_of, Signed, alu_value, operand_value, assigned, assigned_by, power_src1, power_src2,
}
use cwerg.Base.Lowering.Reduction.{
  IsSource, Assigns, value_of, assigned-alu, none_step, shift2_step, shift1_step, shifted, nop1,
  nop2, zeroed,
}

-- A positive number that a kind can hold is below the power of two of its width.
below_width : (us : Bool) (w n : ℕ) → 0 < w → InWidth us w (pos n) → n < 2 ^ w
below_width true w n some_width fits = omega (arith, pow_pos w)
below_width false w n some_width fits =
    let half : 2 ^ (w - 1) ≤ 2 ^ w = pow-le-pow_right {n = 2} (omega arith) (omega arith) in
    omega (arith, pow_pos (w - 1))

below_of_pow : (j w : ℕ) → 2 ^ j < 2 ^ w → j < w
below_of_pow j w h = elim (Bool-cases (ltb j w)) [
  | inl less ↦ ground arith
  | inr more ↦ absurd (
      let wide : 2 ^ w ≤ 2 ^ j =
        pow-le-pow_right {n = 2} (omega arith) {i = w} {j = j} (ground arith) in
      omega arith)
]

positive :
    (kind : Dk) (value : ℤ)
    → is_int_power_of_two (record { kind = kind; value = value }) ≡ true
    → eqb_ℤ value (pos 0) ≡ false
    → ltb_ℤ (pos 0) value ≡ true
unfolding is_int_power_of_two
positive kind (pos n) test nonzero = ground arith
positive kind (negsuc n) test nonzero = absurd (ground arith)

module _ (regs : ℕ → ℕ) (k : Dk) (w : 0 < bitwidth k) where
  abbrev PowerOf : Operand → Type 0
  PowerOf x =
      (j : ℕ) × (log_of (some x) ≡ some j) × (operand_value regs k x ≡ 2 ^ j) × (j < bitwidth k)

  power_of :
      (x : Operand)
      → IsSource k x
      → const_and is_int_power_of_two (some x) ≡ true
      → const_and is_zero (some x) ≡ false
      → PowerOf x
  unfolding is_zero
  power_of (const kind value) (same, fits) test nonzero =
      let (j, log, e) =
        is_int_power_of_two-int_binary_log (record { kind = kind; value = value }) test
          (positive kind value test nonzero) in
      let low : 2 ^ j < 2 ^ bitwidth k =
        below_width (flavor k == flavor_u) (bitwidth k) (2 ^ j) w (subst (Fits k) e fits) in
      (j, log, rw e (mod-eq_of_lt low), below_of_pow j (bitwidth k) low)
  power_of (reg r) h test nonzero = cc
  power_of (func callee) h test nonzero = cc
  power_of (other n) h test nonzero = cc

module _ (s : Signed) (regs : ℕ → ℕ) (d : Reg) (a b : Operand) (w : 0 < bitwidth d.kind)
    (int_d : is_int_reg (some (reg d)) ≡ true) (src_a : IsSource d.kind a)
    (src_b : IsSource d.kind b) where
  kept :
      (op : Alu)
      → strength_reduction (no_of op) (reg d ∷ a ∷ b ∷ []) ≡ some none
      → Assigns s regs d a b (no_of op) (value_of s regs d a b op)
  unfolding assigned_by
  kept op e = (none, e, assigned-alu s regs d a b op)

  not_zero :
      ins_is_zero 0x12 (reg d ∷ a ∷ b ∷ []) ≡ false
      → (const_and is_zero (some a) ≡ false) × (const_and is_zero (some b) ≡ false)
  unfolding ins_is_zero
  not_zero h = (ground arith, ground arith)

  module _ (f : ins_is_nop1 0x12 (reg d ∷ a ∷ b ∷ []) ≡ false)
      (g : ins_is_nop2 0x12 (reg d ∷ a ∷ b ∷ []) ≡ false)
      (h : ins_is_zero 0x12 (reg d ∷ a ∷ b ∷ []) ≡ false) where
    by_src2 :
        const_and is_int_power_of_two (some b) ≡ true
        → Assigns s regs d a b 0x12 (value_of s regs d a b Alu.mul)
    by_src2 power =
        let (j, log, e, low) = power_of regs d.kind w b src_b power (not_zero h).1 in
        shifted s regs d a b 0x12 a j _
          (shift2_step s regs d a b 0x12 j f g h (rw (int_d, power) refl) log)
          (omega (arith, lt-pow_two (bitwidth d.kind))) (rw e (power_src2 s d.kind w _ j low))

    by_src1 :
        const_and is_int_power_of_two (some b) ≡ false
        → const_and is_int_power_of_two (some a) ≡ true
        → Assigns s regs d a b 0x12 (value_of s regs d a b Alu.mul)
    by_src1 other_b power =
        let (j, log, e, low) = power_of regs d.kind w a src_a power (not_zero h).0 in
        shifted s regs d a b 0x12 b j _
          (shift1_step s regs d a b 0x12 j f g h (rw (int_d, other_b) refl) (rw (int_d, power) refl)
            log)
          (omega (arith, lt-pow_two (bitwidth d.kind))) (rw e (power_src1 s d.kind w _ j low))

    by_power : Assigns s regs d a b 0x12 (value_of s regs d a b Alu.mul)
    by_power = elim (Bool-cases (const_and is_int_power_of_two (some b))) [
      | inl power ↦ by_src2 power
      | inr other_b ↦ elim (Bool-cases (const_and is_int_power_of_two (some a))) [
        | inl power ↦ by_src1 other_b power
        | inr other_a ↦ kept Alu.mul (
            none_step s regs d a b 0x12 f g h (rw (int_d, other_b) refl) (rw (int_d, other_a) refl))
      ]
    ]

  rest :
      (op : Alu)
      → ins_is_nop1 (no_of op) (reg d ∷ a ∷ b ∷ []) ≡ false
      → ins_is_nop2 (no_of op) (reg d ∷ a ∷ b ∷ []) ≡ false
      → ins_is_zero (no_of op) (reg d ∷ a ∷ b ∷ []) ≡ false
      → Assigns s regs d a b (no_of op) (value_of s regs d a b op)
  rest Alu.mul f g h = by_power f g h
  rest Alu.add f g h = kept Alu.add (none_step s regs d a b 0x10 f g h refl refl)
  rest Alu.sub f g h = kept Alu.sub (none_step s regs d a b 0x11 f g h refl refl)
  rest Alu.div f g h = kept Alu.div (none_step s regs d a b 0x13 f g h refl refl)
  rest Alu.xor f g h = kept Alu.xor (none_step s regs d a b 0x18 f g h refl refl)
  rest Alu.or f g h = kept Alu.or (none_step s regs d a b 0x1a f g h refl refl)
  rest Alu.shl_ f g h = kept Alu.shl_ (none_step s regs d a b 0x1b f g h refl refl)
  rest Alu.shr_ f g h = kept Alu.shr_ (none_step s regs d a b 0x1c f g h refl refl)

  every : (op : Alu) → Assigns s regs d a b (no_of op) (value_of s regs d a b op)
  every op = elim (Bool-cases (ins_is_nop1 (no_of op) (reg d ∷ a ∷ b ∷ []))) [
    | inl f ↦ nop1 s regs d a b op w f
    | inr f ↦ elim (Bool-cases (ins_is_nop2 (no_of op) (reg d ∷ a ∷ b ∷ []))) [
      | inl g ↦ nop2 s regs d a b op w f g
      | inr g ↦ elim (Bool-cases (ins_is_zero (no_of op) (reg d ∷ a ∷ b ∷ []))) [
        | inl h ↦ zeroed s regs d a b op w f g h
        | inr h ↦ rest op f g h
      ]
    ]
  ]

-- An instruction with an integer register as destination and sources of its kind, which adds,
-- subtracts, multiplies, divides, shifts or combines by `or` or `xor`: its strength reduction
-- succeeds, and leaves one instruction, or the old one, that assigns the same value to the same
-- register as the old one, whatever the registers hold.
pub ins_strength_reduction-assigned :
    (s : Signed) (regs : ℕ → ℕ) (ins : Ins) (op : Alu) (d : Reg) (a b : Operand)
    → ins.opcode.no ≡ no_of op
    → ins.operands ≡ reg d ∷ a ∷ b ∷ []
    → reg_is_int d.kind ≡ true
    → IsSource d.kind a
    → IsSource d.kind b
    → (r : Option (List Ins)) × (ins_strength_reduction ins ≡ some r)
      × (assigned_by s regs r (assigned s regs ins.opcode.no ins.operands)
          ≡ assigned s regs ins.opcode.no ins.operands)
      × (assigned s regs ins.opcode.no ins.operands
          ≡ some (
            d.name,
            alu_value s op d.kind (operand_value regs d.kind a) (operand_value regs d.kind b),
          ))
unfolding ins_strength_reduction
ins_strength_reduction-assigned s regs ins op d a b e es int src_a src_b =
    let (wide, flavors) = int_kind d.kind int in
    let (r, done, value) = every s regs d a b wide flavors src_a src_b op in
    let old = assigned-alu s regs d a b op in
    (r, rw (e, es) done, rw (e, es) (value ∙ sym old), rw (e, es) old)
