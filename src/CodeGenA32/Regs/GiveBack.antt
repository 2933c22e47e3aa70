-- ===== src/CodeGenA32/Regs/GiveBack.antt =====
-- CodeGenA32/regs.py, `give_back_available_reg` after `get_available_reg`.
use Prim.Native.Nat.{bit_and, bit_or}
use cwerg.Prelude.{
  ℕ, zero, suc, ◌<◌, ◌*◌, Bool, true, false, ◌≡◌, ◌≢◌, refl, sym, ap, subst, ◌∙◌, Option, none,
  some, if◌then◌else◌, arith,
}
use cwerg.Prelude.Word.{shl, without, bit}
use cwerg.Prelude.Bits.{bit_ext, bit-bit_and, bit-bit_or, bit-bit_xor, bit-lt-two, bit-zero}
use cwerg.Base.Kinds.{
  Dk, s8, s16, s32, s64, u8, u16, u32, u64, f8, f16, f32, f64, a32, a64, c32, c64, dk_value, flavor,
}
use cwerg.Base.RegAlloc.{LiveRange}
use cwerg.CodeGenA32.Regs.{
  RegKind, gpr, flt, dbl, CpuReg, RegPoolArm, a32_reg_to_alloc_mask, gpr_callee_save_regs_mask,
  flt_callee_save_regs_mask, get_available, set_available, is_gpr_kind, class_of, get_available_reg,
  is_gpr_reg, is_lac_reg, give_back_available_reg,
}
use cwerg.CodeGenA32.Regs.Pool.{IsReady, SameAvailable, IsAllocated, get_available_reg-IsAllocated}

abbrev saved_mask : Bool → ℕ
saved_mask is_gpr = if is_gpr then gpr_callee_save_regs_mask else flt_callee_save_regs_mask

-- The registers for live ranges across calls are those saved by the callee, the others are not.
abbrev pub IsSplit : RegPoolArm → Type 0
IsSplit pool =
    (is_gpr : Bool)
    → (bit_and (get_available pool true is_gpr) (saved_mask is_gpr)
        ≡ get_available pool true is_gpr)
      × (bit_and (get_available pool false is_gpr) (saved_mask is_gpr) ≡ 0)

without_then_or : (m x : ℕ) → bit_and x m ≡ m → bit_or (without m x) m ≡ x
without_then_or m x h = bit_ext _ _ λ i. omega (
  arith,
  bit-bit_or i (without m x) m,
  bit-bit_xor i x (bit_and x m),
  bit-bit_and i x m,
  ap (λ (t : ℕ). bit t i) h,
  bit-lt-two i x,
)

part_inside : (x m s : ℕ) → bit_and x m ≡ m → bit_and x s ≡ x → bit_and m s ≡ m
part_inside x m s h k = bit_ext _ _ λ i. omega (
  arith,
  bit-bit_and i x m,
  bit-bit_and i x s,
  bit-bit_and i m s,
  ap (λ (t : ℕ). bit t i) h,
  ap (λ (t : ℕ). bit t i) k,
)

part_outside : (x m s : ℕ) → bit_and x m ≡ m → bit_and x s ≡ 0 → bit_and m s ≡ 0
part_outside x m s h k = bit_ext _ _ λ i. omega (
  arith,
  bit-bit_and i x m,
  bit-bit_and i x s,
  bit-bit_and i m s,
  bit-zero i,
  ap (λ (t : ℕ). bit t i) h,
  ap (λ (t : ℕ). bit t i) k,
)

shl_pos : (x k : ℕ) → 0 < x → 0 < shl x k
unfolding shl
shl_pos x zero h = h
shl_pos x (suc k) h = omega (arith, shl_pos x k h)

mask_pos : (kind : RegKind) (n : ℕ) → 0 < a32_reg_to_alloc_mask (record { no = n; kind = kind })
unfolding a32_reg_to_alloc_mask
mask_pos gpr n = shl_pos 1 n (omega arith)
mask_pos flt n = shl_pos 1 n (omega arith)
mask_pos dbl n = shl_pos 3 (n * 2) (omega arith)

-- What is taken for a live range across calls is saved by the callee, and the converse.
is_lac_of_split :
    (lac : Bool) (r : CpuReg) (x : ℕ)
    → bit_and x (a32_reg_to_alloc_mask r) ≡ a32_reg_to_alloc_mask r
    → (lac ≡ true → bit_and x (saved_mask (is_gpr_reg r)) ≡ x)
    → (lac ≡ false → bit_and x (saved_mask (is_gpr_reg r)) ≡ 0)
    → is_lac_reg r ≡ lac
unfolding is_lac_reg
is_lac_of_split true r x bits inside outside =
    let h =
      part_inside x (a32_reg_to_alloc_mask r) (saved_mask (is_gpr_reg r)) bits (inside refl) in
    let positive = mask_pos r.kind r.no in ground arith
is_lac_of_split false r x bits inside outside =
    let h =
      part_outside x (a32_reg_to_alloc_mask r) (saved_mask (is_gpr_reg r)) bits (outside refl) in
    ground arith

-- Of the kinds only F8 and F16 take a general register from the pool of the others.
same_class :
    (kind : Dk) (n : ℕ)
    → kind ≢ f8
    → kind ≢ f16
    → is_gpr_kind kind ≡ is_gpr_reg (record { no = n; kind = class_of kind })
unfolding is_gpr_kind is_gpr_reg class_of dk_value flavor
same_class Dk.invalid n h8 h16 = refl
same_class s8 n h8 h16 = refl
same_class s16 n h8 h16 = refl
same_class s32 n h8 h16 = refl
same_class s64 n h8 h16 = refl
same_class u8 n h8 h16 = refl
same_class u16 n h8 h16 = refl
same_class u32 n h8 h16 = refl
same_class u64 n h8 h16 = refl
same_class f8 n h8 h16 = absurd (h8 refl)
same_class f16 n h8 h16 = absurd (h16 refl)
same_class f32 n h8 h16 = refl
same_class f64 n h8 h16 = refl
same_class a32 n h8 h16 = refl
same_class a64 n h8 h16 = refl
same_class c32 n h8 h16 = refl
same_class c64 n h8 h16 = refl

restored :
    (pool pool' : RegPoolArm) (lac is_gpr : Bool) (x left : ℕ)
    → SameAvailable (set_available pool lac is_gpr left) pool'
    → x ≡ get_available pool lac is_gpr
    → SameAvailable pool (set_available pool' lac is_gpr x)
unfolding get_available set_available
restored pool pool' true true x left same back true true = back
restored pool pool' true true x left same back true false = same true false
restored pool pool' true true x left same back false true = same false true
restored pool pool' true true x left same back false false = same false false
restored pool pool' true false x left same back true true = same true true
restored pool pool' true false x left same back true false = back
restored pool pool' true false x left same back false true = same false true
restored pool pool' true false x left same back false false = same false false
restored pool pool' false true x left same back true true = same true true
restored pool pool' false true x left same back true false = same true false
restored pool pool' false true x left same back false true = back
restored pool pool' false true x left same back false false = same false false
restored pool pool' false false x left same back true true = same true true
restored pool pool' false false x left same back true false = same true false
restored pool pool' false false x left same back false true = same false true
restored pool pool' false false x left same back false false = back

-- After the register, if there is one, has been given back.
abbrev pub IsRestored : RegPoolArm → Option CpuReg → RegPoolArm → Type 0
IsRestored pool none pool' = SameAvailable pool pool'
IsRestored pool (some r) pool' = SameAvailable pool (give_back_available_reg pool' r)

get-set :
    (pool : RegPoolArm) (lac is_gpr : Bool) (x : ℕ)
    → get_available (set_available pool lac is_gpr x) lac is_gpr ≡ x
unfolding get_available set_available
get-set pool true true x = refl
get-set pool true false x = refl
get-set pool false true x = refl
get-set pool false false x = refl

given_back :
    (pool pool' : RegPoolArm) (r : CpuReg) (lac is_gpr : Bool)
    → is_lac_reg r ≡ lac
    → is_gpr_reg r ≡ is_gpr
    → bit_and (get_available pool lac is_gpr) (a32_reg_to_alloc_mask r) ≡ a32_reg_to_alloc_mask r
    → SameAvailable
        (set_available pool lac is_gpr
          (without (a32_reg_to_alloc_mask r) (get_available pool lac is_gpr)))
        pool'
    → SameAvailable pool (give_back_available_reg pool' r)
unfolding give_back_available_reg
given_back pool pool' r lac is_gpr same_lac same_gpr bits same =
    let m = a32_reg_to_alloc_mask r in
    let left = without m (get_available pool lac is_gpr) in
    let now = bit_or (get_available pool' lac is_gpr) m in
    let back : now ≡ get_available pool lac is_gpr =
      ap (λ t. bit_or t m) (same lac is_gpr ∙ get-set pool lac is_gpr left)
      ∙ without_then_or m (get_available pool lac is_gpr) bits in
    let given : set_available pool' lac is_gpr now ≡ give_back_available_reg pool' r =
      rw (give_back_available_reg, same_lac, same_gpr) refl in
    subst (SameAvailable pool) given (restored pool pool' lac is_gpr now left same back)

module _ (pool : RegPoolArm) (lr : LiveRange) (split : IsSplit pool) (f8_not : lr.reg.kind ≢ f8)
    (f16_not : lr.reg.kind ≢ f16) where
  allocated-IsRestored :
      (found : Option CpuReg) (pool' : RegPoolArm)
      → IsAllocated pool lr found pool'
      → IsRestored pool found pool'
  allocated-IsRestored none pool' same = same
  allocated-IsRestored (some r) pool' (kind, bits, left, clear) =
      let is_gpr = is_gpr_kind lr.reg.kind in
      let same_gpr : is_gpr_reg r ≡ is_gpr =
        ap (λ t. is_gpr_reg (record { no = r.no; kind = t })) kind
        ∙ sym (same_class lr.reg.kind r.no f8_not f16_not) in
      let same_lac : is_lac_reg r ≡ lr.lac =
        is_lac_of_split lr.lac r (get_available pool lr.lac is_gpr) bits
          (λ h.
            subst
              (λ t.
                bit_and (get_available pool t is_gpr) (saved_mask (is_gpr_reg r))
                ≡ get_available pool t is_gpr)
              (sym h) (rw same_gpr (split is_gpr).0))
          (λ h.
            subst (λ t. bit_and (get_available pool t is_gpr) (saved_mask (is_gpr_reg r)) ≡ 0)
              (sym h) (rw same_gpr (split is_gpr).1)) in
      given_back pool pool' r lr.lac is_gpr same_lac same_gpr bits left

  -- If the ranges reserved for each register are in order, and those passed over have ended when the
  -- live range is defined, the registers that a pool has for live ranges across calls are those saved by
  -- the callee, and the kind of the live range is not F8 or F16, then the register that a pool which
  -- allows spilling gives, if it gives one, can be given back, and then the same registers are available
  -- as before.
  pub give_back_available_reg-get_available_reg :
      pool.allow_spilling ≡ true
      → IsReady lr pool
      → (found : Option CpuReg) × (pool' : RegPoolArm) × (get_available_reg pool lr
          ≡ some (found, pool'))
        × IsRestored pool found pool'
  give_back_available_reg-get_available_reg spilling ready =
      let (found, pool', got, later, allocated) =
        get_available_reg-IsAllocated pool lr spilling ready in
      (found, pool', got, allocated-IsRestored found pool' allocated)
