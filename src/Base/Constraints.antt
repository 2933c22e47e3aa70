-- ===== src/Base/Constraints.antt =====
-- Base/opcode_tab.py, `CheckTypeConstraint` against the ranges of `RegIsInt` and `RegIsAddrInt`, and
-- the order of the constraints.
use cwerg.Prelude.{
  Bool, true, false, not, ◌||◌, ◌≡◌, refl, Option, none, some, List, [], ◌∷◌, all, ◌==◌, arith,
}
use cwerg.Base.Kinds.{
  Dk, s8, s16, s32, s64, u8, u16, u32, u64, f8, f16, f32, f64, a32, a64, c32, c64, Tc, any,
  addr_num, addr_int, num, flt, int, addr, code, uint, sint, offset, flavor, reg_is_int, flavor_a,
  check_type_constraint,
}

-- The second constraint admits more than the first.
pub data Wider : Tc → Tc → Type 0 where
  sint_int : Wider sint int
  uint_int : Wider uint int
  int_num : Wider int num
  flt_num : Wider flt num
  num_addr_num : Wider num addr_num
  addr_addr_num : Wider addr addr_num
  int_addr_int : Wider int addr_int
  addr_addr_int : Wider addr addr_int
  int_offset : Wider int offset
  offset_int : Wider offset int
  addr_int_addr_num : Wider addr_int addr_num
  code_any : Wider code any
  addr_num_any : Wider addr_num any

abbrev pub all_kinds : List Dk
all_kinds =
    Dk.invalid ∷ s8 ∷ s16 ∷ s32 ∷ s64 ∷ u8 ∷ u16 ∷ u32 ∷ u64 ∷ f8 ∷ f16 ∷ f32 ∷ f64 ∷ a32 ∷ a64
    ∷ c32 ∷ c64 ∷ []

accepts : Option Bool → Bool
accepts (some true) = true
accepts _ = false

module _ (p : Dk → Bool) where
  pub every_kind : (k : Dk) → all p all_kinds ≡ true → p k ≡ true
  every_kind Dk.invalid h = ground arith
  every_kind s8 h = ground arith
  every_kind s16 h = ground arith
  every_kind s32 h = ground arith
  every_kind s64 h = ground arith
  every_kind u8 h = ground arith
  every_kind u16 h = ground arith
  every_kind u32 h = ground arith
  every_kind u64 h = ground arith
  every_kind f8 h = ground arith
  every_kind f16 h = ground arith
  every_kind f32 h = ground arith
  every_kind f64 h = ground arith
  every_kind a32 h = ground arith
  every_kind a64 h = ground arith
  every_kind c32 h = ground arith
  every_kind c64 h = ground arith

accepted : (r : Option Bool) → accepts r ≡ true → r ≡ some true
unfolding accepts
accepted none h = cc
accepted (some true) h = refl
accepted (some false) h = cc

module _ (last_type : Dk) where
  passes : Tc → Tc → Dk → Bool
  passes a b k =
      not (accepts (check_type_constraint last_type a k))
      || accepts (check_type_constraint last_type b k)

  passes_step :
      (a b : Tc) (k : Dk)
      → passes a b k ≡ true
      → check_type_constraint last_type a k ≡ some true
      → check_type_constraint last_type b k ≡ some true
  unfolding passes accepts
  passes_step a b k h e = accepted (check_type_constraint last_type b k) (ground arith)

  -- A type that meets a constraint meets each wider one.
  pub check_type_constraint-Wider :
      {a b : Tc}
      → Wider a b
      → (k : Dk) → check_type_constraint last_type a k ≡ some true
      → check_type_constraint last_type b k ≡ some true
  unfolding check_type_constraint passes accepts
  check_type_constraint-Wider sint_int k e =
      passes_step sint int k (every_kind (passes sint int) k refl) e
  check_type_constraint-Wider uint_int k e =
      passes_step uint int k (every_kind (passes uint int) k refl) e
  check_type_constraint-Wider int_num k e =
      passes_step int num k (every_kind (passes int num) k refl) e
  check_type_constraint-Wider flt_num k e =
      passes_step flt num k (every_kind (passes flt num) k refl) e
  check_type_constraint-Wider num_addr_num k e =
      passes_step num addr_num k (every_kind (passes num addr_num) k refl) e
  check_type_constraint-Wider addr_addr_num k e =
      passes_step addr addr_num k (every_kind (passes addr addr_num) k refl) e
  check_type_constraint-Wider int_addr_int k e =
      passes_step int addr_int k (every_kind (passes int addr_int) k refl) e
  check_type_constraint-Wider addr_addr_int k e =
      passes_step addr addr_int k (every_kind (passes addr addr_int) k refl) e
  check_type_constraint-Wider int_offset k e =
      passes_step int offset k (every_kind (passes int offset) k refl) e
  check_type_constraint-Wider offset_int k e =
      passes_step offset int k (every_kind (passes offset int) k refl) e
  check_type_constraint-Wider addr_int_addr_num k e =
      passes_step addr_int addr_num k (every_kind (passes addr_int addr_num) k refl) e
  check_type_constraint-Wider code_any k e =
      passes_step code any k (every_kind (passes code any) k refl) e
  check_type_constraint-Wider addr_num_any k e =
      passes_step addr_num any k (every_kind (passes addr_num any) k refl) e

  -- `RegIsInt` and `RegIsAddrInt`, which compare numbers of kinds, test the flavor.
  pub check_type_constraint-int :
      (k : Dk)
      → (check_type_constraint last_type int k ≡ some (reg_is_int k))
        × (check_type_constraint last_type addr_int k
            ≡ some (reg_is_int k || (flavor k == flavor_a)))
  unfolding check_type_constraint reg_is_int flavor
  check_type_constraint-int Dk.invalid = (refl, refl)
  check_type_constraint-int s8 = (refl, refl)
  check_type_constraint-int s16 = (refl, refl)
  check_type_constraint-int s32 = (refl, refl)
  check_type_constraint-int s64 = (refl, refl)
  check_type_constraint-int u8 = (refl, refl)
  check_type_constraint-int u16 = (refl, refl)
  check_type_constraint-int u32 = (refl, refl)
  check_type_constraint-int u64 = (refl, refl)
  check_type_constraint-int f8 = (refl, refl)
  check_type_constraint-int f16 = (refl, refl)
  check_type_constraint-int f32 = (refl, refl)
  check_type_constraint-int f64 = (refl, refl)
  check_type_constraint-int a32 = (refl, refl)
  check_type_constraint-int a64 = (refl, refl)
  check_type_constraint-int c32 = (refl, refl)
  check_type_constraint-int c64 = (refl, refl)
