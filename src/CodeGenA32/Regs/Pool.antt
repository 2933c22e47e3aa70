-- ===== src/CodeGenA32/Regs/Pool.antt =====
-- CodeGenA32/regs.py, what `RegPoolArm.get_available_reg` gives and `give_back_available_reg` takes
-- back.
use Prim.Native.Nat.{bit_and}
use cwerg.Prelude.{ℕ, ◌+◌, ◌*◌, Bool, true, false, ◌≡◌, refl, ap, ◌∙◌, Option, none, some}
use cwerg.Prelude.Word.{without}
use cwerg.Base.RegAlloc.{LiveRange}
use cwerg.CodeGenA32.Regs.{
  RegKind, gpr, flt, dbl, CpuReg, Reserved, RegPoolArm, a32_reg_to_alloc_mask, get_available,
  set_available, find_single, find_double, find_in_class, is_gpr_kind, class_of, take_found,
  get_available_reg,
}
use cwerg.CodeGenA32.Regs.Search.{AllReady, Clear, Searched, SingleFree, find_single-SingleFree}
use cwerg.CodeGenA32.Regs.Pairs.{DoubleFree, find_double-DoubleFree}

-- `has_conflict` can be asked of every register of the pool for the live range.
abbrev pub IsReady : LiveRange → RegPoolArm → Type 0
IsReady lr pool = AllReady lr pool.gpr_reserved × AllReady lr pool.flt_reserved

-- No range reserved for the register overlaps the live range.
abbrev pub IsClear : RegPoolArm → LiveRange → RegKind → ℕ → Type 0
IsClear pool lr gpr n = Clear pool.gpr_reserved lr n
IsClear pool lr flt n = Clear pool.flt_reserved lr n
IsClear pool lr dbl n = Clear pool.flt_reserved lr (n * 2) × Clear pool.flt_reserved lr (n * 2 + 1)

abbrev mask_of : RegKind → ℕ → ℕ
mask_of kind n = a32_reg_to_alloc_mask (record { no = n; kind = kind })

-- The same registers are available.
abbrev pub SameAvailable : RegPoolArm → RegPoolArm → Type 0
SameAvailable pool pool' = (l g : Bool) → get_available pool' l g ≡ get_available pool l g

abbrev FoundInClass : RegKind → ℕ → RegPoolArm → LiveRange → Option ℕ × RegPoolArm → Type 0
FoundInClass kind available pool lr (none, pool') = IsReady lr pool' × SameAvailable pool pool'
FoundInClass kind available pool lr (some n, pool') =
    IsReady lr pool'
    × SameAvailable pool pool'
    × (bit_and available (mask_of kind n) ≡ mask_of kind n)
    × IsClear pool lr kind n

module _ (available : ℕ) (pool : RegPoolArm) (lr : LiveRange) (ready : IsReady lr pool) where
  gpr_found :
      (r : Option ℕ × Reserved)
      → Searched (SingleFree available lr) lr pool.gpr_reserved r
      → FoundInClass gpr available pool lr (r.0, record pool { gpr_reserved = r.1 })
  unfolding a32_reg_to_alloc_mask get_available
  gpr_found (none, r) (now, same) = ((now, ready.1), λ l g. refl)
  gpr_found (some n, r) ((bits, clear), now, same) = ((now, ready.1), (λ l g. refl), bits, clear)

  flt_found :
      (r : Option ℕ × Reserved)
      → Searched (SingleFree available lr) lr pool.flt_reserved r
      → FoundInClass flt available pool lr (r.0, record pool { flt_reserved = r.1 })
  unfolding a32_reg_to_alloc_mask get_available
  flt_found (none, r) (now, same) = ((ready.0, now), λ l g. refl)
  flt_found (some n, r) ((bits, clear), now, same) = ((ready.0, now), (λ l g. refl), bits, clear)

  dbl_found :
      (r : Option ℕ × Reserved)
      → Searched (DoubleFree available lr) lr pool.flt_reserved r
      → FoundInClass dbl available pool lr (r.0, record pool { flt_reserved = r.1 })
  unfolding a32_reg_to_alloc_mask get_available
  dbl_found (none, r) (now, same) = ((ready.0, now), λ l g. refl)
  dbl_found (some n, r) ((bits, low, high), now, same) =
      ((ready.0, now), (λ l g. refl), bits, (low, high))

  find_in_class-FoundInClass :
      (kind : RegKind) → FoundInClass kind available pool lr (find_in_class kind available pool lr)
  unfolding find_in_class
  find_in_class-FoundInClass gpr =
      gpr_found (find_single 16 0 available pool.gpr_reserved lr)
        (find_single-SingleFree available lr 16 0 pool.gpr_reserved ready.0)
  find_in_class-FoundInClass flt =
      flt_found (find_single 32 0 available pool.flt_reserved lr)
        (find_single-SingleFree available lr 32 0 pool.flt_reserved ready.1)
  find_in_class-FoundInClass dbl =
      dbl_found (find_double 16 0 available pool.flt_reserved lr)
        (find_double-DoubleFree available lr 16 0 pool.flt_reserved ready.1)

abbrev wanted : RegPoolArm → LiveRange → ℕ
wanted pool lr = get_available pool lr.lac (is_gpr_kind lr.reg.kind)

-- The register is of the right class, it was available and is so no longer, the others are as
-- before, and no range reserved for it overlaps the live range. For `CPU_REG_SPILL` nothing changes.
abbrev pub IsAllocated : RegPoolArm → LiveRange → Option CpuReg → RegPoolArm → Type 0
IsAllocated pool lr none pool' = SameAvailable pool pool'
IsAllocated pool lr (some r) pool' =
    (r.kind ≡ class_of lr.reg.kind)
    × (bit_and (wanted pool lr) (a32_reg_to_alloc_mask r) ≡ a32_reg_to_alloc_mask r)
    × SameAvailable
        (set_available pool lr.lac (is_gpr_kind lr.reg.kind)
          (without (a32_reg_to_alloc_mask r) (wanted pool lr)))
        pool'
    × IsClear pool lr r.kind r.no

same_set :
    (pool pool' : RegPoolArm) (lac is_gpr : Bool) (available : ℕ)
    → SameAvailable pool pool'
    → SameAvailable
        (set_available pool lac is_gpr available)
        (set_available pool' lac is_gpr available)
unfolding get_available set_available
same_set pool pool' true true available same true true = refl
same_set pool pool' true true available same true false = same true false
same_set pool pool' true true available same false g = same false g
same_set pool pool' true false available same true true = same true true
same_set pool pool' true false available same true false = refl
same_set pool pool' true false available same false g = same false g
same_set pool pool' false true available same false true = refl
same_set pool pool' false true available same false false = same false false
same_set pool pool' false true available same true g = same true g
same_set pool pool' false false available same false true = same false true
same_set pool pool' false false available same false false = refl
same_set pool pool' false false available same true g = same true g

IsReady-set_available :
    (pool : RegPoolArm) (lr : LiveRange) (lac is_gpr : Bool) (available : ℕ)
    → IsReady lr pool
    → IsReady lr (set_available pool lac is_gpr available)
unfolding set_available
IsReady-set_available pool lr true true available ready = ready
IsReady-set_available pool lr true false available ready = ready
IsReady-set_available pool lr false true available ready = ready
IsReady-set_available pool lr false false available ready = ready

abbrev pub Gets : RegPoolArm → LiveRange → Type 0
Gets pool lr =
    (found : Option CpuReg) × (pool' : RegPoolArm) × (get_available_reg pool lr
      ≡ some (found, pool'))
    × IsReady lr pool'
    × IsAllocated pool lr found pool'

module _ (pool : RegPoolArm) (lr : LiveRange) (spilling : pool.allow_spilling ≡ true) where
  Gets-take_found :
      (r : Option ℕ × RegPoolArm)
      → find_in_class (class_of lr.reg.kind) (wanted pool lr) pool lr ≡ r
      → FoundInClass (class_of lr.reg.kind) (wanted pool lr) pool lr r
      → Gets pool lr
  unfolding get_available_reg take_found
  Gets-take_found (none, searched) e (ready, same) =
      (none, searched, ap (take_found pool lr) e ∙ rw spilling refl, ready, same)
  Gets-take_found (some n, searched) e (ready, same, bits, clear) =
      let is_gpr = is_gpr_kind lr.reg.kind in
      let r : CpuReg = record { no = n; kind = class_of lr.reg.kind } in
      let left = without (a32_reg_to_alloc_mask r) (wanted pool lr) in
      (
        some r,
        set_available searched lr.lac is_gpr left,
        ap (take_found pool lr) e,
        IsReady-set_available searched lr lr.lac is_gpr left ready,
        (refl, bits, same_set pool searched lr.lac is_gpr left same, clear),
      )

  -- If the ranges reserved for each register are in order, and those passed over have ended when the
  -- live range is defined, a pool that allows spilling gives either a register of the class of the
  -- kind, which was available and is taken out of the pool, and for which no range is reserved that
  -- overlaps the live range, or `CPU_REG_SPILL`, and then the same registers stay available. In both
  -- cases the new pool meets the same condition.
  pub get_available_reg-IsAllocated : IsReady lr pool → Gets pool lr
  get_available_reg-IsAllocated ready =
      Gets-take_found (find_in_class (class_of lr.reg.kind) (wanted pool lr) pool lr) refl
        (find_in_class-FoundInClass (wanted pool lr) pool lr ready (class_of lr.reg.kind))
