-- ===== src/CodeGenA32/Regs.antt =====
-- CodeGenA32/regs.py: the registers of the CPU, their bit masks, and the class `RegPoolArm`, from
-- which the linear scan takes registers.
pub mod Search
pub mod Pairs
pub mod Pool
pub mod GiveBack
use Prim.Native.Nat.{bit_and, bit_or}
use cwerg.Prelude.{
  ℕ, zero, suc, ◌+◌, ◌*◌, ◌-◌, Bool, true, false, not, ◌&&◌, Option, none, some, List, [], ◌∷◌, map,
  ltb, ◌==◌, if◌then◌else◌, ◌>>◌, ◌>>=◌, assert,
}
use cwerg.Prelude.Word.{shl, without}
use cwerg.Base.Kinds.{Dk, f32, f64, dk_value, flavor, flavor_f}
use cwerg.Base.Ir.{Reg}
use cwerg.Base.RegAlloc.{LiveRange, PreAllocation, has_conflict, add}

-- `A32RegKind`, without `INVALID`
pub data RegKind : Type 0 where
  gpr flt dbl : RegKind

-- `ir.CpuReg`, whose name follows from number and kind
pub record CpuReg : Type 0 where
  pub no : ℕ
  pub kind : RegKind

unfoldable pub a32_reg_to_alloc_mask : CpuReg → ℕ
a32_reg_to_alloc_mask r = elim r.kind [ dbl ↦ shl 3 (r.no * 2) | _ ↦ shl 1 r.no ]

unfoldable pub a32_regs_to_alloc_mask : List CpuReg → ℕ
unfolding a32_reg_to_alloc_mask
a32_regs_to_alloc_mask [] = 0
a32_regs_to_alloc_mask (r ∷ rs) = bit_or (a32_reg_to_alloc_mask r) (a32_regs_to_alloc_mask rs)

-- the registers of a kind with the numbers from n on, k of them
abbrev regs_from : RegKind → ℕ → ℕ → List CpuReg
regs_from kind n zero = []
regs_from kind n (suc k) = record { no = n; kind = kind } ∷ regs_from kind (suc n) k

unfoldable pub gpr_callee_save_regs_mask : ℕ
unfolding a32_regs_to_alloc_mask
gpr_callee_save_regs_mask = a32_regs_to_alloc_mask (regs_from gpr 6 6)

unfoldable pub flt_callee_save_regs_mask : ℕ
unfolding a32_regs_to_alloc_mask
flt_callee_save_regs_mask = a32_regs_to_alloc_mask (regs_from flt 16 16)

-- The reserved ranges of the registers, by the number of the register
abbrev pub Reserved : Type 0
Reserved = ℕ → PreAllocation

abbrev pub replace : ℕ → PreAllocation → Reserved → Reserved
replace n p reserved i = if i == n then p else reserved i

pub record RegPoolArm : Type 0 where
  pub allow_spilling : Bool
  pub gpr_available_lac : ℕ
  pub gpr_available_not_lac : ℕ
  pub flt_available_lac : ℕ
  pub flt_available_not_lac : ℕ
  pub gpr_reserved : Reserved
  pub flt_reserved : Reserved

unfoldable pub get_available : RegPoolArm → Bool → Bool → ℕ
get_available pool lac is_gpr =
    if is_gpr
    then if lac then pool.gpr_available_lac else pool.gpr_available_not_lac
    else if lac
    then pool.flt_available_lac
    else pool.flt_available_not_lac

unfoldable pub set_available : RegPoolArm → Bool → Bool → ℕ → RegPoolArm
set_available pool lac is_gpr available =
    if is_gpr
    then if lac
      then record pool { gpr_available_lac = available }
      else record pool { gpr_available_not_lac = available }
    else if lac
    then record pool { flt_available_lac = available }
    else record pool { flt_available_not_lac = available }

-- `RegPoolArm.get_available_reg`, the loop over single registers: k to go, from n on. The result has
-- the register taken and the new reserved ranges, whose `current` moves.
unfoldable pub find_single : ℕ → ℕ → ℕ → Reserved → LiveRange → Option ℕ × Reserved
find_single zero n available reserved lr = (none, reserved)
find_single (suc k) n available reserved lr = elim (bit_and available (shl 1 n) == shl 1 n) [
  | false ↦ find_single k (suc n) available reserved lr
  | true ↦
      let (conflict, p) = has_conflict (reserved n) lr in
      elim conflict [
        | true ↦ find_single k (suc n) available (replace n p reserved) lr
        | false ↦ (some n, replace n p reserved)
      ]
]

-- The loop over double registers; `and` looks at the second half only if the first has no conflict.
unfoldable pub find_double : ℕ → ℕ → ℕ → Reserved → LiveRange → Option ℕ × Reserved
find_double zero n available reserved lr = (none, reserved)
find_double (suc k) n available reserved lr =
    elim (bit_and available (shl 3 (n * 2)) == shl 3 (n * 2)) [
      | false ↦ find_double k (suc n) available reserved lr
      | true ↦
          let (conflict, p) = has_conflict (reserved (n * 2)) lr in
          let reserved1 = replace (n * 2) p reserved in
          elim conflict [
            | true ↦ find_double k (suc n) available reserved1 lr
            | false ↦
                let (conflict', p') = has_conflict (reserved1 (n * 2 + 1)) lr in
                let reserved2 = replace (n * 2 + 1) p' reserved1 in
                elim conflict' [
                  | true ↦ find_double k (suc n) available reserved2 lr
                  | false ↦ (some n, reserved2)
                ]
          ]
    ]

unfoldable pub is_gpr_kind : Dk → Bool
is_gpr_kind kind = not (flavor kind == flavor_f)

-- Which registers the kind takes: the branch of `get_available_reg`.
unfoldable pub class_of : Dk → RegKind
class_of kind =
    if dk_value kind == dk_value f64
    then dbl
    else if dk_value kind == dk_value f32
    then flt
    else gpr

-- The loop of the branch; `_GPR_REGS` has 16 registers, `_FLT_REGS` 32 and `DBL_REGS` 16.
unfoldable pub find_in_class : RegKind → ℕ → RegPoolArm → LiveRange → Option ℕ × RegPoolArm
unfolding find_single find_double
find_in_class kind available pool lr = elim kind [
  | dbl ↦
      let (found, reserved) = find_double 16 0 available pool.flt_reserved lr in
      (found, record pool { flt_reserved = reserved })
  | flt ↦
      let (found, reserved) = find_single 32 0 available pool.flt_reserved lr in
      (found, record pool { flt_reserved = reserved })
  | gpr ↦
      let (found, reserved) = find_single 16 0 available pool.gpr_reserved lr in
      (found, record pool { gpr_reserved = reserved })
]

-- `get_available_reg` after the loop: the outer option is the failed assertion at the end, the inner
-- one `CPU_REG_SPILL`.
unfoldable pub take_found :
    RegPoolArm → LiveRange → Option ℕ × RegPoolArm → Option (Option CpuReg × RegPoolArm)
unfolding get_available set_available a32_reg_to_alloc_mask class_of is_gpr_kind
take_found pool lr (none, searched) = if pool.allow_spilling then some (none, searched) else none
take_found pool lr (some n, searched) =
    let is_gpr = is_gpr_kind lr.reg.kind in
    let available = get_available pool lr.lac is_gpr in
    let r : CpuReg = record { no = n; kind = class_of lr.reg.kind } in
    some
      (some r, set_available searched lr.lac is_gpr (without (a32_reg_to_alloc_mask r) available))

unfoldable pub get_available_reg : RegPoolArm → LiveRange → Option (Option CpuReg × RegPoolArm)
unfolding find_in_class take_found
get_available_reg pool lr = take_found pool lr (
    find_in_class (class_of lr.reg.kind) (get_available pool lr.lac (is_gpr_kind lr.reg.kind)) pool
      lr)

unfoldable pub is_gpr_reg : CpuReg → Bool
is_gpr_reg r = elim r.kind [ gpr ↦ true | _ ↦ false ]

-- The register is one of those saved by the callee.
unfoldable pub is_lac_reg : CpuReg → Bool
unfolding a32_reg_to_alloc_mask gpr_callee_save_regs_mask flt_callee_save_regs_mask is_gpr_reg
is_lac_reg r =
    let saved = if is_gpr_reg r then gpr_callee_save_regs_mask else flt_callee_save_regs_mask in
    not (bit_and (a32_reg_to_alloc_mask r) saved == 0)

unfoldable pub give_back_available_reg : RegPoolArm → CpuReg → RegPoolArm
unfolding get_available set_available a32_reg_to_alloc_mask is_lac_reg is_gpr_reg
give_back_available_reg pool r =
    let available = get_available pool (is_lac_reg r) (is_gpr_reg r) in
    set_available pool (is_lac_reg r) (is_gpr_reg r) (bit_or available (a32_reg_to_alloc_mask r))

-- `add_reserved_range`, for the register in which the live range stands. The lists of reserved ranges
-- have 16 and 32 entries.
unfoldable pub add_reserved_range : RegPoolArm → CpuReg → LiveRange → Option RegPoolArm
add_reserved_range pool r lr = elim r.kind [
  | gpr ↦ do
    assert (ltb r.no 16)
    p ← add (pool.gpr_reserved r.no) lr
    some (record pool { gpr_reserved = replace r.no p pool.gpr_reserved })
  | flt ↦ do
    assert (ltb r.no 32)
    p ← add (pool.flt_reserved r.no) lr
    some (record pool { flt_reserved = replace r.no p pool.flt_reserved })
  | dbl ↦ do
    assert (ltb (r.no * 2 + 1) 32)
    p ← add (pool.flt_reserved (r.no * 2)) lr
    p' ← add (pool.flt_reserved (r.no * 2 + 1)) lr
    some (record pool {
      flt_reserved = replace (r.no * 2 + 1) p' (replace (r.no * 2) p pool.flt_reserved);
    })
]

rewound : ℕ → Reserved → Reserved
rewound n reserved = replace n (record { ranges = (reserved n).ranges; current = 0 }) reserved

unfoldable pub backtrack_reset : RegPoolArm → CpuReg → RegPoolArm
unfolding give_back_available_reg rewound
backtrack_reset pool r =
    let pool' = give_back_available_reg pool r in
    elim r.kind [
      | gpr ↦ record pool' { gpr_reserved = rewound r.no pool'.gpr_reserved }
      | flt ↦ record pool' { flt_reserved = rewound r.no pool'.flt_reserved }
      | dbl ↦ record pool' {
        flt_reserved = rewound (r.no * 2 + 1) (rewound (r.no * 2) pool'.flt_reserved);
      }
    ]
