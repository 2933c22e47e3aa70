-- ===== src/CodeGenA32/Examples.antt =====
-- CodeGenA32/regs.py at a concrete pool.
use cwerg.Prelude.{
  ℕ, true, false, ◌≡◌, ◌≢◌, refl, Option, none, some, [], ◌∷◌, ◌==◌, Bool-cases, inl, inr, arith,
}
use cwerg.Prelude.Word.{shl}
use cwerg.Base.Kinds.{f8, f16, f64}
use cwerg.Base.RegAlloc.{LiveRange, empty}
use cwerg.CodeGenA32.Regs.{
  CpuReg, Reserved, RegPoolArm, replace, gpr_callee_save_regs_mask, flt_callee_save_regs_mask,
  get_available, get_available_reg,
}
use cwerg.CodeGenA32.Regs.Search.{AllReady}
use cwerg.CodeGenA32.Regs.Pool.{IsReady, Gets, get_available_reg-IsAllocated}
use cwerg.CodeGenA32.Regs.GiveBack.{IsSplit, IsRestored, give_back_available_reg-get_available_reg}

abbrev live : ℕ → ℕ → LiveRange
live def_pos last_use_pos = record {
  def_pos = def_pos;
  last_use_pos = last_use_pos;
  reg = record { name = 0; kind = f64; cpu_reg = none };
  lac = false;
}

-- `s1` is reserved from 3 to 5.
abbrev flt_reserved : Reserved
flt_reserved = replace 1 (record { ranges = live 3 5 ∷ []; current = 0 }) (λ i. empty)

abbrev pool : RegPoolArm
pool = record {
  allow_spilling = true;
  gpr_available_lac = 0xfc0;
  gpr_available_not_lac = 0x503f;
  flt_available_lac = 0xffff0000;
  flt_available_not_lac = 0xffff;
  gpr_reserved = λ i. empty;
  flt_reserved = flt_reserved;
}

abbrev wanted_range : LiveRange
wanted_range = live 4 8

pool-IsReady : IsReady wanted_range pool
unfolding empty
pool-IsReady = (λ i. (tt, tt), flt_ready)
  where
    flt_ready : AllReady wanted_range flt_reserved
    flt_ready i = elim (Bool-cases (i == 1)) [
      | inl here ↦ rw here ((omega arith, tt), tt)
      | inr there ↦ rw there (tt, tt)
    ]

pool-IsSplit : IsSplit pool
unfolding get_available gpr_callee_save_regs_mask flt_callee_save_regs_mask shl
pool-IsSplit true = (refl, refl)
pool-IsSplit false = (refl, refl)

not_f8 : f64 ≢ f8
not_f8 h = cc

not_f16 : f64 ≢ f16
not_f16 h = cc

get_available_reg-IsAllocated_example : Gets pool wanted_range
get_available_reg-IsAllocated_example =
    get_available_reg-IsAllocated pool wanted_range refl pool-IsReady

give_back_available_reg-get_available_reg_example :
    (found : Option CpuReg) × (pool' : RegPoolArm) × (get_available_reg pool wanted_range
      ≡ some (found, pool'))
    × IsRestored pool found pool'
give_back_available_reg-get_available_reg_example =
    give_back_available_reg-get_available_reg pool wanted_range pool-IsSplit not_f8 not_f16 refl
      pool-IsReady
