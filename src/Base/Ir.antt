-- ===== src/Base/Ir.antt =====
-- Base/ir.py, the parts of a function that the passes read: registers, operands, instructions and
-- basic blocks; sets of registers; `InsCallee` of Base/cfg.py.
use cwerg.Prelude.{
  ℕ, Bool, false, ◌||◌, Option, none, some, List, [], ◌∷◌, flat_map, get_elem?, ◌==◌, if◌then◌else◌,
}
use cwerg.Prelude.Int.{ℤ}
use cwerg.Base.Kinds.{Dk}
use cwerg.Base.Opcode.{Opcode}

-- `Reg`; the registers of a function have different names, here numbers, and so have the CPU's.
pub record Reg : Type 0 where
  pub name : ℕ
  pub kind : Dk
  pub cpu_reg : Option ℕ

-- what a caller reads of a `Fun`
pub record Callee : Type 0 where
  pub cpu_live_in : List ℕ
  pub cpu_live_out : List ℕ
  pub cpu_live_clobber : List ℕ

pub data Operand : Type 0 where
  reg : Reg → Operand
  const : Dk → ℤ → Operand
  func : Callee → Operand
  other : ℕ → Operand

pub record Ins : Type 0 where
  pub opcode : Opcode
  pub operands : List Operand

-- `Bbl` without its edges
pub record Bbl : Type 0 where
  pub inss : List Ins
  pub live_out : List ℕ

-- `Fun`, its registers and the CPU registers in which it returns its results
pub record Fun : Type 0 where
  pub regs : List Reg
  pub cpu_live_out : List ℕ

-- A set of registers is a list of their names.
abbrev pub mem : ℕ → List ℕ → Bool
mem x [] = false
mem x (y ∷ ys) = x == y || mem x ys

-- `set.discard`
abbrev pub discard : ℕ → List ℕ → List ℕ
discard x [] = []
discard x (y ∷ ys) = let rest = discard x ys in if x == y then rest else y ∷ rest

-- `set.add`
abbrev pub add : ℕ → List ℕ → List ℕ
add x ys = if mem x ys then ys else x ∷ ys

abbrev pub discard_all : List ℕ → List ℕ → List ℕ
discard_all [] ys = ys
discard_all (x ∷ xs) ys = discard_all xs (discard x ys)

abbrev pub add_all : List ℕ → List ℕ → List ℕ
add_all [] ys = ys
add_all (x ∷ xs) ys = add_all xs (add x ys)

abbrev pub syscall_no : ℕ
syscall_no = 0x2d

abbrev pub bsr_no : ℕ
bsr_no = 0x2b

abbrev pub jsr_no : ℕ
jsr_no = 0x2c

abbrev as_fun : Option Operand → Option Callee
as_fun (some (func callee)) = some callee
as_fun _ = none

-- `InsCallee`; `none` is a failed assertion.
unfoldable pub ins_callee : Ins → Option Callee
ins_callee ins =
    if ins.opcode.no == syscall_no || (ins.opcode.no == bsr_no)
    then as_fun (get_elem? ins.operands 0)
    else if ins.opcode.no == jsr_no
    then as_fun (get_elem? ins.operands 1)
    else none

is_in_cpu_reg : ℕ → Option ℕ → Bool
is_in_cpu_reg c none = false
is_in_cpu_reg c (some d) = c == d

-- the registers of the function that stand in the CPU register
regs_in : ℕ → List Reg → List ℕ
regs_in c [] = []
regs_in c (r ∷ rs) =
    let rest = regs_in c rs in if is_in_cpu_reg c r.cpu_reg then r.name ∷ rest else rest

-- the registers of the function that stand in one of the CPU registers
unfoldable pub standing_in : Fun → List ℕ → List ℕ
unfolding regs_in is_in_cpu_reg
standing_in f cpu_regs = flat_map (λ c. regs_in c f.regs) cpu_regs

-- The registers that the two loops over `callee.cpu_live_out` and `fun.regs` meet.
unfoldable pub call_results : Fun → Callee → List ℕ
unfolding standing_in
call_results f callee = standing_in f callee.cpu_live_out
