-- ===== src/Base/Meaning.antt =====
-- What instructions do: an instruction reads its operands and the rest of the machine, writes the
-- registers it defines, and changes the rest of the machine if it is a store, a call, a transfer of
-- control or of an argument, by its kind and not by the attributes on which the passes rely. A call
-- also reads the registers that stand in the CPU registers of the callee's parameters, and writes
-- those of its results and those it clobbers; `ret` reads those of the function's results. What an
-- instruction computes is a parameter, `Machine`.
use Prim.Native.Nat.{bit_and}
use mathlib.Core.Path.{ap₂}
use cwerg.Prelude.{
  ℕ, Bool, true, false, ◌||◌, ◌≡◌, refl, sym, ap, ◌∙◌, ◌++◌, append-nil, none, some, List, [], ◌∷◌,
  map, ◌==◌, ==_iff, if◌then◌else◌, Bool-cases, inl, inr, arith,
}
use cwerg.Prelude.Word.{bit, shr}
use cwerg.Prelude.Bits.{bit-bit_and, bit-zero}
use cwerg.Base.Kinds.{
  flags, OpcKind, cond_bra, bra, bsr, jsr, switch, ret, syscall, st, pusharg, poparg, bcopy, bzero,
}
use cwerg.Base.Opcode.{is_call, has_side_effect, def_ops_count}
use cwerg.Base.Ir.{Ins, Fun, mem, ins_callee, standing_in}
use cwerg.Base.Liveness.{call_defs}
use cwerg.Base.Sets.{defs_from, uses_from}

abbrev pub defs_of : Ins → List ℕ
defs_of ins = defs_from (def_ops_count ins.opcode) 0 ins.operands

abbrev pub uses_of : Ins → List ℕ
uses_of ins = uses_from (def_ops_count ins.opcode) 0 ins.operands

-- the registers in which a call leaves its results
unfoldable pub results_of : Fun → Ins → List ℕ
results_of f ins = elim (call_defs f ins) [ none ↦ [] | some written ↦ written ]

-- what a call reads and overwrites in CPU registers, of which liveness.py takes no account
unfoldable pub clobbers_of : Fun → Ins → List ℕ
clobbers_of f ins =
    if is_call ins.opcode
    then elim (ins_callee ins) [ none ↦ [] | some callee ↦ standing_in f callee.cpu_live_clobber ]
    else []

unfoldable pub call_reads : Fun → Ins → List ℕ
call_reads f ins =
    if is_call ins.opcode
    then elim (ins_callee ins) [ none ↦ [] | some callee ↦ standing_in f callee.cpu_live_in ]
    else []

abbrev ret_no : ℕ
ret_no = 0x2a

unfoldable pub return_reads : Fun → Ins → List ℕ
return_reads f ins = if ins.opcode.no == ret_no then standing_in f f.cpu_live_out else []

-- The registers that an instruction reads without having them as operands.
unfoldable pub hidden_reads : Fun → Ins → List ℕ
unfolding call_reads return_reads
hidden_reads f ins = call_reads f ins ++ return_reads f ins

-- The opcodes of the kind change the machine beyond the registers they define.
unfoldable pub changes_machine : OpcKind → Bool
changes_machine cond_bra = true
changes_machine bra = true
changes_machine bsr = true
changes_machine jsr = true
changes_machine switch = true
changes_machine ret = true
changes_machine syscall = true
changes_machine st = true
changes_machine pusharg = true
changes_machine poparg = true
changes_machine bcopy = true
changes_machine bzero = true
changes_machine _ = false

pub record Machine (V W : Type 0) : Type 0 where
  pub result : Ins → List V → W → ℕ → V
  pub effect : Ins → List V → W → W

abbrev pub State : Type 0 → Type 0 → Type 0
State V W = (ℕ → V) × W

module _ {V W : Type 0} (m : Machine V W) (f : Fun) where
  unfoldable pub exec : Ins → State V W → State V W
  exec ins (regs, w) =
      let vs = map regs (uses_of ins ++ hidden_reads f ins) in
      (
        λ r.
            if mem r (results_of f ins) || mem r (defs_of ins) || mem r (clobbers_of f ins)
            then m.result ins vs w r
            else regs r,
        if changes_machine ins.opcode.kind then m.effect ins vs w else w,
      )

  unfoldable pub run : List Ins → State V W → State V W
  run [] s = s
  run (ins ∷ inss) s = run inss (exec ins s)

-- The states have the same values in the registers of the set, and are otherwise the same machine.
abbrev pub Agree : {V W : Type 0} → List ℕ → State V W → State V W → Type 0
Agree live (regs, w) (regs', w') = ((r : ℕ) → mem r live ≡ true → regs r ≡ regs' r) × (w ≡ w')

module _ {V : Type 0} (regs regs' : ℕ → V) where
  map-agree :
      (us : List ℕ) → ((r : ℕ) → mem r us ≡ true → regs r ≡ regs' r) → map regs us ≡ map regs' us
  map-agree [] h = refl
  map-agree (u ∷ us) h = ap₂ ◌∷◌ (h u (ground arith)) (map-agree us λ r k. h r (ground arith))

module _ {V W : Type 0} (m : Machine V W) (f : Fun) (ins : Ins) (live live' : List ℕ) where
  -- The registers read agree, and so do those of `live` that are not written.
  pub exec-Agree :
      (s s' : State V W)
      → hidden_reads f ins ≡ []
      → ((r : ℕ) → mem r (uses_of ins) ≡ true → mem r live' ≡ true)
      → ((r : ℕ)
          → mem r live ≡ true
          → (mem r live' || (mem r (results_of f ins) || mem r (defs_of ins))) ≡ true)
      → Agree live' s s'
      → Agree live (exec m f ins s) (exec m f ins s')
  unfolding exec
  exec-Agree (regs, w) (regs', w') shown reads kept (same, rest) =
      let whole : uses_of ins ++ hidden_reads f ins ≡ uses_of ins =
        ap (λ t. uses_of ins ++ t) shown ∙ append-nil (uses_of ins) in
      let vs : map regs (uses_of ins ++ hidden_reads f ins)
          ≡ map regs' (uses_of ins ++ hidden_reads f ins) =
        map-agree regs regs' (uses_of ins ++ hidden_reads f ins)
          (λ r h. same r (reads r (ap (mem r) (sym whole) ∙ h))) in
      (
        λ r h.
            elim (Bool-cases
              (mem r (results_of f ins) || mem r (defs_of ins) || mem r (clobbers_of f ins))) [
                | inl written ↦ rw (written, vs, rest)
                | inr free ↦ rw free (same r (ground (arith, kept r h)))
              ],
        rw (vs, rest),
      )

  -- An instruction that writes no register of `live` and does not change the machine changes nothing
  -- there.
  pub exec-idle :
      (s s' : State V W)
      → changes_machine ins.opcode.kind ≡ false
      → clobbers_of f ins ≡ []
      → ((r : ℕ)
          → mem r live ≡ true
          → (mem r live' ≡ true) × (mem r (results_of f ins) || mem r (defs_of ins) ≡ false))
      → Agree live' s s'
      → Agree live (exec m f ins s) s'
  unfolding exec
  exec-idle (regs, w) (regs', w') pure spared free (same, rest) = (
    λ r h.
        let none_written : (mem r (results_of f ins)
              || mem r (defs_of ins)
              || mem r (clobbers_of f ins))
            ≡ false =
          ground (arith, (free r h).1, ap (mem r) spared) in
        rw none_written (same r (free r h).0),
    rw pure rest,
  )

call_digit : (bit 4 2 ≡ 1) × (bit 117 2 ≡ 1)
unfolding bit shr
call_digit = (refl, refl)

-- A call has a side effect.
pub is_call-has_side_effect :
    (ins : Ins) → is_call ins.opcode ≡ true → has_side_effect ins.opcode ≡ true
unfolding is_call has_side_effect flags
is_call-has_side_effect ins h =
    let a = ins.opcode.attributes in
    let own = (==_iff (bit_and a 4) 4).0 h in
    elim (Bool-cases (bit_and 117 a == 0)) [
      | inl none_set ↦ absurd (
          omega (
            arith,
            bit-bit_and 2 a 4,
            bit-bit_and 2 117 a,
            ap (λ (t : ℕ). bit t 2) own,
            ap (λ (t : ℕ). bit t 2) ((==_iff (bit_and 117 a) 0).0 none_set),
            bit-zero 2,
            call_digit,
          ))
      | inr some_set ↦ rw some_set
    ]
