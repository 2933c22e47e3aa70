-- ===== src/CodeGenA32/Regs/Search.antt =====
-- CodeGenA32/regs.py, what `RegPoolArm.get_available_reg` finds in its loops over single registers.
use Prim.Native.Nat.{bit_and}
use cwerg.Prelude.{
  ℕ, zero, suc, false, ◌≡◌, refl, sym, ap, subst, ◌∙◌, Option, none, some, ◌==◌, ==_iff, Bool-cases,
  inl, inr, arith,
}
use cwerg.Prelude.Word.{shl}
use cwerg.Base.RegAlloc.{LiveRange, has_conflict}
use cwerg.Base.RegAlloc.Conflicts.{IsReady, overlaps_some, has_conflict-overlaps_some}
use cwerg.CodeGenA32.Regs.{Reserved, replace, find_single}

-- `has_conflict` can be asked of every register.
abbrev pub AllReady : LiveRange → Reserved → Type 0
AllReady lr reserved = (i : ℕ) → IsReady lr.def_pos (reserved i)

-- The reserved ranges are the same, whatever `current` is.
abbrev pub SameRanges : Reserved → Reserved → Type 0
SameRanges reserved reserved' = (i : ℕ) → (reserved' i).ranges ≡ (reserved i).ranges

abbrev pub Clear : Reserved → LiveRange → ℕ → Type 0
Clear reserved lr i = overlaps_some lr (reserved i).ranges ≡ false

pub asked-ready :
    (n : ℕ) (reserved : Reserved) (lr : LiveRange)
    → AllReady lr reserved
    → AllReady lr (replace n (has_conflict (reserved n) lr).1 reserved)
asked-ready n reserved lr ready i = elim (Bool-cases (i == n)) [
  | inl here ↦
      rw here ((has_conflict-overlaps_some lr.def_pos (reserved n) lr (omega arith) (ready n)).2)
  | inr there ↦ rw there (ready i)
]

pub asked-same :
    (n : ℕ) (reserved : Reserved) (lr : LiveRange)
    → AllReady lr reserved
    → SameRanges reserved (replace n (has_conflict (reserved n) lr).1 reserved)
asked-same n reserved lr ready i = elim (Bool-cases (i == n)) [
  | inl here ↦ rw here (
      (has_conflict-overlaps_some lr.def_pos (reserved n) lr (omega arith) (ready n)).1
      ∙ ap (λ t. (reserved t).ranges) (sym ((==_iff i n).0 here)))
  | inr there ↦ rw there refl
]

pub Clear-has_conflict :
    (n : ℕ) (reserved : Reserved) (lr : LiveRange)
    → AllReady lr reserved
    → (has_conflict (reserved n) lr).0 ≡ false
    → Clear reserved lr n
Clear-has_conflict n reserved lr ready answer =
    sym ((has_conflict-overlaps_some lr.def_pos (reserved n) lr (omega arith) (ready n)).0) ∙ answer

-- What a search that starts from `reserved` comes to.
abbrev pub Searched : (Reserved → ℕ → Type 0) → LiveRange → Reserved → Option ℕ × Reserved → Type 0
Searched P lr reserved (none, reserved') = AllReady lr reserved' × SameRanges reserved reserved'
Searched P lr reserved (some i, reserved') =
    P reserved i × AllReady lr reserved' × SameRanges reserved reserved'

pub Searched-earlier :
    (P : Reserved → ℕ → Type 0) (lr : LiveRange) (before after : Reserved)
    → SameRanges before after
    → ((i : ℕ) → P after i → P before i)
    → (r : Option ℕ × Reserved) → Searched P lr after r
    → Searched P lr before r
Searched-earlier P lr before after same back (none, r) (ready, kept) = (ready, λ i. kept i ∙ same i)
Searched-earlier P lr before after same back (some n, r) (found, ready, kept) =
    (back n found, ready, λ i. kept i ∙ same i)

-- The bits of the mask are available, and the registers that it stands for are clear.
abbrev pub SingleFree : ℕ → LiveRange → Reserved → ℕ → Type 0
SingleFree available lr reserved i = (bit_and available (shl 1 i) ≡ shl 1 i) × Clear reserved lr i

pub Clear-earlier :
    (lr : LiveRange) (before after : Reserved) (i : ℕ)
    → SameRanges before after
    → Clear after lr i
    → Clear before lr i
Clear-earlier lr before after i same h = ap (overlaps_some lr) (sym (same i)) ∙ h

module _ (available : ℕ) (lr : LiveRange) where
  single_on :
      (n : ℕ) (reserved : Reserved) (r : Option ℕ × Reserved)
      → AllReady lr reserved
      → Searched
          (SingleFree available lr)
          lr
          (replace n (has_conflict (reserved n) lr).1 reserved)
          r
      → Searched (SingleFree available lr) lr reserved r
  single_on n reserved r ready =
      let same = asked-same n reserved lr ready in
      Searched-earlier (SingleFree available lr) lr reserved
        (replace n (has_conflict (reserved n) lr).1 reserved) same
        (λ i (bits, clear). (
          bits,
          Clear-earlier lr reserved (replace n (has_conflict (reserved n) lr).1 reserved) i same
              clear,
        ))
        r

  pub find_single-SingleFree :
      (k n : ℕ) (reserved : Reserved)
      → AllReady lr reserved
      → Searched (SingleFree available lr) lr reserved (find_single k n available reserved lr)
  unfolding find_single
  find_single-SingleFree zero n reserved ready = (ready, λ i. refl)
  find_single-SingleFree (suc k) n reserved ready =
      let P = Searched (SingleFree available lr) lr reserved in
      let after = replace n (has_conflict (reserved n) lr).1 reserved in
      let bits = ==_iff (bit_and available (shl 1 n)) (shl 1 n) in
      elim (Bool-cases (bit_and available (shl 1 n) == shl 1 n)) [
        | inr taken ↦
            let on : find_single k (suc n) available reserved lr
                ≡ find_single (suc k) n available reserved lr =
              rw (find_single, taken) refl in
            subst P on (find_single-SingleFree k (suc n) reserved ready)
        | inl free ↦ elim (Bool-cases (has_conflict (reserved n) lr).0) [
          | inr clear ↦
              let found : (some n, after) ≡ find_single (suc k) n available reserved lr =
                rw (find_single, free, clear) refl in
              subst P found (
                (bits.0 free, Clear-has_conflict n reserved lr ready clear),
                asked-ready n reserved lr ready,
                asked-same n reserved lr ready,
              )
          | inl conflict ↦
              let on : find_single k (suc n) available after lr
                  ≡ find_single (suc k) n available reserved lr =
                rw (find_single, free, conflict) refl in
              subst P on (
                single_on n reserved (find_single k (suc n) available after lr) ready
                  (find_single-SingleFree k (suc n) after (asked-ready n reserved lr ready)))
        ]
      ]
