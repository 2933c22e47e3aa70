-- ===== src/CodeGenA32/Regs/Pairs.antt =====
-- CodeGenA32/regs.py, what `RegPoolArm.get_available_reg` finds in its loop over double registers.
use Prim.Native.Nat.{bit_and}
use cwerg.Prelude.{
  ℕ, zero, suc, ◌+◌, ◌*◌, ◌≡◌, refl, subst, ◌∙◌, Option, some, ◌==◌, ==_iff, Bool-cases, inl, inr,
}
use cwerg.Prelude.Word.{shl}
use cwerg.Base.RegAlloc.{LiveRange, has_conflict}
use cwerg.CodeGenA32.Regs.{Reserved, replace, find_double}
use cwerg.CodeGenA32.Regs.Search.{
  AllReady, Clear, asked-ready, asked-same, Clear-has_conflict, Searched, Searched-earlier,
  Clear-earlier,
}

-- Both halves are available and clear.
abbrev pub DoubleFree : ℕ → LiveRange → Reserved → ℕ → Type 0
DoubleFree available lr reserved i =
    (bit_and available (shl 3 (i * 2)) ≡ shl 3 (i * 2))
    × Clear reserved lr (i * 2)
    × Clear reserved lr (i * 2 + 1)

module _ (available : ℕ) (lr : LiveRange) where
  double_on :
      (n : ℕ) (reserved : Reserved) (r : Option ℕ × Reserved)
      → AllReady lr reserved
      → Searched
          (DoubleFree available lr)
          lr
          (replace n (has_conflict (reserved n) lr).1 reserved)
          r
      → Searched (DoubleFree available lr) lr reserved r
  double_on n reserved r ready =
      let same = asked-same n reserved lr ready in
      let after = replace n (has_conflict (reserved n) lr).1 reserved in
      Searched-earlier (DoubleFree available lr) lr reserved after same
        (λ i (bits, clear, clear'). (
          bits,
          Clear-earlier lr reserved after (i * 2) same clear,
          Clear-earlier lr reserved after (i * 2 + 1) same clear',
        ))
        r

  pub find_double-DoubleFree :
      (k n : ℕ) (reserved : Reserved)
      → AllReady lr reserved
      → Searched (DoubleFree available lr) lr reserved (find_double k n available reserved lr)
  unfolding find_double
  find_double-DoubleFree zero n reserved ready = (ready, λ i. refl)
  find_double-DoubleFree (suc k) n reserved ready =
      let P = Searched (DoubleFree available lr) lr reserved in
      let low = n * 2 in
      let high = n * 2 + 1 in
      let after = replace low (has_conflict (reserved low) lr).1 reserved in
      let after' = replace high (has_conflict (after high) lr).1 after in
      let ready1 = asked-ready low reserved lr ready in
      let ready2 = asked-ready high after lr ready1 in
      let same1 = asked-same low reserved lr ready in
      let same2 = asked-same high after lr ready1 in
      let bits = ==_iff (bit_and available (shl 3 low)) (shl 3 low) in
      elim (Bool-cases (bit_and available (shl 3 low) == shl 3 low)) [
        | inr taken ↦
            let on : find_double k (suc n) available reserved lr
                ≡ find_double (suc k) n available reserved lr =
              rw (find_double, taken) refl in
            subst P on (find_double-DoubleFree k (suc n) reserved ready)
        | inl free ↦ elim (Bool-cases (has_conflict (reserved low) lr).0) [
          | inl conflict ↦
              let on : find_double k (suc n) available after lr
                  ≡ find_double (suc k) n available reserved lr =
                rw (find_double, free, conflict) refl in
              subst P on (
                double_on low reserved (find_double k (suc n) available after lr) ready
                  (find_double-DoubleFree k (suc n) after ready1))
          | inr clear ↦ elim (Bool-cases (has_conflict (after high) lr).0) [
            | inl conflict ↦
                let on : find_double k (suc n) available after' lr
                    ≡ find_double (suc k) n available reserved lr =
                  rw (find_double, free, clear, conflict) refl in
                subst P on (
                  double_on low reserved (find_double k (suc n) available after' lr) ready (
                    double_on high after (find_double k (suc n) available after' lr) ready1
                      (find_double-DoubleFree k (suc n) after' ready2)))
            | inr clear' ↦
                let found : (some n, after') ≡ find_double (suc k) n available reserved lr =
                  rw (find_double, free, clear, clear') refl in
                subst P found (
                  (
                    bits.0 free,
                    Clear-has_conflict low reserved lr ready clear,
                    Clear-earlier lr reserved after high same1
                        (Clear-has_conflict high after lr ready1 clear'),
                  ),
                  ready2,
                  λ i. same2 i ∙ same1 i,
                )
          ]
        ]
      ]
