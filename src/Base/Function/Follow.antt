-- ===== src/Base/Function/Follow.antt =====
-- Base/liveness.py, block after block of a function and of the one that
-- `FunRemoveUselessInstructions` makes of it.
use cwerg.Prelude.{
  ℕ, zero, suc, ◌+◌, true, ◌≡◌, refl, ap, sym, subst, ◌∙◌, Option, none, some, some_inj, List, [],
  ◌∷◌, all, get_elem?, Option-cases, inl, inr, and_true, arith,
}
use cwerg.Base.Ir.{Bbl, Fun}
use cwerg.Base.Liveness.{bbl_def_use, bbl_remove_useless_instructions, live_in_of}
use cwerg.Base.Finite.{Subset}
use cwerg.Base.Meaning.{Machine, State, run, Agree}
use cwerg.Base.Plain.{is_plain, all-is_explicit, all_plain}
use cwerg.Base.Removal.{bbl_remove_useless_instructions-Agree}
use cwerg.Base.DefUse.{bbl_def_use-IsSummary}
use cwerg.Base.Function.{bbls_def_use, entry, set_live_out, rewrite_bbls, run_fun}

Agree-trans :
    {V W : Type 0} (live : List ℕ) (s t u : State V W)
    → Agree live s t
    → Agree live t u
    → Agree live s u
Agree-trans live (r, w) (r', w') (r'', w'') (h, e) (h', e') = (λ q k. h q k ∙ h' q k, e ∙ e')

Agree-Subset :
    {V W : Type 0} (live live' : List ℕ) (s t : State V W)
    → Subset live' live
    → Agree live s t
    → Agree live' s t
Agree-Subset live live' (r, w) (r', w') sub (h, e) = (λ q k. h q (sub q k), e)

-- A block, its new text, and agreement on the registers live before and after it.
abbrev Follows : {V W : Type 0} → Machine V W → Fun → List ℕ × List ℕ → List ℕ → Bbl → Bbl → Type 0
Follows {V} {W} m f sets live_out bbl new =
    (s s' : State V W)
    → Agree (live_in_of sets live_out) s s'
    → Agree live_out (run m f bbl.inss s) (run m f new.inss s')

module _ {V W : Type 0} (m : Machine V W) (f : Fun) where
  -- The blocks from n on, with the registers live out of them.
  abbrev AllFollow : ℕ → (ℕ → List ℕ) → List (List ℕ × List ℕ) → List Bbl → List Bbl → Type 0
  AllFollow n out sets bbls new =
      (b : ℕ) (bbl : Bbl)
      → get_elem? bbls b ≡ some bbl
      → (bbl' : Bbl) × (get_elem? new b ≡ some bbl')
        × Follows m f (entry sets b) (out (n + b)) bbl bbl'

  abbrev EachFollows : (ℕ → List ℕ) → List (List ℕ × List ℕ) → List Bbl → List Bbl → Type 0
  EachFollows out sets bbls new =
      (b : ℕ) (bbl : Bbl)
      → get_elem? bbls b ≡ some bbl
      → (bbl' : Bbl) × (get_elem? new b ≡ some bbl') × Follows m f (entry sets b) (out b) bbl bbl'

  pub EachFollows-of_zero :
      (out : ℕ → List ℕ) (sets : List (List ℕ × List ℕ)) (bbls new : List Bbl)
      → AllFollow 0 out sets bbls new
      → EachFollows out sets bbls new
  EachFollows-of_zero out sets bbls new h b bbl e =
      let (bbl', e', step) = h b bbl e in
      let place : 0 + b ≡ b = omega arith in
      (bbl', e', subst (λ k. Follows m f (entry sets b) (out k) bbl bbl') place step)

  bbl-Follows :
      (bbl : Bbl) (out : List ℕ) (sets : List ℕ × List ℕ)
      → all (is_plain f) bbl.inss ≡ true
      → bbl_def_use f bbl ≡ some sets
      → (new : Bbl) × (bbl_remove_useless_instructions f
            (record { inss = bbl.inss; live_out = out })
          ≡ some new)
        × Follows m f sets out bbl new
  bbl-Follows bbl out sets plain e =
      let (sets', e', summary) = bbl_def_use-IsSummary m f bbl (all-is_explicit f bbl.inss plain) in
      let (new, done, _, agree) =
        bbl_remove_useless_instructions-Agree m f (record { inss = bbl.inss; live_out = out })
          plain in
      let same : sets' ≡ sets = some_inj (sym e' ∙ e) in
      (
        new,
        done,
        λ s s' h.
            Agree-trans out _ _ _
              (summary out s s' (subst (λ t. Agree (live_in_of t out) s s') (sym same) h))
              (agree s'),
      )

  abbrev EndsAlike : List Bbl → List Bbl → Type 0
  EndsAlike bbls new = (b : ℕ) → get_elem? bbls b ≡ none → get_elem? new b ≡ none

  EndsAlike-∷ :
      (bbl : Bbl) (bbls : List Bbl) (bbl' : Bbl) (new : List Bbl)
      → EndsAlike bbls new
      → EndsAlike (bbl ∷ bbls) (bbl' ∷ new)
  EndsAlike-∷ bbl bbls bbl' new h zero e = cc
  EndsAlike-∷ bbl bbls bbl' new h (suc b) e = h b e

  AllFollow-∷ :
      (n : ℕ) (out : ℕ → List ℕ) (sets : List ℕ × List ℕ) (rest : List (List ℕ × List ℕ))
      (bbl : Bbl) (bbls : List Bbl) (bbl' : Bbl) (new : List Bbl)
      → Follows m f sets (out n) bbl bbl'
      → AllFollow (suc n) out rest bbls new
      → AllFollow n out (sets ∷ rest) (bbl ∷ bbls) (bbl' ∷ new)
  AllFollow-∷ n out sets rest bbl bbls bbl' new here there zero x e =
      let place : n ≡ n + 0 = omega arith in
      (
        bbl',
        refl,
        subst (λ t. Follows m f sets (out (n + 0)) t bbl') (some_inj e)
            (subst (λ k. Follows m f sets (out k) bbl bbl') place here),
      )
  AllFollow-∷ n out sets rest bbl bbls bbl' new here there (suc b) x e =
      let place : suc n + b ≡ n + suc b = omega arith in
      let (x', e', follow) = there b x e in
      (x', e', subst (λ k. Follows m f (entry rest b) (out k) x x') place follow)

  bbls_step :
      (bbl : Bbl) (bbls : List Bbl) (sets : List ℕ × List ℕ) (rest : List (List ℕ × List ℕ))
      → bbl_def_use f bbl ≡ some sets
      → bbls_def_use f bbls ≡ some rest
      → bbls_def_use f (bbl ∷ bbls) ≡ some (sets ∷ rest)
  unfolding bbls_def_use
  bbls_step bbl bbls sets rest e e' = rw (e, e')

  removal_step :
      (n : ℕ) (out : ℕ → List ℕ) (bbl : Bbl) (bbls : List Bbl) (new : Bbl) (rest : List Bbl)
      → bbl_remove_useless_instructions f (record { inss = bbl.inss; live_out = out n }) ≡ some new
      → rewrite_bbls f (set_live_out (suc n) out bbls) ≡ some rest
      → rewrite_bbls f (set_live_out n out (bbl ∷ bbls)) ≡ some (new ∷ rest)
  unfolding rewrite_bbls set_live_out
  removal_step n out bbl bbls new rest e e' = rw (e, e')

  pub bbls-AllFollow :
      (bbls : List Bbl)
      → all_plain f bbls ≡ true
      → (sets : List (List ℕ × List ℕ)) × (bbls_def_use f bbls ≡ some sets)
        × ((n : ℕ) (out : ℕ → List ℕ)
            → (new : List Bbl) × (rewrite_bbls f (set_live_out n out bbls) ≡ some new)
              × AllFollow n out sets bbls new
              × EndsAlike bbls new)
  unfolding bbls_def_use rewrite_bbls set_live_out
  bbls-AllFollow [] plain = ([], refl, λ n out. ([], refl, (λ b bbl e. cc), (λ b e. refl)))
  bbls-AllFollow (bbl ∷ bbls) plain =
      let (here, there) = and_true (all (is_plain f) bbl.inss) (all_plain f bbls) plain in
      let (sets, e, _) = bbl_def_use-IsSummary m f bbl (all-is_explicit f bbl.inss here) in
      let (rest, e', follow) = bbls-AllFollow bbls there in
      (
        sets ∷ rest,
        bbls_step bbl bbls sets rest e e',
        λ n out.
            let (new, done, here') = bbl-Follows bbl (out n) sets here e in
            let (news, done', there', ends) = follow (suc n) out in
            (
              new ∷ news,
              removal_step n out bbl bbls new news done done',
              AllFollow-∷ n out sets rest bbl bbls new news here' there',
              EndsAlike-∷ bbl bbls new news ends,
            ),
      )

module _ {V W : Type 0} (m : Machine V W) (f : Fun) (goto : ℕ → W → Option ℕ) (bbls : List Bbl)
    (steps b : ℕ) (s : State V W) where
  run_fun-gone : get_elem? bbls b ≡ none → run_fun m f goto bbls (suc steps) b s ≡ (none, s.1)
  unfolding run_fun
  run_fun-gone e = rw (e, run_fun)

  run_fun-stops :
      (bbl : Bbl)
      → get_elem? bbls b ≡ some bbl
      → goto b (run m f bbl.inss s).1 ≡ none
      → run_fun m f goto bbls (suc steps) b s ≡ (none, (run m f bbl.inss s).1)
  unfolding run_fun
  run_fun-stops bbl e stops = rw (e, run_fun) (rw (stops, run_fun))

  run_fun-goes :
      (bbl : Bbl) (c : ℕ)
      → get_elem? bbls b ≡ some bbl
      → goto b (run m f bbl.inss s).1 ≡ some c
      → run_fun m f goto bbls (suc steps) b s ≡ run_fun m f goto bbls steps c (run m f bbl.inss s)
  unfolding run_fun
  run_fun-goes bbl c e goes = rw (e, run_fun) (rw (goes, run_fun))

module _ {V W : Type 0} (m : Machine V W) (f : Fun) (goto : ℕ → W → Option ℕ) (bbls new : List Bbl)
    (sets : List (List ℕ × List ℕ)) (out : ℕ → List ℕ) (follow : EachFollows m f out sets bbls new)
    (ends : EndsAlike m f bbls new)
    (flows : (b c : ℕ) (w : W)
      → goto b w ≡ some c
      → Subset (live_in_of (entry sets c) (out c)) (out b)) where
  pub run_fun-same :
      (steps b : ℕ) (s s' : State V W)
      → Agree (live_in_of (entry sets b) (out b)) s s'
      → run_fun m f goto bbls steps b s ≡ run_fun m f goto new steps b s'
  unfolding run_fun
  run_fun-same zero b s s' (_, e) = ap (λ w. (some b, w)) e
  run_fun-same (suc steps) b s s' agree = elim (Option-cases (get_elem? bbls b)) [
    | inl gone ↦
        run_fun-gone m f goto bbls steps b s gone
        ∙ (ap (λ w. (none, w)) agree.1 ∙ sym (run_fun-gone m f goto new steps b s' (ends b gone)))
    | inr (bbl, here) ↦
        let (bbl', here', step) = follow b bbl here in
        let t = run m f bbl.inss s in
        let t' = run m f bbl'.inss s' in
        let after = step s s' agree in
        elim (Option-cases (goto b t.1)) [
          | inl stops ↦
              run_fun-stops m f goto bbls steps b s bbl here stops
              ∙ (ap (λ w. (none, w)) after.1
                  ∙ sym (
                      run_fun-stops m f goto new steps b s' bbl' here'
                        (ap (goto b) (sym after.1) ∙ stops)))
          | inr (c, goes) ↦
              run_fun-goes m f goto bbls steps b s bbl c here goes
              ∙ (run_fun-same steps c t t' (Agree-Subset (out b) _ t t' (flows b c t.1 goes) after)
                  ∙ sym (
                      run_fun-goes m f goto new steps b s' bbl' c here'
                        (ap (goto b) (sym after.1) ∙ goes)))
        ]
  ]
