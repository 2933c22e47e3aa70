-- ===== src/Base/Const/Convert.antt =====
-- Base/reaching_defs.py, `ConvertIntValue` against the ranges of the kinds.
use cwerg.Prelude.{
  ℕ, suc, ◌-◌, ◌^◌, ◌<◌, ltb, ◌||◌, Bool, true, false, ◌≡◌, refl, subst, sym, ◌∙◌, ◌==◌, Bool-cases,
  inl, inr, arith,
}
use native.Mathlib.Nat.{mod-eq_of_lt}
use cwerg.Prelude.Int.{ℤ, pos, mod_ℤ, and_ℤ, eqb_ℤ}
use cwerg.Prelude.Word.{shl}
use cwerg.Base.Kinds.{Dk, flavor, flavor_u, bitwidth, reg_is_int}
use cwerg.Base.Const.{Const, convert_int_value}
use cwerg.Base.Const.Ranges.{
  InWidth, Fits, shl_one, and_mask, mod_ℤ-lt, digit_test, signed_of, signed_of-InWidth,
  mod_ℤ-signed_of, InWidth-wider, int_kind,
}

-- The value that `convert_int_value` computes.
keeps :
    (dst : Dk) (c : Const)
    → ltb (bitwidth c.kind) (bitwidth dst) ≡ true
    → flavor dst == flavor c.kind || (flavor c.kind == flavor_u) ≡ true
    → convert_int_value dst c ≡ record { kind = dst; value = c.value }
unfolding convert_int_value
keeps dst c h k = rw (h, k) refl

masks :
    (dst : Dk) (c : Const)
    → ltb (bitwidth c.kind) (bitwidth dst) ≡ true
    → flavor dst == flavor c.kind || (flavor c.kind == flavor_u) ≡ false
    → convert_int_value dst c
      ≡ record { kind = dst; value = pos (mod_ℤ c.value (2 ^ bitwidth dst)) }
unfolding convert_int_value
masks dst c h k = rw (h, k, and_mask c.value (bitwidth dst)) refl

unsigned :
    (dst : Dk) (c : Const)
    → ltb (bitwidth c.kind) (bitwidth dst) ≡ false
    → flavor dst == flavor_u ≡ true
    → convert_int_value dst c
      ≡ record { kind = dst; value = pos (mod_ℤ c.value (2 ^ bitwidth dst)) }
unfolding convert_int_value
unsigned dst c h k = rw (h, k, and_mask c.value (bitwidth dst)) refl

module _ (dst : Dk) (c : Const) (u k : ℕ) (h : ltb (bitwidth c.kind) (bitwidth dst) ≡ false)
    (f : flavor dst == flavor_u ≡ false) where
  signed_low :
      eqb_ℤ (and_ℤ c.value (pos (shl 1 (bitwidth dst - 1)))) (pos 0) ≡ true
      → ltb u (2 ^ k) ≡ true
      → and_ℤ c.value (pos (shl 1 (bitwidth dst) - 1)) ≡ pos u
      → convert_int_value dst c ≡ record { kind = dst; value = signed_of k u }
  unfolding convert_int_value signed_of
  signed_low test lo low = rw (h, f, test, low, lo) refl

  signed_high :
      eqb_ℤ (and_ℤ c.value (pos (shl 1 (bitwidth dst - 1)))) (pos 0) ≡ false
      → ltb u (2 ^ k) ≡ false
      → and_ℤ c.value (pos (shl 1 (bitwidth dst) - 1)) ≡ pos u
      → shl 1 (bitwidth dst) ≡ 2 ^ suc k
      → convert_int_value dst c ≡ record { kind = dst; value = signed_of k u }
  unfolding convert_int_value signed_of
  signed_high test hi low top = rw (h, f, test, low, hi, top) refl

signed :
    (dst : Dk) (c : Const) (k : ℕ)
    → ltb (bitwidth c.kind) (bitwidth dst) ≡ false
    → flavor dst == flavor_u ≡ false
    → bitwidth dst ≡ suc k
    → convert_int_value dst c
      ≡ record { kind = dst; value = signed_of k (mod_ℤ c.value (2 ^ suc k)) }
signed dst c k h f w =
    let same : suc k - 1 ≡ k = omega arith in
    let test : eqb_ℤ (and_ℤ c.value (pos (shl 1 (bitwidth dst - 1)))) (pos 0)
        ≡ ltb (mod_ℤ c.value (2 ^ suc k)) (2 ^ k) =
      rw (w, same) (digit_test c.value k) in
    let low : and_ℤ c.value (pos (shl 1 (bitwidth dst) - 1)) ≡ pos (mod_ℤ c.value (2 ^ suc k)) =
      rw w (and_mask c.value (suc k)) in
    let top : shl 1 (bitwidth dst) ≡ 2 ^ suc k = rw w (shl_one (suc k)) in
    elim (Bool-cases (ltb (mod_ℤ c.value (2 ^ suc k)) (2 ^ k))) [
      | inl lo ↦ signed_low dst c (mod_ℤ c.value (2 ^ suc k)) k h f (test ∙ lo) lo low
      | inr hi ↦ signed_high dst c (mod_ℤ c.value (2 ^ suc k)) k h f (test ∙ hi) hi low top
    ]

-- The constant is one of the kind, in its range, with the low digits of the value.
abbrev pub Converts : Dk → Const → Const → Type 0
Converts dst c r =
    (r.kind ≡ dst)
    × Fits dst r.value
    × (mod_ℤ r.value (2 ^ bitwidth dst) ≡ mod_ℤ c.value (2 ^ bitwidth dst))

masked-Converts :
    (dst : Dk) (c : Const)
    → flavor dst == flavor_u ≡ true
    → Converts dst c (record { kind = dst; value = pos (mod_ℤ c.value (2 ^ bitwidth dst)) })
masked-Converts dst c h =
    let low = mod_ℤ-lt c.value (bitwidth dst) in
    (refl, rw h (omega arith, omega arith), mod-eq_of_lt low)

signed-Converts :
    (dst : Dk) (c : Const) (k : ℕ)
    → flavor dst == flavor_u ≡ false
    → bitwidth dst ≡ suc k
    → Converts dst c (record { kind = dst; value = signed_of k (mod_ℤ c.value (2 ^ suc k)) })
signed-Converts dst c k h w =
    let low = mod_ℤ-lt c.value (suc k) in
    (
      refl,
      rw (h, w) (signed_of-InWidth k (mod_ℤ c.value (2 ^ suc k)) low),
      rw w (mod_ℤ-signed_of k (mod_ℤ c.value (2 ^ suc k)) low),
    )

range :
    (ud us : Bool) (wd : ℕ) (x : ℤ)
    → InWidth false wd x × (us ≡ true → InWidth true wd x)
    → (ud ≡ true → us ≡ true)
    → InWidth ud wd x
range true us wd x (signed_range, unsigned_range) h = unsigned_range (h refl)
range false us wd x (signed_range, unsigned_range) h = signed_range

kept-Converts :
    (dst : Dk) (c : Const)
    → bitwidth c.kind < bitwidth dst
    → 0 < bitwidth c.kind
    → flavor dst == flavor c.kind || (flavor c.kind == flavor_u) ≡ true
    → Fits c.kind c.value
    → Converts dst c (record { kind = dst; value = c.value })
kept-Converts dst c wide some h fits =
    let us = flavor c.kind == flavor_u in
    let ranges = InWidth-wider us (bitwidth c.kind) (bitwidth dst) c.value wide some fits in
    let unsigned_src : flavor dst == flavor_u ≡ true → us ≡ true = λ u. ground arith in
    (refl, range (flavor dst == flavor_u) us (bitwidth dst) c.value ranges unsigned_src, refl)

-- For integer kinds and a constant whose value its kind can hold, `convert_int_value` gives a
-- constant of the wanted kind which that kind can hold and which has the same low digits, as many as
-- the wanted kind has.
pub convert_int_value-Fits :
    (dst : Dk) (c : Const)
    → reg_is_int dst ≡ true
    → reg_is_int c.kind ≡ true
    → Fits c.kind c.value
    → Converts dst c (convert_int_value dst c)
convert_int_value-Fits dst c hd hc fits =
    let (wide_d, flavor_d) = int_kind dst hd in
    let (wide_c, flavor_c) = int_kind c.kind hc in
    elim (Bool-cases (ltb (bitwidth c.kind) (bitwidth dst))) [
      | inl longer ↦
          elim (Bool-cases (flavor dst == flavor c.kind || (flavor c.kind == flavor_u))) [
            | inl same ↦
                subst (Converts dst c) (sym (keeps dst c longer same))
                  (kept-Converts dst c (ground arith) wide_c same fits)
            | inr other ↦
                subst (Converts dst c) (sym (masks dst c longer other))
                  (masked-Converts dst c (ground arith))
          ]
      | inr narrow ↦ elim (Bool-cases (flavor dst == flavor_u)) [
        | inl u ↦ subst (Converts dst c) (sym (unsigned dst c narrow u)) (masked-Converts dst c u)
        | inr s ↦
            let width : bitwidth dst ≡ suc (bitwidth dst - 1) = omega arith in
            subst (Converts dst c) (sym (signed dst c (bitwidth dst - 1) narrow s width))
              (signed-Converts dst c (bitwidth dst - 1) s width)
      ]
    ]
