-- ===== src/Base/SplitBbl.antt =====
-- Base/cfg.py, the cutting of basic blocks: `_BblRemoveUnreachableIns`, `_BblFindSubRanges` and the
-- slices that `FunSplitBbls` makes of a block.
use cwerg.Prelude.{
  ℕ, zero, suc, ◌+◌, Bool, true, false, not, ◌||◌, ◌&&◌, ◌≡◌, refl, ap, ap₂, sym, append-nil,
  append_assoc, length-append, ◌∙◌, List, [], ◌∷◌, ◌++◌, flat_map, map, length, All, all, ◌==◌,
  if◌then◌else◌, Bool-cases, inl, inr, and_true, arith,
}
use cwerg.Base.Kinds.{opc_kind_value, ret, bra}
use cwerg.Base.Opcode.{is_bbl_terminator}
use cwerg.Base.Ir.{Ins}

unfoldable pub take : ℕ → List Ins → List Ins
take zero inss = []
take (suc n) [] = []
take (suc n) (ins ∷ inss) = ins ∷ take n inss

unfoldable pub drop : ℕ → List Ins → List Ins
drop zero inss = inss
drop (suc n) [] = []
drop (suc n) (ins ∷ inss) = drop n inss

-- `inss[start:end]`
unfoldable pub slice : List Ins → ℕ × ℕ → List Ins
slice inss (start, end) = drop start (take end inss)

abbrev is_exit : Ins → Bool
is_exit ins =
    opc_kind_value ins.opcode.kind == opc_kind_value ret
    || (opc_kind_value ins.opcode.kind == opc_kind_value bra)

-- The loop of `_BblRemoveUnreachableIns`: the n with which it ends.
unfoldable pub exit_loop : ℕ → List Ins → ℕ
exit_loop n [] = n
exit_loop n (ins ∷ []) = n
exit_loop n (ins ∷ ins' ∷ inss) =
    let rest = exit_loop (suc n) (ins' ∷ inss) in if is_exit ins then n else rest

-- `_BblRemoveUnreachableIns`
unfoldable pub bbl_remove_unreachable_ins : List Ins → List Ins
unfolding exit_loop take
bbl_remove_unreachable_ins inss =
    let n = exit_loop 0 inss in if n == length inss then inss else take (n + 1) inss

-- The loop of `_BblFindSubRanges` over all instructions but the last, with the final range.
unfoldable pub sub_ranges_loop : ℕ → ℕ → List Ins → List (ℕ × ℕ)
sub_ranges_loop last n [] = (last, n) ∷ []
sub_ranges_loop last n (ins ∷ []) = (last, suc n) ∷ []
sub_ranges_loop last n (ins ∷ ins' ∷ inss) =
    if is_bbl_terminator ins.opcode
    then (last, suc n) ∷ sub_ranges_loop (suc n) (suc n) (ins' ∷ inss)
    else sub_ranges_loop last (suc n) (ins' ∷ inss)

-- `_BblFindSubRanges`
unfoldable pub bbl_find_sub_ranges : List Ins → List (ℕ × ℕ)
unfolding sub_ranges_loop
bbl_find_sub_ranges inss = sub_ranges_loop 0 0 inss

-- The instructions of the blocks that `FunSplitBbls` makes of a block.
unfoldable pub split_bbl : List Ins → List (List Ins)
unfolding bbl_remove_unreachable_ins bbl_find_sub_ranges slice take drop
split_bbl inss =
    let kept = bbl_remove_unreachable_ins inss in map (slice kept) (bbl_find_sub_ranges kept)

take-length : (b c : List Ins) → take (length b) (b ++ c) ≡ b
unfolding take
take-length [] c = refl
take-length (x ∷ b) c = ap (λ l. x ∷ l) (take-length b c)

slice-mid :
    (a b c : List Ins) (n : ℕ) → n ≡ length a + length b → slice (a ++ (b ++ c)) (length a, n) ≡ b
unfolding slice take drop
slice-mid [] b c n e =
    let e' : n ≡ length b = omega arith in ap (λ k. take k (b ++ c)) e' ∙ take-length b c
slice-mid (x ∷ a) b c zero e = absurd (omega arith)
slice-mid (x ∷ a) b c (suc n) e = slice-mid a b c n (omega arith)

module _ (whole : List Ins) where
  slice-eq :
      (a b c : List Ins) (last n : ℕ)
      → whole ≡ a ++ (b ++ c)
      → last ≡ length a
      → n ≡ length a + length b
      → slice whole (last, n) ≡ b
  slice-eq a b c last n e el en = rw (e, el) (slice-mid a b c n en)

  longer : (b : List Ins) (ins : Ins) → length (b ++ (ins ∷ [])) ≡ suc (length b)
  longer b ins = omega (arith, length-append b (ins ∷ []))

  -- The slices from `last` on are the piece in hand and the rest.
  flat_map-sub_ranges_loop :
      (rest a b : List Ins) (last n : ℕ)
      → whole ≡ a ++ (b ++ rest)
      → last ≡ length a
      → n ≡ length a + length b
      → flat_map (slice whole) (sub_ranges_loop last n rest) ≡ b ++ rest
  unfolding sub_ranges_loop flat_map
  flat_map-sub_ranges_loop [] a b last n e el en =
      ap (λ l. l ++ []) (slice-eq a b [] last n e el en)
  flat_map-sub_ranges_loop (ins ∷ []) a b last n e el en =
      let e' : whole ≡ a ++ ((b ++ (ins ∷ [])) ++ []) =
        e ∙ ap (λ l. a ++ l) (sym (append-nil (b ++ (ins ∷ [])))) in
      ap (λ l. l ++ [])
        (slice-eq a (b ++ (ins ∷ [])) [] last (suc n) e' el (omega (arith, longer b ins)))
      ∙ append-nil (b ++ (ins ∷ []))
  flat_map-sub_ranges_loop (ins ∷ ins' ∷ rest) a b last n e el en =
      let b' = b ++ (ins ∷ []) in
      let joined : b ++ (ins ∷ (ins' ∷ rest)) ≡ b' ++ (ins' ∷ rest) =
        sym (append_assoc b (ins ∷ []) (ins' ∷ rest)) in
      let e' : whole ≡ a ++ (b' ++ (ins' ∷ rest)) = e ∙ ap (λ l. a ++ l) joined in
      let en' : suc n ≡ length a + length b' = omega (arith, longer b ins) in
      elim (Bool-cases (is_bbl_terminator ins.opcode)) [
        | inl ends ↦
            let here = slice-eq a b' (ins' ∷ rest) last (suc n) e' el en' in
            let e'' : whole ≡ (a ++ b') ++ ([] ++ (ins' ∷ rest)) =
              e' ∙ sym (append_assoc a b' (ins' ∷ rest)) in
            let la : suc n ≡ length (a ++ b') = en' ∙ sym (length-append a b') in
            let there =
              flat_map-sub_ranges_loop (ins' ∷ rest) (a ++ b') [] (suc n) (suc n) e'' la
                (omega arith) in
            rw ends (ap₂ ◌++◌ here there ∙ sym joined)
        | inr goes_on ↦
            rw goes_on
              (flat_map-sub_ranges_loop (ins' ∷ rest) a b' last (suc n) e' el en' ∙ sym joined)
      ]

-- The ranges that `_BblFindSubRanges` finds cut the block into pieces that together are the block.
pub flat_map-bbl_find_sub_ranges :
    (inss : List Ins) → flat_map (slice inss) (bbl_find_sub_ranges inss) ≡ inss
unfolding bbl_find_sub_ranges
flat_map-bbl_find_sub_ranges inss = flat_map-sub_ranges_loop inss inss [] [] 0 0 refl refl refl

-- Only the last instruction may end a block.
abbrev pub ends_at_last : List Ins → Bool
ends_at_last [] = true
ends_at_last (ins ∷ []) = true
ends_at_last (ins ∷ ins' ∷ inss) = not (is_bbl_terminator ins.opcode) && ends_at_last (ins' ∷ inss)

abbrev open_piece : List Ins → Bool
open_piece b = all (λ i. not (is_bbl_terminator i.opcode)) b

ends_at_last-open :
    (b : List Ins) (ins : Ins) → open_piece b ≡ true → ends_at_last (b ++ (ins ∷ [])) ≡ true
ends_at_last-open [] ins h = refl
ends_at_last-open (x ∷ []) ins h = ground arith
ends_at_last-open (x ∷ y ∷ b) ins h =
    let (here, rest) = and_true (not (is_bbl_terminator x.opcode)) (open_piece (y ∷ b)) h in
    rw here (ends_at_last-open (y ∷ b) ins rest)

open_piece-snoc :
    (b : List Ins) (ins : Ins)
    → open_piece b ≡ true
    → is_bbl_terminator ins.opcode ≡ false
    → open_piece (b ++ (ins ∷ [])) ≡ true
open_piece-snoc [] ins h k = rw k
open_piece-snoc (x ∷ b) ins h k =
    let (here, rest) = and_true (not (is_bbl_terminator x.opcode)) (open_piece b) h in
    rw here (open_piece-snoc b ins rest k)

module _ (whole : List Ins) where
  cut_at_terminators :
      (rest : List Ins) (ins : Ins) (a b : List Ins) (last n : ℕ)
      → whole ≡ a ++ (b ++ (ins ∷ rest))
      → last ≡ length a
      → n ≡ length a + length b
      → open_piece b ≡ true
      → All (λ r. ends_at_last (slice whole r) ≡ true) (sub_ranges_loop last n (ins ∷ rest))
  unfolding sub_ranges_loop
  cut_at_terminators [] ins a b last n e el en h =
      let b' = b ++ (ins ∷ []) in
      let e' : whole ≡ a ++ (b' ++ []) = e ∙ ap (λ l. a ++ l) (sym (append-nil b')) in
      let here = slice-eq whole a b' [] last (suc n) e' el (omega (arith, longer whole b ins)) in
      (rw here (ends_at_last-open b ins h), tt)
  cut_at_terminators (ins' ∷ rest) ins a b last n e el en h =
      let b' = b ++ (ins ∷ []) in
      let joined : b ++ (ins ∷ (ins' ∷ rest)) ≡ b' ++ (ins' ∷ rest) =
        sym (append_assoc b (ins ∷ []) (ins' ∷ rest)) in
      let e' : whole ≡ a ++ (b' ++ (ins' ∷ rest)) = e ∙ ap (λ l. a ++ l) joined in
      let en' : suc n ≡ length a + length b' = omega (arith, longer whole b ins) in
      elim (Bool-cases (is_bbl_terminator ins.opcode)) [
        | inl ends ↦
            let here = slice-eq whole a b' (ins' ∷ rest) last (suc n) e' el en' in
            let e'' : whole ≡ (a ++ b') ++ ([] ++ (ins' ∷ rest)) =
              e' ∙ sym (append_assoc a b' (ins' ∷ rest)) in
            let la : suc n ≡ length (a ++ b') = en' ∙ sym (length-append a b') in
            rw ends (
              rw here (ends_at_last-open b ins h),
              cut_at_terminators rest ins' (a ++ b') [] (suc n) (suc n) e'' la (omega arith) refl,
            )
        | inr goes_on ↦ rw goes_on (
            cut_at_terminators rest ins' a b' last (suc n) e' el en'
              (open_piece-snoc b ins h goes_on))
      ]

-- In each piece only the last instruction may end a basic block.
pub bbl_find_sub_ranges-ends_at_last :
    (inss : List Ins) → All (λ r. ends_at_last (slice inss r) ≡ true) (bbl_find_sub_ranges inss)
unfolding bbl_find_sub_ranges sub_ranges_loop slice take drop
bbl_find_sub_ranges-ends_at_last [] = (refl, tt)
bbl_find_sub_ranges-ends_at_last (ins ∷ inss) =
    cut_at_terminators (ins ∷ inss) inss ins [] [] 0 0 refl refl refl refl
