-- ===== src/CpuA32/Rotate.antt =====
-- CpuA32/opcode_tab.py, `EncodeRotateImm` against `DecodeRotatedImm`.
use Prim.Native.Nat.{bit_and, bit_or}
use cwerg.Prelude.{
  ℕ, zero, suc, ◌+◌, ◌-◌, ◌*◌, ◌/◌, ◌%◌, ◌^◌, ◌≤◌, ◌<◌, ◌≡◌, refl, ap, subst, ◌∙◌, sym, true, some,
  some_inj, Bool-cases, inl, inr, leb, le→leb, some_inj, ◌==◌, ==_iff, if◌then◌else◌, arith,
}
use cwerg.Prelude.Int.{ℤ, pos, negsuc, ◌-ℤ◌, ◌≤ℤ◌}
use cwerg.Prelude.Word.{shl, shr, ones}
use cwerg.Prelude.Bits.{
  bit_and-ones, shl-eq-mul-pow, shr-eq-div-pow, bit_or-shl, all_below, all_below_sound,
}
use cwerg.CpuA32.Ints.{decode_rotated_imm, encode_rotate_loop, encode_rotate_imm}

-- the word `u`, twice
abbrev doubled : ℕ → ℕ
doubled u = u + u * 2 ^ 32

-- The eight bits that a rotation by 2 * r leaves turn back into the word.
turn_back :
    (r : ℕ)
    → r < 16
    → (u b : ℕ) → u < 2 ^ 32
    → b < 2 ^ 8
    → doubled u / 2 ^ (32 - r * 2) % 2 ^ 32 ≡ b
    → doubled b / 2 ^ (r * 2) % 2 ^ 32 ≡ u
turn_back zero le u b hu hb e = omega arith
turn_back (suc zero) le u b hu hb e = omega arith
turn_back (suc (suc zero)) le u b hu hb e = omega arith
turn_back (suc (suc (suc zero))) le u b hu hb e = omega arith
turn_back (suc (suc (suc (suc zero)))) le u b hu hb e = omega arith
turn_back (suc (suc (suc (suc (suc zero))))) le u b hu hb e = omega arith
turn_back (suc (suc (suc (suc (suc (suc zero)))))) le u b hu hb e = omega arith
turn_back (suc (suc (suc (suc (suc (suc (suc zero))))))) le u b hu hb e = omega arith
turn_back (suc (suc (suc (suc (suc (suc (suc (suc zero)))))))) le u b hu hb e = omega arith
turn_back (suc (suc (suc (suc (suc (suc (suc (suc (suc zero))))))))) le u b hu hb e = omega arith
turn_back (suc (suc (suc (suc (suc (suc (suc (suc (suc (suc zero)))))))))) le u b hu hb e =
    omega arith
turn_back (suc (suc (suc (suc (suc (suc (suc (suc (suc (suc (suc zero))))))))))) le u b hu hb e =
    omega arith
turn_back (suc (suc (suc (suc (suc (suc (suc (suc (suc (suc (suc (suc zero)))))))))))) le u b hu hb
      e =
    omega arith
turn_back (suc (suc (suc (suc (suc (suc (suc (suc (suc (suc (suc (suc (suc zero))))))))))))) le u b
      hu hb e =
    omega arith
turn_back (suc (suc (suc (suc (suc (suc (suc (suc (suc (suc (suc (suc (suc (suc zero))))))))))))))
      le u b hu hb e =
    omega arith
turn_back
      (suc (suc (suc (suc (suc (suc (suc (suc (suc (suc (suc (suc (suc (suc (suc zero)))))))))))))))
      le u b hu hb e =
    omega arith
turn_back
      (suc
        (suc (suc (suc (suc (suc (suc (suc (suc (suc (suc (suc (suc (suc (suc (suc r))))))))))))))))
      le u b hu hb e =
    absurd (omega arith)

-- the integer that a 32-bit pattern stands for
abbrev pub signed32 : ℕ → ℤ
signed32 u = if leb (2 ^ 31) u then pos u -ℤ pos (2 ^ 32) else pos u

rotation_table : all_below 4096 (λ d. shr (bit_and d 0xf00) 7 == d / 256 * 2) ≡ true
unfolding all_below shr
rotation_table = refl

mask_8 : (x : ℕ) → bit_and x 0xff ≡ x % 2 ^ 8
unfolding ones
mask_8 x = bit_and-ones 8 x

mask_32 : (x : ℕ) → bit_and x 0xffffffff ≡ x % 2 ^ 32
unfolding ones
mask_32 x = bit_and-ones 32 x

rotation_of : (d : ℕ) → d < 4096 → shr (bit_and d 0xf00) 7 ≡ d / 256 * 2
rotation_of d h =
    (==_iff _ _).0
      (all_below_sound 4096 (λ d. shr (bit_and d 0xf00) 7 == d / 256 * 2) d rotation_table h)

-- the word that `DecodeRotatedImm` reads as a signed number
abbrev rotated_word : ℕ → ℕ
rotated_word d =
    let imm = bit_and d 0xff in
    bit_and (shr (imm + shl imm 32) (shr (bit_and d 0xf00) 7)) 0xffffffff

rotated_word_lem :
    (d : ℕ) → d < 4096 → rotated_word d ≡ doubled (d % 2 ^ 8) / 2 ^ (d / 256 * 2) % 2 ^ 32
rotated_word_lem d h = rw (rotation_of d h, mask_8, mask_32, shr-eq-div-pow, shl-eq-mul-pow)

decode-rotated_word : (d : ℕ) → decode_rotated_imm d ≡ signed32 (rotated_word d)
unfolding decode_rotated_imm shl
decode-rotated_word d = refl

-- What the loop of `EncodeRotateImm` finds: a rotation that leaves eight bits.
abbrev Found : ℕ → ℕ → Type 0
Found x d =
    (r : ℕ) × (b : ℕ) × (r < 16)
    × (b < 2 ^ 8)
    × (x / 2 ^ (32 - r * 2) % 2 ^ 32 ≡ b)
    × (d ≡ r * 2 ^ 8 + b)

low_bits-Found :
    (r x : ℕ)
    → r < 16
    → bit_and (shr x (32 - r * 2)) 0xff ≡ bit_and (shr x (32 - r * 2)) 0xffffffff
    → Found x (bit_or (shl r 8) (bit_and (shr x (32 - r * 2)) 0xff))
low_bits-Found r x le same =
    let e : x / 2 ^ (32 - r * 2) % 2 ^ 8 ≡ x / 2 ^ (32 - r * 2) % 2 ^ 32 =
      rw (mask_8, mask_32, shr-eq-div-pow) at same in
    (
      r,
      x / 2 ^ (32 - r * 2) % 2 ^ 8,
      le,
      omega arith,
      sym e,
      rw (mask_8, shr-eq-div-pow) (bit_or-shl 8 r _ (omega arith)),
    )

encode_rotate_loop-Found :
    (n r x : ℕ) {d : ℕ} → n + r ≡ 16 → encode_rotate_loop n r x ≡ some d → Found x d
unfolding encode_rotate_loop
encode_rotate_loop-Found zero r x e h = cc
encode_rotate_loop-Found (suc n) r x {d} e h =
    elim (Bool-cases
      (bit_and (shr x (32 - r * 2)) 0xff == bit_and (shr x (32 - r * 2)) 0xffffffff)) [
        | inl hit ↦
            subst (Found x) (some_inj (rw hit at h))
              (low_bits-Found r x (omega arith) ((==_iff _ _).0 hit))
        | inr miss ↦ encode_rotate_loop-Found n (r + 1) x (omega arith) (rw miss at h)
      ]

-- A found encoding of a doubled word decodes to that word.
Found-decode :
    (u d : ℕ)
    → u < 2 ^ 32
    → Found (u + shl u 32) d
    → (d < 4096) × (decode_rotated_imm d ≡ signed32 u)
Found-decode u d hu (r, b, hr, hb, e, ed) =
    let fits : d < 4096 = omega arith in
    let back : doubled b / 2 ^ (r * 2) % 2 ^ 32 ≡ u =
      turn_back r hr u b hu hb (rw (shl-eq-mul-pow) at e) in
    let high : d / 256 ≡ r = omega arith in
    let low : d % 2 ^ 8 ≡ b = omega arith in
    (
      fits,
      decode-rotated_word d ∙ ap signed32 {y = u} (rotated_word_lem d fits ∙ rw (high, low) back),
    )

-- the integers that a 32-bit register holds, read as signed
abbrev pub Int32 : ℤ → Type 0
Int32 x = (negsuc (2 ^ 31 - 1) ≤ℤ x) × (x ≤ℤ pos (2 ^ 31 - 1))

two_pow_32 : shl 1 32 ≡ 2 ^ 32
unfolding shl
two_pow_32 = refl

encode_rotate_imm-negsuc :
    (n : ℕ)
    → suc n ≤ 2 ^ 32
    → encode_rotate_imm (negsuc n)
      ≡ some (encode_rotate_loop 16 0 ((2 ^ 32 - suc n) + shl (2 ^ 32 - suc n) 32))
unfolding encode_rotate_imm
encode_rotate_imm-negsuc n h = rw (two_pow_32, le→leb _ _ h)

-- An encoding that `EncodeRotateImm` returns for a signed 32-bit integer fits in twelve bits, and
-- `DecodeRotatedImm` reads the integer back from it.
pub decode-encode_rotate_imm :
    (x : ℤ) (d : ℕ)
    → Int32 x
    → encode_rotate_imm x ≡ some (some d)
    → (d < 4096) × (decode_rotated_imm d ≡ x)
decode-encode_rotate_imm (pos n) d range h =
    let (fits, back) =
      Found-decode n d (omega arith)
        (encode_rotate_loop-Found 16 0 _ refl (some_inj (unfold encode_rotate_imm in h))) in
    (fits, back ∙ ground arith)
decode-encode_rotate_imm (negsuc n) d range h =
    let (fits, back) = Found-decode (2 ^ 32 - suc n) d (omega arith) (
      encode_rotate_loop-Found 16 0 _ refl
        (some_inj (sym (encode_rotate_imm-negsuc n (omega arith)) ∙ h))) in
    (fits, back ∙ ground arith)
