-- ===== src/Arm/Codec.antt =====
-- The operands of an instruction word behind an interface: how each kind of operand is encoded and
-- decoded, and the loops of `AssembleOperands` and `DisassembleOperands` over the operands.
use cwerg.Prelude.{ℕ, ◌≡◌, Option, none, some, List, [], ◌∷◌, ◌++◌, map, All, ◌>>=◌}
use cwerg.Prelude.Int.{ℤ}
use cwerg.CpuA32.Ints.{Pattern}
use cwerg.CpuA32.Pack.{NatPattern, lift, range_of, Fits, Holds}

module _ {K : Type 0} where
  -- The patterns of the operands, in order; both lists have one length.
  unfoldable pub encode_all :
      (K → ℤ → Option (List Pattern)) → List K → List ℤ → Option (List Pattern)
  encode_all encode [] [] = some []
  encode_all encode (f ∷ fs) (o ∷ os) = do
    ps ← encode f o
    rest ← encode_all encode fs os
    some (ps ++ rest)
  encode_all encode _ _ = none

  unfoldable pub decode_all : (K → ℕ → Option ℤ) → List K → ℕ → Option (List ℤ)
  decode_all decode [] data_ = some []
  decode_all decode (f ∷ fs) data_ = do
    o ← decode f data_
    os ← decode_all decode fs data_
    some (o ∷ os)

-- The value is encoded into patterns at the places `claims`, and decoded from each word that holds
-- the patterns.
abbrev pub Encodes : Option (List Pattern) → (ℕ → Option ℤ) → List (ℕ × ℕ) → ℤ → Type 0
Encodes encoded decode claims val =
    (ps : List NatPattern) × (encoded ≡ some (map lift ps))
    × (map range_of ps ≡ claims)
    × All Fits ps
    × ((data_ : ℕ) → All (Holds data_) ps → decode data_ ≡ some val)

-- The kinds of operands of an instruction set, with the values that each can take.
pub record Codec (K : Type 0) : Type 1 where
  pub encode : K → ℤ → Option (List Pattern)
  pub decode : K → ℕ → Option ℤ
  pub claims : K → List (ℕ × ℕ)
  pub InRange : K → ℤ → Type 0
  pub encodes : (k : K) (val : ℤ) → InRange k val → Encodes (encode k val) (decode k) (claims k) val
