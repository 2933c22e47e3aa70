-- ===== src/Util/EscapeEnds.antt =====
-- Util/parse.py, how the loop of `EscapedStringToBytes` ends.
use cwerg.Prelude.{ℕ, ◌≡◌, ◌⊎◌, Option, none, some, [], ◌∷◌, ◌++◌}
use cwerg.Util.Escape.{Text, Bytes, step}

-- Rounds of the loop lead from the first text to the second, and append the bytes.
pub data Rounds : Text → Bytes → Text → Type 0 where
  at_rest : (s : Text) → Rounds s [] s
  round :
      (c : ℕ) (s : Text) (out : Bytes) (rest : Text) (more : Bytes) (t : Text)
      → step c s ≡ some (out, rest)
      → Rounds rest more t
      → Rounds (c ∷ s) (out ++ more) t

-- The rounds consume the text, or come to a character at which a round raises.
abbrev pub Ends : Text → Option Bytes → Type 0
Ends s result =
    ((out : Bytes) × (result ≡ some out) × Rounds s out [])
    ⊎ ((out : Bytes) × (c : ℕ) × (rest : Text) × (result ≡ none)
        × Rounds s out (c ∷ rest)
        × (step c rest ≡ none))
