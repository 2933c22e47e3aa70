-- ===== src/Util/EscapeRoundTrip.antt =====
-- Util/parse.py: escaping and reading back.
use cwerg.Prelude.{
  ℕ, zero, suc, ◌-◌, ◌/◌, ◌%◌, ◌≤◌, ◌<◌, ◌≡◌, refl, sym, ◌∙◌, true, false, none, some, List, [],
  ◌∷◌, ◌++◌, length, All, All-append, ◌==◌, ◌>>=◌, arith,
}
use cwerg.Prelude.Bits.{all_below, all_below_sound}
use cwerg.Util.Escape.{
  hex_char, Text, Bytes, encode_utf8, hex_pair, octal_step, hex_step, escape_step, step,
  unescape_loop, escaped_string_to_bytes, inner, quoted_escaped_string_to_bytes, escape_byte,
  bytes_to_escaped_string,
}

abbrev pub IsByte : ℕ → Type 0
IsByte b = b < 256

-- A round consumes text.
octal_step-shorter :
    (v : ℕ) (s : Text) (out rest : List ℕ)
    → octal_step v s ≡ some (out, rest)
    → length rest ≤ length s
unfolding octal_step
octal_step-shorter v [] out rest h = ground arith
octal_step-shorter v (a ∷ []) out rest h = ground arith
octal_step-shorter v (a ∷ b ∷ s) out rest h = ground arith

hex_step-shorter :
    (s : Text) (out rest : List ℕ) → hex_step s ≡ some (out, rest) → length rest ≤ length s
unfolding hex_step
hex_step-shorter [] out rest h = cc
hex_step-shorter (a ∷ []) out rest h = cc
hex_step-shorter (a ∷ b ∷ s) out rest h = ground arith

escape_step-shorter :
    (s : Text) (out rest : List ℕ) → escape_step s ≡ some (out, rest) → length rest ≤ length s
unfolding escape_step
escape_step-shorter [] out rest h = cc
escape_step-shorter (e ∷ s) out rest h =
    ground (arith, hex_step-shorter s out rest, octal_step-shorter (e - b'0') s out rest)

pub step-shorter :
    (c : ℕ) (s : Text) (out rest : List ℕ) → step c s ≡ some (out, rest) → length rest ≤ length s
unfolding step
step-shorter c s out rest h = ground (arith, escape_step-shorter s out rest)

nil_loop : (g : ℕ) → some [] ≡ unescape_loop g []
unfolding unescape_loop
nil_loop zero = refl
nil_loop (suc g) = refl

hex_table :
    all_below 256 (λ b. elim (hex_pair (hex_char (b / 16)) (hex_char (b % 16))) [
      | none ↦ false
      | some v ↦ v == b
    ])
    ≡ true
unfolding all_below hex_pair
hex_table = refl

hex_pair-hex_char : (b : ℕ) → b < 256 → hex_pair (hex_char (b / 16)) (hex_char (b % 16)) ≡ some b
hex_pair-hex_char b h =
    let found =
      all_below_sound 256
        (λ b. elim (hex_pair (hex_char (b / 16)) (hex_char (b % 16))) [
          | none ↦ false
          | some v ↦ v == b
        ])
        b hex_table h in
    ground arith

-- The escape of a byte is read in one round.
unescape-escape_byte :
    (b f : ℕ) (rest : Text)
    → b < 256
    → unescape_loop (suc f) (escape_byte b ++ rest)
      ≡ (unescape_loop f rest >>= λ out. some (b ∷ out))
unfolding unescape_loop escape_byte step escape_step hex_step encode_utf8
unescape-escape_byte b f rest h = ground (arith, hex_pair-hex_char b h)

length-escape_byte : (b : ℕ) (rest : Text) → length rest < length (escape_byte b ++ rest)
unfolding escape_byte
length-escape_byte b rest = ground arith

length-escaped : (data_ : Bytes) → length data_ ≤ length (bytes_to_escaped_string data_)
unfolding bytes_to_escaped_string
length-escaped [] = omega arith
length-escaped (b ∷ data_) =
    omega (arith, length-escaped data_, length-escape_byte b (bytes_to_escaped_string data_))

loop-escaped :
    (f : ℕ) (data_ : Bytes)
    → length data_ ≤ f
    → All IsByte data_
    → unescape_loop f (bytes_to_escaped_string data_) ≡ some data_
unfolding bytes_to_escaped_string
loop-escaped f [] h hb = sym (nil_loop f)
loop-escaped zero (b ∷ data_) h hb = absurd (omega arith)
loop-escaped (suc f) (b ∷ data_) h (hb, hbs) = rw (
  unescape-escape_byte b f (bytes_to_escaped_string data_) hb,
  loop-escaped f data_ (omega arith) hbs,
)

-- Every byte string is read back from its escaped form.
pub escaped_string_to_bytes-bytes_to_escaped_string :
    (data_ : Bytes)
    → All IsByte data_
    → escaped_string_to_bytes (bytes_to_escaped_string data_) ≡ some data_
unfolding escaped_string_to_bytes
escaped_string_to_bytes-bytes_to_escaped_string data_ h =
    loop-escaped (length (bytes_to_escaped_string data_)) data_ (length-escaped data_) h

inner-append_quote : (s : Text) → inner (s ++ b'"' ∷ []) ≡ some s
unfolding inner
inner-append_quote [] = refl
inner-append_quote (c ∷ []) = refl
inner-append_quote (c ∷ d ∷ s) = rw (inner-append_quote (d ∷ s))

quoted_inner :
    (s : Text) {body : Text}
    → inner s ≡ some body
    → quoted_escaped_string_to_bytes (b'"' ∷ s) ≡ escaped_string_to_bytes body
unfolding quoted_escaped_string_to_bytes
quoted_inner [] h = unfold inner in cc
quoted_inner (c ∷ s) h = rw h

-- Every byte string is read back from its escaped form between quotes.
pub quoted_escaped_string_to_bytes-bytes_to_escaped_string :
    (data_ : Bytes)
    → All IsByte data_
    → quoted_escaped_string_to_bytes (b'"' ∷ bytes_to_escaped_string data_ ++ b'"' ∷ [])
      ≡ some data_
quoted_escaped_string_to_bytes-bytes_to_escaped_string data_ h =
    quoted_inner (bytes_to_escaped_string data_ ++ b'"' ∷ [])
      (inner-append_quote (bytes_to_escaped_string data_))
    ∙ escaped_string_to_bytes-bytes_to_escaped_string data_ h

-- printable ASCII
abbrev pub IsPrintable : ℕ → Type 0
IsPrintable c = (32 ≤ c) × (c ≤ 126)

escape_byte-IsPrintable : (b : ℕ) → b < 256 → All IsPrintable (escape_byte b)
unfolding escape_byte
escape_byte-IsPrintable b h = ground arith

-- The escaped form of a byte string is printable ASCII.
pub bytes_to_escaped_string-IsPrintable :
    (data_ : Bytes) → All IsByte data_ → All IsPrintable (bytes_to_escaped_string data_)
unfolding bytes_to_escaped_string
bytes_to_escaped_string-IsPrintable [] h = tt
bytes_to_escaped_string-IsPrintable (b ∷ data_) (hb, hbs) =
    All-append IsPrintable (escape_byte b) (bytes_to_escaped_string data_)
      (escape_byte-IsPrintable b hb) (bytes_to_escaped_string-IsPrintable data_ hbs)
