-- ===== src/Util/Escape.antt =====
-- Util/parse.py, `EscapedStringToBytes`, `QuotedEscapedStringToBytes` and `BytesToEscapedString`.
-- A text is the list of its code points; an exception is `none`.
use cwerg.Prelude.{
  ℕ, zero, suc, ◌+◌, ◌-◌, ◌*◌, ◌/◌, ◌%◌, Bool, ◌&&◌, ◌||◌, Option, none, some, List, [], ◌∷◌, ◌++◌,
  length, ltb, leb, ◌==◌, if◌then◌else◌, ◌>>=◌, ◌>>◌, assert,
}

abbrev pub Text : Type 0
Text = List ℕ

abbrev pub Bytes : Type 0
Bytes = List ℕ

-- `chr.encode("utf8")`, which refuses surrogates
unfoldable pub encode_utf8 : ℕ → Option Bytes
encode_utf8 c =
    if ltb c 0x80
    then some (c ∷ [])
    else if ltb c 0x800
    then some ((0xc0 + c / 64) ∷ (0x80 + c % 64) ∷ [])
    else if leb 0xd800 c && ltb c 0xe000
    then none
    else if ltb c 0x10000
    then some ((0xe0 + c / 4096) ∷ (0x80 + c / 64 % 64) ∷ (0x80 + c % 64) ∷ [])
    else some
        ((0xf0 + c / 262144) ∷ (0x80 + c / 4096 % 64) ∷ (0x80 + c / 64 % 64) ∷ (0x80 + c % 64) ∷ [])

unfoldable pub digit_value : ℕ → Option ℕ
digit_value c =
    if leb b'0' c && leb c b'9'
    then some (c - b'0')
    else if leb b'a' c && leb c b'f'
    then some (c - b'a' + 10)
    else if leb b'A' c && leb c b'F'
    then some (c - b'A' + 10)
    else none

-- the ASCII characters that `int` strips
abbrev is_space : ℕ → Bool
is_space c = leb 9 c && leb c 13 || leb 28 c && leb c 32

-- `int(s, 16)` of two characters where the result is not negative: two digits, or a digit next to a
-- blank or behind a sign. The decimal digits and blanks outside ASCII, which `int` takes as well, raise
-- here.
unfoldable pub hex_pair : ℕ → ℕ → Option ℕ
unfolding digit_value
hex_pair a b = elim (digit_value a) [
  | some x ↦ elim (digit_value b) [
    | some y ↦ some (x * 16 + y)
    | none ↦ if is_space b then some x else none
  ]
  | none ↦ elim (digit_value b) [
    | some y ↦ if is_space a || a == b'+' || (a == b'-' && y == 0) then some y else none
    | none ↦ none
  ]
]

-- `bytearray.append`
abbrev byte : ℕ → Option Bytes
byte v = do assert (ltb v 256); some (v ∷ [])

abbrev is_octal : ℕ → Bool
is_octal c = leb b'0' c && leb c b'7'

-- Up to two more octal digits are read behind the first, whose value is `v`.
unfoldable pub octal_step : ℕ → Text → Option (Bytes × Text)
octal_step v [] = do out ← byte v; some (out, [])
octal_step v (a ∷ []) =
    if is_octal a
    then (do out ← byte (v * 8 + (a - b'0')); some (out, []))
    else (do out ← byte v; some (out, a ∷ []))
octal_step v (a ∷ b ∷ s) =
    if is_octal a
    then (if is_octal b
        then (do out ← byte ((v * 8 + (a - b'0')) * 8 + (b - b'0')); some (out, s))
        else (do out ← byte (v * 8 + (a - b'0')); some (out, b ∷ s)))
    else (do out ← byte v; some (out, a ∷ b ∷ s))

-- `\x` wants two more characters.
unfoldable pub hex_step : Text → Option (Bytes × Text)
hex_step (a ∷ b ∷ s) = do v ← hex_pair a b; out ← byte v; some (out, s)
hex_step _ = none

-- What follows a backslash; `s[n]` behind the end raises.
unfoldable pub escape_step : Text → Option (Bytes × Text)
escape_step [] = none
escape_step (e ∷ s) =
    if e == b'n'
    then some (10 ∷ [], s)
    else if e == b'x'
    then hex_step s
    else if is_octal e
    then octal_step (e - b'0') s
    else (do out ← byte e; some (out, s))

-- One round of the loop: the bytes that it appends, and the text that is left.
unfoldable pub step : ℕ → Text → Option (Bytes × Text)
step c s = if c == b'\\' then escape_step s else (do out ← encode_utf8 c; some (out, s))

-- `while n < len(s)`; each round needs one unit of fuel.
unfoldable pub unescape_loop : ℕ → Text → Option Bytes
unescape_loop fuel [] = some []
unescape_loop zero (c ∷ s) = none
unescape_loop (suc fuel) (c ∷ s) = do r ← step c s; out ← unescape_loop fuel r.1; some (r.0 ++ out)

unfoldable pub escaped_string_to_bytes : Text → Option Bytes
escaped_string_to_bytes s = unescape_loop (length s) s

-- `s[1:-1]` behind the first character: all but the last, which must be a quote
unfoldable pub inner : Text → Option Text
inner [] = none
inner (c ∷ []) = do assert (c == b'"'); some []
inner (c ∷ d ∷ s) = do rest ← inner (d ∷ s); some (c ∷ rest)

-- A text that is one quote is its own first and last character, and stands for no bytes.
unfoldable pub quoted_escaped_string_to_bytes : Text → Option Bytes
quoted_escaped_string_to_bytes [] = none
quoted_escaped_string_to_bytes (q ∷ []) = do assert (q == b'"'); some []
quoted_escaped_string_to_bytes (q ∷ c ∷ s) = do
  body ← inner (c ∷ s)
  assert (q == b'"')
  escaped_string_to_bytes body

-- a digit of `%x`
abbrev pub hex_char : ℕ → ℕ
hex_char d = if ltb d 10 then b'0' + d else b'a' + (d - 10)

-- `_BYTE_TO_ESC`, and what `BytesToEscapedString` makes of the other bytes
unfoldable pub escape_byte : ℕ → Text
escape_byte b =
    if b == 10
    then b'\\' ∷ b'n' ∷ []
    else if b == b'"'
    then b'\\' ∷ b'"' ∷ []
    else if b == b'\\'
    then b'\\' ∷ b'\\' ∷ []
    else if leb 32 b && leb b 126
    then b ∷ []
    else b'\\' ∷ b'x' ∷ hex_char (b / 16) ∷ hex_char (b % 16) ∷ []

unfoldable pub bytes_to_escaped_string : Bytes → Text
unfolding escape_byte
bytes_to_escaped_string [] = []
bytes_to_escaped_string (b ∷ data_) = escape_byte b ++ bytes_to_escaped_string data_
