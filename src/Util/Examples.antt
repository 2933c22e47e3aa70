-- ===== src/Util/Examples.antt =====
-- Runs of Util/parse.py at concrete texts.
use cwerg.Prelude.{◌≡◌, some, [], ◌∷◌, ◌++◌, All, arith}
use cwerg.Util.Escape.{
  Text, Bytes, escaped_string_to_bytes, quoted_escaped_string_to_bytes, bytes_to_escaped_string,
}
use cwerg.Util.EscapeRoundTrip.{
  IsByte, IsPrintable, escaped_string_to_bytes-bytes_to_escaped_string,
  quoted_escaped_string_to_bytes-bytes_to_escaped_string, bytes_to_escaped_string-IsPrintable,
}

-- a letter, a quote, a backslash, a line break and two bytes that are not printable
abbrev sample : Bytes
sample = b'a' ∷ b'"' ∷ b'\\' ∷ 10 ∷ 0 ∷ 255 ∷ []

sample-IsByte : All IsByte sample
sample-IsByte =
    (omega arith, (omega arith, (omega arith, (omega arith, (omega arith, (omega arith, tt))))))

escaped_string_to_bytes-bytes_to_escaped_string_example :
    escaped_string_to_bytes (bytes_to_escaped_string sample) ≡ some sample
escaped_string_to_bytes-bytes_to_escaped_string_example =
    escaped_string_to_bytes-bytes_to_escaped_string sample sample-IsByte

quoted_escaped_string_to_bytes-bytes_to_escaped_string_example :
    quoted_escaped_string_to_bytes (b'"' ∷ bytes_to_escaped_string sample ++ b'"' ∷ [])
    ≡ some sample
quoted_escaped_string_to_bytes-bytes_to_escaped_string_example =
    quoted_escaped_string_to_bytes-bytes_to_escaped_string sample sample-IsByte

bytes_to_escaped_string-IsPrintable_example : All IsPrintable (bytes_to_escaped_string sample)
bytes_to_escaped_string-IsPrintable_example =
    bytes_to_escaped_string-IsPrintable sample sample-IsByte

-- backslash, x, 4, 1
abbrev hex_text : Text
hex_text = b'\\' ∷ b'x' ∷ b'4' ∷ b'1' ∷ []
