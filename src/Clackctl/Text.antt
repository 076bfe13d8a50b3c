-- ===== src/Clackctl/Text.antt =====
-- The functions of Rust's `str`, `char` and integers that src/bin/clackctl calls.
--
-- A text is the list of its characters, as code points; `len` counts the bytes of its UTF-8.
use Prim.Native.Char.{code}
use clackd.Base.{
  ℕ, zero, suc, ◌+◌, ◌-◌, ◌*◌, ◌/◌, ◌%◌, List, [], ◌∷◌, ◌++◌, map, Bool, true, false, Option, none,
  some, String, ltb, leb, ◌==◌, ◌&&◌, ◌||◌, if◌then◌else◌,
}

abbrev pub Text : Type 0
Text = List ℕ

abbrev pub codes : String → Text
codes String.[] = []
codes (String.◌∷◌ c s) = code c ∷ codes s

abbrev pub same : Text → Text → Bool
same [] [] = true
same [] (d ∷ ds) = false
same (c ∷ cs) [] = false
same (c ∷ cs) (d ∷ ds) = if c == d then same cs ds else false

unfoldable pub len_utf8 : ℕ → ℕ
len_utf8 c = if ltb c 0x80 then 1 else if ltb c 0x800 then 2 else if ltb c 0x10000 then 3 else 4

unfoldable pub len : Text → ℕ
len [] = 0
len (c ∷ cs) = len_utf8 c + len cs

unfoldable pub to_upper : ℕ → ℕ
to_upper c = if leb b'a' c && leb c b'z' then c - 32 else c

unfoldable pub to_lower : ℕ → ℕ
to_lower c = if leb b'A' c && leb c b'Z' then c + 32 else c

abbrev pub to_ascii_uppercase : Text → Text
to_ascii_uppercase s = map to_upper s

abbrev pub to_ascii_lowercase : Text → Text
to_ascii_lowercase s = map to_lower s

abbrev pub eq_ignore_ascii_case : Text → Text → Bool
eq_ignore_ascii_case s t = same (to_ascii_lowercase s) (to_ascii_lowercase t)

-- `White_Space` of Unicode.
unfoldable pub is_whitespace : ℕ → Bool
is_whitespace c =
    (leb 9 c && leb c 13)
    || c == 0x20
    || c == 0x85
    || c == 0xa0
    || c == 0x1680
    || (leb 0x2000 c && leb c 0x200a)
    || c == 0x2028
    || c == 0x2029
    || c == 0x202f
    || c == 0x205f
    || c == 0x3000

unfoldable pub trim_start : Text → Text
trim_start [] = []
trim_start (c ∷ cs) = if is_whitespace c then trim_start cs else c ∷ cs

abbrev pub keep : ℕ → Text → Text
keep c [] = if is_whitespace c then [] else c ∷ []
keep c (d ∷ ds) = c ∷ d ∷ ds

unfoldable pub trim_end : Text → Text
trim_end [] = []
trim_end (c ∷ cs) = keep c (trim_end cs)

abbrev pub trim : Text → Text
trim s = trim_end (trim_start s)

abbrev pub replace : ℕ → ℕ → Text → Text
replace from to s = map (λ c. if c == from then to else c) s

unfoldable pub strip_prefix : Text → Text → Option Text
strip_prefix [] s = some s
strip_prefix (p ∷ ps) [] = none
strip_prefix (p ∷ ps) (c ∷ cs) = if p == c then strip_prefix ps cs else none

-- `strip_suffix` of one character.
unfoldable pub strip_suffix : ℕ → Text → Option Text
strip_suffix p [] = none
strip_suffix p (c ∷ []) = if c == p then some [] else none
strip_suffix p (c ∷ d ∷ ds) = elim (strip_suffix p (d ∷ ds)) [ none ↦ none | some s ↦ some (c ∷ s) ]

unfoldable pub to_digit : ℕ → ℕ → Option ℕ
to_digit radix c =
    let d =
      if leb b'0' c && leb c b'9'
      then c - b'0'
      else if leb b'a' c && leb c b'z'
      then c - b'a' + 10
      else if leb b'A' c && leb c b'Z'
      then c - b'A' + 10
      else radix in
    if ltb d radix then some d else none

-- The digits of an unsigned integer below the limit, behind those whose value is `acc`.
unfoldable pub digits : ℕ → ℕ → ℕ → Text → Option ℕ
digits radix limit acc [] = some acc
digits radix limit acc (c ∷ cs) = elim (to_digit radix c) [
  | none ↦ none
  | some d ↦ if ltb (acc * radix + d) limit then digits radix limit (acc * radix + d) cs else none
]

-- An unsigned integer may have a `+`, and needs a digit.
unfoldable pub from_str_radix : ℕ → ℕ → Text → Option ℕ
from_str_radix radix limit [] = none
from_str_radix radix limit (c ∷ []) = digits radix limit 0 (c ∷ [])
from_str_radix radix limit (c ∷ d ∷ ds) =
    digits radix limit 0 (if c == b'+' then d ∷ ds else c ∷ d ∷ ds)

abbrev pub nibble : ℕ → ℕ
nibble n = if ltb n 10 then b'0' + n else 87 + n

-- `{:02x}` of a byte, and `{:#06x}` of a u16.
unfoldable pub hex2 : ℕ → Text
hex2 n = nibble (n / 16 % 16) ∷ nibble (n % 16) ∷ []

unfoldable pub hex4 : ℕ → Text
hex4 n = b'0' ∷ b'x' ∷ (hex2 (n / 256) ++ hex2 (n % 256))

-- A number in decimal; a usize has at most twenty digits.
unfoldable pub decimal_digits : ℕ → ℕ → Text
decimal_digits zero n = []
decimal_digits (suc fuel) n =
    let rest = decimal_digits fuel (n / 10) in
    let units = (b'0' + n % 10) ∷ [] in if ltb n 10 then units else rest ++ units

unfoldable pub decimal : ℕ → Text
decimal n = decimal_digits 20 n
