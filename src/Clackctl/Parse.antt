-- ===== src/Clackctl/Parse.antt =====
-- src/bin/clackctl/main.rs: the parsers of the arguments, and how bytes and levels are printed.
use clackd.Base.{
  ℕ, ◌+◌, ◌*◌, ◌/◌, ◌%◌, ◌^◌, List, [], ◌∷◌, ◌++◌, map, Option, none, some, String, ltb, ◌==◌,
  if◌then◌else◌,
}
use clackd.Clackctl.Text.{
  Text, codes, same, len_utf8, len, to_ascii_lowercase, eq_ignore_ascii_case, trim, replace,
  strip_prefix, strip_suffix, from_str_radix, hex2, decimal,
}
use clackd.Clackctl.Keycodes.{by_name, find}

-- `Result<A, CliError>`, and a panic, which a slice inside a character raises.
pub data Parsed {ℓ} (A : Type ℓ) : Type ℓ where
  ok : A → Parsed A
  err : Text → Parsed A
  panicked : Parsed A

-- The argument in a message, between the texts around it.
abbrev message : String → Text → String → Text
message before s after = codes before ++ (s ++ codes after)

abbrev ok_or {ℓ} : {A : Type ℓ} → Option A → Text → Parsed A
ok_or (some a) e = ok a
ok_or none e = err e

abbrev or_strip : Option Text → Option Text → Option Text
or_strip (some t) o = some t
or_strip none o = o

-- The text behind `0x` or `0X`.
unfoldable pub strip_0x : Text → Option Text
strip_0x s = or_strip (strip_prefix (codes "0x") s) (strip_prefix (codes "0X") s)

unfoldable pub parse_unsigned : ℕ → Text → Option ℕ
parse_unsigned limit s = elim (strip_0x s) [
  | some hex ↦ from_str_radix 16 limit hex
  | none ↦ from_str_radix 10 limit s
]

unfoldable pub parse_u16 : Text → Parsed ℕ
parse_u16 s =
    ok_or (parse_unsigned (2 ^ 16) (trim s))
      (message "invalid number '" (trim s) "' (use decimal or 0xHEX)")

unfoldable pub parse_u8 : Text → Parsed ℕ
parse_u8 s =
    ok_or (parse_unsigned (2 ^ 8) (trim s))
      (message "invalid byte '" (trim s) "' (use decimal or 0xHEX)")

-- `map_err`.
abbrev or_message {ℓ} : {A : Type ℓ} → Parsed A → Text → Parsed A
or_message (ok a) e = ok a
or_message (err old) e = err e
or_message panicked e = panicked

unfoldable pub parse_key : Text → Parsed ℕ
parse_key s = elim (by_name s) [
  | some code ↦ ok code
  | none ↦
      or_message (parse_u16 s)
        (message "unknown key '" s "' — try a name from `clackctl keys`, or a 0xHEX keycode")
]

unfoldable pub parse_percent : Text → Text → Parsed ℕ
parse_percent s pct = elim (from_str_radix 10 (2 ^ 16) (trim pct)) [
  | none ↦ err (message "invalid percentage '" s "'")
  | some p ↦
      if ltb 100 p
      then err (message "percentage out of range '" s "' (0%–100%)")
      else ok ((p * 255 + 50) / 100 % 256)
]

unfoldable pub parse_level : Text → Parsed ℕ
parse_level arg =
    let s = trim arg in
    elim (strip_suffix b'%' s) [
      | some pct ↦ parse_percent s pct
      | none ↦ or_message (parse_u8 s) (message "invalid level '" s "' (use 0–255 or 0%–100%)")
    ]

abbrev pub effects : List (ℕ × Text)
effects =
    (0x01, codes "static")
    ∷ (0x02, codes "keystroke-light-up")
    ∷ (0x03, codes "keystroke-dim")
    ∷ (0x04, codes "sparkle")
    ∷ (0x05, codes "rain")
    ∷ (0x06, codes "random-colors")
    ∷ (0x07, codes "breathing")
    ∷ (0x08, codes "spectrum-cycle")
    ∷ (0x09, codes "ring-gradient")
    ∷ (0x0a, codes "vertical-gradient")
    ∷ (0x0b, codes "rainbow-wave")
    ∷ (0x0c, codes "around-edges")
    ∷ (0x0d, codes "keystroke-horizontal-lines")
    ∷ (0x0e, codes "keystroke-tilted-lines")
    ∷ (0x0f, codes "keystroke-ripples")
    ∷ (0x10, codes "sequence")
    ∷ (0x11, codes "wave-line")
    ∷ (0x12, codes "tilted-lines")
    ∷ (0x13, codes "back-and-forth")
    ∷ []

-- Lower case, with dashes for spaces and underscores.
unfoldable pub effect_name : Text → Text
effect_name s = replace b'_' b'-' (replace b' ' b'-' (to_ascii_lowercase (trim s)))

unfoldable pub parse_effect : Text → Parsed ℕ
parse_effect s =
    let norm = effect_name s in
    if same norm (codes "off") then ok 0 else elim (find (λ e. same e.1 norm) effects) [
      | some e ↦ ok e.0
      | none ↦
          or_message (parse_u8 s)
            (message "unknown effect '" s "' — see `clackctl lighting <device> effects`")
    ]

unfoldable pub effect_label : ℕ → Text
effect_label id = elim (find (λ e. e.0 == id) effects) [
  | some e ↦ e.1 ++ (codes " (0x" ++ (hex2 id ++ codes ")"))
  | none ↦ codes "0x" ++ (hex2 id ++ codes " (no name for this keyboard)")
]

abbrev colors : List (Text × ℕ × ℕ × ℕ)
colors =
    (codes "red", 0xff, 0x00, 0x00)
    ∷ (codes "orange", 0xff, 0x80, 0x00)
    ∷ (codes "yellow", 0xff, 0xff, 0x00)
    ∷ (codes "green", 0x00, 0xff, 0x00)
    ∷ (codes "cyan", 0x00, 0xff, 0xff)
    ∷ (codes "blue", 0x00, 0x00, 0xff)
    ∷ (codes "purple", 0x80, 0x00, 0xff)
    ∷ (codes "magenta", 0xff, 0x00, 0xff)
    ∷ (codes "pink", 0xff, 0x69, 0xb4)
    ∷ (codes "white", 0xff, 0xff, 0xff)
    ∷ []

-- `join`.
abbrev pub join : Text → List Text → Text
join sep [] = []
join sep (t ∷ []) = t
join sep (t ∷ u ∷ us) = t ++ (sep ++ join sep (u ∷ us))

abbrev pub or_whole : Text → Option Text → Text
or_whole s none = s
or_whole s (some t) = t

-- The digits of `rrggbb`, with or without a `#`.
unfoldable pub parse_rgb : Text → Option (ℕ × ℕ × ℕ)
parse_rgb raw =
    let hex = or_whole raw (strip_prefix (codes "#") raw) in
    if len hex == 6
    then elim (from_str_radix 16 (2 ^ 32) hex) [
      | none ↦ none
      | some v ↦ some (v / 2 ^ 16 % 256, v / 2 ^ 8 % 256, v % 256)
    ]
    else none

abbrev unknown_color : Text → Text
unknown_color s =
    let names = join (codes ", ") (map (λ (c : Text × ℕ × ℕ × ℕ). c.0) colors) in
    message "unknown colour '" (s ++ (codes "' (use #rrggbb, or one of: " ++ names)) ")"

unfoldable pub parse_color : Text → Parsed (ℕ × ℕ × ℕ)
parse_color s = elim (find (λ c. eq_ignore_ascii_case c.0 (trim s)) colors) [
  | some (name, r, g, b) ↦ ok (r, g, b)
  | none ↦ ok_or (parse_rgb (trim s)) (unknown_color s)
]

abbrev pub bad_byte : ℕ → Text → Text
bad_byte i s = codes "invalid hex byte at position " ++ (decimal i ++ message " in '" s "'")

-- A byte in front of those that follow it.
abbrev pub push : Option ℕ → Text → Parsed (List ℕ) → Parsed (List ℕ)
push none e rest = err e
push (some b) e (ok bs) = ok (b ∷ bs)
push (some b) e (err f) = err f
push (some b) e panicked = panicked

-- The slices from two to two bytes, from the byte `i` on: one that ends inside a character panics, and
-- one that is a character of two bytes is no number.
unfoldable pub hex_pairs : Text → ℕ → Text → Parsed (List ℕ)
hex_pairs s i [] = ok []
hex_pairs s i (c ∷ []) = if len_utf8 c == 2 then err (bad_byte i s) else panicked
hex_pairs s i (c ∷ d ∷ ds) =
    let rest = hex_pairs s (i + 2) ds in
    if len_utf8 c == 1
    then (if len_utf8 d == 1
        then push (from_str_radix 16 (2 ^ 8) (c ∷ d ∷ [])) (bad_byte i s) rest
        else panicked)
    else if len_utf8 c == 2
    then err (bad_byte i s)
    else panicked

unfoldable pub parse_hex_bytes : Text → Parsed (List ℕ)
parse_hex_bytes arg =
    let s = trim arg in
    let hex = or_whole s (strip_0x s) in
    if len hex % 2 == 0
    then hex_pairs s 0 hex
    else err (message "hex data must have even length, got '" s "'")

unfoldable pub to_hex : List ℕ → Text
to_hex bytes = join (codes " ") (map hex2 bytes)

unfoldable pub percent : ℕ → Text
percent v = decimal ((v * 100 + 127) / 255) ++ codes "%"
