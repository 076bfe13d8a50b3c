-- ===== src/Clackctl/Examples.antt =====
-- Arguments of the client, after the tests of src/bin/clackctl, and the theorems at some of them.
use clackd.Base.{◌*◌, ◌+◌, ◌≤◌, ◌<◌, ◌≡◌, refl, arith, List, [], ◌∷◌, ◌++◌, some, none}
use clackd.Clackctl.Text.{
  Text, codes, hex2, decimal, decimal_digits, len_utf8, is_whitespace, trim_start, trim_end,
  to_upper, to_lower, strip_prefix, strip_suffix, to_digit, digits, from_str_radix, hex4, len,
}
use clackd.Clackctl.Keycodes.{
  Key, key, find, any, by_code, by_alias, by_norm, normalize, lookup, by_name, short_label,
}
use clackd.Clackctl.Parse.{
  percent, err, ok, panicked, to_hex, parse_key, parse_u16, parse_u8, parse_unsigned, parse_level,
  parse_percent, parse_effect, effect_name, parse_color, parse_rgb, parse_hex_bytes, hex_pairs,
  strip_0x,
}
use clackd.Clackctl.Commands.{
  Proxy, value, failed, matching, at_index, pick_device, contains, starts_with,
}
use clackd.Clackctl.Listings.{dump, grid_lines, cmd_keys, filtered}
use clackd.Clackctl.Names.{by_name-spelling}
use clackd.Clackctl.Printed.{parse_key-printed}
use clackd.Clackctl.Levels.{percentage, parse_level-percent}
use clackd.Clackctl.Bytes.{hexes, parse_hex_bytes-panics}
use clackd.Clackctl.Resolve.{pick_device_lem, Picks}

names_test : (by_name (codes " Page-Up ") ≡ some 0x4b) × (by_name (codes "[") ≡ some 0x2f)
unfolding by_name lookup by_alias by_norm normalize find any to_upper to_lower trim_start trim_end
    is_whitespace strip_prefix
names_test = (refl, refl)

-- A bare `1` is the key, and not the code.
keys_test :
    (parse_key (codes "1") ≡ ok 0x1e)
    × (parse_key (codes "76") ≡ ok 76)
    × (parse_key (codes "0x004C") ≡ ok 0x4c)
unfolding parse_key by_name lookup by_alias by_norm normalize find any to_upper to_lower trim_start
    trim_end is_whitespace strip_prefix parse_u16 parse_unsigned strip_0x from_str_radix digits
    to_digit
keys_test = (refl, refl, refl)

levels_test : (parse_level (codes "50%") ≡ ok 128) × (parse_level (codes "0x80") ≡ ok 0x80)
unfolding parse_level parse_percent parse_u8 parse_unsigned strip_0x from_str_radix digits to_digit
    strip_suffix strip_prefix trim_start trim_end is_whitespace
levels_test = (refl, refl)

colors_test :
    (parse_color (codes "RED") ≡ ok (0xff, 0, 0))
    × (parse_color (codes "#00ff00") ≡ ok (0, 0xff, 0))
unfolding parse_color parse_rgb find to_lower from_str_radix digits to_digit strip_prefix trim_start
    trim_end is_whitespace len len_utf8
colors_test = (refl, refl)

effects_test : parse_effect (codes "Spectrum Cycle") ≡ ok 0x08
unfolding parse_effect effect_name find to_lower trim_start trim_end is_whitespace
effects_test = refl

bytes_test : parse_hex_bytes (codes "0x01FF") ≡ ok (0x01 ∷ 0xff ∷ [])
unfolding parse_hex_bytes hex_pairs strip_0x from_str_radix digits to_digit strip_prefix trim_start
    trim_end is_whitespace len len_utf8
bytes_test = refl

abbrev page_up : Key
page_up = key 0x4b "KC_PAGE_UP" "PGUP" ("pgup" ∷ [])

by_name-spelling_example : (by_code 0x4b ≡ some page_up) × (by_name (codes " page-up") ≡ some 0x4b)
unfolding trim_start trim_end is_whitespace to_upper
by_name-spelling_example = by_name-spelling 73 3 page_up (codes " page-up") refl refl

parse_key-printed_example :
    ((k : Key) → by_code 0x5f00 ≡ some k → parse_key k.name ≡ ok 0x5f00)
    × (by_code 0x5f00 ≡ none
        → (short_label 0x5f00 ≡ hex4 0x5f00) × (parse_key (short_label 0x5f00) ≡ ok 0x5f00))
parse_key-printed_example = parse_key-printed 0x5f00 (omega arith)

parse_level-percent_example :
    (100 ≤ 100
      → (255 * 100 ≤ 100 * 255 + 50)
        × (100 * 255 ≤ 255 * 100 + 50)
        × (255 < 256)
        × (parse_level (percentage 100) ≡ ok 255)
        × (percent 255 ≡ percentage 100))
    × (100 < 100 → (m : Text) × (parse_level (percentage 100) ≡ err m))
parse_level-percent_example = parse_level-percent 100 (omega arith)

-- `0xff` and a euro sign with a letter.
parse_hex_bytes-panics_example :
    parse_hex_bytes (codes "0x" ++ (hexes (0xff ∷ []) ++ (0x20ac ∷ b'a' ∷ []))) ≡ panicked
unfolding len_utf8 is_whitespace
parse_hex_bytes-panics_example =
    parse_hex_bytes-panics (0xff ∷ []) 0x20ac b'a' (omega arith, tt) refl (omega arith) refl refl

-- A bus with two keyboards that answers nothing else.
abbrev two : Proxy
two = record {
  World = Unit {0};
  list_devices = λ u. (value (codes "hidraw0" ∷ codes "hidraw3" ∷ []), u);
  get_device_identity = λ id u. (failed [], u);
  get_device_info = λ id u. (failed [], u);
  get_keycode = λ id l r c u. (failed [], u);
  get_macro = λ id o n u. (failed [], u);
  set_keycode = λ id l r c kc u. (failed [], u);
  commit = λ id u. (failed [], u);
  set_macro = λ id o bs u. (failed [], u);
  get_lighting = λ id c v u. (failed [], u);
  set_lighting = λ id c v bs u. (failed [], u);
}

abbrev two_ids : List Text
two_ids = codes "hidraw0" ∷ codes "hidraw3" ∷ []

pick_device_example :
    Picks two (codes "W3") two_ids tt (codes "hidraw3") (pick_device two (codes "W3") two_ids tt).1
unfolding pick_device any at_index from_str_radix digits to_digit matching contains starts_with
    strip_prefix to_lower
pick_device_example = pick_device_lem two (codes "W3") two_ids tt (codes "hidraw3") refl

-- A line of a dump, with an address of four digits.
dump_test :
    dump 2 0x10 (0x41 ∷ 0x00 ∷ [])
    ≡ (codes "0010  41 00                                             |A.|") ∷ []
unfolding dump hex2 to_hex
dump_test = refl

grid_test :
    grid_lines (codes "hidraw0") 1 2 ((codes "A" ∷ codes "ESC" ∷ []) ∷ [])
    ≡ codes "hidraw0 layer 1:" ∷ codes "       c0  c1" ∷ codes "  r0    A ESC" ∷ [] ∷ []
unfolding grid_lines decimal decimal_digits
grid_test = refl

keys_line_test : cmd_keys (some (codes "Page_Up")) ≡ codes "0x004b  KC_PAGE_UP  (also: pgup)"
unfolding cmd_keys filtered hex4 hex2 contains starts_with strip_prefix to_lower
keys_line_test = refl
