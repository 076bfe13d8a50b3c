-- ===== src/Clackctl/Keycodes.antt =====
-- src/bin/clackctl/keycodes.rs: the table of keycode names, and how it is read.
use clackd.Base.{
  ℕ, List, [], ◌∷◌, ◌++◌, map, drop, Bool, Option, none, some, String, ◌==◌, ◌||◌, if◌then◌else◌,
}
use clackd.Clackctl.Text.{
  Text, codes, same, to_ascii_uppercase, eq_ignore_ascii_case, trim, replace, strip_prefix, hex4,
}

pub record Key : Type 0 where
  pub code : ℕ
  pub name : Text
  pub short : Text
  pub aliases : List Text

-- A row of the macro `keys`.
abbrev pub key : ℕ → String → String → List String → Key
key c n s names = record { code = c; name = codes n; short = codes s; aliases = map codes names }

-- `find` and `any` of an iterator.
unfoldable pub find {ℓ} : {A : Type ℓ} → (A → Bool) → List A → Option A
find p [] = none
find p (x ∷ xs) = if p x then some x else find p xs

unfoldable pub any {ℓ} : {A : Type ℓ} → (A → Bool) → List A → Bool
any p [] = Bool.false
any p (x ∷ xs) = p x || any p xs

abbrev pub all : List Key
all =
    key 0x0000 "KC_NO" "--" ("none" ∷ "no" ∷ "xxx" ∷ [])
    ∷ key 0x0001 "KC_TRANSPARENT" "TRNS" ("trans" ∷ "trns" ∷ [])
    ∷ key 0x0004 "KC_A" "A" []
    ∷ key 0x0005 "KC_B" "B" []
    ∷ key 0x0006 "KC_C" "C" []
    ∷ key 0x0007 "KC_D" "D" []
    ∷ key 0x0008 "KC_E" "E" []
    ∷ key 0x0009 "KC_F" "F" []
    ∷ key 0x000a "KC_G" "G" []
    ∷ key 0x000b "KC_H" "H" []
    ∷ key 0x000c "KC_I" "I" []
    ∷ key 0x000d "KC_J" "J" []
    ∷ key 0x000e "KC_K" "K" []
    ∷ key 0x000f "KC_L" "L" []
    ∷ key 0x0010 "KC_M" "M" []
    ∷ key 0x0011 "KC_N" "N" []
    ∷ key 0x0012 "KC_O" "O" []
    ∷ key 0x0013 "KC_P" "P" []
    ∷ key 0x0014 "KC_Q" "Q" []
    ∷ key 0x0015 "KC_R" "R" []
    ∷ key 0x0016 "KC_S" "S" []
    ∷ key 0x0017 "KC_T" "T" []
    ∷ key 0x0018 "KC_U" "U" []
    ∷ key 0x0019 "KC_V" "V" []
    ∷ key 0x001a "KC_W" "W" []
    ∷ key 0x001b "KC_X" "X" []
    ∷ key 0x001c "KC_Y" "Y" []
    ∷ key 0x001d "KC_Z" "Z" []
    ∷ key 0x001e "KC_1" "1" []
    ∷ key 0x001f "KC_2" "2" []
    ∷ key 0x0020 "KC_3" "3" []
    ∷ key 0x0021 "KC_4" "4" []
    ∷ key 0x0022 "KC_5" "5" []
    ∷ key 0x0023 "KC_6" "6" []
    ∷ key 0x0024 "KC_7" "7" []
    ∷ key 0x0025 "KC_8" "8" []
    ∷ key 0x0026 "KC_9" "9" []
    ∷ key 0x0027 "KC_0" "0" []
    ∷ key 0x0028 "KC_ENTER" "ENT" ("ent" ∷ "return" ∷ [])
    ∷ key 0x0029 "KC_ESCAPE" "ESC" ("esc" ∷ [])
    ∷ key 0x002a "KC_BACKSPACE" "BSPC" ("bspc" ∷ [])
    ∷ key 0x002b "KC_TAB" "TAB" []
    ∷ key 0x002c "KC_SPACE" "SPC" ("spc" ∷ [])
    ∷ key 0x002d "KC_MINUS" "-" ("mins" ∷ "-" ∷ [])
    ∷ key 0x002e "KC_EQUAL" "=" ("eql" ∷ "=" ∷ [])
    ∷ key 0x002f "KC_LEFT_BRACKET" "[" ("lbrc" ∷ "[" ∷ [])
    ∷ key 0x0030 "KC_RIGHT_BRACKET" "]" ("rbrc" ∷ "]" ∷ [])
    ∷ key 0x0031 "KC_BACKSLASH" "\\" ("bsls" ∷ "\\" ∷ [])
    ∷ key 0x0032 "KC_NONUS_HASH" "#" ("nuhs" ∷ [])
    ∷ key 0x0033 "KC_SEMICOLON" ";" ("scln" ∷ ";" ∷ [])
    ∷ key 0x0034 "KC_QUOTE" "'" ("quot" ∷ "'" ∷ [])
    ∷ key 0x0035 "KC_GRAVE" "`" ("grv" ∷ "`" ∷ [])
    ∷ key 0x0036 "KC_COMMA" "," ("comm" ∷ "," ∷ [])
    ∷ key 0x0037 "KC_DOT" "." ("." ∷ [])
    ∷ key 0x0038 "KC_SLASH" "/" ("slsh" ∷ "/" ∷ [])
    ∷ key 0x0039 "KC_CAPS_LOCK" "CAPS" ("caps" ∷ [])
    ∷ key 0x003a "KC_F1" "F1" []
    ∷ key 0x003b "KC_F2" "F2" []
    ∷ key 0x003c "KC_F3" "F3" []
    ∷ key 0x003d "KC_F4" "F4" []
    ∷ key 0x003e "KC_F5" "F5" []
    ∷ key 0x003f "KC_F6" "F6" []
    ∷ key 0x0040 "KC_F7" "F7" []
    ∷ key 0x0041 "KC_F8" "F8" []
    ∷ key 0x0042 "KC_F9" "F9" []
    ∷ key 0x0043 "KC_F10" "F10" []
    ∷ key 0x0044 "KC_F11" "F11" []
    ∷ key 0x0045 "KC_F12" "F12" []
    ∷ key 0x0046 "KC_PRINT_SCREEN" "PSCR" ("pscr" ∷ "prtsc" ∷ [])
    ∷ key 0x0047 "KC_SCROLL_LOCK" "SCRL" ("scrl" ∷ [])
    ∷ key 0x0048 "KC_PAUSE" "PAUS" ("paus" ∷ "brk" ∷ [])
    ∷ key 0x0049 "KC_INSERT" "INS" ("ins" ∷ [])
    ∷ key 0x004a "KC_HOME" "HOME" []
    ∷ key 0x004b "KC_PAGE_UP" "PGUP" ("pgup" ∷ [])
    ∷ key 0x004c "KC_DELETE" "DEL" ("del" ∷ [])
    ∷ key 0x004d "KC_END" "END" []
    ∷ key 0x004e "KC_PAGE_DOWN" "PGDN" ("pgdn" ∷ [])
    ∷ key 0x004f "KC_RIGHT" "RGHT" ("rght" ∷ [])
    ∷ key 0x0050 "KC_LEFT" "LEFT" []
    ∷ key 0x0051 "KC_DOWN" "DOWN" []
    ∷ key 0x0052 "KC_UP" "UP" []
    ∷ key 0x0053 "KC_NUM_LOCK" "NUM" ("num" ∷ [])
    ∷ key 0x0054 "KC_KP_SLASH" "P/" ("psls" ∷ [])
    ∷ key 0x0055 "KC_KP_ASTERISK" "P*" ("past" ∷ [])
    ∷ key 0x0056 "KC_KP_MINUS" "P-" ("pmns" ∷ [])
    ∷ key 0x0057 "KC_KP_PLUS" "P+" ("ppls" ∷ [])
    ∷ key 0x0058 "KC_KP_ENTER" "PENT" ("pent" ∷ [])
    ∷ key 0x0059 "KC_KP_1" "P1" []
    ∷ key 0x005a "KC_KP_2" "P2" []
    ∷ key 0x005b "KC_KP_3" "P3" []
    ∷ key 0x005c "KC_KP_4" "P4" []
    ∷ key 0x005d "KC_KP_5" "P5" []
    ∷ key 0x005e "KC_KP_6" "P6" []
    ∷ key 0x005f "KC_KP_7" "P7" []
    ∷ key 0x0060 "KC_KP_8" "P8" []
    ∷ key 0x0061 "KC_KP_9" "P9" []
    ∷ key 0x0062 "KC_KP_0" "P0" []
    ∷ key 0x0063 "KC_KP_DOT" "P." ("pdot" ∷ [])
    ∷ key 0x0064 "KC_NONUS_BACKSLASH" "NUBS" ("nubs" ∷ [])
    ∷ key 0x0065 "KC_APPLICATION" "APP" ("app" ∷ "menu" ∷ [])
    ∷ key 0x0067 "KC_KP_EQUAL" "P=" ("peql" ∷ [])
    ∷ key 0x0068 "KC_F13" "F13" []
    ∷ key 0x0069 "KC_F14" "F14" []
    ∷ key 0x006a "KC_F15" "F15" []
    ∷ key 0x006b "KC_F16" "F16" []
    ∷ key 0x006c "KC_F17" "F17" []
    ∷ key 0x006d "KC_F18" "F18" []
    ∷ key 0x006e "KC_F19" "F19" []
    ∷ key 0x006f "KC_F20" "F20" []
    ∷ key 0x0070 "KC_F21" "F21" []
    ∷ key 0x0071 "KC_F22" "F22" []
    ∷ key 0x0072 "KC_F23" "F23" []
    ∷ key 0x0073 "KC_F24" "F24" []
    ∷ key 0x00a5 "KC_SYSTEM_POWER" "PWR" ("pwr" ∷ [])
    ∷ key 0x00a6 "KC_SYSTEM_SLEEP" "SLEP" ("slep" ∷ "sleep" ∷ [])
    ∷ key 0x00a7 "KC_SYSTEM_WAKE" "WAKE" ("wake" ∷ [])
    ∷ key 0x00a8 "KC_AUDIO_MUTE" "MUTE" ("mute" ∷ [])
    ∷ key 0x00a9 "KC_AUDIO_VOL_UP" "VOLU" ("volu" ∷ [])
    ∷ key 0x00aa "KC_AUDIO_VOL_DOWN" "VOLD" ("vold" ∷ [])
    ∷ key 0x00ab "KC_MEDIA_NEXT_TRACK" "MNXT" ("mnxt" ∷ "next" ∷ [])
    ∷ key 0x00ac "KC_MEDIA_PREV_TRACK" "MPRV" ("mprv" ∷ "prev" ∷ [])
    ∷ key 0x00ad "KC_MEDIA_STOP" "MSTP" ("mstp" ∷ [])
    ∷ key 0x00ae "KC_MEDIA_PLAY_PAUSE" "MPLY" ("mply" ∷ "play" ∷ [])
    ∷ key 0x00af "KC_MEDIA_SELECT" "MSEL" ("msel" ∷ [])
    ∷ key 0x00b0 "KC_MEDIA_EJECT" "EJCT" ("ejct" ∷ [])
    ∷ key 0x00b1 "KC_MAIL" "MAIL" []
    ∷ key 0x00b2 "KC_CALCULATOR" "CALC" ("calc" ∷ [])
    ∷ key 0x00b3 "KC_MY_COMPUTER" "MYCM" ("mycm" ∷ [])
    ∷ key 0x00b4 "KC_WWW_SEARCH" "WSCH" ("wsch" ∷ [])
    ∷ key 0x00b5 "KC_WWW_HOME" "WHOM" ("whom" ∷ [])
    ∷ key 0x00b6 "KC_WWW_BACK" "WBAK" ("wbak" ∷ [])
    ∷ key 0x00b7 "KC_WWW_FORWARD" "WFWD" ("wfwd" ∷ [])
    ∷ key 0x00b8 "KC_WWW_STOP" "WSTP" ("wstp" ∷ [])
    ∷ key 0x00b9 "KC_WWW_REFRESH" "WREF" ("wref" ∷ [])
    ∷ key 0x00ba "KC_WWW_FAVORITES" "WFAV" ("wfav" ∷ [])
    ∷ key 0x00bb "KC_MEDIA_FAST_FORWARD" "MFFD" ("mffd" ∷ [])
    ∷ key 0x00bc "KC_MEDIA_REWIND" "MRWD" ("mrwd" ∷ [])
    ∷ key 0x00bd "KC_BRIGHTNESS_UP" "BRIU" ("briu" ∷ [])
    ∷ key 0x00be "KC_BRIGHTNESS_DOWN" "BRID" ("brid" ∷ [])
    ∷ key 0x00e0 "KC_LEFT_CTRL" "LCTL" ("lctl" ∷ "lctrl" ∷ [])
    ∷ key 0x00e1 "KC_LEFT_SHIFT" "LSFT" ("lsft" ∷ "lshift" ∷ [])
    ∷ key 0x00e2 "KC_LEFT_ALT" "LALT" ("lalt" ∷ "lopt" ∷ [])
    ∷ key 0x00e3 "KC_LEFT_GUI" "LGUI" ("lgui" ∷ "lcmd" ∷ "lwin" ∷ [])
    ∷ key 0x00e4 "KC_RIGHT_CTRL" "RCTL" ("rctl" ∷ "rctrl" ∷ [])
    ∷ key 0x00e5 "KC_RIGHT_SHIFT" "RSFT" ("rsft" ∷ "rshift" ∷ [])
    ∷ key 0x00e6 "KC_RIGHT_ALT" "RALT" ("ralt" ∷ "ropt" ∷ "algr" ∷ [])
    ∷ key 0x00e7 "KC_RIGHT_GUI" "RGUI" ("rgui" ∷ "rcmd" ∷ "rwin" ∷ [])
    ∷ []

unfoldable pub by_code : ℕ → Option Key
by_code c = find (λ k. k.code == c) all

-- The key with an alias that a text spells.
unfoldable pub by_alias : Text → Option Key
by_alias raw = find (λ k. any (λ a. eq_ignore_ascii_case a raw) k.aliases) all

abbrev or_self : Text → Option Text → Text
or_self s none = s
or_self s (some t) = t

-- The key whose name, without its prefix, or whose alias is a text.
unfoldable pub by_norm : Text → Option Key
by_norm norm =
    find (λ k. same (drop 3 k.name) norm || any (λ a. eq_ignore_ascii_case a norm) k.aliases) all

-- In upper case, with underscores and without the prefix.
unfoldable pub normalize : Text → Text
normalize raw =
    let upper = replace b'-' b'_' (to_ascii_uppercase raw) in
    or_self upper (strip_prefix (codes "KC_") upper)

abbrev code_of : Option Key → Option ℕ
code_of none = none
code_of (some k) = some k.code

abbrev pub or_else : Option ℕ → Option ℕ → Option ℕ
or_else none o = o
or_else (some c) o = some c

unfoldable pub lookup : Text → Option ℕ
lookup raw = or_else (code_of (by_alias raw)) (code_of (by_norm (normalize raw)))

unfoldable pub by_name : Text → Option ℕ
by_name s = lookup (trim s)

unfoldable pub describe : ℕ → Text
describe c = elim (by_code c) [
  | some k ↦ k.name ++ (codes " (" ++ (hex4 c ++ codes ")"))
  | none ↦ hex4 c ++ codes " (no name — quantum keycode?)"
]

unfoldable pub short_label : ℕ → Text
short_label c = elim (by_code c) [ some k ↦ k.short | none ↦ hex4 c ]
