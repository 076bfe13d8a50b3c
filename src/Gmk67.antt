-- ===== src/Gmk67.antt =====
-- src/hal/legacy/gmk67.rs: the constants of the protocol, the lighting settings and the encoders of
-- the 64-byte frames. A byte is a number below 256, and `f[i] = x` is `set`.
pub mod Matrix
pub mod Driver
pub mod Methods
pub mod Entries
pub mod ReadBack
pub mod Examples
pub mod Session
pub mod Sync
pub mod Lights
pub mod Commit
pub mod Blob
pub mod Wire
pub mod Color
pub mod Frames
use clackd.Base.{
  ℕ, ◌+◌, ◌*◌, ◌/◌, ◌%◌, List, [], ◌∷◌, Bool, true, false, ltb, leb, ◌==◌, ◌&&◌, ◌||◌, not,
  if◌then◌else◌, length, get_or, get_elem?, set, replicate, min, Option, none, some,
}
use clackd.Shadow.{LightingState}

abbrev pub frame_len : ℕ
frame_len = 64

abbrev pub report_id : ℕ
report_id = 0x00

abbrev packet_header : ℕ
packet_header = 0x04

abbrev pub cmd_communication_end : ℕ
cmd_communication_end = 0x02

abbrev cmd_write_led_special_effect_area : ℕ
cmd_write_led_special_effect_area = 0x13

abbrev pub cmd_turn_on_customization : ℕ
cmd_turn_on_customization = 0x18

abbrev pub cmd_led_effect_start : ℕ
cmd_led_effect_start = 0xf0

abbrev led_special_effect_packets : ℕ
led_special_effect_packets = 0x01

abbrev mode_static : ℕ
mode_static = 0x01

abbrev mode_effect_max : ℕ
mode_effect_max = 0x13

abbrev pub mode_lights_off : ℕ
mode_lights_off = 0x80

abbrev brightness_max : ℕ
brightness_max = 0x0f

abbrev speed_max : ℕ
speed_max = 0x0f

abbrev pub key_def_pages : ℕ
key_def_pages = 9

abbrev key_def_buf_len : ℕ
key_def_buf_len = 576

abbrev pub key_def_entry_marker : ℕ
key_def_entry_marker = 0x02

unfoldable pub is_renderable_mode : ℕ → Bool
is_renderable_mode mode =
    (leb mode_static mode && leb mode mode_effect_max) || mode == mode_lights_off

pub record Lighting : Type 0 where
  pub mode : ℕ
  pub r : ℕ
  pub g : ℕ
  pub b : ℕ
  pub brightness : ℕ
  pub speed : ℕ
  pub direction : ℕ
  pub random : Bool

abbrev pub default : Lighting
default = record {
  mode = mode_static;
  r = 0xff;
  g = 0xff;
  b = 0xff;
  brightness = brightness_max;
  speed = 0x00;
  direction = 0x00;
  random = false;
}

-- `bool as u8`.
abbrev pub byte : Bool → ℕ
byte true = 1
byte false = 0

abbrev zeros : List ℕ
zeros = replicate frame_len 0

unfoldable pub encode : Lighting → List ℕ
encode l =
    let f = set zeros 0 l.mode in
    let f = set f 1 l.r in
    let f = set f 2 l.g in
    let f = set f 3 l.b in
    let f = set f 8 (byte l.random) in
    let f = set f 9 (min l.brightness brightness_max) in
    let f = set f 10 (min l.speed speed_max) in
    let f = set f 11 l.direction in set (set f 14 0xaa) 15 0x55

abbrev is_set : Option ℕ → Bool → Bool
is_set none d = d
is_set (some x) d = not (x == 0)

unfoldable pub from_bytes : List ℕ → Lighting
from_bytes bytes = record {
  mode = get_or bytes 0 default.mode;
  r = get_or bytes 1 default.r;
  g = get_or bytes 2 default.g;
  b = get_or bytes 3 default.b;
  brightness = get_or bytes 4 default.brightness;
  random = is_set (get_elem? bytes 5) default.random;
  speed = get_or bytes 6 default.speed;
  direction = get_or bytes 7 default.direction;
}

unfoldable pub to_bytes : Lighting → List ℕ
to_bytes l = l.mode ∷ l.r ∷ l.g ∷ l.b ∷ l.brightness ∷ byte l.random ∷ l.speed ∷ l.direction ∷ []

unfoldable pub to_lighting_state : Lighting → LightingState
to_lighting_state l = record {
  mode = l.mode;
  r = l.r;
  g = l.g;
  b = l.b;
  brightness = l.brightness;
  speed = l.speed;
  direction = l.direction;
  random = l.random;
}

unfoldable pub from_lighting_state : LightingState → Lighting
from_lighting_state s = record {
  mode = s.mode;
  r = s.r;
  g = s.g;
  b = s.b;
  brightness = s.brightness;
  speed = s.speed;
  direction = s.direction;
  random = s.random;
}

unfoldable pub encode_cmd : ℕ → List ℕ
encode_cmd command = set (set zeros 0 packet_header) 1 command

unfoldable pub encode_start_effect_page : List ℕ
unfolding encode_cmd
encode_start_effect_page =
    set (encode_cmd cmd_write_led_special_effect_area) 8 led_special_effect_packets

unfoldable pub encode_start_keydef_page : ℕ → List ℕ
unfolding encode_cmd
encode_start_keydef_page command = set (encode_cmd command) 8 key_def_pages

-- The loop over the entries, each the index of a key and its keycode.
unfoldable pub put_entries : List (ℕ × ℕ) → List ℕ → List ℕ
put_entries [] buf = buf
put_entries ((ki, kc) ∷ es) buf =
    let o = ki * 4 in
    let filled = set (set (set buf o key_def_entry_marker) (o + 2) (kc % 256)) (o + 3) (kc / 256) in
    put_entries es (if ltb (o + 3) key_def_buf_len then filled else buf)

unfoldable pub encode_keydef_buffer : List (ℕ × ℕ) → List ℕ
unfolding put_entries
encode_keydef_buffer entries =
    set (set (put_entries entries (replicate key_def_buf_len 0)) 574 0xaa) 575 0x55
