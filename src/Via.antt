-- ===== src/Via.antt =====
-- src/hal/via.rs: the constants of the protocol, the checks on frames and ranges, and the
-- classification of errors of the operating system.
pub mod Transport
pub mod Sends
pub mod Sizes
pub mod Safety
pub mod Device
pub mod Coalescer
pub mod Driver
pub mod Writes
pub mod Contract
pub mod Firmware
pub mod Errors
mod Examples
use clackd.Base.{
  ℕ, ◌+◌, ◌*◌, ◌/◌, ◌%◌, List, [], ◌∷◌, Bool, true, false, String, ltb, ◌==◌, ◌&&◌, ◌||◌,
  if◌then◌else◌, length, take, drop, replicate, get_or,
}
use clackd.Error.{
  DriverError, Result, ok, err, io, protocol_violation, permission_denied, disconnected,
}
use clackd.Keymap.{Pos}

abbrev pub via_frame_len : ℕ
via_frame_len = 32

abbrev pub via_hidraw_report_id : ℕ
via_hidraw_report_id = 0x00

abbrev pub id_get_protocol_version : ℕ
id_get_protocol_version = 0x01

abbrev pub id_dynamic_keymap_get_keycode : ℕ
id_dynamic_keymap_get_keycode = 0x04

abbrev pub id_dynamic_keymap_set_keycode : ℕ
id_dynamic_keymap_set_keycode = 0x05

abbrev pub id_lighting_set_value : ℕ
id_lighting_set_value = 0x07

abbrev pub id_lighting_get_value : ℕ
id_lighting_get_value = 0x08

abbrev pub id_custom_save : ℕ
id_custom_save = 0x09

abbrev pub id_macro_get_count : ℕ
id_macro_get_count = 0x0c

abbrev pub id_macro_get_buffer_size : ℕ
id_macro_get_buffer_size = 0x0d

abbrev pub id_macro_get_buffer : ℕ
id_macro_get_buffer = 0x0e

abbrev pub id_macro_set_buffer : ℕ
id_macro_set_buffer = 0x0f

abbrev pub id_dynamic_keymap_get_layer_count : ℕ
id_dynamic_keymap_get_layer_count = 0x11

abbrev pub max_macro_chunk : ℕ
max_macro_chunk = 28

abbrev pub max_lighting_value : ℕ
max_lighting_value = 29

-- `u16::from_be_bytes` and the two bytes of `to_be_bytes`.
abbrev pub from_be : ℕ → ℕ → ℕ
from_be hi lo = hi * 256 + lo

abbrev pub hi_byte : ℕ → ℕ
hi_byte n = n / 256

abbrev pub lo_byte : ℕ → ℕ
lo_byte n = n % 256

-- A frame that begins with the bytes and is zero behind them: `req[0] = …; req[1] = …`.
abbrev pub store : List ℕ → List ℕ → List ℕ
store [] xs = xs
store (b ∷ bs) [] = []
store (b ∷ bs) (x ∷ xs) = b ∷ store bs xs

abbrev pub request : List ℕ → List ℕ
request bytes = store bytes (replicate via_frame_len 0)

abbrev pub starts_with : List ℕ → List ℕ → Bool
starts_with [] xs = true
starts_with (b ∷ bs) [] = false
starts_with (b ∷ bs) (x ∷ xs) = x == b && starts_with bs xs

unfoldable pub validate_echo : List ℕ → List ℕ → String → Result (Unit {0})
validate_echo resp expected reason =
    if starts_with expected resp then ok tt else err (protocol_violation reason)

unfoldable pub validate_macro_range : ℕ → ℕ → ℕ → Result (Unit {0})
validate_macro_range offset len buffer_size =
    if ltb max_macro_chunk len
    then err (protocol_violation "macro chunk exceeds 28-byte frame capacity")
    else if ltb buffer_size (offset + len)
    then err (protocol_violation "macro range exceeds device macro buffer size")
    else ok tt

-- `std::io::ErrorKind` as the standard library derives it from an errno, to the kinds in use.
pub data ErrorKind : Type 0 where
  kind_permission_denied kind_not_found kind_broken_pipe kind_other : ErrorKind

abbrev eperm : ℕ
eperm = 1

abbrev pub enoent : ℕ
enoent = 2

abbrev eacces : ℕ
eacces = 13

abbrev pub enodev : ℕ
enodev = 19

abbrev pub epipe : ℕ
epipe = 32

abbrev pub kind : ℕ → ErrorKind
kind errno =
    if errno == eperm || errno == eacces
    then kind_permission_denied
    else if errno == enoent
    then kind_not_found
    else if errno == epipe
    then kind_broken_pipe
    else kind_other

unfoldable pub classify_open_errno : ℕ → String → DriverError
classify_open_errno errno path =
    if errno == eacces || errno == eperm
    then permission_denied path
    else if errno == enodev || errno == enoent
    then disconnected
    else io errno

-- An `std::io::Error` is its errno.
unfoldable pub classify_io_error : ℕ → DriverError
classify_io_error errno = elim (kind errno) [
  | kind_permission_denied ↦ permission_denied ""
  | kind_not_found ↦ disconnected
  | kind_broken_pipe ↦ disconnected
  | kind_other ↦ io errno
]

-- The operations that the driver and the coalescer issue on the bus.
pub record CoalescerTransport : Type 1 where
  pub State : Type 0
  pub get_protocol_version : State → Result ℕ × State
  pub get_keycode : Pos → State → Result ℕ × State
  pub set_keycode : Pos → ℕ → State → Result (Unit {0}) × State
  pub get_layer_count : State → Result ℕ × State
  pub custom_save : ℕ → State → Result (Unit {0}) × State
  pub get_macro_buffer : ℕ → ℕ → State → Result (List ℕ) × State
  pub set_macro_buffer : ℕ → List ℕ → State → Result (Unit {0}) × State
  pub get_lighting : ℕ → ℕ → State → Result (List ℕ) × State
  pub set_lighting : ℕ → ℕ → List ℕ → State → Result (Unit {0}) × State
