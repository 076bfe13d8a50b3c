-- ===== src/Via/Examples.antt =====
-- A keyboard that follows the VIA protocol, and the theorems on it.
use clackd.Base.{
  ℕ, zero, suc, ◌≡◌, ◌≢◌, refl, List, [], ◌∷◌, Option, none, some, arith, ◌==◌, if◌then◌else◌,
  length, drop, replicate, get_or, ◌⊎◌, inl, inr, Option-cases,
}
use clackd.Error.{ok}
use clackd.Keymap.{Pos, at}
use clackd.Keymap.Laws.{eq_of_cmp, cmp_refl}
use clackd.Via.{request, from_be, hi_byte, lo_byte, CoalescerTransport}
use clackd.Via.Transport.{
  Wire, Attempt, moved, would_block, ViaTransport, write_frame, read_frame, exchange, via_transport,
}
use clackd.Via.Sends.{Command, write_keycode, write_macro, save}
use clackd.Via.Safety.{All, IsBounded, recorded, session, session-IsBounded}
use clackd.Via.Device.{IsDevice}
use clackd.Via.Firmware.{Firmware, Ready, set_request, via-IsDevice}
use clackd.Via.Coalescer.Keymap.{write_at}

-- The keymap and the answer that waits.
abbrev pub Board : Type 0
Board = (Pos → ℕ) × Option (List ℕ)

abbrev frame_pos : List ℕ → Pos
frame_pos frame = at (get_or frame 1 0) (get_or frame 2 0) (get_or frame 3 0)

unfoldable pub answer : List ℕ → Board → Board
answer frame b =
    if get_or frame 0 0 == 0x05
    then (
      write_at b.0 (frame_pos frame) (from_be (get_or frame 4 0) (get_or frame 5 0)),
      some frame,
    )
    else if get_or frame 0 0 == 0x04
    then (
      b.0,
      some (
          0x04
          ∷ get_or frame 1 0
          ∷ get_or frame 2 0
          ∷ get_or frame 3 0
          ∷ hi_byte (b.0 (frame_pos frame))
          ∷ lo_byte (b.0 (frame_pos frame))
          ∷ replicate 26 0),
    )
    else if get_or frame 0 0 == 0x0d
    then (b.0, some (0x0d ∷ 0 ∷ 100 ∷ replicate 29 0))
    else (b.0, some frame)

abbrev give : Option (List ℕ) → Attempt (List ℕ)
give none = would_block
give (some bs) = moved bs

abbrev pub board : Wire
board = record {
  World = Board;
  try_write = λ w buf. (moved (length buf), answer (drop 1 buf) w);
  try_read = λ w. (give w.1, (w.0, none));
}

answer-some : (frame : List ℕ) (w : Board) → (answer frame w).1 ≢ none
unfolding answer
answer-some frame w e = ground arith

-- What is answered to a whole frame is read in the next attempt.
exchange-answer :
    (w : Board) (n : ℕ) (frame resp : List ℕ)
    → length frame ≡ 32
    → (exchange board n frame w).0 ≡ some (ok resp)
    → ((answer frame w).1 ≡ some resp) × ((exchange board n frame w).1.0 ≡ (answer frame w).0)
unfolding exchange write_frame read_frame
exchange-answer w zero frame resp l e = absurd (ground arith)
exchange-answer w (suc zero) frame resp l e = absurd (ground arith)
exchange-answer w (suc (suc n)) frame resp l e = elim (Option-cases (answer frame w).1) [
  | inl q ↦ absurd (answer-some frame w q)
  | inr (r, q) ↦ ground arith
]

board_firmware : Firmware board
unfolding answer
board_firmware = record {
  keymap = λ w. w.0;
  size = 100;
  read_keeps = λ w. refl;
  quiet_keeps = λ w frame q. ground arith;
  set_other = λ w p q kc h. ground (arith, eq_of_cmp q p);
  set_echoed = λ w n p kc resp e s.
      let a = exchange-answer w n (request (set_request p kc)) resp refl e in
      ground (arith, a.1, cmp_refl p);
  get_echoed = λ w n p resp e s.
      let a = exchange-answer w n (request (0x04 ∷ p.layer ∷ p.row ∷ p.col ∷ [])) resp refl e in
      ground (arith, a.0);
  size_echoed = λ w n resp e s.
      let a = exchange-answer w n (request (0x0d ∷ [])) resp refl e in ground (arith, a.0);
}

abbrev pub plugged : ViaTransport board
plugged = record {
  world = ((λ p. 0), none);
  device_id = "3434_0110";
  deadline = 8;
  macro_buffer_size = none;
}

abbrev traced : ViaTransport (recorded board)
traced = record {
  world = (((λ p. 0), none), []);
  device_id = "3434_0110";
  deadline = 8;
  macro_buffer_size = none;
}

abbrev commands : List Command
commands = write_macro 0 (1 ∷ 2 ∷ []) ∷ write_keycode (at 0 1 1) 5 ∷ save 3 ∷ []

session-IsBounded_example :
    let t = session (recorded board) commands traced in
    All (IsBounded t.macro_buffer_size) t.world.1
session-IsBounded_example = session-IsBounded board commands traced tt

via-IsDevice_example : IsDevice (via_transport board) (λ t. t.world.0) (Ready board board_firmware)
unfolding board_firmware
via-IsDevice_example = via-IsDevice board board_firmware

-- The keyboard as the coalescer sees it.
abbrev pub bus : CoalescerTransport
bus = via_transport board

abbrev pub keys_of : ViaTransport board → Pos → ℕ
keys_of t = t.world.0

abbrev pub InStep : ViaTransport board → Type 0
InStep t = (t.macro_buffer_size ≡ none) ⊎ (t.macro_buffer_size ≡ some 100)

pub device : IsDevice bus keys_of InStep
unfolding board_firmware
device = via-IsDevice board board_firmware
