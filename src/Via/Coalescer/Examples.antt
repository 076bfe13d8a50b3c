-- ===== src/Via/Coalescer/Examples.antt =====
-- The coalescer's theorems over a keyboard that follows the protocol, over one that accepts every
-- write, and over one that was unplugged.
use clackd.Base.{ℕ, ◌≡◌, refl, [], ◌∷◌, none, some, arith, inl}
use clackd.Error.{err, disconnected}
use clackd.Keymap.{Pos, at, Map, get, cmp, keys, remove}
use clackd.Via.{
  validate_echo, request, from_be, hi_byte, lo_byte, starts_with, validate_macro_range,
  max_macro_chunk, classify_open_errno, classify_io_error, enodev, enoent, epipe,
  CoalescerTransport,
}
use clackd.Via.Transport.{
  Wire, Attempt, moved, would_block, ViaTransport, write_frame, read_frame, exchange, roundtrip,
  via_transport,
}
use clackd.Via.Examples.{answer, plugged, bus, keys_of, InStep, device}
use clackd.Via.Coalescer.{
  HashOrder, flush, set_keycode, received, expired, Coalescer, flush_keys, flush_buffer, turn, run,
  shutdown,
}
use clackd.Via.Coalescer.Flush.{IsOrder, Drains, flush_buffer-Drains}
use clackd.Via.Coalescer.Keymap.{write_at, FollowsState, run-Follows, shutdown_lem}
use clackd.Via.Coalescer.Timing.{Stays, turn-strands}

abbrev as_listed : HashOrder
as_listed = record { positions = λ ps. ps; channels = λ cs. cs }

as_listed-IsOrder : IsOrder as_listed
as_listed-IsOrder = record { meets = λ p ps h. h }

-- The coalescer over the keyboard, with two writes that wait.
abbrev pending : Map ℕ
pending = (at 0 0 0, 4) ∷ (at 0 0 1, 5) ∷ []

abbrev waiting : Coalescer bus as_listed 300
waiting = record {
  transport = plugged;
  buffer = pending;
  deadline = some 1300;
  touched = 3 ∷ [];
  updates = 0;
}

abbrev wanted : Pos → ℕ
wanted = write_at (write_at (λ p. 0) (at 0 0 0) 4) (at 0 0 1) 5

waiting-Follows :
    FollowsState bus as_listed 300 keys_of InStep device as_listed-IsOrder wanted waiting
unfolding get cmp
waiting-Follows = record {
  ready = inl refl;
  sorted = ((refl, tt), (tt, tt));
  reads = λ p. ground arith;
}

flush_buffer-Drains_example :
    Drains bus as_listed keys_of InStep device plugged pending
      (flush_buffer bus as_listed plugged pending)
flush_buffer-Drains_example =
    flush_buffer-Drains bus as_listed keys_of InStep device as_listed-IsOrder plugged pending
      (inl refl) waiting-Follows.sorted

run-Follows_example :
    FollowsState bus as_listed 300 keys_of InStep device as_listed-IsOrder
      (write_at wanted (at 1 0 0) 6)
      (run bus as_listed 300
        ((1200, received (set_keycode (at 1 0 0) 6)) ∷ (1300, expired) ∷ [])
        waiting)
run-Follows_example =
    run-Follows bus as_listed 300 keys_of InStep device as_listed-IsOrder
      ((1200, received (set_keycode (at 1 0 0) 6)) ∷ (1300, expired) ∷ []) wanted waiting
      waiting-Follows

shutdown_example :
    let s' = shutdown bus as_listed 300 waiting in
    (s'.buffer ≡ []) × (keys_of s'.transport ≡ wanted)
unfolding flush_buffer flush_keys keys get cmp clackd.Via.Transport.set_keycode roundtrip exchange
    write_frame read_frame answer validate_echo remove
shutdown_example =
    shutdown_lem bus as_listed 300 keys_of InStep device as_listed-IsOrder wanted waiting refl
      waiting-Follows

-- A device that answers nothing.
abbrev gone : CoalescerTransport
gone = record {
  State = Unit {0};
  get_protocol_version = λ u. (err disconnected, u);
  get_keycode = λ p u. (err disconnected, u);
  set_keycode = λ p kc u. (err disconnected, u);
  get_layer_count = λ u. (err disconnected, u);
  custom_save = λ c u. (err disconnected, u);
  get_macro_buffer = λ o n u. (err disconnected, u);
  set_macro_buffer = λ o bs u. (err disconnected, u);
  get_lighting = λ c v u. (err disconnected, u);
  set_lighting = λ c v bs u. (err disconnected, u);
}

abbrev stuck : Coalescer gone as_listed 300
stuck = record { transport = tt; buffer = pending; deadline = some 1300; touched = []; updates = 0 }

turn-strands_example :
    let s' = turn gone as_listed 300 1000 (received flush) stuck in
    Stays gone as_listed 300 disconnected pending s'.buffer
    × (s'.deadline ≡ none)
    × ((later : ℕ) → turn gone as_listed 300 later expired s' ≡ s')
unfolding flush_buffer flush_keys keys get cmp
turn-strands_example =
    turn-strands gone as_listed 300 1000 stuck disconnected ((refl, tt), (tt, tt)) refl
