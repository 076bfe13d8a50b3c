-- ===== src/Via/Coalescer.antt =====
-- src/hal/via.rs: the coalescer actor. A state is what `run_coalescer` keeps between two turns of
-- its loop; a turn takes an operation from the channel or the expiry of the deadline.
--
-- The hash map of pending writes is a `Map` by position, and the hash set of channels a list in
-- order; the order in which they are iterated is a parameter, `HashOrder`. Times are milliseconds.
-- Replies are returned, and the events of the lifecycle channel are counted.
pub mod Flush
pub mod Keymap
pub mod Timing
mod Examples
use clackd.Base.{
  ℕ, zero, suc, ◌+◌, ◌≡◌, List, [], ◌∷◌, ◌++◌, Bool, true, false, Option, none, some, ◌==◌, ltb,
  if◌then◌else◌,
}
use clackd.Error.{DriverError, Result, ok, err}
use clackd.Keymap.{Pos, Map, get, insert, remove, keys}
use clackd.Via.{CoalescerTransport}

-- The hash set of the touched channels.
unfoldable pub add_channel : ℕ → List ℕ → List ℕ
add_channel c [] = c ∷ []
add_channel c (k ∷ ks) = if c == k then k ∷ ks else k ∷ add_channel c ks

unfoldable pub drop_channel : ℕ → List ℕ → List ℕ
drop_channel c [] = []
drop_channel c (k ∷ ks) = if c == k then ks else k ∷ drop_channel c ks

-- The orders in which the keys of a hash map and of a hash set are iterated.
pub record HashOrder : Type 0 where
  pub positions : List Pos → List Pos
  pub channels : List ℕ → List ℕ

pub data Op : Type 0 where
  get_protocol_version get_layer_count flush : Op
  get_keycode : Pos → Op
  set_keycode : Pos → ℕ → Op
  get_macro : ℕ → ℕ → Op
  set_macro : ℕ → List ℕ → Op
  get_lighting : ℕ → ℕ → Op
  set_lighting : ℕ → ℕ → List ℕ → Op

-- What the reply channel receives.
pub data Reply : Type 0 where
  number : Result ℕ → Reply
  done : Result (Unit {0}) → Reply
  bytes : Result (List ℕ) → Reply

pub data Turn : Type 0 where
  received : Op → Turn
  expired : Turn

module _ (T : CoalescerTransport) (order : HashOrder) where
  -- The `for` loop over the keys that were collected up front.
  unfoldable pub flush_keys : List Pos → T.State → Map ℕ → Result (Unit {0}) × T.State × Map ℕ
  flush_keys [] t buffer = (ok tt, t, buffer)
  flush_keys (p ∷ ps) t buffer = elim (get buffer p) [
    | none ↦ flush_keys ps t buffer
    | some keycode ↦
        let (r, t') = T.set_keycode p keycode t in
        elim r [ ok _ ↦ flush_keys ps t' (remove buffer p) | err e ↦ (err e, t', buffer) ]
  ]

  unfoldable pub flush_buffer : T.State → Map ℕ → Result (Unit {0}) × T.State × Map ℕ
  flush_buffer t [] = (ok tt, t, [])
  flush_buffer t (e ∷ m) = flush_keys (order.positions (keys (e ∷ m))) t (e ∷ m)

  unfoldable pub save_channels : List ℕ → T.State → List ℕ → Result (Unit {0}) × T.State × List ℕ
  save_channels [] t channels = (ok tt, t, channels)
  save_channels (c ∷ cs) t channels =
      let (r, t') = T.custom_save c t in
      elim r [
        | ok _ ↦ save_channels cs t' (drop_channel c channels)
        | err e ↦ (err e, t', channels)
      ]

  unfoldable pub save_touched_channels : T.State → List ℕ → Result (Unit {0}) × T.State × List ℕ
  save_touched_channels t channels = save_channels (order.channels channels) t channels

module _ (T : CoalescerTransport) (order : HashOrder) (flush_interval : ℕ) where
  pub record Coalescer : Type 0 where
    pub transport : T.State
    pub buffer : Map ℕ
    pub deadline : Option ℕ
    pub touched : List ℕ
    -- The number of `LayoutUpdated` events sent.
    pub updates : ℕ

  abbrev pub start : T.State → Coalescer
  start t = record { transport = t; buffer = []; deadline = none; touched = []; updates = 0 }

  -- An explicit flush: the keymap, the event, then the lighting; the deadline is dropped.
  unfoldable pub on_flush : Coalescer → Reply × Coalescer
  on_flush s =
      let (r, t, buffer) = flush_buffer T order s.transport s.buffer in
      elim r [
        | ok _ ↦
            let (saved, t', touched) = save_touched_channels T order t s.touched in
            (
              done saved,
              record {
                transport = t';
                buffer = buffer;
                deadline = none;
                touched = touched;
                updates = s.updates + 1;
              },
            )
        | err e ↦ (
          done (err e),
          record {
            transport = t;
            buffer = buffer;
            deadline = none;
            touched = s.touched;
            updates = s.updates;
          },
        )
      ]

  -- The deadline has passed at `now`.
  unfoldable pub on_expired : ℕ → Coalescer → Coalescer
  on_expired now s =
      let (r, t, buffer) = flush_buffer T order s.transport s.buffer in
      elim r [
        | ok _ ↦ record s {
          transport = t;
          buffer = buffer;
          deadline = none;
          updates = s.updates + 1;
        }
        | err e ↦ record s {
          transport = t;
          buffer = buffer;
          deadline = some (now + flush_interval);
        }
      ]

  abbrev arm : ℕ → Option ℕ → Option ℕ
  arm now none = some (now + flush_interval)
  arm now (some d) = some d

  unfoldable pub on_set_keycode : ℕ → Pos → ℕ → Coalescer → Reply × Coalescer
  on_set_keycode now p keycode s =
      (done (ok tt), record s { buffer = insert s.buffer p keycode; deadline = arm now s.deadline })

  unfoldable pub on_get_keycode : Pos → Coalescer → Reply × Coalescer
  on_get_keycode p s = elim (get s.buffer p) [
    | some keycode ↦ (number (ok keycode), s)
    | none ↦ let (r, t) = T.get_keycode p s.transport in (number r, record s { transport = t })
  ]

  unfoldable pub on_set_lighting : ℕ → ℕ → List ℕ → Coalescer → Reply × Coalescer
  on_set_lighting channel value_id bs s =
      let (r, t) = T.set_lighting channel value_id bs s.transport in
      (
        done r,
        record s {
          transport = t;
          touched = elim r [ ok _ ↦ add_channel channel s.touched | err _ ↦ s.touched ];
        },
      )

  unfoldable pub handle : ℕ → Op → Coalescer → Reply × Coalescer
  handle now (set_keycode p keycode) s = on_set_keycode now p keycode s
  handle now (get_keycode p) s = on_get_keycode p s
  handle now get_layer_count s =
      let (r, t) = T.get_layer_count s.transport in (number r, record s { transport = t })
  handle now get_protocol_version s =
      let (r, t) = T.get_protocol_version s.transport in (number r, record s { transport = t })
  handle now flush s = on_flush s
  handle now (get_macro offset len) s =
      let (r, t) = T.get_macro_buffer offset len s.transport in
      (bytes r, record s { transport = t })
  handle now (set_macro offset bs) s =
      let (r, t) = T.set_macro_buffer offset bs s.transport in (done r, record s { transport = t })
  handle now (get_lighting channel value_id) s =
      let (r, t) = T.get_lighting channel value_id s.transport in
      (bytes r, record s { transport = t })
  handle now (set_lighting channel value_id bs) s = on_set_lighting channel value_id bs s

  -- One turn of the loop at a time. The sleep ends only where a deadline is set and has passed.
  unfoldable pub turn : ℕ → Turn → Coalescer → Coalescer
  turn now (received op) s = (handle now op s).1
  turn now expired s = elim s.deadline [
    | none ↦ s
    | some d ↦ if ltb now d then s else on_expired now s
  ]

  unfoldable pub run : List (ℕ × Turn) → Coalescer → Coalescer
  run [] s = s
  run ((now, e) ∷ es) s = run es (turn now e s)

  -- The channel is closed: the last flush, and the last save whatever came of it.
  unfoldable pub final_flush : Coalescer → Coalescer
  final_flush s = elim s.buffer [
    | [] ↦ s
    | e ∷ m ↦
        let (r, t, buffer) = flush_buffer T order s.transport s.buffer in
        record s {
          transport = t;
          buffer = buffer;
          updates = elim r [ ok _ ↦ s.updates + 1 | err _ ↦ s.updates ];
        }
  ]

  unfoldable pub final_save : Coalescer → Coalescer
  final_save s = elim s.touched [
    | [] ↦ s
    | c ∷ cs ↦
        let (r, t, touched) = save_touched_channels T order s.transport s.touched in
        record s { transport = t; touched = touched }
  ]

  unfoldable pub shutdown : Coalescer → Coalescer
  shutdown s = final_save (final_flush s)
