-- ===== src/Via/Driver.antt =====
-- src/hal/via.rs: `ViaDriver`, which calls the transport itself or relays to the coalescer.
--
-- The actor lives as long as the driver, so a relayed operation is handled and its reply arrives; a
-- reply of another kind would be a dropped one. Between two calls, the actor's deadline may expire.
mod Examples
use clackd.Base.{ℕ, List, [], ◌∷◌, Bool, true, false, Option, none, some}
use clackd.Error.{DriverError, Result, ok, err, disconnected}
use clackd.Keymap.{Pos}
use clackd.Via.{CoalescerTransport}
use clackd.Via.Coalescer.{
  HashOrder, Op, Reply, number, done, bytes, Coalescer, start, handle, turn, expired, add_channel,
  save_touched_channels,
}
use clackd.Via.Coalescer

abbrev pub as_number : Reply → Result ℕ
as_number (number r) = r
as_number (done r) = err disconnected
as_number (bytes r) = err disconnected

abbrev pub as_done : Reply → Result (Unit {0})
as_done (number r) = err disconnected
as_done (done r) = r
as_done (bytes r) = err disconnected

abbrev pub as_bytes : Reply → Result (List ℕ)
as_bytes (number r) = err disconnected
as_bytes (done r) = err disconnected
as_bytes (bytes r) = r

module _ (T : CoalescerTransport) (order : HashOrder) (flush_interval : ℕ) where
  pub data ViaInner : Type 0 where
    direct : T.State → List ℕ → ViaInner
    coalesced : Coalescer T order flush_interval → ViaInner

  pub record ViaDriver : Type 0 where
    pub inner : ViaInner
    pub matrix : ℕ × ℕ
    pub protocol_version : Option ℕ

  unfoldable pub new : T.State → ℕ × ℕ → ViaDriver
  new t matrix = record { inner = direct t []; matrix = matrix; protocol_version = none }

  unfoldable with_coalescing : T.State → ℕ × ℕ → ViaDriver
  with_coalescing t matrix = record {
    inner = coalesced (start T order flush_interval t);
    matrix = matrix;
    protocol_version = none;
  }

  unfoldable pub relay :
      {A : Type 0}
      → (Reply → Result A)
      → ℕ
      → Op
      → Coalescer T order flush_interval
      → Result A × Coalescer T order flush_interval
  relay read now op s = let (reply, s') = handle T order flush_interval now op s in (read reply, s')

  -- The two arms of a method: the call of the transport, or the relayed operation.
  unfoldable pub dispatch :
      {A : Type 0}
      → (T.State → Result A × T.State)
      → (Reply → Result A)
      → ℕ
      → Op
      → ViaInner
      → Result A × ViaInner
  dispatch call read now op (direct t touched) = let (r, t') = call t in (r, direct t' touched)
  dispatch call read now op (coalesced s) = let (r, s') = relay read now op s in (r, coalesced s')

  abbrev on_inner :
      {A : Type 0} → (ViaInner → Result A × ViaInner) → ViaDriver → Result A × ViaDriver
  on_inner f d = let (r, inner) = f d.inner in (r, record d { inner = inner })

  unfoldable pub ensure_protocol_version : ℕ → ViaDriver → Result ℕ × ViaDriver
  ensure_protocol_version now d = elim d.protocol_version [
    | some version ↦ (ok version, d)
    | none ↦
        let (r, inner) =
          dispatch T.get_protocol_version as_number now Coalescer.get_protocol_version d.inner in
        (
          r,
          record d {
            inner = inner;
            protocol_version = elim r [ ok version ↦ some version | err _ ↦ none ];
          },
        )
  ]

  unfoldable pub get_matrix_dimensions : ℕ → ViaDriver → Result (ℕ × ℕ) × ViaDriver
  get_matrix_dimensions now d =
      let (r, d') = ensure_protocol_version now d in
      (elim r [ ok _ ↦ ok d'.matrix | err e ↦ err e ], d')

  unfoldable pub get_layer_count : ℕ → ViaDriver → Result ℕ × ViaDriver
  get_layer_count now d =
      let (r, d') = ensure_protocol_version now d in
      elim r [
        | ok _ ↦ on_inner (dispatch T.get_layer_count as_number now Coalescer.get_layer_count) d'
        | err e ↦ (err e, d')
      ]

  unfoldable pub get_keycode : ℕ → Pos → ViaDriver → Result ℕ × ViaDriver
  get_keycode now p = on_inner (dispatch (T.get_keycode p) as_number now (Coalescer.get_keycode p))

  unfoldable pub set_keycode : ℕ → Pos → ℕ → ViaDriver → Result (Unit {0}) × ViaDriver
  set_keycode now p keycode =
      on_inner (dispatch (T.set_keycode p keycode) as_done now (Coalescer.set_keycode p keycode))

  unfoldable pub get_macro_buffer : ℕ → ℕ → ℕ → ViaDriver → Result (List ℕ) × ViaDriver
  get_macro_buffer now offset length =
      on_inner (
        dispatch (T.get_macro_buffer offset length) as_bytes now
          (Coalescer.get_macro offset length))

  unfoldable pub set_macro_buffer : ℕ → ℕ → List ℕ → ViaDriver → Result (Unit {0}) × ViaDriver
  set_macro_buffer now offset bs =
      on_inner (dispatch (T.set_macro_buffer offset bs) as_done now (Coalescer.set_macro offset bs))

  unfoldable pub get_lighting : ℕ → ℕ → ℕ → ViaDriver → Result (List ℕ) × ViaDriver
  get_lighting now channel value_id = on_inner (
      dispatch (T.get_lighting channel value_id) as_bytes now
        (Coalescer.get_lighting channel value_id))

  -- A channel is touched only by a value that the transport took.
  abbrev touch : ℕ → Result (Unit {0}) → List ℕ → List ℕ
  touch channel (ok u) touched = add_channel channel touched
  touch channel (err e) touched = touched

  unfoldable pub light : ℕ → ℕ → ℕ → List ℕ → ViaInner → Result (Unit {0}) × ViaInner
  light now channel value_id bs (direct t touched) =
      let (r, t') = T.set_lighting channel value_id bs t in (r, direct t' (touch channel r touched))
  light now channel value_id bs (coalesced s) =
      let (r, s') = relay as_done now (Coalescer.set_lighting channel value_id bs) s in
      (r, coalesced s')

  unfoldable pub set_lighting : ℕ → ℕ → ℕ → List ℕ → ViaDriver → Result (Unit {0}) × ViaDriver
  set_lighting now channel value_id bs = on_inner (light now channel value_id bs)

  unfoldable pub commit : ℕ → ViaInner → Result (Unit {0}) × ViaInner
  commit now (direct t touched) =
      let (r, t', touched') = save_touched_channels T order t touched in (r, direct t' touched')
  commit now (coalesced s) = let (r, s') = relay as_done now Coalescer.flush s in (r, coalesced s')

  unfoldable pub commit_to_nvram : ℕ → ViaDriver → Result (Unit {0}) × ViaDriver
  commit_to_nvram now = on_inner (commit now)

  unfoldable pub emits_layout_event_per_set : ViaDriver → Bool
  emits_layout_event_per_set d = elim d.inner [ direct t touched ↦ true | coalesced s ↦ false ]
