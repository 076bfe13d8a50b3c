-- ===== src/Via/Transport.antt =====
-- src/hal/via.rs: `ViaTransport`, the round trips of 32-byte frames.
--
-- The hidraw node is the parameter `Wire`: an attempt to write or read, made when the node is
-- ready, moves bytes, fails or would block. The deadline of a round trip is counted in attempts.
use mathlib.Core.Bool.{cond}
use clackd.Base.{
  ℕ, zero, suc, List, [], ◌∷◌, ◌++◌, Option, none, some, String, ltb, ◌==◌, if◌then◌else◌, length,
  take, drop, get_or,
}
use clackd.Error.{Result, ok, err, io, timeout, protocol_violation, ◌>>=◌, ◌>>◌, pure, fail, modify}
use clackd.Keymap.{Pos}
use clackd.Via.{
  via_frame_len, via_hidraw_report_id, id_get_protocol_version, id_dynamic_keymap_get_keycode,
  id_dynamic_keymap_set_keycode, id_lighting_set_value, id_lighting_get_value, id_custom_save,
  id_macro_get_count, id_macro_get_buffer_size, id_macro_get_buffer, id_macro_set_buffer,
  id_dynamic_keymap_get_layer_count, max_lighting_value, from_be, hi_byte, lo_byte, request,
  validate_echo, validate_macro_range, classify_io_error, CoalescerTransport,
}

pub data Attempt (A : Type 0) : Type 0 where
  moved : A → Attempt A
  refused : ℕ → Attempt A
  would_block : Attempt A
  -- Waiting for readiness failed.
  not_ready : ℕ → Attempt A

pub record Wire : Type 1 where
  pub World : Type 0
  -- The number of bytes written.
  pub try_write : World → List ℕ → Attempt ℕ × World
  -- The bytes read.
  pub try_read : World → Attempt (List ℕ) × World

module _ (wire : Wire) where
  open wire use {World, try_write, try_read}

  pub record ViaTransport : Type 0 where
    pub world : World
    pub device_id : String
    pub deadline : ℕ
    pub macro_buffer_size : Option ℕ

  -- `none` when the deadline passes; a success carries the attempts that are left.
  unfoldable pub write_frame : ℕ → List ℕ → World → Option (Result ℕ) × World
  write_frame zero frame w = (none, w)
  write_frame (suc left) frame w =
      let (a, w') = try_write w (via_hidraw_report_id ∷ frame) in
      let again = write_frame left frame w' in
      elim a [
        | moved n ↦ (
          some (
              if n == suc via_frame_len
              then ok left
              else err (protocol_violation "short write to hidraw node")),
          w',
        )
        | refused errno ↦ (some (err (classify_io_error errno)), w')
        | would_block ↦ again
        | not_ready errno ↦ (some (err (io errno)), w')
      ]

  unfoldable pub read_frame : ℕ → World → Option (Result (List ℕ)) × World
  read_frame zero w = (none, w)
  read_frame (suc left) w =
      let (a, w') = try_read w in
      let again = read_frame left w' in
      elim a [
        | moved bytes ↦ (
          some (
              if length bytes == via_frame_len
              then ok bytes
              else err (protocol_violation "short read from hidraw node")),
          w',
        )
        | refused errno ↦ (some (err (classify_io_error errno)), w')
        | would_block ↦ again
        | not_ready errno ↦ (some (err (io errno)), w')
      ]

  -- The write and, if it succeeds, the read, under one deadline.
  unfoldable pub exchange : ℕ → List ℕ → World → Option (Result (List ℕ)) × World
  exchange budget frame w =
      let (sent, w') = write_frame budget frame w in
      elim sent [
        | none ↦ (none, w')
        | some (ok left) ↦ read_frame left w'
        | some (err e) ↦ (some (err e), w')
      ]

  unfoldable pub roundtrip : List ℕ → String → ViaTransport → Result (List ℕ) × ViaTransport
  roundtrip frame op t =
      let (r, w') = exchange t.deadline frame t.world in
      (elim r [ none ↦ err (timeout op) | some resp ↦ resp ], record t { world = w' })

  abbrev check : Result (Unit {0}) → ViaTransport → Result (Unit {0}) × ViaTransport
  check r t = (r, t)

  unfoldable pub ensure_macro_buffer_size : ViaTransport → Result ℕ × ViaTransport
  ensure_macro_buffer_size t = elim t.macro_buffer_size [
    | some size ↦ (ok size, t)
    | none ↦ query t
  ]
    where
      query : ViaTransport → Result ℕ × ViaTransport
      query = do
        resp ← roundtrip (request (id_macro_get_buffer_size ∷ [])) "get_macro_buffer_size"
        check (
            validate_echo resp (id_macro_get_buffer_size ∷ [])
              "command-id echo mismatch on get_macro_buffer_size")
        let size = from_be (get_or resp 1 0) (get_or resp 2 0)
        modify (λ t. record t { macro_buffer_size = some size })
        pure size

  unfoldable pub get_macro_count : ViaTransport → Result ℕ × ViaTransport
  get_macro_count = do
    resp ← roundtrip (request (id_macro_get_count ∷ [])) "get_macro_count"
    check
        (validate_echo resp (id_macro_get_count ∷ []) "command-id echo mismatch on get_macro_count")
    pure (get_or resp 1 0)

  unfoldable pub get_protocol_version : ViaTransport → Result ℕ × ViaTransport
  get_protocol_version = do
    resp ← roundtrip (request (id_get_protocol_version ∷ [])) "get_protocol_version"
    check (
        validate_echo resp (id_get_protocol_version ∷ [])
          "command-id echo mismatch on get_protocol_version")
    pure (from_be (get_or resp 1 0) (get_or resp 2 0))

  unfoldable pub custom_save : ℕ → ViaTransport → Result (Unit {0}) × ViaTransport
  custom_save channel = do
    resp ← roundtrip (request (id_custom_save ∷ channel ∷ [])) "custom_save"
    check (
        validate_echo resp (id_custom_save ∷ channel ∷ [])
          "(cmd, channel) echo mismatch on custom_save")

  unfoldable pub get_keycode : Pos → ViaTransport → Result ℕ × ViaTransport
  get_keycode p = do
    resp ←
        roundtrip (request (id_dynamic_keymap_get_keycode ∷ p.layer ∷ p.row ∷ p.col ∷ []))
          "get_keycode"
    check (
        validate_echo resp (id_dynamic_keymap_get_keycode ∷ p.layer ∷ p.row ∷ p.col ∷ [])
          "(cmd, layer, row, col) echo mismatch on get_keycode")
    pure (from_be (get_or resp 4 0) (get_or resp 5 0))

  unfoldable pub set_keycode : Pos → ℕ → ViaTransport → Result (Unit {0}) × ViaTransport
  set_keycode p keycode = do
    let echo =
        id_dynamic_keymap_set_keycode
        ∷ p.layer
        ∷ p.row
        ∷ p.col
        ∷ hi_byte keycode
        ∷ lo_byte keycode
        ∷ []
    resp ← roundtrip (request echo) "set_keycode"
    check (validate_echo resp echo "(cmd, layer, row, col, keycode) echo mismatch on set_keycode")

  unfoldable pub get_layer_count : ViaTransport → Result ℕ × ViaTransport
  get_layer_count = do
    resp ← roundtrip (request (id_dynamic_keymap_get_layer_count ∷ [])) "get_layer_count"
    cond (get_or resp 0 0 == id_dynamic_keymap_get_layer_count) (pure (get_or resp 1 0))
        (fail (protocol_violation "command-id echo mismatch on get_layer_count"))

  unfoldable pub get_macro_buffer : ℕ → ℕ → ViaTransport → Result (List ℕ) × ViaTransport
  get_macro_buffer offset len = do
    buffer_size ← ensure_macro_buffer_size
    check (validate_macro_range offset len buffer_size)
    let header = id_macro_get_buffer ∷ hi_byte offset ∷ lo_byte offset ∷ len ∷ []
    resp ← roundtrip (request header) "get_macro_buffer"
    check (validate_echo resp header "(cmd, offset, size) echo mismatch on get_macro_buffer")
    pure (take len (drop 4 resp))

  unfoldable pub set_macro_buffer : ℕ → List ℕ → ViaTransport → Result (Unit {0}) × ViaTransport
  set_macro_buffer offset bytes = do
    buffer_size ← ensure_macro_buffer_size
    check (validate_macro_range offset (length bytes) buffer_size)
    let header = id_macro_set_buffer ∷ hi_byte offset ∷ lo_byte offset ∷ length bytes ∷ []
    resp ← roundtrip (request (header ++ bytes)) "set_macro_buffer"
    check (validate_echo resp header "(cmd, offset, size) echo mismatch on set_macro_buffer")

  unfoldable pub get_lighting : ℕ → ℕ → ViaTransport → Result (List ℕ) × ViaTransport
  get_lighting channel value_id = do
    resp ← roundtrip (request (id_lighting_get_value ∷ channel ∷ value_id ∷ [])) "get_lighting"
    check (
        validate_echo resp (id_lighting_get_value ∷ channel ∷ value_id ∷ [])
          "(cmd, channel, value_id) echo mismatch on get_lighting")
    pure (drop 3 resp)

  unfoldable pub set_lighting : ℕ → ℕ → List ℕ → ViaTransport → Result (Unit {0}) × ViaTransport
  set_lighting channel value_id bytes =
      if ltb max_lighting_value (length bytes)
      then fail (protocol_violation "lighting value exceeds 29-byte frame capacity")
      else (do
        roundtrip (request (id_lighting_set_value ∷ channel ∷ value_id ∷ bytes)) "set_lighting"
        pure tt)

  -- The transport as the coalescer uses it.
  abbrev pub via_transport : CoalescerTransport
  via_transport = record {
    State = ViaTransport;
    get_protocol_version = get_protocol_version;
    get_keycode = get_keycode;
    set_keycode = set_keycode;
    get_layer_count = get_layer_count;
    custom_save = custom_save;
    get_macro_buffer = get_macro_buffer;
    set_macro_buffer = set_macro_buffer;
    get_lighting = get_lighting;
    set_lighting = set_lighting;
  }
