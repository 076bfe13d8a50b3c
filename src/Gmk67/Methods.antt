-- ===== src/Gmk67/Methods.antt =====
-- src/hal/legacy/gmk67.rs: the methods of `KeyboardDriver` for `Gmk67Driver`, and the read-back of
-- the keymap at attach.
use clackd.Base.{
  ℕ, zero, suc, ◌+◌, ◌*◌, ◌%◌, List, [], ◌∷◌, true, false, none, some, ◌==◌, ◌||◌, not,
  if◌then◌else◌, get_or,
}
use clackd.Error.{DriverError, Result, ok, err, protocol_violation, unsupported, ◌>>=◌, ◌>>◌, pure}
use clackd.Keymap.{Pos, at, Map, insert}
use clackd.Shadow.{is_dirty, dirty_layers, prepare_commit, rollback}
use clackd.Shadow
use clackd.Shadow.Store.{Disk, persist_lighting, confirm_commit, adopt_confirmed}
use clackd.Gmk67.{
  cmd_communication_end, cmd_turn_on_customization, mode_lights_off, key_def_pages,
  key_def_entry_marker, is_renderable_mode, Lighting, from_bytes, to_bytes, to_lighting_state,
  encode_cmd, encode_start_keydef_page,
}
use clackd.Gmk67.Matrix.{
  key_index_for, keydef_command, keydef_read_command, find_matrix_pos_for_key_index,
}
use clackd.Gmk67.Color.{scale_255_to_15, scale_15_to_255, hs_to_rgb, rgb_to_hs}
use clackd.Gmk67.Driver.{
  Gmk67Io, Gmk67Driver, send, receive, read_ack, abort_transaction, render_effect,
  push_dirty_layers,
}

abbrev pub no_area : DriverError
no_area = unsupported "keymap layer beyond base/Fn on GMK67"

abbrev pub no_key : DriverError
no_key = unsupported "no physical key at this matrix position on GMK67"

abbrev no_macros : DriverError
no_macros = unsupported "macro storage on GMK67 (wire format not yet decoded)"

abbrev no_channel : DriverError
no_channel =
    unsupported "lighting channel (GMK67 supports packed channel 0 and RGB-matrix channel 3)"

abbrev no_value : DriverError
no_value = unsupported "RGB-matrix value id (GMK67 supports brightness/effect/speed/color)"

abbrev short_data : DriverError
short_data = protocol_violation "short data for VIA RGB-matrix lighting value"

abbrev bad_mode : DriverError
bad_mode = protocol_violation "EK68 lighting mode out of range (effects 0x01..=0x13, or 0x80 off)"

-- `first().ok_or(missing)` and what is done with the byte.
abbrev with_first : List ℕ → (ℕ → Lighting) → Result Lighting
with_first [] f = err short_data
with_first (x ∷ xs) f = ok (f x)

abbrev with_color : List ℕ → (ℕ → ℕ → Lighting) → Result Lighting
with_color (h ∷ s ∷ xs) f = ok (f h s)
with_color xs f = err short_data

-- `lighting_with_via_value`, on the current lighting.
unfoldable pub lighting_with_via_value : Lighting → ℕ → List ℕ → Result Lighting
lighting_with_via_value l value_id bytes =
    if value_id == 1
    then with_first bytes (λ x. record l { brightness = scale_255_to_15 x })
    else if value_id == 2
    then with_first bytes (λ x. record l { mode = if x == 0 then mode_lights_off else x })
    else if value_id == 3
    then with_first bytes (λ x. record l { speed = scale_255_to_15 x })
    else if value_id == 4
    then with_color bytes
        (λ h s. let (r, g, b) = hs_to_rgb h s in record l { r = r; g = g; b = b; random = false })
    else err no_value

unfoldable pub get_via_value : Lighting → ℕ → Result (List ℕ)
get_via_value l value_id =
    if value_id == 1
    then ok (scale_15_to_255 l.brightness ∷ [])
    else if value_id == 2
    then ok ((if l.mode == mode_lights_off then 0 else l.mode) ∷ [])
    else if value_id == 3
    then ok (scale_15_to_255 l.speed ∷ [])
    else if value_id == 4
    then (let (h, s) = rgb_to_hs l.r l.g l.b in ok (h ∷ s ∷ []))
    else err no_value

-- The loop over the sixteen entries of a page, `n` of them from `entry` on.
unfoldable pub read_entries : ℕ → ℕ → List ℕ → ℕ → ℕ → Map ℕ → Map ℕ
read_entries zero entry page p layer entries = entries
read_entries (suc n) entry page p layer entries =
    let offset = entry * 4 in
    let keycode = get_or page (offset + 2) 0 + get_or page (offset + 3) 0 * 256 in
    let ki = (p * 16 + entry) % 256 in
    read_entries n (suc entry) page p layer (
      if get_or page offset 0 == key_def_entry_marker
      then elim (find_matrix_pos_for_key_index ki) [
        | none ↦ entries
        | some (row, col) ↦ insert entries (at layer row col) keycode
      ]
      else entries)

module _ (bus : Gmk67Io) (disk : Disk) where
  abbrev Driver : Type 0
  Driver = Gmk67Driver bus disk

  unfoldable pub read_pages : ℕ → ℕ → ℕ → Map ℕ → Driver → Result (Map ℕ) × Driver
  read_pages zero p layer entries = pure entries
  read_pages (suc n) p layer entries = do
    page ← receive bus disk
    read_pages n (suc p) layer (read_entries 16 0 page p layer entries)

  unfoldable pub read_keydef_layer : ℕ → ℕ → Map ℕ → Driver → Result (Map ℕ) × Driver
  read_keydef_layer command layer entries = do
    send bus disk (encode_cmd cmd_turn_on_customization)
    read_ack bus disk
    send bus disk (encode_start_keydef_page command)
    read_ack bus disk
    entries' ← read_pages key_def_pages 0 layer entries
    send bus disk (encode_cmd cmd_communication_end)
    read_ack bus disk
    pure entries'

  -- The loop over the layers, `n` of them from `layer` on.
  unfoldable pub read_layers : ℕ → ℕ → Map ℕ → Driver → Result (Map ℕ) × Driver
  read_layers zero layer entries s = (ok entries, s)
  read_layers (suc n) layer entries s = elim (keydef_read_command layer) [
    | none ↦ read_layers n (suc layer) entries s
    | some command ↦
        let (r, s') = read_keydef_layer command layer entries s in
        elim r [
          | ok entries' ↦ read_layers n (suc layer) entries' s'
          | err e ↦ (err e, abort_transaction bus disk s')
        ]
  ]

  unfoldable pub sync_eeprom : Driver → Result (Unit {0}) × Driver
  sync_eeprom s =
      let (r, s') = read_layers s.layers 0 [] s in
      elim r [
        | ok entries ↦
            let (shadow, files) = adopt_confirmed disk s'.shadow entries s'.files in
            (ok tt, record s' { shadow = shadow; files = files })
        | err e ↦ (err e, s')
      ]

  unfoldable pub maybe_sync_on_attach : Driver → Driver
  maybe_sync_on_attach s =
      if not s.sync_on_attach || s.synced then s else (sync_eeprom (record s { synced = true })).1

  unfoldable pub get_matrix_dimensions : Driver → Result (ℕ × ℕ) × Driver
  get_matrix_dimensions s = let s' = maybe_sync_on_attach s in (ok s'.matrix, s')

  unfoldable pub get_layer_count : Driver → Result ℕ × Driver
  get_layer_count s = (ok s.layers, s)

  unfoldable pub get_keycode : Pos → Driver → Result ℕ × Driver
  get_keycode p s = (ok (Shadow.get_keycode s.shadow p), s)

  unfoldable pub set_keycode : Pos → ℕ → Driver → Result (Unit {0}) × Driver
  set_keycode p keycode s = elim (keydef_command p.layer) [
    | none ↦ (err no_area, s)
    | some _ ↦ elim (key_index_for p.row p.col) [
      | none ↦ (err no_key, s)
      | some _ ↦ (ok tt, record s { shadow = Shadow.set_keycode s.shadow p keycode })
    ]
  ]

  unfoldable pub get_macro_buffer : ℕ → ℕ → Driver → Result (List ℕ) × Driver
  get_macro_buffer offset length s = (err no_macros, s)

  unfoldable pub set_macro_buffer : ℕ → List ℕ → Driver → Result (Unit {0}) × Driver
  set_macro_buffer offset bytes s = (err no_macros, s)

  -- The lighting that a call asks for.
  abbrev pub requested : Lighting → ℕ → ℕ → List ℕ → Result Lighting
  requested l channel value_id bytes =
      if channel == 0
      then ok (from_bytes bytes)
      else if channel == 3
      then lighting_with_via_value l value_id bytes
      else err no_channel

  -- Render, then adopt and save.
  unfoldable pub show : Lighting → Driver → Result (Unit {0}) × Driver
  show l s =
      let (r, s') = render_effect bus disk l s in
      elim r [
        | ok _ ↦
            let shadow = Shadow.set_lighting s'.shadow (to_lighting_state l) in
            let files = persist_lighting disk shadow s'.files in
            (ok tt, record s' { lighting = l; shadow = shadow; files = files })
        | err e ↦ (err e, s')
      ]

  unfoldable pub set_lighting : ℕ → ℕ → List ℕ → Driver → Result (Unit {0}) × Driver
  set_lighting channel value_id bytes s = elim (requested s.lighting channel value_id bytes) [
    | err e ↦ (err e, s)
    | ok l ↦ if is_renderable_mode l.mode then show l s else (err bad_mode, s)
  ]

  unfoldable pub get_lighting : ℕ → ℕ → Driver → Result (List ℕ) × Driver
  get_lighting channel value_id s = (
    if channel == 0
        then ok (to_bytes s.lighting)
        else if channel == 3
        then get_via_value s.lighting value_id
        else err no_channel,
    s,
  )

  unfoldable pub commit_to_nvram : Driver → Result (Unit {0}) × Driver
  commit_to_nvram s = elim (is_dirty s.shadow) [
    | false ↦ (ok tt, s)
    | true ↦
        let prepared = record s { shadow = prepare_commit s.shadow } in
        let (r, s') = push_dirty_layers bus disk (dirty_layers prepared.shadow) prepared in
        elim r [
          | ok _ ↦
              let (shadow, files) = confirm_commit disk s'.shadow s'.files in
              (ok tt, record s' { shadow = shadow; files = files })
          | err e ↦ (err e, record s' { shadow = rollback s'.shadow })
        ]
  ]
