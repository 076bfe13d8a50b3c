-- ===== src/Gmk67/Driver.antt =====
-- src/hal/legacy/gmk67.rs: `Gmk67Driver`, its transactions and the methods of `KeyboardDriver`.
--
-- The hardware is the parameter `Gmk67Io`, which the source has as a trait, and the files of the
-- shadow are a `Disk`. A method takes the driver's state and returns its result and the new state.
use clackd.Base.{ℕ, zero, suc, ◌*◌, List, [], ◌∷◌, Bool, false, none, some, take, drop, String}
use clackd.Error.{Result, ok, err, io, timeout, ◌>>◌, pure}
use clackd.Shadow.{ShadowState, ephemeral, layer_entries}
use clackd.Shadow.Store.{Disk, load}
use clackd.Via.{classify_io_error}
use clackd.Gmk67.{
  frame_len, report_id, cmd_communication_end, cmd_turn_on_customization, cmd_led_effect_start,
  key_def_pages, Lighting, default, encode, from_lighting_state, encode_cmd,
  encode_start_effect_page, encode_start_keydef_page, encode_keydef_buffer,
}
use clackd.Gmk67.Matrix.{key_index_for, keydef_command}

-- How a blocking ioctl under a deadline ends.
data Joined (A : Type 0) : Type 0 where
  elapsed : Joined A
  panicked : Joined A
  failed : ℕ → Joined A
  value : A → Joined A

-- The number for an error that is not the operating system's.
abbrev other_error : ℕ
other_error = 0

unfoldable join_with_timeout : {A : Type 0} → Joined A → String → Result A
join_with_timeout elapsed op = err (timeout op)
join_with_timeout panicked op = err (io other_error)
join_with_timeout (failed errno) op = err (classify_io_error errno)
join_with_timeout (value a) op = ok a

pub record Gmk67Io : Type 1 where
  pub World : Type 0
  pub set_feature : List ℕ → World → Result (Unit {0}) × World
  pub get_feature : ℕ → World → Result (List ℕ) × World

-- The keys of a layer by their index; a position without a key is skipped.
unfoldable pub indexed : List (ℕ × ℕ × ℕ) → List (ℕ × ℕ)
indexed [] = []
indexed ((row, col, keycode) ∷ es) = elim (key_index_for row col) [
  | some ki ↦ (ki, keycode) ∷ indexed es
  | none ↦ indexed es
]

module _ (bus : Gmk67Io) (disk : Disk) where
  pub record Gmk67Driver : Type 0 where
    pub world : bus.World
    pub files : disk.World
    pub matrix : ℕ × ℕ
    pub layers : ℕ
    pub shadow : ShadowState
    pub lighting : Lighting
    pub sync_on_attach : Bool
    pub synced : Bool

  -- The driver that `new` builds once the node is open and probed.
  unfoldable pub new : bus.World → disk.World → ℕ × ℕ → ℕ → Bool → Gmk67Driver
  new world files matrix layers sync_on_attach =
      let shadow = load disk files "05ac_024f" in
      record {
        world = world;
        files = files;
        matrix = matrix;
        layers = layers;
        shadow = shadow;
        lighting = from_lighting_state shadow.lighting;
        sync_on_attach = sync_on_attach;
        synced = false;
      }

  unfoldable with_io : bus.World → disk.World → ℕ × ℕ → ℕ → Gmk67Driver
  with_io world files matrix layers = record {
    world = world;
    files = files;
    matrix = matrix;
    layers = layers;
    shadow = ephemeral;
    lighting = default;
    sync_on_attach = false;
    synced = false;
  }

  abbrev pub send : List ℕ → Gmk67Driver → Result (Unit {0}) × Gmk67Driver
  send frame s = let (r, w) = bus.set_feature frame s.world in (r, record s { world = w })

  abbrev pub receive : Gmk67Driver → Result (List ℕ) × Gmk67Driver
  receive s = let (r, w) = bus.get_feature report_id s.world in (r, record s { world = w })

  -- The result is logged and ignored.
  unfoldable pub read_ack : Gmk67Driver → Result (Unit {0}) × Gmk67Driver
  read_ack s = (ok tt, (receive s).1)

  unfoldable pub abort_transaction : Gmk67Driver → Gmk67Driver
  abort_transaction s = (send (encode_cmd cmd_communication_end) s).1

  -- A transaction that fails is followed by the abort frame.
  abbrev pub or_abort : Result (Unit {0}) × Gmk67Driver → Result (Unit {0}) × Gmk67Driver
  or_abort (ok u, s) = (ok u, s)
  or_abort (err e, s) = (err e, abort_transaction s)

  unfoldable pub render_effect_frames : Lighting → Gmk67Driver → Result (Unit {0}) × Gmk67Driver
  render_effect_frames lighting = do
    send (encode_cmd cmd_turn_on_customization)
    read_ack
    send encode_start_effect_page
    read_ack
    send (encode lighting)
    read_ack
    send (encode_cmd cmd_communication_end)
    read_ack
    send (encode_cmd cmd_led_effect_start)

  unfoldable pub render_effect : Lighting → Gmk67Driver → Result (Unit {0}) × Gmk67Driver
  render_effect lighting s = or_abort (render_effect_frames lighting s)

  -- The pages from `p` on, `n` of them.
  unfoldable pub send_pages : ℕ → ℕ → List ℕ → Gmk67Driver → Result (Unit {0}) × Gmk67Driver
  send_pages zero p buf = pure tt
  send_pages (suc n) p buf = do
    send (take frame_len (drop (p * frame_len) buf))
    read_ack
    send_pages n (suc p) buf

  unfoldable pub commit_keymap_frames :
      ℕ → List (ℕ × ℕ) → Gmk67Driver → Result (Unit {0}) × Gmk67Driver
  commit_keymap_frames command entries = do
    let buf = encode_keydef_buffer entries
    send (encode_cmd cmd_turn_on_customization)
    read_ack
    send (encode_start_keydef_page command)
    read_ack
    send_pages key_def_pages 0 buf
    send (encode_cmd cmd_communication_end)
    read_ack
    send (encode_cmd cmd_led_effect_start)

  unfoldable pub commit_keymap : ℕ → List (ℕ × ℕ) → Gmk67Driver → Result (Unit {0}) × Gmk67Driver
  commit_keymap command entries s = or_abort (commit_keymap_frames command entries s)

  -- The body of the loop over the dirty layers.
  unfoldable pub push_layer : ℕ → Gmk67Driver → Result (Unit {0}) × Gmk67Driver
  push_layer layer s = elim (keydef_command layer) [
    | none ↦ (ok tt, s)
    | some command ↦ elim (indexed (layer_entries s.shadow layer)) [
      | [] ↦ (ok tt, s)
      | e ∷ es ↦ commit_keymap command (e ∷ es) s
    ]
  ]

  unfoldable pub push_dirty_layers : List ℕ → Gmk67Driver → Result (Unit {0}) × Gmk67Driver
  push_dirty_layers [] = pure tt
  push_dirty_layers (layer ∷ layers) = do push_layer layer; push_dirty_layers layers
