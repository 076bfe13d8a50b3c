-- ===== src/Gmk67/Examples.antt =====
-- A board that takes a number of frames and then fails, and the theorems on it.
use clackd.Base.{ℕ, zero, suc, ◌≡◌, refl, [], ◌∷◌, true, false, none, some, replicate}
use clackd.Error.{Result, ok, err, disconnected}
use clackd.Keymap.{Map, at, get, cmp}
use clackd.Shadow.{
  ShadowState, CacheStatus, default_lighting, is_dirty, dirty_layers, layer_entries, prepare_commit,
}
use clackd.Shadow.Store.{Disk, not_found}
use clackd.Gmk67.{default, encode_keydef_buffer}
use clackd.Gmk67.Matrix.{key_index_for, keydef_command}
use clackd.Gmk67.Driver.{
  Gmk67Io, Gmk67Driver, indexed, push_layer, push_dirty_layers, commit_keymap, commit_keymap_frames,
  send_pages, read_ack, new,
}
use clackd.Gmk67.Methods.{read_pages, commit_to_nvram}
use clackd.Gmk67.Wire.{pages, recorded, Transacts, keymap_frames, commit_keymap-Transacts}
use clackd.Gmk67.ReadBack.{tape, read_pages-layer_blob}
use clackd.Gmk67.Commit.Sent.{
  layer_frames, layers_frames, Extends, commit_to_nvram-frames, commit-partial,
}
use clackd.Gmk67.Commit.Ends.{Ends, commit_to_nvram-Ends}
use clackd.Gmk67.Session.{sets, lights, commits, queries, run, IsConsistent, run-new-IsConsistent}

-- The world is the number of frames that the board still takes.
abbrev take_frame : ℕ → Result (Unit {0}) × ℕ
take_frame zero = (err disconnected, zero)
take_frame (suc n) = (ok tt, n)

abbrev pub board : Gmk67Io
board = record {
  World = ℕ;
  set_feature = λ frame n. take_frame n;
  get_feature = λ id n. (ok (replicate 64 0), n);
}

-- No file can be read or written.
abbrev pub no_disk : Disk
no_disk = record {
  World = Unit {0};
  Text = Unit {0};
  data_dir = none;
  join = λ dir name. name;
  parent = λ path. none;
  with_extension = λ path ext. path;
  read_to_string = λ w path. not_found;
  create_dir_all = λ w dir. (false, w);
  write = λ w file text. (false, w);
  rename = λ w from to. (false, w);
  to_string_pretty = λ sf. none;
  from_str = λ text. none;
}

-- One edit on each layer.
abbrev pub edited : ShadowState
edited = record {
  keymap = (at 0 1 0, 4) ∷ (at 1 1 0, 5) ∷ [];
  confirmed = [];
  dirty = (at 0 1 0, 4) ∷ (at 1 1 0, 5) ∷ [];
  lighting = default_lighting;
  status = CacheStatus.pending;
  data_path = none;
}

abbrev traced : ℕ → Gmk67Driver (recorded board) no_disk
traced n = record {
  world = (n, []);
  files = tt;
  matrix = (5, 15);
  layers = 2;
  shadow = edited;
  lighting = default;
  sync_on_attach = true;
  synced = false;
}

abbrev pub plain : Gmk67Driver board no_disk
plain = record {
  world = 100;
  files = tt;
  matrix = (5, 15);
  layers = 2;
  shadow = edited;
  lighting = default;
  sync_on_attach = true;
  synced = false;
}

commit_keymap_example :
    Transacts board no_disk
      (keymap_frames 0x11 ((37, 4) ∷ []))
      []
      (commit_keymap (recorded board) no_disk 0x11 ((37, 4) ∷ []) (traced 20))
commit_keymap_example = commit_keymap-Transacts board no_disk 0x11 ((37, 4) ∷ []) (traced 20)

commit_to_nvram_example :
    let r = commit_to_nvram (recorded board) no_disk (traced 30) in
    (is_dirty edited ≡ false → r ≡ (ok tt, traced 30))
    × (is_dirty edited ≡ true → Ends board no_disk (traced 30) r)
commit_to_nvram_example = commit_to_nvram-Ends board no_disk (traced 30)

commit_frames_example :
    (commit_to_nvram (recorded board) no_disk (traced 30)).1.world.1
    ≡ layers_frames edited (dirty_layers edited)
unfolding is_dirty commit_to_nvram push_dirty_layers dirty_layers prepare_commit push_layer
    keydef_command indexed layer_entries key_index_for commit_keymap commit_keymap_frames read_ack
    send_pages
commit_frames_example = commit_to_nvram-frames board no_disk (traced 30) refl refl

commit_partial_example :
    let s' = (commit_to_nvram (recorded board) no_disk (traced 13)).1 in
    Extends board no_disk (layer_frames edited 0) s'.world.1
    × (s'.shadow.keymap ≡ [])
    × (is_dirty s'.shadow ≡ false)
unfolding is_dirty commit_to_nvram push_dirty_layers dirty_layers prepare_commit push_layer
    keydef_command indexed layer_entries key_index_for commit_keymap commit_keymap_frames read_ack
    send_pages
commit_partial_example =
    commit-partial board no_disk (traced 13) 0 (1 ∷ []) disconnected refl refl refl refl

run-new_example : IsConsistent board no_disk (
    run board no_disk
      (new board no_disk 50 tt (5, 15) 2 true)
      (queries ∷ sets (at 0 1 0) 4 ∷ lights 3 1 (9 ∷ []) ∷ commits ∷ []))
run-new_example =
    run-new-IsConsistent board no_disk 50 tt (5, 15) 2 true
      (queries ∷ sets (at 0 1 0) 4 ∷ lights 3 1 (9 ∷ []) ∷ commits ∷ [])

-- A board that holds the pages of the second layer.
abbrev held : Gmk67Driver tape no_disk
held = record {
  world = [];
  files = tt;
  matrix = (5, 15);
  layers = 2;
  shadow = edited;
  lighting = default;
  sync_on_attach = true;
  synced = false;
}

read_pages_example :
    let buf = encode_keydef_buffer (indexed (layer_entries edited 1)) in
    (m : Map ℕ) × ((read_pages tape no_disk 9 0 1 [] (record held { world = pages 9 0 buf })).0
      ≡ ok m)
    × (get m (at 1 1 0) ≡ some 5)
unfolding get cmp key_index_for
read_pages_example = read_pages-layer_blob no_disk held 1 1 0 37 ((refl, tt), (tt, tt)) refl
