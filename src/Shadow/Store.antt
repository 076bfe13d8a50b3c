-- ===== src/Shadow/Store.antt =====
-- src/hal/legacy/mod.rs: `load`, `save` and the operations that save.
--
-- The file system, `serde_json` and the `directories` crate are the parameter `Disk`. Each call of
-- the operating system may fail; what it does to the disk is the environment's. The errors that
-- the code logs and swallows leave no trace but in the disk.
use clackd.Base.{ℕ, ◌≡◌, ◌≢◌, Option, none, some, [], map, Bool, true, false, String}
use Prim.Native.String.{◌++◌}
use clackd.Keymap.{Pos, at, Map, insert_all}
use clackd.Shadow.{
  ShadowState, ShadowFile, KeymapEntry, LightingState, CacheStatus, default_lighting,
}

pub data Read (T : Type 0) : Type 0 where
  contents : T → Read T
  not_found : Read T
  failed : Read T

pub record Disk : Type 1 where
  pub World : Type 0
  pub Text : Type 0
  -- `ProjectDirs::data_dir`, `Path::join`, `Path::parent` and `Path::with_extension`.
  pub data_dir : Option String
  pub join : String → String → String
  pub parent : String → Option String
  pub with_extension : String → String → String
  pub read_to_string : World → String → Read Text
  pub create_dir_all : World → String → Bool × World
  pub write : World → String → Text → Bool × World
  pub rename : World → String → String → Bool × World
  pub to_string_pretty : ShadowFile → Option Text
  pub from_str : Text → Option ShadowFile

unfoldable pub entry_of : Pos × ℕ → KeymapEntry
entry_of (p, kc) = record { layer = p.layer; row = p.row; col = p.col; keycode = kc }

unfoldable pub pair_of : KeymapEntry → Pos × ℕ
pair_of e = (at e.layer e.row e.col, e.keycode)

-- The file that `save` serializes.
unfoldable pub file_of : ShadowState → ShadowFile
unfolding entry_of
file_of s = record { version = 1; keymap = map entry_of s.keymap; lighting = some s.lighting }

abbrev or_default : Option LightingState → LightingState
or_default none = default_lighting
or_default (some l) = l

-- The state that `load` constructs from a keymap and a lighting state.
unfoldable pub fresh : Map ℕ → LightingState → Option String → ShadowState
fresh m l path = record {
  keymap = m;
  confirmed = m;
  dirty = [];
  lighting = l;
  status = CacheStatus.confirmed;
  data_path = path;
}

-- The arm for a file that parses: the entries inserted one by one.
unfoldable pub load_file : Option ShadowFile → Option String → ShadowState
unfolding fresh pair_of
load_file none path = fresh [] default_lighting path
load_file (some sf) path =
    fresh (insert_all [] (map pair_of sf.keymap)) (or_default sf.lighting) path

module _ (disk : Disk) where
  open disk use {
    World, Text, data_dir, join, parent, with_extension, read_to_string, create_dir_all, write,
    rename, to_string_pretty, from_str,
  }

  unfoldable pub resolve_data_path : String → Option String
  resolve_data_path device_id = elim data_dir [
    | none ↦ none
    | some dir ↦ some (join dir (device_id ++ ".json"))
  ]

  unfoldable pub load_path : World → Option String → ShadowState
  unfolding fresh load_file
  load_path w none = fresh [] default_lighting none
  load_path w (some path) = elim (read_to_string w path) [
    | contents text ↦ load_file (from_str text) (some path)
    | not_found ↦ fresh [] default_lighting (some path)
    | failed ↦ fresh [] default_lighting (some path)
  ]

  unfoldable pub load : World → String → ShadowState
  unfolding resolve_data_path load_path
  load w device_id = load_path w (resolve_data_path device_id)

  -- Write to the temporary file, then rename; an early return on each error.
  unfoldable pub replace_file : World → String → Text → World
  replace_file w path json =
      let tmp = with_extension path "json.tmp" in
      let (written, w₁) = write w tmp json in
      elim written [ true ↦ (rename w₁ tmp path).1 | false ↦ w₁ ]

  unfoldable pub save_text : World → String → Text → World
  unfolding replace_file
  save_text w path json = elim (parent path) [
    | none ↦ replace_file w path json
    | some dir ↦
        let (made, w₁) = create_dir_all w dir in
        elim made [ true ↦ replace_file w₁ path json | false ↦ w₁ ]
  ]

  unfoldable pub save : ShadowState → World → World
  unfolding file_of save_text
  save s w = elim s.data_path [
    | none ↦ w
    | some path ↦ elim (to_string_pretty (file_of s)) [
      | none ↦ w
      | some json ↦ save_text w path json
    ]
  ]

  unfoldable pub persist_lighting : ShadowState → World → World
  unfolding save
  persist_lighting s w = save s w

  unfoldable pub confirm_commit : ShadowState → World → ShadowState × World
  unfolding save
  confirm_commit s w =
      let s' : ShadowState = record s {
        confirmed = s.keymap;
        dirty = [];
        status = CacheStatus.confirmed;
      } in
      (s', save s' w)

  unfoldable pub adopt_confirmed : ShadowState → Map ℕ → World → ShadowState × World
  unfolding save
  adopt_confirmed s m w =
      let s' : ShadowState = record s {
        keymap = m;
        confirmed = m;
        dirty = [];
        status = CacheStatus.confirmed;
      } in
      (s', save s' w)

-- What a file system promises: a failed call changes no file but the one it writes, a successful
-- write or rename has its effect, and the temporary file is another file, as it is for a path that
-- ends in a file name.
pub record IsFaithful (disk : Disk) : Type 0 where
  pub tmp_ne : (path : String) → disk.with_extension path "json.tmp" ≢ path
  pub mkdir_keeps :
      (w : disk.World) (dir path : String)
      → disk.read_to_string (disk.create_dir_all w dir).1 path ≡ disk.read_to_string w path
  pub write_keeps :
      (w : disk.World) (file path : String) (text : disk.Text)
      → file ≢ path
      → disk.read_to_string (disk.write w file text).1 path ≡ disk.read_to_string w path
  pub write_sets :
      (w : disk.World) (file : String) (text : disk.Text)
      → (disk.write w file text).0 ≡ true
      → disk.read_to_string (disk.write w file text).1 file ≡ contents text
  pub rename_sets :
      (w : disk.World) (from to : String)
      → (disk.rename w from to).0 ≡ true
      → disk.read_to_string (disk.rename w from to).1 to ≡ disk.read_to_string w from
  pub rename_keeps :
      (w : disk.World) (from to : String)
      → (disk.rename w from to).0 ≡ false
      → disk.read_to_string (disk.rename w from to).1 to ≡ disk.read_to_string w to
  -- `serde_json` reads back what it wrote.
  pub parse_print :
      (sf : ShadowFile) (text : disk.Text)
      → disk.to_string_pretty sf ≡ some text
      → disk.from_str text ≡ some sf

-- A disk on which no call fails.
pub record Works (disk : Disk) : Type 0 where
  pub mkdir_works : (w : disk.World) (dir : String) → (disk.create_dir_all w dir).0 ≡ true
  pub write_works :
      (w : disk.World) (file : String) (text : disk.Text) → (disk.write w file text).0 ≡ true
  pub rename_works : (w : disk.World) (from to : String) → (disk.rename w from to).0 ≡ true
  pub prints : (sf : ShadowFile) → (text : disk.Text) × (disk.to_string_pretty sf ≡ some text)
