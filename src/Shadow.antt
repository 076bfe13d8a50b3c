-- ===== src/Shadow.antt =====
-- src/hal/legacy/mod.rs: the shadow state of the legacy drivers, its commit lifecycle and its file.
--
-- What reads and writes the file is in `Shadow.Store`. Log lines leave no trace.
pub mod Invariant
pub mod Store
pub mod Persist
mod Examples
pub mod Refine
pub mod Layers
use clackd.Base.{
  ℕ, ◌≡◌, Option, none, some, List, [], ◌∷◌, map, Bool, true, false, String, leb, ◌==◌,
  if◌then◌else◌,
}
use clackd.Keymap.{Pos, at, Map, get, insert, insert_all}

pub data CacheStatus : Type 0 where
  confirmed pending failed : CacheStatus

pub record LightingState : Type 0 where
  pub mode : ℕ
  pub r : ℕ
  pub g : ℕ
  pub b : ℕ
  pub brightness : ℕ
  pub speed : ℕ
  pub direction : ℕ
  pub random : Bool

abbrev pub default_lighting : LightingState
default_lighting = record {
  mode = 0x01;
  r = 0xff;
  g = 0xff;
  b = 0xff;
  brightness = 0x0f;
  speed = 0x00;
  direction = 0x00;
  random = false;
}

pub record KeymapEntry : Type 0 where
  pub layer : ℕ
  pub row : ℕ
  pub col : ℕ
  pub keycode : ℕ

pub record ShadowFile : Type 0 where
  pub version : ℕ
  pub keymap : List KeymapEntry
  pub lighting : Option LightingState

pub record ShadowState : Type 0 where
  pub keymap : Map ℕ
  pub confirmed : Map ℕ
  pub dirty : Map ℕ
  pub lighting : LightingState
  pub status : CacheStatus
  pub data_path : Option String

unfoldable pub ephemeral : ShadowState
ephemeral = record {
  keymap = [];
  confirmed = [];
  dirty = [];
  lighting = default_lighting;
  status = CacheStatus.confirmed;
  data_path = none;
}

abbrev or_zero : Option ℕ → ℕ
or_zero none = 0
or_zero (some k) = k

unfoldable pub get_keycode : ShadowState → Pos → ℕ
get_keycode s p = or_zero (get s.keymap p)

unfoldable pub set_keycode : ShadowState → Pos → ℕ → ShadowState
set_keycode s p kc = record s {
  keymap = insert s.keymap p kc;
  dirty = insert s.dirty p kc;
  status = CacheStatus.pending;
}

unfoldable pub is_dirty : ShadowState → Bool
is_dirty s = elim s.dirty [ [] ↦ false | _ ∷ _ ↦ true ]

-- `sort_unstable` on the layers: insertion into the sorted ones.
unfoldable pub insert_layer : ℕ → List ℕ → List ℕ
insert_layer l [] = l ∷ []
insert_layer l (k ∷ ks) = if leb l k then l ∷ k ∷ ks else k ∷ insert_layer l ks

unfoldable pub sort : List ℕ → List ℕ
unfolding insert_layer
sort [] = []
sort (l ∷ ls) = insert_layer l (sort ls)

-- `dedup` removes consecutive repeats.
unfoldable pub dedup : List ℕ → List ℕ
dedup [] = []
dedup (l ∷ []) = l ∷ []
dedup (l ∷ k ∷ ks) = let rest = dedup (k ∷ ks) in if l == k then rest else l ∷ rest

unfoldable pub dirty_layers : ShadowState → List ℕ
unfolding sort dedup
dirty_layers s = dedup (sort (map (λ e. e.0.layer) s.dirty))

unfoldable pub entries_of : ℕ → Map ℕ → List (ℕ × ℕ × ℕ)
entries_of l [] = []
entries_of l ((p, kc) ∷ m) =
    let rest = entries_of l m in if p.layer == l then (p.row, p.col, kc) ∷ rest else rest

unfoldable pub layer_entries : ShadowState → ℕ → List (ℕ × ℕ × ℕ)
unfolding entries_of
layer_entries s l = entries_of l s.keymap

unfoldable pub set_lighting : ShadowState → LightingState → ShadowState
set_lighting s l = record s { lighting = l }

unfoldable pub prepare_commit : ShadowState → ShadowState
prepare_commit s = record s { status = CacheStatus.pending }

unfoldable pub rollback : ShadowState → ShadowState
rollback s = record s { keymap = s.confirmed; dirty = []; status = CacheStatus.failed }
