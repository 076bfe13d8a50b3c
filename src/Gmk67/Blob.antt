-- ===== src/Gmk67/Blob.antt =====
-- src/hal/legacy/gmk67.rs: the key-definition buffer of a layer against the shadow's keymap.
use clackd.Base.{ℕ, ◌*◌, ◌<◌, ◌≡◌, refl, ◌∙◌, [], ◌∷◌, some, arith}
use clackd.Keymap.{at, Map, get}
use clackd.Keymap.Laws.{cmp_refl, eq_of_cmp}
use clackd.Keymap.Sorted.{IsSorted, get-Above}
use clackd.Shadow.{ShadowState, entries_of, layer_entries}
use clackd.Gmk67.{encode_keydef_buffer}
use clackd.Gmk67.Matrix.{key_index_for, key_index_for_lem}
use clackd.Gmk67.Frames.{entry_at, latest, encode_keydef_buffer_lem}
use clackd.Gmk67.Driver.{indexed}

-- Two positions of a layer with the same key index are one position.
same_key :
    (r c r' c' ki : ℕ)
    → key_index_for r c ≡ some ki
    → key_index_for r' c' ≡ some ki
    → (r ≡ r') × (c ≡ c')
same_key r c r' c' ki h k =
    ground (arith, (key_index_for_lem r c ki).0, (key_index_for_lem r' c' ki).0)

latest-indexed :
    (m : Map ℕ) (l r c ki : ℕ)
    → IsSorted m
    → key_index_for r c ≡ some ki
    → latest ki (indexed (entries_of l m)) ≡ get m (at l r c)
unfolding indexed entries_of get
latest-indexed [] l r c ki s h = refl
latest-indexed ((p, kc) ∷ m) l r c ki s h = ground (
  arith,
  latest-indexed m l r c ki s.1 h,
  same_key r c p.row p.col ki h,
  eq_of_cmp (at l r c) p,
  cmp_refl p,
  get-Above m p s.0,
)

-- The buffer that is sent for a layer is the shadow's keymap on it: for a position with a key, the
-- entry at its index is the keycode that the shadow holds there, and empty where it holds none.
pub layer_blob :
    (s : ShadowState) (l r c ki : ℕ)
    → IsSorted s.keymap
    → key_index_for r c ≡ some ki
    → entry_at (encode_keydef_buffer (indexed (layer_entries s l))) (ki * 4)
      ≡ get s.keymap (at l r c)
unfolding layer_entries
layer_blob s l r c ki sorted h =
    let small : ki < 143 = ground (arith, (key_index_for_lem r c ki).0) in
    (encode_keydef_buffer_lem (indexed (entries_of l s.keymap)) ki small).1
    ∙ latest-indexed s.keymap l r c ki sorted h
