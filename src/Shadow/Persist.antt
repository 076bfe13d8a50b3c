-- ===== src/Shadow/Persist.antt =====
-- What `save` leaves on the disk, and what `load` makes of it.
use clackd.Base.{
  ℕ, ◌≡◌, refl, ◌∙◌, ap, Option, none, some, [], ◌∷◌, map, String, ◌⊎◌, inl, inr, Bool-cases,
  Option-cases,
}
use clackd.Keymap.{Map, get}
use clackd.Keymap.Sorted.{IsSorted, insert_all-IsSorted, insert_all-keeps}
use clackd.Shadow.{ShadowState, ShadowFile, default_lighting, LightingState}
use clackd.Shadow.Store.{
  Disk, Read, contents, not_found, failed, IsFaithful, Works, entry_of, pair_of, file_of, load_file,
  fresh, load_path, replace_file, save_text, save,
}
use clackd.Shadow.Invariant.{IsCoherent}

pair_of-entry_of : (m : Map ℕ) → map pair_of (map entry_of m) ≡ m
unfolding pair_of entry_of
pair_of-entry_of [] = refl
pair_of-entry_of ((p, kc) ∷ m) = ap (λ r. (p, kc) ∷ r) (pair_of-entry_of m)

-- The file that a shadow is saved as loads to that shadow, settled.
load_file-file_of :
    (s : ShadowState) (path : Option String)
    → IsSorted s.keymap
    → load_file (some (file_of s)) path ≡ fresh s.keymap s.lighting path
unfolding load_file file_of
load_file-file_of s path h = rw (pair_of-entry_of s.keymap, insert_all-IsSorted s.keymap h)

fresh-IsCoherent :
    (m : Map ℕ) (l : LightingState) (path : Option String)
    → IsSorted m
    → IsCoherent (fresh m l path)
unfolding fresh get
fresh-IsCoherent m l path h = record {
  reads = λ p. refl;
  settled = λ e. refl;
  keymap_sorted = h;
  confirmed_sorted = h;
  dirty_sorted = tt;
}

load_file-IsCoherent :
    (sf : Option ShadowFile) (path : Option String) → IsCoherent (load_file sf path)
unfolding load_file
load_file-IsCoherent none path = fresh-IsCoherent [] default_lighting path tt
load_file-IsCoherent (some sf) path =
    fresh-IsCoherent _ _ path (insert_all-keeps [] (map pair_of sf.keymap) tt)

module _ (disk : Disk) where
  open disk use {
    World, Text, read_to_string, write, rename, create_dir_all, with_extension, from_str,
    to_string_pretty,
  }

  pub load_path-IsCoherent : (w : World) (path : Option String) → IsCoherent (load_path disk w path)
  unfolding load_path
  load_path-IsCoherent w none = fresh-IsCoherent [] default_lighting none tt
  load_path-IsCoherent w (some path) = split (read_to_string w path) refl
    where
      split :
          (r : Read Text) → read_to_string w path ≡ r → IsCoherent (load_path disk w (some path))
      split (contents text) e = rw (e, load_path) (load_file-IsCoherent (from_str text) (some path))
      split not_found e = rw (e, load_path) (fresh-IsCoherent [] default_lighting (some path) tt)
      split failed e = rw (e, load_path) (fresh-IsCoherent [] default_lighting (some path) tt)

  module _ (faithful : IsFaithful disk) where
    -- The file after the write and the rename: the old one or the whole new text.
    replace_file_atomic :
        (w : World) (path : String) (json : Text)
        → (read_to_string (replace_file disk w path json) path ≡ read_to_string w path)
          ⊎ (read_to_string (replace_file disk w path json) path ≡ contents json)
    unfolding replace_file
    replace_file_atomic w path json =
        let tmp = with_extension path "json.tmp" in
        let w₁ = (write w tmp json).1 in
        let kept = faithful.write_keeps w tmp path json (faithful.tmp_ne path) in
        elim (Bool-cases (write w tmp json).0) [
          | inr e ↦ inl (rw (e, replace_file) kept)
          | inl e ↦ elim (Bool-cases (rename w₁ tmp path).0) [
            | inr r ↦ inl (rw (e, replace_file) (faithful.rename_keeps w₁ tmp path r ∙ kept))
            | inl r ↦ inr (
                rw (e, replace_file)
                  (faithful.rename_sets w₁ tmp path r ∙ faithful.write_sets w tmp json e))
          ]
        ]

    -- A save replaces the whole file by the current state, or leaves the file as it was.
    pub save_atomic :
        (s : ShadowState) (w : World) (path : String)
        → s.data_path ≡ some path
        → (read_to_string (save disk s w) path ≡ read_to_string w path)
          ⊎ ((json : Text) × (to_string_pretty (file_of s) ≡ some json)
              × (read_to_string (save disk s w) path ≡ contents json))
    unfolding save save_text
    save_atomic s w path e = elim (Option-cases (to_string_pretty (file_of s))) [
      | inl n ↦ inl (rw (e, n, save))
      | inr (json, j) ↦ rw (e, j, save) (saved json (disk.parent path) refl)
    ]
      where
        written :
            (w₀ : World) (json : Text)
            → read_to_string w₀ path ≡ read_to_string w path
            → (read_to_string (replace_file disk w₀ path json) path ≡ read_to_string w path)
              ⊎ ((text : Text) × (some json ≡ some text)
                  × (read_to_string (replace_file disk w₀ path json) path ≡ contents text))
        written w₀ json same = elim (replace_file_atomic w₀ path json) [
          | inl kept ↦ inl (kept ∙ same)
          | inr new ↦ inr (json, refl, new)
        ]

        saved :
            (json : Text) (dir : Option String)
            → disk.parent path ≡ dir
            → (read_to_string (save_text disk w path json) path ≡ read_to_string w path)
              ⊎ ((text : Text) × (some json ≡ some text)
                  × (read_to_string (save_text disk w path json) path ≡ contents text))
        saved json none p = rw (p, save_text) (written w json refl)
        saved json (some dir) p = elim (Bool-cases (create_dir_all w dir).0) [
          | inl made ↦
              rw (p, made, save_text)
                (written (create_dir_all w dir).1 json (faithful.mkdir_keeps w dir path))
          | inr not_made ↦ rw (p, not_made, save_text) (inl (faithful.mkdir_keeps w dir path))
        ]

    module _ (works : Works disk) where
      replace_file_works :
          (w : World) (path : String) (json : Text)
          → read_to_string (replace_file disk w path json) path ≡ contents json
      unfolding replace_file
      replace_file_works w path json =
          let tmp = with_extension path "json.tmp" in
          let w₁ = (write w tmp json).1 in
          rw (works.write_works w tmp json, replace_file)
            (faithful.rename_sets w₁ tmp path (works.rename_works w₁ tmp path)
              ∙ faithful.write_sets w tmp json (works.write_works w tmp json))

      save_text_works :
          (w : World) (path : String) (json : Text)
          → read_to_string (save_text disk w path json) path ≡ contents json
      unfolding save_text
      save_text_works w path json = elim (Option-cases (disk.parent path)) [
        | inl p ↦ rw (p, save_text) (replace_file_works w path json)
        | inr (dir, p) ↦
            rw (p, works.mkdir_works w dir, save_text)
              (replace_file_works (create_dir_all w dir).1 path json)
      ]

      pub load_path-save :
          (s : ShadowState) (w : World) (path : String)
          → IsSorted s.keymap
          → s.data_path ≡ some path
          → load_path disk (save disk s w) (some path) ≡ fresh s.keymap s.lighting (some path)
      unfolding load_path save
      load_path-save s w path h e =
          let (json, j) = works.prints (file_of s) in
          rw (e, j, save)
            (rw (save_text_works w path json, load_path)
              (rw (faithful.parse_print (file_of s) json j) (load_file-file_of s (some path) h)))
