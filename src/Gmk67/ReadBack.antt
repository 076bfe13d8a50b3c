-- ===== src/Gmk67/ReadBack.antt =====
-- src/hal/legacy/gmk67.rs: the read-back of a layer inverts the buffer that is sent for it.
use clackd.Base.{
  ℕ, zero, suc, ◌+◌, ◌-◌, ◌*◌, ◌≤◌, ◌<◌, ◌≡◌, refl, ap, ◌∙◌, List, [], ◌∷◌, false, Option, some,
  arith, if◌then◌else◌, take, drop, inl, inr, Bool-cases,
}
use clackd.Error.{ok, err, disconnected}
use clackd.Keymap.{at, Map, get}
use clackd.Keymap.Sorted.{IsSorted}
use clackd.Shadow.{layer_entries}
use clackd.Shadow.Store.{Disk}
use clackd.Gmk67.{frame_len, key_def_pages, encode_keydef_buffer}
use clackd.Gmk67.Matrix.{key_index_for, key_index_for_lem}
use clackd.Gmk67.Frames.{entry_at}
use clackd.Gmk67.Driver.{Gmk67Io, Gmk67Driver, indexed}
use clackd.Gmk67.Methods.{read_entries, read_pages}
use clackd.Gmk67.Wire.{pages}
use clackd.Gmk67.Blob.{layer_blob}
use clackd.Gmk67.Entries.{or_else, among, get-read_entries, entry_at-page}

-- The pages of a buffer, read one after the other.
abbrev decode : ℕ → ℕ → List ℕ → ℕ → Map ℕ → Map ℕ
decode zero p buf layer m = m
decode (suc n) p buf layer m =
    decode n (suc p) buf layer
      (read_entries 16 0 (take frame_len (drop (p * frame_len) buf)) p layer m)

read_on :
    (p ki : ℕ) (x y g : Option ℕ)
    → p * 16 ≤ ki
    → ki < p * 16 + 16
    → g ≡ (if among (p * 16 + 0) 16 ki then x else y)
    → g ≡ x
read_on p ki x y g low high e = ground arith

read_off :
    (p ki : ℕ) (x y g : Option ℕ)
    → among (p * 16) 16 ki ≡ false
    → g ≡ (if among (p * 16 + 0) 16 ki then x else y)
    → g ≡ y
read_off p ki x y g off e = ground arith

-- The entry is on the first page, or on a later one.
on_page :
    (p n ki : ℕ) (o g' g : Option ℕ)
    → p * 16 ≤ ki
    → ki < p * 16 + 16
    → g' ≡ or_else o g
    → (if among (suc p * 16) (n * 16) ki then or_else o g' else g')
      ≡ (if among (p * 16) (suc n * 16) ki then or_else o g else g)
on_page p n ki o g' g low high e = ground arith

off_page :
    (p n ki : ℕ) (o g' g : Option ℕ)
    → among (p * 16) 16 ki ≡ false
    → g' ≡ g
    → (if among (suc p * 16) (n * 16) ki then or_else o g' else g')
      ≡ (if among (p * 16) (suc n * 16) ki then or_else o g else g)
off_page p n ki o g' g off e = ground arith

get-decode :
    (n p : ℕ) (buf : List ℕ) (layer : ℕ) (m : Map ℕ) (r c ki : ℕ)
    → key_index_for r c ≡ some ki
    → p + n ≤ 9
    → get (decode n p buf layer m) (at layer r c) ≡ (
        if among (p * 16) (n * 16) ki
        then or_else (entry_at buf (ki * 4)) (get m (at layer r c))
        else get m (at layer r c))
get-decode zero p buf layer m r c ki h l = ground arith
get-decode (suc n) p buf layer m r c ki h l =
    let page = take frame_len (drop (p * frame_len) buf) in
    let m' = read_entries 16 0 page p layer m in
    let ih = get-decode n (suc p) buf layer m' r c ki h (omega arith) in
    let here = get-read_entries 16 0 page p layer m r c ki h (omega arith) in
    elim (Bool-cases (among (p * 16) 16 ki)) [
      | inl e ↦
          let low : p * 16 ≤ ki = ground arith in
          let high : ki < p * 16 + 16 = ground arith in
          let entry : entry_at page ((ki - p * 16) * 4) ≡ entry_at buf (ki * 4) =
            entry_at-page buf p (ki - p * 16) (omega arith)
            ∙ ap (λ i. entry_at buf (i * 4)) (omega arith) in
          ih
          ∙ on_page p n ki (entry_at buf (ki * 4)) _ _ low high
              (read_on p ki _ _ _ low high here ∙ ap (λ o. or_else o (get m (at layer r c))) entry)
      | inr e ↦ ih ∙ off_page p n ki (entry_at buf (ki * 4)) _ _ e (read_off p ki _ _ _ e here)
    ]

whole :
    (l r c ki : ℕ) (o : Option ℕ)
    → ki < 122
    → (if among (0 * 16) (9 * 16) ki
        then or_else o (get {V = ℕ} [] (at l r c))
        else get [] (at l r c))
      ≡ o
unfolding get
whole l r c ki o h = ground arith

-- A board that answers with the pages that it holds, one after the other.
abbrev pub tape : Gmk67Io
tape = record {
  World = List (List ℕ);
  set_feature = λ frame w. (ok tt, w);
  get_feature = λ id w. elim w [ [] ↦ (err disconnected, []) | page ∷ ps ↦ (ok page, ps) ];
}

module _ (disk : Disk) where
  read_pages-decode :
      (n p layer : ℕ) (m : Map ℕ) (buf : List ℕ) (s : Gmk67Driver tape disk)
      → (read_pages tape disk n p layer m (record s { world = pages n p buf })).0
        ≡ ok (decode n p buf layer m)
  unfolding read_pages
  read_pages-decode zero p layer m buf s = refl
  read_pages-decode (suc n) p layer m buf s =
      read_pages-decode n (suc p) layer
        (read_entries 16 0 (take frame_len (drop (p * frame_len) buf)) p layer m) buf s

  -- Reading the pages of a layer's buffer back gives the keymap that was sent: for every position with
  -- a key, the map that is read holds the keycode that the shadow holds.
  pub read_pages-layer_blob :
      (s : Gmk67Driver tape disk) (l r c ki : ℕ)
      → IsSorted s.shadow.keymap
      → key_index_for r c ≡ some ki
      → let buf = encode_keydef_buffer (indexed (layer_entries s.shadow l)) in
        let held = record s { world = pages key_def_pages 0 buf } in
        (m : Map ℕ) × ((read_pages tape disk key_def_pages 0 l [] held).0 ≡ ok m)
        × (get m (at l r c) ≡ get s.shadow.keymap (at l r c))
  read_pages-layer_blob s l r c ki sorted h =
      let buf = encode_keydef_buffer (indexed (layer_entries s.shadow l)) in
      (
        decode 9 0 buf l [],
        read_pages-decode 9 0 l [] buf s,
        get-decode 9 0 buf l [] r c ki h (omega arith)
            ∙ whole l r c ki (entry_at buf (ki * 4)) (ground (arith, (key_index_for_lem r c ki).0))
            ∙ layer_blob s.shadow l r c ki sorted h,
      )
