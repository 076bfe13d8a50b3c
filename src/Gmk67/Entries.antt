-- ===== src/Gmk67/Entries.antt =====
-- src/hal/legacy/gmk67.rs: what the entries of one page do to the map that is read back.
use clackd.Base.{
  ℕ, zero, suc, ◌+◌, ◌-◌, ◌*◌, ◌%◌, ◌≤◌, ◌<◌, ◌≡◌, ◌≢◌, refl, ap, ◌∙◌, List, [], ◌∷◌, Bool, true,
  false, Option, none, some, arith, ltb, leb, ◌==◌, ◌&&◌, if◌then◌else◌, get_or, take, drop, inl,
  inr, Bool-cases, Option-cases,
}
use clackd.Keymap.{at, Map, get, insert}
use clackd.Keymap.Laws.{get-insert, cmp_refl, eq_of_cmp}
use clackd.Gmk67.{frame_len, key_def_entry_marker}
use clackd.Gmk67.Matrix.{key_index_for, find_matrix_pos_for_key_index, key_index_for_lem}
use clackd.Gmk67.Frames.{entry_at}
use clackd.Gmk67.Methods.{read_entries}

abbrev pub or_else : Option ℕ → Option ℕ → Option ℕ
or_else (some x) o = some x
or_else none o = o

-- What one entry of a page does to the map that is read.
abbrev entered : Bool → Option (ℕ × ℕ) → ℕ → ℕ → Map ℕ → Map ℕ
entered b o layer keycode m =
    if b then elim o [ none ↦ m | some (row, col) ↦ insert m (at layer row col) keycode ] else m

get-entered_other :
    (b : Bool) (layer keycode : ℕ) (m : Map ℕ) (r c ki kj : ℕ)
    → key_index_for r c ≡ some ki
    → kj < 256
    → kj ≢ ki
    → get (entered b (find_matrix_pos_for_key_index kj) layer keycode m) (at layer r c)
      ≡ get m (at layer r c)
get-entered_other false layer keycode m r c ki kj h l n = refl
get-entered_other true layer keycode m r c ki kj h l n =
    elim (Option-cases (find_matrix_pos_for_key_index kj)) [
      | inl e ↦ rw e refl
      | inr ((row, col), e) ↦ rw e (
          ground (
            arith,
            get-insert m (at layer row col) keycode (at layer r c),
            eq_of_cmp (at layer r c) (at layer row col),
            (key_index_for_lem row col kj).1 l e,
          ))
    ]

get-entered_self :
    (b : Bool) (layer keycode : ℕ) (m : Map ℕ) (r c ki : ℕ)
    → key_index_for r c ≡ some ki
    → get (entered b (find_matrix_pos_for_key_index ki) layer keycode m) (at layer r c)
      ≡ or_else (if b then some keycode else none) (get m (at layer r c))
get-entered_self false layer keycode m r c ki h = refl
get-entered_self true layer keycode m r c ki h =
    rw ((key_index_for_lem r c ki).0 h).0
      (ground (arith, get-insert m (at layer r c) keycode (at layer r c), cmp_refl (at layer r c)))

get-entered_same :
    (b : Bool) (layer keycode : ℕ) (m : Map ℕ) (r c ki kj : ℕ)
    → key_index_for r c ≡ some ki
    → kj ≡ ki
    → get (entered b (find_matrix_pos_for_key_index kj) layer keycode m) (at layer r c)
      ≡ or_else (if b then some keycode else none) (get m (at layer r c))
get-entered_same b layer keycode m r c ki kj h e =
    rw e (get-entered_self b layer keycode m r c ki h)

get_or-drop : (n i : ℕ) (xs : List ℕ) → get_or (drop n xs) i 0 ≡ get_or xs (n + i) 0
get_or-drop zero i xs = ground arith
get_or-drop (suc n) i [] = ground arith
get_or-drop (suc n) i (x ∷ xs) = ground (arith, get_or-drop n i xs)

get_or-take : (n i : ℕ) (xs : List ℕ) → i < n → get_or (take n xs) i 0 ≡ get_or xs i 0
get_or-take zero i xs h = absurd (omega arith)
get_or-take (suc n) i [] h = refl
get_or-take (suc n) zero (x ∷ xs) h = refl
get_or-take (suc n) (suc i) (x ∷ xs) h = get_or-take n i xs (omega arith)

-- Whether the key's entry is among the `n` from `first` on.
abbrev pub among : ℕ → ℕ → ℕ → Bool
among first n ki = leb first ki && ltb ki (first + n)

pub get-read_entries :
    (n entry : ℕ) (page : List ℕ) (p layer : ℕ) (m : Map ℕ) (r c ki : ℕ)
    → key_index_for r c ≡ some ki
    → p * 16 + entry + n ≤ 144
    → get (read_entries n entry page p layer m) (at layer r c) ≡ (
        if among (p * 16 + entry) n ki
        then or_else (entry_at page ((ki - p * 16) * 4)) (get m (at layer r c))
        else get m (at layer r c))
unfolding read_entries
get-read_entries zero entry page p layer m r c ki h l = ground arith
get-read_entries (suc n) entry page p layer m r c ki h l =
    let kj = (p * 16 + entry) % 256 in
    let index : kj ≡ p * 16 + entry = omega arith in
    let b = get_or page (entry * 4) 0 == key_def_entry_marker in
    let kc = get_or page (entry * 4 + 2) 0 + get_or page (entry * 4 + 3) 0 * 256 in
    let m' = entered b (find_matrix_pos_for_key_index kj) layer kc m in
    let ih = get-read_entries n (suc entry) page p layer m' r c ki h (omega arith) in
    elim (Bool-cases (kj == ki)) [
      | inl e ↦
          let same : kj ≡ ki = ground arith in
          let off : (ki - p * 16) * 4 ≡ entry * 4 = omega arith in
          let self = get-entered_same b layer kc m r c ki kj h same in
          ih ∙ rw off (ground (arith, self))
      | inr e ↦
          let ne : kj ≢ ki = λ k. ground arith in
          ih ∙ ground (arith, get-entered_other b layer kc m r c ki kj h (omega arith) ne)
    ]

pub entry_at-page :
    (buf : List ℕ) (p e : ℕ)
    → e < 16
    → entry_at (take frame_len (drop (p * frame_len) buf)) (e * 4) ≡ entry_at buf ((p * 16 + e) * 4)
entry_at-page buf p e h =
    let whole = drop (p * 64) buf in
    let at_offset : p * 64 + e * 4 ≡ (p * 16 + e) * 4 = omega arith in
    let at_low : p * 64 + (e * 4 + 2) ≡ (p * 16 + e) * 4 + 2 = omega arith in
    let at_high : p * 64 + (e * 4 + 3) ≡ (p * 16 + e) * 4 + 3 = omega arith in
    let marker : get_or (take 64 whole) (e * 4) 0 ≡ get_or buf ((p * 16 + e) * 4) 0 =
      get_or-take 64 (e * 4) whole (omega arith)
      ∙ get_or-drop (p * 64) (e * 4) buf
      ∙ ap (λ i. get_or buf i 0) at_offset in
    let low : get_or (take 64 whole) (e * 4 + 2) 0 ≡ get_or buf ((p * 16 + e) * 4 + 2) 0 =
      get_or-take 64 (e * 4 + 2) whole (omega arith)
      ∙ get_or-drop (p * 64) (e * 4 + 2) buf
      ∙ ap (λ i. get_or buf i 0) at_low in
    let high : get_or (take 64 whole) (e * 4 + 3) 0 ≡ get_or buf ((p * 16 + e) * 4 + 3) 0 =
      get_or-take 64 (e * 4 + 3) whole (omega arith)
      ∙ get_or-drop (p * 64) (e * 4 + 3) buf
      ∙ ap (λ i. get_or buf i 0) at_high in
    rw (marker, low, high) refl
