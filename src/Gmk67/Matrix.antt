-- ===== src/Gmk67/Matrix.antt =====
-- src/hal/legacy/gmk67.rs: the matrix positions and the firmware's key indices.
use clackd.Base.{
  ℕ, zero, suc, ◌<◌, ◌≡◌, refl, List, [], ◌∷◌, Bool, true, false, Option, none, some, arith, length,
  get_elem?, ◌==◌, ◌&&◌, if◌then◌else◌, ltb, Option-cases, Bool-cases, inl, inr,
}

-- The sentinel for a cell without a key.
abbrev na : ℕ
na = 0xff

abbrev key_index : List (List ℕ)
key_index =
    (1 ∷ 20 ∷ 21 ∷ 22 ∷ 23 ∷ 24 ∷ 25 ∷ 26 ∷ 27 ∷ 28 ∷ 29 ∷ 30 ∷ 31 ∷ 103 ∷ na ∷ [])
    ∷ (37 ∷ 38 ∷ 39 ∷ 40 ∷ 41 ∷ 42 ∷ 43 ∷ 44 ∷ 45 ∷ 46 ∷ 47 ∷ 48 ∷ 49 ∷ 67 ∷ 119 ∷ [])
    ∷ (55 ∷ 56 ∷ 57 ∷ 58 ∷ 59 ∷ 60 ∷ 61 ∷ 62 ∷ 63 ∷ 64 ∷ 65 ∷ 66 ∷ 85 ∷ 118 ∷ na ∷ [])
    ∷ (73 ∷ 74 ∷ 75 ∷ 76 ∷ 77 ∷ 78 ∷ 79 ∷ 80 ∷ 81 ∷ 82 ∷ 83 ∷ 84 ∷ 101 ∷ 121 ∷ na ∷ [])
    ∷ (91 ∷ 92 ∷ 93 ∷ 94 ∷ 95 ∷ 96 ∷ 99 ∷ 100 ∷ 102 ∷ na ∷ na ∷ na ∷ na ∷ na ∷ na ∷ [])
    ∷ []

unfoldable pub key_index_for : ℕ → ℕ → Option ℕ
key_index_for row col = elim (get_elem? key_index row) [
  | none ↦ none
  | some cells ↦ elim (get_elem? cells col) [
    | none ↦ none
    | some ki ↦ if ki == na then none else some ki
  ]
]

unfoldable pub keydef_command : ℕ → Option ℕ
keydef_command layer = if layer == 0 then some 0x11 else if layer == 1 then some 0x27 else none

unfoldable pub keydef_read_command : ℕ → Option ℕ
keydef_read_command layer = if layer == 0 then some 0x10 else if layer == 1 then some 0x26 else none

-- `position` in a row, counted from `i`.
unfoldable pub position : ℕ → ℕ → List ℕ → Option ℕ
position ki i [] = none
position ki i (cell ∷ cells) = if cell == ki then some i else position ki (suc i) cells

-- `find_map` over the rows, counted from `r`.
unfoldable find_map : ℕ → ℕ → List (List ℕ) → Option (ℕ × ℕ)
unfolding position
find_map ki r [] = none
find_map ki r (cells ∷ rows) = elim (position ki 0 cells) [
  | some c ↦ some (r, c)
  | none ↦ find_map ki (suc r) rows
]

unfoldable pub find_matrix_pos_for_key_index : ℕ → Option (ℕ × ℕ)
unfolding find_map
find_matrix_pos_for_key_index ki = if ki == na then none else find_map ki 0 key_index

-- Checks over all numbers below a bound.
abbrev all_below : ℕ → (ℕ → Bool) → Bool
all_below zero f = true
all_below (suc n) f = f n && all_below n f

all_below-true : (n : ℕ) (f : ℕ → Bool) → all_below n f ≡ true → (i : ℕ) → i < n → f i ≡ true
all_below-true zero f h i l = absurd (omega arith)
all_below-true (suc n) f h i l = elim (Bool-cases (i == n)) [
  | inl e ↦ let k : i ≡ n = ground arith in rw k (ground arith)
  | inr e ↦ all_below-true n f (ground arith) i (ground arith)
]

get_elem?-below :
    {A : Type 0} (xs : List A) (i : ℕ) (x : A) → get_elem? xs i ≡ some x → i < length xs
get_elem?-below [] i x h = cc
get_elem?-below (y ∷ xs) zero x h = omega arith
get_elem?-below (y ∷ xs) (suc i) x h = omega (arith, get_elem?-below xs i x h)

abbrev is_pos : Option (ℕ × ℕ) → ℕ → ℕ → Bool
is_pos none r c = false
is_pos (some (a, b)) r c = a == r && b == c

abbrev is_index : Option ℕ → ℕ → Bool
is_index none ki = false
is_index (some k) ki = k == ki

abbrev found : Option ℕ → ℕ → ℕ → Bool
found none r c = true
found (some ki) r c = is_pos (find_matrix_pos_for_key_index ki) r c && ltb ki 122

abbrev placed : Option (ℕ × ℕ) → ℕ → Bool
placed none ki = true
placed (some (r, c)) ki = is_index (key_index_for r c) ki

all_found : all_below 5 (λ r. all_below 15 (λ c. found (key_index_for r c) r c)) ≡ true
unfolding key_index_for find_matrix_pos_for_key_index find_map position
all_found = refl

all_placed : all_below 256 (λ ki. placed (find_matrix_pos_for_key_index ki) ki) ≡ true
unfolding key_index_for find_matrix_pos_for_key_index find_map position
all_placed = refl

abbrev wide : Option (List ℕ) → Bool
wide none = true
wide (some cells) = length cells == 15

all_wide : all_below 5 (λ r. wide (get_elem? key_index r)) ≡ true
all_wide = refl

-- A position with a key lies in the matrix.
key_index_for-below : (r c ki : ℕ) → key_index_for r c ≡ some ki → (r < 5) × (c < 15)
unfolding key_index_for
key_index_for-below r c ki h = elim (Option-cases (get_elem? key_index r)) [
  | inl e ↦ absurd (ground arith)
  | inr (cells, e) ↦
      let l : r < 5 = get_elem?-below key_index r cells e in
      let w : wide (get_elem? key_index r) ≡ true =
        all_below-true 5 (λ r. wide (get_elem? key_index r)) all_wide r l in
      elim (Option-cases (get_elem? cells c)) [
        | inl k ↦ absurd (ground arith)
        | inr (x, k) ↦ (l, ground (arith, get_elem?-below cells c x k))
      ]
]

abbrev Row : ℕ → Type 0
Row r = all_below 15 (λ c. found (key_index_for r c) r c) ≡ true

-- The table of key indices is one to one: a position has an index exactly when the index has that
-- position, and then the index is below 122.
pub key_index_for_lem :
    (r c ki : ℕ)
    → (key_index_for r c ≡ some ki → (find_matrix_pos_for_key_index ki ≡ some (r, c)) × (ki < 122))
      × (ki < 256 → find_matrix_pos_for_key_index ki ≡ some (r, c) → key_index_for r c ≡ some ki)
key_index_for_lem r c ki = (
  λ h.
      let (l, k) = key_index_for-below r c ki h in
      let row : Row r =
        all_below-true 5 (λ r. all_below 15 (λ c. found (key_index_for r c) r c)) all_found r l in
      let cell : found (key_index_for r c) r c ≡ true =
        all_below-true 15 (λ c. found (key_index_for r c) r c) row c k in
      ground arith,
  λ l h.
      let cell : placed (find_matrix_pos_for_key_index ki) ki ≡ true =
        all_below-true 256 (λ ki. placed (find_matrix_pos_for_key_index ki) ki) all_placed ki l in
      ground arith,
)
