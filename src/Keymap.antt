-- ===== src/Keymap.antt =====
-- `BTreeMap<(u8, u8, u8), u16>`, the keymap of src/hal/legacy/mod.rs and src/hal/via.rs: an
-- association list in the lexicographic order of its keys. A `HashMap` with the same keys is this
-- map with an order of iteration of its own (see `Via.Coalescer`).
pub mod Laws
pub mod Sorted
use clackd.Base.{
  ℕ, ◌≡◌, compare, Ordering, Option, none, some, List, [], ◌∷◌, map, Bool, true, false, arith,
}

-- A key: layer, row and column.
pub record Pos : Type 0 where
  pub layer : ℕ
  pub row : ℕ
  pub col : ℕ

abbrev pub at : ℕ → ℕ → ℕ → Pos
at l r c = record { layer = l; row = r; col = c }

abbrev then : Ordering → Ordering → Ordering
then Ordering.lt o = Ordering.lt
then Ordering.gt o = Ordering.gt
then Ordering.eq o = o

-- Tuples compare lexicographically.
unfoldable pub cmp : Pos → Pos → Ordering
cmp p q = then (compare p.layer q.layer) (then (compare p.row q.row) (compare p.col q.col))

abbrev pub same : Pos → Pos → Bool
same p q = elim (cmp p q) [ Ordering.eq ↦ true | _ ↦ false ]

abbrev pub Map : Type 0 → Type 0
Map V = List (Pos × V)

module _ {V : Type 0} where
  unfoldable pub get : Map V → Pos → Option V
  get [] p = none
  get ((q, v) ∷ m) p = elim (cmp p q) [ Ordering.eq ↦ some v | _ ↦ get m p ]

  unfoldable pub insert : Map V → Pos → V → Map V
  insert [] p w = (p, w) ∷ []
  insert ((q, v) ∷ m) p w = elim (cmp p q) [
    | Ordering.lt ↦ (p, w) ∷ (q, v) ∷ m
    | Ordering.eq ↦ (p, w) ∷ m
    | Ordering.gt ↦ (q, v) ∷ insert m p w
  ]

  unfoldable pub remove : Map V → Pos → Map V
  remove [] p = []
  remove ((q, v) ∷ m) p = elim (cmp p q) [ Ordering.eq ↦ m | _ ↦ (q, v) ∷ remove m p ]

  unfoldable pub keys : Map V → List Pos
  keys [] = []
  keys ((q, v) ∷ m) = q ∷ keys m

  -- The `for` loop that rebuilds a map from a sequence of entries.
  unfoldable pub insert_all : Map V → List (Pos × V) → Map V
  insert_all m [] = m
  insert_all m ((p, v) ∷ es) = insert_all (insert m p v) es
