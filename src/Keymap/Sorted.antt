-- ===== src/Keymap/Sorted.antt =====
-- The order of the keys: every operation keeps it, and a map in order is determined by what it
-- reads.
use clackd.Base.{
  ◌≡◌, refl, Ordering, none, [], ◌∷◌, arith, sym, ◌∙◌, ◌++◌, append-nil, append_assoc,
}
use clackd.Keymap.{Pos, cmp, Map, get, insert, remove, insert_all}
use clackd.Keymap.Laws.{cmp_refl, eq_of_cmp, cmp_sym, cmp_antisym, cmp_trans, update}

module _ {V : Type 0} where
  -- Every key of the map is above `p`.
  abbrev Above : Pos → Map V → Type 0
  Above p [] = Unit {0}
  Above p ((q, v) ∷ m) = (cmp p q ≡ Ordering.lt) × Above p m

  abbrev pub IsSorted : Map V → Type 0
  IsSorted [] = Unit {0}
  IsSorted ((q, v) ∷ m) = Above q m × IsSorted m

  Above-trans : (p q : Pos) (m : Map V) → cmp p q ≡ Ordering.lt → Above q m → Above p m
  Above-trans p q [] h a = tt
  Above-trans p q ((k, v) ∷ m) h a = (cmp_trans p q k h a.0, Above-trans p q m h a.1)

  Above-insert :
      (m : Map V) (p q : Pos) (w : V) → cmp p q ≡ Ordering.lt → Above p m → Above p (insert m q w)
  unfolding insert
  Above-insert [] p q w h a = (h, tt)
  Above-insert ((k, v) ∷ m) p q w h a = ground (arith, Above-insert m p q w h a.1)

  pub insert-IsSorted : (m : Map V) (p : Pos) (w : V) → IsSorted m → IsSorted (insert m p w)
  unfolding insert
  insert-IsSorted [] p w s = (tt, tt)
  insert-IsSorted ((k, v) ∷ m) p w s = ground (
    arith,
    insert-IsSorted m p w s.1,
    Above-insert m k p w,
    Above-trans p k m,
    eq_of_cmp p k,
    cmp_antisym p k,
  )

  Above-remove : (m : Map V) (p q : Pos) → Above p m → Above p (remove m q)
  unfolding remove
  Above-remove [] p q a = tt
  Above-remove ((k, v) ∷ m) p q a = ground (arith, Above-remove m p q a.1)

  pub remove-IsSorted : (m : Map V) (p : Pos) → IsSorted m → IsSorted (remove m p)
  unfolding remove
  remove-IsSorted [] p s = tt
  remove-IsSorted ((k, v) ∷ m) p s = ground (arith, remove-IsSorted m p s.1, Above-remove m k p s.0)

  -- Nothing is read at or below a key that the map is above.
  pub get-Above : (m : Map V) (p : Pos) → Above p m → get m p ≡ none
  unfolding get
  get-Above [] p a = refl
  get-Above ((k, v) ∷ m) p a = ground (arith, get-Above m p a.1)

  pub get-remove :
      (m : Map V) (p : Pos) (q : Pos) → IsSorted m → get (remove m p) q ≡ update (get m) p none q
  unfolding get remove
  get-remove [] p q s = ground arith
  get-remove ((k, v) ∷ m) p q s = ground (
    arith,
    get-remove m p q s.1,
    eq_of_cmp p k,
    eq_of_cmp q k,
    eq_of_cmp q p,
    get-Above m k s.0,
    cmp_refl k,
  )

  -- Appending above every key.
  abbrev Below : Map V → Pos → Type 0
  Below [] p = Unit {0}
  Below ((q, v) ∷ m) p = (cmp q p ≡ Ordering.lt) × Below m p

  insert_last : (m : Map V) (p : Pos) (w : V) → Below m p → insert m p w ≡ m ++ (p, w) ∷ []
  unfolding insert
  insert_last [] p w b = refl
  insert_last ((k, v) ∷ m) p w b = ground (arith, insert_last m p w b.1, cmp_sym k p b.0)

  Below-of-IsSorted : (acc m : Map V) (p : Pos) (w : V) → IsSorted (acc ++ (p, w) ∷ m) → Below acc p
  Below-of-IsSorted [] m p w s = tt
  Below-of-IsSorted ((k, v) ∷ acc) m p w s = (below acc s.0, Below-of-IsSorted acc m p w s.1)
    where
      below : (xs : Map V) → Above k (xs ++ (p, w) ∷ m) → cmp k p ≡ Ordering.lt
      below [] a = a.0
      below ((j, u) ∷ xs) a = below xs a.1

  insert_all-append : (acc m : Map V) → IsSorted (acc ++ m) → insert_all acc m ≡ acc ++ m
  unfolding insert_all
  insert_all-append acc [] s = sym (append-nil acc)
  insert_all-append acc ((p, v) ∷ m) s = rw (insert_last acc p v (Below-of-IsSorted acc m p v s)) (
      insert_all-append (acc ++ (p, v) ∷ []) m (rw (append_assoc acc) s)
      ∙ append_assoc acc ((p, v) ∷ []) m)

  -- Inserting the entries of a map in order, one by one, rebuilds it.
  pub insert_all-IsSorted : (m : Map V) → IsSorted m → insert_all [] m ≡ m
  insert_all-IsSorted m s = insert_all-append [] m s

  pub insert_all-keeps : (m es : Map V) → IsSorted m → IsSorted (insert_all m es)
  unfolding insert_all
  insert_all-keeps m [] s = s
  insert_all-keeps m ((p, v) ∷ es) s = insert_all-keeps (insert m p v) es (insert-IsSorted m p v s)
