-- ===== src/Keymap/Laws.antt =====
-- Reading a map after each of its operations.
use clackd.Base.{◌≡◌, Ordering, some, [], ◌∷◌, arith}
use clackd.Keymap.{Pos, cmp, Map, get, insert}

pub cmp_refl : (p : Pos) → cmp p p ≡ Ordering.eq
unfolding cmp
cmp_refl p = ground arith

pub eq_of_cmp : (p q : Pos) → cmp p q ≡ Ordering.eq → p ≡ q
unfolding cmp
eq_of_cmp p q h = ground arith

pub cmp_sym : (p q : Pos) → cmp p q ≡ Ordering.lt → cmp q p ≡ Ordering.gt
unfolding cmp
cmp_sym p q h = ground arith

pub cmp_antisym : (p q : Pos) → cmp p q ≡ Ordering.gt → cmp q p ≡ Ordering.lt
unfolding cmp
cmp_antisym p q h = ground arith

pub cmp_trans :
    (p q r : Pos) → cmp p q ≡ Ordering.lt → cmp q r ≡ Ordering.lt → cmp p r ≡ Ordering.lt
unfolding cmp
cmp_trans p q r h k = ground arith

-- A function, changed at one key.
abbrev pub update {ℓ} : {A : Type ℓ} → (Pos → A) → Pos → A → Pos → A
update f p w q = elim (cmp q p) [ Ordering.eq ↦ w | _ ↦ f q ]

module _ {V : Type 0} where
  pub get-insert :
      (m : Map V) (p : Pos) (w : V) (q : Pos) → get (insert m p w) q ≡ update (get m) p (some w) q
  unfolding get insert
  get-insert [] p w q = ground arith
  get-insert ((k, v) ∷ m) p w q = ground (
    arith,
    get-insert m p w q,
    eq_of_cmp p k,
    eq_of_cmp q k,
    eq_of_cmp q p,
    cmp_refl k,
    cmp_refl p,
  )

  pub get-insert_self : (m : Map V) (p : Pos) (w : V) → get (insert m p w) p ≡ some w
  get-insert_self m p w = ground (arith, get-insert m p w p, cmp_refl p)
