-- ===== src/Engine/Devices.antt =====
-- src/engine/mod.rs: the hash map of the registry, by device.
use clackd.Base.{
  ◌≡◌, ◌≢◌, refl, List, [], ◌∷◌, Bool, true, false, none, some, String, arith, if◌then◌else◌,
  Bool-cases, inl, inr,
}
use text.Mathlib.TextPositions.{compare_refl}
use text.Mathlib.TextEquality.{path_by_compare}
use clackd.Engine.{same_id, find, put, evict}

pub same_refl : (s : String) → same_id s s ≡ true
same_refl s = rw (compare_refl s, same_id) refl

pub eq_of_same : (s t : String) → same_id s t ≡ true → s ≡ t
eq_of_same s t h = ground (arith, path_by_compare s t)

not_same : (s t : String) → same_id s t ≡ false → s ≢ t
not_same s t h e = clash (same_id s t) h (rw e (same_refl t))
  where
    clash : (b : Bool) → b ≡ false → b ≢ true
    clash b k l = cc

module _ {V : Type 0} where
  pub find-put_self : (m : List (String × V)) (id : String) (v : V) → find (put m id v) id ≡ some v
  unfolding find put
  find-put_self [] id v = ground (arith, same_refl id)
  find-put_self ((k, w) ∷ m) id v = ground (arith, find-put_self m id v, same_refl id)

  pub find-put_other :
      (m : List (String × V)) (id other : String) (v : V)
      → id ≢ other
      → find (put m id v) other ≡ find m other
  unfolding find put
  find-put_other [] id other v h = ground (arith, eq_of_same id other)
  find-put_other ((k, w) ∷ m) id other v h =
      ground (arith, find-put_other m id other v h, eq_of_same k id, eq_of_same k other)

  pub find-evict_self : (m : List (String × V)) (id : String) → find (evict m id) id ≡ none
  unfolding find evict
  find-evict_self [] id = refl
  find-evict_self ((k, w) ∷ m) id = ground (arith, find-evict_self m id)

  pub find-evict_other :
      (m : List (String × V)) (id other : String)
      → id ≢ other
      → find (evict m id) other ≡ find m other
  unfolding find evict
  find-evict_other [] id other h = refl
  find-evict_other ((k, w) ∷ m) id other h =
      ground (arith, find-evict_other m id other h, eq_of_same k id, eq_of_same k other)

  -- The same as one equation each.
  pub find-put :
      (m : List (String × V)) (id other : String) (v : V)
      → find (put m id v) other ≡ (if same_id id other then some v else find m other)
  find-put m id other v = elim (Bool-cases (same_id id other)) [
    | inl e ↦ rw (e, eq_of_same id other e) (find-put_self m other v)
    | inr e ↦ rw e (find-put_other m id other v (λ k. not_same id other e k))
  ]

  pub find-evict :
      (m : List (String × V)) (id other : String)
      → find (evict m id) other ≡ (if same_id id other then none else find m other)
  find-evict m id other = elim (Bool-cases (same_id id other)) [
    | inl e ↦ rw (e, eq_of_same id other e) (find-evict_self m other)
    | inr e ↦ rw e (find-evict_other m id other (λ k. not_same id other e k))
  ]
