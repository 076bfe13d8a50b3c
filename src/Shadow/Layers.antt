-- ===== src/Shadow/Layers.antt =====
-- src/hal/legacy/mod.rs: `dirty_layers`.
use clackd.Base.{
  ℕ, ◌≡◌, refl, ◌<◌, ◌≤◌, List, [], ◌∷◌, map, Bool, false, arith, ◌||◌, ◌==◌, ◌∙◌, ap, Bool-cases,
  inl, inr,
}
use clackd.Keymap.{Map}
use clackd.Shadow.{ShadowState, insert_layer, sort, dedup, dirty_layers}

abbrev has : ℕ → List ℕ → Bool
has l [] = false
has l (k ∷ ks) = l == k || has l ks

abbrev Least : ℕ → List ℕ → Type 0
Least l [] = Unit {0}
Least l (k ∷ ks) = l ≤ k

abbrev IsAscending : List ℕ → Type 0
IsAscending [] = Unit {0}
IsAscending (l ∷ ls) = Least l ls × IsAscending ls

abbrev Under : ℕ → List ℕ → Type 0
Under l [] = Unit {0}
Under l (k ∷ ks) = l < k

-- Each layer below the next one: in order, and none twice.
abbrev IsIncreasing : List ℕ → Type 0
IsIncreasing [] = Unit {0}
IsIncreasing (l ∷ ls) = Under l ls × IsIncreasing ls

has-insert_layer : (l k : ℕ) (ks : List ℕ) → has l (insert_layer k ks) ≡ has l (k ∷ ks)
unfolding insert_layer
has-insert_layer l k [] = refl
has-insert_layer l k (j ∷ ks) = ground (arith, has-insert_layer l k ks)

has-sort : (l : ℕ) (ks : List ℕ) → has l (sort ks) ≡ has l ks
unfolding sort
has-sort l [] = refl
has-sort l (k ∷ ks) = has-insert_layer l k (sort ks) ∙ ap (λ b. l == k || b) (has-sort l ks)

Least-insert_layer : (l k : ℕ) (ks : List ℕ) → l ≤ k → Least l ks → Least l (insert_layer k ks)
unfolding insert_layer
Least-insert_layer l k [] h a = h
Least-insert_layer l k (j ∷ ks) h a = ground arith

insert_layer-IsAscending : (k : ℕ) (ks : List ℕ) → IsAscending ks → IsAscending (insert_layer k ks)
unfolding insert_layer
insert_layer-IsAscending k [] a = (tt, tt)
insert_layer-IsAscending k (j ∷ ks) a =
    ground (arith, insert_layer-IsAscending k ks a.1, Least-insert_layer j k ks)

sort-IsAscending : (ks : List ℕ) → IsAscending (sort ks)
unfolding sort
sort-IsAscending [] = tt
sort-IsAscending (k ∷ ks) = insert_layer-IsAscending k (sort ks) (sort-IsAscending ks)

has-dedup : (l : ℕ) (ks : List ℕ) → has l (dedup ks) ≡ has l ks
unfolding dedup
has-dedup l [] = refl
has-dedup l (k ∷ []) = refl
has-dedup l (k ∷ j ∷ ks) = ground (arith, has-dedup l (j ∷ ks))

Under-dedup : (l k : ℕ) (ks : List ℕ) → l < k → IsAscending (k ∷ ks) → Under l (dedup (k ∷ ks))
unfolding dedup
Under-dedup l k [] h a = h
Under-dedup l k (j ∷ ks) h a = ground (arith, Under-dedup l j ks)

dedup-IsIncreasing : (ks : List ℕ) → IsAscending ks → IsIncreasing (dedup ks)
unfolding dedup
dedup-IsIncreasing [] a = tt
dedup-IsIncreasing (k ∷ []) a = (tt, tt)
dedup-IsIncreasing (k ∷ j ∷ ks) a = elim (Bool-cases (k == j)) [
  | inl e ↦ rw e (dedup-IsIncreasing (j ∷ ks) a.1)
  | inr e ↦ rw e (Under-dedup k j ks (ground arith) a.1, dedup-IsIncreasing (j ∷ ks) a.1)
]

abbrev layers_of : Map ℕ → List ℕ
layers_of = map (λ e. e.0.layer)

-- The dirty layers are exactly the layers of the dirty positions, in increasing order and each
-- once.
dirty_layers_lem :
    (s : ShadowState)
    → ((l : ℕ) → has l (dirty_layers s) ≡ has l (layers_of s.dirty)) × IsIncreasing (dirty_layers s)
unfolding dirty_layers
dirty_layers_lem s =
    let ls = layers_of s.dirty in
    (λ l. has-dedup l (sort ls) ∙ has-sort l ls, dedup-IsIncreasing (sort ls) (sort-IsAscending ls))
