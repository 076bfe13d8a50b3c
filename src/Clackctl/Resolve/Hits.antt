-- ===== src/Clackctl/Resolve/Hits.antt =====
-- src/bin/clackctl/main.rs: which keyboards the text of a device stands in.
use clackd.Base.{
  ℕ, ◌≡◌, refl, ap, ◌⊎◌, ◌≢◌, arith, Bool, true, false, List, [], ◌∷◌, ◌++◌, ◌==◌, ◌||◌, Bool-cases,
  inl, inr,
}
use clackd.Clackctl.Text.{strip_prefix, Text, to_ascii_lowercase}
use clackd.Clackctl.Commands.{Proxy, contains, starts_with, unwrap_name, matching}

-- A text stands in another.
abbrev Within : Text → Text → Type 0
Within needle s = (before : Text) × (after : Text) × (s ≡ before ++ (needle ++ after))

starts_with-cases :
    (p s : Text)
    → ((starts_with p s ≡ true) × (after : Text) × (s ≡ p ++ after))
      ⊎ ((starts_with p s ≡ false) × ((after : Text) → s ≢ p ++ after))
unfolding starts_with strip_prefix
starts_with-cases [] s = inl (refl, s, refl)
starts_with-cases (c ∷ cs) [] = inr (refl, λ after e. cc)
starts_with-cases (c ∷ cs) (d ∷ ds) = elim (Bool-cases (c == d)) [
  | inl b ↦ elim (starts_with-cases cs ds) [
    | inl (e, after, k) ↦ inl (ground (arith, b, e), after, ground (arith, b, k))
    | inr (e, wrong) ↦ inr (ground (arith, b, e), λ after k. wrong after (ground (arith, k)))
  ]
  | inr b ↦ inr (ground (arith, b), λ after k. ground (arith, k, b))
]

Within-nil : (needle : Text) → ((after : Text) → [] ≢ needle ++ after) → ¬ Within needle []
Within-nil needle h ([], after, e) = h after e
Within-nil needle h (c ∷ cs, after, e) = cc

Within-cons :
    (needle : Text) (c : ℕ) (cs : Text)
    → ((after : Text) → c ∷ cs ≢ needle ++ after)
    → ¬ Within needle cs
    → ¬ Within needle (c ∷ cs)
Within-cons needle c cs h k ([], after, e) = h after e
Within-cons needle c cs h k (d ∷ before, after, e) = k (before, after, ground (arith, e))

contains-cases :
    (needle s : Text)
    → ((contains needle s ≡ true) × Within needle s)
      ⊎ ((contains needle s ≡ false) × (¬ Within needle s))
unfolding contains
contains-cases needle [] = elim (starts_with-cases needle []) [
  | inl (e, after, k) ↦ inl (e, ([], after, k))
  | inr (e, wrong) ↦ inr (e, Within-nil needle wrong)
]
contains-cases needle (c ∷ cs) = elim (starts_with-cases needle (c ∷ cs)) [
  | inl (e, after, k) ↦ inl (rw e refl, ([], after, k))
  | inr (e, wrong) ↦ elim (contains-cases needle cs) [
    | inl (f, (before, after, k)) ↦
        inl (ground (arith, e, f), (c ∷ before, after, ap (λ t. c ∷ t) k))
    | inr (f, absent) ↦ inr (ground (arith, e, f), Within-cons needle c cs wrong absent)
  ]
]

module _ (P : Proxy) where
  -- The id of a keyboard, or the name that the bus gives for it, contains the text.
  abbrev Hit : Text → Text → P.World → Type 0
  Hit needle id w =
      Within needle (to_ascii_lowercase id)
      ⊎ Within needle (to_ascii_lowercase (unwrap_name (P.get_device_identity id w).0))

  -- The keyboards are asked in order; none is a hit.
  abbrev NoneHit : Text → List Text → P.World → Type 0
  NoneHit needle [] w = Unit {0}
  NoneHit needle (id ∷ ids) w =
      (¬ Hit needle id w) × NoneHit needle ids (P.get_device_identity id w).1

  -- One is a hit, and no other.
  abbrev pub OnlyHit : Text → List Text → P.World → Text → Type 0
  OnlyHit needle [] w x = ⊥
  OnlyHit needle (id ∷ ids) w x =
      ((x ≡ id) × Hit needle id w × NoneHit needle ids (P.get_device_identity id w).1)
      ⊎ ((¬ Hit needle id w) × OnlyHit needle ids (P.get_device_identity id w).1 x)

  abbrev hit : Text → Text → P.World → Bool
  hit needle id w =
      contains needle (to_ascii_lowercase id)
      || contains needle (to_ascii_lowercase (unwrap_name (P.get_device_identity id w).0))

  hit-cases :
      (needle id : Text) (w : P.World)
      → ((hit needle id w ≡ true) × Hit needle id w)
        ⊎ ((hit needle id w ≡ false) × (¬ Hit needle id w))
  hit-cases needle id w = elim (contains-cases needle (to_ascii_lowercase id)) [
    | inl (e, h) ↦ inl (rw e refl, inl h)
    | inr (e, h) ↦
        elim (contains-cases needle
          (to_ascii_lowercase (unwrap_name (P.get_device_identity id w).0))) [
            | inl (f, k) ↦ inl (ground (arith, e, f), inr k)
            | inr (f, k) ↦ inr (ground (arith, e, f), λ x. elim x [ inl y ↦ h y | inr y ↦ k y ])
          ]
  ]

  matching-NoneHit :
      (needle : Text) (ids : List Text) (w : P.World)
      → (matching P needle ids w).0 ≡ []
      → NoneHit needle ids w
  unfolding matching
  matching-NoneHit needle [] w e = tt
  matching-NoneHit needle (id ∷ ids) w e = elim (hit-cases needle id w) [
    | inl (b, h) ↦ cc (rw (b, matching) at e)
    | inr (b, h) ↦
        (h, matching-NoneHit needle ids (P.get_device_identity id w).1 (rw (b, matching) at e))
  ]

  pub matching-OnlyHit :
      (needle : Text) (ids : List Text) (w : P.World) (x : Text)
      → (matching P needle ids w).0 ≡ x ∷ []
      → OnlyHit needle ids w x
  unfolding matching
  matching-OnlyHit needle [] w x e = cc
  matching-OnlyHit needle (id ∷ ids) w x e = elim (hit-cases needle id w) [
    | inl (b, h) ↦
        let k = rw (b, matching) at e in
        inl (
          ground (arith, k),
          h,
          matching-NoneHit needle ids (P.get_device_identity id w).1 (ground (arith, k)),
        )
    | inr (b, h) ↦
        inr
          (h, matching-OnlyHit needle ids (P.get_device_identity id w).1 x (rw (b, matching) at e))
  ]
