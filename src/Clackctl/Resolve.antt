-- ===== src/Clackctl/Resolve.antt =====
-- src/bin/clackctl/main.rs: which keyboard a command acts on, and what a refused key does.
mod Hits
use mathlib.Core.Path.{subst}
use clackd.Base.{
  ℕ, zero, suc, ◌^◌, ◌≡◌, refl, sym, ap, ◌∙◌, ◌⊎◌, ◌≢◌, arith, Bool, true, false, List, [], ◌∷◌,
  ◌++◌, ◌==◌, none, some, get_elem?, ◌||◌, Bool-cases, Option-cases, inl, inr,
}
use clackd.Clackctl.Text.{strip_prefix, Text, same, to_ascii_lowercase, from_str_radix}
use clackd.Clackctl.Keycodes.{any}
use clackd.Clackctl.Parse.{ok, err, parse_key}
use clackd.Clackctl.Printed.{same→eq}
use clackd.Clackctl.Commands.{
  Proxy, Command, and_then, write_key, ◌>>=◌, from_bus, method_error, Reply, value, failed,
  contains, starts_with, unwrap_name, matching, only, at_index, pick_device, resolve_device,
  cmd_set,
}
use clackd.Clackctl.Resolve.Hits.{OnlyHit, matching-OnlyHit}

-- An element of a list, at a place.
abbrev At {ℓ} : {A : Type ℓ} → List A → A → Type ℓ
At xs x = (i : ℕ) × (get_elem? xs i ≡ some x)

later : (x y : Text) (ys : List Text) → At ys x → At (y ∷ ys) x
later x y ys (i, e) = (suc i, e)

clash : (b : Bool) → b ≡ true → b ≢ false
clash b t f = cc

any-at : (p : Text → Bool) (xs : List Text) → any p xs ≡ true → (x : Text) × At xs x × (p x ≡ true)
unfolding any
any-at p [] e = cc
any-at p (x ∷ xs) e = elim (Bool-cases (p x)) [
  | inl b ↦ (x, (0, refl), b)
  | inr b ↦ let (y, at, is) = any-at p xs (ground (arith, b, e)) in (y, later y x xs at, is)
]

same_self : (s : Text) → same s s ≡ true
same_self [] = refl
same_self (c ∷ cs) = ground (arith, same_self cs)

none-at : (spec : Text) (xs : List Text) → any (λ d. same d spec) xs ≡ false → ¬ At xs spec
unfolding any
none-at spec [] e (i, h) = cc
none-at spec (x ∷ xs) e (zero, h) = ground (arith, same_self spec)
none-at spec (x ∷ xs) e (suc i, h) = none-at spec xs (ground (arith, e)) (i, h)

Reply-cases {ℓ} :
    {A : Type ℓ} (r : Reply A) → ((a : A) × (r ≡ value a)) ⊎ ((m : Text) × (from_bus r ≡ err m))
Reply-cases (value a) = inl (a, refl)
Reply-cases (method_error name m) = inr (m, refl)
Reply-cases (failed m) = inr (m, refl)

module _ (P : Proxy) where
  only-ok :
      (spec : Text) (devices ms : List Text) (id : Text)
      → only P spec devices ms ≡ ok id
      → ms ≡ id ∷ []
  only-ok spec devices [] id e = cc
  only-ok spec devices (m ∷ []) id e = ground (arith, e)
  only-ok spec devices (m ∷ n ∷ ms) id e = cc

  -- The text is no index of the list.
  abbrev NoIndex : Text → List Text → Type 0
  NoIndex spec devices =
      (i : ℕ) → from_str_radix 10 (2 ^ 64) spec ≡ some i → get_elem? devices i ≡ none

  -- Why a keyboard is picked: the text is its id; or the text is no id, but its index; or the text is
  -- neither, and it is the only keyboard whose id or name contains the text, in lower case.
  abbrev pub Picks : Text → List Text → P.World → Text → P.World → Type 0
  Picks spec devices w id w' =
      (At devices spec × (id ≡ spec) × (w' ≡ w))
      ⊎ ((¬ At devices spec)
          × (i : ℕ) × (from_str_radix 10 (2 ^ 64) spec ≡ some i)
          × (get_elem? devices i ≡ some id)
          × (w' ≡ w))
      ⊎ ((¬ At devices spec)
          × NoIndex spec devices
          × OnlyHit P (to_ascii_lowercase spec) devices w id)

  at_index-at :
      (spec : Text) (devices : List Text) (id : Text)
      → at_index P spec devices ≡ some id
      → (i : ℕ) × (from_str_radix 10 (2 ^ 64) spec ≡ some i) × (get_elem? devices i ≡ some id)
  unfolding at_index
  at_index-at spec devices id e = elim (Option-cases (from_str_radix 10 (2 ^ 64) spec)) [
    | inl q ↦ cc (rw (q, at_index) at e)
    | inr (i, q) ↦ (i, q, rw (q, at_index) at e)
  ]

  at_index-NoIndex :
      (spec : Text) (devices : List Text) → at_index P spec devices ≡ none → NoIndex spec devices
  unfolding at_index
  at_index-NoIndex spec devices e i q = rw (q, at_index) at e

  -- A keyboard is picked for the first of these reasons that applies: the text is its id; it is its
  -- index in the list; or it stands, in lower case, in the id or the name of that keyboard and of no
  -- other. For the first two the bus is not asked.
  pub pick_device_lem :
      (spec : Text) (devices : List Text) (w : P.World) (id : Text)
      → (pick_device P spec devices w).0 ≡ ok id
      → Picks spec devices w id (pick_device P spec devices w).1
  unfolding pick_device
  pick_device_lem spec devices w id e = elim (Bool-cases (any (λ d. same d spec) devices)) [
    | inl b ↦
        let (x, at, x_is) = any-at (λ d. same d spec) devices b in
        inl (
          subst (At devices) (same→eq x spec x_is) at,
          ground (arith, rw (b, pick_device) at e),
          rw (b, pick_device) refl,
        )
    | inr b ↦ elim (Option-cases (at_index P spec devices)) [
      | inr (j, q) ↦
          let is : j ≡ id = ground (arith, rw (b, q, pick_device) at e) in
          let (i, r, there) = at_index-at spec devices j q in
          inr (
            inl (
              none-at spec devices b,
              i,
              r,
              there ∙ ap (λ t. some t) is,
              rw (b, q, pick_device) refl,
            ))
      | inl q ↦
          let ms = (matching P (to_ascii_lowercase spec) devices w).0 in
          let one = only-ok spec devices ms id (rw (b, q, pick_device) at e) in
          inr (
            inr (
              none-at spec devices b,
              at_index-NoIndex spec devices q,
              matching-OnlyHit P (to_ascii_lowercase spec) devices w id one,
            ))
    ]
  ]

  write_key-world :
      (layer row col kc : ℕ) (id : Text) (w : P.World)
      → (write_key P layer row col kc id w).1 ≡ (P.set_keycode id layer row col kc w).1
  unfolding write_key
  write_key-world layer row col kc id w =
      elim (Reply-cases (P.set_keycode id layer row col kc w).0) [
        | inl (a, e) ↦ rw (e, write_key) refl
        | inr (m, e) ↦ rw (e, write_key) refl
      ]

  -- A key that cannot be read is refused before the bus is used; another is written to the keyboard
  -- that is resolved, and nothing else is sent after that.
  cmd_set_lem :
      (device : Text) (layer row col : ℕ) (key : Text) (w : P.World)
      → ((m : Text) → parse_key key ≡ err m → cmd_set P device layer row col key w ≡ (err m, w))
        × ((kc : ℕ) (id : Text) (w' : P.World)
            → parse_key key ≡ ok kc
            → resolve_device P device w ≡ (ok id, w')
            → (cmd_set P device layer row col key w).1 ≡ (P.set_keycode id layer row col kc w').1)
  unfolding cmd_set
  cmd_set_lem device layer row col key w = (
    λ m e. rw (e, cmd_set) refl,
    λ kc id w' e d.
        let write : ℕ → Text → Command P Text =
          λ keycode device_id. write_key P layer row col keycode device_id in
        let next : ℕ → Command P Text =
          λ keycode. ◌>>=◌ P (resolve_device P device) (write keycode) in
        let read = ap (λ r. and_then P (r, w) next) e in
        let resolved = ap (λ t. and_then P t (write kc)) d in
        ap (λ t. t.1) (read ∙ resolved) ∙ write_key-world layer row col kc id w',
  )
