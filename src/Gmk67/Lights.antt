-- ===== src/Gmk67/Lights.antt =====
-- src/hal/legacy/gmk67.rs: `set_lighting`, `get_lighting` and the VIA values.
use clackd.Base.{ℕ, ◌+◌, ◌≤◌, ◌≡◌, ◌≢◌, refl, ap, List, [], ◌∷◌, true, arith, Bool-cases, inl, inr}
use clackd.Error.{Result, ok, err, Result-cases}
use clackd.Shadow
use clackd.Shadow.{ShadowState}
use clackd.Shadow.Store.{Disk, persist_lighting}
use clackd.Gmk67.{Lighting, is_renderable_mode, to_lighting_state, mode_lights_off}
use clackd.Gmk67.Color.{scale_15_to_255-scale_255_to_15, hs_to_rgb, rgb_to_hs, rgb_to_hs-hs_to_rgb}
use clackd.Gmk67.Driver.{Gmk67Io, Gmk67Driver, render_effect}
use clackd.Gmk67.Methods.{lighting_with_via_value, get_via_value, requested, show, set_lighting}
use clackd.Gmk67.Wire.{render_effect-rest}

-- How near two levels are.
abbrev Near : ℕ → ℕ → Type 0
Near v w = (w ≤ v + 8) × (v ≤ w + 8)

abbrev ReadsBack : Lighting → ℕ → ℕ → List ℕ → Type 0
ReadsBack l x y rest =
    ((l' : Lighting) × (lighting_with_via_value l 2 (x ∷ rest) ≡ ok l')
      × (x ≢ mode_lights_off → get_via_value l' 2 ≡ ok (x ∷ [])))
    × ((l' : Lighting) × (w : ℕ) × (lighting_with_via_value l 1 (x ∷ rest) ≡ ok l')
        × (get_via_value l' 1 ≡ ok (w ∷ []))
        × Near x w)
    × ((l' : Lighting) × (w : ℕ) × (lighting_with_via_value l 3 (x ∷ rest) ≡ ok l')
        × (get_via_value l' 3 ≡ ok (w ∷ []))
        × Near x w)
    × ((l' : Lighting) × (w : ℕ) × (lighting_with_via_value l 4 (x ∷ y ∷ rest) ≡ ok l')
        × (get_via_value l' 4 ≡ ok (w ∷ y ∷ [])))

-- A VIA value that is patched onto a lighting is read back: an effect exactly, unless it is the board's
-- own code for lights off, a brightness and a speed within 8, and a colour's saturation exactly.
via_value_lem : (l : Lighting) (x y : ℕ) (rest : List ℕ) → x ≤ 255 → y ≤ 255 → ReadsBack l x y rest
unfolding lighting_with_via_value get_via_value
via_value_lem l x y rest h k =
    let (_, low, high) = scale_15_to_255-scale_255_to_15 x h in
    let (r, g, b) = hs_to_rgb x y in
    let hue = (rgb_to_hs r g b).0 in
    let back : List ℕ → Result (List ℕ) = ok in
    (
      (_, refl, λ n. ground arith),
      (_, _, refl, refl, (low, high)),
      (_, _, refl, refl, (low, high)),
      (_, hue, refl, ap (λ z. back (hue ∷ z ∷ [])) (rgb_to_hs-hs_to_rgb x y h k)),
    )

module _ (bus : Gmk67Io) (disk : Disk) where
  -- What `set_lighting` leaves: with success the lighting asked for, live, in the shadow and in the
  -- file, and with an error everything but the board as it was.
  abbrev pub Lit :
      Gmk67Driver bus disk → Result Lighting → Result (Unit {0}) × Gmk67Driver bus disk → Type 0
  Lit s asked (ok u, s') =
      (l : Lighting) × (asked ≡ ok l)
      × (is_renderable_mode l.mode ≡ true)
      × (s'.lighting ≡ l)
      × (s'.shadow ≡ Shadow.set_lighting s.shadow (to_lighting_state l))
      × (s'.files ≡ persist_lighting disk s'.shadow s.files)
  Lit s asked (err e, s') = s' ≡ record s { world = s'.world }

  show-Lit :
      (l : Lighting) (s : Gmk67Driver bus disk)
      → is_renderable_mode l.mode ≡ true
      → Lit s (ok l) (show bus disk l s)
  unfolding show
  show-Lit l s m =
      let h = render_effect-rest bus disk l s in
      let x = render_effect bus disk l s in
      let adopt : Gmk67Driver bus disk → ShadowState =
        λ t. Shadow.set_lighting t.shadow (to_lighting_state l) in
      let shadow : adopt x.1 ≡ adopt s = ap adopt h in
      let files : x.1.files ≡ s.files = ap (λ t. t.files) h in
      elim (Result-cases (render_effect bus disk l s).0) [
        | inl (u, r) ↦
            rw (r, show, Lit)
              (l, refl, m, refl, shadow, ap (persist_lighting disk (adopt x.1)) files)
        | inr (y, r) ↦ rw (r, show, Lit) h
      ]

  -- Lighting is set only to what was asked for and can be rendered, after the board took every frame;
  -- it is then live, in the shadow and saved, and any failure leaves the settings alone.
  pub set_lighting_lem :
      (s : Gmk67Driver bus disk) (channel value_id : ℕ) (bytes : List ℕ)
      → Lit s
          (requested bus disk s.lighting channel value_id bytes)
          (set_lighting bus disk channel value_id bytes s)
  unfolding set_lighting
  set_lighting_lem s channel value_id bytes =
      elim (Result-cases (requested bus disk s.lighting channel value_id bytes)) [
        | inr (x, e) ↦ rw (e, set_lighting) refl
        | inl (l, e) ↦ elim (Bool-cases (is_renderable_mode l.mode)) [
          | inr m ↦ rw (e, m, set_lighting) refl
          | inl m ↦ rw (e, m, set_lighting) (show-Lit l s m)
        ]
      ]
