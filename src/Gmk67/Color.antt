-- ===== src/Gmk67/Color.antt =====
-- src/hal/legacy/gmk67.rs: the conversions between VIA's lighting values and the board's.
use native.Mathlib.Nat.{mul-le-mul_left}
use clackd.Base.{
  ℕ, zero, suc, ◌+◌, ◌-◌, ◌*◌, ◌/◌, ◌%◌, ◌≤◌, ◌<◌, ◌≡◌, refl, ◌∙◌, arith, min, leb, ◌==◌, ◌||◌,
  if◌then◌else◌, Bool-cases, inl, inr,
}

unfoldable pub scale_255_to_15 : ℕ → ℕ
scale_255_to_15 v = (v * 15 + 127) / 255 % 256

unfoldable pub scale_15_to_255 : ℕ → ℕ
scale_15_to_255 v = min v 0x0f * 255 / 15 % 256

-- The region and the three levels of a hue and a saturation.
abbrev level_p : ℕ → ℕ
level_p s = 255 * (255 - s) / 255 % 256

abbrev level_q : ℕ → ℕ → ℕ
level_q s remainder = 255 * (255 - s * remainder / 255) / 255 % 256

abbrev level_t : ℕ → ℕ → ℕ
level_t s remainder = 255 * (255 - s * (255 - remainder) / 255) / 255 % 256

abbrev pick : ℕ → ℕ → ℕ → ℕ → ℕ × ℕ × ℕ
pick zero p q t = (255, t, p)
pick (suc zero) p q t = (q, 255, p)
pick (suc (suc zero)) p q t = (p, 255, t)
pick (suc (suc (suc zero))) p q t = (p, q, 255)
pick (suc (suc (suc (suc zero)))) p q t = (t, p, 255)
pick (suc (suc (suc (suc (suc n))))) p q t = (255, p, q)

-- The subtractions stay above 0 for bytes.
unfoldable pub hs_to_rgb : ℕ → ℕ → ℕ × ℕ × ℕ
hs_to_rgb h s =
    let region = h / 43 in
    let remainder = (h - region * 43) * 6 in
    if s == 0
    then (255, 255, 255)
    else pick region (level_p s) (level_q s remainder) (level_t s remainder)

unfoldable pub max3 : ℕ → ℕ → ℕ → ℕ
max3 r g b = let m = if leb r g then g else r in if leb m b then b else m

unfoldable pub min3 : ℕ → ℕ → ℕ → ℕ
min3 r g b = let m = if leb g r then g else r in if leb b m then b else m

-- `base + 43 * (x - y) / delta`, truncated towards 0 and taken modulo 256.
unfoldable pub hue : ℕ → ℕ → ℕ → ℕ → ℕ
hue base x y delta =
    if leb y x
    then (base + 43 * (x - y) / delta) % 256
    else (256 + base - 43 * (y - x) / delta) % 256

unfoldable pub rgb_to_hs : ℕ → ℕ → ℕ → ℕ × ℕ
rgb_to_hs r g b =
    let top = max3 r g b in
    let delta = top - min3 r g b in
    let s = delta * 255 / top % 256 in
    if top == 0 || delta == 0 then (0, 0) else (
      if r == top
          then hue 0 g b delta
          else if g == top
          then hue 85 b r delta
          else hue 171 r g delta,
      s,
    )

-- A level of the board survives the way to VIA's scale and back.
scale_255_to_15-scale_15_to_255 : (v : ℕ) → v ≤ 0x0f → scale_255_to_15 (scale_15_to_255 v) ≡ v
unfolding scale_255_to_15 scale_15_to_255
scale_255_to_15-scale_15_to_255 v h = ground arith

-- A level of VIA's scale comes back from the board within 8, and the board's level is in range.
pub scale_15_to_255-scale_255_to_15 :
    (v : ℕ)
    → v ≤ 255
    → let w = scale_15_to_255 (scale_255_to_15 v) in
      (scale_255_to_15 v ≤ 0x0f) × (w ≤ v + 8) × (v ≤ w + 8)
unfolding scale_255_to_15 scale_15_to_255
scale_15_to_255-scale_255_to_15 v h = (omega arith, ground arith, ground arith)

levels :
    (s remainder : ℕ)
    → s ≤ 255
    → remainder ≤ 255
    → (level_p s + s ≡ 255)
      × (level_p s ≤ level_q s remainder)
      × (level_q s remainder ≤ 255)
      × (level_p s ≤ level_t s remainder)
      × (level_t s remainder ≤ 255)
levels s remainder h k =
    let q : s * remainder ≤ s * 255 = mul-le-mul_left s k in
    let t : s * (255 - remainder) ≤ s * 255 = mul-le-mul_left s (omega arith) in
    (omega arith, omega arith, omega arith, omega arith, omega arith)

spread : (r g b s : ℕ) → max3 r g b ≡ 255 → min3 r g b + s ≡ 255 → 0 < s → (rgb_to_hs r g b).1 ≡ s
unfolding rgb_to_hs
spread r g b s m n k = rw (m, rgb_to_hs) (ground arith)

pick-spread :
    (n p q t s : ℕ)
    → p ≤ q
    → q ≤ 255
    → p ≤ t
    → t ≤ 255
    → p + s ≡ 255
    → 0 < s
    → let (r, g, b) = pick n p q t in (rgb_to_hs r g b).1 ≡ s
unfolding max3 min3
pick-spread zero p q t s a b c d e f = spread 255 t p s (ground arith) (ground arith) f
pick-spread (suc zero) p q t s a b c d e f = spread q 255 p s (ground arith) (ground arith) f
pick-spread (suc (suc zero)) p q t s a b c d e f = spread p 255 t s (ground arith) (ground arith) f
pick-spread (suc (suc (suc zero))) p q t s a b c d e f =
    spread p q 255 s (ground arith) (ground arith) f
pick-spread (suc (suc (suc (suc zero)))) p q t s a b c d e f =
    spread t p 255 s (ground arith) (ground arith) f
pick-spread (suc (suc (suc (suc (suc n))))) p q t s a b c d e f =
    spread 255 p q s (ground arith) (ground arith) f

white : (rgb_to_hs 255 255 255).1 ≡ 0
unfolding rgb_to_hs max3 min3
white = refl

-- A hue and a saturation, as bytes, become a colour whose saturation is read back exactly.
pub rgb_to_hs-hs_to_rgb :
    (h s : ℕ) → h ≤ 255 → s ≤ 255 → let (r, g, b) = hs_to_rgb h s in (rgb_to_hs r g b).1 ≡ s
unfolding hs_to_rgb rgb_to_hs
rgb_to_hs-hs_to_rgb h s a b = elim (Bool-cases (s == 0)) [
  | inl e ↦ let z : 0 ≡ s = ground arith in rw (e, hs_to_rgb) (white ∙ z)
  | inr e ↦
      let remainder = (h - h / 43 * 43) * 6 in
      let (p, q, q', t, t') = levels s remainder b (omega arith) in
      rw (e, hs_to_rgb)
        (pick-spread (h / 43) (level_p s) (level_q s remainder) (level_t s remainder) s q q' t t' p
          (ground arith))
]
