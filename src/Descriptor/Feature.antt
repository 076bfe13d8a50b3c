-- ===== src/Descriptor/Feature.antt =====
-- src/hal/legacy/gmk67.rs: the walk over a report descriptor for a feature report, against the
-- items that it has.
use clackd.Base.{
  ℕ, zero, suc, ◌+◌, ◌*◌, ◌/◌, ◌≤◌, ◌<◌, ◌≡◌, refl, ◌∙◌, List, Bool, true, false, some, arith, ltb,
  leb, ◌==◌, ◌&&◌, if◌then◌else◌, length, get_or, ◌⊎◌, inl, inr, Bool-cases,
}
use clackd.Descriptor.{data_len, count_of, scan_feature, descriptor_has_feature_report}
use clackd.Descriptor.Walk.{next, next-lt}

abbrev tag_at : List ℕ → ℕ → ℕ
tag_at d i = get_or d i 0 / 4 * 4

abbrev is_long : List ℕ → ℕ → Bool
is_long d i = get_or d i 0 == 0xfe

-- The report count behind the item at `i`.
unfoldable count_after : List ℕ → ℕ → ℕ → ℕ
count_after d i count =
    if is_long d i
    then count
    else if tag_at d i == 0x94
    then count_of d i (data_len (get_or d i 0))
    else count

-- The item at `i` is a feature report, of the last report count.
unfoldable is_feature : List ℕ → ℕ → Bool
is_feature d i = if is_long d i then false else tag_at d i == 0xb0

-- An item at `j`, where the report count is `c`, that the items from `i` on lead to.
data Counted (d : List ℕ) : ℕ → ℕ → ℕ → ℕ → Type 0 where
  here : {i count : ℕ} → Counted d i count i count
  behind :
      {i count j c : ℕ}
      → i < length d
      → Counted d (next d i) (count_after d i count) j c
      → Counted d i count j c

abbrev hit : List ℕ → ℕ → ℕ → ℕ → Bool
hit d min_count count i = is_feature d i && leb min_count count

Counted-le : (d : List ℕ) (i count j c : ℕ) → Counted d i count j c → i ≤ j
Counted-le d i count _ _ here = omega arith
Counted-le d i count j c (behind l f) =
    omega (arith, next-lt d i, Counted-le d (next d i) (count_after d i count) j c f)

scan_feature-end :
    (n : ℕ) (d : List ℕ) (m count i : ℕ)
    → length d ≤ i
    → scan_feature (suc n) d m count i ≡ some false
unfolding scan_feature
scan_feature-end n d m count i h = ground arith

scan_feature-found :
    (n : ℕ) (d : List ℕ) (m count i : ℕ)
    → i < length d
    → hit d m count i ≡ true
    → scan_feature (suc n) d m count i ≡ some true
unfolding scan_feature is_feature
scan_feature-found n d m count i l h = ground arith

scan_feature-pass :
    (n : ℕ) (d : List ℕ) (m count i : ℕ)
    → i < length d
    → hit d m count i ≡ false
    → (scan_feature (suc n) d m count i ≡ scan_feature n d m (count_after d i count) (next d i))
      ⊎ ((scan_feature (suc n) d m count i ≡ some false) × (length d ≤ next d i))
unfolding scan_feature is_feature count_after next
scan_feature-pass n d m count i l h = ground arith

scan_feature_sound :
    (n : ℕ) (d : List ℕ) (m count i : ℕ)
    → scan_feature n d m count i ≡ some true
    → (j : ℕ) × (c : ℕ) × Counted d i count j c × (j < length d) × (hit d m c j ≡ true)
unfolding scan_feature
scan_feature_sound zero d m count i h = cc
scan_feature_sound (suc n) d m count i h = elim (Bool-cases (ltb i (length d))) [
  | inr e ↦ absurd (ground (arith, scan_feature-end n d m count i))
  | inl e ↦
      let l : i < length d = ground arith in
      elim (Bool-cases (hit d m count i)) [
        | inl p ↦ (i, count, here, l, p)
        | inr p ↦ elim (scan_feature-pass n d m count i l p) [
          | inl k ↦
              let (j, c, f, b, q) =
                scan_feature_sound n d m (count_after d i count) (next d i) (ground arith) in
              (j, c, behind l f, b, q)
          | inr k ↦ absurd (ground arith)
        ]
      ]
]

scan_feature_complete :
    (n : ℕ) (d : List ℕ) (m count i j c : ℕ)
    → Counted d i count j c
    → length d < n + i
    → j < length d
    → hit d m c j ≡ true
    → scan_feature n d m count i ≡ some true
scan_feature_complete zero d m count i j c f b l p =
    absurd (omega (arith, Counted-le d i count j c f))
scan_feature_complete (suc n) d m count i _ _ here b l p = scan_feature-found n d m count i l p
scan_feature_complete (suc n) d m count i j c (behind k f) b l p =
    elim (Bool-cases (hit d m count i)) [
      | inl q ↦ scan_feature-found n d m count i k q
      | inr q ↦ elim (scan_feature-pass n d m count i k q) [
        | inl e ↦
            e
            ∙ scan_feature_complete n d m (count_after d i count) (next d i) j c f
                (omega (arith, next-lt d i)) l p
        | inr e ↦ absurd (omega (arith, Counted-le d (next d i) (count_after d i count) j c f, e.1))
      ]
    ]

scan_feature-total :
    (n : ℕ) (d : List ℕ) (m count i : ℕ)
    → length d ≤ n + i
    → (b : Bool) × (scan_feature (suc n) d m count i ≡ some b)
scan_feature-total zero d m count i h = (false, scan_feature-end zero d m count i (omega arith))
scan_feature-total (suc n) d m count i h = elim (Bool-cases (ltb i (length d))) [
  | inr e ↦ (false, scan_feature-end (suc n) d m count i (ground arith))
  | inl e ↦
      let l : i < length d = ground arith in
      elim (Bool-cases (hit d m count i)) [
        | inl q ↦ (true, scan_feature-found (suc n) d m count i l q)
        | inr q ↦ elim (scan_feature-pass (suc n) d m count i l q) [
          | inl k ↦
              let (b, r) =
                scan_feature-total n d m (count_after d i count) (next d i)
                  (omega (arith, next-lt d i)) in
              (b, k ∙ r)
          | inr k ↦ (false, k.0)
        ]
      ]
]

abbrev FindsFeature : List ℕ → ℕ → Type 0
FindsFeature d m =
    ((b : Bool) × (scan_feature (suc (length d)) d m 0 0 ≡ some b))
    × (descriptor_has_feature_report d m ≡ true
        → (j : ℕ) × (c : ℕ) × Counted d 0 0 j c × (j < length d) × (hit d m c j ≡ true))
    × ((j c : ℕ)
        → Counted d 0 0 j c
        → j < length d
        → hit d m c j ≡ true
        → descriptor_has_feature_report d m ≡ true)

-- The walk ends before the fuel does, and it finds a feature report exactly when one of the items that
-- follow one another from the start of the descriptor is one and the last report count before it is
-- large enough.
descriptor_has_feature_report_lem : (d : List ℕ) (m : ℕ) → FindsFeature d m
unfolding descriptor_has_feature_report
descriptor_has_feature_report_lem d m = (
  scan_feature-total (length d) d m 0 0 (omega arith),
  λ h. scan_feature_sound (suc (length d)) d m 0 0 (ground arith),
  λ j c f l p. rw (scan_feature_complete (suc (length d)) d m 0 0 j c f (omega arith) l p) refl,
)
