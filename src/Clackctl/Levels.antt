-- ===== src/Clackctl/Levels.antt =====
-- src/bin/clackctl/main.rs: a level in percent is read and printed back.
use native.Mathlib.Numerals.{unary_clauses}
use mathlib.Core.Path.{subst}
use clackd.Base.{
  ℕ, zero, suc, ◌+◌, ◌*◌, ◌/◌, ◌%◌, ◌^◌, ◌≤◌, ◌<◌, ◌≡◌, refl, sym, ap, ◌∙◌, arith, true, false, [],
  ◌∷◌, ◌++◌, append_assoc, append-nil, some, ltb, ltb→lt, ◌==◌, Bool-cases, inl, inr,
}
use clackd.Clackctl.Text.{
  Text, codes, is_whitespace, strip_suffix, to_digit, digits, from_str_radix, decimal,
  decimal_digits,
}
use clackd.Clackctl.Parse.{ok, err, parse_level, parse_percent, percent}
use clackd.Clackctl.Numbers.{IsSolid, trim-solid, IsSolid-append, digits-step, from_str_radix-plain}

abbrev IsDigits : Text → Type 0
IsDigits [] = Unit {0}
IsDigits (c ∷ cs) = (b'0' ≤ c) × (c ≤ b'9') × IsDigits cs

IsDigits-append : (s t : Text) → IsDigits s → IsDigits t → IsDigits (s ++ t)
IsDigits-append [] t h k = k
IsDigits-append (c ∷ cs) t (low, high, hs) k = (low, high, IsDigits-append cs t hs k)

digits-IsSolid : (s : Text) → IsDigits s → IsSolid s
unfolding is_whitespace
digits-IsSolid [] h = tt
digits-IsSolid (c ∷ cs) (low, high, hs) = (ground arith, digits-IsSolid cs hs)

decimal_digits-IsDigits : (fuel n : ℕ) → IsDigits (decimal_digits fuel n)
unfolding decimal_digits
decimal_digits-IsDigits zero n = tt
decimal_digits-IsDigits (suc fuel) n =
    let units : IsDigits ((b'0' + n % 10) ∷ []) = (omega arith, omega arith, tt) in
    elim (Bool-cases (ltb n 10)) [
      | inl b ↦ rw b units
      | inr b ↦ rw b (
          IsDigits-append (decimal_digits fuel (n / 10)) ((b'0' + n % 10) ∷ [])
            (decimal_digits-IsDigits fuel (n / 10)) units)
    ]

pow-suc : (f : ℕ) → 10 ^ suc f ≡ 10 ^ f * 10
pow-suc f = simp unary_clauses

to_digit-decimal : (n : ℕ) → n < 10 → to_digit 10 (b'0' + n) ≡ some n
unfolding to_digit
to_digit-decimal n h = ground arith

digits-decimal :
    (limit fuel n : ℕ) (s : Text)
    → n < limit
    → n < 10 ^ fuel
    → digits 10 limit 0 (decimal_digits fuel n ++ s) ≡ digits 10 limit n s
unfolding decimal_digits
digits-decimal limit zero n s h k = let e : 0 ≡ n = omega arith in ap (λ m. digits 10 limit m s) e
digits-decimal limit (suc fuel) n s h k = elim (Bool-cases (ltb n 10)) [
  | inl b ↦
      let small = ltb→lt n 10 b in
      let value : 0 * 10 + n % 10 ≡ n = omega arith in
      rw b (
        digits-step 10 limit 0 (b'0' + n % 10) (n % 10) s (to_digit-decimal (n % 10) (omega arith))
          (omega arith)
        ∙ ap (λ m. digits 10 limit m s) value)
  | inr b ↦
      let units = (b'0' + n % 10) ∷ [] in
      let value : n / 10 * 10 + n % 10 ≡ n = omega arith in
      let fits : n / 10 < 10 ^ fuel = omega (arith, pow-suc fuel) in
      rw b (
        ap (digits 10 limit 0) (append_assoc (decimal_digits fuel (n / 10)) units s)
        ∙ (digits-decimal limit fuel (n / 10) (units ++ s) (omega arith) fits
            ∙ (digits-step 10 limit (n / 10) (b'0' + n % 10) (n % 10) s
                  (to_digit-decimal (n % 10) (omega arith)) (omega arith)
                ∙ ap (λ m. digits 10 limit m s) value)))
]

strip_suffix-append : (c : ℕ) (s : Text) → strip_suffix c (s ++ (c ∷ [])) ≡ some s
unfolding strip_suffix
strip_suffix-append c [] = ground arith
strip_suffix-append c (d ∷ []) = ground arith
strip_suffix-append c (d ∷ e ∷ es) = rw (strip_suffix-append c (e ∷ es)) refl

snoc : (s : Text) (d : ℕ) → (c : ℕ) × (cs : Text) × (s ++ (d ∷ []) ≡ c ∷ cs)
snoc [] d = (d, [], refl)
snoc (c ∷ cs) d = (c, cs ++ (d ∷ []), refl)

nonempty : (fuel n : ℕ) → (c : ℕ) × (cs : Text) × (decimal_digits (suc fuel) n ≡ c ∷ cs)
unfolding decimal_digits
nonempty fuel n = elim (Bool-cases (ltb n 10)) [
  | inl b ↦ rw b (b'0' + n % 10, [], refl)
  | inr b ↦ rw b (snoc (decimal_digits fuel (n / 10)) (b'0' + n % 10))
]

from_str_radix-decimal :
    (limit n : ℕ) → n < limit → n < 10 ^ 20 → from_str_radix 10 limit (decimal n) ≡ some n
unfolding decimal digits
from_str_radix-decimal limit n h k =
    let (c, cs, e) = nonempty 19 n in
    let is : IsDigits (c ∷ cs) = subst IsDigits e (decimal_digits-IsDigits 20 n) in
    let plain : (c == b'+') ≡ false = ground arith in
    ap (from_str_radix 10 limit) e
    ∙ (from_str_radix-plain 10 limit c cs plain
        ∙ (ap (digits 10 limit 0) (sym e)
            ∙ (ap (digits 10 limit 0) (sym (append-nil (decimal n)))
                ∙ digits-decimal limit 20 n [] h k)))

abbrev pub percentage : ℕ → Text
percentage p = decimal p ++ codes "%"

decimal-IsSolid : (n : ℕ) → IsSolid (decimal n)
unfolding decimal
decimal-IsSolid n = digits-IsSolid (decimal n) (decimal_digits-IsDigits 20 n)

percentage-IsSolid : (p : ℕ) → IsSolid (percentage p)
unfolding is_whitespace
percentage-IsSolid p = IsSolid-append (decimal p) (codes "%") (decimal-IsSolid p) (refl, tt)

parse_percent-decimal :
    (s : Text) (p : ℕ) → p ≤ 100 → parse_percent s (decimal p) ≡ ok ((p * 255 + 50) / 100)
unfolding parse_percent
parse_percent-decimal s p h =
    let read = from_str_radix-decimal (2 ^ 16) p (omega arith) (omega arith) in
    let inside : ltb 100 p ≡ false = ground arith in
    let byte : (p * 255 + 50) / 100 % 256 ≡ (p * 255 + 50) / 100 = omega arith in
    rw (trim-solid (decimal p) (decimal-IsSolid p), read, inside, byte, parse_percent) refl

parse_percent-large :
    (s : Text) (p : ℕ) → 100 < p → p < 2 ^ 16 → (m : Text) × (parse_percent s (decimal p) ≡ err m)
unfolding parse_percent
parse_percent-large s p h k =
    let read = from_str_radix-decimal (2 ^ 16) p k (omega arith) in
    let outside : ltb 100 p ≡ true = ground arith in
    rw (trim-solid (decimal p) (decimal-IsSolid p), read, outside, parse_percent) (_, refl)

parse_level-percent_sign :
    (p : ℕ) → parse_level (percentage p) ≡ parse_percent (percentage p) (decimal p)
unfolding parse_level
parse_level-percent_sign p =
    rw
      (
        trim-solid (percentage p) (percentage-IsSolid p),
        strip_suffix-append b'%' (decimal p),
        parse_level,
      )
      (ap (λ t. parse_percent t (decimal p)) (trim-solid (percentage p) (percentage-IsSolid p)))

-- A percentage of at most 100 is read as the level that is closest to it, and that level is printed as
-- the same percentage; a larger one, as far as it is a number of 16 bits, is refused with an error.
pub parse_level-percent :
    (p : ℕ)
    → p < 2 ^ 16
    → let v = (p * 255 + 50) / 100 in
      (p ≤ 100
        → (v * 100 ≤ p * 255 + 50)
          × (p * 255 ≤ v * 100 + 50)
          × (v < 256)
          × (parse_level (percentage p) ≡ ok v)
          × (percent v ≡ percentage p))
      × (100 < p → (m : Text) × (parse_level (percentage p) ≡ err m))
unfolding percent
parse_level-percent p k =
    let v = (p * 255 + 50) / 100 in
    let read = parse_level-percent_sign p in
    (
      λ h.
          let back : (v * 100 + 127) / 255 ≡ p = omega arith in
          (
            omega arith,
            omega arith,
            omega arith,
            read ∙ parse_percent-decimal (percentage p) p h,
            ap percentage back,
          ),
      λ h. let (m, e) = parse_percent-large (percentage p) p h k in (m, read ∙ e),
    )
