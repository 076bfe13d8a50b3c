-- ===== src/Clackctl/Numbers.antt =====
-- src/bin/clackctl: the numbers that are printed are read back, and what is read is in range.
use clackd.Base.{
  ℕ, ◌+◌, ◌*◌, ◌/◌, ◌%◌, ◌^◌, ◌<◌, ◌≡◌, refl, sym, ap, ◌∙◌, arith, true, false, [], ◌∷◌, ◌++◌, some,
  ltb, ltb→lt, ◌==◌, if◌then◌else◌, Bool-cases, Option-cases, inl, inr,
}
use clackd.Clackctl.Text.{
  Text, is_whitespace, trim, trim_start, trim_end, to_digit, digits, from_str_radix, nibble, hex2,
  hex4,
}

-- A text without a blank.
abbrev pub IsSolid : Text → Type 0
IsSolid [] = Unit {0}
IsSolid (c ∷ cs) = (is_whitespace c ≡ false) × IsSolid cs

trim_end-solid : (s : Text) → IsSolid s → trim_end s ≡ s
unfolding trim_end
trim_end-solid [] h = refl
trim_end-solid (c ∷ []) (h, t) = rw h refl
trim_end-solid (c ∷ d ∷ ds) (h, t) = rw (trim_end-solid (d ∷ ds) t) refl

pub trim-solid : (s : Text) → IsSolid s → trim s ≡ s
unfolding trim_start
trim-solid [] h = trim_end-solid [] h
trim-solid (c ∷ cs) (h, t) = rw h (trim_end-solid (c ∷ cs) (h, t))

pub IsSolid-append : (s t : Text) → IsSolid s → IsSolid t → IsSolid (s ++ t)
IsSolid-append [] t h k = k
IsSolid-append (c ∷ cs) t (h, hs) k = (h, IsSolid-append cs t hs k)

nibble-solid : (n : ℕ) → n < 16 → is_whitespace (nibble n) ≡ false
unfolding is_whitespace
nibble-solid n h = ground arith

to_digit-nibble : (n : ℕ) → n < 16 → to_digit 16 (nibble n) ≡ some n
unfolding to_digit
to_digit-nibble n h = ground arith

pub digits-step :
    (radix limit acc c d : ℕ) (s : Text)
    → to_digit radix c ≡ some d
    → acc * radix + d < limit
    → digits radix limit acc (c ∷ s) ≡ digits radix limit (acc * radix + d) s
unfolding digits
digits-step radix limit acc c d s e h =
    let below : ltb (acc * radix + d) limit ≡ true = ground arith in rw (e, below, digits) refl

-- A text that does not begin with a `+` is its digits.
pub from_str_radix-plain :
    (radix limit c : ℕ) (s : Text)
    → (c == b'+') ≡ false
    → from_str_radix radix limit (c ∷ s) ≡ digits radix limit 0 (c ∷ s)
unfolding from_str_radix
from_str_radix-plain radix limit c [] h = refl
from_str_radix-plain radix limit c (d ∷ ds) h = rw (h, from_str_radix) refl

nibble-plain : (n : ℕ) → (nibble n == b'+') ≡ false
nibble-plain n = ground arith

-- A byte in two digits, in front of other digits.
digits-hex2 :
    (limit acc n : ℕ) (s : Text)
    → n < 256
    → acc * 256 + n < limit
    → digits 16 limit acc (hex2 n ++ s) ≡ digits 16 limit (acc * 256 + n) s
unfolding hex2
digits-hex2 limit acc n s h room =
    let value : (acc * 16 + n / 16 % 16) * 16 + n % 16 ≡ acc * 256 + n = omega arith in
    digits-step 16 limit acc (nibble (n / 16 % 16)) (n / 16 % 16) (nibble (n % 16) ∷ s)
      (to_digit-nibble (n / 16 % 16) (omega arith)) (omega arith)
    ∙ (digits-step 16 limit (acc * 16 + n / 16 % 16) (nibble (n % 16)) (n % 16) s
          (to_digit-nibble (n % 16) (omega arith)) (omega arith)
        ∙ ap (λ v. digits 16 limit v s) value)

pub hex2-IsSolid : (n : ℕ) → IsSolid (hex2 n)
unfolding hex2
hex2-IsSolid n =
    (nibble-solid (n / 16 % 16) (omega arith), (nibble-solid (n % 16) (omega arith), tt))

pub hex4-IsSolid : (n : ℕ) → IsSolid (hex4 n)
unfolding hex4 is_whitespace
hex4-IsSolid n =
    let zero_is : is_whitespace b'0' ≡ false = refl in
    let x_is : is_whitespace b'x' ≡ false = refl in
    (
      zero_is,
      (
        x_is,
        IsSolid-append (hex2 (n / 256)) (hex2 (n % 256)) (hex2-IsSolid (n / 256))
            (hex2-IsSolid (n % 256)),
      ),
    )

pub from_str_radix-hex2 : (n : ℕ) → n < 256 → from_str_radix 16 (2 ^ 8) (hex2 n) ≡ some n
unfolding hex2 digits
from_str_radix-hex2 n h =
    let value : 0 * 256 + n ≡ n = omega arith in
    from_str_radix-plain 16 256 (nibble (n / 16 % 16)) (nibble (n % 16) ∷ [])
      (nibble-plain (n / 16 % 16))
    ∙ (digits-hex2 256 0 n [] h (omega arith) ∙ ap (λ v. some v) value)

pub from_str_radix-hex4 :
    (n : ℕ) → n < 2 ^ 16 → from_str_radix 16 (2 ^ 16) (hex2 (n / 256) ++ hex2 (n % 256)) ≡ some n
unfolding hex2 digits
from_str_radix-hex4 n h =
    let high = n / 256 in
    let value : (0 * 256 + high) * 256 + n % 256 ≡ n = omega arith in
    from_str_radix-plain 16 (2 ^ 16) (nibble (high / 16 % 16)) (nibble (high % 16) ∷ hex2 (n % 256))
      (nibble-plain (high / 16 % 16))
    ∙ (digits-hex2 (2 ^ 16) 0 high (hex2 (n % 256)) (omega arith) (omega arith)
        ∙ (digits-hex2 (2 ^ 16) (0 * 256 + high) (n % 256) [] (omega arith) (omega arith)
            ∙ ap (λ v. some v) value))

-- What is read is below the limit.
digits-bound :
    (radix limit acc : ℕ) (s : Text) (v : ℕ)
    → acc < limit
    → digits radix limit acc s ≡ some v
    → v < limit
unfolding digits
digits-bound radix limit acc [] v h e = ground (arith, e)
digits-bound radix limit acc (c ∷ cs) v h e = elim (Option-cases (to_digit radix c)) [
  | inl q ↦ ground (arith, q, e)
  | inr (d, q) ↦ elim (Bool-cases (ltb (acc * radix + d) limit)) [
    | inr b ↦ ground (arith, q, b, e)
    | inl b ↦
        let room : acc * radix + d < limit = ltb→lt (acc * radix + d) limit b in
        digits-bound radix limit (acc * radix + d) cs v room
          (sym (digits-step radix limit acc c d cs q room) ∙ e)
  ]
]

pub from_str_radix-bound :
    (radix limit : ℕ) (s : Text) (v : ℕ)
    → 0 < limit
    → from_str_radix radix limit s ≡ some v
    → v < limit
unfolding from_str_radix
from_str_radix-bound radix limit [] v h e = cc
from_str_radix-bound radix limit (c ∷ []) v h e = digits-bound radix limit 0 (c ∷ []) v h e
from_str_radix-bound radix limit (c ∷ d ∷ ds) v h e =
    digits-bound radix limit 0 (if c == b'+' then d ∷ ds else c ∷ d ∷ ds) v h e
