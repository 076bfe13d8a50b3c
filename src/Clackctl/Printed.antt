-- ===== src/Clackctl/Printed.antt =====
-- src/bin/clackctl: a keycode is read back from what is printed of it.
use clackd.Base.{
  ℕ, suc, ◌^◌, ◌<◌, ◌≡◌, refl, sym, ap, ◌∙◌, arith, Bool, true, List, [], ◌∷◌, some, none,
  get_elem?, ◌==◌, Bool-cases, inl, inr,
}
use clackd.Clackctl.Text.{
  Text, same, to_upper, to_lower, to_ascii_uppercase, is_whitespace, trim, trim_start, trim_end,
  strip_prefix, hex2, hex4,
}
use clackd.Clackctl.Keycodes.{
  Key, find, any, all, by_code, by_alias, by_norm, normalize, lookup, by_name, short_label,
}
use clackd.Clackctl.Parse.{ok, strip_0x, parse_unsigned, parse_u16, parse_key}
use clackd.Clackctl.Numbers.{trim-solid, hex4-IsSolid, from_str_radix-hex4}
use clackd.Clackctl.Names.{every, every-at, by_name-spelling}

-- No spelling of a key begins with `0x`.
hex4-unnamed : (n : ℕ) → lookup (hex4 n) ≡ none
unfolding lookup by_alias by_norm normalize find any to_upper to_lower strip_prefix hex4 hex2
hex4-unnamed n = refl

parse_u16-hex4 : (n : ℕ) → n < 2 ^ 16 → parse_u16 (hex4 n) ≡ ok n
unfolding parse_u16 parse_unsigned strip_0x hex4 strip_prefix
parse_u16-hex4 n h = rw (trim-solid (hex4 n) (hex4-IsSolid n), from_str_radix-hex4 n h) refl

-- The canonical names are in upper case and without blanks.
plain_names : every (λ k. same (to_ascii_uppercase (trim k.name)) k.name) all ≡ true
unfolding trim_start trim_end is_whitespace to_upper
plain_names = refl

pub same→eq : (s t : Text) → same s t ≡ true → s ≡ t
same→eq [] [] h = refl
same→eq [] (d ∷ ds) h = cc
same→eq (c ∷ cs) [] h = cc
same→eq (c ∷ cs) (d ∷ ds) h = ground (arith, same→eq cs ds)

pub found :
    (p : Key → Bool) (ks : List Key) (k : Key)
    → find p ks ≡ some k
    → (i : ℕ) × (get_elem? ks i ≡ some k) × (p k ≡ true)
unfolding find
found p [] k h = cc
found p (l ∷ ls) k h = elim (Bool-cases (p l)) [
  | inl b ↦ let e : some l ≡ some k = ground (arith, h, b) in (0, e, ground (arith, e, b))
  | inr b ↦ let (i, at, is) = found p ls k (ground (arith, h, b)) in (suc i, at, is)
]

named : (i : ℕ) (k : Key) → get_elem? all i ≡ some k → to_ascii_uppercase (trim k.name) ≡ k.name
named i k e =
    same→eq (to_ascii_uppercase (trim k.name)) k.name
      (every-at (λ k. same (to_ascii_uppercase (trim k.name)) k.name) all i k plain_names e)

by_name-name : (c : ℕ) (k : Key) → by_code c ≡ some k → by_name k.name ≡ some c
unfolding by_code
by_name-name c k e =
    let (i, at, is) = found (λ k. k.code == c) all k e in
    let code_is : k.code ≡ c = ground arith in
    (by_name-spelling i 0 k k.name at (ap (λ t. some t) (sym (named i k at)))).1
    ∙ ap (λ n. some n) code_is

parse_key-hex4 : (c : ℕ) → c < 2 ^ 16 → parse_key (hex4 c) ≡ ok c
unfolding parse_key by_name
parse_key-hex4 c h =
    let unnamed : by_name (hex4 c) ≡ none =
      ap lookup (trim-solid (hex4 c) (hex4-IsSolid c)) ∙ hex4-unnamed c in
    rw (unnamed, parse_u16-hex4 c h, parse_key) refl

-- Every keycode is read back from what is printed of it: from the name that `describe` prints of a
-- keycode with a name, and from the hexadecimal that is printed of any other.
pub parse_key-printed :
    (c : ℕ)
    → c < 2 ^ 16
    → ((k : Key) → by_code c ≡ some k → parse_key k.name ≡ ok c)
      × (by_code c ≡ none → (short_label c ≡ hex4 c) × (parse_key (short_label c) ≡ ok c))
unfolding parse_key short_label
parse_key-printed c h = (
  λ k e. rw (by_name-name c k e, parse_key) refl,
  λ e.
      let label : short_label c ≡ hex4 c = rw (e, short_label) refl in
      (label, ap parse_key label ∙ parse_key-hex4 c h),
)
