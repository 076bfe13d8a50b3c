-- ===== src/Clackctl/Names.antt =====
-- src/bin/clackctl/keycodes.rs: which spellings a key has, and how codes are found.
use clackd.Base.{
  ℕ, ◌<◌, ◌≡◌, refl, sym, ap, ◌∙◌, arith, Bool, true, false, List, [], ◌∷◌, map, drop, some, none,
  Option, get_elem?, zero, suc, ltb, ◌==◌, ◌&&◌,
}
use clackd.Clackctl.Text.{
  Text, same, to_upper, to_lower, to_ascii_uppercase, to_ascii_lowercase, replace, strip_prefix,
  trim,
}
use clackd.Clackctl.Keycodes.{
  Key, find, any, all, by_alias, by_norm, normalize, lookup, by_name, by_code,
}

abbrev pub every {ℓ} : {A : Type ℓ} → (A → Bool) → List A → Bool
every p [] = true
every p (x ∷ xs) = p x && every p xs

abbrev names : Key → Option ℕ → Bool
names k none = false
names k (some c) = c == k.code

-- The spellings of a key in upper case: its name and its name without the prefix, each also with
-- dashes, and its aliases.
abbrev spellings : Key → List Text
spellings k =
    let bare = drop 3 k.name in
    k.name
    ∷ bare
    ∷ replace b'_' b'-' k.name
    ∷ replace b'_' b'-' bare
    ∷ map to_ascii_uppercase k.aliases

every_spelling : every (λ k. every (λ t. names k (lookup t)) (spellings k)) all ≡ true
unfolding lookup by_alias by_norm normalize find any to_upper to_lower strip_prefix
every_spelling = refl

-- The codes ascend.
abbrev ascending : List Key → Bool
ascending [] = true
ascending (k ∷ []) = true
ascending (k ∷ l ∷ ks) = ltb k.code l.code && ascending (l ∷ ks)

all-ascending : ascending all ≡ true
all-ascending = refl

pub every-at {ℓ} :
    {A : Type ℓ} (p : A → Bool) (xs : List A) (i : ℕ) (x : A)
    → every p xs ≡ true
    → get_elem? xs i ≡ some x
    → p x ≡ true
every-at p [] i x h e = cc
every-at p (y ∷ ys) zero x h e = ground (arith, e)
every-at p (y ∷ ys) (suc i) x h e = every-at p ys i x (ground arith) e

lower-upper : (s : Text) → to_ascii_lowercase (to_ascii_uppercase s) ≡ to_ascii_lowercase s
unfolding to_lower to_upper
lower-upper [] = refl
lower-upper (c ∷ cs) = ground (arith, lower-upper cs)

upper-upper : (s : Text) → to_ascii_uppercase (to_ascii_uppercase s) ≡ to_ascii_uppercase s
unfolding to_upper
upper-upper [] = refl
upper-upper (c ∷ cs) = ground (arith, upper-upper cs)

by_alias-upper : (raw : Text) → by_alias (to_ascii_uppercase raw) ≡ by_alias raw
unfolding by_alias
by_alias-upper raw =
    ap (λ t. find (λ k. any (λ a. same (to_ascii_lowercase a) t) k.aliases) all) (lower-upper raw)

normalize-upper : (raw : Text) → normalize (to_ascii_uppercase raw) ≡ normalize raw
unfolding normalize
normalize-upper raw = rw (upper-upper raw, normalize) refl

lookup-upper : (raw : Text) → lookup (to_ascii_uppercase raw) ≡ lookup raw
unfolding lookup
lookup-upper raw = rw (by_alias-upper raw, normalize-upper raw) refl

named : (k : Key) (o : Option ℕ) → names k o ≡ true → o ≡ some k.code
named k none h = cc
named k (some c) h = ground arith

ascends :
    (k l : Key) (ks : List Key) (i : ℕ)
    → ascending (k ∷ ks) ≡ true
    → get_elem? ks i ≡ some l
    → k.code < l.code
ascends k l [] i h e = cc
ascends k l (m ∷ ms) zero h e = ground (arith, e)
ascends k l (m ∷ ms) (suc i) h e = ground (arith, ascends m l ms i (ground arith) e)

rest_ascends : (k : Key) (ks : List Key) → ascending (k ∷ ks) ≡ true → ascending ks ≡ true
rest_ascends k [] h = refl
rest_ascends k (l ∷ ls) h = ground arith

finds :
    (ks : List Key) (i : ℕ) (k : Key)
    → ascending ks ≡ true
    → get_elem? ks i ≡ some k
    → find (λ l. l.code == k.code) ks ≡ some k
unfolding find
finds [] i k h e = cc
finds (l ∷ ls) zero k h e = ground (arith, e)
finds (l ∷ ls) (suc i) k h e =
    let rest = finds ls i k (rest_ascends l ls h) e in
    let below = ascends l k ls i h e in ground (arith, rest)

-- The table is read both ways: the code of each of its keys finds the key, and so does every text that
-- spells it, within blanks and in upper or lower case: its name or its name without the prefix, with
-- underscores or dashes, or one of its aliases.
pub by_name-spelling :
    (i j : ℕ) (k : Key) (s : Text)
    → get_elem? all i ≡ some k
    → get_elem? (spellings k) j ≡ some (to_ascii_uppercase (trim s))
    → (by_code k.code ≡ some k) × (by_name s ≡ some k.code)
unfolding by_name by_code
by_name-spelling i j k s e t = (
  finds all i k all-ascending e,
  sym (lookup-upper (trim s))
      ∙ named k (lookup (to_ascii_uppercase (trim s))) (
          every-at (λ t. names k (lookup t)) (spellings k) j (to_ascii_uppercase (trim s))
            (every-at (λ k. every (λ t. names k (lookup t)) (spellings k)) all i k every_spelling e)
            t),
)
