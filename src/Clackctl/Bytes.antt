-- ===== src/Clackctl/Bytes.antt =====
-- src/bin/clackctl/main.rs: bytes in hexadecimal, and the texts on which their parser panics.
use mathlib.Core.Path.{subst}
use clackd.Base.{
  ℕ, ◌+◌, ◌/◌, ◌%◌, ◌^◌, ◌<◌, ◌≡◌, ◌≢◌, refl, sym, ap, ◌∙◌, arith, true, false, List, [], ◌∷◌, ◌++◌,
  append-nil, some, none, Option, ◌==◌, Bool-cases, Option-cases, inl, inr,
}
use clackd.Clackctl.Text.{
  Text, codes, len, len_utf8, is_whitespace, trim, trim_start, trim_end, keep, strip_prefix,
  from_str_radix, nibble, hex2,
}
use clackd.Clackctl.Parse.{
  Parsed, ok, err, panicked, push, bad_byte, or_whole, strip_0x, hex_pairs, parse_hex_bytes,
}
use clackd.Clackctl.Numbers.{IsSolid, trim-solid, IsSolid-append, hex2-IsSolid, from_str_radix-hex2}

-- Bytes without anything between them.
abbrev pub hexes : List ℕ → Text
hexes [] = []
hexes (b ∷ bs) = hex2 b ++ hexes bs

abbrev AreBytes : List ℕ → Type 0
AreBytes [] = Unit {0}
AreBytes (b ∷ bs) = (b < 256) × AreBytes bs

hexes-IsSolid : (bs : List ℕ) → IsSolid (hexes bs)
hexes-IsSolid [] = tt
hexes-IsSolid (b ∷ bs) = IsSolid-append (hex2 b) (hexes bs) (hex2-IsSolid b) (hexes-IsSolid bs)

nibble-ascii : (n : ℕ) → n < 16 → len_utf8 (nibble n) ≡ 1
unfolding len_utf8
nibble-ascii n h = ground arith

len-hex2 : (n : ℕ) (s : Text) → len (hex2 n ++ s) ≡ 2 + len s
unfolding len hex2
len-hex2 n s =
    omega (arith, nibble-ascii (n / 16 % 16) (omega arith), nibble-ascii (n % 16) (omega arith))

len-hexes : (bs : List ℕ) (s : Text) → len (hexes bs ++ s) % 2 ≡ len s % 2
unfolding hex2
len-hexes [] s = refl
len-hexes (b ∷ bs) s = omega (arith, len-hex2 b (hexes bs ++ s), len-hexes bs s)

-- The pairs of bytes that are read come in front of what the rest gives.
abbrev prepend : List ℕ → Parsed (List ℕ) → Parsed (List ℕ)
prepend bs (ok cs) = ok (bs ++ cs)
prepend bs (err e) = err e
prepend bs panicked = panicked

prepend-nil : (r : Parsed (List ℕ)) → prepend [] r ≡ r
prepend-nil (ok bs) = refl
prepend-nil (err e) = refl
prepend-nil panicked = refl

push-prepend :
    (b : ℕ) (bs : List ℕ) (e : Text) (r : Parsed (List ℕ))
    → push (some b) e (prepend bs r) ≡ prepend (b ∷ bs) r
push-prepend b bs e (ok cs) = refl
push-prepend b bs e (err f) = refl
push-prepend b bs e panicked = refl

hex_pairs-hexes :
    (s : Text) (i : ℕ) (bs : List ℕ) (t : Text)
    → AreBytes bs
    → (j : ℕ) × (hex_pairs s i (hexes bs ++ t) ≡ prepend bs (hex_pairs s j t))
unfolding hex_pairs hex2
hex_pairs-hexes s i [] t h = (i, sym (prepend-nil (hex_pairs s i t)))
hex_pairs-hexes s i (b ∷ bs) t (h, hs) =
    let (j, e) = hex_pairs-hexes s (i + 2) bs t hs in
    (
      j,
      rw
          (
            nibble-ascii (b / 16 % 16) (omega arith),
            nibble-ascii (b % 16) (omega arith),
            from_str_radix-hex2 b h,
            e,
            hex_pairs,
          )
          (push-prepend b bs (bad_byte i s) (hex_pairs s j t)),
    )

-- A text of ASCII only.
abbrev IsAscii : Text → Type 0
IsAscii [] = Unit {0}
IsAscii (c ∷ cs) = (c < 0x80) × IsAscii cs

trim_start-IsAscii : (s : Text) → IsAscii s → IsAscii (trim_start s)
unfolding trim_start
trim_start-IsAscii [] h = tt
trim_start-IsAscii (c ∷ cs) (h, hs) = elim (Bool-cases (is_whitespace c)) [
  | inl b ↦ rw b (trim_start-IsAscii cs hs)
  | inr b ↦ rw b (h, hs)
]

keep-IsAscii : (c : ℕ) (s : Text) → c < 0x80 → IsAscii s → IsAscii (keep c s)
keep-IsAscii c [] h hs = elim (Bool-cases (is_whitespace c)) [
  | inl b ↦ rw b tt
  | inr b ↦ rw b (h, tt)
]
keep-IsAscii c (d ∷ ds) h hs = (h, hs)

trim_end-IsAscii : (s : Text) → IsAscii s → IsAscii (trim_end s)
unfolding trim_end
trim_end-IsAscii [] h = tt
trim_end-IsAscii (c ∷ cs) (h, hs) = keep-IsAscii c (trim_end cs) h (trim_end-IsAscii cs hs)

strip-IsAscii : (p s t : Text) → IsAscii s → strip_prefix p s ≡ some t → IsAscii t
unfolding strip_prefix
strip-IsAscii [] s t h e = let same_text : s ≡ t = ground (arith, e) in subst IsAscii same_text h
strip-IsAscii (p ∷ ps) [] t h e = cc
strip-IsAscii (p ∷ ps) (c ∷ cs) t (h, hs) e = elim (Bool-cases (p == c)) [
  | inl b ↦ strip-IsAscii ps cs t hs (ground (arith, b, e))
  | inr b ↦ ground (arith, b, e)
]

ascii_byte : (c : ℕ) → c < 0x80 → len_utf8 c ≡ 1
unfolding len_utf8
ascii_byte c h = ground arith

push-panicked :
    (o : Option ℕ) (e : Text) (r : Parsed (List ℕ)) → push o e r ≡ panicked → r ≡ panicked
push-panicked none e r h = cc
push-panicked (some b) e (ok bs) h = cc
push-panicked (some b) e (err f) h = cc
push-panicked (some b) e panicked h = refl

pairs-ascii : (s : Text) (i : ℕ) (t : Text) → IsAscii t → len t % 2 ≡ 0 → hex_pairs s i t ≢ panicked
unfolding hex_pairs len
pairs-ascii s i [] h k e = cc
pairs-ascii s i (c ∷ []) (h, hs) k e = omega (arith, ascii_byte c h, k)
pairs-ascii s i (c ∷ d ∷ ds) (h, (g, hs)) k e =
    let tail : push (from_str_radix 16 (2 ^ 8) (c ∷ d ∷ [])) (bad_byte i s) (hex_pairs s (i + 2) ds)
        ≡ panicked =
      ground (arith, ascii_byte c h, ascii_byte d g, e) in
    let even : len ds % 2 ≡ 0 = omega (arith, ascii_byte c h, ascii_byte d g, k) in
    pairs-ascii s (i + 2) ds hs even (
      push-panicked (from_str_radix 16 (2 ^ 8) (c ∷ d ∷ [])) (bad_byte i s) (hex_pairs s (i + 2) ds)
        tail)

or_whole-IsAscii :
    (s : Text) (o : Option Text)
    → IsAscii s
    → ((t : Text) → o ≡ some t → IsAscii t)
    → IsAscii (or_whole s o)
or_whole-IsAscii s none h k = h
or_whole-IsAscii s (some t) h k = k t refl

strip_0x-IsAscii : (s t : Text) → IsAscii s → strip_0x s ≡ some t → IsAscii t
unfolding strip_0x
strip_0x-IsAscii s t h e = elim (Option-cases (strip_prefix (codes "0x") s)) [
  | inr (u, q) ↦ strip-IsAscii (codes "0x") s t h (ground (arith, q, e))
  | inl q ↦ strip-IsAscii (codes "0X") s t h (ground (arith, q, e))
]

-- A text of ASCII characters is read or refused, without a panic.
parse_hex_bytes-ascii : (s : Text) → IsAscii s → parse_hex_bytes s ≢ panicked
unfolding parse_hex_bytes
parse_hex_bytes-ascii s h e =
    let t = trim s in
    let hex = or_whole t (strip_0x t) in
    let t_is = trim_end-IsAscii (trim_start s) (trim_start-IsAscii s h) in
    let hex_is = or_whole-IsAscii t (strip_0x t) t_is (λ u q. strip_0x-IsAscii t u t_is q) in
    elim (Bool-cases (len hex % 2 == 0)) [
      | inl b ↦ pairs-ascii t 0 hex hex_is (ground arith) (ground (arith, b, e))
      | inr b ↦ ground (arith, b, e)
    ]

nibble-digit : (n : ℕ) → n < 16 → ((b'x' == nibble n) ≡ false) × ((b'X' == nibble n) ≡ false)
nibble-digit n h = (ground arith, ground arith)

strip_0x-hexes : (bs : List ℕ) → strip_0x (hexes bs) ≡ none
unfolding strip_0x strip_prefix hex2
strip_0x-hexes [] = refl
strip_0x-hexes (b ∷ bs) =
    ground (arith, nibble-digit (b % 16) (omega arith), nibble-digit (b / 16 % 16) (omega arith))

-- What is behind the prefix is read in pairs.
prefixed :
    (t : Text)
    → IsSolid t
    → len t % 2 ≡ 0
    → parse_hex_bytes (codes "0x" ++ t) ≡ hex_pairs (codes "0x" ++ t) 0 t
unfolding parse_hex_bytes strip_0x strip_prefix is_whitespace
prefixed t h k =
    let even : (len t % 2 == 0) ≡ true = ground arith in
    rw (trim-solid (codes "0x" ++ t) (refl, (refl, h)), even, parse_hex_bytes) refl

unprefixed :
    (t : Text) → IsSolid t → strip_0x t ≡ none → len t % 2 ≡ 0 → parse_hex_bytes t ≡ hex_pairs t 0 t
unfolding parse_hex_bytes
unprefixed t h none_is k =
    let even : (len t % 2 == 0) ≡ true = ground arith in
    rw (trim-solid t h, none_is, even, parse_hex_bytes) refl

len-even : (bs : List ℕ) → len (hexes bs) % 2 ≡ 0
unfolding len
len-even bs = ap (λ t. len t % 2) (sym (append-nil (hexes bs))) ∙ (len-hexes bs [] ∙ omega arith)

hex_pairs-all : (s : Text) (i : ℕ) (bs : List ℕ) → AreBytes bs → hex_pairs s i (hexes bs) ≡ ok bs
unfolding hex_pairs
hex_pairs-all s i bs h =
    ap (hex_pairs s i) (sym (append-nil (hexes bs)))
    ∙ ((hex_pairs-hexes s i bs [] h).1 ∙ ap (λ cs. ok cs) (append-nil bs))

hex_pairs-inside : (s : Text) (i c d : ℕ) → len_utf8 c ≡ 3 → hex_pairs s i (c ∷ d ∷ []) ≡ panicked
unfolding hex_pairs
hex_pairs-inside s i c d three = ground (arith, three)

-- Bytes in hexadecimal are read back, with the prefix or without.
parse_hex_bytes-hexes :
    (bs : List ℕ)
    → AreBytes bs
    → (parse_hex_bytes (hexes bs) ≡ ok bs) × (parse_hex_bytes (codes "0x" ++ hexes bs) ≡ ok bs)
parse_hex_bytes-hexes bs h = (
  unprefixed (hexes bs) (hexes-IsSolid bs) (strip_0x-hexes bs) (len-even bs)
      ∙ hex_pairs-all (hexes bs) 0 bs h,
  prefixed (hexes bs) (hexes-IsSolid bs) (len-even bs)
      ∙ hex_pairs-all (codes "0x" ++ hexes bs) 0 bs h,
)

-- When, behind `0x`, bytes in hexadecimal are followed by a character of three bytes and one of ASCII,
-- neither of them white space, the parser panics: its slice ends inside the character.
pub parse_hex_bytes-panics :
    (bs : List ℕ) (c d : ℕ)
    → AreBytes bs
    → len_utf8 c ≡ 3
    → d < 0x80
    → is_whitespace c ≡ false
    → is_whitespace d ≡ false
    → parse_hex_bytes (codes "0x" ++ (hexes bs ++ (c ∷ d ∷ []))) ≡ panicked
unfolding len
parse_hex_bytes-panics bs c d h three one c_is d_is =
    let t = hexes bs ++ (c ∷ d ∷ []) in
    let solid = IsSolid-append (hexes bs) (c ∷ d ∷ []) (hexes-IsSolid bs) (c_is, (d_is, tt)) in
    let even : len t % 2 ≡ 0 = omega (arith, len-hexes bs (c ∷ d ∷ []), three, ascii_byte d one) in
    let (j, e) = hex_pairs-hexes (codes "0x" ++ t) 0 bs (c ∷ d ∷ []) h in
    prefixed t solid even ∙ (e ∙ ap (prepend bs) (hex_pairs-inside (codes "0x" ++ t) j c d three))
