-- ===== src/Gmk67/Frames.antt =====
-- src/hal/legacy/gmk67.rs: what the frames carry.
use clackd.Base.{
  ℕ, zero, suc, ◌+◌, ◌*◌, ◌/◌, ◌%◌, ◌<◌, ◌≡◌, refl, ap, ◌∙◌, List, [], ◌∷◌, Bool, true, false, not,
  Option, none, some, arith, length, get_or, set, replicate, ltb, ◌==◌, if◌then◌else◌, length-set,
  Bool-cases, inl, inr,
}
use clackd.Gmk67.{
  Lighting, from_bytes, to_bytes, byte, put_entries, encode_keydef_buffer, key_def_entry_marker,
}

-- The four bytes of an entry: the keycode where the marker stands.
abbrev pub entry_at : List ℕ → ℕ → Option ℕ
entry_at buf o =
    if get_or buf o 0 == key_def_entry_marker
    then some (get_or buf (o + 2) 0 + get_or buf (o + 3) 0 * 256)
    else none

-- The last entry of a key.
abbrev pub latest : ℕ → List (ℕ × ℕ) → Option ℕ
latest ki [] = none
latest ki ((k, kc) ∷ es) = elim (latest ki es) [
  | some x ↦ some x
  | none ↦ if k == ki then some kc else none
]

abbrev or_else : Option ℕ → Option ℕ → Option ℕ
or_else (some x) o = some x
or_else none o = o

get_or-set :
    (xs : List ℕ) (i v j d : ℕ)
    → i < length xs
    → get_or (set xs i v) j d ≡ (if i == j then v else get_or xs j d)
get_or-set [] i v j d h = elim h [ ]
get_or-set (x ∷ xs) zero v zero d h = refl
get_or-set (x ∷ xs) zero v (suc j) d h = ground arith
get_or-set (x ∷ xs) (suc i) v zero d h = ground arith
get_or-set (x ∷ xs) (suc i) v (suc j) d h = ground (arith, get_or-set xs i v j d (omega arith))

abbrev put_entry : ℕ → ℕ → List ℕ → List ℕ
put_entry o kc buf =
    set (set (set buf o key_def_entry_marker) (o + 2) (kc % 256)) (o + 3) (kc / 256)

length-put_entry : (o kc : ℕ) (buf : List ℕ) → length (put_entry o kc buf) ≡ length buf
length-put_entry o kc buf = omega (
  arith,
  length-set (set (set buf o key_def_entry_marker) (o + 2) (kc % 256)) (o + 3) (kc / 256),
  length-set (set buf o key_def_entry_marker) (o + 2) (kc % 256),
  length-set buf o key_def_entry_marker,
)

get_or-put_entry :
    (o kc j : ℕ) (buf : List ℕ)
    → o + 3 < length buf
    → get_or (put_entry o kc buf) j 0 ≡ (
        if o == j
        then key_def_entry_marker
        else if o + 2 == j
        then kc % 256
        else if o + 3 == j
        then kc / 256
        else get_or buf j 0)
get_or-put_entry o kc j buf h =
    let a = set buf o key_def_entry_marker in
    let b = set a (o + 2) (kc % 256) in
    let la : length a ≡ length buf = length-set buf o key_def_entry_marker in
    let lb : length b ≡ length a = length-set a (o + 2) (kc % 256) in
    ground (
      arith,
      get_or-set b (o + 3) (kc / 256) j 0 (omega arith),
      get_or-set a (o + 2) (kc % 256) j 0 (omega arith),
      get_or-set buf o key_def_entry_marker j 0 (omega arith),
    )

entry_at-put_entry :
    (k ki kc : ℕ) (buf : List ℕ)
    → k * 4 + 3 < length buf
    → entry_at (put_entry (k * 4) kc buf) (ki * 4)
      ≡ (if k == ki then some kc else entry_at buf (ki * 4))
entry_at-put_entry k ki kc buf h = ground (
  arith,
  get_or-put_entry (k * 4) kc (ki * 4) buf h,
  get_or-put_entry (k * 4) kc (ki * 4 + 2) buf h,
  get_or-put_entry (k * 4) kc (ki * 4 + 3) buf h,
)

put_entries-entry :
    (es : List (ℕ × ℕ)) (buf : List ℕ) (ki : ℕ)
    → length buf ≡ 576
    → ki < 144
    → entry_at (put_entries es buf) (ki * 4) ≡ or_else (latest ki es) (entry_at buf (ki * 4))
unfolding put_entries
put_entries-entry [] buf ki l h = refl
put_entries-entry ((k, kc) ∷ es) buf ki l h = elim (Bool-cases (ltb (k * 4 + 3) 576)) [
  | inl e ↦
      rw (e, put_entries)
        (put_entries-entry es (put_entry (k * 4) kc buf) ki (length-put_entry (k * 4) kc buf ∙ l) h
          ∙ ground (arith, entry_at-put_entry k ki kc buf (ground arith)))
  | inr e ↦ rw (e, put_entries) (put_entries-entry es buf ki l h ∙ ground arith)
]

length-put_entries : (es : List (ℕ × ℕ)) (buf : List ℕ) → length (put_entries es buf) ≡ length buf
unfolding put_entries
length-put_entries [] buf = refl
length-put_entries ((k, kc) ∷ es) buf = elim (Bool-cases (ltb (k * 4 + 3) 576)) [
  | inl e ↦
      rw (e, put_entries)
        (length-put_entries es (put_entry (k * 4) kc buf) ∙ length-put_entry (k * 4) kc buf)
  | inr e ↦ rw (e, put_entries) (length-put_entries es buf)
]

get_or-zero : (n i : ℕ) → get_or {A = ℕ} (replicate n 0) i 0 ≡ 0
get_or-zero zero i = refl
get_or-zero (suc n) zero = refl
get_or-zero (suc n) (suc i) = get_or-zero n i

zero-entry : (n o : ℕ) → entry_at (replicate n 0) o ≡ none
zero-entry n o = ground (arith, get_or-zero n o)

-- A write behind an entry leaves it.
entry_at-set_above :
    (buf : List ℕ) (i v o : ℕ)
    → i < length buf
    → o + 3 < i
    → entry_at (set buf i v) o ≡ entry_at buf o
entry_at-set_above buf i v o l h = ground (
  arith,
  get_or-set buf i v o 0 l,
  get_or-set buf i v (o + 2) 0 l,
  get_or-set buf i v (o + 3) 0 l,
)

-- The key-definition buffer fills nine frames, and for every key index below 143 its entry is the
-- last keycode given for it, or empty.
pub encode_keydef_buffer_lem :
    (es : List (ℕ × ℕ)) (ki : ℕ)
    → ki < 143
    → (length (encode_keydef_buffer es) ≡ 576)
      × (entry_at (encode_keydef_buffer es) (ki * 4) ≡ latest ki es)
unfolding encode_keydef_buffer
encode_keydef_buffer_lem es ki h =
    let z = replicate 576 0 in
    let buf = put_entries es z in
    let marked = set buf 574 0xaa in
    let l : length buf ≡ 576 = length-put_entries es z in
    let m : length marked ≡ 576 = length-set buf 574 0xaa ∙ l in
    (
      length-set marked 575 0x55 ∙ m,
      entry_at-set_above marked 575 0x55 (ki * 4) (omega arith) (omega arith)
          ∙ entry_at-set_above buf 574 0xaa (ki * 4) (omega arith) (omega arith)
          ∙ put_entries-entry es z ki refl (omega arith)
          ∙ nothing_else (zero-entry 576 (ki * 4)),
    )
  where
    nothing_else : {o : Option ℕ} → o ≡ none → or_else (latest ki es) o ≡ latest ki es
    nothing_else e = ground arith

byte-not : (b : Bool) → not (byte b == 0) ≡ b
byte-not true = refl
byte-not false = refl

-- What `get_lighting` packs, `set_lighting` unpacks.
from_bytes-to_bytes : (l : Lighting) → from_bytes (to_bytes l) ≡ l
unfolding from_bytes to_bytes
from_bytes-to_bytes l = ap (λ x. record l { random = x }) (byte-not l.random)
