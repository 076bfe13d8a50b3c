-- ===== src/Clackctl/Listings.antt =====
-- src/bin/clackctl/main.rs: the commands that list. The lines that they print are joined by newlines;
-- what a command that fails has printed before is not kept.
use clackd.Base.{
  ℕ, zero, suc, ◌+◌, ◌-◌, ◌/◌, ◌%◌, List, [], ◌∷◌, ◌++◌, map, Bool, true, Option, none, some,
  length, replicate, take, drop, ltb, leb, ◌&&◌, if◌then◌else◌,
}
use clackd.Clackctl.Text.{Text, codes, to_ascii_lowercase, hex2, hex4, decimal}
use clackd.Clackctl.Keycodes.{Key, all, short_label}
use clackd.Clackctl.Parse.{ok, join, parse_u16, to_hex}
use clackd.Clackctl.Commands.{
  Proxy, Reply, value, method_error, failed, Command, and_then, pure, bus, contains, lines,
  resolve_device,
}

-- `{:04x}`.
abbrev four_hex : ℕ → Text
four_hex n = hex2 (n / 256) ++ hex2 (n % 256)

abbrev or_text : Text → Text → Text
or_text [] t = t
or_text (c ∷ cs) t = c ∷ cs

abbrev usb_id : ℕ → ℕ → Text
usb_id vid pid = four_hex vid ++ (codes ":" ++ four_hex pid)

-- What is printed of a device: its id alone when one of the two queries fails.
abbrev summary : Text → Reply (ℕ × ℕ × Text) → Reply (Text × ℕ × ℕ × ℕ) → Text
summary id (value (vid, pid, name)) (value (model, rows, cols, layers)) =
    id
    ++ (codes " — "
        ++ (or_text name (codes "unnamed")
            ++ (codes " ["
                ++ (usb_id vid pid
                    ++ (codes "], "
                        ++ (decimal rows
                            ++ (codes "×"
                                ++ (decimal cols
                                    ++ (codes " keys, "
                                        ++ (decimal layers ++ codes " layers"))))))))))
summary id (value identity) (method_error name e) = id
summary id (value identity) (failed e) = id
summary id (method_error name e) info = id
summary id (failed e) info = id

abbrev key_line : Key → Text
key_line k =
    let first = hex4 k.code ++ (codes "  " ++ k.name) in
    elim k.aliases [
      | [] ↦ first
      | a ∷ more ↦ first ++ (codes "  (also: " ++ (join (codes ", ") (a ∷ more) ++ codes ")"))
    ]

abbrev matches : Option Text → Text → Bool
matches none line = true
matches (some filter) line = contains filter (to_ascii_lowercase line)

unfoldable pub filtered : Option Text → List Key → List Text
filtered filter [] = []
filtered filter (k ∷ ks) =
    let rest = filtered filter ks in if matches filter (key_line k) then key_line k ∷ rest else rest

abbrev or_no_match : List Text → Text
or_no_match [] = codes "No key names match — try `clackctl keys` for the full list."
or_no_match (l ∷ ls) = lines (l ∷ ls)

-- `cmd_keys`.
unfoldable pub cmd_keys : Option Text → Text
cmd_keys none = or_no_match (filtered none all)
cmd_keys (some filter) = or_no_match (filtered (some (to_ascii_lowercase filter)) all)

-- The numbers from `i` on.
abbrev range : ℕ → ℕ → List ℕ
range i zero = []
range i (suc n) = i ∷ range (i + 1) n

abbrev pad : ℕ → Text → Text
pad width s = replicate (width - length s) b' ' ++ s

abbrev widest : ℕ → List Text → ℕ
widest n [] = n
widest n (t ∷ ts) = widest (if ltb n (length t) then length t else n) ts

abbrev flatten : List (List Text) → List Text
flatten [] = []
flatten (r ∷ rs) = r ++ flatten rs

-- The width of the longest label, 2 for a grid without labels.
abbrev width_of : List (List Text) → ℕ
width_of grid = elim (flatten grid) [ [] ↦ 2 | t ∷ ts ↦ widest (length t) ts ]

abbrev cells : ℕ → List Text → Text
cells width [] = []
cells width (t ∷ ts) = codes " " ++ (pad width t ++ cells width ts)

abbrev row_lines : ℕ → ℕ → List (List Text) → List Text
row_lines width r [] = []
row_lines width r (labels ∷ rows) =
    (codes "  r" ++ (decimal r ++ (codes " " ++ cells width labels))) ∷ row_lines width (r + 1) rows

unfoldable pub grid_lines : Text → ℕ → ℕ → List (List Text) → List Text
grid_lines id layer cols grid =
    let width = width_of grid in
    (id ++ (codes " layer " ++ (decimal layer ++ codes ":")))
    ∷ (codes "     " ++ cells width (map (λ c. codes "c" ++ decimal c) (range 0 cols)))
    ∷ (row_lines width 0 grid ++ ([] ∷ []))

-- A byte of a dump as a character.
abbrev as_ascii : ℕ → ℕ
as_ascii b = if leb 0x20 b && leb b 0x7e then b else b'.'

abbrev pad_right : ℕ → Text → Text
pad_right width s = s ++ replicate (width - length s) b' '

-- `{:04x}` of an address, which may have a fifth digit.
abbrev address : ℕ → Text
address n = if ltb n 65536 then four_hex n else b'1' ∷ four_hex (n % 65536)

-- The lines of sixteen bytes; each takes at least one, so as many lines as bytes are enough.
unfoldable pub dump : ℕ → ℕ → List ℕ → List Text
dump zero addr bs = []
dump (suc fuel) addr [] = []
dump (suc fuel) addr (b ∷ bs) =
    let chunk = take 16 (b ∷ bs) in
    (address addr
      ++ (codes "  "
          ++ (pad_right 48 (to_hex chunk) ++ (codes "  |" ++ (map as_ascii chunk ++ codes "|")))))
    ∷ dump fuel (addr + 16) (drop 16 (b ∷ bs))

module _ (P : Proxy) where
  infixl 5 ◌>>=◌
  abbrev ◌>>=◌ {ℓ κ} : {A : Type ℓ} {B : Type κ} → Command P A → (A → Command P B) → Command P B
  ◌>>=◌ m f w = and_then P (m w) f

  unfoldable describe_device : Text → P.World → Text × P.World
  describe_device id w =
      let (identity, w1) = P.get_device_identity id w in
      let (info, w2) = P.get_device_info id w1 in (summary id identity info, w2)

  unfoldable describe_all : ℕ → List Text → P.World → List Text × P.World
  describe_all i [] w = ([], w)
  describe_all i (id ∷ ids) w =
      let (text, w1) = describe_device id w in
      let (rest, w2) = describe_all (i + 1) ids w1 in
      ((decimal i ++ (codes ": " ++ text)) ∷ rest, w2)

  unfoldable list_all : List Text → Command P Text
  list_all [] w = (ok (codes "No keyboards connected (or none that clackd manages)."), w)
  list_all (d ∷ ds) w = let (ts, w') = describe_all 0 (d ∷ ds) w in (ok (lines ts), w')

  unfoldable cmd_list : Command P Text
  cmd_list = bus P P.list_devices >>= list_all

  abbrev info_lines : Text → Text × ℕ × ℕ × ℕ → ℕ × ℕ × Text → Text
  info_lines id (model, rows, cols, layers) (vid, pid, name) = lines (
      (id ++ codes ":")
      ∷ (codes "  name:    " ++ or_text name (codes "(unknown)"))
      ∷ (codes "  usb id:  " ++ usb_id vid pid)
      ∷ (codes "  driver:  " ++ or_text model (codes "(unknown)"))
      ∷ (codes "  matrix:  "
          ++ (decimal rows ++ (codes " rows × " ++ (decimal cols ++ codes " columns"))))
      ∷ (codes "  layers:  " ++ decimal layers)
      ∷ [])

  unfoldable cmd_info : Text → Command P Text
  cmd_info device = do
    id ← resolve_device P device
    info ← bus P (P.get_device_info id)
    identity ← bus P (P.get_device_identity id)
    pure P (ok (info_lines id info identity))

  -- A `for` whose body may fail.
  unfoldable for_each {ℓ} : {A : Type ℓ} → (ℕ → Command P A) → List ℕ → Command P (List A)
  for_each f [] = pure P (ok [])
  for_each f (n ∷ ns) = do a ← f n; rest ← for_each f ns; pure P (ok (a ∷ rest))

  unfoldable cell : Text → ℕ → ℕ → ℕ → Command P Text
  cell id l r c = do code ← bus P (P.get_keycode id l r c); pure P (ok (short_label code))

  unfoldable layer_grid : Text → ℕ → ℕ → ℕ → Command P (List Text)
  layer_grid id rows cols l = do
    grid ← for_each (λ r. for_each (cell id l r) (range 0 cols)) (range 0 rows)
    pure P (ok (grid_lines id l cols grid))

  abbrev layers_of : Option ℕ → ℕ → List ℕ
  layers_of none count = range 0 count
  layers_of (some l) count = l ∷ []

  unfoldable keymap_of : Text → Option ℕ → Text × ℕ × ℕ × ℕ → Command P Text
  keymap_of id layer (model, rows, cols, count) = do
    grids ← for_each (layer_grid id rows cols) (layers_of layer count)
    pure P (
        ok (
          lines (
            flatten grids
            ++ (codes "-- = no key assigned · TRNS = falls through to the layer below" ∷ []))))

  unfoldable cmd_keymap : Text → Option ℕ → Command P Text
  cmd_keymap device layer = do
    id ← resolve_device P device
    info ← bus P (P.get_device_info id)
    keymap_of id layer info

  unfoldable cmd_get_macro : Text → Text → ℕ → Command P Text
  cmd_get_macro device offset count = do
    id ← resolve_device P device
    at ← pure P (parse_u16 offset)
    bytes ← bus P (P.get_macro id at count)
    pure P (ok (lines (dump (length bytes) at bytes)))
