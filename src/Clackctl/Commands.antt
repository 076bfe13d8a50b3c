-- ===== src/Clackctl/Commands.antt =====
-- src/bin/clackctl/main.rs: the commands that read or change a keyboard.
--
-- The D-Bus proxy is the parameter `Proxy`. A command returns the line that it prints.
use clackd.Base.{
  ℕ, ◌^◌, List, [], ◌∷◌, ◌++◌, map, Bool, true, false, Option, none, some, get_elem?, length, ◌||◌,
  ◌==◌, if◌then◌else◌,
}
use clackd.Clackctl.Text.{
  Text, codes, same, to_ascii_lowercase, strip_prefix, from_str_radix, hex2, hex4, decimal,
}
use clackd.Clackctl.Keycodes.{any, describe}
use clackd.Gmk67.Color.{rgb_to_hs, hs_to_rgb}
use clackd.Clackctl.Parse.{
  Parsed, ok, err, panicked, join, parse_key, parse_u16, parse_u8, parse_level, parse_effect,
  parse_color, parse_hex_bytes, to_hex, percent, effect_label, effects,
}

-- A reply on the bus. An error is its text, and that of a method has a name.
pub data Reply {ℓ} (A : Type ℓ) : Type ℓ where
  value : A → Reply A
  method_error : Text → Text → Reply A
  failed : Text → Reply A

pub record Proxy : Type 1 where
  pub World : Type 0
  pub list_devices : World → Reply (List Text) × World
  pub get_device_identity : Text → World → Reply (ℕ × ℕ × Text) × World
  pub get_device_info : Text → World → Reply (Text × ℕ × ℕ × ℕ) × World
  pub get_keycode : Text → ℕ → ℕ → ℕ → World → Reply ℕ × World
  pub get_macro : Text → ℕ → ℕ → World → Reply (List ℕ) × World
  pub set_keycode : Text → ℕ → ℕ → ℕ → ℕ → World → Reply (Unit {0}) × World
  pub commit : Text → World → Reply (Unit {0}) × World
  pub set_macro : Text → ℕ → List ℕ → World → Reply (Unit {0}) × World
  pub get_lighting : Text → ℕ → ℕ → World → Reply (List ℕ) × World
  pub set_lighting : Text → ℕ → ℕ → List ℕ → World → Reply (Unit {0}) × World

abbrev pub from_bus {ℓ} : {A : Type ℓ} → Reply A → Parsed A
from_bus (value a) = ok a
from_bus (method_error name e) = err e
from_bus (failed e) = err e

abbrev pub unwrap_name : Reply (ℕ × ℕ × Text) → Text
unwrap_name (value (vid, pid, name)) = name
unwrap_name (method_error name e) = []
unwrap_name (failed e) = []

unfoldable pub starts_with : Text → Text → Bool
starts_with p s = elim (strip_prefix p s) [ none ↦ false | some t ↦ true ]

unfoldable pub contains : Text → Text → Bool
contains needle [] = starts_with needle []
contains needle (c ∷ cs) = starts_with needle (c ∷ cs) || contains needle cs

abbrev ch_rgb_matrix : ℕ
ch_rgb_matrix = 3

abbrev val_brightness : ℕ
val_brightness = 1

abbrev val_effect : ℕ
val_effect = 2

abbrev val_speed : ℕ
val_speed = 3

abbrev val_color : ℕ
val_color = 4

data LightingAction : Type 0 where
  show : LightingAction
  brightness effect speed color : Text → LightingAction
  off effects_list : LightingAction
  get_raw : Text → Text → LightingAction
  set_raw : Text → Text → Text → LightingAction

abbrev in_hex : ℕ → Text
in_hex n = codes "0x" ++ hex2 n

-- Lines of output.
abbrev pub lines : List Text → Text
lines ts = join (codes "\n") ts

unfoldable effect_lines : Text
effect_lines = lines (
    map (λ (e : ℕ × Text). in_hex e.0 ++ (codes "  " ++ e.1)) effects
    ++ (codes "(names are for the GMK67 family; other keyboards may map ids differently)" ∷ []))

unfoldable unsupported_note : Text → Text → Text
unsupported_note name e =
    if same name (codes "org.freedesktop.DBus.Error.NotSupported")
    then codes "not supported by this keyboard"
    else codes "read failed (" ++ (e ++ codes ")")

abbrev level_text : ℕ → Text
level_text v = percent v ++ (codes " (" ++ (decimal v ++ codes "/255)"))

abbrev color_text : ℕ → ℕ → Text
color_text h s =
    let (r, g, b) = hs_to_rgb h s in
    codes "#"
    ++ (hex2 r
        ++ (hex2 g
            ++ (hex2 b
                ++ (codes " (hue "
                    ++ (decimal h ++ (codes ", sat " ++ (decimal s ++ codes ")")))))))

-- What is shown of a value with one byte, and of a colour with two.
abbrev shown : (ℕ → Text) → Reply (List ℕ) → Text
shown render (value []) = codes "(empty reply)"
shown render (value (v ∷ vs)) = render v
shown render (method_error name e) = unsupported_note name e
shown render (failed e) = unsupported_note [] e

abbrev shown_color : Reply (List ℕ) → Text
shown_color (value []) = codes "(empty reply)"
shown_color (value (h ∷ [])) = codes "(empty reply)"
shown_color (value (h ∷ s ∷ vs)) = color_text h s
shown_color (method_error name e) = unsupported_note name e
shown_color (failed e) = unsupported_note [] e

module _ (P : Proxy) where
  -- `?` on a result, and on a reply of the bus.
  abbrev pub Command {ℓ} : Type ℓ → Type ℓ
  Command A = P.World → Parsed A × P.World

  abbrev pub and_then {ℓ κ} :
      {A : Type ℓ} {B : Type κ} → Parsed A × P.World → (A → Command B) → Parsed B × P.World
  and_then (ok a, w) f = f a w
  and_then (err e, w) f = (err e, w)
  and_then (panicked, w) f = (panicked, w)

  infixl 5 ◌>>=◌
  abbrev pub ◌>>=◌ {ℓ κ} : {A : Type ℓ} {B : Type κ} → Command A → (A → Command B) → Command B
  ◌>>=◌ m f w = and_then (m w) f

  abbrev pub pure {ℓ} : {A : Type ℓ} → Parsed A → Command A
  pure r w = (r, w)

  abbrev pub bus {ℓ} : {A : Type ℓ} → (P.World → Reply A × P.World) → Command A
  bus call w = let (r, w') = call w in (from_bus r, w')

  -- The devices whose id or name contains a text.
  unfoldable pub matching : Text → List Text → P.World → List Text × P.World
  matching needle [] w = ([], w)
  matching needle (id ∷ ids) w =
      let (r, w1) = P.get_device_identity id w in
      let (rest, w2) = matching needle ids w1 in
      let hit =
        contains needle (to_ascii_lowercase id)
        || contains needle (to_ascii_lowercase (unwrap_name r)) in
      (if hit then id ∷ rest else rest, w2)

  abbrev available : List Text → Text
  available [] = codes "none connected"
  available (d ∷ ds) = join (codes ", ") (d ∷ ds)

  abbrev pub only : Text → List Text → List Text → Parsed Text
  only spec devices [] = err (
      codes "no keyboard matching '"
      ++ (spec ++ (codes "' (available: " ++ (available devices ++ codes ")"))))
  only spec devices (id ∷ []) = ok id
  only spec devices (id ∷ next ∷ more) = err (
      codes "'"
      ++ (spec
          ++ (codes "' matches several keyboards: "
              ++ (join (codes ", ") (id ∷ next ∷ more) ++ codes " — be more specific"))))

  unfoldable pub at_index : Text → List Text → Option Text
  at_index spec devices = elim (from_str_radix 10 (2 ^ 64) spec) [
    | none ↦ none
    | some i ↦ get_elem? devices i
  ]

  unfoldable pub pick_device : Text → List Text → Command Text
  pick_device spec devices w =
      if any (λ d. same d spec) devices then (ok spec, w) else elim (at_index spec devices) [
        | some id ↦ (ok id, w)
        | none ↦
            let (matches, w') = matching (to_ascii_lowercase spec) devices w in
            (only spec devices matches, w')
      ]

  unfoldable pub resolve_device : Text → Command Text
  resolve_device spec = do devices ← bus P.list_devices; pick_device spec devices

  unfoldable cmd_get : Text → ℕ → ℕ → ℕ → Command Text
  cmd_get device layer row col = do
    id ← resolve_device device
    keycode ← bus (P.get_keycode id layer row col)
    pure (ok (describe keycode))

  -- The write of a keycode that was read.
  unfoldable pub write_key : ℕ → ℕ → ℕ → ℕ → Text → Command Text
  write_key layer row col keycode id = do
    done ← bus (P.set_keycode id layer row col keycode)
    pure (
        ok (
          id
          ++ (codes ": layer "
              ++ (decimal layer
                  ++ (codes ", row "
                      ++ (decimal row
                          ++ (codes ", col "
                              ++ (decimal col ++ (codes " ← " ++ describe keycode)))))))))

  unfoldable pub cmd_set : Text → ℕ → ℕ → ℕ → Text → Command Text
  cmd_set device layer row col key = do
    keycode ← pure (parse_key key)
    id ← resolve_device device
    write_key layer row col keycode id

  unfoldable cmd_commit : Text → Command Text
  cmd_commit device = do
    id ← resolve_device device
    done ← bus (P.commit id)
    pure (ok (id ++ codes ": pending changes saved to the keyboard"))

  unfoldable cmd_set_macro : Text → Text → Text → Command Text
  cmd_set_macro device offset bytes = do
    id ← resolve_device device
    at ← pure (parse_u16 offset)
    bs ← pure (parse_hex_bytes bytes)
    done ← bus (P.set_macro id at bs)
    pure (
        ok (
          id
          ++ (codes ": wrote " ++ (decimal (length bs) ++ (codes " bytes at offset " ++ hex4 at)))))

  -- A value that is parsed and set on the RGB matrix.
  unfoldable set_level : Text → ℕ → Text → Command Text
  set_level id value_id text = do
    v ← pure (parse_level text)
    done ← bus (P.set_lighting id ch_rgb_matrix value_id (v ∷ []))
    pure (ok (level_text v))

  -- The client has a copy of the conversion of src/hal/legacy/gmk67.rs.
  unfoldable set_color : Text → ℕ × ℕ × ℕ → Command Text
  set_color id (r, g, b) =
      let (h, s) = rgb_to_hs r g b in
      bus (P.set_lighting id ch_rgb_matrix val_color (h ∷ s ∷ [])) >>= λ done. pure (
        ok (
          id
          ++ (codes ": colour set to #"
              ++ (hex2 r
                  ++ (hex2 g
                      ++ (hex2 b
                          ++ (codes " (hue "
                              ++ (decimal h ++ (codes ", sat " ++ (decimal s ++ codes ")"))))))))))

  -- Each of the four reads is shown on its own.
  unfoldable lighting_show : Text → Command Text
  lighting_show id w =
      let (effect_is, w1) = P.get_lighting id ch_rgb_matrix val_effect w in
      let (brightness_is, w2) = P.get_lighting id ch_rgb_matrix val_brightness w1 in
      let (speed_is, w3) = P.get_lighting id ch_rgb_matrix val_speed w2 in
      let (color_is, w4) = P.get_lighting id ch_rgb_matrix val_color w3 in
      (
        ok (
            lines (
              (id ++ codes " lighting:")
              ∷ (codes "  effect:      "
                  ++ shown (λ v. if v == 0 then codes "off" else effect_label v) effect_is)
              ∷ (codes "  brightness:  " ++ shown level_text brightness_is)
              ∷ (codes "  speed:       " ++ shown level_text speed_is)
              ∷ (codes "  colour:      " ++ shown_color color_is)
              ∷ [])),
        w4,
      )

  unfoldable run_action : Text → LightingAction → Command Text
  run_action id show = lighting_show id
  run_action id effects_list = pure (ok [])
  run_action id (brightness text) = do
    level ← set_level id val_brightness text
    pure (ok (id ++ (codes ": brightness set to " ++ level)))
  run_action id (speed text) = do
    level ← set_level id val_speed text
    pure (ok (id ++ (codes ": effect speed set to " ++ level)))
  run_action id (effect text) = do
    e ← pure (parse_effect text)
    done ← bus (P.set_lighting id ch_rgb_matrix val_effect (e ∷ []))
    pure (ok (id ++ (codes ": effect set to " ++ effect_label e)))
  run_action id off = do
    done ← bus (P.set_lighting id ch_rgb_matrix val_effect (0 ∷ []))
    pure (ok (id ++ codes ": lighting turned off"))
  run_action id (color text) = do rgb ← pure (parse_color text); set_color id rgb
  run_action id (get_raw channel value_id) = do
    c ← pure (parse_u8 channel)
    v ← pure (parse_u8 value_id)
    bytes ← bus (P.get_lighting id c v)
    pure (ok (to_hex bytes))
  run_action id (set_raw channel value_id text) = do
    c ← pure (parse_u8 channel)
    v ← pure (parse_u8 value_id)
    bs ← pure (parse_hex_bytes text)
    done ← bus (P.set_lighting id c v bs)
    pure (ok (codes "ok"))

  -- The list of effects needs no keyboard.
  unfoldable cmd_lighting : Text → LightingAction → Command Text
  cmd_lighting device effects_list = pure (ok effect_lines)
  cmd_lighting device show = do id ← resolve_device device; run_action id show
  cmd_lighting device (brightness text) = do
    id ← resolve_device device
    run_action id (brightness text)
  cmd_lighting device (effect text) = do id ← resolve_device device; run_action id (effect text)
  cmd_lighting device (speed text) = do id ← resolve_device device; run_action id (speed text)
  cmd_lighting device (color text) = do id ← resolve_device device; run_action id (color text)
  cmd_lighting device off = do id ← resolve_device device; run_action id off
  cmd_lighting device (get_raw channel value_id) = do
    id ← resolve_device device
    run_action id (get_raw channel value_id)
  cmd_lighting device (set_raw channel value_id text) = do
    id ← resolve_device device
    run_action id (set_raw channel value_id text)
