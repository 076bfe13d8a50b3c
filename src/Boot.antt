-- ===== src/Boot.antt =====
-- src/main.rs: the configuration of the drivers, and how udev events become commands.
--
-- What the drivers do to open a node is the parameter `Drivers`; the file system and the TOML parser are
-- the result `ConfigRead`. A udev device is what the program reads of it.
pub mod Table
pub mod Events
mod Examples
use clackd.Base.{
  ℕ, ◌^◌, List, [], ◌∷◌, Bool, true, false, Option, none, some, String, Ordering, ltb, ◌==◌, ◌&&◌,
  if◌then◌else◌,
}
use Prim.Native.String.{compare as compare_text}
use clackd.Hal.{KeyboardDriver}
use clackd.Engine.{Outcome, Channel}
use clackd.Engine.Supervisor.{
  DriverFactory, DriverTable, EngineCommand, device_connected, device_disconnected,
}
use clackd.Clackctl.Text.{Text, trim, from_str_radix}

pub record DeviceConfig : Type 0 where
  pub vid : ℕ
  pub pid : ℕ
  pub rows : ℕ
  pub cols : ℕ
  pub layer_count_override : Option ℕ
  pub driver : Option String
  pub sync_on_attach : Bool

-- How the reading of `devices.toml` ends: there is no configuration directory, no file, it cannot be
-- read or parsed, or it lists devices.
pub data ConfigRead : Type 0 where
  no_directories not_found unreadable malformed : ConfigRead
  parsed : List DeviceConfig → ConfigRead

abbrev is_text : String → String → Bool
is_text s t = elim (compare_text s t) [ Ordering.eq ↦ true | _ ↦ false ]

pub data Backend : Type 0 where
  via gmk67 : Backend

-- The backend that a name selects; an unknown name is the VIA driver.
unfoldable pub backend_of : Option String → Backend
backend_of none = via
backend_of (some name) =
    if is_text name "gmk67" then gmk67 else if is_text name "epomaker" then gmk67 else via

-- Only the name "gmk67" is asked whether to read the keymap back.
unfoldable pub wants_sync : DeviceConfig → Bool
wants_sync dev = elim dev.driver [
  | none ↦ false
  | some name ↦ is_text name "gmk67" && dev.sync_on_attach
]

-- The flag that is set once any entry wants it.
unfoldable pub sync_flag : List DeviceConfig → Bool
sync_flag [] = false
sync_flag (dev ∷ devs) = if wants_sync dev then true else sync_flag devs

abbrev pub devices_of : ConfigRead → List DeviceConfig
devices_of (parsed devs) = devs
devices_of no_directories = []
devices_of not_found = []
devices_of unreadable = []
devices_of malformed = []

module _ (D : KeyboardDriver) (World : Type 0) (channel : Channel) where
  -- `ViaDriver::new`, `ViaDriver::with_coalescing` and `Gmk67Driver::new`.
  pub record Drivers : Type 0 where
    pub via_new : String → ℕ × ℕ → World → Outcome D.State × World
    pub via_with_coalescing : String → ℕ × ℕ → ℕ → World → Outcome D.State × World
    pub gmk67_new : String → ℕ × ℕ → ℕ → Bool → World → Outcome D.State × World

  abbrev ek68_matrix : ℕ × ℕ
  ek68_matrix = (5, 15)

  abbrev ek68_layers : ℕ
  ek68_layers = 2

  module _ (opens : Drivers) where
    -- The factories read the interval and the flag of the process.
    unfoldable pub via_fallback_factory : Option ℕ → DriverFactory D World channel
    via_fallback_factory (some interval) path w = opens.via_with_coalescing path (16, 16) interval w
    via_fallback_factory none path w = opens.via_new path (16, 16) w

    unfoldable pub gmk67_factory : Bool → DriverFactory D World channel
    gmk67_factory sync path w = opens.gmk67_new path ek68_matrix ek68_layers sync w

    abbrev pub factory_of : Option ℕ → Bool → Backend → DriverFactory D World channel
    factory_of interval sync via = via_fallback_factory interval
    factory_of interval sync gmk67 = gmk67_factory sync

    -- A hash map: the entry of a pair that stands already is replaced.
    unfoldable pub insert_pair :
        ℕ
        → ℕ
        → DriverFactory D World channel
        → List ((ℕ × ℕ) × DriverFactory D World channel)
        → List ((ℕ × ℕ) × DriverFactory D World channel)
    insert_pair vid pid f [] = ((vid, pid), f) ∷ []
    insert_pair vid pid f (((v, p), g) ∷ t) =
        let rest = insert_pair vid pid f t in
        if v == vid && p == pid then ((v, p), f) ∷ t else ((v, p), g) ∷ rest

    unfoldable pub insert_all :
        Option ℕ
        → Bool
        → List DeviceConfig
        → List ((ℕ × ℕ) × DriverFactory D World channel)
        → List ((ℕ × ℕ) × DriverFactory D World channel)
    insert_all interval sync [] t = t
    insert_all interval sync (dev ∷ devs) t =
        insert_all interval sync devs
          (insert_pair dev.vid dev.pid (factory_of interval sync (backend_of dev.driver)) t)

    unfoldable pub build_driver_table : Option ℕ → ConfigRead → DriverTable D World channel
    build_driver_table interval read =
        let devs = devices_of read in
        record {
          by_vid_pid = insert_all interval (sync_flag devs) devs [];
          via_fallback = some (via_fallback_factory interval);
        }

-- `CLACKD_VIA_COALESCE_MS`, unless it is unset or not Unicode.
unfoldable pub init_coalesce_config : Option Text → Option ℕ
init_coalesce_config none = none
init_coalesce_config (some text) = elim (from_str_radix 10 (2 ^ 64) (trim text)) [
  | none ↦ none
  | some n ↦ if ltb 0 n then some n else none
]

-- The attributes of a USB parent that are there and Unicode.
pub record UsbDevice : Type 0 where
  pub id_vendor : Option Text
  pub id_product : Option Text

pub record Device : Type 0 where
  pub devnode : Option String
  pub sysname : String
  pub usb_parent : Option UsbDevice

pub data EventType : Type 0 where
  add remove change bind unbind other : EventType

unfoldable pub parse_usb_id : Option Text → Option ℕ
parse_usb_id none = none
parse_usb_id (some raw) = from_str_radix 16 (2 ^ 16) (trim raw)

module _ (D : KeyboardDriver) (World : Type 0) (channel : Channel) where
  unfoldable pub connect_ids :
      String → String → Option ℕ → Option ℕ → Option (EngineCommand D World channel)
  connect_ids id path none p = none
  connect_ids id path (some vid) none = none
  connect_ids id path (some vid) (some pid) = some (device_connected id vid pid path)

  unfoldable pub device_to_connect_command : Device → Option (EngineCommand D World channel)
  device_to_connect_command d = elim d.devnode [
    | none ↦ none
    | some path ↦ elim d.usb_parent [
      | none ↦ none
      | some usb ↦
          connect_ids d.sysname path (parse_usb_id usb.id_vendor) (parse_usb_id usb.id_product)
    ]
  ]

  unfoldable pub event_to_command : EventType → Device → Option (EngineCommand D World channel)
  event_to_command add d = device_to_connect_command d
  event_to_command remove d = some (device_disconnected d.sysname)
  event_to_command change d = none
  event_to_command bind d = none
  event_to_command unbind d = none
  event_to_command other d = none

  -- The devices that stand at the start, and those that come later, as commands in their order.
  unfoldable scan_initial_devices : List Device → List (EngineCommand D World channel)
  scan_initial_devices [] = []
  scan_initial_devices (d ∷ ds) =
      let rest = scan_initial_devices ds in
      elim (device_to_connect_command d) [ none ↦ rest | some c ↦ c ∷ rest ]

  -- An event that is an error is logged; the pump ends when the engine has closed its channel, after
  -- `room` commands.
  unfoldable run_udev_pump :
      ℕ → List (Option (EventType × Device)) → List (EngineCommand D World channel)
  run_udev_pump room [] = []
  run_udev_pump room (none ∷ es) = run_udev_pump room es
  run_udev_pump room (some (kind, d) ∷ es) = elim (event_to_command kind d) [
    | none ↦ run_udev_pump room es
    | some c ↦ elim room [ ℕ.zero ↦ [] | ℕ.suc n ↦ c ∷ run_udev_pump n es ]
  ]
