-- ===== src/Boot/Table.antt =====
-- src/main.rs: which factory the table of `devices.toml` gives a device.
use clackd.Base.{
  ℕ, ◌≡◌, refl, ap, ◌∙◌, arith, List, [], ◌∷◌, map, Bool, Option, none, some, ◌==◌, ◌&&◌,
  if◌then◌else◌, Bool-cases, Option-cases, inl, inr,
}
use clackd.Hal.{KeyboardDriver}
use clackd.Engine.{Channel}
use clackd.Engine.Supervisor.{DriverFactory, find_pair, find_factory}
use clackd.Boot.{
  DeviceConfig, ConfigRead, parsed, Backend, via, backend_of, wants_sync, sync_flag, devices_of,
  Drivers, factory_of, insert_pair, insert_all, build_driver_table,
}

-- The backend of the last entry for a pair.
abbrev last_backend : ℕ → ℕ → List DeviceConfig → Option Backend
last_backend vid pid [] = none
last_backend vid pid (dev ∷ devs) = elim (last_backend vid pid devs) [
  | some b ↦ some b
  | none ↦ if dev.vid == vid && dev.pid == pid then some (backend_of dev.driver) else none
]

abbrev or_via : Option Backend → Backend
or_via none = via
or_via (some b) = b

-- An entry with other dimensions.
abbrev resize : ℕ → ℕ → DeviceConfig → DeviceConfig
resize rows cols dev = record dev { rows = rows; cols = cols }

sync_flag-resize :
    (rows cols : ℕ) (devs : List DeviceConfig)
    → sync_flag (map (resize rows cols) devs) ≡ sync_flag devs
unfolding sync_flag wants_sync
sync_flag-resize rows cols [] = refl
sync_flag-resize rows cols (dev ∷ devs) = elim (Bool-cases (wants_sync dev)) [
  | inl b ↦ rw (b, sync_flag) refl
  | inr b ↦ rw (b, sync_flag) (sync_flag-resize rows cols devs)
]

module _ (D : KeyboardDriver) (World : Type 0) (channel : Channel)
    (opens : Drivers D World channel) where
  abbrev Pairs : Type 0
  Pairs = List ((ℕ × ℕ) × DriverFactory D World channel)

  find_pair-insert :
      (vid pid v p : ℕ) (f : DriverFactory D World channel) (t : Pairs)
      → find_pair D World channel vid pid (insert_pair D World channel opens v p f t)
        ≡ (if v == vid && p == pid then some f else find_pair D World channel vid pid t)
  unfolding find_pair insert_pair
  find_pair-insert vid pid v p f [] = refl
  find_pair-insert vid pid v p f (((a, b), g) ∷ t) =
      ground (arith, find_pair-insert vid pid v p f t)

  -- What is found after the entries were inserted.
  abbrev or_found :
      Option ℕ
      → Bool
      → Option Backend
      → Option (DriverFactory D World channel)
      → Option (DriverFactory D World channel)
  or_found interval sync none o = o
  or_found interval sync (some b) o = some (factory_of D World channel opens interval sync b)

  find_pair-insert_all :
      (interval : Option ℕ) (sync : Bool) (vid pid : ℕ) (devs : List DeviceConfig) (t : Pairs)
      → find_pair D World channel vid pid (insert_all D World channel opens interval sync devs t)
        ≡ or_found interval sync (last_backend vid pid devs) (find_pair D World channel vid pid t)
  unfolding insert_all
  find_pair-insert_all interval sync vid pid [] t = refl
  find_pair-insert_all interval sync vid pid (dev ∷ devs) t =
      let f = factory_of D World channel opens interval sync (backend_of dev.driver) in
      let next = insert_pair D World channel opens dev.vid dev.pid f t in
      let later = find_pair-insert_all interval sync vid pid devs next in
      let inserted = find_pair-insert vid pid dev.vid dev.pid f t in
      elim (Option-cases (last_backend vid pid devs)) [
        | inr (b, q) ↦ rw q (later ∙ rw q refl)
        | inl q ↦ elim (Bool-cases (dev.vid == vid && dev.pid == pid)) [
          | inl same ↦ rw (q, same) (rw (q, inserted, same) at later)
          | inr differ ↦ rw (q, differ) (rw (q, inserted, differ) at later)
        ]
      ]

  -- A device gets the factory of the last entry for its ids, and the one of VIA without an entry, or
  -- when no configuration is read.
  pub build_driver_table-last :
      (interval : Option ℕ) (read : ConfigRead) (vid pid : ℕ)
      → find_factory D World channel
          (build_driver_table D World channel opens interval read)
          vid
          pid
        ≡ some (
            factory_of D World channel opens interval
              (sync_flag (devices_of read))
              (or_via (last_backend vid pid (devices_of read))))
  unfolding find_factory build_driver_table find_pair
  build_driver_table-last interval read vid pid =
      let devs = devices_of read in
      let found = find_pair-insert_all interval (sync_flag devs) vid pid devs [] in
      elim (Option-cases (last_backend vid pid devs)) [
        | inl q ↦
            let e = found ∙ ap (λ o. or_found interval (sync_flag devs) o none) q in
            rw (q, e, find_factory, build_driver_table) refl
        | inr (b, q) ↦
            let e = found ∙ ap (λ o. or_found interval (sync_flag devs) o none) q in
            rw (q, e, find_factory, build_driver_table) refl
      ]

  insert_all-resize :
      (interval : Option ℕ) (sync : Bool) (rows cols : ℕ) (devs : List DeviceConfig) (t : Pairs)
      → insert_all D World channel opens interval sync (map (resize rows cols) devs) t
        ≡ insert_all D World channel opens interval sync devs t
  unfolding insert_all
  insert_all-resize interval sync rows cols [] t = refl
  insert_all-resize interval sync rows cols (dev ∷ devs) t =
      insert_all-resize interval sync rows cols devs (
        insert_pair D World channel opens dev.vid dev.pid
          (factory_of D World channel opens interval sync (backend_of dev.driver)) t)

  -- The dimensions of the entries do not matter: with any others, the table is the same.
  build_driver_table-resize :
      (interval : Option ℕ) (rows cols : ℕ) (devs : List DeviceConfig)
      → build_driver_table D World channel opens interval (parsed (map (resize rows cols) devs))
        ≡ build_driver_table D World channel opens interval (parsed devs)
  unfolding build_driver_table
  build_driver_table-resize interval rows cols devs =
      rw
        (
          sync_flag-resize rows cols devs,
          insert_all-resize interval (sync_flag devs) rows cols devs [],
        )
        refl
