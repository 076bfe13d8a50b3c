-- ===== src/Boot/Events.antt =====
-- src/main.rs: when a udev event connects a device.
use clackd.Base.{
  ℕ, ◌^◌, ◌<◌, ◌≡◌, refl, ap, ◌∙◌, arith, Option, none, some, String, Option-cases, inl, inr,
}
use clackd.Hal.{KeyboardDriver}
use clackd.Engine.{Channel}
use clackd.Engine.Supervisor.{device_connected, device_disconnected}
use clackd.Clackctl.Text.{Text, trim}
use clackd.Clackctl.Numbers.{from_str_radix-bound}
use clackd.Boot.{
  Device, UsbDevice, EventType, add, remove, change, bind, unbind, other, parse_usb_id, connect_ids,
  device_to_connect_command, event_to_command,
}

parse_usb_id-bound : (raw : Option Text) (v : ℕ) → parse_usb_id raw ≡ some v → v < 2 ^ 16
unfolding parse_usb_id
parse_usb_id-bound none v e = cc
parse_usb_id-bound (some raw) v e = from_str_radix-bound 16 (2 ^ 16) (trim raw) v (omega arith) e

module _ (D : KeyboardDriver) (World : Type 0) (channel : Channel) where
  -- What a device must have for a command that connects it: a node, and a USB parent with two ids, each
  -- a u16.
  abbrev Connects : EventType → Device → String → ℕ → ℕ → String → Type 0
  Connects kind d id vid pid path =
      (usb : UsbDevice) × (kind ≡ add)
      × (d.sysname ≡ id)
      × (d.devnode ≡ some path)
      × (d.usb_parent ≡ some usb)
      × (parse_usb_id usb.id_vendor ≡ some vid)
      × (parse_usb_id usb.id_product ≡ some pid)

  connect_ids-some :
      (id id' path path' : String) (v p : Option ℕ) (vid pid : ℕ)
      → connect_ids D World channel id path v p ≡ some (device_connected id' vid pid path')
      → (id ≡ id') × (path ≡ path') × (v ≡ some vid) × (p ≡ some pid)
  unfolding connect_ids
  connect_ids-some id id' path path' none p vid pid e = cc
  connect_ids-some id id' path path' (some v) none vid pid e = cc
  connect_ids-some id id' path path' (some v) (some p) vid pid e = (cc e, cc e, cc e, cc e)

  command-Connects :
      (d : Device) (id path : String) (vid pid : ℕ)
      → device_to_connect_command D World channel d ≡ some (device_connected id vid pid path)
      → Connects add d id vid pid path
  unfolding device_to_connect_command
  command-Connects d id path vid pid e = elim (Option-cases d.devnode) [
    | inl q ↦ ground (arith, q, e)
    | inr (node, q) ↦ elim (Option-cases d.usb_parent) [
      | inl u ↦ ground (arith, q, u, e)
      | inr (usb, u) ↦
          let (id_is, path_is, v, p) =
            connect_ids-some d.sysname id node path (parse_usb_id usb.id_vendor)
              (parse_usb_id usb.id_product) vid pid (ground (arith, q, u, e)) in
          (usb, refl, id_is, q ∙ ap (λ n. some n) path_is, u, v, p)
    ]
  ]

  Connects-command :
      (d : Device) (id path : String) (vid pid : ℕ)
      → Connects add d id vid pid path
      → device_to_connect_command D World channel d ≡ some (device_connected id vid pid path)
  unfolding device_to_connect_command connect_ids
  Connects-command d id path vid pid (usb, k, id_is, node, parent, v, p) =
      rw (node, parent, v, p, id_is, device_to_connect_command) refl

  -- A udev event becomes a command that connects a device exactly when it adds a device with a node and
  -- a USB parent with two readable ids; the ids are u16. A removal of the device is sent under the same
  -- id.
  event_to_command-Connects :
      (kind : EventType) (d : Device) (id path : String) (vid pid : ℕ)
      → (event_to_command D World channel kind d ≡ some (device_connected id vid pid path)
          → Connects kind d id vid pid path
            × (vid < 2 ^ 16)
            × (pid < 2 ^ 16)
            × (event_to_command D World channel remove d ≡ some (device_disconnected id)))
        × (Connects kind d id vid pid path
            → event_to_command D World channel kind d ≡ some (device_connected id vid pid path))
  unfolding event_to_command
  event_to_command-Connects add d id path vid pid = (
    λ e.
        let c = command-Connects d id path vid pid e in
        (
          c,
          parse_usb_id-bound _ vid c.5,
          parse_usb_id-bound _ pid c.6,
          ap (λ i. some (device_disconnected i)) c.2,
        ),
    Connects-command d id path vid pid,
  )
  event_to_command-Connects remove d id path vid pid = (λ e. cc, λ c. cc)
  event_to_command-Connects change d id path vid pid = (λ e. cc, λ c. cc)
  event_to_command-Connects bind d id path vid pid = (λ e. cc, λ c. cc)
  event_to_command-Connects unbind d id path vid pid = (λ e. cc, λ c. cc)
  event_to_command-Connects other d id path vid pid = (λ e. cc, λ c. cc)
