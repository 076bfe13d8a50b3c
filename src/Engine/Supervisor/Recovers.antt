-- ===== src/Engine/Supervisor/Recovers.antt =====
-- src/engine/mod.rs: a device that is lost and comes back.
use clackd.Base.{
  ℕ, ◌≡◌, refl, ap, ◌∙◌, append_assoc, [], ◌∷◌, ◌++◌, true, none, some, String, arith, ◌==◌,
}
use clackd.Hal.{KeyboardDriver}
use clackd.Engine.{DaemonError, Channel, DeviceHandle}
use clackd.Engine.Devices.{find-put_self, find-evict_self}
use clackd.Engine.Supervisor.{
  ReconnectCtx, DriverTable, device_error, device_reattached, device_added, device_removed,
  Supervisor, is_disconnected, start_reconnect_backoff, forget_reconnect, register, unregister,
  emit, on_error, on_reattached, handle_command,
}
use clackd.Engine.Supervisor.Advances.{device_of, task_of}

module _ (D : KeyboardDriver) (World : Type 0) (channel : Channel) where
  abbrev pub context : String → DeviceHandle channel → ℕ → ReconnectCtx
  context id h t = record {
    device_id = id;
    vendor_id = h.vendor_id;
    product_id = h.product_id;
    hidraw_path = h.hidraw_path;
    token = t;
  }

  error-starts :
      (id : String) (h : DeviceHandle channel) (x : DaemonError) (s : Supervisor D World channel)
      → device_of D World channel s id ≡ some h
      → is_disconnected x ≡ true
      → on_error D World channel id x s
        ≡ start_reconnect_backoff D World channel (context id h 0) (unregister D World channel id s)
  unfolding on_error
  error-starts id h x s e d = rw (e, d, on_error) refl

  reattached-registers :
      (id : String) (h : DeviceHandle channel) (t : ℕ) (s : Supervisor D World channel)
      → task_of D World channel s id ≡ some (t, t)
      → on_reattached D World channel id h t s
        ≡ register D World channel id h (forget_reconnect D World channel id s)
  unfolding on_reattached
  reattached-registers id h t s e =
      let same_token : (t == t) ≡ true = ground arith in rw (e, same_token, on_reattached) refl

  -- A worker's report of a disconnection removes the device and starts one task, for the device as it
  -- was, and a reattachment with the task's token attaches the device again and ends the
  -- reconnection; each is announced once.
  pub error_reattach :
      (now later : ℕ) (table : DriverTable D World channel) (id : String)
      (h h' : DeviceHandle channel) (x : DaemonError) (s : Supervisor D World channel)
      → device_of D World channel s id ≡ some h
      → is_disconnected x ≡ true
      → let t = s.registry.next_reconnect_token in
        let s1 = handle_command D World channel now table (device_error id x) s in
        let s2 = handle_command D World channel later table (device_reattached id h' t) s1 in
        (device_of D World channel s1 id ≡ none)
        × (s1.tasks ≡ s.tasks ++ (context id h t ∷ []))
        × (device_of D World channel s2 id ≡ some h')
        × (task_of D World channel s2 id ≡ none)
        × (s2.events ≡ s.events ++ (device_removed id ∷ device_added id ∷ []))
  unfolding handle_command unregister start_reconnect_backoff emit register forget_reconnect
  error_reattach now later table id h h' x s e d =
      let t = s.registry.next_reconnect_token in
      let lost =
        start_reconnect_backoff D World channel (context id h 0)
          (unregister D World channel id s) in
      let back = register D World channel id h' (forget_reconnect D World channel id lost) in
      let starts = error-starts id h x s e d in
      let pending = find-put_self s.registry.reconnecting id (t, t) in
      let ends =
        ap (on_reattached D World channel id h' t) starts
        ∙ reattached-registers id h' t lost pending in
      (
        ap (λ u. device_of D World channel u id) starts ∙ find-evict_self s.registry.devices id,
        ap (λ u. u.tasks) starts,
        ap (λ u. device_of D World channel u id) ends ∙ find-put_self lost.registry.devices id h',
        ap (λ u. task_of D World channel u id) ends ∙ find-evict_self lost.registry.reconnecting id,
        ap (λ u. u.events) ends
            ∙ append_assoc s.events (device_removed id ∷ []) (device_added id ∷ []),
      )
