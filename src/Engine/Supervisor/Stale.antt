-- ===== src/Engine/Supervisor/Stale.antt =====
-- src/engine/mod.rs: a reconnection that succeeds too late, and a worker's end that is not reported.
use clackd.Base.{
  ℕ, ◌+◌, ◌^◌, ◌<◌, ◌≡◌, ◌≢◌, refl, ap, sym, ◌∙◌, List, false, Option, none, some, String, arith,
  Option-cases, inl, inr, length, ◌==◌,
}
use clackd.Hal.{KeyboardDriver}
use clackd.Engine.{
  DaemonError, commit, closed, Channel, find, DeviceHandle, dispatch_commit, route_command,
}
use clackd.Engine.Dispatch.{with_device-present, evicted-missing}
use clackd.Engine.Supervisor.{
  DriverTable, EngineCommand, routed, device_disconnected, device_error, device_reattached,
  Supervisor, forget_reconnect, unregister, emit, on_disconnected, on_error, on_reattached,
  handle_command, run_supervisor,
}
use clackd.Engine.Supervisor.Advances.{device_of, task_of}
use clackd.Engine.Supervisor.Handlers.{forgotten, disconnected-Advances}
use clackd.Engine.Supervisor.Invariant.{run-Advances}

never : (t : ℕ × ℕ) → ◌≢◌ {A = Option (ℕ × ℕ)} none (some t)
never t e = cc

module _ (D : KeyboardDriver) (World : Type 0) (channel : Channel) where
  unregister-task :
      (id : String) (s : Supervisor D World channel)
      → task_of D World channel (unregister D World channel id s) id ≡ task_of D World channel s id
  unfolding unregister emit
  unregister-task id s = refl

  disconnected-forgets :
      (id : String) (s : Supervisor D World channel)
      → task_of D World channel (on_disconnected D World channel id s) id ≡ none
  unfolding on_disconnected
  disconnected-forgets id s =
      let s1 = forget_reconnect D World channel id s in
      elim (Option-cases (find s1.registry.devices id)) [
        | inl e ↦ rw (e, on_disconnected) (forgotten D World channel id s)
        | inr (h, e) ↦
            rw (e, on_disconnected) (unregister-task id s1 ∙ forgotten D World channel id s)
      ]

  ignores :
      (id : String) (h : DeviceHandle channel) (token : ℕ) (s : Supervisor D World channel)
      → ((t : ℕ × ℕ) → task_of D World channel s id ≡ some t → token < t.1)
      → on_reattached D World channel id h token s ≡ s
  unfolding on_reattached
  ignores id h token s later = elim (Option-cases (find s.registry.reconnecting id)) [
    | inl e ↦ rw (e, on_reattached) refl
    | inr ((cancel, current), e) ↦
        let newer : token < current = later (cancel, current) e in
        let differ : (current == token) ≡ false = ground arith in rw (e, differ, on_reattached) refl
  ]

  -- Once a device was unplugged, a reconnection that was started before never attaches it, whatever
  -- commands come in between, as long as the tokens of 64 bits last: its handle is dropped and nothing
  -- changes.
  pub reattach_stale :
      (now later : ℕ) (table : DriverTable D World channel)
      (cs : List (ℕ × EngineCommand D World channel)) (id : String) (h : DeviceHandle channel)
      (token : ℕ) (s : Supervisor D World channel)
      → s.registry.next_reconnect_token + length cs < 2 ^ 64
      → token < s.registry.next_reconnect_token
      → let gone = handle_command D World channel now table (device_disconnected id) s in
        let s' = run_supervisor D World channel table cs gone in
        handle_command D World channel later table (device_reattached id h token) s' ≡ s'
  unfolding handle_command
  reattach_stale now later table cs id h token s room old =
      let gone = on_disconnected D World channel id s in
      let s' = run_supervisor D World channel table cs gone in
      let first = disconnected-Advances D World channel id s in
      let rest = run-Advances D World channel table cs gone (omega (arith, first.spends)) in
      ignores id h token s' λ t e. elim (rest.renews id t e) [
        | inl was ↦ absurd (never t (sym (disconnected-forgets id s) ∙ was))
        | inr new ↦ omega (arith, first.grows)
      ]

  -- A worker that is gone and is found so by a commit: the device is evicted without an event, and the
  -- worker's report that comes behind is ignored, so no removal is announced and no reconnection starts.
  pub closed-unannounced :
      (now later : ℕ) (table : DriverTable D World channel) (id : String) (reply : ℕ)
      (h : DeviceHandle channel) (x : DaemonError) (s : Supervisor D World channel)
      → device_of D World channel s id ≡ some h
      → (channel.try_send (commit reply) h.tx).0 ≡ closed
      → let s' = handle_command D World channel now table (routed id (commit reply)) s in
        (device_of D World channel s' id ≡ none)
        × (s'.events ≡ s.events)
        × (handle_command D World channel later table (device_error id x) s' ≡ s')
  unfolding handle_command route_command dispatch_commit on_error
  closed-unannounced now later table id reply h x s e k =
      let gone : find (route_command channel id (commit reply) s.registry).devices id ≡ none =
        ap (λ t. find t.devices id) (with_device-present channel id reply _ s.registry h e)
        ∙ evicted-missing channel id h (commit reply) s.registry k in
      (gone, refl, rw (gone, on_error) refl)
