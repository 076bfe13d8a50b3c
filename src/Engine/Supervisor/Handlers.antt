-- ===== src/Engine/Supervisor/Handlers.antt =====
-- src/engine/mod.rs: each handler of the supervisor is such a change.
use clackd.Base.{
  ℕ, ◌+◌, ◌^◌, ◌<◌, ◌≡◌, refl, [], ◌∷◌, ◌++◌, ◌==◌, none, String, arith, Option-cases, Bool-cases,
  inl, inr,
}
use clackd.Hal.{KeyboardDriver}
use clackd.Engine.{
  DaemonError, Outcome, value, failed, WorkerOp, Channel, find, DeviceHandle, route_command,
}
use clackd.Engine.Devices.{find-evict, same_refl}
use clackd.Engine.Routes.{route_command-Narrows}
use clackd.Engine.Worker.{Worker}
use clackd.Engine.Supervisor.{
  ReconnectCtx, DriverTable, find_factory, try_attach, emit, forget_reconnect, register, unregister,
  attached, on_connected, on_disconnected, on_error, on_reattached, is_transient_attach_error,
  is_disconnected,
}
use clackd.Engine.Supervisor.Advances.{
  Advances-refl, Advances-trans, Advances-weaken, forget-Advances, register-Advances,
  unregister-Advances, backoff-Advances, still, Advances, device_of, task_of, Sup,
}

module _ (D : KeyboardDriver) (World : Type 0) (channel : Channel) where
  attached-Advances :
      (ctx : ReconnectCtx) (r : Outcome (DeviceHandle channel × Worker D)) (s : Sup D World channel)
      → task_of D World channel s ctx.device_id ≡ none
      → device_of D World channel s ctx.device_id ≡ none
      → s.registry.next_reconnect_token + 1 < 2 ^ 64
      → Advances D World channel 1 s (attached D World channel ctx r s)
  unfolding attached
  attached-Advances ctx (value (handle, worker)) s free gone room =
      let s1 : Sup D World channel = record s {
        workers = s.workers ++ ((ctx.device_id, worker) ∷ []);
      } in
      Advances-weaken D World channel 0 1 s (register D World channel ctx.device_id handle s1)
        (omega arith)
        (Advances-trans D World channel 0 0 s s1 (register D World channel ctx.device_id handle s1)
          (still D World channel s s1 refl refl)
          (register-Advances D World channel ctx.device_id handle s1 free))
  attached-Advances ctx (failed e) s free gone room =
      elim (Bool-cases (is_transient_attach_error e)) [
        | inl t ↦ rw t (backoff-Advances D World channel ctx s gone room)
        | inr t ↦ rw t (
            Advances-weaken D World channel 0 1 s s (omega arith) (Advances-refl D World channel s))
      ]

  pub forgotten :
      (id : String) (s : Sup D World channel)
      → task_of D World channel (forget_reconnect D World channel id s) id ≡ none
  unfolding forget_reconnect
  forgotten id s = ground (arith, find-evict s.registry.reconnecting id id, same_refl id)

  unregistered :
      (id : String) (s : Sup D World channel)
      → device_of D World channel (unregister D World channel id s) id ≡ none
  unfolding unregister emit
  unregistered id s = ground (arith, find-evict s.registry.devices id id, same_refl id)

  pub connected-Advances :
      (now : ℕ) (table : DriverTable D World channel) (id : String) (vid pid : ℕ) (path : String)
      (s : Sup D World channel)
      → s.registry.next_reconnect_token + 1 < 2 ^ 64
      → Advances D World channel 1 s (on_connected D World channel now table id vid pid path s)
  unfolding on_connected
  connected-Advances now table id vid pid path s room =
      let s1 = forget_reconnect D World channel id s in
      let first = forget-Advances D World channel id s in
      let rest = Advances-weaken D World channel 0 1 s s1 (omega arith) first in
      elim (Option-cases (find s1.registry.devices id)) [
        | inr (h, e) ↦ rw (e, on_connected) rest
        | inl e ↦ elim (Option-cases (find_factory D World channel table vid pid)) [
          | inl k ↦ rw (e, k, on_connected) rest
          | inr (factory, k) ↦
              let x = try_attach D World channel now factory vid pid path s1.world in
              let s2 : Sup D World channel = record s1 { world = x.1 } in
              let ctx : ReconnectCtx = record {
                device_id = id;
                vendor_id = vid;
                product_id = pid;
                hidraw_path = path;
                token = 0;
              } in
              rw (e, k, on_connected)
                (Advances-trans D World channel 0 1 s s1 (attached D World channel ctx x.0 s2) first
                  (Advances-trans D World channel 0 1 s1 s2 (attached D World channel ctx x.0 s2)
                    (still D World channel s1 s2 refl refl)
                    (attached-Advances ctx x.0 s2 (forgotten id s) e
                      (omega (arith, first.spends)))))
        ]
      ]

  pub disconnected-Advances :
      (id : String) (s : Sup D World channel)
      → Advances D World channel 0 s (on_disconnected D World channel id s)
  unfolding on_disconnected
  disconnected-Advances id s =
      let s1 = forget_reconnect D World channel id s in
      elim (Option-cases (find s1.registry.devices id)) [
        | inl e ↦ rw (e, on_disconnected) (forget-Advances D World channel id s)
        | inr (h, e) ↦
            rw (e, on_disconnected)
              (Advances-trans D World channel 0 0 s s1 (unregister D World channel id s1)
                (forget-Advances D World channel id s) (unregister-Advances D World channel id s1))
      ]

  pub error-Advances :
      (id : String) (x : DaemonError) (s : Sup D World channel)
      → s.registry.next_reconnect_token + 1 < 2 ^ 64
      → Advances D World channel 1 s (on_error D World channel id x s)
  unfolding on_error
  error-Advances id x s room = elim (Option-cases (find s.registry.devices id)) [
    | inl e ↦
        rw (e, on_error)
          (Advances-weaken D World channel 0 1 s s (omega arith) (Advances-refl D World channel s))
    | inr (h, e) ↦
        let s1 = unregister D World channel id s in
        let first = unregister-Advances D World channel id s in
        elim (Bool-cases (is_disconnected x)) [
          | inl d ↦
              rw (e, d, on_error)
                (Advances-trans D World channel 0 1 s s1 _ first (
                  backoff-Advances D World channel _ s1 (unregistered id s)
                    (omega (arith, first.spends))))
          | inr d ↦
              rw (e, d, on_error) (Advances-weaken D World channel 0 1 s s1 (omega arith) first)
        ]
  ]

  pub reattached-Advances :
      (id : String) (handle : DeviceHandle channel) (token : ℕ) (s : Sup D World channel)
      → Advances D World channel 0 s (on_reattached D World channel id handle token s)
  unfolding on_reattached
  reattached-Advances id handle token s = elim (Option-cases (find s.registry.reconnecting id)) [
    | inl e ↦ rw (e, on_reattached) (Advances-refl D World channel s)
    | inr ((cancel, current), e) ↦ elim (Bool-cases (current == token)) [
      | inl k ↦
          let s1 = forget_reconnect D World channel id s in
          rw (e, k, on_reattached)
            (Advances-trans D World channel 0 0 s s1 (register D World channel id handle s1)
              (forget-Advances D World channel id s)
              (register-Advances D World channel id handle s1 (forgotten id s)))
      | inr k ↦ rw (e, k, on_reattached) (Advances-refl D World channel s)
    ]
  ]

  pub routed-Advances :
      (id : String) (op : WorkerOp) (s : Sup D World channel)
      → Advances D World channel 0 s
          (record s { registry = route_command channel id op s.registry })
  routed-Advances id op s =
      let n = route_command-Narrows channel id op s.registry in
      record {
        consistent = λ h. record {
          exclusive =
              λ j d e. let (d', k) = n.devices j d e in rw n.reconnecting (h.exclusive j d' k);
          issued = λ j t e. rw n.tokens (h.issued j t (rw n.reconnecting at e));
        };
        announces = λ h j d e. let (d', k) = n.devices j d e in h j d' k;
        grows = rw n.tokens (omega arith);
        spends = rw n.tokens (omega arith);
        renews = λ j t e. inl (rw n.reconnecting at e);
      }
