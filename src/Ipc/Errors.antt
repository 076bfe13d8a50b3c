-- ===== src/Ipc/Errors.antt =====
-- src/ipc/frontend.rs over src/engine/mod.rs: what a client is told about a device that is not there.
use clackd.Base.{ℕ, ◌≡◌, refl, [], ◌∷◌, ◌++◌, none, String, ap}
use clackd.Hal.{KeyboardDriver}
use clackd.Engine.{
  device_not_found, failed, WorkerOp, get_keycode, set_keycode, commit, get_macro, set_macro,
  get_lighting, set_lighting, reply_of, Channel, find, DeviceRegistry, send_error, with_device,
  route_command, dispatch_get, dispatch_set, dispatch_commit, dispatch_macro_get,
  dispatch_macro_set, dispatch_lighting_get, dispatch_lighting_set,
}
use clackd.Engine.Supervisor.{
  DriverTable, routed, get_device_info, get_device_identity, Supervisor, info, identity,
  send_answer, device_info, device_identity, handle_command,
}
use clackd.Ipc.{unknown_object, from_daemon}

module _ (D : KeyboardDriver) (World : Type 0) (channel : Channel) where
  route_missing :
      (id : String) (op : WorkerOp) (s : DeviceRegistry channel)
      → find s.devices id ≡ none
      → route_command channel id op s ≡ send_error channel (reply_of op) (device_not_found id) s
  unfolding route_command dispatch_get dispatch_set dispatch_commit dispatch_macro_get
      dispatch_macro_set dispatch_lighting_get dispatch_lighting_set with_device
  route_missing id (get_keycode l r c reply) s e = rw (e, with_device) refl
  route_missing id (set_keycode l r c kc reply) s e = rw (e, with_device) refl
  route_missing id (commit reply) s e = rw (e, with_device) refl
  route_missing id (get_macro o n reply) s e = rw (e, with_device) refl
  route_missing id (set_macro o bs reply) s e = rw (e, with_device) refl
  route_missing id (get_lighting c v reply) s e = rw (e, with_device) refl
  route_missing id (set_lighting c v bs reply) s e = rw (e, with_device) refl

  -- Whatever a client asks of a device that is not registered, the engine sends one reply, on the
  -- request's own sender, and the client is told that the object is unknown.
  unknown_device :
      (now : ℕ) (table : DriverTable D World channel) (id : String) (op : WorkerOp) (reply : ℕ)
      (s : Supervisor D World channel)
      → find s.registry.devices id ≡ none
      → ((handle_command D World channel now table (routed id op) s).registry.sent
          ≡ s.registry.sent ++ ((reply_of op, device_not_found id) ∷ []))
        × ((handle_command D World channel now table (get_device_info id reply) s).answers
            ≡ s.answers ++ ((reply, info (failed (device_not_found id))) ∷ []))
        × ((handle_command D World channel now table (get_device_identity id reply) s).answers
            ≡ s.answers ++ ((reply, identity (failed (device_not_found id))) ∷ []))
        × (from_daemon (device_not_found id) ≡ unknown_object id)
  unfolding handle_command send_error send_answer device_info device_identity from_daemon
  unknown_device now table id op reply s e = (
    ap (λ r. r.sent) (route_missing id op s.registry e),
    rw (e, device_info) refl,
    rw (e, device_identity) refl,
    refl,
  )
