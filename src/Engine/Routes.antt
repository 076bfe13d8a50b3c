-- ===== src/Engine/Routes.antt =====
-- src/engine/mod.rs: what a routed command leaves of the registry.
use clackd.Base.{
  ℕ, ◌≡◌, refl, sym, ◌∙◌, Bool-cases, inl, inr, Bool, true, false, some, String, arith,
  if◌then◌else◌,
}
use clackd.Engine.{
  DaemonError, WorkerOp, get_keycode, set_keycode, commit, get_macro, set_macro, get_lighting,
  set_lighting, Channel, find, put, evict, same_id, DeviceHandle, DeviceRegistry, send_error,
  reply_with_error, surface_worker_send_failure, submit, route_command, dispatch_get, dispatch_set,
  dispatch_commit, dispatch_macro_get, dispatch_macro_set, dispatch_lighting_get,
  dispatch_lighting_set, reply_of,
}
use clackd.Engine.Devices.{find-put, find-evict, eq_of_same}
use clackd.Engine.Dispatch.{with_device-cases, TrySend-cases}

module _ (channel : Channel) where
  -- The reconnections and the tokens stay, and no device is added.
  pub record Narrows (s s' : DeviceRegistry channel) : Type 0 where
    pub reconnecting : s'.reconnecting ≡ s.reconnecting
    pub tokens : s'.next_reconnect_token ≡ s.next_reconnect_token
    pub devices :
        (id : String) (h : DeviceHandle channel)
        → find s'.devices id ≡ some h
        → (h' : DeviceHandle channel) × (find s.devices id ≡ some h')

  error-Narrows :
      (reply : ℕ) (e : DaemonError) (s : DeviceRegistry channel)
      → Narrows s (send_error channel reply e s)
  unfolding send_error
  error-Narrows reply e s = record { reconnecting = refl; tokens = refl; devices = λ j h k. (h, k) }

  put_found :
      (id : String) (h g : DeviceHandle channel) (s : DeviceRegistry channel)
      → find s.devices id ≡ some h
      → (j : String) (x : DeviceHandle channel) → find (put s.devices id g) j ≡ some x
      → (h' : DeviceHandle channel) × (find s.devices j ≡ some h')
  put_found id h g s e j x k = elim (Bool-cases (same_id id j)) [
    | inl same ↦ (h, rw (← eq_of_same id j same) e)
    | inr other ↦ (x, rw other at (sym (find-put s.devices id j g) ∙ k))
  ]

  evict_found :
      (id : String) (h g : DeviceHandle channel) (s : DeviceRegistry channel)
      → find s.devices id ≡ some h
      → (j : String) (x : DeviceHandle channel) → find (evict (put s.devices id g) id) j ≡ some x
      → (h' : DeviceHandle channel) × (find s.devices j ≡ some h')
  evict_found id h g s e j x k =
      put_found id h g s e j x (ground (arith, find-evict (put s.devices id g) id j))

  submit-Narrows :
      (id : String) (h : DeviceHandle channel) (op : WorkerOp) (s : DeviceRegistry channel)
      → find s.devices id ≡ some h
      → Narrows s (submit channel id h op s)
  unfolding submit surface_worker_send_failure reply_with_error send_error
  submit-Narrows id h op s e =
      let g : DeviceHandle channel = record h { tx = (channel.try_send op h.tx).1 } in
      elim (TrySend-cases channel (channel.try_send op h.tx).0) [
        | inl r ↦
            rw (r, submit, surface_worker_send_failure)
              (record { reconnecting = refl; tokens = refl; devices = put_found id h g s e })
        | inr (inl r) ↦
            rw (r, submit, surface_worker_send_failure, reply_with_error, send_error)
              (record { reconnecting = refl; tokens = refl; devices = put_found id h g s e })
        | inr (inr r) ↦
            rw (r, submit, surface_worker_send_failure, reply_with_error, send_error)
              (record { reconnecting = refl; tokens = refl; devices = evict_found id h g s e })
      ]

  bounded-Narrows :
      (id : String) (h : DeviceHandle channel) (op : WorkerOp) (e : DaemonError)
      (s : DeviceRegistry channel) (b : Bool)
      → find s.devices id ≡ some h
      → Narrows s (if b then submit channel id h op s else send_error channel (reply_of op) e s)
  bounded-Narrows id h op e s true f = submit-Narrows id h op s f
  bounded-Narrows id h op e s false f = error-Narrows (reply_of op) e s

  pub route_command-Narrows :
      (id : String) (op : WorkerOp) (s : DeviceRegistry channel)
      → Narrows s (route_command channel id op s)
  unfolding route_command dispatch_get dispatch_set dispatch_commit dispatch_macro_get
      dispatch_macro_set dispatch_lighting_get dispatch_lighting_set
  route_command-Narrows id (get_keycode l r c reply) s =
      with_device-cases channel (Narrows s) id reply _ s (λ e. error-Narrows reply _ s)
        (λ h e. bounded-Narrows id h _ _ s _ e)
  route_command-Narrows id (set_keycode l r c kc reply) s =
      with_device-cases channel (Narrows s) id reply _ s (λ e. error-Narrows reply _ s)
        (λ h e. bounded-Narrows id h _ _ s _ e)
  route_command-Narrows id (commit reply) s =
      with_device-cases channel (Narrows s) id reply _ s (λ e. error-Narrows reply _ s)
        (λ h e. submit-Narrows id h _ s e)
  route_command-Narrows id (get_macro o n reply) s =
      with_device-cases channel (Narrows s) id reply _ s (λ e. error-Narrows reply _ s)
        (λ h e. submit-Narrows id h _ s e)
  route_command-Narrows id (set_macro o bs reply) s =
      with_device-cases channel (Narrows s) id reply _ s (λ e. error-Narrows reply _ s)
        (λ h e. submit-Narrows id h _ s e)
  route_command-Narrows id (get_lighting c v reply) s =
      with_device-cases channel (Narrows s) id reply _ s (λ e. error-Narrows reply _ s)
        (λ h e. submit-Narrows id h _ s e)
  route_command-Narrows id (set_lighting c v bs reply) s =
      with_device-cases channel (Narrows s) id reply _ s (λ e. error-Narrows reply _ s)
        (λ h e. submit-Narrows id h _ s e)
