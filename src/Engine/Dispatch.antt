-- ===== src/Engine/Dispatch.antt =====
-- src/engine/mod.rs: each command that is routed is handed to the worker of its device or answered,
-- and the other devices are left alone.
use clackd.Base.{
  ℕ, ◌≡◌, ◌≢◌, ◌⊎◌, inl, inr, refl, ap, ◌∙◌, if◌then◌else◌, [], ◌∷◌, ◌++◌, Bool, true, false, none,
  some, String, arith, Option-cases, ◌<◌,
}
use clackd.Engine.{
  DeviceTopology, matrix_contains, topology_contains, DaemonError, device_not_found, WorkerOp,
  get_keycode, set_keycode, commit, get_macro, set_macro, get_lighting, set_lighting, TrySend,
  accepted, full, closed, Channel, find, put, reply_of, DeviceHandle, DeviceRegistry, send_error,
  reply_with_error, surface_worker_send_failure, submit, with_device, dispatch_get, dispatch_set,
  dispatch_commit, dispatch_macro_get, dispatch_macro_set, dispatch_lighting_get,
  dispatch_lighting_set, route_command,
}
use clackd.Engine.Devices.{find-put_self, find-put_other, find-evict_self, find-evict_other}

-- The position that an operation names lies within the topology.
abbrev InBounds : DeviceTopology → WorkerOp → Type 0
InBounds t (get_keycode l r c reply) =
    (l < t.layer_count) × (r < t.matrix.rows) × (c < t.matrix.cols)
InBounds t (set_keycode l r c kc reply) =
    (l < t.layer_count) × (r < t.matrix.rows) × (c < t.matrix.cols)
InBounds t op = Unit {0}

contains_lem :
    (t : DeviceTopology) (l r c : ℕ)
    → topology_contains t l r c ≡ true
    → (l < t.layer_count) × (r < t.matrix.rows) × (c < t.matrix.cols)
unfolding topology_contains matrix_contains
contains_lem t l r c h = ground arith

module _ (channel : Channel) where
  abbrev pub Handed : String → WorkerOp → DeviceRegistry channel → DeviceRegistry channel → Type 0
  Handed id op s s' =
      (h : DeviceHandle channel) × (find s.devices id ≡ some h)
      × InBounds h.topology op
      × ((channel.try_send op h.tx).0 ≡ accepted)
      × (find s'.devices id ≡ some (record h { tx = (channel.try_send op h.tx).1 }))
      × (s'.sent ≡ s.sent)

  abbrev pub Answered : WorkerOp → DeviceRegistry channel → DeviceRegistry channel → Type 0
  Answered op s s' = (e : DaemonError) × (s'.sent ≡ s.sent ++ ((reply_of op, e) ∷ []))

  abbrev Leaves : String → DeviceRegistry channel → DeviceRegistry channel → Type 0
  Leaves other s s' =
      (find s'.devices other ≡ find s.devices other) × (s'.reconnecting ≡ s.reconnecting)

  pub TrySend-cases : (r : TrySend) → (r ≡ accepted) ⊎ (r ≡ full) ⊎ (r ≡ closed)
  TrySend-cases accepted = inl refl
  TrySend-cases full = inr (inl refl)
  TrySend-cases closed = inr (inr refl)

  submit-once :
      (id : String) (h : DeviceHandle channel) (op : WorkerOp) (s : DeviceRegistry channel)
      → find s.devices id ≡ some h
      → InBounds h.topology op
      → let s' = submit channel id h op s in Handed id op s s' ⊎ Answered op s s'
  unfolding submit surface_worker_send_failure reply_with_error send_error
  submit-once id h op s e b = elim (TrySend-cases (channel.try_send op h.tx).0) [
    | inl r ↦
        rw (r, submit, surface_worker_send_failure)
          (inl (h, e, b, r, find-put_self s.devices id _, refl))
    | inr (inl r) ↦
        rw (r, submit, surface_worker_send_failure, reply_with_error, send_error) (inr (_, refl))
    | inr (inr r) ↦
        rw (r, submit, surface_worker_send_failure, reply_with_error, send_error) (inr (_, refl))
  ]

  submit-other :
      (id other : String) (h : DeviceHandle channel) (op : WorkerOp) (s : DeviceRegistry channel)
      → id ≢ other
      → Leaves other s (submit channel id h op s)
  unfolding submit surface_worker_send_failure reply_with_error send_error
  submit-other id other h op s n =
      let h' : DeviceHandle channel = record h { tx = (channel.try_send op h.tx).1 } in
      let kept = find-put_other s.devices id other h' n in
      elim (TrySend-cases (channel.try_send op h.tx).0) [
        | inl r ↦ rw (r, submit, surface_worker_send_failure) (kept, refl)
        | inr (inl r) ↦
            rw (r, submit, surface_worker_send_failure, reply_with_error, send_error) (kept, refl)
        | inr (inr r) ↦
            rw (r, submit, surface_worker_send_failure, reply_with_error, send_error)
              (find-evict_other (put s.devices id h') id other n ∙ kept, refl)
      ]

  pub with_device-cases :
      (P : DeviceRegistry channel → Type 0) (id : String) (reply : ℕ)
      (k : DeviceHandle channel → DeviceRegistry channel → DeviceRegistry channel)
      (s : DeviceRegistry channel)
      → (find s.devices id ≡ none → P (send_error channel reply (device_not_found id) s))
      → ((h : DeviceHandle channel) → find s.devices id ≡ some h → P (k h s))
      → P (with_device channel id reply k s)
  unfolding with_device
  with_device-cases P id reply k s absent present = elim (Option-cases (find s.devices id)) [
    | inl e ↦ rw (e, with_device) (absent e)
    | inr (h, e) ↦ rw (e, with_device) (present h e)
  ]

  missing-Answered :
      (op : WorkerOp) (e : DaemonError) (s : DeviceRegistry channel)
      → Answered op s (send_error channel (reply_of op) e s)
  unfolding send_error
  missing-Answered op e s = (e, refl)

  bounded-once :
      (id : String) (h : DeviceHandle channel) (op : WorkerOp) (e : DaemonError)
      (s : DeviceRegistry channel) (b : Bool)
      → find s.devices id ≡ some h
      → (b ≡ true → InBounds h.topology op)
      → let s' = if b then submit channel id h op s else send_error channel (reply_of op) e s in
        Handed id op s s' ⊎ Answered op s s'
  bounded-once id h op e s true f g = submit-once id h op s f (g refl)
  bounded-once id h op e s false f g = inr (missing-Answered op e s)

  -- Each command is either handed to the worker of its device, and then its device is registered, its
  -- position is within the device's topology, the channel accepts the operation and no error is sent, or
  -- exactly one error is sent, on the command's own reply sender.
  pub route_command-once :
      (id : String) (op : WorkerOp) (s : DeviceRegistry channel)
      → let s' = route_command channel id op s in Handed id op s s' ⊎ Answered op s s'
  unfolding route_command dispatch_get dispatch_set dispatch_commit dispatch_macro_get
      dispatch_macro_set dispatch_lighting_get dispatch_lighting_set
  route_command-once id (get_keycode l r c reply) s =
      with_device-cases
        (λ s'. Handed id (get_keycode l r c reply) s s' ⊎ Answered (get_keycode l r c reply) s s')
        id reply _ s (λ e. inr (missing-Answered (get_keycode l r c reply) _ s))
        (λ h e. bounded-once id h _ _ s _ e (contains_lem h.topology l r c))
  route_command-once id (set_keycode l r c kc reply) s =
      with_device-cases
        (λ s'.
          Handed id (set_keycode l r c kc reply) s s' ⊎ Answered (set_keycode l r c kc reply) s s')
        id reply _ s (λ e. inr (missing-Answered (set_keycode l r c kc reply) _ s))
        (λ h e. bounded-once id h _ _ s _ e (contains_lem h.topology l r c))
  route_command-once id (commit reply) s =
      with_device-cases (λ s'. Handed id (commit reply) s s' ⊎ Answered (commit reply) s s') id
        reply _ s (λ e. inr (missing-Answered (commit reply) _ s))
        (λ h e. submit-once id h _ s e tt)
  route_command-once id (get_macro o n reply) s =
      with_device-cases
        (λ s'. Handed id (get_macro o n reply) s s' ⊎ Answered (get_macro o n reply) s s') id reply
        _ s (λ e. inr (missing-Answered (get_macro o n reply) _ s))
        (λ h e. submit-once id h _ s e tt)
  route_command-once id (set_macro o bs reply) s =
      with_device-cases
        (λ s'. Handed id (set_macro o bs reply) s s' ⊎ Answered (set_macro o bs reply) s s') id
        reply _ s (λ e. inr (missing-Answered (set_macro o bs reply) _ s))
        (λ h e. submit-once id h _ s e tt)
  route_command-once id (get_lighting c v reply) s =
      with_device-cases
        (λ s'. Handed id (get_lighting c v reply) s s' ⊎ Answered (get_lighting c v reply) s s') id
        reply _ s (λ e. inr (missing-Answered (get_lighting c v reply) _ s))
        (λ h e. submit-once id h _ s e tt)
  route_command-once id (set_lighting c v bs reply) s =
      with_device-cases
        (λ s'.
          Handed id (set_lighting c v bs reply) s s' ⊎ Answered (set_lighting c v bs reply) s s')
        id reply _ s (λ e. inr (missing-Answered (set_lighting c v bs reply) _ s))
        (λ h e. submit-once id h _ s e tt)

  error-Leaves :
      (other : String) (reply : ℕ) (e : DaemonError) (s : DeviceRegistry channel)
      → Leaves other s (send_error channel reply e s)
  unfolding send_error
  error-Leaves other reply e s = (refl, refl)

  bounded-other :
      (id other : String) (h : DeviceHandle channel) (op : WorkerOp) (e : DaemonError)
      (s : DeviceRegistry channel) (b : Bool)
      → id ≢ other
      → Leaves other s
          (if b then submit channel id h op s else send_error channel (reply_of op) e s)
  bounded-other id other h op e s true n = submit-other id other h op s n
  bounded-other id other h op e s false n = error-Leaves other (reply_of op) e s

  -- A command leaves the handles of the other devices and the pending reconnections as they are, also
  -- when its own device is evicted because the worker is gone.
  route_command-other :
      (id other : String) (op : WorkerOp) (s : DeviceRegistry channel)
      → id ≢ other
      → Leaves other s (route_command channel id op s)
  unfolding route_command dispatch_get dispatch_set dispatch_commit dispatch_macro_get
      dispatch_macro_set dispatch_lighting_get dispatch_lighting_set
  route_command-other id other (get_keycode l r c reply) s d =
      with_device-cases (Leaves other s) id reply _ s (λ e. error-Leaves other reply _ s)
        (λ h e. bounded-other id other h _ _ s _ d)
  route_command-other id other (set_keycode l r c kc reply) s d =
      with_device-cases (Leaves other s) id reply _ s (λ e. error-Leaves other reply _ s)
        (λ h e. bounded-other id other h _ _ s _ d)
  route_command-other id other (commit reply) s d =
      with_device-cases (Leaves other s) id reply _ s (λ e. error-Leaves other reply _ s)
        (λ h e. submit-other id other h _ s d)
  route_command-other id other (get_macro o n reply) s d =
      with_device-cases (Leaves other s) id reply _ s (λ e. error-Leaves other reply _ s)
        (λ h e. submit-other id other h _ s d)
  route_command-other id other (set_macro o bs reply) s d =
      with_device-cases (Leaves other s) id reply _ s (λ e. error-Leaves other reply _ s)
        (λ h e. submit-other id other h _ s d)
  route_command-other id other (get_lighting c v reply) s d =
      with_device-cases (Leaves other s) id reply _ s (λ e. error-Leaves other reply _ s)
        (λ h e. submit-other id other h _ s d)
  route_command-other id other (set_lighting c v bs reply) s d =
      with_device-cases (Leaves other s) id reply _ s (λ e. error-Leaves other reply _ s)
        (λ h e. submit-other id other h _ s d)

  pub evicted-missing :
      (id : String) (h : DeviceHandle channel) (op : WorkerOp) (s : DeviceRegistry channel)
      → (channel.try_send op h.tx).0 ≡ closed
      → find (submit channel id h op s).devices id ≡ none
  unfolding submit surface_worker_send_failure reply_with_error send_error
  evicted-missing id h op s e =
      rw (e, submit, surface_worker_send_failure, reply_with_error, send_error)
        (find-evict_self (put s.devices id (record h { tx = (channel.try_send op h.tx).1 })) id)

  with_device-missing :
      (id : String) (reply : ℕ)
      (k : DeviceHandle channel → DeviceRegistry channel → DeviceRegistry channel)
      (s : DeviceRegistry channel)
      → find s.devices id ≡ none
      → with_device channel id reply k s ≡ send_error channel reply (device_not_found id) s
  unfolding with_device
  with_device-missing id reply k s e = rw (e, with_device) refl

  pub with_device-present :
      (id : String) (reply : ℕ)
      (k : DeviceHandle channel → DeviceRegistry channel → DeviceRegistry channel)
      (s : DeviceRegistry channel) (h : DeviceHandle channel)
      → find s.devices id ≡ some h
      → with_device channel id reply k s ≡ k h s
  unfolding with_device
  with_device-present id reply k s h e = rw (e, with_device) refl

  route_command-missing :
      (id : String) (op : WorkerOp) (s : DeviceRegistry channel)
      → find s.devices id ≡ none
      → route_command channel id op s ≡ send_error channel (reply_of op) (device_not_found id) s
  unfolding route_command dispatch_get dispatch_set dispatch_commit dispatch_macro_get
      dispatch_macro_set dispatch_lighting_get dispatch_lighting_set
  route_command-missing id (get_keycode l r c reply) s e = with_device-missing id reply _ s e
  route_command-missing id (set_keycode l r c kc reply) s e = with_device-missing id reply _ s e
  route_command-missing id (commit reply) s e = with_device-missing id reply _ s e
  route_command-missing id (get_macro o n reply) s e = with_device-missing id reply _ s e
  route_command-missing id (set_macro o bs reply) s e = with_device-missing id reply _ s e
  route_command-missing id (get_lighting c v reply) s e = with_device-missing id reply _ s e
  route_command-missing id (set_lighting c v bs reply) s e = with_device-missing id reply _ s e

  -- After a commit whose worker is gone, every further command to the device is answered with
  -- `device_not_found` and changes nothing else.
  route_command-evicted :
      (id : String) (reply : ℕ) (h : DeviceHandle channel) (op : WorkerOp)
      (s : DeviceRegistry channel)
      → find s.devices id ≡ some h
      → (channel.try_send (commit reply) h.tx).0 ≡ closed
      → let s' = route_command channel id (commit reply) s in
        route_command channel id op s' ≡ send_error channel (reply_of op) (device_not_found id) s'
  unfolding route_command dispatch_commit
  route_command-evicted id reply h op s e k =
      let gone : find (route_command channel id (commit reply) s).devices id ≡ none =
        ap (λ t. find t.devices id) (with_device-present id reply _ s h e)
        ∙ evicted-missing id h (commit reply) s k in
      route_command-missing id op (route_command channel id (commit reply) s) gone
