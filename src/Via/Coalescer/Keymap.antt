-- ===== src/Via/Coalescer/Keymap.antt =====
-- src/hal/via.rs: the coalescer against its contract, a keymap that reads what was last written.
use clackd.Base.{
  ℕ, ◌≡◌, refl, ◌∙◌, ap, fun_ext, List, [], ◌∷◌, arith, inl, inr, Option-cases, Ordering,
}
use clackd.Error.{ok, Result-cases}
use clackd.Keymap.{Pos, Map, get, insert, cmp}
use clackd.Keymap.Laws.{get-insert}
use clackd.Keymap.Sorted.{IsSorted, insert-IsSorted}
use clackd.Via.{CoalescerTransport}
use clackd.Via.Device.{IsDevice}
use clackd.Via.Coalescer.{
  HashOrder, Op, get_protocol_version, get_layer_count, flush, get_keycode, set_keycode, get_macro,
  set_macro, get_lighting, set_lighting, number, Turn, received, expired, Coalescer, flush_buffer,
  save_channels, save_touched_channels, on_flush, on_expired, on_set_keycode, on_get_keycode,
  on_set_lighting, handle, turn, run, final_flush, final_save, shutdown,
}
use clackd.Via.Coalescer.Flush.{IsOrder, seen, flush_buffer-Drains}

-- The contract: a function from positions to keycodes, changed by the keycode writes alone.
abbrev pub write_at : (Pos → ℕ) → Pos → ℕ → Pos → ℕ
write_at f p kc q = elim (cmp q p) [ Ordering.eq ↦ kc | _ ↦ f q ]

abbrev pub contract : (Pos → ℕ) → List (ℕ × Turn) → Pos → ℕ
contract f [] = f
contract f ((now, received (set_keycode p kc)) ∷ es) = contract (write_at f p kc) es
contract f (e ∷ es) = contract f es

module _ (T : CoalescerTransport) (order : HashOrder) (flush_interval : ℕ)
    (view : T.State → Pos → ℕ) (Ready : T.State → Type 0) (device : IsDevice T view Ready)
    (lawful : IsOrder order) where
  -- Host and device are in step, and every position reads as the function says.
  pub record Follows (f : Pos → ℕ) (t : T.State) (buffer : Map ℕ) : Type 0 where
    pub ready : Ready t
    pub sorted : IsSorted buffer
    pub reads : (p : Pos) → seen (view t) buffer p ≡ f p

  Follows-drain :
      (f : Pos → ℕ) (t : T.State) (buffer : Map ℕ)
      → Follows f t buffer
      → let (r, t', buffer') = flush_buffer T order t buffer in Follows f t' buffer'
  Follows-drain f t buffer h =
      let d = flush_buffer-Drains T order view Ready device lawful t buffer h.ready h.sorted in
      record { ready = d.ready; sorted = d.sorted; reads = λ p. d.same_seen p ∙ h.reads p }

  -- A call that leaves the keymap alone.
  Follows-quiet :
      (f : Pos → ℕ) (t t' : T.State) (buffer : Map ℕ)
      → Ready t'
      → view t' ≡ view t
      → Follows f t buffer
      → Follows f t' buffer
  Follows-quiet f t t' buffer r e h = record {
    ready = r;
    sorted = h.sorted;
    reads = λ p. ap (λ v. seen v buffer p) e ∙ h.reads p;
  }

  pub save_channels-Follows :
      (f : Pos → ℕ) (cs : List ℕ) (t : T.State) (channels : List ℕ) (buffer : Map ℕ)
      → Follows f t buffer
      → Follows f (save_channels T order cs t channels).1 buffer
  unfolding save_channels
  save_channels-Follows f [] t channels buffer h = h
  save_channels-Follows f (c ∷ cs) t channels buffer h =
      let t' = (T.custom_save c t).1 in
      let h' =
        Follows-quiet f t t' buffer (device.save_ready t c h.ready) (device.save_keeps t c h.ready)
          h in
      elim (Result-cases (T.custom_save c t).0) [
        | inl (u, e) ↦ rw (e, save_channels) (save_channels-Follows f cs t' _ buffer h')
        | inr (x, e) ↦ rw (e, save_channels) h'
      ]

  abbrev pub FollowsState : (Pos → ℕ) → Coalescer T order flush_interval → Type 0
  FollowsState f s = Follows f s.transport s.buffer

  on_flush-Follows :
      (f : Pos → ℕ) (s : Coalescer T order flush_interval)
      → FollowsState f s
      → FollowsState f (on_flush T order flush_interval s).1
  unfolding on_flush save_touched_channels
  on_flush-Follows f s h =
      let (r, t, buffer) = flush_buffer T order s.transport s.buffer in
      let h' = Follows-drain f s.transport s.buffer h in
      elim (Result-cases (flush_buffer T order s.transport s.buffer).0) [
        | inl (u, e) ↦
            rw (e, on_flush)
              (save_channels-Follows f (order.channels s.touched) t s.touched buffer h')
        | inr (x, e) ↦ rw (e, on_flush) h'
      ]

  on_expired-Follows :
      (f : Pos → ℕ) (now : ℕ) (s : Coalescer T order flush_interval)
      → FollowsState f s
      → FollowsState f (on_expired T order flush_interval now s)
  unfolding on_expired
  on_expired-Follows f now s h = ground (arith, Follows-drain f s.transport s.buffer h)

  set_keycode-Follows :
      (f : Pos → ℕ) (t : T.State) (buffer : Map ℕ) (p : Pos) (kc : ℕ)
      → Follows f t buffer
      → Follows (write_at f p kc) t (insert buffer p kc)
  set_keycode-Follows f t buffer p kc h = record {
    ready = h.ready;
    sorted = insert-IsSorted buffer p kc h.sorted;
    reads = λ q. ground (arith, get-insert buffer p kc q, h.reads q);
  }

  on_get_keycode-Follows :
      (f : Pos → ℕ) (s : Coalescer T order flush_interval) (p : Pos)
      → FollowsState f s
      → FollowsState f (on_get_keycode T order flush_interval p s).1
  unfolding on_get_keycode
  on_get_keycode-Follows f s p h = ground (
    arith,
    Follows-quiet f s.transport (T.get_keycode p s.transport).1 s.buffer
        (device.get_ready s.transport p h.ready) (device.get_keeps s.transport p h.ready) h,
  )

  -- An operation acts on the keymap as the contract says.
  pub handle-Follows :
      (f : Pos → ℕ) (now : ℕ) (op : Op) (s : Coalescer T order flush_interval)
      → FollowsState f s
      → FollowsState
          (contract f ((now, received op) ∷ []))
          (handle T order flush_interval now op s).1
  unfolding handle on_set_keycode on_set_lighting
  handle-Follows f now (set_keycode p kc) s h = set_keycode-Follows f s.transport s.buffer p kc h
  handle-Follows f now (get_keycode p) s h = on_get_keycode-Follows f s p h
  handle-Follows f now flush s h = on_flush-Follows f s h
  handle-Follows f now get_layer_count s h =
      Follows-quiet f s.transport _ s.buffer (device.layers_ready s.transport h.ready)
        (device.layers_keeps s.transport h.ready) h
  handle-Follows f now get_protocol_version s h =
      Follows-quiet f s.transport _ s.buffer (device.version_ready s.transport h.ready)
        (device.version_keeps s.transport h.ready) h
  handle-Follows f now (get_macro o n) s h =
      Follows-quiet f s.transport _ s.buffer (device.get_macro_ready s.transport o n h.ready)
        (device.get_macro_keeps s.transport o n h.ready) h
  handle-Follows f now (set_macro o bs) s h =
      Follows-quiet f s.transport _ s.buffer (device.set_macro_ready s.transport o bs h.ready)
        (device.set_macro_keeps s.transport o bs h.ready) h
  handle-Follows f now (get_lighting c v) s h =
      Follows-quiet f s.transport _ s.buffer (device.get_lighting_ready s.transport c v h.ready)
        (device.get_lighting_keeps s.transport c v h.ready) h
  handle-Follows f now (set_lighting c v bs) s h =
      Follows-quiet f s.transport _ s.buffer (device.set_lighting_ready s.transport c v bs h.ready)
        (device.set_lighting_keeps s.transport c v bs h.ready) h

  pub turn-Follows :
      (f : Pos → ℕ) (now : ℕ) (e : Turn) (s : Coalescer T order flush_interval)
      → FollowsState f s
      → FollowsState (contract f ((now, e) ∷ [])) (turn T order flush_interval now e s)
  unfolding turn
  turn-Follows f now (received op) s h = handle-Follows f now op s h
  turn-Follows f now expired s h = ground (arith, on_expired-Follows f now s h)

  contract-cons :
      (f : Pos → ℕ) (now : ℕ) (e : Turn) (es : List (ℕ × Turn))
      → contract f ((now, e) ∷ es) ≡ contract (contract f ((now, e) ∷ [])) es
  contract-cons f now (received (set_keycode p kc)) es = refl
  contract-cons f now (received flush) es = refl
  contract-cons f now (received op) es = refl
  contract-cons f now expired es = refl

  -- The coalescer is a keymap: over any device, whatever turns the loop takes and whichever calls
  -- of the device fail, every position reads as the last keycode written to it, and one that was
  -- not written as the device had it.
  pub run-Follows :
      (es : List (ℕ × Turn)) (f : Pos → ℕ) (s : Coalescer T order flush_interval)
      → FollowsState f s
      → FollowsState (contract f es) (run T order flush_interval es s)
  unfolding run
  run-Follows [] f s h = h
  run-Follows ((now, e) ∷ es) f s h = rw (contract-cons f now e es) (
      run-Follows es (contract f ((now, e) ∷ [])) (turn T order flush_interval now e s)
        (turn-Follows f now e s h))

  -- A read that is answered returns the keycode that the position reads as.
  get_keycode_answer :
      (f : Pos → ℕ) (now : ℕ) (s : Coalescer T order flush_interval) (p : Pos) (kc : ℕ)
      → FollowsState f s
      → (handle T order flush_interval now (get_keycode p) s).0 ≡ number (ok kc)
      → kc ≡ f p
  unfolding handle on_get_keycode
  get_keycode_answer f now s p kc h e = elim (Option-cases (get s.buffer p)) [
    | inr (v, b) ↦ ground (arith, h.reads p)
    | inl b ↦ ground (arith, h.reads p, device.get_reads s.transport p kc h.ready)
  ]

  pub drained :
      (f : Pos → ℕ) (t : T.State) (buffer : Map ℕ) → buffer ≡ [] → Follows f t buffer → view t ≡ f
  unfolding get
  drained f t buffer e h = fun_ext λ p. ground (arith, h.reads p)

  final_flush-Follows :
      (f : Pos → ℕ) (s : Coalescer T order flush_interval)
      → (flush_buffer T order s.transport s.buffer).0 ≡ ok tt
      → FollowsState f s
      → let s' = final_flush T order flush_interval s in (s'.buffer ≡ []) × FollowsState f s'
  unfolding final_flush
  final_flush-Follows f s accepts h =
      let d =
        flush_buffer-Drains T order view Ready device lawful s.transport s.buffer h.ready
          h.sorted in
      ground (arith, Follows-drain f s.transport s.buffer h, d.emptied accepts)

  final_save-Follows :
      (f : Pos → ℕ) (s : Coalescer T order flush_interval)
      → FollowsState f s
      → let s' = final_save T order flush_interval s in (s'.buffer ≡ s.buffer) × FollowsState f s'
  unfolding final_save save_touched_channels
  final_save-Follows f s h =
      ground
        (arith, save_channels-Follows f (order.channels s.touched) s.transport s.touched s.buffer h)

  -- When the channel is closed and the last flush succeeds, the device ends up with every keycode that
  -- was written, whatever came of the last save, and nothing is left in the buffer.
  pub shutdown_lem :
      (f : Pos → ℕ) (s : Coalescer T order flush_interval)
      → (flush_buffer T order s.transport s.buffer).0 ≡ ok tt
      → FollowsState f s
      → let s' = shutdown T order flush_interval s in (s'.buffer ≡ []) × (view s'.transport ≡ f)
  unfolding shutdown
  shutdown_lem f s accepts h =
      let flushed = final_flush-Follows f s accepts h in
      let saved = final_save-Follows f (final_flush T order flush_interval s) flushed.1 in
      let e = saved.0 ∙ flushed.0 in (e, drained f _ _ e saved.1)
