-- ===== src/Via/Coalescer/Timing.antt =====
-- src/hal/via.rs: when the coalescer flushes, and when a write stays behind.
use clackd.Base.{
  ℕ, ◌+◌, ◌≡◌, ◌≢◌, refl, [], none, some, arith, ◌⊎◌, inl, inr, Option-cases, List, ◌∷◌, ◌∙◌,
}
use clackd.Error.{DriverError, Result, ok, err, Result-cases}
use clackd.Keymap.{Pos, Map, get, remove}
use clackd.Keymap.Sorted.{IsSorted, remove-IsSorted, get-remove}
use clackd.Via.{CoalescerTransport}
use clackd.Via.Device.{IsDevice}
use clackd.Via.Coalescer.{
  HashOrder, Op, flush, get_keycode, set_keycode, Turn, received, expired, Coalescer, flush_keys,
  flush_buffer, on_flush, on_expired, on_set_keycode, on_get_keycode, on_set_lighting, handle, turn,
}
use clackd.Via.Coalescer.Flush.{IsOrder, flush_buffer-Drains}
use clackd.Via.Coalescer.Keymap.{FollowsState}

module _ (T : CoalescerTransport) (order : HashOrder) (flush_interval : ℕ) where
  abbrev flushes : Coalescer T order flush_interval → Result (Unit {0})
  flushes s = (flush_buffer T order s.transport s.buffer).0

  -- A set deadline is not moved by any operation, and only an explicit flush removes it; a deadline
  -- that an operation sets lies one interval ahead, and only a keycode write sets one.
  handle-deadline :
      (now : ℕ) (op : Op) (s : Coalescer T order flush_interval)
      → let s' = (handle T order flush_interval now op s).1 in
        ((op ≡ flush) × (s'.deadline ≡ none))
        ⊎ ((op ≢ flush) × (s'.deadline ≡ s.deadline))
        ⊎ ((p : Pos) × (kc : ℕ) × (op ≡ set_keycode p kc)
            × (s.deadline ≡ none)
            × (s'.deadline ≡ some (now + flush_interval)))
  unfolding handle on_set_keycode on_get_keycode on_flush on_set_lighting
  handle-deadline now (set_keycode p kc) s = elim (Option-cases s.deadline) [
    | inl e ↦ inr (inr (p, kc, refl, e, rw e refl))
    | inr (d, e) ↦ inr (inl ((λ k. cc), rw e refl))
  ]
  handle-deadline now flush s = inl (refl, ground arith)
  handle-deadline now (get_keycode p) s = inr (inl ((λ k. cc), ground arith))
  handle-deadline now op s = inr (inl ((λ k. cc), refl))

  -- Pending writes have a deadline.
  abbrev IsArmed : Coalescer T order flush_interval → Type 0
  IsArmed s = (s.buffer ≡ []) ⊎ ((d : ℕ) × (s.deadline ≡ some d))

  module _ (view : T.State → Pos → ℕ) (Ready : T.State → Type 0) (device : IsDevice T view Ready)
      (lawful : IsOrder order) where
    emptied :
        (f : Pos → ℕ) (s : Coalescer T order flush_interval)
        → FollowsState T order flush_interval view Ready device lawful f s
        → (flush_buffer T order s.transport s.buffer).0 ≡ ok tt
        → (flush_buffer T order s.transport s.buffer).2 ≡ []
    emptied f s h =
        (flush_buffer-Drains T order view Ready device lawful s.transport s.buffer h.ready
          h.sorted).emptied

    expired-IsArmed :
        (f : Pos → ℕ) (now : ℕ) (s : Coalescer T order flush_interval)
        → FollowsState T order flush_interval view Ready device lawful f s
        → IsArmed (on_expired T order flush_interval now s)
    unfolding on_expired
    expired-IsArmed f now s h = elim (Result-cases (flush_buffer T order s.transport s.buffer).0) [
      | inl (u, e) ↦ let n = emptied f s h e in rw (e, on_expired) (inl n)
      | inr (x, e) ↦ rw (e, on_expired) (inr (now + flush_interval, refl))
    ]

    -- Every turn keeps a deadline on the pending writes, but for an explicit flush of which a write
    -- fails.
    turn-IsArmed :
        (f : Pos → ℕ) (now : ℕ) (e : Turn) (s : Coalescer T order flush_interval)
        → FollowsState T order flush_interval view Ready device lawful f s
        → (e ≡ received flush → (flush_buffer T order s.transport s.buffer).0 ≡ ok tt)
        → IsArmed s
        → IsArmed (turn T order flush_interval now e s)
    unfolding turn handle on_set_keycode on_get_keycode on_flush on_set_lighting on_expired
    turn-IsArmed f now (received flush) s h k a =
        let e = k refl in let n = emptied f s h e in rw (e, turn, handle, on_flush) (inl n)
    turn-IsArmed f now (received (set_keycode p kc)) s h k a = elim (Option-cases s.deadline) [
      | inl e ↦ rw e (inr (now + flush_interval, refl))
      | inr (d, e) ↦ rw e (inr (d, refl))
    ]
    turn-IsArmed f now (received op) s h k a = ground arith
    turn-IsArmed f now expired s h k a = ground (arith, expired-IsArmed f now s h)

  expired-none :
      (now : ℕ) (s : Coalescer T order flush_interval)
      → s.deadline ≡ none
      → turn T order flush_interval now expired s ≡ s
  unfolding turn
  expired-none now s e = ground arith

  -- The write that failed: it was pending and is left in the buffer.
  abbrev pub Stays : DriverError → Map ℕ → Map ℕ → Type 0
  Stays x before after =
      (p : Pos) × (kc : ℕ) × (t : T.State) × (get before p ≡ some kc)
      × ((T.set_keycode p kc t).0 ≡ err x)
      × (get after p ≡ some kc)

  flush_keys-Stays :
      (ps : List Pos) (t : T.State) (buffer : Map ℕ) (x : DriverError)
      → IsSorted buffer
      → (flush_keys T order ps t buffer).0 ≡ err x
      → Stays x buffer (flush_keys T order ps t buffer).2
  unfolding flush_keys
  flush_keys-Stays [] t buffer x s e = cc
  flush_keys-Stays (p ∷ ps) t buffer x s e = elim (Option-cases (get buffer p)) [
    | inl h ↦ rw (h, flush_keys) (flush_keys-Stays ps t buffer x s (rw (h, flush_keys) at e))
    | inr (kc, h) ↦ elim (Result-cases (T.set_keycode p kc t).0) [
      | inl (u, sent) ↦
          let (q, v, u', before, failed, after) =
            flush_keys-Stays ps (T.set_keycode p kc t).1 (remove buffer p) x
              (remove-IsSorted buffer p s) (rw (h, sent, flush_keys) at e) in
          rw (h, sent, flush_keys)
            (q, v, u', ground (arith, get-remove buffer p q s, before), failed, after)
      | inr (y, failed) ↦
          rw (h, failed, flush_keys) (p, kc, t, h, failed ∙ (rw (h, failed, flush_keys) at e), h)
    ]
  ]

  flush_buffer-Stays :
      (t : T.State) (buffer : Map ℕ) (x : DriverError)
      → IsSorted buffer
      → (flush_buffer T order t buffer).0 ≡ err x
      → Stays x buffer (flush_buffer T order t buffer).2
  unfolding flush_buffer
  flush_buffer-Stays t [] x s e = cc
  flush_buffer-Stays t (k ∷ m) x s e = flush_keys-Stays _ t (k ∷ m) x s e

  -- Over a buffer in order, an explicit flush of which a write fails leaves that write in the buffer
  -- and drops the deadline, and from there no expiry, however late, changes anything: the write is not
  -- sent.
  pub turn-strands :
      (now : ℕ) (s : Coalescer T order flush_interval) (x : DriverError)
      → IsSorted s.buffer
      → (flush_buffer T order s.transport s.buffer).0 ≡ err x
      → let s' = turn T order flush_interval now (received flush) s in
        Stays x s.buffer s'.buffer
        × (s'.deadline ≡ none)
        × ((later : ℕ) → turn T order flush_interval later expired s' ≡ s')
  unfolding turn handle on_flush
  turn-strands now s x sorted e =
      let none_left : (turn T order flush_interval now (received flush) s).deadline ≡ none =
        rw (e, turn, handle, on_flush) refl in
      (
        rw (e, turn, handle, on_flush) (flush_buffer-Stays s.transport s.buffer x sorted e),
        none_left,
        λ later. expired-none later _ none_left,
      )
