-- ===== src/Via/Writes.antt =====
-- src/hal/via.rs: keycode writes and commits of `ViaDriver`, with and without the coalescer.
use clackd.Base.{ℕ, ◌≡◌, ◌≢◌, refl, ◌∙◌, [], arith}
use clackd.Error.{Result, ok}
use clackd.Keymap.{Pos, get}
use clackd.Keymap.Laws.{eq_of_cmp, cmp_refl}
use clackd.Keymap.Sorted.{IsSorted}
use clackd.Via.{CoalescerTransport}
use clackd.Via.Device.{IsDevice}
use clackd.Via.Coalescer.{
  HashOrder, Op, Reply, number, done, bytes, Coalescer, handle, turn, expired, received, on_flush,
  flush_buffer, save_channels, save_touched_channels,
}
use clackd.Via.Coalescer
use clackd.Via.Coalescer.Flush.{IsOrder, flush_buffer-Drains}
use clackd.Via.Coalescer.Keymap.{write_at, handle-Follows, drained}
use clackd.Via.Driver.{
  as_done, ViaInner, direct, coalesced, ViaDriver, relay, dispatch, set_keycode, commit,
  commit_to_nvram,
}
use clackd.Via.Contract.{ShowsInner, Shows, commit-Shows}

module _ (T : CoalescerTransport) (order : HashOrder) (flush_interval : ℕ)
    (view : T.State → Pos → ℕ) (Ready : T.State → Type 0) (device : IsDevice T view Ready)
    (lawful : IsOrder order) where
  -- What a keycode write leaves: it concerns its position alone, and that surely when it succeeds.
  abbrev WritesInner :
      (Pos → ℕ) → Pos → ℕ → Result (Unit {0}) × ViaInner T order flush_interval → Type 0
  WritesInner f p kc (r, i) =
      (g : Pos → ℕ) × ShowsInner T order flush_interval view Ready device lawful g i
      × ((q : Pos) → q ≢ p → g q ≡ f q)
      × (r ≡ ok tt → g p ≡ kc)

  abbrev pub Writes :
      (Pos → ℕ) → Pos → ℕ → Result (Unit {0}) × ViaDriver T order flush_interval → Type 0
  Writes f p kc (r, d) = WritesInner f p kc (r, d.inner)

  write-WritesInner :
      (f : Pos → ℕ) (now : ℕ) (p : Pos) (kc : ℕ) (i : ViaInner T order flush_interval)
      → ShowsInner T order flush_interval view Ready device lawful f i
      → WritesInner f p kc (
          dispatch T order flush_interval
            (T.set_keycode p kc)
            as_done
            now
            (Coalescer.set_keycode p kc)
            i)
  unfolding dispatch relay get
  write-WritesInner f now p kc (direct t touched) h = (
    view (T.set_keycode p kc t).1,
    record { ready = device.set_ready t p kc h.ready; sorted = tt; reads = λ q. refl },
    λ q n. device.set_other t p q kc h.ready n ∙ h.reads q,
    device.set_self t p kc h.ready,
  )
  write-WritesInner f now p kc (coalesced s) h = (
    write_at f p kc,
    handle-Follows T order flush_interval view Ready device lawful f now
        (Coalescer.set_keycode p kc) s h,
    λ q n. ground (arith, eq_of_cmp q p),
    λ e. ground (arith, cmp_refl p),
  )

  -- With the coalescer or without, a keycode write changes no other position, and when it succeeds its
  -- own reads as the keycode.
  pub set_keycode-Shows :
      (f : Pos → ℕ) (now : ℕ) (p : Pos) (kc : ℕ) (d : ViaDriver T order flush_interval)
      → Shows T order flush_interval view Ready device lawful f d
      → Writes f p kc (set_keycode T order flush_interval now p kc d)
  unfolding set_keycode
  set_keycode-Shows f now p kc d h = write-WritesInner f now p kc d.inner h

  -- The keymap in the device itself.
  abbrev inner_view : ViaInner T order flush_interval → Pos → ℕ
  inner_view (direct t touched) = view t
  inner_view (coalesced s) = view s.transport

  abbrev pub device_view : ViaDriver T order flush_interval → Pos → ℕ
  device_view d = inner_view d.inner

  on_flush-empties :
      (s : Coalescer T order flush_interval)
      → Ready s.transport
      → IsSorted s.buffer
      → as_done (on_flush T order flush_interval s).0 ≡ ok tt
      → (on_flush T order flush_interval s).1.buffer ≡ []
  unfolding on_flush
  on_flush-empties s r o e =
      let d = flush_buffer-Drains T order view Ready device lawful s.transport s.buffer r o in
      ground (arith, d.emptied)

  commit-view :
      (f : Pos → ℕ) (now : ℕ) (i : ViaInner T order flush_interval)
      → ShowsInner T order flush_interval view Ready device lawful f i
      → (commit T order flush_interval now i).0 ≡ ok tt
      → inner_view (commit T order flush_interval now i).1 ≡ f
  unfolding commit relay handle
  commit-view f now (direct t touched) h e =
      drained T order flush_interval view Ready device lawful f _ [] refl
        (commit-Shows T order flush_interval view Ready device lawful f now (direct t touched) h)
  commit-view f now (coalesced s) h e =
      drained T order flush_interval view Ready device lawful f _ _
        (on_flush-empties s h.ready h.sorted e)
        (commit-Shows T order flush_interval view Ready device lawful f now (coalesced s) h)

  -- After a commit that succeeds, the device itself holds what every position reads as, with the
  -- coalescer or without.
  pub commit_to_nvram-view :
      (f : Pos → ℕ) (now : ℕ) (d : ViaDriver T order flush_interval)
      → Shows T order flush_interval view Ready device lawful f d
      → (commit_to_nvram T order flush_interval now d).0 ≡ ok tt
      → device_view (commit_to_nvram T order flush_interval now d).1 ≡ f
  unfolding commit_to_nvram
  commit_to_nvram-view f now d h e = commit-view f now d.inner h e
