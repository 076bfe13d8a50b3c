-- ===== src/Via/Contract.antt =====
-- src/hal/via.rs: `ViaDriver` keeps the contract of `KeyboardDriver`, with and without the
-- coalescer.
use clackd.Base.{ℕ, ◌≡◌, refl, ◌∙◌, ap, List, [], ◌∷◌, inl, inr, Option-cases}
use clackd.Error.{Result, Result-cases}
use clackd.Keymap.{Pos, get}
use clackd.Via.{CoalescerTransport}
use clackd.Via.Device.{IsDevice}
use clackd.Via.Coalescer.{
  HashOrder, Op, Reply, number, done, bytes, Coalescer, handle, turn, expired, received, on_flush,
  flush_buffer, save_channels, save_touched_channels,
}
use clackd.Via.Coalescer
use clackd.Via.Coalescer.Flush.{IsOrder}
use clackd.Via.Coalescer.Keymap.{
  contract, Follows, FollowsState, handle-Follows, turn-Follows, save_channels-Follows,
}
use clackd.Via.Driver.{
  as_number, as_done, as_bytes, ViaInner, direct, coalesced, ViaDriver, relay, dispatch,
  ensure_protocol_version, get_matrix_dimensions, get_layer_count, get_keycode, get_macro_buffer,
  set_macro_buffer, get_lighting, light, set_lighting, commit, commit_to_nvram,
}

-- The calls that write no keycode, and the expiry of the actor's deadline.
pub data Request : Type 0 where
  dimensions layers commits expires : Request
  reads_key : Pos → Request
  reads_macro : ℕ → ℕ → Request
  writes_macro : ℕ → List ℕ → Request
  reads_light : ℕ → ℕ → Request
  writes_light : ℕ → ℕ → List ℕ → Request

module _ (T : CoalescerTransport) (order : HashOrder) (flush_interval : ℕ)
    (view : T.State → Pos → ℕ) (Ready : T.State → Type 0) (device : IsDevice T view Ready)
    (lawful : IsOrder order) where
  abbrev Inner : Type 0
  Inner = ViaInner T order flush_interval

  abbrev pub Driver : Type 0
  Driver = ViaDriver T order flush_interval

  -- Every position reads as the function says, on the device or in the coalescer.
  abbrev pub ShowsInner : (Pos → ℕ) → Inner → Type 0
  ShowsInner f (direct t touched) = Follows T order flush_interval view Ready device lawful f t []
  ShowsInner f (coalesced s) = FollowsState T order flush_interval view Ready device lawful f s

  abbrev pub Shows : (Pos → ℕ) → Driver → Type 0
  Shows f d = ShowsInner f d.inner

  abbrev expire : ℕ → Inner → Inner
  expire now (direct t touched) = direct t touched
  expire now (coalesced s) = coalesced (turn T order flush_interval now expired s)

  abbrev pub request : ℕ → Request → Driver → Driver
  request now dimensions d = (get_matrix_dimensions T order flush_interval now d).1
  request now layers d = (get_layer_count T order flush_interval now d).1
  request now commits d = (commit_to_nvram T order flush_interval now d).1
  request now expires d = record d { inner = expire now d.inner }
  request now (reads_key p) d = (get_keycode T order flush_interval now p d).1
  request now (reads_macro o n) d = (get_macro_buffer T order flush_interval now o n d).1
  request now (writes_macro o bs) d = (set_macro_buffer T order flush_interval now o bs d).1
  request now (reads_light c v) d = (get_lighting T order flush_interval now c v d).1
  request now (writes_light c v bs) d = (set_lighting T order flush_interval now c v bs d).1

  direct-Shows :
      (f : Pos → ℕ) (t t' : T.State)
      → Ready t'
      → view t' ≡ view t
      → Follows T order flush_interval view Ready device lawful f t []
      → Follows T order flush_interval view Ready device lawful f t' []
  unfolding get
  direct-Shows f t t' r e h = record {
    ready = r;
    sorted = tt;
    reads = λ p. ap (λ v. v p) e ∙ h.reads p;
  }

  -- A method that writes no keycode, through either arm.
  dispatch-Shows :
      {A : Type 0} (f : Pos → ℕ) (call : T.State → Result A × T.State) (read : Reply → Result A)
      (now : ℕ) (op : Op) (i : Inner)
      → ((t : T.State) → Ready t → Ready (call t).1 × (view (call t).1 ≡ view t))
      → contract f ((now, received op) ∷ []) ≡ f
      → ShowsInner f i
      → ShowsInner f (dispatch T order flush_interval call read now op i).1
  unfolding dispatch relay
  dispatch-Shows f call read now op (direct t touched) quiet e h =
      direct-Shows f t (call t).1 (quiet t h.ready).0 (quiet t h.ready).1 h
  dispatch-Shows f call read now op (coalesced s) quiet e h =
      rw e at (handle-Follows T order flush_interval view Ready device lawful f now op s h)

  ensure-Shows :
      (f : Pos → ℕ) (now : ℕ) (d : Driver)
      → Shows f d
      → Shows f (ensure_protocol_version T order flush_interval now d).1
  unfolding ensure_protocol_version
  ensure-Shows f now d h = elim (Option-cases d.protocol_version) [
    | inr (v, e) ↦ rw (e, ensure_protocol_version) h
    | inl e ↦
        rw (e, ensure_protocol_version)
          (dispatch-Shows f T.get_protocol_version as_number now Coalescer.get_protocol_version
            d.inner (λ t r. (device.version_ready t r, device.version_keeps t r)) refl h)
  ]

  layers-Shows :
      (f : Pos → ℕ) (now : ℕ) (d : Driver)
      → Shows f d
      → Shows f (get_layer_count T order flush_interval now d).1
  unfolding get_layer_count
  layers-Shows f now d h =
      let e = ensure-Shows f now d h in
      elim (Result-cases (ensure_protocol_version T order flush_interval now d).0) [
        | inl (u, k) ↦
            rw (k, get_layer_count)
              (dispatch-Shows f T.get_layer_count as_number now Coalescer.get_layer_count _
                (λ t r. (device.layers_ready t r, device.layers_keeps t r)) refl e)
        | inr (x, k) ↦ rw (k, get_layer_count) e
      ]

  save-Shows :
      (f : Pos → ℕ) (t : T.State) (touched : List ℕ)
      → Follows T order flush_interval view Ready device lawful f t []
      → Follows T order flush_interval view Ready device lawful f
          (save_touched_channels T order t touched).1
          []
  unfolding save_touched_channels
  save-Shows f t touched h =
      save_channels-Follows T order flush_interval view Ready device lawful f
        (order.channels touched) t touched [] h

  pub commit-Shows :
      (f : Pos → ℕ) (now : ℕ) (i : Inner)
      → ShowsInner f i
      → ShowsInner f (commit T order flush_interval now i).1
  unfolding commit relay
  commit-Shows f now (direct t touched) h = save-Shows f t touched h
  commit-Shows f now (coalesced s) h =
      handle-Follows T order flush_interval view Ready device lawful f now Coalescer.flush s h

  light-Shows :
      (f : Pos → ℕ) (now c v : ℕ) (bs : List ℕ) (i : Inner)
      → ShowsInner f i
      → ShowsInner f (light T order flush_interval now c v bs i).1
  unfolding light relay
  light-Shows f now c v bs (direct t touched) h =
      direct-Shows f t _ (device.set_lighting_ready t c v bs h.ready)
        (device.set_lighting_keeps t c v bs h.ready) h
  light-Shows f now c v bs (coalesced s) h =
      handle-Follows T order flush_interval view Ready device lawful f now
        (Coalescer.set_lighting c v bs) s h

  expire-Shows : (f : Pos → ℕ) (now : ℕ) (i : Inner) → ShowsInner f i → ShowsInner f (expire now i)
  expire-Shows f now (direct t touched) h = h
  expire-Shows f now (coalesced s) h =
      turn-Follows T order flush_interval view Ready device lawful f now expired s h

  -- With the coalescer or without, no call but a keycode write changes what any position reads as,
  -- whether it succeeds or fails.
  pub request-Shows :
      (f : Pos → ℕ) (now : ℕ) (r : Request) (d : Driver) → Shows f d → Shows f (request now r d)
  unfolding get_matrix_dimensions get_keycode get_macro_buffer set_macro_buffer get_lighting
      set_lighting commit_to_nvram
  request-Shows f now dimensions d h = ensure-Shows f now d h
  request-Shows f now layers d h = layers-Shows f now d h
  request-Shows f now commits d h = commit-Shows f now d.inner h
  request-Shows f now expires d h = expire-Shows f now d.inner h
  request-Shows f now (reads_key p) d h =
      dispatch-Shows f (T.get_keycode p) as_number now (Coalescer.get_keycode p) d.inner
        (λ t r. (device.get_ready t p r, device.get_keeps t p r)) refl h
  request-Shows f now (reads_macro o n) d h =
      dispatch-Shows f (T.get_macro_buffer o n) as_bytes now (Coalescer.get_macro o n) d.inner
        (λ t r. (device.get_macro_ready t o n r, device.get_macro_keeps t o n r)) refl h
  request-Shows f now (writes_macro o bs) d h =
      dispatch-Shows f (T.set_macro_buffer o bs) as_done now (Coalescer.set_macro o bs) d.inner
        (λ t r. (device.set_macro_ready t o bs r, device.set_macro_keeps t o bs r)) refl h
  request-Shows f now (reads_light c v) d h =
      dispatch-Shows f (T.get_lighting c v) as_bytes now (Coalescer.get_lighting c v) d.inner
        (λ t r. (device.get_lighting_ready t c v r, device.get_lighting_keeps t c v r)) refl h
  request-Shows f now (writes_light c v bs) d h = light-Shows f now c v bs d.inner h
