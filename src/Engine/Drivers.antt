-- ===== src/Engine/Drivers.antt =====
-- The two drivers behind the trait `KeyboardDriver` (src/hal/via.rs and src/hal/legacy/gmk67.rs), and
-- the worker of src/engine/mod.rs over the GMK67's.
use clackd.Base.{
  ℕ, suc, ◌+◌, ◌≤◌, ◌≡◌, refl, ap, ◌∙◌, [], true, false, some, arith, ◌⊎◌, inl, inr, Option-cases,
  ◌∷◌, ◌++◌,
}
use clackd.Error.{DriverError, Result, ok, err}
use clackd.Keymap.{Pos, Map, at, get, insert}
use clackd.Keymap.Laws.{get-insert_self}
use clackd.Shadow
use clackd.Gmk67.Matrix.{key_index_for, keydef_command}
use clackd.Shadow.{ShadowState, is_dirty, dirty_layers}
use clackd.Shadow.Store.{Disk}
use clackd.Hal.{KeyboardDriver}
use clackd.Via.{CoalescerTransport}
use clackd.Via.Coalescer.{HashOrder}
use clackd.Via.Driver
use clackd.Gmk67.Driver.{Gmk67Io, Gmk67Driver}
use clackd.Gmk67.Methods
use clackd.Gmk67.Wire.{recorded}
use clackd.Gmk67.Commit.Sent.{layers_frames}
use clackd.Gmk67.Commit.Ends.{Refuses, Ends, commit_to_nvram-Ends}
use clackd.Engine.{set_keycode}
use clackd.Engine.Worker.{received, expired, Worker, turn}
use clackd.Engine.Worker.Steps.{set_keycode-arms, expired-commits}

-- VIA's model name is the trait's default.
unfoldable via_keyboard : CoalescerTransport → HashOrder → ℕ → KeyboardDriver
via_keyboard T order flush_interval = record {
  State = Driver.ViaDriver T order flush_interval;
  get_matrix_dimensions = Driver.get_matrix_dimensions T order flush_interval;
  get_layer_count = Driver.get_layer_count T order flush_interval;
  get_keycode = λ now l r c. Driver.get_keycode T order flush_interval now (at l r c);
  set_keycode = λ now l r c kc. Driver.set_keycode T order flush_interval now (at l r c) kc;
  get_macro_buffer = Driver.get_macro_buffer T order flush_interval;
  set_macro_buffer = Driver.set_macro_buffer T order flush_interval;
  get_lighting = Driver.get_lighting T order flush_interval;
  set_lighting = Driver.set_lighting T order flush_interval;
  commit_to_nvram = Driver.commit_to_nvram T order flush_interval;
  emits_layout_event_per_set = Driver.emits_layout_event_per_set T order flush_interval;
  model_name = λ s. "VIA keyboard";
}

abbrev pub gmk67_keyboard : Gmk67Io → Disk → KeyboardDriver
gmk67_keyboard bus disk = record {
  State = Gmk67Driver bus disk;
  get_matrix_dimensions = λ now. Methods.get_matrix_dimensions bus disk;
  get_layer_count = λ now. Methods.get_layer_count bus disk;
  get_keycode = λ now l r c. Methods.get_keycode bus disk (at l r c);
  set_keycode = λ now l r c kc. Methods.set_keycode bus disk (at l r c) kc;
  get_macro_buffer = λ now. Methods.get_macro_buffer bus disk;
  set_macro_buffer = λ now. Methods.set_macro_buffer bus disk;
  get_lighting = λ now. Methods.get_lighting bus disk;
  set_lighting = λ now. Methods.set_lighting bus disk;
  commit_to_nvram = λ now. Methods.commit_to_nvram bus disk;
  emits_layout_event_per_set = λ s. false;
  model_name = λ s. "GMK67/EK68";
}

edited-IsDirty : (s : ShadowState) (p : Pos) (kc : ℕ) → is_dirty (Shadow.set_keycode s p kc) ≡ true
unfolding Shadow.set_keycode is_dirty insert
edited-IsDirty s p kc = dirty s.dirty
  where
    dirty : (m : Map ℕ) → is_dirty (Shadow.set_keycode (record s { dirty = m }) p kc) ≡ true
    dirty [] = refl
    dirty (e ∷ m) = ground arith

module _ (bus : Gmk67Io) (disk : Disk) where
  abbrev Board : Type 0
  Board = Gmk67Driver (recorded bus) disk

  abbrev Gmk67Worker : Type 0
  Gmk67Worker = Worker (gmk67_keyboard (recorded bus) disk)

  -- What half a second without a further edit makes of an accepted keycode: every layer with a pending
  -- edit was sent, the keycode is confirmed and announced; or the board refused a frame, the keymap is
  -- the one committed last, and nothing is announced.
  abbrev pub Settles : ℕ → ℕ → ℕ → ℕ → Gmk67Worker → Gmk67Worker → Type 0
  Settles l r c kc w w' =
      let edited = Shadow.set_keycode w.device.shadow (at l r c) kc in
      ((w'.device.world.1 ≡ w.device.world.1 ++ layers_frames edited (dirty_layers edited))
        × (get w'.device.shadow.confirmed (at l r c) ≡ some kc)
        × (w'.device.shadow.dirty ≡ [])
        × (w'.updates ≡ suc w.updates))
      ⊎ ((e : DriverError) × Refuses bus disk e
          × (w'.device.shadow.keymap ≡ w.device.shadow.confirmed)
          × (w'.device.shadow.dirty ≡ [])
          × (w'.updates ≡ w.updates))

  -- An accepted keycode is in the shadow, and nothing was sent.
  accepted :
      (l r c kc : ℕ) (s : Board)
      → (Methods.set_keycode (recorded bus) disk (at l r c) kc s).0 ≡ ok tt
      → (Methods.set_keycode (recorded bus) disk (at l r c) kc s).1
        ≡ record s { shadow = Shadow.set_keycode s.shadow (at l r c) kc }
  unfolding Methods.set_keycode
  accepted l r c kc s e = elim (Option-cases (keydef_command l)) [
    | inl k ↦ cc (rw (k, Methods.set_keycode) at e)
    | inr (command, k) ↦ elim (Option-cases (key_index_for r c)) [
      | inl i ↦ cc (rw (k, i, Methods.set_keycode) at e)
      | inr (ki, i) ↦ rw (k, i, Methods.set_keycode) refl
    ]
  ]

  Ends-Settles :
      (l r c kc : ℕ) (w w' : Gmk67Worker) (x : Result (Unit {0}) × Board)
      → Ends bus disk
          (record w.device { shadow = Shadow.set_keycode w.device.shadow (at l r c) kc })
          x
      → w'.device ≡ x.1
      → (x.0 ≡ ok tt → w'.updates ≡ suc w.updates)
      → ((e : DriverError) → x.0 ≡ err e → w'.updates ≡ w.updates)
      → Settles l r c kc w w'
  unfolding Shadow.set_keycode
  Ends-Settles l r c kc w w' (ok u, s') (sent, _, conf, clean, _, _) d done failed = inl (
    ap (λ t. t.world.1) d ∙ sent,
    ap (λ t. get t.shadow.confirmed (at l r c)) d
        ∙ (ap (λ m. get m (at l r c)) conf ∙ get-insert_self w.device.shadow.keymap (at l r c) kc),
    ap (λ t. t.shadow.dirty) d ∙ clean,
    done refl,
  )
  Ends-Settles l r c kc w w' (err e, s') (refused, back, _, clean, _, _) d done failed = inr (
    e,
    refused,
    ap (λ t. t.shadow.keymap) d ∙ back,
    ap (λ t. t.shadow.dirty) d ∙ clean,
    failed e refl,
  )

  -- A keycode that the GMK67 of a running worker accepts is, after a turn of the deadline half a second
  -- later or more, confirmed and announced, and the board was sent the whole transaction of every layer
  -- with a pending edit; or the board refused a frame, the keymap is the one committed last, and nothing
  -- is announced. Either way nothing is pending.
  pub edit-Settles :
      (now later l r c kc reply : ℕ) (w : Gmk67Worker)
      → w.running ≡ true
      → (Methods.set_keycode (recorded bus) disk (at l r c) kc w.device).0 ≡ ok tt
      → now + 500 ≤ later
      → let K = gmk67_keyboard (recorded bus) disk in
        Settles l r c kc w
          (turn K later expired (turn K now (received (set_keycode l r c kc reply)) w))
  edit-Settles now later l r c kc reply w live e late =
      let K = gmk67_keyboard (recorded bus) disk in
      let w1 = turn K now (received (set_keycode l r c kc reply)) w in
      let edited : Board = record w.device {
        shadow = Shadow.set_keycode w.device.shadow (at l r c) kc;
      } in
      let (device, deadline, live', updates) =
        set_keycode-arms K now l r c kc reply w live e refl in
      let (d, done, failed) = expired-commits K later (now + 500) w1 live' deadline late in
      let commit = Methods.commit_to_nvram (recorded bus) disk in
      let is : w1.device ≡ edited = device ∙ accepted l r c kc w.device e in
      let ends =
        (commit_to_nvram-Ends bus disk edited).1 (edited-IsDirty w.device.shadow (at l r c) kc) in
      let w2 = turn K later expired w1 in
      Ends-Settles l r c kc w w2 (commit edited) ends (d ∙ ap (λ s. (commit s).1) is)
        (λ k. done (ap (λ s. (commit s).0) is ∙ k) ∙ ap suc updates)
        (λ x k. failed x (ap (λ s. (commit s).0) is ∙ k) ∙ updates)
