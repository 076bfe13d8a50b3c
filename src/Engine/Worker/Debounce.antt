-- ===== src/Engine/Worker/Debounce.antt =====
-- src/engine/mod.rs: the debounced commits of a worker over a buffered driver.
use clackd.Base.{
  ℕ, ◌+◌, ◌≡◌, refl, sym, ◌∙◌, List, [], ◌∷◌, Bool, true, false, Option, none, some, arith,
  Bool-cases, Option-cases, inl, inr, ltb,
}
use clackd.Error.{Result, ok, err, is_ok, Result-cases}
use clackd.Hal.{KeyboardDriver}
use clackd.Engine.{
  WorkerOp, get_keycode, set_keycode, commit, get_macro, set_macro, get_lighting, set_lighting,
}
use clackd.Engine.Worker.{
  is_value, Event, received, closed, expired, Worker, answer, layout_updated, after_set,
  on_set_keycode, on_commit, on_call, on_op, debounced_commit, on_expired, on_closed, retire,
  live_turn, turn, run_device_worker, legacy_commit_debounce, spawn,
}
use clackd.Engine.Worker.Replies.{turn-live, turn-stopped}

-- What a driver sees: an edit that it accepts, and a commit that is tried, with its success.
pub data Seen : Type 0 where
  edit : ℕ → Seen
  tried : ℕ → Bool → Seen

-- The time of the last edit, where no commit was tried since, successful or not.
abbrev untried : List Seen → Option ℕ
untried [] = none
untried (edit t ∷ log) = some t
untried (tried t done ∷ log) = none

-- The time of the last accepted edit, where no commit has succeeded since.
abbrev unsaved : List Seen → Option ℕ
unsaved [] = none
unsaved (edit t ∷ log) = some t
unsaved (tried t true ∷ log) = none
unsaved (tried t false ∷ log) = unsaved log

-- No commit of the log failed.
abbrev NoneFailed : List Seen → Type 0
NoneFailed [] = Unit {0}
NoneFailed (edit t ∷ log) = NoneFailed log
NoneFailed (tried t done ∷ log) = (done ≡ true) × NoneFailed log

unsaved-untried : (log : List Seen) → NoneFailed log → untried log ≡ none → unsaved log ≡ none
unsaved-untried [] h e = refl
unsaved-untried (edit t ∷ log) h e = e
unsaved-untried (tried t true ∷ log) h e = refl
unsaved-untried (tried t false ∷ log) h e = cc

module _ (D : KeyboardDriver) where
  abbrev noted : ℕ → Result (Unit {0}) → List Seen → List Seen
  noted now (ok u) log = edit now ∷ log
  noted now (err e) log = log

  -- A buffered driver, with a log of what it saw, the last entry first.
  abbrev pub observed : KeyboardDriver
  observed = record {
    State = D.State × List Seen;
    get_matrix_dimensions = λ t s. let (r, d) = D.get_matrix_dimensions t s.0 in (r, (d, s.1));
    get_layer_count = λ t s. let (r, d) = D.get_layer_count t s.0 in (r, (d, s.1));
    get_keycode = λ t l r c s. let (x, d) = D.get_keycode t l r c s.0 in (x, (d, s.1));
    set_keycode =
        λ t l r c k s. let (x, d) = D.set_keycode t l r c k s.0 in (x, (d, noted t x s.1));
    get_macro_buffer = λ t o n s. let (r, d) = D.get_macro_buffer t o n s.0 in (r, (d, s.1));
    set_macro_buffer = λ t o bs s. let (r, d) = D.set_macro_buffer t o bs s.0 in (r, (d, s.1));
    get_lighting = λ t c v s. let (r, d) = D.get_lighting t c v s.0 in (r, (d, s.1));
    set_lighting = λ t c v bs s. let (r, d) = D.set_lighting t c v bs s.0 in (r, (d, s.1));
    commit_to_nvram =
        λ t s. let (r, d) = D.commit_to_nvram t s.0 in (r, (d, tried t (is_ok r) ∷ s.1));
    emits_layout_event_per_set = λ s. false;
    model_name = λ s. D.model_name s.0;
  }

  abbrev due : Option ℕ → Option ℕ
  due none = none
  due (some t) = some (t + legacy_commit_debounce)

  -- While a worker runs, its deadline is half a second after the last edit for which no commit was
  -- tried since, and there is none without one. When it has stopped without an error, a commit was
  -- tried behind every edit, and when none failed, no edit is unsaved.
  pub record IsDebounced (w : Worker observed) : Type 0 where
    armed : w.running ≡ true → w.commit_deadline ≡ due (untried w.device.1)
    pub settled :
        w.running ≡ false
        → w.notices ≡ 0
        → (untried w.device.1 ≡ none) × (NoneFailed w.device.1 → unsaved w.device.1 ≡ none)

  pub spawn-IsDebounced : (d : D.State) → IsDebounced (spawn observed (d, []))
  unfolding spawn
  spawn-IsDebounced d = record { armed = λ h. refl; settled = λ h k. (refl, λ n. refl) }

  retire-IsDebounced :
      (b : Bool) (w : Worker observed)
      → w.commit_deadline ≡ due (untried w.device.1)
      → w.running ≡ true
      → IsDebounced (retire observed (b, w))
  unfolding retire
  retire-IsDebounced true w h r = record { armed = λ k. cc; settled = λ k n. absurd (omega arith) }
  retire-IsDebounced false w h r = record { armed = λ k. h; settled = λ k n. cc }

  abbrev IsDue : Worker observed → Type 0
  IsDue w = (w.commit_deadline ≡ due (untried w.device.1)) × (w.running ≡ true)

  op-IsDue :
      (now : ℕ) (op : WorkerOp) (w : Worker observed) → IsDue w → IsDue (on_op observed now op w).1
  unfolding on_op on_call on_set_keycode on_commit answer after_set layout_updated
  op-IsDue now (get_keycode l r c reply) w h = h
  op-IsDue now (set_keycode l r c kc reply) w h =
      elim (Result-cases (D.set_keycode now l r c kc w.device.0).0) [
        | inl (u, e) ↦ rw (e, is_value, noted) (refl, h.1)
        | inr (x, e) ↦ rw (e, is_value, noted) h
      ]
  op-IsDue now (commit reply) w h = elim (Result-cases (D.commit_to_nvram now w.device.0).0) [
    | inl (u, e) ↦ rw (e, is_value) (refl, h.1)
    | inr (x, e) ↦ rw (e, is_value) (refl, h.1)
  ]
  op-IsDue now (get_macro o n reply) w h = h
  op-IsDue now (set_macro o bs reply) w h = h
  op-IsDue now (get_lighting c v reply) w h = h
  op-IsDue now (set_lighting c v bs reply) w h = h

  commit-IsDue :
      (now : ℕ) (w : Worker observed) → IsDue w → IsDue (debounced_commit observed now w).1
  unfolding debounced_commit layout_updated
  commit-IsDue now w h = elim (Result-cases (D.commit_to_nvram now w.device.0).0) [
    | inl (u, e) ↦ rw (e, is_value) (refl, h.1)
    | inr (x, e) ↦ rw (e, is_value) (refl, h.1)
  ]

  expired-IsDue : (now : ℕ) (w : Worker observed) → IsDue w → IsDue (on_expired observed now w).1
  unfolding on_expired
  expired-IsDue now w h = elim (Option-cases w.commit_deadline) [
    | inl e ↦ rw (e, on_expired) h
    | inr (d, e) ↦ elim (Bool-cases (ltb now d)) [
      | inl early ↦ rw (e, early, on_expired) h
      | inr late ↦ rw (e, late, on_expired) (commit-IsDue now w h)
    ]
  ]

  not_due : (o : Option ℕ) → due o ≡ none → o ≡ none
  not_due none h = refl
  not_due (some t) h = cc

  closed-IsDebounced :
      (now : ℕ) (w : Worker observed) → IsDue w → IsDebounced (on_closed observed now w)
  unfolding on_closed
  closed-IsDebounced now w h = elim (Option-cases w.commit_deadline) [
    | inl e ↦
        rw (e, on_closed)
          (let none_left = not_due (untried w.device.1) (sym h.0 ∙ e) in
            record {
              armed = λ k. cc;
              settled = λ k n. (none_left, λ m. unsaved-untried w.device.1 m none_left);
            })
    | inr (d, e) ↦
        rw (e, on_closed)
          (record {
            armed = λ k. cc;
            settled = λ k n. (
              refl,
              λ m.
                  unsaved-untried
                    (tried now (is_ok (D.commit_to_nvram now w.device.0).0) ∷ w.device.1) m refl,
            );
          })
  ]

  live_turn-IsDebounced :
      (now : ℕ) (e : Event) (w : Worker observed)
      → IsDue w
      → IsDebounced (live_turn observed now e w)
  unfolding live_turn
  live_turn-IsDebounced now (received op) w h =
      let (d, r) = op-IsDue now op w h in
      retire-IsDebounced (on_op observed now op w).0 (on_op observed now op w).1 d r
  live_turn-IsDebounced now closed w h = closed-IsDebounced now w h
  live_turn-IsDebounced now expired w h =
      let (d, r) = expired-IsDue now w h in
      retire-IsDebounced (on_expired observed now w).0 (on_expired observed now w).1 d r

  turn-IsDebounced :
      (now : ℕ) (e : Event) (w : Worker observed)
      → IsDebounced w
      → IsDebounced (turn observed now e w)
  turn-IsDebounced now e w h = elim (Bool-cases w.running) [
    | inl live ↦
        rw (turn-live observed now e w live) (live_turn-IsDebounced now e w (h.armed live, live))
    | inr dead ↦ rw (turn-stopped observed now e w dead) h
  ]

  -- Over a buffered driver, whatever operations come and whichever calls fail, a running worker has its
  -- deadline half a second after the last accepted edit for which no commit was tried since, and none
  -- without one: a failed commit is not retried. A worker that has stopped without an error has tried a
  -- commit behind every accepted edit, and when no commit failed, every edit is saved.
  pub run-IsDebounced :
      (es : List (ℕ × Event)) (w : Worker observed)
      → IsDebounced w
      → IsDebounced (run_device_worker observed es w)
  unfolding run_device_worker
  run-IsDebounced [] w h = h
  run-IsDebounced ((now, e) ∷ es) w h =
      run-IsDebounced es (turn observed now e w) (turn-IsDebounced now e w h)
