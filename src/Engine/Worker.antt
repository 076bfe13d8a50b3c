-- ===== src/Engine/Worker.antt =====
-- src/engine/mod.rs: the loop of a device's worker, `run_device_worker`, over any driver.
--
-- A state is what the loop keeps between two turns, with what it has sent: its replies in order, the
-- number of `LayoutUpdated` events and of `DeviceError` commands. A turn takes an operation, sees the
-- channel closed, or sees the debounce deadline pass. Times are milliseconds.
pub mod Replies
pub mod Debounce
pub mod Steps
pub mod Examples
use clackd.Base.{
  ℕ, suc, ◌+◌, List, [], ◌∷◌, ◌++◌, Bool, true, false, Option, none, some, ltb, if◌then◌else◌,
}
use clackd.Error.{Result, ok, err, disconnected, permission_denied}
use clackd.Hal.{KeyboardDriver}
use clackd.Engine.{
  DaemonError, driver, WorkerOp, get_keycode, set_keycode, commit, get_macro, set_macro,
  get_lighting, set_lighting, Outcome, value, failed,
}

-- `map_err(DaemonError::from)`.
abbrev from_driver {ℓ} : {A : Type ℓ} → Result A → Outcome A
from_driver (ok a) = value a
from_driver (err e) = failed (driver e)

unfoldable pub is_fatal_driver_error {ℓ} : {A : Type ℓ} → Outcome A → Bool
is_fatal_driver_error (failed (driver disconnected)) = true
is_fatal_driver_error (failed (driver (permission_denied path))) = true
is_fatal_driver_error _ = false

abbrev pub is_value {ℓ} : {A : Type ℓ} → Outcome A → Bool
is_value (value a) = true
is_value (failed e) = false

pub data Reply : Type 0 where
  keycode : Outcome ℕ → Reply
  done : Outcome (Unit {0}) → Reply
  bytes : Outcome (List ℕ) → Reply

abbrev pub legacy_commit_debounce : ℕ
legacy_commit_debounce = 500

pub data Event : Type 0 where
  received : WorkerOp → Event
  closed expired : Event

module _ (D : KeyboardDriver) where
  pub record Worker : Type 0 where
    pub device : D.State
    pub commit_deadline : Option ℕ
    pub replies : List (ℕ × Reply)
    pub updates : ℕ
    pub notices : ℕ
    pub running : Bool

  unfoldable pub spawn : D.State → Worker
  spawn device = record {
    device = device;
    commit_deadline = none;
    replies = [];
    updates = 0;
    notices = 0;
    running = true;
  }

  unfoldable pub answer : ℕ → Reply → D.State → Worker → Worker
  answer reply r device w = record w { device = device; replies = w.replies ++ ((reply, r) ∷ []) }

  unfoldable pub layout_updated : Worker → Worker
  layout_updated w = record w { updates = suc w.updates }

  -- What follows a write that succeeded.
  unfoldable pub after_set : ℕ → Worker → Worker
  after_set now w =
      if D.emits_layout_event_per_set w.device
      then layout_updated w
      else record w { commit_deadline = some (now + legacy_commit_debounce) }

  unfoldable pub on_set_keycode : ℕ → ℕ → ℕ → ℕ → ℕ → ℕ → Worker → Bool × Worker
  on_set_keycode now l r c kc reply w =
      let (res, device) = D.set_keycode now l r c kc w.device in
      let result = from_driver res in
      let w' = answer reply (done result) device w in
      (is_fatal_driver_error result, if is_value result then after_set now w' else w')

  unfoldable pub on_commit : ℕ → ℕ → Worker → Bool × Worker
  on_commit now reply w =
      let (res, device) = D.commit_to_nvram now w.device in
      let result = from_driver res in
      let w' = answer reply (done result) device (record w { commit_deadline = none }) in
      (is_fatal_driver_error result, if is_value result then layout_updated w' else w')

  -- The other operations: a call of the driver whose result is sent.
  unfoldable pub on_call {ℓ} :
      {A : Type ℓ}
      → (Outcome A → Reply)
      → ℕ
      → (D.State → Result A × D.State)
      → Worker
      → Bool × Worker
  on_call wrap reply call w =
      let (res, device) = call w.device in
      let result = from_driver res in
      (is_fatal_driver_error result, answer reply (wrap result) device w)

  unfoldable pub on_op : ℕ → WorkerOp → Worker → Bool × Worker
  on_op now (get_keycode l r c reply) = on_call keycode reply (D.get_keycode now l r c)
  on_op now (set_keycode l r c kc reply) = on_set_keycode now l r c kc reply
  on_op now (commit reply) = on_commit now reply
  on_op now (get_macro o n reply) = on_call bytes reply (D.get_macro_buffer now o n)
  on_op now (set_macro o bs reply) = on_call done reply (D.set_macro_buffer now o bs)
  on_op now (get_lighting c v reply) = on_call bytes reply (D.get_lighting now c v)
  on_op now (set_lighting c v bs reply) = on_call done reply (D.set_lighting now c v bs)

  -- The branch of the deadline: it fires only when a deadline is set and has passed.
  unfoldable pub debounced_commit : ℕ → Worker → Bool × Worker
  debounced_commit now w =
      let (res, device) = D.commit_to_nvram now w.device in
      let result = from_driver res in
      let w' = record w { device = device; commit_deadline = none } in
      (is_fatal_driver_error result, if is_value result then layout_updated w' else w')

  unfoldable pub on_expired : ℕ → Worker → Bool × Worker
  on_expired now w = elim w.commit_deadline [
    | none ↦ (false, w)
    | some d ↦ if ltb now d then (false, w) else debounced_commit now w
  ]

  -- All senders are gone: a pending edit is pushed, and the loop ends.
  unfoldable pub on_closed : ℕ → Worker → Worker
  on_closed now w = elim w.commit_deadline [
    | none ↦ record w { running = false }
    | some d ↦ record w {
      device = (D.commit_to_nvram now w.device).1;
      commit_deadline = none;
      running = false;
    }
  ]

  -- A fatal error is reported to the supervisor, and the loop ends.
  unfoldable pub retire : Bool × Worker → Worker
  retire (true, w) = record w { notices = suc w.notices; running = false }
  retire (false, w) = w

  unfoldable pub live_turn : ℕ → Event → Worker → Worker
  live_turn now (received op) w = retire (on_op now op w)
  live_turn now closed w = on_closed now w
  live_turn now expired w = retire (on_expired now w)

  unfoldable pub turn : ℕ → Event → Worker → Worker
  turn now e w = if w.running then live_turn now e w else w

  unfoldable pub run_device_worker : List (ℕ × Event) → Worker → Worker
  run_device_worker [] w = w
  run_device_worker ((now, e) ∷ es) w = run_device_worker es (turn now e w)
