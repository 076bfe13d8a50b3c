-- ===== src/Engine/Worker/Steps.antt =====
-- src/engine/mod.rs: an accepted edit and a debounced commit, as single turns of a worker.
use clackd.Base.{ℕ, suc, ◌+◌, ◌≤◌, ◌≡◌, refl, ap, ◌∙◌, true, false, some, arith}
use clackd.Error.{ok, err, DriverError}
use clackd.Hal.{KeyboardDriver}
use clackd.Engine.{set_keycode}
use clackd.Engine.Worker.{
  received, expired, Worker, on_op, on_set_keycode, answer, after_set, layout_updated, is_value,
  is_fatal_driver_error, on_expired, debounced_commit, retire, live_turn, turn,
}
use clackd.Engine.Worker.Replies.{turn-live}

module _ (D : KeyboardDriver) where
  pub set_keycode-arms :
      (now l r c kc reply : ℕ) (w : Worker D)
      → w.running ≡ true
      → (D.set_keycode now l r c kc w.device).0 ≡ ok tt
      → D.emits_layout_event_per_set (D.set_keycode now l r c kc w.device).1 ≡ false
      → let w' = turn D now (received (set_keycode l r c kc reply)) w in
        (w'.device ≡ (D.set_keycode now l r c kc w.device).1)
        × (w'.commit_deadline ≡ some (now + 500))
        × (w'.running ≡ true)
        × (w'.updates ≡ w.updates)
  unfolding live_turn on_op on_set_keycode answer after_set retire is_fatal_driver_error
  set_keycode-arms now l r c kc reply w live e buffered =
      rw (turn-live D now (received (set_keycode l r c kc reply)) w live)
        (rw (e, is_value, is_fatal_driver_error, buffered) (refl, refl, live, refl))

  fires :
      (now d : ℕ) (w : Worker D)
      → w.commit_deadline ≡ some d
      → d ≤ now
      → on_expired D now w ≡ debounced_commit D now w
  unfolding on_expired
  fires now d w e late = ground arith

  committed :
      (now : ℕ) (w : Worker D)
      → let w' = retire D (debounced_commit D now w) in
        (w'.device ≡ (D.commit_to_nvram now w.device).1)
        × ((D.commit_to_nvram now w.device).0 ≡ ok tt → w'.updates ≡ suc w.updates)
        × ((x : DriverError) → (D.commit_to_nvram now w.device).0 ≡ err x → w'.updates ≡ w.updates)
  unfolding retire debounced_commit layout_updated
  committed now w = (ground arith, λ k. ground arith, λ x k. ground arith)

  pub expired-commits :
      (now d : ℕ) (w : Worker D)
      → w.running ≡ true
      → w.commit_deadline ≡ some d
      → d ≤ now
      → let w' = turn D now expired w in
        (w'.device ≡ (D.commit_to_nvram now w.device).1)
        × ((D.commit_to_nvram now w.device).0 ≡ ok tt → w'.updates ≡ suc w.updates)
        × ((x : DriverError) → (D.commit_to_nvram now w.device).0 ≡ err x → w'.updates ≡ w.updates)
  unfolding live_turn
  expired-commits now d w live e late =
      rw (turn-live D now expired w live ∙ ap (retire D) (fires now d w e late)) (committed now w)
