-- ===== src/Engine/Supervisor/Reconnect.antt =====
-- src/engine/mod.rs: `reconnect_task`, which tries to attach a device again with growing delays.
--
-- When the task is cancelled is a parameter: during the sleep before an attempt, or after an attempt
-- that attached the device. The loop counts down the attempts that are left, so it ends.
use clackd.Base.{
  ℕ, zero, suc, ◌*◌, List, [], ◌∷◌, Bool, true, false, none, some, min, if◌then◌else◌,
}
use clackd.Hal.{KeyboardDriver}
use clackd.Engine.{DaemonError, Outcome, value, failed, Channel, DeviceHandle}
use clackd.Engine.Worker.{Worker}
use clackd.Engine.Supervisor.{
  ReconnectCtx, DriverTable, find_factory, try_attach, EngineCommand, device_reattached,
  is_transient_attach_error,
}

abbrev reconnect_initial_backoff_ms : ℕ
reconnect_initial_backoff_ms = 100

abbrev pub reconnect_max_backoff_ms : ℕ
reconnect_max_backoff_ms = 5000

abbrev reconnect_max_attempts : ℕ
reconnect_max_attempts = 8

-- How a task ends without the device.
pub data Failure : Type 0 where
  abandoned cancelled no_factory discarded : Failure
  not_transient : DaemonError → Failure

module _ (D : KeyboardDriver) (World : Type 0) (channel : Channel) where
  pub data Ended : Type 0 where
    reattached : EngineCommand D World channel → Worker D → Ended
    gave_up : Failure → Ended

  -- The end, the delays that were slept through, and the world.
  abbrev pub Run : Type 0
  Run = Ended × List ℕ × World

  -- What follows an attempt: it ends the loop, or the loop goes on.
  unfoldable pub after_attempt :
      ReconnectCtx → Bool → Outcome (DeviceHandle channel × Worker D) → World → Run → Run
  after_attempt ctx cancelled_now (value (handle, worker)) w next =
      if cancelled_now
      then (gave_up discarded, [], w)
      else (reattached (device_reattached ctx.device_id handle ctx.token) worker, [], w)
  after_attempt ctx cancelled_now (failed e) w next =
      if is_transient_attach_error e then next else (gave_up (not_transient e), [], w)

  unfoldable pub slept : ℕ → Run → Run
  slept delay (end, delays, w) = (end, delay ∷ delays, w)

  module _ (now : ℕ) (table : DriverTable D World channel) (ctx : ReconnectCtx)
      (cancelled_asleep cancelled_attached : ℕ → Bool) where
    -- The loop with `left` attempts to go.
    unfoldable pub reconnect_loop : ℕ → ℕ → World → Run
    reconnect_loop zero backoff w = (gave_up abandoned, [], w)
    reconnect_loop (suc left) backoff w = elim (cancelled_asleep left) [
      | true ↦ (gave_up cancelled, [], w)
      | false ↦
          slept backoff (elim (find_factory D World channel table ctx.vendor_id ctx.product_id) [
            | none ↦ (gave_up no_factory, [], w)
            | some factory ↦
                let (r, w') =
                  try_attach D World channel now factory ctx.vendor_id ctx.product_id
                    ctx.hidraw_path w in
                after_attempt ctx (cancelled_attached left) r w'
                  (reconnect_loop left (min (backoff * 2) reconnect_max_backoff_ms) w')
          ])
    ]

    unfoldable pub reconnect_task : World → Run
    reconnect_task w = reconnect_loop reconnect_max_attempts reconnect_initial_backoff_ms w
