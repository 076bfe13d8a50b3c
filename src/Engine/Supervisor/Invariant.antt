-- ===== src/Engine/Supervisor/Invariant.antt =====
-- src/engine/mod.rs: a device is attached or being reconnected, never both, and every pending
-- reconnection has a token that was issued.
use clackd.Base.{ℕ, ◌+◌, ◌^◌, ◌<◌, refl, List, [], ◌∷◌, arith, Bool-cases, inl, inr, length}
use clackd.Hal.{KeyboardDriver}
use clackd.Engine.{Channel, find}
use clackd.Engine.Supervisor.{
  DriverTable, EngineCommand, routed, device_connected, device_disconnected, device_error,
  device_reattached, list_devices, get_device_info, get_device_identity, shutdown, send_answer,
  handle_command, run_supervisor, is_shutdown, start,
}
use clackd.Engine.Supervisor.Advances.{
  IsAnnounced, Advances-refl, Advances-trans, Advances-weaken, still, IsConsistent, Advances, Sup,
}
use clackd.Engine.Supervisor.Handlers.{
  connected-Advances, disconnected-Advances, error-Advances, reattached-Advances, routed-Advances,
}

module _ (D : KeyboardDriver) (World : Type 0) (channel : Channel) where
  command-Advances :
      (now : ℕ) (table : DriverTable D World channel) (c : EngineCommand D World channel)
      (s : Sup D World channel)
      → s.registry.next_reconnect_token + 1 < 2 ^ 64
      → Advances D World channel 1 s (handle_command D World channel now table c s)
  unfolding handle_command send_answer
  command-Advances now table (routed id op) s room =
      Advances-weaken D World channel 0 1 s _ (omega arith)
        (routed-Advances D World channel id op s)
  command-Advances now table (device_connected id vid pid path) s room =
      connected-Advances D World channel now table id vid pid path s room
  command-Advances now table (device_disconnected id) s room =
      Advances-weaken D World channel 0 1 s _ (omega arith)
        (disconnected-Advances D World channel id s)
  command-Advances now table (device_error id e) s room = error-Advances D World channel id e s room
  command-Advances now table (device_reattached id handle token) s room =
      Advances-weaken D World channel 0 1 s _ (omega arith)
        (reattached-Advances D World channel id handle token s)
  command-Advances now table (list_devices reply) s room =
      Advances-weaken D World channel 0 1 s _ (omega arith) (still D World channel s _ refl refl)
  command-Advances now table (get_device_info id reply) s room =
      Advances-weaken D World channel 0 1 s _ (omega arith) (still D World channel s _ refl refl)
  command-Advances now table (get_device_identity id reply) s room =
      Advances-weaken D World channel 0 1 s _ (omega arith) (still D World channel s _ refl refl)
  command-Advances now table shutdown s room =
      Advances-weaken D World channel 0 1 s _ (omega arith) (still D World channel s _ refl refl)

  cleared-Advances :
      (n : ℕ) (s : Sup D World channel)
      → Advances D World channel n s (record s { registry = record (s.registry) { devices = [] } })
  unfolding find
  cleared-Advances n s = record {
    consistent = λ h. record { exclusive = λ j d e. cc; issued = h.issued };
    announces = λ h j d e. cc;
    grows = omega arith;
    spends = omega arith;
    renews = λ j t e. inl e;
  }

  -- Whatever commands come, a supervisor that has not used up its tokens keeps a device from being
  -- attached and reconnected at once and every pending token issued, issues at most one token for each
  -- command, and makes no reconnection pending again under an old token.
  pub run-Advances :
      (table : DriverTable D World channel) (cs : List (ℕ × EngineCommand D World channel))
      (s : Sup D World channel)
      → s.registry.next_reconnect_token + length cs < 2 ^ 64
      → Advances D World channel (length cs) s (run_supervisor D World channel table cs s)
  unfolding run_supervisor
  run-Advances table [] s room = Advances-refl D World channel s
  run-Advances table ((now, c) ∷ cs) s room =
      let s1 = handle_command D World channel now table c s in
      let first = command-Advances now table c s (omega arith) in
      elim (Bool-cases (is_shutdown D World channel c)) [
        | inl e ↦ rw e (cleared-Advances (length ((now, c) ∷ cs)) s)
        | inr e ↦ rw e (
            Advances-weaken D World channel (1 + length cs) (length ((now, c) ∷ cs)) s _
              (omega arith)
              (Advances-trans D World channel 1 (length cs) s s1
                (run_supervisor D World channel table cs s1) first
                (run-Advances table cs s1 (omega (arith, first.spends)))))
      ]

  start-IsConsistent : (w : World) → IsConsistent D World channel (start D World channel w)
  unfolding start find
  start-IsConsistent w = record { exclusive = λ j d e. refl; issued = λ j t e. cc }

  -- From the start, whatever commands come, no device is both attached and being reconnected.
  pub run-IsConsistent :
      (table : DriverTable D World channel) (cs : List (ℕ × EngineCommand D World channel))
      (w : World)
      → length cs < 2 ^ 64
      → IsConsistent D World channel
          (run_supervisor D World channel table cs (start D World channel w))
  unfolding start
  run-IsConsistent table cs w room =
      (run-Advances table cs (start D World channel w) (omega arith)).consistent
        (start-IsConsistent w)

  start-IsAnnounced : (w : World) → IsAnnounced D World channel (start D World channel w)
  unfolding start find
  start-IsAnnounced w id h e = cc

  -- From the start, whatever commands come, the last event about a device that is attached says that it
  -- was added.
  pub run-IsAnnounced :
      (table : DriverTable D World channel) (cs : List (ℕ × EngineCommand D World channel))
      (w : World)
      → length cs < 2 ^ 64
      → IsAnnounced D World channel
          (run_supervisor D World channel table cs (start D World channel w))
  unfolding start
  run-IsAnnounced table cs w room =
      (run-Advances table cs (start D World channel w) (omega arith)).announces
        (start-IsAnnounced w)
