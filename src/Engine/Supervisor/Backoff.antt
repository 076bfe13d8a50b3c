-- ===== src/Engine/Supervisor/Backoff.antt =====
-- src/engine/mod.rs: how long and how often `reconnect_task` tries.
use clackd.Base.{ℕ, zero, suc, ◌+◌, ◌*◌, ◌≡◌, List, [], ◌∷◌, ◌++◌, min}
use clackd.Hal.{KeyboardDriver}
use clackd.Engine.{Channel}
use clackd.Engine.Worker.{Worker}
use clackd.Engine.Supervisor.Reconnect.{reconnect_max_backoff_ms, abandoned, gave_up, Run}

-- The delays of a task that is never stopped: doubled each time, up to the greatest.
abbrev schedule : ℕ → ℕ → List ℕ
schedule zero backoff = []
schedule (suc n) backoff = backoff ∷ schedule n (min (backoff * 2) reconnect_max_backoff_ms)

abbrev pub total : List ℕ → ℕ
total [] = 0
total (d ∷ ds) = d + total ds

-- The delays are the first ones of the schedule, and all of them if the task gives up at its end.
abbrev pub Keeps :
    (D : KeyboardDriver) (World : Type 0) (channel : Channel)
    → List ℕ
    → Run D World channel
    → Type 0
Keeps D World channel plan (end, delays, w) =
    (rest : List ℕ) × (plan ≡ delays ++ rest) × (end ≡ gave_up abandoned → rest ≡ [])
