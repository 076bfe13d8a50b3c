-- ===== src/Engine/Supervisor/Examples.antt =====
-- A supervisor whose only keyboard can be attached, and its theorems.
use clackd.Base.{
  ℕ, ◌≡◌, refl, List, [], ◌∷◌, ◌++◌, Bool, false, true, none, some, arith, if◌then◌else◌,
}
use clackd.Error.{disconnected}
use clackd.Engine.{evict, put, driver, value, commit, Channel, closed, accepted, DeviceHandle, find}
use clackd.Engine.Worker.Examples.{one_key}
use clackd.Engine.Supervisor.{
  device_added, device_removed, on_connected, find_factory, find_pair, try_attach, attach_device,
  attached, register, emit, forget_reconnect, ReconnectCtx, DriverTable, EngineCommand, routed,
  device_connected, device_disconnected, device_error, device_reattached, Supervisor,
  handle_command, run_supervisor, start,
}
use clackd.Engine.Supervisor.Advances.{IsConsistent, IsAnnounced, device_of, task_of}
use clackd.Engine.Supervisor.Recovers.{context, error_reattach}
use clackd.Engine.Worker.{spawn}
use clackd.Engine.Supervisor.Invariant.{run-IsConsistent, run-IsAnnounced}
use clackd.Engine.Supervisor.Stale.{reattach_stale, closed-unannounced}

-- A channel that is open or closed.
abbrev line : Channel
line = record {
  Sender = Bool;
  fresh = true;
  try_send = λ op b. (if b then accepted else closed, b);
}

-- Every node opens, and the world is unchanged.
abbrev table : DriverTable one_key (Unit {0}) line
table = record { by_vid_pid = []; via_fallback = some (λ path w. (value 0, w)) }

abbrev unplugged : DeviceHandle line
unplugged = record {
  topology = record { matrix = record { rows = 1; cols = 1 }; layer_count = 1 };
  model = "one key";
  tx = false;
  vendor_id = 1;
  product_id = 2;
  hidraw_path = "/dev/hidraw0";
}

abbrev session : List (ℕ × EngineCommand one_key (Unit {0}) line)
session =
    (100, device_connected "hidraw0" 1 2 "/dev/hidraw0")
    ∷ (200, device_error "hidraw0" (driver disconnected))
    ∷ []

run-IsConsistent_example :
    IsConsistent one_key
      (Unit {0})
      line
      (run_supervisor one_key (Unit {0}) line table session (start one_key (Unit {0}) line tt))
run-IsConsistent_example = run-IsConsistent one_key (Unit {0}) line table session tt (omega arith)

-- The same, and it is plugged in again.
abbrev replugged : List (ℕ × EngineCommand one_key (Unit {0}) line)
replugged =
    (100, device_connected "hidraw0" 1 2 "/dev/hidraw0")
    ∷ (200, device_error "hidraw0" (driver disconnected))
    ∷ (300, device_connected "hidraw0" 1 2 "/dev/hidraw0")
    ∷ []

run-IsAnnounced_example :
    IsAnnounced one_key
      (Unit {0})
      line
      (run_supervisor one_key (Unit {0}) line table replugged (start one_key (Unit {0}) line tt))
run-IsAnnounced_example = run-IsAnnounced one_key (Unit {0}) line table replugged tt (omega arith)

-- One device with a worker that is gone, and one reconnection that was started.
abbrev stuck : Supervisor one_key (Unit {0}) line
stuck = record {
  registry = record {
    devices = ("hidraw0", unplugged) ∷ [];
    reconnecting = ("hidraw1", (0, 0)) ∷ [];
    next_reconnect_token = 1;
    sent = [];
  };
  world = tt;
  events = [];
  answers = [];
  tasks = [];
  workers = [];
}

reattach_stale_example :
    let gone =
      handle_command one_key (Unit {0}) line 100 table (device_disconnected "hidraw1") stuck in
    let s' = run_supervisor one_key (Unit {0}) line table session gone in
    handle_command one_key (Unit {0}) line 900 table (device_reattached "hidraw1" unplugged 0) s'
    ≡ s'
reattach_stale_example =
    reattach_stale one_key (Unit {0}) line 100 900 table session "hidraw1" unplugged 0 stuck
      (omega arith) (omega arith)

closed-unannounced_example :
    let s' = handle_command one_key (Unit {0}) line 100 table (routed "hidraw0" (commit 7)) stuck in
    (device_of one_key (Unit {0}) line s' "hidraw0" ≡ none)
    × (s'.events ≡ [])
    × (handle_command one_key
          (Unit {0})
          line
          200
          table
          (device_error "hidraw0" (driver disconnected))
          s'
        ≡ s')
unfolding find
closed-unannounced_example =
    closed-unannounced one_key (Unit {0}) line 100 200 table "hidraw0" 7 unplugged
      (driver disconnected) stuck refl refl

abbrev ctx : ReconnectCtx
ctx = record {
  device_id = "hidraw0";
  vendor_id = 1;
  product_id = 2;
  hidraw_path = "/dev/hidraw0";
  token = 0;
}

-- The keyboard is lost at 200 ms and back at 300 ms.
abbrev plugged : Supervisor one_key (Unit {0}) line
plugged =
    handle_command one_key (Unit {0}) line 100 table (device_connected "hidraw0" 1 2 "/dev/hidraw0")
      (start one_key (Unit {0}) line tt)

abbrev attached_handle : DeviceHandle line
attached_handle = record {
  topology = record { matrix = record { rows = 1; cols = 1 }; layer_count = 1 };
  model = "one key";
  tx = true;
  vendor_id = 1;
  product_id = 2;
  hidraw_path = "/dev/hidraw0";
}

error_reattach_example :
    let lost =
      handle_command one_key
        (Unit {0})
        line
        200
        table
        (device_error "hidraw0" (driver disconnected))
        plugged in
    let back =
      handle_command one_key
        (Unit {0})
        line
        300
        table
        (device_reattached "hidraw0" unplugged 0)
        lost in
    (device_of one_key (Unit {0}) line lost "hidraw0" ≡ none)
    × (lost.tasks
        ≡ plugged.tasks ++ (context one_key (Unit {0}) line "hidraw0" attached_handle 0 ∷ []))
    × (device_of one_key (Unit {0}) line back "hidraw0" ≡ some unplugged)
    × (task_of one_key (Unit {0}) line back "hidraw0" ≡ none)
    × (back.events ≡ plugged.events ++ (device_removed "hidraw0" ∷ device_added "hidraw0" ∷ []))
unfolding handle_command on_connected find_factory find_pair try_attach attach_device attached
    register emit forget_reconnect spawn evict put find start
error_reattach_example =
    error_reattach one_key (Unit {0}) line 200 300 table "hidraw0" attached_handle unplugged
      (driver disconnected) plugged refl refl
