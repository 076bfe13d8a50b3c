-- ===== src/Engine/Examples.antt =====
-- The dispatch over a registry of two devices, one with a worker that is gone.
use clackd.Base.{
  ◌≡◌, ◌⊎◌, refl, List, [], ◌∷◌, ◌++◌, Option, none, some, String, ltb, length, if◌then◌else◌,
}
use clackd.Engine.{
  DeviceTopology, WorkerOp, get_keycode, set_keycode, commit, TrySend, accepted, full, closed,
  Channel, find, same_id, device_not_found, DeviceHandle, DeviceRegistry, send_error, route_command,
  DaemonError, dispatch_get, dispatch_set, with_device, out_of_bounds, busy,
}
use clackd.Engine.Dispatch.{Handed, Answered, route_command-once}

-- A channel that holds sixteen operations; `none` when the receiver is gone.
abbrev bounded : Channel
bounded = record {
  Sender = Option (List WorkerOp);
  fresh = some [];
  try_send = λ op q. elim q [
    | none ↦ (closed, none)
    | some ops ↦
        if ltb (length ops) 16 then (accepted, some (ops ++ (op ∷ []))) else (full, some ops)
  ];
}

abbrev small : DeviceTopology
small = record { matrix = record { rows = 5; cols = 14 }; layer_count = 4 }

abbrev handle : String → Option (List WorkerOp) → DeviceHandle bounded
handle model q = record {
  topology = small;
  model = model;
  tx = q;
  vendor_id = 0x05ac;
  product_id = 0x024f;
  hidraw_path = "/dev/hidraw0";
}

abbrev plugged_in : DeviceRegistry bounded
plugged_in = record {
  devices = ("left", handle "GMK67" (some [])) ∷ ("right", handle "GMK67" none) ∷ [];
  reconnecting = [];
  next_reconnect_token = 0;
  sent = [];
}

abbrev write : WorkerOp
write = set_keycode 1 2 3 4 7

route_command-once_example :
    let s' = route_command bounded "left" write plugged_in in
    Handed bounded "left" write plugged_in s' ⊎ Answered bounded write plugged_in s'
route_command-once_example = route_command-once bounded "left" write plugged_in

-- A position outside the matrix does not reach the worker.
out_of_bounds_test :
    (route_command bounded "left" (get_keycode 0 5 0 8) plugged_in).sent
    ≡ (8, out_of_bounds "left" 0 5 0) ∷ []
unfolding route_command dispatch_get with_device find clackd.Engine.topology_contains
    clackd.Engine.matrix_contains send_error
out_of_bounds_test = refl

text_test :
    out_of_bounds "left" 0 5 120
    ≡ DaemonError.dbus_routing "(layer=0, row=5, col=120) out of bounds for device `left`"
unfolding out_of_bounds clackd.Engine.decimal
text_test = refl
