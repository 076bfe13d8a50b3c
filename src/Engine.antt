-- ===== src/Engine.antt =====
-- src/engine/topology.rs and the dispatch of src/engine/mod.rs: the bounds check of a position, and
-- how the supervisor routes a command to the worker of its device.
--
-- The registry's hash map is an association list by device. The channel to a worker is tokio's and
-- a parameter, `Channel`; Engine.Worker is the loop at its other end. A oneshot sender is a
-- number, and `sent` collects what is sent on them: `route_command` and its helpers send only
-- errors.
pub mod Devices
pub mod Worker
pub mod Drivers
pub mod Written
pub mod Supervisor
pub mod Dispatch
pub mod Routes
mod Examples
use clackd.Base.{
  ℕ, List, [], ◌∷◌, ◌++◌, Bool, true, false, Option, none, some, String, Ordering, ltb, ◌+◌, ◌/◌,
  ◌%◌, ◌&&◌, if◌then◌else◌,
}
use Prim.Native.String.{compare as compare_text, slice, ◌++◌ as ◌+++◌}
use clackd.Error.{DriverError}

pub record KeyMatrix : Type 0 where
  pub rows : ℕ
  pub cols : ℕ

pub record DeviceTopology : Type 0 where
  pub matrix : KeyMatrix
  pub layer_count : ℕ

unfoldable pub matrix_contains : KeyMatrix → ℕ → ℕ → Bool
matrix_contains m row col = ltb row m.rows && ltb col m.cols

unfoldable pub topology_contains : DeviceTopology → ℕ → ℕ → ℕ → Bool
topology_contains t layer row col = ltb layer t.layer_count && matrix_contains t.matrix row col

-- `DaemonError`. The errors that tokio raises carry nothing that is read here.
pub data DaemonError : Type 0 where
  driver : DriverError → DaemonError
  device_not_found device_unauthorized device_task_panicked : String → DaemonError
  engine_send reply_dropped elapsed : DaemonError
  dbus_routing : String → DaemonError

-- `Result<_, DaemonError>`.
pub data Outcome {ℓ} (A : Type ℓ) : Type ℓ where
  value : A → Outcome A
  failed : DaemonError → Outcome A

-- `WorkerOp`: each with the oneshot sender of its reply.
pub data WorkerOp : Type 0 where
  get_keycode : ℕ → ℕ → ℕ → ℕ → WorkerOp
  set_keycode : ℕ → ℕ → ℕ → ℕ → ℕ → WorkerOp
  commit : ℕ → WorkerOp
  get_macro : ℕ → ℕ → ℕ → WorkerOp
  set_macro : ℕ → List ℕ → ℕ → WorkerOp
  get_lighting : ℕ → ℕ → ℕ → WorkerOp
  set_lighting : ℕ → ℕ → List ℕ → ℕ → WorkerOp

-- How `try_send` ends.
pub data TrySend : Type 0 where
  accepted full closed : TrySend

pub record Channel : Type 1 where
  pub Sender : Type 0
  pub fresh : Sender
  pub try_send : WorkerOp → Sender → TrySend × Sender

-- The keys of the registry.
abbrev pub same_id : String → String → Bool
same_id s t = elim (compare_text s t) [ Ordering.eq ↦ true | _ ↦ false ]

module _ {V : Type 0} where
  unfoldable pub find : List (String × V) → String → Option V
  find [] id = none
  find ((k, v) ∷ m) id = if same_id k id then some v else find m id

  unfoldable pub put : List (String × V) → String → V → List (String × V)
  put [] id w = (id, w) ∷ []
  put ((k, v) ∷ m) id w = if same_id k id then (k, w) ∷ m else (k, v) ∷ put m id w

  unfoldable pub evict : List (String × V) → String → List (String × V)
  evict [] id = []
  evict ((k, v) ∷ m) id = let rest = evict m id in if same_id k id then rest else (k, v) ∷ rest

-- `{n}` of a byte.
abbrev digit : ℕ → String
digit n = slice "0123456789" n (n + 1)

unfoldable pub decimal : ℕ → String
decimal n =
    if ltb n 10
    then digit n
    else if ltb n 100
    then digit (n / 10) +++ digit (n % 10)
    else digit (n / 100) +++ (digit (n / 10 % 10) +++ digit (n % 10))

unfoldable pub out_of_bounds : String → ℕ → ℕ → ℕ → DaemonError
out_of_bounds id layer row col = dbus_routing (
    "(layer="
    +++ (decimal layer
        +++ (", row="
            +++ (decimal row
                +++ (", col="
                    +++ (decimal col +++ (") out of bounds for device `" +++ (id +++ "`"))))))))

unfoldable pub busy : String → DaemonError
busy id = dbus_routing ("device `" +++ (id +++ "` is busy"))

abbrev pub reply_of : WorkerOp → ℕ
reply_of (get_keycode l r c reply) = reply
reply_of (set_keycode l r c kc reply) = reply
reply_of (commit reply) = reply
reply_of (get_macro o n reply) = reply
reply_of (set_macro o bs reply) = reply
reply_of (get_lighting c v reply) = reply
reply_of (set_lighting c v bs reply) = reply

module _ (channel : Channel) where
  pub record DeviceHandle : Type 0 where
    pub topology : DeviceTopology
    pub model : String
    pub tx : channel.Sender
    pub vendor_id : ℕ
    pub product_id : ℕ
    pub hidraw_path : String

  -- `DeviceRegistry`, and the errors sent so far on the oneshot senders.
  pub record DeviceRegistry : Type 0 where
    pub devices : List (String × DeviceHandle)
    pub reconnecting : List (String × (ℕ × ℕ))
    pub next_reconnect_token : ℕ
    pub sent : List (ℕ × DaemonError)

  unfoldable pub send_error : ℕ → DaemonError → DeviceRegistry → DeviceRegistry
  send_error reply e s = record s { sent = s.sent ++ ((reply, e) ∷ []) }

  unfoldable pub reply_with_error : WorkerOp → DaemonError → DeviceRegistry → DeviceRegistry
  reply_with_error op e s = send_error (reply_of op) e s

  unfoldable pub surface_worker_send_failure :
      TrySend → WorkerOp → String → DeviceRegistry → DeviceRegistry
  surface_worker_send_failure accepted op id s = s
  surface_worker_send_failure full op id s = reply_with_error op (busy id) s
  surface_worker_send_failure closed op id s =
      reply_with_error op (device_not_found id) (record s { devices = evict s.devices id })

  -- `handle.tx.try_send(op)` and its failure; the channel is the handle's.
  unfoldable pub submit : String → DeviceHandle → WorkerOp → DeviceRegistry → DeviceRegistry
  submit id handle op s =
      let (r, tx') = channel.try_send op handle.tx in
      surface_worker_send_failure r op id
        (record s { devices = put s.devices id (record handle { tx = tx' }) })

  -- The device of a command.
  unfoldable pub with_device :
      String
      → ℕ
      → (DeviceHandle → DeviceRegistry → DeviceRegistry)
      → DeviceRegistry
      → DeviceRegistry
  with_device id reply k s = elim (find s.devices id) [
    | none ↦ send_error reply (device_not_found id) s
    | some handle ↦ k handle s
  ]

  unfoldable pub dispatch_get : String → ℕ → ℕ → ℕ → ℕ → DeviceRegistry → DeviceRegistry
  dispatch_get id layer row col reply = with_device id reply λ handle s.
      if topology_contains handle.topology layer row col
      then submit id handle (get_keycode layer row col reply) s
      else send_error reply (out_of_bounds id layer row col) s

  unfoldable pub dispatch_set : String → ℕ → ℕ → ℕ → ℕ → ℕ → DeviceRegistry → DeviceRegistry
  dispatch_set id layer row col keycode reply = with_device id reply λ handle s.
      if topology_contains handle.topology layer row col
      then submit id handle (set_keycode layer row col keycode reply) s
      else send_error reply (out_of_bounds id layer row col) s

  unfoldable pub dispatch_commit : String → ℕ → DeviceRegistry → DeviceRegistry
  dispatch_commit id reply = with_device id reply λ handle s. submit id handle (commit reply) s

  unfoldable pub dispatch_macro_get : String → ℕ → ℕ → ℕ → DeviceRegistry → DeviceRegistry
  dispatch_macro_get id offset length reply =
      with_device id reply λ handle s. submit id handle (get_macro offset length reply) s

  unfoldable pub dispatch_macro_set : String → ℕ → List ℕ → ℕ → DeviceRegistry → DeviceRegistry
  dispatch_macro_set id offset bytes reply =
      with_device id reply λ handle s. submit id handle (set_macro offset bytes reply) s

  unfoldable pub dispatch_lighting_get : String → ℕ → ℕ → ℕ → DeviceRegistry → DeviceRegistry
  dispatch_lighting_get id ch value_id reply =
      with_device id reply λ handle s. submit id handle (get_lighting ch value_id reply) s

  unfoldable pub dispatch_lighting_set :
      String → ℕ → ℕ → List ℕ → ℕ → DeviceRegistry → DeviceRegistry
  dispatch_lighting_set id ch value_id bytes reply =
      with_device id reply λ handle s. submit id handle (set_lighting ch value_id bytes reply) s

  -- The arms of the supervisor's `match` that route a command to a worker.
  unfoldable pub route_command : String → WorkerOp → DeviceRegistry → DeviceRegistry
  route_command id (get_keycode l r c reply) = dispatch_get id l r c reply
  route_command id (set_keycode l r c kc reply) = dispatch_set id l r c kc reply
  route_command id (commit reply) = dispatch_commit id reply
  route_command id (get_macro o n reply) = dispatch_macro_get id o n reply
  route_command id (set_macro o bs reply) = dispatch_macro_set id o bs reply
  route_command id (get_lighting c v reply) = dispatch_lighting_get id c v reply
  route_command id (set_lighting c v bs reply) = dispatch_lighting_set id c v bs reply
