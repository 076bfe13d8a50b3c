-- ===== src/Engine/Supervisor.antt =====
-- src/engine/mod.rs: the supervisor. It attaches and detaches devices, routes commands, and starts the
-- tasks that try to reconnect a device.
--
-- The driver, the opening of a node (`open_node`, what a factory does to the world) and the worker's
-- channel are parameters. The lifecycle events, the answers to queries and the tasks and workers that
-- are spawned are collected in order. Dropping or replacing an entry of `reconnecting` drops its
-- oneshot sender, which cancels the task: a task is live as long as its token stands there.
pub mod Advances
pub mod Handlers
pub mod Invariant
pub mod Stale
pub mod Recovers
pub mod Reconnect
pub mod Backoff
mod Examples
use clackd.Base.{
  ℕ, ◌+◌, ◌*◌, ◌%◌, ◌^◌, List, [], ◌∷◌, ◌++◌, map, Bool, true, false, Option, none, some, String,
  Ordering, ◌==◌, ◌&&◌, if◌then◌else◌,
}
use Prim.Native.String.{compare as compare_text}
use clackd.Error.{ok, err, disconnected, permission_denied}
use clackd.Hal.{KeyboardDriver}
use clackd.Engine.{
  DaemonError, driver, device_not_found, Outcome, value, failed, WorkerOp, Channel, find, put,
  evict, DeviceTopology, DeviceHandle, DeviceRegistry, route_command,
}
use clackd.Engine.Worker.{Worker, spawn}

pub data LifecycleEvent : Type 0 where
  device_added device_removed layout_updated : String → LifecycleEvent

pub data Answer : Type 0 where
  ids : List String → Answer
  info : Outcome (String × ℕ × ℕ × ℕ) → Answer
  identity : Outcome (ℕ × ℕ × String) → Answer

unfoldable pub is_transient_attach_error : DaemonError → Bool
is_transient_attach_error (driver disconnected) = true
is_transient_attach_error (driver (permission_denied path)) = true
is_transient_attach_error _ = false

abbrev pub is_disconnected : DaemonError → Bool
is_disconnected (driver disconnected) = true
is_disconnected _ = false

-- `ids.sort()`.
unfoldable pub insert_id : String → List String → List String
insert_id s [] = s ∷ []
insert_id s (t ∷ ts) = elim (compare_text s t) [ Ordering.gt ↦ t ∷ insert_id s ts | _ ↦ s ∷ t ∷ ts ]

unfoldable pub sort_ids : List String → List String
sort_ids [] = []
sort_ids (s ∷ ss) = insert_id s (sort_ids ss)

pub record ReconnectCtx : Type 0 where
  pub device_id : String
  pub vendor_id : ℕ
  pub product_id : ℕ
  pub hidraw_path : String
  pub token : ℕ

module _ (D : KeyboardDriver) (World : Type 0) (channel : Channel) where
  -- What a factory does with a path.
  abbrev pub DriverFactory : Type 0
  DriverFactory = String → World → Outcome D.State × World

  pub record DriverTable : Type 0 where
    pub by_vid_pid : List ((ℕ × ℕ) × DriverFactory)
    pub via_fallback : Option DriverFactory

  unfoldable pub find_pair : ℕ → ℕ → List ((ℕ × ℕ) × DriverFactory) → Option DriverFactory
  find_pair vid pid [] = none
  find_pair vid pid (((v, p), f) ∷ t) = if v == vid && p == pid then some f else find_pair vid pid t

  -- `by_vid_pid.get(..).copied().or(via_fallback)`.
  unfoldable pub find_factory : DriverTable → ℕ → ℕ → Option DriverFactory
  find_factory table vid pid = elim (find_pair vid pid table.by_vid_pid) [
    | some f ↦ some f
    | none ↦ table.via_fallback
  ]

  -- The handle for the registry and the worker that is spawned.
  unfoldable pub attach_device :
      ℕ → D.State → ℕ → ℕ → String → Outcome (DeviceHandle channel × Worker D)
  attach_device now device vid pid path =
      let (dims, d1) = D.get_matrix_dimensions now device in
      elim dims [
        | err e ↦ failed (driver e)
        | ok (rows, cols) ↦
            let (count, d2) = D.get_layer_count now d1 in
            elim count [
              | err e ↦ failed (driver e)
              | ok layers ↦ value (
                record {
                  topology = record {
                    matrix = record { rows = rows; cols = cols };
                    layer_count = layers;
                  };
                  model = D.model_name d2;
                  tx = channel.fresh;
                  vendor_id = vid;
                  product_id = pid;
                  hidraw_path = path;
                },
                spawn D d2,
              )
            ]
      ]

  -- A factory and the attachment that follows.
  unfoldable pub try_attach :
      ℕ → DriverFactory → ℕ → ℕ → String → World → Outcome (DeviceHandle channel × Worker D) × World
  try_attach now factory vid pid path w =
      let (r, w') = factory path w in
      elim r [
        | failed e ↦ (failed e, w')
        | value device ↦ (attach_device now device vid pid path, w')
      ]

  -- The seven commands that are routed to a worker carry the operation that they become.
  pub data EngineCommand : Type 0 where
    routed : String → WorkerOp → EngineCommand
    device_connected : String → ℕ → ℕ → String → EngineCommand
    device_disconnected : String → EngineCommand
    device_error : String → DaemonError → EngineCommand
    device_reattached : String → DeviceHandle channel → ℕ → EngineCommand
    list_devices : ℕ → EngineCommand
    get_device_info get_device_identity : String → ℕ → EngineCommand
    shutdown : EngineCommand

  pub record Supervisor : Type 0 where
    pub registry : DeviceRegistry channel
    pub world : World
    pub events : List LifecycleEvent
    pub answers : List (ℕ × Answer)
    pub tasks : List ReconnectCtx
    pub workers : List (String × Worker D)

  unfoldable pub emit : LifecycleEvent → Supervisor → Supervisor
  emit e s = record s { events = s.events ++ (e ∷ []) }

  unfoldable pub send_answer : ℕ → Answer → Supervisor → Supervisor
  send_answer reply a s = record s { answers = s.answers ++ ((reply, a) ∷ []) }

  unfoldable pub start_reconnect_backoff : ReconnectCtx → Supervisor → Supervisor
  start_reconnect_backoff ctx s =
      let token = s.registry.next_reconnect_token in
      record s {
        registry = record (s.registry) {
          reconnecting = put s.registry.reconnecting ctx.device_id (token, token);
          next_reconnect_token = (token + 1) % 2 ^ 64;
        };
        tasks = s.tasks ++ (record ctx { token = token } ∷ []);
      }

  unfoldable pub forget_reconnect : String → Supervisor → Supervisor
  forget_reconnect id s = record s {
    registry = record (s.registry) { reconnecting = evict s.registry.reconnecting id };
  }

  unfoldable pub register : String → DeviceHandle channel → Supervisor → Supervisor
  register id handle s =
      emit (device_added id)
        (record s { registry = record (s.registry) { devices = put s.registry.devices id handle } })

  unfoldable pub unregister : String → Supervisor → Supervisor
  unregister id s =
      emit (device_removed id)
        (record s { registry = record (s.registry) { devices = evict s.registry.devices id } })

  -- How an attempt to attach ends.
  unfoldable pub attached :
      ReconnectCtx → Outcome (DeviceHandle channel × Worker D) → Supervisor → Supervisor
  attached ctx (value (handle, worker)) s =
      register ctx.device_id handle
        (record s { workers = s.workers ++ ((ctx.device_id, worker) ∷ []) })
  attached ctx (failed e) s =
      if is_transient_attach_error e then start_reconnect_backoff ctx s else s

  unfoldable pub on_connected : ℕ → DriverTable → String → ℕ → ℕ → String → Supervisor → Supervisor
  on_connected now table id vid pid path s =
      let s' = forget_reconnect id s in
      elim (find s'.registry.devices id) [
        | some handle ↦ s'
        | none ↦ elim (find_factory table vid pid) [
          | none ↦ s'
          | some factory ↦
              let (r, w) = try_attach now factory vid pid path s'.world in
              let ctx : ReconnectCtx = record {
                device_id = id;
                vendor_id = vid;
                product_id = pid;
                hidraw_path = path;
                token = 0;
              } in
              attached ctx r (record s' { world = w })
        ]
      ]

  unfoldable pub on_disconnected : String → Supervisor → Supervisor
  on_disconnected id s =
      let s' = forget_reconnect id s in
      elim (find s'.registry.devices id) [ none ↦ s' | some handle ↦ unregister id s' ]

  unfoldable pub on_error : String → DaemonError → Supervisor → Supervisor
  on_error id e s = elim (find s.registry.devices id) [
    | none ↦ s
    | some handle ↦
        let s' = unregister id s in
        let ctx : ReconnectCtx = record {
          device_id = id;
          vendor_id = handle.vendor_id;
          product_id = handle.product_id;
          hidraw_path = handle.hidraw_path;
          token = 0;
        } in
        if is_disconnected e then start_reconnect_backoff ctx s' else s'
  ]

  unfoldable pub on_reattached : String → DeviceHandle channel → ℕ → Supervisor → Supervisor
  on_reattached id handle token s = elim (find s.registry.reconnecting id) [
    | none ↦ s
    | some (cancel, current) ↦
        if current == token then register id handle (forget_reconnect id s) else s
  ]

  unfoldable pub device_info : String → Supervisor → Outcome (String × ℕ × ℕ × ℕ)
  device_info id s = elim (find s.registry.devices id) [
    | none ↦ failed (device_not_found id)
    | some h ↦
        value (h.model, h.topology.matrix.rows, h.topology.matrix.cols, h.topology.layer_count)
  ]

  unfoldable pub device_identity : String → Supervisor → Outcome (ℕ × ℕ × String)
  device_identity id s = elim (find s.registry.devices id) [
    | none ↦ failed (device_not_found id)
    | some h ↦ value (h.vendor_id, h.product_id, "")
  ]

  unfoldable pub handle_command : ℕ → DriverTable → EngineCommand → Supervisor → Supervisor
  handle_command now table (routed id op) s = record s {
    registry = route_command channel id op s.registry;
  }
  handle_command now table (device_connected id vid pid path) s =
      on_connected now table id vid pid path s
  handle_command now table (device_disconnected id) s = on_disconnected id s
  handle_command now table (device_error id e) s = on_error id e s
  handle_command now table (device_reattached id handle token) s = on_reattached id handle token s
  handle_command now table (list_devices reply) s =
      send_answer reply (ids (sort_ids (map (λ x. x.0) s.registry.devices))) s
  handle_command now table (get_device_info id reply) s =
      send_answer reply (info (device_info id s)) s
  handle_command now table (get_device_identity id reply) s =
      send_answer reply (identity (device_identity id s)) s
  handle_command now table shutdown s = s

  abbrev pub is_shutdown : EngineCommand → Bool
  is_shutdown shutdown = true
  is_shutdown _ = false

  -- The loop: `Shutdown` drops every handle and ends it, and so does the end of the commands.
  unfoldable pub run_supervisor : DriverTable → List (ℕ × EngineCommand) → Supervisor → Supervisor
  run_supervisor table [] s = s
  run_supervisor table ((now, c) ∷ cs) s =
      let rest = run_supervisor table cs (handle_command now table c s) in
      if is_shutdown c then record s { registry = record (s.registry) { devices = [] } } else rest

  unfoldable pub start : World → Supervisor
  start w = record {
    registry = record { devices = []; reconnecting = []; next_reconnect_token = 0; sent = [] };
    world = w;
    events = [];
    answers = [];
    tasks = [];
    workers = [];
  }
