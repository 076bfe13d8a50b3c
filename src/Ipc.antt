-- ===== src/Ipc.antt =====
-- src/ipc: the D-Bus front end. A method sends one command to the engine and waits for its reply, and
-- the signal pump turns lifecycle events into signals.
--
-- The engine as a method sees it is the parameter `Link`: for each type of reply, how a command that is
-- given its reply sender ends. An error of zbus keeps the error of the daemon, whose text it is.
pub mod Errors
use clackd.Base.{ℕ, List, [], ◌∷◌, String}
use clackd.Error.{permission_denied, unsupported}
use clackd.Hal.{KeyboardDriver}
use clackd.Engine.{
  DaemonError, driver, device_not_found, device_unauthorized, Outcome, value, failed, Channel,
  get_keycode, set_keycode, commit, get_macro, set_macro, get_lighting, set_lighting,
}
use clackd.Engine.Supervisor.{
  EngineCommand, routed, list_devices, get_device_info, get_device_identity, LifecycleEvent,
  device_added, device_removed, layout_updated,
}

pub data FdoError : Type 0 where
  unknown_object : String → FdoError
  access_denied not_supported failed_with : DaemonError → FdoError
  failed_text : String → FdoError

unfoldable pub from_daemon : DaemonError → FdoError
from_daemon (device_not_found id) = unknown_object id
from_daemon (device_unauthorized id) = access_denied (device_unauthorized id)
from_daemon (driver (permission_denied path)) = access_denied (driver (permission_denied path))
from_daemon (driver (unsupported op)) = not_supported (driver (unsupported op))
from_daemon e = failed_with e

pub data FdoResult {ℓ} (A : Type ℓ) : Type ℓ where
  ok : A → FdoResult A
  err : FdoError → FdoResult A

-- How a request ends: the command channel is closed, the reply sender is dropped, or a reply comes.
pub data Arrival {ℓ} (A : Type ℓ) : Type ℓ where
  closed dropped : Arrival A
  arrived : A → Arrival A

abbrev pub received {ℓ} : {A : Type ℓ} → Arrival A → FdoResult A
received closed = err (failed_text "engine command channel closed")
received dropped = err (failed_text "engine reply channel dropped")
received (arrived a) = ok a

-- `inner.map_err(zbus::fdo::Error::from)`, behind the two errors of the channels.
abbrev answered {ℓ} : {A : Type ℓ} → Arrival (Outcome A) → FdoResult A
answered closed = err (failed_text "engine command channel closed")
answered dropped = err (failed_text "engine reply channel dropped")
answered (arrived (value a)) = ok a
answered (arrived (failed e)) = err (from_daemon e)

module _ (D : KeyboardDriver) (World : Type 0) (channel : Channel) where
  abbrev Asks : Type 0 → Type 0 → Type 0
  Asks S A = (ℕ → EngineCommand D World channel) → S → Arrival A × S

  record Link : Type 1 where
    pub State : Type 0
    ask_keycode : Asks State (Outcome ℕ)
    ask_done : Asks State (Outcome (Unit {0}))
    ask_bytes : Asks State (Outcome (List ℕ))
    ask_ids : Asks State (List String)
    ask_info : Asks State (Outcome (String × ℕ × ℕ × ℕ))
    ask_identity : Asks State (Outcome (ℕ × ℕ × String))

  module _ (L : Link) where
    -- A method of the interface.
    abbrev Method {ℓ} : Type ℓ → Type ℓ
    Method A = L.State → FdoResult A × L.State

    unfoldable get_keycode_method : String → ℕ → ℕ → ℕ → Method ℕ
    get_keycode_method id layer row col s =
        let (a, s') = L.ask_keycode (λ reply. routed id (get_keycode layer row col reply)) s in
        (answered a, s')

    unfoldable set_keycode_method : String → ℕ → ℕ → ℕ → ℕ → Method (Unit {0})
    set_keycode_method id layer row col keycode s =
        let (a, s') = L.ask_done (λ reply. routed id (set_keycode layer row col keycode reply)) s in
        (answered a, s')

    unfoldable list_devices_method : Method (List String)
    list_devices_method s =
        let (a, s') = L.ask_ids (λ reply. list_devices reply) s in (received a, s')

    unfoldable get_device_info_method : String → Method (String × ℕ × ℕ × ℕ)
    get_device_info_method id s =
        let (a, s') = L.ask_info (λ reply. get_device_info id reply) s in (answered a, s')

    unfoldable get_device_identity_method : String → Method (ℕ × ℕ × String)
    get_device_identity_method id s =
        let (a, s') = L.ask_identity (λ reply. get_device_identity id reply) s in (answered a, s')

    unfoldable commit_method : String → Method (Unit {0})
    commit_method id s =
        let (a, s') = L.ask_done (λ reply. routed id (commit reply)) s in (answered a, s')

    unfoldable get_macro_method : String → ℕ → ℕ → Method (List ℕ)
    get_macro_method id offset count s =
        let (a, s') = L.ask_bytes (λ reply. routed id (get_macro offset count reply)) s in
        (answered a, s')

    unfoldable set_macro_method : String → ℕ → List ℕ → Method (Unit {0})
    set_macro_method id offset bytes s =
        let (a, s') = L.ask_done (λ reply. routed id (set_macro offset bytes reply)) s in
        (answered a, s')

    unfoldable get_lighting_method : String → ℕ → ℕ → Method (List ℕ)
    get_lighting_method id chan value_id s =
        let (a, s') = L.ask_bytes (λ reply. routed id (get_lighting chan value_id reply)) s in
        (answered a, s')

    unfoldable set_lighting_method : String → ℕ → ℕ → List ℕ → Method (Unit {0})
    set_lighting_method id chan value_id bytes s =
        let (a, s') = L.ask_done (λ reply. routed id (set_lighting chan value_id bytes reply)) s in
        (answered a, s')

-- What the broadcast channel gives: an event, the number of events that were lost, or its end.
data Broadcast : Type 0 where
  event : LifecycleEvent → Broadcast
  lagged : ℕ → Broadcast
  ended : Broadcast

data Signal : Type 0 where
  added removed layout : String → Signal

abbrev signal_of : LifecycleEvent → Signal
signal_of (device_added id) = added id
signal_of (device_removed id) = removed id
signal_of (layout_updated id) = layout id

-- The signals that are sent; a failure to send one is logged.
unfoldable run_signal_pump : List Broadcast → List Signal
run_signal_pump [] = []
run_signal_pump (event e ∷ bs) = signal_of e ∷ run_signal_pump bs
run_signal_pump (lagged skipped ∷ bs) = run_signal_pump bs
run_signal_pump (ended ∷ bs) = []
