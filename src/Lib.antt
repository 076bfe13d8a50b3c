-- ===== src/Lib.antt =====
-- clackd, the daemon that remaps keyboards over hidraw.
--
-- The crate has a hardware layer (src/hal: the native VIA driver of via.rs, the driver of the GMK67
-- in legacy/gmk67.rs with the shadow state of legacy/mod.rs, and the trait and the errors of
-- mod.rs), an engine that runs one worker per device (src/engine), a D-Bus front end (src/ipc), and
-- two binaries (src/main.rs and src/bin/clackctl).
--
-- Error: `DriverError` and the results of src/hal/mod.rs. A method that takes `&mut self` is a
-- function from a state to a result and a state, and `?` is the bind of these functions.
--
-- Keymap: the `BTreeMap` from (layer, row, column) to keycodes, an association list in the order of
-- its keys. Keymap.Laws and Keymap.Sorted have its laws.
--
-- Shadow: src/hal/legacy/mod.rs. `ShadowState` has the source's fields; `set_keycode`, `rollback`,
-- `prepare_commit`, `dirty_layers` and `layer_entries` are functions on it, and Shadow.Store adds
-- `load`, `save` and the operations that save. The file system, the XDG path and serde_json are the
-- parameter `Disk`; Shadow.Store.IsFaithful is what a file system promises. Shadow.Refine runs
-- sequences of operations against two functions from positions to keycodes, the current ones and the
-- committed ones.
--
-- Via: src/hal/via.rs. Via.Transport has `ViaTransport` over the parameter `Wire`, a hidraw node
-- whose attempts to read or write move bytes, fail or would block. The deadline of a round trip is a
-- number of attempts: each attempt uses one, and without any left the round trip is a timeout, so
-- the recursion on it always ends. Via.Safety is about every byte that is written to the node.
-- Via.Device is the interface between the transport and its clients: Via.Firmware fills it for the
-- transport over a firmware that follows the protocol, and Via.Coalescer takes it. Via.Coalescer is
-- the actor `run_coalescer`: its local variables are the record `Coalescer`, and a turn of its loop
-- receives an operation or sees the deadline expire. The order in which a hash map or a hash set is
-- iterated is a parameter, and the channels of tokio are not modelled: an operation is a value, its
-- reply is returned, and events are counted. Via.Driver is `ViaDriver`, which calls the transport
-- itself or relays to the coalescer, and Via.Contract and Via.Writes are about it in both modes.
--
-- Gmk67: src/hal/legacy/gmk67.rs. The module itself has the lighting settings and the encoders of
-- the 64-byte frames, Gmk67.Matrix the table of key indices and Gmk67.Color the conversions of
-- colours. Gmk67.Driver has `Gmk67Driver` with its transactions over the parameter `Gmk67Io`, and
-- Gmk67.Methods the methods of `KeyboardDriver`. Gmk67.Wire, Gmk67.Blob and Gmk67.Commit (with its
-- children Sent and Ends) are about what is sent and how a commit ends, Gmk67.Sync, Gmk67.Entries and
-- Gmk67.ReadBack about the read-back, Gmk67.Lights about lighting and Gmk67.Session about sequences of calls. A loop over
-- pages, entries or layers counts down what is left, so it ends.
--
-- Hal: the trait `KeyboardDriver` of src/hal/mod.rs, an interface with a method for each method of
-- the trait; a call takes the time of day, since the coalescer's deadline depends on it.
--
-- Engine: src/engine/topology.rs and, of src/engine/mod.rs, how the supervisor routes a command to
-- the worker of its device. The channel to a worker is the parameter `Channel`. Engine.Devices is
-- about the registry's map and Engine.Dispatch about the routing. Engine.Worker is the loop
-- `run_device_worker` over any driver: a turn takes an operation, sees the channel closed or sees the
-- deadline of the debounced commit pass. Engine.Drivers fills the interface with the two drivers;
-- it and Engine.Written are about a worker over the GMK67. Engine.Supervisor has `handle_command`
-- and the loop of `run_supervisor`, with the commands of src/engine/messages.rs; what a factory does
-- to open a node is a parameter. A pending reconnection is cancelled when its oneshot sender is dropped, so a task is
-- live while its token stands in `reconnecting`; tokens wrap around at 2 ^ 64. Engine.Supervisor.Reconnect is
-- `reconnect_task`, whose loop counts down the
-- eight attempts, with the world of a run and the places where it is cancelled as parameters. How
-- tokio interleaves tasks is any sequence of commands and turns.
--
-- Descriptor: the walks over HID report descriptors of src/hal/via.rs and src/hal/legacy/gmk67.rs.
-- Each item is at least one byte, so fuel of one more than the length is enough.
--
-- Integers are natural numbers: a byte or a u16 is one that the program never takes out of its
-- range, and where it splits a u16 into bytes the division is written out.
--
-- Ipc: src/ipc. A method of `ClackdInterface` builds one command and waits for its reply; the engine
-- is the parameter `Link`, with a field for each type of reply. The signal pump is a function on what
-- the broadcast channel gives. Ipc.Errors is about the front end over the supervisor.
--
-- Boot: src/main.rs, from the result of reading devices.toml to the driver table, and from udev
-- devices and events to commands. Boot.Table and Boot.Events are about these two.
--
-- Clackctl: src/bin/clackctl. Clackctl.Text has the functions of Rust's texts and integers that are
-- called; a text is the list of its characters. Clackctl.Keycodes is the table of keycodes.rs,
-- Clackctl.Parse has the parsers of main.rs, where a slice inside a character is a panic, and
-- Clackctl.Commands and Clackctl.Listings the commands over a D-Bus proxy, the parameter `Proxy`.
-- Clackctl.Names, Clackctl.Printed, Clackctl.Numbers, Clackctl.Levels and Clackctl.Bytes are about
-- reading and printing, Clackctl.Resolve and Clackctl.Dump about the commands. A decimal number is printed with fuel of twenty digits, which a u64 fits in.
--
-- Not modelled: how the nodes are opened and their report descriptors fetched in src/hal/via.rs and
-- src/hal/legacy/gmk67.rs; the connection to the bus; the boot sequence, systemd, signals and logging
-- of src/main.rs; and the options, the advice for errors of the bus and the monitor of
-- src/bin/clackctl/main.rs.
pub mod Base
pub mod Boot
pub mod Clackctl
pub mod Descriptor
pub mod Engine
pub mod Error
pub mod Gmk67
pub mod Hal
pub mod Ipc
pub mod Keymap
pub mod Shadow
pub mod Via
