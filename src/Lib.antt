-- ===== src/Lib.antt =====
-- A model of nm-dbus-proxy-rs: a service that speaks the D-Bus interface of NetworkManager on top of
-- iwd and systemd-networkd.
--
-- The program keeps one `RuntimeState` behind a lock (src/runtime.rs). D-Bus objects
-- (src/network_manager/) read and change it, ask iwd, network links, files, agents and the object
-- server to do things, and emit signals.
--
-- - Runtime: the state and its operations (src/runtime.rs), by topic. Runtime.State holds the
--   records; an operation that takes the write lock is a function from state to state.
-- - Connection: `ConnectionRecord` and what it reads from its settings (src/runtime.rs). Values are
--   those of the `zvariant` crate, a parameter with the laws of Variant.
-- - Io: handlers as actions on a world, the runtime with the log of calls to the outside. What the
--   outside answers is a `Host`, an arbitrary function of the calls so far, so that every order of
--   successes and failures is covered. Io.Keeps and Io.Ensures are the rules of the proofs.
-- - Manager: src/network_manager/mod.rs. Links brings interfaces up and down, Activation has
--   `activate_connection`, `deactivate_connection`, `enable`, `sleep` and the radio switch,
--   Checkpoints has the checkpoint methods with `rollback_checkpoint`.
-- - Settings, SettingsConnection, AgentManager: src/network_manager/settings.rs,
--   settings_connection.rs and agent_manager.rs, one action for each method.
--   Settings.Import is behind `LoadConnections` and `ReloadConnections`.
-- - Device: src/network_manager/device/mod.rs, with Device.Wireless for wireless.rs beside it.
-- - Links: the links of systemd-networkd (src/systemd_networkd/link.rs) and what src/lib.rs reads
--   from them. Links.Aux registers and unregisters the further interfaces of a device
--   (src/network_manager/device/specialized.rs); Links.Served reads the log of calls as the state
--   of the object server.
-- - Sync: the part of `sync_backends` (src/lib.rs) that makes, refreshes and removes the connections
--   of known networks and links. `Uuid::new_v5` is a parameter of it.
--   Sync.Wireless has what is computed for access points and wireless devices.
-- - Dns: the file of the resolver and the object that shows it
--   (src/network_manager/dns_manager.rs). What reading the file returned is a parameter.
-- - Vpn: the VPN plugin object (src/network_manager/vpn_plugin.rs), its calls a step relation.
-- - Signals: the derived state and the emitters (src/network_manager/mod.rs, src/lib.rs).
-- - Persistence: profiles and their files (src/persistence.rs), which Persistence.Load reads back.
-- - Iwd and Enums: the records and codes of src/iwd.rs, src/enums.rs and
--   src/systemd_networkd/link.rs.
-- - Paths: object paths (src/lib.rs). Text, Map and Table model strings, hash maps and vectors that
--   are searched by a key.
--
-- The invariant of the runtime is `IsConsistent` of Runtime.Invariant: active connections, devices,
-- access points, wireless devices and agents are told apart by their keys, also the active
-- connections in the snapshots of checkpoints. Tests has concrete runs.
--
-- A text is the list of its Unicode scalar values. Counters wrap at 2^64; times are integers, cut
-- off at the greatest `i64` and `u32` where the source does so. Loops are recursions on lists, so no
-- fuel is used. A handler runs without another in between. Io.Sure has the rules for actions that
-- always return.
--
-- Not modelled: the access points, devices and active connections of `sync_backends` (src/lib.rs),
-- `GetSecrets`, the property setters of src/network_manager/mod.rs, the objects
-- that only hand out fields, and the timer that rolls a checkpoint back by itself.
mod Prelude
pub mod Text
pub mod Map
pub mod Table
pub mod Variant
pub mod Enums
pub mod Paths
pub mod Connection
pub mod Runtime
pub mod Iwd
pub mod Links
pub mod Io
pub mod Persistence
pub mod Signals
pub mod Settings
pub mod SettingsConnection
pub mod Manager
pub mod AgentManager
pub mod Device
pub mod Sync
pub mod Dns
pub mod Vpn
pub mod Tests
