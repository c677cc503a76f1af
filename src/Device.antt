-- ===== src/Device.antt =====
-- network_manager/device/mod.rs: the D-Bus object of a device, its methods, and the properties that
-- the runtime decides.
pub mod Wireless
pub mod Running
pub mod Disconnected
pub mod Managed
pub mod Listening
use mathlib.Core.Option
use nm_dbus_proxy_rs.Prelude.{
  ℕ, Bool, true, false, not, List, [], ◌∷◌, Option, none, some, first, is_empty, if◌then◌else◌,
}
use nm_dbus_proxy_rs.Text.{Str, codes}
use nm_dbus_proxy_rs.Map
use nm_dbus_proxy_rs.Variant.{Variant}
use nm_dbus_proxy_rs.Paths.{ObjectPath, root_path, nm_devices_path, join_path, device_object_path}
use nm_dbus_proxy_rs.Connection.{
  ConnectionRecord, ConnectionSettings, autoconnect, with_settings, and_then, unwrap_or, is_some,
}
use nm_dbus_proxy_rs.Runtime.State.{RuntimeState, ActiveConnectionRecord}
use nm_dbus_proxy_rs.Runtime.Connections.{
  connection, connections_for_interface, remove_connection, update_connection,
}
use nm_dbus_proxy_rs.Runtime.Active.{
  active_connection, active_connection_for_interface, remove_active_connection,
}
use nm_dbus_proxy_rs.Runtime.Settings.{device_managed, set_device_managed}
use nm_dbus_proxy_rs.Io.{
  Io, Error, failed, zbus, Property, withdraw, emit, link_delete, properties_changed,
  device_state_changed, active_connection_interface, settings_connection_interface, flag, pure,
  gets, update, change, ok_or, request, ignore, map_err, for_each, ◌>>=◌, ◌>>◌,
}
use nm_dbus_proxy_rs.Signals.{
  emit_settings_changed, emit_connection_changed, emit_root_runtime_changes,
}
use nm_dbus_proxy_rs.Persistence.Files.{as_text}
use nm_dbus_proxy_rs.Settings.{set_autoconnect}
use nm_dbus_proxy_rs.SettingsConnection.{persist_prepared_connection}
use nm_dbus_proxy_rs.Manager.Links.{deactivate_by_type}

-- The fields of `Device` that its methods read.
pub record Device : Type 0 where
  pub active_connection : ObjectPath
  pub autoconnect : Bool
  pub available_connections : List ObjectPath
  pub interface : Str
  pub managed : Bool
  pub state : ℕ
  pub state_reason : ℕ × ℕ

-- `.or_else(…)`.
abbrev or_else : {A : Type 0} → Option A → Option A → Option A
or_else none other = other
or_else (some a) other = some a

unfoldable pub emit_device_property_changed :
    {Value E : Type 0} → (Str → E) → Str → Str → Property Value → Io Value E (Unit {0})
emit_device_property_changed wrap interface_name property value = request wrap (
    emit (
      properties_changed (device_object_path interface_name)
        (codes "org.freedesktop.NetworkManager.Device") ((property, value) ∷ [])))

module _ {Value : Type 0} where
  -- The active connection of the interface, its record and its settings' path.
  unfoldable pub active_settings_path : Str → RuntimeState Value → Option ObjectPath
  unfolding active_connection_for_interface active_connection
  active_settings_path interface s =
      Option.map (λ (r : ActiveConnectionRecord). r.value.connection)
        (and_then (active_connection_for_interface interface s) (λ path. active_connection path s))

  unfoldable pub bring_down : Option ActiveConnectionRecord → Str → Io Value Error (Unit {0})
  unfolding deactivate_by_type
  bring_down none interface = pure tt
  bring_down (some r) interface = map_err failed (deactivate_by_type r.value.type_ interface)

  -- The signal of the state goes out at the interface's name as it is, not at its object path.
  unfoldable pub leave : Str → ObjectPath → Io Value Error (Unit {0})
  unfolding active_connection bring_down remove_active_connection emit_device_property_changed
      emit_root_runtime_changes
  leave interface path = do
    found ← gets (active_connection path)
    bring_down found interface
    _ ← update (remove_active_connection path)
    ignore (request as_text (withdraw path active_connection_interface))
    emit_device_property_changed zbus interface (codes "ActiveConnection") (Property.path root_path)
    request failed (emit (device_state_changed (join_path nm_devices_path interface) 30 100 39))
    emit_root_runtime_changes failed

  unfoldable pub leave_if : Str → Option ObjectPath → Io Value Error (Unit {0})
  unfolding leave
  leave_if interface none = pure tt
  leave_if interface (some path) = leave interface path

  unfoldable pub disconnect_ : Device → Io Value Error (Unit {0})
  unfolding active_connection_for_interface leave_if
  disconnect_ d = do
    active ← gets (active_connection_for_interface d.interface)
    leave_if d.interface active

  -- One round of the loop of `Delete`.
  unfoldable pub drop_settings : ObjectPath → Io Value Error (Unit {0})
  unfolding remove_connection
  drop_settings path = do
    _ ← update (remove_connection path)
    ignore (request as_text (withdraw path settings_connection_interface))

  -- The properties that the runtime may override.
  unfoldable pub current_active_connection : Device → RuntimeState Value → ObjectPath
  unfolding active_connection_for_interface
  current_active_connection d s =
      unwrap_or (active_connection_for_interface d.interface s) d.active_connection

  unfoldable pub current_managed : Device → RuntimeState Value → Bool
  unfolding device_managed
  current_managed d s = unwrap_or (device_managed d.interface s) d.managed

  unfoldable pub current_state : Device → RuntimeState Value → ℕ
  unfolding active_connection_for_interface
  current_state d s =
      if is_some (active_connection_for_interface d.interface s) then 100 else d.state

  unfoldable pub current_state_reason : Device → RuntimeState Value → ℕ × ℕ
  unfolding active_connection_for_interface
  current_state_reason d s =
      if is_some (active_connection_for_interface d.interface s) then (100, 0) else d.state_reason

  -- An unmanaged device is disconnected; what comes of that is dropped.
  unfoldable pub set_managed : Device → Bool → Io Value Error (Unit {0})
  unfolding set_device_managed disconnect_ emit_device_property_changed
  set_managed d value = do
    change (set_device_managed d.interface value)
    if value then pure tt else ignore (disconnect_ d)
    emit_device_property_changed zbus d.interface (codes "Managed") (flag value)

module _ {Value : Type 0} ⦃V : Variant Value⦄ where
  unfoldable pub delete_ : Device → Io Value Error (Unit {0})
  unfolding connections_for_interface drop_settings
  delete_ d = do
    request failed (link_delete d.interface)
    paths ← gets (connections_for_interface d.interface)
    for_each paths drop_settings

  -- The connection that runs on the interface, or the first that is made for it.
  unfoldable pub target_path : Str → RuntimeState Value → Option ObjectPath
  unfolding active_settings_path connections_for_interface first
  target_path interface s =
      or_else (active_settings_path interface s) (first (connections_for_interface interface s))

  unfoldable pub applied_connection : Str → RuntimeState Value → Option (ConnectionRecord Value)
  unfolding active_settings_path connections_for_interface connection first
  applied_connection interface s =
      or_else (and_then (active_settings_path interface s) (λ path. connection path s))
        (and_then (first (connections_for_interface interface s)) (λ path. connection path s))

  unfoldable pub get_applied_connection : Device → Io Value Error (ConnectionSettings Value × ℕ)
  unfolding applied_connection
  get_applied_connection d = do
    found ← gets (applied_connection d.interface)
    c ← ok_or found (failed (codes "no applied connection"))
    version ← gets (λ s. s.version_id)
    pure (c.settings, version)

  -- settings_connection.rs
  unfoldable pub persist_runtime_connection : ObjectPath → Io Value Str (Unit {0})
  unfolding connection persist_prepared_connection update_connection
  persist_runtime_connection path = do
    found ← gets (connection path)
    existing ← ok_or found (codes "unknown connection")
    stored ← persist_prepared_connection existing existing
    done ← update (update_connection path (λ _. stored))
    ok_or done (codes "unknown connection")

  unfoldable pub reapply : Device → ConnectionSettings Value → Io Value Error (Unit {0})
  unfolding target_path update_connection with_settings persist_runtime_connection
      emit_connection_changed emit_settings_changed
  reapply d settings = do
    found ← gets (target_path d.interface)
    target ← ok_or found (failed (codes "no connection to reapply"))
    known ← update (update_connection target (λ c. with_settings c settings))
    _ ← ok_or known (failed (codes "unknown connection"))
    map_err failed (persist_runtime_connection target)
    emit_connection_changed failed target
    emit_settings_changed failed none

  -- One round of the loop of the property's setter.
  unfoldable pub autoconnect_one : Bool → ObjectPath → Io Value Error (Unit {0})
  unfolding update_connection set_autoconnect persist_runtime_connection emit_connection_changed
  autoconnect_one value path = do
    _ ←
        update
          (update_connection path (λ c. record c { settings = set_autoconnect value c.settings }))
    map_err failed (persist_runtime_connection path)
    emit_connection_changed zbus path

  unfoldable pub set_device_autoconnect : Device → Bool → Io Value Error (Unit {0})
  unfolding connections_for_interface autoconnect_one emit_device_property_changed
      emit_settings_changed
  set_device_autoconnect d value = do
    paths ← gets (connections_for_interface d.interface)
    for_each paths (autoconnect_one value)
    emit_device_property_changed zbus d.interface (codes "Autoconnect") (flag value)
    emit_settings_changed zbus none

  unfoldable pub current_autoconnect : Device → RuntimeState Value → Bool
  unfolding connections_for_interface connection autoconnect first
  current_autoconnect d s =
      unwrap_or
        (Option.map autoconnect
          (and_then (first (connections_for_interface d.interface s)) (λ path. connection path s)))
        d.autoconnect

  unfoldable pub current_available_connections : Device → RuntimeState Value → List ObjectPath
  unfolding connections_for_interface is_empty
  current_available_connections d s =
      let dynamic = connections_for_interface d.interface s in
      if is_empty dynamic then d.available_connections else dynamic
