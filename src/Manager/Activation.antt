-- ===== src/Manager/Activation.antt =====
-- network_manager/mod.rs: activating and deactivating connections, and the switches that clear them.
use Prim.Native.Nat.{bit_or}
use nm_dbus_proxy_rs.Prelude.{
  ℕ, Bool, true, false, not, ◌||◌, List, [], ◌∷◌, none, is_empty, if◌then◌else◌,
}
use nm_dbus_proxy_rs.Text.{Str, codes, ◌==◌}
use nm_dbus_proxy_rs.Variant.{Variant}
use nm_dbus_proxy_rs.Enums.{
  activated, active_state_code, device_state_code, NmActiveConnectionState, NmDeviceState,
}
use nm_dbus_proxy_rs.Paths.{
  ObjectPath, root_path, last_segment, device_object_path, active_connection_object_path,
}
use nm_dbus_proxy_rs.Connection.{
  ConnectionRecord, ConnectionSettings, user, wifi_type, ethernet_type, vpn_type, id,
  interface_name, get_string,
}
use nm_dbus_proxy_rs.Runtime.State.{ActiveConnection}
use nm_dbus_proxy_rs.Runtime.Connections.{connection, add_connection, next_connection_path}
use nm_dbus_proxy_rs.Runtime.Active.{
  active_connection, active_connection_paths, add_active_connection, remove_active_connection,
}
use nm_dbus_proxy_rs.Runtime.Settings.{set_networking_enabled, set_sleeping, set_wireless_enabled}
use nm_dbus_proxy_rs.Io.{
  Io, Error, failed, zbus, serve, withdraw, emit, settings_connection, vpn_connection,
  active_connection_object, active_connection_interface, vpn_connection_interface, new_connection,
  active_state_changed, device_state_changed, pure, fail, gets, update, change, ok_or, request,
  ignore, map_err, ◌>>=◌, ◌>>◌,
}
use nm_dbus_proxy_rs.Signals.{
  emit_object_added, emit_settings_changed, emit_root_runtime_changes, emit_device_runtime_changes,
}
use nm_dbus_proxy_rs.Persistence.Files.{persist_connection, as_text}
use nm_dbus_proxy_rs.Settings.{connection_interface}
use nm_dbus_proxy_rs.Manager.Links.{
  first_interface, activate_wifi_connection, activate_wired_connection, deactivate_wifi_connection,
  deactivate_wired_connection, clear_active_connections_of_types,
}

-- Layer 2 ready is 4, IPv4 ready 8, IPv6 ready 16: the bits are disjoint.
unfoldable pub activation_state_flags : Bool → Bool → ℕ
activation_state_flags ip4_ready ip6_ready =
    bit_or (bit_or 0x4 (if ip4_ready then 0x8 else 0)) (if ip6_ready then 0x10 else 0)

-- The two types that switching the network off brings down.
abbrev pub cleared_types : List Str
cleared_types = wifi_type ∷ ethernet_type ∷ []

abbrev pub networking_disabled : Error
networking_disabled = failed (codes "networking is disabled")

module _ {Value : Type 0} where
  -- The check of the two switches before anything is brought up.
  unfoldable pub refuse_when_off : Io Value Error (Unit {0})
  refuse_when_off = do
    disabled ← gets (λ s. not s.networking_enabled || s.sleeping)
    if disabled then fail networking_disabled else pure tt

  unfoldable pub serve_active : ObjectPath → ActiveConnection → Io Value Error (Unit {0})
  serve_active path value = do
    ignore (request as_text (withdraw path active_connection_interface))
    request zbus (serve path (active_connection_object value))
    if value.vpn then request zbus (serve path vpn_connection) else pure tt

  unfoldable pub deactivate_connection : ObjectPath → Io Value Error (Unit {0})
  unfolding active_connection first_interface deactivate_wifi_connection deactivate_wired_connection
      remove_active_connection emit_root_runtime_changes emit_device_runtime_changes
  deactivate_connection path = do
    found ← gets (active_connection path)
    r ← ok_or found (failed (codes "unknown active connection object"))
    name ← ok_or (first_interface r) (failed (codes "active connection has no device"))
    map_err failed (
        if r.value.type_ == wifi_type
        then deactivate_wifi_connection name
        else deactivate_wired_connection name)
    _ ← update (remove_active_connection path)
    request zbus (withdraw path active_connection_interface)
    ignore (request as_text (withdraw path vpn_connection_interface))
    request failed (
        emit (
          device_state_changed (device_object_path name)
            (device_state_code NmDeviceState.disconnected)
            (device_state_code NmDeviceState.activated) 39))
    emit_root_runtime_changes failed
    emit_device_runtime_changes failed name

  -- `Enable`, and `Sleep` below: the switch is set first, whatever comes of the clearing.
  unfoldable pub enable : Bool → Io Value Error (Unit {0})
  unfolding set_networking_enabled clear_active_connections_of_types emit_root_runtime_changes
  enable on = do
    change (set_networking_enabled on)
    if on then pure tt else map_err failed (clear_active_connections_of_types cleared_types)
    emit_root_runtime_changes failed

  unfoldable pub sleep : Bool → Io Value Error (Unit {0})
  unfolding set_sleeping clear_active_connections_of_types emit_root_runtime_changes
  sleep on = do
    change (set_sleeping on)
    if on then map_err failed (clear_active_connections_of_types cleared_types) else pure tt
    emit_root_runtime_changes failed

  unfoldable pub switch_wireless : Bool → Io Value Error (Unit {0})
  unfolding set_wireless_enabled clear_active_connections_of_types emit_root_runtime_changes
  switch_wireless on = do
    change (set_wireless_enabled on)
    if on then pure tt else map_err failed (clear_active_connections_of_types (wifi_type ∷ []))
    emit_root_runtime_changes failed

module _ {Value : Type 0} ⦃V : Variant Value⦄ where
  unfoldable pub active_connection_for : ConnectionRecord Value → Str → Bool → ActiveConnection
  unfolding activation_state_flags device_object_path id
  active_connection_for c name is_primary = record {
    connection = c.path;
    controller = root_path;
    default = is_primary;
    default6 = is_primary;
    devices = device_object_path name ∷ [];
    dhcp4_config = root_path;
    dhcp6_config = root_path;
    id = id c;
    ip4_config = root_path;
    ip6_config = root_path;
    specific_object = root_path;
    state = NmActiveConnectionState.activated;
    state_flags = activation_state_flags true false;
    type_ = c.connection_type;
    uuid = c.uuid;
    vpn = c.connection_type == vpn_type;
  }

  -- The interface to activate on: the device's last segment, or the one that the connection names.
  unfoldable pub target_interface : ConnectionRecord Value → ObjectPath → Io Value Error Str
  unfolding interface_name
  target_interface c device =
      if device == root_path
      then ok_or (interface_name c) (failed (codes "connection has no interface-name"))
      else pure (last_segment device)

  -- The bring-up of the interface, behind the switch of the radio.
  unfoldable pub bring_up : ConnectionRecord Value → Str → Io Value Error (Unit {0})
  unfolding activate_wifi_connection activate_wired_connection
  bring_up c name =
      if c.connection_type == wifi_type
      then (do
        on ← gets (λ s. s.wireless_enabled)
        if on
            then map_err failed (activate_wifi_connection c name)
            else fail (failed (codes "wireless is disabled")))
      else map_err failed (activate_wired_connection name)

  -- The second half of `activate_connection`, from the bring-up on.
  unfoldable pub finish_activation : ConnectionRecord Value → Str → Io Value Error ObjectPath
  unfolding bring_up active_connection_object_path active_connection_for active_connection_paths
      serve_active add_active_connection emit_root_runtime_changes emit_device_runtime_changes
  finish_activation c name = do
    bring_up c name
    is_primary ← gets (λ s. is_empty (active_connection_paths s))
    let active_path : ObjectPath = active_connection_object_path name
    let value : ActiveConnection = active_connection_for c name is_primary
    serve_active active_path value
    change (add_active_connection (record { path = active_path; value = value }))
    request failed (emit (active_state_changed active_path (active_state_code activated) 0))
    emit_root_runtime_changes failed
    emit_device_runtime_changes failed name
    pure active_path

  unfoldable pub activate_connection : ObjectPath → ObjectPath → Io Value Error ObjectPath
  unfolding connection target_interface refuse_when_off finish_activation
  activate_connection path device = do
    found ← gets (connection path)
    c ← ok_or found (failed (codes "unknown connection object"))
    name ← target_interface c device
    refuse_when_off
    finish_activation c name

  unfoldable pub add_runtime_connection : ConnectionSettings Value → Bool → Io Value Str ObjectPath
  unfolding get_string add_connection next_connection_path
  add_runtime_connection settings unsaved = do
    uuid ←
        ok_or (get_string settings (codes "connection") (codes "uuid"))
          (codes "missing connection.uuid")
    connection_type ←
        ok_or (get_string settings (codes "connection") (codes "type"))
          (codes "missing connection.type")
    path ← update next_connection_path
    let built : ConnectionRecord Value = record {
      connection_type = connection_type;
      filename = [];
      flags = 0;
      origin = user;
      path = path;
      settings = settings;
      unsaved = unsaved;
      uuid = uuid;
    }
    stored ← if unsaved then pure built else persist_connection built
    change (add_connection stored)
    request as_text (serve path settings_connection)
    emit_object_added as_text path connection_interface
    request as_text (emit (new_connection path))
    pure path

  unfoldable pub add_and_activate_connection :
      ConnectionSettings Value → ObjectPath → Io Value Error (ObjectPath × ObjectPath)
  unfolding add_runtime_connection activate_connection emit_settings_changed
      emit_root_runtime_changes
  add_and_activate_connection settings device = do
    connection_path ← map_err failed (add_runtime_connection settings false)
    active_path ← activate_connection connection_path device
    emit_settings_changed failed none
    emit_root_runtime_changes failed
    pure (connection_path, active_path)
