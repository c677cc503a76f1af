-- ===== src/Signals.antt =====
-- The state of the whole service as clients see it, and the signals that announce it:
-- `state_from_runtime`, `connectivity_from_runtime` and the emitters of network_manager/mod.rs,
-- lib.rs, settings.rs and settings_connection.rs.
pub mod State
use nm_dbus_proxy_rs.Prelude.{
  ℕ, Bool, true, false, not, ◌||◌, List, [], ◌∷◌, ◌++◌, map, Option, none, some, first, is_empty,
  if◌then◌else◌,
}
use mathlib.Core.Option
use nm_dbus_proxy_rs.Text.{Str, codes}
use nm_dbus_proxy_rs.Enums.{NmConnectivityState, no_connectivity, full, limited, connectivity_code}
use nm_dbus_proxy_rs.Paths.{
  ObjectPath, root_path, nm_root_path, nm_settings_path, device_object_path,
}
use nm_dbus_proxy_rs.Connection.{ConnectionRecord, and_then, unwrap_or}
use nm_dbus_proxy_rs.Runtime.State.{RuntimeState}
use nm_dbus_proxy_rs.Runtime.Connections.{connection, connection_paths}
use nm_dbus_proxy_rs.Runtime.Active.{
  active_connection, active_connection_paths, active_connection_for_interface,
}
use nm_dbus_proxy_rs.Runtime.Devices.{device_paths}
use nm_dbus_proxy_rs.Runtime.Checkpoints.{checkpoint_paths}
use nm_dbus_proxy_rs.Io.{
  Io, Call, Signal, Property, emit, interfaces_added, interfaces_removed, properties_changed,
  root_state_changed, number, text, flag, dict, pure, gets, config, query, request,
  ask_connectivity, ◌>>=◌, ◌>>◌,
}

-- 10 asleep, 20 disconnected, 70 connected.
unfoldable pub state_from_runtime : {Value : Type 0} → RuntimeState Value → ℕ
unfolding active_connection_paths
state_from_runtime s =
    if s.sleeping
    then 10
    else if not s.networking_enabled || is_empty (active_connection_paths s)
    then 20
    else 70

-- Nothing to be reached by.
unfoldable pub is_offline : {Value : Type 0} → RuntimeState Value → Bool
unfolding active_connection_paths
is_offline s = s.sleeping || (not s.networking_enabled || is_empty (active_connection_paths s))

unfoldable pub primary_connection : {Value : Type 0} → RuntimeState Value → ObjectPath
unfolding active_connection_paths first
primary_connection s = unwrap_or (first (active_connection_paths s)) root_path

unfoldable pub primary_connection_type : {Value : Type 0} → RuntimeState Value → Option Str
unfolding active_connection_paths active_connection first
primary_connection_type s =
    and_then (first (active_connection_paths s))
      λ path. Option.map (λ r. r.value.type_) (active_connection path s)

-- The properties that `emit_root_runtime_changes` announces.
unfoldable pub root_properties :
    {Value : Type 0} → RuntimeState Value → NmConnectivityState → List (Str × Property Value)
unfolding active_connection_paths device_paths checkpoint_paths primary_connection
    primary_connection_type state_from_runtime connectivity_code
root_properties s connectivity =
    (codes "ActiveConnections", Property.paths (active_connection_paths s))
    ∷ (codes "ActivatingConnection", Property.path (primary_connection s))
    ∷ (codes "AllDevices", Property.paths (device_paths s))
    ∷ (codes "Checkpoints", Property.paths (checkpoint_paths s))
    ∷ (codes "Connectivity", number (connectivity_code connectivity))
    ∷ (codes "ConnectivityCheckEnabled", flag s.connectivity_check_enabled)
    ∷ (codes "Devices", Property.paths (device_paths s))
    ∷ (codes "GlobalDnsConfiguration", dict s.global_dns_configuration)
    ∷ (codes "NetworkingEnabled", flag s.networking_enabled)
    ∷ (codes "PrimaryConnection", Property.path (primary_connection s))
    ∷ (codes "PrimaryConnectionType", text (unwrap_or (primary_connection_type s) []))
    ∷ (codes "State", number (state_from_runtime s))
    ∷ (codes "WimaxEnabled", flag s.wimax_enabled)
    ∷ (codes "WirelessEnabled", flag s.wireless_enabled)
    ∷ (codes "WwanEnabled", flag s.wwan_enabled)
    ∷ []

module _ {Value E : Type 0} where
  -- The outside is asked only where a check is enabled and has an address.
  unfoldable pub connectivity_from_runtime : Io Value E NmConnectivityState
  unfolding is_offline
  connectivity_from_runtime = do
    s ← gets (λ r. r)
    uri ← config (λ h. h.connectivity_check_uri)
    if is_offline s
        then pure no_connectivity
        else if not s.connectivity_check_enabled || is_empty uri
        then pure full
        else do
          reached ← query (ask_connectivity uri) (λ h calls. h.connectivity_probe calls uri)
          pure (if reached then full else limited)

  unfoldable pub emit_object_added : (Str → E) → ObjectPath → Str → Io Value E (Unit {0})
  emit_object_added wrap path name = request wrap (emit (interfaces_added path (name ∷ [])))

  unfoldable pub emit_object_removed : (Str → E) → ObjectPath → Str → Io Value E (Unit {0})
  emit_object_removed wrap path name = request wrap (emit (interfaces_removed path (name ∷ [])))

  unfoldable pub emit_settings_changed : (Str → E) → Option Str → Io Value E (Unit {0})
  unfolding connection_paths
  emit_settings_changed wrap hostname = do
    s ← gets (λ r. r)
    request wrap (
        emit (
          properties_changed nm_settings_path (codes "org.freedesktop.NetworkManager.Settings") (
            (codes "Connections", Property.paths (connection_paths s))
            ∷ (codes "VersionId", number s.version_id)
            ∷ elim hostname [ none ↦ [] | some name ↦ (codes "Hostname", text name) ∷ [] ])))

  unfoldable pub emit_connection_changed : (Str → E) → ObjectPath → Io Value E (Unit {0})
  unfolding connection
  emit_connection_changed wrap path = do
    found ← gets (connection path)
    elim found [
      | none ↦ pure tt
      | some c ↦ request wrap (
          emit (
            properties_changed path (codes "org.freedesktop.NetworkManager.Settings.Connection") (
              (codes "Filename", text c.filename)
              ∷ (codes "Flags", number c.flags)
              ∷ (codes "Unsaved", flag c.unsaved)
              ∷ [])))
    ]

  unfoldable pub emit_root_runtime_changes : (Str → E) → Io Value E (Unit {0})
  unfolding connectivity_from_runtime root_properties
  emit_root_runtime_changes wrap = do
    connectivity ← connectivity_from_runtime
    s ← gets (λ r. r)
    request wrap (
        emit (
          properties_changed nm_root_path (codes "org.freedesktop.NetworkManager")
            (root_properties s connectivity)))
    request wrap (emit (root_state_changed (state_from_runtime s)))

  unfoldable pub emit_device_runtime_changes : (Str → E) → Str → Io Value E (Unit {0})
  unfolding active_connection_for_interface
  emit_device_runtime_changes wrap interface_name = do
    active ← gets (active_connection_for_interface interface_name)
    request wrap (
        emit (
          properties_changed (device_object_path interface_name)
            (codes "org.freedesktop.NetworkManager.Device")
            ((codes "ActiveConnection", Property.path (unwrap_or active root_path)) ∷ [])))
