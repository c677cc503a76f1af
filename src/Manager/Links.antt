-- ===== src/Manager/Links.antt =====
-- network_manager/mod.rs: bringing interfaces up and down, over iwd and over network links.
use nm_dbus_proxy_rs.Prelude.{List, ◌++◌, Option, none, some, any, find_if, first, if◌then◌else◌}
use mathlib.Core.Option
use nm_dbus_proxy_rs.Text.{Str, codes, ◌==◌}
use nm_dbus_proxy_rs.Variant.{Variant}
use nm_dbus_proxy_rs.Paths.{ObjectPath, last_segment}
use nm_dbus_proxy_rs.Connection.{
  ConnectionRecord, wifi_type, ethernet_type, ssid, is_hidden, wifi_passphrase, is_some,
}
use nm_dbus_proxy_rs.Iwd
use nm_dbus_proxy_rs.Runtime.State.{ActiveConnectionRecord}
use nm_dbus_proxy_rs.Runtime.Active.{
  active_connection, active_connection_paths, remove_active_connection,
}
use nm_dbus_proxy_rs.Io.{
  Io, withdraw, link_up, link_down, ask_iwd, station_disconnect, station_connect_hidden,
  known_network_connect, active_connection_interface, vpn_connection_interface, pure, gets, query,
  update, lift, ok_or, request, ignore, for_each, ◌>>=◌, ◌>>◌,
}
use nm_dbus_proxy_rs.Persistence.Files.{as_text}
use nm_dbus_proxy_rs.SettingsConnection.{tell_agent}

-- `record.value.devices.first().and_then(|path| path.as_str().rsplit('/').next())`.
unfoldable pub first_interface : ActiveConnectionRecord → Option Str
unfolding first
first_interface r = Option.map last_segment (first r.value.devices)

-- The path of the iwd device of that name, by which its station goes.
unfoldable pub station_path_of : Iwd.State → Str → Option ObjectPath
unfolding Iwd.device_by_name
station_path_of state name = Option.map (λ (d : Iwd.Device). d.path) (Iwd.device_by_name state name)

unfoldable pub unknown_station : Str → Str
unknown_station name = codes "unknown iwd station for interface '" ++ (name ++ codes "'")

module _ {Value : Type 0} where
  unfoldable pub request_iwd : Io Value Str Iwd.State
  request_iwd = do answer ← query ask_iwd (λ h calls. h.iwd_state calls); lift answer

  unfoldable pub deactivate_wifi_connection : Str → Io Value Str (Unit {0})
  unfolding request_iwd station_path_of
  deactivate_wifi_connection name = do
    state ← request_iwd
    station ← ok_or (station_path_of state name) (unknown_station name)
    request as_text (station_disconnect station)

  unfoldable pub activate_wired_connection : Str → Io Value Str (Unit {0})
  activate_wired_connection name = request as_text (link_up name)

  unfoldable pub deactivate_wired_connection : Str → Io Value Str (Unit {0})
  deactivate_wired_connection name = request as_text (link_down name)

  unfoldable pub known_network_for_name : Str → Io Value Str (Option ObjectPath)
  unfolding request_iwd
  known_network_for_name name = do
    state ← request_iwd
    pure (
        Option.map (λ (n : Iwd.KnownNetwork). n.path)
          (find_if (λ (n : Iwd.KnownNetwork). n.name == name) state.known_networks))

  -- The bring-down of a record's interface by its type; other types have none.
  unfoldable pub deactivate_by_type : Str → Str → Io Value Str (Unit {0})
  unfolding deactivate_wifi_connection deactivate_wired_connection
  deactivate_by_type type_ name =
      if type_ == wifi_type
      then deactivate_wifi_connection name
      else if type_ == ethernet_type
      then deactivate_wired_connection name
      else pure tt

  -- The active connection goes, from the runtime and from the object server.
  unfoldable pub forget_active : ObjectPath → Io Value Str (Unit {0})
  unfolding remove_active_connection
  forget_active path = do
    _ ← update (remove_active_connection path)
    ignore (request as_text (withdraw path active_connection_interface))
    ignore (request as_text (withdraw path vpn_connection_interface))

  -- One round of `clear_active_connections_of_types`. A record of another type is left alone; a
  -- record without a device is forgotten with nothing to bring down.
  unfoldable pub clear_active : List Str → ObjectPath → Io Value Str (Unit {0})
  unfolding active_connection deactivate_by_type forget_active first_interface
  clear_active types path = do
    found ← gets (active_connection path)
    elim found [
      | none ↦ forget_active path
      | some r ↦
          if any (λ kind. kind == r.value.type_) types
          then (do
            elim (first_interface r) [
              | none ↦ pure tt
              | some name ↦ deactivate_by_type r.value.type_ name
            ]
            forget_active path)
          else pure tt
    ]

  -- The names that the source returns are used by none of its callers.
  unfoldable pub clear_active_connections_of_types : List Str → Io Value Str (Unit {0})
  unfolding clear_active active_connection_paths
  clear_active_connections_of_types types = do
    paths ← gets active_connection_paths
    for_each paths (clear_active types)

module _ {Value : Type 0} ⦃V : Variant Value⦄ where
  -- A hidden network and one that iwd does not know are joined by name. The secret that is asked
  -- of an agent before a known network is joined is not used.
  unfoldable pub activate_wifi_connection : ConnectionRecord Value → Str → Io Value Str (Unit {0})
  unfolding request_iwd station_path_of known_network_for_name tell_agent
  activate_wifi_connection c interface_name = do
    name ← ok_or (ssid c) (codes "Wi-Fi connection is missing SSID")
    state ← request_iwd
    station ← ok_or (station_path_of state interface_name) (unknown_station interface_name)
    if is_hidden c then request as_text (station_connect_hidden station name) else do
      known ← known_network_for_name name
      elim known [
        | none ↦ request as_text (station_connect_hidden station name)
        | some network ↦ do
          if is_some (wifi_passphrase c)
              then ignore (tell_agent (codes "GetSecrets") c)
              else pure tt
          request as_text (known_network_connect network station)
      ]
