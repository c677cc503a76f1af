-- ===== src/Sync.antt =====
-- lib.rs: the part of `sync_backends` that makes the connections of iwd's known networks and of the
-- network links, with the settings and names that it builds for them.
mod Rounds
pub mod Wireless
pub mod Settled
use nm_dbus_proxy_rs.Prelude.{
  Bool, true, false, not, ◌&&◌, List, [], ◌∷◌, ◌++◌, map, Option, none, some, any, find_if, keep_if,
  if◌then◌else◌,
}
use mathlib.Core.Option
use nm_dbus_proxy_rs.Text.{Str, codes, ◌==◌}
use nm_dbus_proxy_rs.Text.Utf8.{to_bytes}
use nm_dbus_proxy_rs.Map
use nm_dbus_proxy_rs.Map.{Map}
use nm_dbus_proxy_rs.Variant.{Variant}
use nm_dbus_proxy_rs.Enums.{LinkType}
use nm_dbus_proxy_rs.Paths.{ObjectPath, root_path}
use nm_dbus_proxy_rs.Connection.{
  ConnectionRecord, ConnectionSettings, ConnectionOrigin, user, backend_wired, backend_wifi,
  wifi_type, ethernet_type, security_group, unwrap_or,
}
use nm_dbus_proxy_rs.Iwd
use nm_dbus_proxy_rs.Links.{Link}
use nm_dbus_proxy_rs.Links.Names.{connection_type_for_link, link_uuid_namespace}
use nm_dbus_proxy_rs.Runtime.State.{RuntimeState, connection_key}
use nm_dbus_proxy_rs.Runtime.Connections.{
  connection_by_uuid, add_connection, remove_connection, update_connection, next_connection_path,
}
use nm_dbus_proxy_rs.Io.{
  Io, Host, serve, withdraw, settings_connection, settings_connection_interface, pure, config, gets,
  update, change, request, ignore, for_each, ◌>>=◌, ◌>>◌,
}
use nm_dbus_proxy_rs.Signals.{emit_object_added, emit_object_removed}
use nm_dbus_proxy_rs.Persistence.{join}
use nm_dbus_proxy_rs.Persistence.Files.{as_text}
use nm_dbus_proxy_rs.Settings.{connection_interface}

-- `Uuid::new_v5` of the `uuid` crate, in the namespace of URLs, printed.
unfoldable pub deterministic_uuid : (Str → Str) → Str → Str → Str
deterministic_uuid new_v5 namespace value =
    new_v5 (codes "nm-dbus-proxy:" ++ (namespace ++ b':' ∷ value))

unfoldable pub synthetic_iwd_filename : Iwd.KnownNetwork → Str
synthetic_iwd_filename network = codes "/var/lib/iwd/" ++ (network.name ++ b'.' ∷ network.kind)

abbrev is_wlan : LinkType → Bool
is_wlan LinkType.wlan = true
is_wlan _ = false

-- The name of the first wireless link, empty where there is none.
unfoldable pub wireless_interface_name : List Link → Str
wireless_interface_name links =
    unwrap_or
      (Option.map (λ (l : Link). l.description.name)
        (find_if (λ (l : Link). is_wlan l.description.link_type) links))
      []

unfoldable pub is_backend : ConnectionOrigin → Bool
is_backend user = false
is_backend backend_wired = true
is_backend backend_wifi = true

module _ {Value : Type 0} where
  unfoldable pub synthetic_networkd_filename : Host Value → Link → Str → Str
  synthetic_networkd_filename host link connection_type = join host.network_dir (
      link.description.name
      ++ b'.' ∷ (if connection_type == ethernet_type then codes "network" else codes "netdev"))

  -- A backend connection that no known network and no link asks for.
  unfoldable pub is_outlived : List Str → ConnectionRecord Value → Bool
  unfolding is_backend
  is_outlived desired c = is_backend c.origin && not (any (λ uuid. uuid == c.uuid) desired)

  -- What a profile changes in a connection that is there: all but flags, path and uuid.
  abbrev pub refreshed : ConnectionRecord Value → ConnectionRecord Value → ConnectionRecord Value
  refreshed profile c = record c {
    connection_type = profile.connection_type;
    filename = profile.filename;
    origin = profile.origin;
    settings = profile.settings;
    unsaved = false;
  }

  -- The two ends of a round: the profile's uuid is known, or not.
  unfoldable pub place_profile :
      ConnectionRecord Value → Option (ConnectionRecord Value) → Io Value Str (Unit {0})
  unfolding update_connection next_connection_path add_connection
  place_profile profile (some existing) = do
    _ ← update (update_connection existing.path (refreshed profile))
    pure tt
  place_profile profile none = do
    path ← update next_connection_path
    change (add_connection (record profile { path = path }))
    ignore (request as_text (serve path settings_connection))
    ignore (emit_object_added as_text path connection_interface)

  unfoldable pub sync_profile : ConnectionRecord Value → Io Value Str (Unit {0})
  unfolding connection_by_uuid place_profile
  sync_profile profile = do
    existing ← gets (connection_by_uuid profile.uuid)
    place_profile profile existing

  unfoldable pub drop_outlived : ObjectPath → Io Value Str (Unit {0})
  unfolding remove_connection
  drop_outlived path = do
    _ ← update (remove_connection path)
    ignore (request as_text (withdraw path settings_connection_interface))
    ignore (emit_object_removed as_text path connection_interface)

  abbrev pub uuids : List (ConnectionRecord Value) → List Str
  uuids profiles = map (λ c. c.uuid) profiles

  -- The profiles of all known networks, then those of all links, then what they outlive.
  unfoldable pub sync_profiles : List (ConnectionRecord Value) → Io Value Str (Unit {0})
  unfolding sync_profile is_outlived drop_outlived
  sync_profiles profiles = do
    for_each profiles sync_profile
    outlived ← gets (λ s. map connection_key (keep_if (is_outlived (uuids profiles)) s.connections))
    for_each outlived drop_outlived

module _ {Value : Type 0} ⦃V : Variant Value⦄ where
  -- The groups that both kinds of profile share.
  abbrev profile_group : Str → Str → Str → Str → Map Value
  profile_group id interface_name connection_type uuid =
      (codes "autoconnect", V.from_bool true)
      ∷ (codes "id", V.from_string id)
      ∷ (codes "interface-name", V.from_string interface_name)
      ∷ (codes "type", V.from_string connection_type)
      ∷ (codes "uuid", V.from_string uuid)
      ∷ []

  abbrev automatic : Map Value
  automatic = (codes "method", V.from_string (codes "auto")) ∷ []

  unfoldable pub build_wifi_settings : Str → Iwd.KnownNetwork → Str → ConnectionSettings Value
  build_wifi_settings interface_name network uuid =
      (codes "connection", profile_group network.name interface_name wifi_type uuid)
        ∷ (
          wifi_type,
          (codes "hidden", V.from_bool network.hidden)
              ∷ (codes "mode", V.from_string (codes "infrastructure"))
              ∷ (codes "ssid", V.from_bytes (to_bytes network.name))
              ∷ [],
        )
        ∷ (if network.kind == codes "open"
            then []
            else (security_group, (codes "key-mgmt", V.from_string (codes "wpa-psk")) ∷ []) ∷ [])
      ++ (codes "ipv4", automatic) ∷ (codes "ipv6", automatic) ∷ []

  unfoldable pub build_link_settings : Str → Str → Str → ConnectionSettings Value
  build_link_settings interface_name connection_type uuid = Map.insert connection_type [] (
      (codes "connection", profile_group interface_name interface_name connection_type uuid)
      ∷ (codes "ipv4", automatic)
      ∷ (codes "ipv6", automatic)
      ∷ [])

  -- The connection that a known network asks for; its path is given where it is added.
  unfoldable pub wifi_record : (Str → Str) → Str → Iwd.KnownNetwork → ConnectionRecord Value
  unfolding deterministic_uuid build_wifi_settings synthetic_iwd_filename
  wifi_record new_v5 interface_name network =
      let uuid = deterministic_uuid new_v5 (codes "wifi") network.path in
      record {
        connection_type = wifi_type;
        filename = synthetic_iwd_filename network;
        flags = 0;
        origin = backend_wifi;
        path = root_path;
        settings = build_wifi_settings interface_name network uuid;
        unsaved = false;
        uuid = uuid;
      }

  unfoldable pub link_record : (Str → Str) → Host Value → Link → Str → ConnectionRecord Value
  unfolding deterministic_uuid build_link_settings synthetic_networkd_filename link_uuid_namespace
  link_record new_v5 host link connection_type =
      let name = link.description.name in
      let uuid = deterministic_uuid new_v5 (link_uuid_namespace link) name in
      record {
        connection_type = connection_type;
        filename = synthetic_networkd_filename host link connection_type;
        flags = 0;
        origin = backend_wired;
        path = root_path;
        settings = build_link_settings name connection_type uuid;
        unsaved = false;
        uuid = uuid;
      }

  abbrev wired_profile_of :
      (Str → Str) → Host Value → Link → Option Str → List (ConnectionRecord Value)
  wired_profile_of new_v5 host link none = []
  wired_profile_of new_v5 host link (some connection_type) =
      if connection_type == wifi_type then [] else link_record new_v5 host link connection_type ∷ []

  -- A link without a connection type, and a wireless one, is passed over.
  unfoldable pub link_records : (Str → Str) → Host Value → List Link → List (ConnectionRecord Value)
  unfolding link_record connection_type_for_link
  link_records new_v5 host [] = []
  link_records new_v5 host (link ∷ links) =
      wired_profile_of new_v5 host link (connection_type_for_link link)
      ++ link_records new_v5 host links

  -- The connections that the two backends ask for, in the order of the loops.
  unfoldable pub backend_records :
      (Str → Str) → Host Value → Iwd.State → List Link → List (ConnectionRecord Value)
  unfolding wifi_record link_records wireless_interface_name
  backend_records new_v5 host wireless links =
      map (wifi_record new_v5 (wireless_interface_name links)) wireless.known_networks
      ++ link_records new_v5 host links

  unfoldable pub sync_connections : (Str → Str) → Iwd.State → List Link → Io Value Str (Unit {0})
  unfolding backend_records sync_profiles
  sync_connections new_v5 wireless links = do
    host ← config (λ h. h)
    sync_profiles (backend_records new_v5 host wireless links)
