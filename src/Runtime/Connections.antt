-- ===== src/Runtime/Connections.antt =====
-- runtime.rs: the settings connections, their uuids and object paths, and the version counter.
use nm_dbus_proxy_rs.Prelude.{
  ℕ, Bool, true, false, List, [], ◌∷◌, ◌++◌, map, Option, none, some, keep_if, if◌then◌else◌, ltb,
}
use nm_dbus_proxy_rs.Prelude.Word.{inc64}
use nm_dbus_proxy_rs.Text.{Str, codes, ◌==◌}
use nm_dbus_proxy_rs.Text.Decimal.{parse_usize}
use nm_dbus_proxy_rs.Table
use nm_dbus_proxy_rs.Variant.{Variant}
use nm_dbus_proxy_rs.Paths.{ObjectPath, settings_path, last_segment}
use nm_dbus_proxy_rs.Connection.{ConnectionRecord, interface_name, unwrap_or}
use nm_dbus_proxy_rs.Runtime.State.{RuntimeState, connection_key, uuid_key}

-- `option.as_deref() == Some(name)`.
unfoldable pub is_named : Option Str → Str → Bool
is_named none name = false
is_named (some n) name = n == name

module _ {Value : Type 0} where
  unfoldable pub connection : ObjectPath → RuntimeState Value → Option (ConnectionRecord Value)
  connection path s = Table.find connection_key path s.connections

  unfoldable pub connection_by_uuid : Str → RuntimeState Value → Option (ConnectionRecord Value)
  connection_by_uuid uuid s = Table.find uuid_key uuid s.connections

  unfoldable pub connection_paths : RuntimeState Value → List ObjectPath
  connection_paths s = map connection_key s.connections

  unfoldable pub add_connection : ConnectionRecord Value → RuntimeState Value → RuntimeState Value
  add_connection c s = record s {
    connections = s.connections ++ c ∷ [];
    version_id = inc64 s.version_id;
  }

  unfoldable pub remove_connection :
      ObjectPath → RuntimeState Value → Option (ConnectionRecord Value) × RuntimeState Value
  unfolding connection
  remove_connection path s = elim (connection path s) [
    | none ↦ (none, s)
    | some c ↦ (
      some c,
      record s {
        version_id = inc64 s.version_id;
        connections = Table.remove connection_key path s.connections;
      },
    )
  ]

  unfoldable pub update_connection :
      ObjectPath
      → (ConnectionRecord Value → ConnectionRecord Value)
      → RuntimeState Value
      → Option (Unit {0}) × RuntimeState Value
  unfolding connection
  update_connection path update s = elim (connection path s) [
    | none ↦ (none, s)
    | some c ↦ (
      some tt,
      record s {
        connections = Table.modify connection_key path update s.connections;
        version_id = inc64 s.version_id;
      },
    )
  ]

  unfoldable pub next_connection_path : RuntimeState Value → ObjectPath × RuntimeState Value
  next_connection_path s =
      (settings_path s.next_settings_id, record s { next_settings_id = inc64 s.next_settings_id })

  unfoldable pub connections_for_interface :
      ⦃V : Variant Value⦄ → Str → RuntimeState Value → List ObjectPath
  unfolding is_named
  connections_for_interface name s =
      map connection_key (keep_if (λ c. is_named (interface_name c) name) s.connections)

  -- The greatest number at the end of a path: `filter_map`, `max` and `unwrap_or(0)` of `new`.
  unfoldable pub max_settings_id : List (ConnectionRecord Value) → ℕ
  max_settings_id [] = 0
  max_settings_id (c ∷ l) =
      let id = unwrap_or (parse_usize (last_segment c.path)) 0 in
      let rest = max_settings_id l in if ltb rest id then id else rest

  -- `Runtime::new`.
  unfoldable pub new : List (ConnectionRecord Value) → RuntimeState Value
  unfolding max_settings_id
  new connections = record {
    active_connections = [];
    access_points = [];
    checkpoints = [];
    connectivity_check_enabled = false;
    connections = connections;
    devices = [];
    device_managed = [];
    global_dns_configuration = [];
    hostname = [];
    logging_domains = codes "DEFAULT";
    logging_level = codes "INFO";
    networking_enabled = true;
    next_checkpoint_id = 1;
    next_settings_id = inc64 (max_settings_id connections);
    registered_agents = [];
    signal_level_agents = [];
    sleeping = false;
    version_id = 1;
    wimax_enabled = false;
    wireless_enabled = true;
    wireless_devices = [];
    wwan_enabled = true;
  }
