-- ===== src/Settings.antt =====
-- network_manager/settings.rs: the D-Bus object that adds, imports and prunes connections.
pub mod Added
pub mod Imported
pub mod Import
use nm_dbus_proxy_rs.Prelude.{
  ℕ, ◌-◌, ◌^◌, Bool, true, false, not, ◌&&◌, List, [], ◌∷◌, ◌++◌, map, Option, none, some, any, eqb,
  is_empty, keep_if, if◌then◌else◌,
}
use Prim.Native.Nat.{bit_and}
use nm_dbus_proxy_rs.Text.{Str, codes, ◌==◌}
use nm_dbus_proxy_rs.Map
use nm_dbus_proxy_rs.Variant.{Variant}
use nm_dbus_proxy_rs.Paths.{ObjectPath}
use nm_dbus_proxy_rs.Connection.{
  ConnectionRecord, ConnectionSettings, ConnectionOrigin, user, backend_wired, backend_wifi,
  get_string, unwrap_or,
}
use nm_dbus_proxy_rs.Runtime.State.{RuntimeState, connection_key}
use nm_dbus_proxy_rs.Runtime.Connections.{
  connection_by_uuid, add_connection, remove_connection, update_connection, next_connection_path,
}
use nm_dbus_proxy_rs.Runtime.Settings.{set_hostname}
use nm_dbus_proxy_rs.Io.{
  Io, Error, failed, invalid_args, zbus, serve, withdraw, emit, write_file, new_connection,
  connection_removed, settings_connection, settings_connection_interface, pure, fail, gets, update,
  change, ok_or, request, ignore, map_err, for_each, ◌>>=◌, ◌>>◌,
}
use nm_dbus_proxy_rs.Signals.{emit_object_added, emit_object_removed, emit_settings_changed}
use nm_dbus_proxy_rs.Persistence.Files.{persist_connection, as_text}

abbrev pub connection_interface : Str
connection_interface = codes "org.freedesktop.NetworkManager.Settings.Connection"

-- `flags & mask != 0`.
unfoldable pub has_flag : ℕ → ℕ → Bool
has_flag flags mask = not (eqb (bit_and flags mask) 0)

-- `!mask` of a `u32`.
abbrev pub complement_u32 : ℕ → ℕ
complement_u32 mask = 2 ^ 32 - 1 - mask

-- Where `AddConnection2` puts the connection, or why it refuses the flags.
pub data Storage : Type 0 where
  to_disk in_memory unknown_flags not_one_storage : Storage

unfoldable pub storage_of : ℕ → Storage
unfolding has_flag
storage_of flags =
    if has_flag flags (complement_u32 0x23)
    then unknown_flags
    else if has_flag flags 0x1
    then (if has_flag flags 0x2 then not_one_storage else to_disk)
    else (if has_flag flags 0x2 then in_memory else not_one_storage)

module _ {Value : Type 0} ⦃V : Variant Value⦄ where
  -- `entry("connection").or_default().insert("autoconnect", value)`.
  unfoldable pub set_autoconnect : Bool → ConnectionSettings Value → ConnectionSettings Value
  set_autoconnect value settings =
      Map.insert (codes "connection")
        (Map.insert (codes "autoconnect") (V.from_bool value)
          (unwrap_or (Map.lookup (codes "connection") settings) []))
        settings

  unfoldable pub add_connection_inner : ConnectionSettings Value → Bool → Io Value Error ObjectPath
  unfolding get_string add_connection next_connection_path
  add_connection_inner connection unsaved = do
    uuid ←
        ok_or (get_string connection (codes "connection") (codes "uuid"))
          (invalid_args (codes "missing connection.uuid"))
    connection_type ←
        ok_or (get_string connection (codes "connection") (codes "type"))
          (invalid_args (codes "missing connection.type"))
    path ← update next_connection_path
    let built : ConnectionRecord Value = record {
      connection_type = connection_type;
      filename = [];
      flags = 0;
      origin = user;
      path = path;
      settings = connection;
      unsaved = unsaved;
      uuid = uuid;
    }
    stored ← if unsaved then pure built else map_err failed (persist_connection built)
    change (add_connection stored)
    request zbus (serve path settings_connection)
    emit_object_added failed path connection_interface
    emit_settings_changed failed none
    pure path

  unfoldable pub add_connection2 : ConnectionSettings Value → ℕ → Io Value Error ObjectPath
  unfolding add_connection_inner storage_of set_autoconnect
  add_connection2 connection flags =
      let settings : ConnectionSettings Value =
        (if has_flag flags 0x20 then set_autoconnect false connection else connection) in
      elim (storage_of flags) [
        | unknown_flags ↦ fail (invalid_args (codes "unknown AddConnection2 flags"))
        | not_one_storage ↦
            fail
              (invalid_args (codes "AddConnection2 requires exactly one of to-disk or in-memory"))
        | to_disk ↦ add_connection_inner settings false
        | in_memory ↦ add_connection_inner settings true
      ]

unfoldable pub is_user : ConnectionOrigin → Bool
is_user user = true
is_user backend_wired = false
is_user backend_wifi = false

module _ {Value : Type 0} where
  unfoldable pub save_hostname : Str → Str → Io Value Error (Unit {0})
  unfolding set_hostname
  save_hostname hostname_path hostname = do
    request failed (write_file hostname_path (hostname ++ 10 ∷ []))
    change (set_hostname hostname)
    emit_settings_changed failed (some hostname)

  unfoldable pub get_connection_by_uuid : Str → Io Value Error ObjectPath
  unfolding connection_by_uuid
  get_connection_by_uuid uuid = do
    found ← gets (connection_by_uuid uuid)
    c ← ok_or found (failed (codes "No connection for UUID '" ++ (uuid ++ codes "'")))
    pure c.path

  -- A saved user connection whose file is not among the known ones.
  unfoldable pub is_stale : List Str → ConnectionRecord Value → Bool
  unfolding is_user
  is_stale known c =
      is_user c.origin
      && (not c.unsaved
          && (not (is_empty c.filename) && not (any (λ file. file == c.filename) known)))

  unfoldable pub drop_connection : ObjectPath → Io Value Error (Unit {0})
  unfolding remove_connection
  drop_connection path = do
    _ ← update (remove_connection path)
    ignore (request as_text (withdraw path settings_connection_interface))
    ignore (emit_object_removed as_text path connection_interface)
    ignore (request as_text (emit (connection_removed path)))

  unfoldable pub prune_missing_user_connections : List Str → Io Value Error (Unit {0})
  unfolding is_stale drop_connection
  prune_missing_user_connections files = do
    stale ← gets (λ s. map connection_key (keep_if (is_stale files) s.connections))
    for_each stale drop_connection
