-- ===== src/Settings/Import.antt =====
-- network_manager/settings.rs: `import_connections`, behind `LoadConnections` and
-- `ReloadConnections`, and `list_connections`.
use nm_dbus_proxy_rs.Prelude.{
  Bool, true, false, List, [], ◌∷◌, Option, none, some, is_empty, if◌then◌else◌,
}
use nm_dbus_proxy_rs.Text.{Str}
use nm_dbus_proxy_rs.Variant.{Variant}
use nm_dbus_proxy_rs.Paths.{ObjectPath}
use nm_dbus_proxy_rs.Connection.{ConnectionRecord}
use nm_dbus_proxy_rs.Runtime.Connections.{
  connection_by_uuid, connection_paths, add_connection, update_connection, next_connection_path,
}
use nm_dbus_proxy_rs.Io.{
  Io, Error, Result, ok, err, serve, emit, new_connection, settings_connection, pure, gets, update,
  change, request, ignore, attempt, ◌>>=◌, ◌>>◌,
}
use nm_dbus_proxy_rs.Signals.{emit_object_added, emit_settings_changed}
use nm_dbus_proxy_rs.Persistence.Files.{discover_connection_files, as_text}
use nm_dbus_proxy_rs.Persistence.Load.{load_connection_from_path}
use nm_dbus_proxy_rs.Settings.{connection_interface, prune_missing_user_connections}

module _ {Value : Type 0} where
  -- A loaded record takes the place of the connection with its uuid, or is added.
  unfoldable pub import_record :
      ConnectionRecord Value → Option (ConnectionRecord Value) → Io Value Error (Unit {0})
  unfolding update_connection add_connection next_connection_path
  import_record c (some existing) = do
    _ ← update (update_connection existing.path (λ _. record c { path = existing.path }))
    pure tt
  import_record c none = do
    path ← update next_connection_path
    change (add_connection (record c { path = path }))
    ignore (request as_text (serve path settings_connection))
    ignore (emit_object_added as_text path connection_interface)
    ignore (request as_text (emit (new_connection path)))

  -- Whether the file could be loaded.
  unfoldable pub import_answer : Result Str (ConnectionRecord Value) → Io Value Error Bool
  unfolding import_record connection_by_uuid
  import_answer (err e) = pure false
  import_answer (ok c) = do
    existing ← gets (connection_by_uuid c.uuid)
    import_record c existing
    pure true

  unfoldable pub list_connections : Io Value Error (List ObjectPath)
  unfolding connection_paths
  list_connections = gets connection_paths

module _ {Value : Type 0} ⦃V : Variant Value⦄ where
  unfoldable pub import_file : Str → Io Value Error Bool
  unfolding import_answer
  import_file filename = do
    answer ← attempt (load_connection_from_path filename)
    import_answer answer

  -- The loop, with the files that failed.
  unfoldable pub import_files : List Str → Io Value Error (List Str)
  unfolding import_file
  import_files [] = pure []
  import_files (filename ∷ rest) = do
    imported ← import_file filename
    failures ← import_files rest
    pure (if imported then failures else filename ∷ failures)

  unfoldable pub import_connections : List Str → Io Value Error (Bool × List Str)
  unfolding import_files
  import_connections filenames = do
    failures ← import_files filenames
    ignore (emit_settings_changed {E = Error} (λ e. Error.failed e) none)
    pure (is_empty failures, failures)

  -- `LoadConnections`.
  unfoldable pub load_connections : List Str → Io Value Error (Bool × List Str)
  unfolding import_connections
  load_connections filenames = import_connections filenames

  -- `ReloadConnections` up to the synchronisation with the backends: whether it goes that far.
  unfoldable pub reload_answer : Result Str (List Str) → Io Value Error Bool
  unfolding import_connections prune_missing_user_connections
  reload_answer (err e) = pure false
  reload_answer (ok files) = do
    imported ← import_connections files
    if imported.0 then prune_missing_user_connections files >> pure true else pure false

  unfoldable pub reload_files : Io Value Error Bool
  unfolding reload_answer
  reload_files = do answer ← attempt discover_connection_files; reload_answer answer
