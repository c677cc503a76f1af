-- ===== src/SettingsConnection.antt =====
-- network_manager/settings_connection.rs: the D-Bus object of one connection.
pub mod Consistent
pub mod Others
pub mod Deleted
pub mod Updated
use Prim.Native.Nat.{bit_and}
use mathlib.Core.Option
use nm_dbus_proxy_rs.Prelude.{
  ℕ, ◌-◌, ◌^◌, Bool, true, false, not, ◌&&◌, List, [], ◌∷◌, ◌++◌, Option, none, some, eqb, last,
  is_empty, if◌then◌else◌,
}
use nm_dbus_proxy_rs.Text.{Str, codes, ◌==◌}
use nm_dbus_proxy_rs.Map
use nm_dbus_proxy_rs.Map.{Map}
use nm_dbus_proxy_rs.Variant.{Variant}
use nm_dbus_proxy_rs.Paths.{ObjectPath}
use nm_dbus_proxy_rs.Connection.{
  ConnectionRecord, ConnectionSettings, security_group, with_settings, and_then, unwrap_or,
}
use nm_dbus_proxy_rs.Runtime.State.{RuntimeState}
use nm_dbus_proxy_rs.Runtime.Connections.{connection, remove_connection, update_connection}
use nm_dbus_proxy_rs.Io.{
  Io, Error, failed, invalid_args, zbus, withdraw, emit, agent_call, updated, removed,
  connection_removed, settings_connection_interface, pure, fail, gets, update, ok_or, request,
  ignore, map_err, ◌>>=◌, ◌>>◌,
}
use nm_dbus_proxy_rs.Signals.{emit_object_removed, emit_settings_changed, emit_connection_changed}
use nm_dbus_proxy_rs.Persistence.Files.{persist_connection, delete_persisted_connection, as_text}
use nm_dbus_proxy_rs.Settings.{has_flag, complement_u32, connection_interface}

abbrev pub unknown_connection : Error
unknown_connection = failed (codes "unknown connection")

module _ {Value : Type 0} where
  -- A call of the agent that registered last; its failure is dropped by every caller.
  unfoldable pub tell_agent : Str → ConnectionRecord Value → Io Value Error (Unit {0})
  unfolding last
  tell_agent method c = do
    agents ← gets (λ s. s.registered_agents)
    elim (last agents) [
      | none ↦ pure tt
      | some agent ↦ ignore (request as_text (agent_call method agent.sender c.settings c.path))
    ]

  -- `apply_runtime_connection(...).ok_or_else(...)?`
  unfoldable pub apply_runtime_connection :
      ObjectPath → ConnectionRecord Value → Io Value Error (Unit {0})
  unfolding update_connection
  apply_runtime_connection path c = do
    found ← update (update_connection path (λ current. c))
    ok_or found unknown_connection

  -- The three signals that end every change of a connection.
  unfoldable pub announce_update : ObjectPath → Io Value Error (Unit {0})
  unfolding emit_connection_changed emit_settings_changed
  announce_update path = do
    emit_connection_changed failed path
    request failed (emit (updated path))
    emit_settings_changed failed none

  unfoldable pub find_connection : ObjectPath → Io Value Error (ConnectionRecord Value)
  unfolding connection
  find_connection path = do found ← gets (connection path); ok_or found unknown_connection

  unfoldable pub delete : ObjectPath → Io Value Error (Unit {0})
  unfolding find_connection tell_agent delete_persisted_connection remove_connection
      emit_settings_changed emit_object_removed
  delete path = do
    c ← find_connection path
    tell_agent (codes "DeleteSecrets") c
    map_err failed (delete_persisted_connection c)
    request failed (emit (removed path))
    gone ← update (remove_connection path)
    _ ← ok_or gone unknown_connection
    request zbus (withdraw path settings_connection_interface)
    emit_object_removed failed path connection_interface
    request failed (emit (connection_removed path))
    emit_settings_changed failed none

  -- The properties `Filename`, `Flags` and `Unsaved`.
  unfoldable pub filename : ObjectPath → RuntimeState Value → Str
  filename path s = unwrap_or (Option.map (λ c. c.filename) (connection path s)) []

  unfoldable pub flags : ObjectPath → RuntimeState Value → ℕ
  flags path s = unwrap_or (Option.map (λ c. c.flags) (connection path s)) 0

  unfoldable pub unsaved : ObjectPath → RuntimeState Value → Bool
  unsaved path s = unwrap_or (Option.map (λ c. c.unsaved) (connection path s)) false

  unfoldable pub get_settings : ObjectPath → RuntimeState Value → ConnectionSettings Value
  get_settings path s = unwrap_or (Option.map (λ c. c.settings) (connection path s)) []

-- Where `Update2` puts the connection.
pub data Update2Mode : Type 0 where
  mode_memory mode_disk mode_keep mode_conflict : Update2Mode

unfoldable pub update2_mode : ℕ → Update2Mode
unfolding has_flag
update2_mode flags =
    if has_flag flags 0x1e
    then (if has_flag flags 0x1 then mode_conflict else mode_memory)
    else (if has_flag flags 0x1 then mode_disk else mode_keep)

unfoldable pub apply_mode :
    {Value : Type 0} → Update2Mode → ConnectionRecord Value → ConnectionRecord Value
apply_mode mode_memory c = record c { unsaved = true }
apply_mode mode_disk c = record c { unsaved = false }
apply_mode mode_keep c = c
apply_mode mode_conflict c = c

module _ {Value : Type 0} ⦃V : Variant Value⦄ where
  -- Nothing is written for an unsaved record; otherwise the file is written, and the old one goes
  -- where the name has changed.
  unfoldable pub persist_prepared_connection :
      ConnectionRecord Value → ConnectionRecord Value → Io Value Str (ConnectionRecord Value)
  unfolding persist_connection delete_persisted_connection
  persist_prepared_connection existing changed = if changed.unsaved then pure changed else do
    stored ← persist_connection changed
    if not (is_empty existing.filename) && not (existing.filename == stored.filename)
        then (do delete_persisted_connection existing; pure stored)
        else pure stored

  -- The tail that `ClearSecrets`, `Save`, `Update` and `Update2` share.
  unfoldable pub store_update :
      ObjectPath → ConnectionRecord Value → ConnectionRecord Value → Io Value Error (Unit {0})
  unfolding persist_prepared_connection apply_runtime_connection announce_update
  store_update path existing changed = do
    stored ← map_err failed (persist_prepared_connection existing changed)
    apply_runtime_connection path stored
    announce_update path

  unfoldable pub clear_secrets : ObjectPath → Io Value Error (Unit {0})
  unfolding find_connection tell_agent store_update
  clear_secrets path = do
    c ← find_connection path
    let changed : ConnectionRecord Value = record c {
      settings = Map.remove security_group c.settings;
    }
    tell_agent (codes "DeleteSecrets") changed
    store_update path c changed

  unfoldable pub save : ObjectPath → Io Value Error (Unit {0})
  unfolding find_connection tell_agent store_update
  save path = do
    c ← find_connection path
    tell_agent (codes "SaveSecrets") c
    store_update path c (record c { unsaved = false })

  unfoldable pub update_unsaved : ObjectPath → ConnectionSettings Value → Io Value Error (Unit {0})
  unfolding find_connection with_settings apply_runtime_connection announce_update
  update_unsaved path properties = do
    c ← find_connection path
    apply_runtime_connection path (record (with_settings c properties) { unsaved = true })
    announce_update path

  unfoldable pub update_ : ObjectPath → ConnectionSettings Value → Io Value Error (Unit {0})
  unfolding find_connection with_settings store_update
  update_ path properties = do
    c ← find_connection path
    store_update path c (with_settings c properties)

  -- The `version-id` argument, where it is given as a number.
  unfoldable pub is_outdated : Map Value → RuntimeState Value → Bool
  is_outdated args s = elim (and_then (Map.lookup (codes "version-id") args) V.as_u64) [
    | none ↦ false
    | some expected ↦ not (eqb expected s.version_id)
  ]

  unfoldable pub update2 :
      ObjectPath → ConnectionSettings Value → ℕ → Map Value → Io Value Error (Unit {0})
  unfolding find_connection with_settings store_update is_outdated update2_mode apply_mode has_flag
  update2 path settings flags args =
      if has_flag flags (complement_u32 0x5f)
      then fail (invalid_args (codes "unknown Update2 flags"))
      else do
        c ← find_connection path
        outdated ← gets (is_outdated args)
        if outdated
            then fail (failed (codes "version-id mismatch"))
            else elim (update2_mode flags) [
              | mode_conflict ↦
                  fail (invalid_args (codes "Update2 cannot combine to-disk and in-memory"))
              | mode ↦ store_update path c (apply_mode mode (with_settings c settings))
            ]
