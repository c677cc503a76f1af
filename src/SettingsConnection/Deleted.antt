-- ===== src/SettingsConnection/Deleted.antt =====
-- What deleting and updating a connection leaves behind: settings_connection.rs.
use nm_dbus_proxy_rs.Prelude.{◌≡◌, ◌≢◌, refl, sym, ap, subst, ◌∙◌, none, some, if◌then◌else◌, arith}
use nm_dbus_proxy_rs.Prelude.Word.{inc64}
use nm_dbus_proxy_rs.Text.{◌==◌}
use nm_dbus_proxy_rs.Table.{Distinct}
use nm_dbus_proxy_rs.Table.Distinct.{find-remove}
use nm_dbus_proxy_rs.Paths.{ObjectPath}
use nm_dbus_proxy_rs.Connection.{ConnectionRecord}
use nm_dbus_proxy_rs.Runtime.State.{RuntimeState, connection_key}
use nm_dbus_proxy_rs.Runtime.Connections.{connection, remove_connection}
use nm_dbus_proxy_rs.Io.{Host, World, ok}
use nm_dbus_proxy_rs.Io.Keeps.{keeps_rules}
use nm_dbus_proxy_rs.Io.Ensures.{
  Ensures, Ensures-kept, Ensures-bind, Ensures-then, Ensures-found, Ensures-given, Ensures-update,
  Ensures-weaken, Ensures-ok,
}
use nm_dbus_proxy_rs.Manager.Outside.{tell_agent-Keeps, emit_settings-Keeps}
use nm_dbus_proxy_rs.SettingsConnection.{delete}
use nm_dbus_proxy_rs.SettingsConnection.Consistent.{delete_persisted-Keeps, find_connection-Keeps}

module _ {Value : Type 0} where
  -- The path stood for a connection before, stands for none now, and nothing else changed place.
  pub record IsDeleted (path : ObjectPath) (before s : RuntimeState Value) : Type 0 where
    pub was_found : connection path before ≢ none
    pub finds :
        (other : ObjectPath)
        → connection other s ≡ (if path == other then none else connection other before)
    pub is_newer : s.version_id ≡ inc64 before.version_id

  remove_connection-found :
      (path : ObjectPath) (s : RuntimeState Value)
      → (remove_connection path s).0 ≡ connection path s
  unfolding remove_connection connection
  remove_connection-found path s = ground arith

  removed :
      (path : ObjectPath) (before : RuntimeState Value) (c : ConnectionRecord Value)
      → Distinct connection_key before.connections
      → connection path before ≡ some c
      → IsDeleted path before (remove_connection path before).1
  unfolding remove_connection connection
  removed path before c d e =
      rw (remove_connection, e)
        (record {
          was_found = λ n. cc;
          finds = λ other. find-remove connection_key path other before.connections d;
          is_newer = refl;
        })

  delete-Ensures :
      (path : ObjectPath) (before : RuntimeState Value)
      → Distinct connection_key before.connections
      → Ensures (λ s. s ≡ before) (delete path) (λ _. IsDeleted path before)
  unfolding delete
  delete-Ensures path before d = Ensures-then _ _ (find_connection-Keeps path) λ c.
      Ensures-then _ _ (tell_agent-Keeps _ c) λ told.
        Ensures-then _ _ (search (keeps_rules, delete_persisted-Keeps)) λ deleted.
          Ensures-then _ _ (search keeps_rules) λ announced.
            Ensures-bind _ _
              (λ gone s. (s ≡ (remove_connection path before).1) × (gone ≡ connection path before))
              (Ensures-update _ λ s h. (
                ap (λ r. (remove_connection path r).1) h,
                ap (λ r. (remove_connection path r).0) h ∙ remove_connection-found path before,
              ))
              λ gone. Ensures-given _ λ same. Ensures-found gone _ _ λ c' e.
                let done = removed path before c' d (sym same ∙ e) in
                Ensures-weaken {R = IsDeleted path before} _
                  (λ s h. subst (IsDeleted path before) (sym h) done)
                  (Ensures-kept _ (search (keeps_rules, emit_settings-Keeps) depth 14) λ a s h. h)

  -- Where `Delete` returns without an error, the path stood for a connection, it stands for none any
  -- more, every other path finds what it found before, and the version is one on. Connection paths
  -- are distinct at the start.
  pub delete-IsDeleted :
      (path : ObjectPath) (host : Host Value) (w : World Value)
      → Distinct connection_key w.runtime.connections
      → (delete path host w).0 ≡ ok tt
      → IsDeleted path w.runtime (delete path host w).1.runtime
  delete-IsDeleted path host w d e = Ensures-ok (delete-Ensures path w.runtime d) host w tt refl e
