-- ===== src/Manager/Deactivated.antt =====
-- What `DeactivateConnection` of network_manager/mod.rs leaves behind.
use nm_dbus_proxy_rs.Prelude.{◌≡◌, ◌≢◌, refl, sym, ap, subst, ◌∙◌, none, if◌then◌else◌}
use nm_dbus_proxy_rs.Text.{◌==◌}
use nm_dbus_proxy_rs.Table.Distinct.{find-remove}
use nm_dbus_proxy_rs.Paths.{ObjectPath}
use nm_dbus_proxy_rs.Runtime.State.{RuntimeState, active_key}
use nm_dbus_proxy_rs.Runtime.Active.{active_connection, remove_active_connection}
use nm_dbus_proxy_rs.Runtime.Invariant.{IsConsistent}
use nm_dbus_proxy_rs.Io.{Host, World, ok}
use nm_dbus_proxy_rs.Io.Keeps.{keeps_rules}
use nm_dbus_proxy_rs.Io.Ensures.{
  Ensures, Ensures-kept, Ensures-bind, Ensures-then, Ensures-found, Ensures-given, Ensures-gets,
  Ensures-update, Ensures-ok,
}
use nm_dbus_proxy_rs.Manager.Outside.{deactivate_wifi-Keeps, emit_root-Keeps, emit_device-Keeps}
use nm_dbus_proxy_rs.Manager.Activation.{deactivate_connection}

module _ {Value : Type 0} where
  -- The path was active, is active no more, and every other path is as it was.
  pub record IsDeactivated (path : ObjectPath) (before s : RuntimeState Value) : Type 0 where
    pub was_active : active_connection path before ≢ none
    pub finds :
        (other : ObjectPath)
        → active_connection other s
          ≡ (if path == other then none else active_connection other before)

  removed :
      (path other : ObjectPath) (s : RuntimeState Value)
      → IsConsistent s
      → active_connection other (remove_active_connection path s).1
        ≡ (if path == other then none else active_connection other s)
  unfolding active_connection remove_active_connection IsConsistent
  removed path other s h = find-remove active_key path other s.active_connections h.0

  deactivate-Ensures :
      (path : ObjectPath) (before : RuntimeState Value)
      → IsConsistent before
      → Ensures (λ s. s ≡ before) (deactivate_connection path) (λ _. IsDeactivated path before)
  unfolding deactivate_connection
  deactivate-Ensures path before h =
      Ensures-bind _ _ (λ found s. (s ≡ before) × (active_connection path before ≡ found))
        (Ensures-gets _ λ s q. (q, ap (active_connection path) (sym q)))
        λ found. Ensures-given _ λ known. Ensures-found found _ _ λ r e.
          Ensures-found _ _ _ λ name n.
            Ensures-then _ _ (search (keeps_rules, deactivate_wifi-Keeps)) λ down.
              Ensures-bind _ _ (λ _. IsDeactivated path before)
                (Ensures-update _ λ s q.
                  subst (λ t. IsDeactivated path before (remove_active_connection path t).1) (sym q)
                    (record {
                      was_active = λ missing. let gone = sym known ∙ missing in cc (gone, e);
                      finds = λ other. removed path other before h;
                    }))
                λ gone.
                  Ensures-kept _ (search (keeps_rules, emit_root-Keeps, emit_device-Keeps) depth 14)
                    λ told s d. d

  -- Where `DeactivateConnection` returns without an error, the path was active, it is active no more,
  -- and every other path is as it was. It starts from a runtime with the invariant.
  pub deactivate_connection-IsDeactivated :
      (path : ObjectPath) (host : Host Value) (w : World Value)
      → IsConsistent w.runtime
      → (deactivate_connection path host w).0 ≡ ok tt
      → IsDeactivated path w.runtime (deactivate_connection path host w).1.runtime
  deactivate_connection-IsDeactivated path host w h e =
      Ensures-ok (deactivate-Ensures path w.runtime h) host w tt refl e
