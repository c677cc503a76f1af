-- ===== src/Runtime/Dropping.antt =====
-- A loop that removes the connections that a test picks, of runtime.rs.
use nm_dbus_proxy_rs.Prelude.{◌≡◌, refl, ◌∙◌, Bool, List, [], ◌∷◌, Option-cases, inl, inr}
use nm_dbus_proxy_rs.Table.{Distinct, find}
use nm_dbus_proxy_rs.Table.Distinct.{Distinct-remove}
use nm_dbus_proxy_rs.Table.Matching.{absent, remove-picked, picked, others}
use nm_dbus_proxy_rs.Paths.{ObjectPath}
use nm_dbus_proxy_rs.Connection.{ConnectionRecord}
use nm_dbus_proxy_rs.Runtime.State.{RuntimeState, connection_key}
use nm_dbus_proxy_rs.Runtime.Connections.{remove_connection, connection}
use nm_dbus_proxy_rs.Io.{Io, update, for_each, ◌>>=◌}
use nm_dbus_proxy_rs.Io.Keeps.{Keeps}
use nm_dbus_proxy_rs.Io.Ensures.{
  Ensures, Ensures-bind, Ensures-update, Ensures-kept, Ensures-for_each,
}

module _ {Value : Type 0} (p : ConnectionRecord Value → Bool) (before : RuntimeState Value) where
  -- The paths that are left to remove, and what stays.
  pub record IsDropping (paths : List ObjectPath) (s : RuntimeState Value) : Type 0 where
    pub to_drop : picked connection_key p s.connections ≡ paths
    pub stays : others connection_key p s.connections ≡ others connection_key p before.connections
    pub distinct : Distinct connection_key s.connections

  drop_round :
      (path : ObjectPath) (paths : List ObjectPath) (s : RuntimeState Value)
      → IsDropping (path ∷ paths) s
      → IsDropping paths (remove_connection path s).1
  unfolding remove_connection connection
  drop_round path paths s h =
      let more = remove-picked connection_key p path paths s.connections h.distinct h.to_drop in
      elim (Option-cases (find connection_key path s.connections)) [
        | inl missing ↦ absurd (absent connection_key p path paths s.connections missing h.to_drop)
        | inr (c, found) ↦
            rw (remove_connection, found)
              (record {
                to_drop = more.0;
                stays = more.1 ∙ h.stays;
                distinct = Distinct-remove connection_key path s.connections h.distinct;
              })
      ]

  -- A loop whose rounds remove a path and tell the outside removes all that the test picks.
  pub Ensures-drop :
      {E : Type 0}
      → (tell : ObjectPath → Io Value E (Unit {0})) (paths : List ObjectPath)
      → ((path : ObjectPath) (P : RuntimeState Value → Type 0) → Keeps P (tell path))
      → Ensures
          (IsDropping paths)
          (for_each paths λ path. update (remove_connection path) >>= λ _. tell path)
          (λ _. IsDropping [])
  Ensures-drop tell paths k = Ensures-for_each IsDropping paths _ λ path rest.
      Ensures-bind _ _ (λ _. IsDropping rest) (Ensures-update _ (drop_round path rest))
        λ gone. Ensures-kept _ (k path _) λ told s h. h

  -- The start of such a loop.
  pub start-IsDropping :
      Distinct connection_key before.connections
      → IsDropping (picked connection_key p before.connections) before
  start-IsDropping d = record { to_drop = refl; stays = refl; distinct = d }
