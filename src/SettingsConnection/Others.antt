-- ===== src/SettingsConnection/Others.antt =====
-- What the methods of a connection object, settings_connection.rs, leave alone: the other
-- connections, and all that is active.
use nm_dbus_proxy_rs.Prelude.{
  if◌then◌else◌, none, Option, ◌≡◌, refl, ◌∙◌, true, false, not, ◌&&◌, is_empty, ℕ, List, [], ◌∷◌,
  Option, none, if◌then◌else◌, Option-cases, inl, inr, arith,
}
use nm_dbus_proxy_rs.Text.{Str, ◌==◌, ==_iff}
use nm_dbus_proxy_rs.Map
use nm_dbus_proxy_rs.Map.{Map}
use nm_dbus_proxy_rs.Table.{find, remove}
use nm_dbus_proxy_rs.Table.Laws.{find-modify}
use nm_dbus_proxy_rs.Variant.{Variant}
use nm_dbus_proxy_rs.Paths.{ObjectPath}
use nm_dbus_proxy_rs.Connection.{
  ConnectionRecord, ConnectionSettings, with_settings, security_group,
}
use nm_dbus_proxy_rs.Runtime.State.{RuntimeState, connection_key}
use nm_dbus_proxy_rs.Runtime.Connections.{connection, update_connection, remove_connection}
use nm_dbus_proxy_rs.Io.{Io, Host, World, pure, ◌>>=◌, ◌>>◌}
use nm_dbus_proxy_rs.Io.Keeps.{
  Keeps, keeps_rules, Keeps-bind, Keeps-if, Keeps-update, Keeps-fail, Keeps-ok_or,
}
use nm_dbus_proxy_rs.Io.Ensures.{
  Ensures, Keeps-given, Ensures-then, Ensures-bind, Ensures-gets, Ensures-ok_or, Ensures-if,
  Ensures-pure, Ensures-map_err,
}
use nm_dbus_proxy_rs.Persistence.Files.{persist_connection, delete_persisted_connection}
use nm_dbus_proxy_rs.Manager.Outside.{emit_settings-Keeps, tell_agent-Keeps}
use nm_dbus_proxy_rs.SettingsConnection.{
  apply_runtime_connection, find_connection, delete, persist_prepared_connection, store_update,
  clear_secrets, save, update_unsaved, update_, update2, update2_mode, apply_mode, Update2Mode,
}
use nm_dbus_proxy_rs.SettingsConnection.Updated.{connection_path}
use nm_dbus_proxy_rs.SettingsConnection.Consistent.{
  announce-Keeps, delete_persisted-Keeps, find_connection-Keeps, prepared-Keeps, Keeps-mode,
}

find-remove-other :
    {A : Type 0}
    → (key : A → Str) (k j : Str) (l : List A) → (k == j) ≡ false
    → find key j (remove key k l) ≡ find key j l
unfolding find remove
find-remove-other key k j [] d = refl
find-remove-other key k j (a ∷ l) d =
    ground (arith, find-remove-other key k j l, ==_iff k j, ==_iff (key a) j, ==_iff (key a) k)

module _ {Value : Type 0} where
  -- What a path finds, where it is not the given one.
  abbrev pub elsewhere :
      ObjectPath → ObjectPath → RuntimeState Value → Option (ConnectionRecord Value)
  elsewhere path other s = if path == other then none else connection other s

  -- Every other path finds what it found, and the same connections are active.
  pub record IsElsewhere (path : ObjectPath) (before s : RuntimeState Value) : Type 0 where
    pub others : (other : ObjectPath) → elsewhere path other s ≡ elsewhere path other before
    pub active : s.active_connections ≡ before.active_connections

module _ {Value : Type 0} (path : ObjectPath) (before : RuntimeState Value) where
  updated_lem :
      (c : ConnectionRecord Value) (s : RuntimeState Value)
      → c.path ≡ path
      → IsElsewhere path before s
      → IsElsewhere path before (update_connection path (λ _. c) s).1
  unfolding update_connection connection
  updated_lem c s p h = elim (Option-cases (find connection_key path s.connections)) [
    | inl missing ↦ rw (update_connection, missing) h
    | inr (old, found) ↦
        rw (update_connection, found)
          (record {
            others = λ other.
                let law = find-modify connection_key path other (λ _. c) s.connections (λ a q. p) in
                let kept = h.others other in ground (arith, law, kept);
            active = h.active;
          })
  ]

  removed_lem :
      (s : RuntimeState Value)
      → IsElsewhere path before s
      → IsElsewhere path before (remove_connection path s).1
  unfolding remove_connection connection
  removed_lem s h = elim (Option-cases (find connection_key path s.connections)) [
    | inl missing ↦ rw (remove_connection, missing) h
    | inr (old, found) ↦
        rw (remove_connection, found)
          (record {
            others = λ other.
                let law = find-remove-other connection_key path other s.connections in
                let kept = h.others other in ground (arith, law, kept);
            active = h.active;
          })
  ]

  apply-IsElsewhere :
      (c : ConnectionRecord Value)
      → c.path ≡ path
      → Keeps (IsElsewhere path before) (apply_runtime_connection path c)
  unfolding apply_runtime_connection
  apply-IsElsewhere c p =
      Keeps-bind _ _ (Keeps-update _ λ s h. updated_lem c s p h) λ found. Keeps-ok_or found _

  found_path :
      Ensures
        (λ s. Unit {0})
        (find_connection path)
        (λ (c : ConnectionRecord Value) s. c.path ≡ path)
  unfolding find_connection
  found_path =
      Ensures-bind _ _ (λ found s. connection path s ≡ found) (Ensures-gets _ λ s h. refl)
        λ found. Ensures-ok_or found _ λ c s q h. connection_path path s c (h ∙ q)

  -- Work on the connection at the path.
  with_found :
      {A : Type 0}
      → (f : ConnectionRecord Value → Io Value _ A)
      → ((c : ConnectionRecord Value) → c.path ≡ path → Keeps (IsElsewhere path before) (f c))
      → Keeps (IsElsewhere path before) (find_connection path >>= f)
  with_found f k = Keeps-given _ f (find_connection-Keeps path) found_path k

  delete-IsElsewhere : Keeps (IsElsewhere path before) (delete path)
  unfolding delete
  delete-IsElsewhere =
      search
        (
          keeps_rules, removed_lem, find_connection-Keeps, tell_agent-Keeps, delete_persisted-Keeps,
          emit_settings-Keeps,
        )
        depth 40

module _ {Value : Type 0} ⦃V : Variant Value⦄ where
  persisted_path :
      (c : ConnectionRecord Value)
      → Ensures (λ s. Unit {0}) (persist_connection c) (λ stored s. stored.path ≡ c.path)
  unfolding persist_connection
  persisted_path c = Ensures-then _ _ (search keeps_rules) λ host.
      Ensures-then _ _ (search keeps_rules) λ file.
        Ensures-then _ _ (search keeps_rules) λ contents.
          Ensures-then _ _ (search keeps_rules)
            λ made. Ensures-then _ _ (search keeps_rules) λ written. Ensures-pure _ λ s h. refl

  prepared_path :
      (existing changed : ConnectionRecord Value)
      → Ensures
          (λ s. Unit {0})
          (persist_prepared_connection existing changed)
          (λ stored s. stored.path ≡ changed.path)
  unfolding persist_prepared_connection
  prepared_path existing changed =
      Ensures-if changed.unsaved _ _ (λ e. Ensures-pure _ λ s h. refl)
        λ e.
          Ensures-bind _ _ (λ stored s. stored.path ≡ changed.path) (persisted_path changed)
            λ stored.
              Ensures-if
                (not (is_empty existing.filename) && not (existing.filename == stored.filename))
                (delete_persisted_connection existing >> pure stored) (pure stored)
                (λ q.
                  Ensures-then (delete_persisted_connection existing) _
                    (delete_persisted-Keeps existing) λ gone. Ensures-pure stored λ s h. h)
                (λ q. Ensures-pure stored λ s h. h)

  module _ (path : ObjectPath) (before : RuntimeState Value) where
    store-IsElsewhere :
        (existing changed : ConnectionRecord Value)
        → changed.path ≡ path
        → Keeps (IsElsewhere path before) (store_update path existing changed)
    unfolding store_update
    store-IsElsewhere existing changed p =
        Keeps-given _ _ (search (keeps_rules, prepared-Keeps))
          (Ensures-map_err _ _ (prepared_path existing changed))
          λ stored q.
            Keeps-bind _ _ (apply-IsElsewhere path before stored (q ∙ p))
              λ done. announce-Keeps path

    clear_secrets-IsElsewhere : Keeps (IsElsewhere path before) (clear_secrets path)
    unfolding clear_secrets
    clear_secrets-IsElsewhere = with_found path before _ λ c p.
        let changed : ConnectionRecord Value = record c {
          settings = Map.remove security_group c.settings;
        } in
        Keeps-bind _ _ (tell_agent-Keeps _ changed) λ told. store-IsElsewhere c changed p

    save-IsElsewhere : Keeps (IsElsewhere path before) (save path)
    unfolding save
    save-IsElsewhere = with_found path before _ λ c p.
        Keeps-bind _ _ (tell_agent-Keeps _ c)
          λ told. store-IsElsewhere c (record c { unsaved = false }) p

    update_unsaved-IsElsewhere :
        (settings : ConnectionSettings Value)
        → Keeps (IsElsewhere path before) (update_unsaved path settings)
    unfolding update_unsaved with_settings
    update_unsaved-IsElsewhere settings = with_found path before _ λ c p.
        let changed : ConnectionRecord Value = record (with_settings c settings) {
          unsaved = true;
        } in
        Keeps-bind _ _ (apply-IsElsewhere path before changed p) λ done. announce-Keeps path

    update_-IsElsewhere :
        (settings : ConnectionSettings Value)
        → Keeps (IsElsewhere path before) (update_ path settings)
    unfolding update_ with_settings
    update_-IsElsewhere settings =
        with_found path before _ λ c p. store-IsElsewhere c (with_settings c settings) p

    mode_path :
        (mode : Update2Mode) (settings : ConnectionSettings Value) (c : ConnectionRecord Value)
        → (apply_mode mode (with_settings c settings)).path ≡ c.path
    unfolding apply_mode with_settings
    mode_path mode settings c = ground arith

    update2-IsElsewhere :
        (settings : ConnectionSettings Value) (flags : ℕ) (args : Map Value)
        → Keeps (IsElsewhere path before) (update2 path settings flags args)
    unfolding update2
    update2-IsElsewhere settings flags args = Keeps-if _ _ _ (Keeps-fail _) (
        with_found path before _ λ c p. Keeps-bind _ _ (search keeps_rules) λ outdated.
          Keeps-if outdated _ _ (Keeps-fail _) (
            Keeps-mode (update2_mode flags) _
              (λ mode. store_update path c (apply_mode mode (with_settings c settings)))
              (Keeps-fail _)
              (λ mode.
                store-IsElsewhere c (apply_mode mode (with_settings c settings))
                  (mode_path mode settings c ∙ p))))

  -- `Delete`, `ClearSecrets`, `Save`, `UpdateUnsaved`, `Update` and `Update2` of the connection object
  -- at a path leave every other connection as it is, and what is active, whatever the outside answers
  -- and whether they return or fail.
  pub connection-IsElsewhere :
      (path : ObjectPath) (settings : ConnectionSettings Value) (flags : ℕ) (args : Map Value)
      (host : Host Value) (w : World Value)
      → IsElsewhere path w.runtime (delete path host w).1.runtime
        × IsElsewhere path w.runtime (clear_secrets path host w).1.runtime
        × IsElsewhere path w.runtime (save path host w).1.runtime
        × IsElsewhere path w.runtime (update_unsaved path settings host w).1.runtime
        × IsElsewhere path w.runtime (update_ path settings host w).1.runtime
        × IsElsewhere path w.runtime (update2 path settings flags args host w).1.runtime
  connection-IsElsewhere path settings flags args host w =
      let start : IsElsewhere path w.runtime w.runtime = record {
        others = λ other. refl;
        active = refl;
      } in
      (
        (delete-IsElsewhere path w.runtime).at host w start,
        (clear_secrets-IsElsewhere path w.runtime).at host w start,
        (save-IsElsewhere path w.runtime).at host w start,
        (update_unsaved-IsElsewhere path w.runtime settings).at host w start,
        (update_-IsElsewhere path w.runtime settings).at host w start,
        (update2-IsElsewhere path w.runtime settings flags args).at host w start,
      )
