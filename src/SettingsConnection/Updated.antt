-- ===== src/SettingsConnection/Updated.antt =====
-- What an update in memory leaves behind: `update_unsaved` of settings_connection.rs.
use nm_dbus_proxy_rs.Prelude.{
  ◌≡◌, refl, sym, ap, subst, ◌∙◌, Bool-cases, inl, inr, true, some, if◌then◌else◌, arith,
}
use nm_dbus_proxy_rs.Prelude.Word.{inc64}
use nm_dbus_proxy_rs.Text.{Str, codes, ◌==◌, ==_iff}
use nm_dbus_proxy_rs.Table.{find, modify}
use nm_dbus_proxy_rs.Table.Laws.{find-modify, find_key}
use nm_dbus_proxy_rs.Variant.{Variant}
use nm_dbus_proxy_rs.Paths.{ObjectPath}
use nm_dbus_proxy_rs.Connection.{
  ConnectionRecord, ConnectionSettings, with_settings, get_string, unwrap_or,
}
use nm_dbus_proxy_rs.Runtime.State.{RuntimeState, connection_key}
use nm_dbus_proxy_rs.Runtime.Connections.{connection, update_connection}
use nm_dbus_proxy_rs.Io.{Host, World, ok}
use nm_dbus_proxy_rs.Io.Ensures.{
  Ensures, Ensures-kept, Ensures-bind, Ensures-given, Ensures-gets, Ensures-update, Ensures-ok_or,
  Ensures-ok,
}
use nm_dbus_proxy_rs.SettingsConnection.{find_connection, apply_runtime_connection, update_unsaved}
use nm_dbus_proxy_rs.SettingsConnection.Consistent.{announce-Keeps}

module _ {Value : Type 0} where
  -- The path stands for the record now, every other path for what it stood for.
  pub record IsStored (path : ObjectPath) (c : ConnectionRecord Value)
      (before s : RuntimeState Value) : Type 0 where
    pub finds :
        (other : ObjectPath)
        → connection other s ≡ (if path == other then some c else connection other before)
    pub is_newer : s.version_id ≡ inc64 before.version_id

  find-stored :
      (path other : ObjectPath) (before : RuntimeState Value) (c current : ConnectionRecord Value)
      → c.path ≡ path
      → connection path before ≡ some current
      → find connection_key other (modify connection_key path (λ _. c) before.connections)
        ≡ (if path == other then some c else connection other before)
  unfolding connection
  find-stored path other before c current p e =
      let law = find-modify connection_key path other (λ _. c) before.connections (λ a q. p) in
      elim (Bool-cases (path == other)) [
        | inl same ↦
            let q : path ≡ other = (==_iff path other).0 same in
            let at = subst (λ o. find connection_key o before.connections ≡ some current) q e in
            ground (arith, law, at, same)
        | inr differs ↦ ground (arith, law, differs)
      ]

  pub stored :
      (path : ObjectPath) (before : RuntimeState Value) (c current : ConnectionRecord Value)
      → c.path ≡ path
      → connection path before ≡ some current
      → IsStored path c before (update_connection path (λ _. c) before).1
  unfolding update_connection connection
  stored path before c current p e =
      rw (update_connection, e)
        (record { finds = λ other. find-stored path other before c current p e; is_newer = refl })

  pub connection_path :
      (path : ObjectPath) (s : RuntimeState Value) (c : ConnectionRecord Value)
      → connection path s ≡ some c
      → c.path ≡ path
  unfolding connection
  connection_path path s c e = find_key connection_key path s.connections c e

  find_connection-Ensures :
      (before : RuntimeState Value) (path : ObjectPath)
      → Ensures
          (λ s. s ≡ before)
          (find_connection path)
          (λ c s. (s ≡ before) × (connection path before ≡ some c))
  unfolding find_connection
  find_connection-Ensures before path =
      Ensures-bind _ _ (λ found s. (s ≡ before) × (connection path before ≡ found))
        (Ensures-gets _ λ s h. (h, ap (connection path) (sym h)))
        λ found. Ensures-ok_or found _ λ c s q h. (h.0, h.1 ∙ q)

  apply-Ensures :
      (before : RuntimeState Value) (path : ObjectPath) (c current : ConnectionRecord Value)
      → c.path ≡ path
      → connection path before ≡ some current
      → Ensures (λ s. s ≡ before) (apply_runtime_connection path c) (λ _. IsStored path c before)
  unfolding apply_runtime_connection
  apply-Ensures before path c current p e =
      Ensures-bind _ _ (λ _. IsStored path c before)
        (Ensures-update _ λ s h.
          subst (λ r. IsStored path c before (update_connection path (λ _. c) r).1) (sym h)
            (stored path before c current p e))
        λ found. Ensures-ok_or found _ λ a s q h. h

module _ {Value : Type 0} ⦃V : Variant Value⦄ where
  -- The text that the settings name under `connection`, or the one from before.
  abbrev named_or : ConnectionSettings Value → Str → Str → Str
  named_or properties key old = unwrap_or (get_string properties (codes "connection") key) old

  -- `c` is `current` with the new settings, their uuid and type where they name them, unsaved.
  pub record IsRenewed (properties : ConnectionSettings Value) (current c : ConnectionRecord Value)
      : Type 0 where
    pub has_settings : c.settings ≡ properties
    pub has_uuid : c.uuid ≡ named_or properties (codes "uuid") current.uuid
    pub has_type : c.connection_type ≡ named_or properties (codes "type") current.connection_type
    pub is_unsaved : c.unsaved ≡ true
    pub keeps_file : (c.filename ≡ current.filename) × (c.flags ≡ current.flags)
    pub keeps_origin : c.origin ≡ current.origin

  -- The record at the path before, renewed.
  pub record IsUpdated (path : ObjectPath) (properties : ConnectionSettings Value)
      (before s : RuntimeState Value) : Type 0 where
    pub current : ConnectionRecord Value
    pub renewed : ConnectionRecord Value
    pub was_found : connection path before ≡ some current
    pub is_renewed : IsRenewed properties current renewed
    pub is_stored : IsStored path renewed before s

  renewed_lem :
      (properties : ConnectionSettings Value) (current : ConnectionRecord Value)
      → IsRenewed properties current (record (with_settings current properties) { unsaved = true })
  unfolding with_settings
  renewed_lem properties current = record {
    has_settings = refl;
    has_uuid = refl;
    has_type = refl;
    is_unsaved = refl;
    keeps_file = (refl, refl);
    keeps_origin = refl;
  }

  update_unsaved-Ensures :
      (path : ObjectPath) (properties : ConnectionSettings Value) (before : RuntimeState Value)
      → Ensures
          (λ s. s ≡ before)
          (update_unsaved path properties)
          (λ _. IsUpdated path properties before)
  unfolding update_unsaved with_settings
  update_unsaved-Ensures path properties before =
      Ensures-bind _ _ _ (find_connection-Ensures before path) λ c. Ensures-given _ λ e.
        Ensures-bind _ _ _ (apply-Ensures before path _ c (connection_path path before c e) e)
          λ done. Ensures-kept _ (announce-Keeps path) λ told s h. record {
            current = c;
            renewed = record (with_settings c properties) { unsaved = true };
            was_found = e;
            is_renewed = renewed_lem properties c;
            is_stored = h;
          }

  -- Where `UpdateUnsaved` returns without an error, the path stood for a connection, and now stands
  -- for it with the new settings, their uuid and type where they name them, marked as unsaved and
  -- otherwise as it was; every other path finds what it found before, and the version is one on.
  pub update_unsaved-IsUpdated :
      (path : ObjectPath) (properties : ConnectionSettings Value) (host : Host Value)
      (w : World Value)
      → (update_unsaved path properties host w).0 ≡ ok tt
      → IsUpdated path properties w.runtime (update_unsaved path properties host w).1.runtime
  update_unsaved-IsUpdated path properties host w e =
      Ensures-ok (update_unsaved-Ensures path properties w.runtime) host w tt refl e
