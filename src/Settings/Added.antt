-- ===== src/Settings/Added.antt =====
-- What adding a connection leaves behind: `add_connection_inner` of network_manager/settings.rs.
use nm_dbus_proxy_rs.Prelude.{
  ◌≡◌, refl, sym, ap, subst, ◌∙◌, ◌+◌, ◌<◌, Bool, [], none, some, if◌then◌else◌,
}
use nm_dbus_proxy_rs.Prelude.Word.{word_mod}
use nm_dbus_proxy_rs.Text.{codes, ◌==◌}
use nm_dbus_proxy_rs.Variant.{Variant}
use nm_dbus_proxy_rs.Paths.{ObjectPath}
use nm_dbus_proxy_rs.Connection.{ConnectionRecord, ConnectionSettings, user, get_string}
use nm_dbus_proxy_rs.Runtime.State.{RuntimeState}
use nm_dbus_proxy_rs.Runtime.Connections.{connection, add_connection, next_connection_path}
use nm_dbus_proxy_rs.Runtime.Fresh.{IsFresh, next_connection_path-IsFresh}
use nm_dbus_proxy_rs.Io.{Host, World, ok, pure, map_err, failed}
use nm_dbus_proxy_rs.Io.Keeps.{keeps_rules}
use nm_dbus_proxy_rs.Io.Ensures.{
  Ensures, Ensures-if, Ensures-map_err, Ensures-update, Ensures-given, Ensures-ok, Ensures-found,
  Ensures-then, Ensures-bind, Ensures-pure, Ensures-change,
}
use nm_dbus_proxy_rs.Manager.Outside.{emit_settings-Keeps, emit_object_added-Keeps}
use nm_dbus_proxy_rs.Persistence.Files.{persist_connection}
use nm_dbus_proxy_rs.Settings.{add_connection_inner}

module _ {Value : Type 0} ⦃V : Variant Value⦄ where
  -- The counter is above all connections, and can still count.
  abbrev pub IsOpen : RuntimeState Value → Type 0
  IsOpen s = IsFresh s × (s.next_settings_id + 1 < word_mod)

  -- A connection with these settings stands at the path.
  pub record IsAdded (before : RuntimeState Value) (settings : ConnectionSettings Value)
      (unsaved : Bool) (path : ObjectPath) (s : RuntimeState Value) : Type 0 where
    pub profile : ConnectionRecord Value
    pub is_new : connection path before ≡ none
    pub has_settings : profile.settings ≡ settings
    pub has_unsaved : profile.unsaved ≡ unsaved
    pub has_path : profile.path ≡ path
    pub has_uuid : get_string settings (codes "connection") (codes "uuid") ≡ some profile.uuid
    pub has_type :
        get_string settings (codes "connection") (codes "type") ≡ some profile.connection_type
    pub finds :
        (other : ObjectPath)
        → connection other s ≡ (if path == other then some profile else connection other before)
    pub is_fresh : IsFresh s

  -- The two records differ in their file name at most.
  abbrev IsSame : ConnectionRecord Value → ConnectionRecord Value → Type 0
  IsSame c d =
      (d.path ≡ c.path)
      × (d.settings ≡ c.settings)
      × (d.unsaved ≡ c.unsaved)
      × (d.uuid ≡ c.uuid)
      × (d.connection_type ≡ c.connection_type)

  persist_connection-Ensures :
      (P : RuntimeState Value → Type 0) (c : ConnectionRecord Value)
      → Ensures P (persist_connection c) (λ d s. P s × IsSame c d)
  unfolding persist_connection
  persist_connection-Ensures P c = Ensures-then _ _ (search keeps_rules) λ host.
      Ensures-then _ _ (search keeps_rules) λ filename.
        Ensures-then _ _ (search keeps_rules) λ contents.
          Ensures-then _ _ (search keeps_rules) λ made.
            Ensures-then _ _ (search keeps_rules)
              λ written. Ensures-pure _ λ s h. (h, (refl, refl, refl, refl, refl))

  stored-Ensures :
      (P : RuntimeState Value → Type 0) (unsaved : Bool) (c : ConnectionRecord Value)
      → Ensures P
          (if unsaved then pure c else map_err failed (persist_connection c))
          (λ d s. P s × IsSame c d)
  stored-Ensures P unsaved c =
      Ensures-if unsaved _ _ (λ e. Ensures-pure c λ s h. (h, (refl, refl, refl, refl, refl)))
        (λ e. Ensures-map_err failed _ (persist_connection-Ensures P c))

  added :
      (before : RuntimeState Value) (c d : ConnectionRecord Value)
      → IsOpen before
      → c.path ≡ (next_connection_path before).0
      → get_string c.settings (codes "connection") (codes "uuid") ≡ some c.uuid
      → get_string c.settings (codes "connection") (codes "type") ≡ some c.connection_type
      → IsSame c d
      → IsAdded before c.settings c.unsaved c.path
          (add_connection d (next_connection_path before).1)
  added before c d o e u t same =
      let f = next_connection_path-IsFresh before d o.0 o.1 (same.0 ∙ e) in
      record {
        profile = d;
        is_new = ap (λ p. connection p before) (sym same.0) ∙ f.0;
        has_settings = same.1;
        has_unsaved = same.2;
        has_path = same.0;
        has_uuid = u ∙ ap some (sym same.3);
        has_type = t ∙ ap some (sym same.4);
        finds = λ other.
            f.1 other ∙ ap (λ p. if p == other then some d else connection other before) same.0;
        is_fresh = f.2;
      }

  add_connection_inner-Ensures :
      (before : RuntimeState Value) (settings : ConnectionSettings Value) (unsaved : Bool)
      → IsOpen before
      → Ensures
          (λ s. s ≡ before)
          (add_connection_inner settings unsaved)
          (IsAdded before settings unsaved)
  unfolding add_connection_inner
  add_connection_inner-Ensures before settings unsaved o = Ensures-found _ _ _ λ uuid u.
      Ensures-found _ _ _ λ type_ t.
        Ensures-bind _ _
          (λ path s.
            (s ≡ (next_connection_path before).1) × (path ≡ (next_connection_path before).0))
          (Ensures-update _
            λ s h. (ap (λ r. (next_connection_path r).1) h, ap (λ r. (next_connection_path r).0) h))
          λ path. Ensures-given _ λ e. Ensures-bind _ _ _ (stored-Ensures _ unsaved _) λ stored.
            Ensures-given _ λ same.
              Ensures-bind _ _ (λ _. IsAdded before settings unsaved path)
                (Ensures-change _ λ s h.
                  let built : ConnectionRecord Value = record {
                    connection_type = type_;
                    filename = [];
                    flags = 0;
                    origin = user;
                    path = path;
                    settings = settings;
                    unsaved = unsaved;
                    uuid = uuid;
                  } in
                  subst (λ r. IsAdded before settings unsaved path (add_connection stored r))
                    (sym h) (added before built stored o e u t same))
                λ kept. Ensures-then _ _ (search keeps_rules) λ served.
                  Ensures-then _ _ (emit_object_added-Keeps _ path _) λ told.
                    Ensures-then _ _ (emit_settings-Keeps _ none) λ done. Ensures-pure path λ s h. h

  -- Where adding a connection returns a path, no connection had that path before, the settings are
  -- found at it now with their uuid and type, saved or unsaved as asked, every other path finds what
  -- it found before, and the counter is still above all numbers. It starts from a runtime whose
  -- counter is above all numbers and does not wrap.
  pub add_connection_inner-IsAdded :
      (settings : ConnectionSettings Value) (unsaved : Bool) (path : ObjectPath) (host : Host Value)
      (w : World Value)
      → IsFresh w.runtime
      → w.runtime.next_settings_id + 1 < word_mod
      → (add_connection_inner settings unsaved host w).0 ≡ ok path
      → IsAdded w.runtime settings unsaved path
          (add_connection_inner settings unsaved host w).1.runtime
  add_connection_inner-IsAdded settings unsaved path host w f n e =
      Ensures-ok (add_connection_inner-Ensures w.runtime settings unsaved (f, n)) host w path refl e
