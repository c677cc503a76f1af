-- ===== src/Settings/Imported.antt =====
-- What importing a file leaves behind: `import_connections` of network_manager/settings.rs.
use nm_dbus_proxy_rs.Prelude.{
  ◌≡◌, refl, sym, ap, subst, ◌∙◌, ◌+◌, ◌<◌, Bool, Bool-cases, inl, inr, true, false, List, [], ◌∷◌,
  Option, none, some, if◌then◌else◌,
}
use nm_dbus_proxy_rs.Prelude.Word.{word_mod}
use nm_dbus_proxy_rs.Text.{Str, ◌==◌, ==_iff}
use nm_dbus_proxy_rs.Table.{find}
use nm_dbus_proxy_rs.Variant.{Variant}
use nm_dbus_proxy_rs.Paths.{ObjectPath}
use nm_dbus_proxy_rs.Connection.{ConnectionRecord}
use nm_dbus_proxy_rs.Runtime.State.{RuntimeState, connection_key, uuid_key}
use nm_dbus_proxy_rs.Runtime.Connections.{
  connection, connection_by_uuid, add_connection, next_connection_path, update_connection,
}
use nm_dbus_proxy_rs.Runtime.Fresh.{
  IsFresh, update_connection-IsFresh, next_connection_path-IsFresh,
}
use nm_dbus_proxy_rs.Io.{Host, World, Result, Error, ok, err, lift, attempt, ◌>>=◌}
use nm_dbus_proxy_rs.Io.Sure.{Sure, sure_rules}
use nm_dbus_proxy_rs.Io.Keeps.{Keeps, Keeps-ignore, keeps_rules}
use nm_dbus_proxy_rs.Io.Ensures.{
  Ensures, Returned, Ensures-update, Ensures-given, Ensures-ok, Ensures-look, Ensures-then,
  Ensures-bind, Ensures-pure, Ensures-change, Ensures-kept,
}
use nm_dbus_proxy_rs.Manager.Outside.{emit_object_added-Keeps}
use nm_dbus_proxy_rs.Persistence.Load.{
  load_connection_from_path, load_contents, imported_uuid, load_wired, load_wifi, loaded,
  load_named, is_network, and_then_name, extension, file_stem,
}
use nm_dbus_proxy_rs.SettingsConnection.Updated.{stored}
use nm_dbus_proxy_rs.Settings.Import.{import_file, import_answer, import_record}

module _ {Value : Type 0} where
  -- A record that was read from the file.
  abbrev IsLoaded : Str → ConnectionRecord Value → Type 0
  IsLoaded file c = (c.uuid ≡ imported_uuid file) × (c.filename ≡ file)

  -- The path of the connection that was found, or one that no connection has.
  abbrev IsPlaced : RuntimeState Value → Option (ConnectionRecord Value) → ObjectPath → Type 0
  IsPlaced before none path = connection path before ≡ none
  IsPlaced before (some existing) path = path ≡ existing.path

  -- The loaded connection stands at the path of the one with its uuid, or at a new path.
  pub record IsImported (before : RuntimeState Value) (c : ConnectionRecord Value)
      (s : RuntimeState Value) : Type 0 where
    pub path : ObjectPath
    pub is_placed : IsPlaced before (connection_by_uuid c.uuid before) path
    pub finds :
        (other : ObjectPath)
        → connection other s
          ≡ (if path == other then some (record c { path = path }) else connection other before)
    pub is_fresh : IsFresh s

module _ {Value : Type 0} ⦃V : Variant Value⦄ where
  IsLoaded-either :
      (network : Bool) (named : Result Str Str) (interface path contents : Str)
      (s : RuntimeState Value)
      → Returned
          (λ c _. IsLoaded path c)
          (if network
            then ok (load_wired {Value = Value} path contents)
            else load_named path contents interface named)
          s
  unfolding load_wired load_wifi loaded
  IsLoaded-either true named interface path contents s = (refl, refl)
  IsLoaded-either false (err e) interface path contents s = tt
  IsLoaded-either false (ok name) interface path contents s = (refl, refl)

  load_contents-Ensures :
      (P : RuntimeState Value → Type 0) (interface path contents : Str)
      → Ensures {E = Str} P
          (lift (load_contents {Value = Value} interface path contents))
          (λ c _. IsLoaded path c)
  unfolding load_contents lift
  load_contents-Ensures P interface path contents = record {
    on = λ host w h.
        IsLoaded-either (is_network (extension path)) (and_then_name path (file_stem path))
          interface path contents w.runtime;
  }

  load-Ensures :
      (P : RuntimeState Value → Type 0) (path : Str)
      → Ensures P (load_connection_from_path {Value = Value} path) (λ c _. IsLoaded path c)
  unfolding load_connection_from_path
  load-Ensures P path = Ensures-then _ _ (search keeps_rules) λ answer.
      Ensures-then _ _ (search keeps_rules) λ bytes.
        Ensures-then _ _ (search keeps_rules) λ contents.
          Ensures-then _ _ (search keeps_rules)
            λ interface. load_contents-Ensures P interface path contents

  load-Keeps :
      (P : RuntimeState Value → Type 0) (path : Str)
      → Keeps P (load_connection_from_path {Value = Value} path)
  unfolding load_connection_from_path
  load-Keeps P path = search keeps_rules depth 10

module _ {Value : Type 0} where
  -- What has a uuid has a path.
  pub found_at :
      (uuid : Str) (l : List (ConnectionRecord Value)) (c : ConnectionRecord Value)
      → find uuid_key uuid l ≡ some c
      → (d : ConnectionRecord Value) × (find connection_key c.path l ≡ some d)
  unfolding find
  found_at uuid [] c e = absurd (cc)
  found_at uuid (a ∷ l) c e = elim (Bool-cases (a.path == c.path)) [
    | inl same ↦ (a, rw same refl)
    | inr other ↦ elim (Bool-cases (a.uuid == uuid)) [
      | inl here ↦
          let first_is : find uuid_key uuid (a ∷ l) ≡ some a = rw here refl in
          let same : a ≡ c = cc (first_is, e) in
          absurd (
            let q = (==_iff a.path c.path).1 (ap (λ (r : ConnectionRecord Value). r.path) same) in
            cc)
      | inr differs ↦
          let passed : find uuid_key uuid (a ∷ l) ≡ find uuid_key uuid l = rw differs refl in
          let (d, q) = found_at uuid l c (sym passed ∙ e) in (d, rw other q)
    ]
  ]

  replaced :
      (before : RuntimeState Value) (c existing : ConnectionRecord Value)
      → IsFresh before
      → connection_by_uuid c.uuid before ≡ some existing
      → IsImported before c
          (update_connection existing.path (λ _. record c { path = existing.path }) before).1
  unfolding connection_by_uuid connection
  replaced before c existing f e =
      let placed : ConnectionRecord Value = record c { path = existing.path } in
      let (d, found) = found_at c.uuid before.connections existing e in
      let at = stored existing.path before placed d refl found in
      record {
        path = existing.path;
        is_placed = rw e refl;
        finds = at.finds;
        is_fresh = update_connection-IsFresh before placed f;
      }

  appended :
      (before : RuntimeState Value) (c : ConnectionRecord Value) (path : ObjectPath)
      → IsFresh before
      → before.next_settings_id + 1 < word_mod
      → connection_by_uuid c.uuid before ≡ none
      → path ≡ (next_connection_path before).0
      → IsImported before c
          (add_connection (record c { path = path }) (next_connection_path before).1)
  appended before c path f n e at =
      let added = next_connection_path-IsFresh before (record c { path = path }) f n at in
      record { path = path; is_placed = rw e (added.0); finds = added.1; is_fresh = added.2 }

  record_Ensures :
      (before : RuntimeState Value) (c : ConnectionRecord Value)
      (found : Option (ConnectionRecord Value))
      → IsFresh before
      → before.next_settings_id + 1 < word_mod
      → connection_by_uuid c.uuid before ≡ found
      → Ensures (λ s. s ≡ before) (import_record c found) (λ _. IsImported before c)
  unfolding import_record
  record_Ensures before c (some existing) f n e =
      let placed : ConnectionRecord Value = record c { path = existing.path } in
      Ensures-bind _ _ (λ _. IsImported before c)
        (Ensures-update _ λ s h.
          subst (λ r. IsImported before c (update_connection existing.path (λ _. placed) r).1)
            (sym h) (replaced before c existing f e))
        λ done. Ensures-pure tt λ s h. h
  record_Ensures before c none f n e =
      Ensures-bind _ _
        (λ path s. (s ≡ (next_connection_path before).1) × (path ≡ (next_connection_path before).0))
        (Ensures-update _
          λ s h. (ap (λ r. (next_connection_path r).1) h, ap (λ r. (next_connection_path r).0) h))
        λ path. Ensures-given _ λ at.
          Ensures-bind _ _ (λ _. IsImported before c)
            (Ensures-change _ λ s h.
              subst (λ r. IsImported before c (add_connection (record c { path = path }) r)) (sym h)
                (appended before c path f n e at))
            λ kept. Ensures-then _ _ (search keeps_rules) λ served.
              Ensures-then _ _ (Keeps-ignore _ (emit_object_added-Keeps _ _ _))
                λ told. Ensures-kept _ (search keeps_rules) λ done s h. h

  answer_Ensures :
      (before : RuntimeState Value) (c : ConnectionRecord Value)
      → IsFresh before
      → before.next_settings_id + 1 < word_mod
      → Ensures
          (λ s. s ≡ before)
          (import_answer (ok c))
          (λ answer s. (answer ≡ true) × IsImported before c s)
  unfolding import_answer
  answer_Ensures before c f n = Ensures-look _ _ λ s h.
      Ensures-bind _ _ (λ _. IsImported before c)
        (record_Ensures before c (connection_by_uuid c.uuid s) f n
          (ap (connection_by_uuid c.uuid) (sym h)))
        λ done. Ensures-pure true λ s h. (refl, h)

  record_Sure :
      (c : ConnectionRecord Value) (found : Option (ConnectionRecord Value))
      → Sure (import_record c found)
  unfolding import_record
  record_Sure c none = search sure_rules depth 12
  record_Sure c (some existing) = search sure_rules

  answer_Sure : (c : ConnectionRecord Value) → Sure (import_answer (ok c))
  unfolding import_answer
  answer_Sure c = search (sure_rules, record_Sure) depth 10

  -- What loading returned decides what is answered and left behind.
  abbrev pub IsDone :
      RuntimeState Value
      → Str
      → Result Str (ConnectionRecord Value)
      → Result Error Bool
      → RuntimeState Value
      → Type 0
  IsDone before file (err e) answer s = (answer ≡ ok false) × (s ≡ before)
  IsDone before file (ok c) answer s = (answer ≡ ok true) × IsLoaded file c × IsImported before c s

  answer-IsDone :
      (file : Str) (before : RuntimeState Value) (r : Result Str (ConnectionRecord Value))
      (host : Host Value) (w : World Value)
      → IsFresh before
      → before.next_settings_id + 1 < word_mod
      → w.runtime ≡ before
      → Returned (λ c _. IsLoaded file c) r w.runtime
      → IsDone before file r (import_answer r host w).0 (import_answer r host w).1.runtime
  unfolding import_answer ◌>>=◌
  answer-IsDone file before (err e) host w f n h is_loaded = (refl, h)
  answer-IsDone file before (ok c) host w f n h is_loaded =
      let (answer, returns) = (answer_Sure c).at host w in
      let done = Ensures-ok (answer_Ensures before c f n) host w answer h returns in
      (returns ∙ ap (λ b. ok b) done.0, is_loaded, done.1)

module _ {Value : Type 0} ⦃V : Variant Value⦄ where
  -- Importing a file always returns. Where the file loads, it answers `true`, and the loaded
  -- connection, whose uuid is made from the file's name, stands at the path of the connection that
  -- had this uuid, or, where none had, at a path that no connection had; every other path finds what
  -- it found before. Where it does not load, it answers `false`, and the runtime is as it was. The
  -- counter is above all numbers at the start, and has room for one more.
  pub import_file-IsDone :
      (file : Str) (host : Host Value) (w : World Value)
      → IsFresh w.runtime
      → w.runtime.next_settings_id + 1 < word_mod
      → IsDone w.runtime file
          (load_connection_from_path file host w).0
          (import_file file host w).0
          (import_file file host w).1.runtime
  unfolding import_file attempt ◌>>=◌
  import_file-IsDone file host w f n =
      answer-IsDone file w.runtime (load_connection_from_path file host w).0 host
        (load_connection_from_path file host w).1 f n
        ((load-Keeps (λ s. s ≡ w.runtime) file).at host w refl)
        ((load-Ensures (λ s. s ≡ w.runtime) file).on host w refl)
