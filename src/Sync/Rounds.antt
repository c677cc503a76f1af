-- ===== src/Sync/Rounds.antt =====
-- The round of `sync_backends` of lib.rs for one profile: what is known and what is to come.
use nm_dbus_proxy_rs.Prelude.{
  ◌+◌, ◌<◌, ◌≡◌, refl, sym, ap, subst, ◌∙◌, Bool, Bool-cases, inl, inr, true, false, ◌||◌, List, [],
  ◌∷◌, ◌++◌, length, Option, none, some, Option-cases, any, all, arith,
}
use nm_dbus_proxy_rs.Prelude.Word.{word_mod, inc64-suc}
use nm_dbus_proxy_rs.Text.{Str, ◌==◌, ==_iff, ==_refl}
use nm_dbus_proxy_rs.Table.{find, modify, Distinct}
use nm_dbus_proxy_rs.Table.Distinct.{Distinct-push, Distinct-modify}
use nm_dbus_proxy_rs.Paths.{ObjectPath}
use nm_dbus_proxy_rs.Connection.{ConnectionRecord}
use nm_dbus_proxy_rs.Runtime.State.{RuntimeState, connection_key, uuid_key}
use nm_dbus_proxy_rs.Runtime.Connections.{
  connection, connection_by_uuid, add_connection, next_connection_path, update_connection,
}
use nm_dbus_proxy_rs.Runtime.Fresh.{IsFresh, next_connection_path-IsFresh, update_keep-IsFresh}
use nm_dbus_proxy_rs.Io.Keeps.{Keeps-ignore, keeps_rules}
use nm_dbus_proxy_rs.Io.Ensures.{
  Ensures, Ensures-update, Ensures-gets, Ensures-then, Ensures-bind, Ensures-pure, Ensures-change,
  Ensures-kept,
}
use nm_dbus_proxy_rs.Manager.Outside.{emit_object_added-Keeps}
use nm_dbus_proxy_rs.Settings.Imported.{found_at}
use nm_dbus_proxy_rs.Sync.{is_backend, refreshed, place_profile, sync_profile, uuids}

abbrev pub is_asked : Str → List Str → Bool
is_asked uuid desired = any (λ other. other == uuid) desired

module _ {Value : Type 0} where
  abbrev pub is_backend_some : Option (ConnectionRecord Value) → Bool
  is_backend_some none = false
  is_backend_some (some c) = is_backend c.origin

  -- The uuid is that of a backend connection.
  abbrev pub is_known : Str → List (ConnectionRecord Value) → Bool
  is_known uuid l = is_backend_some (find uuid_key uuid l)

  module _ (profile : ConnectionRecord Value) (b : is_backend profile.origin ≡ true) where
    is_known-modify :
        (uuid : Str) (path : ObjectPath) (l : List (ConnectionRecord Value))
        → is_known uuid l ≡ true
        → is_known uuid (modify connection_key path (refreshed profile) l) ≡ true
    unfolding find modify
    is_known-modify uuid path [] h = h
    is_known-modify uuid path (c ∷ l) h = ground (arith, b, is_known-modify uuid path l)

    known_refreshed :
        (uuid : Str) (l : List (ConnectionRecord Value)) (existing : ConnectionRecord Value)
        → find uuid_key uuid l ≡ some existing
        → Distinct connection_key l
        → is_known uuid (modify connection_key existing.path (refreshed profile) l) ≡ true
    unfolding find modify
    known_refreshed uuid [] existing e d = absurd (cc)
    known_refreshed uuid (c ∷ l) existing e d = elim (Bool-cases (c.uuid == uuid)) [
      | inl here ↦
          let first_is : find uuid_key uuid (c ∷ l) ≡ some c = rw here refl in
          let same : c ≡ existing = cc (first_is, e) in
          let hit =
            (==_iff c.path existing.path).1 (ap (λ (r : ConnectionRecord Value). r.path) same) in
          rw (hit, here) b
      | inr differs ↦
          let passed : find uuid_key uuid (c ∷ l) ≡ find uuid_key uuid l = rw differs refl in
          let behind = sym passed ∙ e in
          elim (Bool-cases (c.path == existing.path)) [
            | inl hit ↦
                let (other, found) = found_at uuid l existing behind in
                let none_there =
                  subst (λ q. find connection_key q l ≡ none) ((==_iff c.path existing.path).0 hit)
                    d.0 in
                absurd (cc (none_there, found))
            | inr miss ↦ rw (miss, differs) (known_refreshed uuid l existing behind d.1)
          ]
    ]

  is_known-push :
      (uuid : Str) (l : List (ConnectionRecord Value)) (c : ConnectionRecord Value)
      → is_known uuid l ≡ true
      → is_known uuid (l ++ c ∷ []) ≡ true
  unfolding find
  is_known-push uuid [] c h = absurd (cc)
  is_known-push uuid (d ∷ l) c h = ground (arith, is_known-push uuid l c)

  known_pushed :
      (l : List (ConnectionRecord Value)) (c : ConnectionRecord Value)
      → is_backend c.origin ≡ true
      → find uuid_key c.uuid l ≡ none
      → is_known c.uuid (l ++ c ∷ []) ≡ true
  unfolding find
  known_pushed [] c b e = ground (arith, ==_refl c.uuid, b)
  known_pushed (d ∷ l) c b e = ground (arith, known_pushed l c b)

  module _ (path : ObjectPath) (profile : ConnectionRecord Value) (s : RuntimeState Value) where
    refreshed_next :
        (update_connection path (refreshed profile) s).1.next_settings_id ≡ s.next_settings_id
    unfolding update_connection connection
    refreshed_next = elim (Option-cases (find connection_key path s.connections)) [
      | inl missing ↦ rw (update_connection, missing) refl
      | inr (c, found) ↦ rw (update_connection, found) refl
    ]

    refreshed-Distinct :
        Distinct connection_key s.connections
        → Distinct connection_key (update_connection path (refreshed profile) s).1.connections
    unfolding update_connection connection
    refreshed-Distinct d = elim (Option-cases (find connection_key path s.connections)) [
      | inl missing ↦ rw (update_connection, missing) d
      | inr (c, found) ↦
          rw (update_connection, found)
            (Distinct-modify connection_key path (refreshed profile) s.connections (λ a. refl) d)
    ]

    refreshed_connections :
        (c : ConnectionRecord Value)
        → find connection_key path s.connections ≡ some c
        → (update_connection path (refreshed profile) s).1.connections
          ≡ modify connection_key path (refreshed profile) s.connections
    unfolding update_connection connection
    refreshed_connections c found = rw (update_connection, found) refl

  -- Between two rounds: every uuid that is asked for is a backend connection's, or to come.
  pub record IsSyncing (desired : List Str) (to_come : List (ConnectionRecord Value))
      (s : RuntimeState Value) : Type 0 where
    pub is_fresh : IsFresh s
    pub has_room : s.next_settings_id + length to_come < word_mod
    pub is_distinct : Distinct connection_key s.connections
    pub are_backend : all (λ c. is_backend c.origin) to_come ≡ true
    pub covers :
        (uuid : Str)
        → is_asked uuid desired ≡ true
        → (is_asked uuid (uuids to_come) || is_known uuid s.connections) ≡ true

  module _ (desired : List Str) (profile : ConnectionRecord Value)
      (to_come : List (ConnectionRecord Value)) where
    covered_next :
        (before after : List (ConnectionRecord Value)) (uuid : Str)
        → (is_asked uuid (uuids (profile ∷ to_come)) || is_known uuid before) ≡ true
        → is_known profile.uuid after ≡ true
        → (is_known uuid before ≡ true → is_known uuid after ≡ true)
        → (is_asked uuid (uuids to_come) || is_known uuid after) ≡ true
    unfolding any
    covered_next before after uuid h k keeps = elim (Bool-cases (profile.uuid == uuid)) [
      | inl same ↦
          let q = (==_iff profile.uuid uuid).0 same in
          let there = subst (λ u. is_known u after ≡ true) q k in ground (arith, there)
      | inr other ↦ ground (arith, keeps)
    ]

    refresh_round :
        (s : RuntimeState Value) (existing : ConnectionRecord Value)
        → connection_by_uuid profile.uuid s ≡ some existing
        → IsSyncing desired (profile ∷ to_come) s
        → IsSyncing desired to_come (update_connection existing.path (refreshed profile) s).1
    unfolding connection_by_uuid all
    refresh_round s existing e h =
        let after = (update_connection existing.path (refreshed profile) s).1 in
        let b : is_backend profile.origin ≡ true = ground (arith, h.are_backend) in
        let (at, found) = found_at profile.uuid s.connections existing e in
        let q = sym (refreshed_connections existing.path profile s at found) in
        let there =
          subst (λ l. is_known profile.uuid l ≡ true) q
            (known_refreshed profile b profile.uuid s.connections existing e h.is_distinct) in
        record {
          is_fresh = update_keep-IsFresh existing.path (refreshed profile) s (λ c. refl) h.is_fresh;
          has_room = omega (arith, h.has_room, refreshed_next existing.path profile s);
          is_distinct = refreshed-Distinct existing.path profile s h.is_distinct;
          covers = λ uuid asked.
              covered_next s.connections after.connections uuid (h.covers uuid asked) there (λ k.
                subst (λ l. is_known uuid l ≡ true) q
                  (is_known-modify profile b uuid existing.path s.connections k));
          are_backend = ground (arith, h.are_backend);
        }

    add_round :
        (s : RuntimeState Value) (path : ObjectPath)
        → path ≡ (next_connection_path s).0
        → connection_by_uuid profile.uuid s ≡ none
        → IsSyncing desired (profile ∷ to_come) s
        → IsSyncing desired to_come
            (add_connection (record profile { path = path }) (next_connection_path s).1)
    unfolding add_connection next_connection_path connection connection_by_uuid all
    add_round s path at e h =
        let placed : ConnectionRecord Value = record profile { path = path } in
        let b : is_backend placed.origin ≡ true = ground (arith, h.are_backend) in
        let room : s.next_settings_id + 1 < word_mod = omega (arith, h.has_room) in
        let added = next_connection_path-IsFresh s placed h.is_fresh room at in
        record {
          is_fresh = added.2;
          has_room = omega (arith, h.has_room, inc64-suc s.next_settings_id room);
          is_distinct = Distinct-push connection_key placed s.connections h.is_distinct added.0;
          are_backend = ground (arith, h.are_backend);
          covers = λ uuid asked.
              covered_next s.connections (s.connections ++ placed ∷ []) uuid (h.covers uuid asked)
                (known_pushed s.connections placed b e) (is_known-push uuid s.connections placed);
        }

  place-Ensures :
      (desired : List Str) (profile : ConnectionRecord Value)
      (to_come : List (ConnectionRecord Value)) (found : Option (ConnectionRecord Value))
      → Ensures
          (λ s.
            IsSyncing desired (profile ∷ to_come) s × (connection_by_uuid profile.uuid s ≡ found))
          (place_profile profile found)
          (λ _. IsSyncing desired to_come)
  unfolding place_profile
  place-Ensures desired profile to_come (some existing) =
      Ensures-bind _ _ (λ _. IsSyncing desired to_come)
        (Ensures-update _ λ s h. refresh_round desired profile to_come s existing h.1 h.0)
        λ done. Ensures-pure tt λ s h. h
  place-Ensures desired profile to_come none =
      Ensures-bind _ _
        (λ path s. IsSyncing desired to_come (add_connection (record profile { path = path }) s))
        (Ensures-update _
          λ s h. add_round desired profile to_come s (next_connection_path s).0 refl h.1 h.0)
        λ path.
          Ensures-bind _ _ (λ _. IsSyncing desired to_come) (Ensures-change _ λ s h. h)
            λ kept. Ensures-then _ _ (search keeps_rules) λ served.
              Ensures-kept _ (Keeps-ignore _ (emit_object_added-Keeps _ _ _)) λ told s h. h

  pub round-Ensures :
      (desired : List Str) (profile : ConnectionRecord Value)
      (to_come : List (ConnectionRecord Value))
      → Ensures
          (IsSyncing desired (profile ∷ to_come))
          (sync_profile profile)
          (λ _. IsSyncing desired to_come)
  unfolding sync_profile
  round-Ensures desired profile to_come =
      Ensures-bind _ _
        (λ found s.
          IsSyncing desired (profile ∷ to_come) s × (connection_by_uuid profile.uuid s ≡ found))
        (Ensures-gets _ λ s h. (h, refl)) (place-Ensures desired profile to_come)
