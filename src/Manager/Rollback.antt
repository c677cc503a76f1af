-- ===== src/Manager/Rollback.antt =====
-- The invariant of the runtime under the checkpoint handlers, and what a rollback leaves behind.
use nm_dbus_proxy_rs.Prelude.{◌≡◌, ◌∙◌, refl, sym, ap, ℕ, List, [], ◌∷◌, map, some}
use nm_dbus_proxy_rs.Prelude.Int.{ℤ}
use nm_dbus_proxy_rs.Text.{Str}
use nm_dbus_proxy_rs.Table.{Distinct}
use nm_dbus_proxy_rs.Variant.{Variant}
use nm_dbus_proxy_rs.Paths.{ObjectPath}
use nm_dbus_proxy_rs.Runtime.State.{
  active_key, RuntimeState, ActiveConnectionRecord, CheckpointRecord,
}
use nm_dbus_proxy_rs.Runtime.Checkpoints.{
  checkpoint, remove_checkpoint, checkpoint_snapshot, restore_checkpoint_snapshot,
}
use nm_dbus_proxy_rs.Runtime.Invariant.{
  IsConsistent, IsRestorable, restore-IsConsistent, add_checkpoint-IsConsistent,
  update_checkpoint-IsConsistent, checkpoint-IsRestorable, checkpoint_snapshot-Distinct,
  remove_checkpoint-IsConsistent,
}
use nm_dbus_proxy_rs.Runtime.Kept.{consistent_rules}
use nm_dbus_proxy_rs.Io.{Host, World, ok}
use nm_dbus_proxy_rs.Io.Ensures.{
  Ensures, Ensures-ok, Ensures-then, Ensures-bind, Ensures-update, Ensures-ok_or, Ensures-change,
  Ensures-pure, Ensures-map_err,
}
use nm_dbus_proxy_rs.Io.Keeps.{
  Keeps, keeps_rules, Keeps-bind, Keeps-take, Keeps-look, Keeps-change, Keeps-if, Keeps-option,
  Keeps-pure,
}
use nm_dbus_proxy_rs.Persistence.Files.{
  discover_connection_files, read_all, snapshot_connection_files, restore_connection_files,
}
use nm_dbus_proxy_rs.Manager.Outside.{emit_root-Keeps, deactivate_wifi-Keeps, activate_wifi-Keeps}
use nm_dbus_proxy_rs.Manager.Checkpoints.{
  extend_deadline, checkpoint_destroy, checkpoint_adjust_rollback_timeout, bring_down_extra,
  serve_again, withdraw_active, checkpoint_create, bring_up_missing, rollback_checkpoint,
  checkpoint_rollback,
}

module _ {Value : Type 0} {P : RuntimeState Value → Type 0} where
  discover-Keeps : Keeps P discover_connection_files
  unfolding discover_connection_files
  discover-Keeps = search keeps_rules

  read_all-Keeps : (files : List Str) → Keeps P (read_all files)
  unfolding read_all
  read_all-Keeps [] = search keeps_rules
  read_all-Keeps (path ∷ rest) = Keeps-bind _ _ (search keeps_rules) λ answer.
      Keeps-bind _ _ (search keeps_rules)
        λ contents. Keeps-bind _ _ (read_all-Keeps rest) λ more. search keeps_rules

  snapshot_files-Keeps : Keeps P snapshot_connection_files
  unfolding snapshot_connection_files
  snapshot_files-Keeps = search (keeps_rules, discover-Keeps, read_all-Keeps)

  restore_files-Keeps : (files : List (Str × List ℕ)) → Keeps P (restore_connection_files files)
  unfolding restore_connection_files
  restore_files-Keeps files = search (keeps_rules, discover-Keeps) depth 14

  bring_down_extra-Keeps :
      (target : List ActiveConnectionRecord) (r : ActiveConnectionRecord)
      → Keeps P (bring_down_extra target r)
  unfolding bring_down_extra
  bring_down_extra-Keeps target r = search (keeps_rules, deactivate_wifi-Keeps)

  serve_again-Keeps : (path : ObjectPath) → Keeps P (serve_again path)
  unfolding serve_again
  serve_again-Keeps path =
      Keeps-bind _ _ (search keeps_rules)
        λ found. Keeps-option found _ _ (Keeps-pure tt) λ r. search keeps_rules

  withdraw_active-Keeps : (path : ObjectPath) → Keeps P (withdraw_active path)
  unfolding withdraw_active
  withdraw_active-Keeps path = search keeps_rules

module _ {Value : Type 0} ⦃V : Variant Value⦄ {P : RuntimeState Value → Type 0} where
  bring_up_missing-Keeps :
      (current : List ActiveConnectionRecord) (r : ActiveConnectionRecord)
      → Keeps P (bring_up_missing current r)
  unfolding bring_up_missing
  bring_up_missing-Keeps current r = Keeps-if _ _ _ (Keeps-pure tt) (
      Keeps-bind _ _ (search keeps_rules) λ found.
        Keeps-option found _ _ (Keeps-pure tt) λ c. search (keeps_rules, activate_wifi-Keeps))

module _ {Value : Type 0} where
  checkpoint_destroy-IsConsistent :
      (path : ObjectPath) → Keeps (IsConsistent {Value = Value}) (checkpoint_destroy path)
  unfolding checkpoint_destroy
  checkpoint_destroy-IsConsistent path =
      search (keeps_rules, consistent_rules, emit_root-Keeps) depth 20

  extend_deadline-snapshot :
      (now : ℤ) (seconds : ℕ) (r : CheckpointRecord Value)
      → (extend_deadline now seconds r).snapshot ≡ r.snapshot
  unfolding extend_deadline
  extend_deadline-snapshot now seconds r = refl

  adjust-IsConsistent :
      (path : ObjectPath) (seconds : ℕ)
      → Keeps (IsConsistent {Value = Value}) (checkpoint_adjust_rollback_timeout path seconds)
  unfolding checkpoint_adjust_rollback_timeout
  adjust-IsConsistent path seconds =
      search (keeps_rules, update_checkpoint-IsConsistent, extend_deadline-snapshot) depth 20

  removed-IsRestorable :
      (path : ObjectPath) (s : RuntimeState Value) (r : CheckpointRecord Value)
      → IsConsistent s
      → (remove_checkpoint path s).0 ≡ some r
      → Distinct active_key r.snapshot.active_connections
  unfolding remove_checkpoint IsRestorable
  removed-IsRestorable path s r h e = checkpoint-IsRestorable path s r h e

module _ {Value : Type 0} ⦃V : Variant Value⦄ where
  rollback-IsConsistent :
      (path : ObjectPath) → Keeps (IsConsistent {Value = Value}) (rollback_checkpoint path)
  unfolding rollback_checkpoint
  rollback-IsConsistent path = Keeps-bind _ _ (search keeps_rules) λ current.
      Keeps-take (remove_checkpoint path) _ _ (remove_checkpoint-IsConsistent path) λ s r h e.
        let back : (t : RuntimeState Value)
            → IsConsistent t
            → IsConsistent (restore_checkpoint_snapshot r.snapshot t) =
          λ t. restore-IsConsistent r.snapshot t (removed-IsRestorable path s r h e) in
        search
          (
            keeps_rules, back, restore_files-Keeps, bring_down_extra-Keeps, bring_up_missing-Keeps,
            serve_again-Keeps, withdraw_active-Keeps, emit_root-Keeps,
          )
          depth 40

  create-IsConsistent :
      (devices : List ObjectPath) (timeout : ℕ)
      → Keeps (IsConsistent {Value = Value}) (checkpoint_create devices timeout)
  unfolding checkpoint_create IsRestorable
  create-IsConsistent devices timeout = Keeps-bind _ _ (search keeps_rules) λ device_list.
      Keeps-bind _ _ (search (keeps_rules, consistent_rules)) λ path.
        Keeps-bind _ _ (search keeps_rules) λ created.
          Keeps-look (checkpoint_snapshot device_list) _ λ s h.
            Keeps-bind _ _ (search (keeps_rules, snapshot_files-Keeps)) λ files.
              Keeps-bind _ _
                (Keeps-change _ λ t.
                  add_checkpoint-IsConsistent _ t (checkpoint_snapshot-Distinct device_list s h))
                λ done. search (keeps_rules, emit_root-Keeps) depth 14

  checkpoint_rollback-IsConsistent :
      (path : ObjectPath) → Keeps (IsConsistent {Value = Value}) (checkpoint_rollback path)
  unfolding checkpoint_rollback
  checkpoint_rollback-IsConsistent path = search (keeps_rules, rollback-IsConsistent) depth 14

  -- What the snapshot of a checkpoint holds of the runtime is back.
  pub record IsRolledBack (path : ObjectPath) (before : RuntimeState Value)
      (devices : List (Str × ℕ)) (s : RuntimeState Value) : Type 0 where
    pub r : CheckpointRecord Value
    pub was_there : checkpoint path before ≡ some r
    pub connections : s.connections ≡ r.snapshot.connections
    pub active_connections : s.active_connections ≡ r.snapshot.active_connections
    pub device_managed : s.device_managed ≡ r.snapshot.device_managed
    pub hostname : s.hostname ≡ r.snapshot.hostname
    pub networking : s.networking_enabled ≡ r.snapshot.networking_enabled
    pub sleeping : s.sleeping ≡ r.snapshot.sleeping
    pub answers : devices ≡ map (λ device. (device, 0)) r.devices

  restored_lem :
      (path : ObjectPath) (before s : RuntimeState Value) (r : CheckpointRecord Value)
      → checkpoint path before ≡ some r
      → IsRolledBack path before
          (map (λ device. (device, 0)) r.devices)
          (restore_checkpoint_snapshot r.snapshot s)
  unfolding restore_checkpoint_snapshot
  restored_lem path before s r e = record {
    r = r;
    was_there = e;
    connections = refl;
    active_connections = refl;
    device_managed = refl;
    hostname = refl;
    networking = refl;
    sleeping = refl;
    answers = refl;
  }

  rollback-Ensures :
      (path : ObjectPath) (before : RuntimeState Value)
      → Ensures (λ s. s ≡ before) (rollback_checkpoint path) (IsRolledBack path before)
  unfolding rollback_checkpoint remove_checkpoint
  rollback-Ensures path before = Ensures-then _ _ (search keeps_rules) λ current.
      Ensures-bind _ _ (λ found s. checkpoint path before ≡ found)
        (Ensures-update _ λ s h. ap (checkpoint path) (sym h))
        λ found.
          Ensures-bind _ _ (λ r s. checkpoint path before ≡ some r)
            (Ensures-ok_or found _ λ r s q h. h ∙ q)
            λ r. Ensures-then _ _ (search keeps_rules) λ withdrawn.
              Ensures-then _ _ (search keeps_rules) λ told.
                Ensures-then _ _ (restore_files-Keeps _) λ files.
                  Ensures-bind _ _
                    (λ _. IsRolledBack path before (map (λ device. (device, 0)) r.devices))
                    (Ensures-change _ λ s h. restored_lem path before s r h)
                    λ restored.
                      Ensures-then _ _ (search (keeps_rules, bring_down_extra-Keeps)) λ down.
                        Ensures-then _ _ (search (keeps_rules, bring_up_missing-Keeps)) λ up.
                          Ensures-then _ _ (search keeps_rules) λ old.
                            Ensures-then _ _ (search (keeps_rules, withdraw_active-Keeps)) λ gone.
                              Ensures-then _ _ (search keeps_rules) λ new.
                                Ensures-then _ _ (search (keeps_rules, serve_again-Keeps)) λ served.
                                  Ensures-then _ _ (emit_root-Keeps _)
                                    λ root. Ensures-pure _ λ s h. h

  checkpoint_rollback-Ensures :
      (path : ObjectPath) (before : RuntimeState Value)
      → Ensures (λ s. s ≡ before) (checkpoint_rollback path) (IsRolledBack path before)
  unfolding checkpoint_rollback
  checkpoint_rollback-Ensures path before =
      Ensures-bind _ _ _ (Ensures-map_err _ _ (rollback-Ensures path before))
        λ result. Ensures-then _ _ (search keeps_rules) λ withdrawn. Ensures-pure _ λ s h. h

  -- Where `CheckpointRollback` returns devices, the path was that of a checkpoint, the devices are
  -- the checkpoint's, each with the result 0, and connections, active connections, managed flags,
  -- host name and the switches of networking and sleep are those of its snapshot.
  pub checkpoint_rollback-IsRolledBack :
      (path : ObjectPath) (devices : List (Str × ℕ)) (host : Host Value) (w : World Value)
      → (checkpoint_rollback path host w).0 ≡ ok devices
      → IsRolledBack path w.runtime devices (checkpoint_rollback path host w).1.runtime
  checkpoint_rollback-IsRolledBack path devices host w e =
      Ensures-ok (checkpoint_rollback-Ensures path w.runtime) host w devices refl e

  -- `CheckpointCreate`, `CheckpointDestroy`, `CheckpointRollback` and
  -- `CheckpointAdjustRollbackTimeout` keep the invariant of the runtime, whatever the outside answers
  -- and whether they return or fail.
  pub checkpoints-IsConsistent :
      (path : ObjectPath) (devices : List ObjectPath) (seconds : ℕ) (host : Host Value)
      (w : World Value)
      → IsConsistent w.runtime
      → IsConsistent (checkpoint_create devices seconds host w).1.runtime
        × IsConsistent (checkpoint_destroy path host w).1.runtime
        × IsConsistent (checkpoint_rollback path host w).1.runtime
        × IsConsistent (checkpoint_adjust_rollback_timeout path seconds host w).1.runtime
  checkpoints-IsConsistent path devices seconds host w h = (
    (create-IsConsistent devices seconds).at host w h,
    (checkpoint_destroy-IsConsistent path).at host w h,
    (checkpoint_rollback-IsConsistent path).at host w h,
    (adjust-IsConsistent path seconds).at host w h,
  )
