-- ===== src/Manager/Checkpoints.antt =====
-- network_manager/mod.rs: checkpoints, made, destroyed, extended and rolled back.
use nm_dbus_proxy_rs.Prelude.{
  ℕ, ◌-◌, ◌*◌, ◌^◌, Bool, false, List, [], ◌∷◌, map, Option, none, some, any, is_empty, eqb,
  if◌then◌else◌,
}
use nm_dbus_proxy_rs.Prelude.Int.{ℤ, pos, ltb_ℤ, ◌+ℤ◌}
use nm_dbus_proxy_rs.Text.{Str, codes, ◌==◌}
use nm_dbus_proxy_rs.Variant.{Variant}
use nm_dbus_proxy_rs.Paths.{ObjectPath}
use nm_dbus_proxy_rs.Connection.{wifi_type, vpn_type, unwrap_or}
use nm_dbus_proxy_rs.Runtime.State.{RuntimeState, ActiveConnectionRecord, CheckpointRecord}
use nm_dbus_proxy_rs.Runtime.Connections.{connection}
use nm_dbus_proxy_rs.Runtime.Active.{active_connection, active_connection_paths}
use nm_dbus_proxy_rs.Runtime.Devices.{device_paths}
use nm_dbus_proxy_rs.Runtime.Checkpoints.{
  checkpoint_snapshot, restore_checkpoint_snapshot, next_checkpoint_path, add_checkpoint,
  remove_checkpoint, update_checkpoint, checkpoint_rollback_timeout, seconds_between,
}
use nm_dbus_proxy_rs.Io.{
  Io, Error, failed, zbus, serve, withdraw, emit, checkpoint_object, checkpoint_interface,
  active_connection_object, active_connection_interface, vpn_connection, vpn_connection_interface,
  properties_changed, number, ask_time, pure, gets, query, update, change, ok_or, request, ignore,
  map_err, for_each, ◌>>=◌, ◌>>◌,
}
use nm_dbus_proxy_rs.Signals.{emit_object_added, emit_object_removed, emit_root_runtime_changes}
use nm_dbus_proxy_rs.Persistence.Files.{
  snapshot_connection_files, restore_connection_files, as_text,
}
use nm_dbus_proxy_rs.Manager.Links.{
  first_interface, activate_wifi_connection, activate_wired_connection, deactivate_wifi_connection,
  deactivate_wired_connection,
}

abbrev pub checkpoint_interface_name : Str
checkpoint_interface_name = codes "org.freedesktop.NetworkManager.Checkpoint"

abbrev pub i64_max : ℕ
i64_max = 2 ^ 63 - 1

-- `time.saturating_add(i64::from(seconds) * 1000)`: the product fits, and the sum stops at the
-- greatest `i64`.
unfoldable pub add_seconds : ℤ → ℕ → ℤ
unfolding ◌+ℤ◌
add_seconds time seconds =
    let sum = time +ℤ pos (seconds * 1000) in if ltb_ℤ (pos i64_max) sum then pos i64_max else sum

unfoldable pub max_ℤ : ℤ → ℤ → ℤ
max_ℤ a b = if ltb_ℤ a b then b else a

-- The change that `CheckpointAdjustRollbackTimeout` makes at `now`.
unfoldable pub extend_deadline :
    {Value : Type 0} → ℤ → ℕ → CheckpointRecord Value → CheckpointRecord Value
unfolding add_seconds max_ℤ seconds_between
extend_deadline now add_timeout r =
    let extended = add_seconds (max_ℤ (unwrap_or r.rollback_deadline_millis now) now) add_timeout in
    record r {
      rollback_deadline_millis = some extended;
      rollback_timeout = seconds_between now extended;
    }

-- The deadline of a new checkpoint; a timeout of 0 means none.
unfoldable pub first_deadline : ℤ → ℕ → Option ℤ
unfolding add_seconds
first_deadline created timeout = if eqb timeout 0 then none else some (add_seconds created timeout)

-- Some record of the list runs on the interface; the source compares with `Some(interface_name)`.
unfoldable pub covers : List ActiveConnectionRecord → Str → Bool
unfolding first_interface
covers records name =
    any (λ r. elim (first_interface r) [ none ↦ false | some other ↦ other == name ]) records

module _ {Value : Type 0} where
  unfoldable pub checkpoint_destroy : ObjectPath → Io Value Error (Unit {0})
  unfolding remove_checkpoint emit_object_removed emit_root_runtime_changes
  checkpoint_destroy path = do
    found ← update (remove_checkpoint path)
    _ ← ok_or found (failed (codes "unknown checkpoint"))
    ignore (request as_text (withdraw path checkpoint_interface))
    emit_object_removed failed path checkpoint_interface_name
    emit_root_runtime_changes failed

  unfoldable pub checkpoint_adjust_rollback_timeout : ObjectPath → ℕ → Io Value Error (Unit {0})
  unfolding update_checkpoint extend_deadline checkpoint_rollback_timeout
  checkpoint_adjust_rollback_timeout path add_timeout = do
    now ← query ask_time (λ h calls. h.boottime_millis calls)
    found ← update (update_checkpoint path (extend_deadline now add_timeout))
    ok_or found (failed (codes "unknown checkpoint"))
    later ← query ask_time (λ h calls. h.boottime_millis calls)
    timeout ← gets (checkpoint_rollback_timeout path later)
    request failed (
        emit (
          properties_changed path checkpoint_interface_name
            ((codes "RollbackTimeout", number (unwrap_or timeout 0)) ∷ [])))

  -- Bring down what is active now and was not when the checkpoint was made.
  unfoldable pub bring_down_extra :
      List ActiveConnectionRecord → ActiveConnectionRecord → Io Value Str (Unit {0})
  unfolding covers deactivate_wifi_connection deactivate_wired_connection
  bring_down_extra target r =
      let name : Str = unwrap_or (first_interface r) [] in
      if covers target name
      then pure tt
      else ignore {E = Str} (
          if r.value.type_ == wifi_type
          then deactivate_wifi_connection name
          else deactivate_wired_connection name)

  -- The active connections of the snapshot are served anew.
  unfoldable pub serve_again : ObjectPath → Io Value Str (Unit {0})
  unfolding active_connection
  serve_again path = do
    found ← gets (active_connection path)
    elim found [
      | none ↦ pure tt
      | some r ↦ do
        ignore (request as_text (serve path (active_connection_object r.value)))
        if r.value.type_ == vpn_type
            then ignore (request as_text (serve path vpn_connection))
            else pure tt
    ]

  unfoldable pub withdraw_active : ObjectPath → Io Value Str (Unit {0})
  withdraw_active path = do
    ignore (request as_text (withdraw path active_connection_interface))
    ignore (request as_text (withdraw path vpn_connection_interface))

-- `paths.filter_map(|path| runtime.active_connection(&path))`.
unfoldable pub active_records :
    {Value : Type 0} → RuntimeState Value → List ObjectPath → List ActiveConnectionRecord
unfolding active_connection
active_records s [] = []
active_records s (path ∷ paths) =
    let rest = active_records s paths in
    elim (active_connection path s) [ none ↦ rest | some r ↦ r ∷ rest ]

module _ {Value : Type 0} ⦃V : Variant Value⦄ where
  unfoldable pub checkpoint_create : List ObjectPath → ℕ → Io Value Error ObjectPath
  unfolding device_paths next_checkpoint_path checkpoint_snapshot snapshot_connection_files
      add_checkpoint first_deadline emit_object_added emit_root_runtime_changes
  checkpoint_create devices rollback_timeout = do
    device_list ← gets (λ s. if is_empty devices then device_paths s else devices)
    path ← update next_checkpoint_path
    created ← query ask_time (λ h calls. h.boottime_millis calls)
    snapshot ← gets (checkpoint_snapshot device_list)
    files ← map_err failed snapshot_connection_files
    change (
        add_checkpoint (record {
          created = created;
          devices = device_list;
          path = path;
          rollback_timeout = rollback_timeout;
          rollback_deadline_millis = first_deadline created rollback_timeout;
          snapshot = record snapshot { persisted_files = files };
        }))
    request zbus (serve path checkpoint_object)
    emit_object_added failed path checkpoint_interface_name
    emit_root_runtime_changes failed
    pure path

  -- Bring up what was active when the checkpoint was made and is not now.
  unfoldable pub bring_up_missing :
      List ActiveConnectionRecord → ActiveConnectionRecord → Io Value Str (Unit {0})
  unfolding covers connection activate_wifi_connection activate_wired_connection
  bring_up_missing current r =
      let name : Str = unwrap_or (first_interface r) [] in
      if covers current name then pure tt else do
        found ← gets (connection r.value.connection)
        elim found [
          | none ↦ pure tt
          | some c ↦ ignore {E = Str} (
              if c.connection_type == wifi_type
              then activate_wifi_connection c name
              else activate_wired_connection name)
        ]

  unfoldable pub rollback_checkpoint : ObjectPath → Io Value Str (List (Str × ℕ))
  unfolding active_records remove_checkpoint emit_object_removed restore_connection_files
      restore_checkpoint_snapshot bring_down_extra bring_up_missing withdraw_active serve_again
      active_connection_paths emit_root_runtime_changes
  rollback_checkpoint path = do
    current ← gets (λ s. active_records s (active_connection_paths s))
    found ← update (remove_checkpoint path)
    r ← ok_or found (codes "unknown checkpoint")
    ignore (request as_text (withdraw path checkpoint_interface))
    ignore (emit_object_removed as_text path checkpoint_interface_name)
    restore_connection_files r.snapshot.persisted_files
    change (restore_checkpoint_snapshot r.snapshot)
    for_each current (bring_down_extra r.snapshot.active_connections)
    for_each r.snapshot.active_connections (bring_up_missing current)
    before ← gets active_connection_paths
    for_each before withdraw_active
    after ← gets active_connection_paths
    for_each after serve_again
    emit_root_runtime_changes as_text
    pure (map (λ device. (device, 0)) r.devices)

  unfoldable pub checkpoint_rollback : ObjectPath → Io Value Error (List (Str × ℕ))
  unfolding rollback_checkpoint
  checkpoint_rollback path = do
    result ← map_err failed (rollback_checkpoint path)
    ignore (request as_text (withdraw path checkpoint_interface))
    pure result
