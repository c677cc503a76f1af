-- ===== src/Tests/Handlers.antt =====
-- The theorems on handlers, at concrete states.
use nm_dbus_proxy_rs.Prelude.{
  ◌≡◌, refl, true, false, [], ◌∷◌, none, some, keep_if, is_empty, any, ◌≢◌, ◌↔◌, arith,
  if◌then◌else◌,
}
use nm_dbus_proxy_rs.Text.{Str, codes, ◌==◌}
use nm_dbus_proxy_rs.Table.{find, modify, remove, keys, replace, without}
use nm_dbus_proxy_rs.Runtime.Fresh.{IsFresh}
use nm_dbus_proxy_rs.Text.Decimal.{parse_usize}
use nm_dbus_proxy_rs.Text.{after_last}
use nm_dbus_proxy_rs.Text.Hex.{is_alnum}
use nm_dbus_proxy_rs.Prelude.Word.{inc64, word_mod}
use nm_dbus_proxy_rs.Signals.{emit_object_added, emit_settings_changed}
use nm_dbus_proxy_rs.Manager.Cleared.{
  has_type, enable-cleared, sleep-cleared, switch_wireless-cleared,
}
use nm_dbus_proxy_rs.Variant.{Tagged, tagged}
use nm_dbus_proxy_rs.Map.{lookup}
use nm_dbus_proxy_rs.Connection.{get_string, interface_name, setting}
use nm_dbus_proxy_rs.Connection.{wifi_type}
use nm_dbus_proxy_rs.Paths.{
  ObjectPath, device_object_path, root_path, active_connection_object_path, object_path_segment,
  settings_path,
}
use nm_dbus_proxy_rs.Io.{World, ok, err, ◌>>=◌, request, ignore, map_err, for_each}
use nm_dbus_proxy_rs.Runtime.Connections.{new, connection}
use nm_dbus_proxy_rs.Runtime.Devices.{registered_agent}
use nm_dbus_proxy_rs.Runtime.Invariant.{IsConsistent, IsRestorable}
use nm_dbus_proxy_rs.Settings.{add_connection_inner}
use nm_dbus_proxy_rs.Settings.Added.{IsAdded, add_connection_inner-IsAdded}
use nm_dbus_proxy_rs.SettingsConnection.{
  delete, clear_secrets, save, update_unsaved, update_, update2,
}
use nm_dbus_proxy_rs.SettingsConnection.Updated.{IsUpdated, update_unsaved-IsUpdated}
use nm_dbus_proxy_rs.SettingsConnection.Deleted.{IsDeleted, delete-IsDeleted}
use nm_dbus_proxy_rs.SettingsConnection.Consistent.{agents-IsConsistent}
use nm_dbus_proxy_rs.Manager.Activation.{
  activate_connection, add_and_activate_connection, deactivate_connection, enable, sleep,
  switch_wireless, networking_disabled, cleared_types,
}
use nm_dbus_proxy_rs.Manager.Activated.{
  IsActivated, activate_connection-IsActivated, activate_connection-refused,
}
use nm_dbus_proxy_rs.Manager.Deactivated.{IsDeactivated, deactivate_connection-IsDeactivated}
use nm_dbus_proxy_rs.Manager.Consistent.{activation-IsConsistent}
use nm_dbus_proxy_rs.Manager.Rollback.{
  IsRolledBack, checkpoints-IsConsistent, checkpoint_rollback-IsRolledBack,
}
use nm_dbus_proxy_rs.SettingsConnection.Others.{IsElsewhere, connection-IsElsewhere}
use nm_dbus_proxy_rs.Runtime.Checkpoints.{checkpoint_snapshot}
use nm_dbus_proxy_rs.Prelude.Int.{pos}
use nm_dbus_proxy_rs.Manager.Checkpoints.{
  checkpoint_create, checkpoint_destroy, checkpoint_rollback, checkpoint_adjust_rollback_timeout,
}
use nm_dbus_proxy_rs.AgentManager.{register, register_with_capabilities, unregister}
use nm_dbus_proxy_rs.AgentManager.Registered.{register-registered, unregister-registered}
use nm_dbus_proxy_rs.Tests.Data.{
  host, wired, wired_path, wired_settings, start, off, tunneled, tunnel, tunneled-IsConsistent,
  start-IsConsistent,
}

activates_wired :
    IsActivated wired_path root_path start.runtime
      (active_connection_object_path (codes "eth0"))
      (activate_connection wired_path root_path host start).1.runtime
unfolding activate_connection ◌>>=◌ new codes find ◌==◌ setting get_string lookup map_err request
    ignore is_empty keys replace without
activates_wired =
    activate_connection-IsActivated wired_path root_path
      (active_connection_object_path (codes "eth0")) host start refl

refuses_when_off :
    activate_connection wired_path root_path host off ≡ (err networking_disabled, off)
unfolding new codes connection find ◌==◌ interface_name setting get_string lookup
refuses_when_off =
    activate_connection-refused wired_path root_path wired (codes "eth0") host off refl refl refl

activation_keeps :
    IsConsistent (activate_connection wired_path root_path host start).1.runtime
    × IsConsistent (add_and_activate_connection wired_settings root_path host start).1.runtime
    × IsConsistent (deactivate_connection wired_path host start).1.runtime
activation_keeps =
    activation-IsConsistent wired_path root_path wired_settings host start start-IsConsistent

agents_keep :
    IsConsistent (register (codes "agent") (some (codes ":1.1")) host start).1.runtime
    × IsConsistent
        (register_with_capabilities (codes "agent") 1 (some (codes ":1.1")) host start).1.runtime
    × IsConsistent (unregister (some (codes ":1.1")) host start).1.runtime
agents_keep =
    agents-IsConsistent (codes "agent") 1 (some (codes ":1.1")) host start start-IsConsistent

adds_wired :
    IsAdded start.runtime wired_settings true
      (settings_path 2)
      (add_connection_inner wired_settings true host start).1.runtime
unfolding add_connection_inner ◌>>=◌ new codes IsFresh parse_usize inc64 after_last word_mod lookup
    ◌==◌ request emit_object_added emit_settings_changed
adds_wired =
    add_connection_inner-IsAdded wired_settings true (settings_path 2) host start (omega arith, tt)
      (omega arith) refl

deletes_wired : IsDeleted wired_path start.runtime (delete wired_path host start).1.runtime
unfolding delete ◌>>=◌ new codes find ◌==◌ map_err request
deletes_wired = delete-IsDeleted wired_path host start (refl, tt) refl

registers_agent :
    let (r, after) = register (codes "agent") (some (codes ":1.1")) host start in
    (r ≡ ok tt)
    × (after.calls ≡ [])
    × ((other : Str)
        → registered_agent other after.runtime ≡ (
            if codes ":1.1" == other
            then some
                (record { capabilities = 0; identifier = codes "agent"; sender = codes ":1.1" })
            else registered_agent other start.runtime))
unfolding codes is_empty
registers_agent = register-registered (codes "agent") (codes ":1.1") host start refl

enable_leaves_tunnel : has_type cleared_types tunnel ≡ false
unfolding enable ◌>>=◌ new codes map_err for_each keys find ◌==◌ active_connection_object_path
    object_path_segment is_alnum any request ignore remove
enable_leaves_tunnel =
    enable-cleared host tunneled tunnel.path tunnel tunneled-IsConsistent refl refl

sleep_leaves_tunnel : has_type cleared_types tunnel ≡ false
unfolding sleep ◌>>=◌ new codes map_err for_each keys find ◌==◌ active_connection_object_path
    object_path_segment is_alnum any request ignore remove
sleep_leaves_tunnel = sleep-cleared host tunneled tunnel.path tunnel tunneled-IsConsistent refl refl

switch_wireless_leaves_tunnel : has_type (wifi_type ∷ []) tunnel ≡ false
unfolding switch_wireless ◌>>=◌ new codes map_err for_each keys find ◌==◌
    active_connection_object_path object_path_segment is_alnum any is_empty request
switch_wireless_leaves_tunnel =
    switch_wireless-cleared host tunneled tunnel.path tunnel tunneled-IsConsistent refl refl

unregisters_none :
    let (r, after) = unregister (some (codes ":1.1")) host start in
    ((r ≡ ok tt) ↔ (registered_agent (codes ":1.1") start.runtime ≢ none))
    × ((other : Str)
        → registered_agent other after.runtime
          ≡ (if codes ":1.1" == other then none else registered_agent other start.runtime))
unregisters_none = unregister-registered (codes ":1.1") host start start-IsConsistent

updates_wired :
    IsUpdated wired_path wired_settings start.runtime
      (update_unsaved wired_path wired_settings host start).1.runtime
unfolding update_unsaved ◌>>=◌ new codes find ◌==◌ map_err request modify
updates_wired = update_unsaved-IsUpdated wired_path wired_settings host start refl

deactivates_tunnel :
    IsDeactivated tunnel.path tunneled.runtime
      (deactivate_connection tunnel.path host tunneled).1.runtime
unfolding deactivate_connection ◌>>=◌ new codes map_err find ◌==◌ active_connection_object_path
    object_path_segment is_alnum request ignore remove is_empty keys
deactivates_tunnel =
    deactivate_connection-IsDeactivated tunnel.path host tunneled tunneled-IsConsistent refl

-- The tunneled state with a checkpoint of eth0, made while nothing was active.
abbrev guard_path : ObjectPath
guard_path = codes "/org/freedesktop/NetworkManager/Checkpoint/1"

abbrev guarded : World Tagged
guarded = record tunneled {
  runtime = record tunneled.runtime {
    checkpoints =
        record {
          created = pos 5000;
          devices = device_object_path (codes "eth0") ∷ [];
          path = guard_path;
          rollback_timeout = 60;
          rollback_deadline_millis = some (pos 65000);
          snapshot = checkpoint_snapshot (device_object_path (codes "eth0") ∷ []) start.runtime;
        }
        ∷ [];
  };
}

guarded-IsConsistent : IsConsistent guarded.runtime
unfolding IsConsistent IsRestorable checkpoint_snapshot new find codes ◌==◌
    active_connection_object_path object_path_segment is_alnum keep_if
guarded-IsConsistent = ((refl, (refl, tt)), (tt, (tt, (tt, (tt, (tt, tt))))))

checkpoints_keep :
    IsConsistent (checkpoint_create [] 60 host guarded).1.runtime
    × IsConsistent (checkpoint_destroy guard_path host guarded).1.runtime
    × IsConsistent (checkpoint_rollback guard_path host guarded).1.runtime
    × IsConsistent (checkpoint_adjust_rollback_timeout guard_path 60 host guarded).1.runtime
checkpoints_keep = checkpoints-IsConsistent guard_path [] 60 host guarded guarded-IsConsistent

guarded-IsRolledBack :
    IsRolledBack guard_path guarded.runtime
      ((device_object_path (codes "eth0"), 0) ∷ [])
      (checkpoint_rollback guard_path host guarded).1.runtime
unfolding checkpoint_rollback ◌>>=◌ map_err find ◌==◌ codes ignore for_each checkpoint_snapshot keys
    active_connection_object_path object_path_segment is_alnum any keep_if new request is_empty
    device_object_path remove
guarded-IsRolledBack =
    checkpoint_rollback-IsRolledBack guard_path ((device_object_path (codes "eth0"), 0) ∷ []) host
      guarded refl

wired-IsElsewhere :
    IsElsewhere wired_path start.runtime (delete wired_path host start).1.runtime
    × IsElsewhere wired_path start.runtime (clear_secrets wired_path host start).1.runtime
    × IsElsewhere wired_path start.runtime (save wired_path host start).1.runtime
    × IsElsewhere wired_path start.runtime
        (update_unsaved wired_path wired_settings host start).1.runtime
    × IsElsewhere wired_path start.runtime (update_ wired_path wired_settings host start).1.runtime
    × IsElsewhere wired_path start.runtime
        (update2 wired_path wired_settings 1 [] host start).1.runtime
wired-IsElsewhere = connection-IsElsewhere wired_path wired_settings 1 [] host start
