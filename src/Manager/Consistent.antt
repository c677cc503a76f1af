-- ===== src/Manager/Consistent.antt =====
-- The invariant of the runtime under the activation handlers of
-- network_manager/mod.rs.
use nm_dbus_proxy_rs.Prelude.{Bool}
use nm_dbus_proxy_rs.Variant.{Variant}
use nm_dbus_proxy_rs.Paths.{ObjectPath}
use nm_dbus_proxy_rs.Connection.{ConnectionSettings}
use nm_dbus_proxy_rs.Runtime.Invariant.{IsConsistent}
use nm_dbus_proxy_rs.Runtime.Kept.{consistent_rules}
use nm_dbus_proxy_rs.Io.{Host, World}
use nm_dbus_proxy_rs.Io.Keeps.{Keeps, keeps_rules}
use nm_dbus_proxy_rs.Manager.Links.{forget_active}
use nm_dbus_proxy_rs.Manager.Activation.{
  deactivate_connection, activate_connection, refuse_when_off, finish_activation,
  add_runtime_connection, add_and_activate_connection,
}
use nm_dbus_proxy_rs.Manager.Outside.{
  emit_object_added-Keeps, emit_settings-Keeps, emit_root-Keeps, emit_device-Keeps,
  deactivate_wifi-Keeps, serve_active-Keeps, target_interface-Keeps, bring_up-Keeps,
  persist_connection-Keeps,
}

module _ {Value : Type 0} where
  pub forget_active-IsConsistent :
      (path : ObjectPath) → Keeps (IsConsistent {Value = Value}) (forget_active path)
  unfolding forget_active
  forget_active-IsConsistent path = search (keeps_rules, consistent_rules)

  deactivate_connection-IsConsistent :
      (path : ObjectPath) → Keeps (IsConsistent {Value = Value}) (deactivate_connection path)
  unfolding deactivate_connection
  deactivate_connection-IsConsistent path =
      search
        (keeps_rules, consistent_rules, deactivate_wifi-Keeps, emit_root-Keeps, emit_device-Keeps)
        depth 30

module _ {Value : Type 0} ⦃V : Variant Value⦄ where
  activate_connection-IsConsistent :
      (path device : ObjectPath)
      → Keeps (IsConsistent {Value = Value}) (activate_connection path device)
  unfolding activate_connection refuse_when_off finish_activation
  activate_connection-IsConsistent path device =
      search
        (
          keeps_rules, consistent_rules, target_interface-Keeps, bring_up-Keeps, serve_active-Keeps,
          emit_root-Keeps, emit_device-Keeps,
        )
        depth 40

  add_runtime-IsConsistent :
      (settings : ConnectionSettings Value) (unsaved : Bool)
      → Keeps (IsConsistent {Value = Value}) (add_runtime_connection settings unsaved)
  unfolding add_runtime_connection
  add_runtime-IsConsistent settings unsaved =
      search (keeps_rules, consistent_rules, persist_connection-Keeps, emit_object_added-Keeps)
        depth 40

  add_and_activate-IsConsistent :
      (settings : ConnectionSettings Value) (device : ObjectPath)
      → Keeps (IsConsistent {Value = Value}) (add_and_activate_connection settings device)
  unfolding add_and_activate_connection
  add_and_activate-IsConsistent settings device =
      search
        (
          keeps_rules, add_runtime-IsConsistent, activate_connection-IsConsistent,
          emit_settings-Keeps, emit_root-Keeps,
        )
        depth 20

  -- `ActivateConnection`, `AddAndActivateConnection` and `DeactivateConnection` keep the invariant of
  -- the runtime, whatever the outside answers and whether they return or fail.
  pub activation-IsConsistent :
      (path device : ObjectPath) (settings : ConnectionSettings Value) (host : Host Value)
      (w : World Value)
      → IsConsistent w.runtime
      → IsConsistent (activate_connection path device host w).1.runtime
        × IsConsistent (add_and_activate_connection settings device host w).1.runtime
        × IsConsistent (deactivate_connection path host w).1.runtime
  activation-IsConsistent path device settings host w h = (
    (activate_connection-IsConsistent path device).at host w h,
    (add_and_activate-IsConsistent settings device).at host w h,
    (deactivate_connection-IsConsistent path).at host w h,
  )
