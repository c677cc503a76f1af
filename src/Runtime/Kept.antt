-- ===== src/Runtime/Kept.antt =====
-- The changes of runtime.rs that leave the vectors of the invariant alone, and all of its rules.
use nm_dbus_proxy_rs.Prelude.{Bool}
use nm_dbus_proxy_rs.Text.{Str}
use nm_dbus_proxy_rs.Connection.{ConnectionRecord}
use nm_dbus_proxy_rs.Runtime.State.{RuntimeState}
use nm_dbus_proxy_rs.Runtime.Connections.{add_connection, next_connection_path}
use nm_dbus_proxy_rs.Runtime.Settings.{
  set_hostname, set_networking_enabled, set_sleeping, set_wireless_enabled,
}
use nm_dbus_proxy_rs.Runtime.Checkpoints.{next_checkpoint_path}
use nm_dbus_proxy_rs.Runtime.Invariant.{
  IsConsistent, add_active_connection-IsConsistent, remove_active_connection-IsConsistent,
  remove_connection-IsConsistent, update_connection-IsConsistent, remove_checkpoint-IsConsistent,
  add_registered_agent-IsConsistent, remove_registered_agent-IsConsistent,
}

module _ {Value : Type 0} where
  pub add_connection-IsConsistent :
      (c : ConnectionRecord Value) (s : RuntimeState Value)
      → IsConsistent s
      → IsConsistent (add_connection c s)
  unfolding IsConsistent add_connection
  add_connection-IsConsistent c s h = h

  pub next_connection_path-IsConsistent :
      (s : RuntimeState Value) → IsConsistent s → IsConsistent (next_connection_path s).1
  unfolding IsConsistent next_connection_path
  next_connection_path-IsConsistent s h = h

  pub next_checkpoint_path-IsConsistent :
      (s : RuntimeState Value) → IsConsistent s → IsConsistent (next_checkpoint_path s).1
  unfolding IsConsistent next_checkpoint_path
  next_checkpoint_path-IsConsistent s h = h

  pub set_hostname-IsConsistent :
      (hostname : Str) (s : RuntimeState Value)
      → IsConsistent s
      → IsConsistent (set_hostname hostname s)
  unfolding IsConsistent set_hostname
  set_hostname-IsConsistent hostname s h = h

  pub set_networking_enabled-IsConsistent :
      (on : Bool) (s : RuntimeState Value)
      → IsConsistent s
      → IsConsistent (set_networking_enabled on s)
  unfolding IsConsistent set_networking_enabled
  set_networking_enabled-IsConsistent on s h = h

  pub set_sleeping-IsConsistent :
      (on : Bool) (s : RuntimeState Value) → IsConsistent s → IsConsistent (set_sleeping on s)
  unfolding IsConsistent set_sleeping
  set_sleeping-IsConsistent on s h = h

  pub set_wireless_enabled-IsConsistent :
      (on : Bool) (s : RuntimeState Value)
      → IsConsistent s
      → IsConsistent (set_wireless_enabled on s)
  unfolding IsConsistent set_wireless_enabled
  set_wireless_enabled-IsConsistent on s h = h

pub ruleset consistent_rules = (
  add_active_connection-IsConsistent, remove_active_connection-IsConsistent,
  remove_connection-IsConsistent, update_connection-IsConsistent, remove_checkpoint-IsConsistent,
  add_registered_agent-IsConsistent, remove_registered_agent-IsConsistent,
  add_connection-IsConsistent, next_connection_path-IsConsistent, next_checkpoint_path-IsConsistent,
  set_hostname-IsConsistent, set_networking_enabled-IsConsistent, set_sleeping-IsConsistent,
  set_wireless_enabled-IsConsistent,
)
