-- ===== src/Runtime/Active.antt =====
-- runtime.rs: the active connections.
use nm_dbus_proxy_rs.Prelude.{Bool, List, Option, any, find_if}
use mathlib.Core.Option
use nm_dbus_proxy_rs.Text.{Str, ends_with}
use nm_dbus_proxy_rs.Table
use nm_dbus_proxy_rs.Paths.{ObjectPath}
use nm_dbus_proxy_rs.Runtime.State.{RuntimeState, ActiveConnectionRecord, active_key}

-- One of the record's device paths ends with the name.
unfoldable pub runs_on : Str → ActiveConnectionRecord → Bool
runs_on name r = any (λ path. ends_with path name) r.value.devices

module _ {Value : Type 0} where
  unfoldable pub active_connection : ObjectPath → RuntimeState Value → Option ActiveConnectionRecord
  active_connection path s = Table.find active_key path s.active_connections

  unfoldable pub active_connection_for_interface : Str → RuntimeState Value → Option ObjectPath
  unfolding runs_on
  active_connection_for_interface name s =
      Option.map active_key (find_if (runs_on name) s.active_connections)

  unfoldable pub active_connection_paths : RuntimeState Value → List ObjectPath
  active_connection_paths s = Table.keys active_key s.active_connections

  unfoldable pub add_active_connection :
      ActiveConnectionRecord → RuntimeState Value → RuntimeState Value
  add_active_connection r s = record s {
    active_connections = Table.replace active_key r s.active_connections;
  }

  unfoldable pub remove_active_connection :
      ObjectPath → RuntimeState Value → Option ActiveConnectionRecord × RuntimeState Value
  unfolding active_connection
  remove_active_connection path s = (
    active_connection path s,
    record s { active_connections = Table.remove active_key path s.active_connections },
  )
