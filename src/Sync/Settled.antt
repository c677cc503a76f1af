-- ===== src/Sync/Settled.antt =====
-- What the connection part of `sync_backends` of lib.rs leaves behind.
use nm_dbus_proxy_rs.Prelude.{◌≡◌, Bool, true, List, [], keep_if}
use nm_dbus_proxy_rs.Text.{Str}
use nm_dbus_proxy_rs.Variant.{Variant}
use nm_dbus_proxy_rs.Connection.{ConnectionRecord}
use nm_dbus_proxy_rs.Runtime.State.{RuntimeState}
use nm_dbus_proxy_rs.Runtime.Connections.{connection_by_uuid}
use nm_dbus_proxy_rs.Iwd
use nm_dbus_proxy_rs.Io.Sure.{Sure}
use nm_dbus_proxy_rs.Io.Ensures.{Ensures}
use nm_dbus_proxy_rs.Sync.{is_outlived, is_backend}
use nm_dbus_proxy_rs.Sync.Rounds.{is_asked, is_backend_some}

module _ {Value : Type 0} where
  -- Every uuid that is asked for is a backend connection's, and no backend connection has another.
  pub record IsSettled (desired : List Str) (s : RuntimeState Value) : Type 0 where
    pub covers :
        (uuid : Str)
        → is_asked uuid desired ≡ true
        → is_backend_some (connection_by_uuid uuid s) ≡ true
    pub bounded : keep_if (is_outlived desired) s.connections ≡ []

module _ {Value : Type 0} ⦃V : Variant Value⦄ where
  abbrev from_backend : ConnectionRecord Value → Bool
  from_backend c = is_backend c.origin
