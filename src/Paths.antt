-- ===== src/Paths.antt =====
-- The D-Bus object paths of the service: the constants and path builders of lib.rs, with the ids
-- that runtime.rs appends. An `OwnedObjectPath` is the text that its `as_str` returns.
pub mod Segment
use nm_dbus_proxy_rs.Prelude.{
  ℕ, ◌≡◌, refl, Bool, true, false, ◌&&◌, ◌||◌, List, [], ◌∷◌, ◌++◌, Option, none, some, eqb,
  if◌then◌else◌,
}
use nm_dbus_proxy_rs.Text.{Str, codes, ◌==◌, after_last}
use nm_dbus_proxy_rs.Text.Utf8.{to_bytes}
use nm_dbus_proxy_rs.Text.Hex.{hex2, is_alnum}
use nm_dbus_proxy_rs.Text.Decimal.{to_dec}

abbrev pub ObjectPath : Type 0
ObjectPath = Str

abbrev pub nm_root_path : Str
nm_root_path = codes "/org/freedesktop/NetworkManager"

abbrev pub nm_settings_path : Str
nm_settings_path = codes "/org/freedesktop/NetworkManager/Settings"

abbrev pub nm_active_connections_path : Str
nm_active_connections_path = codes "/org/freedesktop/NetworkManager/ActiveConnections"

abbrev pub nm_devices_path : Str
nm_devices_path = codes "/org/freedesktop/NetworkManager/Devices"

abbrev pub nm_checkpoint_path : Str
nm_checkpoint_path = codes "/org/freedesktop/NetworkManager/Checkpoint"

-- `OwnedObjectPath::default()`, `null_path()` and `root_path()`.
abbrev pub root_path : ObjectPath
root_path = b'/' ∷ []

-- A byte that a path segment keeps.
unfoldable pub is_plain : ℕ → Bool
is_plain b = is_alnum b || eqb b b'_'

-- The text that one byte contributes.
unfoldable pub escape_byte : ℕ → Str
unfolding is_plain hex2
escape_byte b = if is_plain b then b ∷ [] else b'_' ∷ hex2 b

unfoldable pub escape : List ℕ → Str
unfolding escape_byte
escape [] = []
escape (b ∷ bs) = escape_byte b ++ escape bs

unfoldable pub or_underscore : Str → Str
or_underscore [] = b'_' ∷ []
or_underscore (c ∷ s) = c ∷ s

unfoldable pub object_path_segment : Str → Str
unfolding escape or_underscore to_bytes
object_path_segment value = or_underscore (escape (to_bytes value))

-- `format!("{prefix}/{segment}")`.
abbrev pub join_path : Str → Str → ObjectPath
join_path prefix segment = prefix ++ b'/' ∷ segment

unfoldable pub device_object_path : Str → ObjectPath
device_object_path interface_name = join_path nm_devices_path (object_path_segment interface_name)

unfoldable pub active_connection_object_path : Str → ObjectPath
active_connection_object_path interface_name =
    join_path nm_active_connections_path (object_path_segment interface_name)

unfoldable pub config_object_path : Str → Str → ObjectPath
config_object_path prefix interface_name = join_path prefix (object_path_segment interface_name)

unfoldable pub settings_path : ℕ → ObjectPath
settings_path id = join_path nm_settings_path (to_dec id)

unfoldable pub checkpoint_path : ℕ → ObjectPath
checkpoint_path id = join_path nm_checkpoint_path (to_dec id)

-- `path.as_str().rsplit('/').next()`: always there.
abbrev pub last_segment : ObjectPath → Str
last_segment = after_last b'/'
