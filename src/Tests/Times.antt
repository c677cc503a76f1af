-- ===== src/Tests/Times.antt =====
-- The theorems on deadlines, snapshots and fresh paths, at concrete states.
use nm_dbus_proxy_rs.Prelude.{
  ◌≡◌, refl, ◌↔◌, ◌⊎◌, ◌+◌, ◌*◌, ◌<◌, ◌≤◌, true, false, [], ◌∷◌, none, some, arith, if◌then◌else◌,
}
use nm_dbus_proxy_rs.Prelude.Int.{pos, ◌≤ℤ◌, ◌-ℤ◌}
use nm_dbus_proxy_rs.Prelude.Word.{inc64, word_mod}
use nm_dbus_proxy_rs.Text.{codes, ◌==◌, after_last}
use nm_dbus_proxy_rs.Text.Decimal.{parse_usize}
use nm_dbus_proxy_rs.Variant.{Tagged, tagged}
use nm_dbus_proxy_rs.Connection.{ConnectionRecord, unwrap_or}
use nm_dbus_proxy_rs.Paths.{ObjectPath, settings_path}
use nm_dbus_proxy_rs.Runtime.State.{CheckpointRecord}
use nm_dbus_proxy_rs.Runtime.Connections.{
  new, connection, max_settings_id, add_connection, next_connection_path,
}
use nm_dbus_proxy_rs.Runtime.Settings.{device_managed}
use nm_dbus_proxy_rs.Runtime.Checkpoints.{remaining, u32_max}
use nm_dbus_proxy_rs.Runtime.Fresh.{IsFresh, new-IsFresh, next_connection_path-IsFresh}
use nm_dbus_proxy_rs.Signals.{state_from_runtime, is_offline}
use nm_dbus_proxy_rs.Signals.State.{state_from_runtime-is_offline}
use nm_dbus_proxy_rs.Manager.Checkpoints.{extend_deadline}
use nm_dbus_proxy_rs.Manager.Deadlines.{remaining-deadline, moved, extend_deadline-remaining}
use nm_dbus_proxy_rs.Tests.Data.{wired, start, tunneled}

-- A checkpoint made at 5 seconds for one minute.
abbrev minute : CheckpointRecord Tagged
minute = record {
  created = pos 5000;
  devices = [];
  path = codes "/org/freedesktop/NetworkManager/Checkpoint/1";
  rollback_timeout = 60;
  rollback_deadline_millis = some (pos 65000);
  snapshot = record {
    active_connections = [];
    connections = [];
    device_managed = [];
    hostname = [];
    networking_enabled = true;
    persisted_files = [];
    sleeping = false;
  };
}

minute_counts :
    ((remaining minute (pos 64500) ≡ 0) ↔ (pos 65000 ≤ℤ pos 64500))
    × (((500 ≤ remaining minute (pos 64500) * 1000) ⊎ (remaining minute (pos 64500) ≡ u32_max))
        × (remaining minute (pos 64500) * 1000 < 500 + 1000)
        × (remaining minute (pos 64500) ≤ u32_max))
unfolding ◌-ℤ◌
minute_counts = remaining-deadline minute (pos 64500) (pos 65000) refl

minute_extends :
    let extended = extend_deadline (pos 64500) 30 minute in
    (remaining extended (pos 64500) ≡ extended.rollback_timeout)
    × (unwrap_or extended.rollback_deadline_millis (pos 64500) ≡ moved (pos 65000) (pos 64500) 30)
minute_extends = extend_deadline-remaining minute (pos 64500) 30 (omega arith) (omega arith)

start-IsFresh : IsFresh (new (wired ∷ []))
unfolding max_settings_id codes parse_usize after_last word_mod
start-IsFresh = new-IsFresh (wired ∷ []) (omega arith)

abbrev second : ConnectionRecord Tagged
second = record wired { path = settings_path 2 }

second_is_new :
    let added = add_connection second (next_connection_path start.runtime).1 in
    (connection second.path start.runtime ≡ none)
    × ((path : ObjectPath)
        → connection path added
          ≡ (if second.path == path then some second else connection path start.runtime))
    × IsFresh added
unfolding new max_settings_id codes parse_usize after_last word_mod inc64 next_connection_path
second_is_new = next_connection_path-IsFresh start.runtime second start-IsFresh (omega arith) refl

tunneled_is_connected :
    ((state_from_runtime tunneled.runtime ≡ 70) ↔ (is_offline tunneled.runtime ≡ false))
    × ((state_from_runtime tunneled.runtime ≡ 10) ↔ (tunneled.runtime.sleeping ≡ true))
tunneled_is_connected = state_from_runtime-is_offline tunneled.runtime
