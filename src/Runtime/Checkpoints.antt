-- ===== src/Runtime/Checkpoints.antt =====
-- runtime.rs: checkpoints, their snapshots and their deadlines.
use nm_dbus_proxy_rs.Prelude.{
  ℕ, ◌+◌, ◌-◌, ◌/◌, ◌^◌, Bool, false, List, [], ◌∷◌, ◌++◌, map, Option, none, some, any, keep_if,
  ltb, if◌then◌else◌,
}
use nm_dbus_proxy_rs.Prelude.Word.{inc64}
use nm_dbus_proxy_rs.Prelude.Int.{ℤ, ltb_ℤ, ◌-ℤ◌, pos_part}
use nm_dbus_proxy_rs.Text.{Str, ◌==◌}
use nm_dbus_proxy_rs.Map
use nm_dbus_proxy_rs.Table
use nm_dbus_proxy_rs.Variant.{Variant}
use nm_dbus_proxy_rs.Paths.{ObjectPath, checkpoint_path, last_segment}
use nm_dbus_proxy_rs.Connection.{interface_name}
use nm_dbus_proxy_rs.Runtime.State.{
  RuntimeState, ActiveConnectionRecord, CheckpointRecord, CheckpointSnapshot, checkpoint_key,
}

-- `interfaces.iter().any(|item| item == interface)`.
unfoldable pub mentions : List Str → Str → Bool
mentions interfaces name = any (λ item. item == name) interfaces

-- The interfaces of a list of device paths: their last segments.
unfoldable pub path_interfaces : List ObjectPath → List Str
path_interfaces devices = map last_segment devices

-- An active connection that runs on one of the interfaces.
unfoldable pub is_active_on : List Str → ActiveConnectionRecord → Bool
unfolding path_interfaces mentions
is_active_on interfaces r = any (mentions interfaces) (path_interfaces r.value.devices)

unfoldable pub is_some_in : List Str → Option Str → Bool
unfolding mentions
is_some_in interfaces none = false
is_some_in interfaces (some name) = mentions interfaces name

module _ {Value : Type 0} where
  unfoldable pub checkpoint_snapshot :
      ⦃V : Variant Value⦄ → List ObjectPath → RuntimeState Value → CheckpointSnapshot Value
  unfolding path_interfaces is_active_on is_some_in mentions
  checkpoint_snapshot devices s =
      let interfaces : List Str = path_interfaces devices in
      record {
        active_connections = keep_if (is_active_on interfaces) s.active_connections;
        connections = keep_if (λ c. is_some_in interfaces (interface_name c)) s.connections;
        device_managed = Map.keep_keys (mentions interfaces) s.device_managed;
        hostname = s.hostname;
        networking_enabled = s.networking_enabled;
        persisted_files = [];
        sleeping = s.sleeping;
      }

  unfoldable pub restore_checkpoint_snapshot :
      CheckpointSnapshot Value → RuntimeState Value → RuntimeState Value
  restore_checkpoint_snapshot snapshot s = record s {
    connections = snapshot.connections;
    active_connections = snapshot.active_connections;
    device_managed = snapshot.device_managed;
    hostname = snapshot.hostname;
    networking_enabled = snapshot.networking_enabled;
    sleeping = snapshot.sleeping;
    version_id = inc64 s.version_id;
  }

  unfoldable pub checkpoint : ObjectPath → RuntimeState Value → Option (CheckpointRecord Value)
  checkpoint path s = Table.find checkpoint_key path s.checkpoints

  unfoldable pub checkpoint_paths : RuntimeState Value → List ObjectPath
  checkpoint_paths s = Table.keys checkpoint_key s.checkpoints

  unfoldable pub next_checkpoint_path : RuntimeState Value → ObjectPath × RuntimeState Value
  next_checkpoint_path s = (
    checkpoint_path s.next_checkpoint_id,
    record s { next_checkpoint_id = inc64 s.next_checkpoint_id },
  )

  unfoldable pub add_checkpoint : CheckpointRecord Value → RuntimeState Value → RuntimeState Value
  add_checkpoint r s = record s { checkpoints = s.checkpoints ++ r ∷ [] }

  unfoldable pub remove_checkpoint :
      ObjectPath → RuntimeState Value → Option (CheckpointRecord Value) × RuntimeState Value
  unfolding checkpoint
  remove_checkpoint path s =
      (checkpoint path s, record s { checkpoints = Table.remove checkpoint_key path s.checkpoints })

  unfoldable pub update_checkpoint :
      ObjectPath
      → (CheckpointRecord Value → CheckpointRecord Value)
      → RuntimeState Value
      → Option (Unit {0}) × RuntimeState Value
  unfolding checkpoint
  update_checkpoint path update s = elim (checkpoint path s) [
    | none ↦ (none, s)
    | some r ↦
        (some tt, record s { checkpoints = Table.modify checkpoint_key path update s.checkpoints })
  ]

abbrev pub u32_max : ℕ
u32_max = 2 ^ 32 - 1

-- `((later - now + 999) / 1000).try_into().unwrap_or(u32::MAX)` where `now` is before `later`. The
-- clock is never negative, so that only the sum with 999 can leave `i64`, for a deadline within a
-- second of its end: an optimised build wraps it there, and a negative value becomes `u32::MAX`,
-- which is what stands here for every great number.
unfoldable pub seconds_between : ℤ → ℤ → ℕ
unfolding ◌-ℤ◌
seconds_between now later =
    let seconds = (pos_part (later -ℤ now) + 999) / 1000 in
    if ltb u32_max seconds then u32_max else seconds

-- The seconds that a checkpoint has left at `now`.
unfoldable pub remaining : {Value : Type 0} → CheckpointRecord Value → ℤ → ℕ
unfolding seconds_between
remaining r now = elim r.rollback_deadline_millis [
  | none ↦ r.rollback_timeout
  | some deadline ↦ if ltb_ℤ now deadline then seconds_between now deadline else 0
]

unfoldable pub checkpoint_rollback_timeout :
    {Value : Type 0} → ObjectPath → ℤ → RuntimeState Value → Option ℕ
unfolding checkpoint remaining
checkpoint_rollback_timeout path now s = elim (checkpoint path s) [
  | none ↦ none
  | some r ↦ some (remaining r now)
]
