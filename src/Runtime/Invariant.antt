-- ===== src/Runtime/Invariant.antt =====
-- The invariant of the runtime's vectors, and the operations of runtime.rs that keep it.
use nm_dbus_proxy_rs.Prelude.{◌≡◌, List, [], ◌∷◌, ◌++◌, some, arith, All}
use nm_dbus_proxy_rs.Text.{Str}
use nm_dbus_proxy_rs.Table
use nm_dbus_proxy_rs.Table.{Distinct}
use nm_dbus_proxy_rs.Table.Distinct.{
  Distinct-replace, Distinct-upsert, Distinct-remove, Distinct-keep_if, Distinct-modify,
}
use nm_dbus_proxy_rs.Variant.{Variant}
use nm_dbus_proxy_rs.Paths.{ObjectPath}
use nm_dbus_proxy_rs.Connection.{ConnectionRecord}
use nm_dbus_proxy_rs.Runtime.State.{
  RuntimeState, ActiveConnectionRecord, CheckpointRecord, CheckpointSnapshot, DeviceRecord,
  AccessPointRecord, WirelessDeviceRecord, RegisteredAgent, active_key, agent_key, access_point_key,
  wireless_key, device_key, checkpoint_key,
}
use nm_dbus_proxy_rs.Runtime.Connections.{remove_connection, update_connection}
use nm_dbus_proxy_rs.Runtime.Active.{add_active_connection, remove_active_connection}
use nm_dbus_proxy_rs.Runtime.Devices.{
  upsert_device, remove_device, upsert_access_point, remove_access_point, upsert_wireless_device,
  update_wireless_device, remove_wireless_device, add_registered_agent, remove_registered_agent,
}
use nm_dbus_proxy_rs.Runtime.Checkpoints.{
  checkpoint, checkpoint_snapshot, restore_checkpoint_snapshot, add_checkpoint, remove_checkpoint,
  update_checkpoint,
}

-- A snapshot that can be restored: no two of its active connections share a path.
unfoldable pub IsRestorable : {Value : Type 0} → CheckpointRecord Value → Type 0
IsRestorable r = Distinct active_key r.snapshot.active_connections

-- Active connections, devices, access points, wireless devices and agents are told apart by their
-- keys, and so they are in every snapshot to which the runtime may go back.
unfoldable pub IsConsistent : {Value : Type 0} → RuntimeState Value → Type 0
IsConsistent s =
    Distinct active_key s.active_connections
    × (Distinct device_key s.devices
        × (Distinct access_point_key s.access_points
            × (Distinct wireless_key s.wireless_devices
                × (Distinct agent_key s.registered_agents × All IsRestorable s.checkpoints))))

module _ {Value : Type 0} where
  pub add_active_connection-IsConsistent :
      (r : ActiveConnectionRecord) (s : RuntimeState Value)
      → IsConsistent s
      → IsConsistent (add_active_connection r s)
  unfolding IsConsistent add_active_connection
  add_active_connection-IsConsistent r s h =
      (Distinct-replace active_key r s.active_connections h.0, h.1)

  pub remove_active_connection-IsConsistent :
      (path : ObjectPath) (s : RuntimeState Value)
      → IsConsistent s
      → IsConsistent (remove_active_connection path s).1
  unfolding IsConsistent remove_active_connection
  remove_active_connection-IsConsistent path s h =
      (Distinct-remove active_key path s.active_connections h.0, h.1)

  pub upsert_device-IsConsistent :
      (r : DeviceRecord) (s : RuntimeState Value)
      → IsConsistent s
      → IsConsistent (upsert_device r s)
  unfolding IsConsistent upsert_device
  upsert_device-IsConsistent r s h = (h.0, (Distinct-upsert device_key r s.devices h.1.0, h.1.1))

  pub remove_device-IsConsistent :
      (path : ObjectPath) (s : RuntimeState Value)
      → IsConsistent s
      → IsConsistent (remove_device path s).1
  unfolding IsConsistent remove_device
  remove_device-IsConsistent path s h =
      (h.0, (Distinct-remove device_key path s.devices h.1.0, h.1.1))

  pub upsert_access_point-IsConsistent :
      (r : AccessPointRecord) (s : RuntimeState Value)
      → IsConsistent s
      → IsConsistent (upsert_access_point r s)
  unfolding IsConsistent upsert_access_point
  upsert_access_point-IsConsistent r s h =
      (h.0, (h.1.0, (Distinct-upsert access_point_key r s.access_points h.1.1.0, h.1.1.1)))

  pub remove_access_point-IsConsistent :
      (path : ObjectPath) (s : RuntimeState Value)
      → IsConsistent s
      → IsConsistent (remove_access_point path s).1
  unfolding IsConsistent remove_access_point
  remove_access_point-IsConsistent path s h =
      (h.0, (h.1.0, (Distinct-remove access_point_key path s.access_points h.1.1.0, h.1.1.1)))

  pub upsert_wireless_device-IsConsistent :
      (r : WirelessDeviceRecord) (s : RuntimeState Value)
      → IsConsistent s
      → IsConsistent (upsert_wireless_device r s)
  unfolding IsConsistent upsert_wireless_device
  upsert_wireless_device-IsConsistent r s h = (
    h.0,
    (h.1.0, (h.1.1.0, (Distinct-upsert wireless_key r s.wireless_devices h.1.1.1.0, h.1.1.1.1))),
  )

  pub update_wireless_device-IsConsistent :
      (name : Str) (f : WirelessDeviceRecord → WirelessDeviceRecord) (s : RuntimeState Value)
      → ((r : WirelessDeviceRecord) → wireless_key (f r) ≡ wireless_key r)
      → IsConsistent s
      → IsConsistent (update_wireless_device name f s)
  unfolding IsConsistent update_wireless_device
  update_wireless_device-IsConsistent name f s k h = (
    h.0,
    (
      h.1.0,
      (h.1.1.0, (Distinct-modify wireless_key name f s.wireless_devices k h.1.1.1.0, h.1.1.1.1)),
    ),
  )

  pub remove_wireless_device-IsConsistent :
      (name : Str) (s : RuntimeState Value)
      → IsConsistent s
      → IsConsistent (remove_wireless_device name s).1
  unfolding IsConsistent remove_wireless_device
  remove_wireless_device-IsConsistent name s h =
      ground (arith, Distinct-remove wireless_key name s.wireless_devices)

  pub add_registered_agent-IsConsistent :
      (r : RegisteredAgent) (s : RuntimeState Value)
      → IsConsistent s
      → IsConsistent (add_registered_agent r s)
  unfolding IsConsistent add_registered_agent
  add_registered_agent-IsConsistent r s h = (
    h.0,
    (
      h.1.0,
      (
        h.1.1.0,
        (h.1.1.1.0, (Distinct-replace agent_key r s.registered_agents h.1.1.1.1.0, h.1.1.1.1.1)),
      ),
    ),
  )

  pub remove_registered_agent-IsConsistent :
      (sender : Str) (s : RuntimeState Value)
      → IsConsistent s
      → IsConsistent (remove_registered_agent sender s).1
  unfolding IsConsistent remove_registered_agent
  remove_registered_agent-IsConsistent sender s h = (
    h.0,
    (
      h.1.0,
      (
        h.1.1.0,
        (
          h.1.1.1.0,
          (Distinct-remove agent_key sender s.registered_agents h.1.1.1.1.0, h.1.1.1.1.1),
        ),
      ),
    ),
  )

  pub remove_connection-IsConsistent :
      (path : ObjectPath) (s : RuntimeState Value)
      → IsConsistent s
      → IsConsistent (remove_connection path s).1
  unfolding IsConsistent remove_connection
  remove_connection-IsConsistent path s h = ground arith

  pub update_connection-IsConsistent :
      (path : ObjectPath) (f : ConnectionRecord Value → ConnectionRecord Value)
      (s : RuntimeState Value)
      → IsConsistent s
      → IsConsistent (update_connection path f s).1
  unfolding IsConsistent update_connection
  update_connection-IsConsistent path f s h = ground arith

  snapshots-remove :
      (path : ObjectPath) (l : List (CheckpointRecord Value))
      → All IsRestorable l
      → All IsRestorable (Table.remove checkpoint_key path l)
  unfolding Table.remove
  snapshots-remove path [] h = tt
  snapshots-remove path (r ∷ l) h = ground (arith, snapshots-remove path l h.1)

  snapshots-modify :
      (path : ObjectPath) (f : CheckpointRecord Value → CheckpointRecord Value)
      (l : List (CheckpointRecord Value))
      → ((r : CheckpointRecord Value) → (f r).snapshot ≡ r.snapshot)
      → All IsRestorable l
      → All IsRestorable (Table.modify checkpoint_key path f l)
  unfolding Table.modify IsRestorable
  snapshots-modify path f [] k h = tt
  snapshots-modify path f (r ∷ l) k h = ground (arith, snapshots-modify path f l k h.1, k r)

  snapshots-append :
      (l : List (CheckpointRecord Value)) (r : CheckpointRecord Value)
      → All IsRestorable l
      → IsRestorable r
      → All IsRestorable (l ++ r ∷ [])
  snapshots-append [] r h k = (k, tt)
  snapshots-append (a ∷ l) r h k = (h.0, snapshots-append l r h.1 k)

  snapshots-find :
      (path : ObjectPath) (l : List (CheckpointRecord Value)) (r : CheckpointRecord Value)
      → All IsRestorable l
      → Table.find checkpoint_key path l ≡ some r
      → IsRestorable r
  unfolding Table.find
  snapshots-find path [] r h e = cc
  snapshots-find path (a ∷ l) r h e = ground (arith, snapshots-find path l r h.1)

  pub remove_checkpoint-IsConsistent :
      (path : ObjectPath) (s : RuntimeState Value)
      → IsConsistent s
      → IsConsistent (remove_checkpoint path s).1
  unfolding IsConsistent remove_checkpoint
  remove_checkpoint-IsConsistent path s h = (
    h.0,
    (h.1.0, (h.1.1.0, (h.1.1.1.0, (h.1.1.1.1.0, snapshots-remove path s.checkpoints h.1.1.1.1.1)))),
  )

  pub update_checkpoint-IsConsistent :
      (path : ObjectPath) (f : CheckpointRecord Value → CheckpointRecord Value)
      (s : RuntimeState Value)
      → ((r : CheckpointRecord Value) → (f r).snapshot ≡ r.snapshot)
      → IsConsistent s
      → IsConsistent (update_checkpoint path f s).1
  unfolding IsConsistent update_checkpoint
  update_checkpoint-IsConsistent path f s k h =
      ground (arith, snapshots-modify path f s.checkpoints k)

  pub add_checkpoint-IsConsistent :
      (r : CheckpointRecord Value) (s : RuntimeState Value)
      → IsRestorable r
      → IsConsistent s
      → IsConsistent (add_checkpoint r s)
  unfolding IsConsistent add_checkpoint
  add_checkpoint-IsConsistent r s k h = (
    h.0,
    (h.1.0, (h.1.1.0, (h.1.1.1.0, (h.1.1.1.1.0, snapshots-append s.checkpoints r h.1.1.1.1.1 k)))),
  )

  pub restore-IsConsistent :
      (snapshot : CheckpointSnapshot Value) (s : RuntimeState Value)
      → Distinct active_key snapshot.active_connections
      → IsConsistent s
      → IsConsistent (restore_checkpoint_snapshot snapshot s)
  unfolding IsConsistent restore_checkpoint_snapshot
  restore-IsConsistent snapshot s k h = (k, h.1)

  pub checkpoint-IsRestorable :
      (path : ObjectPath) (s : RuntimeState Value) (r : CheckpointRecord Value)
      → IsConsistent s
      → checkpoint path s ≡ some r
      → IsRestorable r
  unfolding IsConsistent checkpoint
  checkpoint-IsRestorable path s r h e = snapshots-find path s.checkpoints r h.1.1.1.1.1 e

  pub checkpoint_snapshot-Distinct :
      ⦃V : Variant Value⦄ (devices : List ObjectPath) (s : RuntimeState Value)
      → IsConsistent s
      → Distinct active_key (checkpoint_snapshot devices s).active_connections
  unfolding IsConsistent checkpoint_snapshot
  checkpoint_snapshot-Distinct devices s h = Distinct-keep_if active_key _ s.active_connections h.0
