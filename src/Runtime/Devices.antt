-- ===== src/Runtime/Devices.antt =====
-- runtime.rs: devices, access points, wireless devices, signal level agents and secret agents.
use nm_dbus_proxy_rs.Prelude.{List, [], ◌∷◌, ◌++◌, Option, none, some, any, find_if, keep_if, not}
use mathlib.Core.Option
use nm_dbus_proxy_rs.Text.{Str, ◌==◌}
use nm_dbus_proxy_rs.Map
use nm_dbus_proxy_rs.Table
use nm_dbus_proxy_rs.Paths.{ObjectPath}
use nm_dbus_proxy_rs.Connection.{unwrap_or}
use nm_dbus_proxy_rs.Runtime.State.{
  RuntimeState, DeviceRecord, AccessPointRecord, WirelessDeviceRecord, RegisteredAgent, device_key,
  access_point_key, wireless_key, agent_key,
}

abbrev interface_key : DeviceRecord → Str
interface_key r = r.interface_name

module _ {Value : Type 0} where
  unfoldable pub device : ObjectPath → RuntimeState Value → Option DeviceRecord
  device path s = Table.find device_key path s.devices

  unfoldable pub device_by_interface : Str → RuntimeState Value → Option DeviceRecord
  device_by_interface name s = Table.find interface_key name s.devices

  unfoldable pub device_paths : RuntimeState Value → List ObjectPath
  device_paths s = Table.keys device_key s.devices

  unfoldable pub upsert_device : DeviceRecord → RuntimeState Value → RuntimeState Value
  upsert_device r s = record s { devices = Table.upsert device_key r s.devices }

  unfoldable pub remove_device :
      ObjectPath → RuntimeState Value → Option DeviceRecord × RuntimeState Value
  unfolding device
  remove_device path s =
      (device path s, record s { devices = Table.remove device_key path s.devices })

  unfoldable pub access_point : ObjectPath → RuntimeState Value → Option AccessPointRecord
  access_point path s = Table.find access_point_key path s.access_points

  unfoldable pub access_point_paths : RuntimeState Value → List ObjectPath
  access_point_paths s = Table.keys access_point_key s.access_points

  unfoldable pub upsert_access_point : AccessPointRecord → RuntimeState Value → RuntimeState Value
  upsert_access_point r s = record s {
    access_points = Table.upsert access_point_key r s.access_points;
  }

  unfoldable pub remove_access_point :
      ObjectPath → RuntimeState Value → Option AccessPointRecord × RuntimeState Value
  unfolding access_point
  remove_access_point path s = (
    access_point path s,
    record s { access_points = Table.remove access_point_key path s.access_points },
  )

  unfoldable pub interface_for_access_point : ObjectPath → RuntimeState Value → Option Str
  interface_for_access_point path s =
      Option.map wireless_key
        (find_if (λ r. any (λ item. item == path) r.access_points) s.wireless_devices)

  unfoldable pub wireless_device : Str → RuntimeState Value → Option WirelessDeviceRecord
  wireless_device name s = Table.find wireless_key name s.wireless_devices

  unfoldable pub upsert_wireless_device :
      WirelessDeviceRecord → RuntimeState Value → RuntimeState Value
  upsert_wireless_device r s = record s {
    wireless_devices = Table.upsert wireless_key r s.wireless_devices;
  }

  unfoldable pub update_wireless_device :
      Str → (WirelessDeviceRecord → WirelessDeviceRecord) → RuntimeState Value → RuntimeState Value
  update_wireless_device name update s = record s {
    wireless_devices = Table.modify wireless_key name update s.wireless_devices;
  }

  -- The signal level agents of the interface go with its wireless device, and stay without one.
  unfoldable pub remove_wireless_device :
      Str → RuntimeState Value → Option WirelessDeviceRecord × RuntimeState Value
  unfolding wireless_device
  remove_wireless_device name s = elim (wireless_device name s) [
    | none ↦ (none, s)
    | some r ↦ (
      some r,
      record s {
        signal_level_agents = Map.remove name s.signal_level_agents;
        wireless_devices = Table.remove wireless_key name s.wireless_devices;
      },
    )
  ]

  -- `entry(name).or_default().push(agent)`.
  unfoldable pub add_signal_level_agent : Str → ObjectPath → RuntimeState Value → RuntimeState Value
  add_signal_level_agent name agent s = record s {
    signal_level_agents =
        Map.insert name (unwrap_or (Map.lookup name s.signal_level_agents) [] ++ agent ∷ [])
          s.signal_level_agents;
  }

  unfoldable pub remove_signal_level_agent :
      Str → ObjectPath → RuntimeState Value → RuntimeState Value
  remove_signal_level_agent name agent s = elim (Map.lookup name s.signal_level_agents) [
    | none ↦ s
    | some paths ↦ record s {
      signal_level_agents =
          Map.insert name (keep_if (λ path. not (path == agent)) paths) s.signal_level_agents;
    }
  ]

  unfoldable pub add_registered_agent : RegisteredAgent → RuntimeState Value → RuntimeState Value
  add_registered_agent r s = record s {
    registered_agents = Table.replace agent_key r s.registered_agents;
  }

  unfoldable pub registered_agent : Str → RuntimeState Value → Option RegisteredAgent
  registered_agent sender s = Table.find agent_key sender s.registered_agents

  unfoldable pub remove_registered_agent :
      Str → RuntimeState Value → Option RegisteredAgent × RuntimeState Value
  unfolding registered_agent
  remove_registered_agent sender s = (
    registered_agent sender s,
    record s { registered_agents = Table.remove agent_key sender s.registered_agents },
  )
