-- ===== src/Device/Wireless.antt =====
-- network_manager/device/wireless.rs: the wireless side of a device.
use mathlib.Core.Option
use nm_dbus_proxy_rs.Prelude.{ℕ, List, [], ◌∷◌, Option, none, some, if◌then◌else◌}
use nm_dbus_proxy_rs.Prelude.Int.{ℤ}
use nm_dbus_proxy_rs.Text.{Str, codes}
use nm_dbus_proxy_rs.Variant.{Variant}
use nm_dbus_proxy_rs.Paths.{ObjectPath}
use nm_dbus_proxy_rs.Connection.{ConnectionRecord, is_hidden, ssid, unwrap_or}
use nm_dbus_proxy_rs.Runtime.State.{RuntimeState, WirelessDeviceRecord}
use nm_dbus_proxy_rs.Runtime.Connections.{connection, connections_for_interface}
use nm_dbus_proxy_rs.Runtime.Devices.{
  wireless_device, update_wireless_device, add_signal_level_agent, remove_signal_level_agent,
}
use nm_dbus_proxy_rs.Io.{
  Io, Error, failed, ask_clock, station_scan, query, change, ok_or, request, map_err, ◌>>=◌, ◌>>◌,
}
use nm_dbus_proxy_rs.Manager.Links.{request_iwd, station_path_of}

-- The fields of `DeviceWireless` that its methods read.
pub record DeviceWireless : Type 0 where
  pub access_points : List ObjectPath
  pub active_access_point : ObjectPath
  pub bitrate : ℕ
  pub interface_name : Str
  pub last_scan : ℤ

module _ {Value : Type 0} where
  -- What the runtime has of the interface, and the object's own field otherwise.
  abbrev of_runtime : {A : Type 0} → (WirelessDeviceRecord → A) → A → Str → RuntimeState Value → A
  of_runtime field own name s = unwrap_or (Option.map field (wireless_device name s)) own

  -- `GetAccessPoints`, `GetAllAccessPoints` and the property `AccessPoints`.
  unfoldable pub get_access_points : DeviceWireless → RuntimeState Value → List ObjectPath
  unfolding wireless_device
  get_access_points d s = of_runtime (λ r. r.access_points) d.access_points d.interface_name s

  unfoldable pub active_access_point : DeviceWireless → RuntimeState Value → ObjectPath
  unfolding wireless_device
  active_access_point d s =
      of_runtime (λ r. r.active_access_point) d.active_access_point d.interface_name s

  unfoldable pub bitrate : DeviceWireless → RuntimeState Value → ℕ
  unfolding wireless_device
  bitrate d s = of_runtime (λ r. r.bitrate) d.bitrate d.interface_name s

  unfoldable pub last_scan : DeviceWireless → RuntimeState Value → ℤ
  unfolding wireless_device
  last_scan d s = of_runtime (λ r. r.last_scan) d.last_scan d.interface_name s

  unfoldable pub register_signal_level_agent :
      DeviceWireless → ObjectPath → Io Value Error (Unit {0})
  unfolding add_signal_level_agent
  register_signal_level_agent d agent = change (add_signal_level_agent d.interface_name agent)

  unfoldable pub unregister_signal_level_agent :
      DeviceWireless → ObjectPath → Io Value Error (Unit {0})
  unfolding remove_signal_level_agent
  unregister_signal_level_agent d agent = change (remove_signal_level_agent d.interface_name agent)

  -- The signal of `LastScan` is made and not awaited, so none goes out.
  unfoldable pub request_scan : DeviceWireless → Io Value Error (Unit {0})
  unfolding request_iwd station_path_of update_wireless_device
  request_scan d = do
    state ← map_err failed request_iwd
    station ← ok_or (station_path_of state d.interface_name) (failed (codes "unknown iwd station"))
    request failed (station_scan station)
    now ← query ask_clock (λ h calls. h.unix_millis calls)
    change (update_wireless_device d.interface_name (λ r. record r { last_scan = now }))

abbrev hidden_entry : Option Str → List (Str × (ℕ × Str)) → List (Str × (ℕ × Str))
hidden_entry none rest = rest
hidden_entry (some name) rest = (name, (0, codes "infrastructure")) ∷ rest

module _ {Value : Type 0} ⦃V : Variant Value⦄ where
  abbrev hidden_of :
      Option (ConnectionRecord Value) → List (Str × (ℕ × Str)) → List (Str × (ℕ × Str))
  hidden_of none rest = rest
  hidden_of (some c) rest = if is_hidden c then hidden_entry (ssid c) rest else rest

  -- The chain of `filter_map` and `filter`.
  unfoldable pub hidden_entries : List ObjectPath → RuntimeState Value → List (Str × (ℕ × Str))
  unfolding connection
  hidden_entries [] s = []
  hidden_entries (path ∷ paths) s = hidden_of (connection path s) (hidden_entries paths s)

  unfoldable pub get_hidden_access_points :
      DeviceWireless → RuntimeState Value → List (Str × (ℕ × Str))
  unfolding connections_for_interface hidden_entries
  get_hidden_access_points d s = hidden_entries (connections_for_interface d.interface_name s) s
