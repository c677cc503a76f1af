-- ===== src/Tests/Devices.antt =====
-- The theorems on devices and imports, at concrete states.
use nm_dbus_proxy_rs.Table.{keys, remove}
use nm_dbus_proxy_rs.Io.{map_err}
use nm_dbus_proxy_rs.Text.Hex.{is_alnum}
use nm_dbus_proxy_rs.Paths.{device_object_path, object_path_segment}
use nm_dbus_proxy_rs.Prelude.{any, find_if}
use nm_dbus_proxy_rs.Prelude.{is_empty}
use nm_dbus_proxy_rs.Persistence.Load.{load_connection_from_path}
use nm_dbus_proxy_rs.Io.{ok, ignore, request, ◌>>=◌}
use nm_dbus_proxy_rs.Table.{find}
use nm_dbus_proxy_rs.Prelude.{
  Bool, ◌++◌, if◌then◌else◌, ◌≡◌, refl, true, false, not, [], ◌∷◌, some, keep_if, arith,
}
use nm_dbus_proxy_rs.Text.{Str, codes, ◌==◌, ends_with, after_last}
use nm_dbus_proxy_rs.Text.Decimal.{parse_usize}
use nm_dbus_proxy_rs.Prelude.Int.{pos}
use nm_dbus_proxy_rs.Prelude.Word.{word_mod, inc64}
use nm_dbus_proxy_rs.Variant.{tagged}
use nm_dbus_proxy_rs.Paths.{root_path, active_connection_object_path}
use nm_dbus_proxy_rs.Connection.{interface_name}
use nm_dbus_proxy_rs.Runtime.Connections.{new}
use nm_dbus_proxy_rs.Runtime.Fresh.{IsFresh}
use nm_dbus_proxy_rs.Settings.Import.{import_file}
use nm_dbus_proxy_rs.Settings.Imported.{IsDone, import_file-IsDone}
use nm_dbus_proxy_rs.Device.{Device, disconnect_, set_managed}
use nm_dbus_proxy_rs.Device.Wireless.{
  DeviceWireless, register_signal_level_agent, unregister_signal_level_agent,
}
use nm_dbus_proxy_rs.Io.Ensures.{Returned}
use nm_dbus_proxy_rs.Device.Managed.{flagged, set_managed-device_managed}
use nm_dbus_proxy_rs.Device.Listening.{listeners, signal_level_agents-listeners}
use nm_dbus_proxy_rs.Runtime.Settings.{device_managed, set_device_managed}
use nm_dbus_proxy_rs.Device.Disconnected.{IsLeft, disconnect-IsLeft}
use nm_dbus_proxy_rs.Tests.Data.{host, start, tunneled, tunneled-IsConsistent}

abbrev eth0 : Device
eth0 = record {
  active_connection = root_path;
  autoconnect = true;
  available_connections = [];
  interface = codes "eth0";
  managed = true;
  state = 30;
  state_reason = (30, 0);
}

abbrev wlan0 : DeviceWireless
wlan0 = record {
  access_points = [];
  active_access_point = root_path;
  bitrate = 0;
  interface_name = codes "wlan0";
  last_scan = pos 0;
}

eth0-IsLeft : IsLeft (codes "eth0") tunneled.runtime (disconnect_ eth0 host tunneled).1.runtime
unfolding codes disconnect_ ◌>>=◌ find_if any ends_with device_object_path ◌==◌ object_path_segment
    is_alnum find active_connection_object_path map_err request ignore new is_empty keys remove
eth0-IsLeft = disconnect-IsLeft eth0 host tunneled tunneled-IsConsistent refl

pub begun-IsFresh : IsFresh start.runtime
unfolding IsFresh new codes parse_usize after_last word_mod inc64
begun-IsFresh = (omega arith, tt)

network-IsImported :
    let file = codes "/etc/systemd/network/a.network" in
    IsDone start.runtime file
      (load_connection_from_path file host start).0
      (import_file file host start).0
      (import_file file host start).1.runtime
unfolding new word_mod inc64 parse_usize after_last codes
network-IsImported =
    import_file-IsDone (codes "/etc/systemd/network/a.network") host start begun-IsFresh
      (omega arith)

eth0_is_managed :
    ((value : Bool) (name : Str)
      → device_managed name (set_managed eth0 value host tunneled).1.runtime
        ≡ (if codes "eth0" == name then some value else device_managed name tunneled.runtime))
    × ((set_managed eth0 true host tunneled).1.runtime
        ≡ set_device_managed (codes "eth0") true tunneled.runtime)
    × Returned
        (λ done. IsLeft (codes "eth0") (flagged eth0 false tunneled).runtime)
        (disconnect_ eth0 host (flagged eth0 false tunneled)).0
        (set_managed eth0 false host tunneled).1.runtime
eth0_is_managed = set_managed-device_managed eth0 host tunneled tunneled-IsConsistent

wlan0_has_listener :
    let (on, registered) = register_signal_level_agent wlan0 (codes "/a") host start in
    let (off, unregistered) = unregister_signal_level_agent wlan0 (codes "/a") host start in
    (on ≡ ok tt)
    × (off ≡ ok tt)
    × ((other : Str)
        → (listeners other registered.runtime ≡ (
            if codes "wlan0" == other
            then listeners (codes "wlan0") start.runtime ++ codes "/a" ∷ []
            else listeners other start.runtime))
          × (listeners other unregistered.runtime ≡ (
              if codes "wlan0" == other
              then keep_if
                  (λ path. not (path == codes "/a"))
                  (listeners (codes "wlan0") start.runtime)
              else listeners other start.runtime)))
wlan0_has_listener = signal_level_agents-listeners wlan0 (codes "/a") host start
