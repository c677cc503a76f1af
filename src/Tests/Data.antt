-- ===== src/Tests/Data.antt =====
-- The concrete host, connections and states of the examples.
use nm_dbus_proxy_rs.Prelude.{refl, true, false, [], ◌∷◌, none}
use nm_dbus_proxy_rs.Prelude.Int.{pos}
use nm_dbus_proxy_rs.Text.{Str, codes, ◌==◌}
use nm_dbus_proxy_rs.Text.Hex.{is_alnum}
use nm_dbus_proxy_rs.Table.{find}
use nm_dbus_proxy_rs.Variant.{Tagged, string, tagged}
use nm_dbus_proxy_rs.Enums.{NmActiveConnectionState}
use nm_dbus_proxy_rs.Paths.{
  ObjectPath, root_path, active_connection_object_path, device_object_path, object_path_segment,
}
use nm_dbus_proxy_rs.Connection.{ConnectionRecord, ConnectionSettings, user, ethernet_type}
use nm_dbus_proxy_rs.Runtime.State.{ActiveConnectionRecord}
use nm_dbus_proxy_rs.Runtime.Connections.{new}
use nm_dbus_proxy_rs.Runtime.Invariant.{IsConsistent}
use nm_dbus_proxy_rs.Io.{Host, World, ok}

-- Every call succeeds; there are no files, no iwd devices, and the clock stands at 5 seconds.
abbrev pub host : Host Tagged
host = record {
  outcome = λ calls c. none;
  exists = λ calls path. false;
  boottime_millis = λ calls. pos 5000;
  unix_millis = λ calls. pos 7000;
  connection_files = λ calls. ok [];
  file_bytes = λ calls path. ok [];
  iwd_state = λ calls. ok (record {
    basic_service_sets = [];
    devices = [];
    known_networks = [];
    networks = [];
    stations = [];
  });
  connectivity_probe = λ calls uri. true;
  connectivity_check_uri = [];
  iwd_state_dir = codes "/var/lib/iwd";
  networkd_config_dir = codes "/etc/systemd/network";
  network_dir = codes "/etc/systemd/network";
  default_wifi_iface = none;
}

abbrev pub wired_settings : ConnectionSettings Tagged
wired_settings =
    (
      codes "connection",
      (codes "uuid", string (codes "u1"))
          ∷ (codes "type", string (codes "802-3-ethernet"))
          ∷ (codes "interface-name", string (codes "eth0"))
          ∷ [],
    )
    ∷ []

abbrev pub wired_path : ObjectPath
wired_path = codes "/org/freedesktop/NetworkManager/Settings/1"

abbrev pub wired : ConnectionRecord Tagged
wired = record {
  connection_type = ethernet_type;
  filename = [];
  flags = 0;
  origin = user;
  path = wired_path;
  settings = wired_settings;
  unsaved = true;
  uuid = codes "u1";
}

-- A start with one wired connection.
abbrev pub start : World Tagged
start = record { runtime = new (wired ∷ []); calls = [] }

pub start-IsConsistent : IsConsistent start.runtime
unfolding IsConsistent new
start-IsConsistent = (tt, (tt, (tt, (tt, (tt, tt)))))

-- The same with networking off.
abbrev pub off : World Tagged
off = record start { runtime = record start.runtime { networking_enabled = false } }

-- A tunnel that is active beside a wired connection.
abbrev active : Str → Str → ActiveConnectionRecord
active name type_ = record {
  path = active_connection_object_path name;
  value = record {
    connection = wired_path;
    controller = root_path;
    default = true;
    default6 = true;
    devices = device_object_path name ∷ [];
    dhcp4_config = root_path;
    dhcp6_config = root_path;
    id = name;
    ip4_config = root_path;
    ip6_config = root_path;
    specific_object = root_path;
    state = NmActiveConnectionState.activated;
    state_flags = 12;
    type_ = type_;
    uuid = codes "u1";
    vpn = false;
  };
}

abbrev pub tunnel : ActiveConnectionRecord
tunnel = active (codes "tun0") (codes "tun")

abbrev pub tunneled : World Tagged
tunneled = record start {
  runtime = record start.runtime {
    active_connections = active (codes "eth0") ethernet_type ∷ tunnel ∷ [];
  };
}

pub tunneled-IsConsistent : IsConsistent tunneled.runtime
unfolding IsConsistent new find codes ◌==◌ active_connection_object_path object_path_segment
    is_alnum
tunneled-IsConsistent = ((refl, (refl, tt)), (tt, (tt, (tt, (tt, tt)))))
