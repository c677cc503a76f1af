-- ===== src/Runtime/State.antt =====
-- The records of runtime.rs.
use nm_dbus_proxy_rs.Prelude.{ℕ, Bool, List, Option}
use nm_dbus_proxy_rs.Prelude.Int.{ℤ}
use nm_dbus_proxy_rs.Text.{Str}
use nm_dbus_proxy_rs.Map.{Map}
use nm_dbus_proxy_rs.Paths.{ObjectPath}
use nm_dbus_proxy_rs.Enums.{Kind, LinkType, Nm80211Mode, NmActiveConnectionState}
use nm_dbus_proxy_rs.Connection.{ConnectionRecord}

-- network_manager/active_connection.rs
pub record ActiveConnection : Type 0 where
  pub connection : ObjectPath
  pub controller : ObjectPath
  pub default : Bool
  pub default6 : Bool
  pub devices : List ObjectPath
  pub dhcp4_config : ObjectPath
  pub dhcp6_config : ObjectPath
  pub id : Str
  pub ip4_config : ObjectPath
  pub ip6_config : ObjectPath
  pub specific_object : ObjectPath
  pub state : NmActiveConnectionState
  pub state_flags : ℕ
  pub type_ : Str
  pub uuid : Str
  pub vpn : Bool

pub record ActiveConnectionRecord : Type 0 where
  pub path : ObjectPath
  pub value : ActiveConnection

pub record RegisteredAgent : Type 0 where
  pub capabilities : ℕ
  pub identifier : Str
  pub sender : Str

pub record CheckpointSnapshot (Value : Type 0) : Type 0 where
  pub active_connections : List ActiveConnectionRecord
  pub connections : List (ConnectionRecord Value)
  pub device_managed : Map Bool
  pub hostname : Str
  pub networking_enabled : Bool
  pub persisted_files : List (Str × List ℕ)
  pub sleeping : Bool

pub record CheckpointRecord (Value : Type 0) : Type 0 where
  pub created : ℤ
  pub devices : List ObjectPath
  pub path : ObjectPath
  pub rollback_timeout : ℕ
  pub rollback_deadline_millis : Option ℤ
  pub snapshot : CheckpointSnapshot Value

pub record AccessPointRecord : Type 0 where
  pub bandwidth : ℕ
  pub flags : ℕ
  pub frequency : ℕ
  pub hw_address : Str
  pub last_seen : ℤ
  pub max_bitrate : ℕ
  pub mode : Nm80211Mode
  pub path : ObjectPath
  pub rsn_flags : ℕ
  pub ssid : Str
  pub strength : ℕ
  pub wpa_flags : ℕ

pub record WirelessDeviceRecord : Type 0 where
  pub access_points : List ObjectPath
  pub active_access_point : ObjectPath
  pub bitrate : ℕ
  pub interface_name : Str
  pub last_scan : ℤ

pub record DeviceRecord : Type 0 where
  pub dhcp4_config : ObjectPath
  pub dhcp6_config : ObjectPath
  pub interface_name : Str
  pub is_ppp : Bool
  pub ip4_config : ObjectPath
  pub ip6_config : ObjectPath
  pub kind : Kind
  pub path : ObjectPath
  pub p2p_peers : List ObjectPath
  pub type_ : LinkType
  pub wifi_p2p : Bool

pub record RuntimeState (Value : Type 0) : Type 0 where
  pub active_connections : List ActiveConnectionRecord
  pub access_points : List AccessPointRecord
  pub checkpoints : List (CheckpointRecord Value)
  pub connectivity_check_enabled : Bool
  pub connections : List (ConnectionRecord Value)
  pub devices : List DeviceRecord
  pub device_managed : Map Bool
  pub global_dns_configuration : Map Value
  pub hostname : Str
  pub logging_domains : Str
  pub logging_level : Str
  pub networking_enabled : Bool
  pub next_checkpoint_id : ℕ
  pub next_settings_id : ℕ
  pub registered_agents : List RegisteredAgent
  pub signal_level_agents : Map (List ObjectPath)
  pub sleeping : Bool
  pub version_id : ℕ
  pub wimax_enabled : Bool
  pub wireless_enabled : Bool
  pub wireless_devices : List WirelessDeviceRecord
  pub wwan_enabled : Bool

-- The keys by which the vectors are searched.
abbrev pub active_key : ActiveConnectionRecord → ObjectPath
active_key r = r.path

abbrev pub agent_key : RegisteredAgent → Str
agent_key r = r.sender

abbrev pub access_point_key : AccessPointRecord → ObjectPath
access_point_key r = r.path

abbrev pub wireless_key : WirelessDeviceRecord → Str
wireless_key r = r.interface_name

abbrev pub device_key : DeviceRecord → ObjectPath
device_key r = r.path

module _ {Value : Type 0} where
  abbrev pub connection_key : ConnectionRecord Value → ObjectPath
  connection_key r = r.path

  abbrev pub uuid_key : ConnectionRecord Value → Str
  uuid_key r = r.uuid

  abbrev pub checkpoint_key : CheckpointRecord Value → ObjectPath
  checkpoint_key r = r.path
