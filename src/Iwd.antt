-- ===== src/Iwd.antt =====
-- iwd.rs: what iwd reports, and the look-ups in it. The D-Bus requests themselves are calls of `Io`.
use nm_dbus_proxy_rs.Prelude.{Bool, List, Option}
use nm_dbus_proxy_rs.Prelude.Int.{ℤ}
use nm_dbus_proxy_rs.Text.{Str}
use nm_dbus_proxy_rs.Table
use nm_dbus_proxy_rs.Paths.{ObjectPath}

pub record BasicServiceSet : Type 0 where
  pub path : ObjectPath
  pub address : Str

pub record Device : Type 0 where
  pub path : ObjectPath
  pub name : Str
  pub address : Str
  pub powered : Bool
  pub adapter : ObjectPath
  pub mode : Str

pub record KnownNetwork : Type 0 where
  pub path : ObjectPath
  pub name : Str
  pub kind : Str
  pub hidden : Bool
  pub auto_connect : Bool
  pub last_connected_time : Str

pub record Network : Type 0 where
  pub path : ObjectPath
  pub name : Str
  pub connected : Bool
  pub device : ObjectPath
  pub kind : Str
  pub known_network : ObjectPath
  pub extended_service_set : List ObjectPath

pub record OrderedNetwork : Type 0 where
  pub path : ObjectPath
  pub signal : ℤ

pub record Station : Type 0 where
  pub path : ObjectPath
  pub scanning : Bool
  pub state : Str
  pub connected_network : Option ObjectPath
  pub ordered_networks : List OrderedNetwork

pub record State : Type 0 where
  pub basic_service_sets : List BasicServiceSet
  pub devices : List Device
  pub known_networks : List KnownNetwork
  pub networks : List Network
  pub stations : List Station

unfoldable pub basic_service_set_by_path : State → ObjectPath → Option BasicServiceSet
basic_service_set_by_path s path =
    Table.find (λ (b : BasicServiceSet). b.path) path s.basic_service_sets

unfoldable pub device_by_name : State → Str → Option Device
device_by_name s name = Table.find (λ (d : Device). d.name) name s.devices

unfoldable pub known_network_by_path : State → ObjectPath → Option KnownNetwork
known_network_by_path s path = Table.find (λ (n : KnownNetwork). n.path) path s.known_networks

unfoldable pub network_by_path : State → ObjectPath → Option Network
network_by_path s path = Table.find (λ (n : Network). n.path) path s.networks

unfoldable pub station_by_device_path : State → ObjectPath → Option Station
station_by_device_path s path = Table.find (λ (t : Station). t.path) path s.stations
