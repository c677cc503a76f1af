-- ===== src/Links/Objects.antt =====
-- network_manager/device/specialized.rs: the objects that a device path serves beside the device
-- itself, with their fields, and the D-Bus interface of each.
use nm_dbus_proxy_rs.Prelude.{ℕ, Bool, List, eqb}
use nm_dbus_proxy_rs.Text.{Str, codes}

pub record DeviceCarrierSlaves : Type 0 where
  pub carrier : Bool
  pub hw_address : Str
  pub slaves : List Str

pub data AuxObject : Type 0 where
  device_statistics : Str → AuxObject
  device_bond device_bridge : DeviceCarrierSlaves → AuxObject
  device_team : DeviceCarrierSlaves → Str → AuxObject
  -- `carrier`, `hw_address`, `parent` and `vlan_id`.
  device_vlan : Bool → Str → Str → ℕ → AuxObject
  -- `fw_mark`, `listen_port` and `public_key`.
  device_wire_guard : ℕ → ℕ → List ℕ → AuxObject
  -- `hw_address` and `peers`.
  device_wifi_p2p : Str → List Str → AuxObject
  device_dummy device_hsr device_ip_tunnel device_ipvlan device_lowpan device_macsec device_macvlan
        device_tun device_veth device_vrf device_vxlan device_bluetooth device_infiniband
        device_modem device_wpan device_generic device_ppp ppp_object :
      AuxObject

pub data AuxInterface : Type 0 where
  statistics bond bridge team vlan wire_guard wifi_p2p dummy hsr ip_tunnel ipvlan lowpan macsec
        macvlan tun veth vrf vxlan bluetooth infiniband modem wpan generic device_ppp ppp :
      AuxInterface

-- The interface that an object implements.
unfoldable pub interface_of : AuxObject → AuxInterface
interface_of (device_statistics name) = statistics
interface_of (device_bond base) = bond
interface_of (device_bridge base) = bridge
interface_of (device_team base config) = team
interface_of (device_vlan carrier hw parent id) = vlan
interface_of (device_wire_guard mark port key) = wire_guard
interface_of (device_wifi_p2p hw peers) = wifi_p2p
interface_of device_dummy = dummy
interface_of device_hsr = hsr
interface_of device_ip_tunnel = ip_tunnel
interface_of device_ipvlan = ipvlan
interface_of device_lowpan = lowpan
interface_of device_macsec = macsec
interface_of device_macvlan = macvlan
interface_of device_tun = tun
interface_of device_veth = veth
interface_of device_vrf = vrf
interface_of device_vxlan = vxlan
interface_of device_bluetooth = bluetooth
interface_of device_infiniband = infiniband
interface_of device_modem = modem
interface_of device_wpan = wpan
interface_of device_generic = generic
interface_of device_ppp = device_ppp
interface_of ppp_object = ppp

-- The name of an interface: the literal of its `#[interface(name = …)]`.
unfoldable pub aux_name : AuxInterface → Str
aux_name statistics = codes "org.freedesktop.NetworkManager.Device.Statistics"
aux_name bond = codes "org.freedesktop.NetworkManager.Device.Bond"
aux_name bridge = codes "org.freedesktop.NetworkManager.Device.Bridge"
aux_name team = codes "org.freedesktop.NetworkManager.Device.Team"
aux_name vlan = codes "org.freedesktop.NetworkManager.Device.Vlan"
aux_name wire_guard = codes "org.freedesktop.NetworkManager.Device.WireGuard"
aux_name wifi_p2p = codes "org.freedesktop.NetworkManager.Device.WifiP2P"
aux_name dummy = codes "org.freedesktop.NetworkManager.Device.Dummy"
aux_name hsr = codes "org.freedesktop.NetworkManager.Device.Hsr"
aux_name ip_tunnel = codes "org.freedesktop.NetworkManager.Device.IPTunnel"
aux_name ipvlan = codes "org.freedesktop.NetworkManager.Device.Ipvlan"
aux_name lowpan = codes "org.freedesktop.NetworkManager.Device.Lowpan"
aux_name macsec = codes "org.freedesktop.NetworkManager.Device.Macsec"
aux_name macvlan = codes "org.freedesktop.NetworkManager.Device.Macvlan"
aux_name tun = codes "org.freedesktop.NetworkManager.Device.Tun"
aux_name veth = codes "org.freedesktop.NetworkManager.Device.Veth"
aux_name vrf = codes "org.freedesktop.NetworkManager.Device.Vrf"
aux_name vxlan = codes "org.freedesktop.NetworkManager.Device.Vxlan"
aux_name bluetooth = codes "org.freedesktop.NetworkManager.Device.Bluetooth"
aux_name infiniband = codes "org.freedesktop.NetworkManager.Device.Infiniband"
aux_name modem = codes "org.freedesktop.NetworkManager.Device.Modem"
aux_name wpan = codes "org.freedesktop.NetworkManager.Device.Wpan"
aux_name generic = codes "org.freedesktop.NetworkManager.Device.Generic"
aux_name device_ppp = codes "org.freedesktop.NetworkManager.Device.Ppp"
aux_name ppp = codes "org.freedesktop.NetworkManager.PPP"

-- The place of an interface in the list above, which tells interfaces apart.
unfoldable pub aux_number : AuxInterface → ℕ
aux_number statistics = 0
aux_number bond = 1
aux_number bridge = 2
aux_number team = 3
aux_number vlan = 4
aux_number wire_guard = 5
aux_number wifi_p2p = 6
aux_number dummy = 7
aux_number hsr = 8
aux_number ip_tunnel = 9
aux_number ipvlan = 10
aux_number lowpan = 11
aux_number macsec = 12
aux_number macvlan = 13
aux_number tun = 14
aux_number veth = 15
aux_number vrf = 16
aux_number vxlan = 17
aux_number bluetooth = 18
aux_number infiniband = 19
aux_number modem = 20
aux_number wpan = 21
aux_number generic = 22
aux_number device_ppp = 23
aux_number ppp = 24

unfoldable pub same_interface : AuxInterface → AuxInterface → Bool
same_interface i j = eqb (aux_number i) (aux_number j)
