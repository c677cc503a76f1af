-- ===== src/Links/Aux.antt =====
-- `register_device_aux_interfaces` and `unregister_device_aux_interfaces` of
-- network_manager/device/specialized.rs: the further interfaces of a device path.
use nm_dbus_proxy_rs.Prelude.{Bool, true, false, ◌||◌, not, List, [], ◌∷◌, ◌++◌, if◌then◌else◌}
use nm_dbus_proxy_rs.Text.{Str, codes, ◌==◌, starts_with}
use nm_dbus_proxy_rs.Enums.{Kind, LinkType}
use nm_dbus_proxy_rs.Paths.{ObjectPath, root_path, last_segment}
use nm_dbus_proxy_rs.Links.{Link, hex_join, one_of}
use nm_dbus_proxy_rs.Links.Objects.{AuxObject, AuxInterface, DeviceCarrierSlaves}
use nm_dbus_proxy_rs.Io.{Io, serve, withdraw, aux_object, aux_interface, request, for_each, ignore}

unfoldable pub is_type_ppp : LinkType → Bool
is_type_ppp LinkType.ppp = true
is_type_ppp _ = false

unfoldable pub hw_address : Link → Str
unfolding hex_join
hw_address link = hex_join link.description.hardware_address

-- `vec![path.clone()]`: a device is its own port.
unfoldable pub synthetic_ports : ObjectPath → List ObjectPath
synthetic_ports path = path ∷ []

unfoldable pub has_carrier : Link → Bool
unfolding one_of
has_carrier link = not (one_of link.carrier_state (codes "off" ∷ codes "no-carrier" ∷ []))

unfoldable pub carrier_slaves : ObjectPath → Link → DeviceCarrierSlaves
unfolding has_carrier hw_address synthetic_ports
carrier_slaves path link = record {
  carrier = has_carrier link;
  hw_address = hw_address link;
  slaves = synthetic_ports path;
}

-- What the kind of the link adds.
unfoldable pub kind_objects : Kind → ObjectPath → Link → List AuxObject
unfolding carrier_slaves has_carrier hw_address
kind_objects Kind.bond path link = AuxObject.device_bond (carrier_slaves path link) ∷ []
kind_objects Kind.bridge path link = AuxObject.device_bridge (carrier_slaves path link) ∷ []
kind_objects Kind.dummy path link = AuxObject.device_dummy ∷ []
kind_objects Kind.hsr path link = AuxObject.device_hsr ∷ []
kind_objects Kind.geneve path link = AuxObject.device_ip_tunnel ∷ []
kind_objects Kind.gre path link = AuxObject.device_ip_tunnel ∷ []
kind_objects Kind.gretap path link = AuxObject.device_ip_tunnel ∷ []
kind_objects Kind.ip6gre path link = AuxObject.device_ip_tunnel ∷ []
kind_objects Kind.ip6gretap path link = AuxObject.device_ip_tunnel ∷ []
kind_objects Kind.ip6tnl path link = AuxObject.device_ip_tunnel ∷ []
kind_objects Kind.ipip path link = AuxObject.device_ip_tunnel ∷ []
kind_objects Kind.sit path link = AuxObject.device_ip_tunnel ∷ []
kind_objects Kind.ipvlan path link = AuxObject.device_ipvlan ∷ []
kind_objects Kind.lowpan path link = AuxObject.device_lowpan ∷ []
kind_objects Kind.macsec path link = AuxObject.device_macsec ∷ []
kind_objects Kind.macvlan path link = AuxObject.device_macvlan ∷ []
kind_objects Kind.team path link =
    AuxObject.device_team (carrier_slaves path link) (codes "{}") ∷ []
kind_objects Kind.tap path link = AuxObject.device_tun ∷ []
kind_objects Kind.tun path link = AuxObject.device_tun ∷ []
kind_objects Kind.veth path link = AuxObject.device_veth ∷ []
kind_objects Kind.vlan path link =
    AuxObject.device_vlan (has_carrier link) (hw_address link) root_path 0 ∷ []
kind_objects Kind.vrf path link = AuxObject.device_vrf ∷ []
kind_objects Kind.vxlan path link = AuxObject.device_vxlan ∷ []
kind_objects Kind.wireguard path link = AuxObject.device_wire_guard 0 0 [] ∷ []
kind_objects _ path link = []

-- `if matches!(kind, Kind::Unknown)`.
unfoldable pub generic_objects : Kind → List AuxObject
generic_objects Kind.unknown = AuxObject.device_generic ∷ []
generic_objects _ = []

-- What the type of the link adds.
unfoldable pub type_objects : LinkType → Link → List AuxObject
unfolding generic_objects hex_join
type_objects LinkType.bluetooth link = AuxObject.device_bluetooth ∷ []
type_objects LinkType.infiniband link = AuxObject.device_infiniband ∷ []
type_objects LinkType.wlan link =
    if link.description.wireless_lan_interface_type == codes "p2p-device"
    then AuxObject.device_wifi_p2p (hex_join link.description.hardware_address) [] ∷ []
    else []
type_objects LinkType.wwan link = AuxObject.device_modem ∷ []
type_objects LinkType.wpan link = AuxObject.device_wpan ∷ []
type_objects LinkType.unknown link = generic_objects link.description.kind
type_objects LinkType.no_type link = generic_objects link.description.kind
type_objects _ link = []

unfoldable pub ppp_objects : Bool → List AuxObject
ppp_objects b = if b then AuxObject.device_ppp ∷ AuxObject.ppp_object ∷ [] else []

-- The objects in the order in which they are served.
unfoldable pub aux_objects : ObjectPath → Link → List AuxObject
unfolding kind_objects type_objects ppp_objects is_type_ppp
aux_objects path link =
    let description = link.description in
    let is_ppp = starts_with description.name (codes "ppp") || is_type_ppp description.link_type in
    AuxObject.device_statistics description.name ∷ kind_objects description.kind path link
    ++ type_objects description.link_type link
    ++ ppp_objects is_ppp

-- The first that the object server refuses ends the registration.
unfoldable pub register_device_aux_interfaces :
    {Value : Type 0} → ObjectPath → Link → Io Value Str (Unit {0})
unfolding aux_objects
register_device_aux_interfaces path link =
    for_each (aux_objects path link) (λ o. request (λ e. e) (serve path (aux_object o)))

unfoldable pub kind_interfaces : Kind → List AuxInterface
kind_interfaces Kind.bond = AuxInterface.bond ∷ []
kind_interfaces Kind.bridge = AuxInterface.bridge ∷ []
kind_interfaces Kind.dummy = AuxInterface.dummy ∷ []
kind_interfaces Kind.hsr = AuxInterface.hsr ∷ []
kind_interfaces Kind.geneve = AuxInterface.ip_tunnel ∷ []
kind_interfaces Kind.gre = AuxInterface.ip_tunnel ∷ []
kind_interfaces Kind.gretap = AuxInterface.ip_tunnel ∷ []
kind_interfaces Kind.ip6gre = AuxInterface.ip_tunnel ∷ []
kind_interfaces Kind.ip6gretap = AuxInterface.ip_tunnel ∷ []
kind_interfaces Kind.ip6tnl = AuxInterface.ip_tunnel ∷ []
kind_interfaces Kind.ipip = AuxInterface.ip_tunnel ∷ []
kind_interfaces Kind.sit = AuxInterface.ip_tunnel ∷ []
kind_interfaces Kind.ipvlan = AuxInterface.ipvlan ∷ []
kind_interfaces Kind.lowpan = AuxInterface.lowpan ∷ []
kind_interfaces Kind.macsec = AuxInterface.macsec ∷ []
kind_interfaces Kind.macvlan = AuxInterface.macvlan ∷ []
kind_interfaces Kind.team = AuxInterface.team ∷ []
kind_interfaces Kind.tap = AuxInterface.tun ∷ []
kind_interfaces Kind.tun = AuxInterface.tun ∷ []
kind_interfaces Kind.veth = AuxInterface.veth ∷ []
kind_interfaces Kind.vlan = AuxInterface.vlan ∷ []
kind_interfaces Kind.vrf = AuxInterface.vrf ∷ []
kind_interfaces Kind.vxlan = AuxInterface.vxlan ∷ []
kind_interfaces Kind.wireguard = AuxInterface.wire_guard ∷ []
kind_interfaces _ = []

unfoldable pub generic_interfaces : Kind → List AuxInterface
generic_interfaces Kind.unknown = AuxInterface.generic ∷ []
generic_interfaces _ = []

unfoldable pub type_interfaces : Kind → LinkType → List AuxInterface
unfolding generic_interfaces
type_interfaces kind LinkType.bluetooth = AuxInterface.bluetooth ∷ []
type_interfaces kind LinkType.infiniband = AuxInterface.infiniband ∷ []
type_interfaces kind LinkType.wlan = AuxInterface.wifi_p2p ∷ []
type_interfaces kind LinkType.wwan = AuxInterface.modem ∷ []
type_interfaces kind LinkType.wpan = AuxInterface.wpan ∷ []
type_interfaces kind LinkType.unknown = generic_interfaces kind
type_interfaces kind LinkType.no_type = generic_interfaces kind
type_interfaces kind _ = []

-- The interfaces in the order in which they are withdrawn; those of PPP go by the path alone.
unfoldable pub aux_interfaces : ObjectPath → Kind → LinkType → List AuxInterface
unfolding kind_interfaces type_interfaces
aux_interfaces path kind link_type =
    AuxInterface.statistics ∷ kind_interfaces kind
    ++ type_interfaces kind link_type
    ++ (if starts_with (last_segment path) (codes "ppp")
        then AuxInterface.device_ppp ∷ AuxInterface.ppp ∷ []
        else [])

unfoldable pub unregister_device_aux_interfaces :
    {Value E : Type 0} → ObjectPath → Kind → LinkType → Io Value E (Unit {0})
unfolding aux_interfaces
unregister_device_aux_interfaces path kind link_type =
    for_each (aux_interfaces path kind link_type)
      (λ i. ignore (request (λ (e : Str). e) (withdraw path (aux_interface i))))
