-- ===== src/Links/Names.antt =====
-- The interface names of a device that the service announces: `device_aux_interface_names` and its
-- two companions of network_manager/device/specialized.rs, and `device_interface_names` of lib.rs.
use nm_dbus_proxy_rs.Prelude.{Bool, true, false, List, [], ◌∷◌, ◌++◌, Option, none, some}
use nm_dbus_proxy_rs.Text.{Str, codes}
use nm_dbus_proxy_rs.Enums.{Kind, LinkType}
use nm_dbus_proxy_rs.Links.{Link}

unfoldable pub kind_names : Kind → List Str
kind_names Kind.bond = codes "org.freedesktop.NetworkManager.Device.Bond" ∷ []
kind_names Kind.bridge = codes "org.freedesktop.NetworkManager.Device.Bridge" ∷ []
kind_names Kind.dummy = codes "org.freedesktop.NetworkManager.Device.Dummy" ∷ []
kind_names Kind.hsr = codes "org.freedesktop.NetworkManager.Device.Hsr" ∷ []
kind_names Kind.geneve = codes "org.freedesktop.NetworkManager.Device.IPTunnel" ∷ []
kind_names Kind.gre = codes "org.freedesktop.NetworkManager.Device.IPTunnel" ∷ []
kind_names Kind.gretap = codes "org.freedesktop.NetworkManager.Device.IPTunnel" ∷ []
kind_names Kind.ip6gre = codes "org.freedesktop.NetworkManager.Device.IPTunnel" ∷ []
kind_names Kind.ip6gretap = codes "org.freedesktop.NetworkManager.Device.IPTunnel" ∷ []
kind_names Kind.ip6tnl = codes "org.freedesktop.NetworkManager.Device.IPTunnel" ∷ []
kind_names Kind.ipip = codes "org.freedesktop.NetworkManager.Device.IPTunnel" ∷ []
kind_names Kind.sit = codes "org.freedesktop.NetworkManager.Device.IPTunnel" ∷ []
kind_names Kind.ipvlan = codes "org.freedesktop.NetworkManager.Device.Ipvlan" ∷ []
kind_names Kind.lowpan = codes "org.freedesktop.NetworkManager.Device.Lowpan" ∷ []
kind_names Kind.macsec = codes "org.freedesktop.NetworkManager.Device.Macsec" ∷ []
kind_names Kind.macvlan = codes "org.freedesktop.NetworkManager.Device.Macvlan" ∷ []
kind_names Kind.team = codes "org.freedesktop.NetworkManager.Device.Team" ∷ []
kind_names Kind.tap = codes "org.freedesktop.NetworkManager.Device.Tun" ∷ []
kind_names Kind.tun = codes "org.freedesktop.NetworkManager.Device.Tun" ∷ []
kind_names Kind.veth = codes "org.freedesktop.NetworkManager.Device.Veth" ∷ []
kind_names Kind.vlan = codes "org.freedesktop.NetworkManager.Device.Vlan" ∷ []
kind_names Kind.vrf = codes "org.freedesktop.NetworkManager.Device.Vrf" ∷ []
kind_names Kind.vxlan = codes "org.freedesktop.NetworkManager.Device.Vxlan" ∷ []
kind_names Kind.wireguard = codes "org.freedesktop.NetworkManager.Device.WireGuard" ∷ []
kind_names _ = []

-- `Type::Unknown | Type::None`, where a link of no known kind is generic.
unfoldable pub generic_names : Kind → List Str
generic_names Kind.unknown = codes "org.freedesktop.NetworkManager.Device.Generic" ∷ []
generic_names _ = []

unfoldable pub type_names : Kind → LinkType → List Str
unfolding generic_names
type_names kind LinkType.bluetooth = codes "org.freedesktop.NetworkManager.Device.Bluetooth" ∷ []
type_names kind LinkType.infiniband = codes "org.freedesktop.NetworkManager.Device.Infiniband" ∷ []
type_names kind LinkType.ppp =
    codes "org.freedesktop.NetworkManager.Device.Ppp"
    ∷ codes "org.freedesktop.NetworkManager.PPP"
    ∷ []
type_names kind LinkType.wwan = codes "org.freedesktop.NetworkManager.Device.Modem" ∷ []
type_names kind LinkType.wpan = codes "org.freedesktop.NetworkManager.Device.Wpan" ∷ []
type_names kind LinkType.unknown = generic_names kind
type_names kind LinkType.no_type = generic_names kind
type_names kind _ = []

unfoldable pub device_aux_interface_names : Kind → LinkType → List Str
unfolding kind_names type_names
device_aux_interface_names kind link_type =
    codes "org.freedesktop.NetworkManager.Device.Statistics" ∷ kind_names kind
    ++ type_names kind link_type

unfoldable pub maybe_wifi_p2p_interface_name : Bool → Option Str
maybe_wifi_p2p_interface_name true = some (codes "org.freedesktop.NetworkManager.Device.WifiP2P")
maybe_wifi_p2p_interface_name false = none

unfoldable pub maybe_ppp_interface_names : Bool → List Str
maybe_ppp_interface_names true =
    codes "org.freedesktop.NetworkManager.Device.Ppp"
    ∷ codes "org.freedesktop.NetworkManager.PPP"
    ∷ []
maybe_ppp_interface_names false = []

-- The interface of the device object that its type adds.
unfoldable pub main_names : LinkType → List Str
main_names LinkType.loopback = codes "org.freedesktop.NetworkManager.Device.Loopback" ∷ []
main_names LinkType.ether = codes "org.freedesktop.NetworkManager.Device.Wired" ∷ []
main_names LinkType.wlan = codes "org.freedesktop.NetworkManager.Device.Wireless" ∷ []
main_names _ = []

-- `if let Some(name) = option { names.push(name); }`.
unfoldable pub optional_name : Option Str → List Str
optional_name none = []
optional_name (some name) = name ∷ []

unfoldable pub device_interface_names : Kind → LinkType → Bool → Bool → List Str
unfolding main_names device_aux_interface_names maybe_wifi_p2p_interface_name
    maybe_ppp_interface_names optional_name
device_interface_names kind link_type wifi_p2p is_ppp =
    codes "org.freedesktop.NetworkManager.Device" ∷ main_names link_type
    ++ device_aux_interface_names kind link_type
    ++ optional_name (maybe_wifi_p2p_interface_name wifi_p2p)
    ++ maybe_ppp_interface_names is_ppp

-- `connection_type_for_link`, by the kind, or by the type of a link of another kind.
unfoldable pub type_connection : LinkType → Option Str
type_connection LinkType.wlan = some (codes "802-11-wireless")
type_connection LinkType.ether = some (codes "802-3-ethernet")
type_connection _ = none

unfoldable pub connection_type : Kind → LinkType → Option Str
unfolding type_connection
connection_type Kind.bond _ = some (codes "bond")
connection_type Kind.bridge _ = some (codes "bridge")
connection_type Kind.dummy _ = some (codes "dummy")
connection_type Kind.hsr _ = some (codes "hsr")
connection_type Kind.geneve _ = some (codes "ip-tunnel")
connection_type Kind.gre _ = some (codes "ip-tunnel")
connection_type Kind.gretap _ = some (codes "ip-tunnel")
connection_type Kind.ip6gre _ = some (codes "ip-tunnel")
connection_type Kind.ip6gretap _ = some (codes "ip-tunnel")
connection_type Kind.ip6tnl _ = some (codes "ip-tunnel")
connection_type Kind.ipip _ = some (codes "ip-tunnel")
connection_type Kind.sit _ = some (codes "ip-tunnel")
connection_type Kind.ipvlan _ = some (codes "ipvlan")
connection_type Kind.lowpan _ = some (codes "6lowpan")
connection_type Kind.macsec _ = some (codes "macsec")
connection_type Kind.macvlan _ = some (codes "macvlan")
connection_type Kind.team _ = some (codes "team")
connection_type Kind.tap _ = some (codes "tun")
connection_type Kind.tun _ = some (codes "tun")
connection_type Kind.veth _ = some (codes "veth")
connection_type Kind.vlan _ = some (codes "vlan")
connection_type Kind.vrf _ = some (codes "vrf")
connection_type Kind.vxlan _ = some (codes "vxlan")
connection_type Kind.wireguard _ = some (codes "wireguard")
connection_type _ link_type = type_connection link_type

unfoldable pub connection_type_for_link : Link → Option Str
unfolding connection_type
connection_type_for_link link = connection_type link.description.kind link.description.link_type

unfoldable pub link_uuid_namespace : Link → Str
unfolding connection_type_for_link
link_uuid_namespace link = elim (connection_type_for_link link) [
  | none ↦ codes "link"
  | some name ↦ name
]
