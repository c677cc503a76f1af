-- ===== src/Links.antt =====
-- systemd_networkd/link.rs: the records of a network link as systemd-networkd describes it, and the
-- functions of lib.rs that read them.
pub mod Objects
pub mod Names
pub mod Aux
pub mod Announced
pub mod Withdrawn
pub mod Served
use Prim.Native.Nat.{bit_or}
use nm_dbus_proxy_rs.Prelude.{
  ℕ, ◌+◌, ◌-◌, ◌/◌, Bool, true, false, ◌&&◌, ◌||◌, not, List, [], ◌∷◌, ◌++◌, Option, none, some,
  any, eqb, leb, ltb, if◌then◌else◌,
}
use nm_dbus_proxy_rs.Text.{Str, codes, ◌==◌, starts_with}
use nm_dbus_proxy_rs.Text.Hex.{hex2}
use nm_dbus_proxy_rs.Enums.{Kind, LinkType, NmDeviceType}

pub record Address : Type 0 where
  pub address_string : Str
  pub config_state : Str
  pub family : ℕ
  pub prefix_length : ℕ

pub record LinkDescription : Type 0 where
  pub addresses : List Address
  pub alternative_names : List Str
  pub driver : Str
  pub hardware_address : List ℕ
  pub index : ℕ
  pub kind : Kind
  pub mtu : ℕ
  pub name : Str
  pub permanent_hardware_address : List ℕ
  pub link_type : LinkType
  pub wireless_lan_interface_type : Str

pub record Link : Type 0 where
  pub address_state : Str
  pub administrative_state : Str
  pub bit_rates : ℕ × ℕ
  pub carrier_state : Str
  pub description : LinkDescription
  pub ipv4_address_state : Str
  pub ipv6_address_state : Str
  pub online_state : Str
  pub operational_state : Str

-- `iter().map(|byte| format!("{byte:02x}")).collect::<Vec<_>>().join(":")`.
unfoldable pub hex_join : List ℕ → Str
unfolding hex2
hex_join [] = []
hex_join (b ∷ []) = hex2 b
hex_join (b ∷ c ∷ bs) = hex2 b ++ b':' ∷ hex_join (c ∷ bs)

-- The text is empty where there is no byte, which is a case of its own in the source.
unfoldable pub mac_string : List ℕ → Str
unfolding hex_join
mac_string [] = []
mac_string (b ∷ bs) = hex_join (b ∷ bs)

-- `matches!(text, a | b | …)`.
unfoldable pub one_of : Str → List Str → Bool
one_of text = any (λ other. text == other)

unfoldable pub link_is_active : Link → Bool
unfolding one_of
link_is_active link =
    not (
      one_of link.operational_state (
        codes "off"
        ∷ codes "down"
        ∷ codes "lower-layer-down"
        ∷ codes "no-carrier"
        ∷ codes "dormant"
        ∷ []))
    && not (one_of link.carrier_state (codes "off" ∷ codes "no-carrier" ∷ []))

unfoldable pub link_has_ipv4 : Link → Bool
link_has_ipv4 link = any (λ (a : Address). eqb a.family 2) link.description.addresses

unfoldable pub link_has_global_ipv6 : Link → Bool
link_has_global_ipv6 link =
    any (λ (a : Address). eqb a.family 10 && not (starts_with a.address_string (codes "fe80:")))
      link.description.addresses

-- The greater bit rate in megabits; 0 where it does not fit an `u32`.
unfoldable pub wired_speed_mbps : Link → ℕ
wired_speed_mbps link =
    let (tx, rx) = link.bit_rates in
    let mbps = (if ltb tx rx then rx else tx) / 1000000 in if ltb mbps 0x100000000 then mbps else 0

unfoldable pub interface_flags : Link → ℕ
interface_flags link =
    if link.carrier_state == codes "carrier"
    then 0x10000
    else if link.administrative_state == codes "configured"
    then 0x1
    else 0

unfoldable pub is_carrier_type : LinkType → Bool
is_carrier_type LinkType.ether = true
is_carrier_type LinkType.wlan = true
is_carrier_type LinkType.wwan = true
is_carrier_type _ = false

unfoldable pub is_software : Kind → LinkType → Bool
is_software Kind.tun _ = true
is_software Kind.veth _ = true
is_software _ LinkType.loopback = true
is_software _ _ = false

-- `NMSupported`, with `CarrierDetect` and `IsSoftware` where they apply.
unfoldable pub device_capabilities : Link → ℕ
unfolding is_carrier_type is_software
device_capabilities link =
    bit_or (bit_or 0x1 (if is_carrier_type link.description.link_type then 0x2 else 0))
      (if is_software link.description.kind link.description.link_type then 0x4 else 0)

-- `NMDeviceType::from((kind, type))`.
unfoldable pub device_type_from : Kind → LinkType → NmDeviceType
device_type_from Kind.bond _ = NmDeviceType.bond
device_type_from Kind.bridge _ = NmDeviceType.bridge
device_type_from Kind.dummy _ = NmDeviceType.dummy
device_type_from Kind.hsr _ = NmDeviceType.hsr
device_type_from Kind.geneve _ = NmDeviceType.ip_tunnel
device_type_from Kind.gre _ = NmDeviceType.ip_tunnel
device_type_from Kind.gretap _ = NmDeviceType.ip_tunnel
device_type_from Kind.ip6gre _ = NmDeviceType.ip_tunnel
device_type_from Kind.ip6gretap _ = NmDeviceType.ip_tunnel
device_type_from Kind.ip6tnl _ = NmDeviceType.ip_tunnel
device_type_from Kind.ipip _ = NmDeviceType.ip_tunnel
device_type_from Kind.sit _ = NmDeviceType.ip_tunnel
device_type_from Kind.ipvlan _ = NmDeviceType.generic
device_type_from Kind.lowpan _ = NmDeviceType.six_low_pan
device_type_from Kind.macsec _ = NmDeviceType.mac_sec
device_type_from Kind.macvlan _ = NmDeviceType.mac_vlan
device_type_from Kind.team _ = NmDeviceType.team
device_type_from Kind.tap _ = NmDeviceType.tun
device_type_from Kind.tun _ = NmDeviceType.tun
device_type_from Kind.veth _ = NmDeviceType.v_eth
device_type_from Kind.vlan _ = NmDeviceType.vlan
device_type_from Kind.vrf _ = NmDeviceType.vrf
device_type_from Kind.vxlan _ = NmDeviceType.vx_lan
device_type_from Kind.wireguard _ = NmDeviceType.wire_guard
device_type_from _ LinkType.bluetooth = NmDeviceType.bluetooth
device_type_from _ LinkType.ether = NmDeviceType.ethernet
device_type_from _ LinkType.infiniband = NmDeviceType.infiniband
device_type_from _ LinkType.loopback = NmDeviceType.loopback
device_type_from _ LinkType.ppp = NmDeviceType.ppp
device_type_from _ LinkType.wlan = NmDeviceType.wifi
device_type_from _ LinkType.wpan = NmDeviceType.w_pan
device_type_from _ LinkType.wwan = NmDeviceType.modem
device_type_from _ _ = NmDeviceType.generic

unfoldable pub device_type_for_link : Link → NmDeviceType
unfolding device_type_from
device_type_for_link link =
    let description = link.description in
    if starts_with description.name (codes "ppp")
    then NmDeviceType.ppp
    else if description.wireless_lan_interface_type == codes "p2p-device"
    then NmDeviceType.wifi_p2_p
    else device_type_from description.kind description.link_type
