-- ===== src/Tests/Links.antt =====
-- The theorems on links and profiles, at concrete ones.
use nm_dbus_proxy_rs.Text.Hex.{is_alnum}
use nm_dbus_proxy_rs.Persistence.{is_iwd_plain, join, profile}
use nm_dbus_proxy_rs.Text.Utf8.{from_utf8}
use nm_dbus_proxy_rs.Connection.{get_string, setting}
use nm_dbus_proxy_rs.Prelude.{all, is_empty}
use nm_dbus_proxy_rs.Text.Lines.{trim}
use nm_dbus_proxy_rs.Text.{contains, ends_with}
use nm_dbus_proxy_rs.Links.Aux.{is_type_ppp}
use nm_dbus_proxy_rs.Links.Objects.{aux_number}
use nm_dbus_proxy_rs.Links.Withdrawn.{is_ppp_interface}
use nm_dbus_proxy_rs.Prelude.{◌≡◌, refl, true, false, [], ◌∷◌, ◌++◌, some, map, arith}
use nm_dbus_proxy_rs.Text.{Str, codes, starts_with, ◌==◌}
use nm_dbus_proxy_rs.Text.Utf8.{IsText}
use nm_dbus_proxy_rs.Map.{lookup}
use nm_dbus_proxy_rs.Variant.{Tagged, string, bytes, tagged}
use nm_dbus_proxy_rs.Enums.{Kind, LinkType}
use nm_dbus_proxy_rs.Paths.{device_object_path}
use nm_dbus_proxy_rs.Connection.{
  ConnectionRecord, wifi_type, security_group, ssid, wifi_passphrase, interface_name,
}
use nm_dbus_proxy_rs.Io.{World, ok, ◌>>=◌, request, for_each}
use nm_dbus_proxy_rs.Links.{Link}
use nm_dbus_proxy_rs.Links.Objects.{AuxInterface}
use nm_dbus_proxy_rs.Links.Names.{main_names, device_interface_names}
use nm_dbus_proxy_rs.Links.Aux.{
  register_device_aux_interfaces, unregister_device_aux_interfaces, aux_objects,
}
use nm_dbus_proxy_rs.Links.Announced.{name_of, device_interface_names-aux_objects}
use nm_dbus_proxy_rs.Links.Served.{is_served}
use nm_dbus_proxy_rs.Links.Withdrawn.{unregister-register}
use nm_dbus_proxy_rs.Persistence.{
  wired_profile, wifi_profile, encode_iwd_name, filename_for_connection,
}
use nm_dbus_proxy_rs.Persistence.Load.{parse_network_value, decode_iwd_name, load_contents}
use nm_dbus_proxy_rs.Persistence.Profiles.{IsValue, parse-wired_profile}
use nm_dbus_proxy_rs.Persistence.RoundTrip.{decode-encode_iwd_name}
use nm_dbus_proxy_rs.Persistence.Reloaded.{load_contents-profile}
use nm_dbus_proxy_rs.Tests.Data.{host, wired, start}

abbrev pub link_of : Kind → LinkType → Str → Link
link_of kind link_type name = record {
  address_state = codes "routable";
  administrative_state = codes "configured";
  bit_rates = (0, 0);
  carrier_state = codes "carrier";
  description = record {
    addresses = [];
    alternative_names = [];
    driver = [];
    hardware_address = 2 ∷ 171 ∷ [];
    index = 3;
    kind = kind;
    mtu = 1500;
    name = name;
    permanent_hardware_address = [];
    link_type = link_type;
    wireless_lan_interface_type = [];
  };
  ipv4_address_state = codes "routable";
  ipv6_address_state = codes "off";
  online_state = codes "online";
  operational_state = codes "routable";
}

-- A modem's PPP link under a name of its own.
abbrev uplink : Link
uplink = link_of Kind.unknown LinkType.ppp (codes "uplink")

abbrev served : World Tagged
served = (register_device_aux_interfaces (device_object_path (codes "uplink")) uplink host start).1

uplink-IsText : IsText (codes "uplink")
unfolding codes
uplink-IsText = ground arith

uplink_stays :
    is_served host
      (device_object_path (codes "uplink"))
      AuxInterface.ppp
      (unregister_device_aux_interfaces {E = Str}
        (device_object_path (codes "uplink"))
        Kind.unknown
        LinkType.ppp
        host
        served).1.calls
    ≡ true
unfolding codes register_device_aux_interfaces for_each ◌>>=◌ request starts_with is_served
    is_ppp_interface aux_number
uplink_stays =
    unregister-register host start served uplink (device_object_path (codes "uplink"))
      AuxInterface.ppp refl uplink-IsText refl refl

-- A team of wired links.
abbrev team : Link
team = link_of Kind.team LinkType.ether (codes "team0")

team_is_announced :
    device_interface_names Kind.team LinkType.ether false false
    ≡ codes "org.freedesktop.NetworkManager.Device" ∷ main_names LinkType.ether
      ++ map name_of (aux_objects (device_object_path (codes "team0")) team)
unfolding ◌==◌ codes is_type_ppp starts_with
team_is_announced =
    device_interface_names-aux_objects (device_object_path (codes "team0")) team refl
      (λ e. absurd (cc))

abbrev cafe : Str
cafe = codes "café"

cafe-IsText : IsText cafe
unfolding codes
cafe-IsText = ground arith

cafe_is_read_back : decode_iwd_name (encode_iwd_name cafe) ≡ ok cafe
cafe_is_read_back = decode-encode_iwd_name cafe cafe-IsText

wired_name : IsValue (codes "eth0")
unfolding codes contains trim is_empty
wired_name = record { unbroken = refl; trimmed = refl }

wired_is_read_back :
    parse_network_value (wired_profile wired) (codes "Match") (codes "Name") ≡ some (codes "eth0")
unfolding codes interface_name setting get_string lookup ◌==◌
wired_is_read_back = parse-wired_profile wired wired_name

abbrev wifi : ConnectionRecord Tagged
wifi = record wired {
  connection_type = wifi_type;
  settings =
      (wifi_type, (codes "ssid", bytes (codes "home")) ∷ [])
      ∷ (security_group, (codes "psk", string (codes "open sesame")) ∷ [])
      ∷ [];
}

home-IsText : IsText (codes "home")
unfolding codes
home-IsText = ground arith

secret : IsValue (codes "open sesame")
unfolding codes contains trim is_empty
secret = record { unbroken = refl; trimmed = refl }

wifi_is_reloaded :
    (d : ConnectionRecord Tagged) × (load_contents
          (codes "wlan0")
          (codes "/var/lib/iwd/home.psk")
          (wifi_profile wifi)
        ≡ ok d
      × (d.connection_type ≡ wifi_type
          × (ssid d ≡ ssid wifi × wifi_passphrase d ≡ wifi_passphrase wifi)))
unfolding codes ssid lookup ◌==◌ from_utf8 is_empty wifi_passphrase setting get_string
    filename_for_connection join ends_with encode_iwd_name all is_iwd_plain is_alnum profile
wifi_is_reloaded =
    load_contents-profile host wifi (codes "home") (codes "wlan0") (codes "/var/lib/iwd/home.psk")
      (wifi_profile wifi) refl refl home-IsText refl secret refl refl
