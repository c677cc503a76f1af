-- ===== src/Tests/Sync.antt =====
-- The theorem on the synchronisation of connections, at a known network and a link, and what is
-- computed for wireless devices.
use nm_dbus_proxy_rs.Text.{after_last, ◌==◌}
use nm_dbus_proxy_rs.Table.{find}
use nm_dbus_proxy_rs.Runtime.Connections.{new}
use nm_dbus_proxy_rs.Prelude.{map, some, any, ◌≡◌, refl, true, false, [], ◌∷◌}
use nm_dbus_proxy_rs.Text.{Str, codes}
use nm_dbus_proxy_rs.Variant.{tagged}
use nm_dbus_proxy_rs.Enums.{Kind, LinkType}
use nm_dbus_proxy_rs.Iwd
use nm_dbus_proxy_rs.Links.{Link}
use nm_dbus_proxy_rs.Sync.Wireless.{
  signal_to_strength, synthetic_ap_metadata, wireless_capabilities, active_connection_id,
}
use nm_dbus_proxy_rs.Prelude.Int.{negsuc}
use nm_dbus_proxy_rs.Runtime.State.{AccessPointRecord}
use nm_dbus_proxy_rs.Tests.Data.{start}
use nm_dbus_proxy_rs.Tests.Links.{link_of}

abbrev wireless : Iwd.State
wireless = record {
  basic_service_sets = [];
  devices = [];
  known_networks =
      record {
        path = codes "/net/home";
        name = codes "home";
        kind = codes "psk";
        hidden = false;
        auto_connect = true;
        last_connected_time = [];
      }
      ∷ [];
  networks = [];
  stations = [];
}

abbrev wires : Link
wires = link_of Kind.unknown LinkType.ether (codes "eth1")

-- A name is its own uuid here.
abbrev plain_uuid : Str → Str
plain_uuid name = name

-- -75 dBm is half of the strength, -30 dBm all of it, and -110 dBm nothing.
strengths :
    map signal_to_strength (negsuc 7499 ∷ negsuc 2999 ∷ negsuc 10999 ∷ negsuc 7474 ∷ [])
    ≡ 50 ∷ 100 ∷ 0 ∷ 51 ∷ []
unfolding signal_to_strength
strengths = refl

-- A secured access point at 6 GHz sets every bit but that of an access point.
abbrev six_ghz : AccessPointRecord
six_ghz = record (synthetic_ap_metadata (codes "psk")) { frequency = 5955; path = codes "/ap" }

six_ghz_capabilities :
    wireless_capabilities wires
      (codes "/ap" ∷ [])
      (record start.runtime { access_points = six_ghz ∷ [] })
    ≡ 0xf38
unfolding codes wireless_capabilities synthetic_ap_metadata find ◌==◌ any new
six_ghz_capabilities = refl

-- No station tells a network: the id is the last part of the path.
path_is_the_id :
    active_connection_id
      (record wires { description = record wires.description { link_type = LinkType.wlan } })
      (some (codes "/nm/7"))
      wireless
    ≡ codes "7"
unfolding codes active_connection_id after_last find
path_is_the_id = refl
