-- ===== src/Enums.antt =====
-- enums.rs: the enumerations of the NetworkManager API and their numbers on the bus (`as u32`),
-- and systemd_networkd/link.rs: the kinds and types of links.
use nm_dbus_proxy_rs.Prelude.{ℕ}

pub data Kind : Type 0 where
  bareudp bond bridge dummy geneve gre gretap hsr ip6gre ip6gretap ip6tnl ipip ipvlan lowpan macsec
        macvlan sit tap team tun unknown veth vlan vrf vxlan wireguard :
      Kind

pub data LinkType : Type 0 where
  bluetooth ether infiniband loopback no_type ppp unknown wlan wpan wwan : LinkType

pub data Nm80211Mode : Type 0 where
  unknown adhoc infra ap mesh : Nm80211Mode

unfoldable pub mode_code : Nm80211Mode → ℕ
mode_code unknown = 0
mode_code adhoc = 1
mode_code infra = 2
mode_code ap = 3
mode_code mesh = 4

pub data NmActiveConnectionState : Type 0 where
  unknown activating activated deactivating deactivated : NmActiveConnectionState

unfoldable pub active_state_code : NmActiveConnectionState → ℕ
active_state_code unknown = 0
active_state_code activating = 1
active_state_code activated = 2
active_state_code deactivating = 3
active_state_code deactivated = 4

pub data NmConnectivityState : Type 0 where
  unknown no_connectivity portal limited full : NmConnectivityState

unfoldable pub connectivity_code : NmConnectivityState → ℕ
connectivity_code unknown = 0
connectivity_code no_connectivity = 1
connectivity_code portal = 2
connectivity_code limited = 3
connectivity_code full = 4

pub data NmDeviceState : Type 0 where
  unknown unmanaged unavailable disconnected prepare config need_auth ip_config ip_check secondaries
        activated deactivating failed :
      NmDeviceState

unfoldable pub device_state_code : NmDeviceState → ℕ
device_state_code unknown = 0
device_state_code unmanaged = 10
device_state_code unavailable = 20
device_state_code disconnected = 30
device_state_code prepare = 40
device_state_code config = 50
device_state_code need_auth = 60
device_state_code ip_config = 70
device_state_code ip_check = 80
device_state_code secondaries = 90
device_state_code activated = 100
device_state_code deactivating = 110
device_state_code failed = 120

pub data NmDeviceType : Type 0 where
  unknown ethernet wifi unused1 unused2 bluetooth olpc_mesh wi_max modem infiniband bond vlan adsl
        bridge generic team tun ip_tunnel mac_vlan vx_lan v_eth mac_sec dummy ppp ovs_interface
        ovs_port ovs_bridge w_pan six_low_pan wire_guard wifi_p2_p vrf loopback hsr :
      NmDeviceType

unfoldable pub device_type_code : NmDeviceType → ℕ
device_type_code unknown = 0
device_type_code ethernet = 1
device_type_code wifi = 2
device_type_code unused1 = 3
device_type_code unused2 = 4
device_type_code bluetooth = 5
device_type_code olpc_mesh = 6
device_type_code wi_max = 7
device_type_code modem = 8
device_type_code infiniband = 9
device_type_code bond = 10
device_type_code vlan = 11
device_type_code adsl = 12
device_type_code bridge = 13
device_type_code generic = 14
device_type_code team = 15
device_type_code tun = 16
device_type_code ip_tunnel = 17
device_type_code mac_vlan = 18
device_type_code vx_lan = 19
device_type_code v_eth = 20
device_type_code mac_sec = 21
device_type_code dummy = 22
device_type_code ppp = 23
device_type_code ovs_interface = 24
device_type_code ovs_port = 25
device_type_code ovs_bridge = 26
device_type_code w_pan = 27
device_type_code six_low_pan = 28
device_type_code wire_guard = 29
device_type_code wifi_p2_p = 30
device_type_code vrf = 31
device_type_code loopback = 32
device_type_code hsr = 33
