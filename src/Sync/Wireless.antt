-- ===== src/Sync/Wireless.antt =====
-- lib.rs: what `sync_backends` computes for wireless devices, access points and radios.
use Prim.Native.Nat.{bit_or}
use nm_dbus_proxy_rs.Prelude.{
  ℕ, ◌+◌, ◌/◌, Bool, true, false, ◌||◌, not, List, [], ◌∷◌, Option, none, some, any, eqb, leb, ltb,
  if◌then◌else◌,
}
use mathlib.Core.Option
use nm_dbus_proxy_rs.Prelude.Int.{ℤ, pos, pos_part, ◌+ℤ◌}
use nm_dbus_proxy_rs.Text.{Str, codes, ◌==◌, after_last}
use nm_dbus_proxy_rs.Enums.{LinkType, Nm80211Mode}
use nm_dbus_proxy_rs.Paths.{ObjectPath, root_path, join_path}
use nm_dbus_proxy_rs.Connection.{and_then, unwrap_or}
use nm_dbus_proxy_rs.Iwd
use nm_dbus_proxy_rs.Links.{Link}
use nm_dbus_proxy_rs.Runtime.State.{AccessPointRecord, RuntimeState}
use nm_dbus_proxy_rs.Runtime.Devices.{access_point}
use nm_dbus_proxy_rs.Sync.{deterministic_uuid, is_wlan}

-- `str::replace('-', "_")`.
unfoldable pub underscored : Str → Str
underscored [] = []
underscored (c ∷ s) = (if eqb c b'-' then b'_' else c) ∷ underscored s

unfoldable pub access_point_path : (Str → Str) → ObjectPath → ObjectPath
unfolding deterministic_uuid underscored
access_point_path new_v5 network_path =
    join_path (codes "/org/freedesktop/NetworkManager/AccessPoint")
      (underscored (deterministic_uuid new_v5 (codes "access-point") network_path))

infixl 20 ◌>>=◌
abbrev ◌>>=◌ : {A B : Type 0} → Option A → (A → Option B) → Option B
a >>= f = and_then a f

-- The name of the known network that a wireless device is connected to.
unfoldable pub connected_name : Str → Iwd.State → Option Str
unfolding Iwd.device_by_name Iwd.station_by_device_path Iwd.network_by_path
    Iwd.known_network_by_path
connected_name name wireless = do
  device ← Iwd.device_by_name wireless name
  station ← Iwd.station_by_device_path wireless device.path
  path ← station.connected_network
  network ← Iwd.network_by_path wireless path
  known ← Iwd.known_network_by_path wireless network.known_network
  some known.name

abbrev wireless_id : Str → Option ObjectPath → Iwd.State → Str
wireless_id name none wireless = name
wireless_id name (some path) wireless =
    unwrap_or (connected_name name wireless) (after_last b'/' path)

unfoldable pub active_connection_id : Link → Option ObjectPath → Iwd.State → Str
unfolding connected_name
active_connection_id link settings_path wireless =
    if is_wlan link.description.link_type
    then wireless_id link.description.name settings_path wireless
    else link.description.name

-- `KeyMgmtPsk | PairCcmp | GroupCcmp`.
abbrev psk_flags : ℕ
psk_flags = bit_or (bit_or 0x100 0x8) 0x80

unfoldable pub ap_security_flags : Str → ℕ × ℕ × ℕ
ap_security_flags kind =
    if kind == codes "open"
    then (0, 0, 0)
    else if kind == codes "psk"
    then (0x1, psk_flags, bit_or psk_flags 0x400)
    else (0x1, 0, 0)

unfoldable pub synthetic_ap_metadata : Str → AccessPointRecord
unfolding ap_security_flags
synthetic_ap_metadata kind =
    let (flags, wpa_flags, rsn_flags) = ap_security_flags kind in
    record {
      bandwidth = 20;
      flags = flags;
      frequency = 0;
      hw_address = [];
      last_seen = pos 0;
      max_bitrate = 0;
      mode = Nm80211Mode.infra;
      path = root_path;
      rsn_flags = rsn_flags;
      ssid = [];
      strength = 0;
      wpa_flags = wpa_flags;
    }

abbrev is_5ghz : AccessPointRecord → Bool
is_5ghz r = leb 5000 r.frequency

abbrev is_6ghz : AccessPointRecord → Bool
is_6ghz r = leb 5925 r.frequency

abbrev is_secured : AccessPointRecord → Bool
is_secured r = not (eqb r.wpa_flags 0) || not (eqb r.rsn_flags 0)

module _ {Value : Type 0} where
  -- `access_points.iter().any(|path| runtime.access_point(path).map(p).unwrap_or(false))`.
  unfoldable pub has_access_point :
      (AccessPointRecord → Bool) → RuntimeState Value → List ObjectPath → Bool
  unfolding access_point
  has_access_point p s paths =
      any (λ path. unwrap_or (Option.map p (access_point path s)) false) paths

  unfoldable pub wireless_capabilities : Link → List ObjectPath → RuntimeState Value → ℕ
  unfolding has_access_point
  wireless_capabilities link access_points s =
      let kind = link.description.wireless_lan_interface_type in
      let station = kind == codes "station" || kind == codes "ap" in
      let c = bit_or (bit_or 0x100 0x200) (if station then 0x40 else 0) in
      let c5 = bit_or c (if has_access_point is_5ghz s access_points then 0x400 else 0) in
      let c6 = bit_or c5 (if has_access_point is_6ghz s access_points then 0x800 else 0) in
      bit_or c6
        (if has_access_point is_secured s access_points then bit_or (bit_or 0x10 0x20) 0x8 else 0)

abbrev is_wwan : LinkType → Bool
is_wwan LinkType.wwan = true
is_wwan _ = false

unfoldable pub radio_flags : List Link → Iwd.State → ℕ
radio_flags links wireless =
    bit_or (if any (λ (d : Iwd.Device). d.powered) wireless.devices then 0x1 else 0)
      (if any (λ (l : Link). is_wwan l.description.link_type) links then 0x2 else 0)

-- The strength in percent of a signal in hundredths of dBm. The source computes in `f64`; there
-- halves are exact, so that rounding is that of the fraction of `signal + 10000` over 50.
unfoldable pub signal_to_strength : ℤ → ℕ
unfolding ◌+ℤ◌
signal_to_strength signal =
    let above = pos_part (signal +ℤ pos 10000) in if ltb 5000 above then 100 else (above + 25) / 50
