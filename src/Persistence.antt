-- ===== src/Persistence.antt =====
-- persistence.rs: the profile of a connection, its text and its file name.
pub mod Files
pub mod Reloaded
pub mod Profiles
pub mod FileNames
pub mod RoundTrip
pub mod Load
use nm_dbus_proxy_rs.Prelude.{
  ℕ, ◌≡◌, Bool, true, false, ◌&&◌, ◌||◌, List, [], ◌∷◌, ◌++◌, Option, none, some, all, eqb,
  if◌then◌else◌,
}
use nm_dbus_proxy_rs.Text.{Str, codes, ◌==◌, ends_with}
use nm_dbus_proxy_rs.Text.Utf8.{to_bytes}
use nm_dbus_proxy_rs.Text.Hex.{hex2, is_alnum}
use nm_dbus_proxy_rs.Variant.{Variant}
use nm_dbus_proxy_rs.Io.{Host, Result, ok, err}
use nm_dbus_proxy_rs.Connection.{
  ConnectionRecord, wifi_type, ethernet_type, autoconnect, interface_name, is_hidden, ssid,
  wifi_passphrase, is_some, unwrap_or,
}

abbrev pub line_end : Str
line_end = 10 ∷ []

unfoldable pub netdev_kind_for_connection_type : Str → Option Str
netdev_kind_for_connection_type t =
    if t == codes "bond"
    then some (codes "bond")
    else if t == codes "bridge"
    then some (codes "bridge")
    else if t == codes "6lowpan"
    then some (codes "lowpan")
    else if t == codes "dummy"
    then some (codes "dummy")
    else if t == codes "hsr"
    then some (codes "hsr")
    else if t == codes "ipvlan"
    then some (codes "ipvlan")
    else if t == codes "macvlan"
    then some (codes "macvlan")
    else if t == codes "team"
    then some (codes "team")
    else if t == codes "tun"
    then some (codes "tun")
    else if t == codes "veth"
    then some (codes "veth")
    else if t == codes "vlan"
    then some (codes "vlan")
    else if t == codes "vrf"
    then some (codes "vrf")
    else if t == codes "vxlan"
    then some (codes "vxlan")
    else if t == codes "wireguard"
    then some (codes "wireguard")
    else none

-- A character that a file name of iwd keeps: `is_ascii_alphanumeric` or one of ` `, `_`, `-`.
unfoldable pub is_iwd_plain : ℕ → Bool
is_iwd_plain c = is_alnum c || (eqb c b' ' || (eqb c b'_' || eqb c b'-'))

-- Two hexadecimal digits for each byte, collected.
unfoldable pub hex_bytes : List ℕ → Str
unfolding hex2
hex_bytes [] = []
hex_bytes (b ∷ bs) = hex2 b ++ hex_bytes bs

unfoldable pub encode_iwd_name : Str → Str
unfolding hex_bytes
encode_iwd_name name = if all is_iwd_plain name then name else b'=' ∷ hex_bytes (to_bytes name)

-- `dir.join(name)` for a relative name, displayed.
unfoldable pub join : Str → Str → Str
join dir name =
    if dir == []
    then name
    else if ends_with dir (codes "/")
    then dir ++ name
    else dir ++ b'/' ∷ name

-- The group with the passphrase, where there is one.
unfoldable pub security_section : Option Str → Str
security_section none = []
security_section (some passphrase) =
    (line_end ++ (codes "[Security]" ++ line_end))
    ++ (codes "Passphrase=" ++ (passphrase ++ line_end))

module _ {Value : Type 0} ⦃V : Variant Value⦄ where
  unfoldable pub networkd_filename : Host Value → Str → Str → Str
  networkd_filename host uuid extension =
      join host.networkd_config_dir (codes "90-nm-dbus-proxy-" ++ (uuid ++ b'.' ∷ extension))

  -- The file of a network of that name, with a passphrase or open.
  abbrev pub iwd_file : Host Value → Bool → Option Str → Result Str Str
  iwd_file host secured none = err (codes "Wi-Fi connection is missing SSID")
  iwd_file host secured (some name) = ok (
      join host.iwd_state_dir
        (encode_iwd_name name ++ b'.' ∷ (if secured then codes "psk" else codes "open")))

  unfoldable pub wifi_filename : Host Value → ConnectionRecord Value → Result Str Str
  wifi_filename host c = iwd_file host (is_some (wifi_passphrase c)) (ssid c)

  unfoldable pub filename_for_connection : Host Value → ConnectionRecord Value → Result Str Str
  unfolding wifi_filename networkd_filename
  filename_for_connection host c =
      if c.connection_type == wifi_type
      then wifi_filename host c
      else if c.connection_type == ethernet_type
      then ok (networkd_filename host c.uuid (codes "network"))
      else if is_some (netdev_kind_for_connection_type c.connection_type)
      then ok (networkd_filename host c.uuid (codes "netdev"))
      else ok (networkd_filename host c.uuid (codes "network"))

  unfoldable pub wifi_profile : ConnectionRecord Value → Str
  unfolding security_section
  wifi_profile c =
      (codes "[Settings]" ++ line_end)
      ++ ((codes "AutoConnect="
            ++ ((if autoconnect c then codes "true" else codes "false") ++ line_end))
          ++ ((if is_hidden c then codes "Hidden=true" ++ line_end else [])
              ++ security_section (wifi_passphrase c)))

  unfoldable pub wired_profile : ConnectionRecord Value → Str
  wired_profile c =
      (codes "[Match]" ++ line_end)
      ++ ((codes "Name=" ++ (unwrap_or (interface_name c) (codes "*") ++ line_end))
          ++ (line_end ++ ((codes "[Network]" ++ line_end) ++ (codes "DHCP=yes" ++ line_end))))

  unfoldable pub netdev_profile : ConnectionRecord Value → Result Str Str
  netdev_profile c = elim (interface_name c) [
    | none ↦ err (codes "networkd connection is missing interface-name")
    | some name ↦ ok (
        (codes "[NetDev]" ++ line_end)
        ++ ((codes "Name=" ++ (name ++ line_end))
            ++ (codes "Kind="
                ++ (unwrap_or (netdev_kind_for_connection_type c.connection_type) (codes "dummy")
                    ++ line_end))))
  ]

  -- The `match` on the type in `persist_connection`.
  unfoldable pub profile : ConnectionRecord Value → Result Str Str
  unfolding wifi_profile wired_profile netdev_profile
  profile c =
      if c.connection_type == wifi_type
      then ok (wifi_profile c)
      else if c.connection_type == ethernet_type
      then ok (wired_profile c)
      else if is_some (netdev_kind_for_connection_type c.connection_type)
      then netdev_profile c
      else ok (wired_profile c)
