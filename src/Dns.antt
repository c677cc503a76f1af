-- ===== src/Dns.antt =====
-- dns_manager.rs: the resolver's configuration, read from its file, and the object that shows it.
-- `resolv` is what reading the file returned, `exists` whether there is such a file.
pub mod Written
use nm_dbus_proxy_rs.Prelude.{
  Bool, ◌||◌, List, [], ◌∷◌, ◌++◌, Option, none, some, is_empty, if◌then◌else◌,
}
use nm_dbus_proxy_rs.Text.{Str, codes, ◌==◌, starts_with}
use nm_dbus_proxy_rs.Text.Lines.{lines, trim}
use nm_dbus_proxy_rs.Text.Fields.{split_whitespace}
use nm_dbus_proxy_rs.Map
use nm_dbus_proxy_rs.Map.{Map}
use nm_dbus_proxy_rs.Connection.{unwrap_or}

pub record ResolvConf : Type 0 where
  pub domains : List Str
  pub nameservers : List Str

abbrev pub no_resolv_conf : ResolvConf
no_resolv_conf = record { domains = []; nameservers = [] }

-- The arms of the `match` on the keyword.
unfoldable pub read_nameserver : List Str → ResolvConf → ResolvConf
read_nameserver [] out = out
read_nameserver (value ∷ more) out = record out { nameservers = out.nameservers ++ value ∷ [] }

unfoldable pub read_fields : List Str → ResolvConf → ResolvConf
unfolding read_nameserver
read_fields [] out = out
read_fields (keyword ∷ fields) out =
    if keyword == codes "nameserver"
    then read_nameserver fields out
    else if keyword == codes "search" || keyword == codes "domain"
    then record out { domains = out.domains ++ fields }
    else out

-- One round of the loop over the lines.
unfoldable pub read_line : Str → ResolvConf → ResolvConf
unfolding read_fields
read_line raw out =
    let line = trim raw in
    if is_empty line || starts_with line (codes "#")
    then out
    else read_fields (split_whitespace line) out

unfoldable pub read_lines : List Str → ResolvConf → ResolvConf
unfolding read_line
read_lines [] out = out
read_lines (line ∷ rest) out = read_lines rest (read_line line out)

unfoldable pub parse_resolv_conf : Option Str → ResolvConf
unfolding read_lines
parse_resolv_conf none = no_resolv_conf
parse_resolv_conf (some contents) = read_lines (lines contents) no_resolv_conf

unfoldable pub current_domains : Option Str → List Str
unfolding parse_resolv_conf
current_domains resolv = (parse_resolv_conf resolv).domains

unfoldable pub current_nameservers : Option Str → List Str
unfolding parse_resolv_conf
current_nameservers resolv = (parse_resolv_conf resolv).nameservers

unfoldable pub current_mode : Bool → Option Str
current_mode exists = if exists then some (codes "default") else none

unfoldable pub current_rc_manager : Bool → Option Str
current_rc_manager exists = if exists then some (codes "file") else none

-- `from_strings` is the D-Bus value of a vector of strings.
module _ {Value : Type 0} (from_strings : List Str → Value) where
  abbrev pub put_strings : Str → List Str → Map Value → Map Value
  put_strings key [] out = out
  put_strings key (s ∷ more) out = Map.insert key (from_strings (s ∷ more)) out

  unfoldable pub current_global_configuration : Option Str → Map Value
  unfolding parse_resolv_conf
  current_global_configuration resolv =
      let parsed = parse_resolv_conf resolv in
      put_strings (codes "domains") parsed.domains
        (put_strings (codes "nameservers") parsed.nameservers [])

  unfoldable pub current_configuration : Option Str → Option (List (Map Value))
  unfolding current_global_configuration
  current_configuration resolv =
      let configuration = current_global_configuration resolv in
      if is_empty configuration then none else some (configuration ∷ [])

pub record DnsManager (Value : Type 0) : Type 0 where
  pub configuration : List (Map Value)
  pub mode : Str
  pub rc_manager : Str

module _ {Value : Type 0} where
  unfoldable pub configuration_property :
      (List Str → Value) → Option Str → DnsManager Value → List (Map Value)
  unfolding current_configuration
  configuration_property from_strings resolv manager =
      unwrap_or (current_configuration from_strings resolv) manager.configuration

  unfoldable pub mode_property : Bool → DnsManager Value → Str
  unfolding current_mode
  mode_property exists manager = unwrap_or (current_mode exists) manager.mode

  unfoldable pub rc_manager_property : Bool → DnsManager Value → Str
  unfolding current_rc_manager
  rc_manager_property exists manager = unwrap_or (current_rc_manager exists) manager.rc_manager
