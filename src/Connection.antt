-- ===== src/Connection.antt =====
-- `ConnectionRecord` of runtime.rs and its methods, over the settings of settings_connection.rs.
use nm_dbus_proxy_rs.Prelude.{ℕ, Bool, true, false, Option, none, some}
use nm_dbus_proxy_rs.Text.{Str, codes}
use nm_dbus_proxy_rs.Text.Utf8.{from_utf8}
use nm_dbus_proxy_rs.Map
use nm_dbus_proxy_rs.Map.{Map}
use nm_dbus_proxy_rs.Paths.{ObjectPath}
use nm_dbus_proxy_rs.Variant.{Variant}

-- Settings groups by name, and in each the values by key.
abbrev pub ConnectionSettings : Type 0 → Type 0
ConnectionSettings Value = Map (Map Value)

pub data ConnectionOrigin : Type 0 where
  backend_wired backend_wifi user : ConnectionOrigin

pub record ConnectionRecord (Value : Type 0) : Type 0 where
  pub connection_type : Str
  pub filename : Str
  pub flags : ℕ
  pub origin : ConnectionOrigin
  pub path : ObjectPath
  pub settings : ConnectionSettings Value
  pub unsaved : Bool
  pub uuid : Str

abbrev pub wifi_type : Str
wifi_type = codes "802-11-wireless"

abbrev pub ethernet_type : Str
ethernet_type = codes "802-3-ethernet"

abbrev pub vpn_type : Str
vpn_type = codes "vpn"

abbrev pub security_group : Str
security_group = codes "802-11-wireless-security"

-- `Option::and_then`, `unwrap_or` and `is_some`.
abbrev pub and_then {ℓ κ} : {A : Type ℓ} {B : Type κ} → Option A → (A → Option B) → Option B
and_then none f = none
and_then (some a) f = f a

abbrev pub unwrap_or {ℓ} : {A : Type ℓ} → Option A → A → A
unwrap_or none d = d
unwrap_or (some a) d = a

abbrev pub is_some {ℓ} : {A : Type ℓ} → Option A → Bool
is_some none = false
is_some (some a) = true

-- `settings.get(group).and_then(|settings| settings.get(key))`.
abbrev pub get_value : {Value : Type 0} → ConnectionSettings Value → Str → Str → Option Value
get_value settings group key = and_then (Map.lookup group settings) (Map.lookup key)

module _ {Value : Type 0} ⦃V : Variant Value⦄ where
  -- The text under a group and a key, as `add_connection_inner` and `setting` read it.
  unfoldable pub get_string : ConnectionSettings Value → Str → Str → Option Str
  get_string settings group key = and_then (get_value settings group key) V.as_string

  unfoldable pub get_bool : ConnectionSettings Value → Str → Str → Bool
  get_bool settings group key = unwrap_or (and_then (get_value settings group key) V.as_bool) false

  unfoldable pub setting : ConnectionRecord Value → Str → Str → Option Str
  setting record_ group key = get_string record_.settings group key

  unfoldable pub setting_bool : ConnectionRecord Value → Str → Str → Bool
  setting_bool record_ group key = get_bool record_.settings group key

  unfoldable pub autoconnect : ConnectionRecord Value → Bool
  autoconnect c = setting_bool c (codes "connection") (codes "autoconnect")

  unfoldable pub id : ConnectionRecord Value → Str
  id c = unwrap_or (setting c (codes "connection") (codes "id")) c.path

  unfoldable pub interface_name : ConnectionRecord Value → Option Str
  interface_name c = setting c (codes "connection") (codes "interface-name")

  unfoldable pub is_hidden : ConnectionRecord Value → Bool
  is_hidden c = setting_bool c wifi_type (codes "hidden")

  unfoldable pub ssid : ConnectionRecord Value → Option Str
  ssid c = and_then (and_then (get_value c.settings wifi_type (codes "ssid")) V.as_bytes) from_utf8

  unfoldable pub wifi_passphrase : ConnectionRecord Value → Option Str
  wifi_passphrase c = setting c security_group (codes "psk")

  -- The uuid and the type follow the settings where these name them.
  unfoldable pub with_settings :
      ConnectionRecord Value → ConnectionSettings Value → ConnectionRecord Value
  unfolding get_string
  with_settings c settings = record c {
    settings = settings;
    uuid = unwrap_or (get_string settings (codes "connection") (codes "uuid")) c.uuid;
    connection_type =
        unwrap_or (get_string settings (codes "connection") (codes "type")) c.connection_type;
  }
