-- ===== src/Runtime/Settings.antt =====
-- runtime.rs: the plain switches and texts of the runtime.
use nm_dbus_proxy_rs.Prelude.{Bool, Option}
use nm_dbus_proxy_rs.Prelude.Word.{inc64}
use nm_dbus_proxy_rs.Text.{Str}
use nm_dbus_proxy_rs.Map
use nm_dbus_proxy_rs.Map.{Map}
use nm_dbus_proxy_rs.Runtime.State.{RuntimeState}

module _ {Value : Type 0} where
  unfoldable pub device_managed : Str → RuntimeState Value → Option Bool
  device_managed name s = Map.lookup name s.device_managed

  unfoldable pub set_device_managed : Str → Bool → RuntimeState Value → RuntimeState Value
  set_device_managed name managed s = record s {
    device_managed = Map.insert name managed s.device_managed;
  }

  unfoldable pub set_hostname : Str → RuntimeState Value → RuntimeState Value
  set_hostname hostname s = record s { hostname = hostname; version_id = inc64 s.version_id }

  unfoldable pub set_networking_enabled : Bool → RuntimeState Value → RuntimeState Value
  set_networking_enabled enabled s = record s { networking_enabled = enabled }

  unfoldable pub set_connectivity_check_enabled : Bool → RuntimeState Value → RuntimeState Value
  set_connectivity_check_enabled enabled s = record s { connectivity_check_enabled = enabled }

  unfoldable pub set_global_dns_configuration : Map Value → RuntimeState Value → RuntimeState Value
  set_global_dns_configuration configuration s = record s {
    global_dns_configuration = configuration;
  }

  unfoldable pub set_logging : Str → Str → RuntimeState Value → RuntimeState Value
  set_logging level domains s = record s { logging_level = level; logging_domains = domains }

  unfoldable pub set_sleeping : Bool → RuntimeState Value → RuntimeState Value
  set_sleeping sleeping s = record s { sleeping = sleeping }

  unfoldable pub set_wimax_enabled : Bool → RuntimeState Value → RuntimeState Value
  set_wimax_enabled enabled s = record s { wimax_enabled = enabled }

  unfoldable pub set_wireless_enabled : Bool → RuntimeState Value → RuntimeState Value
  set_wireless_enabled enabled s = record s { wireless_enabled = enabled }

  unfoldable pub set_wwan_enabled : Bool → RuntimeState Value → RuntimeState Value
  set_wwan_enabled enabled s = record s { wwan_enabled = enabled }
