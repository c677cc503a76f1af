-- ===== src/Manager/Outside.antt =====
-- The parts of the handlers that only ask and tell the outside: they keep every predicate of the
-- runtime.
use nm_dbus_proxy_rs.Prelude.{last, Option}
use nm_dbus_proxy_rs.Text.{Str}
use nm_dbus_proxy_rs.Variant.{Variant}
use nm_dbus_proxy_rs.Paths.{ObjectPath}
use nm_dbus_proxy_rs.Connection.{ConnectionRecord, is_hidden}
use nm_dbus_proxy_rs.Runtime.State.{RuntimeState, ActiveConnection}
use nm_dbus_proxy_rs.Signals.{
  emit_root_runtime_changes, emit_device_runtime_changes, emit_settings_changed, emit_object_added,
  emit_object_removed, connectivity_from_runtime,
}
use nm_dbus_proxy_rs.Io.Keeps.{Keeps, keeps_rules, Keeps-bind, Keeps-if, Keeps-option}
use nm_dbus_proxy_rs.Persistence.Files.{persist_connection}
use nm_dbus_proxy_rs.SettingsConnection.{tell_agent}
use nm_dbus_proxy_rs.Manager.Links.{
  request_iwd, deactivate_wifi_connection, activate_wired_connection, deactivate_wired_connection,
  known_network_for_name, deactivate_by_type, activate_wifi_connection,
}
use nm_dbus_proxy_rs.Manager.Activation.{serve_active, target_interface, bring_up}

module _ {Value : Type 0} {P : RuntimeState Value → Type 0} where
  pub connectivity-Keeps : {E : Type 0} → Keeps P (connectivity_from_runtime {E = E})
  unfolding connectivity_from_runtime
  connectivity-Keeps = search keeps_rules depth 14

  pub emit_object_added-Keeps :
      {E : Type 0}
      → (wrap : Str → E) (path : ObjectPath) (name : Str)
      → Keeps P (emit_object_added wrap path name)
  unfolding emit_object_added
  emit_object_added-Keeps wrap path name = search keeps_rules

  pub emit_object_removed-Keeps :
      {E : Type 0}
      → (wrap : Str → E) (path : ObjectPath) (name : Str)
      → Keeps P (emit_object_removed wrap path name)
  unfolding emit_object_removed
  emit_object_removed-Keeps wrap path name = search keeps_rules

  pub emit_settings-Keeps :
      {E : Type 0}
      → (wrap : Str → E) (hostname : Option Str) → Keeps P (emit_settings_changed wrap hostname)
  unfolding emit_settings_changed
  emit_settings-Keeps wrap hostname = search keeps_rules

  pub emit_root-Keeps : {E : Type 0} → (wrap : Str → E) → Keeps P (emit_root_runtime_changes wrap)
  unfolding emit_root_runtime_changes
  emit_root-Keeps wrap = search (keeps_rules, connectivity-Keeps)

  pub emit_device-Keeps :
      {E : Type 0} → (wrap : Str → E) (name : Str) → Keeps P (emit_device_runtime_changes wrap name)
  unfolding emit_device_runtime_changes
  emit_device-Keeps wrap name = search keeps_rules

  pub request_iwd-Keeps : Keeps P request_iwd
  unfolding request_iwd
  request_iwd-Keeps = search keeps_rules

  pub deactivate_wifi-Keeps : (name : Str) → Keeps P (deactivate_wifi_connection name)
  unfolding deactivate_wifi_connection
  deactivate_wifi-Keeps name = search (keeps_rules, request_iwd-Keeps)

  pub deactivate_wired-Keeps : (name : Str) → Keeps P (deactivate_wired_connection name)
  unfolding deactivate_wired_connection
  deactivate_wired-Keeps name = search keeps_rules

  pub activate_wired-Keeps : (name : Str) → Keeps P (activate_wired_connection name)
  unfolding activate_wired_connection
  activate_wired-Keeps name = search keeps_rules

  pub deactivate_by_type-Keeps : (type_ name : Str) → Keeps P (deactivate_by_type type_ name)
  unfolding deactivate_by_type
  deactivate_by_type-Keeps type_ name = search (keeps_rules, deactivate_wifi-Keeps)

  known_network-Keeps : (name : Str) → Keeps P (known_network_for_name name)
  unfolding known_network_for_name
  known_network-Keeps name = search (keeps_rules, request_iwd-Keeps)

  pub tell_agent-Keeps : (method : Str) (c : ConnectionRecord Value) → Keeps P (tell_agent method c)
  unfolding tell_agent
  tell_agent-Keeps method c =
      Keeps-bind _ _ (search keeps_rules)
        (λ agents. Keeps-option (last agents) _ _ (search keeps_rules) (λ b. search keeps_rules))

  pub serve_active-Keeps :
      (path : ObjectPath) (value : ActiveConnection) → Keeps P (serve_active path value)
  unfolding serve_active
  serve_active-Keeps path value = search keeps_rules

module _ {Value : Type 0} ⦃V : Variant Value⦄ {P : RuntimeState Value → Type 0} where
  pub activate_wifi-Keeps :
      (c : ConnectionRecord Value) (name : Str) → Keeps P (activate_wifi_connection c name)
  unfolding activate_wifi_connection
  activate_wifi-Keeps c name = Keeps-bind _ _ (search keeps_rules) λ wanted.
      Keeps-bind _ _ request_iwd-Keeps λ state. Keeps-bind _ _ (search keeps_rules) λ station.
        Keeps-if (is_hidden c) _ _ (search keeps_rules) (
          Keeps-bind _ _ (known_network-Keeps wanted) λ known.
            Keeps-option known _ _ (search keeps_rules)
              λ network. search (keeps_rules, tell_agent-Keeps))

  pub target_interface-Keeps :
      (c : ConnectionRecord Value) (device : ObjectPath) → Keeps P (target_interface c device)
  unfolding target_interface
  target_interface-Keeps c device = search keeps_rules

  pub bring_up-Keeps : (c : ConnectionRecord Value) (name : Str) → Keeps P (bring_up c name)
  unfolding bring_up
  bring_up-Keeps c name = search (keeps_rules, activate_wifi-Keeps)

  pub persist_connection-Keeps : (c : ConnectionRecord Value) → Keeps P (persist_connection c)
  unfolding persist_connection
  persist_connection-Keeps c = search keeps_rules depth 14
