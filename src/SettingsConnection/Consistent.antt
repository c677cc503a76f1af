-- ===== src/SettingsConnection/Consistent.antt =====
-- The parts of settings_connection.rs that leave every runtime as it is, and the invariant of the
-- runtime under the handlers of agent_manager.rs.
use nm_dbus_proxy_rs.Prelude.{ℕ, Option}
use nm_dbus_proxy_rs.Text.{Str}
use nm_dbus_proxy_rs.Variant.{Variant}
use nm_dbus_proxy_rs.Paths.{ObjectPath}
use nm_dbus_proxy_rs.Connection.{ConnectionRecord}
use nm_dbus_proxy_rs.Runtime.State.{RuntimeState}
use nm_dbus_proxy_rs.Runtime.Invariant.{IsConsistent}
use nm_dbus_proxy_rs.Runtime.Kept.{consistent_rules}
use nm_dbus_proxy_rs.Io.{Io, Host, World}
use nm_dbus_proxy_rs.Io.Keeps.{Keeps, keeps_rules, Keeps-bind, Keeps-option, Keeps-pure}
use nm_dbus_proxy_rs.Persistence.Files.{delete_persisted_connection}
use nm_dbus_proxy_rs.Signals.{emit_connection_changed}
use nm_dbus_proxy_rs.Manager.Outside.{emit_settings-Keeps, persist_connection-Keeps}
use nm_dbus_proxy_rs.SettingsConnection.{
  announce_update, find_connection, persist_prepared_connection, mode_memory, mode_disk, mode_keep,
  mode_conflict, Update2Mode,
}
use nm_dbus_proxy_rs.AgentManager.{register, register_with_capabilities, unregister}

module _ {Value : Type 0} where
  pub delete_persisted-Keeps :
      {P : RuntimeState Value → Type 0}
      → (c : ConnectionRecord Value) → Keeps P (delete_persisted_connection c)
  unfolding delete_persisted_connection
  delete_persisted-Keeps c = search keeps_rules

  pub emit_connection-Keeps :
      {P : RuntimeState Value → Type 0} {E : Type 0}
      → (wrap : Str → E) (path : ObjectPath) → Keeps P (emit_connection_changed wrap path)
  unfolding emit_connection_changed
  emit_connection-Keeps wrap path =
      Keeps-bind _ _ (search keeps_rules)
        λ found. Keeps-option found _ _ (Keeps-pure tt) λ c. search keeps_rules

  pub announce-Keeps :
      {P : RuntimeState Value → Type 0} → (path : ObjectPath) → Keeps P (announce_update path)
  unfolding announce_update
  announce-Keeps path = search (keeps_rules, emit_connection-Keeps, emit_settings-Keeps)

  pub find_connection-Keeps :
      {P : RuntimeState Value → Type 0} → (path : ObjectPath) → Keeps P (find_connection path)
  unfolding find_connection
  find_connection-Keeps path = search keeps_rules

  register-IsConsistent :
      (identifier : Str) (sender : Option Str)
      → Keeps (IsConsistent {Value = Value}) (register identifier sender)
  unfolding register
  register-IsConsistent identifier sender = search (keeps_rules, consistent_rules) depth 14

  register_with_capabilities-IsConsistent :
      (identifier : Str) (capabilities : ℕ) (sender : Option Str)
      → Keeps
          (IsConsistent {Value = Value})
          (register_with_capabilities identifier capabilities sender)
  unfolding register_with_capabilities
  register_with_capabilities-IsConsistent identifier capabilities sender =
      search (keeps_rules, consistent_rules, register-IsConsistent) depth 14

  unregister-IsConsistent :
      (sender : Option Str) → Keeps (IsConsistent {Value = Value}) (unregister sender)
  unfolding unregister
  unregister-IsConsistent sender = search (keeps_rules, consistent_rules) depth 14

  -- `Register`, `RegisterWithCapabilities` and `Unregister` keep the invariant of the runtime, whether
  -- they return or fail.
  pub agents-IsConsistent :
      (identifier : Str) (capabilities : ℕ) (sender : Option Str) (host : Host Value)
      (w : World Value)
      → IsConsistent w.runtime
      → IsConsistent (register identifier sender host w).1.runtime
        × IsConsistent (register_with_capabilities identifier capabilities sender host w).1.runtime
        × IsConsistent (unregister sender host w).1.runtime
  agents-IsConsistent identifier capabilities sender host w h = (
    (register-IsConsistent identifier sender).at host w h,
    (register_with_capabilities-IsConsistent identifier capabilities sender).at host w h,
    (unregister-IsConsistent sender).at host w h,
  )

module _ {Value : Type 0} ⦃V : Variant Value⦄ where
  pub prepared-Keeps :
      {P : RuntimeState Value → Type 0}
      → (existing changed : ConnectionRecord Value)
      → Keeps P (persist_prepared_connection existing changed)
  unfolding persist_prepared_connection
  prepared-Keeps existing changed =
      search (keeps_rules, persist_connection-Keeps, delete_persisted-Keeps) depth 14

  pub Keeps-mode :
      {P : RuntimeState Value → Type 0} {E A : Type 0}
      → (m : Update2Mode) (a : Io Value E A) (f : Update2Mode → Io Value E A) → Keeps P a
      → ((n : Update2Mode) → Keeps P (f n))
      → Keeps P (elim m [ mode_conflict ↦ a | mode ↦ f mode ])
  Keeps-mode mode_memory a f ka kf = kf mode_memory
  Keeps-mode mode_disk a f ka kf = kf mode_disk
  Keeps-mode mode_keep a f ka kf = kf mode_keep
  Keeps-mode mode_conflict a f ka kf = ka
