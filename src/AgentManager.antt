-- ===== src/AgentManager.antt =====
-- network_manager/agent_manager.rs: the register of secret agents. The sender is the unique name of
-- the caller's bus connection, where the message header has one.
pub mod Registered
use nm_dbus_proxy_rs.Prelude.{ℕ, Bool, List, [], Option, none, some, is_empty, if◌then◌else◌}
use nm_dbus_proxy_rs.Text.{Str, codes}
use nm_dbus_proxy_rs.Runtime.State.{RuntimeState}
use nm_dbus_proxy_rs.Runtime.Devices.{add_registered_agent, remove_registered_agent}
use nm_dbus_proxy_rs.Io.{
  Io, Error, failed, invalid_args, pure, fail, update, change, ok_or, ◌>>=◌, ◌>>◌,
}

abbrev missing_sender : Error
missing_sender = failed (codes "missing D-Bus sender")

module _ {Value : Type 0} where
  unfoldable pub register : Str → Option Str → Io Value Error (Unit {0})
  unfolding add_registered_agent
  register identifier header_sender =
      if is_empty identifier
      then fail (invalid_args (codes "agent identifier must not be empty"))
      else do
        sender ← ok_or header_sender missing_sender
        change (
            add_registered_agent
              (record { capabilities = 0; identifier = identifier; sender = sender }))

  unfoldable pub register_with_capabilities : Str → ℕ → Option Str → Io Value Error (Unit {0})
  unfolding register add_registered_agent remove_registered_agent
  register_with_capabilities identifier capabilities header_sender = do
    sender ← ok_or header_sender missing_sender
    register identifier header_sender
    _ ← update (remove_registered_agent sender)
    change (
        add_registered_agent
          (record { capabilities = capabilities; identifier = identifier; sender = sender }))

  unfoldable pub unregister : Option Str → Io Value Error (Unit {0})
  unfolding remove_registered_agent
  unregister header_sender = do
    sender ← ok_or header_sender missing_sender
    found ← update (remove_registered_agent sender)
    _ ← ok_or found (failed (codes "unknown secret agent"))
    pure tt
