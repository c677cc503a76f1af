-- ===== src/Device/Listening.antt =====
-- The agents that listen for the signal level of a wireless device: network_manager/device/
-- wireless.rs.
use nm_dbus_proxy_rs.Prelude.{
  ◌≡◌, refl, not, List, [], ◌∷◌, ◌++◌, Option-cases, inl, inr, keep_if, arith, if◌then◌else◌,
}
use nm_dbus_proxy_rs.Text.{Str, ◌==◌, ==_iff}
use nm_dbus_proxy_rs.Map
use nm_dbus_proxy_rs.Map.{lookup-insert}
use nm_dbus_proxy_rs.Paths.{ObjectPath}
use nm_dbus_proxy_rs.Connection.{unwrap_or}
use nm_dbus_proxy_rs.Runtime.State.{RuntimeState}
use nm_dbus_proxy_rs.Runtime.Devices.{add_signal_level_agent, remove_signal_level_agent}
use nm_dbus_proxy_rs.Io.{Host, World, ok, ◌>>=◌}
use nm_dbus_proxy_rs.Device.Wireless.{
  DeviceWireless, register_signal_level_agent, unregister_signal_level_agent,
}

module _ {Value : Type 0} where
  -- The agents of an interface, none where the interface has no entry.
  abbrev pub listeners : Str → RuntimeState Value → List ObjectPath
  listeners name s = unwrap_or (Map.lookup name s.signal_level_agents) []

  added_lem :
      (name : Str) (agent : ObjectPath) (s : RuntimeState Value) (other : Str)
      → listeners other (add_signal_level_agent name agent s)
        ≡ (if name == other then listeners name s ++ agent ∷ [] else listeners other s)
  unfolding add_signal_level_agent
  added_lem name agent s other =
      let law = lookup-insert name other (listeners name s ++ agent ∷ []) s.signal_level_agents in
      rw law (ground arith)

  removed_lem :
      (name : Str) (agent : ObjectPath) (s : RuntimeState Value) (other : Str)
      → listeners other (remove_signal_level_agent name agent s) ≡ (
          if name == other
          then keep_if (λ path. not (path == agent)) (listeners name s)
          else listeners other s)
  unfolding remove_signal_level_agent keep_if
  removed_lem name agent s other = elim (Option-cases (Map.lookup name s.signal_level_agents)) [
    | inl missing ↦
        rw (remove_signal_level_agent, missing) (ground (arith, missing, ==_iff name other))
    | inr (paths, found) ↦
        let law =
          lookup-insert name other (keep_if (λ path. not (path == agent)) paths)
            s.signal_level_agents in
        rw (remove_signal_level_agent, found, law) (ground arith)
  ]

  -- Registering an agent always returns, and puts it behind the agents of the device's interface;
  -- unregistering always returns, and takes all its entries from them, the others in their order.
  -- The agents of every other interface are left alone by both.
  pub signal_level_agents-listeners :
      (d : DeviceWireless) (agent : ObjectPath) (host : Host Value) (w : World Value)
      → let (on, registered) = register_signal_level_agent d agent host w in
        let (off, unregistered) = unregister_signal_level_agent d agent host w in
        let name = d.interface_name in
        (on ≡ ok tt)
        × (off ≡ ok tt)
        × ((other : Str)
            → (listeners other registered.runtime ≡ (
                if name == other
                then listeners name w.runtime ++ agent ∷ []
                else listeners other w.runtime))
              × (listeners other unregistered.runtime ≡ (
                  if name == other
                  then keep_if (λ path. not (path == agent)) (listeners name w.runtime)
                  else listeners other w.runtime)))
  unfolding register_signal_level_agent unregister_signal_level_agent ◌>>=◌
  signal_level_agents-listeners d agent host w = (
    refl,
    refl,
    λ other. (
      added_lem d.interface_name agent w.runtime other,
      removed_lem d.interface_name agent w.runtime other,
    ),
  )
