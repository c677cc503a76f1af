-- ===== src/AgentManager/Registered.antt =====
-- What registering and unregistering an agent does: agent_manager.rs.
use nm_dbus_proxy_rs.Prelude.{
  ◌≡◌, ◌≢◌, ◌↔◌, refl, ap, ◌∙◌, false, Option, none, some, is_empty, if◌then◌else◌,
}
use nm_dbus_proxy_rs.Text.{Str, codes, ◌==◌}
use nm_dbus_proxy_rs.Table.Laws.{find-replace}
use nm_dbus_proxy_rs.Table.Distinct.{find-remove}
use nm_dbus_proxy_rs.Runtime.State.{RuntimeState, RegisteredAgent, agent_key}
use nm_dbus_proxy_rs.Runtime.Devices.{
  registered_agent, add_registered_agent, remove_registered_agent,
}
use nm_dbus_proxy_rs.Runtime.Invariant.{IsConsistent}
use nm_dbus_proxy_rs.Io.{Host, World, Error, failed, ok, pure, ok_or, ◌>>=◌}
use nm_dbus_proxy_rs.AgentManager.{register, unregister}

module _ {Value : Type 0} where
  agents_after_add :
      (r : RegisteredAgent) (s : RuntimeState Value) (other : Str)
      → registered_agent other (add_registered_agent r s)
        ≡ (if r.sender == other then some r else registered_agent other s)
  unfolding registered_agent add_registered_agent
  agents_after_add r s other = find-replace agent_key other r s.registered_agents

  agents_after_remove :
      (sender : Str) (s : RuntimeState Value) (other : Str)
      → IsConsistent s
      → registered_agent other (remove_registered_agent sender s).1
        ≡ (if sender == other then none else registered_agent other s)
  unfolding registered_agent remove_registered_agent IsConsistent
  agents_after_remove sender s other h =
      find-remove agent_key sender other s.registered_agents h.1.1.1.1.0

  -- With a name and a sender, `Register` succeeds and asks nothing of the outside. The sender then
  -- has an agent of that name without capabilities, and every other sender keeps its own.
  pub register-registered :
      (identifier sender : Str) (host : Host Value) (w : World Value)
      → is_empty identifier ≡ false
      → let (r, after) = register identifier (some sender) host w in
        (r ≡ ok tt)
        × (after.calls ≡ w.calls)
        × ((other : Str)
            → registered_agent other after.runtime ≡ (
                if sender == other
                then some (record { capabilities = 0; identifier = identifier; sender = sender })
                else registered_agent other w.runtime))
  unfolding register ◌>>=◌
  register-registered identifier sender host w e =
      rw e (refl, refl, λ other. agents_after_add _ w.runtime other)

  unregistered :
      (o : Option RegisteredAgent) (e : Error) (host : Host Value) (w : World Value)
      → let (r, after) = (ok_or o e >>= λ _. pure tt) host w in
        ((r ≡ ok tt) ↔ (o ≢ none)) × (after ≡ w)
  unfolding ◌>>=◌
  unregistered none e host w = ((λ q. cc, λ n. absurd (n refl)), refl)
  unregistered (some a) e host w = ((λ q n. cc, λ n. refl), refl)

  -- `Unregister` takes the sender's agent away and no other. It fails exactly where the sender has
  -- none, and then no sender's agent changes either.
  pub unregister-registered :
      (sender : Str) (host : Host Value) (w : World Value)
      → IsConsistent w.runtime
      → let (r, after) = unregister (some sender) host w in
        ((r ≡ ok tt) ↔ (registered_agent sender w.runtime ≢ none))
        × ((other : Str)
            → registered_agent other after.runtime
              ≡ (if sender == other then none else registered_agent other w.runtime))
  unfolding unregister ◌>>=◌
  unregister-registered sender host w h =
      let (decided, same) =
        unregistered (registered_agent sender w.runtime) (failed (codes "unknown secret agent"))
          host _ in
      (
        decided,
        λ other.
            ap (λ v. registered_agent other v.runtime) same
            ∙ agents_after_remove sender w.runtime other h,
      )
