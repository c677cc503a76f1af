-- ===== src/Signals/State.antt =====
-- The state of the service as clients see it.
use nm_dbus_proxy_rs.Prelude.{◌≡◌, ◌↔◌, true, false, arith}
use nm_dbus_proxy_rs.Runtime.State.{RuntimeState}
use nm_dbus_proxy_rs.Signals.{state_from_runtime, is_offline}

module _ {Value : Type 0} where
  -- The state is 70 exactly where connectivity is not reported as none for want of a network, and
  -- is 10 exactly where the service sleeps.
  pub state_from_runtime-is_offline :
      (s : RuntimeState Value)
      → ((state_from_runtime s ≡ 70) ↔ (is_offline s ≡ false))
        × ((state_from_runtime s ≡ 10) ↔ (s.sleeping ≡ true))
  unfolding state_from_runtime is_offline
  state_from_runtime-is_offline s = ground arith
