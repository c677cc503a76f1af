-- ===== src/Vpn/Announced.antt =====
-- What the signals of vpn_plugin.rs say of the state.
use nm_dbus_proxy_rs.Prelude.{ℕ, ◌≡◌, refl, List, [], ◌∷◌, ◌⊎◌, inl, inr, none}
use nm_dbus_proxy_rs.Vpn.{
  Signal, state_changed, secrets_required, config, ip4_config, ip6_config, failure, VpnPlugin, Bus,
  Step, connects, connects_interactive, needs_secrets, disconnects, sets_config, sets_ip4_config,
  sets_ip6_config, fails, has_new_secrets, Reached, at_start, after, connect, connect_interactive,
  need_secrets, disconnect, set_config, set_ip4_config, set_ip6_config, set_failure, new_secrets,
  put_state, emit,
}

module _ {Value : Type 0} where
  -- The state that the latest `StateChanged` tells, 0 before the first.
  unfoldable pub announced : List (Signal Value) → ℕ
  announced [] = 0
  announced (state_changed state ∷ earlier) = state
  announced (secrets_required message hints ∷ earlier) = announced earlier
  announced (config values ∷ earlier) = announced earlier
  announced (ip4_config values ∷ earlier) = announced earlier
  announced (ip6_config values ∷ earlier) = announced earlier
  announced (failure reason ∷ earlier) = announced earlier

  -- Listeners know the state, which is one of two.
  pub record IsAnnounced (p : VpnPlugin Value) : Type 0 where
    pub is_told : announced p.signals ≡ p.state
    pub is_state : (p.state ≡ 0) ⊎ (p.state ≡ 1)

  module _ (bus : Bus Value) (e : bus.emitter_error ≡ none) where
    Step-IsAnnounced : (p q : VpnPlugin Value) → Step bus p q → IsAnnounced p → IsAnnounced q
    unfolding announced connect connect_interactive need_secrets disconnect set_config
        set_ip4_config set_ip6_config set_failure new_secrets put_state emit
    Step-IsAnnounced p _ (connects c) h = rw e (record { is_told = refl; is_state = inr refl })
    Step-IsAnnounced p _ (connects_interactive c details) h =
        rw e (record { is_told = refl; is_state = inr refl })
    Step-IsAnnounced p _ (needs_secrets c) h =
        rw e (record { is_told = h.is_told; is_state = h.is_state })
    Step-IsAnnounced p _ disconnects h = rw e (record { is_told = refl; is_state = inl refl })
    Step-IsAnnounced p _ (sets_config values) h =
        rw e (record { is_told = h.is_told; is_state = h.is_state })
    Step-IsAnnounced p _ (sets_ip4_config values) h =
        rw e (record { is_told = h.is_told; is_state = h.is_state })
    Step-IsAnnounced p _ (sets_ip6_config values) h =
        rw e (record { is_told = h.is_told; is_state = h.is_state })
    Step-IsAnnounced p _ (fails reason) h = rw e (record { is_told = refl; is_state = inl refl })
    Step-IsAnnounced p _ (has_new_secrets c) h = h

    -- Where the emitter of signals can be made, the plugin's state is 0 or 1 after any sequence of
    -- calls, and the latest `StateChanged` that it gave to the bus tells that state; before the
    -- first the state is 0.
    pub Reached-IsAnnounced : (p : VpnPlugin Value) → Reached bus p → IsAnnounced p
    unfolding announced
    Reached-IsAnnounced _ at_start = record { is_told = refl; is_state = inl refl }
    Reached-IsAnnounced _ (after {p} {q} before step) =
        Step-IsAnnounced p q step (Reached-IsAnnounced p before)
