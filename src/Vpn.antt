-- ===== src/Vpn.antt =====
-- vpn_plugin.rs: the VPN plugin object, its state and the signals that it sends. What the bus does
-- is a `Bus`: whether the emitter is made, and which of the signals are sent.
pub mod Announced
use nm_dbus_proxy_rs.Prelude.{ℕ, Bool, true, false, List, [], ◌∷◌, Option, none, some}
use nm_dbus_proxy_rs.Text.{Str}
use nm_dbus_proxy_rs.Map.{Map}
use nm_dbus_proxy_rs.Io.{Result, ok, err, Error, failed}

-- The signals of the interface that its methods send.
pub data Signal (Value : Type 0) : Type 0 where
  state_changed : ℕ → Signal Value
  secrets_required : Str → List Str → Signal Value
  config : Map Value → Signal Value
  ip4_config : Map Value → Signal Value
  ip6_config : Map Value → Signal Value
  failure : ℕ → Signal Value

-- The slot of the state, and the signals that were to be sent, the latest first.
pub record VpnPlugin (Value : Type 0) : Type 0 where
  pub state : ℕ
  pub signals : List (Signal Value)

-- The error of `SignalEmitter::new`, and that of a signal after those that were sent before.
pub record Bus (Value : Type 0) : Type 0 where
  pub emitter_error : Option Str
  pub send_error : List (Signal Value) → Signal Value → Option Str

abbrev sent : Option Str → Result Error Unit
sent none = ok tt
sent (some message) = err (failed message)

module _ {Value : Type 0} where
  -- `*state_slot().lock() = state`.
  unfoldable pub put_state : ℕ → VpnPlugin Value → VpnPlugin Value
  put_state state p = record p { state = state }

  -- One of the `emit_` functions: the signal is to be sent, and may fail.
  unfoldable pub emit : Signal Value → VpnPlugin Value → VpnPlugin Value
  emit signal p = record p { signals = signal ∷ p.signals }

  -- `Self::emit_state_changed(&emitter, state)`, behind the making of the emitter.
  abbrev emit_changed :
      Option Str → Bus Value → ℕ → VpnPlugin Value → Result Error Unit × VpnPlugin Value
  emit_changed (some message) bus state p = (err (failed message), p)
  emit_changed none bus state p =
      (sent (bus.send_error p.signals (state_changed state)), emit (state_changed state) p)

  -- The same body, with a signal whose failure is dropped.
  abbrev emit_dropped :
      {A : Type 0}
      → Option Str
      → A
      → Signal Value
      → VpnPlugin Value
      → Result Error A × VpnPlugin Value
  emit_dropped (some message) value signal p = (err (failed message), p)
  emit_dropped none value signal p = (ok value, emit signal p)

  unfoldable pub connect :
      Bus Value → Map (Map Value) → VpnPlugin Value → Result Error Unit × VpnPlugin Value
  unfolding put_state emit
  connect bus connection p = emit_changed bus.emitter_error bus 1 (put_state 1 p)

  unfoldable pub connect_interactive :
      Bus Value
      → Map (Map Value)
      → Map Value
      → VpnPlugin Value
      → Result Error Unit × VpnPlugin Value
  unfolding put_state emit
  connect_interactive bus connection details p =
      emit_changed bus.emitter_error bus 1 (put_state 1 p)

  unfoldable pub need_secrets :
      Bus Value → Map (Map Value) → VpnPlugin Value → Result Error Str × VpnPlugin Value
  unfolding emit
  need_secrets bus settings p = emit_dropped bus.emitter_error [] (secrets_required [] []) p

  unfoldable pub disconnect : Bus Value → VpnPlugin Value → Result Error Unit × VpnPlugin Value
  unfolding put_state emit
  disconnect bus p = emit_changed bus.emitter_error bus 0 (put_state 0 p)

  unfoldable pub set_config :
      Bus Value → Map Value → VpnPlugin Value → Result Error Unit × VpnPlugin Value
  unfolding emit
  set_config bus values p = emit_dropped bus.emitter_error tt (config values) p

  unfoldable pub set_ip4_config :
      Bus Value → Map Value → VpnPlugin Value → Result Error Unit × VpnPlugin Value
  unfolding emit
  set_ip4_config bus values p = emit_dropped bus.emitter_error tt (ip4_config values) p

  unfoldable pub set_ip6_config :
      Bus Value → Map Value → VpnPlugin Value → Result Error Unit × VpnPlugin Value
  unfolding emit
  set_ip6_config bus values p = emit_dropped bus.emitter_error tt (ip6_config values) p

  abbrev emit_failure : Option Str → VpnPlugin Value → Result Error Unit × VpnPlugin Value
  emit_failure (some message) p = (err (failed message), p)
  emit_failure none p = (ok tt, emit (state_changed 0) (emit (failure 0) p))

  unfoldable pub set_failure :
      Bus Value → Str → VpnPlugin Value → Result Error Unit × VpnPlugin Value
  unfolding put_state emit
  set_failure bus reason p = emit_failure bus.emitter_error (put_state 0 p)

  unfoldable pub new_secrets :
      Map (Map Value) → VpnPlugin Value → Result Error Unit × VpnPlugin Value
  new_secrets connection p = (ok tt, p)

  -- One call of a method, whatever it returns.
  pub data Step (bus : Bus Value) (p : VpnPlugin Value) : VpnPlugin Value → Type 0 where
    connects : (c : Map (Map Value)) → Step bus p (connect bus c p).1
    connects_interactive :
        (c : Map (Map Value)) (details : Map Value)
        → Step bus p (connect_interactive bus c details p).1
    needs_secrets : (c : Map (Map Value)) → Step bus p (need_secrets bus c p).1
    disconnects : Step bus p (disconnect bus p).1
    sets_config : (values : Map Value) → Step bus p (set_config bus values p).1
    sets_ip4_config : (values : Map Value) → Step bus p (set_ip4_config bus values p).1
    sets_ip6_config : (values : Map Value) → Step bus p (set_ip6_config bus values p).1
    fails : (reason : Str) → Step bus p (set_failure bus reason p).1
    has_new_secrets : (c : Map (Map Value)) → Step bus p (new_secrets c p).1

  -- The slot starts at 0.
  abbrev pub started : VpnPlugin Value
  started = record { state = 0; signals = [] }

  pub data Reached (bus : Bus Value) : VpnPlugin Value → Type 0 where
    at_start : Reached bus started
    after : {p q : VpnPlugin Value} → Reached bus p → Step bus p q → Reached bus q
