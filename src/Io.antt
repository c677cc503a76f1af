-- ===== src/Io.antt =====
-- The handlers as actions. A handler reads and writes the runtime, asks the outside (the object
-- server, the bus, files, iwd, network links, secret agents, the clock) and may return an error.
-- Every call to the outside is logged, newest first, and what it answers is a function of the
-- calls so far: the host, of which nothing is assumed.

pub mod Keeps
pub mod Ensures
pub mod Sure
use nm_dbus_proxy_rs.Prelude.{ℕ, Bool, List, [], ◌∷◌, Option, none, some, if◌then◌else◌}
use nm_dbus_proxy_rs.Prelude.Int.{ℤ}
use nm_dbus_proxy_rs.Text.{Str}
use nm_dbus_proxy_rs.Map.{Map}
use nm_dbus_proxy_rs.Paths.{ObjectPath}
use nm_dbus_proxy_rs.Connection.{ConnectionRecord, ConnectionSettings}
use nm_dbus_proxy_rs.Runtime.State.{RuntimeState, ActiveConnection}
use nm_dbus_proxy_rs.Iwd
use nm_dbus_proxy_rs.Links.Objects.{AuxObject, AuxInterface}

-- The payload of a changed property.
pub data Property (Value : Type 0) : Type 0 where
  paths : List ObjectPath → Property Value
  path : ObjectPath → Property Value
  text : Str → Property Value
  number : ℕ → Property Value
  flag : Bool → Property Value
  dict : Map Value → Property Value

pub data Signal (Value : Type 0) : Type 0 where
  interfaces_added interfaces_removed : ObjectPath → List Str → Signal Value
  properties_changed : ObjectPath → Str → List (Str × Property Value) → Signal Value
  new_connection connection_removed updated removed : ObjectPath → Signal Value
  active_state_changed : ObjectPath → ℕ → ℕ → Signal Value
  device_state_changed : ObjectPath → ℕ → ℕ → ℕ → Signal Value
  root_state_changed : ℕ → Signal Value

-- What is served at an object path; `Kind` names its interface.
pub data Object : Type 0 where
  settings_connection vpn_connection checkpoint_object : Object
  active_connection_object : ActiveConnection → Object
  aux_object : AuxObject → Object

pub data Interface : Type 0 where
  settings_connection_interface vpn_connection_interface checkpoint_interface
        active_connection_interface :
      Interface
  aux_interface : AuxInterface → Interface

pub data Call (Value : Type 0) : Type 0 where
  serve : ObjectPath → Object → Call Value
  withdraw : ObjectPath → Interface → Call Value
  emit : Signal Value → Call Value
  create_dir_all remove_file : Str → Call Value
  write_file : Str → Str → Call Value
  write_bytes : Str → List ℕ → Call Value
  ask_exists ask_bytes ask_connectivity : Str → Call Value
  ask_time ask_clock ask_files ask_iwd : Call Value
  link_up link_down link_delete : Str → Call Value
  station_disconnect station_scan : ObjectPath → Call Value
  station_connect_hidden : ObjectPath → Str → Call Value
  known_network_connect : ObjectPath → ObjectPath → Call Value
  agent_call : Str → Str → ConnectionSettings Value → ObjectPath → Call Value

pub data Result (E A : Type 0) : Type 0 where
  ok : A → Result E A
  err : E → Result E A

-- `fdo::Error`: the two that the handlers make, and one that comes from the object server.
pub data Error : Type 0 where
  failed invalid_args zbus : Str → Error

-- What the outside answers after the calls so far. `outcome` is `none` for `Ok(())`, and the text
-- of the error otherwise.
pub record Host (Value : Type 0) : Type 0 where
  pub outcome : List (Call Value) → Call Value → Option Str
  pub exists : List (Call Value) → Str → Bool
  pub boottime_millis : List (Call Value) → ℤ
  -- Milliseconds since 1970, cut off at the greatest `i64`, and 0 for a clock before that.
  pub unix_millis : List (Call Value) → ℤ
  pub connection_files : List (Call Value) → Result Str (List Str)
  pub file_bytes : List (Call Value) → Str → Result Str (List ℕ)
  pub iwd_state : List (Call Value) → Result Str Iwd.State
  pub connectivity_probe : List (Call Value) → Str → Bool
  pub connectivity_check_uri : Str
  pub iwd_state_dir : Str
  pub networkd_config_dir : Str
  pub network_dir : Str
  -- `NM_DBUS_PROXY_DEFAULT_WIFI_IFACE` of the environment.
  pub default_wifi_iface : Option Str

pub record World (Value : Type 0) : Type 0 where
  pub runtime : RuntimeState Value
  pub calls : List (Call Value)

abbrev pub Io : Type 0 → Type 0 → Type 0 → Type 0
Io Value E A = Host Value → World Value → Result E A × World Value

module _ {Value E A : Type 0} where
  pub pure : A → Io Value E A
  pure a host w = (ok a, w)

  pub fail : E → Io Value E A
  fail e host w = (err e, w)

  -- A read of the runtime under its lock, and of the configuration.
  pub gets : (RuntimeState Value → A) → Io Value E A
  gets f host w = (ok (f w.runtime), w)

  pub config : (Host Value → A) → Io Value E A
  config f host w = (ok (f host), w)

  -- A change of the runtime under its lock, with a result.
  pub update : (RuntimeState Value → A × RuntimeState Value) → Io Value E A
  update f host w = let (a, s) = f w.runtime in (ok a, record w { runtime = s })

  -- A question to the outside.
  pub query : Call Value → (Host Value → List (Call Value) → A) → Io Value E A
  query c f host w = (ok (f host w.calls), record w { calls = c ∷ w.calls })

  -- `option.ok_or_else(|| e)?`.
  pub ok_or : Option A → E → Io Value E A
  ok_or none e host w = (err e, w)
  ok_or (some a) e host w = (ok a, w)

  -- `result?` on a value that is at hand.
  unfoldable pub lift : Result E A → Io Value E A
  lift r host w = (r, w)

module _ {Value E : Type 0} where
  pub change : (RuntimeState Value → RuntimeState Value) → Io Value E (Unit {0})
  unfolding update
  change f = update (λ s. (tt, f s))

module _ {Value E A B : Type 0} where
  abbrev continue : Result E A → (A → Io Value E B) → Io Value E B
  continue (ok a) f host w = f a host w
  continue (err e) f host w = (err e, w)

  infixl 5 ◌>>=◌ ◌>>◌
  unfoldable pub ◌>>=◌ : Io Value E A → (A → Io Value E B) → Io Value E B
  unfolding pure fail gets config update query ok_or lift change
  ◌>>=◌ m f host w = let (r, w') = m host w in continue r f host w'

  abbrev pub ◌>>◌ : Io Value E A → Io Value E B → Io Value E B
  m >> n = m >>= λ _. n

unfoldable pub outcome_of : {E : Type 0} → (Str → E) → Option Str → Result E (Unit {0})
outcome_of wrap none = ok tt
outcome_of wrap (some e) = err (wrap e)

-- A call whose error is wrapped and returned: `.await.map_err(wrap)?`.
unfoldable pub request : {Value E : Type 0} → (Str → E) → Call Value → Io Value E (Unit {0})
unfolding outcome_of
request wrap c host w = (outcome_of wrap (host.outcome w.calls c), record w { calls = c ∷ w.calls })

-- `let _ = action.await`: an error is dropped, and what was done before it stays done.
unfoldable pub ignore : {Value E F A : Type 0} → Io Value E A → Io Value F (Unit {0})
ignore m host w = (ok tt, (m host w).1)

-- `match action.await { Ok(a) => …, Err(e) => … }`: the result as a value.
unfoldable pub attempt : {Value E F A : Type 0} → Io Value E A → Io Value F (Result E A)
attempt m host w = let (r, w') = m host w in (ok r, w')

map_result : {E F A : Type 0} → (E → F) → Result E A → Result F A
map_result wrap (ok a) = ok a
map_result wrap (err e) = err (wrap e)

-- `.map_err(wrap)?`.
unfoldable pub map_err : {Value E F A : Type 0} → (E → F) → Io Value E A → Io Value F A
unfolding map_result
map_err wrap m host w = let (r, w') = m host w in (map_result wrap r, w')

-- `if test { action }`.
abbrev pub when : {Value E : Type 0} → Bool → Io Value E (Unit {0}) → Io Value E (Unit {0})
when b m = if b then m else pure tt

-- `for item in items { action(item) }`.
unfoldable pub for_each :
    {Value E A : Type 0} → List A → (A → Io Value E (Unit {0})) → Io Value E (Unit {0})
unfolding pure
for_each [] f = pure tt
for_each (x ∷ xs) f = f x >>= λ _. for_each xs f
