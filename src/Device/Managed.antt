-- ===== src/Device/Managed.antt =====
-- What switching `Managed` of a device leaves behind: network_manager/device/mod.rs.
use nm_dbus_proxy_rs.Prelude.{◌≡◌, refl, Bool, true, false, Option, none, some, if◌then◌else◌}
use nm_dbus_proxy_rs.Text.{Str, codes, ◌==◌}
use nm_dbus_proxy_rs.Map.{lookup-insert}
use nm_dbus_proxy_rs.Paths.{ObjectPath}
use nm_dbus_proxy_rs.Runtime.State.{RuntimeState}
use nm_dbus_proxy_rs.Runtime.Active.{remove_active_connection}
use nm_dbus_proxy_rs.Runtime.Settings.{device_managed, set_device_managed}
use nm_dbus_proxy_rs.Io.{
  Io, Error, zbus, Host, World, Result, ok, err, pure, ignore, flag, ◌>>=◌, ◌>>◌,
}
use nm_dbus_proxy_rs.Io.Keeps.{Keeps, Keeps-bind, Keeps-if, Keeps-pure, Keeps-ignore, keeps_rules}
use nm_dbus_proxy_rs.Io.Ensures.{Returned}
use nm_dbus_proxy_rs.Manager.Outside.{emit_root-Keeps}
use nm_dbus_proxy_rs.Device.{
  Device, leave, leave_if, disconnect_, set_managed, emit_device_property_changed,
}
use nm_dbus_proxy_rs.Runtime.Invariant.{IsConsistent}
use nm_dbus_proxy_rs.Device.Disconnected.{IsLeft, disconnect-IsLeft, bring_down-Keeps}

module _ {Value : Type 0} where
  -- The managed flags of all interfaces.
  abbrev HasFlags : (Str → Option Bool) → RuntimeState Value → Type 0
  HasFlags given s = (name : Str) → device_managed name s ≡ given name

  removed-HasFlags :
      (given : Str → Option Bool) (path : ObjectPath) (s : RuntimeState Value)
      → HasFlags given s
      → HasFlags given (remove_active_connection path s).1
  unfolding remove_active_connection device_managed
  removed-HasFlags given path s h = h

  leave-HasFlags :
      (given : Str → Option Bool) (name : Str) (active : Option ObjectPath)
      → Keeps (HasFlags given) (leave_if name active)
  unfolding leave_if leave
  leave-HasFlags given name none = search keeps_rules
  leave-HasFlags given name (some path) =
      search (keeps_rules, removed-HasFlags, bring_down-Keeps, emit_root-Keeps) depth 20

  disconnect-HasFlags :
      (given : Str → Option Bool) (d : Device) → Keeps (HasFlags given) (disconnect_ d)
  unfolding disconnect_
  disconnect-HasFlags given d = search (keeps_rules, leave-HasFlags)

  -- The second half of the setter.
  abbrev rest : Device → Bool → Io Value Error (Unit {0})
  rest d value =
      (if value then pure tt else ignore (disconnect_ d))
      >> emit_device_property_changed zbus d.interface (codes "Managed") (flag value)

  emit-Keeps :
      {P : RuntimeState Value → Type 0}
      → (d : Device) (value : Bool)
      → Keeps P
          (emit_device_property_changed {E = Error} zbus d.interface (codes "Managed") (flag value))
  unfolding emit_device_property_changed
  emit-Keeps d value = search keeps_rules

  rest-HasFlags :
      (given : Str → Option Bool) (d : Device) (value : Bool)
      → Keeps (HasFlags given) (rest d value)
  rest-HasFlags given d value =
      Keeps-bind _ _
        (Keeps-if value _ _ (Keeps-pure tt) (Keeps-ignore _ (disconnect-HasFlags given d)))
        λ done. emit-Keeps d value

  -- The runtime behind the change of the flag.
  abbrev pub flagged : Device → Bool → World Value → World Value
  flagged d value w = record w { runtime = set_device_managed d.interface value w.runtime }

  flagged-IsConsistent :
      (d : Device) (value : Bool) (w : World Value)
      → IsConsistent w.runtime
      → IsConsistent (flagged d value w).runtime
  unfolding IsConsistent set_device_managed
  flagged-IsConsistent d value w h = h

  where_ok :
      (P : RuntimeState Value → Type 0) (r : Result Error (Unit {0})) (s : RuntimeState Value)
      → (r ≡ ok tt → P s)
      → Returned (λ done. P) r s
  where_ok P (ok tt) s k = k refl
  where_ok P (err e) s k = tt

  -- Setting `Managed`, whether it returns or fails, stores the flag of the interface and leaves those
  -- of all others. Where the device is managed now, nothing else of the runtime changes; otherwise
  -- the device is disconnected, and where that succeeds, the first active connection with a device
  -- whose path ends with the interface's name is active no more, and no other is lost. The runtime
  -- has the invariant at the start.
  pub set_managed-device_managed :
      (d : Device) (host : Host Value) (w : World Value)
      → IsConsistent w.runtime
      → ((value : Bool) (name : Str)
          → device_managed name (set_managed d value host w).1.runtime
            ≡ (if d.interface == name then some value else device_managed name w.runtime))
        × ((set_managed d true host w).1.runtime ≡ set_device_managed d.interface true w.runtime)
        × Returned
            (λ done. IsLeft d.interface (flagged d false w).runtime)
            (disconnect_ d host (flagged d false w)).0
            (set_managed d false host w).1.runtime
  unfolding set_managed ◌>>=◌ device_managed set_device_managed ignore
  set_managed-device_managed d host w h = (
    λ value name.
        (rest-HasFlags
            (λ asked. if d.interface == asked then some value else device_managed asked w.runtime) d
            value).at
          host (flagged d value w)
          (λ asked. lookup-insert d.interface asked value w.runtime.device_managed) name,
    (emit-Keeps {P = λ s. s ≡ set_device_managed d.interface true w.runtime} d true).at host
        (flagged d true w) refl,
    where_ok (IsLeft d.interface (flagged d false w).runtime) _ _ λ e.
        (emit-Keeps {P = IsLeft d.interface (flagged d false w).runtime} d false).at host _
          (disconnect-IsLeft d host (flagged d false w) (flagged-IsConsistent d false w h) e),
  )
