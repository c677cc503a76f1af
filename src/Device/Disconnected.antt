-- ===== src/Device/Disconnected.antt =====
-- What `Disconnect` and `Delete` of a device leave behind: network_manager/device/mod.rs.
use mathlib.Core.Option
use nm_dbus_proxy_rs.Prelude.{
  ◌≡◌, refl, sym, ap, subst, Bool, Option, none, some, find_if, if◌then◌else◌,
}
use nm_dbus_proxy_rs.Text.{Str, ◌==◌}
use nm_dbus_proxy_rs.Table.{Distinct}
use nm_dbus_proxy_rs.Table.Distinct.{find-remove}
use nm_dbus_proxy_rs.Variant.{Variant}
use nm_dbus_proxy_rs.Paths.{ObjectPath}
use nm_dbus_proxy_rs.Connection.{ConnectionRecord, interface_name}
use nm_dbus_proxy_rs.Runtime.State.{RuntimeState, ActiveConnectionRecord, active_key}
use nm_dbus_proxy_rs.Runtime.Active.{
  active_connection, active_connection_for_interface, remove_active_connection, runs_on,
}
use nm_dbus_proxy_rs.Runtime.Connections.{is_named}
use nm_dbus_proxy_rs.Runtime.Invariant.{IsConsistent}
use nm_dbus_proxy_rs.Io.{Host, World, ok}
use nm_dbus_proxy_rs.Io.Keeps.{Keeps, keeps_rules}
use nm_dbus_proxy_rs.Io.Ensures.{
  Ensures, Ensures-kept, Ensures-bind, Ensures-then, Ensures-look, Ensures-pure, Ensures-update,
  Ensures-ok,
}
use nm_dbus_proxy_rs.Manager.Outside.{emit_root-Keeps, deactivate_by_type-Keeps}
use nm_dbus_proxy_rs.Device.{Device, bring_down, leave, leave_if, disconnect_}
use nm_dbus_proxy_rs.Device.Running.{IsFound, find_if-IsFound}

module _ {Value : Type 0} where
  pub bring_down-Keeps :
      {P : RuntimeState Value → Type 0}
      → (found : Option ActiveConnectionRecord) (name : Str) → Keeps P (bring_down found name)
  unfolding bring_down
  bring_down-Keeps none name = search keeps_rules
  bring_down-Keeps (some r) name = search (keeps_rules, deactivate_by_type-Keeps)

  -- The active connection at that path is gone, and no other; without a path nothing has changed.
  pub record IsWithout (path : Option ObjectPath) (before s : RuntimeState Value) : Type 0 where
    pub finds :
        (other : ObjectPath)
        → active_connection other s
          ≡ (if is_named path other then none else active_connection other before)
    pub unchanged : path ≡ none → s ≡ before

  left :
      (path other : ObjectPath) (s : RuntimeState Value)
      → IsConsistent s
      → active_connection other (remove_active_connection path s).1
        ≡ (if path == other then none else active_connection other s)
  unfolding active_connection remove_active_connection IsConsistent
  left path other s h = find-remove active_key path other s.active_connections h.0

  leave-Ensures :
      (name : Str) (path : ObjectPath) (before : RuntimeState Value)
      → IsConsistent before
      → Ensures (λ s. s ≡ before) (leave name path) (λ _. IsWithout (some path) before)
  unfolding leave is_named
  leave-Ensures name path before h = Ensures-then _ _ (search keeps_rules) λ found.
      Ensures-then _ _ (bring_down-Keeps found name) λ down.
        Ensures-bind _ _ (λ _. IsWithout (some path) before)
          (Ensures-update _ λ s q.
            subst (λ t. IsWithout (some path) before (remove_active_connection path t).1) (sym q)
              (record { finds = λ other. left path other before h; unchanged = λ e. absurd (cc) }))
          λ gone. Ensures-kept _ (search (keeps_rules, emit_root-Keeps) depth 14) λ told s l. l

  leave_if-Ensures :
      (name : Str) (path : Option ObjectPath) (before : RuntimeState Value)
      → IsConsistent before
      → Ensures (λ s. s ≡ before) (leave_if name path) (λ _. IsWithout path before)
  unfolding leave_if is_named
  leave_if-Ensures name none before h =
      Ensures-pure tt
        λ s q. record { finds = λ other. ap (active_connection other) q; unchanged = λ e. q }
  leave_if-Ensures name (some path) before h = leave-Ensures name path before h

  disconnect-Ensures :
      (d : Device) (before : RuntimeState Value)
      → IsConsistent before
      → Ensures
          (λ s. s ≡ before)
          (disconnect_ d)
          (λ _. IsWithout (active_connection_for_interface d.interface before) before)
  unfolding disconnect_
  disconnect-Ensures d before h = Ensures-look _ _ λ s q.
      subst
        (λ (o : Option ObjectPath).
          Ensures (λ s. s ≡ before) (leave_if d.interface o)
            (λ _. IsWithout (active_connection_for_interface d.interface before) before))
        (ap (active_connection_for_interface d.interface) (sym q))
        (leave_if-Ensures d.interface (active_connection_for_interface d.interface before) before h)

  -- The first active connection that runs on the interface is gone, and no other; where none does,
  -- nothing has changed.
  pub record IsLeft (name : Str) (before s : RuntimeState Value) : Type 0 where
    pub found : Option ActiveConnectionRecord
    pub is_found : IsFound name before.active_connections found
    pub finds :
        (other : ObjectPath)
        → active_connection other s ≡ (
            if is_named (Option.map active_key found) other
            then none
            else active_connection other before)
    pub unchanged : found ≡ none → s ≡ before

  left_lem :
      (name : Str) (before s : RuntimeState Value)
      → IsWithout (active_connection_for_interface name before) before s
      → IsLeft name before s
  unfolding active_connection_for_interface
  left_lem name before s h = record {
    found = find_if (runs_on name) before.active_connections;
    is_found = find_if-IsFound name before.active_connections;
    finds = h.finds;
    unchanged = λ e. h.unchanged (ap (Option.map active_key) e);
  }

  -- Where `Disconnect` returns without an error, the first active connection with a device whose
  -- path ends with the interface's name is active no more, and every other path is as it was; where
  -- there is no such active connection, the runtime is as it was. It starts from a runtime with the
  -- invariant.
  pub disconnect-IsLeft :
      (d : Device) (host : Host Value) (w : World Value)
      → IsConsistent w.runtime
      → (disconnect_ d host w).0 ≡ ok tt
      → IsLeft d.interface w.runtime (disconnect_ d host w).1.runtime
  disconnect-IsLeft d host w h e =
      left_lem d.interface w.runtime _
        (Ensures-ok (disconnect-Ensures d w.runtime h) host w tt refl e)

module _ {Value : Type 0} ⦃V : Variant Value⦄ where
  -- The connection is made for the interface.
  abbrev is_for : Str → ConnectionRecord Value → Bool
  is_for name c = is_named (interface_name c) name
