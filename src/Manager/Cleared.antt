-- ===== src/Manager/Cleared.antt =====
-- What switching the network off leaves behind: `clear_active_connections_of_types` of
-- network_manager/mod.rs and its callers.
use nm_dbus_proxy_rs.Prelude.{◌≡◌, refl, ◌∙◌, Bool, true, false, List, [], ◌∷◌, some, any, arith}
use nm_dbus_proxy_rs.Text.{Str, ◌==◌, ==_iff}
use nm_dbus_proxy_rs.Table.{find, keys}
use nm_dbus_proxy_rs.Table.Distinct.{find-remove}
use nm_dbus_proxy_rs.Connection.{wifi_type}
use nm_dbus_proxy_rs.Signals.{emit_root_runtime_changes}
use nm_dbus_proxy_rs.Paths.{ObjectPath}
use nm_dbus_proxy_rs.Runtime.State.{RuntimeState, ActiveConnectionRecord, active_key}
use nm_dbus_proxy_rs.Runtime.Active.{
  active_connection, active_connection_paths, remove_active_connection,
}
use nm_dbus_proxy_rs.Runtime.Invariant.{IsConsistent, remove_active_connection-IsConsistent}
use nm_dbus_proxy_rs.Runtime.Kept.{consistent_rules}
use nm_dbus_proxy_rs.Io.{Host, World, ok, failed, map_err, ◌>>◌}
use nm_dbus_proxy_rs.Io.Keeps.{keeps_rules, Keeps-option, Keeps-pure}
use nm_dbus_proxy_rs.Io.Ensures.{
  Ensures, Ensures-option, Ensures-for_each, Ensures-map_err, Ensures-kept, Ensures-update,
  Ensures-then, Ensures-bind, Ensures-if, Ensures-pure, Ensures-gets, Ensures-weaken, Ensures-ok,
}
use nm_dbus_proxy_rs.Manager.Outside.{deactivate_by_type-Keeps, emit_root-Keeps}
use nm_dbus_proxy_rs.Manager.Links.{
  first_interface, forget_active, clear_active, clear_active_connections_of_types,
}
use nm_dbus_proxy_rs.Manager.Activation.{enable, sleep, switch_wireless, cleared_types}

-- The record has one of the types.
unfoldable pub has_type : List Str → ActiveConnectionRecord → Bool
has_type types r = any (λ kind. kind == r.value.type_) types

keys-any :
    (path : ObjectPath) (r : ActiveConnectionRecord) (l : List ActiveConnectionRecord)
    → find active_key path l ≡ some r
    → any (λ p. p == path) (keys active_key l) ≡ true
unfolding find keys any
keys-any path r [] e = cc
keys-any path r (a ∷ l) e = ground (arith, keys-any path r l)

module _ {Value : Type 0} where
  -- Every active connection of the types stands at one of the paths.
  unfoldable pub IsPending : List Str → List ObjectPath → RuntimeState Value → Type 0
  IsPending types paths s =
      IsConsistent s
      × ((path : ObjectPath) (r : ActiveConnectionRecord)
          → active_connection path s ≡ some r
          → has_type types r ≡ true
          → any (λ p. p == path) paths ≡ true)

  removed-IsPending :
      (types : List Str) (x : ObjectPath) (xs : List ObjectPath) (s : RuntimeState Value)
      → IsPending types (x ∷ xs) s
      → IsPending types xs (remove_active_connection x s).1
  unfolding IsPending active_connection remove_active_connection IsConsistent any
  removed-IsPending types x xs s h = (
    remove_active_connection-IsConsistent x s h.0,
    λ path r e t.
        let q = find-remove active_key x path s.active_connections h.0.0 in
        ground (arith, q, h.1 path r),
  )

  left-IsPending :
      (types : List Str) (x : ObjectPath) (xs : List ObjectPath) (r : ActiveConnectionRecord)
      (s : RuntimeState Value)
      → active_connection x s ≡ some r
      → has_type types r ≡ false
      → IsPending types (x ∷ xs) s
      → IsPending types xs s
  unfolding IsPending any
  left-IsPending types x xs r s a n h =
      (h.0, λ path q e t. ground (arith, h.1 path q, ==_iff x path))

  forget-Ensures :
      (types : List Str) (x : ObjectPath) (xs : List ObjectPath)
      → Ensures (IsPending types (x ∷ xs)) (forget_active x) (λ _. IsPending types xs)
  unfolding forget_active
  forget-Ensures types x xs =
      Ensures-bind _ _ (λ _. IsPending types xs)
        (Ensures-update _ λ s h. removed-IsPending types x xs s h)
        λ gone. Ensures-kept _ (search keeps_rules) λ done s h. h

  clear_active-Ensures :
      (types : List Str) (x : ObjectPath) (xs : List ObjectPath)
      → Ensures (IsPending types (x ∷ xs)) (clear_active types x) (λ _. IsPending types xs)
  unfolding clear_active has_type
  clear_active-Ensures types x xs =
      Ensures-bind _ _ (λ found s. IsPending types (x ∷ xs) s × (active_connection x s ≡ found))
        (Ensures-gets _ λ s h. (h, refl))
        λ found.
          Ensures-option found _ _ (λ e. Ensures-weaken _ (λ s h. h.0) (forget-Ensures types x xs))
            λ r e.
              Ensures-if _ _ _
                (λ t.
                  Ensures-weaken _ (λ s h. h.0)
                    (Ensures-then _ _
                      (Keeps-option (first_interface r) _ _ (Keeps-pure tt)
                        λ name. deactivate_by_type-Keeps r.value.type_ name)
                      λ down. forget-Ensures types x xs))
                (λ t. Ensures-pure tt λ s h. left-IsPending types x xs r s (h.1 ∙ e) t h.0)

  start-IsPending :
      (types : List Str) (s : RuntimeState Value)
      → IsConsistent s
      → IsPending types (active_connection_paths s) s
  unfolding IsPending active_connection active_connection_paths
  start-IsPending types s h = (h, λ path r e t. keys-any path r s.active_connections e)

  clear-Ensures :
      (types : List Str)
      → Ensures IsConsistent (clear_active_connections_of_types types) (λ _. IsPending types [])
  unfolding clear_active_connections_of_types
  clear-Ensures types =
      Ensures-bind _ _ (λ paths. IsPending types paths)
        (Ensures-gets _ λ s h. start-IsPending types s h)
        λ paths. Ensures-for_each (IsPending types) paths _ λ x xs. clear_active-Ensures types x xs

  -- With no path left pending, no active connection has one of the types.
  pending-has_type :
      (types : List Str) (s : RuntimeState Value) (path : ObjectPath) (r : ActiveConnectionRecord)
      → IsPending types [] s
      → active_connection path s ≡ some r
      → has_type types r ≡ false
  unfolding IsPending any
  pending-has_type types s path r h e = ground (arith, h.1 path r)

  cleared-Ensures :
      (types : List Str)
      → Ensures
          (IsConsistent {Value = Value})
          (do
            map_err failed (clear_active_connections_of_types types)
            emit_root_runtime_changes failed)
          (λ _. IsPending types [])
  cleared-Ensures types =
      Ensures-bind _ _ (λ _. IsPending types []) (Ensures-map_err failed _ (clear-Ensures types))
        λ done. Ensures-kept _ (emit_root-Keeps failed) λ told s h. h

  enable-Ensures :
      Ensures (IsConsistent {Value = Value}) (enable false) (λ _. IsPending cleared_types [])
  unfolding enable
  enable-Ensures =
      Ensures-then _ _ (search (keeps_rules, consistent_rules))
        (λ off. cleared-Ensures cleared_types)

  -- Where `Enable(false)` returns without an error, no active connection is left of the Wi-Fi or
  -- Ethernet type. It starts from a runtime with the invariant.
  pub enable-cleared :
      (host : Host Value) (w : World Value) (path : ObjectPath) (r : ActiveConnectionRecord)
      → IsConsistent w.runtime
      → (enable false host w).0 ≡ ok tt
      → active_connection path (enable false host w).1.runtime ≡ some r
      → has_type cleared_types r ≡ false
  enable-cleared host w path r h e a =
      pending-has_type cleared_types _ path r (Ensures-ok enable-Ensures host w tt h e) a

  sleep-Ensures :
      Ensures (IsConsistent {Value = Value}) (sleep true) (λ _. IsPending cleared_types [])
  unfolding sleep
  sleep-Ensures =
      Ensures-then _ _ (search (keeps_rules, consistent_rules))
        (λ off. cleared-Ensures cleared_types)

  -- Where `Sleep(true)` returns without an error, no active connection is left of the Wi-Fi or
  -- Ethernet type. It starts from a runtime with the invariant.
  pub sleep-cleared :
      (host : Host Value) (w : World Value) (path : ObjectPath) (r : ActiveConnectionRecord)
      → IsConsistent w.runtime
      → (sleep true host w).0 ≡ ok tt
      → active_connection path (sleep true host w).1.runtime ≡ some r
      → has_type cleared_types r ≡ false
  sleep-cleared host w path r h e a =
      pending-has_type cleared_types _ path r (Ensures-ok sleep-Ensures host w tt h e) a

  switch_wireless-Ensures :
      Ensures
        (IsConsistent {Value = Value})
        (switch_wireless false)
        (λ _. IsPending (wifi_type ∷ []) [])
  unfolding switch_wireless
  switch_wireless-Ensures =
      Ensures-then _ _ (search (keeps_rules, consistent_rules))
        (λ off. cleared-Ensures (wifi_type ∷ []))

  -- Where switching the radio off returns without an error, no active Wi-Fi connection is left. It
  -- starts from a runtime with the invariant.
  pub switch_wireless-cleared :
      (host : Host Value) (w : World Value) (path : ObjectPath) (r : ActiveConnectionRecord)
      → IsConsistent w.runtime
      → (switch_wireless false host w).0 ≡ ok tt
      → active_connection path (switch_wireless false host w).1.runtime ≡ some r
      → has_type (wifi_type ∷ []) r ≡ false
  switch_wireless-cleared host w path r h e a =
      pending-has_type (wifi_type ∷ []) _ path r (Ensures-ok switch_wireless-Ensures host w tt h e)
        a
