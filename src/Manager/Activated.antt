-- ===== src/Manager/Activated.antt =====
-- What `ActivateConnection` of network_manager/mod.rs leaves behind, and when it refuses.
use nm_dbus_proxy_rs.Prelude.{
  ◌≡◌, ◌∙◌, refl, sym, ap, subst, Bool, true, false, not, ◌||◌, List, [], ◌∷◌, map, Option, some,
  is_empty, if◌then◌else◌, arith,
}
use nm_dbus_proxy_rs.Text.{Str, codes, ◌==◌}
use nm_dbus_proxy_rs.Table.{keys}
use nm_dbus_proxy_rs.Enums.{NmActiveConnectionState}
use nm_dbus_proxy_rs.Table.Laws.{find-replace, find_key}
use nm_dbus_proxy_rs.Variant.{Variant}
use nm_dbus_proxy_rs.Paths.{
  ObjectPath, root_path, last_segment, active_connection_object_path, device_object_path,
}
use nm_dbus_proxy_rs.Connection.{ConnectionRecord, interface_name, id}
use nm_dbus_proxy_rs.Runtime.State.{
  RuntimeState, ActiveConnection, ActiveConnectionRecord, active_key, connection_key,
}
use nm_dbus_proxy_rs.Runtime.Connections.{connection}
use nm_dbus_proxy_rs.Runtime.Active.{
  active_connection, active_connection_paths, add_active_connection,
}
use nm_dbus_proxy_rs.Io.{Host, World, ok, err, ◌>>=◌}
use nm_dbus_proxy_rs.Io.Keeps.{keeps_rules}
use nm_dbus_proxy_rs.Io.Ensures.{
  Ensures, Ensures-ok, Ensures-given, Ensures-then, Ensures-bind, Ensures-if, Ensures-pure,
  Ensures-fail, Ensures-gets, Ensures-change, Ensures-ok_or,
}
use nm_dbus_proxy_rs.Manager.Outside.{
  bring_up-Keeps, serve_active-Keeps, emit_root-Keeps, emit_device-Keeps,
}
use nm_dbus_proxy_rs.Manager.Activation.{
  activate_connection, target_interface, active_connection_for, networking_disabled,
  refuse_when_off, finish_activation, activation_state_flags,
}

module _ {Value : Type 0} ⦃V : Variant Value⦄ where
  -- The interface that an activation is for.
  abbrev pub target_of : ConnectionRecord Value → ObjectPath → Option Str
  target_of c device = if device == root_path then interface_name c else some (last_segment device)

  -- The properties of an active connection that is made for a connection on an interface: `first`
  -- where nothing was active before.
  pub record IsMadeFor (profile : ConnectionRecord Value) (name : Str) (first : Bool)
      (value : ActiveConnection) : Type 0 where
    pub has_connection : value.connection ≡ profile.path
    pub has_device : value.devices ≡ device_object_path name ∷ []
    pub has_id : value.id ≡ id profile
    pub has_type : value.type_ ≡ profile.connection_type
    pub has_uuid : value.uuid ≡ profile.uuid
    pub is_vpn : value.vpn ≡ (profile.connection_type == codes "vpn")
    pub is_default : (value.default ≡ first) × (value.default6 ≡ first)
    pub is_up : (value.state ≡ NmActiveConnectionState.activated) × (value.state_flags ≡ 0xc)

  -- `active_path` is active for the connection at `path` on its target, and networking is on.
  pub record IsActivated (path device : ObjectPath) (before : RuntimeState Value)
      (active_path : ObjectPath) (s : RuntimeState Value) : Type 0 where
    pub profile : ConnectionRecord Value
    pub name : Str
    pub value : ActiveConnection
    pub is_known : connection path before ≡ some profile
    pub is_filed : profile.path ≡ path
    pub is_target : target_of profile device ≡ some name
    pub is_path : active_path ≡ active_connection_object_path name
    pub is_made : IsMadeFor profile name (is_empty before.active_connections) value
    pub finds :
        (other : ObjectPath)
        → active_connection other s ≡ (
            if active_path == other
            then some (record { path = active_path; value = value })
            else active_connection other before)
    pub is_on : s.networking_enabled ≡ true
    pub is_awake : s.sleeping ≡ false

  -- What an activation needs of the runtime: the connection, and networking that is on and awake.
  abbrev IsReady : ObjectPath → ConnectionRecord Value → RuntimeState Value → Type 0
  IsReady path c s =
      (connection path s ≡ some c) × (s.networking_enabled ≡ true) × (s.sleeping ≡ false)

  made_for :
      (c : ConnectionRecord Value) (name : Str) (first : Bool)
      → IsMadeFor c name first (active_connection_for c name first)
  unfolding active_connection_for activation_state_flags
  made_for c name first = record {
    has_connection = refl;
    has_device = refl;
    has_id = refl;
    has_type = refl;
    has_uuid = refl;
    is_vpn = refl;
    is_default = (refl, refl);
    is_up = (refl, refl);
  }

  target-Ensures :
      (P : RuntimeState Value → Type 0) (c : ConnectionRecord Value) (device : ObjectPath)
      → Ensures P (target_interface c device) (λ name s. P s × (target_of c device ≡ some name))
  unfolding target_interface
  target-Ensures P c device =
      Ensures-if (device == root_path) _ _ (λ e. Ensures-ok_or _ _ λ a s q h. (h, ground arith))
        (λ e. Ensures-pure _ λ s h. (h, ground arith))

  activated :
      (path device : ObjectPath) (c : ConnectionRecord Value) (name : Str)
      (before : RuntimeState Value)
      → target_of c device ≡ some name
      → IsReady path c before
      → IsActivated path device before (active_connection_object_path name) (
          add_active_connection
            (record {
              path = active_connection_object_path name;
              value = active_connection_for c name (is_empty before.active_connections);
            })
            before)
  unfolding add_active_connection connection active_connection
  activated path device c name before t h = record {
    profile = c;
    name = name;
    value = active_connection_for c name (is_empty before.active_connections);
    is_known = h.0;
    is_filed = find_key connection_key path before.connections c h.0;
    is_target = t;
    is_path = refl;
    is_made = made_for c name (is_empty before.active_connections);
    finds = λ other. find-replace active_key other _ before.active_connections;
    is_on = h.1;
    is_awake = h.2;
  }

  stored_active :
      (path device : ObjectPath) (c : ConnectionRecord Value) (name : Str) (first : Bool)
      (before s : RuntimeState Value)
      → target_of c device ≡ some name
      → IsReady path c before
      → first ≡ is_empty before.active_connections
      → s ≡ before
      → IsActivated path device before (active_connection_object_path name) (
          add_active_connection
            (record {
              path = active_connection_object_path name;
              value = active_connection_for c name first;
            })
            s)
  stored_active path device c name first before s t ready e h =
      subst
        (λ b. IsActivated path device before (active_connection_object_path name) (
          add_active_connection
            (record {
              path = active_connection_object_path name;
              value = active_connection_for c name b;
            })
            s))
        (sym e)
        (subst
          (λ r. IsActivated path device before (active_connection_object_path name) (
            add_active_connection
              (record {
                path = active_connection_object_path name;
                value = active_connection_for c name (is_empty before.active_connections);
              })
              r))
          (sym h) (activated path device c name before t ready))

  no_paths :
      (s : RuntimeState Value)
      → is_empty (active_connection_paths s) ≡ is_empty s.active_connections
  unfolding active_connection_paths keys is_empty
  no_paths s = nothing s.active_connections
    where
      nothing : (l : List ActiveConnectionRecord) → is_empty (map active_key l) ≡ is_empty l
      nothing [] = refl
      nothing (r ∷ l) = refl

  finish-Ensures :
      (path device : ObjectPath) (c : ConnectionRecord Value) (name : Str)
      (before : RuntimeState Value)
      → target_of c device ≡ some name
      → IsReady path c before
      → Ensures (λ s. s ≡ before) (finish_activation c name) (IsActivated path device before)
  unfolding finish_activation
  finish-Ensures path device c name before t ready = Ensures-then _ _ (bring_up-Keeps c name) λ up.
      Ensures-bind _ _ (λ first s. (s ≡ before) × (first ≡ is_empty before.active_connections))
        (Ensures-gets _
          λ s h. (h, ap (λ r. is_empty (active_connection_paths r)) h ∙ no_paths before))
        λ first. Ensures-given _ λ e. Ensures-then _ _ (serve_active-Keeps _ _) λ served.
          Ensures-bind _ _
            (λ _. IsActivated path device before (active_connection_object_path name))
            (Ensures-change _ λ s h. stored_active path device c name first before s t ready e h)
            λ stored. Ensures-then _ _ (search keeps_rules) λ told.
              Ensures-then _ _ (emit_root-Keeps _)
                λ root. Ensures-then _ _ (emit_device-Keeps _ name) λ done. Ensures-pure _ λ s h. h

  guard-Ensures :
      (path : ObjectPath) (c : ConnectionRecord Value) (before : RuntimeState Value)
      → connection path before ≡ some c
      → Ensures (λ s. s ≡ before) refuse_when_off (λ _ s. (s ≡ before) × IsReady path c before)
  unfolding refuse_when_off
  guard-Ensures path c before e =
      Ensures-bind _ _
        (λ disabled s.
          (s ≡ before) × ((not before.networking_enabled || before.sleeping) ≡ disabled))
        (Ensures-gets _ λ s h. (h, ap (λ r. not r.networking_enabled || r.sleeping) (sym h)))
        λ disabled.
          Ensures-if disabled _ _ (λ q. Ensures-fail _)
            λ q. Ensures-pure tt λ s h. ground (arith, e)

  activate_connection-Ensures :
      (path device : ObjectPath) (before : RuntimeState Value)
      → Ensures (λ s. s ≡ before) (activate_connection path device) (IsActivated path device before)
  unfolding activate_connection
  activate_connection-Ensures path device before =
      Ensures-bind _ _ (λ found s. (s ≡ before) × (connection path before ≡ found))
        (Ensures-gets _ λ s h. (h, ap (connection path) (sym h)))
        λ found.
          Ensures-bind _ _ (λ c s. (s ≡ before) × (connection path before ≡ some c))
            (Ensures-ok_or found _ λ c s q h. (h.0, h.1 ∙ q))
            λ c. Ensures-given _ λ e. Ensures-bind _ _ _ (target-Ensures _ c device) λ name.
              Ensures-given _ λ t.
                Ensures-bind _ _ _ (guard-Ensures path c before e)
                  λ on. Ensures-given _ λ ready. finish-Ensures path device c name before t ready

  -- Where `ActivateConnection` returns a path, that path is the one of the target interface, and is
  -- active now: with the connection at `path`, its id, type and uuid, the device of that interface
  -- alone, activated, the default exactly if nothing was active before. Every other path finds what
  -- it found before, and networking is on and awake.
  pub activate_connection-IsActivated :
      (path device active_path : ObjectPath) (host : Host Value) (w : World Value)
      → (activate_connection path device host w).0 ≡ ok active_path
      → IsActivated path device w.runtime active_path
          (activate_connection path device host w).1.runtime
  activate_connection-IsActivated path device active_path host w e =
      Ensures-ok (activate_connection-Ensures path device w.runtime) host w active_path refl e

  target-ok :
      (c : ConnectionRecord Value) (device : ObjectPath) (name : Str) (host : Host Value)
      (w : World Value)
      → target_of c device ≡ some name
      → target_interface c device host w ≡ (ok name, w)
  unfolding target_interface ◌>>=◌
  target-ok c device name host w t = ground arith

  refuse-err :
      (host : Host Value) (w : World Value)
      → (not w.runtime.networking_enabled || w.runtime.sleeping) ≡ true
      → refuse_when_off host w ≡ (err networking_disabled, w)
  unfolding refuse_when_off ◌>>=◌
  refuse-err host w off = rw off refl

  -- With networking off, or asleep, a known connection on a target is refused: nothing is asked of
  -- the outside, and the runtime stays as it is.
  pub activate_connection-refused :
      (path device : ObjectPath) (c : ConnectionRecord Value) (name : Str) (host : Host Value)
      (w : World Value)
      → connection path w.runtime ≡ some c
      → target_of c device ≡ some name
      → (not w.runtime.networking_enabled || w.runtime.sleeping) ≡ true
      → activate_connection path device host w ≡ (err networking_disabled, w)
  unfolding activate_connection ◌>>=◌
  activate_connection-refused path device c name host w e t off =
      rw (e, target-ok c device name host w t, refuse-err host w off) refl
