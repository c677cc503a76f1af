-- ===== src/Links/Withdrawn.antt =====
-- What is left of the further interfaces of a device when it is taken away: `register` and
-- `unregister_device_aux_interfaces` of network_manager/device/specialized.rs compared.
use nm_dbus_proxy_rs.Prelude.{
  ◌≡◌, refl, sym, ap, ◌∙◌, ℕ, ◌<◌, Bool, true, false, ◌&&◌, ◌||◌, not, List, [], ◌∷◌, ◌++◌, any,
  arith, eqb, zero, suc, all, All, if◌then◌else◌,
}
use nm_dbus_proxy_rs.Text.{Str, contains, codes, starts_with}
use nm_dbus_proxy_rs.Text.Utf8.{to_bytes, encode, IsText, IsText-lt}
use nm_dbus_proxy_rs.Text.Hex.{is_alnum}
use nm_dbus_proxy_rs.Paths.{
  ObjectPath, device_object_path, last_segment, object_path_segment, escape, or_underscore,
  escape_byte, is_plain, nm_devices_path,
}
use nm_dbus_proxy_rs.Paths.Segment.{object_path_segment-IsSegment}
use nm_dbus_proxy_rs.Runtime.Fresh.{after_last-join}
use nm_dbus_proxy_rs.Enums.{Kind, LinkType}
use nm_dbus_proxy_rs.Links.{Link}
use nm_dbus_proxy_rs.Links.Objects.{
  AuxObject, AuxInterface, interface_of, same_interface, aux_number,
}
use nm_dbus_proxy_rs.Links.Aux.{
  register_device_aux_interfaces, unregister_device_aux_interfaces, aux_objects, aux_interfaces,
  kind_objects, kind_interfaces, type_objects, type_interfaces, ppp_objects, is_type_ppp,
  generic_objects, generic_interfaces,
}
use nm_dbus_proxy_rs.Links.Served.{is_served, is_served-register, is_served-unregister}
use nm_dbus_proxy_rs.Io.{Host, World, Result, ok}

any-append :
    {A : Type 0} → (p : A → Bool) (xs ys : List A) → any p (xs ++ ys) ≡ (any p xs || any p ys)
unfolding any
any-append p [] ys = refl
any-append p (x ∷ xs) ys = ground (arith, any-append p xs ys)

-- `p` for `ppp`, read letter by letter through the escape.
starts_with-escape :
    (c : ℕ) (s p : Str)
    → c < 0x110000
    → starts_with (escape (to_bytes (c ∷ s))) (b'p' ∷ p)
      ≡ (if eqb c b'p' then starts_with (escape (to_bytes s)) p else false)
unfolding starts_with escape to_bytes escape_byte is_plain is_alnum encode
starts_with-escape c s p h = ground arith

-- `p` so many times.
repeat_p : ℕ → Str
repeat_p zero = []
repeat_p (suc n) = b'p' ∷ repeat_p n

starts_with-repeat_p :
    (n : ℕ) (s : Str)
    → All (λ c. c < 0x110000) s
    → starts_with (escape (to_bytes s)) (repeat_p n) ≡ starts_with s (repeat_p n)
unfolding repeat_p starts_with escape to_bytes
starts_with-repeat_p zero [] h = refl
starts_with-repeat_p zero (c ∷ s) h = refl
starts_with-repeat_p (suc n) [] h = refl
starts_with-repeat_p (suc n) (c ∷ s) h =
    starts_with-escape c s (repeat_p n) h.0 ∙ ground (arith, starts_with-repeat_p n s h.1)

plain-contains : (s : Str) → all is_plain s ≡ true → contains b'/' s ≡ false
unfolding all is_plain is_alnum contains
plain-contains [] h = refl
plain-contains (c ∷ s) h = ground (arith, plain-contains s)

or_underscore-starts :
    (s : Str) → starts_with (or_underscore s) (codes "ppp") ≡ starts_with s (codes "ppp")
unfolding or_underscore starts_with codes
or_underscore-starts [] = refl
or_underscore-starts (c ∷ s) = refl

-- A device's path ends in `ppp…` exactly where its name starts so.
pub last_segment-ppp :
    (name : Str)
    → IsText name
    → starts_with (last_segment (device_object_path name)) (codes "ppp")
      ≡ starts_with name (codes "ppp")
unfolding device_object_path object_path_segment repeat_p codes
last_segment-ppp name h =
    ap (λ s. starts_with s (codes "ppp"))
      (after_last-join nm_devices_path (object_path_segment name)
        (plain-contains (object_path_segment name) (object_path_segment-IsSegment name h).0))
    ∙ or_underscore-starts (escape (to_bytes name))
    ∙ starts_with-repeat_p 3 name (IsText-lt name h)

module _ (i : AuxInterface) where
  abbrev objects_give : List AuxObject → Bool
  objects_give = any (λ o. same_interface (interface_of o) i)

  abbrev interfaces_give : List AuxInterface → Bool
  interfaces_give = any (λ j. same_interface j i)

  kind_give :
      (kind : Kind) (path : ObjectPath) (link : Link)
      → objects_give (kind_objects kind path link) ≡ interfaces_give (kind_interfaces kind)
  unfolding kind_objects kind_interfaces any same_interface interface_of
  kind_give kind path link = ground arith

  generic_give :
      (kind : Kind)
      → objects_give (generic_objects kind) ≡ interfaces_give (generic_interfaces kind)
  unfolding generic_objects generic_interfaces any same_interface interface_of
  generic_give kind = ground arith

  type_give :
      (link_type : LinkType) (link : Link)
      → objects_give (type_objects link_type link) ≡ true
      → interfaces_give (type_interfaces link.description.kind link_type) ≡ true
  unfolding type_objects type_interfaces any same_interface interface_of
  type_give link_type link h = ground (arith, generic_give link.description.kind)

  -- The two interfaces of PPP.
  unfoldable pub is_ppp_interface : Bool
  unfolding same_interface
  is_ppp_interface = same_interface AuxInterface.device_ppp i || same_interface AuxInterface.ppp i

  ppp_give : (b : Bool) → objects_give (ppp_objects b) ≡ (b && is_ppp_interface)
  unfolding ppp_objects any is_ppp_interface interface_of
  ppp_give b = ground arith

  kind_no_ppp :
      (kind : Kind) → is_ppp_interface ≡ true → interfaces_give (kind_interfaces kind) ≡ false
  unfolding kind_interfaces any is_ppp_interface same_interface aux_number
  kind_no_ppp kind h = ground arith

  type_no_ppp :
      (kind : Kind) (link_type : LinkType)
      → is_ppp_interface ≡ true
      → interfaces_give (type_interfaces kind link_type) ≡ false
  unfolding type_interfaces generic_interfaces any is_ppp_interface same_interface aux_number
  type_no_ppp kind link_type h = ground arith

  objects_total :
      (path : ObjectPath) (link : Link)
      → objects_give (aux_objects path link) ≡ (
          same_interface AuxInterface.statistics i
          || (objects_give (kind_objects link.description.kind path link)
              || (objects_give (type_objects link.description.link_type link)
                  || ((starts_with link.description.name (codes "ppp")
                        || is_type_ppp link.description.link_type)
                      && is_ppp_interface))))
  unfolding aux_objects any interface_of
  objects_total path link =
      let serves : AuxObject → Bool = λ o. same_interface (interface_of o) i in
      let kinds = kind_objects link.description.kind path link in
      let types = type_objects link.description.link_type link in
      let ppps = ppp_objects (
        starts_with link.description.name (codes "ppp")
        || is_type_ppp link.description.link_type) in
      ground (
        arith,
        any-append serves (kinds ++ types) ppps,
        any-append serves kinds types,
        ppp_give (
            starts_with link.description.name (codes "ppp")
            || is_type_ppp link.description.link_type),
      )

  interfaces_total :
      (path : ObjectPath) (kind : Kind) (link_type : LinkType)
      → interfaces_give (aux_interfaces path kind link_type) ≡ (
          same_interface AuxInterface.statistics i
          || (interfaces_give (kind_interfaces kind)
              || (interfaces_give (type_interfaces kind link_type)
                  || (starts_with (last_segment path) (codes "ppp") && is_ppp_interface))))
  unfolding aux_interfaces any is_ppp_interface
  interfaces_total path kind link_type =
      let kinds = kind_interfaces kind in
      let types = type_interfaces kind link_type in
      let is : AuxInterface → Bool = λ j. same_interface j i in
      let ppps : List AuxInterface =
        if starts_with (last_segment path) (codes "ppp")
        then AuxInterface.device_ppp ∷ AuxInterface.ppp ∷ []
        else [] in
      ground (arith, any-append is (kinds ++ types) ppps, any-append is kinds types)

  statistics_no_ppp : is_ppp_interface ≡ true → same_interface AuxInterface.statistics i ≡ false
  unfolding is_ppp_interface same_interface aux_number
  statistics_no_ppp h = ground arith

leftover :
    (s k served withdrawn ppp name_ppp type_ppp : Bool)
    → (served ≡ true → withdrawn ≡ true)
    → (ppp ≡ true → s ≡ false)
    → (ppp ≡ true → k ≡ false)
    → (ppp ≡ true → withdrawn ≡ false)
    → (if s || (k || (withdrawn || (name_ppp && ppp)))
        then false
        else s || (k || (served || ((name_ppp || type_ppp) && ppp))) || false)
      ≡ ((ppp && type_ppp) && not name_ppp)
leftover s k served withdrawn ppp name_ppp type_ppp f g h j = ground arith

-- Once a device's further interfaces were registered, none of which its path served before, to
-- unregister them leaves no interface, except the two of PPP: these stay exactly where the link's
-- type is PPP and its name does not start with `ppp`.
pub unregister-register :
    {Value : Type 0}
    → (host : Host Value) (w w' : World Value) (link : Link) (path : ObjectPath) (i : AuxInterface)
    → path ≡ device_object_path link.description.name
    → IsText link.description.name
    → register_device_aux_interfaces path link host w ≡ (ok tt, w')
    → is_served host path i w.calls ≡ false
    → is_served host path i
        (unregister_device_aux_interfaces {E = Str} path link.description.kind
          link.description.link_type host w').1.calls
      ≡ ((is_ppp_interface i && is_type_ppp link.description.link_type)
          && not (starts_with link.description.name (codes "ppp")))
unfolding register_device_aux_interfaces unregister_device_aux_interfaces
unregister-register {Value} host w w' link path i at text done before =
    let kind = link.description.kind in
    let link_type = link.description.link_type in
    let gone = is_served-unregister host path i Str (aux_interfaces path kind link_type) w' in
    let there = is_served-register host path i (aux_objects path link) w (ap (λ r. r.0) done) in
    let there' =
      ap (λ (r : Result Str (Unit {0}) × World Value). is_served host path i r.1.calls) (sym done)
      ∙ there in
    let segment =
      ap (λ p. starts_with (last_segment p) (codes "ppp")) at
      ∙ last_segment-ppp link.description.name text in
    gone
    ∙ rw
        (
          there',
          before,
          objects_total i path link,
          interfaces_total i path kind link_type,
          segment,
          kind_give i kind path link,
        )
        (leftover (same_interface AuxInterface.statistics i) _ _ _ (is_ppp_interface i) _ _
          (type_give i link_type link) (statistics_no_ppp i) (kind_no_ppp i kind)
          (type_no_ppp i kind link_type))
