-- ===== src/Links/Announced.antt =====
-- The interfaces that a new device is announced with (lib.rs and network_manager/device/
-- specialized.rs) against those that its path serves.
use mathlib.Core.List.{map-append, append_assoc}
use nm_dbus_proxy_rs.Prelude.{◌≡◌, Bool, true, false, ◌||◌, ◌∷◌, ◌++◌, map, arith}
use nm_dbus_proxy_rs.Text.{Str, codes, starts_with, ◌==◌}
use nm_dbus_proxy_rs.Paths.{ObjectPath}
use nm_dbus_proxy_rs.Enums.{Kind, LinkType}
use nm_dbus_proxy_rs.Links.{Link}
use nm_dbus_proxy_rs.Links.Objects.{AuxObject, interface_of, aux_name}
use nm_dbus_proxy_rs.Links.Names.{
  kind_names, type_names, generic_names, device_aux_interface_names, maybe_wifi_p2p_interface_name,
  maybe_ppp_interface_names, optional_name, main_names, device_interface_names,
}
use nm_dbus_proxy_rs.Links.Aux.{
  aux_objects, kind_objects, type_objects, generic_objects, ppp_objects, is_type_ppp,
}

abbrev pub name_of : AuxObject → Str
name_of o = aux_name (interface_of o)

kind_names_lem :
    (kind : Kind) (path : ObjectPath) (link : Link)
    → map name_of (kind_objects kind path link) ≡ kind_names kind
unfolding kind_objects kind_names interface_of aux_name
kind_names_lem kind path link = ground arith

generic_names_lem : (kind : Kind) → map name_of (generic_objects kind) ≡ generic_names kind
unfolding generic_objects generic_names interface_of aux_name
generic_names_lem kind = ground arith

ppp_names_lem : (b : Bool) → map name_of (ppp_objects b) ≡ maybe_ppp_interface_names b
unfolding ppp_objects maybe_ppp_interface_names interface_of aux_name
ppp_names_lem b = ground arith

unfoldable pub is_type_wlan : LinkType → Bool
is_type_wlan LinkType.wlan = true
is_type_wlan _ = false

type_names_lem :
    (link_type : LinkType) (link : Link)
    → is_type_ppp link_type ≡ false
    → ((link.description.wireless_lan_interface_type == codes "p2p-device") ≡ true
        → is_type_wlan link_type ≡ true)
    → map name_of (type_objects link_type link)
      ≡ type_names link.description.kind link_type
        ++ optional_name (
            maybe_wifi_p2p_interface_name
              (link.description.wireless_lan_interface_type == codes "p2p-device"))
unfolding type_objects type_names interface_of aux_name is_type_ppp optional_name
    maybe_wifi_p2p_interface_name is_type_wlan
type_names_lem link_type link h k = ground (arith, generic_names_lem link.description.kind)

-- A new device that is neither of type PPP nor a P2P interface without being wireless is announced
-- with the names of the device itself, then exactly those of the further interfaces that are
-- registered at its path, in the order of their registration.
pub device_interface_names-aux_objects :
    (path : ObjectPath) (link : Link)
    → is_type_ppp link.description.link_type ≡ false
    → ((link.description.wireless_lan_interface_type == codes "p2p-device") ≡ true
        → is_type_wlan link.description.link_type ≡ true)
    → device_interface_names link.description.kind link.description.link_type
        (link.description.wireless_lan_interface_type == codes "p2p-device")
        (starts_with link.description.name (codes "ppp"))
      ≡ codes "org.freedesktop.NetworkManager.Device" ∷ main_names link.description.link_type
        ++ map name_of (aux_objects path link)
unfolding device_interface_names device_aux_interface_names aux_objects interface_of aux_name
device_interface_names-aux_objects path link other wireless =
    let or_false : (b : Bool) → (b || false) ≡ b = λ b. ground arith in
    simp (
      append_assoc,
      map-append,
      other,
      or_false,
      kind_names_lem link.description.kind path link,
      type_names_lem link.description.link_type link other wireless,
      ppp_names_lem (starts_with link.description.name (codes "ppp")),
    )
