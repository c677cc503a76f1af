-- ===== src/Tests/Names.antt =====
-- The theorems on object path segments, at concrete names.
use nm_dbus_proxy_rs.Prelude.{◌≡◌, refl, ◌++◌, arith}
use nm_dbus_proxy_rs.Text.{Str, codes}
use nm_dbus_proxy_rs.Text.Utf8.{IsText}
use nm_dbus_proxy_rs.Paths.{object_path_segment}
use nm_dbus_proxy_rs.Paths.Segment.{
  IsSegment, object_path_segment-IsSegment, object_path_segment-injective,
  object_path_segment_collision,
}

-- An access point's name, with a blank and a letter beyond ASCII.
abbrev cafe : Str
cafe = codes "café 5"

cafe-IsText : IsText cafe
unfolding codes
cafe-IsText = ground arith

cafe-IsSegment : IsSegment (object_path_segment cafe)
cafe-IsSegment = object_path_segment-IsSegment cafe cafe-IsText

cafe_is_one : cafe ≡ cafe
unfolding codes
cafe_is_one =
    object_path_segment-injective cafe cafe cafe-IsText cafe-IsText (ground arith) (ground arith)
      refl

vlan_collides :
    object_path_segment (codes "eth0" ++ codes ".")
    ≡ object_path_segment (codes "eth0" ++ codes "_2e")
vlan_collides = object_path_segment_collision (codes "eth0")
