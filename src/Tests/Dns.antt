-- ===== src/Tests/Dns.antt =====
-- The theorem on the resolver's file, at one with two servers, a comment and two domains, and what
-- the object shows then.
use nm_dbus_proxy_rs.Prelude.{List, ◌≡◌, refl, [], ◌∷◌, some, is_empty, all}
use nm_dbus_proxy_rs.Text.{codes, contains, starts_with, ◌==◌}
use nm_dbus_proxy_rs.Text.Lines.{lines, trim, trim_end, is_white}
use nm_dbus_proxy_rs.Text.Fields.{is_field, split_whitespace}
use nm_dbus_proxy_rs.Dns.{parse_resolv_conf}
use nm_dbus_proxy_rs.Dns.Written.{
  Entry, nameserver, search, comment, text, searched, servers, parse_resolv_conf-text,
}

abbrev entries : List Entry
entries =
    comment (codes " by hand")
    ∷ nameserver (codes "1.1.1.1") []
    ∷ search (codes "lan" ∷ codes "home" ∷ [])
    ∷ nameserver (codes "::1") (codes "#" ∷ [])
    ∷ []

entries_are_read :
    parse_resolv_conf (some (text entries))
    ≡ record { domains = searched entries; nameservers = servers entries }
unfolding codes is_field all is_empty is_white contains trim_end
entries_are_read =
    parse_resolv_conf-text entries
      (record { unbroken = refl; ended = refl }, (refl, (refl, (refl, tt))))

-- A line without a value adds nothing, and `domain` adds to what is there.
bare_lines :
    parse_resolv_conf (some (codes "nameserver\n domain a b\n\nsearch c"))
    ≡ record { domains = codes "a" ∷ codes "b" ∷ codes "c" ∷ []; nameservers = [] }
unfolding codes parse_resolv_conf lines is_empty trim starts_with split_whitespace ◌==◌
bare_lines = refl
