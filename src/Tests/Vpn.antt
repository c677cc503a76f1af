-- ===== src/Tests/Vpn.antt =====
-- The theorem on the VPN plugin, after a connection that fails on a bus that sends nothing.
use nm_dbus_proxy_rs.Prelude.{refl, [], none, some}
use nm_dbus_proxy_rs.Text.{codes}
use nm_dbus_proxy_rs.Variant.{Tagged}
use nm_dbus_proxy_rs.Vpn.{
  Bus, VpnPlugin, started, connect, need_secrets, set_failure, at_start, after, connects,
  needs_secrets, fails,
}
use nm_dbus_proxy_rs.Vpn.Announced.{IsAnnounced, Reached-IsAnnounced}

abbrev silent : Bus Tagged
silent = record { emitter_error = none; send_error = λ earlier signal. some (codes "closed") }

abbrev asked : VpnPlugin Tagged
asked = (need_secrets silent [] (connect silent [] started).1).1

failed-IsAnnounced : IsAnnounced (set_failure silent (codes "no secrets") asked).1
failed-IsAnnounced =
    Reached-IsAnnounced silent refl (set_failure silent (codes "no secrets") asked).1
      (after (after (after at_start (connects [])) (needs_secrets [])) (fails (codes "no secrets")))
