-- ===== src/Runtime/Restore.antt =====
-- What a checkpoint of runtime.rs brings back, and what it drops.
use nm_dbus_proxy_rs.Prelude.{
  ◌≡◌, refl, Bool, List, [], ◌∷◌, Option, none, some, keep_if, if◌then◌else◌, arith,
}
use nm_dbus_proxy_rs.Text.{Str, ==_iff}
use nm_dbus_proxy_rs.Table.{find, Distinct}
use nm_dbus_proxy_rs.Table.Distinct.{find-keep_if-none}
use nm_dbus_proxy_rs.Variant.{Variant}

-- The value where it passes the test.
abbrev pub filtered {ℓ} : {A : Type ℓ} → (A → Bool) → Option A → Option A
filtered p none = none
filtered p (some a) = if p a then some a else none

pub find-keep_if :
    {A : Type 0}
    → (key : A → Str) (p : A → Bool) (k : Str) (l : List A) → Distinct key l
    → find key k (keep_if p l) ≡ filtered p (find key k l)
unfolding find keep_if
find-keep_if key p k [] d = refl
find-keep_if key p k (a ∷ l) d =
    ground (arith, find-keep_if key p k l d.1, find-keep_if-none key p k l, ==_iff (key a) k)
