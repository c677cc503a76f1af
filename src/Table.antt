-- ===== src/Table.antt =====
-- A `Vec` of records that are told apart by a text key (an object path, an interface name, a bus
-- name), with the operations that the runtime makes on such vectors.
pub mod Laws
pub mod Distinct
pub mod Matching
use nm_dbus_proxy_rs.Prelude.{
  ◌≡◌, Bool, List, [], ◌∷◌, ◌++◌, Option, none, some, if◌then◌else◌, not,
}
use nm_dbus_proxy_rs.Text.{Str, ◌==◌}

module _ {ℓ} {A : Type ℓ} (key : A → Str) where
  -- `iter().find(|record| record.key == k)`.
  unfoldable pub find : Str → List A → Option A
  find k [] = none
  find k (a ∷ l) = if key a == k then some a else find k l

  -- `iter().position(|record| record.key == k)`, then `Vec::remove`: the first match goes.
  unfoldable pub remove : Str → List A → List A
  remove k [] = []
  remove k (a ∷ l) = if key a == k then l else a ∷ remove k l

  -- `retain(|existing| existing.key != k)`.
  unfoldable pub without : Str → List A → List A
  without k [] = []
  without k (a ∷ l) = let rest = without k l in if key a == k then rest else a ∷ rest

  -- `iter_mut().find(|record| record.key == k)`, then a change of the record in place.
  unfoldable pub modify : Str → (A → A) → List A → List A
  modify k f [] = []
  modify k f (a ∷ l) = if key a == k then f a ∷ l else a ∷ modify k f l

  -- Replace the record of that key, or push.
  unfoldable pub upsert : A → List A → List A
  upsert r [] = r ∷ []
  upsert r (a ∷ l) = if key a == key r then r ∷ l else a ∷ upsert r l

  -- `retain` away the records of that key, then `push`.
  unfoldable pub replace : A → List A → List A
  replace r l = without (key r) l ++ r ∷ []

  -- `iter().map(|record| record.key.clone()).collect()`.
  unfoldable pub keys : List A → List Str
  keys [] = []
  keys (a ∷ l) = key a ∷ keys l

  -- No two records share a key.
  abbrev pub Distinct : List A → Type ℓ
  Distinct [] = Unit
  Distinct (a ∷ l) = (find (key a) l ≡ none) × Distinct l
