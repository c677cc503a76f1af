-- ===== src/Map.antt =====
-- `HashMap<String, V>` as an association list. Only look-ups, insertions, removals and filters by
-- key are made by the program, so the order of the entries shows nowhere.
use nm_dbus_proxy_rs.Prelude.{
  ◌≡◌, refl, ap, inl, inr, Bool, Bool-cases, List, [], ◌∷◌, Option, none, some, arith,
  if◌then◌else◌,
}
use nm_dbus_proxy_rs.Text.{Str, ◌==◌, ==_iff, ==_refl}

abbrev pub Map {ℓ} : Type ℓ → Type ℓ
Map V = List (Str × V)

module _ {ℓ} {V : Type ℓ} where
  -- `get`.
  unfoldable pub lookup : Str → Map V → Option V
  lookup key [] = none
  lookup key ((other, value) ∷ rest) = if other == key then some value else lookup key rest

  -- `insert`.
  unfoldable pub insert : Str → V → Map V → Map V
  insert key new [] = (key, new) ∷ []
  insert key new ((other, old) ∷ rest) =
      if other == key then (key, new) ∷ rest else (other, old) ∷ insert key new rest

  -- `remove`.
  unfoldable pub remove : Str → Map V → Map V
  remove k [] = []
  remove k ((j, w) ∷ m) = let rest = remove k m in if j == k then rest else (j, w) ∷ rest

  -- `iter().filter(|(key, _)| p(key))`, collected again.
  unfoldable pub keep_keys : (Str → Bool) → Map V → Map V
  keep_keys p [] = []
  keep_keys p ((j, w) ∷ m) = let rest = keep_keys p m in if p j then (j, w) ∷ rest else rest

  pub lookup-insert :
      (key asked : Str) (new : V) (entries : Map V)
      → lookup asked (insert key new entries)
        ≡ (if key == asked then some new else lookup asked entries)
  unfolding lookup insert
  lookup-insert key asked new [] = refl
  lookup-insert key asked new ((other, old) ∷ rest) = ground (
    arith,
    lookup-insert key asked new rest,
    ==_iff key asked,
    ==_iff other key,
    ==_iff other asked,
  )

  pub lookup-remove :
      (k j : Str) (m : Map V) → lookup j (remove k m) ≡ (if k == j then none else lookup j m)
  unfolding lookup remove
  lookup-remove k j [] = ground arith
  lookup-remove k j ((i, w) ∷ m) =
      ground (arith, ==_iff k j, ==_iff i k, ==_iff i j, lookup-remove k j m)

  pub lookup-keep_keys :
      (p : Str → Bool) (j : Str) (m : Map V)
      → lookup j (keep_keys p m) ≡ (if p j then lookup j m else none)
  unfolding lookup keep_keys
  lookup-keep_keys p j [] = ground arith
  lookup-keep_keys p j ((i, w) ∷ m) = elim (Bool-cases (i == j)) [
    | inl e ↦ let q : i ≡ j = (==_iff i j).0 e in ground (arith, q, lookup-keep_keys p j m, ap p q)
    | inr e ↦ ground (arith, lookup-keep_keys p j m)
  ]

  pub lookup-insert_self : (k : Str) (v : V) (m : Map V) → lookup k (insert k v m) ≡ some v
  lookup-insert_self k v m = simp (lookup-insert, ==_refl)
