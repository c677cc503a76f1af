-- ===== src/Table/Laws.antt =====
-- What a look-up finds after each operation on a table.
use mathlib.Core.Option
use nm_dbus_proxy_rs.Prelude.{
  ◌≡◌, refl, List, [], ◌∷◌, ◌++◌, Option, none, some, arith, if◌then◌else◌,
}
use nm_dbus_proxy_rs.Text.{Str, ◌==◌, ==_iff}
use nm_dbus_proxy_rs.Table.{find, without, modify, upsert, replace}

-- The second answer where the first is missing: `or_else` on options.
abbrev pub or_else {ℓ} : {A : Type ℓ} → Option A → Option A → Option A
or_else none o = o
or_else (some a) o = some a

module _ {ℓ} {A : Type ℓ} (key : A → Str) where
  pub find-append :
      (k : Str) (xs ys : List A) → find key k (xs ++ ys) ≡ or_else (find key k xs) (find key k ys)
  unfolding find
  find-append k [] ys = refl
  find-append k (a ∷ xs) ys = ground (arith, find-append k xs ys)

  -- What is found has the key that was looked for.
  pub find_key : (k : Str) (l : List A) (a : A) → find key k l ≡ some a → key a ≡ k
  unfolding find
  find_key k [] a h = cc
  find_key k (b ∷ l) a h = ground (arith, ==_iff (key b) k, find_key k l a)

  pub find-upsert :
      (j : Str) (r : A) (l : List A)
      → find key j (upsert key r l) ≡ (if key r == j then some r else find key j l)
  unfolding find upsert
  find-upsert j r [] = refl
  find-upsert j r (a ∷ l) =
      ground (arith, find-upsert j r l, ==_iff (key r) j, ==_iff (key a) j, ==_iff (key a) (key r))

  pub find-without :
      (k j : Str) (l : List A)
      → find key j (without key k l) ≡ (if k == j then none else find key j l)
  unfolding find without
  find-without k j [] = ground arith
  find-without k j (a ∷ l) =
      ground (arith, find-without k j l, ==_iff k j, ==_iff (key a) j, ==_iff (key a) k)

  pub find-replace :
      (j : Str) (r : A) (l : List A)
      → find key j (replace key r l) ≡ (if key r == j then some r else find key j l)
  unfolding replace find
  find-replace j r l =
      rw (find-append j (without key (key r) l) (r ∷ []), find-without (key r) j l) (ground arith)

  -- An update that keeps the key.
  pub find-modify :
      (k j : Str) (f : A → A) (l : List A)
      → ((a : A) → key a ≡ k → key (f a) ≡ k)
      → find key j (modify key k f l)
        ≡ (if k == j then Option.map f (find key j l) else find key j l)
  unfolding find modify
  find-modify k j f [] h = ground arith
  find-modify k j f (a ∷ l) h = ground (
    arith,
    find-modify k j f l h,
    h a,
    ==_iff k j,
    ==_iff (key a) j,
    ==_iff (key a) k,
    ==_iff (key (f a)) j,
  )
