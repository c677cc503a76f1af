-- ===== src/Table/Distinct.antt =====
-- Tables without two records of one key: every operation keeps them so.
use nm_dbus_proxy_rs.Prelude.{
  ◌≡◌, refl, ◌∙◌, Bool, List, [], ◌∷◌, ◌++◌, none, arith, if◌then◌else◌, keep_if,
}
use nm_dbus_proxy_rs.Text.{Str, ◌==◌, ==_iff}
use nm_dbus_proxy_rs.Table.{find, remove, without, modify, upsert, replace, Distinct}
use nm_dbus_proxy_rs.Table.Laws.{find-append, find-upsert, find-without, find-modify}

module _ {ℓ} {A : Type ℓ} (key : A → Str) where
  pub Distinct-push :
      (r : A) (l : List A) → Distinct key l → find key (key r) l ≡ none → Distinct key (l ++ r ∷ [])
  unfolding find
  Distinct-push r [] d h = (refl, tt)
  Distinct-push r (a ∷ l) d h = ground (
    arith,
    Distinct-push r l d.1,
    find-append key (key a) l (r ∷ []),
    ==_iff (key r) (key a),
    ==_iff (key a) (key r),
  )

  pub Distinct-without : (k : Str) (l : List A) → Distinct key l → Distinct key (without key k l)
  unfolding without
  Distinct-without k [] d = tt
  Distinct-without k (a ∷ l) d =
      ground (arith, Distinct-without k l d.1, find-without key k (key a) l)

  pub Distinct-replace : (r : A) (l : List A) → Distinct key l → Distinct key (replace key r l)
  unfolding replace
  Distinct-replace r l d =
      Distinct-push r (without key (key r) l) (Distinct-without (key r) l d)
        (ground (arith, find-without key (key r) (key r) l, ==_iff (key r) (key r)))

  pub Distinct-upsert : (r : A) (l : List A) → Distinct key l → Distinct key (upsert key r l)
  unfolding upsert find
  Distinct-upsert r [] d = (refl, tt)
  Distinct-upsert r (a ∷ l) d = ground (
    arith,
    Distinct-upsert r l d.1,
    find-upsert key (key a) r l,
    ==_iff (key a) (key r),
    ==_iff (key r) (key a),
  )

  find-remove-none :
      (k j : Str) (l : List A) → find key j l ≡ none → find key j (remove key k l) ≡ none
  unfolding find remove
  find-remove-none k j [] h = refl
  find-remove-none k j (a ∷ l) h = ground (arith, find-remove-none k j l)

  pub Distinct-remove : (k : Str) (l : List A) → Distinct key l → Distinct key (remove key k l)
  unfolding remove
  Distinct-remove k [] d = tt
  Distinct-remove k (a ∷ l) d =
      ground (arith, Distinct-remove k l d.1, find-remove-none k (key a) l)

  -- In a table of distinct keys a removal takes the key away, and no other.
  pub find-remove :
      (k j : Str) (l : List A)
      → Distinct key l
      → find key j (remove key k l) ≡ (if k == j then none else find key j l)
  unfolding find remove
  find-remove k j [] d = ground arith
  find-remove k j (a ∷ l) d =
      ground (arith, find-remove k j l d.1, ==_iff k j, ==_iff (key a) j, ==_iff (key a) k)

  pub find-keep_if-none :
      (p : A → Bool) (j : Str) (l : List A) → find key j l ≡ none → find key j (keep_if p l) ≡ none
  unfolding find keep_if
  find-keep_if-none p j [] h = refl
  find-keep_if-none p j (a ∷ l) h = ground (arith, find-keep_if-none p j l)

  pub Distinct-keep_if : (p : A → Bool) (l : List A) → Distinct key l → Distinct key (keep_if p l)
  unfolding keep_if
  Distinct-keep_if p [] d = tt
  Distinct-keep_if p (a ∷ l) d =
      ground (arith, Distinct-keep_if p l d.1, find-keep_if-none p (key a) l)

  pub Distinct-modify :
      (k : Str) (f : A → A) (l : List A)
      → ((a : A) → key (f a) ≡ key a)
      → Distinct key l
      → Distinct key (modify key k f l)
  unfolding modify find
  Distinct-modify k f [] h d = tt
  Distinct-modify k f (a ∷ l) h d = ground (
    arith,
    Distinct-modify k f l h d.1,
    find-modify key k (key a) f l (λ b e. h b ∙ e),
    h a,
    ==_iff k (key a),
  )
