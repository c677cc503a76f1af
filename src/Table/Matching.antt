-- ===== src/Table/Matching.antt =====
-- Removing the records that a test picks, one key at a time.
use nm_dbus_proxy_rs.Prelude.{
  ◌≡◌, ◌≢◌, refl, sym, ap, subst, ◌∙◌, Bool, Bool-cases, inl, inr, not, List, [], ◌∷◌, map, none,
  some, keep_if,
}
use nm_dbus_proxy_rs.Text.{Str, ◌==◌, ==_iff}
use nm_dbus_proxy_rs.Table.{find, remove, Distinct}

module _ {ℓ} {A : Type ℓ} (key : A → Str) (p : A → Bool) where
  abbrev pub picked : List A → List Str
  picked l = map key (keep_if p l)

  abbrev pub others : List A → List A
  others l = keep_if (λ a. not (p a)) l

  -- A key that no record has is not picked first.
  pub absent : (x : Str) (xs : List Str) (l : List A) → find key x l ≡ none → picked l ≢ x ∷ xs
  unfolding find keep_if
  absent x xs [] h = λ e. cc
  absent x xs (a ∷ l) h = λ e. elim (Bool-cases (p a)) [
    | inl hit ↦
        let here : picked (a ∷ l) ≡ key a ∷ picked l = rw hit refl in
        let same : key a ≡ x = cc (here, e) in
        let found : find key x (a ∷ l) ≡ some a = rw ((==_iff (key a) x).1 same) refl in
        cc (found, h)
    | inr miss ↦
        let passed : picked (a ∷ l) ≡ picked l = rw miss refl in
        elim (Bool-cases (key a == x)) [
          | inl same ↦ let found : find key x (a ∷ l) ≡ some a = rw same refl in cc (found, h)
          | inr other ↦
              let further : find key x (a ∷ l) ≡ find key x l = rw other refl in
              absent x xs l (sym further ∙ h) (sym passed ∙ e)
        ]
  ]

  -- The first key that is picked, removed: the others are picked still, and the rest stays.
  pub remove-picked :
      (x : Str) (xs : List Str) (l : List A)
      → Distinct key l
      → picked l ≡ x ∷ xs
      → (picked (remove key x l) ≡ xs) × (others (remove key x l) ≡ others l)
  unfolding remove keep_if
  remove-picked x xs [] d e = absurd (cc)
  remove-picked x xs (a ∷ l) d e = elim (Bool-cases (p a)) [
    | inl hit ↦
        let here : picked (a ∷ l) ≡ key a ∷ picked l = rw hit refl in
        let same : key a ≡ x = cc (here, e) in
        let rest : picked l ≡ xs = cc (here, e) in
        rw ((==_iff (key a) x).1 same) (rest, rw hit refl)
    | inr miss ↦
        let passed : picked (a ∷ l) ≡ picked l = rw miss refl in
        elim (Bool-cases (key a == x)) [
          | inl same ↦ absurd (
              absent x xs l (subst (λ k. find key k l ≡ none) ((==_iff (key a) x).0 same) d.0)
                (sym passed ∙ e))
          | inr other ↦
              let more = remove-picked x xs l d.1 (sym passed ∙ e) in
              rw (other, miss) (more.0, ap (λ m. a ∷ m) more.1)
        ]
  ]
