-- ===== src/Io/Sure.antt =====
-- Actions that always return: one rule for each way to build one without an error.
use nm_dbus_proxy_rs.Prelude.{List, [], ◌∷◌, ◌≡◌, refl, ap, ◌∙◌}
use nm_dbus_proxy_rs.Runtime.State.{RuntimeState}
use nm_dbus_proxy_rs.Io.{
  Io, World, Host, Result, ok, pure, gets, config, update, change, lift, ignore, for_each, ◌>>=◌,
}

-- `m` returns a value, whatever the outside answers.
pub record Sure {Value E A : Type 0} (m : Io Value E A) : Type 0 where
  pub at : (host : Host Value) (w : World Value) → (a : A) × ((m host w).0 ≡ ok a)

module _ {Value E A : Type 0} where
  pub Sure-pure : (a : A) → Sure (pure {Value = Value} {E = E} a)
  unfolding pure
  Sure-pure a = record { at = λ host w. (a, refl) }

  pub Sure-gets : (f : RuntimeState Value → A) → Sure (gets {E = E} f)
  unfolding gets
  Sure-gets f = record { at = λ host w. (f w.runtime, refl) }

  pub Sure-config : (f : Host Value → A) → Sure (config {E = E} f)
  unfolding config
  Sure-config f = record { at = λ host w. (f host, refl) }

  pub Sure-update : (f : RuntimeState Value → A × RuntimeState Value) → Sure (update {E = E} f)
  unfolding update
  Sure-update f = record { at = λ host w. ((f w.runtime).0, refl) }

  pub Sure-ignore : {F : Type 0} → (m : Io Value F A) → Sure (ignore {F = E} m)
  unfolding ignore
  Sure-ignore m = record { at = λ host w. (tt, refl) }

module _ {Value E : Type 0} where
  pub Sure-change : (f : RuntimeState Value → RuntimeState Value) → Sure (change {E = E} f)
  unfolding change update
  Sure-change f = record { at = λ host w. (tt, refl) }

module _ {Value E A B : Type 0} where
  pub Sure-bind :
      (m : Io Value E A) (f : A → Io Value E B) → Sure m → ((a : A) → Sure (f a)) → Sure (m >>= f)
  unfolding ◌>>=◌ lift
  Sure-bind m f sm sf = record {
    at = λ host w.
        let (a, e) = sm.at host w in
        let w' = (m host w).1 in
        let (b, q) = (sf a).at host w' in
        (b, ap (λ (r : Result E A). ((lift r >>= f) host w').0) e ∙ q);
  }

module _ {Value E A : Type 0} where
  pub Sure-for_each :
      (items : List A) (f : A → Io Value E (Unit {0}))
      → ((a : A) → Sure (f a))
      → Sure (for_each items f)
  unfolding for_each
  Sure-for_each [] f k = Sure-pure tt
  Sure-for_each (x ∷ xs) f k = Sure-bind (f x) (λ _. for_each xs f) (k x) λ _. Sure-for_each xs f k

pub ruleset sure_rules = (
  Sure-pure, Sure-gets, Sure-config, Sure-update, Sure-ignore, Sure-change, Sure-bind,
  Sure-for_each,
)
