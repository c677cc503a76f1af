-- ===== src/Io/Keeps.antt =====
-- Invariants of the runtime under actions: one rule for each way to build an action.
use nm_dbus_proxy_rs.Prelude.{
  Bool, true, false, List, [], ◌∷◌, Option, none, some, if◌then◌else◌, ◌≡◌, refl,
}
use nm_dbus_proxy_rs.Text.{Str}
use nm_dbus_proxy_rs.Runtime.State.{RuntimeState}
use nm_dbus_proxy_rs.Io.{
  Io, World, Host, Result, ok, err, Call, pure, fail, gets, config, update, change, query, ok_or,
  lift, request, ignore, attempt, map_err, for_each, ◌>>=◌,
}

-- `m` keeps `P`, whether it returns or fails.
pub record Keeps {Value E A : Type 0} (P : RuntimeState Value → Type 0) (m : Io Value E A)
    : Type 0 where
  pub at : (host : Host Value) (w : World Value) → P w.runtime → P (m host w).1.runtime

module _ {Value E A : Type 0} {P : RuntimeState Value → Type 0} where
  pub Keeps-pure : (a : A) → Keeps P (pure {Value = Value} {E = E} a)
  unfolding pure
  Keeps-pure a = record { at = λ host w h. h }

  pub Keeps-fail : (e : E) → Keeps P (fail {Value = Value} {A = A} e)
  unfolding fail
  Keeps-fail e = record { at = λ host w h. h }

  pub Keeps-gets : (f : RuntimeState Value → A) → Keeps P (gets {E = E} f)
  unfolding gets
  Keeps-gets f = record { at = λ host w h. h }

  pub Keeps-config : (f : Host Value → A) → Keeps P (config {E = E} f)
  unfolding config
  Keeps-config f = record { at = λ host w h. h }

  pub Keeps-query :
      (c : Call Value) (f : Host Value → List (Call Value) → A) → Keeps P (query {E = E} c f)
  unfolding query
  Keeps-query c f = record { at = λ host w h. h }

  pub Keeps-ok_or : (o : Option A) (e : E) → Keeps P (ok_or {Value = Value} o e)
  unfolding ok_or
  Keeps-ok_or none e = record { at = λ host w h. h }
  Keeps-ok_or (some a) e = record { at = λ host w h. h }

  pub Keeps-lift : (r : Result E A) → Keeps P (lift {Value = Value} r)
  unfolding lift
  Keeps-lift r = record { at = λ host w h. h }

  pub Keeps-if :
      (b : Bool) (m n : Io Value E A) → Keeps P m → Keeps P n → Keeps P (if b then m else n)
  Keeps-if true m n km kn = km
  Keeps-if false m n km kn = kn

  pub Keeps-option :
      {B : Type 0}
      → (o : Option B) (m : Io Value E A) (f : B → Io Value E A) → Keeps P m
      → ((b : B) → Keeps P (f b))
      → Keeps P (elim o [ none ↦ m | some b ↦ f b ])
  Keeps-option none m f km kf = km
  Keeps-option (some b) m f km kf = kf b

  pub Keeps-update :
      (f : RuntimeState Value → A × RuntimeState Value)
      → ((s : RuntimeState Value) → P s → P (f s).1)
      → Keeps P (update {E = E} f)
  unfolding update
  Keeps-update f k = record { at = λ host w h. k w.runtime h }

module _ {Value E : Type 0} {P : RuntimeState Value → Type 0} where
  pub Keeps-change :
      (f : RuntimeState Value → RuntimeState Value)
      → ((s : RuntimeState Value) → P s → P (f s))
      → Keeps P (change {E = E} f)
  unfolding change update
  Keeps-change f k = record { at = λ host w h. k w.runtime h }

  pub Keeps-request : (wrap : Str → E) (c : Call Value) → Keeps P (request wrap c)
  unfolding request
  Keeps-request wrap c = record { at = λ host w h. h }

module _ {Value E F A : Type 0} {P : RuntimeState Value → Type 0} where
  pub Keeps-ignore : (m : Io Value E A) → Keeps P m → Keeps P (ignore {F = F} m)
  unfolding ignore
  Keeps-ignore m k = record { at = λ host w h. k.at host w h }

  pub Keeps-attempt : (m : Io Value E A) → Keeps P m → Keeps P (attempt {F = F} m)
  unfolding attempt
  Keeps-attempt m k = record { at = λ host w h. k.at host w h }

  pub Keeps-map_err : (wrap : E → F) (m : Io Value E A) → Keeps P m → Keeps P (map_err wrap m)
  unfolding map_err
  Keeps-map_err wrap m k = record { at = λ host w h. k.at host w h }

module _ {Value E A B : Type 0} {P : RuntimeState Value → Type 0} where
  Keeps-continue :
      (r : Result E A) (f : A → Io Value E B)
      → ((a : A) → Keeps P (f a))
      → (host : Host Value) (w : World Value) → P w.runtime
      → P ((lift r >>= f) host w).1.runtime
  unfolding ◌>>=◌ lift
  Keeps-continue (ok a) f kf host w h = (kf a).at host w h
  Keeps-continue (err e) f kf host w h = h

  pub Keeps-bind :
      (first_part : Io Value E A) (next_part : A → Io Value E B)
      → Keeps P first_part
      → ((answer : A) → Keeps P (next_part answer))
      → Keeps P (first_part >>= next_part)
  unfolding ◌>>=◌
  Keeps-bind first_part next_part keeps_first keeps_next = record {
    at = λ host w h.
        let (r, w') = first_part host w in
        unfold lift in Keeps-continue r next_part keeps_next host w' (keeps_first.at host w h);
  }

module _ {Value E A : Type 0} {P : RuntimeState Value → Type 0} where
  pub Keeps-for_each :
      (items : List A) (f : A → Io Value E (Unit {0}))
      → ((a : A) → Keeps P (f a))
      → Keeps P (for_each items f)
  unfolding for_each
  Keeps-for_each [] f k = Keeps-pure tt
  Keeps-for_each (x ∷ xs) f k =
      Keeps-bind (f x) (λ _. for_each xs f) (k x) (λ _. Keeps-for_each xs f k)

module _ {Value E A B : Type 0} {P : RuntimeState Value → Type 0} where
  ok_or-continue :
      (o : Option A) (e : E) (g : A → Io Value E B)
      → ((a : A) → o ≡ some a → Keeps P (g a))
      → Keeps P (ok_or o e >>= g)
  unfolding ◌>>=◌ ok_or
  ok_or-continue none e g k = record { at = λ host w h. h }
  ok_or-continue (some a) e g k = record { at = λ host w h. (k a refl).at host w h }

  -- A change of the runtime that may answer nothing, then work on what it answered: the work may
  -- rely on where the answer was found.
  pub Keeps-take :
      (f : RuntimeState Value → Option A × RuntimeState Value) (e : E) (g : A → Io Value E B)
      → ((s : RuntimeState Value) → P s → P (f s).1)
      → ((s : RuntimeState Value) (a : A) → P s → (f s).0 ≡ some a → Keeps P (g a))
      → Keeps P (update f >>= λ o. ok_or o e >>= g)
  unfolding ◌>>=◌ update
  Keeps-take f e g kf kg = record {
    at = λ host w h.
        (ok_or-continue (f w.runtime).0 e g (λ a q. kg w.runtime a h q)).at host _ (kf w.runtime h);
  }

  -- A read of the runtime, then work that may rely on what was read.
  pub Keeps-look :
      (f : RuntimeState Value → A) (g : A → Io Value E B)
      → ((s : RuntimeState Value) → P s → Keeps P (g (f s)))
      → Keeps P (gets f >>= g)
  unfolding ◌>>=◌ gets
  Keeps-look f g k = record { at = λ host w h. (k w.runtime h).at host w h }

pub ruleset keeps_rules = (
  Keeps-pure, Keeps-fail, Keeps-gets, Keeps-config, Keeps-query, Keeps-ok_or, Keeps-lift, Keeps-if,
  Keeps-option, Keeps-request, Keeps-ignore, Keeps-attempt, Keeps-map_err, Keeps-bind,
  Keeps-for_each, Keeps-update, Keeps-change,
)
