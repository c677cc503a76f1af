-- ===== src/Io/Ensures.antt =====
-- What holds after an action that returned: one rule for each way to build an action.
use nm_dbus_proxy_rs.Prelude.{
  Bool, true, false, List, [], ◌∷◌, Option, none, some, if◌then◌else◌, ◌≡◌, refl, subst,
}
use nm_dbus_proxy_rs.Runtime.State.{RuntimeState}
use nm_dbus_proxy_rs.Io.{
  Io, World, Host, Result, ok, err, pure, fail, gets, update, change, ok_or, lift, map_err,
  map_result, attempt, for_each, ◌>>=◌,
}
use nm_dbus_proxy_rs.Io.Keeps.{Keeps}

-- `Q` of what was returned and of the runtime that is left; nothing of an error.
abbrev pub Returned :
    {Value E A : Type 0}
    → (A → RuntimeState Value → Type 0)
    → Result E A
    → RuntimeState Value
    → Type 0
Returned Q (ok a) s = Q a s
Returned Q (err e) s = Unit

-- From a runtime with `P`, an `m` that returns `a` leaves a runtime with `Q a`.
pub record Ensures {Value E A : Type 0} (P : RuntimeState Value → Type 0) (m : Io Value E A)
    (Q : A → RuntimeState Value → Type 0) : Type 0 where
  pub on :
      (host : Host Value) (w : World Value)
      → P w.runtime
      → Returned Q (m host w).0 (m host w).1.runtime

module _ {Value E A : Type 0} (Q : A → RuntimeState Value → Type 0) where
  Returned-any : (r : Result E A) (s : RuntimeState Value) → ((a : A) → Q a s) → Returned Q r s
  Returned-any (ok a) s k = k a
  Returned-any (err e) s k = tt

  map_err-Returned :
      {F : Type 0}
      → (wrap : E → F) (r : Result E A) (s : RuntimeState Value) → Returned Q r s
      → Returned Q (map_result wrap r) s
  unfolding map_result
  map_err-Returned wrap (ok a) s h = h
  map_err-Returned wrap (err e) s h = tt

module _ {Value E A B : Type 0} (Q : B → RuntimeState Value → Type 0) where
  continue-Returned :
      (r : Result E A) (R : A → RuntimeState Value → Type 0) (f : A → Io Value E B)
      → ((a : A) → Ensures (R a) (f a) Q)
      → (host : Host Value) (w : World Value) → Returned R r w.runtime
      → Returned Q ((lift r >>= f) host w).0 ((lift r >>= f) host w).1.runtime
  unfolding ◌>>=◌ lift
  continue-Returned (ok a) R f kf host w h = (kf a).on host w h
  continue-Returned (err e) R f kf host w h = tt

module _ {Value E A : Type 0} {P : RuntimeState Value → Type 0}
    {Q : A → RuntimeState Value → Type 0} where
  pub Ensures-pure :
      (a : A) → ((s : RuntimeState Value) → P s → Q a s) → Ensures P (pure {E = E} a) Q
  unfolding pure
  Ensures-pure a k = record { on = λ host w h. k w.runtime h }

  pub Ensures-fail : (e : E) → Ensures P (fail {Value = Value} {A = A} e) Q
  unfolding fail
  Ensures-fail e = record { on = λ host w h. tt }

  pub Ensures-gets :
      (f : RuntimeState Value → A)
      → ((s : RuntimeState Value) → P s → Q (f s) s)
      → Ensures P (gets {E = E} f) Q
  unfolding gets
  Ensures-gets f k = record { on = λ host w h. k w.runtime h }

  pub Ensures-update :
      (f : RuntimeState Value → A × RuntimeState Value)
      → ((s : RuntimeState Value) → P s → Q (f s).0 (f s).1)
      → Ensures P (update {E = E} f) Q
  unfolding update
  Ensures-update f k = record { on = λ host w h. k w.runtime h }

  pub Ensures-ok_or :
      (o : Option A) (e : E)
      → ((a : A) (s : RuntimeState Value) → o ≡ some a → P s → Q a s)
      → Ensures P (ok_or o e) Q
  unfolding ok_or
  Ensures-ok_or none e k = record { on = λ host w h. tt }
  Ensures-ok_or (some a) e k = record { on = λ host w h. k a w.runtime refl h }

  pub Ensures-if :
      (b : Bool) (m n : Io Value E A)
      → (b ≡ true → Ensures P m Q)
      → (b ≡ false → Ensures P n Q)
      → Ensures P (if b then m else n) Q
  Ensures-if true m n km kn = km refl
  Ensures-if false m n km kn = kn refl

  pub Ensures-option :
      {B : Type 0}
      → (o : Option B) (m : Io Value E A) (f : B → Io Value E A) → (o ≡ none → Ensures P m Q)
      → ((b : B) → o ≡ some b → Ensures P (f b) Q)
      → Ensures P (elim o [ none ↦ m | some b ↦ f b ]) Q
  Ensures-option none m f km kf = km refl
  Ensures-option (some b) m f km kf = kf b refl

  -- What keeps `P` leaves it, whatever it returns.
  pub Ensures-kept :
      (m : Io Value E A)
      → Keeps P m
      → ((a : A) (s : RuntimeState Value) → P s → Q a s)
      → Ensures P m Q
  Ensures-kept m k q = record {
    on = λ host w h.
        let kept = k.at host w h in
        Returned-any Q (m host w).0 (m host w).1.runtime (λ a. q a _ kept);
  }

module _ {Value E A B : Type 0} {P : RuntimeState Value → Type 0}
    {Q : B → RuntimeState Value → Type 0} where
  pub Ensures-bind :
      (m : Io Value E A) (f : A → Io Value E B) (R : A → RuntimeState Value → Type 0)
      → Ensures P m R
      → ((a : A) → Ensures (R a) (f a) Q)
      → Ensures P (m >>= f) Q
  unfolding ◌>>=◌
  Ensures-bind m f R km kf = record {
    on = λ host w h.
        let (r, w') = m host w in
        unfold lift in continue-Returned Q r R f kf host w' (km.on host w h);
  }

module _ {Value E A B : Type 0} {P : RuntimeState Value → Type 0}
    {Q : B → RuntimeState Value → Type 0} where
  -- Behind a part that keeps `P`.
  pub Ensures-then :
      (m : Io Value E A) (f : A → Io Value E B)
      → Keeps P m
      → ((a : A) → Ensures P (f a) Q)
      → Ensures P (m >>= f) Q
  Ensures-then m f km kf = Ensures-bind m f (λ a. P) (Ensures-kept m km λ a s h. h) kf

  -- A read of the runtime, then work that may rely on what was read.
  pub Ensures-look :
      (f : RuntimeState Value → A) (g : A → Io Value E B)
      → ((s : RuntimeState Value) → P s → Ensures P (g (f s)) Q)
      → Ensures P (gets f >>= g) Q
  unfolding ◌>>=◌ gets
  Ensures-look f g k = record { on = λ host w h. (k w.runtime h).on host w h }

  -- `ok_or(...)?`: behind it the option holds a value.
  pub Ensures-found :
      (o : Option A) (e : E) (g : A → Io Value E B)
      → ((a : A) → o ≡ some a → Ensures P (g a) Q)
      → Ensures P (ok_or o e >>= g) Q
  unfolding ◌>>=◌ ok_or
  Ensures-found none e g k = record { on = λ host w h. tt }
  Ensures-found (some a) e g k = record { on = λ host w h. (k a refl).on host w h }

module _ {Value E B : Type 0} {P : RuntimeState Value → Type 0}
    {Q : B → RuntimeState Value → Type 0} where
  -- `if test { return Err(e) }`: behind it the test is false.
  pub Ensures-guard :
      (b : Bool) (e : E) (g : Unit {0} → Io Value E B)
      → (b ≡ false → Ensures P (g tt) Q)
      → Ensures P ((if b then fail e else pure tt) >>= g) Q
  unfolding ◌>>=◌ fail pure
  Ensures-guard true e g k = record { on = λ host w h. tt }
  Ensures-guard false e g k = record { on = λ host w h. (k refl).on host w h }

module _ {Value E : Type 0} {P Q : RuntimeState Value → Type 0} where
  pub Ensures-change :
      (f : RuntimeState Value → RuntimeState Value)
      → ((s : RuntimeState Value) → P s → Q (f s))
      → Ensures P (change {E = E} f) (λ _. Q)
  unfolding change update
  Ensures-change f k = record { on = λ host w h. k w.runtime h }

module _ {Value E A : Type 0} {P : RuntimeState Value → Type 0}
    {Q : A → RuntimeState Value → Type 0} where
  pub Ensures-weaken :
      {R : RuntimeState Value → Type 0}
      → (m : Io Value E A) → ((s : RuntimeState Value) → P s → R s)
      → Ensures R m Q
      → Ensures P m Q
  Ensures-weaken m k h = record { on = λ host w p. h.on host w (k w.runtime p) }

  -- What is known of no runtime in particular.
  pub Ensures-given :
      {X : Type 0} → (m : Io Value E A) → (X → Ensures P m Q) → Ensures (λ s. P s × X) m Q
  Ensures-given m k = record { on = λ host w h. (k h.1).on host w h.0 }

module _ {Value E F A : Type 0} {P : RuntimeState Value → Type 0}
    {Q : A → RuntimeState Value → Type 0} where
  pub Ensures-map_err :
      (wrap : E → F) (m : Io Value E A) → Ensures P m Q → Ensures P (map_err wrap m) Q
  unfolding map_err
  Ensures-map_err wrap m k = record {
    on = λ host w h. map_err-Returned Q wrap (m host w).0 (m host w).1.runtime (k.on host w h);
  }

module _ {Value E F A : Type 0} {P : RuntimeState Value → Type 0}
    {Q : A → RuntimeState Value → Type 0} where
  pub Ensures-attempt :
      (m : Io Value E A)
      → Keeps P m
      → Ensures P m Q
      → Ensures P (attempt {F = F} m) (λ r s. P s × Returned Q r s)
  unfolding attempt
  Ensures-attempt m k e = record { on = λ host w h. (k.at host w h, e.on host w h) }

module _ {Value E A : Type 0} (P : List A → RuntimeState Value → Type 0) where
  -- A loop whose round for `x` takes `P (x ∷ xs)` to `P xs`.
  pub Ensures-for_each :
      (items : List A) (f : A → Io Value E (Unit {0}))
      → ((x : A) (xs : List A) → Ensures (P (x ∷ xs)) (f x) (λ _. P xs))
      → Ensures (P items) (for_each items f) (λ _. P [])
  unfolding for_each
  Ensures-for_each [] f k = Ensures-pure tt (λ s h. h)
  Ensures-for_each (x ∷ xs) f k =
      Ensures-bind (f x) (λ _. for_each xs f) (λ _. P xs) (k x xs) λ _. Ensures-for_each xs f k

module _ {Value E A : Type 0} (Q R : A → RuntimeState Value → Type 0) where
  Returned-map :
      (r : Result E A) (s : RuntimeState Value)
      → ((a : A) → Q a s → R a s)
      → Returned Q r s
      → Returned R r s
  Returned-map (ok a) s k h = k a h
  Returned-map (err e) s k h = tt

module _ {Value E A : Type 0} {P : RuntimeState Value → Type 0}
    {Q R : A → RuntimeState Value → Type 0} where
  pub Ensures-post :
      (m : Io Value E A)
      → ((a : A) (s : RuntimeState Value) → Q a s → R a s)
      → Ensures P m Q
      → Ensures P m R
  Ensures-post m k h = record {
    on =
        λ host w p. Returned-map Q R (m host w).0 (m host w).1.runtime (λ a. k a _) (h.on host w p);
  }

module _ {Value E A : Type 0} {P : RuntimeState Value → Type 0}
    {Q : A → RuntimeState Value → Type 0} where
  -- From each runtime with `P` on its own.
  pub Ensures-at :
      (m : Io Value E A)
      → ((s : RuntimeState Value) → P s → Ensures (λ t. t ≡ s) m Q)
      → Ensures P m Q
  Ensures-at m k = record { on = λ host w h. (k w.runtime h).on host w refl }

module _ {Value E A B : Type 0} {P : RuntimeState Value → Type 0} where
  keep-Returned :
      (V : A → Type 0) (r : Result E A) (f : A → Io Value E B)
      → ((a : A) → V a → Keeps P (f a))
      → (host : Host Value) (w : World Value) → Returned (λ a _. V a) r w.runtime
      → P w.runtime
      → P ((lift r >>= f) host w).1.runtime
  unfolding ◌>>=◌ lift
  keep-Returned V (ok a) f kf host w v h = (kf a v).at host w h
  keep-Returned V (err e) f kf host w v h = h

  -- An invariant under work that may rely on what is known of the value before it.
  pub Keeps-given :
      {V : A → Type 0}
      → (m : Io Value E A) (f : A → Io Value E B) → Keeps P m
      → Ensures (λ s. Unit {0}) m (λ a _. V a)
      → ((a : A) → V a → Keeps P (f a))
      → Keeps P (m >>= f)
  unfolding ◌>>=◌
  Keeps-given {V} m f km em kf = record {
    at = λ host w h.
        let (r, w') = m host w in
        unfold lift in keep-Returned V r f kf host w' (em.on host w tt) (km.at host w h);
  }

-- The rule to use an `Ensures`: what holds where the action is known to have returned.
pub Ensures-ok :
    {Value E A : Type 0} {P : RuntimeState Value → Type 0} {Q : A → RuntimeState Value → Type 0}
    {m : Io Value E A}
    → Ensures P m Q
    → (host : Host Value) (w : World Value) (a : A) → P w.runtime
    → (m host w).0 ≡ ok a
    → Q a (m host w).1.runtime
Ensures-ok {Q = Q} {m = m} k host w a h e =
    subst (λ r. Returned Q r (m host w).1.runtime) e (k.on host w h)
