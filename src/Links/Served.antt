-- ===== src/Links/Served.antt =====
-- The object server as the log shows it: which further interfaces a path serves after the calls so
-- far. A call that was refused serves nothing; `ObjectServer::remove` leaves nothing in any case.
use nm_dbus_proxy_rs.Prelude.{
  ◌≡◌, refl, sym, ap, ◌∙◌, Bool, true, false, ◌&&◌, ◌||◌, List, [], ◌∷◌, Option, none, some,
  Option-cases, inl, inr, any, arith, if◌then◌else◌,
}
use nm_dbus_proxy_rs.Text.{Str, ◌==◌, ==_refl}
use nm_dbus_proxy_rs.Paths.{ObjectPath}
use nm_dbus_proxy_rs.Links.Objects.{AuxObject, AuxInterface, interface_of, same_interface}
use nm_dbus_proxy_rs.Io.{
  Io, Host, World, Result, ok, err, Call, serve, withdraw, aux_object, aux_interface, request,
  for_each, ignore, ◌>>=◌, outcome_of, lift,
}

abbrev is_ok : Option Str → Bool
is_ok none = true
is_ok (some e) = false

module _ {Value E B : Type 0} (wrap : Str → E) (c : Call Value) (f : Unit {0} → Io Value E B)
    (host : Host Value) (w : World Value) where
  asked : World Value
  asked = record w { calls = c ∷ w.calls }

  request-accepted : host.outcome w.calls c ≡ none → (request wrap c >>= f) host w ≡ f tt host asked
  unfolding ◌>>=◌ request outcome_of lift asked
  request-accepted h = ap (λ o. (lift (outcome_of wrap o) >>= f) host asked) h

  request-refused :
      (text : Str)
      → host.outcome w.calls c ≡ some text
      → (request wrap c >>= f) host w ≡ (err (wrap text), asked)
  unfolding ◌>>=◌ request outcome_of lift asked
  request-refused text h = ap (λ o. (lift (outcome_of wrap o) >>= f) host asked) h

module _ {Value : Type 0} (host : Host Value) (path : ObjectPath) (i : AuxInterface) where
  unfoldable pub is_served : List (Call Value) → Bool
  is_served [] = false
  is_served (serve other (aux_object o) ∷ calls) =
      let before = is_served calls in
      if (other == path && same_interface (interface_of o) i)
        && is_ok (host.outcome calls (serve other (aux_object o)))
      then true
      else before
  is_served (withdraw other (aux_interface j) ∷ calls) =
      let before = is_served calls in if other == path && same_interface j i then false else before
  is_served (_ ∷ calls) = is_served calls

  abbrev after_register : List AuxObject → World Value → Result Str (Unit {0}) × World Value
  after_register objects =
      for_each {Value = Value} {E = Str} objects (λ o. request (λ e. e) (serve path (aux_object o)))
        host

  -- All objects are served by a registration that returns.
  pub is_served-register :
      (objects : List AuxObject) (w : World Value)
      → (after_register objects w).0 ≡ ok tt
      → is_served (after_register objects w).1.calls
        ≡ (any (λ o. same_interface (interface_of o) i) objects || is_served w.calls)
  unfolding is_served for_each any ◌>>=◌ request outcome_of asked
  is_served-register [] w e = refl
  is_served-register (o ∷ objects) w e =
      let c : Call Value = serve path (aux_object o) in
      let next : Unit {0} → Io Value Str (Unit {0}) =
        λ _. for_each objects (λ o. request (λ e. e) (serve path (aux_object o))) in
      elim (Option-cases (host.outcome w.calls c)) [
        | inl done ↦
            let run = request-accepted (λ e. e) c next host w done in
            let rest =
              is_served-register objects (record w { calls = c ∷ w.calls })
                (sym (ap (λ r. r.0) run) ∙ e) in
            ap (λ r. is_served r.1.calls) run ∙ rest ∙ rw (done, ==_refl path) (ground arith)
        | inr (text, refused) ↦
            let run = request-refused (λ e. e) c next host w text refused in
            let clash : err text ≡ ok tt = sym (ap (λ r. r.0) run) ∙ e in absurd (cc)
      ]

  abbrev after_unregister :
      {E : Type 0} → List AuxInterface → World Value → Result E (Unit {0}) × World Value
  after_unregister {E} interfaces =
      for_each {Value = Value} {E = E} interfaces
        (λ j. ignore (request (λ (e : Str). e) (withdraw path (aux_interface j)))) host

  -- All interfaces of a withdrawal are gone.
  pub is_served-unregister :
      (E : Type 0) (interfaces : List AuxInterface) (w : World Value)
      → is_served (after_unregister {E = E} interfaces w).1.calls
        ≡ (if any (λ j. same_interface j i) interfaces then false else is_served w.calls)
  unfolding is_served for_each any ◌>>=◌ request ignore
  is_served-unregister E [] w = refl
  is_served-unregister E (j ∷ js) w =
      let w' : World Value = record w { calls = withdraw path (aux_interface j) ∷ w.calls } in
      ground (arith, is_served-unregister E js w', ==_refl path)
