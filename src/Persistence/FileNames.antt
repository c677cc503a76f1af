-- ===== src/Persistence/FileNames.antt =====
-- persistence.rs: the parts of a file name that is joined to a directory.
use nm_dbus_proxy_rs.Prelude.{
  ℕ, ◌≡◌, refl, sym, ap, subst, Bool, Bool-cases, inl, inr, true, false, ◌||◌, not, List, [], ◌∷◌,
  ◌++◌, some, is_empty, last, keep_if, keep_if-append, arith,
}
use mathlib.Core.List.{append_assoc}
use nm_dbus_proxy_rs.Text.{Str, codes, contains, ends_with, ◌==◌, after_last}
use nm_dbus_proxy_rs.Text.Lines.{push_front}
use nm_dbus_proxy_rs.Persistence.{join}
use nm_dbus_proxy_rs.Persistence.Load.{
  components, file_name, file_stem, extension, before_last, has_extension,
}

is_empty-components : (s : Str) → is_empty (components s) ≡ false
unfolding components push_front is_empty
is_empty-components [] = refl
is_empty-components (c ∷ s) = ground (arith, is_empty-components s)

components-plain : (s : Str) → contains b'/' s ≡ false → components s ≡ s ∷ []
unfolding components contains push_front
components-plain [] h = refl
components-plain (c ∷ s) h = ground (arith, components-plain s)

push_front-append :
    (c : ℕ) (l m : List Str) → is_empty l ≡ false → push_front c (l ++ m) ≡ push_front c l ++ m
unfolding push_front is_empty
push_front-append c [] m h = absurd (cc)
push_front-append c (x ∷ l) m h = refl

components-join :
    (p s : Str) → contains b'/' s ≡ false → components (p ++ b'/' ∷ s) ≡ components p ++ s ∷ []
unfolding components push_front
components-join [] s h = ground (arith, components-plain s h)
components-join (c ∷ p) s h = ground (
  arith,
  components-join p s h,
  push_front-append c (components p) (s ∷ []) (is_empty-components p),
)

-- What is in front of a slash at the end.
before_slash : (d : Str) → ends_with d (codes "/") ≡ true → (p : Str) × (d ≡ p ++ b'/' ∷ [])
unfolding ends_with codes ◌==◌
before_slash [] h = absurd (cc)
before_slash (c ∷ []) h = ([], ap (λ (x : ℕ). x ∷ []) (ground arith))
before_slash (c ∷ e ∷ d) h =
    let (p, q) = before_slash (e ∷ d) (ground arith) in (c ∷ p, ap (λ (x : Str). c ∷ x) q)

last-push : {A : Type 0} → (l : List A) (a : A) → last (l ++ a ∷ []) ≡ some a
unfolding last
last-push [] a = refl
last-push (x ∷ []) a = refl
last-push (x ∷ y ∷ l) a = last-push (y ∷ l) a

abbrev is_part : Str → Bool
is_part part = not (is_empty part || part == codes ".")

-- A name that stands for itself as a component of a path.
pub record IsFileName (f : Str) : Type 0 where
  pub unbroken : contains b'/' f ≡ false
  pub part : is_part f ≡ true
  pub downward : (f == codes "..") ≡ false

last-components :
    (l : List Str) (f : Str) → is_part f ≡ true → last (keep_if is_part (l ++ f ∷ [])) ≡ some f
unfolding keep_if
last-components l f h = rw (keep_if-append is_part l (f ∷ []), h) (last-push (keep_if is_part l) f)

file_name-slash : (p f : Str) → IsFileName f → file_name (p ++ b'/' ∷ f) ≡ some f
unfolding file_name
file_name-slash p f h =
    rw (components-join p f h.unbroken, last-components (components p) f h.part, h.downward) refl

-- The file name of a joined path is what was joined.
pub file_name-join : (dir f : Str) → IsFileName f → file_name (join dir f) ≡ some f
unfolding file_name join
file_name-join dir f h = elim (Bool-cases (dir == [])) [
  | inl none_ ↦
      rw (none_, components-plain f h.unbroken, last-components [] f h.part, h.downward) refl
  | inr some_ ↦ elim (Bool-cases (ends_with dir (codes "/"))) [
    | inl ends ↦
        let (p, q) = before_slash dir ends in
        let moved : file_name (dir ++ f) ≡ some f =
          subst (λ d. file_name (d ++ f) ≡ some f) (sym q)
            (subst (λ x. file_name x ≡ some f) (sym (append_assoc p (b'/' ∷ []) f))
              (file_name-slash p f h)) in
        rw (some_, ends) moved
    | inr other ↦ rw (some_, other) (file_name-slash dir f h)
  ]
]

contains-dot : (front back : Str) → contains b'.' (front ++ b'.' ∷ back) ≡ true
unfolding contains
contains-dot [] back = refl
contains-dot (c ∷ front) back = ground (arith, contains-dot front back)

before_last-dot :
    (front back : Str)
    → contains b'.' back ≡ false
    → before_last b'.' (front ++ b'.' ∷ back) ≡ front
unfolding before_last
before_last-dot [] back h = rw h refl
before_last-dot (c ∷ front) back h = rw (contains-dot front back, before_last-dot front back h) refl

after_last-plain : (s : Str) → contains b'.' s ≡ false → after_last b'.' s ≡ s
unfolding after_last contains
after_last-plain [] h = refl
after_last-plain (c ∷ s) h = ground arith

after_last-dot :
    (front back : Str) → contains b'.' back ≡ false → after_last b'.' (front ++ b'.' ∷ back) ≡ back
unfolding after_last
after_last-dot [] back h = rw h refl
after_last-dot (c ∷ front) back h = rw (contains-dot front back) (after_last-dot front back h)

module _ (dir front back : Str) (file : IsFileName (front ++ b'.' ∷ back))
    (some_front : is_empty front ≡ false) (undotted : contains b'.' back ≡ false) where
  has_extension_lem : has_extension (front ++ b'.' ∷ back) ≡ true
  unfolding has_extension
  has_extension_lem =
      rw (contains-dot front back, before_last-dot front back undotted, some_front) refl

  pub file_stem-join : file_stem (join dir (front ++ b'.' ∷ back)) ≡ some front
  unfolding file_stem
  file_stem-join =
      rw
        (
          file_name-join dir (front ++ b'.' ∷ back) file,
          has_extension_lem,
          before_last-dot front back undotted,
        )
        refl

  pub extension-join : extension (join dir (front ++ b'.' ∷ back)) ≡ some back
  unfolding extension
  extension-join =
      rw
        (
          file_name-join dir (front ++ b'.' ∷ back) file,
          has_extension_lem,
          after_last-dot front back undotted,
        )
        refl
