-- ===== src/Text/Fields.antt =====
-- `str::split_whitespace` of the standard library, and what it and `trim_end` give back of a text
-- that is put together of its fields.
use nm_dbus_proxy_rs.Prelude.{
  ℕ, ◌≡◌, refl, Bool, true, false, ◌&&◌, ◌||◌, List, [], ◌∷◌, ◌++◌, is_empty, all, not, arith,
  if◌then◌else◌,
}
use mathlib.Core.List.{append-nil}
use nm_dbus_proxy_rs.Text.{Str, contains}
use nm_dbus_proxy_rs.Text.Lines.{IsLine, trim, is_white, push_front, trim_end, trim_start}

-- The text is at its end, or goes on with white space.
unfoldable pub at_gap : Str → Bool
unfolding is_white
at_gap [] = true
at_gap (c ∷ s) = is_white c

unfoldable pub split_whitespace : Str → List Str
unfolding is_white push_front at_gap
split_whitespace [] = []
split_whitespace (c ∷ s) =
    let rest = split_whitespace s in
    if is_white c then rest else if at_gap s then (c ∷ []) ∷ rest else push_front c rest

-- A field as `split_whitespace` yields it.
unfoldable pub is_field : Str → Bool
is_field f = not (is_empty f) && all (λ c. not (is_white c)) f

-- The fields, each behind a space.
unfoldable pub joined : List Str → Str
joined [] = []
joined (f ∷ fs) = b' ' ∷ f ++ joined fs

pub split_whitespace-field :
    (f r : Str)
    → is_field f ≡ true
    → at_gap r ≡ true
    → split_whitespace (f ++ r) ≡ f ∷ split_whitespace r
unfolding is_field split_whitespace all is_empty at_gap push_front
split_whitespace-field [] r h g = cc
split_whitespace-field (c ∷ []) r h g = ground arith
split_whitespace-field (c ∷ d ∷ f) r h g = ground (arith, split_whitespace-field (d ∷ f) r)

pub at_gap-joined : (fs : List Str) → at_gap (joined fs) ≡ true
unfolding at_gap joined is_white
at_gap-joined [] = refl
at_gap-joined (f ∷ fs) = refl

pub split_whitespace-joined :
    (fs : List Str) → all is_field fs ≡ true → split_whitespace (joined fs) ≡ fs
unfolding all split_whitespace joined is_white at_gap
split_whitespace-joined [] h = refl
split_whitespace-joined (f ∷ fs) h =
    ground
      (arith, split_whitespace-field f (joined fs), at_gap-joined fs, split_whitespace-joined fs)

-- A text that ends in no white space stays so behind any other.
trim_end-append :
    (a : Str) (c : ℕ) (b : Str) → trim_end (c ∷ b) ≡ c ∷ b → trim_end (a ++ c ∷ b) ≡ a ++ c ∷ b
unfolding trim_end is_empty
trim_end-append [] c b h = h
trim_end-append (d ∷ []) c b h = ground (arith, h)
trim_end-append (d ∷ e ∷ a) c b h = ground (arith, trim_end-append (e ∷ a) c b h)

trim_end-field : (f : Str) → is_field f ≡ true → trim_end f ≡ f
unfolding is_field trim_end all is_empty
trim_end-field [] h = refl
trim_end-field (c ∷ []) h = ground arith
trim_end-field (c ∷ d ∷ f) h = ground (arith, trim_end-field (d ∷ f))

field_then : (f r : Str) → is_field f ≡ true → is_empty (f ++ r) ≡ false
unfolding is_field is_empty
field_then [] r h = cc
field_then (c ∷ f) r h = refl

trim_end-space : (s : Str) → is_empty s ≡ false → trim_end s ≡ s → trim_end (b' ' ∷ s) ≡ b' ' ∷ s
unfolding trim_end
trim_end-space s e h = rw (h, e) refl

contains-append : (c : ℕ) (a b : Str) → contains c (a ++ b) ≡ (contains c a || contains c b)
unfolding contains
contains-append c [] b = refl
contains-append c (d ∷ a) b = ground (arith, contains-append c a b)

unbroken_field : (f : Str) → all (λ c. not (is_white c)) f ≡ true → contains 10 f ≡ false
unfolding all contains is_white
unbroken_field [] h = refl
unbroken_field (c ∷ f) h = ground (arith, unbroken_field f)

unbroken_joined : (fs : List Str) → all is_field fs ≡ true → contains 10 (joined fs) ≡ false
unfolding all joined contains is_field
unbroken_joined [] h = refl
unbroken_joined (f ∷ fs) h =
    ground (arith, contains-append 10 f (joined fs), unbroken_field f, unbroken_joined fs)

trim_end-fields :
    (f : Str) (fs : List Str)
    → is_field f ≡ true
    → all is_field fs ≡ true
    → trim_end (f ++ joined fs) ≡ f ++ joined fs
unfolding joined all
trim_end-fields f [] h hs = rw (append-nil f) (trim_end-field f h)
trim_end-fields f (g ∷ fs) h hs =
    let hg : is_field g ≡ true = ground arith in
    trim_end-append f b' ' (g ++ joined fs) (
      trim_end-space (g ++ joined fs) (field_then g (joined fs) hg)
        (trim_end-fields g fs hg (ground arith)))

trim_start-fields : (f r : Str) → is_field f ≡ true → trim_start (f ++ r) ≡ f ++ r
unfolding trim_start is_field all is_empty
trim_start-fields [] r h = cc
trim_start-fields (c ∷ f) r h = ground arith

-- A line that is a field and further ones, each behind a space.
module _ (f : Str) (fs : List Str) (h : is_field f ≡ true) (hs : all is_field fs ≡ true) where
  pub split_whitespace-fields : split_whitespace (f ++ joined fs) ≡ f ∷ fs
  split_whitespace-fields =
      ground
        (arith, split_whitespace-field f (joined fs), at_gap-joined fs, split_whitespace-joined fs)

  pub trim-fields : trim (f ++ joined fs) ≡ f ++ joined fs
  unfolding trim
  trim-fields = rw (trim_start-fields f (joined fs) h) (trim_end-fields f fs h hs)

  pub fields-IsLine : IsLine (f ++ joined fs)
  unfolding is_field
  fields-IsLine = record {
    unbroken =
        ground (arith, contains-append 10 f (joined fs), unbroken_field f, unbroken_joined fs);
    ended = trim_end-fields f fs h hs;
  }
