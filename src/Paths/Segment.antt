-- ===== src/Paths/Segment.antt =====
-- `object_path_segment`: what it builds is a segment that D-Bus accepts, and escaping is idempotent.
use mathlib.Core.List.{append_assoc}
use nm_dbus_proxy_rs.Prelude.{
  ℕ, ◌+◌, ◌-◌, ◌*◌, ◌/◌, ◌%◌, ◌<◌, ◌≡◌, refl, sym, ap, ◌∙◌, ◌⊎◌, ◌≢◌, true, List, [], ◌∷◌, ◌++◌,
  arith, ltb, eqb, if◌then◌else◌, all, all-append, All, inl, inr,
}
use nm_dbus_proxy_rs.Text.{Str, codes}
use nm_dbus_proxy_rs.Text.Utf8.{
  to_bytes, to_bytes-ascii, to_bytes_lt, to_bytes-ne, to_bytes-injective, to_bytes-append, IsText,
  IsText-lt,
}
use nm_dbus_proxy_rs.Text.Hex.{hex2, hex_digit, is_alnum, is_alnum-hex_digit}
use nm_dbus_proxy_rs.Paths.{is_plain, escape_byte, escape, or_underscore, object_path_segment}

-- The D-Bus grammar of a segment: one character or more of `[A-Za-z0-9_]`.
abbrev pub IsSegment : Str → Type 0
IsSegment s = (all is_plain s ≡ true) × (s ≢ [])

abbrev IsByte : ℕ → Type 0
IsByte b = b < 256

all-escape_byte : (b : ℕ) → b < 256 → all is_plain (escape_byte b) ≡ true
unfolding escape_byte all is_plain
all-escape_byte b h =
    ground
      (arith, is_alnum-hex_digit (b / 16) (omega arith), is_alnum-hex_digit (b % 16) (omega arith))

all-escape : (bs : List ℕ) → All IsByte bs → all is_plain (escape bs) ≡ true
unfolding escape all
all-escape [] h = refl
all-escape (b ∷ bs) h =
    rw (all-append is_plain (escape_byte b) (escape bs), all-escape_byte b h.0) (all-escape bs h.1)

or_underscore-IsSegment : (s : Str) → all is_plain s ≡ true → IsSegment (or_underscore s)
unfolding or_underscore all is_plain is_alnum
or_underscore-IsSegment [] h = (refl, λ e. cc)
or_underscore-IsSegment (c ∷ s) h = (h, λ e. cc)

or_underscore_ne : (s : Str) → s ≢ [] → or_underscore s ≡ s
unfolding or_underscore
or_underscore_ne [] h = absurd (h refl)
or_underscore_ne (c ∷ s) h = refl

-- The segment of any text is a non-empty run of ASCII letters, digits and `_`.
pub object_path_segment-IsSegment :
    (value : Str) → IsText value → IsSegment (object_path_segment value)
unfolding object_path_segment
object_path_segment-IsSegment value h =
    or_underscore-IsSegment (escape (to_bytes value))
      (all-escape (to_bytes value) (to_bytes_lt value (IsText-lt value h)))

escape_plain : (s : Str) → all is_plain s ≡ true → escape s ≡ s
unfolding escape escape_byte all
escape_plain [] h = refl
escape_plain (c ∷ s) h = ground (arith, escape_plain s)

plain_ascii : (s : Str) → all is_plain s ≡ true → All (λ c. c < 128) s
unfolding all is_plain is_alnum
plain_ascii [] h = tt
plain_ascii (c ∷ s) h = (ground arith, plain_ascii s (ground arith))

-- A name of letters, digits and `_` stands for itself.
pub object_path_segment_plain : (s : Str) → IsSegment s → object_path_segment s ≡ s
unfolding object_path_segment
object_path_segment_plain s h =
    rw (to_bytes-ascii s (plain_ascii s h.0), escape_plain s h.0) (or_underscore_ne s h.1)

-- Escaping a segment again changes nothing: an escaped name is its own segment.
pub object_path_segment_idem :
    (value : Str)
    → IsText value
    → object_path_segment (object_path_segment value) ≡ object_path_segment value
object_path_segment_idem value h =
    object_path_segment_plain (object_path_segment value) (object_path_segment-IsSegment value h)

-- Reading an escaped text back: plain, behind `_`, or behind `_` and one digit.
data Reader : Type 0 where
  plain escaped : Reader
  half : ℕ → Reader

hex_value : ℕ → ℕ
hex_value c = if ltb c 58 then c - 48 else c - 87

reader_next : Reader → ℕ → Reader
reader_next plain c = if eqb c b'_' then escaped else plain
reader_next escaped c = half c
reader_next (half d) c = plain

reader_out : Reader → ℕ → List ℕ
unfolding hex_value
reader_out plain c = if eqb c b'_' then [] else c ∷ []
reader_out escaped c = []
reader_out (half d) c = (hex_value d * 16 + hex_value c) ∷ []

unescape : Reader → Str → List ℕ
unfolding reader_next reader_out
unescape r [] = []
unescape r (c ∷ s) = reader_out r c ++ unescape (reader_next r c) s

hex_value-hex_digit : (n : ℕ) → n < 16 → hex_value (hex_digit n) ≡ n
unfolding hex_value hex_digit
hex_value-hex_digit n h = ground arith

unescape_byte :
    (b : ℕ) (s : Str)
    → b < 256
    → b ≢ b'_'
    → unescape plain (escape_byte b ++ s) ≡ b ∷ unescape plain s
unfolding unescape escape_byte is_plain
unescape_byte b s h u =
    ground (
      arith,
      hex_value-hex_digit (b / 16) (omega arith),
      hex_value-hex_digit (b % 16) (omega arith),
    )

unescape-escape :
    (bs : List ℕ) → All (λ b. b < 256) bs → All (λ b. b ≢ b'_') bs → unescape plain (escape bs) ≡ bs
unfolding escape unescape
unescape-escape [] h u = refl
unescape-escape (b ∷ bs) h u =
    unescape_byte b (escape bs) h.0 u.0 ∙ ap (λ t. b ∷ t) (unescape-escape bs h.1 u.1)

nil_cases : (s : Str) → (s ≡ []) ⊎ (s ≢ [])
nil_cases [] = inl refl
nil_cases (c ∷ s) = inr (λ e. cc)

unescape_nil : (b : ℕ) (bs : List ℕ) → unescape plain [] ≢ b ∷ bs
unfolding unescape
unescape_nil b bs e = cc

unescape-or_underscore :
    (bs : List ℕ)
    → unescape plain (escape bs) ≡ bs
    → unescape plain (or_underscore (escape bs)) ≡ bs
unfolding unescape or_underscore escape
unescape-or_underscore [] e = refl
unescape-or_underscore (b ∷ bs) e = elim (nil_cases (escape (b ∷ bs))) [
  | inl n ↦ absurd (unescape_nil b bs (ap (unescape plain) (sym n) ∙ e))
  | inr n ↦ rw (or_underscore_ne (escape (b ∷ bs)) n) e
]

unescape_segment :
    (s : Str)
    → IsText s
    → All (λ c. c ≢ b'_') s
    → unescape plain (object_path_segment s) ≡ to_bytes s
unfolding object_path_segment
unescape_segment s h u = unescape-or_underscore (to_bytes s) (
    unescape-escape (to_bytes s) (to_bytes_lt s (IsText-lt s h))
      (to_bytes-ne s b'_' h (omega arith) u))

-- Names without `_` that share a segment are the same name.
pub object_path_segment-injective :
    (a b : Str)
    → IsText a
    → IsText b
    → All (λ c. c ≢ b'_') a
    → All (λ c. c ≢ b'_') b
    → object_path_segment a ≡ object_path_segment b
    → a ≡ b
object_path_segment-injective a b ha hb ua ub e =
    to_bytes-injective a b ha hb
      (sym (unescape_segment a ha ua) ∙ ap (unescape plain) e ∙ unescape_segment b hb ub)

escape-append : (xs ys : List ℕ) → escape (xs ++ ys) ≡ escape xs ++ escape ys
unfolding escape
escape-append [] ys = refl
escape-append (x ∷ xs) ys = rw (escape-append xs ys, append_assoc)

-- A name ending in `.` and one ending in `_2e` share a segment, so a device path does not determine
-- the interface.
pub object_path_segment_collision :
    (s : Str) → object_path_segment (s ++ codes ".") ≡ object_path_segment (s ++ codes "_2e")
unfolding object_path_segment codes escape_byte is_alnum hex2 hex_digit
object_path_segment_collision s = ap or_underscore (
    rw (to_bytes-append s (codes "."), to_bytes-append s (codes "_2e"))
      (rw
        (
          escape-append (to_bytes s) (to_bytes (codes ".")),
          escape-append (to_bytes s) (to_bytes (codes "_2e")),
        )
        (ap (λ t. escape (to_bytes s) ++ t) dot)))
  where
    dot : escape (to_bytes (codes ".")) ≡ escape (to_bytes (codes "_2e"))
    dot = refl
