-- ===== src/Text/Utf8.antt =====
-- UTF-8: `str::as_bytes` and `String::from_utf8` of the standard library.
use mathlib.Core.List.{append_assoc}
use nm_dbus_proxy_rs.Prelude.{
  ◌≢◌, ap, ℕ, zero, suc, ◌+◌, ◌-◌, ◌*◌, ◌/◌, ◌%◌, ◌≤◌, ◌<◌, ◌≡◌, refl, Bool, ◌&&◌, ◌||◌, List, [],
  ◌∷◌, ◌++◌, Option, none, some, arith, ltb, leb, if◌then◌else◌, All, ◌⊎◌,
}
use nm_dbus_proxy_rs.Text.{Str}

unfoldable pub encode : ℕ → List ℕ
encode c =
    if ltb c 0x80
    then c ∷ []
    else if ltb c 0x800
    then (0xc0 + c / 64) ∷ (0x80 + c % 64) ∷ []
    else if ltb c 0x10000
    then (0xe0 + c / 4096) ∷ (0x80 + (c / 64) % 64) ∷ (0x80 + c % 64) ∷ []
    else (0xf0 + c / 262144)
      ∷ (0x80 + (c / 4096) % 64)
      ∷ (0x80 + (c / 64) % 64)
      ∷ (0x80 + c % 64)
      ∷ []

-- `as_bytes`, `into_bytes` and `bytes`.
unfoldable pub to_bytes : Str → List ℕ
unfolding encode
to_bytes [] = []
to_bytes (c ∷ s) = encode c ++ to_bytes s

is_scalar : ℕ → Bool
is_scalar c = ltb c 0xd800 || (leb 0xe000 c && ltb c 0x110000)

-- The bytes of a character that are still to come, its bits so far, and its least value.
record Pending : Type 0 where
  need : ℕ
  bits : ℕ
  least : ℕ

-- What one byte does: a refusal, or the next state with the character that is complete.
record Advance : Type 0 where
  next : Pending
  out : Option ℕ

idle : Pending
idle = record { need = 0; bits = 0; least = 0 }

lead : ℕ → Option Advance
unfolding idle
lead b =
    if ltb b 0x80
    then some (record { next = idle; out = some b })
    else if leb 0xc0 b && ltb b 0xe0
    then some (record { next = record { need = 1; bits = b - 0xc0; least = 0x80 }; out = none })
    else if leb 0xe0 b && ltb b 0xf0
    then some (record { next = record { need = 2; bits = b - 0xe0; least = 0x800 }; out = none })
    else if leb 0xf0 b && ltb b 0xf8
    then some (record { next = record { need = 3; bits = b - 0xf0; least = 0x10000 }; out = none })
    else none

complete : ℕ → ℕ → Option Advance
unfolding idle is_scalar
complete least c =
    if leb least c && is_scalar c then some (record { next = idle; out = some c }) else none

continue : ℕ → Pending → ℕ → Option Advance
unfolding complete
continue need p b =
    if leb 0x80 b && ltb b 0xc0
    then (let bits = p.bits * 64 + (b - 0x80) in
        elim need [
          | zero ↦ complete p.least bits
          | suc n ↦
              some (record {
                next = record { need = suc n; bits = bits; least = p.least };
                out = none;
              })
        ])
    else none

advance : ℕ → Pending → ℕ → Option Advance
unfolding lead continue
advance zero p b = lead b
advance (suc n) p b = continue n p b

put : Option ℕ → Option Str → Option Str
put o none = none
put none (some s) = some s
put (some c) (some s) = some (c ∷ s)

decode : Pending → List ℕ → Option Str
unfolding advance put
decode p [] = elim p.need [ zero ↦ some [] | suc n ↦ none ]
decode p (b ∷ bs) = elim (advance p.need p b) [
  | none ↦ none
  | some a ↦ put a.out (decode a.next bs)
]

-- `String::from_utf8`, an error as `none`.
unfoldable pub from_utf8 : List ℕ → Option Str
unfolding decode
from_utf8 = decode idle

-- A Unicode scalar value.
abbrev pub IsScalar : ℕ → Type 0
IsScalar c = (c < 0xd800) ⊎ ((0xe000 ≤ c) × (c < 0x110000))

decode-encode :
    (c : ℕ) (bs : List ℕ)
    → IsScalar c
    → decode idle (encode c ++ bs) ≡ put (some c) (decode idle bs)
unfolding decode encode
decode-encode c bs h = ground arith

-- A text comes back from its bytes.
pub from_utf8-to_bytes : (s : Str) → All IsScalar s → from_utf8 (to_bytes s) ≡ some s
unfolding from_utf8 to_bytes
from_utf8-to_bytes [] h = refl
from_utf8-to_bytes (c ∷ s) h =
    rw (decode-encode c (to_bytes s) h.0)
      (rest (decode idle (to_bytes s)) (from_utf8-to_bytes s h.1))
  where
    rest : (o : Option Str) → o ≡ some s → put (some c) o ≡ some (c ∷ s)
    rest o e = rw e

encode_lt : (c : ℕ) → c < 0x110000 → All (λ b. b < 256) (encode c)
unfolding encode
encode_lt c h = ground arith

All-join {ℓ κ} :
    {A : Type ℓ} (IsGood : A → Type κ) (front back : List A)
    → All IsGood front
    → All IsGood back
    → All IsGood (front ++ back)
All-join IsGood [] back good_front good_back = good_back
All-join IsGood (first_item ∷ more) back (good, good_more) good_back =
    (good, All-join IsGood more back good_more good_back)

-- The bytes of a text are bytes.
pub to_bytes_lt : (s : Str) → All (λ c. c < 0x110000) s → All (λ b. b < 256) (to_bytes s)
unfolding to_bytes
to_bytes_lt [] h = tt
to_bytes_lt (c ∷ s) h = All-join _ (encode c) (to_bytes s) (encode_lt c h.0) (to_bytes_lt s h.1)

-- An ASCII text is its own bytes.
pub to_bytes-ascii : (s : Str) → All (λ c. c < 128) s → to_bytes s ≡ s
unfolding to_bytes encode
to_bytes-ascii [] h = refl
to_bytes-ascii (c ∷ s) h = ground (arith, to_bytes-ascii s h.1)

-- A Rust string: a list of scalar values.
abbrev pub IsText : Str → Type 0
IsText = All IsScalar

pub IsText-lt : (s : Str) → IsText s → All (λ c. c < 0x110000) s
IsText-lt [] h = tt
IsText-lt (c ∷ s) h = (omega arith, IsText-lt s h.1)

-- Texts with the same bytes are the same.
pub to_bytes-injective : (s t : Str) → IsText s → IsText t → to_bytes s ≡ to_bytes t → s ≡ t
to_bytes-injective s t hs ht e =
    cc (from_utf8-to_bytes s hs, from_utf8-to_bytes t ht, ap from_utf8 e)

pub to_bytes-append : (s t : Str) → to_bytes (s ++ t) ≡ to_bytes s ++ to_bytes t
unfolding to_bytes
to_bytes-append [] t = refl
to_bytes-append (c ∷ s) t = rw (to_bytes-append s t, append_assoc)

encode-ne : (c k : ℕ) → IsScalar c → k < 128 → c ≢ k → All (λ b. b ≢ k) (encode c)
unfolding encode
encode-ne c k h small ne = ground arith

-- An ASCII character that a text lacks is no byte of it.
pub to_bytes-ne :
    (s : Str) (k : ℕ) → IsText s → k < 128 → All (λ c. c ≢ k) s → All (λ b. b ≢ k) (to_bytes s)
unfolding to_bytes
to_bytes-ne [] k h small ne = tt
to_bytes-ne (c ∷ s) k h small ne =
    All-join _ (encode c) (to_bytes s) (encode-ne c k h.0 small ne.0)
      (to_bytes-ne s k h.1 small ne.1)
