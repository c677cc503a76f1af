-- ===== src/Persistence/RoundTrip.antt =====
-- persistence.rs: what a written profile says when it is read back.
use nm_dbus_proxy_rs.Prelude.{
  ℕ, ◌/◌, ◌%◌, ◌<◌, ◌≡◌, refl, ap, inl, inr, Bool-cases, true, false, List, [], ◌∷◌, some, all, All,
  arith, eqb,
}
use nm_dbus_proxy_rs.Text.{Str}
use nm_dbus_proxy_rs.Text.Hex.{hex2, hex_digit, is_alnum}
use nm_dbus_proxy_rs.Text.Utf8.{
  to_bytes, to_bytes-ascii, from_utf8-to_bytes, to_bytes_lt, IsText, IsText-lt,
}
use nm_dbus_proxy_rs.Io.{ok}
use nm_dbus_proxy_rs.Persistence.{encode_iwd_name, hex_bytes, is_iwd_plain}
use nm_dbus_proxy_rs.Persistence.Load.{
  hex_pair, hex_value, decode_chunks, decode_iwd_name, utf8_text,
}

hex_value-hex_digit : (n : ℕ) → n < 16 → hex_value (hex_digit n) ≡ some n
unfolding hex_value hex_digit
hex_value-hex_digit n h = ground arith

hex_digit_plus : (n : ℕ) → n < 16 → eqb (hex_digit n) b'+' ≡ false
unfolding hex_digit
hex_digit_plus n h = ground arith

hex_pair-hex2 : (b : ℕ) → b < 256 → hex_pair (hex_digit (b / 16)) (hex_digit (b % 16)) ≡ some b
unfolding hex_pair
hex_pair-hex2 b h =
    rw
      (
        hex_value-hex_digit (b % 16) (omega arith),
        hex_value-hex_digit (b / 16) (omega arith),
        hex_digit_plus (b / 16) (omega arith),
      )
      (ap some (omega arith))

decode_chunks-hex_bytes :
    (bs : List ℕ) → All (λ b. b < 256) bs → decode_chunks (hex_bytes bs) ≡ some bs
unfolding decode_chunks hex_bytes hex2
decode_chunks-hex_bytes [] h = refl
decode_chunks-hex_bytes (b ∷ bs) h = rw (hex_pair-hex2 b h.0, decode_chunks-hex_bytes bs h.1) refl

hex_bytes-ascii : (bs : List ℕ) → All (λ b. b < 256) bs → All (λ c. c < 128) (hex_bytes bs)
unfolding hex_bytes hex2 hex_digit
hex_bytes-ascii [] h = tt
hex_bytes-ascii (b ∷ bs) h = (ground arith, (ground arith, hex_bytes-ascii bs h.1))

plain_start : (c : ℕ) (s : Str) → all is_iwd_plain (c ∷ s) ≡ true → eqb c b'=' ≡ false
unfolding all is_iwd_plain is_alnum
plain_start c s h = ground arith

decode-plain : (name : Str) → all is_iwd_plain name ≡ true → decode_iwd_name name ≡ ok name
unfolding decode_iwd_name
decode-plain [] h = refl
decode-plain (c ∷ s) h = rw (plain_start c s h) refl

decode-hex :
    (name : Str) → IsText name → decode_iwd_name (b'=' ∷ hex_bytes (to_bytes name)) ≡ ok name
unfolding decode_iwd_name utf8_text
decode-hex name h =
    let bytes = to_bytes_lt name (IsText-lt name h) in
    rw
      (
        to_bytes-ascii (hex_bytes (to_bytes name)) (hex_bytes-ascii (to_bytes name) bytes),
        decode_chunks-hex_bytes (to_bytes name) bytes,
        from_utf8-to_bytes name h,
      )
      refl

-- The file name that iwd is given for a network is read back as the network's name.
pub decode-encode_iwd_name :
    (name : Str) → IsText name → decode_iwd_name (encode_iwd_name name) ≡ ok name
unfolding encode_iwd_name
decode-encode_iwd_name name h = elim (Bool-cases (all is_iwd_plain name)) [
  | inl plain ↦ rw plain (decode-plain name plain)
  | inr other ↦ rw other (decode-hex name h)
]
