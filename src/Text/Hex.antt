-- ===== src/Text/Hex.antt =====
-- `format!("{byte:02x}")` and the character classes of ASCII.
use nm_dbus_proxy_rs.Prelude.{
  ℕ, ◌+◌, ◌/◌, ◌%◌, ◌<◌, ◌≡◌, Bool, true, ◌&&◌, ◌||◌, [], ◌∷◌, arith, ltb, leb, if◌then◌else◌,
}
use nm_dbus_proxy_rs.Text.{Str}

unfoldable pub hex_digit : ℕ → ℕ
hex_digit n = if ltb n 10 then 48 + n else 87 + n

unfoldable pub hex2 : ℕ → Str
unfolding hex_digit
hex2 b = hex_digit (b / 16) ∷ hex_digit (b % 16) ∷ []

-- `char::is_ascii_alphanumeric`.
unfoldable pub is_alnum : ℕ → Bool
is_alnum c = (leb 48 c && leb c 57) || ((leb 65 c && leb c 90) || (leb 97 c && leb c 122))

pub is_alnum-hex_digit : (n : ℕ) → n < 16 → is_alnum (hex_digit n) ≡ true
unfolding is_alnum hex_digit
is_alnum-hex_digit n h = ground arith
