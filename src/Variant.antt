-- ===== src/Variant.antt =====
-- What the program relies on of the D-Bus values of the `zvariant` crate: conversions of a value to
-- a Rust type, which answer for values of that type alone, and the values made from Rust data.
use nm_dbus_proxy_rs.Prelude.{ℕ, ◌≡◌, refl, Bool, List, Option, none, some}
use nm_dbus_proxy_rs.Text.{Str}

-- `as_T v` stands for `v.try_clone().ok().and_then(|v| T::try_from(v).ok())`.
pub record Variant (Value : Type 0) : Type 0 where
  pub as_string : Value → Option Str
  pub as_bool : Value → Option Bool
  pub as_bytes : Value → Option (List ℕ)
  pub as_u64 : Value → Option ℕ
  pub from_string : Str → Value
  pub from_bool : Bool → Value
  pub from_bytes : List ℕ → Value
  pub as_string-from_string : (s : Str) → as_string (from_string s) ≡ some s
  pub as_bool-from_bool : (b : Bool) → as_bool (from_bool b) ≡ some b
  pub as_bytes-from_bytes : (b : List ℕ) → as_bytes (from_bytes b) ≡ some b

-- Values that are tagged Rust data satisfy the laws.
pub data Tagged : Type 0 where
  string : Str → Tagged
  boolean : Bool → Tagged
  bytes : List ℕ → Tagged
  number : ℕ → Tagged

abbrev string_of : Tagged → Option Str
string_of (string s) = some s
string_of _ = none

abbrev bool_of : Tagged → Option Bool
bool_of (boolean b) = some b
bool_of _ = none

abbrev bytes_of : Tagged → Option (List ℕ)
bytes_of (bytes b) = some b
bytes_of _ = none

abbrev number_of : Tagged → Option ℕ
number_of (number n) = some n
number_of _ = none

instance abbrev pub tagged : Variant Tagged
tagged = record {
  as_string = string_of;
  as_bool = bool_of;
  as_bytes = bytes_of;
  as_u64 = number_of;
  from_string = string;
  from_bool = boolean;
  from_bytes = bytes;
  as_string-from_string = λ s. refl;
  as_bool-from_bool = λ b. refl;
  as_bytes-from_bytes = λ b. refl;
}
