-- ===== src/Persistence/Reloaded.antt =====
-- persistence.rs: a Wi-Fi connection that is written and loaded again.
use nm_dbus_proxy_rs.Prelude.{
  ℕ, ◌<◌, ◌≡◌, refl, sym, ap, ◌∙◌, subst, Bool, Bool-cases, inl, inr, true, false, ◌||◌, not, List,
  [], ◌∷◌, ◌++◌, Option, none, some, is_empty, all, All, arith, eqb, if◌then◌else◌,
}
use nm_dbus_proxy_rs.Text.{Str, codes, contains, ◌==◌, ==_iff}
use nm_dbus_proxy_rs.Text.Hex.{is_alnum, hex2, hex_digit}
use nm_dbus_proxy_rs.Text.Utf8.{
  to_bytes, to_bytes_lt, from_utf8, from_utf8-to_bytes, IsText, IsText-lt,
}
use nm_dbus_proxy_rs.Map.{lookup}
use nm_dbus_proxy_rs.Variant.{Variant}
use nm_dbus_proxy_rs.Io.{Host, ok}
use nm_dbus_proxy_rs.Connection.{
  ConnectionRecord, ssid, wifi_passphrase, wifi_type, security_group, is_some, setting, get_string,
  and_then,
}
use nm_dbus_proxy_rs.Persistence.{
  join, iwd_file, filename_for_connection, profile, wifi_filename, wifi_profile, encode_iwd_name,
  hex_bytes, is_iwd_plain,
}
use nm_dbus_proxy_rs.Persistence.Load.{
  parse_network_value, load_contents, load_wifi, loaded, security_settings,
}
use nm_dbus_proxy_rs.Persistence.RoundTrip.{decode-encode_iwd_name}
use nm_dbus_proxy_rs.Persistence.FileNames.{IsFileName, file_stem-join, extension-join}
use nm_dbus_proxy_rs.Persistence.Profiles.{IsOptional, parse-wifi_profile}

-- Neither a dot nor a slash.
unfoldable is_stem : ℕ → Bool
is_stem c = not (eqb c b'.' || eqb c b'/')

stem_plain : (s : Str) → all is_iwd_plain s ≡ true → all is_stem s ≡ true
unfolding all is_iwd_plain is_stem is_alnum
stem_plain [] h = refl
stem_plain (c ∷ s) h = ground (arith, stem_plain s)

stem_hex : (bs : List ℕ) → All (λ b. b < 256) bs → all is_stem (hex_bytes bs) ≡ true
unfolding all is_stem hex_bytes hex2 hex_digit
stem_hex [] h = refl
stem_hex (b ∷ bs) h = ground (arith, h.0, stem_hex bs h.1)

stem_equals : (name : Str) → IsText name → all is_stem (b'=' ∷ hex_bytes (to_bytes name)) ≡ true
unfolding all is_stem
stem_equals name h = stem_hex (to_bytes name) (to_bytes_lt name (IsText-lt name h))

stem-encode_iwd_name : (name : Str) → IsText name → all is_stem (encode_iwd_name name) ≡ true
unfolding encode_iwd_name
stem-encode_iwd_name name h = elim (Bool-cases (all is_iwd_plain name)) [
  | inl plain ↦ rw plain (stem_plain name plain)
  | inr other ↦ rw other (stem_equals name h)
]

is_empty-encode_iwd_name :
    (name : Str) → is_empty name ≡ false → is_empty (encode_iwd_name name) ≡ false
unfolding encode_iwd_name is_empty
is_empty-encode_iwd_name name h = ground arith

unbroken_stem :
    (stem back : Str)
    → all is_stem stem ≡ true
    → all is_stem back ≡ true
    → contains b'/' (stem ++ b'.' ∷ back) ≡ false
unfolding all is_stem contains
unbroken_stem [] [] h b = refl
unbroken_stem [] (c ∷ back) h b = ground (arith, unbroken_stem [] back refl)
unbroken_stem (c ∷ stem) back h b = ground (arith, unbroken_stem stem back)

undotted_stem : (s : Str) → all is_stem s ≡ true → contains b'.' s ≡ false
unfolding all is_stem contains
undotted_stem [] h = refl
undotted_stem (c ∷ s) h = ground (arith, undotted_stem s)

-- A stem, a dot and an extension make a file name.
stem_file :
    (stem back : Str)
    → all is_stem stem ≡ true
    → is_empty stem ≡ false
    → all is_stem back ≡ true
    → IsFileName (stem ++ b'.' ∷ back)
unfolding all is_stem is_empty ◌==◌ codes
stem_file [] back h k b = absurd (cc)
stem_file (c ∷ stem) back h k b = record {
  unbroken = unbroken_stem (c ∷ stem) back h b;
  part = ground arith;
  downward = ground arith;
}

-- The extension that `wifi_filename` chooses.
abbrev kind_of : Bool → Str
kind_of secured = if secured then codes "psk" else codes "open"

kind_stem : (secured : Bool) → all is_stem (kind_of secured) ≡ true
unfolding all is_stem codes
kind_stem true = refl
kind_stem false = refl

kind_not_network : (secured : Bool) → (kind_of secured == codes "network") ≡ false
unfolding codes ◌==◌
kind_not_network true = refl
kind_not_network false = refl

module _ {Value : Type 0} ⦃V : Variant Value⦄ where
  load_named_lem :
      (dir interface contents name : Str) (secured : Bool)
      → IsText name
      → is_empty name ≡ false
      → let path = join dir (encode_iwd_name name ++ b'.' ∷ kind_of secured) in
        load_contents {Value = Value} interface path contents
        ≡ ok (load_wifi path contents interface name)
  unfolding load_contents
  load_named_lem dir interface contents name secured h k =
      let stem = stem-encode_iwd_name name h in
      let some_stem = is_empty-encode_iwd_name name k in
      let file =
        stem_file (encode_iwd_name name) (kind_of secured) stem some_stem (kind_stem secured) in
      let undotted = undotted_stem (kind_of secured) (kind_stem secured) in
      rw
        (
          extension-join dir (encode_iwd_name name) (kind_of secured) file some_stem undotted,
          file_stem-join dir (encode_iwd_name name) (kind_of secured) file some_stem undotted,
          kind_not_network secured,
          decode-encode_iwd_name name h,
        )
        refl

module _ (Value : Type 0) ⦃V : Variant Value⦄ where
  ssid-load_wifi :
      (path contents interface name : Str)
      → IsText name
      → ssid (load_wifi {Value = Value} path contents interface name) ≡ some name
  unfolding ssid load_wifi loaded codes lookup ◌==◌
  ssid-load_wifi path contents interface name h =
      ap (λ o. and_then o from_utf8) (V.as_bytes-from_bytes (to_bytes name))
      ∙ from_utf8-to_bytes name h

  psk_of :
      (passphrase : Option Str)
      → get_string {Value = Value} (security_settings passphrase) security_group (codes "psk")
        ≡ passphrase
  unfolding get_string security_settings codes lookup ◌==◌
  psk_of none = refl
  psk_of (some p) = V.as_string-from_string p

  passphrase-load_wifi :
      (path contents interface name : Str)
      → wifi_passphrase (load_wifi {Value = Value} path contents interface name)
        ≡ parse_network_value contents (codes "Security") (codes "Passphrase")
  unfolding wifi_passphrase setting get_string load_wifi loaded codes lookup ◌==◌
  passphrase-load_wifi path contents interface name = psk_of _

  type-load_wifi :
      (path contents interface name : Str)
      → (load_wifi {Value = Value} path contents interface name).connection_type ≡ wifi_type
  unfolding load_wifi loaded
  type-load_wifi path contents interface name = refl

module _ {Value : Type 0} ⦃V : Variant Value⦄ where
  wifi_path : Host Value → ConnectionRecord Value → Str → Str
  wifi_path host c name =
      join host.iwd_state_dir (encode_iwd_name name ++ b'.' ∷ kind_of (is_some (wifi_passphrase c)))

  filename-wifi :
      (host : Host Value) (c : ConnectionRecord Value) (name : Str)
      → c.connection_type ≡ wifi_type
      → ssid c ≡ some name
      → filename_for_connection host c ≡ ok (wifi_path host c name)
  unfolding filename_for_connection wifi_filename wifi_path
  filename-wifi host c name wifi named =
      rw ((==_iff c.connection_type wifi_type).1 wifi)
        (ap (iwd_file host (is_some (wifi_passphrase c))) named)

  profile-wifi :
      (c : ConnectionRecord Value) → c.connection_type ≡ wifi_type → profile c ≡ ok (wifi_profile c)
  unfolding profile
  profile-wifi c wifi = rw ((==_iff c.connection_type wifi_type).1 wifi) refl

  -- The file that a Wi-Fi connection with a non-empty SSID is written to loads as a Wi-Fi
  -- connection with the same SSID and passphrase. The passphrase has no newline in it and no white
  -- space around it.
  pub load_contents-profile :
      (host : Host Value) (c : ConnectionRecord Value) (name interface path contents : Str)
      → c.connection_type ≡ wifi_type
      → ssid c ≡ some name
      → IsText name
      → is_empty name ≡ false
      → IsOptional (wifi_passphrase c)
      → filename_for_connection host c ≡ ok path
      → profile c ≡ ok contents
      → (d : ConnectionRecord Value) × (load_contents interface path contents ≡ ok d
          × (d.connection_type ≡ c.connection_type
              × (ssid d ≡ ssid c × wifi_passphrase d ≡ wifi_passphrase c)))
  unfolding wifi_path
  load_contents-profile host c name interface path contents wifi named text some_name v at written =
      let path_is : wifi_path host c name ≡ path = cc (filename-wifi host c name wifi named) in
      let contents_is : wifi_profile c ≡ contents = cc (profile-wifi c wifi) in
      let read =
        load_named_lem host.iwd_state_dir interface contents name (is_some (wifi_passphrase c)) text
          some_name in
      let passphrase : parse_network_value contents (codes "Security") (codes "Passphrase")
          ≡ wifi_passphrase c =
        subst
          (λ x. parse_network_value x (codes "Security") (codes "Passphrase") ≡ wifi_passphrase c)
          contents_is (parse-wifi_profile c v) in
      (
        load_wifi path contents interface name,
        (
          subst
              (λ p.
                load_contents {Value = Value} interface p contents
                ≡ ok (load_wifi p contents interface name))
              path_is read,
          (
            type-load_wifi Value path contents interface name ∙ sym wifi,
            (
              ssid-load_wifi Value path contents interface name text ∙ sym named,
              passphrase-load_wifi Value path contents interface name ∙ passphrase,
            ),
          ),
        ),
      )
