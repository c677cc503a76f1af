-- ===== src/Persistence/Profiles.antt =====
-- persistence.rs: the keys of a written profile, read back by `parse_network_value`.
use mathlib.Core.List.{append_assoc}
use nm_dbus_proxy_rs.Prelude.{
  ℕ, ◌≡◌, refl, sym, ap, ◌∙◌, Bool, true, false, not, List, [], ◌∷◌, ◌++◌, Option, none, some,
  is_empty, all, arith, if◌then◌else◌,
}
use nm_dbus_proxy_rs.Text.{Str, codes, contains, starts_with, ends_with, ◌==◌}
use nm_dbus_proxy_rs.Text.Lines.{
  IsLine, lines, lines-line, trim, trim_start, trim_end, trim-trim_end, is_white, split_once,
  trim_brackets, push_front, strip_start, strip_end,
}
use nm_dbus_proxy_rs.Variant.{Variant}
use nm_dbus_proxy_rs.Connection.{
  ConnectionRecord, interface_name, wifi_passphrase, autoconnect, is_hidden, unwrap_or,
}
use nm_dbus_proxy_rs.Persistence.{line_end, wired_profile, wifi_profile, security_section}
use nm_dbus_proxy_rs.Persistence.Load.{scan, parse_network_value, is_blank, is_header}

-- A value that a profile keeps: no newline in it, no white space around it.
pub record IsValue (value : Str) : Type 0 where
  pub unbroken : contains 10 value ≡ false
  pub trimmed : trim value ≡ value

trim_end-push : (c : ℕ) (s : Str) → is_white c ≡ false → trim_end s ≡ s → trim_end (c ∷ s) ≡ c ∷ s
unfolding trim_end
trim_end-push c s h k = ground arith

-- A text without white space or newlines, in front of a value.
trim_end-prefix :
    (p s : Str) → all (λ c. not (is_white c)) p ≡ true → trim_end s ≡ s → trim_end (p ++ s) ≡ p ++ s
unfolding all
trim_end-prefix [] s h k = k
trim_end-prefix (c ∷ p) s h k =
    trim_end-push c (p ++ s) (ground arith) (trim_end-prefix p s (ground arith) k)

contains-prefix :
    (p s : Str)
    → all (λ c. not (is_white c)) p ≡ true
    → contains 10 s ≡ false
    → contains 10 (p ++ s) ≡ false
unfolding all contains is_white
contains-prefix [] s h k = k
contains-prefix (c ∷ p) s h k = ground (arith, contains-prefix p s)

IsLine-prefix : (p s : Str) → all (λ c. not (is_white c)) p ≡ true → IsValue s → IsLine (p ++ s)
IsLine-prefix p s h v = record {
  unbroken = contains-prefix p s h v.unbroken;
  ended = trim_end-prefix p s h (trim-trim_end s v.trimmed);
}

trim-prefix :
    (c : ℕ) (p s : Str)
    → all (λ c. not (is_white c)) (c ∷ p) ≡ true
    → IsValue s
    → trim (c ∷ p ++ s) ≡ c ∷ p ++ s
unfolding trim trim_start all
trim-prefix c p s h v =
    let black : is_white c ≡ false = ground arith in
    rw black (trim_end-prefix (c ∷ p) s h (trim-trim_end s v.trimmed))

-- A line of the section that names the key gives its value.
scan-entry :
    (wanted key section raw name value : Str) (raws : List Str)
    → trim raw ≡ raw
    → is_blank raw ≡ false
    → is_header raw ≡ false
    → (section == wanted) ≡ true
    → split_once b'=' raw ≡ some (name, value)
    → (trim name == key) ≡ true
    → scan wanted key section (raw ∷ raws) ≡ some (trim value)
unfolding scan
scan-entry wanted key section raw name value raws t b h s p k = rw (t, b, h, s, p, k) refl

name_line :
    (name : Str) (raws : List Str)
    → IsValue name
    → scan (codes "Match") (codes "Name") (codes "Match") ((codes "Name=" ++ name) ∷ raws)
      ≡ some name
unfolding codes is_blank is_header is_empty starts_with ◌==◌ split_once all is_white trim trim_start
    trim_end
name_line name raws v =
    scan-entry (codes "Match") (codes "Name") (codes "Match") (codes "Name=" ++ name) (codes "Name")
      name raws (trim-prefix b'N' (codes "ame=") name refl v) refl refl refl refl refl
    ∙ ap some v.trimmed

passphrase_line :
    (passphrase : Str) (raws : List Str)
    → IsValue passphrase
    → scan
        (codes "Security")
        (codes "Passphrase")
        (codes "Security")
        ((codes "Passphrase=" ++ passphrase) ∷ raws)
      ≡ some passphrase
unfolding codes is_blank is_header is_empty starts_with ◌==◌ split_once all is_white trim trim_start
    trim_end
passphrase_line passphrase raws v =
    scan-entry (codes "Security") (codes "Passphrase") (codes "Security")
      (codes "Passphrase=" ++ passphrase) (codes "Passphrase") passphrase raws
      (trim-prefix b'P' (codes "assphrase=") passphrase refl v) refl refl refl refl refl
    ∙ ap some v.trimmed

name_entry :
    (name rest : Str)
    → IsValue name
    → lines ((codes "Name=" ++ (name ++ line_end)) ++ rest) ≡ (codes "Name=" ++ name) ∷ lines rest
unfolding codes all is_white
name_entry name rest v =
    ap lines (
      sym (ap (λ x. x ++ rest) (append_assoc (codes "Name=") name line_end))
      ∙ append_assoc (codes "Name=" ++ name) line_end rest)
    ∙ lines-line (codes "Name=" ++ name) rest (IsLine-prefix (codes "Name=") name refl v)

module _ {Value : Type 0} ⦃V : Variant Value⦄ where
  -- The interface name in a written `.network` file is the connection's, `*` where it has none, if
  -- the name has no newline in it and no white space around it.
  pub parse-wired_profile :
      (c : ConnectionRecord Value)
      → IsValue (unwrap_or (interface_name c) (codes "*"))
      → parse_network_value (wired_profile c) (codes "Match") (codes "Name")
        ≡ some (unwrap_or (interface_name c) (codes "*"))
  unfolding parse_network_value wired_profile scan codes lines push_front starts_with is_blank
      is_header ends_with trim trim_start trim_end is_white trim_brackets strip_start strip_end
      is_empty ◌==◌
  parse-wired_profile c v =
      let name = unwrap_or (interface_name c) (codes "*") in
      let rest = line_end ++ ((codes "[Network]" ++ line_end) ++ (codes "DHCP=yes" ++ line_end)) in
      ap (λ ls. scan (codes "Match") (codes "Name") (codes "Match") ls) (name_entry name rest v)
      ∙ name_line name (lines rest) v

passphrase_entry :
    (passphrase : Str)
    → IsValue passphrase
    → lines (codes "Passphrase=" ++ (passphrase ++ line_end))
      ≡ (codes "Passphrase=" ++ passphrase) ∷ []
unfolding codes all is_white lines
passphrase_entry passphrase v =
    ap lines (sym (append_assoc (codes "Passphrase=") passphrase line_end))
    ∙ lines-line (codes "Passphrase=" ++ passphrase) []
        (IsLine-prefix (codes "Passphrase=") passphrase refl v)

-- A value that may be missing.
abbrev pub IsOptional : Option Str → Type 0
IsOptional none = Unit
IsOptional (some value) = IsValue value

-- The text of `wifi_profile`, by what it reads from the record.
abbrev wifi_text : Bool → Bool → Option Str → Str
wifi_text auto hidden passphrase =
    (codes "[Settings]" ++ line_end)
    ++ ((codes "AutoConnect=" ++ ((if auto then codes "true" else codes "false") ++ line_end))
        ++ ((if hidden then codes "Hidden=true" ++ line_end else [])
            ++ security_section passphrase))

parse-wifi_text :
    (auto hidden : Bool) (passphrase : Option Str)
    → IsOptional passphrase
    → parse_network_value (wifi_text auto hidden passphrase) (codes "Security") (codes "Passphrase")
      ≡ passphrase
unfolding parse_network_value scan codes lines push_front starts_with is_blank is_header ends_with
    trim trim_start trim_end is_white trim_brackets strip_start strip_end is_empty ◌==◌
    security_section
parse-wifi_text true true none v = refl
parse-wifi_text true false none v = refl
parse-wifi_text false true none v = refl
parse-wifi_text false false none v = refl
parse-wifi_text true true (some p) v =
    ap (scan (codes "Security") (codes "Passphrase") (codes "Security")) (passphrase_entry p v)
    ∙ passphrase_line p [] v
parse-wifi_text true false (some p) v =
    ap (scan (codes "Security") (codes "Passphrase") (codes "Security")) (passphrase_entry p v)
    ∙ passphrase_line p [] v
parse-wifi_text false true (some p) v =
    ap (scan (codes "Security") (codes "Passphrase") (codes "Security")) (passphrase_entry p v)
    ∙ passphrase_line p [] v
parse-wifi_text false false (some p) v =
    ap (scan (codes "Security") (codes "Passphrase") (codes "Security")) (passphrase_entry p v)
    ∙ passphrase_line p [] v

module _ {Value : Type 0} ⦃V : Variant Value⦄ where
  -- The passphrase in a written profile of iwd is the connection's, and there is none where the
  -- connection has none.
  pub parse-wifi_profile :
      (c : ConnectionRecord Value)
      → IsOptional (wifi_passphrase c)
      → parse_network_value (wifi_profile c) (codes "Security") (codes "Passphrase")
        ≡ wifi_passphrase c
  unfolding wifi_profile
  parse-wifi_profile c = parse-wifi_text (autoconnect c) (is_hidden c) (wifi_passphrase c)
