-- ===== src/Persistence/Load.antt =====
-- persistence.rs: reading a profile file back, `load_connection_from_path` with
-- `parse_network_value` and the decoding of iwd's file names.
use nm_dbus_proxy_rs.Prelude.{
  ℕ, ◌+◌, ◌-◌, ◌*◌, Bool, true, false, ◌&&◌, ◌||◌, List, [], ◌∷◌, ◌++◌, Option, none, some, eqb,
  leb, is_empty, not, last, keep_if, if◌then◌else◌,
}
use nm_dbus_proxy_rs.Text.{Str, codes, ◌==◌, starts_with, ends_with, contains, after_last}
use nm_dbus_proxy_rs.Text.Utf8.{to_bytes, from_utf8}
use nm_dbus_proxy_rs.Text.Lines.{lines, trim, split_once, trim_brackets, push_front}
use nm_dbus_proxy_rs.Variant.{Variant}
use nm_dbus_proxy_rs.Map.{Map}
use nm_dbus_proxy_rs.Connection.{
  ConnectionRecord, ConnectionSettings, user, wifi_type, ethernet_type, security_group, unwrap_or,
  and_then,
}
use nm_dbus_proxy_rs.Io.{Io, Result, ok, err, query, lift, config, ask_bytes, ◌>>=◌}

-- The line says nothing: it is empty or a comment.
unfoldable pub is_blank : Str → Bool
is_blank line = is_empty line || (starts_with line (codes "#") || starts_with line (codes ";"))

unfoldable pub is_header : Str → Bool
is_header line = starts_with line (codes "[") && ends_with line (codes "]")

-- The loop over the lines, in a section of that name. A line of the section without `=` ends it.
unfoldable pub scan : Str → Str → Str → List Str → Option Str
unfolding is_blank is_header
scan wanted key section [] = none
scan wanted key section (raw ∷ raws) =
    let line = trim raw in
    let header = not (is_blank line) && is_header line in
    let rest = scan wanted key (if header then trim_brackets line else section) raws in
    if is_blank line || (is_header line || not (section == wanted))
    then rest
    else and_then (split_once b'=' line)
        (λ entry. if trim entry.0 == key then some (trim entry.1) else rest)

unfoldable pub parse_network_value : Str → Str → Str → Option Str
unfolding scan
parse_network_value contents wanted key = scan wanted key [] (lines contents)

-- `u8::from_str_radix(text, 16)` of a hexadecimal digit.
unfoldable pub hex_value : ℕ → Option ℕ
hex_value c =
    if leb 48 c && leb c 57
    then some (c - 48)
    else if leb 97 c && leb c 102
    then some (c - 87)
    else if leb 65 c && leb c 70
    then some (c - 55)
    else none

abbrev pub join_digits : Bool → Option ℕ → Option ℕ → Option ℕ
join_digits plus high none = none
join_digits true high (some low) = some low
join_digits false none (some low) = none
join_digits false (some high) (some low) = some (high * 16 + low)

-- Two characters; `from_str_radix` accepts a `+` before a digit.
unfoldable pub hex_pair : ℕ → ℕ → Option ℕ
unfolding hex_value
hex_pair c d = join_digits (eqb c b'+') (hex_value c) (hex_value d)

abbrev pub push_byte : Option ℕ → Option (List ℕ) → Option (List ℕ)
push_byte none bs = none
push_byte (some b) none = none
push_byte (some b) (some bs) = some (b ∷ bs)

-- The loop over `chunks(2)` of the name's bytes.
unfoldable pub decode_chunks : List ℕ → Option (List ℕ)
unfolding hex_value hex_pair
decode_chunks [] = some []
decode_chunks (c ∷ []) = push_byte (hex_value c) (some [])
decode_chunks (c ∷ d ∷ bs) = push_byte (hex_pair c d) (decode_chunks bs)

-- `String::from_utf8`, its error as a text of the standard library.
abbrev pub or_invalid : Option Str → Result Str Str
or_invalid none = err (codes "invalid utf-8 sequence")
or_invalid (some text) = ok text

unfoldable pub utf8_text : List ℕ → Result Str Str
utf8_text bytes = or_invalid (from_utf8 bytes)

abbrev pub decoded_name : Str → Option (List ℕ) → Result Str Str
decoded_name stem none = err (codes "invalid encoded SSID '" ++ stem ++ codes "'")
decoded_name stem (some bytes) = utf8_text bytes

-- The SSID that a file stem stands for.
unfoldable pub decode_iwd_name : Str → Result Str Str
unfolding decode_chunks utf8_text
decode_iwd_name [] = ok []
decode_iwd_name (c ∷ encoded) =
    if eqb c b'='
    then decoded_name (c ∷ encoded) (decode_chunks (to_bytes encoded))
    else ok (c ∷ encoded)

-- `Path::file_name`: the last component, if it is not `..`. Empty components and `.` are none.
unfoldable pub components : Str → List Str
unfolding push_front
components [] = [] ∷ []
components (c ∷ s) = let rest = components s in if eqb c b'/' then [] ∷ rest else push_front c rest

unfoldable pub file_name : Str → Option Str
unfolding components
file_name path =
    and_then (last (keep_if (λ part. not (is_empty part || part == codes ".")) (components path)))
      (λ name. if name == codes ".." then none else some name)

-- What stands before the last mark; read where there is one.
unfoldable pub before_last : ℕ → Str → Str
before_last mark [] = []
before_last mark (c ∷ s) = let rest = before_last mark s in if contains mark s then c ∷ rest else []

-- `Path::extension` and `Path::file_stem` of a file name: one dot at the start counts for neither.
unfoldable pub has_extension : Str → Bool
unfolding before_last
has_extension name = contains b'.' name && not (is_empty (before_last b'.' name))

unfoldable pub extension : Str → Option Str
unfolding file_name has_extension
extension path =
    and_then (file_name path)
      (λ name. if has_extension name then some (after_last b'.' name) else none)

unfoldable pub file_stem : Str → Option Str
unfolding file_name has_extension before_last
file_stem path =
    and_then (file_name path)
      (λ name. some (if has_extension name then before_last b'.' name else name))

abbrev pub imported_uuid : Str → Str
imported_uuid path = codes "imported-" ++ path

abbrev pub and_then_name : Str → Option Str → Result Str Str
and_then_name path none = err (codes "invalid Wi-Fi filename '" ++ path ++ codes "'")
and_then_name path (some stem) = decode_iwd_name stem

abbrev pub is_network : Option Str → Bool
is_network none = false
is_network (some name) = name == codes "network"

module _ {Value : Type 0} ⦃V : Variant Value⦄ where
  -- The `connection` group of a loaded profile.
  unfoldable pub connection_group : Str → Str → Str → Str → Map Value
  connection_group name interface connection_type uuid =
      (codes "id", V.from_string name)
      ∷ (codes "interface-name", V.from_string interface)
      ∷ (codes "type", V.from_string connection_type)
      ∷ (codes "uuid", V.from_string uuid)
      ∷ (codes "autoconnect", V.from_bool true)
      ∷ []

  unfoldable pub loaded : Str → Str → ConnectionSettings Value → ConnectionRecord Value
  loaded path connection_type settings = record {
    connection_type = connection_type;
    filename = path;
    flags = 0;
    origin = user;
    path = codes "/";
    settings = settings;
    unsaved = false;
    uuid = imported_uuid path;
  }

  -- A `.network` file.
  unfoldable pub load_wired : Str → Str → ConnectionRecord Value
  unfolding loaded connection_group parse_network_value
  load_wired path contents =
      let interface =
        unwrap_or (parse_network_value contents (codes "Match") (codes "Name")) (codes "*") in
      loaded path ethernet_type (
        (
          codes "connection",
          connection_group interface interface ethernet_type (imported_uuid path),
        )
        ∷ (ethernet_type, [])
        ∷ [])

  unfoldable pub security_settings : Option Str → ConnectionSettings Value
  security_settings none = []
  security_settings (some passphrase) =
      (
        security_group,
        (codes "key-mgmt", V.from_string (codes "wpa-psk"))
            ∷ (codes "psk", V.from_string passphrase)
            ∷ [],
      )
      ∷ []

  -- Another file, of a network of that SSID.
  unfoldable pub load_wifi : Str → Str → Str → Str → ConnectionRecord Value
  unfolding loaded connection_group security_settings parse_network_value
  load_wifi path contents interface name = loaded path wifi_type (
      (codes "connection", connection_group name interface wifi_type (imported_uuid path))
      ∷ (wifi_type, (codes "ssid", V.from_bytes (to_bytes name)) ∷ [])
      ∷ security_settings (parse_network_value contents (codes "Security") (codes "Passphrase")))

  abbrev pub load_named : Str → Str → Str → Result Str Str → Result Str (ConnectionRecord Value)
  load_named path contents interface (err e) = err e
  load_named path contents interface (ok name) = ok (load_wifi path contents interface name)

  -- The profile in a file of that path and contents.
  unfoldable pub load_contents : Str → Str → Str → Result Str (ConnectionRecord Value)
  unfolding extension file_stem decode_iwd_name load_wired load_wifi
  load_contents interface path contents =
      if is_network (extension path)
      then ok (load_wired path contents)
      else load_named path contents interface (and_then_name path (file_stem path))

  unfoldable pub load_connection_from_path : Str → Io Value Str (ConnectionRecord Value)
  unfolding load_contents
  load_connection_from_path path = do
    answer ← query (ask_bytes path) (λ h calls. h.file_bytes calls path)
    bytes ← lift answer
    contents ← lift (utf8_text bytes)
    interface ← config (λ h. unwrap_or h.default_wifi_iface (codes "wlan0"))
    lift (load_contents interface path contents)
