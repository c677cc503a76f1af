-- ===== src/Dns/Written.antt =====
-- What dns_manager.rs reads from a file that is written line by line.
use nm_dbus_proxy_rs.Prelude.{
  ◌≡◌, refl, ap, ◌∙◌, true, List, [], ◌∷◌, ◌++◌, some, is_empty, all, All,
}
use mathlib.Core.List.{append_assoc, append-nil}
use nm_dbus_proxy_rs.Text.{Str, codes, ◌==◌, starts_with}
use nm_dbus_proxy_rs.Text.Lines.{IsLine, lines, is_white, lines-line, trim, trim_start}
use nm_dbus_proxy_rs.Text.Fields.{
  is_field, joined, split_whitespace-fields, trim-fields, fields-IsLine,
}
use nm_dbus_proxy_rs.Dns.{
  ResolvConf, read_fields, read_line, read_lines, read_nameserver, parse_resolv_conf,
}

-- A line of the resolver's file: a server, with what may follow it, the domains to search, or a
-- comment.
pub data Entry : Type 0 where
  nameserver : Str → List Str → Entry
  search : List Str → Entry
  comment : Str → Entry

unfoldable pub print : Entry → Str
unfolding joined
print (nameserver server more) = codes "nameserver" ++ joined (server ∷ more)
print (search domains) = codes "search" ++ joined domains
print (comment text) = b'#' ∷ text

abbrev pub IsEntry : Entry → Type 0
IsEntry (nameserver server more) = all is_field (server ∷ more) ≡ true
IsEntry (search domains) = all is_field domains ≡ true
IsEntry (comment text) = IsLine (b'#' ∷ text)

unfoldable pub text : List Entry → Str
unfolding print
text [] = []
text (e ∷ es) = print e ++ 10 ∷ text es

unfoldable pub servers : List Entry → List Str
servers [] = []
servers (nameserver server more ∷ es) = server ∷ servers es
servers (search domains ∷ es) = servers es
servers (comment t ∷ es) = servers es

unfoldable pub searched : List Entry → List Str
searched [] = []
searched (nameserver server more ∷ es) = searched es
searched (search domains ∷ es) = domains ++ searched es
searched (comment t ∷ es) = searched es

abbrev entry_read : Entry → ResolvConf → ResolvConf
entry_read (nameserver server more) out = record out {
  nameservers = out.nameservers ++ server ∷ [];
}
entry_read (search domains) out = record out { domains = out.domains ++ domains }
entry_read (comment t) out = out

abbrev extended : ResolvConf → List Entry → ResolvConf
extended out es = record {
  domains = out.domains ++ searched es;
  nameservers = out.nameservers ++ servers es;
}

comment-trim : (t : Str) → IsLine (b'#' ∷ t) → trim (b'#' ∷ t) ≡ b'#' ∷ t
unfolding trim trim_start is_white
comment-trim t h = h.ended

entries_read :
    (e : Entry) (es : List Entry) (out : ResolvConf)
    → extended (entry_read e out) es ≡ extended out (e ∷ es)
unfolding searched servers
entries_read (nameserver server more) es out = rw append_assoc refl
entries_read (search domains) es out = rw append_assoc refl
entries_read (comment t) es out = refl

print-IsLine : (e : Entry) → IsEntry e → IsLine (print e)
unfolding print codes is_field all is_empty is_white
print-IsLine (nameserver server more) h = fields-IsLine (codes "nameserver") (server ∷ more) refl h
print-IsLine (search domains) h = fields-IsLine (codes "search") domains refl h
print-IsLine (comment t) h = h

read_line-print :
    (e : Entry) (out : ResolvConf) → IsEntry e → read_line (print e) out ≡ entry_read e out
unfolding read_line read_fields read_nameserver print codes ◌==◌ starts_with is_empty is_field all
    is_white
read_line-print (nameserver server more) out h =
    rw
      (
        trim-fields (codes "nameserver") (server ∷ more) refl h,
        split_whitespace-fields (codes "nameserver") (server ∷ more) refl h,
      )
      refl
read_line-print (search domains) out h =
    rw
      (
        trim-fields (codes "search") domains refl h,
        split_whitespace-fields (codes "search") domains refl h,
      )
      refl
read_line-print (comment t) out h = rw (comment-trim t h) refl

read_lines-text :
    (es : List Entry) (out : ResolvConf)
    → All IsEntry es
    → read_lines (lines (text es)) out ≡ extended out es
unfolding read_lines text servers searched lines
read_lines-text [] out h = rw (append-nil out.domains, append-nil out.nameservers) refl
read_lines-text (e ∷ es) out h =
    ap (λ ls. read_lines ls out) (lines-line (print e) (text es) (print-IsLine e h.0))
    ∙ ap (read_lines (lines (text es))) (read_line-print e out h.0)
    ∙ read_lines-text es (entry_read e out) h.1
    ∙ entries_read e es out

-- A file of name servers (with whatever follows them on their lines), domains to search and
-- comments, whose fields are neither empty nor hold white space, is read as these servers and these
-- domains, in their order.
pub parse_resolv_conf-text :
    (es : List Entry)
    → All IsEntry es
    → parse_resolv_conf (some (text es))
      ≡ record { domains = searched es; nameservers = servers es }
unfolding parse_resolv_conf
parse_resolv_conf-text es h = read_lines-text es _ h
