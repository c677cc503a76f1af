-- ===== src/Runtime/Fresh.antt =====
-- Fresh object paths of runtime.rs: `next_connection_path`, and the start value that `new` gives
-- the counter.
use nm_dbus_proxy_rs.Prelude.{
  ◌≡◌, refl, sym, subst, Bool-cases, Option-cases, inl, inr, ◌∙◌, ap, ◌+◌, ◌<◌, ◌≤◌, true, false, ℕ,
  List, [], ◌∷◌, ◌++◌, none, some, if◌then◌else◌, arith, All,
}
use nm_dbus_proxy_rs.Prelude.Word.{word_mod, inc64, inc64-suc}
use nm_dbus_proxy_rs.Text.{Str, contains, after_last, ◌==◌, ==_iff}
use nm_dbus_proxy_rs.Text.Decimal.{to_dec, parse_usize, parse_usize-to_dec, contains-to_dec}
use nm_dbus_proxy_rs.Table.{find, modify}
use nm_dbus_proxy_rs.Table.Laws.{find-append}
use nm_dbus_proxy_rs.Paths.{ObjectPath, settings_path, last_segment, nm_settings_path}
use nm_dbus_proxy_rs.Connection.{ConnectionRecord, unwrap_or}
use nm_dbus_proxy_rs.Runtime.State.{RuntimeState, connection_key}
use nm_dbus_proxy_rs.Runtime.Connections.{
  connection, add_connection, update_connection, next_connection_path, max_settings_id, new,
}

-- The number at the end of a path, 0 where there is none.
abbrev pub path_id : ObjectPath → ℕ
path_id path = unwrap_or (parse_usize (last_segment path)) 0

contains-join : (p s : Str) → contains b'/' (p ++ b'/' ∷ s) ≡ true
unfolding contains
contains-join [] s = ground arith
contains-join (c ∷ p) s = ground (arith, contains-join p s)

after_last-none : (s : Str) → contains b'/' s ≡ false → after_last b'/' s ≡ s
unfolding after_last contains
after_last-none [] h = refl
after_last-none (c ∷ s) h = ground arith

pub after_last-join : (p s : Str) → contains b'/' s ≡ false → after_last b'/' (p ++ b'/' ∷ s) ≡ s
unfolding after_last
after_last-join [] s h = ground (arith, h)
after_last-join (c ∷ p) s h = ground (arith, after_last-join p s h, contains-join p s)

-- The number of a settings path is read back from it.
pub path_id-settings_path : (n : ℕ) → n < word_mod → path_id (settings_path n) ≡ n
unfolding settings_path
path_id-settings_path n h =
    ap (λ s. unwrap_or (parse_usize s) 0)
      (after_last-join nm_settings_path (to_dec n) (contains-to_dec n))
    ∙ ap (λ o. unwrap_or o 0) (parse_usize-to_dec n h)

module _ {Value : Type 0} where
  -- Every connection's number is below the counter.
  unfoldable pub IsFresh : RuntimeState Value → Type 0
  IsFresh s = All (λ c. path_id c.path < s.next_settings_id) s.connections

  Below : ℕ → List (ConnectionRecord Value) → Type 0
  Below n l = All (λ c. path_id c.path < n) l

  Below-weaken : (m n : ℕ) (l : List (ConnectionRecord Value)) → m ≤ n → Below m l → Below n l
  unfolding Below
  Below-weaken m n [] k h = tt
  Below-weaken m n (c ∷ l) k h = (omega (arith, h.0), Below-weaken m n l k h.1)

  Below-push :
      (n : ℕ) (l : List (ConnectionRecord Value)) (c : ConnectionRecord Value)
      → Below n l
      → path_id c.path < n
      → Below n (l ++ c ∷ [])
  unfolding Below
  Below-push n [] c h k = (k, tt)
  Below-push n (d ∷ l) c h k = (h.0, Below-push n l c h.1 k)

  find-Below :
      (n : ℕ) (l : List (ConnectionRecord Value)) (path : ObjectPath)
      → Below n l
      → n ≤ path_id path
      → find connection_key path l ≡ none
  unfolding Below find
  find-Below n [] path h k = refl
  find-Below n (c ∷ l) path h k = ground (
    arith,
    find-Below n l path h.1 k,
    h.0,
    λ (e : c.path ≡ path). ap path_id e,
    ==_iff c.path path,
  )

  find-added :
      (l : List (ConnectionRecord Value)) (c : ConnectionRecord Value) (path : ObjectPath)
      → find connection_key c.path l ≡ none
      → find connection_key path (l ++ c ∷ [])
        ≡ (if c.path == path then some c else find connection_key path l)
  unfolding find
  find-added l c path e = elim (Bool-cases (c.path == path)) [
    | inl same ↦
        let q : c.path ≡ path = (==_iff c.path path).0 same in
        let missing : find connection_key path l ≡ none =
          subst (λ p. find connection_key p l ≡ none) q e in
        rw (find-append connection_key path l (c ∷ []), missing) (ground arith)
    | inr other ↦ rw (find-append connection_key path l (c ∷ [])) (ground arith)
  ]

  max-Below : (l : List (ConnectionRecord Value)) (n : ℕ) → max_settings_id l < n → Below n l
  unfolding max_settings_id Below
  max-Below [] n h = tt
  max-Below (c ∷ l) n h = ground (arith, max-Below l n)

  -- `Runtime::new` starts the counter above the numbers of the connections that it is given, as long
  -- as the greatest of them is not the greatest `usize`.
  pub new-IsFresh :
      (l : List (ConnectionRecord Value)) → max_settings_id l + 1 < word_mod → IsFresh (new l)
  unfolding IsFresh new Below
  new-IsFresh l h = max-Below l _ (omega (arith, inc64-suc (max_settings_id l) h))

  -- While the counter does not wrap, the path that `next_connection_path` hands out belongs to no
  -- connection. A connection that is added with it is found at it, every other path still finds what
  -- it found, and the counter stays above all numbers.
  pub next_connection_path-IsFresh :
      (s : RuntimeState Value) (c : ConnectionRecord Value)
      → IsFresh s
      → s.next_settings_id + 1 < word_mod
      → c.path ≡ (next_connection_path s).0
      → let added = add_connection c (next_connection_path s).1 in
        (connection c.path s ≡ none)
        × ((path : ObjectPath)
            → connection path added ≡ (if c.path == path then some c else connection path s))
        × IsFresh added
  unfolding IsFresh next_connection_path add_connection connection Below
  next_connection_path-IsFresh s c f h e =
      let n : path_id c.path ≡ s.next_settings_id =
        ap path_id e ∙ path_id-settings_path s.next_settings_id (omega arith) in
      let missing = find-Below s.next_settings_id s.connections c.path f (omega arith) in
      let up = inc64-suc s.next_settings_id h in
      (
        missing,
        λ path. find-added s.connections c path missing,
        Below-push (inc64 s.next_settings_id) s.connections c
            (Below-weaken s.next_settings_id _ s.connections (omega arith) f) (omega arith),
      )

  Below-modify :
      (n : ℕ) (l : List (ConnectionRecord Value)) (c : ConnectionRecord Value)
      → Below n l
      → Below n (modify connection_key c.path (λ _. c) l)
  unfolding Below modify
  Below-modify n [] c h = tt
  Below-modify n (d ∷ l) c h = elim (Bool-cases (d.path == c.path)) [
    | inl same ↦
        let id = ap path_id ((==_iff d.path c.path).0 same) in rw same (omega (arith, h.0, id), h.1)
    | inr other ↦ rw other (h.0, Below-modify n l c h.1)
  ]

  -- A connection that is replaced at its path keeps the counter above all numbers.
  pub update_connection-IsFresh :
      (s : RuntimeState Value) (c : ConnectionRecord Value)
      → IsFresh s
      → IsFresh (update_connection c.path (λ _. c) s).1
  unfolding IsFresh update_connection connection Below
  update_connection-IsFresh s c f = elim (Option-cases (find connection_key c.path s.connections)) [
    | inl none_ ↦ rw (update_connection, none_) f
    | inr (old, found) ↦
        rw (update_connection, found) (Below-modify s.next_settings_id s.connections c f)
  ]

  Below-keep :
      (n : ℕ) (path : ObjectPath) (f : ConnectionRecord Value → ConnectionRecord Value)
      (l : List (ConnectionRecord Value))
      → ((c : ConnectionRecord Value) → (f c).path ≡ c.path)
      → Below n l
      → Below n (modify connection_key path f l)
  unfolding Below modify
  Below-keep n path f [] k h = tt
  Below-keep n path f (c ∷ l) k h = elim (Bool-cases (c.path == path)) [
    | inl same ↦ rw same (subst (λ p. path_id p < n) (sym (k c)) h.0, h.1)
    | inr other ↦ rw other (h.0, Below-keep n path f l k h.1)
  ]

  -- A change that keeps the paths keeps the counter above all numbers.
  pub update_keep-IsFresh :
      (path : ObjectPath) (f : ConnectionRecord Value → ConnectionRecord Value)
      (s : RuntimeState Value)
      → ((c : ConnectionRecord Value) → (f c).path ≡ c.path)
      → IsFresh s
      → IsFresh (update_connection path f s).1
  unfolding IsFresh update_connection connection Below
  update_keep-IsFresh path f s k h = elim (Option-cases (find connection_key path s.connections)) [
    | inl none_ ↦ rw (update_connection, none_) h
    | inr (old, found) ↦
        rw (update_connection, found) (Below-keep s.next_settings_id path f s.connections k h)
  ]
