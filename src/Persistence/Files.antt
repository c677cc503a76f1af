-- ===== src/Persistence/Files.antt =====
-- persistence.rs: writing, deleting, saving and restoring the profile files.
use nm_dbus_proxy_rs.Prelude.{ℕ, List, [], ◌∷◌, any, if◌then◌else◌}
use nm_dbus_proxy_rs.Text.{Str, ◌==◌, contains, starts_with}
use nm_dbus_proxy_rs.Variant.{Variant}
use nm_dbus_proxy_rs.Io.{
  Io, pure, config, query, lift, request, ignore, for_each, ◌>>=◌, ◌>>◌, create_dir_all,
  remove_file, write_file, write_bytes, ask_exists, ask_bytes, ask_files,
}
use nm_dbus_proxy_rs.Connection.{ConnectionRecord}
use nm_dbus_proxy_rs.Persistence.{filename_for_connection, profile}

-- What stands before the last `/`.
abbrev before_last : Str → Str
before_last [] = []
before_last (c ∷ s) = let rest = before_last s in if contains b'/' s then c ∷ rest else []

abbrev or_root : Str → Str → Str
or_root (c ∷ s) parent = c ∷ s
or_root [] parent = parent

-- `Path::parent`, displayed, of a file: a file directly under the root has the root.
unfoldable pub parent_dir : Str → Str
parent_dir path =
    or_root (before_last path) (if starts_with path (b'/' ∷ []) then b'/' ∷ [] else [])

-- An error of the outside, as the text of a `Result<_, String>`.
abbrev pub as_text : Str → Str
as_text e = e

module _ {Value : Type 0} ⦃V : Variant Value⦄ where
  -- The record comes back with its new file name; it is unchanged where a step fails.
  unfoldable pub persist_connection : ConnectionRecord Value → Io Value Str (ConnectionRecord Value)
  persist_connection c = do
    host ← config (λ h. h)
    filename ← lift (filename_for_connection host c)
    contents ← lift (profile c)
    request as_text (create_dir_all (parent_dir filename))
    request as_text (write_file filename contents)
    pure (record c { filename = filename })

module _ {Value : Type 0} where
  unfoldable pub delete_persisted_connection : ConnectionRecord Value → Io Value Str (Unit {0})
  delete_persisted_connection c = do
    found ← query (ask_exists c.filename) (λ h calls. h.exists calls c.filename)
    if found then request as_text (remove_file c.filename) else pure tt

  unfoldable pub discover_connection_files : Io Value Str (List Str)
  discover_connection_files = do
    files ← query ask_files (λ h calls. h.connection_files calls)
    lift files

  unfoldable pub read_all : List Str → Io Value Str (List (Str × List ℕ))
  read_all [] = pure []
  read_all (path ∷ rest) = do
    answer ← query (ask_bytes path) (λ h calls. h.file_bytes calls path)
    contents ← lift answer
    more ← read_all rest
    pure ((path, contents) ∷ more)

  unfoldable pub snapshot_connection_files : Io Value Str (List (Str × List ℕ))
  unfolding discover_connection_files read_all
  snapshot_connection_files = do files ← discover_connection_files; read_all files

  unfoldable pub restore_connection_files : List (Str × List ℕ) → Io Value Str (Unit {0})
  unfolding discover_connection_files
  restore_connection_files snapshot = do
    current ← discover_connection_files
    for_each current λ path.
        if any (λ saved. saved.0 == path) snapshot
        then pure tt
        else ignore (request as_text (remove_file path))
    for_each snapshot λ saved. do
      request as_text (create_dir_all (parent_dir saved.0))
      request as_text (write_bytes saved.0 saved.1)
