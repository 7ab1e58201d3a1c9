-- ===== src/Commit/Store.antt =====
-- graph/commit.rs and graph/storage.rs: the entries below a storage directory, and their access.
pub mod Directories
use ffhn.Base.{
  Bool, true, false, Option, none, some, List, [], ◌∷◌, ◌++◌, same, list_eq, nat_eq, if◌then◌else◌,
}
use ffhn.Base.Errors.{Text, CoreResult, contract, io, ok, err, ◌>>=◌, ◌>>◌}
use ffhn.Base.Texts.{split}
use ffhn.Commit.Path.{slash, staged_text}

-- What `symlink_metadata` and a read tell of an entry; `special` is a symbolic link or another
-- object that is neither a directory nor a regular file.
pub data Node : Type 0 where
  directory special : Node
  regular : Text → Node

-- The components of a path below the storage directory.
abbrev pub Key : Type 0
Key = List Text

abbrev pub Storage : Type 0
Storage = Key → Option Node

-- The entry at the key becomes the given one; `none` removes it.
abbrev pub put : Key → Option Node → Storage → Storage
put key node s other = if same key other then node else s other

abbrev pub need_directory : Option Node → CoreResult (Unit {0})
need_directory none = err io
need_directory (some directory) = ok tt
need_directory (some _) = err (contract "manifest path parent must be a non-symlink directory")

unfoldable pub open_existing_child : Storage → Key → CoreResult (Unit {0})
open_existing_child s key = need_directory (s key)

-- The directory is created where nothing stands, and then opened.
abbrev pub create_missing : Option Node → Key → Storage → Storage
create_missing none key s = put key (some directory) s
create_missing (some node) key s = s

unfoldable pub open_or_create_child : Storage → Key → CoreResult Storage
open_or_create_child s key = do
  let opened = create_missing (s key) key s
  open_existing_child opened key
  ok opened

abbrev pub open_child : Bool → Storage → Key → CoreResult Storage
open_child true s key = open_or_create_child s key
open_child false s key = open_existing_child s key >> ok s

-- The loop over the components before the last one: the directory that is open, and the rest.
unfoldable pub open_components : Bool → Storage → Key → List Text → CoreResult Storage
open_components create s dir [] = ok s
open_components create s dir (component ∷ rest) = do
  opened ← open_child create s (dir ++ (component ∷ []))
  open_components create opened (dir ++ (component ∷ [])) rest

-- `components.pop()`, with what it leaves.
abbrev pub parents : List Text → List Text
parents [] = []
parents (name ∷ []) = []
parents (component ∷ next ∷ rest) = component ∷ parents (next ∷ rest)

abbrev pub key_of : Text → Key
key_of path = split slash path

-- The storage with the parents of the path open; the entry of the path is then at `key_of path`.
unfoldable pub open_manifest_parent : Bool → Storage → Text → CoreResult Storage
open_manifest_parent create s path = open_components create s [] (parents (key_of path))

-- `read_regular_bytes` of an entry of an open directory.
abbrev pub bytes_of : Option Node → CoreResult (Option Text)
bytes_of none = ok none
bytes_of (some (regular bytes)) = ok (some bytes)
bytes_of (some _) = err (contract "manifest path must name a non-symlink regular file")

unfoldable pub read_regular_bytes : Storage → Text → CoreResult (Option Text)
read_regular_bytes s path = bytes_of (s (key_of path))

-- `rename` of a file to a place where a file may stand.
abbrev pub rename : Text → Text → Storage → Storage
rename from to s = put (key_of from) none (put (key_of to) (s (key_of from)) s)

-- `remove_dir_all` of the staging directory.
abbrev pub without_staged : Storage → Storage
without_staged s [] = s []
without_staged s (first ∷ rest) = if same first staged_text then none else s (first ∷ rest)

abbrev discard : Option Node → Storage → CoreResult Storage
discard none s = ok s
discard (some directory) s = ok (without_staged s)
discard (some _) s = err (contract "reserved commit staging root must be a non-symlink directory")

unfoldable pub discard_uncommitted_staging : Storage → CoreResult Storage
discard_uncommitted_staging s = discard (s (staged_text ∷ [])) s
