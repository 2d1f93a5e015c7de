-- ===== src/Netfin/Disk.antt =====
-- The backup directory as package os and netfin/internal/safeio/copy.go change it: a map from the
-- relative path to what stands there. Permissions and times are numbers, the umask is 0, and the
-- root of the backup exists. `fails` in `Source` stands for every other error of the operating
-- system at a path: it comes before any change.
pub mod Laws
use dockerset.Base.{
  ℕ, Bool, true, false, ◌&&◌, ◌||◌, List, [], ◌∷◌, ◌++◌, Option, none, some, leb, ◌==◌, ◌===◌,
  if◌then◌else◌, Bytes, length, take,
}
use dockerset.Go.Maps.{Map, get, put, delete_if}
use dockerset.Go.Path.{slash, dot}

pub data Node : Type 0 where
  dir_node : ℕ → Node
  file_node : ℕ → ℕ → Bytes → Node

pub data SyncError : Type 0 where
  path_escapes lstat_failed disk_failed source_unreadable not_a_directory is_a_directory : SyncError
  walk_cancelled directory_unread : SyncError

pub data FileKind : Type 0 where
  directory regular symlink other : FileKind

-- `os.FileInfo`: the kind and the permissions of the mode, the size and the time
pub record FileInfo : Type 0 where
  pub kind : FileKind
  pub mode : ℕ
  pub size : ℕ
  pub mod_time : ℕ

pub data Lstat : Type 0 where
  missing : Lstat
  unreadable : Lstat
  found : FileInfo → Lstat

-- The source directory by relative path, and the faults of the backup's disk.
pub record Source : Type 0 where
  pub lstat : Bytes → Lstat
  pub content : Bytes → Option Bytes
  pub fails : Bytes → Bool

-- `hasPathPrefix`
unfoldable pub has_path_prefix : Bytes → Bytes → Bool
unfolding ◌===◌
has_path_prefix path prefix =
    leb (length prefix) (length path) && take (length prefix) path === prefix

-- The test of `hasStateTree` and `forgetStateTree`
unfoldable pub in_tree : Bytes → Bytes → Bool
unfolding has_path_prefix ◌===◌
in_tree rel path = path === rel || has_path_prefix path (rel ++ slash)

-- The directories above a path, the topmost first: what stands before each separator.
unfoldable pub parents_from : Bytes → Bytes → List Bytes
parents_from before [] = []
parents_from before (c ∷ s) =
    let rest = parents_from (before ++ (c ∷ [])) s in if c == b'/' then before ∷ rest else rest

-- One directory of `os.MkdirAll`, by what stands there
abbrev pub make_dir_at : Bytes → ℕ → Map Node → Option Node → Option (Map Node)
make_dir_at rel mode fs none = some (put rel (dir_node mode) fs)
make_dir_at rel mode fs (some (dir_node m)) = some fs
make_dir_at rel mode fs (some (file_node m t c)) = none

unfoldable pub make_dir : Bytes → ℕ → Map Node → Option (Map Node)
make_dir rel mode fs = make_dir_at rel mode fs (get rel fs)

unfoldable pub make_dirs : List Bytes → ℕ → Map Node → Option (Map Node)
make_dirs [] mode fs = some fs
make_dirs (rel ∷ rels) mode fs = elim (make_dir rel mode fs) [
  | none ↦ none
  | some made ↦ make_dirs rels mode made
]

-- os.MkdirAll: `none` where a file stands in the way
unfoldable pub mkdir_all : Bytes → ℕ → Map Node → Option (Map Node)
unfolding parents_from make_dirs make_dir
mkdir_all rel mode fs =
    if rel === dot then some fs else elim (make_dirs (parents_from [] rel) mode fs) [
      | none ↦ none
      | some above ↦ make_dir rel mode above
    ]

-- The rename at the end of `AtomicCopyFile`, by what stands there
abbrev pub rename_at : Bytes → Node → Map Node → Option Node → Option SyncError × Map Node
rename_at rel node fs none = (none, put rel node fs)
rename_at rel node fs (some (dir_node m)) = (some is_a_directory, fs)
rename_at rel node fs (some (file_node m t c)) = (none, put rel node fs)

unfoldable pub rename_onto : Bytes → Node → Map Node → Option SyncError × Map Node
rename_onto rel node fs = rename_at rel node fs (get rel fs)

abbrev pub dir_mode : ℕ
dir_mode = 0o755

-- `AtomicCopyFile`; the temporary file is gone when it returns.
unfoldable pub atomic_copy_file :
    Source → Bytes → ℕ → ℕ → Bool → Map Node → Option SyncError × Map Node
unfolding rename_onto make_dirs
atomic_copy_file src rel mode mod_time true fs = (none, fs)
atomic_copy_file src rel mode mod_time false fs = elim (src.content rel) [
  | none ↦ (some source_unreadable, fs)
  | some bytes ↦
      if src.fails rel
      then (some disk_failed, fs)
      else elim (make_dirs (parents_from [] rel) dir_mode fs) [
        | none ↦ (some not_a_directory, fs)
        | some above ↦ rename_onto rel (file_node mode mod_time bytes) above
      ]
]

-- `RemovePath`
unfoldable pub remove_path : Source → Bytes → Bool → Map Node → Option SyncError × Map Node
unfolding in_tree
remove_path src rel true fs = (none, fs)
remove_path src rel false fs =
    if src.fails rel
    then (some disk_failed, fs)
    else (none, delete_if (λ p. rel === dot || in_tree rel p) fs)
