-- ===== src/Netfin/Repl.antt =====
-- Which databases netfin replicates, and where to (netfin/internal/sqliterepl/repl.go). The replication
-- itself is the litestream library; `suffix` is its `MetaDirSuffix`.
pub mod Content
pub mod Databases
pub mod Found
pub mod Known
use dockerset.Base.{
  ℕ, zero, suc, Bool, true, false, not, ◌&&◌, ◌||◌, List, [], ◌∷◌, ◌++◌, Option, none, some, ◌==◌,
  ◌===◌, if◌then◌else◌, Bytes, length, take, codes, any, ◌+◌,
}
use dockerset.Go.Text.{trim_prefix}
use dockerset.Go.Path.{clean, base, dot, slash}
use dockerset.Go.Glob.{tokens, glob}
use dockerset.Go.Walk.{Entry, leaf, folder, Entries, WalkStep, go_on, skip_dir, stop, walk}
use dockerset.Netfin.Config.{DbConfig}

-- A file that the walk meets: whether it is a regular one (`none`: `entry.Info()` fails), and what Open
-- and Read give of it (`none`: they fail).
pub record DbFile : Type 0 where
  pub regular : Option Bool
  pub content : Option Bytes

pub data DiscoverError : Type 0 where
  no_database no_info bad_pattern directory_unread : DiscoverError

abbrev pub magic : Bytes
magic = codes "SQLite format 3" ++ (0 ∷ [])

-- `make([]byte, n)` after a read of `s`
abbrev pub filled : ℕ → Bytes → Bytes
filled zero s = []
filled (suc n) [] = 0 ∷ filled n []
filled (suc n) (c ∷ s) = c ∷ filled n s

-- `isSQLiteDatabase`; a read of an empty file is an error.
unfoldable pub is_sqlite_database : Option Bytes → Bool
unfolding ◌===◌
is_sqlite_database none = false
is_sqlite_database (some []) = false
is_sqlite_database (some (c ∷ s)) = filled 16 (c ∷ s) === magic

-- filepath.Match, with the error of a malformed pattern
unfoldable pub matched : Bytes → Bytes → Option Bool
unfolding tokens glob
matched pattern name = elim (tokens (length pattern + 1) pattern) [
  | none ↦ none
  | some ts ↦ some (glob ts name)
]

-- The path that WalkDir passes on, for a path relative to the directory
unfoldable pub path_in : Bytes → Bytes → Bytes
unfolding clean
path_in dir rel = clean (dir ++ slash ++ rel)

abbrev pub found_at :
    Bytes → DbFile → List Bytes → Option Bool → WalkStep DiscoverError × List Bytes
found_at path f paths none = (stop no_info, paths)
found_at path f paths (some regular) =
    if regular && is_sqlite_database f.content
    then (go_on, paths ++ (path ∷ []))
    else (go_on, paths)

abbrev pub matched_at :
    Bytes → DbFile → List Bytes → Option Bool → WalkStep DiscoverError × List Bytes
matched_at path f paths none = (stop bad_pattern, paths)
matched_at path f paths (some false) = (go_on, paths)
matched_at path f paths (some true) = found_at path f paths f.regular

-- The callback of the walk
unfoldable pub visit_db :
    DbConfig → Bytes → Bool → DbFile → List Bytes → WalkStep DiscoverError × List Bytes
unfolding is_sqlite_database matched path_in base ◌===◌
visit_db db rel true f paths =
    if not db.recursive && not (rel === dot) then (skip_dir, paths) else (go_on, paths)
visit_db db rel false f paths =
    let path = path_in db.dir rel in matched_at path f paths (matched db.pattern (base path))

abbrev pub walk_dir : DbConfig → Option (Entry DbFile) → Option DiscoverError × List Bytes
walk_dir db none = (some directory_unread, [])
walk_dir db (some root) = walk (visit_db db) directory_unread dot root []

-- `discoverDBPaths`: whether Stat finds the path, and what WalkDir meets at the directory. Paths that
-- were found before an error are returned beside it.
unfoldable pub discover_db_paths :
    DbConfig → Bool → Option (Entry DbFile) → Option DiscoverError × List Bytes
unfolding walk visit_db
discover_db_paths db stands root =
    if length db.dir == 0
    then (if stands then (none, db.path ∷ []) else (some no_database, []))
    else walk_dir db root

-- The loop over the paths in `runDBConfig`, with `known` in the order in which its members were
-- started: each new path gets a `replicatePath` of its own.
unfoldable pub start_new : List Bytes → List Bytes → List Bytes
unfolding any ◌===◌
start_new known [] = known
start_new known (path ∷ paths) =
    let passed = start_new known paths in
    let started = start_new (known ++ (path ∷ [])) paths in
    if any (λ p. p === path) known then passed else started

-- The rounds of `runDBConfig`, by what each finds. The two branches of its end only wait.
unfoldable pub run_db_config : List Bytes → List (List Bytes) → List Bytes
unfolding start_new
run_db_config known [] = known
run_db_config known (paths ∷ rounds) = run_db_config (start_new known paths) rounds

-- filepath.Rel, of a path in the directory
unfoldable pub rel_in : Bytes → Bytes → Bytes
unfolding trim_prefix ◌===◌
rel_in dir path = if dir === slash then trim_prefix path slash else trim_prefix path (dir ++ slash)

abbrev pub meta_in_dir : Bytes → DbConfig → Bytes → Bytes → Bytes
meta_in_dir suffix cfg path [] = clean (cfg.meta_dir ++ slash ++ (base path ++ suffix))
meta_in_dir suffix cfg path (c ∷ dir) =
    clean (cfg.meta_dir ++ slash ++ (rel_in (c ∷ dir) path ++ suffix))

-- The metadata directory that `runOnce` sets for a database
unfoldable pub meta_path_of : Bytes → DbConfig → Bytes → Bytes
unfolding clean base rel_in
meta_path_of suffix cfg path =
    if not (length cfg.meta_path == 0)
    then cfg.meta_path
    else if not (length cfg.meta_dir == 0)
    then meta_in_dir suffix cfg path cfg.dir
    else clean (cfg.replica.path ++ slash ++ codes ".metadata" ++ slash ++ (base path ++ suffix))

-- The directory of its replica
unfoldable pub replica_path_of : DbConfig → Bytes → Bytes
unfolding clean rel_in
replica_path_of cfg path =
    if length cfg.dir == 0
    then cfg.replica.path
    else clean (cfg.replica.path ++ slash ++ rel_in cfg.dir path)
