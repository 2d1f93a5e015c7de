-- ===== src/Tests/Repl.antt =====
-- A directory with two databases of one name, a file without the header, and a file of another name.
use dockerset.Base.{
  ◌≡◌, refl, ◌↔◌, true, false, List, [], ◌∷◌, ◌++◌, none, some, Bytes, codes, ◌===◌, any, In, keep,
}
use dockerset.Go.Text.{split, join, has_prefix, trim_prefix}
use dockerset.Go.Path.{clean, base, dot}
use dockerset.Go.Walk.{Entry, leaf, folder, end, entry}
use dockerset.Netfin.Config.{DbConfig, pos, no_replica}
use dockerset.Netfin.Config.Dedupe.{IsNub}
use dockerset.Netfin.Repl.{
  DbFile, magic, is_sqlite_database, discover_db_paths, visit_db, path_in, matched, run_db_config,
  meta_path_of, replica_path_of,
}
use dockerset.Netfin.Repl.Databases.{IsDatabaseAt, databases}
use dockerset.Netfin.Repl.Found.{discover_db_paths-databases}
use dockerset.Netfin.Repl.Known.{IsFound, run_db_config-IsNub}

abbrev db : DbConfig
db = record {
  path = [];
  dir = codes "/srv";
  pattern = codes "*.db";
  recursive = true;
  watch = false;
  meta_path = [];
  meta_dir = [];
  monitor_interval = pos 0;
  checkpoint_interval = pos 0;
  busy_timeout = pos 0;
  replica = record no_replica { path = codes "/backup" };
  replicas = [];
}

abbrev file : Bytes → DbFile
file content = record { regular = some true; content = some content }

abbrev library : Entry DbFile
library = leaf (codes "x.db") (file (magic ++ (1 ∷ [])))

abbrev no_file : DbFile
no_file = record { regular = some false; content = none }

abbrev root : Entry DbFile
root = folder dot no_file (
    entry (folder (codes "a") no_file (entry library end)) (
      entry (folder (codes "b") no_file (entry library end)) (
        entry (leaf (codes "n.db") (file (codes "note")))
          (entry (leaf (codes "x.txt") (file magic)) end))))

abbrev both : List Bytes
both = codes "/srv/a/x.db" ∷ codes "/srv/b/x.db" ∷ []

discovered : discover_db_paths db true (some root) ≡ (none, both)
unfolding discover_db_paths visit_db path_in clean matched base keep split join has_prefix ◌===◌
discovered = refl

-- Only the directory itself is searched.
flat : discover_db_paths (record db { recursive = false }) true (some root) ≡ (none, [])
unfolding discover_db_paths visit_db path_in clean matched base keep split join has_prefix ◌===◌
flat = refl

discover_db_paths-databases_example :
    ((discover_db_paths db true (some root)).1 ≡ databases db dot root)
    × ((x : Bytes) → In x (discover_db_paths db true (some root)).1 ↔ IsDatabaseAt db dot root x)
discover_db_paths-databases_example = discover_db_paths-databases db true root refl (
    unfold discover_db_paths visit_db path_in clean matched base keep split join has_prefix ◌===◌ in
    refl)

abbrev rounds : List (List Bytes)
rounds = (codes "/a" ∷ []) ∷ (codes "/b" ∷ codes "/a" ∷ []) ∷ []

run_db_config-IsNub_example :
    IsNub (run_db_config [] rounds)
    × ((x : Bytes) → In x (run_db_config [] rounds) ↔ IsFound x rounds)
run_db_config-IsNub_example = run_db_config-IsNub rounds

twice : run_db_config [] rounds ≡ codes "/a" ∷ codes "/b" ∷ []
unfolding run_db_config ◌===◌ any
twice = refl

-- The two databases have replicas of their own, and one metadata directory.
shared_meta :
    (replica_path_of db (codes "/srv/a/x.db") ≡ codes "/backup/a/x.db")
    × (replica_path_of db (codes "/srv/b/x.db") ≡ codes "/backup/b/x.db")
    × (meta_path_of (codes "-litestream") db (codes "/srv/a/x.db")
        ≡ codes "/backup/.metadata/x.db-litestream")
    × (meta_path_of (codes "-litestream") db (codes "/srv/b/x.db")
        ≡ codes "/backup/.metadata/x.db-litestream")
unfolding replica_path_of meta_path_of clean base keep split join has_prefix trim_prefix ◌===◌
shared_meta = (refl, refl, refl, refl)

-- Fifteen bytes of the header are enough.
short_header : is_sqlite_database (some (codes "SQLite format 3")) ≡ true
unfolding is_sqlite_database ◌===◌
short_header = refl
