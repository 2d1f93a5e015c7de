-- ===== src/Tests/Restore.antt =====
-- A restore of the file `a` and of one of two databases.
use dockerset.Base.{
  ◌≡◌, refl, Bool, true, false, List, [], ◌∷◌, map, Option, none, some, Bytes, codes, ◌===◌,
  if◌then◌else◌, keep,
}
use dockerset.Go.Maps.{Map, get, put}
use dockerset.Go.Text.{split, join, has_prefix}
use dockerset.Go.Path.{clean, dot}
use dockerset.Go.Walk.{leaf, folder, Entries, end, entry}
use dockerset.Netfin.Disk.{
  Node, file_node, dir_node, FileInfo, regular, directory, Source, missing, found, parents_from,
  is_a_directory,
}
use dockerset.Netfin.Walk.{Info}
use dockerset.Netfin.Config.{Config, DbConfig, default_config, pos, no_replica}
use dockerset.Netfin.Restore.{Library, RestoreError, files_failed, restore, restore_at}
use dockerset.Netfin.Restore.Visits.{AllSame, AllPut}
use dockerset.Netfin.Restore.Databases.{pair_of, has_path_only, restore-AllPut}

abbrev note : FileInfo
note = record { kind = regular; mode = 0o644; size = 2; mod_time = 7 }

abbrev folder_info : FileInfo
folder_info = record { kind = directory; mode = 0o755; size = 0; mod_time = 1 }

abbrev backup : Source
backup = record {
  lstat = λ p. if p === codes "d/a" then found note else missing;
  content = λ p. if p === codes "d/a" then some (codes "hi") else none;
  fails = λ p. false;
}

abbrev entries : Entries Info
entries =
    entry (folder (codes "d") (some folder_info) (entry (leaf (codes "a") (some note)) end)) end

abbrev by_path : DbConfig
by_path = record {
  path = codes "/db/x.db";
  dir = [];
  pattern = codes "*.db";
  recursive = false;
  watch = false;
  meta_path = [];
  meta_dir = [];
  monitor_interval = pos 0;
  checkpoint_interval = pos 0;
  busy_timeout = pos 0;
  replica = record no_replica { path = codes "/backup/x" };
  replicas = [];
}

abbrev config : Config
config = record default_config { dbs = by_path ∷ record by_path { dir = codes "/dbs" } ∷ [] }

abbrev library : Library
library = record { makes_parent = λ p. true; restores = λ from to. true }

abbrev result : Bool → Map Node → Option RestoreError × Map Node × List (Bytes × Bytes)
result dry_run disk = restore library (λ p. false) backup dry_run config (some entries) disk

restored : result false [] ≡ (
  none,
  (codes "d", dir_node 0o755) ∷ (codes "d/a", file_node 0o644 7 (codes "hi")) ∷ [],
  (codes "/backup/x", codes "/db/x.db") ∷ [],
)
unfolding restore restore_at clean split join has_prefix get put parents_from ◌===◌
restored = refl

same : AllSame backup dot entries
unfolding AllSame clean split join has_prefix ◌===◌
same = ((λ e. refl, tt), tt)

restore-AllPut_example :
    AllPut backup dot entries (result false []).1
    × ((result false []).2 ≡ map pair_of (keep has_path_only config.dbs))
restore-AllPut_example =
    restore-AllPut library (λ p. false) backup config entries [] same
      (unfold restore restore_at clean split join has_prefix get put parents_from ◌===◌ in refl)

-- A directory of the target in the place of a file of the backup ends the restore.
in_the_way :
    (result false ((codes "d/a", dir_node 0o755) ∷ [])).0 ≡ some (files_failed is_a_directory)
unfolding restore restore_at clean split join has_prefix get put parents_from ◌===◌
in_the_way = refl
