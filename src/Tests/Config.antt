-- ===== src/Tests/Config.antt =====
-- Configurations that are taken and that are refused.
use dockerset.Base.{
  ◌≡◌, refl, inl, inr, true, false, List, [], ◌∷◌, ◌++◌, Option, none, some, ok, err, Bytes, codes,
  ◌===◌, any, Succeeds, ◌↔◌,
}
use dockerset.Go.Text.{
  trim_space, trim_left, trim_right, is_space, lower, has_prefix, contains, split, join, index_of,
}
use dockerset.Go.Path.{clean, base, elements, push_element}
use dockerset.Netfin.Excluder.{new_excluder, excluded, path_base, path_base_from}
use dockerset.Netfin.Config.{
  Config, DbConfig, path_required, pos, no_replica, dedupe, dedupe_from, normalize_replica,
  apply_defaults_and_validate, base_exclude_patterns, seconds, with_companions,
}
use dockerset.Netfin.Config.Accepted.{IsAccepted, apply_defaults_and_validate-IsAccepted}
use dockerset.Netfin.Config.Valid.{IsValid, apply_defaults_and_validate-IsValid}
use dockerset.Netfin.Config.Excluded.{apply_defaults_and_validate-excluded}

abbrev names : List Bytes
names = codes " a" ∷ codes "" ∷ codes "b" ∷ codes "a " ∷ []

deduped : dedupe names ≡ codes "a" ∷ codes "b" ∷ []
unfolding dedupe_from trim_space is_space any ◌===◌
deduped = refl

abbrev library : DbConfig
library = record {
  path = codes "data/library.db";
  dir = [];
  pattern = [];
  recursive = false;
  watch = false;
  meta_path = [];
  meta_dir = [];
  monitor_interval = pos 0;
  checkpoint_interval = pos 0;
  busy_timeout = pos 0;
  replica = no_replica;
  replicas = record no_replica { path = codes "/backup/library" } ∷ [];
}

abbrev given : Config
given = record {
  netfin = record {
    config_dir = [];
    file_backup_dir = codes "files";
    debounce = pos 0;
    reconcile_interval = seconds 60;
    source_retry = pos 0;
    log_level = codes "INFO";
    exclude_patterns = codes " *.tmp " ∷ codes "*.db" ∷ [];
    dry_run = false;
  };
  dbs = library ∷ [];
}

abbrev library_patterns : List Bytes
library_patterns =
    codes "library.db"
    ∷ codes "library.db-wal"
    ∷ codes "library.db-shm"
    ∷ codes "library.db-journal"
    ∷ []

abbrev file_library : DbConfig
file_library = record library {
  path = codes "/srv/data/library.db";
  pattern = codes "*.db";
  replica = record no_replica { replica_type = codes "file"; path = codes "/backup/library" };
  replicas = [];
}

abbrev loaded : Config
loaded = record {
  netfin = record {
    config_dir = codes "/config";
    file_backup_dir = codes "/srv/files";
    debounce = seconds 2;
    reconcile_interval = seconds 60;
    source_retry = seconds 5;
    log_level = codes "info";
    exclude_patterns = base_exclude_patterns ++ (codes "*.tmp" ∷ library_patterns);
    dry_run = false;
  };
  dbs = file_library ∷ [];
}

abbrev cwd : Option Bytes
cwd = some (codes "/srv")

load : apply_defaults_and_validate cwd given ≡ ok loaded
unfolding apply_defaults_and_validate any clean elements push_element split join index_of trim_left
    trim_right is_space lower has_prefix path_base_from ◌===◌
load = refl

apply_defaults_and_validate-IsValid_example : IsValid loaded
unfolding has_prefix
apply_defaults_and_validate-IsValid_example =
    apply_defaults_and_validate-IsValid cwd given loaded refl load

apply_defaults_and_validate-excluded_example :
    excluded (new_excluder loaded.netfin.exclude_patterns) (codes "metadata/library.db-journal")
    ≡ true
unfolding clean elements push_element split join index_of trim_right is_space has_prefix path_base
    path_base_from contains base ◌===◌
apply_defaults_and_validate-excluded_example =
    apply_defaults_and_validate-excluded cwd given loaded file_library
      (codes "metadata/library.db-journal") load (inl refl) (λ e. cc) (search tt) refl
      (inr (inl (refl, inr (inr (inl refl)))))

-- A replica that has only a URL becomes the directory of the default replica.
url_replica :
    normalize_replica none (record no_replica { url = codes "s3://bucket/library" }) []
    ≡ ok (record {
      replica_type = codes "file";
      path = codes "/backup/sqlite";
      url = codes "s3://bucket/library";
      sync_interval = pos 0;
    })
unfolding normalize_replica clean elements push_element split join has_prefix ◌===◌
url_replica = refl

-- The second database needs a path or a directory.
no_path :
    apply_defaults_and_validate cwd
      (record given { dbs = library ∷ record library { path = [] } ∷ [] })
    ≡ err path_required
unfolding apply_defaults_and_validate any clean elements push_element split join index_of trim_left
    trim_right is_space lower has_prefix path_base_from ◌===◌
no_path = refl

apply_defaults_and_validate-IsAccepted_example :
    Succeeds (apply_defaults_and_validate (some (codes "/srv")) given) ↔ IsAccepted given
apply_defaults_and_validate-IsAccepted_example =
    apply_defaults_and_validate-IsAccepted (codes "/srv") given

-- The journal of such a database is not among its patterns, and `data` has no companion at all.
sqlite_companions :
    with_companions (codes "x.sqlite")
    ≡ codes "x.sqlite" ∷ codes "x.sqlite-wal" ∷ codes "x.sqlite-shm" ∷ []
unfolding with_companions contains index_of has_prefix
sqlite_companions = refl

bare_companions : with_companions (codes "data") ≡ codes "data" ∷ []
unfolding with_companions contains index_of has_prefix
bare_companions = refl
