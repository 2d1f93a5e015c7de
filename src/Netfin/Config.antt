-- ===== src/Netfin/Config.antt =====
-- The configuration of netfin (netfin/internal/config/config.go), from the values that the YAML file
-- leaves in `Default()`. `cwd` is what Getwd gives. Lower case and blanks are those of ASCII.
pub mod Dedupe
pub mod Accepted
pub mod Valid
pub mod Dbs
pub mod Names
pub mod Excluded
use dockerset.Base.{
  ℕ, zero, suc, ◌*◌, ◌^◌, ◌+◌, Bool, true, false, not, ◌&&◌, ◌||◌, List, [], ◌∷◌, ◌++◌, Option,
  none, some, ◌==◌, ◌===◌, if◌then◌else◌, Bytes, length, codes, any, Outcome, ok, err, panic, stuck,
  ◌>>=◌,
}
use dockerset.Go.Text.{to_lower, lower, trim_space, has_suffix, contains}
use dockerset.Go.Path.{clean, dot, abs, base}

-- `time.Duration` in nanoseconds: `negsuc n` is -(n + 1).
pub data ℤ : Type 0 where
  pos : ℕ → ℤ
  negsuc : ℕ → ℤ

abbrev pub is_zero : ℤ → Bool
is_zero (pos n) = n == 0
is_zero (negsuc n) = false

abbrev pub is_negative : ℤ → Bool
is_negative (pos n) = false
is_negative (negsuc n) = true

abbrev pub seconds : ℕ → ℤ
seconds n = pos (n * 10 ^ 9)

pub record ReplicaConfig : Type 0 where
  pub replica_type : Bytes
  pub path : Bytes
  pub url : Bytes
  pub sync_interval : ℤ

pub record DbConfig : Type 0 where
  pub path : Bytes
  pub dir : Bytes
  pub pattern : Bytes
  pub recursive : Bool
  pub watch : Bool
  pub meta_path : Bytes
  pub meta_dir : Bytes
  pub monitor_interval : ℤ
  pub checkpoint_interval : ℤ
  pub busy_timeout : ℤ
  pub replica : ReplicaConfig
  pub replicas : List ReplicaConfig

pub record NetfinConfig : Type 0 where
  pub config_dir : Bytes
  pub file_backup_dir : Bytes
  pub debounce : ℤ
  pub reconcile_interval : ℤ
  pub source_retry : ℤ
  pub log_level : Bytes
  pub exclude_patterns : List Bytes
  pub dry_run : Bool

pub record Config : Type 0 where
  pub netfin : NetfinConfig
  pub dbs : List DbConfig

pub data ConfigError : Type 0 where
  negative_duration unknown_log_level path_required no_directory : ConfigError
  both_replicas not_a_file_replica many_replicas : ConfigError

abbrev pub default_config_dir : Bytes
default_config_dir = codes "/config"

abbrev pub default_db_path : Bytes
default_db_path = codes "/db/jellyfin.db"

abbrev pub default_file_backup_dir : Bytes
default_file_backup_dir = codes "/backup/files"

abbrev pub default_sqlite_backup_dir : Bytes
default_sqlite_backup_dir = codes "/backup/sqlite"

abbrev pub default_debounce : ℤ
default_debounce = seconds 2

abbrev pub default_reconcile : ℤ
default_reconcile = seconds 1800

abbrev pub default_source_retry : ℤ
default_source_retry = seconds 5

abbrev pub default_log_level : Bytes
default_log_level = codes "warning"

abbrev pub default_sqlite_pattern : Bytes
default_sqlite_pattern = codes "*.db"

abbrev pub default_sqlite_replica_type : Bytes
default_sqlite_replica_type = codes "file"

abbrev pub base_exclude_patterns : List Bytes
base_exclude_patterns =
    codes "*.db"
    ∷ codes "*.db-wal"
    ∷ codes "*.db-shm"
    ∷ codes "*.db-journal"
    ∷ codes "*.sqlite"
    ∷ codes "*.sqlite-wal"
    ∷ codes "*.sqlite-shm"
    ∷ codes "SQLiteBackups/**"
    ∷ codes "cache/**"
    ∷ codes "transcodes/**"
    ∷ codes "log/**"
    ∷ []

abbrev pub no_replica : ReplicaConfig
no_replica = record { replica_type = []; path = []; url = []; sync_interval = pos 0 }

-- `Default().Litestream.DBs`
abbrev pub default_dbs : List DbConfig
default_dbs =
    record {
      path = default_db_path;
      dir = [];
      pattern = [];
      recursive = false;
      watch = false;
      meta_path = [];
      meta_dir = [];
      monitor_interval = pos 0;
      checkpoint_interval = pos 0;
      busy_timeout = pos 0;
      replica = record no_replica {
        replica_type = default_sqlite_replica_type;
        path = default_sqlite_backup_dir;
      };
      replicas = [];
    }
    ∷ []

-- `Default`
abbrev pub default_config : Config
default_config = record {
  netfin = record {
    config_dir = default_config_dir;
    file_backup_dir = default_file_backup_dir;
    debounce = default_debounce;
    reconcile_interval = default_reconcile;
    source_retry = default_source_retry;
    log_level = default_log_level;
    exclude_patterns = base_exclude_patterns;
    dry_run = false;
  };
  dbs = default_dbs;
}

-- The loop of `dedupe`, with `seen`
unfoldable pub dedupe_from : List Bytes → List Bytes → List Bytes
unfolding trim_space any ◌===◌
dedupe_from seen [] = []
dedupe_from seen (value ∷ values) =
    let v = trim_space value in
    let skipped = dedupe_from seen values in
    let taken = dedupe_from (v ∷ seen) values in
    if length v == 0 || any (λ s. s === v) seen then skipped else v ∷ taken

abbrev pub dedupe : List Bytes → List Bytes
dedupe values = dedupe_from [] values

-- `p` with the files that SQLite keeps beside it
unfoldable pub with_companions : Bytes → List Bytes
unfolding contains
with_companions p =
    (p ∷ [])
    ++ ((if contains p (codes ".db")
          then (p ++ codes "-wal") ∷ (p ++ codes "-shm") ∷ (p ++ codes "-journal") ∷ []
          else [])
        ++ (if contains p (codes ".sqlite")
            then (p ++ codes "-wal") ∷ (p ++ codes "-shm") ∷ []
            else []))

-- The loop of `SQLiteExcludePatterns`. A text that ends in `.db` contains it.
unfoldable pub patterns_of : List Bytes → List Bytes
unfolding with_companions clean ◌===◌
patterns_of [] = []
patterns_of (name ∷ names) =
    let p = clean name in
    let rest = patterns_of names in
    if p === dot || length p == 0 then rest else with_companions p ++ rest

abbrev pub if_given : Bytes → List Bytes → List Bytes
if_given [] names = []
if_given (c ∷ s) names = names

unfoldable pub sqlite_exclude_patterns : DbConfig → List Bytes
unfolding patterns_of base
sqlite_exclude_patterns db =
    patterns_of (if_given db.pattern (db.pattern ∷ []) ++ if_given db.path (base db.path ∷ []))

unfoldable pub dbs_exclude_patterns : List DbConfig → List Bytes
unfolding sqlite_exclude_patterns
dbs_exclude_patterns [] = []
dbs_exclude_patterns (db ∷ dbs) = sqlite_exclude_patterns db ++ dbs_exclude_patterns dbs

unfoldable pub effective_exclude_patterns : List Bytes → List DbConfig → List Bytes
unfolding dedupe_from dbs_exclude_patterns
effective_exclude_patterns patterns dbs = dedupe (patterns ++ dbs_exclude_patterns dbs)

abbrev pub or_default : Bytes → Bytes → Bytes
or_default d [] = d
or_default d (c ∷ s) = c ∷ s

abbrev pub made_abs : Option Bytes → Outcome ConfigError Bytes
made_abs none = err no_directory
made_abs (some path) = ok path

-- `filepath.Abs` of a path that is given
abbrev pub abs_if_given : Option Bytes → Bytes → Outcome ConfigError Bytes
abs_if_given cwd [] = ok []
abs_if_given cwd (c ∷ s) = made_abs (abs cwd (c ∷ s))

-- `r` sets something that names a replica.
abbrev pub is_given : ReplicaConfig → Bool
is_given r = not (length r.path == 0) || not (length r.url == 0) || not (length r.replica_type == 0)

-- The replica that is given
unfoldable pub file_replica : Option Bytes → ReplicaConfig → Outcome ConfigError ReplicaConfig
unfolding abs ◌===◌
file_replica cwd r =
    let replica_type = or_default default_sqlite_replica_type r.replica_type in
    if not (replica_type === default_sqlite_replica_type) then err not_a_file_replica else do
      path ← made_abs (abs cwd (or_default default_sqlite_backup_dir r.path))
      ok (record r { replica_type = replica_type; path = path })

unfoldable pub default_replica : Option Bytes → Outcome ConfigError ReplicaConfig
unfolding abs
default_replica cwd = do
  path ← made_abs (abs cwd default_sqlite_backup_dir)
  ok (record no_replica { replica_type = default_sqlite_replica_type; path = path })

-- `normalizeReplica`, by the replica and the list of replicas; one in the list is taken for the first.
unfoldable pub normalize_replica :
    Option Bytes → ReplicaConfig → List ReplicaConfig → Outcome ConfigError ReplicaConfig
unfolding file_replica default_replica
normalize_replica cwd replica [] =
    if is_given replica then file_replica cwd replica else default_replica cwd
normalize_replica cwd replica (r ∷ []) =
    if is_given replica
    then err both_replicas
    else if is_given r
    then file_replica cwd r
    else default_replica cwd
normalize_replica cwd replica (r ∷ q ∷ rs) =
    if is_given replica then err both_replicas else err many_replicas

-- The path of the database at an index, where none is given
unfoldable pub db_path : ℕ → Bytes → Bytes → Outcome ConfigError Bytes
db_path i [] [] = if i == 0 then ok default_db_path else err path_required
db_path i [] (c ∷ s) = ok []
db_path i (c ∷ s) dir = ok (c ∷ s)

unfoldable pub normalize_db : Option Bytes → ℕ → DbConfig → Outcome ConfigError DbConfig
unfolding db_path abs normalize_replica
normalize_db cwd i db = do
  given ← db_path i db.path db.dir
  path ← abs_if_given cwd given
  dir ← abs_if_given cwd db.dir
  replica ← normalize_replica cwd db.replica db.replicas
  meta_path ← abs_if_given cwd db.meta_path
  meta_dir ← abs_if_given cwd db.meta_dir
  ok (record db {
    path = path;
    dir = dir;
    pattern = or_default default_sqlite_pattern db.pattern;
    replica = replica;
    replicas = [];
    meta_path = meta_path;
    meta_dir = meta_dir;
  })

-- The loop over the databases
unfoldable pub normalize_dbs :
    Option Bytes → ℕ → List DbConfig → Outcome ConfigError (List DbConfig)
unfolding normalize_db
normalize_dbs cwd i [] = ok []
normalize_dbs cwd i (db ∷ dbs) = do
  first ← normalize_db cwd i db
  rest ← normalize_dbs cwd (i + 1) dbs
  ok (first ∷ rest)

abbrev pub or_duration : ℤ → ℤ → ℤ
or_duration d n = if is_zero n then d else n

abbrev pub log_levels : List Bytes
log_levels = codes "debug" ∷ codes "info" ∷ codes "warn" ∷ codes "warning" ∷ codes "error" ∷ []

-- The defaults of the fields of `Netfin`
abbrev pub with_defaults : NetfinConfig → NetfinConfig
with_defaults n = record n {
  config_dir = or_default default_config_dir n.config_dir;
  file_backup_dir = or_default default_file_backup_dir n.file_backup_dir;
  debounce = or_duration default_debounce n.debounce;
  reconcile_interval = or_duration default_reconcile n.reconcile_interval;
  source_retry = or_duration default_source_retry n.source_retry;
  log_level = or_default default_log_level n.log_level;
}

abbrev pub has_negative : NetfinConfig → Bool
has_negative n =
    is_negative n.debounce || is_negative n.reconcile_interval || is_negative n.source_retry

abbrev pub or_dbs : List DbConfig → List DbConfig
or_dbs [] = default_dbs
or_dbs (db ∷ dbs) = db ∷ dbs

-- From the loop over the databases on, with the checked fields of `Netfin`
unfoldable pub finish : Option Bytes → NetfinConfig → List DbConfig → Outcome ConfigError Config
unfolding normalize_dbs abs effective_exclude_patterns
finish cwd n given = do
  dbs ← normalize_dbs cwd 0 given
  config_dir ← made_abs (abs cwd n.config_dir)
  file_backup_dir ← made_abs (abs cwd n.file_backup_dir)
  ok (record {
    netfin = record n {
      config_dir = config_dir;
      file_backup_dir = file_backup_dir;
      log_level = to_lower n.log_level;
      exclude_patterns =
          effective_exclude_patterns (dedupe (base_exclude_patterns ++ n.exclude_patterns)) dbs;
    };
    dbs = dbs;
  })

unfoldable pub apply_defaults_and_validate : Option Bytes → Config → Outcome ConfigError Config
unfolding finish lower any ◌===◌
apply_defaults_and_validate cwd c =
    let n = with_defaults c.netfin in
    if has_negative n
    then err negative_duration
    else if not (any (λ l. l === to_lower n.log_level) log_levels)
    then err unknown_log_level
    else finish cwd n (or_dbs c.dbs)
