-- ===== src/Netfin/Config/Excluded.antt =====
-- Which files of a database the exclude patterns match.
use mathlib.Core.Path.{subst}
use dockerset.Base.{
  ◌≡◌, refl, sym, ◌≢◌, inl, inr, true, false, List, [], ◌∷◌, ◌++◌, map, Option, arith, ◌==◌, ◌===◌,
  Outcome, ok, err, bind-eq-ok, ok-injective, Bytes, length, any, In, In-append, In-map, Bool-cases,
}
use dockerset.Go.Text.{to_lower, trim_space}
use dockerset.Go.Path.{abs, clean, dot, base}
use dockerset.Netfin.Config.Dedupe.{dedupe-In}
use dockerset.Netfin.Excluder.{new_excluder, path_base, excluded}
use dockerset.Netfin.Config.Names.{
  IsTrimmed, IsName, IsFileOf, trim_space-IsTrimmed, pattern_excludes-IsPlain, any_excludes-In,
  IsFileOf-IsPlain, patterns_of-In,
}
use dockerset.Netfin.Config.{
  Config, DbConfig, NetfinConfig, ConfigError, negative_duration, unknown_log_level, dedupe, finish,
  normalize_dbs, made_abs, base_exclude_patterns, effective_exclude_patterns,
  apply_defaults_and_validate, with_defaults, has_negative, log_levels, or_dbs, if_given,
  sqlite_exclude_patterns, dbs_exclude_patterns,
}

if_given-In : (s x : Bytes) → s ≢ [] → In x (if_given s (x ∷ []))
if_given-In [] x full = absurd (full refl)
if_given-In (c ∷ s) x full = inl refl

sqlite_exclude_patterns-In :
    (db : DbConfig) (name : Bytes)
    → db.path ≢ []
    → IsName (clean (base db.path))
    → IsFileOf (clean (base db.path)) name
    → In name (sqlite_exclude_patterns db)
unfolding sqlite_exclude_patterns
sqlite_exclude_patterns-In db name given of_name file =
    patterns_of-In (if_given db.pattern (db.pattern ∷ []) ++ if_given db.path (base db.path ∷ []))
      (base db.path) name
      ((In-append (base db.path) (if_given db.pattern (db.pattern ∷ []))
          (if_given db.path (base db.path ∷ []))).1
        (if_given-In db.path (base db.path) given))
      of_name file

dbs_exclude_patterns-In :
    (db : DbConfig) (dbs : List DbConfig) (name : Bytes)
    → In db dbs
    → In name (sqlite_exclude_patterns db)
    → In name (dbs_exclude_patterns dbs)
unfolding dbs_exclude_patterns
dbs_exclude_patterns-In db [] name m h = absurd m
dbs_exclude_patterns-In db (d ∷ dbs) name (inl e) h =
    (In-append name (sqlite_exclude_patterns d) (dbs_exclude_patterns dbs)).0
      (subst (λ (x : DbConfig). In name (sqlite_exclude_patterns x)) e h)
dbs_exclude_patterns-In db (d ∷ dbs) name (inr m) h =
    (In-append name (sqlite_exclude_patterns d) (dbs_exclude_patterns dbs)).1
      (dbs_exclude_patterns-In db dbs name m h)

-- The exclude patterns of a configuration that was read are those of its databases and others.
abbrev HasPatterns : Config → Type 0
HasPatterns after =
    (ps : List Bytes) × (after.netfin.exclude_patterns
      ≡ dedupe (ps ++ dbs_exclude_patterns after.dbs))

finish-HasPatterns :
    (cwd : Option Bytes) (n : NetfinConfig) (dbs : List DbConfig) (after : Config)
    → finish cwd n dbs ≡ ok after
    → HasPatterns after
unfolding finish effective_exclude_patterns
finish-HasPatterns cwd n dbs after e =
    let (done, at_dbs, e1) = bind-eq-ok (normalize_dbs cwd 0 dbs) _ e in
    let (config_dir, at_config_dir, e2) = bind-eq-ok (made_abs (abs cwd n.config_dir)) _ e1 in
    let (backup_dir, at_backup_dir, e3) = bind-eq-ok (made_abs (abs cwd n.file_backup_dir)) _ e2 in
    subst (λ (x : Config). HasPatterns x) (ok-injective e3)
      (dedupe (base_exclude_patterns ++ n.exclude_patterns), refl)

apply_defaults_and_validate-HasPatterns :
    (cwd : Option Bytes) (c after : Config)
    → apply_defaults_and_validate cwd c ≡ ok after
    → HasPatterns after
unfolding apply_defaults_and_validate
apply_defaults_and_validate-HasPatterns cwd c after e =
    let n = with_defaults c.netfin in
    elim (Bool-cases (has_negative n)) [
      | inl negative ↦
          let wrong : ◌≡◌ {A = Outcome ConfigError Config} (err negative_duration) (ok after) =
            rw negative at e in
          absurd cc
      | inr counts ↦ elim (Bool-cases (any (λ l. l === to_lower n.log_level) log_levels)) [
        | inr unknown ↦
            let wrong : ◌≡◌ {A = Outcome ConfigError Config} (err unknown_log_level) (ok after) =
              rw (counts, unknown) at e in
            absurd cc
        | inl level ↦ finish-HasPatterns cwd n (or_dbs c.dbs) after (rw (counts, level) at e)
      ]
    ]

IsTrimmed-full : (s : Bytes) → IsTrimmed s → (length s == 0) ≡ false
IsTrimmed-full [] h = absurd h
IsTrimmed-full (c ∷ s) h = ground arith

-- Where a configuration that `applyDefaultsAndValidate` returns has a database with a path, whose
-- base name has no special byte of a pattern and no space at its ends, the excluder that its
-- patterns make excludes each path, other than the root, that has one of these base names: the one
-- of the database; where that contains .db, the same with -wal, -shm or -journal behind it; and
-- where it contains .sqlite, with -wal or -shm.
pub apply_defaults_and_validate-excluded :
    (cwd : Option Bytes) (c after : Config) (db : DbConfig) (rel : Bytes)
    → apply_defaults_and_validate cwd c ≡ ok after
    → In db after.dbs
    → db.path ≢ []
    → IsName (clean (base db.path))
    → (clean rel === dot) ≡ false
    → IsFileOf (clean (base db.path)) (path_base (clean rel))
    → excluded (new_excluder after.netfin.exclude_patterns) rel ≡ true
unfolding excluded new_excluder
apply_defaults_and_validate-excluded cwd c after db rel e m given of_name no_root file =
    let name = path_base (clean rel) in
    let (plain, trimmed) = IsFileOf-IsPlain (clean (base db.path)) name of_name file in
    let same : trim_space name ≡ name = trim_space-IsTrimmed name trimmed in
    let (ps, are) = apply_defaults_and_validate-HasPatterns cwd c after e in
    let all = ps ++ dbs_exclude_patterns after.dbs in
    let from_db : In name all = (In-append name ps (dbs_exclude_patterns after.dbs)).1 (
      dbs_exclude_patterns-In db after.dbs name m
        (sqlite_exclude_patterns-In db name given of_name file)) in
    let trimmed_there : In name (map trim_space all) =
      subst (λ (x : Bytes). In x (map trim_space all)) same (In-map trim_space all name from_db) in
    let there : In name after.netfin.exclude_patterns =
      subst (λ (x : List Bytes). In name x) (sym are)
        (((dedupe-In all).1 name).1 (trimmed_there, IsTrimmed-full name trimmed)) in
    let listed : In name (map trim_space after.netfin.exclude_patterns) =
      subst (λ (x : Bytes). In x (map trim_space after.netfin.exclude_patterns)) same
        (In-map trim_space after.netfin.exclude_patterns name there) in
    rw no_root (
      any_excludes-In (clean rel) name (map trim_space after.netfin.exclude_patterns) listed
        (pattern_excludes-IsPlain (clean rel) name plain trimmed refl))
