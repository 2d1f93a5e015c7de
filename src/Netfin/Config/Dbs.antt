-- ===== src/Netfin/Config/Dbs.antt =====
-- The databases that the loop of `applyDefaultsAndValidate` leaves.
use mathlib.Core.Path.{subst}
use dockerset.Base.{
  ℕ, ◌≡◌, refl, ap, ◌∙◌, sym, ◌⊎◌, inl, inr, true, List, [], ◌∷◌, ◌++◌, Option, none, some, ◌==◌,
  ◌===◌, ===_iff, ◌≢◌, if◌then◌else◌, Bytes, Bool-cases, Outcome, ok, err, bind-eq-ok, ok-injective,
}
use dockerset.Go.Text.{has_prefix}
use dockerset.Go.Path.{clean, abs, is_abs, slash}
use dockerset.Netfin.Config.{
  no_replica, ReplicaConfig, DbConfig, ConfigError, path_required, no_directory, both_replicas,
  not_a_file_replica, many_replicas, default_sqlite_replica_type, default_sqlite_pattern,
  default_sqlite_backup_dir, default_db_path, or_default, made_abs, abs_if_given, is_given,
  file_replica, default_replica, normalize_replica, db_path, normalize_db,
}

-- `cwd` is what Getwd gives: an error, or an absolute path.
abbrev pub IsWorkingDir : Option Bytes → Type 0
IsWorkingDir none = Unit
IsWorkingDir (some dir) = is_abs dir ≡ true

clean-is_abs : (path : Bytes) → is_abs path ≡ true → is_abs (clean path) ≡ true
unfolding clean has_prefix
clean-is_abs path h = rw h refl

is_abs-append : (s t : Bytes) → is_abs s ≡ true → is_abs (s ++ t) ≡ true
unfolding has_prefix
is_abs-append [] t h = cc
is_abs-append (c ∷ s) t h = h

-- A path that `filepath.Abs` returns is absolute.
abs-cases :
    (cwd : Option Bytes) (path : Bytes)
    → IsWorkingDir cwd
    → (abs cwd path ≡ none) ⊎ ((full : Bytes) × (abs cwd path ≡ some full) × (is_abs full ≡ true))
unfolding abs
abs-cases none path dir = elim (Bool-cases (is_abs path)) [
  | inl rooted ↦ inr (clean path, rw rooted refl, clean-is_abs path rooted)
  | inr relative ↦ inl (rw relative refl)
]
abs-cases (some dir) path from_root = elim (Bool-cases (is_abs path)) [
  | inl rooted ↦ inr (clean path, rw rooted refl, clean-is_abs path rooted)
  | inr relative ↦ inr (
    clean (dir ++ slash ++ path),
    rw relative refl,
    clean-is_abs (dir ++ slash ++ path)
        (is_abs-append (dir ++ slash) path (is_abs-append dir slash from_root)),
  )
]

pub made_abs-is_abs :
    (cwd : Option Bytes) (path full : Bytes)
    → IsWorkingDir cwd
    → made_abs (abs cwd path) ≡ ok full
    → is_abs full ≡ true
made_abs-is_abs cwd path full dir e = elim (abs-cases cwd path dir) [
  | inl gone ↦
      let wrong : ◌≡◌ {A = Outcome ConfigError Bytes} (err no_directory) (ok full) = rw gone at e in
      absurd cc
  | inr (q, at_q, rooted) ↦
      let same : q ≡ full = ok-injective (rw at_q at e) in rw (sym same) rooted
]

-- A path that need not be given
abbrev pub IsOptional : Bytes → Type 0
IsOptional path = (path ≡ []) ⊎ (is_abs path ≡ true)

abs_if_given-IsOptional :
    (cwd : Option Bytes) (path full : Bytes)
    → IsWorkingDir cwd
    → abs_if_given cwd path ≡ ok full
    → (path ≢ [] → is_abs full ≡ true) × IsOptional full
abs_if_given-IsOptional cwd [] full dir e =
    let same : [] ≡ full = ok-injective e in (λ given. absurd (given refl), inl (sym same))
abs_if_given-IsOptional cwd (c ∷ s) full dir e =
    let rooted = made_abs-is_abs cwd (c ∷ s) full dir e in (λ given. rooted, inr rooted)

abbrev pub IsReplica : ReplicaConfig → Type 0
IsReplica r = (r.replica_type ≡ default_sqlite_replica_type) × (is_abs r.path ≡ true)

file_replica-IsReplica :
    (cwd : Option Bytes) (r q : ReplicaConfig)
    → IsWorkingDir cwd
    → file_replica cwd r ≡ ok q
    → IsReplica q
unfolding file_replica
file_replica-IsReplica cwd r q dir e =
    elim (Bool-cases
      (or_default default_sqlite_replica_type r.replica_type === default_sqlite_replica_type)) [
        | inl file ↦
            let (path, at_path, done) =
              bind-eq-ok (made_abs (abs cwd (or_default default_sqlite_backup_dir r.path)))
                (λ p. ok (record r {
                  replica_type = or_default default_sqlite_replica_type r.replica_type;
                  path = p;
                }))
                (rw file at e) in
            let same : record r {
              replica_type = or_default default_sqlite_replica_type r.replica_type;
              path = path;
            }
                ≡ q =
              ok-injective done in
            (
              ap (λ (x : ReplicaConfig). x.replica_type) (sym same) ∙ (===_iff _ _).0 file,
              ap (λ (x : ReplicaConfig). is_abs x.path) (sym same)
                  ∙ made_abs-is_abs cwd _ path dir at_path,
            )
        | inr other ↦
            let wrong : ◌≡◌ {A = Outcome ConfigError ReplicaConfig} (err not_a_file_replica)
                (ok q) =
              rw other at e in
            absurd cc
      ]

default_replica-IsReplica :
    (cwd : Option Bytes) (q : ReplicaConfig)
    → IsWorkingDir cwd
    → default_replica cwd ≡ ok q
    → IsReplica q
unfolding default_replica
default_replica-IsReplica cwd q dir e =
    let (path, at_path, done) = bind-eq-ok (made_abs (abs cwd default_sqlite_backup_dir)) _ e in
    let same : record no_replica { replica_type = default_sqlite_replica_type; path = path } ≡ q =
      ok-injective done in
    (
      ap (λ (x : ReplicaConfig). x.replica_type) (sym same),
      ap (λ (x : ReplicaConfig). is_abs x.path) (sym same)
          ∙ made_abs-is_abs cwd default_sqlite_backup_dir path dir at_path,
    )

chosen-IsReplica :
    (cwd : Option Bytes) (r q : ReplicaConfig)
    → IsWorkingDir cwd
    → (if is_given r then file_replica cwd r else default_replica cwd) ≡ ok q
    → IsReplica q
chosen-IsReplica cwd r q dir e = elim (Bool-cases (is_given r)) [
  | inl given ↦ file_replica-IsReplica cwd r q dir (rw given at e)
  | inr none_given ↦ default_replica-IsReplica cwd q dir (rw none_given at e)
]

normalize_replica-IsReplica :
    (cwd : Option Bytes) (r : ReplicaConfig) (rs : List ReplicaConfig) (q : ReplicaConfig)
    → IsWorkingDir cwd
    → normalize_replica cwd r rs ≡ ok q
    → IsReplica q
unfolding normalize_replica
normalize_replica-IsReplica cwd r [] q dir e = chosen-IsReplica cwd r q dir e
normalize_replica-IsReplica cwd r (s ∷ []) q dir e = elim (Bool-cases (is_given r)) [
  | inl given ↦
      let wrong : ◌≡◌ {A = Outcome ConfigError ReplicaConfig} (err both_replicas) (ok q) =
        rw given at e in
      absurd cc
  | inr none_given ↦ chosen-IsReplica cwd s q dir (rw none_given at e)
]
normalize_replica-IsReplica cwd r (s ∷ t ∷ rs) q dir e = elim (Bool-cases (is_given r)) [
  | inl given ↦
      let wrong : ◌≡◌ {A = Outcome ConfigError ReplicaConfig} (err both_replicas) (ok q) =
        rw given at e in
      absurd cc
  | inr none_given ↦
      let wrong : ◌≡◌ {A = Outcome ConfigError ReplicaConfig} (err many_replicas) (ok q) =
        rw none_given at e in
      absurd cc
]

db_path-given :
    (i : ℕ) (path dir given : Bytes) → db_path i path dir ≡ ok given → (given ≢ []) ⊎ (dir ≢ [])
unfolding db_path
db_path-given i [] [] given e = elim (Bool-cases (i == 0)) [
  | inl first ↦
      let same : default_db_path ≡ given = ok-injective (rw first at e) in
      inl (λ empty. let wrong : default_db_path ≡ [] = same ∙ empty in cc)
  | inr later ↦
      let wrong : ◌≡◌ {A = Outcome ConfigError Bytes} (err path_required) (ok given) =
        rw later at e in
      absurd cc
]
db_path-given i [] (c ∷ dir) given e = inr (λ empty. cc)
db_path-given i (c ∷ path) dir given e =
    let same : c ∷ path ≡ given = ok-injective e in
    inl (λ empty. let wrong : c ∷ path ≡ [] = same ∙ empty in cc)

-- A database that is looked for in a place of its own, and that has one file replica
abbrev pub IsDb : DbConfig → Type 0
IsDb db =
    ((is_abs db.path ≡ true) ⊎ (is_abs db.dir ≡ true))
    × IsOptional db.path
    × IsOptional db.dir
    × (db.pattern ≢ [])
    × IsReplica db.replica
    × (db.replicas ≡ [])
    × IsOptional db.meta_path
    × IsOptional db.meta_dir

or_default-ne-nil : (d s : Bytes) → d ≢ [] → or_default d s ≢ []
or_default-ne-nil d [] h = h
or_default-ne-nil d (c ∷ s) h = λ e. cc

pub normalize_db-IsDb :
    (cwd : Option Bytes) (i : ℕ) (db after : DbConfig)
    → IsWorkingDir cwd
    → normalize_db cwd i db ≡ ok after
    → IsDb after
unfolding normalize_db
normalize_db-IsDb cwd i db after wd e =
    let (given, at_given, e1) = bind-eq-ok (db_path i db.path db.dir) _ e in
    let (path, at_path, e2) = bind-eq-ok (abs_if_given cwd given) _ e1 in
    let (dir, at_dir, e3) = bind-eq-ok (abs_if_given cwd db.dir) _ e2 in
    let (replica, at_replica, e4) =
      bind-eq-ok (normalize_replica cwd db.replica db.replicas) _ e3 in
    let (meta_path, at_meta_path, e5) = bind-eq-ok (abs_if_given cwd db.meta_path) _ e4 in
    let (meta_dir, at_meta_dir, e6) = bind-eq-ok (abs_if_given cwd db.meta_dir) _ e5 in
    let path_ok = abs_if_given-IsOptional cwd given path wd at_path in
    let dir_ok = abs_if_given-IsOptional cwd db.dir dir wd at_dir in
    let placed =
      elim (db_path-given i db.path db.dir given at_given)
        as (λ x. (is_abs path ≡ true) ⊎ (is_abs dir ≡ true)) [
          | inl full ↦ inl (path_ok.0 full)
          | inr full ↦ inr (dir_ok.0 full)
        ] in
    subst (λ (x : DbConfig). IsDb x) (ok-injective e6)
      (
        placed,
        path_ok.1,
        dir_ok.1,
        or_default-ne-nil default_sqlite_pattern db.pattern (λ w. cc),
        normalize_replica-IsReplica cwd db.replica db.replicas replica wd at_replica,
        refl,
        (abs_if_given-IsOptional cwd db.meta_path meta_path wd at_meta_path).1,
        (abs_if_given-IsOptional cwd db.meta_dir meta_dir wd at_meta_dir).1,
      )
