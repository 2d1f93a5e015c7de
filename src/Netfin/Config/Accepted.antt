-- ===== src/Netfin/Config/Accepted.antt =====
-- Which configurations `applyDefaultsAndValidate` takes.
use dockerset.Base.{
  ℕ, zero, suc, ◌+◌, ◌≡◌, refl, ap, ◌∙◌, sym, ◌⊎◌, ◌↔◌, inl, inr, Bool, true, false, not, ◌||◌,
  List, [], ◌∷◌, some, arith, ◌==◌, ◌===◌, ===_iff, if◌then◌else◌, Bytes, length, any, Bool-cases,
  Outcome, ok, err, panic, stuck, ◌>>=◌, Succeeds, Succeeds-bind,
}
use dockerset.Go.Text.{to_lower, lower}
use dockerset.Go.Path.{abs, is_abs}
use dockerset.Netfin.Config.{
  ℤ, pos, negsuc, is_zero, is_negative, ReplicaConfig, DbConfig, NetfinConfig, Config,
  default_sqlite_replica_type, default_sqlite_backup_dir, or_default, made_abs, abs_if_given,
  is_given, file_replica, default_replica, normalize_replica, db_path, normalize_db, normalize_dbs,
  or_duration, log_levels, default_log_level, with_defaults, has_negative, or_dbs, finish,
  apply_defaults_and_validate, default_debounce, default_reconcile, default_source_retry,
}

-- The type of a replica is left out or "file".
abbrev pub IsAcceptedReplica : ReplicaConfig → Type 0
IsAcceptedReplica r = (r.replica_type ≡ []) ⊎ (r.replica_type ≡ default_sqlite_replica_type)

abbrev pub AreAcceptedReplicas : ReplicaConfig → List ReplicaConfig → Type 0
AreAcceptedReplicas r [] = IsAcceptedReplica r
AreAcceptedReplicas r (s ∷ []) = (is_given r ≡ false) × IsAcceptedReplica s
AreAcceptedReplicas r (s ∷ t ∷ rs) = ⊥

abbrev pub IsPlaced : ℕ → Bytes → Bytes → Type 0
IsPlaced i [] [] = i ≡ 0
IsPlaced i [] (c ∷ dir) = Unit
IsPlaced i (c ∷ path) dir = Unit

-- The databases from an index on: each but the first has a path or a directory.
abbrev pub AreAccepted : ℕ → List DbConfig → Type 0
AreAccepted i [] = Unit
AreAccepted i (db ∷ dbs) =
    (IsPlaced i db.path db.dir × AreAcceptedReplicas db.replica db.replicas)
    × AreAccepted (i + 1) dbs

Succeeds-ok :
    {E A B : Type 0} (m : Outcome E A) (f : A → Outcome E B)
    → Succeeds (m >>= f)
    → Succeeds m × ((a : A) × (m ≡ ok a) × Succeeds (f a))
Succeeds-ok (ok a) f h = (tt, (a, refl, h))
Succeeds-ok (err e) f h = absurd h
Succeeds-ok panic f h = absurd h
Succeeds-ok stuck f h = absurd h

module _ (dir : Bytes) where
  abs-Succeeds : (path : Bytes) → Succeeds (made_abs (abs (some dir) path))
  unfolding abs
  abs-Succeeds path = elim (Bool-cases (is_abs path)) [
    | inl rooted ↦ rw rooted tt
    | inr relative ↦ rw relative tt
  ]

  abs_if_given-Succeeds : (path : Bytes) → Succeeds (abs_if_given (some dir) path)
  abs_if_given-Succeeds [] = tt
  abs_if_given-Succeeds (c ∷ s) = abs-Succeeds (c ∷ s)

  type_to :
      (t : Bytes)
      → (or_default default_sqlite_replica_type t === default_sqlite_replica_type) ≡ true
      → (t ≡ []) ⊎ (t ≡ default_sqlite_replica_type)
  type_to [] same = inl refl
  type_to (c ∷ t) same = inr ((===_iff (c ∷ t) default_sqlite_replica_type).0 same)

  type_from :
      (t : Bytes)
      → (t ≡ []) ⊎ (t ≡ default_sqlite_replica_type)
      → (or_default default_sqlite_replica_type t === default_sqlite_replica_type) ≡ true
  type_from t (inl e) =
      ap (λ (x : Bytes). or_default default_sqlite_replica_type x === default_sqlite_replica_type) e
      ∙ (===_iff default_sqlite_replica_type default_sqlite_replica_type).1 refl
  type_from t (inr e) =
      ap (λ (x : Bytes). or_default default_sqlite_replica_type x === default_sqlite_replica_type) e
      ∙ (===_iff default_sqlite_replica_type default_sqlite_replica_type).1 refl

  file_replica_iff :
      (r : ReplicaConfig) → Succeeds (file_replica (some dir) r) ↔ IsAcceptedReplica r
  unfolding file_replica
  file_replica_iff r =
      elim (Bool-cases
        (or_default default_sqlite_replica_type r.replica_type === default_sqlite_replica_type)) [
          | inl file ↦ (
            (λ h. type_to r.replica_type file),
            λ h. rw file (
                Succeeds-bind
                  (made_abs (abs (some dir) (or_default default_sqlite_backup_dir r.path))) _
                  (abs-Succeeds (or_default default_sqlite_backup_dir r.path)) (λ p. tt)),
          )
          | inr other ↦ (
            (λ h. absurd (rw other at h)),
            λ h. absurd (let wrong : true ≡ false = sym (type_from r.replica_type h) ∙ other in cc),
          )
        ]

  default_replica-Succeeds : Succeeds (default_replica (some dir))
  unfolding default_replica
  default_replica-Succeeds =
      Succeeds-bind (made_abs (abs (some dir) default_sqlite_backup_dir)) _
        (abs-Succeeds default_sqlite_backup_dir) (λ p. tt)

  no_type : (t : Bytes) (a b : Bool) → (a || b || not (length t == 0)) ≡ false → t ≡ []
  no_type [] a b h = refl
  no_type (c ∷ t) a b h = absurd (ground (arith, h))

  one_replica_iff :
      (r : ReplicaConfig)
      → Succeeds (if is_given r then file_replica (some dir) r else default_replica (some dir))
        ↔ IsAcceptedReplica r
  one_replica_iff r = elim (Bool-cases (is_given r)) [
    | inl set ↦ rw set (file_replica_iff r)
    | inr unset ↦ rw unset (
      (λ h.
          inl (no_type r.replica_type (not (length r.path == 0)) (not (length r.url == 0)) unset)),
      λ h. default_replica-Succeeds,
    )
  ]

  normalize_replica_iff :
      (r : ReplicaConfig) (rs : List ReplicaConfig)
      → Succeeds (normalize_replica (some dir) r rs) ↔ AreAcceptedReplicas r rs
  unfolding normalize_replica
  normalize_replica_iff r [] = one_replica_iff r
  normalize_replica_iff r (s ∷ []) = elim (Bool-cases (is_given r)) [
    | inl set ↦ rw set ((λ h. absurd h), λ h. absurd (let wrong : true ≡ false = h.0 in cc))
    | inr unset ↦ rw unset ((λ h. (refl, (one_replica_iff s).0 h)), λ h. (one_replica_iff s).1 h.1)
  ]
  normalize_replica_iff r (s ∷ t ∷ rs) = elim (Bool-cases (is_given r)) [
    | inl set ↦ rw set ((λ h. absurd h), λ h. absurd h)
    | inr unset ↦ rw unset ((λ h. absurd h), λ h. absurd h)
  ]

  db_path_iff :
      (i : ℕ) (path db_dir : Bytes) → Succeeds (db_path i path db_dir) ↔ IsPlaced i path db_dir
  unfolding db_path
  db_path_iff i [] [] = elim (Bool-cases (i == 0)) [
    | inl first ↦ rw first ((λ h. ground (arith, first)), λ h. tt)
    | inr later ↦ rw later ((λ h. absurd h), λ h. absurd (ground (arith, later, h)))
  ]
  db_path_iff i [] (c ∷ s) = ((λ h. tt), λ h. tt)
  db_path_iff i (c ∷ s) db_dir = ((λ h. tt), λ h. tt)

  normalize_db_iff :
      (i : ℕ) (db : DbConfig)
      → Succeeds (normalize_db (some dir) i db)
        ↔ (IsPlaced i db.path db.dir × AreAcceptedReplicas db.replica db.replicas)
  unfolding normalize_db
  normalize_db_iff i db = (
    λ h.
        let (placed, (given, at_given, h1)) = Succeeds-ok (db_path i db.path db.dir) _ h in
        let (path_ok, (path, at_path, h2)) = Succeeds-ok (abs_if_given (some dir) given) _ h1 in
        let (dir_ok, (db_dir, at_dir, h3)) = Succeeds-ok (abs_if_given (some dir) db.dir) _ h2 in
        let (replica_ok, rest) =
          Succeeds-ok (normalize_replica (some dir) db.replica db.replicas) _ h3 in
        (
          (db_path_iff i db.path db.dir).0 placed,
          (normalize_replica_iff db.replica db.replicas).0 replica_ok,
        ),
    λ h. Succeeds-bind (db_path i db.path db.dir) _ ((db_path_iff i db.path db.dir).1 h.0) (λ given.
        Succeeds-bind (abs_if_given (some dir) given) _ (abs_if_given-Succeeds given) (λ path.
          Succeeds-bind (abs_if_given (some dir) db.dir) _ (abs_if_given-Succeeds db.dir) (λ db_dir.
            Succeeds-bind (normalize_replica (some dir) db.replica db.replicas) _
              ((normalize_replica_iff db.replica db.replicas).1 h.1)
              (λ replica.
                Succeeds-bind (abs_if_given (some dir) db.meta_path) _
                  (abs_if_given-Succeeds db.meta_path)
                  (λ meta_path.
                    Succeeds-bind (abs_if_given (some dir) db.meta_dir) _
                      (abs_if_given-Succeeds db.meta_dir) (λ meta_dir. tt)))))),
  )

  normalize_dbs_iff :
      (i : ℕ) (dbs : List DbConfig) → Succeeds (normalize_dbs (some dir) i dbs) ↔ AreAccepted i dbs
  unfolding normalize_dbs
  normalize_dbs_iff i [] = ((λ h. tt), λ h. tt)
  normalize_dbs_iff i (db ∷ dbs) = (
    λ h.
        let (first, (done, at_first, h1)) = Succeeds-ok (normalize_db (some dir) i db) _ h in
        let (rest, more) = Succeeds-ok (normalize_dbs (some dir) (i + 1) dbs) _ h1 in
        ((normalize_db_iff i db).0 first, (normalize_dbs_iff (i + 1) dbs).0 rest),
    λ h. Succeeds-bind (normalize_db (some dir) i db) _ ((normalize_db_iff i db).1 h.0) (λ first.
        Succeeds-bind (normalize_dbs (some dir) (i + 1) dbs) _
          ((normalize_dbs_iff (i + 1) dbs).1 h.1) (λ rest. tt)),
  )

  finish_iff :
      (n : NetfinConfig) (dbs : List DbConfig)
      → Succeeds (finish (some dir) n dbs) ↔ AreAccepted 0 dbs
  unfolding finish
  finish_iff n dbs = (
    λ h. (normalize_dbs_iff 0 dbs).0 (Succeeds-ok (normalize_dbs (some dir) 0 dbs) _ h).0,
    λ h. Succeeds-bind (normalize_dbs (some dir) 0 dbs) _ ((normalize_dbs_iff 0 dbs).1 h) (λ done.
        Succeeds-bind (made_abs (abs (some dir) n.config_dir)) _ (abs-Succeeds n.config_dir)
          (λ config_dir.
            Succeeds-bind (made_abs (abs (some dir) n.file_backup_dir)) _
              (abs-Succeeds n.file_backup_dir) (λ backup_dir. tt))),
  )

or_dbs_iff : (dbs : List DbConfig) → AreAccepted 0 (or_dbs dbs) ↔ AreAccepted 0 dbs
or_dbs_iff [] = ((λ h. tt), λ h. ((tt, inr refl), tt))
or_dbs_iff (db ∷ dbs) = ((λ h. h), λ h. h)

-- Given in the file or not, a duration is negative after the defaults where it was before.
or_duration-negative :
    (d n : ℤ) → is_negative d ≡ false → is_negative (or_duration d n) ≡ is_negative n
or_duration-negative d (pos zero) plain = plain
or_duration-negative d (pos (suc n)) plain =
    let set : is_zero (pos (suc n)) ≡ false = ground arith in
    ap (λ (b : Bool). is_negative (if b then d else pos (suc n))) set
or_duration-negative d (negsuc n) plain = refl

with_defaults-has_negative : (n : NetfinConfig) → has_negative (with_defaults n) ≡ has_negative n
with_defaults-has_negative n = cc (
  or_duration-negative default_debounce n.debounce refl,
  or_duration-negative default_reconcile n.reconcile_interval refl,
  or_duration-negative default_source_retry n.source_retry refl,
)

abbrev pub IsLevel : Bytes → Type 0
IsLevel level = (level ≡ []) ⊎ (any (λ l. l === to_lower level) log_levels ≡ true)

IsLevel-iff :
    (level : Bytes)
    → (any (λ l. l === to_lower (or_default default_log_level level)) log_levels ≡ true)
      ↔ IsLevel level
unfolding any lower ◌===◌
IsLevel-iff [] = ((λ h. inl refl), λ h. refl)
IsLevel-iff (c ∷ level) = ((λ h. inr h), λ h. elim h [ inl e ↦ absurd cc | inr e ↦ e ])

abbrev pub IsAccepted : Config → Type 0
IsAccepted c = (has_negative c.netfin ≡ false) × IsLevel c.netfin.log_level × AreAccepted 0 c.dbs

-- Where the working directory is known, `applyDefaultsAndValidate` returns without an error just for these
-- configurations: no duration is negative; the log level is left out or, in lower case, one of the five;
-- each database but the first has a path or a directory; it has a replica or a list of one, or neither, but
-- not both; and the replica's type is left out or "file".
pub apply_defaults_and_validate-IsAccepted :
    (dir : Bytes) (c : Config) → Succeeds (apply_defaults_and_validate (some dir) c) ↔ IsAccepted c
unfolding apply_defaults_and_validate
apply_defaults_and_validate-IsAccepted dir c =
    let n = with_defaults c.netfin in
    let same : has_negative n ≡ has_negative c.netfin = with_defaults-has_negative c.netfin in
    elim (Bool-cases (has_negative n)) [
      | inl negative ↦ rw negative (
        (λ h. absurd h),
        λ h. absurd (let wrong : true ≡ false = sym negative ∙ same ∙ h.0 in cc),
      )
      | inr counts ↦ elim (Bool-cases (any (λ l. l === to_lower n.log_level) log_levels)) [
        | inr unknown ↦
            rw (counts, unknown)
              (
                (λ h. absurd h),
                λ h. absurd (
                    let wrong : true ≡ false =
                      sym ((IsLevel-iff c.netfin.log_level).1 h.1) ∙ unknown in
                    cc),
              )
        | inl level ↦
            rw (counts, level)
              (
                (λ h. (
                  sym same ∙ counts,
                  (IsLevel-iff c.netfin.log_level).0 level,
                  (or_dbs_iff c.dbs).0 ((finish_iff dir n (or_dbs c.dbs)).0 h),
                )),
                λ h. (finish_iff dir n (or_dbs c.dbs)).1 ((or_dbs_iff c.dbs).1 h.2),
              )
      ]
    ]
