-- ===== src/Netfin/Config/Valid.antt =====
-- The configuration that `applyDefaultsAndValidate` leaves.
use mathlib.Core.Path.{subst}
use dockerset.Base.{
  ℕ, ◌+◌, ◌≡◌, refl, sym, inl, inr, Bool, true, false, ◌||◌, List, [], ◌∷◌, ◌++◌, Option, ◌===◌,
  ===_iff, ◌≢◌, Bytes, any, All, In, Bool-cases, Outcome, ok, err, bind-eq-ok, ok-injective,
}
use dockerset.Go.Text.{to_lower}
use dockerset.Go.Path.{abs, is_abs}
use dockerset.Netfin.Config.Dbs.{IsWorkingDir, IsDb, made_abs-is_abs, normalize_db-IsDb}
use dockerset.Netfin.Config.Dedupe.{IsNub, dedupe-In}
use dockerset.Netfin.Config.{
  ℤ, is_zero, is_negative, DbConfig, NetfinConfig, Config, ConfigError, negative_duration,
  unknown_log_level, base_exclude_patterns, dedupe, made_abs, normalize_db, normalize_dbs,
  or_duration, log_levels, with_defaults, has_negative, or_dbs, finish, apply_defaults_and_validate,
  effective_exclude_patterns, dbs_exclude_patterns, default_debounce, default_reconcile,
  default_source_retry,
}

normalize_dbs-All :
    (cwd : Option Bytes) (i : ℕ) (dbs after : List DbConfig)
    → IsWorkingDir cwd
    → normalize_dbs cwd i dbs ≡ ok after
    → All IsDb after
unfolding normalize_dbs
normalize_dbs-All cwd i [] after wd e = let same : [] ≡ after = ok-injective e in rw (sym same) tt
normalize_dbs-All cwd i (db ∷ dbs) after wd e =
    let (first, at_first, e1) = bind-eq-ok (normalize_db cwd i db) _ e in
    let (rest, at_rest, e2) = bind-eq-ok (normalize_dbs cwd (i + 1) dbs) _ e1 in
    let same : first ∷ rest ≡ after = ok-injective e2 in
    rw (sym same) (
      normalize_db-IsDb cwd i db first wd at_first,
      normalize_dbs-All cwd (i + 1) dbs rest wd at_rest,
    )

cons-ne-nil : (db : DbConfig) (dbs after : List DbConfig) → db ∷ dbs ≡ after → after ≢ []
cons-ne-nil db dbs [] e = absurd cc
cons-ne-nil db dbs (d ∷ ds) e = λ empty. cc

normalize_dbs-ne-nil :
    (cwd : Option Bytes) (dbs after : List DbConfig)
    → dbs ≢ []
    → normalize_dbs cwd 0 dbs ≡ ok after
    → after ≢ []
unfolding normalize_dbs
normalize_dbs-ne-nil cwd [] after full e = absurd (full refl)
normalize_dbs-ne-nil cwd (db ∷ dbs) after full e =
    let (first, at_first, e1) = bind-eq-ok (normalize_db cwd 0 db) _ e in
    let (rest, at_rest, e2) = bind-eq-ok (normalize_dbs cwd 1 dbs) _ e1 in
    cons-ne-nil first rest after (ok-injective e2)

or_dbs-ne-nil : (dbs : List DbConfig) → or_dbs dbs ≢ []
or_dbs-ne-nil [] = λ e. cc
or_dbs-ne-nil (db ∷ dbs) = λ e. cc

any-In : (x : Bytes) (ls : List Bytes) → any (λ l. l === x) ls ≡ true → In x ls
unfolding any
any-In x [] h = cc
any-In x (l ∷ ls) h = elim (Bool-cases (l === x)) [
  | inl same ↦ inl (sym ((===_iff l x).0 same))
  | inr other ↦ inr (any-In x ls (rw other at h))
]

-- A positive duration
abbrev pub IsPositive : ℤ → Type 0
IsPositive d = (is_zero d ≡ false) × (is_negative d ≡ false)

or_duration-IsPositive :
    (d n : ℤ) → IsPositive d → is_negative (or_duration d n) ≡ false → IsPositive (or_duration d n)
or_duration-IsPositive d n of_d h = elim (Bool-cases (is_zero n)) [
  | inl zero_n ↦ rw zero_n of_d
  | inr set ↦ rw set (set, rw set at h)
]

abbrev pub IsValidNetfin : NetfinConfig → Type 0
IsValidNetfin n =
    IsPositive n.debounce
    × IsPositive n.reconcile_interval
    × IsPositive n.source_retry
    × In n.log_level log_levels
    × (is_abs n.config_dir ≡ true)
    × (is_abs n.file_backup_dir ≡ true)
    × IsNub n.exclude_patterns

abbrev pub IsValid : Config → Type 0
IsValid c = IsValidNetfin c.netfin × All IsDb c.dbs × (c.dbs ≢ [])

finish-IsValid :
    (cwd : Option Bytes) (n : NetfinConfig) (dbs : List DbConfig) (after : Config)
    → IsWorkingDir cwd
    → IsPositive n.debounce
    → IsPositive n.reconcile_interval
    → IsPositive n.source_retry
    → In (to_lower n.log_level) log_levels
    → finish cwd n (or_dbs dbs) ≡ ok after
    → IsValid after
unfolding finish effective_exclude_patterns
finish-IsValid cwd n dbs after wd debounce reconcile retry level e =
    let (done, at_dbs, e1) = bind-eq-ok (normalize_dbs cwd 0 (or_dbs dbs)) _ e in
    let (config_dir, at_config_dir, e2) = bind-eq-ok (made_abs (abs cwd n.config_dir)) _ e1 in
    let (backup_dir, at_backup_dir, e3) = bind-eq-ok (made_abs (abs cwd n.file_backup_dir)) _ e2 in
    subst (λ (x : Config). IsValid x) (ok-injective e3)
      (
        (
          debounce,
          reconcile,
          retry,
          level,
          made_abs-is_abs cwd n.config_dir config_dir wd at_config_dir,
          made_abs-is_abs cwd n.file_backup_dir backup_dir wd at_backup_dir,
          (dedupe-In (
              dedupe (base_exclude_patterns ++ n.exclude_patterns) ++ dbs_exclude_patterns done)).0,
        ),
        normalize_dbs-All cwd 0 (or_dbs dbs) done wd at_dbs,
        normalize_dbs-ne-nil cwd (or_dbs dbs) done (or_dbs-ne-nil dbs) at_dbs,
      )

or_false : (a b c : Bool) → (a || b || c) ≡ false → (a ≡ false) × (b ≡ false) × (c ≡ false)
or_false false false c h = (refl, refl, h)
or_false true b c h = cc
or_false false true c h = cc

-- What `applyDefaultsAndValidate` returns is valid: the durations are positive, the log level is one of
-- the five in lower case, no exclude pattern stands twice, every directory and path that is given is
-- absolute, there is a database, and each has a path or a directory, a pattern and one file replica.
pub apply_defaults_and_validate-IsValid :
    (cwd : Option Bytes) (c after : Config)
    → IsWorkingDir cwd
    → apply_defaults_and_validate cwd c ≡ ok after
    → IsValid after
unfolding apply_defaults_and_validate
apply_defaults_and_validate-IsValid cwd c after wd e =
    let n = with_defaults c.netfin in
    elim (Bool-cases (has_negative n)) [
      | inl negative ↦
          let wrong : ◌≡◌ {A = Outcome ConfigError Config} (err negative_duration) (ok after) =
            rw negative at e in
          absurd cc
      | inr counts ↦ elim (Bool-cases (any (λ l. l === to_lower n.log_level) log_levels)) [
        | inr unknown ↦
            let wrong : ◌≡◌ {A = Outcome ConfigError Config} (err unknown_log_level) (ok after) =
              rw (counts, unknown) at e in
            absurd cc
        | inl level ↦
            let (debounce, reconcile, retry) =
              or_false (is_negative n.debounce) (is_negative n.reconcile_interval)
                (is_negative n.source_retry) counts in
            finish-IsValid cwd n c.dbs after wd
              (or_duration-IsPositive default_debounce c.netfin.debounce (refl, refl) debounce)
              (or_duration-IsPositive default_reconcile c.netfin.reconcile_interval (refl, refl)
                reconcile)
              (or_duration-IsPositive default_source_retry c.netfin.source_retry (refl, refl) retry)
              (any-In (to_lower n.log_level) log_levels level) (rw (counts, level) at e)
      ]
    ]
