-- ===== src/Netfin/Restore/Databases.antt =====
-- Which databases a restore gives to the library, and what a dry run of it does.
use mathlib.Core.Path.{subst}
use dockerset.Base.{
  ◌≡◌, refl, ap, ◌∙◌, sym, inl, inr, Bool, true, false, List, [], ◌∷◌, ◌++◌, map, append_assoc,
  append-nil, arith, Option, none, some, ◌==◌, ◌===◌, Bytes, length, Bool-cases, keep,
}
use dockerset.Go.Maps.{Map}
use dockerset.Go.Path.{clean, dot}
use dockerset.Go.Walk.{Entries}
use dockerset.Go.Walk.Keeps.{walk_all_keeps}
use dockerset.Netfin.Disk.{
  Node, SyncError, directory_unread, FileInfo, FileKind, directory, regular, symlink, other, Source,
  atomic_copy_file,
}
use dockerset.Netfin.Filesync.{escapes}
use dockerset.Netfin.Config.{Config, DbConfig}
use dockerset.Netfin.Walk.{Info}
use dockerset.Netfin.Restore.Visits.{AllSame, AllPut}
use dockerset.Netfin.Restore.Files.{restore_files-AllPut}
use dockerset.Netfin.Restore.{
  settle_disk, restore_at, is_link, restore_info, restore_visit, restore_files, RestoreError,
  Library, restore_db, then_next, restore_dbs, then_dbs, restore,
}

-- What is given to the library for a database: its replica's path and its own
abbrev pub pair_of : DbConfig → Bytes × Bytes
pair_of db = (db.replica.path, db.path)

-- A database that is configured by its path
abbrev pub has_path_only : DbConfig → Bool
has_path_only db = length db.dir == 0

module _ (lib : Library) where
  abbrev Adds :
      List (Bytes × Bytes)
      → List (Bytes × Bytes)
      → Option RestoreError × List (Bytes × Bytes)
      → Type 0
  Adds done more r = r.0 ≡ none → r.1 ≡ done ++ more

  restore_db-Adds :
      (db : DbConfig) (done : List (Bytes × Bytes))
      → Adds done (pair_of db ∷ []) (restore_db lib false db done)
  unfolding restore_db
  restore_db-Adds db done = elim (Bool-cases (length db.path == 0)) [
    | inl unset ↦ rw unset (λ e. absurd cc)
    | inr set ↦ elim (Bool-cases (length db.replica.path == 0)) [
      | inl no_replica ↦ rw (set, no_replica) (λ e. absurd cc)
      | inr replica ↦ elim (Bool-cases (lib.makes_parent db.path)) [
        | inr unmade ↦ rw (set, replica, unmade) (λ e. absurd cc)
        | inl made ↦ elim (Bool-cases (lib.restores db.replica.path db.path)) [
          | inl good ↦ rw (set, replica, made, good) (λ e. refl)
          | inr bad ↦ rw (set, replica, made, bad) (λ e. absurd cc)
        ]
      ]
    ]
  ]

  then_next-Adds :
      (done first rest : List (Bytes × Bytes)) (r : Option RestoreError × List (Bytes × Bytes))
      (next : List (Bytes × Bytes) → Option RestoreError × List (Bytes × Bytes))
      → Adds done first r
      → ((more : List (Bytes × Bytes)) → Adds more rest (next more))
      → Adds done (first ++ rest) (then_next r next)
  then_next-Adds done first rest (none, more) next now later = λ e.
      later more e
      ∙ ap (λ (x : List (Bytes × Bytes)). x ++ rest) (now refl)
      ∙ append_assoc done first rest
  then_next-Adds done first rest (some f, more) next now later = λ e. absurd cc

  restore_dbs-Adds :
      (dbs : List DbConfig) (done : List (Bytes × Bytes))
      → Adds done (map pair_of (keep has_path_only dbs)) (restore_dbs lib false dbs done)
  unfolding restore_dbs keep
  restore_dbs-Adds [] done = λ e. sym (append-nil done)
  restore_dbs-Adds (db ∷ dbs) done = elim (Bool-cases (length db.dir == 0)) [
    | inl path_only ↦ rw path_only (
        then_next-Adds done (pair_of db ∷ []) (map pair_of (keep has_path_only dbs))
          (restore_db lib false db done) (λ more. restore_dbs lib false dbs more)
          (restore_db-Adds db done) (λ more. restore_dbs-Adds dbs more))
    | inr in_directory ↦ rw in_directory (restore_dbs-Adds dbs done)
  ]

module _ (lib : Library) (cancelled : Bytes → Bool) (src : Source) where
  then_dbs-given :
      (dbs : List DbConfig) (r : Option SyncError × Map Node)
      → (then_dbs lib false dbs r).0 ≡ none
      → (r.0 ≡ none)
        × ((then_dbs lib false dbs r).1 ≡ r.1)
        × ((then_dbs lib false dbs r).2 ≡ map pair_of (keep has_path_only dbs))
  then_dbs-given dbs (some f, disk) e = absurd cc
  then_dbs-given dbs (none, disk) e = (refl, refl, restore_dbs-Adds lib dbs [] e)

  -- Where `Run` of the restore returns without an error outside a dry run, each regular file that it met
  -- below the root of the backup is in the target, with its permissions, time and content, if Lstat finds
  -- at the path of each what the walk was told; and the library has restored each database that is
  -- configured without a directory, from its replica, in their order, and no other.
  pub restore-AllPut :
      (config : Config) (es : Entries Info) (disk : Map Node)
      → AllSame src dot es
      → (restore lib cancelled src false config (some es) disk).0 ≡ none
      → AllPut src dot es (restore lib cancelled src false config (some es) disk).1
        × ((restore lib cancelled src false config (some es) disk).2
            ≡ map pair_of (keep has_path_only config.dbs))
  unfolding restore
  restore-AllPut config es disk same e =
      let r = restore_files cancelled src false (some es) disk in
      let (done, at, dbs) = then_dbs-given config.dbs r e in
      (
        subst (λ (x : Map Node). AllPut src dot es x) (sym at)
            (restore_files-AllPut src cancelled es disk same done).0,
        dbs,
      )

  restore_at-dry :
      (k : Bytes) (is_dir : Bool) (info : FileInfo) (kind : FileKind) (d : Map Node)
      → info.kind ≡ kind
      → (restore_at src true k is_dir info d).1 ≡ d
  unfolding restore_at atomic_copy_file
  restore_at-dry k true info kind d e = refl
  restore_at-dry k false info regular d e = rw (e, restore_at) refl
  restore_at-dry k false info directory d e = rw (e, restore_at) refl
  restore_at-dry k false info symlink d e = rw (e, restore_at) refl
  restore_at-dry k false info other d e = rw (e, restore_at) refl

  settle_disk-dry :
      (d : Map Node) (r : Option SyncError × Map Node) → r.1 ≡ d → (settle_disk r).1 ≡ d
  settle_disk-dry d (none, d1) e = e
  settle_disk-dry d (some f, d1) e = e

  restore_info-dry :
      (path : Bytes) (is_dir : Bool) (i : Info) (d : Map Node)
      → (restore_info src true path is_dir i d).1 ≡ d
  restore_info-dry path is_dir none d = refl
  restore_info-dry path is_dir (some info) d = elim (Bool-cases (is_link info)) [
    | inl link ↦ rw link refl
    | inr plain ↦ elim (Bool-cases (escapes (clean path))) [
      | inl out ↦ rw (plain, out) refl
      | inr inside ↦
          rw (plain, inside)
            (settle_disk-dry d (restore_at src true (clean path) is_dir info d)
              (restore_at-dry (clean path) is_dir info info.kind d refl))
    ]
  ]

  restore_visit-dry :
      (path : Bytes) (is_dir : Bool) (i : Info) (d : Map Node)
      → (restore_visit cancelled src true path is_dir i d).1 ≡ d
  unfolding restore_visit
  restore_visit-dry path is_dir i d = elim (Bool-cases (cancelled path)) [
    | inl done ↦ rw done refl
    | inr going ↦ elim (Bool-cases (path === dot)) [
      | inl top ↦ rw (going, top) refl
      | inr below ↦ rw (going, below) (restore_info-dry path is_dir i d)
    ]
  ]

  restore_files-dry :
      (root : Option (Entries Info)) (disk : Map Node)
      → (restore_files cancelled src true root disk).1 ≡ disk
  unfolding restore_files
  restore_files-dry none disk = refl
  restore_files-dry (some es) disk = elim (Bool-cases (cancelled dot)) [
    | inl done ↦ rw done refl
    | inr going ↦ rw going (
        walk_all_keeps (restore_visit cancelled src true) directory_unread (λ d. d ≡ disk)
          (λ path is_dir i d same. restore_visit-dry path is_dir i d ∙ same) dot es disk refl)
  ]

  restore_db-dry :
      (db : DbConfig) (done : List (Bytes × Bytes)) → (restore_db lib true db done).1 ≡ done
  unfolding restore_db
  restore_db-dry db done = ground arith

  then_next-dry :
      (done : List (Bytes × Bytes)) (r : Option RestoreError × List (Bytes × Bytes))
      (next : List (Bytes × Bytes) → Option RestoreError × List (Bytes × Bytes))
      → r.1 ≡ done
      → ((more : List (Bytes × Bytes)) → (next more).1 ≡ more)
      → (then_next r next).1 ≡ done
  then_next-dry done (none, more) next e later = later more ∙ e
  then_next-dry done (some f, more) next e later = e

  restore_dbs-dry :
      (dbs : List DbConfig) (done : List (Bytes × Bytes)) → (restore_dbs lib true dbs done).1 ≡ done
  unfolding restore_dbs
  restore_dbs-dry [] done = refl
  restore_dbs-dry (db ∷ dbs) done = elim (Bool-cases (length db.dir == 0)) [
    | inl path_only ↦ rw path_only (
        then_next-dry done (restore_db lib true db done) (λ more. restore_dbs lib true dbs more)
          (restore_db-dry db done) (λ more. restore_dbs-dry dbs more))
    | inr in_directory ↦ rw in_directory (restore_dbs-dry dbs done)
  ]

  then_dbs-dry :
      (dbs : List DbConfig) (disk : Map Node) (r : Option SyncError × Map Node)
      → r.1 ≡ disk
      → ((then_dbs lib true dbs r).1 ≡ disk) × ((then_dbs lib true dbs r).2 ≡ [])
  then_dbs-dry dbs disk (some f, d) e = (e, refl)
  then_dbs-dry dbs disk (none, d) e = (e, restore_dbs-dry dbs [])

  -- A dry run of the restore leaves the target as it is and restores no database, whatever fails.
  pub restore-dry_run :
      (config : Config) (backup : Option (Entries Info)) (disk : Map Node)
      → ((restore lib cancelled src true config backup disk).1 ≡ disk)
        × ((restore lib cancelled src true config backup disk).2 ≡ [])
  unfolding restore
  restore-dry_run config backup disk =
      then_dbs-dry config.dbs disk (restore_files cancelled src true backup disk)
        (restore_files-dry backup disk)
