-- ===== src/Netfin/Restore/Files.antt =====
-- What the restore of the files leaves in the target.

use dockerset.Base.{◌≡◌, refl, inl, inr, Bool, true, false, Option, none, some, Bytes, Bool-cases}
use dockerset.Go.Maps.{Map}
use dockerset.Go.Path.{dot}
use dockerset.Go.Walk.{
  Entry, leaf, folder, Entries, unread, end, entry, WalkStep, go_on, skip_dir, stop, child_path,
  enter, continue, walk, walk_all,
}
use dockerset.Netfin.Disk.{Node, SyncError, directory_unread, Source}
use dockerset.Netfin.Walk.{Info}
use dockerset.Netfin.Restore.{restore_visit, restore_files}
use dockerset.Netfin.Restore.Visits.{
  HoldsFile, IsPut, AreSame, AllSame, ArePut, AllPut, Keeps, Ends, ArePut-kept, restore_visit-Ends,
}

module _ (src : Source) where
  abbrev Restores : (Map Node → Type 0) → Map Node → Option SyncError × Map Node → Type 0
  Restores put d r = r.0 ≡ none → Keeps src d r.1 × put r.1

  leaf-Restores :
      (path : Bytes) (i : Info) (d : Map Node) (r : WalkStep SyncError × Map Node)
      → Ends src path false i d r
      → Restores (IsPut src path i) d (enter r (λ d1. (none, d1)))
  leaf-Restores path i d (go_on, d1) (keeps, put) = λ e. (keeps, put refl)
  leaf-Restores path i d (skip_dir, d1) wrong = absurd wrong
  leaf-Restores path i d (stop f, d1) ended = λ e. absurd cc

  folder-Restores :
      (put : Map Node → Type 0) (path : Bytes) (i : Info) (d : Map Node)
      (r : WalkStep SyncError × Map Node) (k : Map Node → Option SyncError × Map Node)
      → Ends src path true i d r
      → ((d1 : Map Node) → Restores put d1 (k d1))
      → Restores put d (enter r k)
  folder-Restores put path i d (go_on, d1) k (keeps, none_put) rest =
      λ e. let (later, done) = rest d1 e in ((λ p h. later p (keeps p h)), done)
  folder-Restores put path i d (skip_dir, d1) k wrong rest = absurd wrong
  folder-Restores put path i d (stop f, d1) k ended rest = λ e. absurd cc

  continue-Restores :
      (first rest : Map Node → Type 0) (d : Map Node) (r : Option SyncError × Map Node)
      (k : Map Node → Option SyncError × Map Node)
      → ((d1 d2 : Map Node) → Keeps src d1 d2 → first d1 → first d2)
      → Restores first d r
      → ((d1 : Map Node) → Restores rest d1 (k d1))
      → Restores (λ x. first x × rest x) d (continue r k)
  continue-Restores first rest d (none, d1) k carried now later = λ e.
      let (keeps, put) = now refl in
      let (keeps1, put1) = later d1 e in
      ((λ p h. keeps1 p (keeps p h)), (carried d1 (k d1).1 keeps1 put, put1))
  continue-Restores first rest d (some f, d1) k carried now later = λ e. absurd cc

  module _ (cancelled : Bytes → Bool) where
    mutual
      unfolding walk AreSame ArePut

      walk-Restores :
          (parent : Bytes) (e : Entry Info) (d : Map Node)
          → AreSame src parent e
          → Restores
              (ArePut src parent e)
              d
              (walk (restore_visit cancelled src false) directory_unread parent e d)
      walk-Restores parent (leaf name i) d same =
          let path = child_path parent name in
          leaf-Restores path i d (restore_visit cancelled src false path false i d)
            (restore_visit-Ends src cancelled path false i d (λ f. same))
      walk-Restores parent (folder name i es) d same =
          let path = child_path parent name in
          folder-Restores (AllPut src path es) path i d
            (restore_visit cancelled src false path true i d)
            (λ d1. walk_all (restore_visit cancelled src false) directory_unread path es d1)
            (restore_visit-Ends src cancelled path true i d (λ f. absurd cc))
            (λ d1. walk_all-Restores path es d1 same)

      walk_all-Restores :
          (dir : Bytes) (es : Entries Info) (d : Map Node)
          → AllSame src dir es
          → Restores
              (AllPut src dir es)
              d
              (walk_all (restore_visit cancelled src false) directory_unread dir es d)
      walk_all-Restores dir unread d same = λ e. absurd cc
      walk_all-Restores dir end d same = λ e. ((λ p h. h), tt)
      walk_all-Restores dir (entry e es) d (first, rest) =
          continue-Restores (ArePut src dir e) (AllPut src dir es) d
            (walk (restore_visit cancelled src false) directory_unread dir e d)
            (λ d1. walk_all (restore_visit cancelled src false) directory_unread dir es d1)
            (ArePut-kept src dir e) (walk-Restores dir e d first)
            (λ d1. walk_all-Restores dir es d1 rest)

    -- Where `restoreFiles` returns without an error outside a dry run, each regular file that it met below
    -- the root of the backup is in the target, with its permissions, time and content, if Lstat finds at
    -- the path of each what the walk was told; and such files that were in the target still are.
    pub restore_files-AllPut :
        (es : Entries Info) (disk : Map Node)
        → AllSame src dot es
        → (restore_files cancelled src false (some es) disk).0 ≡ none
        → AllPut src dot es (restore_files cancelled src false (some es) disk).1
          × ((k : Bytes)
              → HoldsFile src k disk
              → HoldsFile src k (restore_files cancelled src false (some es) disk).1)
    unfolding restore_files
    restore_files-AllPut es disk same = elim (Bool-cases (cancelled dot)) [
      | inl done ↦ rw done (λ e. absurd cc)
      | inr going ↦
          rw going (λ e. let (keeps, put) = walk_all-Restores dot es disk same e in (put, keeps))
    ]
