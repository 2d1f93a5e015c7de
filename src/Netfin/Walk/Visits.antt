-- ===== src/Netfin/Walk/Visits.antt =====
-- The entries that a walk should visit, and the loop over them; the ways in which the callback ends.
use dockerset.Base.{
  ◌≡◌, refl, ap, ◌∙◌, inl, inr, Bool, true, false, not, ◌&&◌, List, [], ◌∷◌, ◌++◌, Option, none,
  some, ◌===◌, if◌then◌else◌, Bool-cases, Bytes,
}
use mathlib.Core.Path.{fun_ext}
use dockerset.Go.Path.{clean, dot}
use dockerset.Go.Walk.{
  Entry, leaf, folder, Entries, unread, end, entry, WalkStep, go_on, skip_dir, stop, enter,
  continue, child_path,
}
use dockerset.Netfin.Excluder.{Excluder, excluded}
use dockerset.Netfin.Disk.{SyncError, lstat_failed, walk_cancelled, FileInfo, Source}
use dockerset.Netfin.Filesync.{Syncer, World}
use dockerset.Netfin.Walk.{
  Scan, Info, settle, skip_if_dir, visit_kind, visit_result, is_symlink, visit_info, visit,
}

-- An entry that a walk should visit: the path, whether it is a directory, and its information
pub record Visit : Type 0 where
  pub path : Bytes
  pub is_dir : Bool
  pub info : FileInfo

-- Neither excluded nor a link
abbrev pub is_wanted : Excluder → Bytes → Info → Bool
is_wanted ex path none = false
is_wanted ex path (some i) = not (excluded ex path) && not (is_symlink i)

abbrev pub one_visit : Excluder → Bytes → Bool → Info → List Visit
one_visit ex path is_dir none = []
one_visit ex path is_dir (some i) =
    if is_wanted ex path (some i)
    then record { path = clean path; is_dir = is_dir; info = i } ∷ []
    else []

-- What stands in the tree, without what is excluded, links, and what lies under an excluded
-- directory
abbrev mutual
  pub visits : Excluder → Bytes → Entry Info → List Visit
  visits ex parent (leaf name i) =
      if child_path parent name === dot then [] else one_visit ex (child_path parent name) false i
  visits ex parent (folder name i es) =
      if child_path parent name === dot
      then visits_all ex (child_path parent name) es
      else if is_wanted ex (child_path parent name) i
      then one_visit ex (child_path parent name) true i ++ visits_all ex (child_path parent name) es
      else []

  pub visits_all : Excluder → Bytes → Entries Info → List Visit
  visits_all ex dir unread = []
  visits_all ex dir end = []
  visits_all ex dir (entry e es) = visits ex dir e ++ visits_all ex dir es

pub one_visit_unwanted :
    (ex : Excluder) (path : Bytes) (is_dir : Bool) (i : Info)
    → is_wanted ex path i ≡ false
    → one_visit ex path is_dir i ≡ []
one_visit_unwanted ex path is_dir none h = refl
one_visit_unwanted ex path is_dir (some j) h = rw h refl

pub one_visit_wanted :
    (ex : Excluder) (path : Bytes) (is_dir : Bool) (j : FileInfo)
    → is_wanted ex path (some j) ≡ true
    → one_visit ex path is_dir (some j)
      ≡ record { path = clean path; is_dir = is_dir; info = j } ∷ []
one_visit_wanted ex path is_dir j h = rw h refl

abbrev pub finish : WalkStep SyncError × Scan → Option SyncError × Scan
finish (go_on, sc) = (none, sc)
finish (skip_dir, sc) = (none, sc)
finish (stop e, sc) = (some e, sc)

continue_assoc :
    (r : Option SyncError × Scan) (f g : Scan → Option SyncError × Scan)
    → continue r (λ sc. continue (f sc) g) ≡ continue (continue r f) g
continue_assoc (none, sc) f g = refl
continue_assoc (some e, sc) f g = refl

-- Two ways to go on that agree where they succeed
pub continue-same :
    (r : Option SyncError × Scan) (f g : Scan → Option SyncError × Scan)
    → ((sc : Scan) → (f sc).0 ≡ none → f sc ≡ g sc)
    → (continue r f).0 ≡ none
    → continue r f ≡ continue r g
continue-same (none, sc) f g same h = same sc h
continue-same (some e, sc) f g same h = refl

pub continue-none :
    (r : Option SyncError × Scan) (f : Scan → Option SyncError × Scan)
    → (continue r f).0 ≡ none
    → r.0 ≡ none
continue-none (none, sc) f h = refl
continue-none (some e, sc) f h = cc

module _ (special : Bytes → World → Option SyncError × World) (s : Syncer) (src : Source) where
  -- The loop over the entries
  unfoldable pub run_visits : List Visit → Scan → Option SyncError × Scan
  run_visits [] sc = (none, sc)
  run_visits (v ∷ vs) sc =
      continue (finish (visit_kind special s src v.path v.is_dir v.info sc))
        (λ sc1. run_visits vs sc1)

  pub run_visits-append :
      (vs us : List Visit) (sc : Scan)
      → run_visits (vs ++ us) sc ≡ continue (run_visits vs sc) (λ sc1. run_visits us sc1)
  unfolding run_visits
  run_visits-append [] us sc = refl
  run_visits-append (v ∷ vs) us sc =
      let first = finish (visit_kind special s src v.path v.is_dir v.info sc) in
      let later : (λ (sc1 : Scan). run_visits (vs ++ us) sc1)
          ≡ (λ (sc1 : Scan). continue (run_visits vs sc1) (λ sc2. run_visits us sc2)) =
        fun_ext (λ sc1. run_visits-append vs us sc1) in
      ap (continue first) later
      ∙ continue_assoc first (λ sc1. run_visits vs sc1) (λ sc2. run_visits us sc2)

  settle-enter :
      (seen : List Bytes) (r : Option SyncError × World) (f : Scan → Option SyncError × Scan)
      → enter (settle seen r) f ≡ continue (finish (settle seen r)) f
  settle-enter seen (none, w) f = refl
  settle-enter seen (some e, w) f = refl

  pub kind-enter :
      (rel : Bytes) (is_dir : Bool) (info : FileInfo) (sc : Scan)
      (f : Scan → Option SyncError × Scan)
      → enter (visit_kind special s src rel is_dir info sc) f
        ≡ continue (finish (visit_kind special s src rel is_dir info sc)) f
  unfolding visit_kind
  kind-enter rel is_dir info sc f =
      settle-enter (rel ∷ sc.seen) (visit_result special s src rel is_dir info sc.world) f

  module _ (cancelled : Bytes → Bool) where
    visit_info-cases :
        (P : WalkStep SyncError × Scan → Type 0) (path : Bytes) (is_dir : Bool) (info : Info)
        (sc : Scan)
        → excluded s.excluder path ≡ false
        → P (stop lstat_failed, sc)
        → (is_wanted s.excluder path info ≡ false → P (skip_if_dir is_dir, sc))
        → ((i : FileInfo)
            → info ≡ some i
            → is_wanted s.excluder path (some i) ≡ true
            → P (visit_kind special s src (clean path) is_dir i sc))
        → P (visit_info special s src path is_dir info sc)
    visit_info-cases P path is_dir none sc kept stopped passed wanted = stopped
    visit_info-cases P path is_dir (some i) sc kept stopped passed wanted =
        elim (Bool-cases (is_symlink i)) [
          | inl link ↦ rw link (passed (rw (kept, link) refl))
          | inr plain ↦ rw plain (wanted i refl (rw (kept, plain) refl))
        ]

    unwanted :
        (path : Bytes) (i : Info)
        → excluded s.excluder path ≡ true
        → is_wanted s.excluder path i ≡ false
    unwanted path none e = refl
    unwanted path (some i) e = rw e refl

    -- The callback stops, passes over, or visits.
    pub visit-cases :
        (P : WalkStep SyncError × Scan → Type 0) (path : Bytes) (is_dir : Bool) (info : Info)
        (sc : Scan)
        → ((e : SyncError) → P (stop e, sc))
        → ((path === dot) ≡ true → P (go_on, sc))
        → ((path === dot) ≡ false
            → is_wanted s.excluder path info ≡ false
            → P (skip_if_dir is_dir, sc))
        → ((i : FileInfo)
            → info ≡ some i
            → (path === dot) ≡ false
            → is_wanted s.excluder path (some i) ≡ true
            → P (visit_kind special s src (clean path) is_dir i sc))
        → P (visit special cancelled s src path is_dir info sc)
    unfolding visit
    visit-cases P path is_dir info sc stopped root passed wanted =
        elim (Bool-cases (cancelled path)) [
          | inl done ↦ rw done (stopped walk_cancelled)
          | inr going ↦ elim (Bool-cases (path === dot)) [
            | inl top ↦ rw (going, top) (root top)
            | inr below ↦ elim (Bool-cases (excluded s.excluder path)) [
              | inl skipped ↦ rw (going, below, skipped) (passed below (unwanted path info skipped))
              | inr kept ↦
                  rw (going, below, kept)
                    (visit_info-cases P path is_dir info sc kept (stopped lstat_failed)
                      (passed below) (λ i e w. wanted i e below w))
            ]
          ]
        ]
