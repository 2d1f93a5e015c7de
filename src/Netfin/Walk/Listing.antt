-- ===== src/Netfin/Walk/Listing.antt =====
-- A walk that succeeds is the loop over the entries that it should visit.
use dockerset.Base.{
  ◌≡◌, refl, ap, sym, ◌∙◌, inl, inr, Bool, true, false, List, [], ◌∷◌, ◌++◌, Option, none, some,
  ◌===◌, if◌then◌else◌, Bool-cases, Bytes,
}
use dockerset.Go.Path.{clean, dot}
use dockerset.Go.Walk.{
  Entry, leaf, folder, Entries, unread, end, entry, WalkStep, enter, continue, child_path, walk,
  walk_all,
}
use dockerset.Netfin.Excluder.{Excluder}
use dockerset.Netfin.Disk.{SyncError, directory_unread, FileInfo, Source}
use dockerset.Netfin.Filesync.{Syncer, World}
use dockerset.Netfin.Walk.{Scan, Info, visit_kind, visit, pass_over, walk_source}
use dockerset.Netfin.Walk.Visits.{
  Visit, is_wanted, one_visit, visits, visits_all, one_visit_unwanted, one_visit_wanted, finish,
  continue-same, continue-none, run_visits, run_visits-append, kind-enter, visit-cases,
}

module _ (special : Bytes → World → Option SyncError × World) (s : Syncer) (src : Source)
    (cancelled : Bytes → Bool) where
  abbrev call : Bytes → Bool → Info → Scan → WalkStep SyncError × Scan
  call = visit special cancelled s src

  -- Where it succeeds, `r` is the loop over the visits.
  abbrev Agrees : List Visit → Scan → Option SyncError × Scan → Type 0
  Agrees vs sc r = r.0 ≡ none → r ≡ run_visits special s src vs sc

  kind-Agrees :
      (path : Bytes) (is_dir : Bool) (j : FileInfo) (sc : Scan) (vs : List Visit)
      (k : Scan → Option SyncError × Scan)
      → ((sc1 : Scan) → Agrees vs sc1 (k sc1))
      → Agrees
          (record { path = clean path; is_dir = is_dir; info = j } ∷ vs)
          sc
          (enter (visit_kind special s src (clean path) is_dir j sc) k)
  unfolding run_visits
  kind-Agrees path is_dir j sc vs k ih h =
      let e = kind-enter special s src (clean path) is_dir j sc k in
      e
      ∙ continue-same (finish (visit_kind special s src (clean path) is_dir j sc)) k
          (λ sc1. run_visits special s src vs sc1) ih (sym (ap (λ r. r.0) e) ∙ h)

  leaf-Agrees :
      (path : Bytes) (i : Info) (sc : Scan)
      → Agrees
          (if path === dot then [] else one_visit s.excluder path false i)
          sc
          (enter (call path false i sc) (λ s1. (none, s1)))
  unfolding run_visits
  leaf-Agrees path i sc =
      visit-cases special s src cancelled
        (λ r.
          Agrees (if path === dot then [] else one_visit s.excluder path false i) sc
            (enter r (λ s1. (none, s1))))
        path false i sc (λ e h. absurd cc) (λ top h. rw top refl)
        (λ below out h. rw (below, one_visit_unwanted s.excluder path false i out) refl)
        (λ j e below want.
          rw (e, below, one_visit_wanted s.excluder path false j want)
            (kind-Agrees path false j sc [] (λ s1. (none, s1)) (λ sc1 h. refl)))

  folder-Agrees :
      (path : Bytes) (i : Info) (sc : Scan) (vs : List Visit) (k : Scan → Option SyncError × Scan)
      → ((sc1 : Scan) → Agrees vs sc1 (k sc1))
      → Agrees
          (if path === dot
            then vs
            else if is_wanted s.excluder path i
            then one_visit s.excluder path true i ++ vs
            else [])
          sc
          (enter (call path true i sc) k)
  unfolding run_visits
  folder-Agrees path i sc vs k ih =
      visit-cases special s src cancelled
        (λ r.
          Agrees
            (if path === dot
              then vs
              else if is_wanted s.excluder path i
              then one_visit s.excluder path true i ++ vs
              else [])
            sc (enter r k))
        path true i sc (λ e h. absurd cc) (λ top. rw top (ih sc))
        (λ below out h. rw (below, out) refl)
        (λ j e below want. rw (e, below, want) (kind-Agrees path true j sc vs k ih))

  mutual
    unfolding walk walk_all run_visits

    walk-Agrees :
        (dir : Bytes) (e : Entry Info) (sc : Scan)
        → Agrees (visits s.excluder dir e) sc (walk call directory_unread dir e sc)
    walk-Agrees dir (leaf name i) sc = leaf-Agrees (child_path dir name) i sc
    walk-Agrees dir (folder name i es) sc =
        folder-Agrees (child_path dir name) i sc (visits_all s.excluder (child_path dir name) es)
          (λ s1. walk_all call directory_unread (child_path dir name) es s1)
          (λ s1. walk_all-Agrees (child_path dir name) es s1)

    walk_all-Agrees :
        (dir : Bytes) (es : Entries Info) (sc : Scan)
        → Agrees (visits_all s.excluder dir es) sc (walk_all call directory_unread dir es sc)
    walk_all-Agrees dir unread sc = λ h. absurd cc
    walk_all-Agrees dir end sc = λ h. refl
    walk_all-Agrees dir (entry e es) sc = λ h.
        let first = walk call directory_unread dir e sc in
        let rest = λ (s1 : Scan). walk_all call directory_unread dir es s1 in
        let us = visits_all s.excluder dir es in
        continue-same first rest (λ s1. run_visits special s src us s1)
          (λ s1. walk_all-Agrees dir es s1) h
        ∙ ap (λ r. continue r (λ s1. run_visits special s src us s1))
            (walk-Agrees dir e sc (continue-none first rest h))
        ∙ sym (run_visits-append special s src (visits s.excluder dir e) us sc)

-- The entries below the root of the source
abbrev pub source_visits : Excluder → Entries Info → List Visit
source_visits ex es = visits_all ex dot es

abbrev pub none_seen : World → Scan
none_seen w = record { world = w; seen = [] }

-- Where the walk of `Reconcile` succeeds, it did exactly this: the loop over the entries of the source
-- that are not excluded, no links, and not under an excluded directory or a link, in order.
pub walk_source-run_visits :
    (cancelled : Bytes → Bool) (s : Syncer) (src : Source) (es : Entries Info) (w : World)
    → (walk_source cancelled s src (some es) w).0 ≡ none
    → walk_source cancelled s src (some es) w
      ≡ run_visits pass_over s src (source_visits s.excluder es) (none_seen w)
unfolding walk_source
walk_source-run_visits cancelled s src es w = elim (Bool-cases (cancelled dot)) [
  | inl done ↦ rw done (λ h. absurd cc)
  | inr going ↦ rw going (walk_all-Agrees pass_over s src cancelled dot es (none_seen w))
]
