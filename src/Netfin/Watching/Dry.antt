-- ===== src/Netfin/Watching/Dry.antt =====
-- A dry run: nothing that happens in the loop changes the backup or the recorded state.
use dockerset.Base.{
  ◌≡◌, refl, ap, ◌∙◌, inl, inr, Bool, true, List, [], ◌∷◌, Option, none, some, ◌===◌, Bytes,
  Bool-cases, Option-cases,
}
use dockerset.Go.Path.{clean, dot}
use dockerset.Go.Walk.{folder}
use dockerset.Go.Walk.Keeps.{walk_keeps}
use dockerset.Netfin.Excluder.{excluded}
use dockerset.Netfin.Disk.{
  SyncError, FileInfo, FileKind, directory, regular, symlink, other, Lstat, missing, unreadable,
  found, Source, directory_unread,
}
use dockerset.Netfin.Filesync.{Syncer, World, remove_backup_path, has_symlink_in_path, escapes}
use dockerset.Netfin.Filesync.Laws.{remove_known-dry, sync_rel-dry_run}
use dockerset.Netfin.Pending.{PendingEntry, collapse_pending}
use dockerset.Netfin.Walk.{Scan, visit, reconcile}
use dockerset.Netfin.Flush.{
  Trees, then_sweep, walk_tree, tree_lstat, sync_tree, flush_one, flush_from, entries_of,
  flush_pending,
}
use dockerset.Netfin.Watching.{
  Watcher, settled, on_event, on_debounce, on_reconcile, Step, watch_failed, event_received,
  timer_expired, debounce_ticked, reconcile_ticked, Reached, here, later,
}
use dockerset.Netfin.Walk.Dry.{remove_backup-dry, visit-dry, sweep-dry, reconcile-dry}

module _ (s : Syncer) (src : Source) (dry : s.dry_run ≡ true) where
  then_sweep-dry :
      (rel : Bytes) (w : World) (r : Option SyncError × Scan)
      → r.1.world ≡ w
      → (then_sweep s src rel r).1 ≡ w
  then_sweep-dry rel w (none, sc) e = sweep-dry s src dry rel sc.seen sc.world ∙ e
  then_sweep-dry rel w (some f, sc) e = e

  module _ (cancelled : Bytes → Bool) (trees : Trees) where
    walk_tree-dry : (rel : Bytes) (w : World) → (walk_tree cancelled trees s src rel w).1 ≡ w
    unfolding walk_tree
    walk_tree-dry rel w = elim (Option-cases (trees rel)) [
      | inl gone ↦ rw (gone, walk_tree) refl
      | inr (tree, e) ↦
          rw (e, walk_tree)
            (then_sweep-dry rel w _ (
              walk_keeps (visit (remove_backup_path s src) cancelled s src) directory_unread
                (λ sc. sc.world ≡ w)
                (λ path is_dir i sc same.
                  visit-dry s src dry (remove_backup_path s src) (remove_backup-dry s src dry)
                    cancelled path is_dir i sc
                  ∙ same)
                dot (folder rel tree.0 tree.1) (record { world = w; seen = [] }) refl))
    ]

    found-dry :
        (rel : Bytes) (w : World) (info : FileInfo) (kind : FileKind)
        → info.kind ≡ kind
        → (tree_lstat cancelled trees s src rel w (found info)).1 ≡ w
    found-dry rel w info directory e = rw e (walk_tree-dry rel w)
    found-dry rel w info regular e = rw e (sync_rel-dry_run s src dry w rel)
    found-dry rel w info symlink e = rw e (sync_rel-dry_run s src dry w rel)
    found-dry rel w info other e = rw e (sync_rel-dry_run s src dry w rel)

    tree_lstat-dry :
        (rel : Bytes) (w : World) (l : Lstat) → (tree_lstat cancelled trees s src rel w l).1 ≡ w
    tree_lstat-dry rel w missing = remove_known-dry s src dry w rel
    tree_lstat-dry rel w unreadable = refl
    tree_lstat-dry rel w (found info) = found-dry rel w info info.kind refl

    sync_tree-dry : (path : Bytes) (w : World) → (sync_tree cancelled trees s src path w).1 ≡ w
    unfolding sync_tree
    sync_tree-dry path w = elim (Bool-cases (path === dot)) [
      | inl root ↦ rw root refl
      | inr below ↦ elim (Bool-cases (escapes (clean path))) [
        | inl out ↦ rw (below, out) refl
        | inr inside ↦ elim (Bool-cases (excluded s.excluder (clean path))) [
          | inl skipped ↦ rw (below, inside, skipped) (remove_known-dry s src dry w (clean path))
          | inr wanted ↦ elim (Option-cases (has_symlink_in_path src (clean path))) [
            | inl unread ↦ rw (below, inside, wanted, unread) refl
            | inr (linked, e) ↦ elim (Bool-cases linked) [
              | inl outside ↦
                  rw (below, inside, wanted, e, outside) (remove_known-dry s src dry w (clean path))
              | inr plain ↦
                  rw (below, inside, wanted, e, plain)
                    (tree_lstat-dry (clean path) w (src.lstat (clean path)))
            ]
          ]
        ]
      ]
    ]

    flush_one-dry : (item : PendingEntry) (w : World) → flush_one cancelled trees s src item w ≡ w
    flush_one-dry item w = elim (Bool-cases item.tree) [
      | inl tree ↦ rw tree (sync_tree-dry item.rel w)
      | inr single ↦ rw single (sync_rel-dry_run s src dry w item.rel)
    ]

    flush_from-dry :
        (items : List PendingEntry) (w : World) → flush_from cancelled trees s src items w ≡ w
    unfolding flush_from
    flush_from-dry [] w = refl
    flush_from-dry (item ∷ items) w = elim (Bool-cases (cancelled item.rel)) [
      | inl done ↦ rw done refl
      | inr going ↦ rw going (
          ap (flush_from cancelled trees s src items) (flush_one-dry item w)
          ∙ flush_from-dry items w)
    ]

settled-dry :
    (st : Watcher) (r : Option SyncError × World × Bool)
    → r.1 ≡ st.world
    → (settled st r).world ≡ st.world
settled-dry st (e, w, b) same = same

Step-dry : {s : Syncer} {a b : Watcher} → s.dry_run ≡ true → Step s a b → b.world ≡ a.world
unfolding on_event on_debounce on_reconcile flush_pending
Step-dry dry (watch_failed st) = refl
Step-dry dry (event_received src event st) = refl
Step-dry dry (timer_expired st running) = refl
Step-dry {s = s} dry (debounce_ticked p st over) =
    flush_from-dry s p.source dry p.cancelled p.trees (collapse_pending (entries_of st.pending))
      st.world
Step-dry {s = s} dry (reconcile_ticked ws src st) =
    settled-dry st (reconcile ws s src st.reconciled st.world)
      (reconcile-dry s src dry ws st.reconciled st.world)

-- In a dry run no sequence of turns of `runWatching` changes the backup or the recorded state: whatever
-- the events, the walks and the source, and whichever of the calls fail.
pub Reached-dry_run :
    {s : Syncer} {a b : Watcher} → s.dry_run ≡ true → Reached s a b → b.world ≡ a.world
Reached-dry_run dry here = refl
Reached-dry_run dry (later r step) = Step-dry dry step ∙ Reached-dry_run dry r
