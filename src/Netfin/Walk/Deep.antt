-- ===== src/Netfin/Walk/Deep.antt =====
-- The first `Reconcile` of a run, which walks the backup too.

use dockerset.Base.{
  ◌≡◌, ◌≢◌, refl, ap, sym, ◌∙◌, inl, inr, true, false, List, [], ◌∷◌, map, Option, none, some,
  Bytes, All, In, any, ℕ, Bool, if◌then◌else◌,
}
use dockerset.Go.Maps.{Map, get}
use dockerset.Go.Path.{clean, dot}
use dockerset.Go.Walk.{Entries}
use dockerset.Netfin.Disk.{Node, SyncError, Source, in_tree, dir_node, file_node}
use dockerset.Netfin.Filesync.{Syncer, World, path_state_from_info, path_kind_dir, path_kind_file}
use dockerset.Netfin.Filesync.Recorded.{IsRecorded, Matches}
use dockerset.Netfin.Reconcile.{is_seen}
use dockerset.Netfin.Walk.{
  Scan, Info, walk_source, prune_from, remove_deleted_by_walking_destination, Walks,
  remove_unlisted, mark, then_remove, reconcile,
}
use dockerset.Netfin.Walk.Visits.{Visit}
use dockerset.Netfin.Walk.Listing.{source_visits, none_seen}
use dockerset.Netfin.Filesync.Mirror.{HasFile}
use dockerset.Netfin.Walk.States.{Records, state_of, AreDistinct}
use dockerset.Netfin.Walk.Recorded.{IsReady, is_backed, IsWalked, walk_source-IsWalked}
use dockerset.Netfin.Walk.Prune.{IsClosed, prune_from-Leaves}

abbrev pub path_of : Visit → Bytes
path_of v = v.path

All-map :
    (P : Bytes → Type 0) (vs : List Visit) (p : Bytes)
    → All (λ v. P v.path) vs
    → In p (map path_of vs)
    → P p
All-map P [] p h m = elim m [ ]
All-map P (v ∷ vs) p (h, hs) (inl q) = rw q h
All-map P (v ∷ vs) p (h, hs) (inr m) = All-map P vs p hs m

All-zip :
    {P Q R : Visit → Type 0} (vs : List Visit)
    → ((v : Visit) → P v → Q v → R v)
    → All P vs
    → All Q vs
    → All R vs
All-zip [] f hp hq = tt
All-zip (v ∷ vs) f hp hq = (f v hp.0 hq.0, All-zip vs f hp.1 hq.1)

All-zip3 :
    {P Q R S : Visit → Type 0} (vs : List Visit)
    → ((v : Visit) → P v → Q v → R v → S v)
    → All P vs
    → All Q vs
    → All R vs
    → All S vs
All-zip3 [] f hp hq hr = tt
All-zip3 (v ∷ vs) f hp hq hr = (f v hp.0 hq.0 hr.0, All-zip3 vs f hp.1 hq.1 hr.1)

-- A directory stands in the backup as one, and a file with the metadata of the source's.
pub IsCopied : Bool → Visit → Map Node → Type 0
IsCopied true v disk = (mode : ℕ) × (get v.path disk ≡ some (dir_node mode))
IsCopied false v disk = HasFile v.path v.info disk

Matches-IsCopied :
    (is_dir : Bool) (v : Visit) (disk : Map Node) (n : Node)
    → get v.path disk ≡ some n
    → Matches (path_state_from_info (if is_dir then path_kind_dir else path_kind_file) v.info) n
    → IsCopied is_dir v disk
unfolding IsCopied path_state_from_info
Matches-IsCopied true v disk (dir_node mode) at m = (mode, at)
Matches-IsCopied true v disk (file_node mode mod_time bytes) at m = absurd cc
Matches-IsCopied false v disk (dir_node mode) at m = absurd cc
Matches-IsCopied false v disk (file_node mode mod_time bytes) at (kind, same, size, time) =
    (bytes, at ∙ cc (same, time), sym size)

-- The backup as a mirror of the listed entries: it holds no other path, a directory of the listing
-- stands in it as one, a regular file with the permissions, size and time of the source's, both are
-- recorded as the source has them, and all that is recorded stands in it as recorded.
pub record IsMirror (vs : List Visit) (w : World) : Type 0 where
  pub only : (p : Bytes) (n : Node) → p ≢ dot → get p w.disk ≡ some n → In p (map path_of vs)
  pub backed : All (λ v. is_backed v ≡ true → Records v.path (state_of v) w) vs
  pub copied : All (λ v. is_backed v ≡ true → IsCopied v.is_dir v w.disk) vs
  pub recorded : IsRecorded w

-- The paths of the listing: cleaned, and with each path the directories above it.
pub record IsListing (vs : List Visit) : Type 0 where
  pub tidy : All (λ v. clean v.path ≡ v.path) vs
  pub distinct : AreDistinct vs
  pub closed : (p q : Bytes) → In p (map path_of vs) → in_tree q p ≡ true → In q (map path_of vs)

-- What the walk over a backup meets: every path of it, each cleaned.
pub record IsComplete (listed : Map Node → List Bytes) (disk : Map Node) : Type 0 where
  pub tidy : All (λ p. clean p ≡ p) (listed disk)
  pub every : (p : Bytes) (n : Node) → get p disk ≡ some n → In p (listed disk)

marked :
    (P : World → Type 0) (r : Option SyncError × World)
    → (r.0 ≡ none → P r.1)
    → (mark false r).0 ≡ none
    → P (mark false r).1 × ((mark false r).2 ≡ true)
marked P (none, w) good h = (good refl, refl)
marked P (some e, w) good h = absurd cc

module _ (s : Syncer) (src : Source) (vs : List Visit) (w : World) (wet : s.dry_run ≡ false)
    (listing : IsListing vs) (ready : All (IsReady src) vs) where
  seen-In :
      (sc : Scan)
      → IsWalked s src wet vs (none_seen w) sc
      → (p : Bytes) → is_seen sc.seen p ≡ true
      → In p (map path_of vs)
  unfolding any
  seen-In sc walked p h = elim (walked.seen p h) [ inl m ↦ m | inr e ↦ absurd cc ]

  walked-IsClosed : (sc : Scan) → IsWalked s src wet vs (none_seen w) sc → IsClosed sc.seen
  walked-IsClosed sc walked p q h under =
      All-map (λ r. is_seen sc.seen r ≡ true) vs q walked.listed
        (listing.closed p q (seen-In sc walked p h) under)

  pruned-IsMirror :
      (listed : Map Node → List Bytes) (sc : Scan)
      → IsComplete listed sc.world.disk
      → IsWalked s src wet vs (none_seen w) sc
      → (prune_from s src sc.seen (listed sc.world.disk) sc.world).0 ≡ none
      → IsMirror vs (prune_from s src sc.seen (listed sc.world.disk) sc.world).1
  pruned-IsMirror listed sc complete walked h =
      let left = (prune_from s src sc.seen (listed sc.world.disk) sc.world).1 in
      let (pruned, leaves) =
        prune_from-Leaves s src sc.seen wet (walked-IsClosed sc walked) (listed sc.world.disk)
          sc.world complete.tidy h in
      let recorded : IsRecorded left = λ p st below at.
        let (n, e, m) = walked.recorded p st below (pruned.state_shrinks p st at) in
        (n, pruned.together p st n at e, m) in
      let backed : All (λ v. is_backed v ≡ true → Records v.path (state_of v) left) vs =
        All-zip3 vs
          (λ v tidy record_it seen_it b.
            pruned.kept v.path seen_it ∙ ap (λ k. get k sc.world.state) (sym tidy) ∙ record_it b)
          listing.tidy walked.backed walked.listed in
      record {
        only = λ p n below at.
            seen-In sc walked p
              (leaves p n (complete.every p n (pruned.disk_shrinks p n at)) below at);
        backed = backed;
        copied =
            All-zip3 vs
              (λ v tidy record_it ready_it b.
                let (n, at, m) =
                  recorded v.path (state_of v) (λ root. ready_it.0 (tidy ∙ root)) (record_it b) in
                Matches-IsCopied v.is_dir v left.disk n at m)
              listing.tidy backed ready;
        recorded = recorded;
      }

  walking_wet :
      (listed seen : List Bytes) (w1 : World)
      → remove_deleted_by_walking_destination s src listed seen w1 ≡ prune_from s src seen listed w1
  unfolding remove_deleted_by_walking_destination
  walking_wet listed seen w1 = simp wet

  then_remove-IsMirror :
      (ws : Walks) (r : Option SyncError × Scan)
      → IsComplete ws.listed r.1.world.disk
      → (r.0 ≡ none → IsWalked s src wet vs (none_seen w) r.1)
      → (then_remove ws s src false r).0 ≡ none
      → IsMirror vs (then_remove ws s src false r).1 × ((then_remove ws s src false r).2 ≡ true)
  unfolding remove_unlisted
  then_remove-IsMirror ws (some e, sc) complete walked = λ h. absurd cc
  then_remove-IsMirror ws (none, sc) complete walked =
      rw (walking_wet (ws.listed sc.world.disk) sc.seen sc.world) (
        marked (IsMirror vs) (prune_from s src sc.seen (ws.listed sc.world.disk) sc.world)
          (pruned-IsMirror ws.listed sc complete (walked refl)))

-- The first `Reconcile` of a run that ends without an error, outside a dry run, leaves the backup
-- as a mirror of the source. It holds no path but those of the directories, files and special files
-- that are neither excluded nor links. Each such directory stands there as one, and each regular
-- file with the permissions, size and time that the source says, which is also what is recorded of
-- them; and all that is recorded stands in the backup as recorded. It is then marked as reconciled.
-- The walk over the source lists cleaned paths below the root, none twice, each with the
-- directories above it, and no one writes to a source file meanwhile. What is recorded at the start
-- stands in the backup, and the walk over the backup meets every path of it, cleaned.
pub reconcile-IsMirror :
    (ws : Walks) (s : Syncer) (src : Source) (es : Entries Info) (w : World)
    → s.dry_run ≡ false
    → ws.root ≡ some es
    → IsComplete ws.listed (walk_source ws.cancelled s src (some es) w).1.world.disk
    → IsListing (source_visits s.excluder es)
    → All (IsReady src) (source_visits s.excluder es)
    → IsRecorded w
    → (reconcile ws s src false w).0 ≡ none
    → IsMirror (source_visits s.excluder es) (reconcile ws s src false w).1
      × ((reconcile ws s src false w).2 ≡ true)
unfolding reconcile
reconcile-IsMirror ws s src es w wet root complete listing ready ok = rw root (
    then_remove-IsMirror s src (source_visits s.excluder es) w wet listing ready ws
      (walk_source ws.cancelled s src (some es) w) complete
      (λ h. walk_source-IsWalked ws.cancelled s src es w wet ready listing.distinct ok h))
