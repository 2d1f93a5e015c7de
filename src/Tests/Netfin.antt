-- ===== src/Tests/Netfin.antt =====
-- netfin at a small source directory and backup.
use dockerset.Base.{
  ◌≡◌, ◌≢◌, refl, sym, inl, inr, Bool, true, false, [], ◌∷◌, arith, Bytes, List, codes, none, some,
  ◌===◌, if◌then◌else◌, Bool-cases, ===_iff, any,
}
use dockerset.Go.Text.{split, join, has_prefix, has_suffix, trim_suffix, trim_space, contains}
use dockerset.Go.Maps.{get, keys, delete_if}
use dockerset.Go.Path.{clean, dot}
use dockerset.Go.Glob.{match}
use dockerset.Netfin.Excluder.{Excluder, new_excluder, excluded}
use dockerset.Netfin.Disk.{
  dir_node, file_node, FileInfo, directory, regular, missing, found, Source, not_a_directory,
}
use dockerset.Netfin.Filesync.{
  Syncer, World, path_kind_dir, path_kind_file, sync_rel, sync_dir, has_state_tree,
  has_symlink_in_path, escapes, PathState,
}
use dockerset.Netfin.Filesync.Recorded.{IsRecorded}
use dockerset.Netfin.Filesync.Mirror.{HasFile, IsSteady}
use dockerset.Netfin.Filesync.Sync.{
  IsWithout, sync_rel-IsRecorded, sync_rel-HasFile, sync_rel-removed, sync_dir-file_in_place,
}
use dockerset.Netfin.Reconcile.{remove_deleted_from_state_under}
use dockerset.Netfin.Pending.{PendingEntry, Event, collapse_pending}

abbrev rules : Excluder
rules = new_excluder (codes "*.tmp" ∷ codes " cache/** " ∷ [])

excludes : excluded rules (codes "a/b.tmp") ≡ true
unfolding excluded new_excluder match clean ◌===◌ has_prefix join split trim_space has_suffix
    contains trim_suffix
excludes = refl

excludes_tree : excluded rules (codes "cache//x/y") ≡ true
unfolding excluded new_excluder match clean ◌===◌ has_prefix join split trim_space has_suffix
    contains trim_suffix
excludes_tree = refl

not_below : excluded rules (codes "caches") ≡ false
unfolding excluded new_excluder match clean ◌===◌ has_prefix join split trim_space has_suffix
    contains trim_suffix
not_below = refl

abbrev note : FileInfo
note = record { kind = regular; mode = 0o644; size = 2; mod_time = 7 }

abbrev source : Source
source = record {
  lstat = λ p.
      if p === codes "a"
      then found note
      else if p === codes "d"
      then found (record { kind = directory; mode = 0o755; size = 0; mod_time = 1 })
      else missing;
  content = λ p. if p === codes "a" then some (codes "hi") else none;
  fails = λ p. false;
}

abbrev syncer : Bool → Syncer
syncer dry = record { excluder = rules; dry_run = dry }

-- A file `d` of an earlier time, and `old`, which is gone from the source.
abbrev world : World
world = record {
  state =
      (codes "old", record { kind = path_kind_dir; mode = 0o755; size = 0; mod_time = 0 })
      ∷ (codes "old/x", record { kind = path_kind_file; mode = 0o644; size = 1; mod_time = 3 })
      ∷ [];
  disk =
      (codes "old", dir_node 0o755)
      ∷ (codes "old/x", file_node 0o644 3 (codes "x"))
      ∷ (codes "d", file_node 0o600 1 [])
      ∷ [];
}

world-IsRecorded : IsRecorded world
unfolding get
world-IsRecorded p st below h = elim (Bool-cases (codes "old" === p)) [
  | inl e ↦ (dir_node 0o755, rw e refl, ground arith)
  | inr e ↦ elim (Bool-cases (codes "old/x" === p)) [
    | inl f ↦ (file_node 0o644 3 (codes "x"), rw (e, f) refl, ground arith)
    | inr f ↦ absurd (ground arith)
  ]
]

abbrev a : Bytes
a = codes "a"

abbrev old : Bytes
old = codes "old"

clean-a : clean a ≡ a
unfolding clean ◌===◌ has_prefix join split
clean-a = refl

clean-old : clean old ≡ old
unfolding clean ◌===◌ has_prefix join split
clean-old = refl

a-ne-dot : a ≢ dot
a-ne-dot e = cc

old-ne-dot : old ≢ dot
old-ne-dot e = cc

a_below : clean (clean a) ≢ dot
a_below = rw (clean-a, clean-a) a-ne-dot

old_below : clean (clean old) ≢ dot
old_below = rw (clean-old, clean-old) old-ne-dot

a_seen : source.lstat (clean a) ≡ found note
unfolding ◌===◌
a_seen = rw clean-a refl

a-IsSteady :
    (info : FileInfo) → source.lstat (clean a) ≡ found info → IsSteady source (clean (clean a)) info
unfolding ◌===◌
a-IsSteady info e bytes read =
    let same : note ≡ info = cc (a_seen, e) in
    let got : some (codes "hi") ≡ some bytes = rw (clean-a, clean-a) at read in
    rw (sym same) (ground arith)

sync_rel-IsRecorded_example : IsRecorded (sync_rel (syncer false) source a world).1
sync_rel-IsRecorded_example =
    sync_rel-IsRecorded (syncer false) source world refl world-IsRecorded a a_below a-IsSteady

a_wanted : excluded rules (clean a) ≡ false
unfolding excluded new_excluder match clean ◌===◌ has_prefix join split trim_space has_suffix
    contains trim_suffix
a_wanted = refl

a_plain : has_symlink_in_path source (clean a) ≡ some false
unfolding has_symlink_in_path clean ◌===◌ has_prefix join split
a_plain = refl

copied : (sync_rel (syncer false) source a world).0 ≡ none
unfolding sync_rel excluded new_excluder match clean ◌===◌ has_prefix join split trim_space
    has_suffix contains trim_suffix get
copied = refl

sync_rel-HasFile_example :
    HasFile (clean (clean a)) note (sync_rel (syncer false) source a world).1.disk
sync_rel-HasFile_example =
    sync_rel-HasFile (syncer false) source world refl world-IsRecorded a note a_below
      (a-IsSteady note a_seen) a_seen refl a_wanted a_plain a-ne-dot copied

old_inside : escapes (clean old) ≡ false
unfolding escapes clean ◌===◌ has_prefix join split
old_inside = refl

old_wanted : excluded rules (clean old) ≡ false
unfolding excluded new_excluder match clean ◌===◌ has_prefix join split trim_space has_suffix
    contains trim_suffix
old_wanted = refl

old_plain : has_symlink_in_path source (clean old) ≡ some false
unfolding has_symlink_in_path clean ◌===◌ has_prefix join split
old_plain = refl

old_gone : source.lstat (clean old) ≡ missing
unfolding ◌===◌
old_gone = rw clean-old refl

old_known : has_state_tree (clean old) world ≡ true
unfolding has_state_tree clean ◌===◌ has_prefix join split keys
old_known = refl

sync_rel-removed_example :
    ((sync_rel (syncer false) source old world).0 ≡ none)
    × IsWithout (clean (clean old)) world (sync_rel (syncer false) source old world).1
sync_rel-removed_example =
    sync_rel-removed (syncer false) source world old refl old-ne-dot old_below old_inside old_wanted
      old_plain old_gone old_known refl

abbrev d : Bytes
d = codes "d"

d_below : clean d ≢ dot
unfolding clean ◌===◌ has_prefix join split
d_below e = cc

d_there : get (clean d) world.disk ≡ some (file_node 0o600 1 [])
unfolding get clean ◌===◌ has_prefix join split
d_there = refl

d_inside : escapes (clean d) ≡ false
unfolding escapes clean ◌===◌ has_prefix join split
d_inside = refl

sync_dir-file_in_place_example :
    sync_dir
      (syncer false)
      source
      d
      (record { kind = directory; mode = 0o755; size = 0; mod_time = 1 })
      world
    ≡ (some not_a_directory, world)
sync_dir-file_in_place_example =
    sync_dir-file_in_place (syncer false) source world refl world-IsRecorded d
      (record { kind = directory; mode = 0o755; size = 0; mod_time = 1 }) 0o600 1 [] d_below d_there
      d_inside refl

abbrev waiting : List PendingEntry
waiting =
    record { rel = codes "b/c"; tree = false }
    ∷ record { rel = codes "b"; tree = true }
    ∷ record { rel = a; tree = false }
    ∷ []

collapsed :
    collapse_pending waiting
    ≡ record { rel = a; tree = false } ∷ record { rel = codes "b"; tree = true } ∷ []
unfolding collapse_pending ◌===◌
collapsed = refl

abbrev made_d : Event
made_d = record { rel = some d; create = true; remove = false; rename = false }

abbrev old_state : PathState
old_state = record { kind = path_kind_dir; mode = 0o755; size = 0; mod_time = 0 }

clean-old_x : clean (codes "old/x") ≡ codes "old/x"
unfolding clean ◌===◌ has_prefix join split
clean-old_x = refl

clean-key : (p : Bytes) (st : PathState) → get p world.state ≡ some st → clean p ≡ p
unfolding get
clean-key p st h = elim (Bool-cases (old === p)) [
  | inl e ↦ rw (sym ((===_iff old p).0 e)) clean-old
  | inr e ↦ elim (Bool-cases (codes "old/x" === p)) [
    | inl f ↦ rw (sym ((===_iff (codes "old/x") p).0 f)) clean-old_x
    | inr f ↦ absurd (ground arith)
  ]
]

swept : (remove_deleted_from_state_under (syncer false) source dot (old ∷ []) world).0 ≡ none
unfolding remove_deleted_from_state_under get clean ◌===◌ has_prefix join split keys any
swept = refl

old_kept :
    get old (remove_deleted_from_state_under (syncer false) source dot (old ∷ []) world).1.state
    ≡ some old_state
unfolding remove_deleted_from_state_under get clean ◌===◌ has_prefix join split keys any delete_if
old_kept = refl
