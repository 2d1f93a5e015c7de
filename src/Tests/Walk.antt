-- ===== src/Tests/Walk.antt =====
-- The first `Reconcile` of netfin, from a directory with the files `a` and `b.tmp` to a backup that
-- holds `z`.
use dockerset.Base.{
  ◌≡◌, refl, inl, inr, true, false, [], ◌∷◌, arith, Bytes, codes, none, some, ◌===◌, if◌then◌else◌,
  All, any,
}
use dockerset.Go.Text.{split, join, has_prefix, has_suffix, trim_suffix, trim_space, contains}
use dockerset.Go.Maps.{get, put, keys, In-keys, delete_if}
use dockerset.Go.Path.{clean}
use dockerset.Go.Glob.{match}
use dockerset.Go.Walk.{leaf, Entries, end, entry}
use dockerset.Netfin.Excluder.{new_excluder, excluded}
use dockerset.Netfin.Disk.{
  file_node, FileInfo, regular, missing, Source, in_tree, has_path_prefix, parents_from,
}
use dockerset.Netfin.Filesync.{Syncer, World, copy_rel}
use dockerset.Netfin.Filesync.Recorded.{IsRecorded}
use dockerset.Netfin.Filesync.Mirror.{IsSteady}
use dockerset.Netfin.Walk.{Info, Walks, walk_source, reconcile}
use dockerset.Netfin.Walk.Listing.{source_visits}
use dockerset.Netfin.Walk.Recorded.{IsReady}
use dockerset.Netfin.Walk.Deep.{IsMirror, IsListing, IsComplete, reconcile-IsMirror}

abbrev note : FileInfo
note = record { kind = regular; mode = 0o644; size = 2; mod_time = 7 }

abbrev a : Bytes
a = codes "a"

abbrev z : Bytes
z = codes "z"

abbrev source : Source
source = record {
  lstat = λ p. missing;
  content = λ p. if p === a then some (codes "hi") else none;
  fails = λ p. false;
}

abbrev entries : Entries Info
entries = entry (leaf a (some note)) (entry (leaf (codes "b.tmp") (some note)) end)

abbrev syncer : Syncer
syncer = record { excluder = new_excluder (codes "*.tmp" ∷ []); dry_run = false }

abbrev world : World
world = record { state = []; disk = (z, file_node 0o600 1 []) ∷ [] }

abbrev walks : Walks
walks = record { cancelled = λ p. false; root = some entries; listed = keys }

visited :
    source_visits syncer.excluder entries ≡ record { path = a; is_dir = false; info = note } ∷ []
unfolding excluded new_excluder match clean ◌===◌ has_prefix join split trim_space has_suffix
    contains trim_suffix
visited = refl

walked : (walk_source (λ p. false) syncer source (some entries) world).0 ≡ none
unfolding walk_source excluded new_excluder match clean ◌===◌ has_prefix join split trim_space
    has_suffix contains trim_suffix get copy_rel parents_from
walked = refl

walked_disk :
    (walk_source (λ p. false) syncer source (some entries) world).1.world.disk
    ≡ (z, file_node 0o600 1 []) ∷ (a, file_node 0o644 7 (codes "hi")) ∷ []
unfolding walk_source excluded new_excluder match clean ◌===◌ has_prefix join split trim_space
    has_suffix contains trim_suffix get put copy_rel parents_from
walked_disk = refl

clean-a : clean a ≡ a
unfolding clean ◌===◌ has_prefix join split
clean-a = refl

clean-z : clean z ≡ z
unfolding clean ◌===◌ has_prefix join split
clean-z = refl

met : IsComplete keys (walk_source (λ p. false) syncer source (some entries) world).1.world.disk
unfolding keys
met = rw walked_disk (record {
  tidy = (clean-z, (clean-a, tt));
  every =
      λ p n h. In-keys p ((z, file_node 0o600 1 []) ∷ (a, file_node 0o644 7 (codes "hi")) ∷ []) n h;
})

-- Nothing but itself lies above a path of one byte other than `/`.
above_one : (q : Bytes) → in_tree q a ≡ true → q ≡ a
unfolding in_tree has_path_prefix ◌===◌
above_one [] h = absurd (ground arith)
above_one (c ∷ []) h = ground arith
above_one (c ∷ d ∷ q) h = absurd (ground arith)

listing : IsListing (source_visits syncer.excluder entries)
listing = rw visited (record {
  tidy = (clean-a, tt);
  distinct = (tt, tt);
  closed = λ p q m h. elim m [ inl e ↦ inl (above_one q (rw e at h)) | inr rest ↦ elim rest [ ] ];
})

a-IsSteady : IsSteady source (clean a) note
unfolding ◌===◌
a-IsSteady bytes read =
    let got : some (codes "hi") ≡ some bytes = rw clean-a at read in ground arith

ready : All (IsReady source) (source_visits syncer.excluder entries)
ready = rw visited (((λ e. cc (clean-a, e)), a-IsSteady), tt)

world-IsRecorded : IsRecorded world
unfolding get
world-IsRecorded p st below h = absurd cc

done : (reconcile walks syncer source false world).0 ≡ none
unfolding reconcile excluded new_excluder match clean ◌===◌ has_prefix join split trim_space
    has_suffix contains trim_suffix get put keys delete_if any copy_rel parents_from
done = refl

reconcile-IsMirror_example :
    IsMirror (source_visits syncer.excluder entries) (reconcile walks syncer source false world).1
    × ((reconcile walks syncer source false world).2 ≡ true)
reconcile-IsMirror_example =
    reconcile-IsMirror walks syncer source entries world refl refl met listing ready
      world-IsRecorded done
