-- ===== src/Netfin/Reconcile.antt =====
-- What is removed after a walk over the source: `removeDeletedFromStateUnder` and `statePaths`
-- (netfin/internal/filesync/sync.go). `seen` are the paths of the walk.
pub mod Laws
use dockerset.Base.{
  ℕ, ◌+◌, Bool, true, false, not, ◌&&◌, ◌||◌, List, [], ◌∷◌, ◌++◌, Option, none, some, ltb, ◌==◌,
  ◌===◌, if◌then◌else◌, Bytes, length, any,
}
use dockerset.Go.Maps.{Map, get, keys}
use dockerset.Go.Path.{clean, slash, dot}
use dockerset.Netfin.Disk.{Node, SyncError, path_escapes, Source, has_path_prefix, remove_path}
use dockerset.Netfin.Filesync.{Syncer, World, escapes, forget_state_tree}
use dockerset.Netfin.Pending.{less}

abbrev pub separators : Bytes → ℕ
separators [] = 0
separators (c ∷ s) = if c == b'/' then separators s + 1 else separators s

unfoldable pub path_depth : Bytes → ℕ
unfolding ◌===◌
path_depth path = if path === dot || length path == 0 then 0 else separators path + 1

-- The order of `sort.Slice`
abbrev pub path_before : Bytes → Bytes → Bool
path_before a b =
    if path_depth a == path_depth b then less a b else ltb (path_depth a) (path_depth b)

unfoldable pub insert_path : Bytes → List Bytes → List Bytes
unfolding path_depth less
insert_path a [] = a ∷ []
insert_path a (b ∷ bs) =
    let later = insert_path a bs in if path_before a b then a ∷ b ∷ bs else b ∷ later

unfoldable pub sort_paths : List Bytes → List Bytes
unfolding insert_path
sort_paths [] = []
sort_paths (a ∷ rest) = insert_path a (sort_paths rest)

unfoldable pub state_paths : World → List Bytes
unfolding sort_paths keys
state_paths w = sort_paths (keys w.state)

unfoldable pub has_state : Bytes → World → Bool
unfolding clean
has_state rel w = elim (get (clean rel) w.state) [ none ↦ false | some st ↦ true ]

-- The path is not the root of the removal, nor under it.
unfoldable pub is_outside : Bytes → Bytes → Bool
unfolding has_path_prefix ◌===◌
is_outside root rel =
    not (root === dot) && not (rel === root) && not (has_path_prefix rel (root ++ slash))

abbrev pub is_seen : List Bytes → Bytes → Bool
is_seen seen rel = any (λ p. p === rel) seen

-- The loop over the paths
unfoldable pub remove_deleted_from :
    Syncer → Source → Bytes → List Bytes → List Bytes → World → Option SyncError × World
unfolding is_outside has_state escapes remove_path forget_state_tree any ◌===◌
remove_deleted_from s src root seen [] w = (none, w)
remove_deleted_from s src root seen (rel ∷ rels) w =
    let skipped = remove_deleted_from s src root seen rels w in
    let (e, disk) = remove_path src (clean rel) s.dry_run w.disk in
    let left = forget_state_tree s rel (record w { disk = disk }) in
    let removed = remove_deleted_from s src root seen rels left in
    if is_outside root rel
    then skipped
    else if is_seen seen rel
    then skipped
    else if not (has_state rel w)
    then skipped
    else if escapes (clean rel)
    then (some path_escapes, w)
    else elim e [ some failed ↦ (some failed, record w { disk = disk }) | none ↦ removed ]

unfoldable pub remove_deleted_from_state_under :
    Syncer → Source → Bytes → List Bytes → World → Option SyncError × World
unfolding remove_deleted_from state_paths clean
remove_deleted_from_state_under s src root seen w =
    remove_deleted_from s src (clean root) seen (state_paths w) w

-- `removeDeletedFromState`
unfoldable pub remove_deleted_from_state :
    Syncer → Source → List Bytes → World → Option SyncError × World
unfolding remove_deleted_from_state_under
remove_deleted_from_state s src seen w = remove_deleted_from_state_under s src dot seen w
