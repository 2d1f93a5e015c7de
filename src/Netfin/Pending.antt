-- ===== src/Netfin/Pending.antt =====
-- The events that wait for the debounce timer: `queue`, `handleEvent` and `collapsePending`
-- (netfin/internal/filesync/sync.go).
pub mod Laws
use dockerset.Base.{
  ℕ, Bool, true, false, not, ◌&&◌, ◌||◌, List, [], ◌∷◌, ◌++◌, Option, none, some, ltb, ◌==◌, ◌===◌,
  if◌then◌else◌, Bytes, any,
}
use dockerset.Go.Maps.{Map, get, put}
use dockerset.Go.Path.{clean, dot}
use dockerset.Netfin.Disk.{
  Source, FileInfo, Lstat, missing, unreadable, found, FileKind, directory, regular, symlink, other,
  in_tree,
}
use dockerset.Netfin.Filesync.{World, PathKind, path_kind_dir, path_kind_file}

-- `pendingEntry`
pub record PendingEntry : Type 0 where
  pub rel : Bytes
  pub tree : Bool

abbrev pub flag : Option Bool → Bool
flag none = false
flag (some t) = t

unfoldable pub queue : Bytes → Bool → Map Bool → Map Bool
unfolding clean
queue path tree pending = let rel = clean path in put rel (flag (get rel pending) || tree) pending

-- `fsnotify.Event`, with what `SafeRel` gives for its name: `none` is the empty name or an error.
pub record Event : Type 0 where
  pub rel : Option Bytes
  pub create : Bool
  pub remove : Bool
  pub rename : Bool

-- `Lstat` finds a directory that is no link.
abbrev pub is_directory : Lstat → Bool
is_directory missing = false
is_directory unreadable = false
is_directory (found info) = elim info.kind [ directory ↦ true | _ ↦ false ]

abbrev pub known_directory : Bytes → World → Bool
known_directory rel w = elim (get (clean rel) w.state) [
  | none ↦ false
  | some st ↦ elim st.kind [ path_kind_dir ↦ true | path_kind_file ↦ false ]
]

-- The watches that a new directory gets are left out.
unfoldable pub handle_event : Source → World → Event → Map Bool → Map Bool
unfolding queue
handle_event src w event pending = elim event.rel [
  | none ↦ pending
  | some rel ↦
      if rel === dot
      then pending
      else if (event.create || event.rename) && is_directory (src.lstat rel)
      then queue rel true pending
      else if (event.remove || event.rename) && known_directory rel w
      then queue rel true pending
      else queue rel false pending
]

-- `<` on strings
unfoldable pub less : Bytes → Bytes → Bool
less [] [] = false
less [] (y ∷ ys) = true
less (x ∷ xs) [] = false
less (x ∷ xs) (y ∷ ys) = ltb x y || (x == y && less xs ys)

-- The order of `sort.Slice`
abbrev pub comes_before : PendingEntry → PendingEntry → Bool
comes_before a b = if a.rel === b.rel then a.tree && not b.tree else less a.rel b.rel

unfoldable pub insert : PendingEntry → List PendingEntry → List PendingEntry
unfolding less
insert a [] = a ∷ []
insert a (b ∷ bs) = let rest = insert a bs in if comes_before a b then a ∷ b ∷ bs else b ∷ rest

unfoldable pub sort : List PendingEntry → List PendingEntry
unfolding insert
sort [] = []
sort (a ∷ rest) = insert a (sort rest)

abbrev pub covers : PendingEntry → PendingEntry → Bool
covers existing item = existing.tree && in_tree existing.rel item.rel

-- The loop of `collapsePending`, with `collapsed`
unfoldable pub collapse_from : List PendingEntry → List PendingEntry → List PendingEntry
unfolding any in_tree
collapse_from collapsed [] = collapsed
collapse_from collapsed (item ∷ items) =
    let skipped = collapse_from collapsed items in
    let taken = collapse_from (collapsed ++ (item ∷ [])) items in
    if any (λ existing. covers existing item) collapsed then skipped else taken

unfoldable pub collapse_pending : List PendingEntry → List PendingEntry
unfolding collapse_from sort
collapse_pending entries = collapse_from [] (sort entries)
