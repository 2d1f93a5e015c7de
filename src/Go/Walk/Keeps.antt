-- ===== src/Go/Walk/Keeps.antt =====
-- What each call of the callback keeps, the walk keeps.
use dockerset.Base.{Bool, true, false, Option, none, some, Bytes}
use dockerset.Go.Walk.{
  Entry, leaf, folder, Entries, unread, end, entry, WalkStep, go_on, skip_dir, stop, child_path,
  enter, continue, walk, walk_all,
}

module _ {I E S : Type 0} (visit : Bytes → Bool → I → S → WalkStep E × S) (unread_error : E)
    (P : S → Type 0)
    (keeps : (path : Bytes) (is_dir : Bool) (i : I) (s : S)
      → P s
      → P (visit path is_dir i s).1) where
  enter_keeps :
      (r : WalkStep E × S) (k : S → Option E × S)
      → P r.1
      → ((s : S) → P s → P (k s).1)
      → P (enter r k).1
  enter_keeps (go_on, s) k ok go = go s ok
  enter_keeps (skip_dir, s) k ok go = ok
  enter_keeps (stop e, s) k ok go = ok

  continue_keeps :
      (r : Option E × S) (k : S → Option E × S)
      → P r.1
      → ((s : S) → P s → P (k s).1)
      → P (continue r k).1
  continue_keeps (none, s) k ok go = go s ok
  continue_keeps (some e, s) k ok go = ok

  mutual
    unfolding walk

    pub walk_keeps :
        (parent : Bytes) (e : Entry I) (s : S) → P s → P (walk visit unread_error parent e s).1
    walk_keeps parent (leaf name i) s ok =
        enter_keeps (visit (child_path parent name) false i s) _
          (keeps (child_path parent name) false i s ok) (λ s1 ok1. ok1)
    walk_keeps parent (folder name i es) s ok =
        enter_keeps (visit (child_path parent name) true i s) _
          (keeps (child_path parent name) true i s ok)
          (λ s1 ok1. walk_all_keeps (child_path parent name) es s1 ok1)

    pub walk_all_keeps :
        (dir : Bytes) (es : Entries I) (s : S) → P s → P (walk_all visit unread_error dir es s).1
    walk_all_keeps dir unread s ok = ok
    walk_all_keeps dir end s ok = ok
    walk_all_keeps dir (entry e es) s ok =
        continue_keeps (walk visit unread_error dir e s) _ (walk_keeps dir e s ok)
          (λ s1 ok1. walk_all_keeps dir es s1 ok1)
