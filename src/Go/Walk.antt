-- ===== src/Go/Walk.antt =====
-- filepath.WalkDir: the tree that it meets, and the order of its calls. A path is relative to the
-- root; no callback of the program returns SkipDir at a file, so there it is like no error.
pub mod Keeps
use dockerset.Base.{Bool, true, false, ◌++◌, Option, none, some, ◌===◌, if◌then◌else◌, Bytes}
use dockerset.Go.Path.{slash, dot}

-- `I` is what an entry holds; `unread` ends a directory that ReadDir cannot read (to its end).
mutual
  pub data Entry (I : Type 0) : Type 0 where
    leaf : Bytes → I → Entry I
    folder : Bytes → I → Entries I → Entry I

  pub data Entries (I : Type 0) : Type 0 where
    unread : Entries I
    end : Entries I
    entry : Entry I → Entries I → Entries I

pub data WalkStep (E : Type 0) : Type 0 where
  go_on : WalkStep E
  skip_dir : WalkStep E
  stop : E → WalkStep E

abbrev pub child_path : Bytes → Bytes → Bytes
child_path parent name = if parent === dot then name else parent ++ slash ++ name

-- What follows a call of the callback
abbrev pub enter : {E S : Type 0} → WalkStep E × S → (S → Option E × S) → Option E × S
enter (go_on, s) k = k s
enter (skip_dir, s) k = (none, s)
enter (stop e, s) k = (some e, s)

-- `if err != nil { return err }`
abbrev pub continue : {E S : Type 0} → Option E × S → (S → Option E × S) → Option E × S
continue (none, s) k = k s
continue (some e, s) k = (some e, s)

module _ {I E S : Type 0} (visit : Bytes → Bool → I → S → WalkStep E × S) (unread_error : E) where
  unfoldable mutual
    pub walk : Bytes → Entry I → S → Option E × S
    walk parent (leaf name i) s =
        enter (visit (child_path parent name) false i s) (λ s1. (none, s1))
    walk parent (folder name i es) s =
        enter (visit (child_path parent name) true i s)
          (λ s1. walk_all (child_path parent name) es s1)

    pub walk_all : Bytes → Entries I → S → Option E × S
    walk_all dir unread s = (some unread_error, s)
    walk_all dir end s = (none, s)
    walk_all dir (entry e es) s = continue (walk dir e s) (λ s1. walk_all dir es s1)
