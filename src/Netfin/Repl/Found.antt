-- ===== src/Netfin/Repl/Found.antt =====
-- The databases that a walk finds.
use dockerset.Netfin.Repl.Databases.{
  if_database, if_matched, databases, all_databases, IsDatabaseAt, databases_iff,
}
use dockerset.Base.{
  ◌≡◌, refl, ap, ◌∙◌, sym, inl, inr, Bool, true, false, not, ◌&&◌, List, [], ◌++◌, append_assoc,
  append-nil, Option, none, some, ◌==◌, ◌===◌, Bytes, length, Bool-cases, ◌↔◌, In,
}
use dockerset.Go.Path.{base, dot}
use dockerset.Go.Walk.{
  Entry, leaf, folder, Entries, unread, end, entry, child_path, enter, continue, walk, walk_all,
}
use dockerset.Netfin.Config.{DbConfig}
use dockerset.Netfin.Repl.{
  DbFile, DiscoverError, directory_unread, is_sqlite_database, matched, path_in, found_at,
  matched_at, visit_db, discover_db_paths,
}

abbrev Adds : List Bytes → List Bytes → Option DiscoverError × List Bytes → Type 0
Adds paths more r = r.0 ≡ none → r.1 ≡ paths ++ more

abbrev gone_on : List Bytes → Option DiscoverError × List Bytes
gone_on paths = (none, paths)

found_at-Adds :
    (path : Bytes) (f : DbFile) (paths : List Bytes) (o : Option Bool)
    → Adds paths (if_database path f o) (enter (found_at path f paths o) gone_on)
found_at-Adds path f paths none = λ e. absurd cc
found_at-Adds path f paths (some regular) =
    elim (Bool-cases (regular && is_sqlite_database f.content)) [
      | inl database ↦ rw database (λ e. refl)
      | inr other ↦ rw other (λ e. sym (append-nil paths))
    ]

matched_at-Adds :
    (path : Bytes) (f : DbFile) (paths : List Bytes) (o : Option Bool)
    → Adds paths (if_matched path f o) (enter (matched_at path f paths o) gone_on)
matched_at-Adds path f paths none = λ e. absurd cc
matched_at-Adds path f paths (some false) = λ e. sym (append-nil paths)
matched_at-Adds path f paths (some true) = found_at-Adds path f paths f.regular

continue-Adds :
    (paths first rest : List Bytes) (r : Option DiscoverError × List Bytes)
    (k : List Bytes → Option DiscoverError × List Bytes)
    → Adds paths first r
    → ((ps : List Bytes) → Adds ps rest (k ps))
    → Adds paths (first ++ rest) (continue r k)
continue-Adds paths first rest (none, ps) k now later =
    λ e. later ps e ∙ ap (λ (x : List Bytes). x ++ rest) (now refl) ∙ append_assoc paths first rest
continue-Adds paths first rest (some f, ps) k now later = λ e. absurd cc

module _ (db : DbConfig) where
  mutual
    unfolding walk databases visit_db

    walk-Adds :
        (parent : Bytes) (e : Entry DbFile) (paths : List Bytes)
        → Adds paths (databases db parent e) (walk (visit_db db) directory_unread parent e paths)
    walk-Adds parent (leaf name f) paths =
        let path = path_in db.dir (child_path parent name) in
        matched_at-Adds path f paths (matched db.pattern (base path))
    walk-Adds parent (folder name f es) paths =
        elim (Bool-cases (not db.recursive && not (child_path parent name === dot))) [
          | inl skipped ↦ rw skipped (λ e. sym (append-nil paths))
          | inr entered ↦ rw entered (walk_all-Adds (child_path parent name) es paths)
        ]

    walk_all-Adds :
        (dir : Bytes) (es : Entries DbFile) (paths : List Bytes)
        → Adds paths
            (all_databases db dir es)
            (walk_all (visit_db db) directory_unread dir es paths)
    walk_all-Adds dir unread paths = λ e. absurd cc
    walk_all-Adds dir end paths = λ e. sym (append-nil paths)
    walk_all-Adds dir (entry e es) paths =
        continue-Adds paths (databases db dir e) (all_databases db dir es)
          (walk (visit_db db) directory_unread dir e paths)
          (λ ps. walk_all (visit_db db) directory_unread dir es ps) (walk-Adds dir e paths)
          (λ ps. walk_all-Adds dir es ps)

-- Where `discoverDBPaths` looks into a directory and returns without an error, it returns the
-- databases there in the order of the walk. A path is among them just where it is that of a regular
-- file in the directory, or below a subdirectory if the search is recursive, whose base name
-- matches the pattern, and whose content begins with the 16 bytes of the header of a database or is
-- the first 15 of them.
pub discover_db_paths-databases :
    (db : DbConfig) (stands : Bool) (root : Entry DbFile)
    → (length db.dir == 0) ≡ false
    → (discover_db_paths db stands (some root)).0 ≡ none
    → ((discover_db_paths db stands (some root)).1 ≡ databases db dot root)
      × ((x : Bytes)
          → In x (discover_db_paths db stands (some root)).1 ↔ IsDatabaseAt db dot root x)
unfolding discover_db_paths
discover_db_paths-databases db stands root given h =
    let adds : (discover_db_paths db stands (some root)).0 ≡ none
        → (discover_db_paths db stands (some root)).1 ≡ databases db dot root =
      rw given (walk-Adds db dot root []) in
    (adds h, λ x. rw (adds h) (databases_iff db x dot root))
