-- ===== src/Netfin/Repl/Databases.antt =====
-- The databases in a tree, in order, and which paths are among them.
use dockerset.Netfin.Repl.Content.{HasHeader, is_sqlite_database_iff}
use dockerset.Go.Glob.{tokens, glob, Token}
use dockerset.Base.{
  ◌≡◌, refl, ◌∙◌, sym, inl, inr, Bool, true, false, not, ◌&&◌, List, [], ◌∷◌, ◌++◌, Option, none,
  some, ◌===◌, if◌then◌else◌, Bytes, length, Bool-cases, ◌↔◌, ◌⊎◌, ===_iff, arith, Option-cases, In,
  In-append, append-In, ◌+◌,
}
use dockerset.Go.Path.{base, dot}
use dockerset.Go.Walk.{Entry, leaf, folder, Entries, unread, end, entry, child_path}
use dockerset.Netfin.Config.{DbConfig}
use dockerset.Netfin.Repl.{DbFile, is_sqlite_database, matched, path_in}

abbrev pub if_database : Bytes → DbFile → Option Bool → List Bytes
if_database path f none = []
if_database path f (some regular) =
    if regular && is_sqlite_database f.content then path ∷ [] else []

-- The file, where its base name matches and it is a regular file with the header of a database
abbrev pub if_matched : Bytes → DbFile → Option Bool → List Bytes
if_matched path f none = []
if_matched path f (some false) = []
if_matched path f (some true) = if_database path f f.regular

-- The databases in a tree, in the order of the walk; below the first level only where `recursive` is set.
unfoldable mutual
  pub databases : DbConfig → Bytes → Entry DbFile → List Bytes
  databases db parent (leaf name f) =
      let path = path_in db.dir (child_path parent name) in
      if_matched path f (matched db.pattern (base path))
  databases db parent (folder name f es) =
      if not db.recursive && not (child_path parent name === dot)
      then []
      else all_databases db (child_path parent name) es

  pub all_databases : DbConfig → Bytes → Entries DbFile → List Bytes
  all_databases db parent unread = []
  all_databases db parent end = []
  all_databases db parent (entry e es) = databases db parent e ++ all_databases db parent es

-- The name matches the pattern, which is well formed.
abbrev pub Matches : Bytes → Bytes → Type 0
Matches pattern name =
    (ts : List Token) × (tokens (length pattern + 1) pattern ≡ some ts) × (glob ts name ≡ true)

-- `x` is the path of a database in the tree below `parent`: a regular file whose base name matches and
-- whose content has the header.
mutual
  pub IsDatabaseAt : DbConfig → Bytes → Entry DbFile → Bytes → Type 0
  IsDatabaseAt db parent (leaf name f) x =
      (x ≡ path_in db.dir (child_path parent name))
      × Matches db.pattern (base x)
      × (f.regular ≡ some true)
      × ((content : Bytes) × (f.content ≡ some content) × HasHeader content)
  IsDatabaseAt db parent (folder name f es) x =
      ((db.recursive ≡ true) ⊎ (child_path parent name ≡ dot))
      × IsDatabaseIn db (child_path parent name) es x

  pub IsDatabaseIn : DbConfig → Bytes → Entries DbFile → Bytes → Type 0
  IsDatabaseIn db dir unread x = ⊥
  IsDatabaseIn db dir end x = ⊥
  IsDatabaseIn db dir (entry e es) x = IsDatabaseAt db dir e x ⊎ IsDatabaseIn db dir es x

matched_iff : (pattern name : Bytes) → (matched pattern name ≡ some true) ↔ Matches pattern name
unfolding matched
matched_iff pattern name = elim (Option-cases (tokens (length pattern + 1) pattern)) [
  | inl bad ↦ (
    (λ h. let no : ◌≡◌ {A = Option Bool} none (some true) = rw (bad, matched) at h in absurd cc),
    λ r. let (ts, e, h) = r in absurd cc,
  )
  | inr (ts, e) ↦ (
    (λ h.
        let found : ◌≡◌ {A = Option Bool} (some (glob ts name)) (some true) =
          rw (e, matched) at h in
        (ts, e, cc)),
    λ r.
        let (us, e1, h) = r in
        let same : us ≡ ts = cc in
        let found : glob ts name ≡ true = rw same at h in rw (e, matched) (rw found refl),
  )
]

if_database_iff :
    (path x : Bytes) (f : DbFile) (o : Option Bool)
    → In x (if_database path f o)
      ↔ ((x ≡ path) × (o ≡ some true) × (is_sqlite_database f.content ≡ true))
if_database_iff path x f none = ((λ m. elim m [ ]), λ r. let (q, e, h) = r in absurd cc)
if_database_iff path x f (some false) = ((λ m. elim m [ ]), λ r. let (q, e, h) = r in absurd cc)
if_database_iff path x f (some true) = elim (Bool-cases (is_sqlite_database f.content)) [
  | inl database ↦
      rw database
        ((λ m. elim m [ inl q ↦ (q, refl, refl) | inr nowhere ↦ absurd nowhere ]), λ r. inl r.0)
  | inr other ↦ rw other ((λ m. elim m [ ]), λ r. let (q, e, h) = r in absurd cc)
]

if_matched_iff :
    (path x : Bytes) (f : DbFile) (o : Option Bool)
    → In x (if_matched path f o) ↔ (
        (o ≡ some true)
        × (x ≡ path)
        × (f.regular ≡ some true)
        × (is_sqlite_database f.content ≡ true))
if_matched_iff path x f none = ((λ m. elim m [ ]), λ r. let (q, e, h, g) = r in absurd cc)
if_matched_iff path x f (some false) = ((λ m. elim m [ ]), λ r. let (q, e, h, g) = r in absurd cc)
if_matched_iff path x f (some true) =
    let (first, back) = if_database_iff path x f f.regular in
    (
      (λ m. let (q, regular, database) = first m in (refl, q, regular, database)),
      λ r. let (e, q, regular, database) = r in back (q, regular, database),
    )

entered_iff :
    (db : DbConfig) (dir : Bytes)
    → ((not db.recursive && not (dir === dot)) ≡ false) ↔ ((db.recursive ≡ true) ⊎ (dir ≡ dot))
entered_iff db dir = ground (arith, ===_iff dir dot)

module _ (db : DbConfig) (x : Bytes) where
  mutual
    unfolding databases IsDatabaseAt

    pub databases_iff :
        (parent : Bytes) (e : Entry DbFile)
        → In x (databases db parent e) ↔ IsDatabaseAt db parent e x
    databases_iff parent (leaf name f) =
        let path = path_in db.dir (child_path parent name) in
        let (first, back) = if_matched_iff path x f (matched db.pattern (base path)) in
        let (has, given) = is_sqlite_database_iff f.content in
        let (fits, matches) = matched_iff db.pattern (base path) in
        (
          (λ m.
              let (e, q, regular, database) = first m in (q, rw q (fits e), regular, has database)),
          λ r.
              let (q, e, regular, content) = r in
              let e1 : Matches db.pattern (base path) = rw q at e in
              back (matches e1, q, regular, given content),
        )
    databases_iff parent (folder name f es) =
        let (first, back) = all_databases_iff (child_path parent name) es in
        let (enters, opened) = entered_iff db (child_path parent name) in
        elim (Bool-cases (not db.recursive && not (child_path parent name === dot))) [
          | inl skipped ↦ rw skipped (
            (λ m. elim m [ ]),
            λ r. let no : true ≡ false = sym skipped ∙ opened r.0 in absurd cc,
          )
          | inr entered ↦ rw entered ((λ m. (enters entered, first m)), λ r. back r.1)
        ]

    all_databases_iff :
        (dir : Bytes) (es : Entries DbFile)
        → In x (all_databases db dir es) ↔ IsDatabaseIn db dir es x
    all_databases_iff dir unread = ((λ m. m), λ h. h)
    all_databases_iff dir end = ((λ m. m), λ h. h)
    all_databases_iff dir (entry e es) =
        let (first, back) = databases_iff dir e in
        let (later, back_later) = all_databases_iff dir es in
        (
          (λ m. elim (append-In x (databases db dir e) (all_databases db dir es) m) [
            | inl h ↦ inl (first h)
            | inr h ↦ inr (later h)
          ]),
          λ d. elim d [
            | inl h ↦ (In-append x (databases db dir e) (all_databases db dir es)).0 (back h)
            | inr h ↦ (In-append x (databases db dir e) (all_databases db dir es)).1 (back_later h)
          ],
        )
