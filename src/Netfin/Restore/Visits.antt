-- ===== src/Netfin/Restore/Visits.antt =====
-- What each call of the callback of the restore leaves in the target.
use mathlib.Core.Path.{subst}
use dockerset.Base.{
  ℕ, ◌≡◌, refl, ◌∙◌, sym, inl, inr, Bool, true, false, arith, Option, none, some, ◌===◌, ===_iff,
  Bytes, Bool-cases,
}
use dockerset.Go.Maps.{Map, get}
use dockerset.Go.Path.{clean, dot}
use dockerset.Go.Walk.{
  Entry, leaf, folder, Entries, unread, end, entry, WalkStep, go_on, skip_dir, stop, child_path,
}
use dockerset.Netfin.Disk.{
  Node, file_node, SyncError, FileInfo, FileKind, directory, regular, symlink, other, Source, found,
  mkdir_all, atomic_copy_file,
}
use dockerset.Netfin.Disk.Laws.{Grows}
use dockerset.Netfin.Filesync.{escapes}
use dockerset.Netfin.Filesync.Recorded.{CopyEnd, atomic_copy-CopyEnd, mkdir_all-Grows}
use dockerset.Netfin.Walk.{Info}
use dockerset.Netfin.Restore.{
  settle_disk, made_dir, restore_at, is_link, restore_info, restore_visit,
}

-- The target has the file of the backup at a path, with its permissions, time and content.
abbrev pub HoldsFile : Source → Bytes → Map Node → Type 0
HoldsFile src k disk =
    (info : FileInfo) × (bytes : Bytes) × (src.lstat k ≡ found info)
    × (src.content k ≡ some bytes)
    × (get k disk ≡ some (file_node info.mode info.mod_time bytes))

abbrev pub IsSame : Source → Bytes → Info → Type 0
IsSame src path none = Unit
IsSame src path (some info) = info.kind ≡ regular → src.lstat (clean path) ≡ found info

abbrev pub IsPut : Source → Bytes → Info → Map Node → Type 0
IsPut src path none disk = Unit
IsPut src path (some info) disk =
    info.kind ≡ regular → (path === dot) ≡ false → HoldsFile src (clean path) disk

-- `AreSame`: what the walk knows of a regular file is what Lstat finds at its path. `ArePut`: each
-- regular file of the tree is in the target.
unfoldable mutual
  pub AreSame : Source → Bytes → Entry Info → Type 0
  AreSame src parent (leaf name i) = IsSame src (child_path parent name) i
  AreSame src parent (folder name i es) = AllSame src (child_path parent name) es

  pub AllSame : Source → Bytes → Entries Info → Type 0
  AllSame src dir unread = Unit
  AllSame src dir end = Unit
  AllSame src dir (entry e es) = AreSame src dir e × AllSame src dir es

unfoldable mutual
  pub ArePut : Source → Bytes → Entry Info → Map Node → Type 0
  ArePut src parent (leaf name i) disk = IsPut src (child_path parent name) i disk
  ArePut src parent (folder name i es) disk = AllPut src (child_path parent name) es disk

  pub AllPut : Source → Bytes → Entries Info → Map Node → Type 0
  AllPut src dir unread disk = Unit
  AllPut src dir end disk = Unit
  AllPut src dir (entry e es) disk = ArePut src dir e disk × AllPut src dir es disk

module _ (src : Source) where
  abbrev pub Keeps : Map Node → Map Node → Type 0
  Keeps d d1 = (k : Bytes) → HoldsFile src k d → HoldsFile src k d1

  Grows-Keeps : (d d1 : Map Node) → Grows d d1 → Keeps d d1
  Grows-Keeps d d1 grows k (info, bytes, at, read, there) =
      (info, bytes, at, read, grows k (file_node info.mode info.mod_time bytes) there)

  IsPut-kept :
      (path : Bytes) (i : Info) (d d1 : Map Node)
      → Keeps d d1
      → IsPut src path i d
      → IsPut src path i d1
  IsPut-kept path none d d1 keeps put = put
  IsPut-kept path (some info) d d1 keeps put = λ kind below. keeps (clean path) (put kind below)

  mutual
    unfolding ArePut

    pub ArePut-kept :
        (parent : Bytes) (e : Entry Info) (d d1 : Map Node)
        → Keeps d d1
        → ArePut src parent e d
        → ArePut src parent e d1
    ArePut-kept parent (leaf name i) d d1 keeps put =
        IsPut-kept (child_path parent name) i d d1 keeps put
    ArePut-kept parent (folder name i es) d d1 keeps put =
        AllPut-kept (child_path parent name) es d d1 keeps put

    AllPut-kept :
        (dir : Bytes) (es : Entries Info) (d d1 : Map Node)
        → Keeps d d1
        → AllPut src dir es d
        → AllPut src dir es d1
    AllPut-kept dir unread d d1 keeps put = tt
    AllPut-kept dir end d d1 keeps put = tt
    AllPut-kept dir (entry e es) d d1 keeps (first, rest) =
        (ArePut-kept dir e d d1 keeps first, AllPut-kept dir es d d1 keeps rest)

  -- How a call for a file or directory that goes on leaves the target
  abbrev Puts : Bytes → Bool → FileInfo → Map Node → Option SyncError × Map Node → Type 0
  Puts k is_dir info d r =
      r.0 ≡ none → Keeps d r.1 × (is_dir ≡ false → info.kind ≡ regular → HoldsFile src k r.1)

  copied-Puts :
      (k : Bytes) (info : FileInfo) (d : Map Node) (r : Option SyncError × Map Node)
      → src.lstat k ≡ found info
      → CopyEnd src k info d r
      → Puts k false info d r
  copied-Puts k info d r same (inl (e, failed, grows)) =
      λ done. absurd (let wrong : some e ≡ none = sym failed ∙ done in cc)
  copied-Puts k info d r same (inr (bytes, done, read, there, kept)) = λ e.
      let here : HoldsFile src k r.1 = (info, bytes, same, read, there) in
      (
        (λ p h. elim (Bool-cases (p === k)) [
          | inl at ↦ subst (λ (x : Bytes). HoldsFile src x r.1) (sym ((===_iff p k).0 at)) here
          | inr apart ↦
              let (info1, bytes1, at, read1, there1) = h in
              (
                info1,
                bytes1,
                at,
                read1,
                kept p (file_node info1.mode info1.mod_time bytes1)
                    (λ q. let wrong : (p === k) ≡ true = (===_iff p k).1 q in cc) there1,
              )
        ]),
        λ f g. here,
      )

  made_dir-Puts :
      (k : Bytes) (info : FileInfo) (d : Map Node) (o : Option (Map Node))
      → ((made : Map Node) → o ≡ some made → Grows d made)
      → Puts k true info d (made_dir d o)
  made_dir-Puts k info d none grows = λ e. absurd cc
  made_dir-Puts k info d (some made) grows =
      λ e. (Grows-Keeps d made (grows made refl), λ f. absurd cc)

  made-Grows :
      (k : Bytes) (mode : ℕ) (d made : Map Node) → mkdir_all k mode d ≡ some made → Grows d made
  unfolding mkdir_all
  made-Grows k mode d made h = elim (Bool-cases (k === dot)) [
    | inl top ↦
        let same : some d ≡ some made = rw top at h in
        let named : d ≡ made = cc in subst (λ (x : Map Node). Grows d x) named (λ p n e. e)
    | inr below ↦
        (mkdir_all-Grows k mode d made
          (λ q. let wrong : (k === dot) ≡ true = (===_iff k dot).1 q in cc) h).0
  ]

  restore_at-Puts :
      (k : Bytes) (is_dir : Bool) (info : FileInfo) (kind : FileKind) (d : Map Node)
      → info.kind ≡ kind
      → (is_dir ≡ false → info.kind ≡ regular → src.lstat k ≡ found info)
      → Puts k is_dir info d (restore_at src false k is_dir info d)
  unfolding restore_at
  restore_at-Puts k true info kind d e same = elim (Bool-cases (src.fails k)) [
    | inl bad ↦ rw bad (λ f. absurd cc)
    | inr good ↦ rw good (
        made_dir-Puts k info d (mkdir_all k info.mode d)
          (λ made at. made-Grows k info.mode d made at))
  ]
  restore_at-Puts k false info regular d e same =
      rw (e, restore_at)
        (λ f.
          let (keeps, put) =
            copied-Puts k info d (atomic_copy_file src k info.mode info.mod_time false d)
              (same refl e) (atomic_copy-CopyEnd src k info d) f in
          (keeps, λ g kind. put g e))
  restore_at-Puts k false info directory d e same =
      rw (e, restore_at) (λ f. ((λ p h. h), λ g kind. absurd cc))
  restore_at-Puts k false info symlink d e same =
      rw (e, restore_at) (λ f. ((λ p h. h), λ g kind. absurd cc))
  restore_at-Puts k false info other d e same =
      rw (e, restore_at) (λ f. ((λ p h. h), λ g kind. absurd cc))

  top-IsPut : (path : Bytes) (i : Info) (d : Map Node) → (path === dot) ≡ true → IsPut src path i d
  top-IsPut path none d top = tt
  top-IsPut path (some info) d top =
      λ kind below. absurd (let wrong : true ≡ false = sym top ∙ below in cc)

  -- A call of the callback stops the walk, or goes on with what it should have left.
  abbrev pub Ends : Bytes → Bool → Info → Map Node → WalkStep SyncError × Map Node → Type 0
  Ends path is_dir i d (go_on, d1) = Keeps d d1 × (is_dir ≡ false → IsPut src path i d1)
  Ends path is_dir i d (skip_dir, d1) = ⊥
  Ends path is_dir i d (stop e, d1) = Unit

  settle_disk-Ends :
      (path : Bytes) (is_dir : Bool) (info : FileInfo) (d : Map Node)
      (r : Option SyncError × Map Node)
      → Puts (clean path) is_dir info d r
      → Ends path is_dir (some info) d (settle_disk r)
  settle_disk-Ends path is_dir info d (some e, d1) puts = tt
  settle_disk-Ends path is_dir info d (none, d1) puts =
      let (keeps, put) = puts refl in (keeps, λ f kind below. put f kind)

  restore_info-Ends :
      (path : Bytes) (is_dir : Bool) (i : Info) (d : Map Node)
      → (is_dir ≡ false → IsSame src path i)
      → Ends path is_dir i d (restore_info src false path is_dir i d)
  restore_info-Ends path is_dir none d same = tt
  restore_info-Ends path is_dir (some info) d same = elim (Bool-cases (is_link info)) [
    | inl link ↦ rw link ((λ p h. h), λ f kind below. absurd (ground (arith, kind, link)))
    | inr plain ↦ elim (Bool-cases (escapes (clean path))) [
      | inl out ↦ rw (plain, out) tt
      | inr inside ↦
          rw (plain, inside)
            (settle_disk-Ends path is_dir info d (restore_at src false (clean path) is_dir info d)
              (restore_at-Puts (clean path) is_dir info info.kind d refl same))
    ]
  ]

  pub restore_visit-Ends :
      (cancelled : Bytes → Bool) (path : Bytes) (is_dir : Bool) (i : Info) (d : Map Node)
      → (is_dir ≡ false → IsSame src path i)
      → Ends path is_dir i d (restore_visit cancelled src false path is_dir i d)
  unfolding restore_visit
  restore_visit-Ends cancelled path is_dir i d same = elim (Bool-cases (cancelled path)) [
    | inl done ↦ rw done tt
    | inr going ↦ elim (Bool-cases (path === dot)) [
      | inl top ↦ rw (going, top) ((λ p h. h), λ f. top-IsPut path i d top)
      | inr below ↦ rw (going, below) (restore_info-Ends path is_dir i d same)
    ]
  ]
