-- ===== src/Netfin/Pending/Laws.antt =====
-- No event that waits is lost.
use dockerset.Base.{
  ◌≡◌, ◌≢◌, refl, ap, ◌∙◌, ◌⊎◌, inl, inr, Bool, true, false, ◌&&◌, ◌||◌, List, [], ◌∷◌, ◌++◌, some,
  arith, ◌===◌, ===_iff, if◌then◌else◌, Bool-cases, Bytes, In, any,
}
use dockerset.Go.Maps.{Map, get, get-put}
use dockerset.Go.Path.{clean, dot}
use dockerset.Netfin.Disk.{Source}
use dockerset.Netfin.Filesync.{World}
use dockerset.Netfin.Pending.{
  PendingEntry, flag, queue, Event, handle_event, is_directory, known_directory, covers,
}

-- Each entry is kept, or an entry that is kept covers it.
abbrev Covered : PendingEntry → List PendingEntry → Type 0
Covered x kept = In x kept ⊎ ((e : PendingEntry) × In e kept × (covers e x ≡ true))

-- No entry is covered by one before it.
abbrev pub Clear : List PendingEntry → List PendingEntry → Type 0
Clear before [] = Unit
Clear before (x ∷ xs) = (any (λ e. covers e x) before ≡ false) × Clear (before ++ (x ∷ [])) xs

-- What the flush works through: only entries that were pending; each pending entry, or a tree that
-- holds its path; and no entry that a tree before it covers.
pub record IsCollapsed (entries kept : List PendingEntry) : Type 0 where
  pub pending : (x : PendingEntry) → In x kept → In x entries
  pub covered :
      (x : PendingEntry)
      → In x entries
      → In x kept ⊎ ((e : PendingEntry) × In e kept × (covers e x ≡ true))
  pub clear : Clear [] kept

get-queue :
    (path j : Bytes) (t : Bool) (m : Map Bool)
    → get j (queue path t m)
      ≡ (if clean path === j then some (flag (get (clean path) m) || t) else get j m)
unfolding queue
get-queue path j t m = get-put (clean path) j (flag (get (clean path) m) || t) m

-- A path that waits still waits, as a tree if it did.
abbrev Keeps : Map Bool → Map Bool → Type 0
Keeps m m' =
    (j : Bytes) (t : Bool)
    → get j m ≡ some t
    → (u : Bool) × (get j m' ≡ some u) × (t ≡ true → u ≡ true)

queue-Keeps : (path : Bytes) (t : Bool) (m : Map Bool) → Keeps m (queue path t m)
queue-Keeps path t m j f h = elim (Bool-cases (clean path === j)) [
  | inr e ↦ (f, get-queue path j t m ∙ rw (e, h) refl, λ g. g)
  | inl e ↦
      let same : clean path ≡ j = (===_iff (clean path) j).0 e in
      let at : get (clean path) m ≡ some f = ap (λ k. get k m) same ∙ h in
      (f || t, get-queue path j t m ∙ rw (e, at) refl, λ g. rw g refl)
]

queue_here :
    (path : Bytes) (t : Bool) (m : Map Bool)
    → (u : Bool) × (get (clean path) (queue path t m) ≡ some u) × (t ≡ true → u ≡ true)
queue_here path t m =
    let here : (clean path === clean path) ≡ true = (===_iff (clean path) (clean path)).1 refl in
    (
      flag (get (clean path) m) || t,
      get-queue path (clean path) t m ∙ rw here refl,
      λ g. rw g (ground arith),
    )

-- An event below the root leaves its path waiting, as a tree if a directory was made there; and
-- every path that waited before waits still, as a tree if it did.
pub handle_event-queued :
    (src : Source) (w : World) (event : Event) (rel : Bytes) (pending : Map Bool)
    → event.rel ≡ some rel
    → rel ≢ dot
    → ((t : Bool) × (get (clean rel) (handle_event src w event pending) ≡ some t)
        × (event.create ≡ true → is_directory (src.lstat rel) ≡ true → t ≡ true))
      × ((j : Bytes) (t : Bool)
          → get j pending ≡ some t
          → (u : Bool) × (get j (handle_event src w event pending) ≡ some u)
            × (t ≡ true → u ≡ true))
unfolding handle_event
handle_event-queued src w event rel pending named below =
    let top : (rel === dot) ≡ false = ground (arith, ===_iff rel dot) in
    let (t1, at1, sure) = queue_here rel true pending in
    let (t0, at0, _) = queue_here rel false pending in
    elim (Bool-cases ((event.create || event.rename) && is_directory (src.lstat rel))) [
      | inl made ↦ rw (named, top, made) ((t1, at1, λ c d. sure refl), queue-Keeps rel true pending)
      | inr old ↦
          let unmade : event.create ≡ true → is_directory (src.lstat rel) ≡ true → t0 ≡ true =
            λ c d. absurd (ground (arith, old, c, d)) in
          let unmade1 : event.create ≡ true → is_directory (src.lstat rel) ≡ true → t1 ≡ true =
            λ c d. sure refl in
          elim (Bool-cases ((event.remove || event.rename) && known_directory rel w)) [
            | inl gone ↦
                rw (named, top, old, gone) ((t1, at1, unmade1), queue-Keeps rel true pending)
            | inr plain ↦
                rw (named, top, old, plain) ((t0, at0, unmade), queue-Keeps rel false pending)
          ]
    ]
