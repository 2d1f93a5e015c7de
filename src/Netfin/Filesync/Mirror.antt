-- ===== src/Netfin/Filesync/Mirror.antt =====
-- After a successful `SyncRel` the backup holds the source's file, or nothing.

use dockerset.Base.{
  ◌≡◌, ◌≢◌, refl, ap, sym, ◌∙◌, inl, inr, true, false, Option, none, some, arith, Bool-cases,
  Option-cases, Bytes, length,
}
use dockerset.Go.Maps.{Map, get, put}
use dockerset.Go.Path.{clean, dot}
use dockerset.Netfin.Disk.{Node, dir_node, file_node, SyncError, FileInfo, Source, atomic_copy_file}
use dockerset.Netfin.Filesync.{
  Syncer, World, PathState, path_kind_file, copy_rel, same_state, remember_state, state_matches,
  file_metadata_matches, path_state_from_info, then_remember, escapes,
}
use dockerset.Netfin.Filesync.Recorded.{
  IsRecorded, Matches, CopyEnd, atomic_copy-CopyEnd, put-IsRecorded, grown-IsRecorded,
}

-- A file with the permissions, time and size of the source's
abbrev pub HasFile : Bytes → FileInfo → Map Node → Type 0
HasFile k info disk =
    (bytes : Bytes) × (get k disk ≡ some (file_node info.mode info.mod_time bytes))
    × (length bytes ≡ info.size)

abbrev file_state : FileInfo → PathState
file_state info = path_state_from_info path_kind_file info

same_state-Matches :
    (known : PathState) (info : FileInfo) (n : Node)
    → same_state known (file_state info) ≡ true
    → Matches known n
    → (bytes : Bytes) × (n ≡ file_node info.mode info.mod_time bytes) × (length bytes ≡ info.size)
unfolding path_state_from_info
same_state-Matches known info (dir_node m) same h = absurd (ground arith)
same_state-Matches known info (file_node mode mod_time bytes) same h =
    let m : mode ≡ info.mode = ground arith in
    let t : mod_time ≡ info.mod_time = ground arith in (bytes, cc (m, t), ground arith)

state_matches-HasFile :
    (rel : Bytes) (info : FileInfo) (w : World)
    → IsRecorded w
    → clean rel ≢ dot
    → state_matches rel (file_state info) w ≡ true
    → HasFile (clean rel) info w.disk
unfolding state_matches
state_matches-HasFile rel info w ok below h = elim (Option-cases (get (clean rel) w.state)) [
  | inl e ↦ absurd (ground arith)
  | inr (known, e) ↦
      let same : same_state known (file_state info) ≡ true = rw (e, state_matches) at h in
      let (n, at, m) = ok (clean rel) known below e in
      let (bytes, q, size) = same_state-Matches known info n same m in (bytes, at ∙ ap some q, size)
]

metadata-HasFile :
    (k : Bytes) (info : FileInfo) (disk : Map Node) (o : Option Node)
    → get k disk ≡ o
    → file_metadata_matches k info disk ≡ true
    → HasFile k info disk
unfolding file_metadata_matches
metadata-HasFile k info disk none e h = absurd (ground arith)
metadata-HasFile k info disk (some (dir_node m)) e h = absurd (ground arith)
metadata-HasFile k info disk (some (file_node mode mod_time bytes)) e h =
    let m : mode ≡ info.mode = ground arith in
    let t : mod_time ≡ info.mod_time = ground arith in (bytes, e ∙ cc (m, t), ground arith)

-- The end of a copy: the state stays true, and a success leaves the file.
abbrev pub Copied : Bytes → FileInfo → Option SyncError × World → Type 0
Copied k info r = IsRecorded r.1 × (r.0 ≡ none → HasFile k info r.1.disk)

remembered-Copied :
    (k : Bytes) (info : FileInfo) (w : World) (disk : Map Node)
    → IsRecorded w
    → ((p : Bytes) (m : Node) → p ≢ k → get p w.disk ≡ some m → get p disk ≡ some m)
    → HasFile k info disk
    → Copied k info (none, record { state = put k (file_state info) w.state; disk = disk })
unfolding path_state_from_info
remembered-Copied k info w disk ok kept (bytes, at, size) = (
  put-IsRecorded w k (file_state info) disk (file_node info.mode info.mod_time bytes) ok kept at
      (refl, refl, sym size, refl),
  λ h. (bytes, at, size),
)

-- The length of what is read is the size that `Lstat` saw: no one writes to the file meanwhile.
abbrev pub IsSteady : Source → Bytes → FileInfo → Type 0
IsSteady src k info = (bytes : Bytes) → src.content k ≡ some bytes → length bytes ≡ info.size

then_remember-Copied :
    (s : Syncer) (src : Source) (rel : Bytes) (info : FileInfo) (w : World)
    (r : Option SyncError × Map Node)
    → s.dry_run ≡ false
    → IsRecorded w
    → IsSteady src (clean rel) info
    → CopyEnd src (clean rel) info w.disk r
    → Copied (clean rel) info (then_remember s rel (file_state info) (r.0, record w { disk = r.1 }))
unfolding remember_state
then_remember-Copied s src rel info w (some e, disk) wet ok steady (inl (e1, q, grows)) =
    (grown-IsRecorded w disk ok grows, λ h. cc)
then_remember-Copied s src rel info w (some e, disk) wet ok steady
      (inr (bytes, q, read, at, kept)) =
    absurd cc
then_remember-Copied s src rel info w (none, disk) wet ok steady (inl (e1, q, grows)) = absurd cc
then_remember-Copied s src rel info w (none, disk) wet ok steady (inr (bytes, q, read, at, kept)) =
    rw wet (remembered-Copied (clean rel) info w disk ok kept (bytes, at, steady bytes read))

pub copy_rel-Copied :
    (s : Syncer) (src : Source) (rel : Bytes) (info : FileInfo) (w : World)
    → s.dry_run ≡ false
    → clean rel ≢ dot
    → IsRecorded w
    → IsSteady src (clean rel) info
    → Copied (clean rel) info (copy_rel s src rel info w)
unfolding copy_rel remember_state
copy_rel-Copied s src rel info w wet below ok steady =
    elim (Bool-cases (state_matches rel (file_state info) w)) [
      | inl known ↦ rw known (ok, λ h. state_matches-HasFile rel info w ok below known)
      | inr new ↦ elim (Bool-cases (escapes (clean rel))) [
        | inl out ↦ rw (new, out) (ok, λ h. cc)
        | inr inside ↦ elim (Bool-cases (file_metadata_matches (clean rel) info w.disk)) [
          | inl same ↦
              rw (new, inside, same, wet)
                (remembered-Copied (clean rel) info w w.disk ok (λ p m apart e. e)
                  (metadata-HasFile (clean rel) info w.disk (get (clean rel) w.disk) refl same))
          | inr stale ↦
              let end : CopyEnd src (clean rel) info w.disk
                  (atomic_copy_file src (clean rel) info.mode info.mod_time s.dry_run w.disk) =
                rw wet (atomic_copy-CopyEnd src (clean rel) info w.disk) in
              rw (new, inside, stale)
                (then_remember-Copied s src rel info w
                  (atomic_copy_file src (clean rel) info.mode info.mod_time s.dry_run w.disk) wet ok
                  steady end)
        ]
      ]
    ]
