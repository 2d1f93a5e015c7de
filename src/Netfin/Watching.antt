-- ===== src/Netfin/Watching.antt =====
-- `Run`, `runWatching` and `waitForDir` (netfin/internal/filesync/sync.go). What the system gives at
-- each turn is an argument; the log and the watches are left out.
pub mod Dry
pub mod Fair
use dockerset.Base.{
  ℕ, suc, ◌≡◌, Bool, true, false, List, [], ◌∷◌, Option, none, some, if◌then◌else◌, Bytes,
}
use dockerset.Go.Maps.{Map}
use dockerset.Netfin.Disk.{SyncError, Source}
use dockerset.Netfin.Filesync.{Syncer, World}
use dockerset.Netfin.Pending.{Event, handle_event}
use dockerset.Netfin.Walk.{Walks, reconcile}
use dockerset.Netfin.Flush.{Trees, flush_pending}

-- What Stat finds at the source
pub data SourceStat : Type 0 where
  source_directory not_a_directory source_missing source_unread : SourceStat

pub data Waited : Type 0 where
  ready no_directory stat_failed context_done still_waiting : Waited

-- `waitForDir`, by what each round finds, and whether `sleepContext` slept to its end
unfoldable pub wait_for_dir : List (SourceStat × Bool) → Waited
wait_for_dir [] = still_waiting
wait_for_dir ((source_directory, slept) ∷ rounds) = ready
wait_for_dir ((not_a_directory, slept) ∷ rounds) = no_directory
wait_for_dir ((source_unread, slept) ∷ rounds) = stat_failed
wait_for_dir ((source_missing, slept) ∷ rounds) =
    let later = wait_for_dir rounds in if slept then later else context_done

-- One round of the loop of `Run`. `no_watch`: the watcher or the watches of the tree cannot be made.
pub record Round : Type 0 where
  pub waits : List (SourceStat × Bool)
  pub no_watch : Bool
  pub done : Bool
  pub slept : Bool

pub data RunEnd : Type 0 where
  returned no_backup running : RunEnd

-- What follows a round's `waitForDir`; where the watches stand, the loop of `runWatching` ends with the
-- context, and `Run` with it.
abbrev pub round_end : Round → RunEnd → Waited → RunEnd
round_end r later still_waiting = running
round_end r later ready =
    if r.no_watch
    then (if r.done then returned else if r.slept then later else returned)
    else returned
round_end r later _ = returned

unfoldable pub run_rounds : List Round → RunEnd
unfolding wait_for_dir
run_rounds [] = running
run_rounds (r ∷ rs) = let later = run_rounds rs in round_end r later (wait_for_dir r.waits)

-- `made`: the directory of the backup is there or could be made.
unfoldable pub run : Syncer → Bool → List Round → RunEnd
unfolding run_rounds
run s made rounds =
    if s.dry_run then run_rounds rounds else if made then run_rounds rounds else no_backup

-- The debounce timer: stopped or read, running, or with a value in its channel
pub data Timer : Type 0 where
  idle armed ticked : Timer

pub record Watcher : Type 0 where
  pub world : World
  pub pending : Map Bool
  pub reconciled : Bool
  pub timer : Timer

-- `resetTimer`: a value in the channel is read, and the timer runs.
abbrev pub reset_timer : Timer → Timer
reset_timer timer = armed

-- What `SyncTree` and `SyncRel` have of the system in a flush
pub record Pass : Type 0 where
  pub cancelled : Bytes → Bool
  pub trees : Trees
  pub source : Source

abbrev pub settled : Watcher → Option SyncError × World × Bool → Watcher
settled st (e, w, reconciled) = record st { world = w; reconciled = reconciled }

-- The branches of the select in `runWatching`
unfoldable pub on_event : Source → Event → Watcher → Watcher
unfolding handle_event
on_event src event st = record st {
  pending = handle_event src st.world event st.pending;
  timer = reset_timer st.timer;
}

unfoldable pub on_debounce : Syncer → Pass → Watcher → Watcher
unfolding flush_pending
on_debounce s p st =
    let (w, left) = flush_pending p.cancelled p.trees s p.source st.pending st.world in
    record st { world = w; pending = left; timer = idle }

unfoldable pub on_reconcile : Syncer → Walks → Source → Watcher → Watcher
unfolding reconcile
on_reconcile s ws src st = settled st (reconcile ws s src st.reconciled st.world)

-- From the first `Reconcile` to the loop
unfoldable pub start_watching : Syncer → Walks → Source → Bool → World → Watcher
unfolding on_reconcile
start_watching s ws src reconciled w =
    on_reconcile s ws src
      (record { world = w; pending = []; reconciled = reconciled; timer = idle })

-- One turn of the loop, or the end of the time of the timer
pub data Step (s : Syncer) : Watcher → Watcher → Type 0 where
  watch_failed : (st : Watcher) → Step s st st
  event_received : (src : Source) (event : Event) (st : Watcher) → Step s st (on_event src event st)
  timer_expired : (st : Watcher) → st.timer ≡ armed → Step s st (record st { timer = ticked })
  debounce_ticked : (p : Pass) (st : Watcher) → st.timer ≡ ticked → Step s st (on_debounce s p st)
  reconcile_ticked :
      (ws : Walks) (src : Source) (st : Watcher) → Step s st (on_reconcile s ws src st)

-- The turns since the loop began
pub data Reached (s : Syncer) (start : Watcher) : Watcher → Type 0 where
  here : Reached s start start
  later : {a b : Watcher} → Reached s start a → Step s a b → Reached s start b
