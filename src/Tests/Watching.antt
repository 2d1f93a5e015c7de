-- ===== src/Tests/Watching.antt =====
-- The loop of netfin: an event for the file `a`, the end of the timer, a flush, and turns after it.
use dockerset.Base.{
  ℕ, zero, suc, ◌≡◌, refl, ◌⊎◌, inl, inr, Bool, true, false, [], ◌∷◌, none, some, arith, Bytes,
  codes, ◌===◌, if◌then◌else◌,
}
use dockerset.Netfin.Excluder.{new_excluder}
use dockerset.Netfin.Disk.{regular, Source, missing, found}
use dockerset.Netfin.Filesync.{Syncer}
use dockerset.Netfin.Pending.{Event}
use dockerset.Netfin.Watching.{
  source_missing, not_a_directory, returned, wait_for_dir, run, idle, armed, ticked, Watcher, Pass,
  on_event, on_debounce, Step, watch_failed, event_received, timer_expired, debounce_ticked, here,
  later,
}
use dockerset.Netfin.Watching.Fair.{Execution, IsFlushed, IsFair, IsQuiet, at-IsFlushed}
use dockerset.Netfin.Watching.Dry.{Reached-dry_run}

abbrev a : Bytes
a = codes "a"

abbrev source : Source
source = record {
  lstat = λ p.
      if p === a
      then found (record { kind = regular; mode = 0o644; size = 2; mod_time = 7 })
      else missing;
  content = λ p. if p === a then some (codes "hi") else none;
  fails = λ p. false;
}

abbrev syncer : Bool → Syncer
syncer dry = record { excluder = new_excluder []; dry_run = dry }

abbrev created : Event
created = record { rel = some a; create = true; remove = false; rename = false }

abbrev started : Watcher
started = record {
  world = record { state = []; disk = [] };
  pending = [];
  reconciled = true;
  timer = idle;
}

abbrev waiting : Watcher
waiting = on_event source created started

abbrev over : Watcher
over = record waiting { timer = ticked }

abbrev pass : Pass
pass = record { cancelled = λ p. false; trees = λ p. none; source = source }

abbrev flushed : Bool → Watcher
flushed dry = on_debounce (syncer dry) pass over

timer_runs : waiting.timer ≡ armed
unfolding on_event
timer_runs = refl

abbrev at : ℕ → Watcher
at zero = started
at (suc zero) = waiting
at (suc (suc zero)) = over
at (suc (suc (suc n))) = flushed false

abbrev steps : (n : ℕ) → Step (syncer false) (at n) (at (suc n))
steps zero = event_received source created started
steps (suc zero) = timer_expired waiting timer_runs
steps (suc (suc zero)) = debounce_ticked pass over refl
steps (suc (suc (suc n))) = watch_failed (flushed false)

abbrev execution : Execution (syncer false)
execution = record { at = at; steps = steps }

fair : IsFair execution
unfolding on_debounce
fair zero = (1, omega arith, inr refl)
fair (suc zero) = (1, omega arith, inr refl)
fair (suc (suc zero)) = (2, omega arith, inr refl)
fair (suc (suc (suc n))) = (suc (suc (suc n)), omega arith, inl refl)

quiet : IsQuiet execution 1
quiet zero le = absurd (omega arith)
quiet (suc zero) le = refl
quiet (suc (suc zero)) le = refl
quiet (suc (suc (suc n))) le = refl

at-IsFlushed_example : (waiting.pending ≡ []) ⊎ IsFlushed (syncer false) execution 1
at-IsFlushed_example = at-IsFlushed (syncer false) execution 1 refl fair quiet

Reached-dry_run_example : (flushed true).world ≡ started.world
Reached-dry_run_example = Reached-dry_run {s = syncer true} refl (
    later
      (later (later here (event_received source created started))
        (timer_expired waiting timer_runs))
      (debounce_ticked pass over refl))

-- A source that is no directory ends `Run` as a cancelled context does.
no_directory_ends :
    run (syncer false) true (
      record {
        waits = (source_missing, true) ∷ (not_a_directory, true) ∷ [];
        no_watch = false;
        done = false;
        slept = true;
      }
      ∷ [])
    ≡ returned
unfolding run wait_for_dir
no_directory_ends = refl
