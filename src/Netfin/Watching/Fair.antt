-- ===== src/Netfin/Watching/Fair.antt =====
-- What waits is flushed: the turns of the loop, where no event comes and no ready turn waits for ever.
use mathlib.Core.Path.{subst}
use dockerset.Base.{
  ℕ, zero, suc, ◌+◌, ◌-◌, ◌≤◌, ◌≡◌, refl, sym, ◌∙◌, ◌≢◌, ◌⊎◌, inl, inr, Bool, true, false, [],
  arith, Option,
}
use dockerset.Netfin.Filesync.{Syncer, World}
use dockerset.Netfin.Flush.{flush_pending}
use dockerset.Netfin.Walk.{reconcile}
use dockerset.Netfin.Disk.{SyncError}
use dockerset.Netfin.Watching.{
  Timer, idle, armed, ticked, Watcher, Pass, settled, on_event, on_debounce, on_reconcile, Step,
  watch_failed, event_received, timer_expired, debounce_ticked, reconcile_ticked,
}

-- Where entries wait, the timer runs or has ended.
abbrev pub IsArmed : Watcher → Type 0
IsArmed st = st.timer ≡ idle → st.pending ≡ []

settled-IsArmed :
    (st : Watcher) (r : Option SyncError × World × Bool) → IsArmed st → IsArmed (settled st r)
settled-IsArmed st (e, w, b) ok = ok

Step-IsArmed : {s : Syncer} {a b : Watcher} → Step s a b → IsArmed a → IsArmed b
unfolding on_event on_debounce on_reconcile flush_pending
Step-IsArmed (watch_failed st) ok = ok
Step-IsArmed (event_received src event st) ok = λ wrong. absurd cc
Step-IsArmed (timer_expired st running) ok = λ wrong. absurd cc
Step-IsArmed (debounce_ticked p st over) ok = λ e. refl
Step-IsArmed {s = s} (reconcile_ticked ws src st) ok =
    settled-IsArmed st (reconcile ws s src st.reconciled st.world) ok

-- An unending run of the loop
pub record Execution (s : Syncer) : Type 0 where
  pub at : ℕ → Watcher
  pub steps : (n : ℕ) → Step s (at n) (at (suc n))

abbrev pub is_event : {s : Syncer} {a b : Watcher} → Step s a b → Bool
is_event (watch_failed st) = false
is_event (event_received src event st) = true
is_event (timer_expired st running) = false
is_event (debounce_ticked p st over) = false
is_event (reconcile_ticked ws src st) = false

-- The turns that end the wait
abbrev pub is_progress : {s : Syncer} {a b : Watcher} → Step s a b → Bool
is_progress (watch_failed st) = false
is_progress (event_received src event st) = false
is_progress (timer_expired st running) = true
is_progress (debounce_ticked p st over) = true
is_progress (reconcile_ticked ws src st) = false

-- A timer that runs ends, and the select takes a channel that stays ready: from each turn on there is
-- one at which the timer neither runs nor has ended, or at which it ends or is read.
abbrev pub IsFair : {s : Syncer} → Execution s → Type 0
IsFair x =
    (n : ℕ) → (m : ℕ) × (n ≤ m) × (((x.at m).timer ≡ idle) ⊎ (is_progress (x.steps m) ≡ true))

abbrev pub IsQuiet : {s : Syncer} → Execution s → ℕ → Type 0
IsQuiet x n = (m : ℕ) → n ≤ m → is_event (x.steps m) ≡ false

module _ (s : Syncer) where
  -- What a turn without an event does: a flush, or nothing to what waits.
  abbrev IsFlush : Watcher → Watcher → Type 0
  IsFlush a b = (p : Pass) × (b ≡ on_debounce s p a)

  abbrev Waits : Watcher → Watcher → Type 0
  Waits a b =
      (b.pending ≡ a.pending)
      × (a.timer ≡ ticked → b.timer ≡ ticked)
      × (a.timer ≡ armed → b.timer ≢ idle)

  Step-cases : {a b : Watcher} (step : Step s a b) → is_event step ≡ false → IsFlush a b ⊎ Waits a b
  unfolding on_reconcile
  Step-cases (watch_failed st) quiet = inr (refl, (λ e. e), λ e f. absurd cc)
  Step-cases (event_received src event st) quiet = absurd cc
  Step-cases (timer_expired st running) quiet = inr (refl, (λ e. refl), λ e f. absurd cc)
  Step-cases (debounce_ticked p st over) quiet = inl (p, refl)
  Step-cases (reconcile_ticked ws src st) quiet = inr (refl, (λ e. e), λ e f. absurd cc)

  Timer-cases : (t : Timer) → (t ≡ idle) ⊎ (t ≡ armed) ⊎ (t ≡ ticked)
  Timer-cases idle = inl refl
  Timer-cases armed = inr (inl refl)
  Timer-cases ticked = inr (inr refl)

  Waits-trans : (a b c : Watcher) → Waits a b → Waits b c → Waits a c
  Waits-trans a b c (same, over, running) (same1, over1, running1) = (
    same1 ∙ same,
    (λ e. over1 (over e)),
    λ e. elim (Timer-cases b.timer) [
      | inl none_runs ↦ absurd (running e none_runs)
      | inr (inl runs) ↦ running1 runs
      | inr (inr ended) ↦ λ f. let wrong : ticked ≡ idle = sym (over1 ended) ∙ f in cc
    ],
  )

  -- The entries that wait before turn `n` are flushed at a later one.
  abbrev pub IsFlushed : Execution s → ℕ → Type 0
  IsFlushed x n =
      (m : ℕ) × (n ≤ m) × IsFlush (x.at m) (x.at (suc m)) × ((x.at m).pending ≡ (x.at n).pending)

  module _ (x : Execution s) where
    until : (n k m : ℕ) → m ≡ k + n → IsQuiet x n → IsFlushed x n ⊎ Waits (x.at n) (x.at m)
    until n zero m e quiet =
        let same : n ≡ m = omega (arith, e) in
        inr (subst (λ (i : ℕ). Waits (x.at n) (x.at i)) same (refl, (λ f. f), λ f g. absurd cc))
    until n (suc k) m e quiet =
        let same : suc (k + n) ≡ m = omega (arith, e) in
        elim (until n k (k + n) refl quiet) [
          | inl done ↦ inl done
          | inr before ↦ elim (Step-cases (x.steps (k + n)) (quiet (k + n) (omega arith))) [
            | inl now ↦ inl (k + n, omega arith, now, before.0)
            | inr still ↦ inr (
                subst (λ (i : ℕ). Waits (x.at n) (x.at i)) same
                  (Waits-trans (x.at n) (x.at (k + n)) (x.at (suc (k + n))) before still))
          ]
        ]

    progress_ticked :
        {a b : Watcher} (step : Step s a b)
        → is_progress step ≡ true
        → a.timer ≡ ticked
        → IsFlush a b
    progress_ticked (watch_failed st) moves over = absurd cc
    progress_ticked (event_received src event st) moves over = absurd cc
    progress_ticked (timer_expired st running) moves over = absurd cc
    progress_ticked (debounce_ticked p st ended) moves over = (p, refl)
    progress_ticked (reconcile_ticked ws src st) moves over = absurd cc

    progress_armed :
        {a b : Watcher} (step : Step s a b)
        → is_progress step ≡ true
        → a.timer ≡ armed
        → (b.timer ≡ ticked) × (b.pending ≡ a.pending)
    progress_armed (watch_failed st) moves running = absurd cc
    progress_armed (event_received src event st) moves running = absurd cc
    progress_armed (timer_expired st runs) moves running = (refl, refl)
    progress_armed (debounce_ticked p st ended) moves running = absurd cc
    progress_armed (reconcile_ticked ws src st) moves running = absurd cc

    shift : (n m : ℕ) → n ≤ m → (x.at m).pending ≡ (x.at n).pending → IsFlushed x m → IsFlushed x n
    shift n m le same (i, above, now, kept) = (i, omega arith, now, kept ∙ same)

    ticked-IsFlushed : (n : ℕ) → IsFair x → IsQuiet x n → (x.at n).timer ≡ ticked → IsFlushed x n
    ticked-IsFlushed n fair quiet over =
        let (m, le, turn) = fair n in
        elim (until n (m - n) m (omega arith) quiet) [
          | inl done ↦ done
          | inr (same, ends, runs) ↦ elim turn [
            | inl none_runs ↦ absurd (let wrong : ticked ≡ idle = sym (ends over) ∙ none_runs in cc)
            | inr moves ↦ (m, le, progress_ticked (x.steps m) moves (ends over), same)
          ]
        ]

    armed-IsFlushed : (n : ℕ) → IsFair x → IsQuiet x n → (x.at n).timer ≡ armed → IsFlushed x n
    armed-IsFlushed n fair quiet running =
        let (m, le, turn) = fair n in
        elim (until n (m - n) m (omega arith) quiet) [
          | inl done ↦ done
          | inr (same, ends, runs) ↦ elim (Timer-cases (x.at m).timer) [
            | inl none_runs ↦ absurd (runs running none_runs)
            | inr (inr over) ↦
                shift n m le same (ticked-IsFlushed m fair (λ i above. quiet i (omega arith)) over)
            | inr (inl still) ↦ elim turn [
              | inl none_runs ↦ absurd (runs running none_runs)
              | inr moves ↦
                  let (over, kept) = progress_armed (x.steps m) moves still in
                  shift n (suc m) (omega arith) (kept ∙ same)
                    (ticked-IsFlushed (suc m) fair (λ i above. quiet i (omega arith)) over)
            ]
          ]
        ]

    at-IsArmed : (n : ℕ) → IsArmed (x.at 0) → IsArmed (x.at n)
    at-IsArmed zero ok = ok
    at-IsArmed (suc n) ok = Step-IsArmed (x.steps n) (at-IsArmed n ok)

    -- Where a run of `runWatching` begins with nothing waiting, leaves no timer for ever unread, and meets
    -- no event from some turn on, then what waits at that turn is flushed at a later one, all of it at
    -- once, or nothing waits there.
    pub at-IsFlushed :
        (n : ℕ)
        → (x.at 0).pending ≡ []
        → IsFair x
        → IsQuiet x n
        → ((x.at n).pending ≡ []) ⊎ IsFlushed x n
    at-IsFlushed n none_waits fair quiet = elim (Timer-cases (x.at n).timer) [
      | inl stopped ↦ inl (at-IsArmed n (λ e. none_waits) stopped)
      | inr (inl running) ↦ inr (armed-IsFlushed n fair quiet running)
      | inr (inr over) ↦ inr (ticked-IsFlushed n fair quiet over)
    ]
