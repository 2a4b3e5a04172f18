-- ===== src/Tests/Tracers.antt =====
-- pkg/tracing/tracing.go and manager.go: a tracer from its start to its stop.
use jidick.Base.{
  ℕ, zero, suc, ◌≡◌, ◌≤◌, ◌⊎◌, refl, Bool, true, false, Option, none, some, List, [], ◌∷◌, All,
}
use jidick.Tracing.Event.{
  Next, test_exit, make_context, run_tracer, EventTracing, new_tracing_event, start, stop,
  mgr_start, mgr_stop, after_round, goes_on, runs, returns, ends, breaks, sleeps, wakes, left, Go,
  go, Reach, begin, moved, started,
}
use jidick.Tracing.Event.Stop.{Ending, IsCanceled, Gos, done, after, stop-ends, stop-lost}
use jidick.Tracing.Manager.{TracingEvents, contains, not_running, mgr_tracing_event_stop_all}
use jidick.Tracing.Manager.StopAll.{IsTold, mgr_tracing_event_stop_all-not_running}

-- A tracer, from a round to the next.
abbrev tracer : Bool → Option ℕ → ℕ → List ℕ → Next → EventTracing
tracer exit cancel_ctx contexts canceled next = record {
  exit = exit;
  is_running = true;
  hit_count = 0;
  cancel_ctx = cancel_ctx;
  contexts = contexts;
  canceled = canceled;
  goroutines = next ∷ [];
}

abbrev running : EventTracing
running = tracer false (some 0) 1 [] (run_tracer 0)

was_started : Reach (tracer false none 0 [] test_exit)
unfolding new_tracing_event mgr_start start
was_started = started begin

runs_now : Reach running
runs_now = moved (moved was_started (go [] [] refl (goes_on refl))) (go [] [] refl runs)

abbrev told : EventTracing
told = tracer true (some 0) 1 (0 ∷ []) (run_tracer 0)

abbrev gone : EventTracing
gone = record {
  exit = true;
  is_running = false;
  hit_count = 1;
  cancel_ctx = some 0;
  contexts = 1;
  canceled = 0 ∷ 0 ∷ [];
  goroutines = [];
}

four_steps : Gos 4 told gone
unfolding after_round
four_steps = after (go [] [] refl returns) (
    after (go [] [] refl ends)
      (after (go [] [] refl (breaks refl)) (after (go [] [] refl left) done)))

stops : mgr_stop running ≡ some told
unfolding mgr_stop stop
stops = refl

stop-ends_example :
    (4 ≤ 4)
    × All (Ending gone.canceled) gone.goroutines
    × ((gone.goroutines ≡ []) ⊎ ((d : EventTracing) × Go gone d))
stop-ends_example = stop-ends runs_now refl (λ e. cc) stops four_steps

-- The second round, about to make its context.
abbrev between : EventTracing
between = record (tracer false (some 0) 1 (0 ∷ []) make_context) { hit_count = 1 }

second_round : Reach between
unfolding after_round
second_round =
    moved
      (moved
        (moved (moved (moved runs_now (go [] [] refl returns)) (go [] [] refl ends))
          (go [] [] refl (sleeps refl)))
        (go [] [] refl wakes))
      (go [] [] refl (goes_on refl))

stop-lost_example :
    (mgr_stop between ≡ some (record between { exit = true; canceled = 0 ∷ 0 ∷ [] }))
    × ((c'' : EventTracing) × Go (record between { exit = true; canceled = 0 ∷ 0 ∷ [] }) c''
        × (c''.goroutines ≡ run_tracer 1 ∷ [])
        × (c''.exit ≡ true)
        × ¬ IsCanceled 1 c''.canceled)
stop-lost_example = stop-lost {k = 0} second_round refl refl

-- Tracer 0 runs, 1 ended because it is not supported, and 2 runs.
abbrev tracers : TracingEvents
tracers (suc zero) = some gone
tracers name = some running

mgr_tracing_event_stop_all-not_running_example :
    (events' : TracingEvents) × (mgr_tracing_event_stop_all (0 ∷ 1 ∷ 2 ∷ []) tracers
      ≡ some (events', some not_running))
    × ((n : ℕ) → contains n (0 ∷ []) ≡ false → events' n ≡ tracers n)
    × ((n : ℕ) → contains n (0 ∷ []) ≡ true → IsTold (events' n))
mgr_tracing_event_stop_all-not_running_example =
    mgr_tracing_event_stop_all-not_running (0 ∷ []) (2 ∷ []) 1 tracers gone
      (record { tracer = running; found = refl; running = refl; ctx = 0; cancels = refl }, tt) refl
      refl refl
