-- ===== src/Tests/Tasks.antt =====
-- pkg/tracing/task.go: the lives of two tasks.
use jidick.Base.{ℕ, ◌*◌, ◌≡◌, arith, false, none, some, List, [], ◌∷◌, nsec_per_sec}
use jidick.Tracing.Task.{
  stdout, db, completed, running, not_exist, task_not_found, new_task, begins, comes_back,
  goroutine, collected, asked, event, events, result, stop_task, Event,
}
use jidick.Tracing.Task.Removal.{stop_task-pending}
use jidick.Tracing.Task.Kept.{life, results-kept}

-- Asked for after nine minutes, and found a quarter of an hour after the end.
abbrev patient : List Event
patient =
    collected (160 * nsec_per_sec)
    ∷ asked (640 * nsec_per_sec)
    ∷ collected (1000 * nsec_per_sec)
    ∷ []

results-kept_example :
    (result (1000 * nsec_per_sec) (
      events patient
        (events (life (some (42 ∷ [])) false (100 * nsec_per_sec)) (new_task stdout)))).1
    ≡ record { task_status = completed; task_data = 42 ∷ []; task_err = none }
results-kept_example =
    results-kept stdout (some (42 ∷ [])) false (100 * nsec_per_sec) (1000 * nsec_per_sec) patient
      (omega arith, (omega arith, tt))

-- The command of a task that was told to stop at once.
abbrev unseen : List Event
unseen = goroutine begins ∷ goroutine (comes_back (some (42 ∷ [])) false) ∷ []

stop_task-pending_example :
    let t = (stop_task (new_task db)).0 in
    ((event (goroutine begins) t).status ≡ running)
    × ((events unseen t).canceled ≡ false)
    × ((now : ℕ) → (result now (events unseen t)).1.task_status ≡ not_exist)
    × ((stop_task (events unseen t)).1 ≡ some task_not_found)
stop_task-pending_example = stop_task-pending db unseen
