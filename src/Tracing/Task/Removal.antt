-- ===== src/Tracing/Task/Removal.antt =====
-- When a task of pkg/tracing/task.go is gone, and what its goroutine does then.
use jidick.Base.{
  ℕ, ◌≡◌, refl, ap, arith, Bool, false, ◌||◌, if◌then◌else◌, Option, none, some, List, [], ◌∷◌,
}
use jidick.Tracing.Task.{
  completed, running, not_exist, TaskStorageType, Next, run_task, command, set_deadline, ended,
  Task, new_task, task_not_found, collect, finish, deliver, Step, begins, comes_back, defers,
  step_at, run_task_step, result, stop_task, Event, goroutine, collected, asked, told_to_stop,
  event, events, set_deadline_default, is_finished, is_running, db, stdout, local, other,
}

-- A task that the map does not hold, and whether it was canceled.
record IsGone (canceled : Bool) (t : Task) : Type 0 where
  pub removed : t.stored ≡ false
  pub as_before : t.canceled ≡ canceled

deliver-IsGone :
    (b : Bool) (storage : TaskStorageType) (output : List ℕ) (t : Task)
    → IsGone b t
    → IsGone b (record (deliver storage output t) { status = completed; next = set_deadline })
unfolding deliver
deliver-IsGone b db output t h = record { removed = h.removed; as_before = h.as_before }
deliver-IsGone b stdout output t h = record { removed = h.removed; as_before = h.as_before }
deliver-IsGone b local output t h = record { removed = h.removed; as_before = h.as_before }
deliver-IsGone b other output t h = record { removed = h.removed; as_before = h.as_before }

step_at-IsGone : (b : Bool) (s : Step) (n : Next) (t : Task) → IsGone b t → IsGone b (step_at s n t)
unfolding step_at finish set_deadline_default
step_at-IsGone b begins run_task t h = record { removed = h.removed; as_before = h.as_before }
step_at-IsGone b begins command t h = h
step_at-IsGone b begins set_deadline t h = h
step_at-IsGone b begins ended t h = h
step_at-IsGone b (comes_back output timed_out) run_task t h = h
step_at-IsGone b (comes_back none timed_out) command t h = record {
  removed = h.removed;
  as_before = h.as_before;
}
step_at-IsGone b (comes_back (some output) timed_out) command t h =
    deliver-IsGone b t.storage output t h
step_at-IsGone b (comes_back output timed_out) set_deadline t h = h
step_at-IsGone b (comes_back output timed_out) ended t h = h
step_at-IsGone b (defers now) run_task t h = h
step_at-IsGone b (defers now) command t h = h
step_at-IsGone b (defers now) set_deadline t h = record {
  removed = h.removed;
  as_before = h.as_before;
}
step_at-IsGone b (defers now) ended t h = h

collect-IsGone : (b : Bool) (now : ℕ) (t : Task) → IsGone b t → IsGone b (collect now t)
unfolding collect
collect-IsGone b now t h = ground (arith, h.removed, h.as_before)

asked-gone :
    (now : ℕ) (t : Task)
    → t.stored ≡ false
    → result now t
      ≡ (t, record { task_status = not_exist; task_data = []; task_err = some task_not_found })
unfolding result
asked-gone now t e =
    ap
      (λ b.
        if b
        then (
          if is_finished t.status then set_deadline_default now t else t,
          record { task_status = t.status; task_data = t.stdout_data; task_err = t.error },
        )
        else (
          t,
          record { task_status = not_exist; task_data = []; task_err = some task_not_found },
        ))
      e

stop-gone : (t : Task) → t.stored ≡ false → stop_task t ≡ (t, some task_not_found)
unfolding stop_task
stop-gone t e =
    ap
      (λ b.
        if b
        then (record t { stored = false; canceled = is_running t.status || t.canceled }, none)
        else (t, some task_not_found))
      e

asked-IsGone : (b : Bool) (now : ℕ) (t : Task) → IsGone b t → IsGone b (event (asked now) t)
asked-IsGone b now t h = rw same h
  where
    same : event (asked now) t ≡ t
    same = unfold event in ap (λ r. r.0) (asked-gone now t h.removed)

told-IsGone : (b : Bool) (t : Task) → IsGone b t → IsGone b (event told_to_stop t)
told-IsGone b t h = rw same h
  where
    same : event told_to_stop t ≡ t
    same = unfold event in ap (λ r. r.0) (stop-gone t h.removed)

event-IsGone : (b : Bool) (e : Event) (t : Task) → IsGone b t → IsGone b (event e t)
event-IsGone b (goroutine s) t h = unfold event run_task_step in step_at-IsGone b s t.next t h
event-IsGone b (collected now) t h = unfold event in collect-IsGone b now t h
event-IsGone b (asked now) t h = asked-IsGone b now t h
event-IsGone b told_to_stop t h = told-IsGone b t h

events-IsGone : (b : Bool) (es : List Event) (t : Task) → IsGone b t → IsGone b (events es t)
unfolding events
events-IsGone b [] t h = h
events-IsGone b (e ∷ es) t h = events-IsGone b es (event e t) (event-IsGone b e t h)

not_found_later :
    (later : ℕ) (es : List Event) (t : Task)
    → t.stored ≡ false
    → (result later (events es t)).1.task_status ≡ not_exist
not_found_later later es t e =
    let gone = events-IsGone t.canceled es t (record { removed = e; as_before = refl }) in
    ap (λ r. r.1.task_status) (asked-gone later (events es t) gone.removed)

-- A task that is told to stop before its goroutine begins is not canceled, whatever happens then:
-- the goroutine runs its command to the end, and no request finds the task again.
pub stop_task-pending :
    (storage : TaskStorageType) (es : List Event)
    → let t = (stop_task (new_task storage)).0 in
      ((event (goroutine begins) t).status ≡ running)
      × ((events es t).canceled ≡ false)
      × ((now : ℕ) → (result now (events es t)).1.task_status ≡ not_exist)
      × ((stop_task (events es t)).1 ≡ some task_not_found)
unfolding stop_task new_task event run_task_step step_at
stop_task-pending storage es =
    let t = (stop_task (new_task storage)).0 in
    let gone = events-IsGone false es t (record { removed = refl; as_before = refl }) in
    (
      refl,
      gone.as_before,
      λ now. not_found_later now es t refl,
      ap (λ r. r.1) (stop-gone (events es t) gone.removed),
    )

-- A task that the garbage collection finds between the end of its command and the deferred call
-- that sets its deadline is removed at once, and nobody gets its result.
collect-early :
    (storage : TaskStorageType) (output : Option (List ℕ)) (timed_out : Bool) (now later : ℕ)
    (es : List Event)
    → let begun = goroutine begins ∷ goroutine (comes_back output timed_out) ∷ [] in
      let t = events es (collect now (events begun (new_task storage))) in
      (result later t).1.task_status ≡ not_exist
unfolding events event run_task_step step_at new_task finish deliver collect
collect-early storage none timed_out now later es = not_found_later later es _ refl
collect-early db (some output) timed_out now later es = not_found_later later es _ refl
collect-early stdout (some output) timed_out now later es = not_found_later later es _ refl
collect-early local (some output) timed_out now later es = not_found_later later es _ refl
collect-early other (some output) timed_out now later es = not_found_later later es _ refl
