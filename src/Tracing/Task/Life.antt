-- ===== src/Tracing/Task/Life.antt =====
-- The states of a task of pkg/tracing/task.go.
use jidick.Base.{
  if_keeps, ◌+◌, ℕ, ◌≡◌, ◌≢◌, refl, ap, ◌∙◌, Bool, true, false, Option, none, some, List, [], ◌∷◌,
  ◌⊎◌, inl, inr, is_some, ◌||◌,
}
use jidick.Tracing.Task.{
  Status, completed, failed, pending, running, TaskStorageType, db, stdout, local, other, Next,
  run_task, command, set_deadline, ended, Task, new_task, collect, finish, deliver, Step, begins,
  comes_back, defers, run_task_step, result, stop_task, Event, goroutine, collected, asked,
  told_to_stop, event, events, TaskError, ten_minutes, is_after, step_at, set_deadline_default,
  TaskResult, is_finished, is_running,
}

-- The status that goes with what the goroutine does next.
abbrev pub Agrees : Next → Status → Type 0
Agrees run_task s = s ≡ pending
Agrees command s = s ≡ running
Agrees set_deadline s = (s ≡ completed) ⊎ (s ≡ failed)
Agrees ended s = (s ≡ completed) ⊎ (s ≡ failed)

abbrev is_failed : Status → Bool
is_failed failed = true
is_failed _ = false

-- What holds of a task at any time.
pub record IsConsistent (t : Task) : Type 0 where
  pub agrees : Agrees t.next t.status
  pub error_if_failed : is_some t.error ≡ is_failed t.status
  pub data_if_completed : t.stdout_data ≢ [] → (t.status ≡ completed) × (t.storage ≡ stdout)
  pub saved_if_completed : t.saved ≢ none → (t.status ≡ completed) × (t.storage ≡ db)

-- A command whose output goes nowhere.
completed_only :
    (t : Task)
    → t.status ≡ running
    → IsConsistent t
    → IsConsistent (record t { status = completed; next = set_deadline })
completed_only t now h = record {
  agrees = inl refl;
  error_if_failed = h.error_if_failed ∙ ap is_failed now;
  data_if_completed = λ d. absurd (cc (now, (h.data_if_completed d).0));
  saved_if_completed = λ d. absurd (cc (now, (h.saved_if_completed d).0));
}

deliver-IsConsistent :
    (output : List ℕ) (storage : TaskStorageType) (t : Task)
    → t.status ≡ running
    → t.storage ≡ storage
    → IsConsistent t
    → IsConsistent (record (deliver storage output t) { status = completed; next = set_deadline })
unfolding deliver
deliver-IsConsistent output db t now e h = record {
  agrees = inl refl;
  error_if_failed = h.error_if_failed ∙ ap is_failed now;
  data_if_completed = λ d. absurd (cc (now, (h.data_if_completed d).0));
  saved_if_completed = λ d. (refl, e);
}
deliver-IsConsistent output stdout t now e h = record {
  agrees = inl refl;
  error_if_failed = h.error_if_failed ∙ ap is_failed now;
  data_if_completed = λ d. (refl, e);
  saved_if_completed = λ d. absurd (cc (now, (h.saved_if_completed d).0));
}
deliver-IsConsistent output local t now e h = completed_only t now h
deliver-IsConsistent output other t now e h = completed_only t now h

finish-IsConsistent :
    (output : Option (List ℕ)) (timed_out : Bool) (t : Task)
    → t.next ≡ command
    → IsConsistent t
    → IsConsistent (finish output timed_out t)
unfolding finish deliver
finish-IsConsistent none timed_out t e h =
    let a = h.agrees in
    let now : t.status ≡ running = rw e at a in
    record {
      agrees = inr refl;
      error_if_failed = refl;
      data_if_completed = λ d. absurd (cc (now, (h.data_if_completed d).0));
      saved_if_completed = λ d. absurd (cc (now, (h.saved_if_completed d).0));
    }
finish-IsConsistent (some output) timed_out t e h =
    let a = h.agrees in
    let now : t.status ≡ running = rw e at a in deliver-IsConsistent output t.storage t now refl h

step_at-IsConsistent :
    (s : Step) (n : Next) (t : Task) → t.next ≡ n → IsConsistent t → IsConsistent (step_at s n t)
unfolding step_at set_deadline_default
step_at-IsConsistent begins run_task t e h =
    let a = h.agrees in
    let now : t.status ≡ pending = rw e at a in
    record {
      agrees = refl;
      error_if_failed = h.error_if_failed ∙ ap is_failed now;
      data_if_completed = λ d. absurd (cc (now, (h.data_if_completed d).0));
      saved_if_completed = λ d. absurd (cc (now, (h.saved_if_completed d).0));
    }
step_at-IsConsistent begins command t e h = h
step_at-IsConsistent begins set_deadline t e h = h
step_at-IsConsistent begins ended t e h = h
step_at-IsConsistent (comes_back output timed_out) run_task t e h = h
step_at-IsConsistent (comes_back output timed_out) command t e h =
    finish-IsConsistent output timed_out t e h
step_at-IsConsistent (comes_back output timed_out) set_deadline t e h = h
step_at-IsConsistent (comes_back output timed_out) ended t e h = h
step_at-IsConsistent (defers now) run_task t e h = h
step_at-IsConsistent (defers now) command t e h = h
step_at-IsConsistent (defers now) set_deadline t e h =
    let a = h.agrees in
    record {
      agrees = rw e at a;
      error_if_failed = h.error_if_failed;
      data_if_completed = h.data_if_completed;
      saved_if_completed = h.saved_if_completed;
    }
step_at-IsConsistent (defers now) ended t e h = h

-- The invariant looks at neither the map nor the deadline.
apart_from :
    (t : Task) (stored canceled : Bool) (deadline : Option ℕ)
    → IsConsistent t
    → IsConsistent (record t { stored = stored; canceled = canceled; deadline_time = deadline })
apart_from t stored canceled deadline h = record {
  agrees = h.agrees;
  error_if_failed = h.error_if_failed;
  data_if_completed = h.data_if_completed;
  saved_if_completed = h.saved_if_completed;
}

event-IsConsistent : (e : Event) (t : Task) → IsConsistent t → IsConsistent (event e t)
unfolding event collect result stop_task set_deadline_default run_task_step
event-IsConsistent (goroutine s) t h = step_at-IsConsistent s t.next t refl h
event-IsConsistent (collected now) t h =
    if_keeps IsConsistent (is_finished t.status) _ t
      (if_keeps IsConsistent (is_after now t.deadline_time) _ t
        (apart_from t false t.canceled t.deadline_time h) h)
      h
event-IsConsistent (asked now) t h =
    if_keeps (λ (p : Task × TaskResult). IsConsistent p.0) t.stored _ _
      (if_keeps IsConsistent (is_finished t.status) _ t
        (apart_from t t.stored t.canceled (some (now + ten_minutes)) h) h)
      h
event-IsConsistent told_to_stop t h =
    if_keeps (λ (p : Task × Option TaskError). IsConsistent p.0) t.stored _ _
      (apart_from t false (is_running t.status || t.canceled) t.deadline_time h) h

events-keep : (es : List Event) (t : Task) → IsConsistent t → IsConsistent (events es t)
unfolding events
events-keep [] t h = h
events-keep (e ∷ es) t h = events-keep es (event e t) (event-IsConsistent e t h)

-- Whatever happens to a new task, its status goes with what its goroutine does, from pending over
-- running to completed or failed; it has an error exactly when it failed, and its output is held or
-- saved only once it completed, by the storage that was asked for.
events-IsConsistent :
    (storage : TaskStorageType) (es : List Event) → IsConsistent (events es (new_task storage))
unfolding new_task
events-IsConsistent storage es = events-keep es (new_task storage) (record {
  agrees = refl;
  error_if_failed = refl;
  data_if_completed = λ d. absurd (d refl);
  saved_if_completed = λ d. absurd (d refl);
})
