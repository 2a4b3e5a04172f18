-- ===== src/Tracing/Task/Kept.antt =====
-- How long pkg/tracing/task.go keeps the result of a task.
use jidick.Base.{
  ℕ, ◌+◌, ◌≤◌, ◌≡◌, refl, ap, ◌∙◌, arith, Bool, true, false, ltb, if◌then◌else◌, Option, none, some,
  List, [], ◌∷◌,
}
use jidick.Tracing.Task.{
  completed, failed, not_exist, TaskStorageType, Next, run_task, command, set_deadline, ended, Task,
  new_task, task_not_found, task_timeout, cmd_error, TaskResult, collect, finish, deliver, Step,
  begins, comes_back, defers, step_at, run_task_step, result, Event, goroutine, collected, asked,
  told_to_stop, event, events, set_deadline_default, is_finished, is_after, ten_minutes, db, stdout,
  local, other,
}

-- Requests and collections that come no later than ten minutes after the last of the deadline's
-- settings; no request to stop.
abbrev pub Prompt : ℕ → List Event → Type 0
Prompt deadline [] = Unit
Prompt deadline (goroutine s ∷ es) = Prompt deadline es
Prompt deadline (collected now ∷ es) = (now ≤ deadline) × Prompt deadline es
Prompt deadline (asked now ∷ es) = Prompt (now + ten_minutes) es
Prompt deadline (told_to_stop ∷ es) = ⊥

-- A finished task that the map holds, with its result.
record Holds (deadline : ℕ) (r : TaskResult) (t : Task) : Type 0 where
  pub held : t.stored ≡ true
  pub done : is_finished t.status ≡ true
  pub over : t.next ≡ ended
  pub until : t.deadline_time ≡ some deadline
  pub status_is : t.status ≡ r.task_status
  pub data_is : t.stdout_data ≡ r.task_data
  pub error_is : t.error ≡ r.task_err

over_done : (s : Step) (n : Next) (t : Task) → n ≡ ended → step_at s n t ≡ t
unfolding step_at
over_done begins ended t e = refl
over_done (comes_back output timed_out) ended t e = refl
over_done (defers now) ended t e = refl
over_done s run_task t e = absurd cc
over_done s command t e = absurd cc
over_done s set_deadline t e = absurd cc

collect-held :
    (deadline now : ℕ) (r : TaskResult) (t : Task)
    → now ≤ deadline
    → Holds deadline r t
    → collect now t ≡ t
unfolding collect
collect-held deadline now r t le h =
    ap
      (λ b.
        if b then (if is_after now t.deadline_time then record t { stored = false } else t) else t)
      h.done
    ∙ ap (λ o. if is_after now o then record t { stored = false } else t) h.until
    ∙ ap (λ b. if b then record t { stored = false } else t) in_time
  where
    in_time : ltb deadline now ≡ false
    in_time = ground arith

result-held :
    (deadline now : ℕ) (r : TaskResult) (t : Task)
    → Holds deadline r t
    → result now t ≡ (set_deadline_default now t, r)
unfolding result
result-held deadline now r t h =
    ap
      (λ b.
        if b
        then (if is_finished t.status then set_deadline_default now t else t, found)
        else (t, none_found))
      h.held
    ∙ ap (λ b. (if b then set_deadline_default now t else t, found)) h.done
    ∙ ap (λ x. (set_deadline_default now t, x)) same
  where
    found : TaskResult
    found = record { task_status = t.status; task_data = t.stdout_data; task_err = t.error }

    none_found : TaskResult
    none_found = record { task_status = not_exist; task_data = []; task_err = some task_not_found }

    same : found ≡ r
    same = cc (h.status_is, h.data_is, h.error_is)

Holds-asked :
    (deadline now : ℕ) (r : TaskResult) (t : Task)
    → Holds deadline r t
    → Holds (now + ten_minutes) r (set_deadline_default now t)
unfolding set_deadline_default
Holds-asked deadline now r t h = record {
  held = h.held;
  done = h.done;
  over = h.over;
  until = refl;
  status_is = h.status_is;
  data_is = h.data_is;
  error_is = h.error_is;
}

Holds-events :
    (es : List Event) (deadline : ℕ) (r : TaskResult) (t : Task)
    → Prompt deadline es
    → Holds deadline r t
    → (later : ℕ) × Holds later r (events es t)
unfolding events
Holds-events [] deadline r t p h = (deadline, h)
Holds-events (goroutine s ∷ es) deadline r t p h =
    let same : event (goroutine s) t ≡ t =
      unfold event run_task_step in over_done s t.next t h.over in
    rw same (Holds-events es deadline r t p h)
Holds-events (collected now ∷ es) deadline r t p h =
    let same : event (collected now) t ≡ t = unfold event in collect-held deadline now r t p.0 h in
    rw same (Holds-events es deadline r t p.1 h)
Holds-events (asked now ∷ es) deadline r t p h =
    let same : event (asked now) t ≡ set_deadline_default now t =
      unfold event in ap (λ x. x.0) (result-held deadline now r t h) in
    rw same (
      Holds-events es (now + ten_minutes) r (set_deadline_default now t) p
        (Holds-asked deadline now r t h))
Holds-events (told_to_stop ∷ es) deadline r t p h = absurd p

-- What a request gets of a task whose command came back so.
abbrev pub reply : TaskStorageType → Option (List ℕ) → Bool → TaskResult
reply storage none timed_out = record {
  task_status = failed;
  task_data = [];
  task_err = some (if timed_out then task_timeout else cmd_error);
}
reply stdout (some output) timed_out = record {
  task_status = completed;
  task_data = output;
  task_err = none;
}
reply storage (some output) timed_out = record {
  task_status = completed;
  task_data = [];
  task_err = none;
}

-- The goroutine from the start to the end.
abbrev pub life : Option (List ℕ) → Bool → ℕ → List Event
life output timed_out finished =
    goroutine begins ∷ goroutine (comes_back output timed_out) ∷ goroutine (defers finished) ∷ []

life-Holds :
    (storage : TaskStorageType) (output : Option (List ℕ)) (timed_out : Bool) (finished : ℕ)
    → Holds
        (finished + ten_minutes)
        (reply storage output timed_out)
        (events (life output timed_out finished) (new_task storage))
unfolding events event run_task_step step_at new_task finish deliver set_deadline_default
life-Holds storage none timed_out finished = record {
  held = refl;
  done = refl;
  over = refl;
  until = refl;
  status_is = refl;
  data_is = refl;
  error_is = refl;
}
life-Holds db (some output) timed_out finished = record {
  held = refl;
  done = refl;
  over = refl;
  until = refl;
  status_is = refl;
  data_is = refl;
  error_is = refl;
}
life-Holds stdout (some output) timed_out finished = record {
  held = refl;
  done = refl;
  over = refl;
  until = refl;
  status_is = refl;
  data_is = refl;
  error_is = refl;
}
life-Holds local (some output) timed_out finished = record {
  held = refl;
  done = refl;
  over = refl;
  until = refl;
  status_is = refl;
  data_is = refl;
  error_is = refl;
}
life-Holds other (some output) timed_out finished = record {
  held = refl;
  done = refl;
  over = refl;
  until = refl;
  status_is = refl;
  data_is = refl;
  error_is = refl;
}

-- A task that nobody told to stop and whose deadline was set at the end keeps its result: while no
-- collection comes more than ten minutes after its end and the last request for it, every request
-- gets the status, the output and the error that its command came back with.
pub results-kept :
    (storage : TaskStorageType) (output : Option (List ℕ)) (timed_out : Bool) (finished later : ℕ)
    (es : List Event)
    → Prompt (finished + ten_minutes) es
    → (result later (events es (events (life output timed_out finished) (new_task storage)))).1
      ≡ reply storage output timed_out
results-kept storage output timed_out finished later es p =
    let t = events (life output timed_out finished) (new_task storage) in
    let (deadline, holds) =
      Holds-events es (finished + ten_minutes) (reply storage output timed_out) t p
        (life-Holds storage output timed_out finished) in
    ap (λ x. x.1) (result-held deadline later (reply storage output timed_out) (events es t) holds)
