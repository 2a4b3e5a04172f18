-- ===== src/Tracing/Task.antt =====
-- pkg/tracing/task.go: the life of a task that a request starts, as its goroutine, the requests
-- about it and the garbage collection interleave. The identifiers of tasks are all different.
pub mod Life
pub mod Removal
pub mod Kept
use jidick.Base.{
  ℕ, suc, ◌+◌, ◌*◌, ltb, ◌==◌, nsec_per_sec, Bool, true, false, ◌||◌, if◌then◌else◌, Option, none,
  some, List, [], ◌∷◌, map,
}

pub data Status : Type 0 where
  completed failed pending running not_exist : Status

pub data TaskStorageType : Type 0 where
  db stdout local other : TaskStorageType

-- `ErrTaskNotFound`, `ErrTaskTimeout`, `ErrTaskCanceled`, and an error of the command.
pub data TaskError : Type 0 where
  task_not_found task_timeout task_canceled cmd_error : TaskError

-- What the goroutine does next: `runTask`, its command, the deferred `setDeadlineDefault`, nothing.
pub data Next : Type 0 where
  run_task command set_deadline ended : Next

-- `task`, with what the program knows of it elsewhere: whether `taskLifeTmpCache` holds it, whether
-- `cancelFunc` was called, and the output that storage was given. A deadline is nanoseconds, `none`
-- the zero time.
pub record Task : Type 0 where
  pub stored : Bool
  pub stdout_data : List ℕ
  pub status : Status
  pub error : Option TaskError
  pub storage : TaskStorageType
  pub canceled : Bool
  pub deadline_time : Option ℕ
  pub saved : Option (List ℕ)
  pub next : Next

unfoldable pub new_task : TaskStorageType → Task
new_task storage = record {
  stored = true;
  stdout_data = [];
  status = pending;
  error = none;
  storage = storage;
  canceled = false;
  deadline_time = none;
  saved = none;
  next = run_task;
}

abbrev pub ten_minutes : ℕ
ten_minutes = 10 * 60 * nsec_per_sec

abbrev pub is_finished : Status → Bool
is_finished completed = true
is_finished failed = true
is_finished _ = false

unfoldable pub set_deadline_default : ℕ → Task → Task
set_deadline_default now t = record t { deadline_time = some (now + ten_minutes) }

-- `now.After(deadline)`
abbrev pub is_after : ℕ → Option ℕ → Bool
is_after now none = true
is_after now (some deadline) = ltb deadline now

-- The body of the loop of `tasksGarbageCollect`, for one task.
unfoldable pub collect : ℕ → Task → Task
collect now t =
    if is_finished t.status
    then (if is_after now t.deadline_time then record t { stored = false } else t)
    else t

-- What becomes of the output of a command that succeeded.
unfoldable pub deliver : TaskStorageType → List ℕ → Task → Task
deliver db output t = record t { saved = some output }
deliver stdout output t = record t { stdout_data = output }
deliver _ output t = t

-- The rest of `runTask` once the command came back: its output, or `none` for an error, and whether
-- the context had ended by its timeout.
unfoldable pub finish : Option (List ℕ) → Bool → Task → Task
finish none timed_out t = record t {
  status = failed;
  error =
      some (if timed_out then task_timeout else if t.canceled then task_canceled else cmd_error);
  next = set_deadline;
}
finish (some output) timed_out t = record (deliver t.storage output t) {
  status = completed;
  next = set_deadline;
}

-- A step of the goroutine.
pub data Step : Type 0 where
  begins : Step
  comes_back : (output : Option (List ℕ)) (timed_out : Bool) → Step
  defers : (now : ℕ) → Step

-- The step where it is the turn of it, and nothing else.
unfoldable pub step_at : Step → Next → Task → Task
step_at begins run_task t = record t { status = running; next = command }
step_at (comes_back output timed_out) command t = finish output timed_out t
step_at (defers now) set_deadline t = record (set_deadline_default now t) { next = ended }
step_at _ _ t = t

unfoldable pub run_task_step : Step → Task → Task
run_task_step s t = step_at s t.next t

pub record TaskResult : Type 0 where
  pub task_status : Status
  pub task_data : List ℕ
  pub task_err : Option TaskError

unfoldable pub result : ℕ → Task → Task × TaskResult
result now t =
    if t.stored
    then (
      if is_finished t.status then set_deadline_default now t else t,
      record { task_status = t.status; task_data = t.stdout_data; task_err = t.error },
    )
    else (t, record { task_status = not_exist; task_data = []; task_err = some task_not_found })

abbrev pub is_running : Status → Bool
is_running running = true
is_running _ = false

unfoldable pub stop_task : Task → Task × Option TaskError
stop_task t =
    if t.stored
    then (record t { stored = false; canceled = is_running t.status || t.canceled }, none)
    else (t, some task_not_found)

-- `RunningTaskCount` over all tasks there were.
unfoldable pub running_task_count : List Task → ℕ
running_task_count [] = 0
running_task_count (t ∷ ts) =
    let rest = running_task_count ts in
    if t.stored then (if is_running t.status then suc rest else rest) else rest

-- What can happen to a task.
pub data Event : Type 0 where
  goroutine : (s : Step) → Event
  collected asked : (now : ℕ) → Event
  told_to_stop : Event

unfoldable pub event : Event → Task → Task
event (goroutine s) t = run_task_step s t
event (collected now) t = collect now t
event (asked now) t = (result now t).0
event told_to_stop t = (stop_task t).0

unfoldable pub events : List Event → Task → Task
events [] t = t
events (e ∷ es) t = events es (event e t)
