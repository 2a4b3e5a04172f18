-- ===== src/Runqlat.antt =====
-- bpf/runqlat_tracing.c: scheduling latency and context switches, for the host and for each task
-- group (`TG_ADDR_KEY` is defined, so the key of `cpu_tg_metric` is the group's address).
pub mod Buckets
pub mod PidNamespace
pub mod Waiting
pub mod Switch
pub mod SchedSwitch
pub mod Sums
pub mod Balance
pub mod Race
use jidick.Base.{
  ℕ, ◌*◌, ◌-◌, Bool, true, false, ◌&&◌, ◌||◌, not, Option, none, some, List, [], ◌∷◌, ltb, ◌==◌,
  if◌then◌else◌, add64, sub64, nsec_per_msec, u64_mod, is_some,
}
use jidick.Kernel.BpfMap.{BpfMap, nat_eq, bpf_any, modify, lookup_or_init}

-- `struct stat_t`
pub record StatT : Type 0 where
  pub nvcsw : ℕ
  pub nivcsw : ℕ
  pub nlat_01 : ℕ
  pub nlat_02 : ℕ
  pub nlat_03 : ℕ
  pub nlat_04 : ℕ

-- `struct g_stat_t`
pub record GStatT : Type 0 where
  pub g_nvcsw : ℕ
  pub g_nivcsw : ℕ
  pub g_nlat_01 : ℕ
  pub g_nlat_02 : ℕ
  pub g_nlat_03 : ℕ
  pub g_nlat_04 : ℕ

abbrev pub new_stat : StatT
new_stat = record { nvcsw = 0; nivcsw = 0; nlat_01 = 0; nlat_02 = 0; nlat_03 = 0; nlat_04 = 0 }

abbrev pub g_new_stat : GStatT
g_new_stat = record {
  g_nvcsw = 0;
  g_nivcsw = 0;
  g_nlat_01 = 0;
  g_nlat_02 = 0;
  g_nlat_03 = 0;
  g_nlat_04 = 0;
}

-- What the handlers read of a `struct task_struct`; a signed field is its bit pattern.
-- `has_state` is `bpf_core_field_exists(task->state)`, and `new_state` is `__state` of 5.14.
pub record TaskStruct : Type 0 where
  pub pid : ℕ
  pub sched_task_group : ℕ
  pub has_state : Bool
  pub state : ℕ
  pub new_state : ℕ

abbrev pub task_running : ℕ
task_running = 0

-- `none` is a NULL pointer; -1 is its bit pattern.
unfoldable pub get_task_state : Option TaskStruct → ℕ
get_task_state none = u64_mod - 1
get_task_state (some task) = if task.has_state then task.state else task.new_state

-- `if (is_voluntary) … else …` of the counters of a group and of the host.
unfoldable pub add_switch : Bool → StatT → StatT
add_switch is_voluntary e =
    if is_voluntary
    then record e { nvcsw = add64 e.nvcsw 1 }
    else record e { nivcsw = add64 e.nivcsw 1 }

unfoldable pub g_add_switch : Bool → GStatT → GStatT
g_add_switch is_voluntary e =
    if is_voluntary
    then record e { g_nvcsw = add64 e.g_nvcsw 1 }
    else record e { g_nivcsw = add64 e.g_nivcsw 1 }

-- The chain of tests on `delta`, for a group and for the host.
unfoldable pub add_latency : ℕ → StatT → StatT
add_latency delta e =
    if ltb delta (10 * nsec_per_msec)
    then record e { nlat_01 = add64 e.nlat_01 1 }
    else if ltb delta (20 * nsec_per_msec)
    then record e { nlat_02 = add64 e.nlat_02 1 }
    else if ltb delta (50 * nsec_per_msec)
    then record e { nlat_03 = add64 e.nlat_03 1 }
    else record e { nlat_04 = add64 e.nlat_04 1 }

unfoldable pub g_add_latency : ℕ → GStatT → GStatT
g_add_latency delta e =
    if ltb delta (10 * nsec_per_msec)
    then record e { g_nlat_01 = add64 e.g_nlat_01 1 }
    else if ltb delta (20 * nsec_per_msec)
    then record e { g_nlat_02 = add64 e.g_nlat_02 1 }
    else if ltb delta (50 * nsec_per_msec)
    then record e { g_nlat_03 = add64 e.g_nlat_03 1 }
    else record e { g_nlat_04 = add64 e.g_nlat_04 1 }

-- The maps `latency`, `cpu_tg_metric` and `cpu_host_metric`.
pub record Maps (L T H : Type 0) : Type 0 where
  pub latency : L
  pub cpu_tg_metric : T
  pub cpu_host_metric : H

module _ {L T H : Type 0} (latency : BpfMap L ℕ ℕ nat_eq) (tg : BpfMap T ℕ StatT nat_eq)
    (host : BpfMap H ℕ GStatT nat_eq) where
  -- `trace_enqueue(pid)` at a clock reading
  unfoldable pub trace_enqueue : ℕ → ℕ → Maps L T H → Maps L T H
  trace_enqueue pid ts m =
      if pid == 0 then m else record m { latency = latency.update m.latency pid ts bpf_any }

  unfoldable pub sched_wakeup_new_entry : ℕ → ℕ → Maps L T H → Maps L T H
  unfolding trace_enqueue
  sched_wakeup_new_entry pid ts m = trace_enqueue pid ts m

  unfoldable pub sched_wakeup_entry : ℕ → ℕ → Maps L T H → Maps L T H
  unfolding trace_enqueue
  sched_wakeup_entry pid ts m = trace_enqueue pid ts m

  -- The previous task left the CPU without blocking: it waits again from now on.
  unfoldable pub enqueue_prev : TaskStruct → ℕ → Maps L T H → Maps L T H
  unfolding get_task_state
  enqueue_prev prev now m =
      if get_task_state (some prev) == task_running && not (prev.pid == 0)
      then record m { latency = latency.update m.latency prev.pid now bpf_any }
      else m

  -- The switch is counted for the group of the previous task and for the host; `false` where the
  -- handler returns because the group's entry could not be created.
  unfoldable pub count_switch : TaskStruct → Maps L T H → Maps L T H × Bool
  unfolding get_task_state lookup_or_init modify add_switch g_add_switch
  count_switch prev m =
      let is_voluntary = not (get_task_state (some prev) == task_running) in
      let key = prev.sched_task_group in
      if not (key == 0) && not (prev.pid == 0)
      then (let (t, found) = lookup_or_init tg m.cpu_tg_metric key new_stat in
          if found
          then (
            record m {
              cpu_tg_metric = modify tg t key (add_switch is_voluntary);
              cpu_host_metric = modify host m.cpu_host_metric 0 (g_add_switch is_voluntary);
            },
            true,
          )
          else (record m { cpu_tg_metric = t }, false))
      else (m, true)

  -- The wait of the next task ends: `delta` is counted for its group and for the host.
  unfoldable pub count_latency : TaskStruct → ℕ → Maps L T H → Maps L T H
  unfolding lookup_or_init modify add_latency g_add_latency
  count_latency next delta m =
      let key = next.sched_task_group in
      if key == 0
      then m
      else let (t, found) = lookup_or_init tg m.cpu_tg_metric key new_stat in
        if found
        then record m {
          cpu_tg_metric = modify tg t key (add_latency delta);
          cpu_host_metric = modify host m.cpu_host_metric 0 (g_add_latency delta);
        }
        else record m { cpu_tg_metric = t }

  unfoldable pub dequeue_next : TaskStruct → ℕ → Maps L T H → Maps L T H
  unfolding count_latency
  dequeue_next next now m = if next.pid == 0 then m else elim (latency.lookup m.latency next.pid) [
    | none ↦ m
    | some ts ↦
        if ts == 0
        then m
        else count_latency next (sub64 now ts)
            (record m { latency = latency.delete m.latency next.pid })
  ]

  -- `sched_switch_entry`, with the readings of the clock for the previous and for the next task
  unfoldable pub sched_switch_entry : TaskStruct → TaskStruct → ℕ → ℕ → Maps L T H → Maps L T H
  sched_switch_entry prev next now_prev now_next m =
      let m₁ = enqueue_prev prev now_prev m in
      let (h, found) = lookup_or_init host m₁.cpu_host_metric 0 g_new_stat in
      let m₂ = record m₁ { cpu_host_metric = h } in
      if found
      then (let (m₃, go_on) = count_switch prev m₂ in
          if go_on then dequeue_next next now_next m₃ else m₃)
      else m₂

  unfoldable pub sched_process_exit_entry : ℕ → Maps L T H → Maps L T H
  sched_process_exit_entry pid m =
      if is_some (latency.lookup m.latency pid)
      then record m { latency = latency.delete m.latency pid }
      else m

  unfoldable pub free_fair_sched_group_entry : ℕ → Maps L T H → Maps L T H
  free_fair_sched_group_entry task_group m =
      if is_some (tg.lookup m.cpu_tg_metric task_group)
      then record m { cpu_tg_metric = tg.delete m.cpu_tg_metric task_group }
      else m

-- A call of one of the handlers, with what it reads.
pub data Event : Type 0 where
  wakeup_new : (pid ts : ℕ) → Event
  wakeup : (pid ts : ℕ) → Event
  switch : (prev next : TaskStruct) (now_prev now_next : ℕ) → Event
  exit : (pid : ℕ) → Event
  free_group : (task_group : ℕ) → Event

module _ {L T H : Type 0} (latency : BpfMap L ℕ ℕ nat_eq) (tg : BpfMap T ℕ StatT nat_eq)
    (host : BpfMap H ℕ GStatT nat_eq) where
  unfoldable pub handle : Event → Maps L T H → Maps L T H
  handle (wakeup_new pid ts) = sched_wakeup_new_entry latency tg host pid ts
  handle (wakeup pid ts) = sched_wakeup_entry latency tg host pid ts
  handle (switch prev next now_prev now_next) =
      sched_switch_entry latency tg host prev next now_prev now_next
  handle (exit pid) = sched_process_exit_entry latency tg host pid
  handle (free_group task_group) = free_fair_sched_group_entry latency tg host task_group

  unfoldable pub handles : List Event → Maps L T H → Maps L T H
  handles [] m = m
  handles (e ∷ es) m = handles es (handle e m)
