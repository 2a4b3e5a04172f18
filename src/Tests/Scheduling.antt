-- ===== src/Tests/Scheduling.antt =====
-- The handlers of bpf/runqlat_tracing.c on small maps.
use jidick.Base.{
  ℕ, ◌≡◌, refl, arith, List, [], ◌∷◌, some, none, true, false, add64, sub64, if◌then◌else◌, ◌==◌,
}
use jidick.Kernel.BpfMap.{BpfMap, nat_eq, modify, lookup_or_init}
use jidick.Kernel.Table.{table, find, erase, put, takes}
use jidick.Kernel.Laws.{entry_or}
use jidick.Runqlat.{
  StatT, GStatT, new_stat, g_new_stat, TaskStruct, Maps, add_switch, g_add_switch, add_latency,
  g_add_latency, get_task_state, trace_enqueue, sched_wakeup_entry, sched_wakeup_new_entry,
  sched_switch_entry, sched_process_exit_entry, free_fair_sched_group_entry, enqueue_prev,
  count_switch, count_latency, dequeue_next, Event, wakeup, switch, exit, free_group, handle,
  handles,
}
use jidick.Runqlat.Waiting.{waits, handles-wakeup}
use jidick.Runqlat.SchedSwitch.{sched_switch_lem}
use jidick.Runqlat.Switch.{voluntary}
use jidick.Runqlat.Race
use jidick.Kernel.Cpus.{Steps, here, there, done, step}
use jidick.Runqlat.Race.{
  Pc, look, create, look_again, add, counted, insert, miss, hit_again, count, tally, switches,
  Steps-tally,
}
use jidick.Runqlat.Sums.{plus, total}
use jidick.Runqlat.Balance.{IsBalanced, handles-IsBalanced}

abbrev Since : Type 0
Since = List (ℕ × ℕ)

abbrev Stats : Type 0
Stats = List (ℕ × StatT)

abbrev HostStats : Type 0
HostStats = List (ℕ × GStatT)

abbrev latency : BpfMap Since ℕ ℕ nat_eq
latency = table nat_eq 10

abbrev tg : BpfMap Stats ℕ StatT nat_eq
tg = table nat_eq 10

abbrev host : BpfMap HostStats ℕ GStatT nat_eq
host = table nat_eq 1

abbrev start : Maps Since Stats HostStats
start = record { latency = []; cpu_tg_metric = []; cpu_host_metric = (0, g_new_stat) ∷ [] }

-- A task of group 7 that blocks, and one of group 8 that is runnable.
abbrev sleeper : TaskStruct
sleeper = record { pid = 1; sched_task_group = 7; has_state = true; state = 1; new_state = 0 }

abbrev runner : TaskStruct
runner = record { pid = 2; sched_task_group = 8; has_state = false; state = 0; new_state = 0 }

program : Unit {0}
unfolding find erase put takes modify lookup_or_init get_task_state add_switch g_add_switch
    add_latency g_add_latency trace_enqueue sched_wakeup_entry sched_wakeup_new_entry enqueue_prev
    count_switch count_latency dequeue_next sched_switch_entry sched_process_exit_entry
    free_fair_sched_group_entry handle handles
program = tt

-- The runner waits for 15 ms, then takes the sleeper's place.
abbrev waiting : Maps Since Stats HostStats
waiting = record start { latency = (2, 1000) ∷ [] }

switched : sched_switch_entry latency tg host sleeper runner 5 15_001_000 waiting ≡ record {
  latency = [];
  cpu_tg_metric = (8, record new_stat { nlat_02 = 1 }) ∷ (7, record new_stat { nvcsw = 1 }) ∷ [];
  cpu_host_metric = (0, record g_new_stat { g_nvcsw = 1; g_nlat_02 = 1 }) ∷ [];
}
unfolding program
switched = refl

sched_switch_lem_example :
    let m' = sched_switch_entry latency tg host sleeper runner 5 15_001_000 waiting in
    let left = voluntary latency tg host sleeper in
    let delta = sub64 15_001_000 1000 in
    let one_group = 7 == 8 in
    (waits latency tg host m' 2 ≡ none)
    × (waits latency tg host m' 1 ≡ (if left then waits latency tg host waiting 1 else some 5))
    × (host.lookup m'.cpu_host_metric 0 ≡ some (g_add_latency delta (g_add_switch left g_new_stat)))
    × (tg.lookup m'.cpu_tg_metric 7
        ≡ some (
            if one_group
            then add_latency delta (add_switch left (entry_or tg waiting.cpu_tg_metric 7 new_stat))
            else add_switch left (entry_or tg waiting.cpu_tg_metric 7 new_stat)))
    × (tg.lookup m'.cpu_tg_metric 8
        ≡ some (
            add_latency delta (
              if one_group
              then add_switch left (entry_or tg waiting.cpu_tg_metric 8 new_stat)
              else entry_or tg waiting.cpu_tg_metric 8 new_stat)))
unfolding program
sched_switch_lem_example =
    sched_switch_lem latency tg host sleeper runner 5 15_001_000 waiting 1000 g_new_stat
      (omega arith) (omega arith) (omega arith) (omega arith) (omega arith) refl (omega arith) refl
      refl refl refl

-- What happens to other tasks between the wakeup of task 2 and its turn.
abbrev meanwhile : List Event
meanwhile = switch (record sleeper { pid = 3 }) sleeper 10 20 ∷ exit 3 ∷ free_group 7 ∷ []

handles-wakeup_example :
    waits latency tg host
      (handles latency tg host meanwhile (sched_wakeup_entry latency tg host 2 1000 start))
      2
    ≡ some 1000
unfolding program
handles-wakeup_example =
    handles-wakeup latency tg host 2 1000 meanwhile start (omega arith) refl (omega arith)

-- Task 4 of group 8 waits for 30 ms and comes to run; a third group is freed.
abbrev balanced_events : List Event
balanced_events =
    wakeup 4 100
    ∷ switch sleeper (record runner { pid = 4 }) 10 30_000_100
    ∷ free_group 9
    ∷ switch runner sleeper 40 50
    ∷ []

handles-IsBalanced_example :
    IsBalanced latency tg host (7 ∷ 8 ∷ []) (handles latency tg host balanced_events start)
unfolding program plus total
handles-IsBalanced_example =
    handles-IsBalanced latency tg host (7 ∷ 8 ∷ []) balanced_events start (ground arith) refl

-- Two CPUs find no entry for group 7, and both create it; each counts a voluntary switch.
abbrev both_create : List Pc
both_create = look true ∷ look true ∷ []

creates :
    Steps
      (Race.Move tg 7)
      []
      both_create
      ((7, record new_stat { nvcsw = 1 }) ∷ [])
      (counted true ∷ add true ∷ [])
unfolding program
creates =
    step
      (step
        (step
          (step
            (step (step (step done (here (miss refl))) (there (here (miss refl)))) (here insert))
            (here (hit_again refl)))
          (here (count new_stat refl)))
        (there (here insert)))
      (there (here (hit_again refl)))

Steps-tally_example :
    add64 (tally tg 7 true ((7, record new_stat { nvcsw = 1 }) ∷ [])) (switches true both_create)
    ≡ add64 (tally tg 7 true []) (switches true (counted true ∷ add true ∷ []))
Steps-tally_example = Steps-tally tg 7 true creates
