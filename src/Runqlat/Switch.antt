-- ===== src/Runqlat/Switch.antt =====
-- What one switch of bpf/runqlat_tracing.c counts, for the group of the task that leaves, for that
-- of the task that comes, and for the host.
use jidick.Base.{ℕ, ◌≡◌, ◌≢◌, ◌∙◌, ap, Bool, true, not, none, some, arith, sub64, ◌==◌}
use jidick.Kernel.BpfMap.{BpfMap, nat_eq, bpf_any, lookup_or_init}
use jidick.Kernel.Laws.{
  lookup-delete_self, entry_or, lookup_or_init-found, lookup-modify_self, lookup-modify_ne,
}
use jidick.Runqlat.{
  StatT, GStatT, TaskStruct, Maps, get_task_state, task_running, count_switch, count_latency,
  dequeue_next, add_switch, g_add_switch, add_latency, g_add_latency, new_stat,
}
use jidick.Runqlat.Waiting.{waits, waits-count_latency}

module _ {L T H : Type 0} (latency : BpfMap L ℕ ℕ nat_eq) (tg : BpfMap T ℕ StatT nat_eq)
    (host : BpfMap H ℕ GStatT nat_eq) where
  -- A task that is not runnable any more gives the CPU up by itself.
  abbrev pub voluntary : TaskStruct → Bool
  voluntary prev = not (get_task_state (some prev) == task_running)

  -- Where the group's entry is there or fits, a switch away from a task, not the idle one, is
  -- counted once for its group and once for the host, on the same side, and nowhere else.
  pub count_switch_lem :
      (prev : TaskStruct) (m : Maps L T H) (g : GStatT)
      → prev.pid ≢ 0
      → prev.sched_task_group ≢ 0
      → host.lookup m.cpu_host_metric 0 ≡ some g
      → tg.accepts m.cpu_tg_metric prev.sched_task_group bpf_any ≡ true
      → let (m', go_on) = count_switch latency tg host prev m in
        let key = prev.sched_task_group in
        (go_on ≡ true)
        × (host.lookup m'.cpu_host_metric 0 ≡ some (g_add_switch (voluntary prev) g))
        × (tg.lookup m'.cpu_tg_metric key
            ≡ some (add_switch (voluntary prev) (entry_or tg m.cpu_tg_metric key new_stat)))
        × ((j : ℕ) → key ≢ j → tg.lookup m'.cpu_tg_metric j ≡ tg.lookup m.cpu_tg_metric j)
  unfolding count_switch
  count_switch_lem prev m g pid key there room =
      let k = prev.sched_task_group in
      let (t, found) = lookup_or_init tg m.cpu_tg_metric k new_stat in
      let (is_found, entry, others) = lookup_or_init-found tg m.cpu_tg_metric k new_stat room in
      let f = add_switch (voluntary prev) in
      let self = lookup-modify_self tg t k f (entry_or tg m.cpu_tg_metric k new_stat) entry in
      let at_host =
        lookup-modify_self host m.cpu_host_metric 0 (g_add_switch (voluntary prev)) g there in
      (
        ground (arith, is_found),
        ground (arith, is_found, at_host),
        ground (arith, is_found, self),
        λ j apart. ground (arith, is_found, others j apart, lookup-modify_ne tg t k f j apart),
      )

  count_latency_lem :
      (next : TaskStruct) (delta : ℕ) (m : Maps L T H) (g : GStatT)
      → next.sched_task_group ≢ 0
      → host.lookup m.cpu_host_metric 0 ≡ some g
      → tg.accepts m.cpu_tg_metric next.sched_task_group bpf_any ≡ true
      → let m' = count_latency latency tg host next delta m in
        let key = next.sched_task_group in
        (host.lookup m'.cpu_host_metric 0 ≡ some (g_add_latency delta g))
        × (tg.lookup m'.cpu_tg_metric key
            ≡ some (add_latency delta (entry_or tg m.cpu_tg_metric key new_stat)))
        × ((j : ℕ) → key ≢ j → tg.lookup m'.cpu_tg_metric j ≡ tg.lookup m.cpu_tg_metric j)
  unfolding count_latency
  count_latency_lem next delta m g key there room =
      let k = next.sched_task_group in
      let (t, found) = lookup_or_init tg m.cpu_tg_metric k new_stat in
      let (is_found, entry, others) = lookup_or_init-found tg m.cpu_tg_metric k new_stat room in
      let f = add_latency delta in
      let self = lookup-modify_self tg t k f (entry_or tg m.cpu_tg_metric k new_stat) entry in
      let at_host = lookup-modify_self host m.cpu_host_metric 0 (g_add_latency delta) g there in
      (
        ground (arith, is_found, at_host),
        ground (arith, is_found, self),
        λ j apart. ground (arith, is_found, others j apart, lookup-modify_ne tg t k f j apart),
      )

  -- A task on record that comes to run is taken off the record, and its wait, from the time on
  -- record to now modulo 2 ^ 64, is counted once for its group and once for the host.
  pub dequeue_next_lem :
      (next : TaskStruct) (now ts : ℕ) (m : Maps L T H) (g : GStatT)
      → next.pid ≢ 0
      → next.sched_task_group ≢ 0
      → waits latency tg host m next.pid ≡ some ts
      → ts ≢ 0
      → host.lookup m.cpu_host_metric 0 ≡ some g
      → tg.accepts m.cpu_tg_metric next.sched_task_group bpf_any ≡ true
      → let m' = dequeue_next latency tg host next now m in
        let key = next.sched_task_group in
        (waits latency tg host m' next.pid ≡ none)
        × (host.lookup m'.cpu_host_metric 0 ≡ some (g_add_latency (sub64 now ts) g))
        × (tg.lookup m'.cpu_tg_metric key
            ≡ some (add_latency (sub64 now ts) (entry_or tg m.cpu_tg_metric key new_stat)))
        × ((j : ℕ) → key ≢ j → tg.lookup m'.cpu_tg_metric j ≡ tg.lookup m.cpu_tg_metric j)
  unfolding dequeue_next
  dequeue_next_lem next now ts m g pid key on_record set there room =
      let gone = record m { latency = latency.delete m.latency next.pid } in
      let d = sub64 now ts in
      let counted = count_latency_lem next d gone g key there room in
      let off =
        ap (λ l. latency.lookup l next.pid) (waits-count_latency latency tg host next d gone)
        ∙ lookup-delete_self latency m.latency next.pid in
      let runs : dequeue_next latency tg host next now m
          ≡ count_latency latency tg host next d gone =
        rw (on_record, dequeue_next) (ground (arith, pid, set)) in
      rw runs (off, counted.0, counted.1, counted.2)
