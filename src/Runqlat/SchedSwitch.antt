-- ===== src/Runqlat/SchedSwitch.antt =====
-- `sched_switch_entry` of bpf/runqlat_tracing.c as a whole: one switch between two tasks.
use jidick.Base.{
  ℕ, ◌≡◌, ◌≢◌, ◌∙◌, ap, sym, true, none, some, arith, sub64, Bool-cases, inl, inr, ◌==◌, ==_iff,
  if◌then◌else◌,
}
use jidick.Kernel.BpfMap.{BpfMap, nat_eq, bpf_any}
use jidick.Kernel.Laws.{lookup-update_self, entry_or, lookup_or_init-present}
use jidick.Runqlat.{
  StatT, GStatT, TaskStruct, Maps, enqueue_prev, count_switch, dequeue_next, sched_switch_entry,
  add_switch, g_add_switch, add_latency, g_add_latency, new_stat, g_new_stat,
}
use jidick.Runqlat.Waiting.{waits, waits-count_switch, waits-dequeue_next, waits-enqueue_prev}
use jidick.Runqlat.Switch.{voluntary, count_switch_lem, dequeue_next_lem}

module _ {L T H : Type 0} (latency : BpfMap L ℕ ℕ nat_eq) (tg : BpfMap T ℕ StatT nat_eq)
    (host : BpfMap H ℕ GStatT nat_eq) (prev next : TaskStruct) (now_prev now_next : ℕ)
    (m : Maps L T H) where
  -- The state when the switch has been counted for the previous task.
  abbrev pub counted : Maps L T H
  counted = (count_switch latency tg host prev (enqueue_prev latency tg host prev now_prev m)).0

  -- The group and the host entries, from before the switch.
  abbrev prev_entry : StatT
  prev_entry = entry_or tg m.cpu_tg_metric prev.sched_task_group new_stat

  abbrev next_entry : StatT
  next_entry = entry_or tg m.cpu_tg_metric next.sched_task_group new_stat

  enqueue_prev-others :
      let m₁ = enqueue_prev latency tg host prev now_prev m in
      (m₁.cpu_tg_metric ≡ m.cpu_tg_metric) × (m₁.cpu_host_metric ≡ m.cpu_host_metric)
  unfolding enqueue_prev
  enqueue_prev-others = ground arith

  enqueue_prev-waits :
      prev.pid ≢ 0
      → latency.accepts m.latency prev.pid bpf_any ≡ true
      → waits latency tg host (enqueue_prev latency tg host prev now_prev m) prev.pid ≡ (
          if voluntary latency tg host prev
          then waits latency tg host m prev.pid
          else some now_prev)
  unfolding enqueue_prev
  enqueue_prev-waits pid room =
      ground (arith, lookup-update_self latency m.latency prev.pid now_prev bpf_any room)

  sched_switch-runs :
      {g : GStatT}
      → host.lookup m.cpu_host_metric 0 ≡ some g
      → (count_switch latency tg host prev (enqueue_prev latency tg host prev now_prev m)).1 ≡ true
      → sched_switch_entry latency tg host prev next now_prev now_next m
        ≡ dequeue_next latency tg host next now_next counted
  unfolding sched_switch_entry
  sched_switch-runs {g} there go_on =
      let m₁ = enqueue_prev latency tg host prev now_prev m in
      let e =
        lookup_or_init-present host m₁.cpu_host_metric 0 g_new_stat g
          (rw enqueue_prev-others.1 there) in
      rw (e, sched_switch_entry) (rw go_on)

  -- One switch from one task to another, both in a group and neither the idle task, where the next
  -- task is on record since `ts`, the host's entry is there, and the entries of the groups are
  -- there or fit: the next task goes off the record; the previous one goes on it, from now, exactly
  -- when it is still runnable; the host counts the switch and the wait; so does the one group, or
  -- each of the two its own.
  pub sched_switch_lem :
      (ts : ℕ) (g : GStatT)
      → prev.pid ≢ 0
      → next.pid ≢ 0
      → prev.pid ≢ next.pid
      → prev.sched_task_group ≢ 0
      → next.sched_task_group ≢ 0
      → waits latency tg host m next.pid ≡ some ts
      → ts ≢ 0
      → host.lookup m.cpu_host_metric 0 ≡ some g
      → latency.accepts m.latency prev.pid bpf_any ≡ true
      → tg.accepts m.cpu_tg_metric prev.sched_task_group bpf_any ≡ true
      → tg.accepts counted.cpu_tg_metric next.sched_task_group bpf_any ≡ true
      → let m' = sched_switch_entry latency tg host prev next now_prev now_next m in
        let left = voluntary latency tg host prev in
        let delta = sub64 now_next ts in
        let one_group = prev.sched_task_group == next.sched_task_group in
        (waits latency tg host m' next.pid ≡ none)
        × (waits latency tg host m' prev.pid
            ≡ (if left then waits latency tg host m prev.pid else some now_prev))
        × (host.lookup m'.cpu_host_metric 0 ≡ some (g_add_latency delta (g_add_switch left g)))
        × (tg.lookup m'.cpu_tg_metric prev.sched_task_group
            ≡ some (
                if one_group
                then add_latency delta (add_switch left prev_entry)
                else add_switch left prev_entry))
        × (tg.lookup m'.cpu_tg_metric next.sched_task_group
            ≡ some
                (add_latency delta (if one_group then add_switch left next_entry else next_entry)))
  sched_switch_lem ts g pid pid' apart key key' on_record set there room_l room room' =
      let m₁ = enqueue_prev latency tg host prev now_prev m in
      let (tg_same, host_same) = enqueue_prev-others in
      let c =
        count_switch_lem latency tg host prev m₁ g pid key (rw host_same there) (rw tg_same room) in
      let same_latency = waits-count_switch latency tg host prev m₁ in
      let still =
        ap (λ l. latency.lookup l next.pid) same_latency
        ∙ waits-enqueue_prev latency tg host prev now_prev m next.pid apart
        ∙ on_record in
      let d =
        dequeue_next_lem latency tg host next now_next ts counted
          (g_add_switch (voluntary latency tg host prev) g) pid' key' still set c.1 room' in
      let pk = prev.sched_task_group in
      let nk = next.sched_task_group in
      rw (sched_switch-runs there c.0) (
        d.0,
        waits-dequeue_next latency tg host next now_next counted prev.pid (λ e. apart (sym e))
            ∙ ap (λ l. latency.lookup l prev.pid) same_latency
            ∙ enqueue_prev-waits pid room_l,
        d.1,
        elim (Bool-cases (pk == nk)) [
          | inl e ↦
              let same : pk ≡ nk = (==_iff pk nk).0 e in
              rw e (ap (tg.lookup _) same ∙ rw (d.2, ← same, c.2, tg_same))
          | inr e ↦
              let differ : pk ≢ nk = ground arith in
              rw e (d.3 pk (λ q. differ (sym q)) ∙ rw (c.2, tg_same))
        ],
        elim (Bool-cases (pk == nk)) [
          | inl e ↦ let same : pk ≡ nk = (==_iff pk nk).0 e in rw (e, d.2, ← same, c.2, tg_same)
          | inr e ↦ let differ : pk ≢ nk = ground arith in rw (e, d.2, c.3 nk differ, tg_same)
        ],
      )
