-- ===== src/Runqlat/Waiting.antt =====
-- The map `latency` of bpf/runqlat_tracing.c: since when each task waits for a CPU.
use jidick.Base.{
  ℕ, ◌≡◌, ◌≢◌, refl, ◌∙◌, ap, Bool, true, List, [], ◌∷◌, Option, none, some, arith, All, sub64,
  Option-cases, Bool-cases, inl, inr, ◌==◌,
}
use jidick.Kernel.BpfMap.{BpfMap, nat_eq, bpf_any, lookup_or_init}
use jidick.Kernel.Laws.{lookup-update_self, lookup-update_ne, lookup-delete_self, lookup-delete_ne}
use jidick.Runqlat.{
  StatT, GStatT, TaskStruct, Maps, trace_enqueue, sched_wakeup_entry, sched_wakeup_new_entry,
  enqueue_prev, count_switch, count_latency, dequeue_next, sched_switch_entry,
  sched_process_exit_entry, free_fair_sched_group_entry, g_new_stat, Event, wakeup_new, wakeup,
  switch, exit, free_group, handle, handles,
}

-- The event does not name the task.
abbrev Avoids : ℕ → Event → Type 0
Avoids j (wakeup_new pid ts) = pid ≢ j
Avoids j (wakeup pid ts) = pid ≢ j
Avoids j (switch prev next now_prev now_next) = (prev.pid ≢ j) × (next.pid ≢ j)
Avoids j (exit pid) = pid ≢ j
Avoids j (free_group task_group) = Unit

module _ {L T H : Type 0} (latency : BpfMap L ℕ ℕ nat_eq) (tg : BpfMap T ℕ StatT nat_eq)
    (host : BpfMap H ℕ GStatT nat_eq) where
  -- Since when a task waits, if it does.
  abbrev pub waits : Maps L T H → ℕ → Option ℕ
  waits m j = latency.lookup m.latency j

  waits-trace_enqueue :
      (pid ts : ℕ) (m : Maps L T H) (j : ℕ)
      → pid ≢ j
      → waits (trace_enqueue latency tg host pid ts m) j ≡ waits m j
  unfolding trace_enqueue
  waits-trace_enqueue pid ts m j apart =
      ground (arith, lookup-update_ne latency m.latency pid ts bpf_any j apart)

  pub waits-enqueue_prev :
      (prev : TaskStruct) (now : ℕ) (m : Maps L T H) (j : ℕ)
      → prev.pid ≢ j
      → waits (enqueue_prev latency tg host prev now m) j ≡ waits m j
  unfolding enqueue_prev
  waits-enqueue_prev prev now m j apart =
      ground (arith, lookup-update_ne latency m.latency prev.pid now bpf_any j apart)

  pub waits-count_switch :
      (prev : TaskStruct) (m : Maps L T H)
      → (count_switch latency tg host prev m).0.latency ≡ m.latency
  unfolding count_switch
  waits-count_switch prev m = ground arith

  pub waits-count_latency :
      (next : TaskStruct) (delta : ℕ) (m : Maps L T H)
      → (count_latency latency tg host next delta m).latency ≡ m.latency
  unfolding count_latency
  waits-count_latency next delta m = ground arith

  pub waits-dequeue_next :
      (next : TaskStruct) (now : ℕ) (m : Maps L T H) (j : ℕ)
      → next.pid ≢ j
      → waits (dequeue_next latency tg host next now m) j ≡ waits m j
  unfolding dequeue_next
  waits-dequeue_next next now m j apart = elim (Option-cases (latency.lookup m.latency next.pid)) [
    | inl e ↦ rw (e, dequeue_next) (ground arith)
    | inr (ts, e) ↦
        let gone = record m { latency = latency.delete m.latency next.pid } in
        let d = sub64 now ts in
        rw (e, dequeue_next)
          (ground (
            arith,
            waits-count_latency next d gone,
            ap (λ l. latency.lookup l j) (waits-count_latency next d gone),
            lookup-delete_ne latency m.latency next.pid j apart,
          ))
  ]

  -- A switch, with its parts shut: the state after the previous task was dealt with.
  abbrev pub after_prev : TaskStruct → ℕ → Maps L T H → Maps L T H × Bool
  after_prev prev now m =
      let m₁ = enqueue_prev latency tg host prev now m in
      count_switch latency tg host prev
        (record m₁ { cpu_host_metric = (lookup_or_init host m₁.cpu_host_metric 0 g_new_stat).0 })

  waits-after_prev :
      (prev : TaskStruct) (now : ℕ) (m : Maps L T H) (j : ℕ)
      → prev.pid ≢ j
      → waits (after_prev prev now m).0 j ≡ waits m j
  waits-after_prev prev now m j apart =
      let m₁ = enqueue_prev latency tg host prev now m in
      ap (λ l. latency.lookup l j)
        (waits-count_switch prev
          (record m₁ { cpu_host_metric = (lookup_or_init host m₁.cpu_host_metric 0 g_new_stat).0 }))
      ∙ waits-enqueue_prev prev now m j apart

  waits-sched_switch :
      (prev next : TaskStruct) (now_prev now_next : ℕ) (m : Maps L T H) (j : ℕ)
      → prev.pid ≢ j
      → next.pid ≢ j
      → waits (sched_switch_entry latency tg host prev next now_prev now_next m) j ≡ waits m j
  unfolding sched_switch_entry
  waits-sched_switch prev next now_prev now_next m j p n =
      let m₃ = after_prev prev now_prev m in
      ground (
        arith,
        waits-enqueue_prev prev now_prev m j p,
        waits-after_prev prev now_prev m j p,
        waits-dequeue_next next now_next m₃.0 j n,
      )

  waits-handle :
      (e : Event) (m : Maps L T H) (j : ℕ)
      → Avoids j e
      → waits (handle latency tg host e m) j ≡ waits m j
  unfolding handle sched_wakeup_entry sched_wakeup_new_entry sched_process_exit_entry
      free_fair_sched_group_entry
  waits-handle (wakeup_new pid ts) m j h = waits-trace_enqueue pid ts m j h
  waits-handle (wakeup pid ts) m j h = waits-trace_enqueue pid ts m j h
  waits-handle (switch prev next now_prev now_next) m j h =
      waits-sched_switch prev next now_prev now_next m j h.0 h.1
  waits-handle (exit pid) m j h = ground (arith, lookup-delete_ne latency m.latency pid j h)
  waits-handle (free_group task_group) m j h = ground arith

  -- Events of other tasks do not touch the record of a task.
  waits-handles :
      (es : List Event) (m : Maps L T H) (j : ℕ)
      → All (Avoids j) es
      → waits (handles latency tg host es m) j ≡ waits m j
  unfolding handles
  waits-handles [] m j h = refl
  waits-handles (e ∷ es) m j h =
      waits-handles es (handle latency tg host e m) j h.1 ∙ waits-handle e m j h.0

  -- From its wakeup on, a task is on record with the time of the wakeup, whatever other tasks do,
  -- until it is switched to, switched away from, woken again or exits, if the map took the record.
  pub handles-wakeup :
      (pid ts : ℕ) (es : List Event) (m : Maps L T H)
      → pid ≢ 0
      → latency.accepts m.latency pid bpf_any ≡ true
      → All (Avoids pid) es
      → waits (handles latency tg host es (sched_wakeup_entry latency tg host pid ts m)) pid
        ≡ some ts
  unfolding sched_wakeup_entry trace_enqueue
  handles-wakeup pid ts es m pos room h =
      waits-handles es (sched_wakeup_entry latency tg host pid ts m) pid h
      ∙ ground (arith, lookup-update_self latency m.latency pid ts bpf_any room)

  idle-trace_enqueue :
      (pid ts : ℕ) (m : Maps L T H) → waits (trace_enqueue latency tg host pid ts m) 0 ≡ waits m 0
  unfolding trace_enqueue
  idle-trace_enqueue pid ts m = ground (arith, lookup-update_ne latency m.latency pid ts bpf_any 0)

  idle-enqueue_prev :
      (prev : TaskStruct) (now : ℕ) (m : Maps L T H)
      → waits (enqueue_prev latency tg host prev now m) 0 ≡ waits m 0
  unfolding enqueue_prev
  idle-enqueue_prev prev now m =
      ground (arith, lookup-update_ne latency m.latency prev.pid now bpf_any 0)

  idle-dequeue_next :
      (next : TaskStruct) (now : ℕ) (m : Maps L T H)
      → waits (dequeue_next latency tg host next now m) 0 ≡ waits m 0
  unfolding dequeue_next
  idle-dequeue_next next now m = elim (Bool-cases (next.pid == 0)) [
    | inl e ↦ rw e
    | inr e ↦ waits-dequeue_next next now m 0 (ground arith)
  ]

  idle-sched_switch :
      (prev next : TaskStruct) (now_prev now_next : ℕ) (m : Maps L T H)
      → waits (sched_switch_entry latency tg host prev next now_prev now_next m) 0 ≡ waits m 0
  unfolding sched_switch_entry
  idle-sched_switch prev next now_prev now_next m =
      let m₁ = enqueue_prev latency tg host prev now_prev m in
      let m₂ = record m₁ {
        cpu_host_metric = (lookup_or_init host m₁.cpu_host_metric 0 g_new_stat).0;
      } in
      let m₃ = after_prev prev now_prev m in
      ground (
        arith,
        idle-enqueue_prev prev now_prev m,
        ap (λ l. latency.lookup l 0) (waits-count_switch prev m₂),
        idle-dequeue_next next now_next m₃.0,
      )

  idle-handle :
      (e : Event) (m : Maps L T H) → waits m 0 ≡ none → waits (handle latency tg host e m) 0 ≡ none
  unfolding handle sched_wakeup_entry sched_wakeup_new_entry sched_process_exit_entry
      free_fair_sched_group_entry
  idle-handle (wakeup_new pid ts) m h = idle-trace_enqueue pid ts m ∙ h
  idle-handle (wakeup pid ts) m h = idle-trace_enqueue pid ts m ∙ h
  idle-handle (switch prev next now_prev now_next) m h =
      idle-sched_switch prev next now_prev now_next m ∙ h
  idle-handle (exit pid) m h = ground (arith, latency.lookup-delete m.latency pid 0)
  idle-handle (free_group task_group) m h = ground arith

  -- The idle task, pid 0, never gets on record, whatever the handlers are called with.
  idle-handles :
      (es : List Event) (m : Maps L T H)
      → waits m 0 ≡ none
      → waits (handles latency tg host es m) 0 ≡ none
  unfolding handles
  idle-handles [] m h = h
  idle-handles (e ∷ es) m h = idle-handles es (handle latency tg host e m) (idle-handle e m h)

  -- A task that exits leaves no record behind.
  waits-exit :
      (pid : ℕ) (m : Maps L T H)
      → (waits (sched_process_exit_entry latency tg host pid m) pid ≡ none)
        × ((j : ℕ) → pid ≢ j → waits (sched_process_exit_entry latency tg host pid m) j ≡ waits m j)
  unfolding sched_process_exit_entry
  waits-exit pid m = (
    ground (arith, lookup-delete_self latency m.latency pid),
    λ j h. ground (arith, lookup-delete_ne latency m.latency pid j h),
  )
