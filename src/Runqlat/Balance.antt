-- ===== src/Runqlat/Balance.antt =====
-- The counters of the host against those of the groups, in bpf/runqlat_tracing.c.
use jidick.Base.{
  ℕ, ◌≡◌, ◌≢◌, sym, ◌∙◌, ap, true, not, List, [], ◌∷◌, some, arith, All, All-map, sub64,
  Option-cases, Bool-cases, inl, inr, ◌==◌, get_or,
}
use jidick.Kernel.BpfMap.{BpfMap, nat_eq, lookup_or_init, modify}
use jidick.Kernel.Laws.{
  entry_or, lookup_or_init-entry, lookup_or_init-there, lookup-modify_self, lookup-delete_ne,
}
use jidick.Runqlat.{
  StatT, GStatT, new_stat, g_new_stat, TaskStruct, Maps, add_switch, g_add_switch, add_latency,
  g_add_latency, get_task_state, task_running, trace_enqueue, sched_wakeup_entry,
  sched_wakeup_new_entry, enqueue_prev, count_switch, count_latency, dequeue_next,
  sched_switch_entry, sched_process_exit_entry, free_fair_sched_group_entry, Event, wakeup_new,
  wakeup, switch, exit, free_group, handle, handles,
}
use jidick.Runqlat.Buckets.{as_host, g_add_latency-as_host}
use jidick.Runqlat.Sums.{
  plus, Once, Listed, total, total-same, total-lookup_or_init, total-modify, add_switch-plus,
  add_latency-plus, g_add_switch-as_host,
}

-- The groups that an event names are listed, and none of them is freed.
abbrev Names : List ℕ → Event → Type 0
Names groups (switch prev next now_prev now_next) =
    Listed groups prev.sched_task_group × Listed groups next.sched_task_group
Names groups (free_group task_group) = All (λ j. task_group ≢ j) groups
Names groups _ = Unit

module _ {L T H : Type 0} (latency : BpfMap L ℕ ℕ nat_eq) (tg : BpfMap T ℕ StatT nat_eq)
    (host : BpfMap H ℕ GStatT nat_eq) (groups : List ℕ) where
  -- The host has an entry, and its counters are the sums of those of the groups.
  abbrev IsCounted : Maps L T H → Type 0
  IsCounted m = host.lookup m.cpu_host_metric 0 ≡ some (as_host (total tg m.cpu_tg_metric groups))

  -- The same, or nothing was counted yet.
  abbrev pub IsBalanced : Maps L T H → Type 0
  IsBalanced m =
      entry_or host m.cpu_host_metric 0 g_new_stat ≡ as_host (total tg m.cpu_tg_metric groups)

  -- A change of the host and of a listed group that agree.
  IsCounted-change :
      (f : StatT → StatT) (g : GStatT → GStatT) (k : ℕ) (m : Maps L T H)
      → ((a b : StatT) → f (plus a b) ≡ plus (f a) b)
      → ((e : StatT) → g (as_host e) ≡ as_host (f e))
      → Once k groups
      → IsCounted m
      → (lookup_or_init tg m.cpu_tg_metric k new_stat).1 ≡ true
      → IsCounted (record m {
        cpu_tg_metric = modify tg (lookup_or_init tg m.cpu_tg_metric k new_stat).0 k f;
        cpu_host_metric = modify host m.cpu_host_metric 0 g;
      })
  IsCounted-change f g k m passes agrees once h found =
      lookup-modify_self host m.cpu_host_metric 0 g _ h
      ∙ ap some (
          agrees _
          ∙ ap as_host (sym (total-modify tg f m.cpu_tg_metric k groups passes once found)))

  IsCounted-refused :
      (k : ℕ) (m : Maps L T H)
      → IsCounted m
      → IsCounted (record m { cpu_tg_metric = (lookup_or_init tg m.cpu_tg_metric k new_stat).0 })
  IsCounted-refused k m h =
      h ∙ ap (λ s. some (as_host s)) (sym (total-lookup_or_init tg m.cpu_tg_metric k groups))

  IsCounted-count_switch :
      (prev : TaskStruct) (m : Maps L T H)
      → Listed groups prev.sched_task_group
      → IsCounted m
      → IsCounted (count_switch latency tg host prev m).0
  unfolding count_switch
  IsCounted-count_switch prev m (inl none_listed) h = ground (arith, h)
  IsCounted-count_switch prev m (inr once) h =
      let k = prev.sched_task_group in
      let v = not (get_task_state (some prev) == task_running) in
      let change =
        IsCounted-change (add_switch v) (g_add_switch v) k m (add_switch-plus v)
          (g_add_switch-as_host v) once h in
      ground (arith, h, change, IsCounted-refused k m h)

  IsCounted-count_latency :
      (next : TaskStruct) (delta : ℕ) (m : Maps L T H)
      → Listed groups next.sched_task_group
      → IsCounted m
      → IsCounted (count_latency latency tg host next delta m)
  unfolding count_latency
  IsCounted-count_latency next d m (inl none_listed) h = ground (arith, h)
  IsCounted-count_latency next d m (inr once) h =
      let k = next.sched_task_group in
      let change =
        IsCounted-change (add_latency d) (g_add_latency d) k m (add_latency-plus d)
          (g_add_latency-as_host d) once h in
      ground (arith, h, change, IsCounted-refused k m h)

  IsCounted-dequeue_next :
      (next : TaskStruct) (now : ℕ) (m : Maps L T H)
      → Listed groups next.sched_task_group
      → IsCounted m
      → IsCounted (dequeue_next latency tg host next now m)
  unfolding dequeue_next
  IsCounted-dequeue_next next now m listed h =
      elim (Option-cases (latency.lookup m.latency next.pid)) [
        | inl e ↦ rw (e, dequeue_next) (ground (arith, h))
        | inr (ts, e) ↦
            let gone = record m { latency = latency.delete m.latency next.pid } in
            let counted = IsCounted-count_latency next (sub64 now ts) gone listed h in
            rw (e, dequeue_next) (ground (arith, h, counted))
      ]

  IsBalanced-enqueue_prev :
      (prev : TaskStruct) (now : ℕ) (m : Maps L T H)
      → IsBalanced m
      → IsBalanced (enqueue_prev latency tg host prev now m)
  unfolding enqueue_prev
  IsBalanced-enqueue_prev prev now m h = ground (arith, h)

  IsBalanced-sched_switch :
      (prev next : TaskStruct) (now_prev now_next : ℕ) (m : Maps L T H)
      → Listed groups prev.sched_task_group
      → Listed groups next.sched_task_group
      → IsBalanced m
      → IsBalanced (sched_switch_entry latency tg host prev next now_prev now_next m)
  unfolding sched_switch_entry
  IsBalanced-sched_switch prev next now_prev now_next m p n h =
      let m₁ = enqueue_prev latency tg host prev now_prev m in
      let h₁ = IsBalanced-enqueue_prev prev now_prev m h in
      let m₂ = record m₁ {
        cpu_host_metric = (lookup_or_init host m₁.cpu_host_metric 0 g_new_stat).0;
      } in
      elim (Bool-cases (lookup_or_init host m₁.cpu_host_metric 0 g_new_stat).1) [
        | inr e ↦
            let kept : IsBalanced m₂ =
              lookup_or_init-entry host m₁.cpu_host_metric 0 g_new_stat 0 ∙ h₁ in
            rw (e, sched_switch_entry) kept
        | inl e ↦
            let counted : IsCounted m₂ =
              lookup_or_init-there host m₁.cpu_host_metric 0 g_new_stat e ∙ ap some h₁ in
            let switched = IsCounted-count_switch prev m₂ p counted in
            let ended =
              IsCounted-dequeue_next next now_next (count_switch latency tg host prev m₂).0 n
                switched in
            rw (e, sched_switch_entry)
              (elim (Bool-cases (count_switch latency tg host prev m₂).1) [
                | inl go ↦ rw go (ap (λ o. get_or o g_new_stat) ended)
                | inr stop ↦ rw stop (ap (λ o. get_or o g_new_stat) switched)
              ])
      ]

  IsBalanced-free_fair_sched_group :
      (task_group : ℕ) (m : Maps L T H)
      → All (λ j. task_group ≢ j) groups
      → IsBalanced m
      → IsBalanced (free_fair_sched_group_entry latency tg host task_group m)
  unfolding free_fair_sched_group_entry
  IsBalanced-free_fair_sched_group k m apart h =
      let t = m.cpu_tg_metric in
      let same = total-same tg t (tg.delete t k) groups (
        All-map (λ j ne. ap (λ o. get_or o new_stat) (lookup-delete_ne tg t k j ne)) groups
          apart) in
      ground (arith, h, h ∙ ap as_host (sym same))

  IsBalanced-handle :
      (e : Event) (m : Maps L T H)
      → Names groups e
      → IsBalanced m
      → IsBalanced (handle latency tg host e m)
  unfolding handle sched_wakeup_entry sched_wakeup_new_entry sched_process_exit_entry trace_enqueue
  IsBalanced-handle (wakeup_new pid ts) m names h = ground (arith, h)
  IsBalanced-handle (wakeup pid ts) m names h = ground (arith, h)
  IsBalanced-handle (switch prev next now_prev now_next) m names h =
      IsBalanced-sched_switch prev next now_prev now_next m names.0 names.1 h
  IsBalanced-handle (exit pid) m names h = ground (arith, h)
  IsBalanced-handle (free_group task_group) m names h =
      IsBalanced-free_fair_sched_group task_group m names h

  -- For any list of groups that has each group of the switched tasks once and none that is freed,
  -- each counter of the host stays the sum of that of the groups, modulo 2 ^ 64, whatever the
  -- handlers are called with and whatever entries the full maps refuse.
  pub handles-IsBalanced :
      (es : List Event) (m : Maps L T H)
      → All (Names groups) es
      → IsBalanced m
      → IsBalanced (handles latency tg host es m)
  unfolding handles
  handles-IsBalanced [] m names h = h
  handles-IsBalanced (e ∷ es) m names h =
      handles-IsBalanced es (handle latency tg host e m) names.1 (IsBalanced-handle e m names.0 h)
