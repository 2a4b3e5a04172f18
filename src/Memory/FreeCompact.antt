-- ===== src/Memory/FreeCompact.antt =====
-- bpf/memory_free_compact.c: time that the host spends in direct reclaim and in compaction.
pub mod Others
pub mod Totals
pub mod Race
use jidick.Base.{
  ℕ, Bool, true, false, not, ◌==◌, if◌then◌else◌, Option, none, some, add64, List, [], ◌∷◌,
}
use jidick.Kernel.BpfMap.{BpfMap, nat_eq, bpf_any}
use jidick.FuncTrace.{TraceEntryCtx, func_trace_begain, func_trace_end, func_trace_destroy}

-- `struct mm_free_compact_entry`
pub record MmFreeCompactEntry : Type 0 where
  pub compaction_stat : ℕ
  pub allocstall_stat : ℕ

-- `func_trace_map` and `mm_free_compact_map`
pub record Maps (F M : Type 0) : Type 0 where
  pub func_trace : F
  pub mm_free_compact : M

-- The two conditional additions of `update_metric_map`.
unfoldable pub add_deltas : ℕ → ℕ → MmFreeCompactEntry → MmFreeCompactEntry
add_deltas free_delta_ns compact_delta_ns v = record {
  compaction_stat =
      if not (compact_delta_ns == 0)
      then add64 v.compaction_stat compact_delta_ns
      else v.compaction_stat;
  allocstall_stat =
      if not (free_delta_ns == 0) then add64 v.allocstall_stat free_delta_ns else v.allocstall_stat;
}

-- The calls of the four handlers, with the thread and the clock.
pub data Event : Type 0 where
  reclaim_begin reclaim_end compact_entry compact_return : (pid_tgid ktime : ℕ) → Event

abbrev pub thread_of : Event → ℕ
thread_of (reclaim_begin pid_tgid ktime) = pid_tgid
thread_of (reclaim_end pid_tgid ktime) = pid_tgid
thread_of (compact_entry pid_tgid ktime) = pid_tgid
thread_of (compact_return pid_tgid ktime) = pid_tgid

module _ {F M : Type 0} (trace : BpfMap F ℕ TraceEntryCtx nat_eq)
    (metric : BpfMap M ℕ MmFreeCompactEntry nat_eq) where
  unfoldable pub update_metric_map : ℕ → ℕ → M → M
  unfolding add_deltas
  update_metric_map free_delta_ns compact_delta_ns m = elim (metric.lookup m 0) [
    | none ↦
        metric.update m 0
          (record { compaction_stat = compact_delta_ns; allocstall_stat = free_delta_ns }) bpf_any
    | some v ↦ metric.store m 0 (add_deltas free_delta_ns compact_delta_ns v)
  ]

  unfoldable pub func_trace_end_and_update_metric : Bool → ℕ → ℕ → Maps F M → Maps F M
  func_trace_end_and_update_metric free_pages pid_tgid ktime s =
      let (f, found) = func_trace_end trace pid_tgid ktime s.func_trace in
      elim found [
        | none ↦ record s { func_trace = f }
        | some entry ↦ record {
          func_trace = func_trace_destroy trace entry.id f;
          mm_free_compact =
              if free_pages
              then update_metric_map entry.delta_ns 0 s.mm_free_compact
              else update_metric_map 0 entry.delta_ns s.mm_free_compact;
        }
      ]

  unfoldable pub tracepoint_try_to_free_pages_begin : ℕ → ℕ → Maps F M → Maps F M
  tracepoint_try_to_free_pages_begin pid_tgid ktime s = record s {
    func_trace = func_trace_begain trace pid_tgid ktime s.func_trace;
  }

  unfoldable pub tracepoint_try_to_free_pages_end : ℕ → ℕ → Maps F M → Maps F M
  tracepoint_try_to_free_pages_end pid_tgid ktime s =
      func_trace_end_and_update_metric true pid_tgid ktime s

  unfoldable pub kprobe_try_to_compact_pages_host : ℕ → ℕ → Maps F M → Maps F M
  kprobe_try_to_compact_pages_host pid_tgid ktime s = record s {
    func_trace = func_trace_begain trace pid_tgid ktime s.func_trace;
  }

  unfoldable pub kretprobe_try_to_compact_pages_host : ℕ → ℕ → Maps F M → Maps F M
  kretprobe_try_to_compact_pages_host pid_tgid ktime s =
      func_trace_end_and_update_metric false pid_tgid ktime s

  unfoldable pub handle : Event → Maps F M → Maps F M
  unfolding tracepoint_try_to_free_pages_begin tracepoint_try_to_free_pages_end
      kprobe_try_to_compact_pages_host kretprobe_try_to_compact_pages_host
  handle (reclaim_begin pid_tgid ktime) s = tracepoint_try_to_free_pages_begin pid_tgid ktime s
  handle (reclaim_end pid_tgid ktime) s = tracepoint_try_to_free_pages_end pid_tgid ktime s
  handle (compact_entry pid_tgid ktime) s = kprobe_try_to_compact_pages_host pid_tgid ktime s
  handle (compact_return pid_tgid ktime) s = kretprobe_try_to_compact_pages_host pid_tgid ktime s

  unfoldable pub handles : List Event → Maps F M → Maps F M
  unfolding handle
  handles [] s = s
  handles (e ∷ es) s = handles es (handle e s)
