-- ===== src/Tests/MemoryProbes.antt =====
-- The tracer of bpf/include/bpf_func_trace.h and the memory programs on small maps.
use jidick.Base.{
  ℕ, ◌+◌, ◌≡◌, refl, arith, List, [], ◌∷◌, some, none, add64, sub64, ltb, if◌then◌else◌,
}
use jidick.Kernel.BpfMap.{BpfMap, nat_eq}
use jidick.Kernel.Table.{table, find, takes}
use jidick.FuncTrace.{TraceEntryCtx, Call, begain, finish, destroy, func_trace_begain, calls}
use jidick.Memory.Reclaim.{
  MemCgroupMetric, TaskStruct, is_kswapd, reclaim_begin, css_released,
  kprobe_mem_cgroup_css_released,
}
use jidick.Memory.Reclaim
use jidick.Memory.Reclaim.Counts.{counting, all_stalls, lookup-handles}
use jidick.Memory.ReclaimEvents
use jidick.Memory.ReclaimEvents.{
  ReclaimEntry, kprobe_try_to_free_pages, kretprobe_try_to_free_pages,
}
use jidick.Memory.ReclaimEvents.Pairs.{reclaim_lem}
use jidick.Memory.FreeCompact.{
  MmFreeCompactEntry, reclaim_begin, reclaim_end, compact_entry, handle, handles,
  tracepoint_try_to_free_pages_begin, tracepoint_try_to_free_pages_end,
  kprobe_try_to_compact_pages_host, kretprobe_try_to_compact_pages_host,
}
use jidick.Memory.FreeCompact
use jidick.FuncTrace.Keyed.{IsKeyed}
use jidick.Memory.FreeCompact.Totals.{totals, reclaiming, compacting, totals_lem}
use jidick.Kernel.Cpus.{Steps}
use jidick.Kernel.InsertRace.{look, left}
use jidick.Memory.Reclaim.Race.{lost_counts}

abbrev Traces : Type 0
Traces = List (ℕ × TraceEntryCtx)

abbrev traces : BpfMap Traces ℕ TraceEntryCtx nat_eq
traces = table nat_eq 10

abbrev none_traced : Traces
none_traced = []

-- What another thread, 9, does meanwhile.
abbrev meanwhile : List Call
meanwhile = begain 9 50 ∷ finish 9 60 ∷ destroy 9 ∷ []

abbrev Stalls : Type 0
Stalls = List (ℕ × MemCgroupMetric)

abbrev stall_map : BpfMap Stalls ℕ MemCgroupMetric nat_eq
stall_map = table nat_eq 10

abbrev stalled : Stalls
stalled = (6, record { directstall_count = 2 }) ∷ []

abbrev user : TaskStruct
user = record { flags = 0x40; memory_css = 6 }

abbrev kswapd : TaskStruct
kswapd = record { flags = 0x20040; memory_css = 6 }

abbrev events : List Reclaim.Event
events = reclaim_begin user ∷ reclaim_begin kswapd ∷ css_released 5 ∷ []

lookup-handles_example :
    stall_map.lookup (Reclaim.handles stall_map events stalled) 6
    ≡ counting (2 + all_stalls 6 events)
unfolding find is_kswapd
lookup-handles_example =
    lookup-handles stall_map 6 events 2 stalled refl (omega arith) (omega arith)

abbrev shell : ReclaimEvents.TaskStruct
shell = record { comm = 115 ∷ 104 ∷ []; cpu_css = 3 }

reclaim_lem_example :
    let (s', out) =
      kretprobe_try_to_free_pages traces 20 shell 4 70
        (calls traces meanwhile (kprobe_try_to_free_pages traces 4 10 none_traced)) in
    let took = sub64 70 10 in
    (out ≡ (
      if ltb 20 took
      then some (record { comm = shell.comm; delta_time = took; css = 3; pid = 4 })
      else none))
    × (traces.lookup s' 4 ≡ none)
reclaim_lem_example =
    reclaim_lem traces 20 4 10 70 shell meanwhile none_traced (unfold takes in refl) (omega arith)

abbrev metrics : BpfMap (List (ℕ × MmFreeCompactEntry)) ℕ MmFreeCompactEntry nat_eq
metrics = table nat_eq 10

none-IsKeyed : IsKeyed traces []
unfolding find
none-IsKeyed k = tt

abbrev idle : FreeCompact.Maps Traces (List (ℕ × MmFreeCompactEntry))
idle = record { func_trace = []; mm_free_compact = [] }

-- Meanwhile thread 5 reclaims from 20 to 50, and thread 6 begins a compaction.
abbrev elsewhere : List FreeCompact.Event
elsewhere = reclaim_begin 5 20 ∷ compact_entry 6 30 ∷ reclaim_end 5 50 ∷ []

totals_lem_example :
    let during = reclaiming traces metrics 4 10 elsewhere idle in
    let during' = compacting traces metrics 4 10 elsewhere idle in
    let reclaimed = tracepoint_try_to_free_pages_end traces metrics 4 70 during in
    let compacted = kretprobe_try_to_compact_pages_host traces metrics 4 70 during' in
    let stalled = totals traces metrics during.mm_free_compact in
    let spent = totals traces metrics during'.mm_free_compact in
    (totals traces metrics reclaimed.mm_free_compact
      ≡ record stalled { allocstall_stat = add64 stalled.allocstall_stat (sub64 70 10) })
    × (totals traces metrics compacted.mm_free_compact
        ≡ record spent { compaction_stat = add64 spent.compaction_stat (sub64 70 10) })
    × (traces.lookup reclaimed.func_trace 4 ≡ none)
    × (traces.lookup compacted.func_trace 4 ≡ none)
unfolding find takes handles handle FreeCompact.func_trace_end_and_update_metric
    jidick.FuncTrace.func_trace_end func_trace_begain jidick.Kernel.Table.put
    FreeCompact.update_metric_map
totals_lem_example =
    totals_lem traces metrics 4 10 70 elsewhere idle none-IsKeyed refl (omega arith) refl refl
      (omega arith)

-- Three CPUs reclaim for cgroup 7, which has no entry.
lost_counts_example :
    (s : Stalls) × Steps
      (Reclaim.Race.Move stall_map 7)
      stalled
      (look tt ∷ look tt ∷ look tt ∷ [])
      s
      (left ∷ left ∷ left ∷ [])
    × (stall_map.lookup s 7 ≡ some (record { directstall_count = 1 }))
unfolding find takes
lost_counts_example = lost_counts stall_map 7 (tt ∷ tt ∷ []) stalled refl refl
