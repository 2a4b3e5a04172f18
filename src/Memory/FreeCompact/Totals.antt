-- ===== src/Memory/FreeCompact/Totals.antt =====
-- The totals that bpf/memory_free_compact.c keeps.
use jidick.Base.{
  [], ◌∷◌, Bool, false, Bool-cases, if◌then◌else◌, if_keeps, ℕ, ◌<◌, ◌^◌, ◌≡◌, ◌≢◌, arith, List,
  All, true, none, sub64, add64, some, ◌∙◌, Option-cases, inl, inr,
}
use jidick.Kernel.BpfMap.{BpfMap, nat_eq, bpf_any}
use jidick.Kernel.Laws.{lookup-update_self, lookup-update_refused, lookup-store_self, entry_or}
use jidick.FuncTrace.{TraceEntryCtx, func_trace_end}
use jidick.FuncTrace.Pairs.{lookup-begain, lookup-destroy}
use jidick.FuncTrace.Keyed.{IsKeyed, IsKeyed-begain}
use jidick.Memory.FreeCompact.Others.{lookup-handles}
use jidick.Memory.FreeCompact.{
  MmFreeCompactEntry, Maps, Event, reclaim_begin, reclaim_end, compact_entry, compact_return,
  thread_of, handle, handles, add_deltas, update_metric_map, func_trace_end_and_update_metric,
  tracepoint_try_to_free_pages_begin, tracepoint_try_to_free_pages_end,
  kprobe_try_to_compact_pages_host, kretprobe_try_to_compact_pages_host,
}

abbrev pub no_time : MmFreeCompactEntry
no_time = record { compaction_stat = 0; allocstall_stat = 0 }

pub record IsWords (v : MmFreeCompactEntry) : Type 0 where
  pub compaction_lt : v.compaction_stat < 2 ^ 64
  pub allocstall_lt : v.allocstall_stat < 2 ^ 64

module _ {F M : Type 0} (trace : BpfMap F ℕ TraceEntryCtx nat_eq)
    (metric : BpfMap M ℕ MmFreeCompactEntry nat_eq) where
  -- The totals, 0 where there is no entry yet.
  abbrev pub totals : M → MmFreeCompactEntry
  totals m = entry_or metric m 0 no_time

  update_metric_map_lem :
      (free compact : ℕ) (m : M)
      → metric.accepts m 0 bpf_any ≡ true
      → IsWords (totals m)
      → free < 2 ^ 64
      → compact < 2 ^ 64
      → totals (update_metric_map trace metric free compact m) ≡ record {
        compaction_stat = add64 (totals m).compaction_stat compact;
        allocstall_stat = add64 (totals m).allocstall_stat free;
      }
  unfolding update_metric_map
  update_metric_map_lem free compact m room w hf hc = elim (Option-cases (metric.lookup m 0)) [
    | inl e ↦
        let fresh : MmFreeCompactEntry = record {
          compaction_stat = compact;
          allocstall_stat = free;
        } in
        ground (arith, e, lookup-update_self metric m 0 fresh bpf_any room)
    | inr (v, e) ↦ ground (arith, e, lookup-store_self metric m 0 (add_deltas free compact v) v e)
  ]

  -- The totals stay words.
  add_deltas-IsWords :
      (free compact : ℕ) (v : MmFreeCompactEntry) → IsWords v → IsWords (add_deltas free compact v)
  unfolding add_deltas
  add_deltas-IsWords free compact v w = record {
    compaction_lt = let lt = w.compaction_lt in ground arith;
    allocstall_lt = let lt = w.allocstall_lt in ground arith;
  }

  update-IsWords :
      (free compact : ℕ) (m : M)
      → free < 2 ^ 64
      → compact < 2 ^ 64
      → IsWords (totals m)
      → IsWords (totals (update_metric_map trace metric free compact m))
  unfolding update_metric_map
  update-IsWords free compact m hf hc w = elim (Option-cases (metric.lookup m 0)) [
    | inl e ↦
        let fresh : MmFreeCompactEntry = record {
          compaction_stat = compact;
          allocstall_stat = free;
        } in
        elim (Bool-cases (metric.accepts m 0 bpf_any)) [
          | inl room ↦
              rw (update_metric_map, e, lookup-update_self metric m 0 fresh bpf_any room)
                (record { compaction_lt = hc; allocstall_lt = hf })
          | inr full ↦
              rw
                (
                  update_metric_map,
                  e,
                  lookup-update_refused metric m 0 fresh bpf_any 0 (ground (arith, full)),
                  e,
                )
                (record { compaction_lt = omega arith; allocstall_lt = omega arith })
        ]
    | inr (v, e) ↦
        let old : IsWords v = rw e at w in
        rw (update_metric_map, e, lookup-store_self metric m 0 (add_deltas free compact v) v e)
          (add_deltas-IsWords free compact v old)
  ]

  ended-IsWords :
      (free_pages : Bool) (id t : ℕ) (s : Maps F M)
      → IsWords (totals s.mm_free_compact)
      → IsWords
          (totals (func_trace_end_and_update_metric trace metric free_pages id t s).mm_free_compact)
  unfolding func_trace_end_and_update_metric func_trace_end
  ended-IsWords free_pages id t s w = elim (Option-cases (trace.lookup s.func_trace id)) [
    | inl e ↦ rw (func_trace_end_and_update_metric, func_trace_end, e) w
    | inr (old, e) ↦
        rw (func_trace_end_and_update_metric, func_trace_end, e)
          (if_keeps (λ m. IsWords (totals m)) free_pages _ _
            (update-IsWords (sub64 t old.start_ns) 0 s.mm_free_compact (omega arith) (omega arith)
              w)
            (update-IsWords 0 (sub64 t old.start_ns) s.mm_free_compact (omega arith) (omega arith)
              w))
  ]

  handle-IsWords :
      (e : Event) (s : Maps F M)
      → IsWords (totals s.mm_free_compact)
      → IsWords (totals (handle trace metric e s).mm_free_compact)
  unfolding handle tracepoint_try_to_free_pages_begin tracepoint_try_to_free_pages_end
      kprobe_try_to_compact_pages_host kretprobe_try_to_compact_pages_host
  handle-IsWords (reclaim_begin id t) s w = w
  handle-IsWords (compact_entry id t) s w = w
  handle-IsWords (reclaim_end id t) s w = ended-IsWords true id t s w
  handle-IsWords (compact_return id t) s w = ended-IsWords false id t s w

  handles-IsWords :
      (es : List Event) (s : Maps F M)
      → IsWords (totals s.mm_free_compact)
      → IsWords (totals (handles trace metric es s).mm_free_compact)
  unfolding handles
  handles-IsWords [] s w = w
  handles-IsWords (e ∷ es) s w = handles-IsWords es (handle trace metric e s) (handle-IsWords e s w)

  -- The end of a call of a thread that is on record.
  ended-counts :
      (free_pages : Bool) (pid_tgid start now : ℕ) (s : Maps F M)
      → trace.lookup s.func_trace pid_tgid
        ≡ some (record { id = pid_tgid; start_ns = start; delta_ns = 0 })
      → metric.accepts s.mm_free_compact 0 bpf_any ≡ true
      → IsWords (totals s.mm_free_compact)
      → let s' = func_trace_end_and_update_metric trace metric free_pages pid_tgid now s in
        let before = totals s.mm_free_compact in
        (totals s'.mm_free_compact ≡ (
          if free_pages
          then record before { allocstall_stat = add64 before.allocstall_stat (sub64 now start) }
          else record before { compaction_stat = add64 before.compaction_stat (sub64 now start) }))
        × (trace.lookup s'.func_trace pid_tgid ≡ none)
  unfolding func_trace_end_and_update_metric func_trace_end
  ended-counts true pid_tgid start now s there room w =
      let counted =
        update_metric_map_lem (sub64 now start) 0 s.mm_free_compact room w (omega arith)
          (omega arith) in
      rw (func_trace_end_and_update_metric, func_trace_end, there)
        (ground (arith, counted), lookup-destroy trace pid_tgid _)
  ended-counts false pid_tgid start now s there room w =
      let counted =
        update_metric_map_lem 0 (sub64 now start) s.mm_free_compact room w (omega arith)
          (omega arith) in
      rw (func_trace_end_and_update_metric, func_trace_end, there)
        (ground (arith, counted), lookup-destroy trace pid_tgid _)

  -- The maps at the return, where handlers ran for other threads meanwhile.
  abbrev pub reclaiming : ℕ → ℕ → List Event → Maps F M → Maps F M
  reclaiming pid_tgid start es s =
      handles trace metric es (tracepoint_try_to_free_pages_begin trace metric pid_tgid start s)

  abbrev pub compacting : ℕ → ℕ → List Event → Maps F M → Maps F M
  compacting pid_tgid start es s =
      handles trace metric es (kprobe_try_to_compact_pages_host trace metric pid_tgid start s)

  module _ (pid_tgid start now : ℕ) (es : List Event) (s : Maps F M)
      (keyed : IsKeyed trace s.func_trace)
      (room : trace.accepts s.func_trace pid_tgid bpf_any ≡ true)
      (apart : All (λ e. thread_of e ≢ pid_tgid) es) where
    on_record :
        trace.lookup (reclaiming pid_tgid start es s).func_trace pid_tgid
        ≡ some (record { id = pid_tgid; start_ns = start; delta_ns = 0 })
    unfolding tracepoint_try_to_free_pages_begin
    on_record =
        lookup-handles trace metric es
          (tracepoint_try_to_free_pages_begin trace metric pid_tgid start s) pid_tgid
          (IsKeyed-begain trace pid_tgid start s.func_trace keyed) apart
        ∙ lookup-begain trace pid_tgid start s.func_trace room

    -- A direct reclaim adds, at its end, its time from begin to end, modulo 2 ^ 64, to the stall
    -- total alone, and a compaction, at its return, its time from entry to return to the compaction
    -- total alone, whatever handlers ran for other threads since, which may have added to the
    -- totals as well; neither leaves a record of the thread. The maps take the entries, the totals
    -- are 64-bit words at first, and the entries of the trace map hold the ids that they are under.
    pub totals_lem :
        metric.accepts (reclaiming pid_tgid start es s).mm_free_compact 0 bpf_any ≡ true
        → metric.accepts (compacting pid_tgid start es s).mm_free_compact 0 bpf_any ≡ true
        → IsWords (totals s.mm_free_compact)
        → let reclaimed =
            tracepoint_try_to_free_pages_end trace metric pid_tgid now
              (reclaiming pid_tgid start es s) in
          let compacted =
            kretprobe_try_to_compact_pages_host trace metric pid_tgid now
              (compacting pid_tgid start es s) in
          let stalled = totals (reclaiming pid_tgid start es s).mm_free_compact in
          let spent = totals (compacting pid_tgid start es s).mm_free_compact in
          (totals reclaimed.mm_free_compact
            ≡ record stalled { allocstall_stat = add64 stalled.allocstall_stat (sub64 now start) })
          × (totals compacted.mm_free_compact
              ≡ record spent { compaction_stat = add64 spent.compaction_stat (sub64 now start) })
          × (trace.lookup reclaimed.func_trace pid_tgid ≡ none)
          × (trace.lookup compacted.func_trace pid_tgid ≡ none)
    unfolding tracepoint_try_to_free_pages_end tracepoint_try_to_free_pages_begin
        kretprobe_try_to_compact_pages_host kprobe_try_to_compact_pages_host
    totals_lem room_reclaim room_compact words =
        let (stall, gone) =
          ended-counts true pid_tgid start now (reclaiming pid_tgid start es s) on_record
            room_reclaim (handles-IsWords es _ words) in
        let (compaction, gone') =
          ended-counts false pid_tgid start now (compacting pid_tgid start es s) on_record
            room_compact (handles-IsWords es _ words) in
        (stall, compaction, gone, gone')
