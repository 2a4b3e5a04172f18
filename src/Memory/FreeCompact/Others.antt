-- ===== src/Memory/FreeCompact/Others.antt =====
-- What the handlers of bpf/memory_free_compact.c do to the maps for other threads.
use jidick.Base.{
  ℕ, ◌≡◌, ◌≢◌, refl, ◌∙◌, arith, List, [], ◌∷◌, All, Bool, true, false, Option-cases, inl, inr,
}
use jidick.Kernel.BpfMap.{BpfMap, nat_eq}
use jidick.FuncTrace.{
  TraceEntryCtx, Call, begain, finish, destroy, id_of, call, calls, func_trace_end,
}
use jidick.FuncTrace.Keyed.{IsKeyed, IsKeyed-calls, HoldsId-end}
use jidick.FuncTrace.Pairs.{lookup-calls}
use jidick.Memory.FreeCompact.{
  MmFreeCompactEntry, Maps, Event, reclaim_begin, reclaim_end, compact_entry, compact_return,
  thread_of, func_trace_end_and_update_metric, tracepoint_try_to_free_pages_begin,
  tracepoint_try_to_free_pages_end, kprobe_try_to_compact_pages_host,
  kretprobe_try_to_compact_pages_host, handle, handles,
}

module _ {F M : Type 0} (trace : BpfMap F ℕ TraceEntryCtx nat_eq)
    (metric : BpfMap M ℕ MmFreeCompactEntry nat_eq) where
  -- The trace map after a handler, as after calls for its thread.
  record IsCalls (id : ℕ) (s s' : F) : Type 0 where
    made : List Call
    own : All (λ c. id_of c ≡ id) made
    same : s' ≡ calls trace made s

  ended :
      (free_pages : Bool) (id t : ℕ) (s : Maps F M)
      → IsKeyed trace s.func_trace
      → IsCalls id s.func_trace
          (func_trace_end_and_update_metric trace metric free_pages id t s).func_trace
  unfolding func_trace_end_and_update_metric calls call
  ended free_pages id t s keyed = elim (Option-cases (func_trace_end trace id t s.func_trace).1) [
    | inl e ↦ record {
      made = finish id t ∷ [];
      own = (refl, tt);
      same = rw (func_trace_end_and_update_metric, e) refl;
    }
    | inr (entry, e) ↦
        let holds = HoldsId-end trace id t s.func_trace keyed in
        let same : entry.id ≡ id = rw e at holds in
        record {
          made = finish id t ∷ destroy id ∷ [];
          own = (refl, (refl, tt));
          same = rw (func_trace_end_and_update_metric, e, same) refl;
        }
  ]

  handled :
      (e : Event) (s : Maps F M)
      → IsKeyed trace s.func_trace
      → IsCalls (thread_of e) s.func_trace (handle trace metric e s).func_trace
  unfolding handle calls call tracepoint_try_to_free_pages_begin tracepoint_try_to_free_pages_end
      kprobe_try_to_compact_pages_host kretprobe_try_to_compact_pages_host
  handled (reclaim_begin id t) s keyed = record {
    made = begain id t ∷ [];
    own = (refl, tt);
    same = refl;
  }
  handled (compact_entry id t) s keyed = record {
    made = begain id t ∷ [];
    own = (refl, tt);
    same = refl;
  }
  handled (reclaim_end id t) s keyed = ended true id t s keyed
  handled (compact_return id t) s keyed = ended false id t s keyed

  others :
      (id j : ℕ) (cs : List Call) → id ≢ j → All (λ c. id_of c ≡ id) cs → All (λ c. id_of c ≢ j) cs
  others id j [] apart own = tt
  others id j (c ∷ cs) apart own = (ground (arith, own.0), others id j cs apart own.1)

  -- Handlers that run for other threads leave a thread's record alone.
  pub lookup-handles :
      (es : List Event) (s : Maps F M) (j : ℕ)
      → IsKeyed trace s.func_trace
      → All (λ e. thread_of e ≢ j) es
      → trace.lookup (handles trace metric es s).func_trace j ≡ trace.lookup s.func_trace j
  unfolding handles
  lookup-handles [] s j keyed apart = refl
  lookup-handles (e ∷ es) s j keyed apart =
      let h = handled e s keyed in
      let keyed' : IsKeyed trace (handle trace metric e s).func_trace =
        rw h.same (IsKeyed-calls trace h.made s.func_trace keyed) in
      let kept =
        lookup-calls trace h.made s.func_trace j (others (thread_of e) j h.made apart.0 h.own) in
      lookup-handles es (handle trace metric e s) j keyed' apart.1 ∙ rw h.same kept
