-- ===== src/Memory/ReclaimEvents/Pairs.antt =====
-- One direct reclaim from entry to return, as bpf/memory_reclaim_events.c sees it.
use jidick.Base.{ℕ, ◌≡◌, ◌≢◌, refl, List, All, none, some, sub64, ltb, true, if◌then◌else◌, ap}
use jidick.Kernel.BpfMap.{BpfMap, nat_eq, bpf_any}
use jidick.FuncTrace.{TraceEntryCtx, Call, id_of, func_trace_destroy, calls}
use jidick.FuncTrace.Pairs.{end-begain, end-destroy, lookup-destroy}
use jidick.Memory.ReclaimEvents.{TaskStruct, kprobe_try_to_free_pages, kretprobe_try_to_free_pages}

module _ {S : Type 0} (map : BpfMap S ℕ TraceEntryCtx nat_eq) where
  -- A reclaim that the map took on record sends, on its return, exactly one event if it took longer
  -- than the threshold, with its thread, its task's cgroup and name and its time modulo 2 ^ 64, and
  -- none otherwise, whatever the calls for other threads in between; its record is gone afterwards.
  pub reclaim_lem :
      (deltath pid_tgid start now : ℕ) (task : TaskStruct) (cs : List Call) (s : S)
      → map.accepts s pid_tgid bpf_any ≡ true
      → All (λ c. id_of c ≢ pid_tgid) cs
      → let (s', out) =
          kretprobe_try_to_free_pages map deltath task pid_tgid now
            (calls map cs (kprobe_try_to_free_pages map pid_tgid start s)) in
        let took = sub64 now start in
        (out ≡ (
          if ltb deltath took
          then some
              (record { comm = task.comm; delta_time = took; css = task.cpu_css; pid = pid_tgid })
          else none))
        × (map.lookup s' pid_tgid ≡ none)
  unfolding kretprobe_try_to_free_pages kprobe_try_to_free_pages
  reclaim_lem deltath id start now task cs s room apart =
      let (returned, _) = end-begain map id start now cs s room apart in
      rw (returned, kretprobe_try_to_free_pages) (refl, lookup-destroy map id _)

  -- A return whose entry was not recorded, or whose record is gone, sends nothing and leaves the
  -- map as it is.
  return-unrecorded :
      (deltath pid_tgid now : ℕ) (task : TaskStruct) (cs : List Call) (s : S)
      → All (λ c. id_of c ≢ pid_tgid) cs
      → let s' = calls map cs (func_trace_destroy map pid_tgid s) in
        kretprobe_try_to_free_pages map deltath task pid_tgid now s' ≡ (s', none)
  unfolding kretprobe_try_to_free_pages
  return-unrecorded deltath id now task cs s apart =
      let e = end-destroy map id now cs s apart in
      rw (ap (λ r. r.1) e, kretprobe_try_to_free_pages) (ap (λ r. (r.0, none)) e)
