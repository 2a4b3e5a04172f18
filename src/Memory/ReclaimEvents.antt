-- ===== src/Memory/ReclaimEvents.antt =====
-- bpf/memory_reclaim_events.c: an event for each direct reclaim that took longer than `deltath`.
pub mod Pairs
use jidick.Base.{ℕ, ltb, if◌then◌else◌, Option, none, some, List, [], ◌∷◌}
use jidick.Kernel.BpfMap.{BpfMap, nat_eq}
use jidick.FuncTrace.{TraceEntryCtx, func_trace_begain, func_trace_end, func_trace_destroy}

-- `struct reclaim_entry`
pub record ReclaimEntry : Type 0 where
  pub comm : List ℕ
  pub delta_time : ℕ
  pub css : ℕ
  pub pid : ℕ

-- What the return probe reads of the current task: its name and its CPU cgroup.
pub record TaskStruct : Type 0 where
  pub comm : List ℕ
  pub cpu_css : ℕ

-- `func_trace_map` is `map`; `pid_tgid` is `bpf_get_current_pid_tgid()`.
module _ {S : Type 0} (map : BpfMap S ℕ TraceEntryCtx nat_eq) where
  unfoldable pub kprobe_try_to_free_pages : ℕ → ℕ → S → S
  kprobe_try_to_free_pages pid_tgid ktime s = func_trace_begain map pid_tgid ktime s

  unfoldable pub kretprobe_try_to_free_pages : ℕ → TaskStruct → ℕ → ℕ → S → S × Option ReclaimEntry
  kretprobe_try_to_free_pages deltath task pid_tgid ktime s =
      let (s', found) = func_trace_end map pid_tgid ktime s in
      elim found [
        | none ↦ (s', none)
        | some entry ↦ (
          func_trace_destroy map entry.id s',
          if ltb deltath entry.delta_ns
              then some (record {
                comm = task.comm;
                delta_time = entry.delta_ns;
                css = task.cpu_css;
                pid = entry.id;
              })
              else none,
        )
      ]
