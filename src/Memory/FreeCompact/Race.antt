-- ===== src/Memory/FreeCompact/Race.antt =====
-- Several CPUs in `update_metric_map` of bpf/memory_free_compact.c; the two additions are one step.
use jidick.Base.{ℕ, ◌≡◌, true, none, some, List, ◌∷◌, map}
use jidick.Kernel.BpfMap.{BpfMap, nat_eq, bpf_any}
use jidick.Kernel.Cpus.{Steps}
use jidick.Kernel.InsertRace
use jidick.Kernel.InsertRace.{Pc, look, left, lost_updates}
use jidick.Memory.FreeCompact.{MmFreeCompactEntry, add_deltas}

-- The arguments of a call.
pub record Deltas : Type 0 where
  pub free_delta_ns : ℕ
  pub compact_delta_ns : ℕ

-- `new_metrics`
abbrev pub new_metrics : Deltas → MmFreeCompactEntry
new_metrics d = record { compaction_stat = d.compact_delta_ns; allocstall_stat = d.free_delta_ns }

module _ {S : Type 0} (metric : BpfMap S ℕ MmFreeCompactEntry nat_eq) where
  -- One step of one CPU.
  abbrev pub Move : S → Pc Deltas → S → Pc Deltas → Type 0
  Move = InsertRace.Move metric 0 new_metrics (λ d. add_deltas d.free_delta_ns d.compact_delta_ns)

  -- Any number of CPUs that add to the totals of the host before there is an entry can all return
  -- and leave the time of one of them as the totals, if the map takes the entry.
  lost_deltas :
      (d : Deltas) (ds : List Deltas) (s : S)
      → metric.lookup s 0 ≡ none
      → metric.accepts s 0 bpf_any ≡ true
      → (s' : S) × Steps Move s (map look (d ∷ ds)) s' (map (λ _. left) (d ∷ ds))
        × (metric.lookup s' 0 ≡ some (new_metrics d))
  lost_deltas d ds =
      lost_updates metric 0 new_metrics (λ d. add_deltas d.free_delta_ns d.compact_delta_ns) d ds
