-- ===== src/Memory/Reclaim/Race.antt =====
-- Several CPUs in the handler of bpf/memory_reclaim.c that counts a direct reclaim, for tasks of one
-- memory cgroup.
use jidick.Base.{ℕ, ◌≡◌, true, none, some, List, ◌∷◌, map}
use jidick.Kernel.BpfMap.{BpfMap, nat_eq, bpf_any}
use jidick.Kernel.Cpus.{Steps}
use jidick.Kernel.InsertRace
use jidick.Kernel.InsertRace.{Pc, look, left, lost_updates}
use jidick.Memory.Reclaim.{MemCgroupMetric, count_stall}

module _ {S : Type 0} (metrics : BpfMap S ℕ MemCgroupMetric nat_eq) (css : ℕ) where
  -- One step of one CPU; there is nothing that it has to add but 1.
  abbrev pub Move : S → Pc Unit → S → Pc Unit → Type 0
  Move = InsertRace.Move metrics css (λ _. record { directstall_count = 1 }) (λ _. count_stall)

  -- Any number of CPUs that reclaim for a cgroup without an entry can all return and leave a count
  -- of one, if the map takes the entry: each of them finds no entry, and the last to insert one
  -- overwrites those of the others.
  pub lost_counts :
      (cpus : List Unit) (s : S)
      → metrics.lookup s css ≡ none
      → metrics.accepts s css bpf_any ≡ true
      → (s' : S) × Steps Move s (map look (tt ∷ cpus)) s' (map (λ _. left) (tt ∷ cpus))
        × (metrics.lookup s' css ≡ some (record { directstall_count = 1 }))
  lost_counts cpus =
      lost_updates metrics css (λ _. record { directstall_count = 1 }) (λ _. count_stall) tt cpus
