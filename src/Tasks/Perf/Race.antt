-- ===== src/Tasks/Perf/Race.antt =====
-- Several CPUs in the handler of bpf/perf.c, for samples with the same key that pass its filters.
use jidick.Base.{ℕ, ◌≡◌, true, none, some, add64, List, ◌∷◌, map}
use jidick.Kernel.BpfMap.{Eq, BpfMap, bpf_any}
use jidick.Kernel.Cpus.{Steps}
use jidick.Kernel.InsertRace
use jidick.Kernel.InsertRace.{Pc, look, left, lost_updates}
use jidick.Tasks.Perf.{KeyT}

module _ {S : Type 0} {e : Eq KeyT} (counts : BpfMap S KeyT ℕ e) (key : KeyT) where
  -- One step of one CPU.
  abbrev pub Move : S → Pc Unit → S → Pc Unit → Type 0
  Move = InsertRace.Move counts key (λ _. 1) (λ _ v. add64 v 1)

  -- Any number of CPUs that take the first samples of a key can all return and leave a count of one,
  -- if the map takes the entry.
  lost_samples :
      (cpus : List Unit) (s : S)
      → counts.lookup s key ≡ none
      → counts.accepts s key bpf_any ≡ true
      → (s' : S) × Steps Move s (map look (tt ∷ cpus)) s' (map (λ _. left) (tt ∷ cpus))
        × (counts.lookup s' key ≡ some 1)
  lost_samples cpus = lost_updates counts key (λ _. 1) (λ _ v. add64 v 1) tt cpus
