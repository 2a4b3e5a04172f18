-- ===== src/Tasks/Perf/Samples.antt =====
-- What the counts of bpf/perf.c count.
use jidick.Base.{
  ℕ, ◌+◌, ◌/◌, ◌<◌, ◌^◌, ◌≡◌, ◌∙◌, ap, arith, List, [], ◌∷◌, Bool, true, some, to_nat, ◌==◌, ◌&&◌,
  ◌||◌, Option-cases, inl, inr, add64,
}
use jidick.Kernel.BpfMap.{Eq, BpfMap, bpf_any}
use jidick.Tasks.Perf.{KeyT, Filter, Sample, key_of, perf_event_sw_cpu_clock, samples}

-- The sample is of the cgroup and of the thread group asked for, if any was.
abbrev pub passes : Filter → Sample → Bool
passes f c = (f.css == 0 || f.css == c.cpu_css) && (f.pid == 0 || f.pid == c.pid_tgid / 2 ^ 32)

module _ {S : Type 0} {e : Eq KeyT} (map : BpfMap S KeyT ℕ e) (f : Filter) (k : KeyT) where
  -- 1 for a sample with the key that passes the filters.
  abbrev hit : Sample → ℕ
  hit c = to_nat (passes f c && e.same (key_of c) k)

  abbrev pub hits : List Sample → ℕ
  hits [] = 0
  hits (c ∷ cs) = hit c + hits cs

  agree : (s : S) (j : KeyT) → e.same j k ≡ true → map.lookup s j ≡ map.lookup s k
  agree s j same = ap (map.lookup s) ((e.same_iff j k).0 same)

  lookup-sample :
      (c : Sample) (n : ℕ) (s : S)
      → map.lookup s k ≡ some n
      → n + hit c < 2 ^ 64
      → map.lookup (perf_event_sw_cpu_clock map f c s) k ≡ some (n + hit c)
  unfolding perf_event_sw_cpu_clock
  lookup-sample c n s there fits =
      let j = key_of c in
      elim (Option-cases (map.lookup s j)) [
        | inl q ↦ ground (arith, q, there, map.lookup-update s j 1 bpf_any k, agree s j)
        | inr (v, q) ↦ ground (arith, q, there, map.lookup-store s j (add64 v 1) v k q, agree s j)
      ]

  -- The count of a key that has one grows by the number of samples with that key that pass the
  -- filters; no other sample shows.
  pub lookup-samples :
      (cs : List Sample) (n : ℕ) (s : S)
      → map.lookup s k ≡ some n
      → n + hits cs < 2 ^ 64
      → map.lookup (samples map f cs s) k ≡ some (n + hits cs)
  unfolding samples
  lookup-samples [] n s there fits = there ∙ ap some (omega arith)
  lookup-samples (c ∷ cs) n s there fits =
      lookup-samples cs (n + hit c) (perf_event_sw_cpu_clock map f c s)
        (lookup-sample c n s there (omega arith)) (omega arith)
      ∙ ap some (omega arith)
