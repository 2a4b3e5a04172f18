-- ===== src/Memory/Reclaim/Counts.antt =====
-- What the counters of bpf/memory_reclaim.c count.
use jidick.Base.{
  ℕ, ◌+◌, ◌<◌, ◌^◌, ◌≡◌, ◌≢◌, ◌∙◌, arith, List, [], ◌∷◌, All, Option, some, to_nat, ◌==◌, ◌&&◌,
  Option-cases, inl, inr, true, ap, ==_iff,
}
use jidick.Kernel.BpfMap.{BpfMap, nat_eq, bpf_any}
use jidick.Kernel.Laws.{lookup-update_self, lookup-delete_self, lookup-delete_ne}
use jidick.Memory.Reclaim.{
  MemCgroupMetric, TaskStruct, is_kswapd, count_stall, Event, reclaim_begin, css_released,
  tracepoint_vmscan_mm_vmscan_memcg_reclaim_begin, kprobe_mem_cgroup_css_released, handle, handles,
}

-- 1 for a direct reclaim of the cgroup, by a task that is not kswapd.
abbrev stalls : ℕ → Event → ℕ
stalls css (reclaim_begin task) = to_nat (is_kswapd task == 0 && task.memory_css == css)
stalls css (css_released _) = 0

abbrev pub all_stalls : ℕ → List Event → ℕ
all_stalls css [] = 0
all_stalls css (e ∷ es) = stalls css e + all_stalls css es

-- The cgroup is not released.
abbrev Keeps : ℕ → Event → Type 0
Keeps css (reclaim_begin _) = Unit
Keeps css (css_released released) = released ≢ css

-- The entry with a count.
abbrev pub counting : ℕ → Option MemCgroupMetric
counting n = some (record { directstall_count = n })

module _ {S : Type 0} (map : BpfMap S ℕ MemCgroupMetric nat_eq) (css : ℕ) where
  lookup-handle :
      (e : Event) (n : ℕ) (s : S)
      → map.lookup s css ≡ counting n
      → Keeps css e
      → n + stalls css e < 2 ^ 64
      → map.lookup (handle map e s) css ≡ counting (n + stalls css e)
  unfolding handle tracepoint_vmscan_mm_vmscan_memcg_reclaim_begin kprobe_mem_cgroup_css_released
  lookup-handle (css_released released) n s there k fits =
      ground (arith, there, lookup-delete_ne map s released css k)
  lookup-handle (reclaim_begin task) n s there k fits =
      let j = task.memory_css in
      elim (Option-cases (map.lookup s j)) [
        | inl e ↦ ground (
          arith,
          e,
          there,
          map.lookup-update s j (record { directstall_count = 1 }) bpf_any css,
          ==_iff j css,
        )
        | inr (v, e) ↦
            ground (arith, e, there, map.lookup-store s j (count_stall v) v css e, ==_iff j css)
      ]

  -- While a cgroup with an entry is not released, its counter grows by the number of direct
  -- reclaims of its tasks, kswapd's aside; what other cgroups do does not show.
  pub lookup-handles :
      (es : List Event) (n : ℕ) (s : S)
      → map.lookup s css ≡ counting n
      → All (Keeps css) es
      → n + all_stalls css es < 2 ^ 64
      → map.lookup (handles map es s) css ≡ counting (n + all_stalls css es)
  unfolding handles
  lookup-handles [] n s there k fits = there ∙ ap counting (omega arith)
  lookup-handles (e ∷ es) n s there k fits =
      lookup-handles es (n + stalls css e) (handle map e s)
        (lookup-handle e n s there k.0 (omega arith)) k.1 (omega arith)
      ∙ ap counting (omega arith)

  -- The first direct reclaim of a cgroup after it was released, by a task that is not kswapd,
  -- starts its count at one, if the map takes the entry, whatever the count was before.
  reclaim-released :
      (task : TaskStruct) (s : S)
      → task.memory_css ≡ css
      → is_kswapd task ≡ 0
      → map.accepts (kprobe_mem_cgroup_css_released map css s) css bpf_any ≡ true
      → map.lookup (handles map (css_released css ∷ reclaim_begin task ∷ []) s) css ≡ counting 1
  unfolding handles handle tracepoint_vmscan_mm_vmscan_memcg_reclaim_begin
      kprobe_mem_cgroup_css_released
  reclaim-released task s same user room =
      let gone = lookup-delete_self map s css in
      let put =
        lookup-update_self map (map.delete s css) css (record { directstall_count = 1 }) bpf_any
          room in
      rw same (ground (arith, gone, put))
