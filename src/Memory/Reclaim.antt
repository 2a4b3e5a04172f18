-- ===== src/Memory/Reclaim.antt =====
-- bpf/memory_reclaim.c: direct reclaims of each memory cgroup.
pub mod Counts
pub mod Race
use jidick.Base.{ℕ, ◌/◌, ◌%◌, ◌==◌, if◌then◌else◌, not, Option, none, some, add64, List, [], ◌∷◌}
use jidick.Kernel.BpfMap.{BpfMap, nat_eq, bpf_any, modify}

-- `struct mem_cgroup_metric`
pub record MemCgroupMetric : Type 0 where
  pub directstall_count : ℕ

-- `valp->directstall_count += 1`
unfoldable pub count_stall : MemCgroupMetric → MemCgroupMetric
count_stall v = record { directstall_count = add64 v.directstall_count 1 }

-- What the handler reads of the current task: its flags and its memory cgroup.
pub record TaskStruct : Type 0 where
  pub flags : ℕ
  pub memory_css : ℕ

-- `flags & PF_KSWAPD`; PF_KSWAPD is 0x00020000, one bit.
unfoldable pub is_kswapd : TaskStruct → ℕ
is_kswapd task = task.flags / 0x00020000 % 2

-- A call of one of the two handlers.
pub data Event : Type 0 where
  reclaim_begin : (task : TaskStruct) → Event
  css_released : (css : ℕ) → Event

module _ {S : Type 0} (map : BpfMap S ℕ MemCgroupMetric nat_eq) where
  unfoldable pub tracepoint_vmscan_mm_vmscan_memcg_reclaim_begin : TaskStruct → S → S
  unfolding is_kswapd count_stall
  tracepoint_vmscan_mm_vmscan_memcg_reclaim_begin task s =
      if not (is_kswapd task == 0) then s else elim (map.lookup s task.memory_css) [
        | none ↦ map.update s task.memory_css (record { directstall_count = 1 }) bpf_any
        | some v ↦ map.store s task.memory_css (count_stall v)
      ]

  unfoldable pub kprobe_mem_cgroup_css_released : ℕ → S → S
  kprobe_mem_cgroup_css_released css s = map.delete s css

  unfoldable pub handle : Event → S → S
  handle (reclaim_begin task) = tracepoint_vmscan_mm_vmscan_memcg_reclaim_begin task
  handle (css_released css) = kprobe_mem_cgroup_css_released css

  unfoldable pub handles : List Event → S → S
  handles [] s = s
  handles (e ∷ es) s = handles es (handle e s)
