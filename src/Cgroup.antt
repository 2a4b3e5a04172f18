-- ===== src/Cgroup.antt =====
-- bpf/cgroup_css_events.c and bpf/cgroup_css_gather.c: events that tell user space the subsystem
-- states of the cgroups of containers, by the name of the cgroup's directory.
pub mod Names
pub mod CssData
use jidick.Base.{
  ℕ, ◌+◌, ◌-◌, ◌≤◌, ◌<◌, ◌^◌, ◌≡◌, not, ◌==◌, if◌then◌else◌, Option, none, some, List, ◌++◌, length,
  replicate,
}

-- `CGROUP_KNODE_NAME_MAXLEN`
abbrev knode_name_maxlen : ℕ
knode_name_maxlen = 64

-- `sizeof(data.knode_name)`
abbrev knode_name_size : ℕ
knode_name_size = 66

-- `struct cgroup_perf_event_t`; the two `s32` are their bit patterns.
pub record CgroupPerfEvent : Type 0 where
  pub cgroup : ℕ
  pub ops_type : ℕ
  pub cgroup_root : ℕ
  pub cgroup_level : ℕ
  pub css : List ℕ
  pub knode_name : List ℕ

-- What is read of a `struct cgroup`, at `address`: `none` is a name that cannot be read, and
-- `subsys` the pointers to its CGROUP_SUBSYS_COUNT subsystem states.
pub record Cgroup : Type 0 where
  pub address : ℕ
  pub kn_name : Option (List ℕ)
  pub hierarchy_id : ℕ
  pub level : ℕ
  pub subsys : List ℕ

-- The helper `bpf_probe_read_str(dst, size, name)` of the kernel, for a zeroed `dst`: the length
-- that it returns, as a 32-bit pattern, with the NUL counted and cut to the size, or a negative
-- error; and what it leaves in `dst`.
pub record ProbeReadStr : Type 0 where
  pub returns : ℕ → Option (List ℕ) → ℕ
  pub writes : ℕ → Option (List ℕ) → List ℕ
  pub returns_fits :
      (size : ℕ) (name : List ℕ) → length name < size → returns size (some name) ≡ length name + 1
  pub returns_cut :
      (size : ℕ) (name : List ℕ) → 0 < size → size ≤ length name → returns size (some name) ≡ size
  pub returns_fault : (size : ℕ) → 2 ^ 31 ≤ returns size none
  pub writes_fits :
      (size : ℕ) (name : List ℕ)
      → length name < size
      → writes size (some name) ≡ name ++ replicate (size - length name) 0

module _ (probe : ProbeReadStr) where
  -- `bpf_cgroup_event_class_prog`
  unfoldable pub bpf_cgroup_event_class_prog : Cgroup → ℕ → Option CgroupPerfEvent
  bpf_cgroup_event_class_prog cgrp type =
      let knode_len = probe.returns knode_name_size cgrp.kn_name in
      if not (knode_len == knode_name_maxlen + 1)
      then none
      else some (record {
        cgroup = cgrp.address;
        ops_type = type;
        cgroup_root = cgrp.hierarchy_id;
        cgroup_level = cgrp.level;
        css = cgrp.subsys;
        knode_name = probe.writes knode_name_size cgrp.kn_name;
      })

  unfoldable pub bpf_cgroup_mkdir_prog : Cgroup → Option CgroupPerfEvent
  bpf_cgroup_mkdir_prog cgrp = bpf_cgroup_event_class_prog cgrp 0

  unfoldable pub bpf_cgroup_rmdir_prog : Cgroup → Option CgroupPerfEvent
  bpf_cgroup_rmdir_prog cgrp = bpf_cgroup_event_class_prog cgrp 1

  -- `bpf_cgroup_subsys_state_prog` of bpf/cgroup_css_gather.c, for a subsystem state of `cgrp`
  unfoldable pub bpf_cgroup_subsys_state_prog : Cgroup → Option CgroupPerfEvent
  bpf_cgroup_subsys_state_prog cgrp =
      let knode_len = probe.returns knode_name_size cgrp.kn_name in
      if not (knode_len == knode_name_maxlen + 1)
      then none
      else some (record {
        cgroup = cgrp.address;
        ops_type = 0;
        cgroup_root = cgrp.hierarchy_id;
        cgroup_level = cgrp.level;
        css = cgrp.subsys;
        knode_name = probe.writes knode_name_size cgrp.kn_name;
      })
