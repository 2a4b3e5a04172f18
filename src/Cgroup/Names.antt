-- ===== src/Cgroup/Names.antt =====
-- Which cgroups the programs of bpf/cgroup_css_events.c and bpf/cgroup_css_gather.c report.
use jidick.Base.{
  ℕ, ◌≡◌, ◌↔◌, refl, arith, ◌==◌, if◌then◌else◌, none, some, List, ◌++◌, length, replicate,
}
use jidick.Cgroup.{
  CgroupPerfEvent, Cgroup, ProbeReadStr, bpf_cgroup_event_class_prog, bpf_cgroup_mkdir_prog,
  bpf_cgroup_rmdir_prog, bpf_cgroup_subsys_state_prog,
}

module _ (probe : ProbeReadStr) where
  -- The length that the helper returns is 65 exactly for a name of 64 characters.
  returns-eq : (name : List ℕ) → (probe.returns 66 (some name) ≡ 65) ↔ (length name ≡ 64)
  returns-eq name = ground (arith, probe.returns_fits 66 name, probe.returns_cut 66 name)

  module _ (cgrp : Cgroup) where
    -- A new and a removed cgroup with a name that can be read are reported exactly when the name is
    -- 64 characters long, as a container's id is. The event has the name whole, with its NUL, and 0
    -- for a new and 1 for a removed cgroup.
    pub mkdir-rmdir-reports :
        (name : List ℕ)
        → cgrp.kn_name ≡ some name
        → let event : ℕ → CgroupPerfEvent = λ type. record {
          cgroup = cgrp.address;
          ops_type = type;
          cgroup_root = cgrp.hierarchy_id;
          cgroup_level = cgrp.level;
          css = cgrp.subsys;
          knode_name = name ++ replicate 2 0;
        } in
          (bpf_cgroup_mkdir_prog probe cgrp ≡ (if length name == 64 then some (event 0) else none))
          × (bpf_cgroup_rmdir_prog probe cgrp
              ≡ (if length name == 64 then some (event 1) else none))
    unfolding bpf_cgroup_mkdir_prog bpf_cgroup_rmdir_prog bpf_cgroup_event_class_prog
    mkdir-rmdir-reports name e = ground (arith, e, returns-eq name, probe.writes_fits 66 name)

    -- A name that cannot be read is not reported.
    mkdir-rmdir-fault :
        cgrp.kn_name ≡ none
        → (bpf_cgroup_mkdir_prog probe cgrp ≡ none) × (bpf_cgroup_rmdir_prog probe cgrp ≡ none)
    unfolding bpf_cgroup_mkdir_prog bpf_cgroup_rmdir_prog bpf_cgroup_event_class_prog
    mkdir-rmdir-fault e = ground (arith, e, probe.returns_fault 66)

    -- The event that gathers a cgroup that is there already is the one of its creation.
    gather-eq-mkdir : bpf_cgroup_subsys_state_prog probe cgrp ≡ bpf_cgroup_mkdir_prog probe cgrp
    unfolding bpf_cgroup_subsys_state_prog bpf_cgroup_mkdir_prog bpf_cgroup_event_class_prog
    gather-eq-mkdir = refl
