-- ===== src/Tests/TaskProbes.antt =====
-- The programs that observe tasks and cgroups, at concrete inputs.
use jidick.Base.{
  ℕ, ◌+◌, ◌-◌, ◌≤◌, ◌^◌, ◌≡◌, refl, arith, List, [], ◌∷◌, ◌++◌, Option, some, none, Bool, true,
  replicate, ◌<◌, ◌↔◌, length, if◌then◌else◌, ◌==◌, ltb,
}
use mathlib.Core.Bool.{decide}
use native.Mathlib.Decide.{ℕ_discrete}
use jidick.Kernel.BpfMap.{BpfMap, nat_eq, Eq}
use jidick.Kernel.Table.{table, find}
use jidick.Ratelimit.{BpfRatelimit, new, init_from_cfg}
use jidick.Ratelimit.Refine.{Models}
use jidick.Tasks.Alarms.{cfg, OomInfo, TaskStruct}
use jidick.Tasks.Perf.{KeyT, Filter, Sample, key_of}
use jidick.Cgroup.{Cgroup, ProbeReadStr, bpf_cgroup_mkdir_prog, bpf_cgroup_rmdir_prog}
use jidick.Cgroup.CssData.{is_valid_knode_name, sync, container_of, container_of-sync}

abbrev cells : BpfMap (List (ℕ × BpfRatelimit)) ℕ BpfRatelimit nat_eq
cells = table nat_eq 1

abbrev zeroed : List (ℕ × BpfRatelimit)
zeroed = (0, new 0 0) ∷ []

zeroed-Models : Models cells cfg zeroed cfg
unfolding find init_from_cfg
zeroed-Models = (new 0 0, refl, refl)

abbrev shell : TaskStruct
shell = record { pid = 5; comm = 115 ∷ 104 ∷ []; memory_css = 3 }

abbrev victim : TaskStruct
victim = record shell { pid = 6 }

abbrev kill : OomInfo
kill = record {
  trigger_comm = shell.comm;
  victim_comm = shell.comm;
  trigger_pid = 5;
  victim_pid = 6;
  trigger_memcg_css = 3;
  victim_memcg_css = 3;
}

-- Keys of `counts` are equal field by field, as the kernel compares their bytes.
KeyT-discrete : Discrete KeyT
KeyT-discrete = hlevel (ℕ_discrete)

same_key : KeyT → KeyT → Bool
same_key a b = decide (KeyT-discrete a b)

same_key_iff : (a b : KeyT) → (same_key a b ≡ true) ↔ (a ≡ b)
unfolding same_key decide
same_key_iff a b = elim (KeyT-discrete a b) as (λ d. (decide d ≡ true) ↔ (a ≡ b)) [
  | yes e ↦ (λ _. e, λ _. refl)
  | no n ↦ (λ q. cc, λ e. absurd (n e))
]

abbrev key_eq : Eq KeyT
key_eq = record { same = same_key; same_iff = same_key_iff }

abbrev counts : BpfMap (List (KeyT × ℕ)) KeyT ℕ key_eq
counts = table key_eq 10

abbrev sample : Sample
sample = record {
  cpu_css = 3;
  pid_tgid = 0x5_0000_0006;
  comm = 115 ∷ 104 ∷ [];
  ustack = 1 ∷ 2 ∷ [];
  ustack_size = 16;
  kstack = [];
  kstack_size = 0;
}

abbrev seen : List (KeyT × ℕ)
seen = (key_of sample, 4) ∷ []

seen-sample : counts.lookup seen (key_of sample) ≡ some 4
unfolding find
seen-sample = rw ((same_key_iff (key_of sample) (key_of sample)).1 refl)

-- Of thread group 5 alone.
abbrev group_5 : Filter
group_5 = record { css = 0; pid = 5 }

-- The helper as it is documented, in one function of the name's length.
abbrev read_returns : ℕ → Option (List ℕ) → ℕ
read_returns size none = 2 ^ 32 - 14
read_returns size (some name) = if ltb (length name) size then length name + 1 else size

abbrev read_writes : ℕ → Option (List ℕ) → List ℕ
read_writes size none = replicate size 0
read_writes size (some name) = name ++ replicate (size - length name) 0

read_returns-fits :
    (size : ℕ) (name : List ℕ)
    → length name < size
    → read_returns size (some name) ≡ length name + 1
read_returns-fits size name h = ground arith

read_returns-cut :
    (size : ℕ) (name : List ℕ)
    → 0 < size
    → size ≤ length name
    → read_returns size (some name) ≡ size
read_returns-cut size name pos h = ground arith

abbrev probe : ProbeReadStr
probe = record {
  returns = read_returns;
  writes = read_writes;
  returns_fits = read_returns-fits;
  returns_cut = read_returns-cut;
  returns_fault = λ size. omega arith;
  writes_fits = λ size name h. refl;
}

abbrev container_name : List ℕ
container_name = replicate 64 97

abbrev container : Cgroup
container = record {
  address = 4096;
  kn_name = some (container_name);
  hierarchy_id = 1;
  level = 3;
  subsys = 0 ∷ 8192 ∷ replicate 11 0;
}

-- The second subsystem is `cpu`; the others have no name here.
abbrev sub_sys_name : ℕ → Option (List ℕ)
sub_sys_name index = if index == 1 then some (99 ∷ 112 ∷ 117 ∷ []) else none

container_of-sync_example :
    (container_of (sync sub_sys_name (bpf_cgroup_mkdir_prog probe container) (λ _. none)) 8192
      ≡ some container_name)
    × (container_of (sync sub_sys_name (bpf_cgroup_rmdir_prog probe container) (λ _. none)) 8192
        ≡ none)
unfolding replicate is_valid_knode_name
container_of-sync_example =
    container_of-sync sub_sys_name probe container container_name (λ _. none) 8192 refl refl
