-- ===== src/Tasks/Alarms.antt =====
-- bpf/softlockup.c, bpf/oom.c and bpf/hungtask.c: an event for each soft lockup, OOM kill and hung
-- task; the first two behind a limiter that lives in a map.
use jidick.Base.{ℕ, ◌*◌, ◌/◌, ◌^◌, not, ◌==◌, if◌then◌else◌, Option, none, some, List}
use jidick.Kernel.BpfMap.{BpfMap, nat_eq}
use jidick.Kernel.Taint.{taint_flag, softlockup}
use jidick.Kernel.Compat.{compat_cpu_num}
use jidick.Ratelimit.{BpfRatelimit, bpf_ratelimited_core_in_map, in_map_cfg}

-- `TAINT_SOFTLOCKUP` of bpf/include/linux_kernel.h
abbrev pub taint_softlockup : ℕ
taint_softlockup = taint_flag softlockup

-- `BPF_RATELIMIT_IN_MAP(rate, 1, COMPAT_CPU_NUM * 10000, 0)`, in both programs
abbrev pub cfg : BpfRatelimit
cfg = in_map_cfg 1 (compat_cpu_num * 10000) 0

-- `struct softlockup_info`, `struct oom_info` and `struct hungtask_info`
pub record SoftlockupInfo : Type 0 where
  pub cpu : ℕ
  pub pid : ℕ
  pub comm : List ℕ

pub record OomInfo : Type 0 where
  pub trigger_comm : List ℕ
  pub victim_comm : List ℕ
  pub trigger_pid : ℕ
  pub victim_pid : ℕ
  pub trigger_memcg_css : ℕ
  pub victim_memcg_css : ℕ

pub record HungtaskInfo : Type 0 where
  pub pid : ℕ
  pub comm : List ℕ

-- What is read of a `struct task_struct`: its id, name and memory cgroup.
pub record TaskStruct : Type 0 where
  pub pid : ℕ
  pub comm : List ℕ
  pub memory_css : ℕ

-- What a handler leaves and sends: the limiter's map, its notice, and the event.
pub record Outcome (S E : Type 0) : Type 0 where
  pub cell : S
  pub notice : Option BpfRatelimit
  pub event : Option E

module _ {S : Type 0} (map : BpfMap S ℕ BpfRatelimit nat_eq) where
  -- `kprobe_softlockup`; `flag` is the first argument of `add_taint`, `pid_tgid` and `cpu` what the
  -- helpers return, and `task` the current task.
  unfoldable pub kprobe_softlockup :
      (flag pid_tgid cpu : ℕ) → TaskStruct → ℕ → S → Outcome S SoftlockupInfo
  kprobe_softlockup flag pid_tgid cpu task ktime s =
      if not (flag == taint_softlockup)
      then record { cell = s; notice = none; event = none }
      else (let v = bpf_ratelimited_core_in_map map ktime cfg s in
          record {
            cell = v.cell;
            notice = v.notice;
            event =
                if v.limited
                then none
                else some (record { cpu = cpu; pid = pid_tgid / 2 ^ 32; comm = task.comm });
          })

  -- `kprobe_oom_kill_process`; `oc` is the `chosen` task of the `struct oom_control`, or a NULL
  -- pointer to the latter.
  unfoldable pub kprobe_oom_kill_process :
      (oc : Option TaskStruct) → TaskStruct → ℕ → S → Outcome S OomInfo
  kprobe_oom_kill_process oc trigger_task ktime s =
      let v = bpf_ratelimited_core_in_map map ktime cfg s in
      record {
        cell = v.cell;
        notice = v.notice;
        event = if v.limited then none else elim oc [
          | none ↦ none
          | some victim_task ↦ some (record {
            trigger_comm = trigger_task.comm;
            victim_comm = victim_task.comm;
            trigger_pid = trigger_task.pid;
            victim_pid = victim_task.pid;
            trigger_memcg_css = trigger_task.memory_css;
            victim_memcg_css = victim_task.memory_css;
          })
        ];
      }

-- `tracepoint_sched_process_hang`: every hung task is reported.
unfoldable tracepoint_sched_process_hang : (pid : ℕ) → (comm : List ℕ) → Option HungtaskInfo
tracepoint_sched_process_hang pid comm = some (record { pid = pid; comm = comm })
