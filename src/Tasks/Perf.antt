-- ===== src/Tasks/Perf.antt =====
-- bpf/perf.c: samples of the CPU clock, counted by thread group, name and stacks.
pub mod Samples
pub mod Race
use jidick.Base.{
  ℕ, ◌/◌, ◌^◌, not, ◌&&◌, ◌==◌, if◌then◌else◌, Bool, Option, none, some, add64, List, [], ◌∷◌,
}
use jidick.Kernel.BpfMap.{Eq, BpfMap, bpf_any}

-- `struct key_t`
pub record KeyT : Type 0 where
  pub ustack : List ℕ
  pub kstack : List ℕ
  pub ustack_size : ℕ
  pub kstack_size : ℕ
  pub pid : ℕ
  pub name : List ℕ

-- The filters `css` and `pid`, which user space sets; 0 is no filter.
pub record Filter : Type 0 where
  pub css : ℕ
  pub pid : ℕ

-- What the helpers give at a sample: the current task's CPU cgroup, ids and name, and what
-- `bpf_get_stack` writes and returns for the user and the kernel stack.
pub record Sample : Type 0 where
  pub cpu_css : ℕ
  pub pid_tgid : ℕ
  pub comm : List ℕ
  pub ustack : List ℕ
  pub ustack_size : ℕ
  pub kstack : List ℕ
  pub kstack_size : ℕ

unfoldable pub key_of : Sample → KeyT
key_of c = record {
  ustack = c.ustack;
  kstack = c.kstack;
  ustack_size = c.ustack_size;
  kstack_size = c.kstack_size;
  pid = c.pid_tgid / 2 ^ 32;
  name = c.comm;
}

-- `counts` is `map`; the kernel compares its keys byte by byte.
module _ {S : Type 0} {e : Eq KeyT} (map : BpfMap S KeyT ℕ e) where
  unfoldable pub perf_event_sw_cpu_clock : Filter → Sample → S → S
  perf_event_sw_cpu_clock f c s =
      if not (f.css == 0) && not (f.css == c.cpu_css)
      then s
      else if not (f.pid == 0) && not (f.pid == c.pid_tgid / 2 ^ 32)
      then s
      else elim (map.lookup s (key_of c)) [
        | none ↦ map.update s (key_of c) 1 bpf_any
        | some v ↦ map.store s (key_of c) (add64 v 1)
      ]

  unfoldable pub samples : Filter → List Sample → S → S
  samples f [] s = s
  samples f (c ∷ cs) s = samples f cs (perf_event_sw_cpu_clock f c s)
