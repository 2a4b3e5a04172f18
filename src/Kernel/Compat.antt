-- ===== src/Kernel/Compat.antt =====
-- The constants of bpf/include/bpf_common.h that are not flags or units of time, as far as they are
-- used.
use jidick.Base.{ℕ}

abbrev pub compat_task_comm_len : ℕ
compat_task_comm_len = 16

-- How many CPUs the limiters allow for.
abbrev pub compat_cpu_num : ℕ
compat_cpu_num = 128

abbrev pub perf_max_stack_depth : ℕ
perf_max_stack_depth = 127

abbrev pub nr_softirqs_max : ℕ
nr_softirqs_max = 16
