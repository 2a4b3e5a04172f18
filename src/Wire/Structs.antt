-- ===== src/Wire/Structs.antt =====
-- The structs that bpf/*.c hands to user space, and the Go structs that core/events, core/metrics,
-- internal/pod and cmd/perf read them into, member by member and in order. A signed member is its
-- bit pattern, and a name or a stack an array.
use jidick.Base.{◌+◌, List, [], ◌∷◌}
use jidick.Kernel.Enums.{cgroup_subsys_id, cgroup_subsys_count}
use jidick.Kernel.Compat.{compat_task_comm_len, perf_max_stack_depth}
use jidick.Wire.{Field, scalar, array}

abbrev pub u8 : Field
u8 = scalar 1

abbrev pub u16 : Field
u16 = scalar 2

abbrev pub u32 : Field
u32 = scalar 4

abbrev pub u64 : Field
u64 = scalar 8

-- `char comm[COMPAT_TASK_COMM_LEN]`
abbrev pub comm : Field
comm = array 1 compat_task_comm_len

-- `struct perf_event_t` of bpf/dropwatch.c
abbrev pub drop_event : List Field
drop_event =
    u64
    ∷ u32
    ∷ u32
    ∷ u16
    ∷ u16
    ∷ u32
    ∷ u32
    ∷ u32
    ∷ u64
    ∷ u64
    ∷ array 8 perf_max_stack_depth
    ∷ u32
    ∷ u8
    ∷ u8
    ∷ comm
    ∷ []

-- `perfEventT` of core/events/dropwatch.go
abbrev pub go_drop_event : List Field
go_drop_event =
    u64
    ∷ u32
    ∷ u32
    ∷ u16
    ∷ u16
    ∷ u32
    ∷ u32
    ∷ u32
    ∷ u64
    ∷ u64
    ∷ array 8 127
    ∷ u32
    ∷ u8
    ∷ u8
    ∷ array 1 16
    ∷ []

-- `struct perf_event_t` of bpf/netrecvlat.c
abbrev pub recv_event : List Field
recv_event = comm ∷ u64 ∷ u64 ∷ u64 ∷ u16 ∷ u16 ∷ u32 ∷ u32 ∷ u32 ∷ u32 ∷ u8 ∷ u8 ∷ []

-- `netRcvPerfEvent` of core/events/netrecvlat.go
abbrev pub go_recv_event : List Field
go_recv_event = array 1 16 ∷ u64 ∷ u64 ∷ u64 ∷ u16 ∷ u16 ∷ u32 ∷ u32 ∷ u32 ∷ u32 ∷ u8 ∷ u8 ∷ []

-- `struct report_event` of bpf/softirq_tracing.c
abbrev pub report_event : List Field
report_event = array 8 perf_max_stack_depth ∷ u64 ∷ u64 ∷ u64 ∷ comm ∷ u32 ∷ u32 ∷ []

-- `softirqPerfEvent` of core/events/softirq_tracing.go
abbrev pub go_report_event : List Field
go_report_event = array 8 127 ∷ u64 ∷ u64 ∷ u64 ∷ array 1 16 ∷ u32 ∷ u32 ∷ []

-- `struct reclaim_entry` of bpf/memory_reclaim_events.c
abbrev pub reclaim_entry : List Field
reclaim_entry = comm ∷ u64 ∷ u64 ∷ u64 ∷ []

-- `memoryReclaimPerfEvent` of core/events/memory_reclaim_events.go
abbrev pub go_reclaim_entry : List Field
go_reclaim_entry = array 1 16 ∷ u64 ∷ u64 ∷ u64 ∷ []

-- `struct oom_info` of bpf/oom.c
abbrev pub oom_info : List Field
oom_info = comm ∷ comm ∷ u32 ∷ u32 ∷ u64 ∷ u64 ∷ []

-- `perfEventData` of core/events/oom.go
abbrev pub go_oom_info : List Field
go_oom_info = array 1 16 ∷ array 1 16 ∷ u32 ∷ u32 ∷ u64 ∷ u64 ∷ []

-- `struct softlockup_info` of bpf/softlockup.c
abbrev pub softlockup_info : List Field
softlockup_info = u32 ∷ u32 ∷ comm ∷ []

-- `softLockupPerfEventData` of core/events/softlockup.go
abbrev pub go_softlockup_info : List Field
go_softlockup_info = u32 ∷ u32 ∷ array 1 16 ∷ []

-- `struct hungtask_info` of bpf/hungtask.c
abbrev pub hungtask_info : List Field
hungtask_info = u32 ∷ comm ∷ []

-- `hungTaskPerfEventData` of core/events/hungtask.go
abbrev pub go_hungtask_info : List Field
go_hungtask_info = u32 ∷ array 1 16 ∷ []

-- `struct cgroup_perf_event_t` of bpf/cgroup_css_events.c
abbrev pub cgroup_event : List Field
cgroup_event =
    u64 ∷ u64 ∷ u32 ∷ u32 ∷ array 8 (cgroup_subsys_id cgroup_subsys_count) ∷ array 1 (64 + 2) ∷ []

-- `struct cgroup_perf_event_t` of bpf/cgroup_css_gather.c, for the same Go struct
abbrev pub cgroup_gather_event : List Field
cgroup_gather_event =
    u64 ∷ u64 ∷ u32 ∷ u32 ∷ array 8 (cgroup_subsys_id cgroup_subsys_count) ∷ array 1 (64 + 2) ∷ []

-- `containerCssPerfEvent` of internal/pod/container_css_default.go
abbrev pub go_cgroup_event : List Field
go_cgroup_event = u64 ∷ u64 ∷ u32 ∷ u32 ∷ array 8 13 ∷ array 1 66 ∷ []

-- `struct key_t` of bpf/perf.c
abbrev pub perf_key : List Field
perf_key = array 8 20 ∷ array 8 20 ∷ u64 ∷ u64 ∷ u32 ∷ comm ∷ []

-- `eventdata` of cmd/perf/parsedata.go
abbrev pub go_perf_key : List Field
go_perf_key = array 8 20 ∷ array 8 20 ∷ u64 ∷ u64 ∷ u32 ∷ array 1 16 ∷ []

-- `struct softirq_lat` of bpf/softirq.c
abbrev pub softirq_lat : List Field
softirq_lat = u64 ∷ array 8 4 ∷ []

-- `softirqLatencyData` of core/metrics/softirq.go
abbrev pub go_softirq_lat : List Field
go_softirq_lat = u64 ∷ array 8 4 ∷ []

-- `struct stat_t` of bpf/runqlat_tracing.c
abbrev pub stat : List Field
stat = u64 ∷ u64 ∷ u64 ∷ u64 ∷ u64 ∷ u64 ∷ []

-- `latencyBpfData` of core/metrics/runqlat_tracing.go
abbrev pub go_stat : List Field
go_stat = u64 ∷ u64 ∷ u64 ∷ u64 ∷ u64 ∷ u64 ∷ []

-- `struct mem_cgroup_metric` of bpf/memory_reclaim.c
abbrev pub mem_cgroup_metric : List Field
mem_cgroup_metric = u64 ∷ []

-- `memoryCgroupMetric` of core/metrics/memory_reclaim.go
abbrev pub go_mem_cgroup_metric : List Field
go_mem_cgroup_metric = u64 ∷ []

-- `struct mm_free_compact_entry` of bpf/memory_free_compact.c
abbrev pub mm_free_compact_entry : List Field
mm_free_compact_entry = u64 ∷ u64 ∷ []

-- `memoryHostMetric` of core/metrics/memory_free_compact.go
abbrev pub go_mm_free_compact_entry : List Field
go_mm_free_compact_entry = u64 ∷ u64 ∷ []

-- The exchanges; the structs of the group and of the host are alike.
pub data Exchange : Type 0 where
  drop_events : Exchange
  recv_events : Exchange
  report_events : Exchange
  reclaim_entrys : Exchange
  oom_infos : Exchange
  softlockup_infos : Exchange
  hungtask_infos : Exchange
  cgroup_events : Exchange
  cgroup_gather_events : Exchange
  perf_keys : Exchange
  softirq_lats : Exchange
  stats : Exchange
  mem_cgroup_metrics : Exchange
  mm_free_compact_entrys : Exchange

abbrev pub c_struct : Exchange → List Field
c_struct drop_events = drop_event
c_struct recv_events = recv_event
c_struct report_events = report_event
c_struct reclaim_entrys = reclaim_entry
c_struct oom_infos = oom_info
c_struct softlockup_infos = softlockup_info
c_struct hungtask_infos = hungtask_info
c_struct cgroup_events = cgroup_event
c_struct cgroup_gather_events = cgroup_gather_event
c_struct perf_keys = perf_key
c_struct softirq_lats = softirq_lat
c_struct stats = stat
c_struct mem_cgroup_metrics = mem_cgroup_metric
c_struct mm_free_compact_entrys = mm_free_compact_entry

abbrev pub go_struct : Exchange → List Field
go_struct drop_events = go_drop_event
go_struct recv_events = go_recv_event
go_struct report_events = go_report_event
go_struct reclaim_entrys = go_reclaim_entry
go_struct oom_infos = go_oom_info
go_struct softlockup_infos = go_softlockup_info
go_struct hungtask_infos = go_hungtask_info
go_struct cgroup_events = go_cgroup_event
go_struct cgroup_gather_events = go_cgroup_event
go_struct perf_keys = go_perf_key
go_struct softirq_lats = go_softirq_lat
go_struct stats = go_stat
go_struct mem_cgroup_metrics = go_mem_cgroup_metric
go_struct mm_free_compact_entrys = go_mm_free_compact_entry
