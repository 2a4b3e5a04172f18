-- ===== src/Wire/Maps.antt =====
-- The maps that bpf/*.c declares for the loader. A signed key is declared with the unsigned type of
-- its size.
use jidick.Base.{ℕ, [], ◌∷◌, replicate}
use jidick.Kernel.Compat.{nr_softirqs_max}
use jidick.Wire.{sizeof}
use jidick.Wire.Structs.{
  u32, u64, drop_event, report_event, perf_key, softirq_lat, stat, mem_cgroup_metric,
  mm_free_compact_entry,
}

-- `BPF_MAP_TYPE_…`
pub data MapType : Type 0 where
  hash : MapType
  array_map : MapType
  percpu_array : MapType
  perf_event_array : MapType

-- `max_entries` is 0 where the program leaves it to the loader.
pub record MapDecl : Type 0 where
  pub map_type : MapType
  pub key_size : ℕ
  pub value_size : ℕ
  pub max_entries : ℕ

-- bpf/cgroup_css_events.c
abbrev cgroup_perf_events : MapDecl
cgroup_perf_events = record {
  map_type = perf_event_array;
  key_size = sizeof (u32 ∷ []);
  value_size = sizeof (u32 ∷ []);
  max_entries = 0;
}

-- bpf/cgroup_css_gather.c
abbrev gather_cgroup_perf_events : MapDecl
gather_cgroup_perf_events = record {
  map_type = perf_event_array;
  key_size = sizeof (u32 ∷ []);
  value_size = sizeof (u32 ∷ []);
  max_entries = 0;
}

-- bpf/dropwatch.c
abbrev perf_events : MapDecl
perf_events = record {
  map_type = perf_event_array;
  key_size = sizeof (u32 ∷ []);
  value_size = sizeof (u32 ∷ []);
  max_entries = 0;
}

abbrev dropwatch_stackmap : MapDecl
dropwatch_stackmap = record {
  map_type = percpu_array;
  key_size = sizeof (u32 ∷ []);
  value_size = sizeof drop_event;
  max_entries = 1;
}

-- bpf/hungtask.c
abbrev hungtask_perf_events : MapDecl
hungtask_perf_events = record {
  map_type = perf_event_array;
  key_size = sizeof (u32 ∷ []);
  value_size = sizeof (u32 ∷ []);
  max_entries = 0;
}

-- bpf/lacp.c
abbrev ad_event_map : MapDecl
ad_event_map = record {
  map_type = perf_event_array;
  key_size = sizeof (u32 ∷ []);
  value_size = sizeof (u32 ∷ []);
  max_entries = 0;
}

-- bpf/memory_free_compact.c
abbrev mm_free_compact_map : MapDecl
mm_free_compact_map = record {
  map_type = hash;
  key_size = sizeof (u32 ∷ []);
  value_size = sizeof mm_free_compact_entry;
  max_entries = 10240;
}

-- bpf/memory_reclaim.c
abbrev mem_cgroup_map : MapDecl
mem_cgroup_map = record {
  map_type = hash;
  key_size = sizeof (u64 ∷ []);
  value_size = sizeof mem_cgroup_metric;
  max_entries = 10240;
}

-- bpf/memory_reclaim_events.c
abbrev reclaim_perf_events : MapDecl
reclaim_perf_events = record {
  map_type = perf_event_array;
  key_size = sizeof (u32 ∷ []);
  value_size = sizeof (u32 ∷ []);
  max_entries = 0;
}

-- bpf/netdev_hw.c
abbrev rx_sw_dropped_stats : MapDecl
rx_sw_dropped_stats = record {
  map_type = hash;
  key_size = sizeof (u32 ∷ []);
  value_size = sizeof (u64 ∷ []);
  max_entries = 64;
}

-- bpf/netrecvlat.c
abbrev net_recv_lat_event_map : MapDecl
net_recv_lat_event_map = record {
  map_type = perf_event_array;
  key_size = sizeof (u32 ∷ []);
  value_size = sizeof (u32 ∷ []);
  max_entries = 0;
}

-- bpf/oom.c
abbrev oom_perf_events : MapDecl
oom_perf_events = record {
  map_type = perf_event_array;
  key_size = sizeof (u32 ∷ []);
  value_size = sizeof (u32 ∷ []);
  max_entries = 0;
}

-- bpf/perf.c
abbrev counts : MapDecl
counts = record {
  map_type = hash;
  key_size = sizeof perf_key;
  value_size = sizeof (u64 ∷ []);
  max_entries = 1024;
}

-- bpf/runqlat_tracing.c, with TG_ADDR_KEY
abbrev latency : MapDecl
latency = record {
  map_type = hash;
  key_size = sizeof (u32 ∷ []);
  value_size = sizeof (u64 ∷ []);
  max_entries = 10000;
}

abbrev cpu_tg_metric : MapDecl
cpu_tg_metric = record {
  map_type = hash;
  key_size = sizeof (u64 ∷ []);
  value_size = sizeof stat;
  max_entries = 10000;
}

abbrev cpu_host_metric : MapDecl
cpu_host_metric = record {
  map_type = array_map;
  key_size = sizeof (u32 ∷ []);
  value_size = sizeof stat;
  max_entries = 1;
}

-- bpf/softirq.c
abbrev softirq_percpu_lats : MapDecl
softirq_percpu_lats = record {
  map_type = percpu_array;
  key_size = sizeof (u32 ∷ []);
  value_size = sizeof softirq_lat;
  max_entries = nr_softirqs_max;
}

-- bpf/softirq_tracing.c
abbrev timerts_map : MapDecl
timerts_map = record {
  map_type = percpu_array;
  key_size = sizeof (u32 ∷ []);
  value_size = sizeof (u32 ∷ u32 ∷ u64 ∷ []);
  max_entries = 1;
}

abbrev report_map : MapDecl
report_map = record {
  map_type = percpu_array;
  key_size = sizeof (u32 ∷ []);
  value_size = sizeof report_event;
  max_entries = 1;
}

abbrev irqoff_event_map : MapDecl
irqoff_event_map = record {
  map_type = perf_event_array;
  key_size = sizeof (u32 ∷ []);
  value_size = sizeof (u32 ∷ []);
  max_entries = 0;
}

-- bpf/softlockup.c
abbrev softlockup_perf_events : MapDecl
softlockup_perf_events = record {
  map_type = perf_event_array;
  key_size = sizeof (u32 ∷ []);
  value_size = sizeof (u32 ∷ []);
  max_entries = 0;
}

-- bpf/include/bpf_func_trace.h
abbrev func_trace_map : MapDecl
func_trace_map = record {
  map_type = hash;
  key_size = sizeof (u64 ∷ []);
  value_size = sizeof (u64 ∷ u64 ∷ u64 ∷ []);
  max_entries = 10240;
}

-- bpf/include/bpf_ratelimit.h, `BPF_RATELIMIT_IN_MAP`
abbrev bpf_rlimit : MapDecl
bpf_rlimit = record {
  map_type = array_map;
  key_size = sizeof (u32 ∷ []);
  value_size = sizeof (replicate 9 u64);
  max_entries = 1;
}

abbrev event_bpf_rlimit : MapDecl
event_bpf_rlimit = record {
  map_type = perf_event_array;
  key_size = sizeof (u32 ∷ []);
  value_size = sizeof (u32 ∷ []);
  max_entries = 0;
}
