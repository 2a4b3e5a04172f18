-- ===== src/Lib.antt =====
-- The BPF programs of bpf/*.c: small handlers that the kernel runs at trace points, kprobes and
-- clock samples. They count into kernel maps that user space reads, or send events to it. With them,
-- the parts of user space that keep a state of their own: the tracers and the tasks.
--
-- The parts. bpf/include/bpf_ratelimit.h limits the events of a program, as a plain variable or in
-- a map; bpf/include/bpf_func_trace.h times a kernel function from its entry to its return. The
-- event programs call the limiter before they send: dropwatch.c, netrecvlat.c and
-- softirq_tracing.c the plain one, softlockup.c and oom.c the one in a map.
-- memory_reclaim_events.c and memory_free_compact.c call the timer. All of them, and the programs
-- that count, use the kernel's maps. In user space, pkg/tracing runs the readers of the events and
-- the tracers of core/autotracing, which watch the host by themselves, and starts and stops them on
-- request; it also runs single tasks.
--
-- The files.
--   Base            numbers, Booleans, 64-bit words, lists
--   Kernel          the kernel's maps: BpfMap, the operations and their documented behaviour, which
--                   every other part takes as a parameter; Laws, its consequences; Table, a bounded
--                   list that behaves so, for the examples; Enums, Taint and Compat, the constants
--                   of bpf/include/vmlinux.h, linux_kernel.h and bpf_common.h; Cpus, CPUs that take
--                   turns on a state; Overrun, those that test a counter before they add to it; Weights, sums
--                   over the places where they stand;
--                   InsertRace, those that look an entry up before they insert it
--   Ratelimit       bpf_ratelimited, bpf_ratelimited_core_in_map and the macros of
--                   bpf/include/bpf_ratelimit.h. Window: one limiter over time; Stretch: any
--                   stretch of time; Account: its totals; InMap: its notices; Refine: the limiter
--                   in a map; Race: the function as CPUs interleave in it, an access at a time;
--                   Alone: one CPU in it; Overshoot: all CPUs at once; RaceStretch: what they
--                   admit in a stretch of time; MapRace, MapStretch, MapAlone: the same for the limiter
--                   in a map, with the set-up of its cell
--   FuncTrace       func_trace_begain, func_trace_end, func_trace_destroy of
--                   bpf/include/bpf_func_trace.h
--   Runqlat         bpf/runqlat_tracing.c: the five entry points. Waiting: who is on record;
--                   Buckets: the ranges; Switch, SchedSwitch: what a switch counts; Sums,
--                   Balance: the host and its groups; Race: CPUs that count for one group at once;
--                   PidNamespace: what is built without TG_ADDR_KEY
--   Softirq         bpf/softirq.c: probe_softirq_raise, probe_softirq_entry
--   SoftirqTracing  bpf/softirq_tracing.c: the tick and its stop and restart
--   Memory          Reclaim: bpf/memory_reclaim.c, and in Race as CPUs interleave in it;
--                   ReclaimEvents: bpf/memory_reclaim_events.c; FreeCompact:
--                   bpf/memory_free_compact.c, with Others (the handlers for other threads), Totals and
--                   its own Race
--   Net             Headers: bpf/include/vmlinux_net.h, and struct iphdr and struct tcphdr as they
--                   lie in memory; Headers/Netutil: internal/utils/netutil/netutil.go.
--                   Dropwatch: bpf/dropwatch.c, with Filter, Scratch, Limit (how many drops are
--                   reported) and Report (formatEvent of core/events/dropwatch.go). Netrecvlat:
--                   bpf/netrecvlat.c, with Latency, Limit, Offset (estMonoWallOffset of
--                   core/events/netrecvlat.go) and Accuracy (both together).
--                   Devices: bpf/netdev_hw.c, bpf/lacp.c, and in Metric core/metrics/netdev_hw.go
--   Tasks           Alarms: bpf/softlockup.c, bpf/oom.c, bpf/hungtask.c; Perf: bpf/perf.c, with its
--                   own Race
--   Cgroup          bpf/cgroup_css_events.c, bpf/cgroup_css_gather.c; Names: which cgroups they
--                   report; CssData: the table that internal/pod/container_css_default.go keeps
--   Autotracing     the tracers of core/autotracing. MemBurst: memburst.go, with Window (its circular
--                   buffer against the list of all samples), Start (the loop with both) and Silence
--                   (how far its reports are apart). CpuIdle: cpuidle.go, with Percent, Measured
--                   (which containers it reports), Idle (which it misses) and Containers (which it
--                   keeps). CpuSys: cpusys.go, on a host with a steady share in Steady. Dload: the
--                   averages of dload.go, and in Average where they go
--   Tracing         pkg/tracing. Event: tracing.go, a tracer with its goroutine and the requests to
--                   start and to stop it as they interleave; Runs, how many goroutines there are;
--                   Stop, what a request to stop comes to. Manager: manager.go, with StopAll. Task:
--                   task.go, with Life (the states), Removal (tasks that are gone) and Kept (how
--                   long results are kept)
--   Flamegraph      internal/flamegraph/flamegraph.go and the records of cmd/perf/parsedata.go: Preorder
--                   (the walk), Labels (the numbers of the labels), Texts (what they stand for),
--                   Records (all together); Samples, how cmd/perf numbers the frames of its samples, with Names (what the
--                   numbers stand for); Levels, LevelsToTree, with Nesting (how the items lie)
--   Symbol          internal/symbol. Ksymbols: ksymbols.go, with Search (what its search finds);
--                   Usymbols: usymbols.go, with Last (what its searches find and cannot find)
--   Wire            what passes to user space as bytes: Structs, the structs of bpf/*.c that are
--                   handed over and those of core/events, core/metrics, internal/pod and cmd/perf
--                   that they are read into; RoundTrip, from the one to the other; Maps, the
--                   declarations of the maps; Tracepoints, what the kernel hands the programs
--   Tests           examples at concrete inputs
--
-- How state and operations correspond. A handler is a function of the name it has in the source,
-- from what it reads (its arguments, the readings of the clock, what the helpers return) and the
-- state to the new state and the event that it sends, if any. Where one handler is long, its
-- blocks are helpers in the order of the source. The state is the maps and the limiters that the
-- program declares; a map is an element of an arbitrary type `S` with a `BpfMap S K V`, and of a
-- per-CPU map the slice of the CPU that runs. A pointer into a map is the key it was looked up
-- with: a write through it is `store` or `modify`. A clock that is read twice is two arguments.
-- Sequences of calls are lists of the calls, in any order and with any readings of the clock.
--
-- Bounds. A `u64` is a number below 2 ^ 64, additions and subtractions wrap around (`add64`,
-- `sub64`); a signed field is its bit pattern. Numbers lie in memory with the lowest byte first, as
-- on the machines that the programs are built for. An `int64` or `int` of Go is its bit pattern too
-- (`ltb_s64`, `quot_s64`), and a time is a number of nanoseconds on a clock that does not go back.
-- The binary search of ksymbols.go has fuel, the number of symbols, of which each round takes half at
-- least; the walk of flamegraph.go has the number of trees on its stack, of which each round takes one
-- off: neither runs out. What else recurs does so over the list of calls, or of the rounds of a loop.
-- An `EnumItemIndex` of the Grafana SDK is a number below `items`, 65,536 there.
--
-- Not modelled. The kernel's types in bpf/include/vmlinux.h are generated: records hold what is
-- read of them, and enumerations are there where a constant is used. Reads of kernel memory that
-- fail, which leave zeros, are modelled for the name of a cgroup only. The handlers run one after
-- the other, except in the modules named Race and MapRace. Of user space (core, internal, pkg, cmd),
-- besides pkg/tracing, core/autotracing, internal/symbol and internal/flamegraph, only the structs
-- that it reads, netutil, the records that cmd/perf prints, the numbers of the report of a drop, the
-- estimate of the clock offset, the metric of a device's drops and the table of containers' subsystem
-- states are there; loading the programs, polling for events, the files that symbols are read from,
-- storage, what /proc and the cgroups hold, and vendor, which holds other projects, are not. A `float64` is not computed with: the ratio of memburst.go is a test that is given, and a
-- load of dload.go is its whole number and its hundredths. In Tracing.Event, a request to stop and
-- what follows a round are one step each. The lengths and numbers of the settings of memburst.go are
-- not negative: with a negative number of processes to report it panics.
pub mod Autotracing
pub mod Tracing
pub mod Symbol
pub mod Base
pub mod Kernel
pub mod Ratelimit
pub mod Flamegraph
pub mod FuncTrace
pub mod Runqlat
pub mod Softirq
pub mod SoftirqTracing
pub mod Memory
pub mod Net
pub mod Tasks
pub mod Cgroup
pub mod Wire
pub mod Tests
