-- ===== src/SoftirqTracing.antt =====
-- bpf/softirq_tracing.c: reports of timer ticks that come too late. The state is the running CPU's
-- slices of the per-CPU maps, with the limiter `rate`.
pub mod Reports
use jidick.Base.{
  ℕ, ◌*◌, leb, ltb, ◌==◌, ◌&&◌, if◌then◌else◌, Bool, true, false, Option, none, some, sub64, List,
  [], ◌∷◌, ◌%◌, ◌^◌,
}
use jidick.Kernel.Compat.{compat_cpu_num}
use jidick.Ratelimit.{BpfRatelimit, bpf_ratelimited, new}

-- `struct timer_softirq_run_ts`
pub record TimerSoftirqRunTs : Type 0 where
  pub start_trace : ℕ
  pub restarting_tick : ℕ
  pub soft_ts : ℕ

-- `struct report_event`
pub record ReportEvent : Type 0 where
  pub stack : List ℕ
  pub stack_size : ℕ
  pub now : ℕ
  pub stall_time : ℕ
  pub comm : List ℕ
  pub pid : ℕ
  pub cpu : ℕ

-- What the helpers give at the tick: the current task's name and id, the CPU, and the stack, which
-- `bpf_get_stack` writes over the buffer that it is handed.
pub record Context : Type 0 where
  pub comm : List ℕ
  pub pid_tgid : ℕ
  pub cpu : ℕ
  pub get_stack : List ℕ → List ℕ
  pub stack_size : ℕ

-- `softirq_thresh`, as user space sets it
abbrev pub default_thresh : ℕ
default_thresh = 5000000

-- `BPF_RATELIMIT(rate, 1, COMPAT_CPU_NUM *TICK * 1000)`
abbrev pub rate : BpfRatelimit
rate = new 1 (compat_cpu_num * 1000 * 1000)

-- `none` where the lookup of the one element of a map fails.
pub record State : Type 0 where
  pub rate : BpfRatelimit
  pub timerts : Option TimerSoftirqRunTs
  pub report : Option ReportEvent

-- The part of the tick that fills `event`, which lies in `report_map`.
unfoldable pub fill : Context → ℕ → ℕ → ReportEvent → ReportEvent
fill c now delta event = record {
  stack = c.get_stack event.stack;
  stack_size = c.stack_size;
  now = now;
  stall_time = delta;
  comm = c.comm;
  pid = c.pid_tgid % 2 ^ 32;
  cpu = c.cpu;
}

-- The tick once both map elements are there and tracing is on: the new time stamps and buffer, and
-- the report, if there is one. `ktime` is the one reading of the clock that any path makes.
unfoldable check_tick :
    ℕ
    → Context
    → ℕ
    → TimerSoftirqRunTs
    → ReportEvent
    → TimerSoftirqRunTs × ReportEvent × Option ReportEvent
unfolding fill
check_tick softirq_thresh c ktime ts event =
    if ts.restarting_tick == 0
    then (let delta = sub64 ktime ts.soft_ts in
        let filled = fill c ktime delta event in
        if leb softirq_thresh delta
        then (record ts { soft_ts = ktime }, filled, some filled)
        else (record ts { soft_ts = ktime }, event, none))
    else (record ts { restarting_tick = 0; soft_ts = ktime }, event, none)

-- `probe_account_process_tick` after the limiter has let it pass
unfoldable traced_tick : ℕ → Context → ℕ → State → State × Option ReportEvent
unfolding check_tick
traced_tick softirq_thresh c ktime s = elim s.timerts [
  | none ↦ (s, none)
  | some ts ↦
      if ts.start_trace == 0
      then (s, none)
      else if ts.soft_ts == 0
      then (record s { timerts = some (record ts { soft_ts = ktime }) }, none)
      else elim s.report [
        | none ↦ (s, none)
        | some event ↦
            let (ts', event', out) = check_tick softirq_thresh c ktime ts event in
            (record s { timerts = some ts'; report = some event' }, out)
      ]
]

-- `probe_account_process_tick`, with the readings of the clock by the limiter and by the handler
unfoldable pub probe_account_process_tick : ℕ → Context → ℕ → ℕ → State → State × Option ReportEvent
unfolding traced_tick
probe_account_process_tick softirq_thresh c rate_ktime ktime s =
    let (rate', limited) = bpf_ratelimited rate_ktime s.rate in
    let s' = record s { rate = rate' } in
    if limited then (s', none) else traced_tick softirq_thresh c ktime s'

-- `probe_tick_stop`; TICK_DEP_MASK_NONE is 0.
unfoldable pub probe_tick_stop : ℕ → ℕ → State → State
probe_tick_stop success dependency s = elim s.timerts [
  | none ↦ s
  | some ts ↦
      if success == 1 && dependency == 0
      then record s { timerts = some (record ts { start_trace = 0 }) }
      else s
]

unfoldable pub probe_tick_nohz_restart_sched_tick : ℕ → State → State
probe_tick_nohz_restart_sched_tick now s = elim s.timerts [
  | none ↦ s
  | some ts ↦ record s {
    timerts = some (record { soft_ts = now; start_trace = 1; restarting_tick = 1 });
  }
]

-- A call of one of the handlers, with what it reads.
pub data Event : Type 0 where
  tick : (c : Context) (rate_ktime ktime : ℕ) → Event
  stop : (success dependency : ℕ) → Event
  restart : (now : ℕ) → Event

unfoldable pub handle : ℕ → Event → State → State × Option ReportEvent
unfolding probe_tick_stop probe_tick_nohz_restart_sched_tick
handle thresh (tick c rate_ktime ktime) s = probe_account_process_tick thresh c rate_ktime ktime s
handle thresh (stop success dependency) s = (probe_tick_stop success dependency s, none)
handle thresh (restart now) s = (probe_tick_nohz_restart_sched_tick now s, none)

unfoldable pub handles : ℕ → List Event → State → State
handles thresh [] s = s
handles thresh (e ∷ es) s = handles thresh es (handle thresh e s).0

-- The reports of a sequence of calls.
unfoldable pub reports : ℕ → List Event → State → List ReportEvent
reports thresh [] s = []
reports thresh (e ∷ es) s =
    let rest = reports thresh es (handle thresh e s).0 in
    elim (handle thresh e s).1 [ none ↦ rest | some r ↦ r ∷ rest ]
