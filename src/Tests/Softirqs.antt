-- ===== src/Tests/Softirqs.antt =====
-- bpf/softirq.c and bpf/softirq_tracing.c at concrete events.
use jidick.Base.{ℕ, ◌≡◌, refl, arith, List, [], ◌∷◌, some, false, sub64, replicate, ◌↔◌}
use jidick.Kernel.BpfMap.{BpfMap, nat_eq, modify}
use jidick.Kernel.Table.{table, find, erase, put, takes}
use jidick.Ratelimit.{bpf_ratelimited}
use jidick.Softirq.{
  SoftirqLat, raised_at, enter_at, raise, entry, probe_softirq_raise, probe_softirq_entry, handles,
  handle,
}
use jidick.Softirq.Loss.{sum, entries, sum-after-raise}
use jidick.SoftirqTracing.{
  TimerSoftirqRunTs, ReportEvent, Context, State, rate, default_thresh, fill,
  probe_account_process_tick,
}
use jidick.SoftirqTracing.Reports.{Late, probe_account_process_tick_iff}

abbrev vectors : BpfMap (List (ℕ × SoftirqLat)) ℕ SoftirqLat nat_eq
vectors = table nat_eq 16

-- 3 is NET_RX: two entries, a raise, and one entry.
abbrev traffic : List (ℕ × SoftirqLat)
traffic =
    handles vectors (raise 3 1000 ∷ entry 3 2000 ∷ entry 3 90_000 ∷ []) ((3, raised_at 0) ∷ [])

program : Unit {0}
unfolding find erase put takes modify handles handle probe_softirq_raise probe_softirq_entry
    enter_at
program = tt

two_entries :
    traffic
    ≡ (
      3,
      record {
        timestamp = 1000;
        total_latency = record { zone0 = 1; zone1 = 1; zone2 = 0; zone3 = 0 };
      },
    )
      ∷ []
unfolding program
two_entries = refl

sum-after-raise_example :
    (lat : SoftirqLat) × (vectors.lookup
        (handles vectors (raise 3 95_000 ∷ entry 3 96_000 ∷ []) traffic)
        3
      ≡ some lat)
    × (sum lat.total_latency ≡ entries 3 (entry 3 96_000 ∷ []))
unfolding program
sum-after-raise_example =
    sum-after-raise vectors 3 (omega arith) 95_000 (entry 3 96_000 ∷ []) traffic refl (omega arith)
      (omega arith)

abbrev empty_event : ReportEvent
empty_event = record {
  stack = replicate 127 0;
  stack_size = 0;
  now = 0;
  stall_time = 0;
  comm = replicate 16 0;
  pid = 0;
  cpu = 0;
}

abbrev context : Context
context = record {
  comm = 115 ∷ 104 ∷ [];
  pid_tgid = 5;
  cpu = 1;
  get_stack = λ b. 0xffff ∷ b;
  stack_size = 8;
}

-- Traced, last stamped at 1 ms.
abbrev stamped : TimerSoftirqRunTs
stamped = record { start_trace = 1; restarting_tick = 0; soft_ts = 1_000_000 }

abbrev traced : State
traced = record { rate = rate; timerts = some stamped; report = some empty_event }

-- A tick in the second second of the clock, 8 ms after the stamp, passes the limiter.
probe_account_process_tick_iff_example :
    let r = fill context 9_000_000 (sub64 9_000_000 1_000_000) empty_event in
    ((probe_account_process_tick default_thresh context 2_000_000_000 9_000_000 traced).1 ≡ some r)
    ↔ ((ts : TimerSoftirqRunTs) × (event : ReportEvent) × (traced.timerts ≡ some ts)
        × (traced.report ≡ some event)
        × ((bpf_ratelimited 2_000_000_000 traced.rate).1 ≡ false)
        × Late default_thresh 9_000_000 ts
        × (r ≡ fill context 9_000_000 (sub64 9_000_000 ts.soft_ts) event))
probe_account_process_tick_iff_example =
    probe_account_process_tick_iff default_thresh context 2_000_000_000 9_000_000 traced
      (fill context 9_000_000 (sub64 9_000_000 1_000_000) empty_event)
