-- ===== src/Ratelimit/Overshoot.antt =====
-- A run of `Race` in which all CPUs test the burst of bpf/include/bpf_ratelimit.h before any of them
-- counts its event.
use jidick.Base.{ℕ, ◌+◌, ◌≤◌, ◌<◌, ◌^◌, ◌≡◌, ◌≢◌, arith, List, add64, replicate, zero, suc}
use jidick.Ratelimit.{BpfRatelimit}
use jidick.Kernel.Cpus.{Steps, here, done, step, append, others}
use jidick.Ratelimit.Race.{
  Pc, idle, add_events, add_total_events, enter, begin_kept, window_open, within_burst, count_event,
  Move, Reach,
}

module _ (r : BpfRatelimit) (curr : ℕ) (on : r.interval ≢ 0) (begun : r.begin ≢ 0)
    (inside : curr ≤ add64 r.begin r.interval) (room : r.events < r.burst) where
  all_test : (n : ℕ) → Steps Move r (replicate n idle) r (replicate n add_events)
  unfolding replicate
  all_test zero = done
  all_test (suc n) = append (others idle (all_test n)) (
      step
        (step (step (step done (here (enter curr on))) (here (begin_kept begun)))
          (here (window_open inside)))
        (here (within_burst (omega arith) room)))

all_count :
    (n : ℕ) (r : BpfRatelimit)
    → r.events + n < 2 ^ 64
    → (r' : BpfRatelimit) × Steps Move r (replicate n add_events) r' (replicate n add_total_events)
      × (r'.events ≡ r.events + n)
unfolding replicate
all_count zero r fits = (r, done, omega arith)
all_count (suc n) r fits =
    let (r', counted, sum) = all_count n r (omega arith) in
    (
      record r' { events = add64 r'.events 1 },
      step (others add_events counted) (here count_event),
      omega (arith, sum),
    )

-- With one event left of the burst, inside a window, the CPUs can reach a state in which each of
-- them has counted an event: the burst is exceeded by one less than their number.
pub overshoot :
    (r : BpfRatelimit) (curr cpus : ℕ)
    → r.interval ≢ 0
    → r.begin ≢ 0
    → curr ≤ add64 r.begin r.interval
    → r.events + 1 ≡ r.burst
    → r.events + cpus < 2 ^ 64
    → (r' : BpfRatelimit) × (ps : List Pc) × Reach r cpus r' ps × (r'.events + 1 ≡ r.burst + cpus)
overshoot r curr cpus on begun inside last fits =
    let (r', counted, sum) = all_count cpus r fits in
    (r', _, append (all_test r curr on begun inside (omega arith) cpus) counted, omega (arith, sum))
