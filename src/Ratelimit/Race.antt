-- ===== src/Ratelimit/Race.antt =====
-- `bpf_ratelimited` of bpf/include/bpf_ratelimit.h as several CPUs run it on one limiter: one
-- access to the shared struct at a time, in the order of the source; the fields `interval` and
-- `burst`, which it does not write, are read with the others. Only the additions are atomic.
use jidick.Base.{
  ℕ, ◌+◌, ◌≤◌, ◌<◌, ◌≡◌, ◌≢◌, refl, arith, List, add64, sub64, replicate, Bool, true, false,
}
use jidick.Kernel.Cpus.{Steps}
use jidick.Kernel.Overrun.{Steps-bound, total-replicate}
use jidick.Ratelimit.{BpfRatelimit}

-- Where a CPU stands in the function, with its local `curr` where that is live.
pub data Pc : Type 0 where
  idle : Pc  -- outside
  begin_test : (curr : ℕ) → Pc  -- `if (rate->begin == 0)`
  begin_set : (curr : ℕ) → Pc
  roll_test : (curr : ℕ) → Pc  -- `if (curr > rate->begin + rate->interval)`
  roll_delta : (curr : ℕ) → Pc  -- `curr - rate->begin`
  roll_total : (curr delta : ℕ) → Pc
  roll_begin : (curr : ℕ) → Pc
  roll_nmissed : Pc
  roll_events : Pc
  burst_test : Pc  -- `if (rate->burst && rate->burst > rate->events)`
  add_events : Pc
  add_total_events : Pc
  add_nmissed : Pc
  add_total_nmissed : Pc
  returned : (limited : Bool) → Pc

-- One step of one CPU.
pub data Move (r : BpfRatelimit) : Pc → BpfRatelimit → Pc → Type 0 where
  switched_off : r.interval ≡ 0 → Move r idle r (returned false)
  enter : (curr : ℕ) → r.interval ≢ 0 → Move r idle r (begin_test curr)
  begin_zero : {curr : ℕ} → r.begin ≡ 0 → Move r (begin_test curr) r (begin_set curr)
  begin_kept : {curr : ℕ} → r.begin ≢ 0 → Move r (begin_test curr) r (roll_test curr)
  set_begin : {curr : ℕ} → Move r (begin_set curr) (record r { begin = curr }) (roll_test curr)
  window_over :
      {curr : ℕ} → add64 r.begin r.interval < curr → Move r (roll_test curr) r (roll_delta curr)
  window_open : {curr : ℕ} → curr ≤ add64 r.begin r.interval → Move r (roll_test curr) r burst_test
  read_begin : {curr : ℕ} → Move r (roll_delta curr) r (roll_total curr (sub64 curr r.begin))
  add_interval :
      {curr delta : ℕ}
      → Move r
          (roll_total curr delta)
          (record r { total_interval = add64 r.total_interval delta })
          (roll_begin curr)
  new_begin : {curr : ℕ} → Move r (roll_begin curr) (record r { begin = curr }) roll_nmissed
  clear_nmissed : Move r roll_nmissed (record r { nmissed = 0 }) roll_events
  clear_events : Move r roll_events (record r { events = 0 }) burst_test
  within_burst : r.burst ≢ 0 → r.events < r.burst → Move r burst_test r add_events
  past_burst : r.burst ≤ r.events → Move r burst_test r add_nmissed
  count_event : Move r add_events (record r { events = add64 r.events 1 }) add_total_events
  count_total :
      Move r add_total_events (record r { total_events = add64 r.total_events 1 }) (returned false)
  count_miss : Move r add_nmissed (record r { nmissed = add64 r.nmissed 1 }) add_total_nmissed
  count_total_miss :
      Move r add_total_nmissed
        (record r { total_nmissed = add64 r.total_nmissed 1 })
        (returned true)
  again : {limited : Bool} → Move r (returned limited) r idle

-- States that a number of CPUs can reach, from the limiter `r₀` and none of them in the function.
abbrev pub Reach : BpfRatelimit → ℕ → BpfRatelimit → List Pc → Type 0
Reach r₀ cpus r ps = Steps Move r₀ (replicate cpus idle) r ps

-- CPUs that have passed the test of the burst and not yet counted their event.
abbrev pub pending : Pc → ℕ
pending add_events = 1
pending _ = 0

pub pending-le : (p : Pc) → pending p ≤ 1
pending-le p = ground arith

-- While the burst is at most `bound`, an event is only added by a CPU that is counted in `pending`.
pub Move-bound :
    {r r' : BpfRatelimit} {p p' : Pc} {bound : ℕ} (a b : ℕ)
    → Move r p r' p'
    → a ≤ b
    → r.burst ≤ bound
    → r.events + pending p + a < bound + 1 + b
    → (r'.burst ≤ bound) × (r'.events + pending p' + a < bound + 1 + b)
Move-bound a b (enter curr h) le within lt = omega arith
Move-bound a b (within_burst positive below) le within lt = omega arith
Move-bound a b m le within lt = ground arith

-- However the CPUs interleave, and whatever times they read, the counter `events` exceeds the burst
-- by less than the number of CPUs, from any limiter that is within its burst. Each CPU that has
-- found the window over clears it.
pub Reach-events-lt :
    {r₀ : BpfRatelimit} {cpus : ℕ} {r : BpfRatelimit} {ps : List Pc}
    → 0 < cpus
    → r₀.events ≤ r₀.burst
    → Reach r₀ cpus r ps
    → r.events < r₀.burst + cpus
Reach-events-lt {r₀} {cpus} some_cpu within reach =
    let start = total-replicate pending idle cpus refl in
    let (ok, same, bound) =
      Steps-bound Move pending (λ r. r.events) (λ r. r.burst ≤ r₀.burst) r₀.burst pending-le
        (λ s s' p p' a b m le ok lt. Move-bound a b m le ok lt) (omega arith) (omega (arith, start))
        reach in
    omega (arith, start, same, bound)
