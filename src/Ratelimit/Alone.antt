-- ===== src/Ratelimit/Alone.antt =====
-- A CPU that has the limiter of bpf/include/bpf_ratelimit.h to itself: the accesses of `Race`, one
-- after the other, against the function.
use jidick.Base.{
  ℕ, ◌/◌, arith, [], ◌∷◌, nsec_per_sec, Bool-cases, inl, inr, ltb, ◌==◌, ◌&&◌, not, add64,
}
use jidick.Ratelimit.{BpfRatelimit, start_window, roll_window, charge, bpf_ratelimited}
use jidick.Kernel.Cpus.{Steps, here, done, step, append}
use jidick.Ratelimit.Race.{
  idle, returned, switched_off, begin_test, roll_test, burst_test, enter, begin_zero, begin_kept,
  set_begin, window_over, window_open, read_begin, add_interval, new_begin, clear_nmissed,
  clear_events, within_burst, past_burst, count_event, count_total, count_miss, count_total_miss,
  Move,
}

-- `if (rate->begin == 0)`
start_window-Steps :
    (curr : ℕ) (r : BpfRatelimit)
    → Steps Move r (begin_test curr ∷ []) (start_window curr r) (roll_test curr ∷ [])
unfolding start_window
start_window-Steps curr r = elim (Bool-cases (r.begin == 0)) [
  | inl e ↦ rw e (step (step done (here (begin_zero (ground arith)))) (here set_begin))
  | inr e ↦ rw e (step done (here (begin_kept (ground arith))))
]

-- `if (curr > rate->begin + rate->interval)`
roll_window-Steps :
    (curr : ℕ) (r : BpfRatelimit)
    → Steps Move r (roll_test curr ∷ []) (roll_window curr r) (burst_test ∷ [])
unfolding roll_window
roll_window-Steps curr r = elim (Bool-cases (ltb (add64 r.begin r.interval) curr)) [
  | inl e ↦ rw e (
      step
        (step
          (step
            (step (step (step done (here (window_over (ground arith)))) (here read_begin))
              (here add_interval))
            (here new_begin))
          (here clear_nmissed))
        (here clear_events))
  | inr e ↦ rw e (step done (here (window_open (ground arith))))
]

-- `if (rate->burst && rate->burst > rate->events)`
charge-Steps :
    (r : BpfRatelimit) → Steps Move r (burst_test ∷ []) (charge r).0 (returned (charge r).1 ∷ [])
unfolding charge
charge-Steps r = elim (Bool-cases (not (r.burst == 0) && ltb r.events r.burst)) [
  | inl e ↦ rw e (
      step (step (step done (here (within_burst (ground arith) (ground arith)))) (here count_event))
        (here count_total))
  | inr e ↦ rw e (
      step (step (step done (here (past_burst (ground arith)))) (here count_miss))
        (here count_total_miss))
]

-- The accesses of one CPU, with no other one in between, take the limiter to where the function
-- takes it, and the CPU returns what the function returns.
pub bpf_ratelimited-Steps :
    (ktime : ℕ) (r : BpfRatelimit)
    → let (r', limited) = bpf_ratelimited ktime r in
      Steps Move r (idle ∷ []) r' (returned limited ∷ [])
unfolding bpf_ratelimited start_window roll_window charge
bpf_ratelimited-Steps ktime r = elim (Bool-cases (r.interval == 0)) [
  | inl off ↦ rw off (step done (here (switched_off (ground arith))))
  | inr on ↦
      let curr = ktime / nsec_per_sec in
      let started = start_window curr r in
      let rolled = roll_window curr started in
      let entered : Steps Move r (idle ∷ []) r (begin_test curr ∷ []) =
        step done (here (enter curr (ground arith))) in
      let tested = append (start_window-Steps curr r) (roll_window-Steps curr started) in
      rw on (append (append entered tested) (charge-Steps rolled))
]
