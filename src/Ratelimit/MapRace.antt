-- ===== src/Ratelimit/MapRace.antt =====
-- `bpf_ratelimited_core_in_map` of bpf/include/bpf_ratelimit.h as several CPUs call it, any number
-- of times, for the one cell of the map: one access to the cell at a time up to the verdict, in the
-- order of the source. A test that reads two members is one access, as is the test of the notice
-- with the copy that it sends.
use jidick.Base.{
  ℕ, ◌+◌, ◌≤◌, ◌<◌, ◌^◌, ◌≡◌, ◌≢◌, refl, arith, List, [], ◌∷◌, replicate, Bool, true, false, Option,
  none, some, if◌then◌else◌,
}
use jidick.Kernel.Cpus.{Steps, here, there, done, step}
use jidick.Kernel.Overrun.{Steps-bound, total-replicate}
use jidick.Ratelimit.{BpfRatelimit, new, notifies}
use jidick.Ratelimit.Race
use jidick.Ratelimit.Race.{
  Pc, idle, returned, enter, begin_zero, set_begin, window_open, past_burst, count_miss,
  count_total_miss, pending, pending-le, Move-bound,
}

-- Where a CPU stands, with its local `old_nmissed` where that is live.
pub data MapPc : Type 0 where
  outside : MapPc
  set_interval : MapPc  -- `rate->interval = cfg->interval`
  set_burst : MapPc
  set_max_burst : MapPc
  read_nmissed : MapPc  -- `u64 old_nmissed = rate->nmissed`
  inside : (old_nmissed : ℕ) → Pc → MapPc  -- in `bpf_ratelimited(rate)`
  test_notice : (old_nmissed : ℕ) → MapPc
  map_returned : (limited : Bool) → (notice : Option BpfRatelimit) → MapPc

module _ (cfg : BpfRatelimit) where
  -- One step of one CPU.
  pub data MapMove (r : BpfRatelimit) : MapPc → BpfRatelimit → MapPc → Type 0 where
    call_zeroed : r.interval ≡ 0 → MapMove r outside r set_interval
    call_set : r.interval ≢ 0 → MapMove r outside r read_nmissed
    init_interval : MapMove r set_interval (record r { interval = cfg.interval }) set_burst
    init_burst : MapMove r set_burst (record r { burst = cfg.burst }) set_max_burst
    init_max_burst : MapMove r set_max_burst (record r { max_burst = cfg.max_burst }) read_nmissed
    keep_nmissed : MapMove r read_nmissed r (inside r.nmissed idle)
    limiter :
        {old : ℕ} {p : Pc} {r' : BpfRatelimit} {p' : Pc}
        → Race.Move r p r' p'
        → MapMove r (inside old p) r' (inside old p')
    within : {old : ℕ} → MapMove r (inside old (returned false)) r (map_returned false none)
    exceeded : {old : ℕ} → MapMove r (inside old (returned true)) r (test_notice old)
    notify :
        {old : ℕ}
        → MapMove r
            (test_notice old)
            r
            (map_returned true (if notifies old r then some r else none))
    map_again :
        {b : Bool} {notice : Option BpfRatelimit} → MapMove r (map_returned b notice) r outside

  -- States that a number of CPUs can reach from the cell `r₀`.
  abbrev pub MapReach : BpfRatelimit → ℕ → BpfRatelimit → List MapPc → Type 0
  MapReach r₀ cpus r ps = Steps MapMove r₀ (replicate cpus outside) r ps

  abbrev map_pending : MapPc → ℕ
  map_pending (inside old p) = pending p
  map_pending _ = 0

  map_pending-le : (p : MapPc) → map_pending p ≤ 1
  map_pending-le (inside old p) = pending-le p
  map_pending-le p = omega arith

  MapMove-bound :
      {r r' : BpfRatelimit} {p p' : MapPc} (a b : ℕ)
      → MapMove r p r' p'
      → a ≤ b
      → r.burst ≤ cfg.burst
      → r.events + map_pending p + a < cfg.burst + 1 + b
      → (r'.burst ≤ cfg.burst) × (r'.events + map_pending p' + a < cfg.burst + 1 + b)
  MapMove-bound a b (limiter m) le low lt = Move-bound a b m le low lt
  MapMove-bound a b m le low lt = ground arith

  -- From a cell that is zeroed, or whose burst and events are at most the burst of the
  -- configuration, the counter `events` exceeds the burst of the configuration by less than the
  -- number of CPUs, however the CPUs interleave. Each CPU that has found the window over clears it.
  pub MapReach-events-lt :
      {r₀ : BpfRatelimit} {cpus : ℕ} {r : BpfRatelimit} {ps : List MapPc}
      → 0 < cpus
      → r₀.burst ≤ cfg.burst
      → r₀.events ≤ cfg.burst
      → MapReach r₀ cpus r ps
      → r.events < cfg.burst + cpus
  MapReach-events-lt {r₀} {cpus} some_cpu low start_within reach =
      let start = total-replicate map_pending outside cpus refl in
      let (ok, same, bound) =
        Steps-bound MapMove map_pending (λ r. r.events) (λ r. r.burst ≤ cfg.burst) cfg.burst
          map_pending-le (λ s s' p p' a b m le ok lt. MapMove-bound a b m le ok lt) low
          (omega (arith, start)) reach in
      omega (arith, start, same, bound)

  -- A step of the second of two CPUs, in the limiter.
  next :
      {r₀ r : BpfRatelimit} {ps : List MapPc} {q : MapPc} {old : ℕ} {p : Pc} {r' : BpfRatelimit}
      {p' : Pc}
      → Steps MapMove r₀ ps r (q ∷ inside old p ∷ [])
      → Race.Move r p r' p'
      → Steps MapMove r₀ ps r' (q ∷ inside old p' ∷ [])
  next before m = step before (there (here (limiter m)))

  -- A second CPU calls after the first has set the interval.
  called :
      cfg.interval ≢ 0 → MapReach (new 0 0) 2 (new cfg.interval 0) (set_burst ∷ inside 0 idle ∷ [])
  unfolding replicate
  called on =
      let set : MapReach (new 0 0) 2 (new cfg.interval 0) (set_burst ∷ outside ∷ []) =
        step (step done (here (call_zeroed refl))) (here init_interval) in
      step (step set (there (here (call_set on)))) (there (here keep_nmissed))

  -- From the zeroed cell, while one CPU has set the interval and not yet the burst, a call on
  -- another CPU can be limited and send a notice, with no event admitted yet; for any second of the
  -- clock and any interval, not 0, whose sum does not wrap around.
  pub spurious :
      (curr : ℕ)
      → cfg.interval ≢ 0
      → curr + cfg.interval < 2 ^ 64
      → (r : BpfRatelimit) × MapReach (new 0 0) 2 r (set_burst ∷ map_returned true (some r) ∷ [])
        × (r.total_events ≡ 0)
  unfolding notifies
  spurious curr on fits =
      let begun = next (next (next (called on) (enter curr on)) (begin_zero refl)) set_begin in
      let refused = next (next begun (window_open (omega arith))) (past_burst (omega arith)) in
      let counted = next (next refused count_miss) count_total_miss in
      (_, step (step counted (there (here exceeded))) (there (here notify)), refl)
