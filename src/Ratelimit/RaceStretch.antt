-- ===== src/Ratelimit/RaceStretch.antt =====
-- How many events the limiter of bpf/include/bpf_ratelimit.h admits while several CPUs are in it.
use jidick.Base.{
  ℕ, ◌+◌, ◌-◌, ◌*◌, ◌≤◌, ◌<◌, ◌^◌, ◌≡◌, ◌⊎◌, inr, refl, arith, List, length, replicate,
}
use jidick.Kernel.Cpus.{Steps, done, step}
use jidick.Kernel.Overrun.{total, total-replicate}
use jidick.Kernel.Weights.{total-le, Step-Moved, Steps-map}
use jidick.Ratelimit.{BpfRatelimit}
use jidick.Ratelimit.Race.{
  Pc, idle, begin_test, begin_set, roll_test, roll_delta, roll_total, roll_begin, roll_nmissed,
  roll_events, add_total_events, Move, enter, set_begin, window_over, new_begin, clear_events,
  count_event, count_total, Reach-events-lt,
}

-- The second that a CPU has read, while it needs it, lies in a stretch of time.
abbrev pub InStretch : ℕ → ℕ → Pc → Type 0
InStretch from to (begin_test curr) = (from ≤ curr) × (curr ≤ to)
InStretch from to (begin_set curr) = (from ≤ curr) × (curr ≤ to)
InStretch from to (roll_test curr) = (from ≤ curr) × (curr ≤ to)
InStretch from to (roll_delta curr) = (from ≤ curr) × (curr ≤ to)
InStretch from to (roll_total curr delta) = (from ≤ curr) × (curr ≤ to)
InStretch from to (roll_begin curr) = (from ≤ curr) × (curr ≤ to)
InStretch from to _ = Unit

-- A move in a stretch of time.
abbrev pub StretchMove : ℕ → ℕ → BpfRatelimit → Pc → BpfRatelimit → Pc → Type 0
StretchMove from to r p r' p' = Move r p r' p' × InStretch from to p × InStretch from to p'

-- CPUs that have found the window over and not yet cleared `events`, each of which may let the
-- others start over; those that have already set `begin`; and those that have added their event to
-- `events` only.
abbrev pub rolling : ℕ → Pc → ℕ
rolling b (roll_delta curr) = b
rolling b (roll_total curr delta) = b
rolling b (roll_begin curr) = b
rolling b roll_nmissed = b
rolling b roll_events = b
rolling b _ = 0

abbrev pub late : Pc → ℕ
late roll_nmissed = 1
late roll_events = 1
late _ = 0

abbrev pub counted : Pc → ℕ
counted add_total_events = 1
counted _ = 0

pub rolling-le : (b : ℕ) (p : Pc) → rolling b p ≤ b
rolling-le b p = ground arith

module _ (from interval before most cpus : ℕ) where
  -- `rolls`, `lates` and `counts` are the sums over the CPUs.
  abbrev pub IsSpent : BpfRatelimit → ℕ → ℕ → ℕ → Type 0
  IsSpent r rolls lates counts =
      (r.interval ≡ interval)
      × (r.begin ≤ from + interval)
      × ((from ≤ r.begin) ⊎ ((lates ≡ 0) × (r.total_events + counts ≤ before + r.events)))
      × (r.total_events + counts + rolls ≤ before + r.events + cpus * most)

  pub Move-IsSpent :
      {r r' : BpfRatelimit} {p p' : Pc} (m : Move r p r' p')
      (rolls lates counts rolls' lates' counts' : ℕ)
      → from + interval + interval < 2 ^ 64
      → InStretch from (from + interval) p
      → InStretch from (from + interval) p'
      → r.events ≤ most
      → most + 1 < 2 ^ 64
      → rolls' + rolling most p ≡ rolls + rolling most p'
      → lates' + late p ≡ lates + late p'
      → counts' + counted p ≡ counts + counted p'
      → late p ≤ lates
      → counted p ≤ counts
      → rolls' ≤ cpus * most
      → IsSpent r rolls lates counts
      → IsSpent r' rolls' lates' counts'
  Move-IsSpent (enter curr on) rolls lates counts rolls' lates' counts' fits at at' events small er
        el ec hl hc le h =
      ground arith
  Move-IsSpent (window_over over) rolls lates counts rolls' lates' counts' fits at at' events small
        er el ec hl hc le h =
      ground arith
  Move-IsSpent new_begin rolls lates counts rolls' lates' counts' fits at at' events small er el ec
        hl hc le h =
      ground arith
  Move-IsSpent set_begin rolls lates counts rolls' lates' counts' fits at at' events small er el ec
        hl hc le h =
      ground arith
  Move-IsSpent clear_events rolls lates counts rolls' lates' counts' fits at at' events small er el
        ec hl hc le h =
      ground arith
  Move-IsSpent count_event rolls lates counts rolls' lates' counts' fits at at' events small er el
        ec hl hc le h =
      ground arith
  Move-IsSpent count_total rolls lates counts rolls' lates' counts' fits at at' events small er el
        ec hl hc le h =
      ground arith
  Move-IsSpent m rolls lates counts rolls' lates' counts' fits at at' events small er el ec hl hc le
        h =
      ground arith

module _ {r₀ : BpfRatelimit} {from cpus : ℕ} (some_cpu : 0 < cpus) (within : r₀.events ≤ r₀.burst)
    (begun : r₀.begin ≤ from + r₀.interval) (fits : from + r₀.interval + r₀.interval < 2 ^ 64)
    (small : r₀.burst + cpus < 2 ^ 64) where
  Steps-IsSpent :
      {r : BpfRatelimit} {ps : List Pc}
      → Steps (StretchMove from (from + r₀.interval)) r₀ (replicate cpus idle) r ps
      → (length ps ≡ cpus)
        × IsSpent from r₀.interval r₀.total_events
            (r₀.burst + cpus - 1)
            cpus
            r
            (total (rolling (r₀.burst + cpus - 1)) ps)
            (total late ps)
            (total counted ps)
  Steps-IsSpent done =
      let rolls = total-replicate (rolling (r₀.burst + cpus - 1)) idle cpus refl in
      let lates = total-replicate late idle cpus refl in
      let counts = total-replicate counted idle cpus refl in
      (rolls.1, (refl, begun, inr (lates.0, omega (arith, counts)), omega (arith, rolls, counts)))
  Steps-IsSpent (step {s' = r} {s'' = r'} {ps' = ps} {ps'' = ps'} before st) =
      let (number, h) = Steps-IsSpent before in
      let m = Step-Moved st in
      let events = Reach-events-lt some_cpu within (Steps-map (λ s p s' p' move. move.0) before) in
      let number' : length ps' ≡ cpus = let same = m.same_number in omega arith in
      let rolls =
        total-le (rolling (r₀.burst + cpus - 1)) (r₀.burst + cpus - 1)
          (rolling-le (r₀.burst + cpus - 1)) ps' in
      (
        number',
        Move-IsSpent from r₀.interval r₀.total_events (r₀.burst + cpus - 1) cpus m.move.0 _ _ _ _ _
            _ fits m.move.1 m.move.2 (omega arith) (omega arith)
            (m.sums (rolling (r₀.burst + cpus - 1))) (m.sums late) (m.sums counted) (m.among late)
            (m.among counted) (rw number' at rolls) h,
      )

-- However the CPUs interleave, from outside the function and from a limiter that is within its burst
-- and whose window has not begun after the stretch: while all the times that the CPUs have read lie
-- in a stretch of `interval` seconds, `total_events`, to which each admitted event adds one, modulo
-- 2 ^ 64, has not grown by more than `(cpus + 1) * (burst + cpus - 1)`. It is a condition that the
-- end of the stretch and another interval, and the burst and the number of CPUs, are below 2 ^ 64.
pub stretch-total_events-le :
    {r₀ : BpfRatelimit} {from cpus : ℕ} {r : BpfRatelimit} {ps : List Pc}
    → 0 < cpus
    → r₀.events ≤ r₀.burst
    → r₀.begin ≤ from + r₀.interval
    → from + r₀.interval + r₀.interval < 2 ^ 64
    → r₀.burst + cpus < 2 ^ 64
    → Steps (StretchMove from (from + r₀.interval)) r₀ (replicate cpus idle) r ps
    → r.total_events ≤ r₀.total_events + (cpus + 1) * (r₀.burst + cpus - 1)
stretch-total_events-le {r₀} {cpus = cpus} {r = r} some_cpu within begun fits small steps =
    let (_, spent) = Steps-IsSpent some_cpu within begun fits small steps in
    let events = Reach-events-lt some_cpu within (Steps-map (λ s p s' p' move. move.0) steps) in
    let below : r.events ≤ r₀.burst + cpus - 1 = omega arith in let sum = spent.3 in grind arith
