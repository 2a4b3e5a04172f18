-- ===== src/Ratelimit/MapStretch.antt =====
-- How many events the limiter in a map of bpf/include/bpf_ratelimit.h admits while several CPUs are
-- in `bpf_ratelimited_core_in_map`, the set-up of the cell included.
use jidick.Base.{
  ℕ, ◌+◌, ◌-◌, ◌*◌, ◌≤◌, ◌<◌, ◌^◌, ◌≡◌, ◌⊎◌, inl, inr, refl, arith, List, length, replicate,
}
use jidick.Kernel.Cpus.{Steps, done, step}
use jidick.Kernel.Overrun.{total, total-replicate}
use jidick.Kernel.Weights.{total-le, Step-Moved, Steps-map}
use jidick.Ratelimit.{BpfRatelimit}
use jidick.Ratelimit.MapRace.{
  MapPc, outside, set_interval, inside, MapMove, call_set, limiter, MapReach-events-lt,
}
use jidick.Ratelimit.RaceStretch.{
  InStretch, rolling, rolling-le, late, counted, IsSpent, Move-IsSpent,
}

-- The second that a CPU has read in the limiter, while it needs it, lies in a stretch of time.
abbrev pub InMapStretch : ℕ → ℕ → MapPc → Type 0
InMapStretch from to (inside old p) = InStretch from to p
InMapStretch from to _ = Unit

abbrev pub MapStretchMove :
    BpfRatelimit → ℕ → ℕ → BpfRatelimit → MapPc → BpfRatelimit → MapPc → Type 0
MapStretchMove cfg from to r p r' p' =
    MapMove cfg r p r' p' × InMapStretch from to p × InMapStretch from to p'

abbrev map_rolling : ℕ → MapPc → ℕ
map_rolling b (inside old p) = rolling b p
map_rolling b _ = 0

abbrev map_late : MapPc → ℕ
map_late (inside old p) = late p
map_late _ = 0

abbrev map_counted : MapPc → ℕ
map_counted (inside old p) = counted p
map_counted _ = 0

-- CPUs that have found the interval set, or set it.
abbrev entered : MapPc → ℕ
entered outside = 0
entered set_interval = 0
entered _ = 1

map_rolling-le : (b : ℕ) (p : MapPc) → map_rolling b p ≤ b
map_rolling-le b (inside old p) = rolling-le b p
map_rolling-le b p = omega arith

module _ (cfg : BpfRatelimit) (from before most cpus : ℕ) where
  -- As in `RaceStretch`, but for the interval, which is zero until the first CPU has set it.
  abbrev IsMapSpent : BpfRatelimit → ℕ → ℕ → ℕ → ℕ → Type 0
  IsMapSpent r rolls lates counts inner =
      ((r.interval ≡ cfg.interval) ⊎ ((r.interval ≡ 0) × (inner ≡ 0)))
      × IsSpent from cfg.interval before most cpus (record r { interval = cfg.interval }) rolls
          lates counts

  MapMove-IsMapSpent :
      {r r' : BpfRatelimit} {p p' : MapPc} (m : MapMove cfg r p r' p')
      (rolls lates counts inner rolls' lates' counts' inner' : ℕ)
      → from + cfg.interval + cfg.interval < 2 ^ 64
      → InMapStretch from (from + cfg.interval) p
      → InMapStretch from (from + cfg.interval) p'
      → r.events ≤ most
      → most + 1 < 2 ^ 64
      → rolls' + map_rolling most p ≡ rolls + map_rolling most p'
      → lates' + map_late p ≡ lates + map_late p'
      → counts' + map_counted p ≡ counts + map_counted p'
      → inner' + entered p ≡ inner + entered p'
      → map_late p ≤ lates
      → map_counted p ≤ counts
      → entered p ≤ inner
      → rolls' ≤ cpus * most
      → IsMapSpent r rolls lates counts inner
      → IsMapSpent r' rolls' lates' counts' inner'
  MapMove-IsMapSpent {r} (limiter m) rolls lates counts inner rolls' lates' counts' inner' fits at
        at' events small er el ec ei hl hc hi le h =
      let same : r.interval ≡ cfg.interval = ground (arith, h.0) in
      let spent : IsSpent from cfg.interval before most cpus r rolls lates counts =
        (same, h.1.1, h.1.2, h.1.3) in
      let after =
        Move-IsSpent from cfg.interval before most cpus m rolls lates counts rolls' lates' counts'
          fits at at' events small er el ec hl hc le spent in
      (inl after.0, (refl, after.1, after.2, after.3))
  MapMove-IsMapSpent (call_set set) rolls lates counts inner rolls' lates' counts' inner' fits at
        at' events small er el ec ei hl hc hi le h =
      ground arith
  MapMove-IsMapSpent m rolls lates counts inner rolls' lates' counts' inner' fits at at' events
        small er el ec ei hl hc hi le h =
      ground arith

module _ (cfg : BpfRatelimit) {r₀ : BpfRatelimit} {from cpus : ℕ} (some_cpu : 0 < cpus)
    (set_up : (r₀.interval ≡ cfg.interval) ⊎ (r₀.interval ≡ 0)) (low : r₀.burst ≤ cfg.burst)
    (within : r₀.events ≤ cfg.burst) (begun : r₀.begin ≤ from + cfg.interval)
    (fits : from + cfg.interval + cfg.interval < 2 ^ 64) (small : cfg.burst + cpus < 2 ^ 64) where
  Steps-IsMapSpent :
      {r : BpfRatelimit} {ps : List MapPc}
      → Steps (MapStretchMove cfg from (from + cfg.interval)) r₀ (replicate cpus outside) r ps
      → (length ps ≡ cpus)
        × IsMapSpent cfg from r₀.total_events
            (cfg.burst + cpus - 1)
            cpus
            r
            (total (map_rolling (cfg.burst + cpus - 1)) ps)
            (total map_late ps)
            (total map_counted ps)
            (total entered ps)
  Steps-IsMapSpent done =
      let rolls = total-replicate (map_rolling (cfg.burst + cpus - 1)) outside cpus refl in
      let lates = total-replicate map_late outside cpus refl in
      let counts = total-replicate map_counted outside cpus refl in
      let inner = total-replicate entered outside cpus refl in
      (
        rolls.1,
        (
          elim set_up [ inl e ↦ inl e | inr e ↦ inr (e, inner.0) ],
          (refl, begun, inr (lates.0, omega (arith, counts)), omega (arith, rolls, counts)),
        ),
      )
  Steps-IsMapSpent (step {s' = r} {s'' = r'} {ps' = ps} {ps'' = ps'} before st) =
      let most = cfg.burst + cpus - 1 in
      let (number, h) = Steps-IsMapSpent before in
      let m = Step-Moved st in
      let events =
        MapReach-events-lt cfg some_cpu low within (Steps-map (λ s p s' p' move. move.0) before) in
      let number' : length ps' ≡ cpus = let same = m.same_number in omega arith in
      let rolls = total-le (map_rolling most) most (map_rolling-le most) ps' in
      (
        number',
        MapMove-IsMapSpent cfg from r₀.total_events most cpus m.move.0 _ _ _ _ _ _ _ _ fits m.move.1
            m.move.2 (omega arith) (omega arith) (m.sums (map_rolling most)) (m.sums map_late)
            (m.sums map_counted) (m.sums entered) (m.among map_late) (m.among map_counted)
            (m.among entered) (rw number' at rolls) h,
      )

-- What `RaceStretch` says of a limiter holds for the cell of a map with the interval and the burst
-- of the configuration: however the CPUs interleave in the set-up of the cell and in the limiter,
-- from outside and from a cell whose interval is zero or that of the configuration, whose burst and
-- events are at most the burst of the configuration, and whose window has not begun after the
-- stretch: while all the times that the CPUs have read lie in a stretch of `interval` seconds,
-- `total_events`, to which each admitted event adds one, modulo 2 ^ 64, has not grown by more than
-- `(cpus + 1) * (burst + cpus - 1)`. It is a condition that the end of the stretch and another
-- interval, and the burst and the number of CPUs, are below 2 ^ 64.
pub map_stretch-total_events-le :
    (cfg : BpfRatelimit) {r₀ : BpfRatelimit} {from cpus : ℕ} {r : BpfRatelimit} {ps : List MapPc}
    → 0 < cpus
    → (r₀.interval ≡ cfg.interval) ⊎ (r₀.interval ≡ 0)
    → r₀.burst ≤ cfg.burst
    → r₀.events ≤ cfg.burst
    → r₀.begin ≤ from + cfg.interval
    → from + cfg.interval + cfg.interval < 2 ^ 64
    → cfg.burst + cpus < 2 ^ 64
    → Steps (MapStretchMove cfg from (from + cfg.interval)) r₀ (replicate cpus outside) r ps
    → r.total_events ≤ r₀.total_events + (cpus + 1) * (cfg.burst + cpus - 1)
map_stretch-total_events-le cfg {cpus = cpus} {r = r} some_cpu set_up low within begun fits small
      steps =
    let (_, spents) = Steps-IsMapSpent cfg some_cpu set_up low within begun fits small steps in
    let events =
      MapReach-events-lt cfg some_cpu low within (Steps-map (λ s p s' p' move. move.0) steps) in
    let below : r.events ≤ cfg.burst + cpus - 1 = omega arith in let sum = spents.1.3 in grind arith
