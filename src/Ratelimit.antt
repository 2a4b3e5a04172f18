-- ===== src/Ratelimit.antt =====
-- bpf/include/bpf_ratelimit.h: the limiter that the event programs call before they report.
pub mod Window
pub mod Stretch
pub mod InMap
pub mod Account
pub mod Refine
pub mod Race
pub mod Overshoot
pub mod RaceStretch
pub mod Alone
pub mod MapRace
pub mod MapStretch
pub mod MapAlone
use jidick.Base.{
  ℕ, ◌+◌, ◌/◌, List, [], ◌∷◌, to_nat, is_some, Bool, true, false, ◌&&◌, not, ltb, ◌==◌,
  if◌then◌else◌, add64, sub64, nsec_per_sec, Option, none, some, ◌||◌,
}
use jidick.Kernel.BpfMap.{BpfMap, nat_eq}

-- `struct bpf_ratelimit`; every field is a `uint64_t`.
pub record BpfRatelimit : Type 0 where
  pub interval : ℕ
  pub begin : ℕ
  pub burst : ℕ
  pub max_burst : ℕ
  pub events : ℕ
  pub nmissed : ℕ
  pub total_events : ℕ
  pub total_nmissed : ℕ
  pub total_interval : ℕ

-- `BPF_RATELIMIT(name, interval, burst)`
abbrev pub new : ℕ → ℕ → BpfRatelimit
new interval burst = record {
  interval = interval;
  begin = 0;
  burst = burst;
  max_burst = 0;
  events = 0;
  nmissed = 0;
  total_events = 0;
  total_nmissed = 0;
  total_interval = 0;
}

-- `if (rate->begin == 0) rate->begin = curr;`
unfoldable start_window : ℕ → BpfRatelimit → BpfRatelimit
start_window curr rate = if rate.begin == 0 then record rate { begin = curr } else rate

-- `if (curr > rate->begin + rate->interval) { … }`
unfoldable roll_window : ℕ → BpfRatelimit → BpfRatelimit
roll_window curr rate =
    if ltb (add64 rate.begin rate.interval) curr
    then record rate {
      total_interval = add64 rate.total_interval (sub64 curr rate.begin);
      begin = curr;
      events = 0;
      nmissed = 0;
    }
    else rate

-- The rest of the function: admit the event while the burst lasts, or count a miss.
unfoldable charge : BpfRatelimit → BpfRatelimit × Bool
charge rate =
    if not (rate.burst == 0) && ltb rate.events rate.burst
    then (
      record rate { events = add64 rate.events 1; total_events = add64 rate.total_events 1 },
      false,
    )
    else (
      record rate { nmissed = add64 rate.nmissed 1; total_nmissed = add64 rate.total_nmissed 1 },
      true,
    )

-- `bpf_ratelimited(rate)` at a clock reading in nanoseconds, for a pointer that is not NULL (no
-- caller passes NULL); `true` is "the threshold is exceeded".
unfoldable pub bpf_ratelimited : ℕ → BpfRatelimit → BpfRatelimit × Bool
unfolding start_window roll_window charge
bpf_ratelimited ktime rate =
    if rate.interval == 0
    then (rate, false)
    else let curr = ktime / nsec_per_sec in charge (roll_window curr (start_window curr rate))

-- The limiter after a sequence of calls at the given clock readings, and how many it admitted.
unfoldable pub after : BpfRatelimit → List ℕ → BpfRatelimit
after rate [] = rate
after rate (t ∷ ts) = after (bpf_ratelimited t rate).0 ts

unfoldable pub admitted : BpfRatelimit → List ℕ → ℕ
admitted rate [] = 0
admitted rate (t ∷ ts) =
    to_nat (not (bpf_ratelimited t rate).1) + admitted (bpf_ratelimited t rate).0 ts

-- `if (rate->interval == 0) { … }`: a zeroed map cell takes the configuration.
unfoldable pub init_from_cfg : BpfRatelimit → BpfRatelimit → BpfRatelimit
init_from_cfg cfg rate =
    if rate.interval == 0
    then record rate { interval = cfg.interval; burst = cfg.burst; max_burst = cfg.max_burst }
    else rate

-- The condition of the call of `bpf_perf_event_output`.
unfoldable pub notifies : ℕ → BpfRatelimit → Bool
notifies old_nmissed rate =
    old_nmissed == 0 || (ltb 0 rate.max_burst && ltb (sub64 rate.max_burst rate.burst) rate.nmissed)

-- What a call returns: the map cell, the verdict, and the limiter that is sent to user space.
pub record Verdict (C : Type 0) : Type 0 where
  pub cell : C
  pub limited : Bool
  pub notice : Option BpfRatelimit

-- `bpf_ratelimited_core_in_map` from the cell that the lookup found.
unfoldable pub ratelimited_cell : ℕ → BpfRatelimit → BpfRatelimit → Verdict BpfRatelimit
unfolding init_from_cfg notifies
ratelimited_cell ktime cfg cell =
    let rate = init_from_cfg cfg cell in
    let (rate', limited) = bpf_ratelimited ktime rate in
    record {
      cell = rate';
      limited = limited;
      notice = if limited && notifies rate.nmissed rate' then some rate' else none;
    }

-- `bpf_ratelimited_core_in_map(ctx, map, perf_map, cfg)`; the cell has key 0.
module _ {S : Type 0} (map : BpfMap S ℕ BpfRatelimit nat_eq) where
  unfoldable pub bpf_ratelimited_core_in_map : ℕ → BpfRatelimit → S → Verdict S
  bpf_ratelimited_core_in_map ktime cfg s = elim (map.lookup s 0) [
    | none ↦ record { cell = s; limited = false; notice = none }
    | some rate ↦
        let v = ratelimited_cell ktime cfg rate in
        record { cell = map.store s 0 v.cell; limited = v.limited; notice = v.notice }
  ]

-- `BPF_RATELIMIT_IN_MAP(name, interval, burst, max_burst)`: the configuration.
abbrev pub in_map_cfg : ℕ → ℕ → ℕ → BpfRatelimit
in_map_cfg interval burst max_burst = record (new interval burst) { max_burst = max_burst }

-- The notices that a sequence of calls on one cell sends.
unfoldable pub notices : BpfRatelimit → BpfRatelimit → List ℕ → ℕ
notices cfg cell [] = 0
notices cfg cell (t ∷ ts) =
    to_nat (is_some (ratelimited_cell t cfg cell).notice)
    + notices cfg (ratelimited_cell t cfg cell).cell ts

module _ {S : Type 0} (map : BpfMap S ℕ BpfRatelimit nat_eq) where
  -- How many of a sequence of calls the limiter in a map admits.
  unfoldable pub admitted_in_map : BpfRatelimit → S → List ℕ → ℕ
  admitted_in_map cfg s [] = 0
  admitted_in_map cfg s (t ∷ ts) =
      let v = bpf_ratelimited_core_in_map map t cfg s in
      to_nat (not v.limited) + admitted_in_map cfg v.cell ts
