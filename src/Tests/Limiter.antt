-- ===== src/Tests/Limiter.antt =====
-- The limiter of bpf/include/bpf_ratelimit.h at concrete limiters and times.
use jidick.Base.{
  ℕ, ◌+◌, ◌-◌, ◌*◌, ◌≤◌, ◌≡◌, refl, arith, min, List, [], ◌∷◌, length, some, replicate,
  if◌then◌else◌, ◌==◌, true, inr,
}
use jidick.Kernel.BpfMap.{BpfMap, nat_eq}
use jidick.Kernel.Table.{table, find}
use jidick.Ratelimit.{
  BpfRatelimit, new, bpf_ratelimited, after, admitted, init_from_cfg, bpf_ratelimited_core_in_map,
  in_map_cfg,
}
use jidick.Ratelimit.Window.{admitted-eq-min}
use jidick.Ratelimit.Stretch.{after-admitted-le}
use jidick.Ratelimit.Refine.{Models, core_in_map-refines}
use jidick.Kernel.Cpus.{here, there, done, step}
use jidick.Ratelimit.Race.{
  Pc, enter, begin_kept, begin_zero, set_begin, window_open, within_burst, count_event, count_total,
  Reach,
}
use jidick.Ratelimit.RaceStretch.{stretch-total_events-le}
use jidick.Ratelimit.MapStretch.{map_stretch-total_events-le}
use jidick.Ratelimit.MapRace
use jidick.Ratelimit.MapRace.{
  call_zeroed, init_interval, init_burst, init_max_burst, keep_nmissed, set_burst, map_returned,
  MapReach, spurious,
}
use jidick.Ratelimit.Overshoot.{overshoot}

-- Two events a window, in a window that began in second 5.
abbrev limiter : BpfRatelimit
limiter = record (new 1 2) { begin = 5 }

-- A burst that is used up.
abbrev used_up : BpfRatelimit
used_up = record limiter { events = 2 }

abbrev calls : List ℕ
calls = 5_500_000_000 ∷ 6_000_000_000 ∷ 6_999_999_999 ∷ []

limiter_run : admitted (new 1 2) (5_000_000_000 ∷ calls) ≡ 2
unfolding admitted bpf_ratelimited
limiter_run = refl

limiter_next_window :
    admitted (new 1 2) (5_000_000_000 ∷ 5_000_000_001 ∷ 6_000_000_000 ∷ 7_000_000_000 ∷ []) ≡ 3
unfolding admitted bpf_ratelimited
limiter_next_window = refl

-- Two calls in second 4, and three in the two seconds from 5 on.
after-admitted-le_example :
    admitted (after (new 1 2) (4_000_000_000 ∷ 4_100_000_000 ∷ [])) calls ≤ (1 + 1) * 2
after-admitted-le_example =
    after-admitted-le 1 2 5 1 (4_000_000_000 ∷ 4_100_000_000 ∷ []) calls (omega arith) (omega arith)
      (omega arith) (omega arith) (ground arith)

admitted-eq-min_example :
    admitted limiter calls ≡ min (length calls) (limiter.burst - limiter.events)
admitted-eq-min_example = admitted-eq-min limiter calls (omega arith) (omega arith) (omega arith)

abbrev overflowing : BpfRatelimit
overflowing = record limiter { events = 2; max_burst = 3; nmissed = 1 }

abbrev cells : BpfMap (List (ℕ × BpfRatelimit)) ℕ BpfRatelimit nat_eq
cells = table nat_eq 1

abbrev cfg : BpfRatelimit
cfg = in_map_cfg 1 2 0

-- The one cell of the map, as the kernel makes it.
abbrev zeroed : List (ℕ × BpfRatelimit)
zeroed = (0, new 0 0) ∷ []

zeroed-Models : Models cells cfg zeroed cfg
unfolding find init_from_cfg
zeroed-Models = (new 0 0, refl, refl)

core_in_map-refines_example :
    let v = bpf_ratelimited_core_in_map cells 5_000_000_000 cfg zeroed in
    (v.limited ≡ (bpf_ratelimited 5_000_000_000 cfg).1)
    × Models cells cfg v.cell (bpf_ratelimited 5_000_000_000 cfg).0
    × (cells.lookup v.cell 1
        ≡ (if 1 == 0 then some (bpf_ratelimited 5_000_000_000 cfg).0 else cells.lookup zeroed 1))
core_in_map-refines_example =
    core_in_map-refines cells cfg zeroed cfg 5_000_000_000 1 (omega arith) zeroed-Models

-- The first of two CPUs has an event admitted in second 6, and the second one is about to test.
abbrev one_admitted : BpfRatelimit
one_admitted = record limiter {
  events = limiter.events + 1;
  total_events = limiter.total_events + 1;
}

stretch-total_events-le_example :
    one_admitted.total_events ≤ limiter.total_events + (2 + 1) * (limiter.burst + 2 - 1)
unfolding replicate
stretch-total_events-le_example =
    stretch-total_events-le {r₀ = limiter} {from = 6} {cpus = 2} (omega arith) (omega arith)
      (omega arith) (omega arith) (omega arith)
      (step
        (step
          (step
            (step
              (step
                (step (step done (here (enter 6 (omega arith), tt, omega arith)))
                  (here (begin_kept (omega arith), omega arith, omega arith)))
                (here (window_open (omega arith), omega arith, tt)))
              (there (here (enter 7 (omega arith), tt, omega arith))))
            (here (within_burst (omega arith) (omega arith), tt, tt)))
          (here (count_event, tt, tt)))
        (here (count_total, tt, tt)))

abbrev one_left : BpfRatelimit
one_left = record limiter { events = 1 }

-- The first of two CPUs sets the zeroed cell up, and has an event admitted in second 6.
abbrev set_up : BpfRatelimit
set_up = record (new 1 2) { begin = 6; events = 1; total_events = 1 }

map_stretch-total_events-le_example :
    set_up.total_events ≤ (new 0 0).total_events + (2 + 1) * (cfg.burst + 2 - 1)
unfolding replicate
map_stretch-total_events-le_example =
    map_stretch-total_events-le cfg {r₀ = new 0 0} {from = 6} {cpus = 2} {r = set_up} (omega arith)
      (inr refl) (omega arith) (omega arith) (omega arith) (omega arith) (omega arith)
      (step
        (step
          (step
            (step
              (step
                (step
                  (step
                    (step
                      (step
                        (step
                          (step (step done (here (call_zeroed refl, tt, tt)))
                            (here (init_interval, tt, tt)))
                          (here (init_burst, tt, tt)))
                        (here (init_max_burst, tt, tt)))
                      (here (keep_nmissed, tt, tt)))
                    (here
                      (MapRace.limiter (enter 6 (omega arith)), tt, (omega arith, omega arith))))
                  (here (
                    MapRace.limiter (begin_zero refl),
                    (omega arith, omega arith),
                    (omega arith, omega arith),
                  )))
                (here (
                  MapRace.limiter (set_begin),
                  (omega arith, omega arith),
                  (omega arith, omega arith),
                )))
              (here (MapRace.limiter (window_open (omega arith)), (omega arith, omega arith), tt)))
            (here (MapRace.limiter (within_burst (omega arith) (omega arith)), tt, tt)))
          (here (MapRace.limiter (count_event), tt, tt)))
        (here (MapRace.limiter (count_total), tt, tt)))

spurious_example :
    (r : BpfRatelimit) × MapReach cfg (new 0 0) 2 r (set_burst ∷ map_returned true (some r) ∷ [])
    × (r.total_events ≡ 0)
spurious_example = spurious cfg 5 (omega arith) (omega arith)

overshoot_example :
    (r : BpfRatelimit) × (ps : List Pc) × Reach one_left 3 r ps
    × (r.events + 1 ≡ one_left.burst + 3)
overshoot_example =
    overshoot one_left 6 3 (omega arith) (omega arith) (omega arith) refl (omega arith)
