-- ===== src/Tests/Devices.antt =====
-- The metric of core/metrics/netdev_hw.go, with one interface.
use jidick.Base.{ℕ, ◌≡◌, refl, true, Option, some, [], ◌∷◌, map}
use jidick.Net.Devices.Metric.{
  Round, new_counters, store_counters, hw_drops, update, updates, update-rx_missed_errors,
}

abbrev names : ℕ → Option ℕ
names ifidx = some ifidx

-- The program counted 3 drops of interface 7, and its device 12 in all.
abbrev round : Round names
round = record {
  is_tracer_running = true;
  items = some (record { ifidx = 7; counter = 3 } ∷ []);
  read_stat = λ _. record { rx_dropped = 12; rx_missed_errors = 0 };
}

reported :
    (update names (7 ∷ []) round (updates names (7 ∷ []) (round ∷ []) new_counters)).1
    ≡ some (0 ∷ [])
unfolding update updates store_counters hw_drops new_counters
reported = refl

update-rx_missed_errors_example :
    0 ∷ [] ≡ map (λ name. (round.read_stat name).rx_missed_errors) (7 ∷ [])
update-rx_missed_errors_example =
    update-rx_missed_errors names (7 ∷ []) (round ∷ []) round (0 ∷ []) reported
