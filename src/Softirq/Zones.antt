-- ===== src/Softirq/Zones.antt =====
-- The latency zones of bpf/softirq.c against the ranges documented in `enum lat_zone`.
use jidick.Base.{ℕ, ◌*◌, ◌^◌, ◌<◌, ◌≡◌, arith, ltb, leb, ◌&&◌, to_nat, add64, sub64, nsec_per_usec}
use jidick.Softirq.{SoftirqLat, enter_at}

abbrev pub within : ℕ → ℕ → ℕ → ℕ
within lo hi latency = to_nat (leb (lo * nsec_per_usec) latency && ltb latency (hi * nsec_per_usec))

-- An entry counts the time since the raise, modulo 2 ^ 64, in exactly the zone whose documented
-- range holds it, 0 to 10us, 10us to 100us, 100us to 1ms and 1ms on, and changes nothing else.
enter_at_lem :
    (ktime : ℕ) (lat : SoftirqLat)
    → lat.total_latency.zone0 < 2 ^ 64
    → lat.total_latency.zone1 < 2 ^ 64
    → lat.total_latency.zone2 < 2 ^ 64
    → lat.total_latency.zone3 < 2 ^ 64
    → let latency = sub64 ktime lat.timestamp in
      enter_at ktime lat ≡ record {
        timestamp = lat.timestamp;
        total_latency = record {
          zone0 = add64 lat.total_latency.zone0 (within 0 10 latency);
          zone1 = add64 lat.total_latency.zone1 (within 10 100 latency);
          zone2 = add64 lat.total_latency.zone2 (within 100 1000 latency);
          zone3 = add64 lat.total_latency.zone3 (to_nat (leb (1000 * nsec_per_usec) latency));
        };
      }
unfolding enter_at
enter_at_lem ktime lat a b c d = ground arith
