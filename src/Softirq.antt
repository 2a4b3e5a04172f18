-- ===== src/Softirq.antt =====
-- bpf/softirq.c: latency of the softirqs, from raise to entry, in four ranges. The state is the
-- running CPU's slice of the per-CPU map `softirq_percpu_lats`.
pub mod Zones
pub mod Loss
use jidick.Base.{
  ℕ, ◌*◌, leb, ltb, if◌then◌else◌, Option, none, some, add64, sub64, nsec_per_usec, nsec_per_msec,
  List, [], ◌∷◌,
}
use jidick.Kernel.Enums.{SoftirqVector, softirq_vector}
use jidick.Kernel.BpfMap.{BpfMap, nat_eq, bpf_any, modify}

-- `enum lat_zone`, without its count LAT_ZONE_MAX
pub data LatZone : Type 0 where
  lat_zone0 : LatZone
  lat_zone1 : LatZone
  lat_zone2 : LatZone
  lat_zone3 : LatZone

-- `u64 total_latency[LAT_ZONE_MAX]`
pub record TotalLatency : Type 0 where
  pub zone0 : ℕ
  pub zone1 : ℕ
  pub zone2 : ℕ
  pub zone3 : ℕ

-- `struct softirq_lat`
pub record SoftirqLat : Type 0 where
  pub timestamp : ℕ
  pub total_latency : TotalLatency

abbrev pub nr_softirqs : ℕ
nr_softirqs = softirq_vector SoftirqVector.nr_softirqs

-- The initialiser of `lat` at a raise: the members that it does not name are zero.
abbrev pub raised_at : ℕ → SoftirqLat
raised_at ktime = record {
  timestamp = ktime;
  total_latency = record { zone0 = 0; zone1 = 0; zone2 = 0; zone3 = 0 };
}

-- The chain of tests on `latency`.
unfoldable zone_of : ℕ → LatZone
zone_of latency =
    if ltb latency (10 * nsec_per_usec)
    then lat_zone0
    else if ltb latency (100 * nsec_per_usec)
    then lat_zone1
    else if ltb latency (1 * nsec_per_msec)
    then lat_zone2
    else lat_zone3

-- `__sync_fetch_and_add(&lat->total_latency[zone], 1)`
unfoldable add_zone : LatZone → TotalLatency → TotalLatency
add_zone lat_zone0 t = record t { zone0 = add64 t.zone0 1 }
add_zone lat_zone1 t = record t { zone1 = add64 t.zone1 1 }
add_zone lat_zone2 t = record t { zone2 = add64 t.zone2 1 }
add_zone lat_zone3 t = record t { zone3 = add64 t.zone3 1 }

unfoldable pub enter_at : ℕ → SoftirqLat → SoftirqLat
unfolding zone_of add_zone
enter_at ktime lat = record lat {
  total_latency = add_zone (zone_of (sub64 ktime lat.timestamp)) lat.total_latency;
}

-- A call of one of the two handlers.
pub data Event : Type 0 where
  raise : (vec ktime : ℕ) → Event
  entry : (vec ktime : ℕ) → Event

module _ {S : Type 0} (map : BpfMap S ℕ SoftirqLat nat_eq) where
  unfoldable pub probe_softirq_raise : ℕ → ℕ → S → S
  probe_softirq_raise vec ktime s =
      if leb nr_softirqs vec then s else map.update s vec (raised_at ktime) bpf_any

  unfoldable pub probe_softirq_entry : ℕ → ℕ → S → S
  probe_softirq_entry vec ktime s =
      if leb nr_softirqs vec then s else modify map s vec (enter_at ktime)

  unfoldable pub handle : Event → S → S
  handle (raise vec ktime) = probe_softirq_raise vec ktime
  handle (entry vec ktime) = probe_softirq_entry vec ktime

  unfoldable pub handles : List Event → S → S
  handles [] s = s
  handles (e ∷ es) s = handles es (handle e s)
