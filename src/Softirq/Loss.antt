-- ===== src/Softirq/Loss.antt =====
-- What the counters of bpf/softirq.c hold over a sequence of raises and entries.
use jidick.Base.{
  ℕ, ◌+◌, ◌^◌, ◌<◌, ◌≡◌, ◌≢◌, arith, List, [], ◌∷◌, All, some, true, Bool-cases, inl, inr, ==_iff,
  to_nat, ◌==◌,
}
use jidick.Kernel.BpfMap.{BpfMap, nat_eq, bpf_any}
use jidick.Kernel.Laws.{lookup-update_self, lookup-update_ne, lookup-modify_self, lookup-modify_ne}
use jidick.Softirq.{
  TotalLatency, SoftirqLat, enter_at, raised_at, nr_softirqs, Event, raise, entry,
  probe_softirq_raise, probe_softirq_entry, handle, handles,
}

abbrev pub sum : TotalLatency → ℕ
sum t = t.zone0 + t.zone1 + t.zone2 + t.zone3

-- No raise of the vector.
abbrev NoRaise : ℕ → Event → Type 0
NoRaise vec (raise v _) = v ≢ vec
NoRaise vec (entry _ _) = Unit

-- The entries of the vector.
abbrev pub entries : ℕ → List Event → ℕ
entries vec [] = 0
entries vec (raise _ _ ∷ es) = entries vec es
entries vec (entry v _ ∷ es) = to_nat (v == vec) + entries vec es

sum-enter_at :
    (ktime : ℕ) (lat : SoftirqLat)
    → sum lat.total_latency + 1 < 2 ^ 64
    → sum (enter_at ktime lat).total_latency ≡ sum lat.total_latency + 1
unfolding enter_at
sum-enter_at ktime lat h = ground arith

module _ {S : Type 0} (map : BpfMap S ℕ SoftirqLat nat_eq) (vec : ℕ)
    (known : vec < nr_softirqs) where
  lookup-raise :
      (t : ℕ) (s : S)
      → map.accepts s vec bpf_any ≡ true
      → map.lookup (probe_softirq_raise map vec t s) vec ≡ some (raised_at t)
  unfolding probe_softirq_raise
  lookup-raise t s room =
      ground (arith, known, lookup-update_self map s vec (raised_at t) bpf_any room)

  lookup-entry :
      (t : ℕ) (s : S) (lat : SoftirqLat)
      → map.lookup s vec ≡ some lat
      → map.lookup (probe_softirq_entry map vec t s) vec ≡ some (enter_at t lat)
  unfolding probe_softirq_entry
  lookup-entry t s lat there =
      ground (arith, known, lookup-modify_self map s vec (enter_at t) lat there)

  -- Between two raises the counters of a vector sum up its entries.
  sum-handles :
      (es : List Event) (s : S) (lat : SoftirqLat)
      → All (NoRaise vec) es
      → map.lookup s vec ≡ some lat
      → sum lat.total_latency + entries vec es < 2 ^ 64
      → (lat' : SoftirqLat) × (map.lookup (handles map es s) vec ≡ some lat')
        × (sum lat'.total_latency ≡ sum lat.total_latency + entries vec es)
  unfolding handles handle
  sum-handles [] s lat h there fits = (lat, there, omega arith)
  sum-handles (raise v t ∷ es) s lat h there fits =
      let same : map.lookup (probe_softirq_raise map v t s) vec ≡ some lat =
        unfold probe_softirq_raise in
        ground (arith, there, lookup-update_ne map s v (raised_at t) bpf_any vec h.0) in
      sum-handles es (probe_softirq_raise map v t s) lat h.1 same fits
  sum-handles (entry v t ∷ es) s lat h there fits = elim (Bool-cases (v == vec)) [
    | inl e ↦
        let q : v ≡ vec = (==_iff v vec).0 e in
        let entered : map.lookup (probe_softirq_entry map v t s) vec ≡ some (enter_at t lat) =
          rw q (lookup-entry t s lat there) in
        let more : sum (enter_at t lat).total_latency ≡ sum lat.total_latency + 1 =
          sum-enter_at t lat (ground arith) in
        let (lat', there', summed) =
          sum-handles es (probe_softirq_entry map v t s) (enter_at t lat) h.1 entered
            (ground (arith, more)) in
        (lat', there', ground (arith, more, summed))
    | inr e ↦
        let same : map.lookup (probe_softirq_entry map v t s) vec ≡ some lat =
          unfold probe_softirq_entry in
          ground (arith, there, lookup-modify_ne map s v (enter_at t) vec) in
        let (lat', there', summed) =
          sum-handles es (probe_softirq_entry map v t s) lat h.1 same (ground arith) in
        (lat', there', ground (arith, summed))
  ]

  -- Whatever the counters of a vector held before a raise of it, afterwards they sum up only the
  -- entries since: the raise clears them. So `total_latency` never grows into a total.
  pub sum-after-raise :
      (t : ℕ) (es : List Event) (s : S)
      → map.accepts s vec bpf_any ≡ true
      → All (NoRaise vec) es
      → entries vec es < 2 ^ 64
      → (lat : SoftirqLat) × (map.lookup (handles map (raise vec t ∷ es) s) vec ≡ some lat)
        × (sum lat.total_latency ≡ entries vec es)
  unfolding handles handle
  sum-after-raise t es s room h fits =
      let (lat, there, summed) =
        sum-handles es (probe_softirq_raise map vec t s) (raised_at t) h (lookup-raise t s room)
          (omega arith) in
      (lat, there, omega arith)
