-- ===== src/Ratelimit/Window.antt =====
-- Windows of the limiter of bpf/include/bpf_ratelimit.h: what one call does to the window, and how
-- many events a sequence of calls can pass.
use jidick.Base.{
  ℕ, zero, suc, ◌+◌, ◌-◌, ◌*◌, ◌/◌, ◌^◌, ◌≤◌, ◌<◌, min, ◌≡◌, ◌⊎◌, inl, inr, Bool, not, List, [],
  ◌∷◌, leb, arith, to_nat, length, All, All-map, nsec_per_sec,
}
use jidick.Ratelimit.{BpfRatelimit, new, bpf_ratelimited, admitted}

-- Bounds on the fields: an interval of at most 2 ^ 32 seconds, and no more events than the burst.
pub record IsValid (r : BpfRatelimit) : Type 0 where
  pub interval_pos : 0 < r.interval
  pub interval_lt : r.interval < 2 ^ 32
  pub burst_lt : r.burst < 2 ^ 64
  pub begin_lt : r.begin < 2 ^ 35
  pub events_le : r.events ≤ r.burst

-- A reading of `bpf_ktime_get_ns` whose second is at most `last`.
abbrev pub Until : ℕ → ℕ → Type 0
Until last t = (t < 2 ^ 64) × (t / nsec_per_sec ≤ last)

-- What a call does: it either stays in the window, which is charged for the event if it is
-- admitted, or opens a new one at least `interval + 1` seconds later.
pub record Step (r r' : BpfRatelimit) (limited : Bool) (t : ℕ) : Type 0 where
  pub same_interval : r'.interval ≡ r.interval
  pub same_burst : r'.burst ≡ r.burst
  pub valid : IsValid r'
  pub begins : (r'.begin ≡ r.begin) ⊎ (r'.begin ≡ t / nsec_per_sec)
  pub window :
      ((r.begin ≤ r'.begin) × (r'.events ≡ r.events + to_nat (not limited)))
      ⊎ ((r.begin + r.interval < r'.begin) × (r'.events ≡ to_nat (not limited)))

pub bpf_ratelimited-Step :
    (r : BpfRatelimit) (t : ℕ)
    → IsValid r
    → t < 2 ^ 64
    → Step r (bpf_ratelimited t r).0 (bpf_ratelimited t r).1 t
unfolding bpf_ratelimited
bpf_ratelimited-Step r t v h = ground arith

-- A limiter in a window that began at most `n` windows before the last call has at most `n` bursts
-- to give, what it has already given in this window included.
pub admitted-le-windows :
    (r : BpfRatelimit) (ts : List ℕ) (last n : ℕ)
    → IsValid r
    → All (Until last) ts
    → r.begin ≤ last
    → last < r.begin + n * (r.interval + 1)
    → admitted r ts + r.events ≤ n * r.burst
unfolding admitted
admitted-le-windows r ts last zero v h b w = absurd (omega arith)
admitted-le-windows r [] last (suc m) v h b w = grind (arith, v.events_le)
admitted-le-windows r (t ∷ ts) last (suc m) v h b w =
    let s = bpf_ratelimited-Step r t v h.0.0 in
    let r' = (bpf_ratelimited t r).0 in
    let later : r'.begin ≤ last = omega (arith, s.begins) in
    elim s.window [
      | inl same ↦
          let ih =
            admitted-le-windows r' ts last (suc m) s.valid h.1 later
              (rw s.same_interval (omega arith)) in
          omega (arith, s.same_burst, rw s.same_burst at ih)
      | inr fresh ↦
          let ih =
            admitted-le-windows r' ts last m s.valid h.1 later (rw s.same_interval (omega arith)) in
          omega (arith, v.events_le, rw s.same_burst at ih)
    ]

-- The first call opens the window at its own second.
bpf_ratelimited-new :
    (interval burst t : ℕ)
    → 0 < interval
    → interval < 2 ^ 32
    → burst < 2 ^ 64
    → t < 2 ^ 64
    → let (r, limited) = bpf_ratelimited t (new interval burst) in
      (r.begin ≡ t / nsec_per_sec) × (r.events ≡ to_nat (not limited))
unfolding bpf_ratelimited
bpf_ratelimited-new interval burst t pos small fits h = ground arith

-- A fresh `BPF_RATELIMIT(name, interval, burst)` admits at most `n * burst` of any calls that are
-- made before `n * (interval + 1)` seconds have passed since the second of the first.
pub new-admitted-le :
    (interval burst first last n : ℕ) (ts : List ℕ)
    → 0 < interval
    → interval < 2 ^ 32
    → burst < 2 ^ 64
    → first / nsec_per_sec ≤ last
    → All (Until last) (first ∷ ts)
    → last < first / nsec_per_sec + n * (interval + 1)
    → admitted (new interval burst) (first ∷ ts) ≤ n * burst
unfolding admitted
new-admitted-le interval burst first last n ts pos small fits b h w =
    let (begins, events) = bpf_ratelimited-new interval burst first pos small fits h.0.0 in
    let v : IsValid (new interval burst) = omega arith in
    let s = bpf_ratelimited-Step (new interval burst) first v h.0.0 in
    let bound =
      admitted-le-windows (bpf_ratelimited first (new interval burst)).0 ts last n s.valid h.1
        (rw begins b) (rw (begins, s.same_interval) w) in
    omega (arith, events, rw s.same_burst at bound)

-- A call before the window ends leaves the window, and is limited exactly when the burst is used up.
pub bpf_ratelimited-in_window :
    (r : BpfRatelimit) (t : ℕ)
    → IsValid r
    → 0 < r.begin
    → Until (r.begin + r.interval) t
    → ((bpf_ratelimited t r).1 ≡ leb r.burst r.events)
      × ((bpf_ratelimited t r).0.begin ≡ r.begin)
      × ((bpf_ratelimited t r).0.events ≡ min (r.events + 1) r.burst)
unfolding bpf_ratelimited
bpf_ratelimited-in_window r t v b h = ground arith

-- While its window lasts, the limiter admits exactly what is left of the burst: every call up to
-- there, and none after.
pub admitted-eq-min :
    (r : BpfRatelimit) (ts : List ℕ)
    → IsValid r
    → 0 < r.begin
    → All (Until (r.begin + r.interval)) ts
    → admitted r ts ≡ min (length ts) (r.burst - r.events)
unfolding admitted
admitted-eq-min r [] v b h = omega arith
admitted-eq-min r (t ∷ ts) v b h =
    let s = bpf_ratelimited-Step r t v h.0.0 in
    let (limited, begins, events) = bpf_ratelimited-in_window r t v b h.0 in
    let r' = (bpf_ratelimited t r).0 in
    let rest : All (Until (r'.begin + r'.interval)) ts = rw (begins, s.same_interval) h.1 in
    let ih = admitted-eq-min r' ts s.valid (omega arith) rest in
    ground (arith, ih, limited, events, s.same_burst, v.events_le)

-- A call after the end of the window opens a new one at its own second.
bpf_ratelimited-past_window :
    (r : BpfRatelimit) (t : ℕ)
    → IsValid r
    → 0 < r.begin
    → t < 2 ^ 64
    → r.begin + r.interval < t / nsec_per_sec
    → ((bpf_ratelimited t r).1 ≡ leb r.burst 0)
      × ((bpf_ratelimited t r).0.begin ≡ t / nsec_per_sec)
      × ((bpf_ratelimited t r).0.events ≡ min 1 r.burst)
unfolding bpf_ratelimited
bpf_ratelimited-past_window r t v b h over = ground arith

-- A limiter recovers by itself: the first call after the end of a window, however many events the
-- window admitted and missed, opens a new one in which exactly the whole burst is admitted.
admitted-past_window :
    (r : BpfRatelimit) (t : ℕ) (ts : List ℕ)
    → IsValid r
    → 0 < r.begin
    → t < 2 ^ 64
    → r.begin + r.interval < t / nsec_per_sec
    → All (Until (t / nsec_per_sec + r.interval)) ts
    → admitted r (t ∷ ts) ≡ min (length (t ∷ ts)) r.burst
unfolding admitted
admitted-past_window r t ts v b h over inside =
    let s = bpf_ratelimited-Step r t v h in
    let (limited, begins, events) = bpf_ratelimited-past_window r t v b h over in
    let r' = (bpf_ratelimited t r).0 in
    let rest : All (Until (r'.begin + r'.interval)) ts = rw (begins, s.same_interval) inside in
    let later = admitted-eq-min r' ts s.valid (omega (arith, begins)) rest in
    ground (arith, later, limited, events, s.same_burst)

-- A reading of the clock whose second is one of those from `first` up to, not including, `over`.
abbrev pub Within : ℕ → ℕ → ℕ → Type 0
Within first over t = (t < 2 ^ 64) × (first ≤ t / nsec_per_sec) × (t / nsec_per_sec < over)

pub Until-Within :
    (first over : ℕ) (ts : List ℕ) → All (Within first over) ts → All (Until (over - 1)) ts
Until-Within first over ts = All-map (λ t h. (h.0, omega (arith, h.2))) ts
