-- ===== src/Ratelimit/InMap.antt =====
-- The limiter kept in a map (`bpf_ratelimited_core_in_map` of bpf/include/bpf_ratelimit.h): when it
-- tells user space.
use jidick.Base.{
  ℕ, ◌+◌, ◌-◌, ◌^◌, ◌≤◌, ◌<◌, min, ◌≡◌, refl, ◌&&◌, List, [], ◌∷◌, arith, to_nat, is_some, length,
  All, add64,
}
use jidick.Kernel.BpfMap.{nat_eq}
use jidick.Ratelimit.{BpfRatelimit, bpf_ratelimited, ratelimited_cell, notices, notifies}
use jidick.Ratelimit.Window.{IsValid, Until, bpf_ratelimited-Step, bpf_ratelimited-in_window}

-- The miss counter of a call inside the window.
nmissed-in_window :
    (r : BpfRatelimit) (t : ℕ)
    → IsValid r
    → 0 < r.begin
    → Until (r.begin + r.interval) t
    → r.nmissed < 2 ^ 64
    → ((bpf_ratelimited t r).0.nmissed ≡ add64 r.nmissed (to_nat (bpf_ratelimited t r).1))
      × ((bpf_ratelimited t r).0.max_burst ≡ r.max_burst)
unfolding bpf_ratelimited
nmissed-in_window r t v b h c = ground arith

ratelimited_cell-valid :
    (cfg r : BpfRatelimit) (t : ℕ)
    → 0 < r.interval
    → ((ratelimited_cell t cfg r).cell ≡ (bpf_ratelimited t r).0)
      × ((ratelimited_cell t cfg r).limited ≡ (bpf_ratelimited t r).1)
unfolding ratelimited_cell
ratelimited_cell-valid cfg r t h = ground arith

-- The notice goes out on the first miss that the cell counts, or past `max_burst`.
notice_iff :
    (cfg r : BpfRatelimit) (t : ℕ)
    → 0 < r.interval
    → is_some (ratelimited_cell t cfg r).notice
      ≡ ((bpf_ratelimited t r).1 && notifies r.nmissed (bpf_ratelimited t r).0)
unfolding ratelimited_cell
notice_iff cfg r t h = ground arith

-- With `max_burst` 0, as every caller has it, a cell sends at most one notice while its window
-- lasts, and none if an event of the window was missed before.
notices-le-one :
    (cfg r : BpfRatelimit) (ts : List ℕ)
    → IsValid r
    → 0 < r.begin
    → r.max_burst ≡ 0
    → r.nmissed + length ts < 2 ^ 64
    → All (Until (r.begin + r.interval)) ts
    → notices cfg r ts + min r.nmissed 1 ≤ 1
unfolding notices notifies
notices-le-one cfg r [] v b z c h = omega arith
notices-le-one cfg r (t ∷ ts) v b z c h =
    let s = bpf_ratelimited-Step r t v h.0.0 in
    let (limited, begins, events) = bpf_ratelimited-in_window r t v b h.0 in
    let (nmissed, max_burst) = nmissed-in_window r t v b h.0 (omega arith) in
    let (cell, _) = ratelimited_cell-valid cfg r t v.interval_pos in
    let r' = (bpf_ratelimited t r).0 in
    let rest : All (Until (r'.begin + r'.interval)) ts = rw (begins, s.same_interval) h.1 in
    let fits : r'.nmissed + length ts < 2 ^ 64 = ground (arith, nmissed) in
    let ih = notices-le-one cfg r' ts s.valid (omega arith) (omega arith) fits rest in
    rw cell (ground (arith, ih, nmissed, max_burst, notice_iff cfg r t v.interval_pos))

-- With a positive `max_burst`, once `max_burst - burst` events of the window were missed, every
-- further call of the window sends a notice.
notices-past_max_burst :
    (cfg r : BpfRatelimit) (ts : List ℕ)
    → IsValid r
    → 0 < r.begin
    → r.events ≡ r.burst
    → 0 < r.max_burst
    → r.max_burst < 2 ^ 64
    → r.burst ≤ r.max_burst
    → r.max_burst - r.burst ≤ r.nmissed
    → r.nmissed + length ts < 2 ^ 64
    → All (Until (r.begin + r.interval)) ts
    → notices cfg r ts ≡ length ts
unfolding notices notifies
notices-past_max_burst cfg r [] v b e p m q o c h = refl
notices-past_max_burst cfg r (t ∷ ts) v b e p m q o c h =
    let s = bpf_ratelimited-Step r t v h.0.0 in
    let (limited, begins, events) = bpf_ratelimited-in_window r t v b h.0 in
    let (nmissed, max_burst) = nmissed-in_window r t v b h.0 (omega arith) in
    let (cell, _) = ratelimited_cell-valid cfg r t v.interval_pos in
    let r' = (bpf_ratelimited t r).0 in
    let missed : r'.nmissed ≡ r.nmissed + 1 = ground (arith, limited, nmissed) in
    let rest : All (Until (r'.begin + r'.interval)) ts = rw (begins, s.same_interval) h.1 in
    let ih =
      notices-past_max_burst cfg r' ts s.valid (omega arith) (omega (arith, s.same_burst))
        (omega arith) (omega arith) (omega (arith, s.same_burst)) (omega (arith, s.same_burst))
        (omega arith) rest in
    rw cell (
      ground
        (arith, ih, limited, missed, max_burst, s.same_burst, notice_iff cfg r t v.interval_pos))
