-- ===== src/Ratelimit/Account.antt =====
-- The running totals of the limiter of bpf/include/bpf_ratelimit.h.
use jidick.Base.{ℕ, ◌-◌, ◌^◌, ◌≤◌, ◌<◌, ◌≡◌, Bool, not, List, [], ◌∷◌, arith, to_nat, length, add64}
use jidick.Ratelimit.{BpfRatelimit, bpf_ratelimited, after, admitted}

record Counts (r r' : BpfRatelimit) (limited : Bool) : Type 0 where
  same_interval : r'.interval ≡ r.interval
  events : r'.total_events ≡ add64 r.total_events (to_nat (not limited))
  missed : r'.total_nmissed ≡ add64 r.total_nmissed (to_nat limited)

bpf_ratelimited-Counts :
    (r : BpfRatelimit) (t : ℕ)
    → 0 < r.interval
    → r.total_events < 2 ^ 64
    → r.total_nmissed < 2 ^ 64
    → Counts r (bpf_ratelimited t r).0 (bpf_ratelimited t r).1
unfolding bpf_ratelimited
bpf_ratelimited-Counts r t h e m = ground arith

-- The totals count every call once, as an event or as a miss, modulo 2 ^ 64 and across windows.
after-totals :
    (r : BpfRatelimit) (ts : List ℕ)
    → 0 < r.interval
    → r.total_events < 2 ^ 64
    → r.total_nmissed < 2 ^ 64
    → (admitted r ts ≤ length ts)
      × ((after r ts).total_events ≡ add64 r.total_events (admitted r ts))
      × ((after r ts).total_nmissed ≡ add64 r.total_nmissed (length ts - admitted r ts))
unfolding admitted after
after-totals r [] h e m = omega arith
after-totals r (t ∷ ts) h e m =
    let c = bpf_ratelimited-Counts r t h e m in
    let ih =
      after-totals (bpf_ratelimited t r).0 ts (rw c.same_interval h) (rw c.events (omega arith))
        (rw c.missed (omega arith)) in
    ground (arith, ih, c.events, c.missed)
