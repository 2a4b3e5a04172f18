-- ===== src/Ratelimit/Stretch.antt =====
-- How many events the limiter of bpf/include/bpf_ratelimit.h passes in a stretch of time, whatever
-- it was called for before.
use jidick.Base.{
  ℕ, ◌+◌, ◌-◌, ◌*◌, ◌^◌, ◌≤◌, ◌<◌, ◌≡◌, refl, ◌∙◌, ap, inl, inr, List, [], ◌∷◌, arith, All,
}
use jidick.Ratelimit.{BpfRatelimit, new, bpf_ratelimited, after, admitted}
use jidick.Ratelimit.Window.{
  IsValid, bpf_ratelimited-Step, Until-Within, Within, admitted-le-windows,
}

-- A call keeps the bounds on the fields, the interval and the burst.
after-IsValid :
    (r : BpfRatelimit) (ts : List ℕ)
    → IsValid r
    → All (λ t. t < 2 ^ 64) ts
    → IsValid (after r ts) × ((after r ts).interval ≡ r.interval) × ((after r ts).burst ≡ r.burst)
unfolding after
after-IsValid r [] v h = (v, refl, refl)
after-IsValid r (t ∷ ts) v h =
    let s = bpf_ratelimited-Step r t v h.0 in
    let (v', interval, burst) = after-IsValid (bpf_ratelimited t r).0 ts s.valid h.1 in
    (v', interval ∙ s.same_interval, burst ∙ s.same_burst)

-- In `n * (interval + 1)` seconds, at most `n` windows begin after the one that is open.
admitted-le-stretch :
    (r : BpfRatelimit) (first n : ℕ) (ts : List ℕ)
    → IsValid r
    → All (Within first (first + n * (r.interval + 1))) ts
    → admitted r ts + r.events ≤ (n + 1) * r.burst
unfolding admitted
admitted-le-stretch r first n [] v h = grind (arith, v.events_le)
admitted-le-stretch r first n (t ∷ ts) v h =
    let s = bpf_ratelimited-Step r t v h.0.0 in
    let r' = (bpf_ratelimited t r).0 in
    let over = first + n * (r.interval + 1) in
    elim s.window [
      | inl (later, same) ↦
          let ih = admitted-le-stretch r' first n ts s.valid (rw s.same_interval h.1) in
          omega (arith, same, rw s.same_burst at ih)
      | inr (later, fresh) ↦
          let open_at = s.begins in
          let bound =
            admitted-le-windows r' ts (over - 1) n s.valid (Until-Within first over ts h.1)
              (omega (arith, open_at)) (rw s.same_interval (omega (arith, open_at))) in
          omega (arith, fresh, v.events_le, rw s.same_burst at bound)
    ]

-- Whatever calls a `BPF_RATELIMIT(name, interval, burst)`, with an interval of 1 to 2 ^ 32 - 1
-- seconds, has seen since its start, it admits at most `(n + 1) * burst` of the calls in any `n *
-- (interval + 1)` seconds of its 64-bit clock.
pub after-admitted-le :
    (interval burst first n : ℕ) (before ts : List ℕ)
    → 0 < interval
    → interval < 2 ^ 32
    → burst < 2 ^ 64
    → All (λ t. t < 2 ^ 64) before
    → All (Within first (first + n * (interval + 1))) ts
    → admitted (after (new interval burst) before) ts ≤ (n + 1) * burst
after-admitted-le interval burst first n before ts pos small fits h h' =
    let v : IsValid (new interval burst) = omega arith in
    let (valid, same, same') = after-IsValid (new interval burst) before v h in
    let bound =
      admitted-le-stretch (after (new interval burst) before) first n ts valid (rw same h') in
    omega (arith, bound, ap (λ b. (n + 1) * b) same')
