-- ===== src/Net/Netrecvlat/Accuracy.antt =====
-- The latency that bpf/netrecvlat.c reports with the offset that core/events/netrecvlat.go estimates.
use jidick.Base.{
  ℕ, ◌+◌, ◌-◌, ◌/◌, ◌^◌, ◌≤◌, ◌<◌, ◌≡◌, ◌≢◌, refl, arith, false, some, List, ◌∷◌, map, All,
}
use jidick.Ratelimit.{BpfRatelimit, bpf_ratelimited}
use jidick.Net.Netrecvlat.{Config, SkbRcvWhere, PerfEvent, Run, fill, delta_now_skb_tstamp}
use jidick.Net.Netrecvlat.Latency.{wall, IsTcpIp, hook, threshold_of, event_of, hook_iff}
use jidick.Net.Netrecvlat.Offset.{
  Reading, Brackets, est_mono_wall_offset, shortest, est_lem, IsClose,
}

-- The wall clock is `o` ahead of the monotonic one, and the program was given the estimate; a run
-- sees a packet that was stamped `waited` nanoseconds before, and longer than the estimate is off.
module _ (o : ℕ) (first : Reading) (more : List Reading) (h : All (Brackets o) (first ∷ more))
    (cfg : Config)
    (set : est_mono_wall_offset (map some (first ∷ more)) ≡ some cfg.mono_wall_offset)
    (w : SkbRcvWhere) (r : Run) (rate : BpfRatelimit) (waited : ℕ) (pos : 0 < threshold_of w cfg)
    (since : r.skb.tstamp + waited ≡ r.ktime + o)
    (fits : r.ktime + o + shortest (first.t3 - first.t1) more < 2 ^ 64)
    (long : (shortest (first.t3 - first.t1) more + 1) / 2 ≤ waited) where
  close : IsClose o (shortest (first.t3 - first.t1) more) cfg.mono_wall_offset
  close =
      let (off, is, near) = est_lem o first more h in
      let same : off ≡ cfg.mono_wall_offset = cc (is, set) in rw same at near

  -- The program's wall clock does not wrap around, and shows the packet's stamp as past.
  wall-eq : wall cfg r ≡ r.ktime + cfg.mono_wall_offset
  wall-eq = ground (arith, close)

  -- With the estimate of the offset, if the wall clock was the same `o` ahead in all rounds and
  -- still is: a reported latency is the time that the packet waited, and that time is at least the
  -- stage's threshold, up to half of the time that the shortest round took; for a stage with a
  -- threshold and a packet that waited longer than that half.
  pub hook_accurate :
      (e : PerfEvent)
      → (hook w cfg r rate).1 ≡ some e
      → let d = shortest (first.t3 - first.t1) more in
        (e.latency ≤ waited + d / 2)
        × (waited ≤ e.latency + (d + 1) / 2)
        × (threshold_of w cfg ≤ waited + d / 2)
  hook_accurate e out =
      let (tcp, late, passes, is, latency) =
        (hook_iff w cfg r rate e pos (omega (arith, close, wall-eq))).0 out in
      omega (arith, late.late, latency, wall-eq, close)

  -- A packet that waited for the threshold and half of that time is reported, if the limiter lets it
  -- pass.
  pub hook_late :
      IsTcpIp w r
      → r.skb.tstamp ≢ 0
      → threshold_of w cfg + (shortest (first.t3 - first.t1) more + 1) / 2 ≤ waited
      → (bpf_ratelimited r.rate_ktime rate).1 ≡ false
      → (hook w cfg r rate).1 ≡ some (event_of w cfg r)
  unfolding fill delta_now_skb_tstamp
  hook_late tcp stamped late passes =
      (hook_iff w cfg r rate (event_of w cfg r) pos (omega (arith, close, wall-eq))).1 (
        tcp,
        record { stamped = stamped; late = omega (arith, close, wall-eq) },
        passes,
        refl,
        ground (arith, stamped, close, wall-eq),
      )
