-- ===== src/Tests/Receive.antt =====
-- bpf/netrecvlat.c at a concrete packet.
use jidick.Base.{◌+◌, ◌≤◌, ◌^◌, ◌≡◌, refl, arith, [], ◌∷◌, some, false, ◌↔◌}
use jidick.Kernel.BpfMap.{nat_eq}
use jidick.Ratelimit.{bpf_ratelimited}
use jidick.Net.Headers.{iphdr_at, skb_network_header}
use jidick.Net.Netrecvlat.Offset.{Reading, round, rounds, best_of}
use jidick.Net.Netrecvlat.Accuracy.{hook_accurate}
use jidick.Net.Netrecvlat
use jidick.Net.Netrecvlat.{
  skb_copy_datagram_iovec_prog, fill_and_output_event, delta_now_skb_tstamp, default_config,
  SkbRcvWhere, to_netif_rcv, to_tcpv4_rcv, to_user_copy,
}
use jidick.Net.Netrecvlat.Latency
use jidick.Net.Netrecvlat.Latency.{wall, IsLate, IsTcpIp, hook, threshold_of, hook_iff, hook-future}
use jidick.Tests.Packets.{memory, passes}

-- Stamped at 1 s, and seen 200 ms later; and one stamped 1 us after the clock's time.
abbrev late : Netrecvlat.Run
late = record {
  skb = record {
    protocol = 8;
    head = 4096;
    network_header = 14;
    transport_header = 34;
    tstamp = 1_000_000_000;
    len = 100;
    skc_state = 1;
  };
  memory = memory;
  pid_tgid = 5;
  comm = 115 ∷ 104 ∷ [];
  ktime = 1_200_000_000;
  rate_ktime = 2_000_000_000;
}

abbrev early : Netrecvlat.Run
early = record late { ktime = 999_999_000 }

hook_iff_example :
    let e = Latency.event_of to_user_copy default_config late in
    ((hook to_user_copy default_config late Netrecvlat.rate).1 ≡ some e) ↔ (
      IsTcpIp to_user_copy late
      × IsLate default_config late (threshold_of to_user_copy default_config)
      × ((bpf_ratelimited 2_000_000_000 Netrecvlat.rate).1 ≡ false)
      × (e ≡ e)
      × (e.latency + 1_000_000_000 ≡ wall default_config late))
hook_iff_example =
    hook_iff to_user_copy default_config late Netrecvlat.rate
      (Latency.event_of to_user_copy default_config late) (omega arith) (omega arith)

hook-future_example :
    let e = Latency.event_of to_user_copy default_config early in
    ((hook to_user_copy default_config early Netrecvlat.rate).1 ≡ some e)
    × (e.latency + early.skb.tstamp ≡ wall default_config early + 2 ^ 64)
    × (2 ^ 63 ≤ e.latency)
unfolding iphdr_at skb_network_header
hook-future_example =
    hook-future to_user_copy default_config early Netrecvlat.rate (refl, refl) (omega arith)
      (omega arith) (omega arith) (omega arith) passes

-- The wall clock is 500 ms ahead, and a round takes 100 ns.
abbrev reading : Reading
reading = record { t1 = 1_500_000_000; t2 = 1_000_000_040; t3 = 1_500_000_100 }

abbrev estimated : Netrecvlat.Config
estimated = record default_config { mono_wall_offset = 500_000_010 }

abbrev stamped : Netrecvlat.Run
stamped = record late { skb = record late.skb { tstamp = 1_500_000_000 } }

stamped-reported :
    (hook to_user_copy estimated stamped Netrecvlat.rate).1
    ≡ some (Latency.event_of to_user_copy estimated stamped)
unfolding skb_copy_datagram_iovec_prog fill_and_output_event delta_now_skb_tstamp iphdr_at
    skb_network_header bpf_ratelimited
stamped-reported = refl

hook_accurate_example :
    let e = Latency.event_of to_user_copy estimated stamped in
    (e.latency ≤ 200_000_000 + 50)
    × (200_000_000 ≤ e.latency + 50)
    × (estimated.to_user_copy ≤ 200_000_000 + 50)
unfolding round rounds best_of
hook_accurate_example =
    hook_accurate 500_000_000 reading []
      (
        record {
          before = omega arith;
          after = omega arith;
          ahead = omega arith;
          fits = omega arith;
        },
        tt,
      )
      estimated refl to_user_copy stamped Netrecvlat.rate 200_000_000 (omega arith) (omega arith)
      (omega arith) (omega arith) (Latency.event_of to_user_copy estimated stamped) stamped-reported
