-- ===== src/Net/Netrecvlat/Latency.antt =====
-- When the three hooks of bpf/netrecvlat.c report, and the latency that they report.
use jidick.Base.{ℕ, ◌+◌, ◌^◌, ◌≤◌, ◌<◌, ◌≡◌, ◌≢◌, ◌↔◌, arith, false, Option, some, add64}
use jidick.Ratelimit.{BpfRatelimit, bpf_ratelimited}
use jidick.Net.Headers.{ipproto_tcp}
use jidick.Net.Netrecvlat.{
  Config, SkbRcvWhere, to_netif_rcv, to_tcpv4_rcv, to_user_copy, PerfEvent, Run,
  delta_now_skb_tstamp, fill, fill_and_output_event, ip_header, netif_receive_skb_prog,
  tcp_v4_rcv_prog, skb_copy_datagram_iovec_prog,
}

-- The wall clock, as far as the program knows it.
abbrev pub wall : Config → Run → ℕ
wall cfg r = add64 r.ktime cfg.mono_wall_offset

-- The packet was stamped, at `tstamp`, at least `threshold` before the wall clock's time.
pub record IsLate (cfg : Config) (r : Run) (threshold : ℕ) : Type 0 where
  pub stamped : r.skb.tstamp ≢ 0
  pub late : r.skb.tstamp + threshold ≤ wall cfg r

-- The hooks, with their thresholds and whether they look at the packet's protocol themselves.
abbrev pub hook : SkbRcvWhere → Config → Run → BpfRatelimit → BpfRatelimit × Option PerfEvent
hook to_netif_rcv = netif_receive_skb_prog
hook to_tcpv4_rcv = tcp_v4_rcv_prog
hook to_user_copy = skb_copy_datagram_iovec_prog

abbrev pub threshold_of : SkbRcvWhere → Config → ℕ
threshold_of to_netif_rcv cfg = cfg.to_netif
threshold_of to_tcpv4_rcv cfg = cfg.to_tcpv4
threshold_of to_user_copy cfg = cfg.to_user_copy

-- `htons(ETH_P_IP)` in the packet, and TCP in its header; `tcp_v4_rcv` is only called for such.
abbrev pub IsTcpIp : SkbRcvWhere → Run → Type 0
IsTcpIp to_tcpv4_rcv r = Unit {0}
IsTcpIp _ r = (r.skb.protocol ≡ 0x0008) × ((ip_header r).protocol ≡ ipproto_tcp)

-- The connection's state, which the first stage does not read.
abbrev state_of : SkbRcvWhere → Run → ℕ
state_of to_netif_rcv r = 0
state_of to_tcpv4_rcv r = r.skb.skc_state
state_of to_user_copy r = r.skb.skc_state

-- The event of a stage.
abbrev pub event_of : SkbRcvWhere → Config → Run → PerfEvent
event_of w cfg r = fill r (record {
  ip_hdr = ip_header r;
  lat = delta_now_skb_tstamp cfg r;
  state = state_of w r;
  rcv_where = w;
})

-- At each of the three stages, a packet that was not stamped in the future is reported exactly if it
-- is TCP over IPv4, late for the stage, whose threshold is positive, and the limiter lets it pass;
-- the event says the stage, the packet and the time since the stamp.
pub hook_iff :
    (w : SkbRcvWhere) (cfg : Config) (r : Run) (rate : BpfRatelimit) (e : PerfEvent)
    → 0 < threshold_of w cfg
    → r.skb.tstamp ≤ wall cfg r
    → ((hook w cfg r rate).1 ≡ some e) ↔ (
        IsTcpIp w r
        × IsLate cfg r (threshold_of w cfg)
        × ((bpf_ratelimited r.rate_ktime rate).1 ≡ false)
        × (e ≡ event_of w cfg r)
        × (e.latency + r.skb.tstamp ≡ wall cfg r))
unfolding netif_receive_skb_prog tcp_v4_rcv_prog skb_copy_datagram_iovec_prog fill_and_output_event
    fill
hook_iff to_netif_rcv cfg r rate e pos past = (λ h. ground arith, λ h. ground arith)
hook_iff to_tcpv4_rcv cfg r rate e pos past = (λ h. ground arith, λ h. ground arith)
hook_iff to_user_copy cfg r rate e pos past = (λ h. ground arith, λ h. ground arith)

-- A packet of TCP over IPv4 that is stamped after the wall clock's time, by up to 2 ^ 63, is reported
-- at each stage whose threshold is at most 2 ^ 63, if the limiter lets it pass, with a latency of
-- 2 ^ 64 nanoseconds less the time by which the stamp is ahead: the subtraction wraps around.
pub hook-future :
    (w : SkbRcvWhere) (cfg : Config) (r : Run) (rate : BpfRatelimit)
    → IsTcpIp w r
    → wall cfg r < r.skb.tstamp
    → r.skb.tstamp < 2 ^ 64
    → r.skb.tstamp ≤ wall cfg r + 2 ^ 63
    → threshold_of w cfg ≤ 2 ^ 63
    → (bpf_ratelimited r.rate_ktime rate).1 ≡ false
    → let e = event_of w cfg r in
      ((hook w cfg r rate).1 ≡ some e)
      × (e.latency + r.skb.tstamp ≡ wall cfg r + 2 ^ 64)
      × (2 ^ 63 ≤ e.latency)
unfolding netif_receive_skb_prog tcp_v4_rcv_prog skb_copy_datagram_iovec_prog fill_and_output_event
    fill
hook-future to_netif_rcv cfg r rate p future fits near th limit = ground arith
hook-future to_tcpv4_rcv cfg r rate p future fits near th limit = ground arith
hook-future to_user_copy cfg r rate p future fits near th limit = ground arith
