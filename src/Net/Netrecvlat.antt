-- ===== src/Net/Netrecvlat.antt =====
-- bpf/netrecvlat.c: an event for each packet that reaches a stage of the receive path too late.
pub mod Latency
pub mod Limit
pub mod Offset
pub mod Accuracy
use jidick.Base.{
  ℕ, ◌+◌, ◌*◌, ◌/◌, ◌%◌, not, ltb, ◌==◌, if◌then◌else◌, Bool, true, false, Option, none, some,
  add64, sub64, replicate, List,
}
use jidick.Ratelimit.{BpfRatelimit, bpf_ratelimited, new}
use jidick.Net.Headers.{
  IpHdr, TcpHdr, Memory, eth_p_ip, ipproto_tcp, skb_network_header, skb_transport_header, iphdr_at,
  tcphdr_at,
}

-- The three `volatile const long long` thresholds, with the values of the source, and
-- `mono_wall_offset`; in the comparisons and sums they are `u64`.
pub record Config : Type 0 where
  pub mono_wall_offset : ℕ
  pub to_netif : ℕ
  pub to_tcpv4 : ℕ
  pub to_user_copy : ℕ

abbrev pub default_config : Config
default_config = record {
  mono_wall_offset = 0;
  to_netif = 5 * 1000 * 1000;
  to_tcpv4 = 10 * 1000 * 1000;
  to_user_copy = 115 * 1000 * 1000;
}

-- `BPF_RATELIMIT(rate, 1, 100)`
abbrev pub rate : BpfRatelimit
rate = new 1 100

-- `enum skb_rcv_where`
pub data SkbRcvWhere : Type 0 where
  to_netif_rcv : SkbRcvWhere
  to_tcpv4_rcv : SkbRcvWhere
  to_user_copy : SkbRcvWhere

-- `struct perf_event_t`
pub record PerfEvent : Type 0 where
  pub comm : List ℕ
  pub latency : ℕ
  pub tgid_pid : ℕ
  pub pkt_len : ℕ
  pub sport : ℕ
  pub dport : ℕ
  pub saddr : ℕ
  pub daddr : ℕ
  pub seq : ℕ
  pub ack_seq : ℕ
  pub state : ℕ
  pub rcv_where : SkbRcvWhere

-- `struct mix`
pub record Mix : Type 0 where
  pub ip_hdr : IpHdr
  pub lat : ℕ
  pub state : ℕ
  pub rcv_where : SkbRcvWhere

-- What is read of a `struct sk_buff`; `skc_state` is that of its socket.
pub record SkBuff : Type 0 where
  pub protocol : ℕ
  pub head : ℕ
  pub network_header : ℕ
  pub transport_header : ℕ
  pub tstamp : ℕ
  pub len : ℕ
  pub skc_state : ℕ

-- What one run of a handler is given: the packet, the memory, the task's ids and name, and the
-- clock, read for the latency and by the limiter.
pub record Run : Type 0 where
  pub skb : SkBuff
  pub memory : Memory
  pub pid_tgid : ℕ
  pub comm : List ℕ
  pub ktime : ℕ
  pub rate_ktime : ℕ

-- `bpf_ntohs` on a little-endian machine
unfoldable bpf_ntohs : ℕ → ℕ
bpf_ntohs x = x % 256 * 256 + x / 256 % 256

unfoldable pub delta_now_skb_tstamp : Config → Run → ℕ
delta_now_skb_tstamp cfg r =
    if r.skb.tstamp == 0 then 0 else sub64 (add64 r.ktime cfg.mono_wall_offset) r.skb.tstamp

unfoldable get_state : SkBuff → ℕ
get_state skb = skb.skc_state

abbrev is_user_copy : SkbRcvWhere → Bool
is_user_copy to_user_copy = true
is_user_copy _ = false

-- The event that `fill_and_output_event` sends once the limiter let it pass: the task only where
-- it is the reader's.
unfoldable pub fill : Run → Mix → PerfEvent
unfolding skb_transport_header
fill r mix =
    let tcp_hdr = tcphdr_at r.memory (skb_transport_header r.skb.head r.skb.transport_header) in
    record {
      comm = if is_user_copy mix.rcv_where then r.comm else replicate 16 0;
      latency = mix.lat;
      tgid_pid = if is_user_copy mix.rcv_where then r.pid_tgid else 0;
      pkt_len = r.skb.len;
      sport = tcp_hdr.source;
      dport = tcp_hdr.dest;
      saddr = mix.ip_hdr.saddr;
      daddr = mix.ip_hdr.daddr;
      seq = tcp_hdr.seq;
      ack_seq = tcp_hdr.ack_seq;
      state = mix.state;
      rcv_where = mix.rcv_where;
    }

unfoldable pub fill_and_output_event : Run → Mix → BpfRatelimit → BpfRatelimit × Option PerfEvent
fill_and_output_event r mix rate =
    let (rate', limited) = bpf_ratelimited r.rate_ktime rate in
    if limited then (rate', none) else (rate', some (fill r mix))

abbrev pub ip_header : Run → IpHdr
ip_header r = iphdr_at r.memory (skb_network_header r.skb.head r.skb.network_header)

-- `netif_receive_skb_prog`
unfoldable pub netif_receive_skb_prog :
    Config → Run → BpfRatelimit → BpfRatelimit × Option PerfEvent
unfolding delta_now_skb_tstamp bpf_ntohs
netif_receive_skb_prog cfg r rate =
    let delta = delta_now_skb_tstamp cfg r in
    if not (r.skb.protocol == bpf_ntohs eth_p_ip)
    then (rate, none)
    else if not ((ip_header r).protocol == ipproto_tcp)
    then (rate, none)
    else if ltb delta cfg.to_netif
    then (rate, none)
    else fill_and_output_event r
        (record { ip_hdr = ip_header r; lat = delta; state = 0; rcv_where = to_netif_rcv }) rate

-- `tcp_v4_rcv_prog`
unfoldable pub tcp_v4_rcv_prog : Config → Run → BpfRatelimit → BpfRatelimit × Option PerfEvent
unfolding delta_now_skb_tstamp get_state
tcp_v4_rcv_prog cfg r rate =
    let delta = delta_now_skb_tstamp cfg r in
    if ltb delta cfg.to_tcpv4
    then (rate, none)
    else fill_and_output_event r
        (record {
          ip_hdr = ip_header r;
          lat = delta;
          state = get_state r.skb;
          rcv_where = to_tcpv4_rcv;
        })
        rate

-- `skb_copy_datagram_iovec_prog`
unfoldable pub skb_copy_datagram_iovec_prog :
    Config → Run → BpfRatelimit → BpfRatelimit × Option PerfEvent
unfolding delta_now_skb_tstamp get_state bpf_ntohs
skb_copy_datagram_iovec_prog cfg r rate =
    let delta = delta_now_skb_tstamp cfg r in
    if not (r.skb.protocol == bpf_ntohs eth_p_ip)
    then (rate, none)
    else if not ((ip_header r).protocol == ipproto_tcp)
    then (rate, none)
    else if ltb delta cfg.to_user_copy
    then (rate, none)
    else fill_and_output_event r
        (record {
          ip_hdr = ip_header r;
          lat = delta;
          state = get_state r.skb;
          rcv_where = to_user_copy;
        })
        rate
