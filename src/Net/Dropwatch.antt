-- ===== src/Net/Dropwatch.antt =====
-- bpf/dropwatch.c: an event for each TCP packet that the kernel drops.
pub mod Filter
pub mod Scratch
pub mod Report
pub mod Limit
use jidick.Base.{
  ℕ, ◌/◌, ◌%◌, ◌^◌, Bool, true, false, not, ◌&&◌, ◌||◌, ◌==◌, if◌then◌else◌, Option, none, some,
  replicate, List, [], ◌∷◌,
}
use jidick.Kernel.BpfMap.{BpfMap, nat_eq, bpf_exist}
use jidick.Ratelimit.{BpfRatelimit, bpf_ratelimited, new}
use jidick.Net.Headers.{
  IpHdr, TcpHdr, Memory, eth_p_ip, af_inet, ipproto_tcp, sock_stream, tcp_close, skb_network_header,
  skb_transport_header, iphdr_at, tcphdr_at,
}

-- `struct perf_event_t`
pub record PerfEvent : Type 0 where
  pub tgid_pid : ℕ
  pub saddr : ℕ
  pub daddr : ℕ
  pub sport : ℕ
  pub dport : ℕ
  pub seq : ℕ
  pub ack_seq : ℕ
  pub queue_mapping : ℕ
  pub pkt_len : ℕ
  pub stack_size : ℕ
  pub stack : List ℕ
  pub sk_max_ack_backlog : ℕ
  pub state : ℕ
  pub type : ℕ
  pub comm : List ℕ

-- The kinds of drop; the program reports the first.
pub data DropType : Type 0 where
  tcp_common_drop : DropType
  tcp_syn_flood : DropType
  tcp_listen_overflow_handshake1 : DropType
  tcp_listen_overflow_handshake3 : DropType

abbrev pub drop_type : DropType → ℕ
drop_type tcp_common_drop = 1
drop_type tcp_syn_flood = 2
drop_type tcp_listen_overflow_handshake1 = 3
drop_type tcp_listen_overflow_handshake3 = 4

abbrev sk_fl_proto_shift : ℕ
sk_fl_proto_shift = 8

abbrev sk_fl_type_shift : ℕ
sk_fl_type_shift = 16

-- `BPF_RATELIMIT(rate, 1, 100)`
abbrev pub rate : BpfRatelimit
rate = new 1 100

-- What is read of a `struct sock`: `has_flags_offset` is
-- `bpf_core_field_exists(sk->__sk_flags_offset)`, `sk_flags` the word there, and the two last
-- fields are those of `struct sock___5_10`.
pub record Sock : Type 0 where
  pub skc_family : ℕ
  pub skc_state : ℕ
  pub has_flags_offset : Bool
  pub sk_flags : ℕ
  pub sk_type : ℕ
  pub sk_protocol : ℕ

-- What is read of a `struct sk_buff`.
pub record SkBuff : Type 0 where
  pub head : ℕ
  pub network_header : ℕ
  pub transport_header : ℕ
  pub sk : Option Sock
  pub len : ℕ
  pub queue_mapping : ℕ

-- `sk_get_type_and_protocol`: the protocol and the type, as `u16`.
unfoldable pub sk_get_type_and_protocol : Sock → ℕ × ℕ
sk_get_type_and_protocol sk =
    if sk.has_flags_offset
    then (sk.sk_flags / 2 ^ sk_fl_proto_shift % 2 ^ 16, sk.sk_flags / 2 ^ sk_fl_type_shift % 2 ^ 16)
    else (sk.sk_protocol, sk.sk_type)

-- What the helpers give: the task's ids and name, and the stack, which `bpf_get_stack` writes over
-- the buffer that it is handed.
pub record Context : Type 0 where
  pub pid_tgid : ℕ
  pub comm : List ℕ
  pub get_stack : List ℕ → List ℕ
  pub stack_size : ℕ

-- The limiter `rate` and this CPU's slice of `dropwatch_stackmap`.
pub record State (S : Type 0) : Type 0 where
  pub rate : BpfRatelimit
  pub stackmap : S

-- The tests on the socket, its family, protocol, type and state.
unfoldable pub sock_wanted : Sock → Bool
unfolding sk_get_type_and_protocol
sock_wanted sk =
    let (protocol, type) = sk_get_type_and_protocol sk in
    if not (sk.skc_family == af_inet)
    then false
    else if not (protocol % 2 ^ 8 == ipproto_tcp) || not (type == sock_stream)
    then false
    else if sk.skc_state == tcp_close || sk.skc_state == 0
    then false
    else true

-- `/* event */`: the assignments to `*data`.
unfoldable pub fill : Context → Sock → SkBuff → IpHdr → TcpHdr → PerfEvent → PerfEvent
fill c sk skb iphdr tcphdr data' = record {
  tgid_pid = c.pid_tgid;
  saddr = iphdr.saddr;
  daddr = iphdr.daddr;
  sport = tcphdr.source;
  dport = tcphdr.dest;
  seq = tcphdr.seq;
  ack_seq = tcphdr.ack_seq;
  queue_mapping = skb.queue_mapping;
  pkt_len = skb.len;
  stack_size = c.stack_size;
  stack = c.get_stack data'.stack;
  sk_max_ack_backlog = 0;
  state = sk.skc_state;
  type = drop_type tcp_common_drop;
  comm = c.comm;
}

-- `zero_data`, with PERF_MAX_STACK_DEPTH stack words and COMPAT_TASK_COMM_LEN characters
abbrev pub zero_data : PerfEvent
zero_data = record {
  tgid_pid = 0;
  saddr = 0;
  daddr = 0;
  sport = 0;
  dport = 0;
  seq = 0;
  ack_seq = 0;
  queue_mapping = 0;
  pkt_len = 0;
  stack_size = 0;
  stack = replicate 127 0;
  sk_max_ack_backlog = 0;
  state = 0;
  type = 0;
  comm = replicate 16 0;
}

-- What one run of the handler is given: the packet, the protocol of the trace point, the memory
-- and the helpers' results, and the limiter's reading of the clock.
pub record Run : Type 0 where
  pub protocol : ℕ
  pub skb : SkBuff
  pub memory : Memory
  pub context : Context
  pub rate_ktime : ℕ

module _ {S : Type 0} (map : BpfMap S ℕ PerfEvent nat_eq) where
  -- `bpf_kfree_skb_prog` from the limiter on, for a packet of a socket that is wanted.
  unfoldable pub report_drop : Run → Sock → IpHdr → State S → State S × Option PerfEvent
  unfolding fill skb_transport_header
  report_drop r sk iphdr s =
      let (rate', limited) = bpf_ratelimited r.rate_ktime s.rate in
      let s' = record s { rate = rate' } in
      if limited then (s', none) else elim (map.lookup s.stackmap 0) [
        | none ↦ (s', none)
        | some old ↦
            let tcphdr =
              tcphdr_at r.memory (skb_transport_header r.skb.head r.skb.transport_header) in
            let event = fill r.context sk r.skb iphdr tcphdr old in
            let filled = map.store s.stackmap 0 event in
            (record s' { stackmap = map.update filled 0 zero_data bpf_exist }, some event)
      ]

  -- `bpf_kfree_skb_prog`
  unfoldable pub bpf_kfree_skb_prog : Run → State S → State S × Option PerfEvent
  unfolding skb_network_header
  bpf_kfree_skb_prog r s =
      if not (r.protocol == eth_p_ip)
      then (s, none)
      else (let iphdr = iphdr_at r.memory (skb_network_header r.skb.head r.skb.network_header) in
          if not (iphdr.protocol == ipproto_tcp) then (s, none) else elim r.skb.sk [
            | none ↦ (s, none)
            | some sk ↦ if sock_wanted sk then report_drop r sk iphdr s else (s, none)
          ])

  unfoldable pub runs : List Run → State S → State S
  runs [] s = s
  runs (r ∷ rs) s = runs rs (bpf_kfree_skb_prog r s).0
