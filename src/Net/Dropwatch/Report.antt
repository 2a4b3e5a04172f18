-- ===== src/Net/Dropwatch/Report.antt =====
-- What user space makes of the events of bpf/dropwatch.c: the numbers of `formatEvent` in
-- core/events/dropwatch.go.
use jidick.Base.{ℕ, ◌+◌, ◌/◌, ◌^◌, ◌≡◌, refl, some, List, [], ◌∷◌}
use jidick.Kernel.BpfMap.{BpfMap, nat_eq}
use jidick.Net.Headers.{skb_network_header, skb_transport_header, iphdr_at, tcphdr_at}
use jidick.Net.Headers.Netutil.{
  inet_ntop, inet_ntohs, inet_ntohl, IsBytes, net16, net32, inet_ntohs-u16_at, inet_ntohl-u32_at,
  inet_ntop-u32_at,
}
use jidick.Net.Dropwatch.{PerfEvent, State, Run, fill, bpf_kfree_skb_prog}
use jidick.Net.Dropwatch.Filter.{kfree_skb_sound}

-- The members of `DropWatchTracingData` that are numbers or addresses.
pub record DropWatchTracingData : Type 0 where
  pub pid : ℕ
  pub saddr : List ℕ
  pub daddr : List ℕ
  pub sport : ℕ
  pub dport : ℕ
  pub seq : ℕ
  pub ack_seq : ℕ
  pub queue_mapping : ℕ
  pub pkt_len : ℕ
  pub max_ack_backlog : ℕ

unfoldable pub format_event : PerfEvent → DropWatchTracingData
format_event event = record {
  pid = event.tgid_pid / 2 ^ 32;
  saddr = inet_ntop event.saddr;
  daddr = inet_ntop event.daddr;
  sport = inet_ntohs event.sport;
  dport = inet_ntohs event.dport;
  seq = inet_ntohl event.seq;
  ack_seq = inet_ntohl event.ack_seq;
  queue_mapping = event.queue_mapping;
  pkt_len = event.pkt_len;
  max_ack_backlog = event.sk_max_ack_backlog;
}

module _ {S : Type 0} (map : BpfMap S ℕ PerfEvent nat_eq) (r : Run) (s : State S) where
  -- From the packet to the report, in a memory of bytes: the addresses of a reported drop are the
  -- bytes that the IP header has for them, in order; its ports and sequence numbers the numbers of
  -- the TCP header, in the network's byte order; and its process the running one.
  pub format_event-kfree_skb :
      (e : PerfEvent)
      → IsBytes r.memory
      → (bpf_kfree_skb_prog map r s).1 ≡ some e
      → let m = r.memory in
        let ip = skb_network_header r.skb.head r.skb.network_header in
        let tcp = skb_transport_header r.skb.head r.skb.transport_header in
        let bytes : ℕ → List ℕ =
          λ a. m.byte_at a ∷ m.byte_at (a + 1) ∷ m.byte_at (a + 2) ∷ m.byte_at (a + 3) ∷ [] in
        format_event e ≡ record {
          pid = r.context.pid_tgid / 2 ^ 32;
          saddr = bytes (ip + 12);
          daddr = bytes (ip + 16);
          sport = net16 m tcp;
          dport = net16 m (tcp + 2);
          seq = net32 m (tcp + 4);
          ack_seq = net32 m (tcp + 8);
          queue_mapping = r.skb.queue_mapping;
          pkt_len = r.skb.len;
          max_ack_backlog = 0;
        }
  unfolding format_event fill iphdr_at tcphdr_at
  format_event-kfree_skb e bytes out =
      let (sk, old, _, _, _, is) = kfree_skb_sound map r s e out in
      let m = r.memory in
      let ip = skb_network_header r.skb.head r.skb.network_header in
      let tcp = skb_transport_header r.skb.head r.skb.transport_header in
      rw is (
        rw
          (
            inet_ntop-u32_at m bytes (ip + 12),
            inet_ntop-u32_at m bytes (ip + 16),
            inet_ntohs-u16_at m bytes tcp,
            inet_ntohs-u16_at m bytes (tcp + 2),
            inet_ntohl-u32_at m bytes (tcp + 4),
            inet_ntohl-u32_at m bytes (tcp + 8),
          )
          refl)
