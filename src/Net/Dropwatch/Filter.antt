-- ===== src/Net/Dropwatch/Filter.antt =====
-- Which drops bpf/dropwatch.c reports, and the socket's type and protocol.
use jidick.Base.{
  ℕ, ◌+◌, ◌*◌, ◌%◌, ◌^◌, ◌≡◌, ◌≢◌, ◌<◌, inl, inr, arith, ◌↔◌, ◌∙◌, ap, sym, true, false, some,
  Option-cases,
}
use jidick.Kernel.BpfMap.{BpfMap, nat_eq}
use jidick.Ratelimit.{bpf_ratelimited}
use jidick.Net.Headers.{
  eth_p_ip, af_inet, ipproto_tcp, sock_stream, tcp_close, skb_network_header, skb_transport_header,
  iphdr_at, tcphdr_at,
}
use jidick.Net.Dropwatch.{
  PerfEvent, Sock, State, Run, sk_get_type_and_protocol, sock_wanted, fill, report_drop,
  bpf_kfree_skb_prog,
}

-- Up to kernel 4.18 the protocol and the type are bit fields of one word, behind eight bits of
-- flags: what is read of it, cut to the byte that the caller compares, are the two fields.
pub sk_get_type_and_protocol-bitfields :
    (flags protocol type : ℕ) (sk : Sock)
    → sk.has_flags_offset ≡ true
    → sk.sk_flags ≡ flags + 2 ^ 8 * protocol + 2 ^ 16 * type
    → flags < 2 ^ 8
    → protocol < 2 ^ 8
    → type < 2 ^ 16
    → ((sk_get_type_and_protocol sk).0 % 2 ^ 8 ≡ protocol)
      × ((sk_get_type_and_protocol sk).1 ≡ type)
unfolding sk_get_type_and_protocol
sk_get_type_and_protocol-bitfields flags protocol type sk e word f p t = ground arith

-- A TCP socket over IPv4 that is neither closed nor in no state.
pub record IsWanted (sk : Sock) : Type 0 where
  pub inet : sk.skc_family ≡ af_inet
  pub tcp : (sk_get_type_and_protocol sk).0 % 2 ^ 8 ≡ ipproto_tcp
  pub stream : (sk_get_type_and_protocol sk).1 ≡ sock_stream
  pub not_closed : sk.skc_state ≢ tcp_close
  pub not_zero : sk.skc_state ≢ 0

-- A dropped packet that is to be reported: IPv4, TCP, and of a socket that is wanted.
pub record IsReported (r : Run) (sk : Sock) : Type 0 where
  pub ip : r.protocol ≡ eth_p_ip
  pub tcp :
      (iphdr_at r.memory (skb_network_header r.skb.head r.skb.network_header)).protocol
      ≡ ipproto_tcp
  pub owner : r.skb.sk ≡ some sk
  pub wanted : IsWanted sk

sock_wanted-IsWanted : (sk : Sock) → sock_wanted sk ≡ true → IsWanted sk
unfolding sock_wanted
sock_wanted-IsWanted sk h = ground arith

IsWanted-sock_wanted : (sk : Sock) → IsWanted sk → sock_wanted sk ≡ true
unfolding sock_wanted
IsWanted-sock_wanted sk w = ground arith

module _ {S : Type 0} (map : BpfMap S ℕ PerfEvent nat_eq) (r : Run) (s : State S) where
  -- The event of a drop, over the contents of the buffer.
  abbrev pub event_of : Sock → PerfEvent → PerfEvent
  event_of sk old =
      fill r.context sk r.skb
        (iphdr_at r.memory (skb_network_header r.skb.head r.skb.network_header))
        (tcphdr_at r.memory (skb_transport_header r.skb.head r.skb.transport_header)) old

  pub kfree_skb_sound :
      (e : PerfEvent)
      → (bpf_kfree_skb_prog map r s).1 ≡ some e
      → (sk : Sock) × (old : PerfEvent) × IsReported r sk
        × ((bpf_ratelimited r.rate_ktime s.rate).1 ≡ false)
        × (map.lookup s.stackmap 0 ≡ some old)
        × (e ≡ event_of sk old)
  unfolding bpf_kfree_skb_prog report_drop
  kfree_skb_sound e h = elim (Option-cases r.skb.sk) [
    | inl q ↦ absurd (ground arith)
    | inr (sk, q) ↦ elim (Option-cases (map.lookup s.stackmap 0)) [
      | inl q' ↦ absurd (ground arith)
      | inr (old, q') ↦ (
        sk,
        old,
        record {
          ip = ground arith;
          tcp = ground arith;
          owner = q;
          wanted = sock_wanted-IsWanted sk (ground arith);
        },
        ground arith,
        q',
        ground arith,
      )
    ]
  ]

  kfree_skb_complete :
      (sk : Sock) (old : PerfEvent)
      → IsReported r sk
      → (bpf_ratelimited r.rate_ktime s.rate).1 ≡ false
      → map.lookup s.stackmap 0 ≡ some old
      → (bpf_kfree_skb_prog map r s).1 ≡ some (event_of sk old)
  unfolding bpf_kfree_skb_prog report_drop
  kfree_skb_complete sk old w l there = ground (arith, IsWanted-sock_wanted sk w.wanted)

  -- An event is sent exactly for a drop that is to be reported, that the limiter lets pass, and for
  -- which the buffer is there; its fields are those of the packet, of its headers and of the
  -- current task.
  pub kfree_skb_iff :
      (e : PerfEvent)
      → ((bpf_kfree_skb_prog map r s).1 ≡ some e) ↔ (
          (sk : Sock) × (old : PerfEvent) × IsReported r sk
          × ((bpf_ratelimited r.rate_ktime s.rate).1 ≡ false)
          × (map.lookup s.stackmap 0 ≡ some old)
          × (e ≡ event_of sk old))
  kfree_skb_iff e = (
    kfree_skb_sound e,
    λ (sk, old, reported, passes, there, is).
        kfree_skb_complete sk old reported passes there ∙ ap some (sym is),
  )
