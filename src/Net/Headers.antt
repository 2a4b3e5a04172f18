-- ===== src/Net/Headers.antt =====
-- bpf/include/vmlinux_net.h, with the packet headers of bpf/include/vmlinux.h as they lie in memory.
pub mod Netutil
use jidick.Kernel.Enums.{IpProto, ip_proto, SockType, sock_type, TcpState, tcp_state}
use jidick.Base.{ℕ, ◌+◌, ◌*◌, ◌/◌, ◌%◌, ◌^◌, add64}

-- What `bpf_probe_read` finds at an address: bytes.
pub record Memory : Type 0 where
  pub byte_at : ℕ → ℕ

-- Members of two and of four bytes, on a little-endian machine.
abbrev pub u16_at : Memory → ℕ → ℕ
u16_at m a = m.byte_at a + 2 ^ 8 * m.byte_at (a + 1)

abbrev pub u32_at : Memory → ℕ → ℕ
u32_at m a =
    m.byte_at a
    + 2 ^ 8 * m.byte_at (a + 1)
    + 2 ^ 16 * m.byte_at (a + 2)
    + 2 ^ 24 * m.byte_at (a + 3)

-- `struct iphdr`; the members of more than a byte stay in network byte order.
pub record IpHdr : Type 0 where
  pub ihl : ℕ
  pub version : ℕ
  pub tos : ℕ
  pub tot_len : ℕ
  pub id : ℕ
  pub frag_off : ℕ
  pub ttl : ℕ
  pub protocol : ℕ
  pub check : ℕ
  pub saddr : ℕ
  pub daddr : ℕ

-- `struct tcphdr`
pub record TcpHdr : Type 0 where
  pub source : ℕ
  pub dest : ℕ
  pub seq : ℕ
  pub ack_seq : ℕ
  pub res1 : ℕ
  pub doff : ℕ
  pub fin : ℕ
  pub syn : ℕ
  pub rst : ℕ
  pub psh : ℕ
  pub ack : ℕ
  pub urg : ℕ
  pub ece : ℕ
  pub cwr : ℕ
  pub window : ℕ
  pub check : ℕ
  pub urg_ptr : ℕ

-- `bpf_probe_read(&iphdr, sizeof(iphdr), a)`: where the members lie; bit fields fill a byte from its
-- low bits on.
unfoldable pub iphdr_at : Memory → ℕ → IpHdr
iphdr_at m a = record {
  ihl = m.byte_at a % 2 ^ 4;
  version = m.byte_at a / 2 ^ 4;
  tos = m.byte_at (a + 1);
  tot_len = u16_at m (a + 2);
  id = u16_at m (a + 4);
  frag_off = u16_at m (a + 6);
  ttl = m.byte_at (a + 8);
  protocol = m.byte_at (a + 9);
  check = u16_at m (a + 10);
  saddr = u32_at m (a + 12);
  daddr = u32_at m (a + 16);
}

unfoldable pub tcphdr_at : Memory → ℕ → TcpHdr
tcphdr_at m a = record {
  source = u16_at m a;
  dest = u16_at m (a + 2);
  seq = u32_at m (a + 4);
  ack_seq = u32_at m (a + 8);
  res1 = m.byte_at (a + 12) % 2 ^ 4;
  doff = m.byte_at (a + 12) / 2 ^ 4;
  fin = m.byte_at (a + 13) % 2;
  syn = m.byte_at (a + 13) / 2 % 2;
  rst = m.byte_at (a + 13) / 2 ^ 2 % 2;
  psh = m.byte_at (a + 13) / 2 ^ 3 % 2;
  ack = m.byte_at (a + 13) / 2 ^ 4 % 2;
  urg = m.byte_at (a + 13) / 2 ^ 5 % 2;
  ece = m.byte_at (a + 13) / 2 ^ 6 % 2;
  cwr = m.byte_at (a + 13) / 2 ^ 7 % 2;
  window = u16_at m (a + 14);
  check = u16_at m (a + 16);
  urg_ptr = u16_at m (a + 18);
}

abbrev pub eth_p_ip : ℕ
eth_p_ip = 0x0800

abbrev pub af_inet : ℕ
af_inet = 2

-- IPPROTO_TCP, SOCK_STREAM and TCP_CLOSE of bpf/include/vmlinux.h
abbrev pub ipproto_tcp : ℕ
ipproto_tcp = ip_proto IpProto.tcp

abbrev pub sock_stream : ℕ
sock_stream = sock_type SockType.stream

abbrev pub tcp_close : ℕ
tcp_close = tcp_state TcpState.close

-- `BPF_CORE_READ(skb, head) + BPF_CORE_READ(skb, network_header)`, and for the transport header
unfoldable pub skb_network_header : (head network_header : ℕ) → ℕ
skb_network_header head network_header = add64 head network_header

unfoldable pub skb_transport_header : (head transport_header : ℕ) → ℕ
skb_transport_header head transport_header = add64 head transport_header
