-- ===== src/Tests/Packets.antt =====
-- bpf/dropwatch.c at a concrete packet.
use jidick.Base.{
  ℕ, ◌%◌, ◌≡◌, refl, arith, List, [], ◌∷◌, some, true, false, ◌↔◌, if◌then◌else◌, ◌==◌,
}
use jidick.Kernel.BpfMap.{BpfMap, nat_eq}
use jidick.Kernel.Table.{table, find}
use jidick.Ratelimit.{bpf_ratelimited}
use jidick.Net.Headers.{Memory, iphdr_at, skb_network_header, skb_transport_header}
use jidick.Net.Headers.Netutil.{IsBytes, net16, net32}
use jidick.Net.Dropwatch.Report.{format_event, format_event-kfree_skb}
use jidick.Net.Dropwatch
use jidick.Net.Dropwatch.{
  PerfEvent, Sock, SkBuff, State, Run, zero_data, sk_get_type_and_protocol, bpf_kfree_skb_prog,
  runs,
}
use jidick.Net.Dropwatch.Filter.{IsReported, event_of, kfree_skb_iff}
use jidick.Net.Dropwatch.Scratch.{IsClean, runs-IsClean}

-- Byte 9 of the IP header at 4096 + 14 is the protocol, TCP; the TCP header follows.
abbrev pub memory : Memory
memory = record { byte_at = λ a. if a == 4119 then 6 else a % 256 }

memory-IsBytes : IsBytes memory
memory-IsBytes a = ground arith

-- An established socket of kernel 4.18: TCP is 6 and SOCK_STREAM 1.
abbrev established : Sock
established = record {
  skc_family = 2;
  skc_state = 1;
  has_flags_offset = true;
  sk_flags = 0x00010603;
  sk_type = 0;
  sk_protocol = 0;
}

abbrev dropped : Run
dropped = record {
  protocol = 0x0800;
  skb = record {
    head = 4096;
    network_header = 14;
    transport_header = 34;
    sk = some established;
    len = 100;
    queue_mapping = 0;
  };
  memory = memory;
  context = record {
    pid_tgid = 5;
    comm = 115 ∷ 104 ∷ [];
    get_stack = λ b. 0xffff ∷ b;
    stack_size = 8;
  };
  rate_ktime = 2_000_000_000;
}

abbrev buffers : BpfMap (List (ℕ × PerfEvent)) ℕ PerfEvent nat_eq
buffers = table nat_eq 1

abbrev fresh : State (List (ℕ × PerfEvent))
fresh = record { rate = Dropwatch.rate; stackmap = (0, zero_data) ∷ [] }

dropped-IsReported : IsReported dropped established
unfolding sk_get_type_and_protocol skb_network_header iphdr_at
dropped-IsReported = record { ip = refl; tcp = refl; owner = refl; wanted = ground arith }

fresh-IsClean : IsClean buffers fresh
unfolding find
fresh-IsClean = refl

pub passes : (bpf_ratelimited 2_000_000_000 Dropwatch.rate).1 ≡ false
unfolding bpf_ratelimited
passes = refl

abbrev drop_report : PerfEvent
drop_report = event_of buffers dropped fresh established zero_data

dropped-reported : (bpf_kfree_skb_prog buffers dropped fresh).1 ≡ some drop_report
dropped-reported =
    (kfree_skb_iff buffers dropped fresh drop_report).1
      (established, zero_data, dropped-IsReported, passes, fresh-IsClean, refl)

kfree_skb_iff_example : ((bpf_kfree_skb_prog buffers dropped fresh).1 ≡ some drop_report) ↔ (
    (sk : Sock) × (old : PerfEvent) × IsReported dropped sk
    × ((bpf_ratelimited 2_000_000_000 Dropwatch.rate).1 ≡ false)
    × (buffers.lookup fresh.stackmap 0 ≡ some old)
    × (drop_report ≡ event_of buffers dropped fresh sk old))
kfree_skb_iff_example = kfree_skb_iff buffers dropped fresh drop_report

format_event-kfree_skb_example : format_event drop_report ≡ record {
  pid = 0;
  saddr = 26 ∷ 27 ∷ 28 ∷ 29 ∷ [];
  daddr = 30 ∷ 31 ∷ 32 ∷ 33 ∷ [];
  sport = net16 memory 4130;
  dport = net16 memory 4132;
  seq = net32 memory 4134;
  ack_seq = net32 memory 4138;
  queue_mapping = 0;
  pkt_len = 100;
  max_ack_backlog = 0;
}
unfolding skb_network_header skb_transport_header
format_event-kfree_skb_example =
    format_event-kfree_skb buffers dropped fresh drop_report memory-IsBytes dropped-reported

runs-IsClean_example :
    IsClean buffers (bpf_kfree_skb_prog buffers dropped fresh).0
    × (drop_report.stack ≡ dropped.context.get_stack zero_data.stack)
unfolding runs
runs-IsClean_example =
    runs-IsClean buffers [] dropped fresh drop_report fresh-IsClean dropped-reported
