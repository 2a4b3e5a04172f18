-- ===== src/Net/Dropwatch/Scratch.antt =====
-- The buffer of bpf/dropwatch.c, one element of a per-CPU map that every event is built in.
use jidick.Base.{ℕ, ◌≡◌, arith, List, [], ◌∷◌, some, Option-cases, Bool-cases, inl, inr}
use jidick.Kernel.BpfMap.{BpfMap, nat_eq, bpf_exist}
use jidick.Kernel.Laws.{lookup-update_self, lookup-store_self}
use jidick.Ratelimit.{bpf_ratelimited}
use jidick.Net.Headers.{IpHdr, iphdr_at, tcphdr_at, skb_network_header, skb_transport_header}
use jidick.Net.Dropwatch.{
  PerfEvent, Sock, State, Run, fill, zero_data, report_drop, bpf_kfree_skb_prog, runs,
}
use jidick.Net.Dropwatch.Filter.{kfree_skb_sound}

module _ {S : Type 0} (map : BpfMap S ℕ PerfEvent nat_eq) where
  abbrev pub IsClean : State S → Type 0
  IsClean s = map.lookup s.stackmap 0 ≡ some zero_data

  report_drop-IsClean :
      (r : Run) (sk : Sock) (iphdr : IpHdr) (s : State S)
      → IsClean s
      → IsClean (report_drop map r sk iphdr s).0
  unfolding report_drop
  report_drop-IsClean r sk iphdr s h =
      let tcphdr = tcphdr_at r.memory (skb_transport_header r.skb.head r.skb.transport_header) in
      let event = fill r.context sk r.skb iphdr tcphdr zero_data in
      let filled = map.store s.stackmap 0 event in
      let written = lookup-store_self map s.stackmap 0 event zero_data h in
      let cleared =
        lookup-update_self map filled 0 zero_data bpf_exist
          (map.accepts-exist filled 0 event written) in
      elim (Bool-cases (bpf_ratelimited r.rate_ktime s.rate).1) [
        | inl e ↦ rw (e, report_drop) h
        | inr e ↦ rw (e, report_drop, h) cleared
      ]

  kfree_skb-IsClean : (r : Run) (s : State S) → IsClean s → IsClean (bpf_kfree_skb_prog map r s).0
  unfolding bpf_kfree_skb_prog
  kfree_skb-IsClean r s h =
      let iphdr = iphdr_at r.memory (skb_network_header r.skb.head r.skb.network_header) in
      elim (Option-cases r.skb.sk) [
        | inl e ↦ ground arith
        | inr (sk, e) ↦ ground (arith, report_drop-IsClean r sk iphdr s h)
      ]

  -- The handler leaves the buffer zeroed, whatever packets it saw, so no event carries stack words
  -- of an earlier one: each is the packet's over a zeroed buffer.
  pub runs-IsClean :
      (rs : List Run) (r : Run) (s : State S) (e : PerfEvent)
      → IsClean s
      → (bpf_kfree_skb_prog map r (runs map rs s)).1 ≡ some e
      → IsClean (bpf_kfree_skb_prog map r (runs map rs s)).0
        × (e.stack ≡ r.context.get_stack zero_data.stack)
  unfolding runs
  runs-IsClean [] r s e h out =
      let (sk, old, _, _, there, is) = kfree_skb_sound map r s e out in
      (kfree_skb-IsClean r s h, unfold fill in ground (arith, there, is))
  runs-IsClean (q ∷ rs) r s e h out =
      runs-IsClean rs r (bpf_kfree_skb_prog map q s).0 e (kfree_skb-IsClean q s h) out
