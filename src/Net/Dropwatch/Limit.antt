-- ===== src/Net/Dropwatch/Limit.antt =====
-- How many drops bpf/dropwatch.c reports.
use jidick.Base.{
  ℕ, ◌+◌, ◌*◌, ◌≤◌, ◌≡◌, refl, ◌∙◌, ◌<◌, ◌^◌, ap, arith, Option-cases, inl, inr, ◌⊎◌, not, List, [],
  ◌∷◌, to_nat, is_some, All,
}
use jidick.Kernel.BpfMap.{BpfMap, nat_eq}
use jidick.Ratelimit.{bpf_ratelimited, after, admitted}
use jidick.Ratelimit.Window.{Within}
use jidick.Ratelimit.Stretch.{after-admitted-le}
use jidick.Net.Headers.{IpHdr, iphdr_at, skb_network_header}
use jidick.Net.Dropwatch.{PerfEvent, Sock, State, Run, rate, report_drop, bpf_kfree_skb_prog, runs}

module _ {S : Type 0} (map : BpfMap S ℕ PerfEvent nat_eq) where
  -- The events of a sequence of drops.
  unfoldable pub drop_events : List Run → State S → ℕ
  drop_events [] s = 0
  drop_events (r ∷ rs) s =
      let (s', out) = bpf_kfree_skb_prog map r s in to_nat (is_some out) + drop_events rs s'

  report_drop-charge :
      (r : Run) (sk : Sock) (iphdr : IpHdr) (s : State S)
      → let (s', out) = report_drop map r sk iphdr s in
        let (rate', limited) = bpf_ratelimited r.rate_ktime s.rate in
        (s'.rate ≡ rate') × (to_nat (is_some out) ≤ to_nat (not limited))
  unfolding report_drop
  report_drop-charge r sk iphdr s = elim (Option-cases (map.lookup s.stackmap 0)) [
    | inl e ↦ (ground arith, ground arith)
    | inr (old, e) ↦ (ground arith, ground arith)
  ]

  -- A drop either leaves the limiter alone and sends nothing, or charges it.
  kfree_skb-charge :
      (r : Run) (s : State S)
      → let (s', out) = bpf_kfree_skb_prog map r s in
        let (rate', limited) = bpf_ratelimited r.rate_ktime s.rate in
        ((s'.rate ≡ s.rate) × (to_nat (is_some out) ≡ 0))
        ⊎ ((s'.rate ≡ rate') × (to_nat (is_some out) ≤ to_nat (not limited)))
  unfolding bpf_kfree_skb_prog
  kfree_skb-charge r s = elim (Option-cases r.skb.sk) [
    | inl e ↦ inl (ground arith, ground arith)
    | inr (sk, e) ↦
        let iphdr = iphdr_at r.memory (skb_network_header r.skb.head r.skb.network_header) in
        let charged = report_drop-charge r sk iphdr s in ground (arith, e, charged)
  ]

  -- The limiter is called for some of the drops, at their times, and admits every event.
  drop_events-admitted :
      (P : ℕ → Type 0) (rs : List Run) (s : State S)
      → All (λ r. P r.rate_ktime) rs
      → (ts : List ℕ) × All P ts × (drop_events rs s ≤ admitted s.rate ts)
  unfolding drop_events admitted
  drop_events-admitted P [] s h = ([], tt, omega arith)
  drop_events-admitted P (r ∷ rs) s h =
      let (s', out) = bpf_kfree_skb_prog map r s in
      let (ts, holds, bound) = drop_events-admitted P rs s' h.1 in
      elim (kfree_skb-charge r s) [
        | inl (same, none_sent) ↦ (ts, holds, omega (arith, none_sent, rw same at bound))
        | inr (charged, at_most) ↦
            (r.rate_ktime ∷ ts, (h.0, holds), omega (arith, at_most, rw charged at bound))
      ]

  -- What earlier drops leave of the limiter.
  rate-runs :
      (P : ℕ → Type 0) (rs : List Run) (s : State S)
      → All (λ r. P r.rate_ktime) rs
      → (ts : List ℕ) × All P ts × ((runs map rs s).rate ≡ after s.rate ts)
  unfolding runs after
  rate-runs P [] s h = ([], tt, refl)
  rate-runs P (r ∷ rs) s h =
      let s' = (bpf_kfree_skb_prog map r s).0 in
      let (ts, holds, is) = rate-runs P rs s' h.1 in
      elim (kfree_skb-charge r s) [
        | inl (same, none_sent) ↦ (ts, holds, is ∙ ap (λ l. after l ts) same)
        | inr (charged, at_most) ↦
            (r.rate_ktime ∷ ts, (h.0, holds), is ∙ ap (λ l. after l ts) charged)
      ]

  -- Whatever drops the program has seen since its start, it reports at most `(n + 1) * 100` of
  -- those in any `2 * n` seconds of the limiter's clock.
  pub drop_events-le :
      (first n : ℕ) (before rs : List Run) (s : State S)
      → s.rate ≡ rate
      → All (λ r. r.rate_ktime < 2 ^ 64) before
      → All (λ r. Within first (first + n * 2) r.rate_ktime) rs
      → drop_events rs (runs map before s) ≤ (n + 1) * 100
  drop_events-le first n before rs s fresh h h' =
      let s' = runs map before s in
      let (earlier, fit, is) = rate-runs (λ t. t < 2 ^ 64) before s h in
      let (ts, within, bound) = drop_events-admitted (Within first (first + n * 2)) rs s' h' in
      let top =
        after-admitted-le 1 100 first n earlier ts (omega arith) (omega arith) (omega arith) fit
          within in
      let same = ap (λ l. admitted l ts) (is ∙ ap (λ l. after l earlier) fresh) in
      omega (arith, top, bound, same)
