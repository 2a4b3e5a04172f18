-- ===== src/Net/Netrecvlat/Limit.antt =====
-- How many packets bpf/netrecvlat.c reports: its three hooks share one limiter.
use jidick.Base.{
  ℕ, ◌+◌, ◌*◌, ◌≤◌, ◌≡◌, refl, ◌∙◌, ◌<◌, ◌^◌, ◌⊎◌, inl, inr, ap, arith, not, List, [], ◌∷◌, to_nat,
  is_some, All,
}
use jidick.Ratelimit.{BpfRatelimit, bpf_ratelimited, after, admitted}
use jidick.Ratelimit.Window.{Within}
use jidick.Ratelimit.Stretch.{after-admitted-le}
use jidick.Net.Netrecvlat.{
  Config, SkbRcvWhere, to_netif_rcv, to_tcpv4_rcv, to_user_copy, Run, rate, fill_and_output_event,
  netif_receive_skb_prog, tcp_v4_rcv_prog, skb_copy_datagram_iovec_prog,
}
use jidick.Net.Netrecvlat.Latency.{hook}

-- The events of packets that pass the hooks in any order.
unfoldable pub recv_events : Config → List (SkbRcvWhere × Run) → BpfRatelimit → ℕ
recv_events cfg [] limiter = 0
recv_events cfg ((w, r) ∷ rs) limiter =
    let (limiter', out) = hook w cfg r limiter in to_nat (is_some out) + recv_events cfg rs limiter'

-- The limiter after packets.
unfoldable pub recv_runs : Config → List (SkbRcvWhere × Run) → BpfRatelimit → BpfRatelimit
recv_runs cfg [] limiter = limiter
recv_runs cfg ((w, r) ∷ rs) limiter = recv_runs cfg rs (hook w cfg r limiter).0

-- A hook either leaves the limiter alone and sends nothing, or charges it.
hook-charge :
    (w : SkbRcvWhere) (cfg : Config) (r : Run) (rate : BpfRatelimit)
    → let (rate', out) = hook w cfg r rate in
      let (charged, limited) = bpf_ratelimited r.rate_ktime rate in
      ((rate' ≡ rate) × (to_nat (is_some out) ≡ 0))
      ⊎ ((rate' ≡ charged) × (to_nat (is_some out) ≤ to_nat (not limited)))
unfolding netif_receive_skb_prog tcp_v4_rcv_prog skb_copy_datagram_iovec_prog fill_and_output_event
hook-charge to_netif_rcv cfg r rate = ground arith
hook-charge to_tcpv4_rcv cfg r rate = ground arith
hook-charge to_user_copy cfg r rate = ground arith

recv_events-admitted :
    (P : ℕ → Type 0) (cfg : Config) (rs : List (SkbRcvWhere × Run)) (limiter : BpfRatelimit)
    → All (λ (w, r). P r.rate_ktime) rs
    → (ts : List ℕ) × All P ts × (recv_events cfg rs limiter ≤ admitted limiter ts)
unfolding recv_events admitted
recv_events-admitted P cfg [] limiter h = ([], tt, omega arith)
recv_events-admitted P cfg ((w, r) ∷ rs) limiter h =
    let (limiter', out) = hook w cfg r limiter in
    let (ts, holds, bound) = recv_events-admitted P cfg rs limiter' h.1 in
    elim (hook-charge w cfg r limiter) [
      | inl (same, none_sent) ↦
          (ts, holds, omega (arith, none_sent, bound, ap (λ l. admitted l ts) same))
      | inr (charged, at_most) ↦ (
        r.rate_ktime ∷ ts,
        (h.0, holds),
        omega (arith, at_most, bound, ap (λ l. admitted l ts) charged),
      )
    ]

-- What earlier packets leave of the limiter.
recv_runs-after :
    (P : ℕ → Type 0) (cfg : Config) (rs : List (SkbRcvWhere × Run)) (limiter : BpfRatelimit)
    → All (λ (w, r). P r.rate_ktime) rs
    → (ts : List ℕ) × All P ts × (recv_runs cfg rs limiter ≡ after limiter ts)
unfolding recv_runs after
recv_runs-after P cfg [] limiter h = ([], tt, refl)
recv_runs-after P cfg ((w, r) ∷ rs) limiter h =
    let (ts, holds, is) = recv_runs-after P cfg rs (hook w cfg r limiter).0 h.1 in
    elim (hook-charge w cfg r limiter) [
      | inl (same, none_sent) ↦ (ts, holds, is ∙ ap (λ l. after l ts) same)
      | inr (charged, at_most) ↦
          (r.rate_ktime ∷ ts, (h.0, holds), is ∙ ap (λ l. after l ts) charged)
    ]

-- Whatever packets the program has seen since its start, its three hooks together report at most
-- `(n + 1) * 100` of those in any `2 * n` seconds of the limiter's clock.
recv_events-le :
    (cfg : Config) (first n : ℕ) (before rs : List (SkbRcvWhere × Run))
    → All (λ (w, r). r.rate_ktime < 2 ^ 64) before
    → All (λ (w, r). Within first (first + n * 2) r.rate_ktime) rs
    → recv_events cfg rs (recv_runs cfg before rate) ≤ (n + 1) * 100
recv_events-le cfg first n before rs h h' =
    let limiter = recv_runs cfg before rate in
    let (earlier, fit, is) = recv_runs-after (λ t. t < 2 ^ 64) cfg before rate h in
    let (ts, within, bound) =
      recv_events-admitted (Within first (first + n * 2)) cfg rs limiter h' in
    let top =
      after-admitted-le 1 100 first n earlier ts (omega arith) (omega arith) (omega arith) fit
        within in
    omega (arith, top, bound, ap (λ l. admitted l ts) is)
