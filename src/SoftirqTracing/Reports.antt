-- ===== src/SoftirqTracing/Reports.antt =====
-- When the handlers of bpf/softirq_tracing.c report.
use jidick.Base.{
  ℕ, ◌≤◌, ◌≡◌, ◌≢◌, ◌↔◌, ◌∙◌, ap, sym, refl, arith, leb, ◌==◌, ◌&&◌, not, if◌then◌else◌, Bool,
  false, Option, none, some, sub64, List, [], ◌∷◌, All, Option-cases, inl, inr,
}
use jidick.Ratelimit.{bpf_ratelimited}
use jidick.SoftirqTracing.{
  TimerSoftirqRunTs, ReportEvent, Context, State, fill, probe_account_process_tick, probe_tick_stop,
  probe_tick_nohz_restart_sched_tick, Event, tick, stop, restart, handle, reports,
}

-- What has to hold at a tick for a report.
pub record Late (thresh ktime : ℕ) (ts : TimerSoftirqRunTs) : Type 0 where
  pub tracing : ts.start_trace ≢ 0
  pub stamped : ts.soft_ts ≢ 0
  pub settled : ts.restarting_tick ≡ 0
  pub late : thresh ≤ sub64 ktime ts.soft_ts

tick-report :
    (thresh : ℕ) (c : Context) (rate_ktime ktime : ℕ) (s : State) (r : ReportEvent)
    → (probe_account_process_tick thresh c rate_ktime ktime s).1 ≡ some r
    → (ts : TimerSoftirqRunTs) × (event : ReportEvent) × (s.timerts ≡ some ts)
      × (s.report ≡ some event)
      × ((bpf_ratelimited rate_ktime s.rate).1 ≡ false)
      × Late thresh ktime ts
      × (r ≡ fill c ktime (sub64 ktime ts.soft_ts) event)
unfolding probe_account_process_tick
tick-report thresh c rate_ktime ktime s r h = elim (Option-cases s.timerts) [
  | inl e ↦ absurd (ground arith)
  | inr (ts, e) ↦ elim (Option-cases s.report) [
    | inl e' ↦ absurd (ground arith)
    | inr (event, e') ↦ (ts, event, e, e', ground arith, ground arith, ground arith)
  ]
]

probe_account_process_tick-Late :
    (thresh : ℕ) (c : Context) (rate_ktime ktime : ℕ) (s : State) (ts : TimerSoftirqRunTs)
    (event : ReportEvent)
    → s.timerts ≡ some ts
    → s.report ≡ some event
    → (bpf_ratelimited rate_ktime s.rate).1 ≡ false
    → Late thresh ktime ts
    → (probe_account_process_tick thresh c rate_ktime ktime s).1
      ≡ some (fill c ktime (sub64 ktime ts.soft_ts) event)
unfolding probe_account_process_tick
probe_account_process_tick-Late thresh c rate_ktime ktime s ts event e e' l late = ground arith

-- A tick reports exactly where the limiter lets it pass, the CPU is traced and was not just
-- restarted, and the time since the last stamp, which is the stall time of the report, modulo
-- 2 ^ 64, reached the threshold.
pub probe_account_process_tick_iff :
    (thresh : ℕ) (c : Context) (rate_ktime ktime : ℕ) (s : State) (r : ReportEvent)
    → ((probe_account_process_tick thresh c rate_ktime ktime s).1 ≡ some r) ↔ (
        (ts : TimerSoftirqRunTs) × (event : ReportEvent) × (s.timerts ≡ some ts)
        × (s.report ≡ some event)
        × ((bpf_ratelimited rate_ktime s.rate).1 ≡ false)
        × Late thresh ktime ts
        × (r ≡ fill c ktime (sub64 ktime ts.soft_ts) event))
probe_account_process_tick_iff thresh c rate_ktime ktime s r = (
  tick-report thresh c rate_ktime ktime s r,
  λ (ts, event, e, e', passes, late, is).
      probe_account_process_tick-Late thresh c rate_ktime ktime s ts event e e' passes late
      ∙ ap some (sym is),
)

-- The CPU is traced; not where there is nowhere to look it up.
abbrev pub traces : Option TimerSoftirqRunTs → Bool
traces none = false
traces (some ts) = not (ts.start_trace == 0)

abbrev IsStopped : State → Type 0
IsStopped s = traces s.timerts ≡ false

-- Every event but a restart of the tick.
abbrev NoRestart : Event → Type 0
NoRestart (tick _ _ _) = Unit
NoRestart (stop _ _) = Unit
NoRestart (restart _) = ⊥

IsStopped-handle :
    (thresh : ℕ) (e : Event) (s : State)
    → NoRestart e
    → IsStopped s
    → ((handle thresh e s).1 ≡ none) × IsStopped (handle thresh e s).0
unfolding handle probe_account_process_tick
IsStopped-handle thresh (tick c rate_ktime ktime) s n h = elim (Option-cases s.timerts) [
  | inl e ↦ ground arith
  | inr (ts, e) ↦ ground arith
]
IsStopped-handle thresh (stop success dependency) s n h = elim (Option-cases s.timerts) [
  | inl e ↦ ground arith
  | inr (ts, e) ↦ ground arith
]
IsStopped-handle thresh (restart now) s n h = absurd n

-- A CPU that is not traced reports nothing until its tick is restarted.
reports-stopped :
    (thresh : ℕ) (es : List Event) (s : State)
    → All NoRestart es
    → IsStopped s
    → reports thresh es s ≡ []
unfolding reports
reports-stopped thresh [] s n h = refl
reports-stopped thresh (e ∷ es) s n h =
    let (silent, still) = IsStopped-handle thresh e s n.0 h in
    rw (silent, reports) (reports-stopped thresh es (handle thresh e s).0 n.1 still)

-- Where the tick is stopped with no dependency, tracing stops; it goes on after any other attempt.
stop-IsStopped :
    (success dependency : ℕ) (s : State) {ts : TimerSoftirqRunTs}
    → s.timerts ≡ some ts
    → let stops = success == 1 && dependency == 0 in
      (probe_tick_stop success dependency s).timerts
      ≡ some (record ts { start_trace = if stops then 0 else ts.start_trace })
unfolding probe_tick_stop
stop-IsStopped success dependency s e = ground arith

-- After a restart of the tick, at whatever time, the first tick that the limiter lets pass reports
-- nothing, and the second one reports exactly when the time between the two, modulo 2 ^ 64, reached
-- the threshold.
restart-tick-tick :
    (thresh now r₁ k₁ r₂ k₂ : ℕ) (c₁ c₂ : Context) (s : State) (ts : TimerSoftirqRunTs)
    (event : ReportEvent)
    → s.timerts ≡ some ts
    → s.report ≡ some event
    → now ≢ 0
    → k₁ ≢ 0
    → (bpf_ratelimited r₁ s.rate).1 ≡ false
    → (bpf_ratelimited r₂ (bpf_ratelimited r₁ s.rate).0).1 ≡ false
    → let s₀ = probe_tick_nohz_restart_sched_tick now s in
      let (s₁, out₁) = probe_account_process_tick thresh c₁ r₁ k₁ s₀ in
      let (_, out₂) = probe_account_process_tick thresh c₂ r₂ k₂ s₁ in
      (out₁ ≡ none)
      × (out₂ ≡ (if leb thresh (sub64 k₂ k₁) then some (fill c₂ k₂ (sub64 k₂ k₁) event) else none))
unfolding probe_tick_nohz_restart_sched_tick probe_account_process_tick
restart-tick-tick thresh now r₁ k₁ r₂ k₂ c₁ c₂ s ts event e e' n k l₁ l₂ = ground arith
