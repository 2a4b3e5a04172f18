-- ===== src/Autotracing/CpuIdle/Measured.antt =====
-- When core/autotracing/cpuidle.go reports a container that it has measured before.
use jidick.Base.{
  ℕ, ◌+◌, ◌-◌, ◌/◌, ◌≤◌, ◌<◌, ◌^◌, ◌≡◌, ◌↔◌, refl, ap, ◌∙◌, arith, Bool, true, false, ltb, ltb_s64,
  Option, none, some, ◌==◌, ◌&&◌, ◌||◌, sub64, nsec_per_usec, nsec_per_sec, ◌⊎◌,
}
use native.Mathlib.Nat.{div-le_self}
use jidick.Autotracing.CpuIdle.Percent.{share, above_exact, Jump, test_jump, jumps_iff}
use jidick.Autotracing.CpuIdle.{
  CpuStats, is_zero_stats, ContainerCpuInfo, CpuIdleThreshold, Reading, container_cpu_usage_delta,
  percentages, seconds_since, compare_percentages, update_usage, update_container_cpu_usage,
  exceeds, visit, should_care_this_event,
}

-- Numbers far below what `int64` holds.
abbrev pub IsSmall : CpuStats → Type 0
IsSmall c = (c.user < 2 ^ 56) × (c.sys < 2 ^ 56) × (c.total < 2 ^ 56)

-- A container with a quota of at least one core, `usage` at this reading, a usage `before` on record
-- and percentages `compared` of the stretch before that are not all zero.
pub record Measured (r : Reading) (before compared : CpuStats) (update_time : ℕ) (quota period : ℕ)
    (usage : CpuStats) : Type 0 where
  pub quota_read : r.quota_and_period ≡ some (quota, period)
  pub limited : quota < 2 ^ 63
  pub periodic : 0 < period
  pub has_core : 0 < quota / period
  pub usage_read : r.cpu_usage ≡ some usage
  pub seen : is_zero_stats before ≡ false
  pub compared_once : is_zero_stats compared ≡ false
  pub user_grown : before.user ≤ usage.user
  pub sys_grown : before.sys ≤ usage.sys
  pub total_grown : before.total < usage.total
  pub usage_small : IsSmall usage
  pub percentage_small : IsSmall compared
  pub in_time : nsec_per_usec ≤ r.since - update_time
  pub since_small : r.since < 2 ^ 63
  pub care_small : r.care < 2 ^ 63

pub record Sane (th : CpuIdleThreshold) : Type 0 where
  pub usage : IsSmall (record { user = th.usage_user; sys = th.usage_sys; total = th.usage_total })
  pub delta : IsSmall (record { user = th.delta_user; sys = th.delta_sys; total = th.delta_total })
  pub interval : th.interval_continuous_perf < 2 ^ 56

-- The microseconds between the two readings of the usage.
abbrev pub elapsed : Reading → ContainerCpuInfo → ℕ
elapsed r c = (r.since - c.update_time) / nsec_per_usec

update-Measured :
    (r : Reading) (c : ContainerCpuInfo) (quota period : ℕ) (usage : CpuStats)
    → Measured r c.prev_usage c.prev_usage_percentage c.update_time quota period usage
    → update_container_cpu_usage r c
      ≡ some (
        compare_percentages r.updated usage
            (percentages
              (elapsed r c)
              (quota / period)
              (container_cpu_usage_delta usage c.prev_usage))
            c,
        none,
      )
unfolding update_container_cpu_usage update_usage
update-Measured r c quota period usage m =
    let unlimited : (quota == 2 ^ 64 - 1) ≡ false = ground (arith, m.limited) in
    let divides : (period == 0) ≡ false = ground (arith, m.periodic) in
    let cores : (quota / period == 0) ≡ false = ground (arith, m.has_core) in
    let ran : (sub64 usage.total c.prev_usage.total == 0) ≡ false =
      ground (arith, m.total_grown, m.usage_small) in
    let passed : (elapsed r c == 0) ≡ false = ground (arith, m.in_time) in
    rw
      (
        m.quota_read, update_container_cpu_usage, unlimited, divides, cores, update_usage,
        m.usage_read, m.seen, ran, passed,
      )
      refl

seconds_since-lt : (now : ℕ) (t : Option ℕ) → now < 2 ^ 63 → seconds_since now t < 2 ^ 63
seconds_since-lt now none h = omega arith
seconds_since-lt now (some t) h = let shrinks = div-le_self (now - t) nsec_per_sec in omega arith

exceeds-Measured :
    (th : CpuIdleThreshold) (r : Reading) (c : ContainerCpuInfo) (quota period : ℕ)
    (usage : CpuStats)
    → Sane th
    → Measured r c.prev_usage c.prev_usage_percentage c.update_time quota period usage
    → let now = share (elapsed r c) (quota / period) in
      let prev = c.prev_usage_percentage in
      let user = now c.prev_usage.user usage.user in
      let sys = now c.prev_usage.sys usage.sys in
      let total = now c.prev_usage.total usage.total in
      exceeds th (
        compare_percentages r.updated usage
          (percentages
            (elapsed r c)
            (quota / period)
            (container_cpu_usage_delta usage c.prev_usage))
          (record c { alive = false }))
      ≡ (ltb th.usage_user user && ltb (th.delta_user + prev.user) user
          || ltb th.usage_sys sys && ltb (th.delta_sys + prev.sys) sys
          || ltb th.usage_total total && ltb (th.delta_total + prev.total) total)
unfolding exceeds compare_percentages
exceeds-Measured th r c quota period usage sane m =
    let cores : quota / period < 2 ^ 63 =
      let shrinks = div-le_self quota period in ground (arith, m.limited) in
    let time : elapsed r c < 2 ^ 63 =
      let shrinks = div-le_self (r.since - c.update_time) nsec_per_usec in
      ground (arith, m.since_small) in
    let prev = c.prev_usage_percentage in
    rw
      (
        m.compared_once,
        test_jump th.usage_user th.delta_user prev.user (elapsed r c) (quota / period)
            c.prev_usage.user usage.user sane.usage.0 sane.delta.0 m.percentage_small.0 m.user_grown
            m.usage_small.0 time cores,
        test_jump th.usage_sys th.delta_sys prev.sys (elapsed r c) (quota / period) c.prev_usage.sys
            usage.sys sane.usage.1 sane.delta.1 m.percentage_small.1 m.sys_grown m.usage_small.1
            time cores,
        test_jump th.usage_total th.delta_total prev.total (elapsed r c) (quota / period)
            c.prev_usage.total usage.total sane.usage.2 sane.delta.2 m.percentage_small.2
            (ground (arith, m.total_grown)) m.usage_small.2 time cores,
      )
      refl

should_care_iff :
    (th : CpuIdleThreshold) (now : ℕ) (d : ContainerCpuInfo) (waited over : Bool)
    → ltb_s64 th.interval_continuous_perf (seconds_since now d.trace_time) ≡ waited
    → exceeds th d ≡ over
    → ((c' : ContainerCpuInfo) × (should_care_this_event th now d ≡ (c', true)))
      ↔ ((waited && over) ≡ true)
unfolding should_care_this_event
should_care_iff th now d true true hw ho = rw (hw, ho) (λ (c', e). refl, λ e. (_, refl))
should_care_iff th now d true false hw ho = rw (hw, ho) (λ (c', e). cc, λ e. absurd cc)
should_care_iff th now d false over hw ho = rw hw (λ (c', e). cc, λ e. absurd cc)

-- A container with a quota of at least one core and a usage on record, whose whole percentages of
-- the stretch before are not all zero, is reported at a reading exactly when it was not for more
-- than the configured time, and one of its three kinds of use is above its threshold, in whole
-- percents of its cores, and above the percentage of the stretch before by more than the other
-- threshold. It is a condition that the total usage has grown since the last reading, and the two
-- others have not fallen; that a microsecond has passed at least; and that the numbers and the
-- thresholds are far below what an `int64` holds, below 2 ^ 56 or, for the times and the quota,
-- 2 ^ 63.
pub visit_iff :
    (th : CpuIdleThreshold) (r : Reading) (c : ContainerCpuInfo) (quota period : ℕ)
    (usage : CpuStats)
    → Sane th
    → Measured r c.prev_usage c.prev_usage_percentage c.update_time quota period usage
    → let now = share (elapsed r c) (quota / period) in
      let prev = c.prev_usage_percentage in
      ((c' : ContainerCpuInfo) × (visit th r c ≡ some (c', true))) ↔ (
        (th.interval_continuous_perf < seconds_since r.care c.trace_time)
        × (Jump th.usage_user th.delta_user prev.user (now c.prev_usage.user usage.user)
            ⊎ Jump th.usage_sys th.delta_sys prev.sys (now c.prev_usage.sys usage.sys)
            ⊎ Jump th.usage_total th.delta_total prev.total (now c.prev_usage.total usage.total)))
unfolding visit compare_percentages
visit_iff th r c quota period usage sane m =
    let updated = update-Measured r (record c { alive = false }) quota period usage m in
    let d =
      compare_percentages r.updated usage
        (percentages (elapsed r c) (quota / period) (container_cpu_usage_delta usage c.prev_usage))
        (record c { alive = false }) in
    let visited : visit th r c ≡ some (should_care_this_event th r.care d) =
      rw (updated, visit) refl in
    let is = exceeds-Measured th r c quota period usage sane m in
    let waited : ltb_s64 th.interval_continuous_perf (seconds_since r.care c.trace_time)
        ≡ ltb th.interval_continuous_perf (seconds_since r.care c.trace_time) =
      above_exact _ _ (ground (arith, sane.interval))
        (seconds_since-lt r.care c.trace_time m.care_small) in
    let reports = should_care_iff th r.care d _ _ waited is in
    let jumps =
      jumps_iff th.interval_continuous_perf (seconds_since r.care c.trace_time) _ _ _ _ _ _ _ _ _ _
        _ _ in
    (
      λ (c', e).
          let cared : should_care_this_event th r.care d ≡ (c', true) = cc (visited, e) in
          jumps.0 (reports.0 (c', cared)),
      λ j. let (c', e) = reports.1 (jumps.1 j) in (c', visited ∙ ap some e),
    )
