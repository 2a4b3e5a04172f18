-- ===== src/Autotracing/CpuIdle/Idle.antt =====
-- What core/autotracing/cpuidle.go makes of a container that was idle.
use jidick.Base.{
  ℕ, ◌-◌, ◌/◌, ◌<◌, ◌^◌, ◌≡◌, arith, Bool, true, false, ltb_s64, Option, none, some, Option-cases,
  inl, inr, sub64, nsec_per_usec,
}
use jidick.Autotracing.CpuIdle.{
  CpuStats, is_zero_stats, ContainerCpuInfo, CpuIdleThreshold, Reading, UpdateError,
  container_cpu_usage_delta, percentages, compare_percentages, update_usage,
  update_container_cpu_usage, exceeds, visit, should_care_this_event,
}

-- Thresholds of the change that are not negative.
pub record NonNegative (th : CpuIdleThreshold) : Type 0 where
  pub user : th.delta_user < 2 ^ 63
  pub sys : th.delta_sys < 2 ^ 63
  pub total : th.delta_total < 2 ^ 63

no_change_below : (t a : ℕ) → t < 2 ^ 63 → ltb_s64 t (sub64 a a) ≡ false
no_change_below t a h = ground arith

-- Against no percentages, the change is zero.
compare_percentages-exceeds :
    (th : CpuIdleThreshold) (updated : ℕ) (usage now : CpuStats) (c : ContainerCpuInfo)
    → NonNegative th
    → is_zero_stats c.prev_usage_percentage ≡ true
    → exceeds th (compare_percentages updated usage now c) ≡ false
unfolding exceeds compare_percentages
compare_percentages-exceeds th updated usage now c h z =
    rw
      (
        z,
        no_change_below th.delta_user now.user h.user,
        no_change_below th.delta_sys now.sys h.sys,
        no_change_below th.delta_total now.total h.total,
      )
      (ground arith)

-- An update that fails, or leaves nothing to report.
abbrev Quiet : CpuIdleThreshold → Option (ContainerCpuInfo × Option UpdateError) → Type 0
Quiet th none = Unit
Quiet th (some (c, some err)) = Unit
Quiet th (some (c, none)) = exceeds th c ≡ false

update_usage-Quiet :
    (th : CpuIdleThreshold) (r : Reading) (cores : ℕ) (c : ContainerCpuInfo)
    → NonNegative th
    → is_zero_stats c.prev_usage_percentage ≡ true
    → Quiet th (update_usage r cores c)
unfolding update_usage
update_usage-Quiet th r cores c h z = elim (Option-cases r.cpu_usage) [
  | inl e ↦ rw (e, update_usage) tt
  | inr (usage, e) ↦
      let delta = container_cpu_usage_delta usage c.prev_usage in
      let now = percentages ((r.since - c.update_time) / nsec_per_usec) cores delta in
      ground (arith, compare_percentages-exceeds th r.updated usage now c h z)
]

update_container_cpu_usage-Quiet :
    (th : CpuIdleThreshold) (r : Reading) (c : ContainerCpuInfo)
    → NonNegative th
    → is_zero_stats c.prev_usage_percentage ≡ true
    → Quiet th (update_container_cpu_usage r c)
unfolding update_container_cpu_usage
update_container_cpu_usage-Quiet th r c h z = elim (Option-cases r.quota_and_period) [
  | inl e ↦ rw (e, update_container_cpu_usage) tt
  | inr ((quota, period), e) ↦ ground (arith, update_usage-Quiet th r (quota / period) c h z)
]

should_care-quiet :
    (th : CpuIdleThreshold) (now : ℕ) (c : ContainerCpuInfo)
    → exceeds th c ≡ false
    → should_care_this_event th now c ≡ (c, false)
unfolding should_care_this_event
should_care-quiet th now c h = rw h (ground arith)

-- A container whose percentages were all zero after the last update that succeeded is not
-- reported at the next one, however much it uses by then.
pub idle-burst-missed :
    (th : CpuIdleThreshold) (r : Reading) (c c' : ContainerCpuInfo) (found : Bool)
    → NonNegative th
    → is_zero_stats c.prev_usage_percentage ≡ true
    → visit th r c ≡ some (c', found)
    → found ≡ false
unfolding visit
idle-burst-missed th r c c' found nn z e =
    let quiet = update_container_cpu_usage-Quiet th r (record c { alive = false }) nn z in
    elim (Option-cases (update_container_cpu_usage r (record c { alive = false }))) [
      | inl u ↦ absurd (ground arith)
      | inr ((d, some err), u) ↦ ground arith
      | inr ((d, none), u) ↦
          let silent : exceeds th d ≡ false = rw u at quiet in
          cc (rw (u, visit, should_care-quiet th r.care d silent) at e)
    ]
