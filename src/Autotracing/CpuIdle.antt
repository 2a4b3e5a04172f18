-- ===== src/Autotracing/CpuIdle.antt =====
-- core/autotracing/cpuidle.go: containers whose use of their CPUs jumps.
pub mod Idle
pub mod Percent
pub mod Measured
pub mod Containers
use jidick.Base.{
  ℕ, ◌-◌, ◌/◌, ◌^◌, not, ◌==◌, ltb_s64, quot_s64, sub64, mul64, nsec_per_sec, nsec_per_usec, Bool,
  true, false, ◌&&◌, ◌||◌, if◌then◌else◌, Option, none, some, ◌>>=◌, List, [], ◌∷◌,
}

-- The numbers are `int64` bit patterns.
pub record CpuStats : Type 0 where
  pub user : ℕ
  pub sys : ℕ
  pub total : ℕ

abbrev pub zero_stats : CpuStats
zero_stats = record { user = 0; sys = 0; total = 0 }

abbrev pub is_zero_stats : CpuStats → Bool
is_zero_stats c = c.user == 0 && c.sys == 0 && c.total == 0

-- Times are nanoseconds on a clock that does not go back; `none` is the zero time.
pub record ContainerCpuInfo : Type 0 where
  pub prev_usage_percentage : CpuStats
  pub now_usage_percentage : CpuStats
  pub delta_usage_percentage : CpuStats
  pub prev_usage : CpuStats
  pub path : List ℕ
  pub alive : Bool
  pub id : ℕ
  pub trace_time : Option ℕ
  pub update_time : ℕ

pub record CpuIdleThreshold : Type 0 where
  pub delta_user : ℕ
  pub delta_sys : ℕ
  pub delta_total : ℕ
  pub usage_user : ℕ
  pub usage_sys : ℕ
  pub usage_total : ℕ
  pub interval_continuous_perf : ℕ

-- What the cgroup of a container gives, `none` where it cannot be read, and the readings of the
-- clock in the order in which they are made.
pub record Reading : Type 0 where
  pub quota_and_period : Option (ℕ × ℕ)
  pub cpu_usage : Option CpuStats
  pub since : ℕ
  pub updated : ℕ
  pub care : ℕ

-- The errors of `updateContainerCpuUsage`.
pub data UpdateError : Type 0 where
  no_quota too_large too_small no_usage first_update no_change : UpdateError

abbrev pub container_cpu_usage_delta : CpuStats → CpuStats → CpuStats
container_cpu_usage_delta cpu1 cpu2 = record {
  user = sub64 cpu1.user cpu2.user;
  sys = sub64 cpu1.sys cpu2.sys;
  total = sub64 cpu1.total cpu2.total;
}

-- `100 * delta / updateElasped / cpuCores`
abbrev pub percentage : ℕ → ℕ → ℕ → ℕ
percentage elapsed cores delta = quot_s64 (quot_s64 (mul64 100 delta) elapsed) cores

abbrev pub percentages : ℕ → ℕ → CpuStats → CpuStats
percentages elapsed cores delta = record {
  user = percentage elapsed cores delta.user;
  sys = percentage elapsed cores delta.sys;
  total = percentage elapsed cores delta.total;
}

-- The end of the update: the percentages `now` against those of the update before.
unfoldable pub compare_percentages : ℕ → CpuStats → CpuStats → ContainerCpuInfo → ContainerCpuInfo
compare_percentages updated usage now c =
    let prev = if is_zero_stats c.prev_usage_percentage then now else c.prev_usage_percentage in
    record c {
      now_usage_percentage = now;
      delta_usage_percentage = container_cpu_usage_delta now prev;
      prev_usage_percentage = now;
      prev_usage = usage;
      update_time = updated;
    }

-- The update once the number of cores is known; `none` is the panic of a division by zero.
unfoldable pub update_usage :
    Reading → ℕ → ContainerCpuInfo → Option (ContainerCpuInfo × Option UpdateError)
update_usage r cores c = elim r.cpu_usage [
  | none ↦ some (c, some no_usage)
  | some usage ↦
      if is_zero_stats c.prev_usage
      then some (record c { prev_usage = usage; update_time = r.updated }, some first_update)
      else (let delta = container_cpu_usage_delta usage c.prev_usage in
          let elapsed = (r.since - c.update_time) / nsec_per_usec in
          if delta.total == 0
          then some (record c { update_time = r.updated }, some no_change)
          else if elapsed == 0
          then none
          else some (compare_percentages r.updated usage (percentages elapsed cores delta) c, none))
]

unfoldable pub update_container_cpu_usage :
    Reading → ContainerCpuInfo → Option (ContainerCpuInfo × Option UpdateError)
update_container_cpu_usage r c = elim r.quota_and_period [
  | none ↦ some (c, some no_quota)
  | some (quota, period) ↦
      if quota == 2 ^ 64 - 1
      then some (c, some too_large)
      else if period == 0
      then none
      else if quota / period == 0
      then some (c, some too_small)
      else update_usage r (quota / period) c
]

-- Whole seconds since a time; `Sub` gives no more than the largest duration.
abbrev pub seconds_since : ℕ → Option ℕ → ℕ
seconds_since now none = (2 ^ 63 - 1) / nsec_per_sec
seconds_since now (some t) = (now - t) / nsec_per_sec

-- The test of the usage and of its change.
unfoldable pub exceeds : CpuIdleThreshold → ContainerCpuInfo → Bool
exceeds th c =
    ltb_s64 th.usage_user c.now_usage_percentage.user
      && ltb_s64 th.delta_user c.delta_usage_percentage.user
    || ltb_s64 th.usage_sys c.now_usage_percentage.sys
      && ltb_s64 th.delta_sys c.delta_usage_percentage.sys
    || ltb_s64 th.usage_total c.now_usage_percentage.total
      && ltb_s64 th.delta_total c.delta_usage_percentage.total

unfoldable pub should_care_this_event :
    CpuIdleThreshold → ℕ → ContainerCpuInfo → ContainerCpuInfo × Bool
should_care_this_event th now c =
    if ltb_s64 th.interval_continuous_perf (seconds_since now c.trace_time) && exceeds th c
    then (record c { trace_time = some now; prev_usage = zero_stats }, true)
    else (c, false)

-- One container of the loop of `detectCPUIdleContainer` that is alive: what becomes of it, and
-- whether the loop ends with it.
unfoldable pub visit :
    CpuIdleThreshold → Reading → ContainerCpuInfo → Option (ContainerCpuInfo × Bool)
visit th r c = elim (update_container_cpu_usage r (record c { alive = false })) [
  | none ↦ none
  | some (c', some err) ↦ some (c', false)
  | some (c', none) ↦ some (should_care_this_event th r.care c')
]

-- The map of containers by their ids, in the order in which the loop comes to them.
abbrev pub Containers : Type 0
Containers = List (ℕ × ContainerCpuInfo)

-- `detectCPUIdleContainer`: the map that it leaves, and the container that it returns; `none` is a
-- panic.
unfoldable pub detect_cpu_idle_container :
    CpuIdleThreshold → (ℕ → Reading) → Containers → Option (Containers × Option ContainerCpuInfo)
detect_cpu_idle_container th readings [] = some ([], none)
detect_cpu_idle_container th readings ((id, c) ∷ cs) =
    let rest = detect_cpu_idle_container th readings cs in
    if c.alive
    then elim (visit th (readings id) c) [
      | none ↦ none
      | some (c', true) ↦ some ((id, c') ∷ cs, some c')
      | some (c', false) ↦ do (cs', found) ← rest; some ((id, c') ∷ cs', found)
    ]
    else rest

-- The part of `updateContainersCPUIdle` for one container of `pod.GetNormalContainers`.
unfoldable pub update_container : ℕ → List ℕ → Containers → Containers
update_container id path [] =
    (
      id,
      record {
        prev_usage_percentage = zero_stats;
        now_usage_percentage = zero_stats;
        delta_usage_percentage = zero_stats;
        prev_usage = zero_stats;
        path = path;
        alive = true;
        id = id;
        trace_time = none;
        update_time = 0;
      },
    )
    ∷ []
update_container id path ((k, c) ∷ cs) =
    if k == id
    then (k, record c { path = path; alive = true; id = id }) ∷ cs
    else (k, c) ∷ update_container id path cs

unfoldable pub update_containers_cpu_idle : List (ℕ × List ℕ) → Containers → Containers
unfolding update_container
update_containers_cpu_idle [] cs = cs
update_containers_cpu_idle ((id, path) ∷ listed) cs =
    update_containers_cpu_idle listed (update_container id path cs)
