-- ===== src/Tests/CpuUse.antt =====
-- core/autotracing/cpuidle.go, cpusys.go and dload.go at concrete readings.
use jidick.Base.{
  ℕ, ◌*◌, ◌+◌, ◌<◌, ◌≡◌, ◌↔◌, ◌⊎◌, refl, arith, true, false, none, some, [], ◌∷◌, replicate,
  nsec_per_sec,
}
use jidick.Autotracing.CpuIdle.{
  CpuStats, zero_stats, ContainerCpuInfo, CpuIdleThreshold, Reading, Containers,
  compare_percentages, update_usage, update_container_cpu_usage, exceeds, should_care_this_event,
  visit, seconds_since, detect_cpu_idle_container, update_container, update_containers_cpu_idle,
}
use jidick.Autotracing.CpuIdle.Idle.{idle-burst-missed}
use jidick.Autotracing.CpuIdle.Percent.{Jump, share}
use jidick.Autotracing.CpuIdle.Measured.{elapsed, visit_iff}
use jidick.Autotracing.CpuIdle.Containers.{round}
use jidick.Autotracing.Dload.{Averages, Load, ContainerDloadInfo, updates}
use jidick.Autotracing.Dload.Average.{updates_settle}

abbrev stats : ℕ → ℕ → CpuStats
stats user sys = record { user = user; sys = sys; total = user + sys }

abbrev thresholds : CpuIdleThreshold
thresholds = record {
  delta_user = 45;
  delta_sys = 20;
  delta_total = 55;
  usage_user = 75;
  usage_sys = 45;
  usage_total = 90;
  interval_continuous_perf = 1800;
}

-- A second after the update before, which came at second 100: microseconds of use.
abbrev reading : CpuStats → Reading
reading usage = record {
  quota_and_period = some (400_000, 100_000);
  cpu_usage = some usage;
  since = 101 * nsec_per_sec;
  updated = 101 * nsec_per_sec;
  care = 101 * nsec_per_sec;
}

-- A container of four cores that used `pct` percent of them before.
abbrev container : CpuStats → ContainerCpuInfo
container pct = record {
  prev_usage_percentage = pct;
  now_usage_percentage = pct;
  delta_usage_percentage = zero_stats;
  prev_usage = stats 1_000_000 500_000;
  path = [];
  alive = true;
  id = 1;
  trace_time = none;
  update_time = 100 * nsec_per_sec;
}

idle_program : Unit {0}
unfolding round detect_cpu_idle_container update_containers_cpu_idle update_container visit
    should_care_this_event exceeds update_container_cpu_usage update_usage compare_percentages
idle_program = tt

-- From ten percent to 95 percent of all cores: reported. From none: not.
jumps :
    ((visit thresholds (reading (stats 4_800_000 500_000)) (container (stats 10 0)))
      ≡ some (
        record (container (stats 95 0)) {
          delta_usage_percentage = stats 85 0;
          prev_usage = zero_stats;
          alive = false;
          trace_time = some (101 * nsec_per_sec);
          update_time = 101 * nsec_per_sec;
        },
        true,
      ))
    × (visit thresholds (reading (stats 4_800_000 500_000)) (container zero_stats)
        ≡ some (
          record (container (stats 95 0)) {
            prev_usage = stats 4_800_000 500_000;
            alive = false;
            update_time = 101 * nsec_per_sec;
          },
          false,
        ))
unfolding idle_program
jumps = (refl, refl)

idle-burst-missed_example : false ≡ false
idle-burst-missed_example =
    idle-burst-missed thresholds (reading (stats 4_800_000 500_000)) (container zero_stats) _ false
      (record { user = omega arith; sys = omega arith; total = omega arith }) refl (jumps.1)

visit_iff_example :
    let r = reading (stats 4_800_000 500_000) in
    let c = container (stats 10 0) in
    let now = share (elapsed r c) 4 in
    ((c' : ContainerCpuInfo) × (visit thresholds r c ≡ some (c', true))) ↔ (
      (1800 < seconds_since (101 * nsec_per_sec) none)
      × (Jump 75 45 10 (now 1_000_000 4_800_000)
          ⊎ Jump 45 20 0 (now 500_000 500_000)
          ⊎ Jump 90 55 10 (now 1_500_000 5_300_000)))
visit_iff_example =
    visit_iff thresholds (reading (stats 4_800_000 500_000)) (container (stats 10 0)) 400_000
      100_000 (stats 4_800_000 500_000)
      (record {
        usage = (omega arith, omega arith, omega arith);
        delta = (omega arith, omega arith, omega arith);
        interval = omega arith;
      })
      (record {
        quota_read = refl;
        limited = omega arith;
        periodic = omega arith;
        has_core = omega arith;
        usage_read = refl;
        seen = refl;
        compared_once = refl;
        user_grown = omega arith;
        sys_grown = omega arith;
        total_grown = omega arith;
        usage_small = (omega arith, omega arith, omega arith);
        percentage_small = (omega arith, omega arith, omega arith);
        in_time = omega arith;
        since_small = omega arith;
        care_small = omega arith;
      })

-- Container 1 was known, 2 comes, and 1 goes.
abbrev known : Containers
known = (1, container (stats 10 0)) ∷ []

abbrev calm : ℕ → Reading
calm _ = record (reading (stats 1_000_000 500_000)) { cpu_usage = none }

abbrev after_calm : Containers
after_calm = (1, record (container (stats 10 0)) { path = 1 ∷ []; alive = false }) ∷ []

first_round : round thresholds calm ((1, 1 ∷ []) ∷ []) known ≡ some (after_calm, none)
unfolding idle_program
first_round = refl

abbrev newcomer : ContainerCpuInfo
newcomer = record {
  prev_usage_percentage = zero_stats;
  now_usage_percentage = zero_stats;
  delta_usage_percentage = zero_stats;
  prev_usage = zero_stats;
  path = 2 ∷ [];
  alive = false;
  id = 2;
  trace_time = none;
  update_time = 0;
}

second_round : round thresholds calm ((2, 2 ∷ []) ∷ []) after_calm ≡ some ((2, newcomer) ∷ [], none)
unfolding idle_program
second_round = refl

abbrev no_load : Averages Load
no_load = record {
  one = record { whole = 0; hundredths = 0 };
  five = record { whole = 0; hundredths = 0 };
}

abbrev unloaded : ContainerDloadInfo
unloaded = record {
  avgnrun = record { one = 0; five = 0 };
  load = no_load;
  avgnuni = record { one = 0; five = 0 };
  loaduni = no_load;
}

updates_settle_example :
    let after = updates (replicate 10_241 (2, 3)) unloaded in
    (after.load.one ≡ record { whole = 5; hundredths = 0 })
    × (after.loaduni.one ≡ record { whole = 3; hundredths = 0 })
updates_settle_example =
    updates_settle unloaded 10_240 2 3 (omega arith) (omega arith) (omega arith) (omega arith)
