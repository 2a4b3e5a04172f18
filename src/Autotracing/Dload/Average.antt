-- ===== src/Autotracing/Dload/Average.antt =====
-- Where the averages of core/autotracing/dload.go lie, and where they go.
use jidick.Base.{
  ℕ, zero, suc, ◌+◌, ◌-◌, ◌*◌, ◌/◌, ◌≤◌, ◌<◌, ◌^◌, ◌≡◌, refl, arith, add64, mul64, ltb,
  if◌then◌else◌, replicate, ◌%◌, ap,
}
use jidick.Autotracing.Dload.{
  calc_load, calc_loadavg, Averages, fixed1, exp1, load_int, load_frac, get_avenrun, avenrun,
  ContainerDloadInfo, updates, update_load,
}

-- How far a load is from that of `active` tasks.
abbrev pub gap : ℕ → ℕ → ℕ
gap load active = (load - active) + (active - load)

-- A one-minute average does not leave the range of itself and the tasks, and so does not overflow.
calc_load-le :
    (load active hi : ℕ) → load ≤ hi → active ≤ hi → hi < 2 ^ 52 → calc_load load exp1 active ≤ hi
unfolding calc_load
calc_load-le load active hi a b h = omega arith

gap-calc_load :
    (load active : ℕ)
    → load < 2 ^ 52
    → active < 2 ^ 52
    → let next = calc_load load exp1 active in
      (7 ≤ gap load active → gap next active < gap load active)
      × (gap load active ≤ 6 → gap next active ≤ 6)
unfolding calc_load
gap-calc_load load active a b = (λ h. omega arith, λ h. omega arith)

gap-shrinks :
    (load active k : ℕ)
    → load < 2 ^ 52
    → active < 2 ^ 52
    → gap load active ≤ suc k + 6
    → gap (calc_load load exp1 active) active ≤ k + 6
gap-shrinks load active k a b h = let (c, d) = gap-calc_load load active a b in ground arith

scaled_exact : (n : ℕ) → n < 2 ^ 40 → (if ltb 0 n then mul64 n fixed1 else 0) ≡ n * fixed1
scaled_exact n h = ground arith

avenrun_near :
    (load n : ℕ)
    → n < 2 ^ 40
    → gap load (n * fixed1) ≤ 6
    → avenrun load (fixed1 / 200) 0 ≡ record { whole = n; hundredths = 0 }
unfolding avenrun load_int load_frac
avenrun_near load n h g =
    let whole : (load + 10) / 2048 ≡ n = omega arith in
    let rest : (load + 10) % 2048 ≤ 16 = omega arith in
    let same : mul64 (add64 load 10) 1 ≡ load + 10 = omega arith in
    let part : mul64 ((load + 10) % 2048) 100 / 2048 ≡ 0 = omega arith in
    rw (same, whole, part) refl

-- The one-minute average of an update, of `n` tasks in all.
calc_loadavg-one :
    (avg : Averages ℕ) (n : ℕ)
    → n < 2 ^ 40
    → (calc_loadavg avg n).one ≡ calc_load avg.one exp1 (n * fixed1)
unfolding calc_loadavg
calc_loadavg-one avg n h = ap (calc_load avg.one exp1) (scaled_exact n h)

-- A number of tasks, and the average of it so far.
record Near (k n : ℕ) (avg : Averages ℕ) : Type 0 where
  pub tasks : n < 2 ^ 40
  pub fits : avg.one < 2 ^ 52
  pub near : gap avg.one (n * fixed1) ≤ k + 6

Near-calc_loadavg :
    (k n : ℕ) (avg : Averages ℕ) → Near (suc k) n avg → Near k n (calc_loadavg avg n)
Near-calc_loadavg k n avg h =
    let is = calc_loadavg-one avg n h.tasks in
    let tasks : n * fixed1 < 2 ^ 52 = ground (arith, h.tasks) in
    record {
      tasks = h.tasks;
      fits = rw is (
          let stays =
            calc_load-le avg.one (n * fixed1) (2 ^ 52 - 1) (ground (arith, h.fits)) (omega arith)
              (omega arith) in
          omega arith);
      near = rw is (gap-shrinks avg.one (n * fixed1) k h.fits tasks h.near);
    }

Near-avenrun :
    (n : ℕ) (avg : Averages ℕ)
    → Near 0 n avg
    → avenrun (calc_loadavg avg n).one (fixed1 / 200) 0 ≡ record { whole = n; hundredths = 0 }
Near-avenrun n avg h =
    let is = calc_loadavg-one avg n h.tasks in
    let tasks : n * fixed1 < 2 ^ 52 = ground (arith, h.tasks) in
    let (_, stays) = gap-calc_load avg.one (n * fixed1) h.fits tasks in
    rw is (
      avenrun_near (calc_load avg.one exp1 (n * fixed1)) n h.tasks (stays (ground (arith, h.near))))

settled :
    (info : ContainerDloadInfo) (k r u : ℕ)
    → Near k (r + u) info.avgnrun
    → Near k u info.avgnuni
    → let after = updates (replicate (suc k) (r, u)) info in
      (after.load.one ≡ record { whole = r + u; hundredths = 0 })
      × (after.loaduni.one ≡ record { whole = u; hundredths = 0 })
unfolding updates replicate update_load get_avenrun
settled info zero r u g h =
    let sum : add64 r u ≡ r + u = ground (arith, g.tasks) in
    (rw sum (Near-avenrun (r + u) info.avgnrun g), Near-avenrun u info.avgnuni h)
settled info (suc k) r u g h =
    let sum : add64 r u ≡ r + u = ground (arith, g.tasks) in
    settled (update_load info r u) k r u (rw sum (Near-calc_loadavg k (r + u) info.avgnrun g))
      (Near-calc_loadavg k u info.avgnuni h)

-- Once as many tasks run and wait at every update, the one-minute loads that `detectDloadContainer`
-- compares and reports come to the exact numbers of tasks, and stay there.
pub updates_settle :
    (info : ContainerDloadInfo) (k r u : ℕ)
    → r + u < 2 ^ 40
    → info.avgnrun.one < 2 ^ 52
    → info.avgnuni.one < 2 ^ 52
    → info.avgnrun.one + info.avgnuni.one + (r + u) * fixed1 ≤ k
    → let after = updates (replicate (suc k) (r, u)) info in
      (after.load.one ≡ record { whole = r + u; hundredths = 0 })
      × (after.loaduni.one ≡ record { whole = u; hundredths = 0 })
updates_settle info k r u small a b enough =
    settled info k r u (record { tasks = small; fits = a; near = omega arith })
      (record { tasks = omega arith; fits = b; near = omega arith })
