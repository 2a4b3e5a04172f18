-- ===== src/Autotracing/CpuSys/Steady.antt =====
-- What core/autotracing/cpusys.go makes of a host with a steady share of time in the kernel.
use jidick.Base.{
  ℕ, zero, suc, ◌+◌, ◌*◌, ◌/◌, ◌≤◌, ◌<◌, ◌^◌, ◌≡◌, refl, arith, sub64, mul64, ltb_s64, ltb, ◌==◌,
  Bool, false, ◌||◌, Option, some, List, [], ◌∷◌, replicate,
}
use native.Mathlib.Nat.{div-le_self}
use jidick.Autotracing.CpuSys.{
  CpuUsage, CpuSysTracing, CpuSysThreshold, updated, update_cpu_sys_usage, should_care_this_event,
  rounds, fresh,
}

-- Readings that grow by `s` of `t` each time.
unfoldable pub steady : ℕ → ℕ → ℕ → CpuUsage → List (Option CpuUsage)
steady zero s t u = []
steady (suc n) s t u = some u ∷ steady n s t (record { system = u.system + s; total = u.total + t })

abbrev pub percent : ℕ → ℕ → ℕ
percent s t = 100 * s / t

-- Thresholds and readings far below what the words hold.
pub record Fits (s t : ℕ) (th : CpuSysThreshold) : Type 0 where
  pub runs : 0 < t
  pub part : s ≤ t
  pub small : t < 2 ^ 56
  pub usage : th.usage < 2 ^ 56
  pub delta : th.delta < 2 ^ 56

percent-lt : (s t : ℕ) → s < 2 ^ 56 → percent s t < 2 ^ 63
percent-lt s t h = let shrinks = div-le_self (100 * s) t in omega arith

update-steady :
    (s t : ℕ) (u : CpuUsage) (c : CpuSysTracing)
    → 0 < t
    → s ≤ t
    → t < 2 ^ 56
    → c.usage ≡ some u
    → update_cpu_sys_usage (some (record { system = u.system + s; total = u.total + t })) c
      ≡ updated record {
        usage = some (record { system = u.system + s; total = u.total + t });
        sys_percent = percent s t;
        sys_percent_delta = sub64 (percent s t) c.sys_percent;
      }
unfolding update_cpu_sys_usage
update-steady s t u c pos part small e =
    let total : sub64 (u.total + t) u.total ≡ t = omega arith in
    let system : sub64 (u.system + s) u.system ≡ s = omega arith in
    let scaled : mul64 100 s ≡ 100 * s = omega arith in
    let runs : (t == 0) ≡ false = ground arith in
    rw (e, update_cpu_sys_usage, total, system, scaled, runs) refl

-- The tracer after `u`, at the steady share and with its change.
at_share : ℕ → ℕ → ℕ → CpuUsage → CpuSysTracing
at_share s t change u = record {
  usage = some u;
  sys_percent = percent s t;
  sys_percent_delta = change;
}

or_false : (b : Bool) → (b || false) ≡ b
or_false b = ground arith

no_change : (a : ℕ) → sub64 a a ≡ 0
no_change a = ground arith

above_exact : (t p : ℕ) → t < 2 ^ 63 → p < 2 ^ 63 → ltb_s64 t p ≡ ltb t p
above_exact t p ht hp = ground arith

rounds-at_share :
    (th : CpuSysThreshold) (n s t change : ℕ) (u : CpuUsage)
    → Fits s t th
    → rounds th
        (steady n s t (record { system = u.system + s; total = u.total + t }))
        (at_share s t change u)
      ≡ replicate n (ltb th.usage (percent s t))
unfolding rounds steady replicate at_share should_care_this_event
rounds-at_share th zero s t change u f = refl
rounds-at_share th (suc n) s t change u f =
    let next : CpuUsage = record { system = u.system + s; total = u.total + t } in
    let ih = rounds-at_share th n s t 0 next f in
    let share =
      above_exact th.usage (percent s t) (ground (arith, f.usage))
        (percent-lt s t (ground (arith, f.part, f.small))) in
    let flat : ltb_s64 th.delta 0 ≡ false = ground (arith, f.delta) in
    rw
      (
        update-steady s t u (at_share s t change u) f.runs f.part f.small refl,
        rounds,
        no_change (percent s t),
        ih,
        should_care_this_event,
        share,
        flat,
        or_false (ltb th.usage (percent s t)),
      )
      refl

-- On a host whose share of time in the kernel is the same all the time, the first reading asks for
-- no profile, and every one after the second asks exactly when the share is above its threshold;
-- but the second asks also when the share is above the threshold of the change, since it counts
-- the whole share as one.
steady-rounds :
    (th : CpuSysThreshold) (n s t : ℕ) (u : CpuUsage)
    → Fits s t th
    → rounds th (steady (suc (suc n)) s t u) fresh
      ≡ false
        ∷ (ltb th.usage (percent s t) || ltb th.delta (percent s t))
        ∷ replicate n (ltb th.usage (percent s t))
unfolding rounds steady should_care_this_event update_cpu_sys_usage at_share
steady-rounds th n s t u f =
    let next : CpuUsage = record { system = u.system + s; total = u.total + t } in
    let first : CpuSysTracing = record fresh { usage = some u } in
    let p = percent s t in
    let small = percent-lt s t (ground (arith, f.part, f.small)) in
    let quiet : should_care_this_event th first ≡ false = ground (arith, f.usage, f.delta) in
    let share = above_exact th.usage p (ground (arith, f.usage)) small in
    let whole : ltb_s64 th.delta (sub64 p 0) ≡ ltb th.delta p =
      let same : sub64 p 0 ≡ p = omega arith in
      rw same (above_exact th.delta p (ground (arith, f.delta)) small) in
    rw
      (
        quiet,
        update-steady s t u first f.runs f.part f.small refl,
        rounds-at_share th n s t (sub64 p 0) next f,
        share,
        whole,
      )
      refl
