-- ===== src/Autotracing/CpuSys.antt =====
-- core/autotracing/cpusys.go: the host's share of time in the kernel.
pub mod Steady
use jidick.Base.{
  ℕ, ◌+◌, ◌-◌, ◌*◌, ◌/◌, ◌≤◌, ◌<◌, ◌^◌, ◌≡◌, refl, arith, sub64, add64, mul64, ltb_s64, ltb, ◌==◌,
  Bool, true, false, ◌||◌, if◌then◌else◌, Option, none, some, ◌>>=◌, List, [], ◌∷◌,
}
use native.Mathlib.Nat.{div-le_self}

pub record CpuUsage : Type 0 where
  pub system : ℕ
  pub total : ℕ

-- The percentages are `int64` bit patterns.
pub record CpuSysTracing : Type 0 where
  pub usage : Option CpuUsage
  pub sys_percent : ℕ
  pub sys_percent_delta : ℕ

pub record CpuSysThreshold : Type 0 where
  pub delta : ℕ
  pub usage : ℕ

-- The loop over the fields of the first line of /proc/stat, from field `i` on; `none` is a field
-- that is no number.
unfoldable sum_fields : ℕ → CpuUsage → List (Option ℕ) → Option CpuUsage
sum_fields i u [] = some u
sum_fields i u (none ∷ fields) = none
sum_fields i u (some val ∷ fields) =
    sum_fields (i + 1)
      (record { system = if i == 2 then val else u.system; total = add64 u.total val }) fields

unfoldable pub cpu_sys_usage : List (Option ℕ) → Option CpuUsage
unfolding sum_fields
cpu_sys_usage fields = sum_fields 0 (record { system = 0; total = 0 }) fields

-- What `updateCpuSysUsage` comes to.
pub data Update : Type 0 where
  updated : CpuSysTracing → Update
  failed panicked : Update

-- `none` is an error of `cpuSysUsage`.
unfoldable pub update_cpu_sys_usage : Option CpuUsage → CpuSysTracing → Update
update_cpu_sys_usage none c = failed
update_cpu_sys_usage (some usage) c = elim c.usage [
  | none ↦ updated (record c { usage = some usage })
  | some before ↦
      let total = sub64 usage.total before.total in
      let percent = mul64 100 (sub64 usage.system before.system) / total in
      if total == 0
      then panicked
      else updated record {
        usage = some usage;
        sys_percent = percent;
        sys_percent_delta = sub64 percent c.sys_percent;
      }
]

unfoldable pub should_care_this_event : CpuSysThreshold → CpuSysTracing → Bool
should_care_this_event th c = ltb_s64 th.usage c.sys_percent || ltb_s64 th.delta c.sys_percent_delta

-- The rounds of `Start`, which goes on where a profile was saved or came out empty: whether each
-- asks for a profile; an error or a panic ends them.
unfoldable pub rounds : CpuSysThreshold → List (Option CpuUsage) → CpuSysTracing → List Bool
rounds th [] c = []
rounds th (u ∷ us) c = elim (update_cpu_sys_usage u c) [
  | updated c' ↦ should_care_this_event th c' ∷ rounds th us c'
  | _ ↦ []
]

abbrev pub fresh : CpuSysTracing
fresh = record { usage = none; sys_percent = 0; sys_percent_delta = 0 }
