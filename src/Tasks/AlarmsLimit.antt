-- ===== src/Tasks/AlarmsLimit.antt =====
-- What the limiter in the map lets bpf/softlockup.c and bpf/oom.c report.
use jidick.Base.{
  ℕ, ◌+◌, ◌*◌, ◌/◌, ◌≤◌, ◌<◌, ◌^◌, ◌≡◌, refl, arith, not, ◌==◌, ◌&&◌, if◌then◌else◌, Option, none,
  some, List, [], ◌∷◌, to_nat, is_some, All, nsec_per_sec, Bool-cases, inl, inr,
}
use mathlib.Core.Option
use jidick.Kernel.BpfMap.{BpfMap, nat_eq}
use jidick.Ratelimit.{BpfRatelimit, bpf_ratelimited, bpf_ratelimited_core_in_map, admitted_in_map}
use jidick.Ratelimit.Window.{Until, new-admitted-le}
use jidick.Ratelimit.Refine.{Models, core_in_map-refines, admitted_in_map-eq-admitted}
use jidick.Tasks.Alarms.{
  taint_softlockup, cfg, OomInfo, TaskStruct, kprobe_softlockup, kprobe_oom_kill_process,
}

module _ {S : Type 0} (map : BpfMap S ℕ BpfRatelimit nat_eq) where
  -- A taint is reported exactly when it is a soft lockup and the limiter that the cell stands for
  -- lets it pass, with the thread group, not the thread; and any other taint leaves the
  -- limiter as it is.
  pub softlockup_lem :
      (flag pid_tgid cpu ktime : ℕ) (task : TaskStruct) (s : S) (r : BpfRatelimit)
      → Models map cfg s r
      → let out = kprobe_softlockup map flag pid_tgid cpu task ktime s in
        (out.event ≡ (
          if flag == taint_softlockup && not (bpf_ratelimited ktime r).1
          then some (record { cpu = cpu; pid = pid_tgid / 2 ^ 32; comm = task.comm })
          else none))
        × Models map cfg out.cell
            (if flag == taint_softlockup then (bpf_ratelimited ktime r).0 else r)
  unfolding kprobe_softlockup
  softlockup_lem flag pid_tgid cpu ktime task s r m =
      let (limited, models, _) = core_in_map-refines map cfg s r ktime 0 (omega arith) m in
      elim (Bool-cases (flag == taint_softlockup)) [
        | inl e ↦ rw (e, limited) (ground arith, models)
        | inr e ↦ rw e (refl, m)
      ]

  -- An OOM kill is reported exactly when the limiter lets it pass and there is an `oom_control`,
  -- with the task that ran into it and the task that was chosen; it is charged in any case.
  oom_lem :
      (oc : Option TaskStruct) (trigger : TaskStruct) (ktime : ℕ) (s : S) (r : BpfRatelimit)
      → Models map cfg s r
      → let out = kprobe_oom_kill_process map oc trigger ktime s in
        let info : TaskStruct → OomInfo = λ victim. record {
          trigger_comm = trigger.comm;
          victim_comm = victim.comm;
          trigger_pid = trigger.pid;
          victim_pid = victim.pid;
          trigger_memcg_css = trigger.memory_css;
          victim_memcg_css = victim.memory_css;
        } in
        (out.event ≡ (if (bpf_ratelimited ktime r).1 then none else Option.map info oc))
        × Models map cfg out.cell (bpf_ratelimited ktime r).0
  unfolding kprobe_oom_kill_process
  oom_lem oc trigger ktime s r m =
      let (limited, models, _) = core_in_map-refines map cfg s r ktime 0 (omega arith) m in
      (ground (arith, limited), models)

  -- The events of a sequence of OOM kills, each with its chosen task, the current task and time.
  abbrev Kill : Type 0
  Kill = Option TaskStruct × TaskStruct × ℕ

  unfoldable pub oom_events : List Kill → S → ℕ
  oom_events [] s = 0
  oom_events ((oc, trigger, ktime) ∷ ks) s =
      let out = kprobe_oom_kill_process map oc trigger ktime s in
      to_nat (is_some out.event) + oom_events ks out.cell

  abbrev pub times : List Kill → List ℕ
  times [] = []
  times ((_, _, ktime) ∷ ks) = ktime ∷ times ks

  oom_events-le-admitted :
      (ks : List Kill) (s : S) → oom_events ks s ≤ admitted_in_map map cfg s (times ks)
  unfolding oom_events admitted_in_map kprobe_oom_kill_process
  oom_events-le-admitted [] s = omega arith
  oom_events-le-admitted ((oc, trigger, ktime) ∷ ks) s =
      ground (arith, oom_events-le-admitted ks (bpf_ratelimited_core_in_map map ktime cfg s).cell)

  -- From a fresh or a zeroed cell on, at most `n` times 1280000 OOM kills are reported in the
  -- `2 n` seconds from the second of the first on.
  pub oom_events-le :
      (oc : Option TaskStruct) (trigger : TaskStruct) (first last n : ℕ) (ks : List Kill) (s : S)
      → Models map cfg s cfg
      → All (Until last) (times ((oc, trigger, first) ∷ ks))
      → last < first / nsec_per_sec + n * 2
      → oom_events ((oc, trigger, first) ∷ ks) s ≤ n * 1280000
  oom_events-le oc trigger first last n ks s m h w =
      let bound = oom_events-le-admitted ((oc, trigger, first) ∷ ks) s in
      let same = admitted_in_map-eq-admitted map cfg s cfg (first ∷ times ks) (omega arith) m in
      let top =
        new-admitted-le 1 1280000 first last n (times ks) (omega arith) (omega arith) (omega arith)
          h.0.1 h (omega arith) in
      omega (arith, bound, same, top)
