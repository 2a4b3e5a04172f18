-- ===== src/Runqlat/PidNamespace.antt =====
-- bpf/runqlat_tracing.c as it is built without TG_ADDR_KEY, which the file defines: the groups are
-- PID namespaces, by their number.
use jidick.Base.{ℕ, ◌≡◌, none, is_some, if◌then◌else◌, Option-cases, inl, inr}
use jidick.Kernel.BpfMap.{BpfMap, nat_eq}
use jidick.Kernel.Laws.{lookup-delete_self}
use jidick.Runqlat.{StatT, Maps}

module _ {L T H : Type 0} (tg : BpfMap T ℕ StatT nat_eq) where
  -- `inum` is `ns->ns.inum`.
  unfoldable destroy_pid_namespace_entry : (inum : ℕ) → Maps L T H → Maps L T H
  destroy_pid_namespace_entry inum m =
      if is_some (tg.lookup m.cpu_tg_metric inum)
      then record m { cpu_tg_metric = tg.delete m.cpu_tg_metric inum }
      else m

  -- Afterwards there is no entry of the namespace.
  destroy_pid_namespace_entry_lem :
      (inum : ℕ) (m : Maps L T H)
      → tg.lookup (destroy_pid_namespace_entry inum m).cpu_tg_metric inum ≡ none
  unfolding destroy_pid_namespace_entry
  destroy_pid_namespace_entry_lem inum m = elim (Option-cases (tg.lookup m.cpu_tg_metric inum)) [
    | inl e ↦ rw e e
    | inr (v, e) ↦ rw e (lookup-delete_self tg m.cpu_tg_metric inum)
  ]
