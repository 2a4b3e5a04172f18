-- ===== src/Runqlat/Race.antt =====
-- Several CPUs that count a switch for one group at once, in `sched_switch_entry` of
-- bpf/runqlat_tracing.c: one helper call or atomic addition at a time, in the order of the source.
-- The group is not freed meanwhile.
use jidick.Base.{
  ℕ, ◌+◌, ◌≡◌, arith, Bool, true, false, none, some, List, [], ◌∷◌, add64, Option-cases, inl, inr,
}
use jidick.Kernel.BpfMap.{BpfMap, nat_eq, bpf_noexist}
use jidick.Kernel.Laws.{entry_or, lookup-store_self}
use jidick.Kernel.Cpus.{Step, Steps, here, there, done, step}
use jidick.Runqlat.{StatT, new_stat, add_switch}

-- Where a CPU stands, with its local `is_voluntary`.
pub data Pc : Type 0 where
  look : (is_voluntary : Bool) → Pc  -- `entry = bpf_map_lookup_elem(…)`
  create : (is_voluntary : Bool) → Pc  -- `bpf_map_update_elem(…, &new_stat, COMPAT_BPF_NOEXIST)`
  look_again : (is_voluntary : Bool) → Pc
  add : (is_voluntary : Bool) → Pc  -- `__sync_fetch_and_add(…)`
  counted : (is_voluntary : Bool) → Pc
  refused : Pc  -- `return 0`

module _ {T : Type 0} (tg : BpfMap T ℕ StatT nat_eq) (key : ℕ) where
  -- One step of one CPU.
  pub data Move (t : T) : Pc → T → Pc → Type 0 where
    hit : {v : Bool} {e : StatT} → tg.lookup t key ≡ some e → Move t (look v) t (add v)
    miss : {v : Bool} → tg.lookup t key ≡ none → Move t (look v) t (create v)
    insert : {v : Bool} → Move t (create v) (tg.update t key new_stat bpf_noexist) (look_again v)
    hit_again : {v : Bool} {e : StatT} → tg.lookup t key ≡ some e → Move t (look_again v) t (add v)
    miss_again : {v : Bool} → tg.lookup t key ≡ none → Move t (look_again v) t refused
    count :
        {v : Bool} (e : StatT)
        → tg.lookup t key ≡ some e
        → Move t (add v) (tg.store t key (add_switch v e)) (counted v)

-- Whether a CPU has counted a switch of the one or the other kind, and how many have.
abbrev switched : Bool → Pc → ℕ
switched true (counted true) = 1
switched false (counted false) = 1
switched _ _ = 0

abbrev pub switches : Bool → List Pc → ℕ
switches v [] = 0
switches v (p ∷ ps) = switched v p + switches v ps

-- The counter of the kind.
abbrev pub counter : Bool → StatT → ℕ
counter true e = e.nvcsw
counter false e = e.nivcsw

module _ {T : Type 0} (tg : BpfMap T ℕ StatT nat_eq) (key : ℕ) where
  -- The group's counter; a group without an entry has counted nothing.
  abbrev pub tally : Bool → T → ℕ
  tally v t = counter v (entry_or tg t key new_stat)

  -- A new entry for a group that has one is refused, and one for a group that has none is zero.
  tally-insert : (v : Bool) (t : T) → tally v (tg.update t key new_stat bpf_noexist) ≡ tally v t
  tally-insert v t = elim (Option-cases (tg.lookup t key)) [
    | inl e ↦ rw (tg.lookup-update t key new_stat bpf_noexist key, e) (ground arith)
    | inr (old, e) ↦
        rw (tg.lookup-update t key new_stat bpf_noexist key, tg.refuses-noexist t key old e, e)
          (ground arith)
  ]

  Move-tally :
      (v : Bool) {t t' : T} {p p' : Pc}
      → Move tg key t p t' p'
      → add64 (tally v t') (switched v p) ≡ add64 (tally v t) (switched v p')
  unfolding add_switch
  Move-tally v (hit h) = ground arith
  Move-tally v (miss h) = ground arith
  Move-tally v {t} insert = rw (tally-insert v t) (ground arith)
  Move-tally v (hit_again h) = ground arith
  Move-tally v (miss_again h) = ground arith
  Move-tally v {t} (count {v = w} e h) =
      rw (h, lookup-store_self tg t key (add_switch w e) e h) (ground arith)

  Step-tally :
      (v : Bool) {t t' : T} {ps ps' : List Pc}
      → Step (Move tg key) t ps t' ps'
      → add64 (tally v t') (switches v ps) ≡ add64 (tally v t) (switches v ps')
  Step-tally v (here m) = omega (arith, Move-tally v m)
  Step-tally v (there s) = omega (arith, Step-tally v s)

  -- However the CPUs interleave, each counter of the group grows by the number of CPUs that have
  -- counted a switch of its kind since: no count is lost when several of them create the entry.
  pub Steps-tally :
      (v : Bool) {t₀ : T} {ps₀ : List Pc} {t : T} {ps : List Pc}
      → Steps (Move tg key) t₀ ps₀ t ps
      → add64 (tally v t) (switches v ps₀) ≡ add64 (tally v t₀) (switches v ps)
  Steps-tally v done = omega arith
  Steps-tally v (step r s) = omega (arith, Steps-tally v r, Step-tally v s)
