-- ===== src/Kernel/InsertRace.antt =====
-- Several CPUs in the update of one entry that bpf/memory_reclaim.c, bpf/memory_free_compact.c and
-- bpf/perf.c share: look the entry up, and insert it with COMPAT_BPF_ANY or add to it, one helper
-- call or addition at a time, in the order of the source.
use jidick.Base.{◌≡◌, true, none, some, List, [], ◌∷◌, map}
use jidick.Kernel.BpfMap.{Eq, BpfMap, bpf_any}
use jidick.Kernel.Laws.{lookup-update_self}
use jidick.Kernel.Cpus.{Steps, here, done, step, append, others}

-- Where a CPU stands, with what it has to add.
pub data Pc (I : Type 0) : Type 0 where
  look : I → Pc I  -- `valp = bpf_map_lookup_elem(…)`
  insert : I → Pc I  -- `bpf_map_update_elem(…, COMPAT_BPF_ANY)`
  add : I → Pc I  -- `__sync_fetch_and_add(…)`
  left : Pc I

-- `first i` is the entry that an insertion leaves, and `count i` the addition.
module _ {S K V I : Type 0} {e : Eq K} (store : BpfMap S K V e) (key : K) (first : I → V)
    (count : I → V → V) where
  -- One step of one CPU.
  pub data Move (s : S) : Pc I → S → Pc I → Type 0 where
    hit : {i : I} {v : V} → store.lookup s key ≡ some v → Move s (look i) s (add i)
    miss : {i : I} → store.lookup s key ≡ none → Move s (look i) s (insert i)
    first_entry : {i : I} → Move s (insert i) (store.update s key (first i) bpf_any) left
    addition :
        {i : I} {v : V}
        → store.lookup s key ≡ some v
        → Move s (add i) (store.store s key (count i v)) left

  all_miss :
      (is : List I) (s : S)
      → store.lookup s key ≡ none
      → Steps Move s (map look is) s (map insert is)
  all_miss [] s none_there = done
  all_miss (i ∷ is) s none_there =
      append (others (look i) (all_miss is s none_there)) (step done (here (miss none_there)))

  all_insert :
      (is : List I) (s : S)
      → store.accepts s key bpf_any ≡ true
      → (s' : S) × Steps Move s (map insert is) s' (map (λ _. left) is)
        × (store.accepts s' key bpf_any ≡ true)
  all_insert [] s room = (s, done, room)
  all_insert (i ∷ is) s room =
      let (s', inserted, room') = all_insert is s room in
      let there' = lookup-update_self store s' key (first i) bpf_any room' in
      (
        store.update s' key (first i) bpf_any,
        append (others (insert i) inserted) (step done (here first_entry)),
        store.accepts-any _ key (first i) there',
      )

  -- Any number of CPUs can find no entry, insert theirs and return, and only that of one is left.
  pub lost_updates :
      (i : I) (is : List I) (s : S)
      → store.lookup s key ≡ none
      → store.accepts s key bpf_any ≡ true
      → (s' : S) × Steps Move s (map look (i ∷ is)) s' (map (λ _. left) (i ∷ is))
        × (store.lookup s' key ≡ some (first i))
  lost_updates i is s none_there room =
      let (s', inserted, room') = all_insert is s room in
      (
        store.update s' key (first i) bpf_any,
        append (all_miss (i ∷ is) s none_there)
            (append (others (insert i) inserted) (step done (here first_entry))),
        lookup-update_self store s' key (first i) bpf_any room',
      )
