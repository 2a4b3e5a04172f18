-- ===== src/Kernel/Laws.antt =====
-- What the assumptions on the kernel's maps say at the key that is written and at the others.
use jidick.Base.{
  true, none, some, ◌≡◌, ◌≢◌, refl, arith, Option-cases, Bool-cases, ap, sym, inl, inr, get_or, ◌∙◌,
}
use jidick.Kernel.BpfMap.{Eq, BpfMap, UpdateFlag, bpf_any, bpf_noexist, modify, lookup_or_init}

module _ {S K V : Type 0} {e : Eq K} (map : BpfMap S K V e) (s : S) (k : K) where
  pub lookup-update_self :
      (v : V) (f : UpdateFlag)
      → map.accepts s k f ≡ true
      → map.lookup (map.update s k v f) k ≡ some v
  lookup-update_self v f h = ground (arith, map.lookup-update s k v f k, e.same_iff k k)

  pub lookup-update_refused :
      (v : V) (f : UpdateFlag) (j : K)
      → map.accepts s k f ≢ true
      → map.lookup (map.update s k v f) j ≡ map.lookup s j
  lookup-update_refused v f j h = ground (arith, map.lookup-update s k v f j)

  pub lookup-update_ne :
      (v : V) (f : UpdateFlag) (j : K) → k ≢ j → map.lookup (map.update s k v f) j ≡ map.lookup s j
  lookup-update_ne v f j h = ground (arith, map.lookup-update s k v f j, e.same_iff k j)

  pub lookup-delete_self : map.lookup (map.delete s k) k ≡ none
  lookup-delete_self = ground (arith, map.lookup-delete s k k, e.same_iff k k)

  pub lookup-delete_ne : (j : K) → k ≢ j → map.lookup (map.delete s k) j ≡ map.lookup s j
  lookup-delete_ne j h = ground (arith, map.lookup-delete s k j, e.same_iff k j)

  pub lookup-store_self :
      (v w : V) → map.lookup s k ≡ some w → map.lookup (map.store s k v) k ≡ some v
  lookup-store_self v w h = ground (arith, map.lookup-store s k v w k h, e.same_iff k k)

  lookup-store_ne :
      (v w : V) (j : K)
      → map.lookup s k ≡ some w
      → k ≢ j
      → map.lookup (map.store s k v) j ≡ map.lookup s j
  lookup-store_ne v w j h apart = ground (arith, map.lookup-store s k v w j h, e.same_iff k j)

module _ {S K V : Type 0} {eq : Eq K} (map : BpfMap S K V eq) (s : S) (k : K) where
  -- The value under a key, or the one that the program would insert.
  abbrev pub entry_or : V → V
  entry_or fresh = get_or (map.lookup s k) fresh

  -- Where the map has the key or room for it, the pointer is found, to the old or the fresh value,
  -- and the other keys are left alone.
  pub lookup_or_init-found :
      (fresh : V)
      → map.accepts s k bpf_any ≡ true
      → let (s', found) = lookup_or_init map s k fresh in
        (found ≡ true)
        × (map.lookup s' k ≡ some (entry_or fresh))
        × ((j : K) → k ≢ j → map.lookup s' j ≡ map.lookup s j)
  unfolding lookup_or_init
  lookup_or_init-found fresh room = elim (Option-cases (map.lookup s k)) [
    | inr (v, e) ↦ rw (e, lookup_or_init) (refl, e, λ j _. refl)
    | inl e ↦
        let takes = map.accepts-noexist s k e ∙ room in
        let there = lookup-update_self map s k fresh bpf_noexist takes in
        rw (e, lookup_or_init, there)
          (refl, refl, λ j apart. lookup-update_ne map s k fresh bpf_noexist j apart)
  ]

  pub lookup_or_init-present :
      (fresh v : V) → map.lookup s k ≡ some v → lookup_or_init map s k fresh ≡ (s, true)
  unfolding lookup_or_init
  lookup_or_init-present fresh v e = rw (e, lookup_or_init)

  -- Whether the pointer is found or not, no entry changes, where a missing one reads as fresh.
  pub lookup_or_init-entry :
      (fresh : V) (j : K)
      → get_or (map.lookup (lookup_or_init map s k fresh).0 j) fresh ≡ get_or (map.lookup s j) fresh
  unfolding lookup_or_init
  lookup_or_init-entry fresh j = elim (Option-cases (map.lookup s k)) [
    | inr (v, e) ↦ rw (e, lookup_or_init)
    | inl e ↦
        rw (e, lookup_or_init)
          (elim (Bool-cases (eq.same k j)) [
            | inr apart ↦ ground (arith, map.lookup-update s k fresh bpf_noexist j)
            | inl same ↦
                let missing : map.lookup s j ≡ none =
                  ap (map.lookup s) (sym ((eq.same_iff k j).0 same)) ∙ e in
                rw missing (ground (arith, map.lookup-update s k fresh bpf_noexist j))
          ])
  ]

  -- A pointer that is found is to the entry that was there, or to the fresh one.
  pub lookup_or_init-there :
      (fresh : V)
      → (lookup_or_init map s k fresh).1 ≡ true
      → map.lookup (lookup_or_init map s k fresh).0 k ≡ some (entry_or fresh)
  unfolding lookup_or_init
  lookup_or_init-there fresh found = ground (
    arith,
    Option-cases (map.lookup s k),
    Option-cases (map.lookup (map.update s k fresh bpf_noexist) k),
    lookup_or_init-entry fresh k,
  )

  -- A change through the pointer changes its own entry alone.
  pub lookup-modify_self :
      (f : V → V) (v : V) → map.lookup s k ≡ some v → map.lookup (modify map s k f) k ≡ some (f v)
  unfolding modify
  lookup-modify_self f v e = rw (e, modify) (lookup-store_self map s k (f v) v e)

  pub lookup-modify_ne :
      (f : V → V) (j : K) → k ≢ j → map.lookup (modify map s k f) j ≡ map.lookup s j
  unfolding modify
  lookup-modify_ne f j apart = elim (Option-cases (map.lookup s k)) [
    | inl e ↦ rw (e, modify)
    | inr (v, e) ↦ rw (e, modify) (lookup-store_ne map s k (f v) v j e apart)
  ]
