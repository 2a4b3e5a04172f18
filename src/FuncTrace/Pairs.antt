-- ===== src/FuncTrace/Pairs.antt =====
-- Pairs of `func_trace_begain` and `func_trace_end` of bpf/include/bpf_func_trace.h, while other
-- threads use the same map.
use jidick.Base.{
  ℕ, ◌≡◌, ◌≢◌, refl, ◌∙◌, true, List, [], ◌∷◌, none, some, arith, All, sub64, Option-cases, inl,
  inr,
}
use jidick.Kernel.BpfMap.{BpfMap, nat_eq, bpf_any}
use jidick.Kernel.Laws.{lookup-update_self, lookup-delete_self, lookup-store_self}
use jidick.FuncTrace.{
  TraceEntryCtx, Call, begain, finish, destroy, id_of, func_trace_begain, func_trace_end,
  func_trace_destroy, call, calls,
}

module _ {S : Type 0} (map : BpfMap S ℕ TraceEntryCtx nat_eq) where
  lookup-end :
      (s : S) (id ktime j : ℕ)
      → id ≢ j
      → map.lookup (func_trace_end map id ktime s).0 j ≡ map.lookup s j
  unfolding func_trace_end
  lookup-end s id ktime j apart = elim (Option-cases (map.lookup s id)) [
    | inl e ↦ rw (e, func_trace_end)
    | inr (entry, e) ↦
        let entry' = record entry { delta_ns = sub64 ktime entry.start_ns } in
        rw (e, func_trace_end) (ground (arith, map.lookup-store s id entry' entry j e))
  ]

  lookup-call :
      (c : Call) (s : S) (j : ℕ) → id_of c ≢ j → map.lookup (call map c s) j ≡ map.lookup s j
  unfolding call
  lookup-call (begain id ktime) s j apart =
      ground (
        arith,
        map.lookup-update s id (record { id = id; start_ns = ktime; delta_ns = 0 }) bpf_any j,
      )
  lookup-call (finish id ktime) s j apart = lookup-end s id ktime j apart
  lookup-call (destroy id) s j apart = ground (arith, map.lookup-delete s id j)

  -- Calls for other threads leave a thread's entry alone.
  pub lookup-calls :
      (cs : List Call) (s : S) (j : ℕ)
      → All (λ c. id_of c ≢ j) cs
      → map.lookup (calls map cs s) j ≡ map.lookup s j
  unfolding calls
  lookup-calls [] s j h = refl
  lookup-calls (c ∷ cs) s j h = lookup-calls cs (call map c s) j h.1 ∙ lookup-call c s j h.0

  pub lookup-begain :
      (id ktime : ℕ) (s : S)
      → map.accepts s id bpf_any ≡ true
      → map.lookup (func_trace_begain map id ktime s) id
        ≡ some (record { id = id; start_ns = ktime; delta_ns = 0 })
  unfolding func_trace_begain
  lookup-begain id ktime s room = lookup-update_self map s id _ bpf_any room

  pub lookup-destroy : (id : ℕ) (s : S) → map.lookup (func_trace_destroy map id s) id ≡ none
  unfolding func_trace_destroy
  lookup-destroy id s = lookup-delete_self map s id

  -- The entry and the return of a thread give its id and the time between them, modulo 2 ^ 64,
  -- whatever the map held for it before and whatever other threads do in between, if the map took
  -- the entry; the time is also left in the map.
  pub end-begain :
      (id start now : ℕ) (cs : List Call) (s : S)
      → map.accepts s id bpf_any ≡ true
      → All (λ c. id_of c ≢ id) cs
      → let entry : TraceEntryCtx = record {
        id = id;
        start_ns = start;
        delta_ns = sub64 now start;
      } in
        let (s', returned) =
          func_trace_end map id now (calls map cs (func_trace_begain map id start s)) in
        (returned ≡ some entry) × (map.lookup s' id ≡ some entry)
  unfolding func_trace_end
  end-begain id start now cs s room apart =
      let begun = func_trace_begain map id start s in
      let e = lookup-calls cs begun id apart ∙ lookup-begain id start s room in
      rw (e, func_trace_end) (refl, lookup-store_self map (calls map cs begun) id _ _ e)

  -- A return with no entry in the map, and one after the entry was destroyed, gives nothing and
  -- changes nothing.
  pub end-destroy :
      (id now : ℕ) (cs : List Call) (s : S)
      → All (λ c. id_of c ≢ id) cs
      → let s' = calls map cs (func_trace_destroy map id s) in
        func_trace_end map id now s' ≡ (s', none)
  unfolding func_trace_end
  end-destroy id now cs s apart =
      let e = lookup-calls cs (func_trace_destroy map id s) id apart ∙ lookup-destroy id s in
      rw (e, func_trace_end)
