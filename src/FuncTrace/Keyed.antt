-- ===== src/FuncTrace/Keyed.antt =====
-- Which id the entries of `func_trace_map` of bpf/include/bpf_func_trace.h hold: the programs destroy
-- an entry by the id in it.
use jidick.Base.{
  ℕ, ◌≡◌, ◌∙◌, arith, List, [], ◌∷◌, Option, none, some, sub64, ==_iff, Option-cases, Bool-cases,
  inl, inr, ◌==◌,
}
use jidick.Kernel.BpfMap.{BpfMap, nat_eq, bpf_any}
use jidick.FuncTrace.{
  TraceEntryCtx, Call, begain, finish, destroy, func_trace_begain, func_trace_end,
  func_trace_destroy, call, calls,
}

-- The entry, if there is one, holds the id.
abbrev pub HoldsId : ℕ → Option TraceEntryCtx → Type 0
HoldsId k none = Unit
HoldsId k (some e) = e.id ≡ k

module _ {S : Type 0} (map : BpfMap S ℕ TraceEntryCtx nat_eq) where
  abbrev pub IsKeyed : S → Type 0
  IsKeyed s = (k : ℕ) → HoldsId k (map.lookup s k)

  pub IsKeyed-begain : (id t : ℕ) (s : S) → IsKeyed s → IsKeyed (func_trace_begain map id t s)
  unfolding func_trace_begain
  IsKeyed-begain id t s h k =
      let fresh : TraceEntryCtx = record { id = id; start_ns = t; delta_ns = 0 } in
      ground (arith, h k, map.lookup-update s id fresh bpf_any k, ==_iff id k)

  pub IsKeyed-end : (id t : ℕ) (s : S) → IsKeyed s → IsKeyed (func_trace_end map id t s).0
  unfolding func_trace_end
  IsKeyed-end id t s h k = elim (Option-cases (map.lookup s id)) [
    | inl a ↦ rw (a, func_trace_end) (h k)
    | inr (old, a) ↦
        let entry = record old { delta_ns = sub64 t old.start_ns } in
        let got : HoldsId id (map.lookup s id) = h id in
        let own : old.id ≡ id = rw a at got in
        rw (a, func_trace_end, map.lookup-store s id entry old k a)
          (elim (Bool-cases (id == k)) [
            | inl e ↦ rw e (own ∙ (==_iff id k).0 e)
            | inr e ↦ rw e (h k)
          ])
  ]

  pub IsKeyed-destroy : (id : ℕ) (s : S) → IsKeyed s → IsKeyed (func_trace_destroy map id s)
  unfolding func_trace_destroy
  IsKeyed-destroy id s h k = ground (arith, h k, map.lookup-delete s id k)

  IsKeyed-call : (c : Call) (s : S) → IsKeyed s → IsKeyed (call map c s)
  unfolding call
  IsKeyed-call (begain id t) s h = IsKeyed-begain id t s h
  IsKeyed-call (finish id t) s h = IsKeyed-end id t s h
  IsKeyed-call (destroy id) s h = IsKeyed-destroy id s h

  -- Every sequence of calls keeps each entry under the id that it holds.
  pub IsKeyed-calls : (cs : List Call) (s : S) → IsKeyed s → IsKeyed (calls map cs s)
  unfolding calls
  IsKeyed-calls [] s h = h
  IsKeyed-calls (c ∷ cs) s h = IsKeyed-calls cs (call map c s) (IsKeyed-call c s h)

  -- The entry that is handed back holds the id that was asked for.
  pub HoldsId-end : (id t : ℕ) (s : S) → IsKeyed s → HoldsId id (func_trace_end map id t s).1
  unfolding func_trace_end
  HoldsId-end id t s h = elim (Option-cases (map.lookup s id)) [
    | inl a ↦ rw (a, func_trace_end) tt
    | inr (old, a) ↦
        let got : HoldsId id (map.lookup s id) = h id in rw (a, func_trace_end) (rw a at got)
  ]
