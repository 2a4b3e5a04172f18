-- ===== src/FuncTrace.antt =====
-- bpf/include/bpf_func_trace.h: time spent in a kernel function, from its entry to its return, by
-- the id of the thread. The memory programs share it.
pub mod Pairs
pub mod Keyed
use jidick.Base.{ℕ, Option, none, some, List, [], ◌∷◌, sub64}
use jidick.Kernel.BpfMap.{BpfMap, nat_eq, bpf_any}

-- `struct trace_entry_ctx`
pub record TraceEntryCtx : Type 0 where
  pub id : ℕ
  pub start_ns : ℕ
  pub delta_ns : ℕ

-- The calls that the programs make.
pub data Call : Type 0 where
  begain : (id ktime : ℕ) → Call
  finish : (id ktime : ℕ) → Call
  destroy : (id : ℕ) → Call

abbrev pub id_of : Call → ℕ
id_of (begain id _) = id
id_of (finish id _) = id
id_of (destroy id) = id

-- `func_trace_map` is `map`.
module _ {S : Type 0} (map : BpfMap S ℕ TraceEntryCtx nat_eq) where
  unfoldable pub func_trace_begain : ℕ → ℕ → S → S
  func_trace_begain id ktime s =
      map.update s id (record { id = id; start_ns = ktime; delta_ns = 0 }) bpf_any

  -- The entry is changed in the map, and the pointer to it is returned.
  unfoldable pub func_trace_end : ℕ → ℕ → S → S × Option TraceEntryCtx
  func_trace_end id ktime s = elim (map.lookup s id) [
    | none ↦ (s, none)
    | some entry ↦
        let entry' = record entry { delta_ns = sub64 ktime entry.start_ns } in
        (map.store s id entry', some entry')
  ]

  unfoldable pub func_trace_destroy : ℕ → S → S
  func_trace_destroy id s = map.delete s id

  unfoldable pub call : Call → S → S
  unfolding func_trace_begain func_trace_end func_trace_destroy
  call (begain id ktime) s = func_trace_begain id ktime s
  call (finish id ktime) s = (func_trace_end id ktime s).0
  call (destroy id) s = func_trace_destroy id s

  unfoldable pub calls : List Call → S → S
  calls [] s = s
  calls (c ∷ cs) s = calls cs (call c s)
