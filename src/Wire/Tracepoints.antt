-- ===== src/Wire/Tracepoints.antt =====
-- The records that the kernel's trace points hand to bpf/*.c, and where a member of one lies. A
-- signed member and a pointer are numbers of their size; the empty array at the end is left out.
use jidick.Base.{ℕ, ◌+◌, ◌*◌, zero, suc, List, [], ◌∷◌, ◌++◌}
use jidick.Wire.{Field, padding}
use jidick.Wire.Structs.{u8, u16, u32, u64, comm}

-- `struct trace_entry`, in front of each of the records
abbrev pub trace_entry : List Field
trace_entry = u16 ∷ u8 ∷ u8 ∷ u32 ∷ []

-- `struct trace_event_raw_kfree_skb`, of bpf/dropwatch.c
abbrev pub kfree_skb : List Field
kfree_skb = trace_entry ++ u64 ∷ u64 ∷ u16 ∷ []

-- `struct trace_event_raw_sched_process_hang`, of bpf/hungtask.c
abbrev sched_process_hang : List Field
sched_process_hang = trace_entry ++ comm ∷ u32 ∷ []

-- `struct trace_event_raw_net_dev_template`, of bpf/netrecvlat.c
abbrev net_dev_template : List Field
net_dev_template = trace_entry ++ u64 ∷ u32 ∷ u32 ∷ []

-- `struct trace_event_raw_skb_copy_datagram_iovec`, of bpf/netrecvlat.c
abbrev copy_datagram_iovec : List Field
copy_datagram_iovec = trace_entry ++ u64 ∷ u32 ∷ []

-- `struct trace_event_raw_sched_wakeup_template`, of bpf/runqlat_tracing.c
abbrev pub sched_wakeup_template : List Field
sched_wakeup_template = trace_entry ++ comm ∷ u32 ∷ u32 ∷ u32 ∷ u32 ∷ []

-- `struct trace_event_raw_softirq`, of bpf/softirq.c
abbrev pub softirq_record : List Field
softirq_record = trace_entry ++ u32 ∷ []

-- `struct trace_event_raw_tick_stop`, of bpf/softirq_tracing.c
abbrev tick_stop_record : List Field
tick_stop_record = trace_entry ++ u32 ∷ u32 ∷ []

-- The offset of the member at a place.
unfoldable pub offset_of : List Field → (place : ℕ) → (from : ℕ) → ℕ
unfolding padding
offset_of [] place from = from
offset_of (f ∷ fs) zero from = from + padding f.width from
offset_of (f ∷ fs) (suc place) from =
    offset_of fs place (from + padding f.width from + f.width * f.count)
