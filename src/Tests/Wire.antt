-- ===== src/Tests/Wire.antt =====
-- The structs that user space reads, at concrete values.
use jidick.Base.{ℕ, ◌≡◌, refl, arith, some, List, [], ◌∷◌, length, replicate}
use jidick.Wire.{c_value, go_read, sizeof, end_of, alignment, padding}
use jidick.Wire.Structs.{hungtask_infos, c_struct, go_struct, perf_key, drop_event}
use jidick.Wire.Tracepoints.{offset_of, softirq_record, sched_wakeup_template, kfree_skb}
use jidick.Wire.RoundTrip.{go_read-c_struct}

-- A process and its name; the bytes of the memory around them are 0xff.
abbrev hung : List (List ℕ)
hung = (7 ∷ []) ∷ (115 ∷ 104 ∷ replicate 14 0) ∷ []

go_read-c_struct_example :
    (go_read (go_struct hungtask_infos) (c_value (λ _. 0xff) (c_struct hungtask_infos) hung)
      ≡ some hung)
    × (length (c_value (λ _. 0xff) (c_struct hungtask_infos) hung)
        ≡ sizeof (c_struct hungtask_infos))
unfolding replicate
go_read-c_struct_example = go_read-c_struct hungtask_infos hung (λ _. 0xff) (ground arith)

-- Padded to the alignment of its numbers: 356 bytes are members.
sizeof-perf_key : sizeof perf_key ≡ 360
unfolding sizeof end_of alignment padding
sizeof-perf_key = refl

sizeof-drop_event : sizeof drop_event ≡ 1088
unfolding sizeof end_of alignment padding
sizeof-drop_event = refl

-- Where the kernel's `format` files put the members that the programs read.
offset_of-vec : offset_of softirq_record 4 0 ≡ 8
unfolding offset_of padding
offset_of-vec = refl

offset_of-wakeup_pid : offset_of sched_wakeup_template 5 0 ≡ 24
unfolding offset_of padding
offset_of-wakeup_pid = refl

offset_of-protocol : offset_of kfree_skb 6 0 ≡ 24
unfolding offset_of padding
offset_of-protocol = refl
