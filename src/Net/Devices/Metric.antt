-- ===== src/Net/Devices/Metric.antt =====
-- core/metrics/netdev_hw.go: how user space makes the drops of the hardware out of the counts that
-- bpf/netdev_hw.c leaves in its map. The name of an interface is a number here.
use jidick.Base.{
  ℕ, ◌≡◌, refl, arith, ◌==◌, if◌then◌else◌, is_some, Bool, true, false, Option, none, some,
  Option-cases, Bool-cases, inl, inr, List, [], ◌∷◌, map, sub64,
}

-- An entry of the map.
pub record MapItem : Type 0 where
  pub ifidx : ℕ
  pub counter : ℕ

-- The two files of `/sys/class/net/<iface>/statistics` that are read; 0 where one cannot be.
pub record Statistics : Type 0 where
  pub rx_dropped : ℕ
  pub rx_missed_errors : ℕ

-- `map[string]uint64`
abbrev pub Counters : Type 0
Counters = ℕ → Option ℕ

-- `ifaceSwDropCounters: make(map[string]uint64)`
unfoldable pub new_counters : Counters
new_counters name = none

-- What `net.InterfaceByIndex` gives for an index, `none` for an error.
module _ (interface_by_index : ℕ → Option ℕ) where
  -- The loop of `updateIfaceSwDropCounter` over the entries, and whether it ends without an error.
  unfoldable pub store_counters : List MapItem → Counters → Counters × Bool
  store_counters [] c = (c, true)
  store_counters (v ∷ vs) c = elim (interface_by_index v.ifidx) [
    | none ↦ (c, false)
    | some name ↦
        store_counters vs
          (if is_some (c name) then (λ n. if n == name then some v.counter else c n) else c)
  ]

  -- What one call of `Update` is given: whether the tracer runs, the entries of the map or an error,
  -- and the files.
  pub record Round : Type 0 where
    pub is_tracer_running : Bool
    pub items : Option (List MapItem)
    pub read_stat : ℕ → Statistics

  -- The value of one interface.
  unfoldable pub hw_drops : Statistics → Option ℕ → ℕ
  hw_drops stats (some sw) =
      if stats.rx_missed_errors == 0 then sub64 stats.rx_dropped sw else stats.rx_missed_errors
  hw_drops stats none = stats.rx_missed_errors

  -- `Update`, with the values of the interfaces, if it returns any.
  unfoldable pub update : List ℕ → Round → Counters → Counters × Option (List ℕ)
  update iface_list r c =
      if r.is_tracer_running
      then elim r.items [
        | none ↦ (c, none)
        | some vs ↦
            let (c', ok) = store_counters vs c in
            (
              c',
              if ok
                  then some (map (λ name. hw_drops (r.read_stat name) (c' name)) iface_list)
                  else none,
            )
      ]
      else (c, none)

  unfoldable pub updates : List ℕ → List Round → Counters → Counters
  updates iface_list [] c = c
  updates iface_list (r ∷ rs) c = updates iface_list rs (update iface_list r c).0

  abbrev IsEmpty : Counters → Type 0
  IsEmpty c = (name : ℕ) → c name ≡ none

  store_counters-IsEmpty :
      (vs : List MapItem) (c : Counters) → IsEmpty c → IsEmpty (store_counters vs c).0
  unfolding store_counters
  store_counters-IsEmpty [] c h = h
  store_counters-IsEmpty (v ∷ vs) c h = elim (Option-cases (interface_by_index v.ifidx)) [
    | inl e ↦ rw (store_counters, e) h
    | inr (name, e) ↦ rw (store_counters, e, h name) (store_counters-IsEmpty vs c h)
  ]

  update-IsEmpty :
      (iface_list : List ℕ) (r : Round) (c : Counters)
      → IsEmpty c
      → IsEmpty (update iface_list r c).0
  unfolding update
  update-IsEmpty iface_list r c h = elim (Bool-cases r.is_tracer_running) [
    | inl on ↦ elim (Option-cases r.items) [
      | inl e ↦ rw (on, e) h
      | inr (vs, e) ↦ rw (on, e) (store_counters-IsEmpty vs c h)
    ]
    | inr off ↦ rw off h
  ]

  updates-IsEmpty :
      (iface_list : List ℕ) (rs : List Round) (c : Counters)
      → IsEmpty c
      → IsEmpty (updates iface_list rs c)
  unfolding updates
  updates-IsEmpty iface_list [] c h = h
  updates-IsEmpty iface_list (r ∷ rs) c h =
      updates-IsEmpty iface_list rs (update iface_list r c).0 (update-IsEmpty iface_list r c h)

  missed :
      (names : List ℕ) (r : Round) (c : Counters)
      → IsEmpty c
      → map (λ name. hw_drops (r.read_stat name) (c name)) names
        ≡ map (λ name. (r.read_stat name).rx_missed_errors) names
  unfolding hw_drops
  missed [] r c h = refl
  missed (name ∷ names) r c h = rw (h name, missed names r c h) refl

  -- Whatever the map held in the rounds before, the values that `Update` returns are the
  -- `rx_missed_errors` of the interfaces alone: the drops that the program counted are never stored,
  -- since only a counter that is stored already is replaced.
  pub update-rx_missed_errors :
      (iface_list : List ℕ) (before : List Round) (r : Round) (values : List ℕ)
      → (update iface_list r (updates iface_list before new_counters)).1 ≡ some values
      → values ≡ map (λ name. (r.read_stat name).rx_missed_errors) iface_list
  unfolding update new_counters
  update-rx_missed_errors iface_list before r values out =
      let c = updates iface_list before new_counters in
      let empty = updates-IsEmpty iface_list before new_counters (λ name. refl) in
      elim (Option-cases r.items) [
        | inl e ↦ ground (arith, e, out)
        | inr (vs, e) ↦
            let all_missed =
              missed iface_list r (store_counters vs c).0 (store_counters-IsEmpty vs c empty) in
            grind (arith, e, out, all_missed)
      ]
