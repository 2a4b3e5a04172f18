-- ===== src/Ratelimit/MapAlone.antt =====
-- A CPU that has the cell of `bpf_ratelimited_core_in_map` of bpf/include/bpf_ratelimit.h to
-- itself: the accesses of `MapRace`, one after the other, against the function.
use jidick.Base.{
  ℕ, arith, List, [], ◌∷◌, map, Bool, true, false, Bool-cases, inl, inr, ◌==◌, some, none,
  if◌then◌else◌, ◌&&◌,
}
use jidick.Ratelimit.{BpfRatelimit, bpf_ratelimited, init_from_cfg, notifies, ratelimited_cell}
use jidick.Kernel.Cpus.{Step, Steps, here, there, done, step, append}
use jidick.Ratelimit.Race
use jidick.Ratelimit.Race.{Pc, idle, returned}
use jidick.Ratelimit.Alone.{bpf_ratelimited-Steps}
use jidick.Ratelimit.MapRace.{
  outside, inside, read_nmissed, map_returned, call_zeroed, call_set, init_interval, init_burst,
  init_max_burst, keep_nmissed, limiter, within, exceeded, notify, MapMove,
}

module _ (cfg : BpfRatelimit) (old : ℕ) where
  inside-Step :
      {r r' : BpfRatelimit} {ps ps' : List Pc}
      → Step Race.Move r ps r' ps'
      → Step (MapMove cfg) r (map (inside old) ps) r' (map (inside old) ps')
  inside-Step (here m) = here (limiter m)
  inside-Step (there st) = there (inside-Step st)

  inside-Steps :
      {r : BpfRatelimit} {ps : List Pc} {r' : BpfRatelimit} {ps' : List Pc}
      → Steps Race.Move r ps r' ps'
      → Steps (MapMove cfg) r (map (inside old) ps) r' (map (inside old) ps')
  inside-Steps done = done
  inside-Steps (step before st) = step (inside-Steps before) (inside-Step st)

  -- After the limiter's verdict.
  answer-Steps :
      (r : BpfRatelimit) (limited : Bool)
      → Steps
          (MapMove cfg)
          r
          (inside old (returned limited) ∷ [])
          r
          (map_returned limited (if limited && notifies old r then some r else none) ∷ [])
  answer-Steps r false = step done (here within)
  answer-Steps r true = step (step done (here exceeded)) (here notify)

-- `// init from cfg`
init_from_cfg-Steps :
    (cfg cell : BpfRatelimit)
    → Steps (MapMove cfg) cell (outside ∷ []) (init_from_cfg cfg cell) (read_nmissed ∷ [])
unfolding init_from_cfg
init_from_cfg-Steps cfg cell = elim (Bool-cases (cell.interval == 0)) [
  | inl e ↦ rw e (
      step
        (step (step (step done (here (call_zeroed (ground arith)))) (here init_interval))
          (here init_burst))
        (here init_max_burst))
  | inr e ↦ rw e (step done (here (call_set (ground arith))))
]

-- The accesses of one CPU, with no other one in between, take the cell to where the function takes
-- it, and the CPU returns what the function returns and sends what it sends.
ratelimited_cell-Steps :
    (ktime : ℕ) (cfg cell : BpfRatelimit)
    → let v = ratelimited_cell ktime cfg cell in
      Steps (MapMove cfg) cell (outside ∷ []) v.cell (map_returned v.limited v.notice ∷ [])
unfolding ratelimited_cell
ratelimited_cell-Steps ktime cfg cell =
    let rate = init_from_cfg cfg cell in
    let (rate', limited) = bpf_ratelimited ktime rate in
    append
      (append (step (init_from_cfg-Steps cfg cell) (here keep_nmissed))
        (inside-Steps cfg rate.nmissed (bpf_ratelimited-Steps ktime rate)))
      (answer-Steps cfg rate.nmissed rate' limited)
