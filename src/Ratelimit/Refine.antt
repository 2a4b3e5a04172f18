-- ===== src/Ratelimit/Refine.antt =====
-- `bpf_ratelimited_core_in_map` of bpf/include/bpf_ratelimit.h, over a map, against the limiter that
-- `bpf_ratelimited` is over a variable.
use jidick.Base.{ℕ, ◌<◌, ◌≡◌, refl, ◌∙◌, ap, List, [], ◌∷◌, arith, some, if◌then◌else◌, ◌==◌}
use jidick.Kernel.BpfMap.{BpfMap, nat_eq}
use jidick.Ratelimit.{
  BpfRatelimit, bpf_ratelimited, init_from_cfg, ratelimited_cell, bpf_ratelimited_core_in_map,
  admitted, admitted_in_map,
}

ratelimited_cell-init :
    (cfg cell : BpfRatelimit) (t : ℕ)
    → 0 < cfg.interval
    → ((ratelimited_cell t cfg cell).cell ≡ (bpf_ratelimited t (init_from_cfg cfg cell)).0)
      × ((ratelimited_cell t cfg cell).limited ≡ (bpf_ratelimited t (init_from_cfg cfg cell)).1)
unfolding ratelimited_cell
ratelimited_cell-init cfg cell t h = (refl, refl)

interval-bpf_ratelimited :
    (r : BpfRatelimit) (t : ℕ) → (bpf_ratelimited t r).0.interval ≡ r.interval
unfolding bpf_ratelimited
interval-bpf_ratelimited r t = ground arith

init_from_cfg-again : (cfg r : BpfRatelimit) → 0 < r.interval → init_from_cfg cfg r ≡ r
unfolding init_from_cfg
init_from_cfg-again cfg r h = ground arith

interval-init_from_cfg :
    (cfg r : BpfRatelimit) → 0 < cfg.interval → 0 < (init_from_cfg cfg r).interval
unfolding init_from_cfg
interval-init_from_cfg cfg r h = ground arith

module _ {S : Type 0} (map : BpfMap S ℕ BpfRatelimit nat_eq) where
  -- The cell stands for the limiter `r`: it holds `r`, or is zeroed and will be set up as `r`.
  abbrev pub Models : BpfRatelimit → S → BpfRatelimit → Type 0
  Models cfg s r =
      (cell : BpfRatelimit) × (map.lookup s 0 ≡ some cell) × (init_from_cfg cfg cell ≡ r)

  -- A call on the map decides as the limiter that the cell stands for, and the cell stands for its
  -- new state afterwards; the other keys of the map are left alone.
  pub core_in_map-refines :
      (cfg : BpfRatelimit) (s : S) (r : BpfRatelimit) (t j : ℕ)
      → 0 < cfg.interval
      → Models cfg s r
      → let v = bpf_ratelimited_core_in_map map t cfg s in
        (v.limited ≡ (bpf_ratelimited t r).1)
        × Models cfg v.cell (bpf_ratelimited t r).0
        × (map.lookup v.cell j ≡ (if j == 0 then some (bpf_ratelimited t r).0 else map.lookup s j))
  unfolding bpf_ratelimited_core_in_map
  core_in_map-refines cfg s r t j pos (cell, found, stands) =
      let (cell', limited') = ratelimited_cell-init cfg cell t pos in
      let is : (ratelimited_cell t cfg cell).cell ≡ (bpf_ratelimited t r).0 =
        cell' ∙ ap (λ q. (bpf_ratelimited t q).0) stands in
      let set_up : 0 < r.interval = rw (← stands) (interval-init_from_cfg cfg cell pos) in
      let kept : 0 < (bpf_ratelimited t r).0.interval = rw (interval-bpf_ratelimited r t) set_up in
      rw (found, bpf_ratelimited_core_in_map)
        (
          limited' ∙ ap (λ q. (bpf_ratelimited t q).1) stands,
          (
            (ratelimited_cell t cfg cell).cell,
            map.lookup-store s 0 _ cell 0 found,
            rw is (init_from_cfg-again cfg _ kept),
          ),
          map.lookup-store s 0 _ cell j found ∙ rw is (ground arith),
        )

  -- Of any sequence of calls, the limiter in a map admits as many as the limiter that its cell
  -- stands for, a zeroed cell for the configuration.
  pub admitted_in_map-eq-admitted :
      (cfg : BpfRatelimit) (s : S) (r : BpfRatelimit) (ts : List ℕ)
      → 0 < cfg.interval
      → Models cfg s r
      → admitted_in_map map cfg s ts ≡ admitted r ts
  unfolding admitted_in_map admitted
  admitted_in_map-eq-admitted cfg s r [] pos m = refl
  admitted_in_map-eq-admitted cfg s r (t ∷ ts) pos m =
      let (limited, models, _) = core_in_map-refines cfg s r t 0 pos m in
      let v = bpf_ratelimited_core_in_map map t cfg s in
      rw (limited, admitted_in_map-eq-admitted cfg v.cell (bpf_ratelimited t r).0 ts pos models)
