-- ===== src/Autotracing/MemBurst/Start.antt =====
-- The loop of core/autotracing/memburst.go, with its circular buffer and without.
use jidick.Base.{
  Option-cases, inl, inr, ℕ, ◌-◌, ◌<◌, ◌≡◌, refl, Option, none, some, List, [], ◌∷◌, ◌++◌,
  if◌then◌else◌,
}
use jidick.Autotracing.MemBurst.{
  Inputs, Settings, History, Tick, stopped, failed, waiting, Run, save, loop, day, start,
}
use jidick.Autotracing.MemBurst.Window.{check_samples, Tracks, new_history-Tracks, check-Tracks}

-- The loop over the list of all samples, the newest first.
unfoldable pub loop_samples : Settings → List Tick → ℕ → List ℕ → Run
loop_samples cfg [] last_report_time samples = ([], waiting)
loop_samples cfg (t ∷ ts) last_report_time samples =
    let (samples', checked) = check_samples cfg t.inputs samples in
    elim checked [
      | none ↦ ([], failed)
      | some top_processes ↦
          let (saved, last) = save cfg t.now last_report_time top_processes in
          let rest = loop_samples cfg ts last samples' in
          if t.done then ([], stopped) else (saved ++ rest.0, rest.1)
    ]

unfoldable pub start_samples : Settings → Option ℕ → ℕ → Inputs → List Tick → Run
unfolding loop_samples
start_samples cfg mem_total now first ts = elim mem_total [
  | none ↦ ([], failed)
  | some total ↦
      let cfg' = record cfg { mem_total = total } in
      let (samples, checked) = check_samples cfg' first [] in
      elim checked [ none ↦ ([], failed) | some _ ↦ loop_samples cfg' ts (now - day) samples ]
]

loop-Tracks :
    (cfg : Settings) (ts : List Tick) (last_report_time : ℕ) (samples : List ℕ) (h : History)
    → Tracks cfg.history_window_length samples h
    → loop cfg ts last_report_time h ≡ loop_samples cfg ts last_report_time samples
unfolding loop loop_samples
loop-Tracks cfg [] last_report_time samples h t = refl
loop-Tracks cfg (tick ∷ ts) last_report_time samples h t =
    let (h', e, t') = check-Tracks cfg tick.inputs samples h t in
    elim (Option-cases (check_samples cfg tick.inputs samples).1) [
      | inl f ↦ rw (e, f, loop, loop_samples) refl
      | inr (top, f) ↦
          rw
            (
              e,
              f,
              loop,
              loop_samples,
              loop-Tracks cfg ts (save cfg tick.now last_report_time top).1 _ h' t',
            )
            refl
    ]

-- With a window of at least one sample, the tracer never panics, and saves what it would with all
-- samples at hand and no buffer, at the same times, and ends in the same way. There, a sample is a
-- burst exactly when there is one from a window ago, counting both ends, over which it has grown by
-- the ratio, and it reached the threshold; checks that cannot read the memory count for nothing.
pub start-samples :
    (cfg : Settings) (mem_total : Option ℕ) (now : ℕ) (first : Inputs) (ts : List Tick)
    → 0 < cfg.history_window_length
    → start cfg mem_total now first ts ≡ start_samples cfg mem_total now first ts
unfolding start start_samples
start-samples cfg none now first ts pos = refl
start-samples cfg (some total) now first ts pos =
    let cfg' : Settings = record cfg { mem_total = total } in
    let (h, e, t) =
      check-Tracks cfg' first [] _ (new_history-Tracks cfg.history_window_length pos) in
    elim (Option-cases (check_samples cfg' first []).1) [
      | inl f ↦ rw (e, f, start, start_samples) refl
      | inr (top, f) ↦ rw (e, f, start, start_samples) (loop-Tracks cfg' ts (now - day) _ h t)
    ]
