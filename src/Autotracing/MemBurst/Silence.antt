-- ===== src/Autotracing/MemBurst/Silence.antt =====
-- How far apart the reports of core/autotracing/memburst.go are.
use jidick.Base.{
  ℕ, ◌-◌, ◌*◌, ◌≤◌, ◌<◌, arith, Option, none, some, List, [], ◌∷◌, ◌++◌, length, nsec_per_sec, ltb,
  Option-cases, Bool-cases, inl, inr,
}
use jidick.Autotracing.MemBurst.{
  ProcessMemoryInfo, Inputs, Settings, History, new_history, check_and_record_memory_usage, Tick,
  save, loop, day, start,
}

-- Reports that name a process and follow the one before, or `last`, after `gap`.
abbrev pub Spaced : ℕ → ℕ → List (ℕ × List ProcessMemoryInfo) → Type 0
Spaced gap last [] = Unit
Spaced gap last ((now, ps) ∷ rest) = (gap ≤ now - last) × (0 < length ps) × Spaced gap now rest

save-Spaced :
    (cfg : Settings) (now last : ℕ) (ps : List ProcessMemoryInfo)
    (rest : ℕ → List (ℕ × List ProcessMemoryInfo))
    → let gap = cfg.silence_period * nsec_per_sec in
      ((l : ℕ) → Spaced gap l (rest l))
      → Spaced gap last ((save cfg now last ps).0 ++ rest (save cfg now last ps).1)
unfolding save
save-Spaced cfg now last [] rest h = h last
save-Spaced cfg now last (p ∷ ps) rest h =
    elim (Bool-cases (ltb (now - last) (cfg.silence_period * nsec_per_sec))) [
      | inl e ↦ rw (e, save) (h last)
      | inr e ↦ rw (e, save) (ground (arith), omega arith, h now)
    ]

loop-Spaced :
    (cfg : Settings) (ts : List Tick) (last : ℕ) (h : History)
    → Spaced (cfg.silence_period * nsec_per_sec) last (loop cfg ts last h).0
unfolding loop
loop-Spaced cfg [] last h = tt
loop-Spaced cfg (t ∷ ts) last h =
    elim (Option-cases (check_and_record_memory_usage cfg t.inputs h)) [
      | inl e ↦ rw (e, loop) tt
      | inr ((h', none), e) ↦ rw (e, loop) tt
      | inr ((h', some ps), e) ↦ elim (Bool-cases t.done) [
        | inl d ↦ rw (e, loop, d) tt
        | inr d ↦
            rw (e, loop, d)
              (save-Spaced cfg t.now last ps (λ l. (loop cfg ts l h').0)
                (λ l. loop-Spaced cfg ts l h'))
      ]
    ]

-- The reports that the tracer saves name a process, and are at least the silence period apart; the
-- first of them comes no earlier than that after a day before the start.
start-Spaced :
    (cfg : Settings) (mem_total : Option ℕ) (now : ℕ) (first : Inputs) (ts : List Tick)
    → Spaced (cfg.silence_period * nsec_per_sec) (now - day) (start cfg mem_total now first ts).0
unfolding start
start-Spaced cfg none now first ts = tt
start-Spaced cfg (some total) now first ts =
    let cfg' : Settings = record cfg { mem_total = total } in
    elim (Option-cases
      (check_and_record_memory_usage cfg' first (new_history cfg.history_window_length))) [
        | inl e ↦ rw (e, start) tt
        | inr ((h, none), e) ↦ rw (e, start) tt
        | inr ((h, some ps), e) ↦ rw (e, start) (loop-Spaced cfg' ts (now - day) h)
      ]
