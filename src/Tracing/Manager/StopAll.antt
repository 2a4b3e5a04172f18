-- ===== src/Tracing/Manager/StopAll.antt =====
-- How far a request to stop all tracers of pkg/tracing/manager.go comes.
use jidick.Base.{
  ℕ, ◌≡◌, refl, ap, ◌∙◌, arith, true, false, Option, none, some, List, [], ◌∷◌, ◌++◌, All, All-map,
  ◌==◌, if◌then◌else◌, Bool-cases, inl, inr, ◌>>=◌,
}
use jidick.Tracing.Event.{EventTracing, stop}
use jidick.Tracing.Event.Runs.{stop-some}
use jidick.Tracing.Manager.{
  Outcome, not_found, TracingEvents, put, contains, not_running, mgr_tracing_event_stop,
  mgr_tracing_event_stop_all,
}

-- A tracer that runs and has a function to cancel it.
pub record Stoppable (events : TracingEvents) (name : ℕ) : Type 0 where
  pub tracer : EventTracing
  pub found : events name ≡ some tracer
  pub running : tracer.is_running ≡ true
  pub ctx : ℕ
  pub cancels : tracer.cancel_ctx ≡ some ctx

-- A tracer that was told to stop.
abbrev pub IsTold : Option EventTracing → Type 0
IsTold none = ⊥
IsTold (some te) = te.exit ≡ true

abbrev told : EventTracing → ℕ → EventTracing
told te ctx = record te { exit = true; canceled = ctx ∷ te.canceled }

stop_one :
    (events : TracingEvents) (name : ℕ) (s : Stoppable events name)
    → mgr_tracing_event_stop name events ≡ some (put name (told s.tracer s.ctx) events, none)
unfolding mgr_tracing_event_stop
stop_one events name s =
    ap
      (λ o. elim o as (λ _. Option Outcome) [
        | none ↦ some (events, some not_found)
        | some te ↦
            if te.is_running
            then stop te >>= (λ te'. some (put name te' events, none))
            else some (events, some not_running)
      ])
      s.found
    ∙ ap
        (λ b.
          if b
          then stop s.tracer >>= (λ te'. some (put name te' events, none))
          else some (events, some not_running))
        s.running
    ∙ ap (λ o. o >>= (λ te'. some (put name te' events, none))) (stop-some s.tracer s.ctx s.cancels)

put_at :
    (name : ℕ) (te : EventTracing) (events : TracingEvents) (n : ℕ)
    → (n == name) ≡ true
    → put name te events n ≡ some te
unfolding put
put_at name te events n e = rw e refl

put_other :
    (name : ℕ) (te : EventTracing) (events : TracingEvents) (n : ℕ)
    → (n == name) ≡ false
    → put name te events n ≡ events n
unfolding put
put_other name te events n e = rw e refl

put-Stoppable :
    (events : TracingEvents) (name n : ℕ) (s : Stoppable events name)
    → Stoppable events n
    → Stoppable (put name (told s.tracer s.ctx) events) n
put-Stoppable events name n s t = elim (Bool-cases (n == name)) [
  | inl e ↦ record {
    tracer = told s.tracer s.ctx;
    found = put_at name (told s.tracer s.ctx) events n e;
    running = s.running;
    ctx = s.ctx;
    cancels = s.cancels;
  }
  | inr e ↦ record {
    tracer = t.tracer;
    found = put_other name (told s.tracer s.ctx) events n e ∙ t.found;
    running = t.running;
    ctx = t.ctx;
    cancels = t.cancels;
  }
]

-- What the loop over `before` leaves, from `events` to `events'`.
record Stopped (before : List ℕ) (events events' : TracingEvents) : Type 0 where
  pub others : (n : ℕ) → contains n before ≡ false → events' n ≡ events n
  pub named : (n : ℕ) → contains n before ≡ true → IsTold (events' n)

mgr_tracing_event_stop_all-Stopped :
    (before rest : List ℕ) (events : TracingEvents)
    → All (Stoppable events) before
    → (events' : TracingEvents) × (mgr_tracing_event_stop_all (before ++ rest) events
        ≡ mgr_tracing_event_stop_all rest events')
      × Stopped before events events'
unfolding mgr_tracing_event_stop_all
mgr_tracing_event_stop_all-Stopped [] rest events h =
    (events, refl, record { others = λ n c. refl; named = λ n c. absurd cc })
mgr_tracing_event_stop_all-Stopped (name ∷ before) rest events (s, h) =
    let next = put name (told s.tracer s.ctx) events in
    let still = All-map (λ n t. put-Stoppable events name n s t) before h in
    let (events', e, stopped) = mgr_tracing_event_stop_all-Stopped before rest next still in
    (
      events',
      ap
            (λ o. elim o as (λ _. Option Outcome) [
              | none ↦ none
              | some (m, none) ↦ mgr_tracing_event_stop_all (before ++ rest) m
              | some (m, some err) ↦ some (m, some err)
            ])
            (stop_one events name s)
          ∙ e,
      record {
        others = λ n c.
            let apart : (n == name) ≡ false = ground arith in
            let rest_apart : contains n before ≡ false = ground arith in
            stopped.others n rest_apart ∙ put_other name (told s.tracer s.ctx) events n apart;
        named = λ n c. elim (Bool-cases (contains n before)) [
          | inl later ↦ stopped.named n later
          | inr last ↦
              let at_name : (n == name) ≡ true = ground arith in
              rw (stopped.others n last, put_at name (told s.tracer s.ctx) events n at_name) refl
        ];
      },
    )

-- A request to stop all comes as far as the first tracer that does not run, in the order of the
-- loop: the ones before were told to stop, if none of them panics; the others are left as they
-- are, and the request fails.
pub mgr_tracing_event_stop_all-not_running :
    (before after : List ℕ) (name : ℕ) (events : TracingEvents) (te : EventTracing)
    → All (Stoppable events) before
    → contains name before ≡ false
    → events name ≡ some te
    → te.is_running ≡ false
    → (events' : TracingEvents) × (mgr_tracing_event_stop_all (before ++ name ∷ after) events
        ≡ some (events', some not_running))
      × ((n : ℕ) → contains n before ≡ false → events' n ≡ events n)
      × ((n : ℕ) → contains n before ≡ true → IsTold (events' n))
unfolding mgr_tracing_event_stop_all mgr_tracing_event_stop
mgr_tracing_event_stop_all-not_running before after name events te h apart found off =
    let (events', e, stopped) = mgr_tracing_event_stop_all-Stopped before (name ∷ after) events h in
    let same : events' name ≡ some te = stopped.others name apart ∙ found in
    (
      events',
      e ∙ rw (same, mgr_tracing_event_stop_all, mgr_tracing_event_stop, off) refl,
      stopped.others,
      stopped.named,
    )
