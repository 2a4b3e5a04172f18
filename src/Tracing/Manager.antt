-- ===== src/Tracing/Manager.antt =====
-- pkg/tracing/manager.go: the requests to start and to stop the tracers by their names.
pub mod StopAll
use jidick.Base.{
  ℕ, ◌==◌, ◌||◌, Bool, true, false, if◌then◌else◌, Option, none, some, ◌>>=◌, List, [], ◌∷◌,
}
use jidick.Tracing.Event.{EventTracing, start, stop}

-- The errors of the requests.
pub data MgrError : Type 0 where
  not_found black_listed already_running not_running : MgrError

-- `mgr.tracingEvents`; a name is a number.
abbrev pub TracingEvents : Type 0
TracingEvents = ℕ → Option EventTracing

unfoldable pub put : ℕ → EventTracing → TracingEvents → TracingEvents
put name te events n = if n == name then some te else events n

abbrev pub contains : ℕ → List ℕ → Bool
contains name [] = false
contains name (n ∷ names) = n == name || contains name names

-- What a request leaves, and its error.
abbrev pub Outcome : Type 0
Outcome = TracingEvents × Option MgrError

unfoldable pub mgr_tracing_event_start : List ℕ → ℕ → TracingEvents → Outcome
unfolding put
mgr_tracing_event_start black_list name events = elim (events name) [
  | none ↦ (events, some not_found)
  | some te ↦
      if contains name black_list
      then (put name (record te { is_running = false }) events, some black_listed)
      else if te.is_running
      then (events, some already_running)
      else (put name (start te) events, none)
]

-- `none` is the panic of `Stop`.
unfoldable pub mgr_tracing_event_stop : ℕ → TracingEvents → Option Outcome
unfolding put
mgr_tracing_event_stop name events = elim (events name) [
  | none ↦ some (events, some not_found)
  | some te ↦
      if te.is_running
      then (do te' ← stop te; some (put name te' events, none))
      else some (events, some not_running)
]

-- The requests for all, with the names in the order in which the loop comes to them.
unfoldable pub mgr_tracing_event_start_all : List ℕ → List ℕ → TracingEvents → Outcome
mgr_tracing_event_start_all black_list [] events = (events, none)
mgr_tracing_event_start_all black_list (name ∷ names) events =
    let (events', err) = mgr_tracing_event_start black_list name events in
    elim err [
      | none ↦ mgr_tracing_event_start_all black_list names events'
      | some e ↦ (events', some e)
    ]

unfoldable pub mgr_tracing_event_stop_all : List ℕ → TracingEvents → Option Outcome
mgr_tracing_event_stop_all [] events = some (events, none)
mgr_tracing_event_stop_all (name ∷ names) events = elim (mgr_tracing_event_stop name events) [
  | none ↦ none
  | some (events', none) ↦ mgr_tracing_event_stop_all names events'
  | some (events', some e) ↦ some (events', some e)
]
