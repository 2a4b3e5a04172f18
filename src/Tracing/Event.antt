-- ===== src/Tracing/Event.antt =====
-- pkg/tracing/tracing.go: a tracer that is started and stopped by requests, and the goroutine that
-- runs it again and again, as their accesses to the shared fields interleave.
pub mod Runs
pub mod Stop
use jidick.Base.{ℕ, suc, ◌+◌, ◌≡◌, Bool, true, false, Option, none, some, List, [], ◌∷◌, ◌++◌}

-- What the goroutine does next: test `c.exit` before a round; make the context of the round and
-- store its cancel function; run `c.ic.Start` with that context; what follows it, which cancels
-- the context; test `c.exit` again; sleep; and clear `isRunning`. A context is a number. The
-- deferred call is of the function that was stored when the round began.
pub data Next : Type 0 where
  test_exit make_context : Next
  run_tracer : (ctx : ℕ) → Next
  end_round : (ctx : ℕ) → Next
  test_again sleep leave : Next

-- `EventTracing`, with what it shares and the goroutines that were started and live. `cancel_ctx`
-- is the context that the stored function cancels, `none` for a nil function.
pub record EventTracing : Type 0 where
  pub exit : Bool
  pub is_running : Bool
  pub hit_count : ℕ
  pub cancel_ctx : Option ℕ
  pub contexts : ℕ
  pub canceled : List ℕ
  pub goroutines : List Next

-- `NewTracingEvent`
unfoldable pub new_tracing_event : EventTracing
new_tracing_event = record {
  exit = false;
  is_running = false;
  hit_count = 0;
  cancel_ctx = none;
  contexts = 0;
  canceled = [];
  goroutines = [];
}

-- `Start`
unfoldable pub start : EventTracing → EventTracing
start c = record c { is_running = true; exit = false; goroutines = c.goroutines ++ test_exit ∷ [] }

-- `Stop`; `none` is the panic of a call of a nil function.
unfoldable pub stop : EventTracing → Option EventTracing
stop c = elim c.cancel_ctx [
  | none ↦ none
  | some ctx ↦ some (record c { exit = true; canceled = ctx ∷ c.canceled })
]

-- The requests as `MgrTracingEventStart` and `MgrTracingEventStop` make them, under their lock.
unfoldable pub mgr_start : EventTracing → EventTracing
mgr_start c = elim c.is_running [ true ↦ c | false ↦ start c ]

unfoldable pub mgr_stop : EventTracing → Option EventTracing
mgr_stop c = elim c.is_running [ true ↦ stop c | false ↦ some c ]

-- The deferred call of the cancel function of the round, and `c.hitCount++`.
unfoldable pub after_round : ℕ → EventTracing → EventTracing
after_round ctx c = record c { hit_count = c.hit_count + 1; canceled = ctx ∷ c.canceled }

-- A step of one goroutine, whatever the tracer does: from the shared fields and what it does next
-- to both; `none` where it is gone.
pub data Move : EventTracing → Next → EventTracing → Option Next → Type 0 where
  exits : {c : EventTracing} → c.exit ≡ true → Move c test_exit c (some leave)
  goes_on : {c : EventTracing} → c.exit ≡ false → Move c test_exit c (some make_context)
  runs :
      {c : EventTracing}
      → Move c make_context
          (record c { cancel_ctx = some c.contexts; contexts = suc c.contexts })
          (some (run_tracer c.contexts))
  returns : {c : EventTracing} {ctx : ℕ} → Move c (run_tracer ctx) c (some (end_round ctx))
  not_supported :
      {c : EventTracing} {ctx : ℕ}
      → Move c (run_tracer ctx) (record c { exit = true }) (some (end_round ctx))
  ends : {c : EventTracing} {ctx : ℕ} → Move c (end_round ctx) (after_round ctx c) (some test_again)
  breaks : {c : EventTracing} → c.exit ≡ true → Move c test_again c (some leave)
  sleeps : {c : EventTracing} → c.exit ≡ false → Move c test_again c (some sleep)
  wakes : {c : EventTracing} → Move c sleep c (some test_exit)
  left : {c : EventTracing} → Move c leave (record c { is_running = false }) none

abbrev pub keep : Option Next → List Next
keep none = []
keep (some next) = next ∷ []

-- A step of one of the goroutines.
pub data Go : EventTracing → EventTracing → Type 0 where
  go :
      {c c' : EventTracing} {next : Next} {next' : Option Next} (before after : List Next)
      → c.goroutines ≡ before ++ next ∷ after
      → Move c next c' next'
      → Go c (record c' { goroutines = before ++ keep next' ++ after })

-- What can happen from the start of the daemon on: steps of goroutines and requests that do not
-- panic.
pub data Reach : EventTracing → Type 0 where
  begin : Reach new_tracing_event
  moved : {c c' : EventTracing} → Reach c → Go c c' → Reach c'
  started : {c : EventTracing} → Reach c → Reach (mgr_start c)
  was_stopped : {c c' : EventTracing} → Reach c → mgr_stop c ≡ some c' → Reach c'
