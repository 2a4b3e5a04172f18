-- ===== src/Tracing/Event/Runs.antt =====
-- There is one goroutine at most of each tracer of pkg/tracing/tracing.go.
use jidick.Base.{
  ℕ, suc, ◌≡◌, ◌<◌, refl, ap, arith, Bool, true, false, Option, none, some, List, [], ◌∷◌, ◌++◌,
  All, All-map, Bool-cases, Option-cases, ◌⊎◌, inl, inr,
}
use mathlib.Core.List.{append-nil}
use jidick.Tracing.Event.{
  Next, test_exit, make_context, run_tracer, end_round, sleep, leave, EventTracing,
  new_tracing_event, start, stop, mgr_start, mgr_stop, after_round, Move, exits, goes_on, runs,
  returns, not_supported, ends, breaks, sleeps, wakes, left, Go, go, Reach, begin, moved, started,
  was_stopped, keep,
}

-- Where the tracer runs and right after it, the stored function cancels its context.
abbrev pub Current : Option ℕ → Next → Type 0
Current cancel_ctx (run_tracer ctx) = cancel_ctx ≡ some ctx
Current cancel_ctx (end_round ctx) = cancel_ctx ≡ some ctx
Current cancel_ctx _ = Unit

abbrev pub Shape : Bool → Option ℕ → List Next → Type 0
Shape is_running cancel_ctx [] = is_running ≡ false
Shape is_running cancel_ctx (next ∷ []) = (is_running ≡ true) × Current cancel_ctx next
Shape is_running cancel_ctx (_ ∷ _ ∷ _) = ⊥

-- The stored function is that of the last context that was made.
abbrev pub IsLast : ℕ → Option ℕ → Type 0
IsLast n none = n ≡ 0
IsLast n (some ctx) = n ≡ suc ctx

pub IsLast-lt : (n ctx : ℕ) (o : Option ℕ) → IsLast n o → o ≡ some ctx → ctx < n
IsLast-lt n ctx o last e = let made : IsLast n (some ctx) = rw e at last in omega arith

-- What holds of a tracer between two steps.
pub record IsValid (c : EventTracing) : Type 0 where
  pub shape : Shape c.is_running c.cancel_ctx c.goroutines
  pub canceled_made : All (λ ctx. ctx < c.contexts) c.canceled
  pub current_made : IsLast c.contexts c.cancel_ctx

pub alone :
    (is_running : Bool) (cancel_ctx : Option ℕ) (before after : List Next) (next : Next)
    → Shape is_running cancel_ctx (before ++ next ∷ after)
    → (before ≡ []) × (after ≡ []) × (is_running ≡ true) × Current cancel_ctx next
alone is_running cancel_ctx [] [] next h = (refl, refl, h.0, h.1)
alone is_running cancel_ctx [] (a ∷ after) next h = absurd h
alone is_running cancel_ctx (b ∷ []) after next h = absurd h
alone is_running cancel_ctx (b ∷ b' ∷ before) after next h = absurd h

-- A goroutine that goes on with the shared fields as they are.
unchanged :
    {c : EventTracing} (next : Next)
    → IsValid c
    → c.is_running ≡ true
    → Current c.cancel_ctx next
    → IsValid (record c { goroutines = next ∷ [] })
unchanged next v r h = record {
  shape = (r, h);
  canceled_made = v.canceled_made;
  current_made = v.current_made;
}

Move-IsValid :
    {c c' : EventTracing} {next : Next} {next' : Option Next}
    → Move c next c' next'
    → IsValid c
    → c.is_running ≡ true
    → Current c.cancel_ctx next
    → IsValid (record c' { goroutines = keep next' })
unfolding after_round
Move-IsValid (exits e) v r h = unchanged leave v r tt
Move-IsValid (goes_on e) v r h = unchanged make_context v r tt
Move-IsValid {c} runs v r h = record {
  shape = (r, refl);
  canceled_made = All-map (λ ctx p. omega arith) c.canceled v.canceled_made;
  current_made = refl;
}
Move-IsValid (returns {ctx = ctx}) v r h = unchanged (end_round ctx) v r h
Move-IsValid not_supported v r h = record {
  shape = (r, h);
  canceled_made = v.canceled_made;
  current_made = v.current_made;
}
Move-IsValid {c} ends v r h = record {
  shape = (r, tt);
  canceled_made = (IsLast-lt c.contexts _ c.cancel_ctx v.current_made h, v.canceled_made);
  current_made = v.current_made;
}
Move-IsValid (breaks e) v r h = unchanged leave v r tt
Move-IsValid (sleeps e) v r h = unchanged sleep v r tt
Move-IsValid wakes v r h = unchanged test_exit v r tt
Move-IsValid left v r h = record {
  shape = refl;
  canceled_made = v.canceled_made;
  current_made = v.current_made;
}

-- What there is of goroutines where one of them makes a step.
pub only_one :
    {c : EventTracing} (next : Next) (before after : List Next)
    → c.goroutines ≡ before ++ next ∷ after
    → IsValid c
    → (before ≡ []) × (after ≡ []) × (c.is_running ≡ true) × Current c.cancel_ctx next
only_one {c} next before after e v =
    let shape = v.shape in alone c.is_running c.cancel_ctx before after next (rw e at shape)

pub around :
    (before after : List Next) (next' : Option Next)
    → before ≡ []
    → after ≡ []
    → before ++ keep next' ++ after ≡ keep next'
around before after next' b a = rw (b, a) (append-nil (keep next'))

pub Go-IsValid : {c c' : EventTracing} → Go c c' → IsValid c → IsValid c'
Go-IsValid (go {next = next} {next' = next'} before after e m) v =
    let (b, a, r, h) = only_one next before after e v in
    rw (around before after next' b a) (Move-IsValid m v r h)

none_yet :
    (cancel_ctx : Option ℕ) (goroutines : List Next)
    → Shape false cancel_ctx goroutines
    → goroutines ≡ []
none_yet cancel_ctx [] h = refl
none_yet cancel_ctx (next ∷ []) h = absurd cc
none_yet cancel_ctx (next ∷ next' ∷ rest) h = absurd h

start-IsValid : (c : EventTracing) → IsValid c → IsValid (mgr_start c)
unfolding mgr_start start
start-IsValid c v = elim (Bool-cases c.is_running) [
  | inl e ↦ rw (e, mgr_start) v
  | inr e ↦
      let shape = v.shape in
      let empty : c.goroutines ≡ [] = none_yet c.cancel_ctx c.goroutines (rw e at shape) in
      rw (e, mgr_start, empty)
        (record {
          shape = (refl, tt);
          canceled_made = v.canceled_made;
          current_made = v.current_made;
        })
]

-- `Stop` with a function to call.
pub stop-some :
    (c : EventTracing) (ctx : ℕ)
    → c.cancel_ctx ≡ some ctx
    → stop c ≡ some (record c { exit = true; canceled = ctx ∷ c.canceled })
unfolding stop
stop-some c ctx n =
    ap
      (λ o. elim o as (λ _. Option EventTracing) [
        | none ↦ none
        | some k ↦ some (record c { exit = true; canceled = k ∷ c.canceled })
      ])
      n

-- A request to stop that does not panic, of a tracer that runs.
pub mgr_stop-running :
    (c c' : EventTracing)
    → mgr_stop c ≡ some c'
    → c.is_running ≡ true
    → (ctx : ℕ) × (c.cancel_ctx ≡ some ctx)
      × (record c { exit = true; canceled = ctx ∷ c.canceled } ≡ c')
unfolding mgr_stop stop
mgr_stop-running c c' e r = elim (Option-cases c.cancel_ctx) [
  | inl n ↦ absurd (cc (rw (r, mgr_stop, n, stop) at e))
  | inr (ctx, n) ↦ (ctx, n, cc (rw (r, mgr_stop, n, stop) at e))
]

pub stop-IsValid : (c c' : EventTracing) → mgr_stop c ≡ some c' → IsValid c → IsValid c'
unfolding mgr_stop
stop-IsValid c c' e v = elim (Bool-cases c.is_running) [
  | inl r ↦
      let (ctx, n, same) = mgr_stop-running c c' e r in
      rw (← same) (record {
        shape = v.shape;
        canceled_made = (IsLast-lt c.contexts ctx c.cancel_ctx v.current_made n, v.canceled_made);
        current_made = v.current_made;
      })
  | inr r ↦ let same : c ≡ c' = cc (rw (r, mgr_stop) at e) in rw (← same) v
]

pub Reach-IsValid : {c : EventTracing} → Reach c → IsValid c
unfolding new_tracing_event
Reach-IsValid begin = record { shape = refl; canceled_made = tt; current_made = refl }
Reach-IsValid (moved r g) = Go-IsValid g (Reach-IsValid r)
Reach-IsValid (started {c} r) = start-IsValid c (Reach-IsValid r)
Reach-IsValid (was_stopped {c} {c'} r e) = stop-IsValid c c' e (Reach-IsValid r)

pub shaped :
    (is_running : Bool) (cancel_ctx : Option ℕ) (goroutines : List Next)
    → Shape is_running cancel_ctx goroutines
    → ((is_running ≡ false) × (goroutines ≡ []))
      ⊎ ((is_running ≡ true) × ((next : Next) × (goroutines ≡ next ∷ [])))
shaped is_running cancel_ctx [] h = inl (h, refl)
shaped is_running cancel_ctx (next ∷ []) h = inr (h.0, (next, refl))
shaped is_running cancel_ctx (next ∷ next' ∷ rest) h = absurd h

-- Whatever requests to start and to stop come, a tracer is marked as running exactly while it has
-- a goroutine, and never has two.
Reach-goroutines :
    {c : EventTracing}
    → Reach c
    → ((c.is_running ≡ false) × (c.goroutines ≡ []))
      ⊎ ((c.is_running ≡ true) × ((next : Next) × (c.goroutines ≡ next ∷ [])))
Reach-goroutines {c} r = shaped c.is_running c.cancel_ctx c.goroutines (Reach-IsValid r).shape
