-- ===== src/Tracing/Event/Stop.antt =====
-- What a request to stop a tracer of pkg/tracing/tracing.go comes to.
use jidick.Base.{
  ℕ, suc, ◌+◌, ◌≡◌, ◌≢◌, ◌<◌, ◌≤◌, refl, ap, ◌∙◌, arith, true, false, Option, none, some, List, [],
  ◌∷◌, ◌⊎◌, ◌↔◌, inl, inr, Option-cases, Bool-cases, All,
}
use jidick.Tracing.Event.{
  Next, test_exit, make_context, run_tracer, end_round, test_again, sleep, leave, EventTracing,
  stop, mgr_stop, after_round, Move, exits, goes_on, runs, returns, not_supported, ends, breaks,
  sleeps, wakes, left, Go, go, Reach, keep,
}
use jidick.Tracing.Event.Runs.{
  stop-some, shaped, Shape, IsValid, Reach-IsValid, only_one, around, mgr_stop-running, Go-IsValid,
  stop-IsValid, IsLast, IsLast-lt,
}

abbrev pub IsCanceled : ℕ → List ℕ → Type 0
IsCanceled ctx [] = ⊥
IsCanceled ctx (k ∷ canceled) = (k ≡ ctx) ⊎ IsCanceled ctx canceled

-- A goroutine that runs the tracer at most in a context that is canceled, and starts no new round.
abbrev pub Ending : List ℕ → Next → Type 0
Ending canceled make_context = ⊥
Ending canceled (run_tracer ctx) = IsCanceled ctx canceled
Ending canceled _ = Unit

record IsStopping (c : EventTracing) : Type 0 where
  pub exit : c.exit ≡ true
  pub ending : All (Ending c.canceled) c.goroutines

-- How many steps a goroutine has left.
abbrev rank : List Next → ℕ
rank [] = 0
rank (run_tracer ctx ∷ rest) = 4
rank (end_round ctx ∷ rest) = 3
rank (sleep ∷ rest) = 3
rank (test_again ∷ rest) = 2
rank (test_exit ∷ rest) = 2
rank (leave ∷ rest) = 1
rank (make_context ∷ rest) = 5

Move-IsStopping :
    {c c' : EventTracing} {next : Next} {next' : Option Next}
    → Move c next c' next'
    → c.exit ≡ true
    → Ending c.canceled next
    → IsStopping (record c' { goroutines = keep next' }) × (rank (keep next') < rank (next ∷ []))
unfolding after_round
Move-IsStopping (exits e) x h = (record { exit = x; ending = (tt, tt) }, omega arith)
Move-IsStopping (goes_on e) x h = absurd (cc (x, e))
Move-IsStopping runs x h = absurd h
Move-IsStopping returns x h = (record { exit = x; ending = (tt, tt) }, omega arith)
Move-IsStopping not_supported x h = (record { exit = refl; ending = (tt, tt) }, omega arith)
Move-IsStopping ends x h = (record { exit = x; ending = (tt, tt) }, omega arith)
Move-IsStopping (breaks e) x h = (record { exit = x; ending = (tt, tt) }, omega arith)
Move-IsStopping (sleeps e) x h = absurd (cc (x, e))
Move-IsStopping wakes x h = (record { exit = x; ending = (tt, tt) }, omega arith)
Move-IsStopping left x h = (record { exit = x; ending = tt }, omega arith)

Go-IsStopping :
    {c c' : EventTracing}
    → Go c c'
    → IsValid c
    → IsStopping c
    → IsStopping c' × (rank c'.goroutines < rank c.goroutines)
Go-IsStopping (go {c = c} {next = next} {next' = next'} before after e m) v s =
    let (b, a, r, h) = only_one next before after e v in
    let one : c.goroutines ≡ next ∷ [] = e ∙ rw (b, a) refl in
    let ending = s.ending in
    let (here, _) = rw one at ending in
    rw (around before after next' b a, one) (Move-IsStopping m s.exit here)

-- Steps of goroutines, and how many.
pub data Gos : ℕ → EventTracing → EventTracing → Type 0 where
  done : {c : EventTracing} → Gos 0 c c
  after : {n : ℕ} {c c' c'' : EventTracing} → Go c c' → Gos n c' c'' → Gos (suc n) c c''

Gos-IsStopping :
    {n : ℕ} {c c' : EventTracing}
    → Gos n c c'
    → IsValid c
    → IsStopping c
    → IsValid c' × IsStopping c' × (n + rank c'.goroutines ≤ rank c.goroutines)
Gos-IsStopping done v s = (v, s, omega arith)
Gos-IsStopping (after {c = c} {c' = c'} {c'' = c''} g gs) v s =
    let (s', less) = Go-IsStopping g v s in
    let (v'', s'', more) = Gos-IsStopping gs (Go-IsValid g v) s' in (v'', s'', omega arith)

IsStopping-stopped :
    (c : EventTracing) (ctx : ℕ)
    → IsValid c
    → c.is_running ≡ true
    → c.goroutines ≢ make_context ∷ []
    → c.cancel_ctx ≡ some ctx
    → IsStopping (record c { exit = true; canceled = ctx ∷ c.canceled }) × (rank c.goroutines ≤ 4)
IsStopping-stopped c ctx v r h n =
    let (ending, four) = ended c.cancel_ctx c.goroutines c.canceled v.shape n h in
    (record { exit = refl; ending = ending }, four)
  where
    ended :
        (cancel_ctx : Option ℕ) (goroutines : List Next) (canceled : List ℕ)
        → Shape c.is_running cancel_ctx goroutines
        → cancel_ctx ≡ some ctx
        → goroutines ≢ make_context ∷ []
        → All (Ending (ctx ∷ canceled)) goroutines × (rank goroutines ≤ 4)
    ended cancel_ctx [] canceled sh n h = (tt, omega arith)
    ended cancel_ctx (make_context ∷ []) canceled sh n h = absurd (h refl)
    ended cancel_ctx (run_tracer k ∷ []) canceled sh n h = ((inl (cc (sh.1, n)), tt), omega arith)
    ended cancel_ctx (test_exit ∷ []) canceled sh n h = ((tt, tt), omega arith)
    ended cancel_ctx (end_round k ∷ []) canceled sh n h = ((tt, tt), omega arith)
    ended cancel_ctx (test_again ∷ []) canceled sh n h = ((tt, tt), omega arith)
    ended cancel_ctx (sleep ∷ []) canceled sh n h = ((tt, tt), omega arith)
    ended cancel_ctx (leave ∷ []) canceled sh n h = ((tt, tt), omega arith)
    ended cancel_ctx (a ∷ b ∷ rest) canceled sh n h = absurd sh

-- A goroutine that is there can go on.
Go-next :
    (c : EventTracing) (next : Next) → c.goroutines ≡ next ∷ [] → (c' : EventTracing) × Go c c'
Go-next c test_exit e = elim (Bool-cases c.exit) [
  | inl x ↦ (_, go [] [] e (exits x))
  | inr x ↦ (_, go [] [] e (goes_on x))
]
Go-next c make_context e = (_, go [] [] e runs)
Go-next c (run_tracer ctx) e = (_, go [] [] e returns)
Go-next c (end_round ctx) e = (_, go [] [] e ends)
Go-next c test_again e = elim (Bool-cases c.exit) [
  | inl x ↦ (_, go [] [] e (breaks x))
  | inr x ↦ (_, go [] [] e (sleeps x))
]
Go-next c sleep e = (_, go [] [] e wakes)
Go-next c leave e = (_, go [] [] e left)

-- After a request to stop a tracer that runs, at any point but the one between the test of `c.exit`
-- and the making of the next context, the goroutine makes four steps at most until the next request
-- to start, among them the return of the tracer, whose context is canceled. It can make another
-- one exactly until it is gone, and starts no new round in between.
pub stop-ends :
    {c c' c'' : EventTracing} {n : ℕ}
    → Reach c
    → c.is_running ≡ true
    → c.goroutines ≢ make_context ∷ []
    → mgr_stop c ≡ some c'
    → Gos n c' c''
    → (n ≤ 4)
      × All (Ending c''.canceled) c''.goroutines
      × ((c''.goroutines ≡ []) ⊎ ((d : EventTracing) × Go c'' d))
stop-ends {c} {c'} {c''} {n} reach r h e gs =
    let v = Reach-IsValid reach in
    let (ctx, k, same) = mgr_stop-running c c' e r in
    let stopping = IsStopping-stopped c ctx v r h k in
    let stopping' : IsStopping c' × (rank c'.goroutines ≤ 4) = rw (← same) stopping in
    let (v'', s'', bound) = Gos-IsStopping gs (stop-IsValid c c' e v) stopping'.0 in
    (
      omega (arith, stopping'.1),
      s''.ending,
      elim (shaped c''.is_running c''.cancel_ctx c''.goroutines v''.shape) [
        | inl (_, gone) ↦ inl gone
        | inr (_, (next, there)) ↦ inr (Go-next c'' next there)
      ],
    )

not-IsCanceled :
    (n : ℕ) (canceled : List ℕ) → All (λ ctx. ctx < n) canceled → ¬ IsCanceled n canceled
not-IsCanceled n [] h i = i
not-IsCanceled n (k ∷ canceled) h (inl e) = absurd (omega (arith, h.0))
not-IsCanceled n (k ∷ canceled) h (inr i) = not-IsCanceled n canceled h.1 i

mgr_stop-some :
    (c : EventTracing) (ctx : ℕ)
    → c.is_running ≡ true
    → c.cancel_ctx ≡ some ctx
    → mgr_stop c ≡ some (record c { exit = true; canceled = ctx ∷ c.canceled })
unfolding mgr_stop
mgr_stop-some c ctx r n =
    ap (λ b. elim b as (λ _. Option EventTracing) [ true ↦ stop c | false ↦ some c ]) r
    ∙ stop-some c ctx n

-- A request to stop panics, since there is no function to call yet, exactly while the tracer is
-- marked as running and no context was made since the start of the daemon.
mgr_stop-none_iff :
    {c : EventTracing} → Reach c → (mgr_stop c ≡ none) ↔ ((c.is_running ≡ true) × (c.contexts ≡ 0))
unfolding mgr_stop stop
mgr_stop-none_iff {c} reach =
    let v = Reach-IsValid reach in
    let last = v.current_made in
    elim (Bool-cases c.is_running) [
      | inr r ↦ (λ e. absurd (cc (rw (r, mgr_stop) at e)), λ h. absurd (cc (r, h.0)))
      | inl r ↦ elim (Option-cases c.cancel_ctx) [
        | inl n ↦ (λ e. (r, rw n at last), λ h. rw (r, mgr_stop, n, stop) refl)
        | inr (k, n) ↦
            let made = IsLast-lt c.contexts k c.cancel_ctx last n in
            (λ e. absurd (cc (e, mgr_stop-some c k r n)), λ h. absurd (omega (arith, h.1)))
      ]
    ]

-- A request to stop between the test of `c.exit` and the making of the next context, in a round
-- after the first since the start of the daemon, cancels the context of the round before, numbered
-- `k`: the tracer then runs in a new context, that is not canceled, although `c.exit` is set.
pub stop-lost :
    {c : EventTracing} {k : ℕ}
    → Reach c
    → c.goroutines ≡ make_context ∷ []
    → c.contexts ≡ suc k
    → (mgr_stop c ≡ some (record c { exit = true; canceled = k ∷ c.canceled }))
      × ((c'' : EventTracing) × Go (record c { exit = true; canceled = k ∷ c.canceled }) c''
          × (c''.goroutines ≡ run_tracer (suc k) ∷ [])
          × (c''.exit ≡ true)
          × ¬ IsCanceled (suc k) c''.canceled)
stop-lost {c} {k} reach e rounds =
    let v = Reach-IsValid reach in
    let shape = v.shape in
    let (r, _) = rw e at shape in
    let n = last_one c.contexts k c.cancel_ctx v.current_made rounds in
    let made = v.canceled_made in
    (
      mgr_stop-some c k r n,
      (
        _,
        go [] [] e runs,
        ap (λ m. run_tracer m ∷ []) rounds,
        refl,
        not-IsCanceled (suc k) (k ∷ c.canceled) (omega arith, rw rounds at made),
      ),
    )
  where
    last_one : (n k : ℕ) (o : Option ℕ) → IsLast n o → n ≡ suc k → o ≡ some k
    last_one n k none last e = absurd (omega arith)
    last_one n k (some j) last e = let same : j ≡ k = omega arith in ap some same
