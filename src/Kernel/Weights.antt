-- ===== src/Kernel/Weights.antt =====
-- CPUs that run the same program: what a step does to sums over the places where they stand.
use jidick.Base.{ℕ, ◌+◌, ◌*◌, ◌≤◌, ◌≡◌, refl, arith, List, [], ◌∷◌, length}
use jidick.Kernel.Cpus.{Step, Steps, here, there, done, step}
use jidick.Kernel.Overrun.{total}

pub total-le :
    {P : Type 0} (weight : P → ℕ) (most : ℕ)
    → ((p : P) → weight p ≤ most)
    → (ps : List P) → total weight ps ≤ length ps * most
total-le weight most each [] = omega arith
total-le weight most each (p ∷ ps) =
    let here = each p in let rest = total-le weight most each ps in grind arith

-- A step as the move of one CPU, and its effect on every sum of weights.
pub record Moved {S P : Type 0} (Move : S → P → S → P → Type 0) (s : S) (ps : List P) (s' : S)
    (ps' : List P) : Type 0 where
  pub old : P
  pub new : P
  pub move : Move s old s' new
  pub same_number : length ps' ≡ length ps
  pub sums : (weight : P → ℕ) → total weight ps' + weight old ≡ total weight ps + weight new
  pub among : (weight : P → ℕ) → weight old ≤ total weight ps

pub Step-Moved :
    {S P : Type 0} {Move : S → P → S → P → Type 0} {s s' : S} {ps ps' : List P}
    → Step Move s ps s' ps'
    → Moved Move s ps s' ps'
Step-Moved (here {p} {p'} m) = record {
  old = p;
  new = p';
  move = m;
  same_number = refl;
  sums = λ weight. omega arith;
  among = λ weight. omega arith;
}
Step-Moved (there {p} st) =
    let h = Step-Moved st in
    record {
      old = h.old;
      new = h.new;
      move = h.move;
      same_number = let same = h.same_number in omega arith;
      sums = λ weight. omega (arith, h.sums weight);
      among = λ weight. omega (arith, h.among weight);
    }

-- Steps of one kind are steps of another one that has all its moves.
module _ {S P : Type 0} {Move Move' : S → P → S → P → Type 0}
    (weaker : (s : S) (p : P) (s' : S) (p' : P) → Move s p s' p' → Move' s p s' p') where
  Step-map : {s s' : S} {ps ps' : List P} → Step Move s ps s' ps' → Step Move' s ps s' ps'
  Step-map (here m) = here (weaker _ _ _ _ m)
  Step-map (there st) = there (Step-map st)

  pub Steps-map :
      {s : S} {ps : List P} {s' : S} {ps' : List P}
      → Steps Move s ps s' ps'
      → Steps Move' s ps s' ps'
  Steps-map done = done
  Steps-map (step before st) = step (Steps-map before) (Step-map st)
