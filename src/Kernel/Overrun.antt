-- ===== src/Kernel/Overrun.antt =====
-- CPUs that test a counter against a bound and add to it in a later access: the counter can pass
-- the bound only by those that stand between the two.
use jidick.Base.{ℕ, ◌+◌, ◌≤◌, ◌<◌, ◌≡◌, refl, arith, List, [], ◌∷◌, length, replicate, zero, suc}
use jidick.Kernel.Cpus.{Step, Steps, here, there, done, step}

abbrev pub total : {P : Type 0} → (P → ℕ) → List P → ℕ
total weight [] = 0
total weight (p ∷ ps) = weight p + total weight ps

-- `weight p` is 1 where a CPU has passed the test and not yet added to `count`. A move keeps `Ok` and
-- the bound, whichever `a` of `b` other CPUs are in between as well.
module _ {S P : Type 0} (Move : S → P → S → P → Type 0) (weight : P → ℕ) (count : S → ℕ)
    (Ok : S → Type 0) (bound : ℕ) (weight-le : (p : P) → weight p ≤ 1)
    (move-bound : (s s' : S) (p p' : P) (a b : ℕ)
      → Move s p s' p'
      → a ≤ b
      → Ok s
      → count s + weight p + a < bound + 1 + b
      → Ok s' × (count s' + weight p' + a < bound + 1 + b)) where
  total-le : (ps : List P) → total weight ps ≤ length ps
  total-le [] = omega arith
  total-le (p ∷ ps) = omega (arith, weight-le p, total-le ps)

  Step-bound :
      {s s' : S} {ps ps' : List P} (a b : ℕ)
      → Step Move s ps s' ps'
      → a ≤ b
      → Ok s
      → count s + total weight ps + a < bound + length ps + b
      → Ok s'
        × (length ps' ≡ length ps)
        × (count s' + total weight ps' + a < bound + length ps' + b)
  Step-bound {s} {s'} a b (here {p} {p'} {ps} m) le ok lt =
      let rest = total-le ps in
      let (ok', lt') =
        move-bound s s' p p' (total weight ps + a) (length ps + b) m (omega (arith, rest)) ok
          (omega arith) in
      (ok', refl, omega (arith, lt'))
  Step-bound a b (there {p} {ps} {ps'} st) le ok lt =
      let one = weight-le p in
      let (ok', same, lt') =
        Step-bound (weight p + a) (1 + b) st (omega (arith, one)) ok (omega arith) in
      (ok', omega (arith, same), omega (arith, lt'))

  pub Steps-bound :
      {s : S} {ps : List P} {s' : S} {ps' : List P}
      → Ok s
      → count s + total weight ps < bound + length ps
      → Steps Move s ps s' ps'
      → Ok s' × (length ps' ≡ length ps) × (count s' + total weight ps' < bound + length ps')
  Steps-bound ok lt done = (ok, refl, lt)
  Steps-bound ok lt (step before st) =
      let (ok', same, lt') = Steps-bound ok lt before in
      let (ok'', same', lt'') = Step-bound 0 0 st (omega arith) ok' (omega (arith, lt')) in
      (ok'', omega (arith, same, same'), omega (arith, lt''))

pub total-replicate :
    {P : Type 0} (weight : P → ℕ) (p : P) (n : ℕ)
    → weight p ≡ 0
    → (total weight (replicate n p) ≡ 0) × (length (replicate n p) ≡ n)
unfolding replicate
total-replicate weight p zero h = (refl, refl)
total-replicate weight p (suc n) h = omega (arith, h, total-replicate weight p n h)
