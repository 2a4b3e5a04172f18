-- ===== src/Kernel/Cpus.antt =====
-- CPUs that run the same program on a state that they share, one access at a time.
use jidick.Base.{List, ◌∷◌}

-- `Move s p s' p'`: a CPU that stands at `p` accesses the state `s`, leaves `s'`, and stands at `p'`.
module _ {S P : Type 0} (Move : S → P → S → P → Type 0) where
  -- A move of one of the CPUs.
  pub data Step (s : S) : List P → S → List P → Type 0 where
    here : {p p' : P} {s' : S} {ps : List P} → Move s p s' p' → Step s (p ∷ ps) s' (p' ∷ ps)
    there : {p : P} {s' : S} {ps ps' : List P} → Step s ps s' ps' → Step s (p ∷ ps) s' (p ∷ ps')

  -- Any number of steps, in any order.
  pub data Steps (s : S) (ps : List P) : S → List P → Type 0 where
    done : Steps s ps s ps
    step :
        {s' s'' : S} {ps' ps'' : List P}
        → Steps s ps s' ps'
        → Step s' ps' s'' ps''
        → Steps s ps s'' ps''

module _ {S P : Type 0} {Move : S → P → S → P → Type 0} where
  pub append :
      {s s' : S} {ps ps' : List P} {s'' : S} {ps'' : List P}
      → Steps Move s ps s' ps'
      → Steps Move s' ps' s'' ps''
      → Steps Move s ps s'' ps''
  append one done = one
  append one (step two m) = step (append one two) m

  -- One more CPU, which waits.
  pub others :
      {s : S} {ps : List P} {s' : S} {ps' : List P} (p : P)
      → Steps Move s ps s' ps'
      → Steps Move s (p ∷ ps) s' (p ∷ ps')
  others p done = done
  others p (step ms m) = step (others p ms) (there m)
