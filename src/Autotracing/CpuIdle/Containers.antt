-- ===== src/Autotracing/CpuIdle/Containers.antt =====
-- Which containers core/autotracing/cpuidle.go keeps from one round to the next.
use jidick.Base.{
  ℕ, ◌/◌, ◌≢◌, ◌≡◌, refl, ap, ◌∙◌, sym, arith, Bool, true, false, Option, none, some, Option-cases,
  Bool-cases, inl, inr, ◌==◌, ◌&&◌, ◌||◌, List, [], ◌∷◌,
}
use jidick.Autotracing.CpuIdle.{
  ContainerCpuInfo, CpuIdleThreshold, Reading, UpdateError, compare_percentages, update_usage,
  update_container_cpu_usage, visit, should_care_this_event, Containers, detect_cpu_idle_container,
  update_container, update_containers_cpu_idle,
}

abbrev pub has : ℕ → Containers → Bool
has id [] = false
has id ((k, c) ∷ cs) = k == id || has id cs

-- An entry that the next loop of `detectCPUIdleContainer` does not delete.
abbrev pub has_alive : ℕ → Containers → Bool
has_alive id [] = false
has_alive id ((k, c) ∷ cs) = (k == id && c.alive) || has_alive id cs

abbrev pub is_listed : ℕ → List (ℕ × List ℕ) → Bool
is_listed id [] = false
is_listed id ((k, path) ∷ listed) = k == id || is_listed id listed

-- A round of `Start`: the list of containers, and the loop over all.
unfoldable pub round :
    CpuIdleThreshold
    → (ℕ → Reading)
    → List (ℕ × List ℕ)
    → Containers
    → Option (Containers × Option ContainerCpuInfo)
round th readings listed cs =
    detect_cpu_idle_container th readings (update_containers_cpu_idle listed cs)

update_container-has_alive :
    (id k : ℕ) (path : List ℕ) (cs : Containers)
    → has_alive id (update_container k path cs) ≡ (k == id || has_alive id cs)
unfolding update_container
update_container-has_alive id k path [] = ground arith
update_container-has_alive id k path ((j, c) ∷ cs) =
    let ih = update_container-has_alive id k path cs in ground arith

update_containers-has_alive :
    (id : ℕ) (listed : List (ℕ × List ℕ)) (cs : Containers)
    → has_alive id (update_containers_cpu_idle listed cs) ≡ (is_listed id listed || has_alive id cs)
unfolding update_containers_cpu_idle
update_containers-has_alive id [] cs = refl
update_containers-has_alive id ((k, path) ∷ listed) cs =
    let ih = update_containers-has_alive id listed (update_container k path cs) in
    let here = update_container-has_alive id k path cs in
    ih ∙ ap (λ b. is_listed id listed || b) here ∙ ground arith

-- An update changes no flag.
abbrev Flagged : Bool → Option (ContainerCpuInfo × Option UpdateError) → Type 0
Flagged b none = Unit
Flagged b (some (c, err)) = c.alive ≡ b

update_usage-Flagged :
    (r : Reading) (cores : ℕ) (c : ContainerCpuInfo) → Flagged c.alive (update_usage r cores c)
unfolding update_usage compare_percentages
update_usage-Flagged r cores c = elim (Option-cases r.cpu_usage) [
  | inl e ↦ rw (e, update_usage) refl
  | inr (usage, e) ↦ ground arith
]

update-Flagged :
    (r : Reading) (c : ContainerCpuInfo) → Flagged c.alive (update_container_cpu_usage r c)
unfolding update_container_cpu_usage
update-Flagged r c = elim (Option-cases r.quota_and_period) [
  | inl e ↦ rw (e, update_container_cpu_usage) refl
  | inr ((quota, period), e) ↦ let used = update_usage-Flagged r (quota / period) c in ground arith
]

should_care-alive :
    (th : CpuIdleThreshold) (now : ℕ) (c : ContainerCpuInfo)
    → (should_care_this_event th now c).0.alive ≡ c.alive
unfolding should_care_this_event
should_care-alive th now c = ground arith

some_ne_none {ℓ} : {A : Type ℓ} {a : A} → some a ≢ none
some_ne_none e = cc e

visit-alive :
    (th : CpuIdleThreshold) (r : Reading) (c c' : ContainerCpuInfo) (found : Bool)
    → visit th r c ≡ some (c', found)
    → c'.alive ≡ false
unfolding visit
visit-alive th r c c' found e =
    let flag = update-Flagged r (record c { alive = false }) in
    elim (Option-cases (update_container_cpu_usage r (record c { alive = false }))) [
      | inl u ↦ absurd (some_ne_none (sym (rw (u, visit) at e)))
      | inr ((d, some err), u) ↦
          let same : d ≡ c' = cc (rw (u, visit) at e) in
          let off : d.alive ≡ false = rw u at flag in ap (λ x. x.alive) (sym same) ∙ off
      | inr ((d, none), u) ↦
          let same : (should_care_this_event th r.care d).0 ≡ c' = cc (rw (u, visit) at e) in
          let off : d.alive ≡ false = rw u at flag in
          ap (λ x. x.alive) (sym same) ∙ should_care-alive th r.care d ∙ off
    ]

has_alive-has : (id : ℕ) (cs : Containers) → has_alive id cs ≡ true → has id cs ≡ true
has_alive-has id [] h = absurd cc
has_alive-has id ((k, c) ∷ cs) h = let ih = has_alive-has id cs in ground arith

-- What a loop leaves of the map.
record Left (before after : Containers) (found : Option ContainerCpuInfo) (id : ℕ) : Type 0 where
  pub kept : has_alive id before ≡ true → has id after ≡ true
  pub no_more : found ≡ none → has id after ≡ has_alive id before
  pub flags : found ≡ none → has_alive id after ≡ false

Left-skip :
    (k id : ℕ) (c : ContainerCpuInfo) (cs after : Containers) (found : Option ContainerCpuInfo)
    → c.alive ≡ false
    → Left cs after found id
    → Left ((k, c) ∷ cs) after found id
Left-skip k id c cs after found off l = ground (arith, l.kept, l.no_more, l.flags)

Left-stop :
    (k id : ℕ) (c c' : ContainerCpuInfo) (cs : Containers)
    → Left ((k, c) ∷ cs) ((k, c') ∷ cs) (some c') id
Left-stop k id c c' cs = record {
  kept = λ h. let ih = has_alive-has id cs in ground arith;
  no_more = λ e. absurd (some_ne_none e);
  flags = λ e. absurd (some_ne_none e);
}

Left-visit :
    (k id : ℕ) (c c' : ContainerCpuInfo) (cs after : Containers) (found : Option ContainerCpuInfo)
    → c.alive ≡ true
    → c'.alive ≡ false
    → Left cs after found id
    → Left ((k, c) ∷ cs) ((k, c') ∷ after) found id
Left-visit k id c c' cs after found on off l = ground (arith, l.kept, l.no_more, l.flags)

detect-Left :
    (th : CpuIdleThreshold) (readings : ℕ → Reading) (cs after : Containers)
    (found : Option ContainerCpuInfo) (id : ℕ)
    → detect_cpu_idle_container th readings cs ≡ some (after, found)
    → Left cs after found id
unfolding detect_cpu_idle_container visit
detect-Left th readings [] after found id e =
    let same : [] ≡ after = cc e in
    rw (← same) (record { kept = λ h. absurd cc; no_more = λ h. refl; flags = λ h. refl })
detect-Left th readings ((k, c) ∷ cs) after found id e = elim (Bool-cases c.alive) [
  | inl on ↦ elim (Option-cases (visit th (readings k) c)) [
    | inl v ↦ absurd (some_ne_none (sym (rw (on, v, detect_cpu_idle_container) at e)))
    | inr ((c', true), v) ↦
        let same : (k, c') ∷ cs ≡ after = cc (rw (on, v, detect_cpu_idle_container) at e) in
        let is : some c' ≡ found = cc (rw (on, v, detect_cpu_idle_container) at e) in
        rw (← same, ← is) (Left-stop k id c c' cs)
    | inr ((c', false), v) ↦ elim (Option-cases (detect_cpu_idle_container th readings cs)) [
      | inl d ↦ absurd (some_ne_none (sym (rw (on, v, d, detect_cpu_idle_container) at e)))
      | inr ((cs', f), d) ↦
          let all : some ((k, c') ∷ cs', f) ≡ some (after, found) =
            rw (on, v, d, detect_cpu_idle_container) at e in
          let same : (k, c') ∷ cs' ≡ after = cc all in
          let is : f ≡ found = cc all in
          rw (← same, ← is)
            (Left-visit k id c c' cs cs' f on (visit-alive th (readings k) c c' false v)
              (detect-Left th readings cs cs' f id d))
    ]
  ]
  | inr off ↦
      Left-skip k id c cs after found off
        (detect-Left th readings cs after found id (rw (off, detect_cpu_idle_container) at e))
]

-- A container that is on the list of a round is in the map after it, wherever the loop ended.
listed-kept :
    (th : CpuIdleThreshold) (readings : ℕ → Reading) (listed : List (ℕ × List ℕ))
    (cs after : Containers) (found : Option ContainerCpuInfo) (id : ℕ)
    → round th readings listed cs ≡ some (after, found)
    → is_listed id listed ≡ true
    → has id after ≡ true
unfolding round
listed-kept th readings listed cs after found id e h =
    let l = detect-Left th readings _ after found id e in
    l.kept (update_containers-has_alive id listed cs ∙ ground arith)

-- After a round that reports nothing, and another one, exactly the containers on its own list are
-- in the map, if it reports nothing either.
kept_iff-listed :
    (th : CpuIdleThreshold) (readings readings' : ℕ → Reading) (listed listed' : List (ℕ × List ℕ))
    (cs between after : Containers) (id : ℕ)
    → round th readings listed cs ≡ some (between, none)
    → round th readings' listed' between ≡ some (after, none)
    → has id after ≡ is_listed id listed'
unfolding round
kept_iff-listed th readings readings' listed listed' cs between after id e e' =
    let l = detect-Left th readings _ between none id e in
    let l' = detect-Left th readings' _ after none id e' in
    let off = l.flags refl in
    l'.no_more refl ∙ update_containers-has_alive id listed' between ∙ ground arith
