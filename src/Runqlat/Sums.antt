-- ===== src/Runqlat/Sums.antt =====
-- Sums of the counters of the groups of bpf/runqlat_tracing.c, over a list of groups.
use jidick.Base.{
  ℕ, ◌≡◌, ◌≢◌, refl, sym, ◌∙◌, ap, Bool, true, List, [], ◌∷◌, arith, All, All-map, All-intro, add64,
  inl, inr, ◌⊎◌, get_or,
}
use jidick.Kernel.BpfMap.{BpfMap, nat_eq, lookup_or_init, modify}
use jidick.Kernel.Laws.{
  entry_or, lookup_or_init-entry, lookup_or_init-there, lookup-modify_self, lookup-modify_ne,
}
use jidick.Runqlat.{StatT, new_stat, add_switch, g_add_switch, add_latency}
use jidick.Runqlat.Buckets.{as_host}

-- The sums of the counters of two groups.
unfoldable pub plus : StatT → StatT → StatT
plus a b = record {
  nvcsw = add64 a.nvcsw b.nvcsw;
  nivcsw = add64 a.nivcsw b.nivcsw;
  nlat_01 = add64 a.nlat_01 b.nlat_01;
  nlat_02 = add64 a.nlat_02 b.nlat_02;
  nlat_03 = add64 a.nlat_03 b.nlat_03;
  nlat_04 = add64 a.nlat_04 b.nlat_04;
}

plus_comm : (a b : StatT) → plus a b ≡ plus b a
unfolding plus
plus_comm a b = ground arith

-- What is counted for one group is counted in the sum.
pub add_switch-plus : (v : Bool) (a b : StatT) → add_switch v (plus a b) ≡ plus (add_switch v a) b
unfolding add_switch plus
add_switch-plus v a b = ground arith

pub add_latency-plus : (d : ℕ) (a b : StatT) → add_latency d (plus a b) ≡ plus (add_latency d a) b
unfolding add_latency plus
add_latency-plus d a b = ground arith

pub g_add_switch-as_host :
    (v : Bool) (e : StatT) → g_add_switch v (as_host e) ≡ as_host (add_switch v e)
unfolding g_add_switch add_switch
g_add_switch-as_host v e = ground arith

-- A group is one of the list, once; 0 is no group.
abbrev pub Once : ℕ → List ℕ → Type 0
Once k [] = ⊥
Once k (x ∷ xs) = ((k ≡ x) × All (λ j. k ≢ j) xs) ⊎ ((k ≢ x) × Once k xs)

abbrev pub Listed : List ℕ → ℕ → Type 0
Listed groups k = (k ≡ 0) ⊎ Once k groups

module _ {T : Type 0} (tg : BpfMap T ℕ StatT nat_eq) where
  -- The counters of the listed groups, summed up; a group without an entry has counted nothing.
  unfoldable pub total : T → List ℕ → StatT
  total t [] = new_stat
  total t (k ∷ ks) = plus (entry_or tg t k new_stat) (total t ks)

  pub total-same :
      (t t' : T) (ks : List ℕ)
      → All (λ j. entry_or tg t' j new_stat ≡ entry_or tg t j new_stat) ks
      → total t' ks ≡ total t ks
  unfolding total
  total-same t t' [] h = refl
  total-same t t' (k ∷ ks) h = rw (h.0, total-same t t' ks h.1)

  -- A change of one listed group that a sum passes on is a change of the sum.
  total-change :
      (f : StatT → StatT) (t t' : T) (k : ℕ) (ks : List ℕ)
      → ((a b : StatT) → f (plus a b) ≡ plus (f a) b)
      → Once k ks
      → entry_or tg t' k new_stat ≡ f (entry_or tg t k new_stat)
      → ((j : ℕ) → k ≢ j → entry_or tg t' j new_stat ≡ entry_or tg t j new_stat)
      → total t' ks ≡ f (total t ks)
  unfolding total
  total-change f t t' k [] passes once at_k others = elim once [ ]
  total-change f t t' k (x ∷ xs) passes (inl (here, apart)) at_k others =
      let same = total-same t t' xs (All-map others xs apart) in
      let at_x : entry_or tg t' x new_stat ≡ f (entry_or tg t x new_stat) = rw (← here) at_k in
      rw (same, at_x) (sym (passes _ _))
  total-change f t t' k (x ∷ xs) passes (inr (apart, once)) at_k others =
      let rest = total-change f t t' k xs passes once at_k others in
      rw (rest, others x apart) (plus_comm _ _ ∙ sym (passes _ _) ∙ ap f (plus_comm _ _))

  pub total-lookup_or_init :
      (t : T) (k : ℕ) (ks : List ℕ) → total (lookup_or_init tg t k new_stat).0 ks ≡ total t ks
  total-lookup_or_init t k ks =
      total-same t (lookup_or_init tg t k new_stat).0 ks
        (All-intro (lookup_or_init-entry tg t k new_stat) ks)

  -- A change through the pointer to the entry of a listed group.
  pub total-modify :
      (f : StatT → StatT) (t : T) (k : ℕ) (ks : List ℕ)
      → ((a b : StatT) → f (plus a b) ≡ plus (f a) b)
      → Once k ks
      → (lookup_or_init tg t k new_stat).1 ≡ true
      → total (modify tg (lookup_or_init tg t k new_stat).0 k f) ks ≡ f (total t ks)
  total-modify f t k ks passes once found =
      let t₁ = (lookup_or_init tg t k new_stat).0 in
      let there = lookup_or_init-there tg t k new_stat found in
      let changed = lookup-modify_self tg t₁ k f (entry_or tg t k new_stat) there in
      total-change f t (modify tg t₁ k f) k ks passes once (ap (λ o. get_or o new_stat) changed)
        (λ j apart.
          ap (λ o. get_or o new_stat) (lookup-modify_ne tg t₁ k f j apart)
          ∙ lookup_or_init-entry tg t k new_stat j)
