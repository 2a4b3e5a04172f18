-- ===== src/Symbol/Ksymbols/Search.antt =====
-- What the search of internal/symbol/ksymbols.go finds.
use jidick.Base.{
  ℕ, zero, suc, ◌+◌, ◌-◌, ◌/◌, ◌≤◌, ◌<◌, ◌≡◌, inl, inr, refl, sym, ap, ◌∙◌, arith, ltb, ◌==◌, true,
  false, some, List, [], ◌∷◌, ◌++◌, length, get_elem?, get_elem?-some, get_elem?-append,
  get_elem?-length, All, Bool-cases,
}
use jidick.Symbol.Ksymbols.{Symbol, search_loop, symbol_at, ksymbol_search}

-- Addresses that do not fall.
abbrev pub Ordered : List Symbol → Type 0
Ordered [] = Unit
Ordered (s ∷ ss) = All (λ t. s.addr ≤ t.addr) ss × Ordered ss

-- The symbol at an index below `n`.
abbrev pub IsAt : List Symbol → ℕ → ℕ → Symbol → Type 0
IsAt cache n k s = (k < n) × (get_elem? cache k ≡ some s)

module _ (cache : List Symbol) (n key : ℕ) where
  -- The symbols before `i` lie below the key, and those from `j` on above it.
  record Splits (i j : ℕ) : Type 0 where
    pub ordered : i ≤ j
    pub inside : j ≤ n
    pub below : (k : ℕ) (s : Symbol) → k < i → IsAt cache n k s → s.addr < key
    pub above : (k : ℕ) (s : Symbol) → j ≤ k → IsAt cache n k s → key < s.addr

  -- Where the loop may end.
  data Ends (r : ℕ) : Type 0 where
    hit : (s : Symbol) → IsAt cache n r s → s.addr ≡ key → Ends r
    gap : Splits r r → Ends r

module _ (cache : List Symbol) (n key : ℕ)
    (long : (k : ℕ) → k < n → (s : Symbol) × IsAt cache n k s)
    (sorted : (a b : ℕ) (s t : Symbol)
      → a ≤ b
      → IsAt cache n a s
      → IsAt cache n b t
      → s.addr ≤ t.addr) where
  upper :
      (i j h : ℕ) (s : Symbol)
      → h < j
      → IsAt cache n h s
      → s.addr < key
      → Splits cache n key i j
      → Splits cache n key (h + 1) j
  upper i j h s hj at lt sp = record {
    ordered = omega arith;
    inside = sp.inside;
    below = λ k t kh at'. let le = sorted k h t s (omega arith) at' at in omega arith;
    above = sp.above;
  }

  lower :
      (i j h : ℕ) (s : Symbol)
      → i ≤ h
      → h < j
      → IsAt cache n h s
      → key < s.addr
      → Splits cache n key i j
      → Splits cache n key i h
  lower i j h s ih hj at gt sp = record {
    ordered = ih;
    inside = omega (arith, sp.inside);
    below = sp.below;
    above = λ k t hk at'. let le = sorted h k s t hk at at' in omega arith;
  }

  search_loop-Ends :
      (fuel i j : ℕ)
      → j ≤ i + fuel
      → Splits cache n key i j
      → (r : ℕ) × (search_loop cache key fuel i j ≡ some r) × Ends cache n key r
  unfolding search_loop
  search_loop-Ends zero i j enough sp =
      let same : i ≡ j = omega (arith, sp.ordered) in
      let out : ltb i j ≡ false = ground (arith, sp.ordered) in
      (i, rw out refl, gap (rw (← same) at sp))
  search_loop-Ends (suc fuel) i j enough sp = elim (Bool-cases (ltb i j)) [
    | inr out ↦
        let same : i ≡ j = ground (arith, sp.ordered) in
        (i, rw (out, search_loop) refl, gap (rw (← same) at sp))
    | inl more ↦
        let i_h : i ≤ (i + j) / 2 = ground arith in
        let h_j : (i + j) / 2 < j = ground arith in
        let (s, at) = long ((i + j) / 2) (omega (arith, sp.inside)) in
        elim (Bool-cases (s.addr == key)) [
          | inl e ↦ ((i + j) / 2, rw (more, search_loop, at.1, e) refl, hit s at (ground arith))
          | inr e ↦ elim (Bool-cases (ltb s.addr key)) [
            | inl l ↦
                let (r, found, ends) =
                  search_loop-Ends fuel ((i + j) / 2 + 1) j (omega arith)
                    (upper i j ((i + j) / 2) s h_j at (ground arith) sp) in
                (r, rw (more, search_loop, at.1, e, l) found, ends)
            | inr l ↦
                let (r, found, ends) =
                  search_loop-Ends fuel i ((i + j) / 2) (omega arith)
                    (lower i j ((i + j) / 2) s i_h h_j at (ground arith) sp) in
                (r, rw (more, search_loop, at.1, e, l) found, ends)
          ]
        ]
  ]

  -- The loop ends in time: at the key, or where the symbols above it begin.
  loop-Ends : (r : ℕ) × (search_loop cache key n 0 n ≡ some r) × Ends cache n key r
  loop-Ends = search_loop-Ends n 0 n (omega arith) (record {
    ordered = omega arith;
    inside = omega arith;
    below = λ k s lt at. absurd (omega arith);
    above = λ k s le at. absurd (omega (arith, at.0));
  })

  -- The symbol that is nearest to the key from below.
  abbrev Nearest : Symbol → Type 0
  Nearest s =
      (s.addr ≤ key) × ((k : ℕ) (t : Symbol) → IsAt cache n k t → t.addr ≤ key → t.addr ≤ s.addr)

  -- The symbol that the loop stops at, past the last one at most.
  read_at :
      (r : ℕ) (spare : Symbol)
      → get_elem? cache n ≡ some spare
      → spare.addr < key
      → Splits cache n key r r
      → (x : Symbol) × (get_elem? cache r ≡ some x) × ((x.addr == key) ≡ false)
  read_at r spare end lowest sp = elim (Bool-cases (ltb r n)) [
    | inl inside ↦
        let (x, at) = long r (ground arith) in
        let above = sp.above r x (omega arith) at in (x, at.1, ground arith)
    | inr out ↦
        let same : r ≡ n = ground (arith, sp.inside) in
        (spare, ap (get_elem? cache) same ∙ end, ground arith)
  ]

  symbol_at-Nearest :
      (r k : ℕ) (spare t : Symbol)
      → get_elem? cache n ≡ some spare
      → spare.addr ≡ 0
      → IsAt cache n k t
      → t.addr ≤ key
      → Ends cache n key r
      → (s : Symbol) × (symbol_at cache key r ≡ some s) × Nearest s
  unfolding symbol_at
  symbol_at-Nearest r k spare t end blank at_k le (hit s at e) =
      let found : (s.addr == key) ≡ true = ground arith in
      (s, rw (at.1, symbol_at, found) refl, (omega arith, λ k t at_k le. omega arith))
  symbol_at-Nearest r k spare t end blank at_k le (gap sp) = elim (Bool-cases (ltb k r)) [
    | inr out ↦ let above = sp.above k t (ground arith) at_k in absurd (omega arith)
    | inl before ↦
        let below = sp.below k t (ground arith) at_k in
        let (x, at_r, other) = read_at r spare end (omega arith) sp in
        let (s, at) = long (r - 1) (ground (arith, sp.inside)) in
        let later : (r == 0) ≡ false = ground arith in
        let s_below = sp.below (r - 1) s (ground arith) at in
        (
          s,
          rw (at_r, symbol_at, other, later) at.1,
          (
            omega arith,
            λ k' t' at' le'. elim (Bool-cases (ltb k' r)) [
              | inl b ↦ sorted k' (r - 1) t' s (ground arith) at' at
              | inr b ↦ let above = sp.above k' t' (ground arith) at' in absurd (omega arith)
            ],
          ),
        )
  ]

All-get_elem? :
    (a : ℕ) (xs : List Symbol) (k : ℕ) (t : Symbol)
    → All (λ u. a ≤ u.addr) xs
    → get_elem? xs k ≡ some t
    → a ≤ t.addr
unfolding get_elem?
All-get_elem? a [] k t h e = absurd (cc e)
All-get_elem? a (x ∷ xs) zero t h e = let same : x ≡ t = cc e in rw (← same) h.0
All-get_elem? a (x ∷ xs) (suc k) t h e = All-get_elem? a xs k t h.1 e

Ordered-get_elem? :
    (xs : List Symbol) (a b : ℕ) (s t : Symbol)
    → Ordered xs
    → a ≤ b
    → get_elem? xs a ≡ some s
    → get_elem? xs b ≡ some t
    → s.addr ≤ t.addr
unfolding get_elem?
Ordered-get_elem? [] a b s t o le e f = absurd (cc e)
Ordered-get_elem? (x ∷ xs) zero zero s t o le e f =
    let same : s ≡ t = cc (e, f) in rw same (omega arith)
Ordered-get_elem? (x ∷ xs) zero (suc b) s t o le e f =
    let same : x ≡ s = cc e in rw (← same) (All-get_elem? x.addr xs b t o.0 f)
Ordered-get_elem? (x ∷ xs) (suc a) zero s t o le e f = absurd (omega arith)
Ordered-get_elem? (x ∷ xs) (suc a) (suc b) s t o le e f =
    Ordered-get_elem? xs a b s t o.1 (omega arith) e f

-- In a table of symbols in the order of their addresses that is not full, the search ends, and
-- finds for every address that is not below all of them a symbol that is at it or nearest below it.
pub ksymbol_search-Nearest :
    (symbols rest : List Symbol) (spare t : Symbol) (key k : ℕ)
    → Ordered symbols
    → spare.addr ≡ 0
    → get_elem? symbols k ≡ some t
    → k < length symbols
    → t.addr ≤ key
    → let table = symbols ++ spare ∷ rest in
      (s : Symbol) × (ksymbol_search table key (length symbols) ≡ some s)
      × (s.addr ≤ key)
      × ((j : ℕ) (u : Symbol) → IsAt table (length symbols) j u → u.addr ≤ key → u.addr ≤ s.addr)
unfolding ksymbol_search
ksymbol_search-Nearest symbols rest spare t key k ordered blank is inside le =
    let table = symbols ++ spare ∷ rest in
    let n = length symbols in
    let (r, ends, found) = loop-Ends table n key long sorted in
    let (s, at, nearest) =
      symbol_at-Nearest table n key long sorted r k spare t (get_elem?-length symbols rest spare)
        blank (inside, get_elem?-append symbols (spare ∷ rest) k inside ∙ is) le found in
    (s, rw ends at, nearest.0, nearest.1)
  where
    long :
        (j : ℕ)
        → j < length symbols
        → (u : Symbol) × IsAt (symbols ++ spare ∷ rest) (length symbols) j u
    long j h =
        let (u, e) = get_elem?-some symbols j h in
        (u, (h, get_elem?-append symbols (spare ∷ rest) j h ∙ e))

    sorted :
        (a b : ℕ) (u v : Symbol)
        → a ≤ b
        → IsAt (symbols ++ spare ∷ rest) (length symbols) a u
        → IsAt (symbols ++ spare ∷ rest) (length symbols) b v
        → u.addr ≤ v.addr
    sorted a b u v h (ia, ea) (ib, eb) =
        Ordered-get_elem? symbols a b u v ordered h
          (sym (get_elem?-append symbols (spare ∷ rest) a ia) ∙ ea)
          (sym (get_elem?-append symbols (spare ∷ rest) b ib) ∙ eb)
