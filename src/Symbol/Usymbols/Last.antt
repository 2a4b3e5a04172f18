-- ===== src/Symbol/Usymbols/Last.antt =====
-- What the searches of internal/symbol/usymbols.go find, and what they cannot.
use jidick.Base.{
  ℕ, suc, ◌-◌, ◌≤◌, ◌<◌, ◌≡◌, refl, arith, ltb, leb, ◌==◌, true, false, not, ◌&&◌, add64,
  if◌then◌else◌, List, [], ◌∷◌, ◌++◌, length, get_elem?-length, length-append, All,
}
use jidick.Symbol.Usymbols.{
  Symbol, search_above, symbol_starts, check_symbol, search_sym, is_empty, unknown,
}

-- Every start lies at or below the address.
search_above-none :
    (addr : ℕ) (ss : List Symbol)
    → All (λ s. s.start ≤ addr) ss
    → search_above addr (symbol_starts ss) ≡ length ss
unfolding search_above
search_above-none addr [] h = refl
search_above-none addr (s ∷ ss) h =
    let here : ltb addr s.start ≡ false = ground (arith, h.0) in
    rw (here, search_above-none addr ss h.1) refl

-- No address at or after the start of the last symbol has a name: the search for a start above it
-- comes to the end of the table, where it gives up, although the last symbol may hold the address.
pub search_sym-last :
    (addr : ℕ) (symbols : List Symbol)
    → All (λ s. s.start ≤ addr) symbols
    → search_sym addr symbols ≡ []
unfolding search_sym
search_sym-last addr symbols h =
    let all = search_above-none addr symbols h in
    let same : (search_above addr (symbol_starts symbols) == length symbols) ≡ true =
      rw all (ground arith) in
    rw (same, search_sym) refl

-- The first start above the address is that of the second symbol.
search_above-between :
    (addr : ℕ) (before : List Symbol) (s after : Symbol) (rest : List Symbol)
    → All (λ t. t.start ≤ addr) before
    → s.start ≤ addr
    → addr < after.start
    → search_above addr (symbol_starts (before ++ s ∷ after ∷ rest)) ≡ suc (length before)
unfolding search_above
search_above-between addr [] s after rest h le lt =
    let here : ltb addr s.start ≡ false = ground arith in
    let next : ltb addr after.start ≡ true = ground arith in rw (here, next) refl
search_above-between addr (t ∷ before) s after rest h le lt =
    let here : ltb addr t.start ≡ false = ground (arith, h.0) in
    rw (here, search_above-between addr before s after rest h.1 le lt) refl

-- An address between the start of a symbol and that of the next one has the name of the first,
-- exactly if it has one and its size reaches to the address.
pub search_sym-between :
    (addr : ℕ) (before : List Symbol) (s after : Symbol) (rest : List Symbol)
    → All (λ t. t.start ≤ addr) before
    → s.start ≤ addr
    → addr < after.start
    → search_sym addr (before ++ s ∷ after ∷ rest)
      ≡ (if not (is_empty s.name) && ltb addr (add64 s.start s.size) then s.name else unknown)
unfolding search_sym check_symbol
search_sym-between addr before s after rest h le lt =
    let symbols = before ++ s ∷ after ∷ rest in
    let index = search_above-between addr before s after rest h le lt in
    let more = length-append before (s ∷ after ∷ rest) in
    let inside : (suc (length before) == length symbols) ≡ false = ground arith in
    let here : leb s.start addr ≡ true = ground arith in
    let first : (suc (length before) == 0) ≡ false = ground arith in
    let one : suc (length before) - 1 ≡ length before = omega arith in
    rw
      (
        index,
        search_sym,
        inside,
        first,
        one,
        get_elem?-length before (after ∷ rest) s,
        check_symbol,
        here,
      )
      (ground arith)
