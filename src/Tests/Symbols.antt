-- ===== src/Tests/Symbols.antt =====
-- internal/symbol at small tables.
use jidick.Base.{ℕ, ◌≤◌, ◌≡◌, refl, arith, some, List, [], ◌∷◌, ◌++◌, get_elem?}
use jidick.Symbol.Ksymbols.{
  Symbol, default_symbol, no_symbol, module_kernel, search_loop, symbol_at, ksymbol_search,
}
use jidick.Symbol.Ksymbols.Search.{IsAt, ksymbol_search-Nearest}
use jidick.Symbol.Usymbols
use jidick.Symbol.Usymbols.{search_above, search_sym, check_symbol}
use jidick.Symbol.Usymbols.Last.{search_sym-last}

abbrev kernel_symbol : ℕ → ℕ → Symbol
kernel_symbol addr letter = record { addr = addr; name = letter ∷ []; modul = module_kernel }

abbrev symbols : List Symbol
symbols = default_symbol ∷ kernel_symbol 4096 97 ∷ kernel_symbol 8192 98 ∷ []

abbrev table : List Symbol
table = symbols ++ no_symbol ∷ []

searches : Unit {0}
unfolding ksymbol_search search_loop symbol_at get_elem?
searches = tt

inside_first : ksymbol_search table 5000 3 ≡ some (kernel_symbol 4096 97)
unfolding searches
inside_first = refl

behind_last : ksymbol_search table 70_000 3 ≡ some (kernel_symbol 8192 98)
unfolding searches
behind_last = refl

ksymbol_search-Nearest_example :
    (s : Symbol) × (ksymbol_search table 5000 3 ≡ some s)
    × (s.addr ≤ 5000)
    × ((j : ℕ) (u : Symbol) → IsAt table 3 j u → u.addr ≤ 5000 → u.addr ≤ s.addr)
unfolding get_elem?
ksymbol_search-Nearest_example =
    ksymbol_search-Nearest symbols [] no_symbol (kernel_symbol 4096 97) 5000 1
      ((omega arith, (omega arith, tt)), ((omega arith, tt), (tt, tt))) refl refl (omega arith)
      (omega arith)

-- Functions of 64 bytes and of 16.
abbrev functions : List Usymbols.Symbol
functions =
    record { name = 109 ∷ []; start = 4096; size = 64 }
    ∷ record { name = 102 ∷ []; start = 8192; size = 16 }
    ∷ []

first_is_found : search_sym 4100 functions ≡ 109 ∷ []
unfolding search_sym search_above check_symbol get_elem?
first_is_found = refl

search_sym-last_example : search_sym 8200 functions ≡ []
search_sym-last_example = search_sym-last 8200 functions (omega arith, (omega arith, tt))
