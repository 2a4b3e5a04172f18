-- ===== src/Symbol/Ksymbols.antt =====
-- internal/symbol/ksymbols.go: the table of the kernel's text symbols, and the search in it.
pub mod Search
use jidick.Base.{
  ℕ, zero, suc, ◌+◌, ◌-◌, ◌/◌, ltb, ◌==◌, Bool, true, false, ◌||◌, if◌then◌else◌, Option, none,
  some, ◌>>=◌, List, [], ◌∷◌, ◌++◌, length, get_elem?, replicate,
}

-- A name is a string, as the list of its characters.
abbrev pub String : Type 0
String = List ℕ

pub record Symbol : Type 0 where
  pub addr : ℕ
  pub name : String
  pub modul : String

abbrev pub ksymbol_max : ℕ
ksymbol_max = 300000

-- `defaultSymbol`, and the zero value that fills the table.
abbrev pub default_symbol : Symbol
default_symbol = record {
  addr = 0;
  name = [];
  modul = 91 ∷ 117 ∷ 110 ∷ 107 ∷ 110 ∷ 111 ∷ 119 ∷ 110 ∷ 93 ∷ [];
}

abbrev pub no_symbol : Symbol
no_symbol = record { addr = 0; name = []; modul = [] }

abbrev pub module_kernel : String
module_kernel = 91 ∷ 107 ∷ 101 ∷ 114 ∷ 110 ∷ 101 ∷ 108 ∷ 93 ∷ []

abbrev pub is_text : String → Bool
is_text (c ∷ []) = c == 84 || c == 116
is_text _ = false

-- The symbol of a line of /proc/kallsyms, cut into words, if it is one of the text; `parse_uint`
-- reads a hexadecimal number of 64 bits.
unfoldable pub line_symbol : (String → Option ℕ) → List String → Option Symbol
line_symbol parse_uint (a ∷ kind ∷ name ∷ []) =
    if is_text kind
    then (do addr ← parse_uint a; some (record { addr = addr; name = name; modul = module_kernel }))
    else none
line_symbol parse_uint (a ∷ kind ∷ name ∷ modul ∷ []) =
    if is_text kind
    then (do addr ← parse_uint a; some (record { addr = addr; name = name; modul = modul }))
    else none
line_symbol parse_uint _ = none

-- The loop of `loadKAllSymbols`: the symbols that it stores after the `counter` ones that are
-- there. `none` is the panic of a write past the end of the table.
unfoldable pub load_lines : (String → Option ℕ) → ℕ → List (List String) → Option (List Symbol)
unfolding line_symbol
load_lines parse_uint counter [] = some []
load_lines parse_uint counter (line ∷ lines) = elim (line_symbol parse_uint line) [
  | none ↦ load_lines parse_uint counter lines
  | some symbol ↦
      if ltb counter ksymbol_max
      then (do rest ← load_lines parse_uint (suc counter) lines; some (symbol ∷ rest))
      else none
]

-- `ksymbolCache` and `ksymbolCounter`
pub record Ksymbols : Type 0 where
  pub cache : List Symbol
  pub counter : ℕ

-- `loadKAllSymbols` of a file that can be opened; `sort` is `sort.Sort` by address.
unfoldable pub load_k_all_symbols :
    (String → Option ℕ) → (List Symbol → List Symbol) → List (List String) → Option Ksymbols
unfolding load_lines
load_k_all_symbols parse_uint sort lines = do
  symbols ← load_lines parse_uint 1 lines
  let n = suc (length symbols)
  some (record {
    cache = sort (default_symbol ∷ symbols) ++ replicate (ksymbol_max - n) no_symbol;
    counter = n;
  })

module _ (cache : List Symbol) (key : ℕ) where
  -- The loop of `ksymbolSearch`, on fuel; `none` is a panic, or the end of the fuel.
  unfoldable pub search_loop : (fuel i j : ℕ) → Option ℕ
  search_loop zero i j = if ltb i j then none else some i
  search_loop (suc fuel) i j = elim (ltb i j) [
    | false ↦ some i
    | true ↦ elim (get_elem? cache ((i + j) / 2)) [
      | none ↦ none
      | some s ↦ elim (s.addr == key) [
        | true ↦ some ((i + j) / 2)
        | false ↦ elim (ltb s.addr key) [
          | true ↦ search_loop fuel ((i + j) / 2 + 1) j
          | false ↦ search_loop fuel i ((i + j) / 2)
        ]
      ]
    ]
  ]

  -- What `ksymbolSearch` returns once the loop has come to `i`.
  unfoldable pub symbol_at : ℕ → Option Symbol
  symbol_at i = do
    s ← get_elem? cache i
    (if s.addr == key
        then some s
        else if i == 0
        then get_elem? cache 0
        else get_elem? cache (i - 1))

  -- `ksymbolSearch` in a table of `counter` symbols, which is fuel enough.
  unfoldable pub ksymbol_search : ℕ → Option Symbol
  unfolding search_loop symbol_at
  ksymbol_search counter = do i ← search_loop counter 0 counter; symbol_at i

-- The addresses of a stack that `DumpKernelBackTrace` looks up.
unfoldable pub back_trace_addrs : ℕ → List ℕ → List ℕ
back_trace_addrs zero stack = []
back_trace_addrs (suc max_depth) [] = []
back_trace_addrs (suc max_depth) (addr ∷ stack) =
    if addr == 0 then [] else addr ∷ back_trace_addrs max_depth stack

-- The symbols that have a name, of which it writes a line each.
unfoldable pub named_symbols : Ksymbols → List ℕ → Option (List Symbol)
named_symbols k [] = some []
named_symbols k (addr ∷ addrs) = do
  s ← ksymbol_search k.cache addr k.counter
  rest ← named_symbols k addrs
  some (elim s.name [ [] ↦ rest | _ ∷ _ ↦ s ∷ rest ])

-- `DumpKernelBackTrace`; `none` is a panic.
unfoldable pub dump_kernel_back_trace : Ksymbols → List ℕ → ℕ → Option (List Symbol)
unfolding back_trace_addrs named_symbols
dump_kernel_back_trace k stack max_depth = named_symbols k (back_trace_addrs max_depth stack)
