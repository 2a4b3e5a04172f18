-- ===== src/Symbol/Usymbols.antt =====
-- internal/symbol/usymbols.go: the searches for the section and for the function of an address in a
-- process. Reading the process's files is left out: a table of sections or symbols is given.
pub mod Last
use jidick.Base.{
  ℕ, zero, suc, ◌+◌, ◌-◌, ltb, leb, ◌==◌, add64, sub64, Bool, true, false, not, ◌&&◌, if◌then◌else◌,
  Option, none, some, List, [], ◌∷◌, length, get_elem?,
}

-- A name is a string, as the list of its characters.
abbrev pub String : Type 0
String = List ℕ

abbrev pub is_empty : String → Bool
is_empty [] = true
is_empty (c ∷ cs) = false

pub data SectionType : Type 0 where
  elftype libtype : SectionType

pub record Symbol : Type 0 where
  pub name : String
  pub start : ℕ
  pub size : ℕ

pub record Section : Type 0 where
  pub name : String
  pub start : ℕ
  pub end : ℕ
  pub sectiontype : SectionType

-- `&section{}`; its type is never looked at, since its name is empty.
abbrev pub no_section : Section
no_section = record { name = []; start = 0; end = 0; sectiontype = elftype }

-- "<unknown>"
abbrev pub unknown : String
unknown = 60 ∷ 117 ∷ 110 ∷ 107 ∷ 110 ∷ 111 ∷ 119 ∷ 110 ∷ 62 ∷ []

-- `sort.Search` for a start above the address, in starts that do not fall: the smallest index where
-- there is one, or the length.
unfoldable pub search_above : ℕ → List ℕ → ℕ
search_above addr [] = 0
search_above addr (s ∷ ss) = if ltb addr s then 0 else suc (search_above addr ss)

abbrev pub symbol_starts : List Symbol → List ℕ
symbol_starts [] = []
symbol_starts (s ∷ ss) = s.start ∷ symbol_starts ss

abbrev pub section_starts : List Section → List ℕ
section_starts [] = []
section_starts (s ∷ ss) = s.start ∷ section_starts ss

-- The test of a section, once it is found.
unfoldable pub check_section : ℕ → Section → Section
check_section addr s =
    if not (is_empty s.name) && leb addr s.end && leb s.start addr then s else no_section

-- `searchSection`, in the sections of the process
unfoldable pub search_section : List Section → ℕ → Section
unfolding search_above check_section
search_section sections addr =
    let index = search_above addr (section_starts sections) in
    if index == length sections
    then no_section
    else if index == 0
    then no_section
    else elim (get_elem? sections (index - 1)) [ none ↦ no_section | some s ↦ check_section addr s ]

-- The test of a symbol, once it is found.
unfoldable pub check_symbol : ℕ → Symbol → String
check_symbol addr s =
    if not (is_empty s.name) && leb s.start addr && ltb addr (add64 s.start s.size)
    then s.name
    else unknown

-- `searchSym`
unfoldable pub search_sym : ℕ → List Symbol → String
search_sym addr symbols =
    let index = search_above addr (symbol_starts symbols) in
    if index == length symbols
    then []
    else if index == 0
    then []
    else elim (get_elem? symbols (index - 1)) [ none ↦ [] | some s ↦ check_symbol addr s ]

-- `ResolveUstack` of a process whose tables are loaded; `libcaches` are the symbols of a library by
-- its path, `none` where they cannot be loaded.
unfoldable pub resolve_ustack :
    List Section → List Symbol → (String → Option (List Symbol)) → ℕ → String
unfolding search_section search_sym
resolve_ustack sections symcaches libcaches addr =
    let sec = search_section sections addr in
    if is_empty sec.name then [] else elim sec.sectiontype [
      | elftype ↦ search_sym addr symcaches
      | libtype ↦ elim (libcaches sec.name) [
        | none ↦ []
        | some symbols ↦ search_sym (sub64 addr sec.start) symbols
      ]
    ]
