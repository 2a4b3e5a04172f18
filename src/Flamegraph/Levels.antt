-- ===== src/Flamegraph/Levels.antt =====
-- LevelsToTree of internal/flamegraph/flamegraph.go. The trees that it makes are a list of items in
-- the order that they are made in, each with the place of its parent: the `Nodes` of a tree are the
-- items with its place as parent, since an item is made where it is appended. A pointer is a place
-- with the fields of the tree, which are not written again.
pub mod Nesting
use jidick.Base.{
  ℕ, suc, add64, leb_s64, Bool, ◌&&◌, if◌then◌else◌, Option, none, some, List, [], ◌∷◌, ◌++◌, ◌>>=◌,
  length, get_elem?,
}
use jidick.Flamegraph.{String, Bar}

pub record Item : Type 0 where
  pub bar : Bar
  pub parent : ℕ

pub record Pointer : Type 0 where
  pub place : ℕ
  pub bar : Bar

-- The test of an item against the bounds of the current parent; the numbers are signed.
abbrev pub is_inside : Bar → ℕ → ℕ → Bool
is_inside p item_start item_end =
    leb_s64 p.start item_start && leb_s64 item_end (add64 p.start p.value)

-- From the current parent on, the first that the item lies within, and those behind it; `none`
-- where the parents run out.
unfoldable pub next_parent : ℕ → ℕ → Pointer → List Pointer → Option (Pointer × List Pointer)
next_parent item_start item_end p [] =
    if is_inside p.bar item_start item_end then some (p, []) else none
next_parent item_start item_end p (q ∷ qs) =
    let rest = next_parent item_start item_end q qs in
    if is_inside p.bar item_start item_end then some (p, q ∷ qs) else rest

-- The items so far, and the parents of the next level.
pub record Level : Type 0 where
  pub items : List Item
  pub next_parents : List Pointer

-- `treeItem`, appended to its parent and to the parents of the next level.
unfoldable pub add_item : Bar → Pointer → Level → Level
add_item bar p s = record {
  items = s.items ++ record { bar = bar; parent = p.place } ∷ [];
  next_parents = s.next_parents ++ record { place = length s.items; bar = bar } ∷ [];
}

-- A panic is an index out of range, of `Values` or of `names`.
module _ (names : List String) where
  -- The loop over the bars of a level, from the offset and the current parent on.
  unfoldable pub level_loop : ℕ → List ℕ → ℕ → Pointer → List Pointer → Level → Option Level
  unfolding next_parent add_item get_elem?
  level_loop level [] offset p ps s = some s
  level_loop level (start ∷ value ∷ self ∷ name ∷ values) offset p ps s =
      let item_start = add64 start offset in
      let item_end = add64 item_start value in
      elim (next_parent item_start item_end p ps) [
        | none ↦ some s
        | some (q, qs) ↦ do
          text ← get_elem? names name
          level_loop level values item_end q qs (
              add_item
                (record {
                  start = item_start;
                  value = value;
                  self = self;
                  level = level;
                  name = text;
                })
                q s)
      ]
  level_loop level (start ∷ value ∷ self ∷ []) offset p ps s =
      let item_start = add64 start offset in
      elim (next_parent item_start (add64 item_start value) p ps) [ none ↦ some s | some q ↦ none ]
  level_loop level _ offset p ps s = none

  -- The loop over the levels.
  unfoldable pub levels_loop : ℕ → List (List ℕ) → List Pointer → List Item → Option (List Item)
  unfolding level_loop
  levels_loop current_level [] parents items = some items
  levels_loop current_level (l ∷ ls) [] items = some items
  levels_loop current_level (l ∷ ls) (p ∷ ps) items = do
    s ← level_loop current_level l 0 p ps (record { items = items; next_parents = [] })
    levels_loop (suc current_level) ls s.next_parents s.items

  -- The root, from the first level; the name is that of the number at place 0.
  unfoldable pub root : List ℕ → Option Bar
  unfolding get_elem?
  root values = do
    value ← get_elem? values 1
    self ← get_elem? values 2
    at ← get_elem? values 0
    text ← get_elem? names at
    some (record { start = 0; value = value; self = self; level = 0; name = text })

  -- `LevelsToTree`; `some []` is the nil that it returns without levels.
  unfoldable pub levels_to_tree : List (List ℕ) → Option (List Item)
  unfolding root levels_loop
  levels_to_tree [] = some []
  levels_to_tree (l ∷ ls) = do
    bar ← root l
    levels_loop 1 ls (record { place = 0; bar = bar } ∷ []) (record { bar = bar; parent = 0 } ∷ [])
