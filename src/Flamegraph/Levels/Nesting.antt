-- ===== src/Flamegraph/Levels/Nesting.antt =====
-- How the items of LevelsToTree in internal/flamegraph/flamegraph.go lie within each other.
use mathlib.Core.Path.{subst}
use mathlib.Core.Option.{none-ne-some}
use jidick.Base.{
  ℕ, zero, suc, ◌<◌, ◌≡◌, ◌⊎◌, inl, inr, refl, sym, ap, ◌∙◌, arith, add64, leb_s64, true, ◌&&◌,
  Bool, Bool-cases, Option, Option-cases, none, some, List, [], ◌∷◌, ◌++◌, length, All, All-map,
  get_elem?, get_elem?-some, get_elem?-grow, get_elem?-lt, get_elem?-snoc, get_elem?-length,
}
use jidick.Flamegraph.{String, Bar}
use jidick.Flamegraph.Levels.{
  Item, Pointer, Level, is_inside, next_parent, add_item, level_loop, levels_loop, root,
  levels_to_tree,
}

-- An item lies within its parent, which is one level above and was made before.
pub record IsChild (items : List Item) (i : ℕ) (x : Item) : Type 0 where
  pub parent : Item
  pub at : get_elem? items x.parent ≡ some parent
  pub before : x.parent < i
  pub below : x.bar.level ≡ suc parent.bar.level
  pub starts_inside : leb_s64 parent.bar.start x.bar.start ≡ true
  pub ends_inside :
      leb_s64 (add64 x.bar.start x.bar.value) (add64 parent.bar.start parent.bar.value) ≡ true

abbrev pub IsNested : List Item → Type 0
IsNested items = (i : ℕ) (x : Item) → get_elem? items i ≡ some x → (i ≡ 0) ⊎ IsChild items i x

-- A pointer to an item just above a level.
record PointsAbove (items : List Item) (level : ℕ) (r : Pointer) : Type 0 where
  item : Item
  at : get_elem? items r.place ≡ some item
  same_bar : item.bar ≡ r.bar
  above : suc r.bar.level ≡ level

IsChild-grow :
    (items more : List Item) (i : ℕ) (x : Item) → IsChild items i x → IsChild (items ++ more) i x
IsChild-grow items more i x h = record {
  parent = h.parent;
  at = get_elem?-grow items more x.parent h.parent h.at;
  before = h.before;
  below = h.below;
  starts_inside = h.starts_inside;
  ends_inside = h.ends_inside;
}

PointsAbove-grow :
    (items more : List Item) (level : ℕ) (r : Pointer)
    → PointsAbove items level r
    → PointsAbove (items ++ more) level r
PointsAbove-grow items more level r h = record {
  item = h.item;
  at = get_elem?-grow items more r.place h.item h.at;
  same_bar = h.same_bar;
  above = h.above;
}

and_left : (a b : Bool) → (a && b) ≡ true → (a ≡ true) × (b ≡ true)
and_left a b h = ground arith

-- What `next_parent` gives is a parent that the item lies within, and later ones.
module _ (P : Pointer → Type 0) (item_start item_end : ℕ) where
  abbrev Chosen : Option (Pointer × List Pointer) → Type 0
  Chosen none = Unit
  Chosen (some (q, qs)) = (is_inside q.bar item_start item_end ≡ true) × P q × All P qs

  next_parent-Chosen :
      (p : Pointer) (ps : List Pointer)
      → P p
      → All P ps
      → Chosen (next_parent item_start item_end p ps)
  unfolding next_parent
  next_parent-Chosen p [] here later = elim (Bool-cases (is_inside p.bar item_start item_end)) [
    | inl inside ↦ rw (next_parent, inside) (inside, here, tt)
    | inr outside ↦ rw (next_parent, outside) tt
  ]
  next_parent-Chosen p (q ∷ qs) here later =
      elim (Bool-cases (is_inside p.bar item_start item_end)) [
        | inl inside ↦ rw (next_parent, inside) (inside, here, later)
        | inr outside ↦ rw (next_parent, outside) (next_parent-Chosen q qs later.0 later.1)
      ]

-- What the loop over the bars of a level keeps.
record IsBuilt (level : ℕ) (s : Level) : Type 0 where
  nested : IsNested s.items
  parents : All (PointsAbove s.items (suc level)) s.next_parents

All-snoc :
    {A : Type 0} (P : A → Type 0) (xs : List A) (a : A) → All P xs → P a → All P (xs ++ a ∷ [])
All-snoc P [] a h k = (k, tt)
All-snoc P (x ∷ xs) a h k = (h.0, All-snoc P xs a h.1 k)

add_item-IsBuilt :
    (level : ℕ) (bar : Bar) (q : Pointer) (s : Level)
    → IsBuilt level s
    → PointsAbove s.items level q
    → bar.level ≡ level
    → is_inside q.bar bar.start (add64 bar.start bar.value) ≡ true
    → IsBuilt level (add_item bar q s)
unfolding add_item
add_item-IsBuilt level bar q s h above at_level inside = record {
  nested = nested;
  parents =
      All-snoc (PointsAbove (s.items ++ item ∷ []) (suc level)) s.next_parents
        (record { place = length s.items; bar = bar })
        (All-map (PointsAbove-grow s.items (item ∷ []) (suc level)) s.next_parents h.parents)
        (record {
          item = item;
          at = get_elem?-length s.items [] item;
          same_bar = refl;
          above = ap suc at_level;
        });
}
  where
    item : Item
    item = record { bar = bar; parent = q.place }

    child : IsChild (s.items ++ item ∷ []) (length s.items) item
    child =
        let (starts, ends) = and_left _ _ inside in
        record {
          parent = above.item;
          at = get_elem?-grow s.items (item ∷ []) q.place above.item above.at;
          before = get_elem?-lt s.items q.place above.item above.at;
          below = at_level ∙ sym above.above ∙ sym (ap (λ b. suc b.level) above.same_bar);
          starts_inside = rw above.same_bar starts;
          ends_inside = rw above.same_bar ends;
        }

    nested : IsNested (s.items ++ item ∷ [])
    nested i x at = elim (get_elem?-snoc s.items item i x at) [
      | inl old ↦ elim (h.nested i x old) [
        | inl first ↦ inl first
        | inr c ↦ inr (IsChild-grow s.items (item ∷ []) i x c)
      ]
      | inr (same, last) ↦ inr (rw (same, last) child)
    ]

module _ (names : List String) where
  -- Four numbers for each bar, the last of which is that of a name.
  abbrev pub HasBars : List ℕ → Type 0
  HasBars [] = Unit
  HasBars (start ∷ value ∷ self ∷ name ∷ values) = (name < length names) × HasBars values
  HasBars _ = ⊥

  level_loop-IsBuilt :
      (level : ℕ) (values : List ℕ) (offset : ℕ) (p : Pointer) (ps : List Pointer) (s : Level)
      → HasBars values
      → IsBuilt level s
      → PointsAbove s.items level p
      → All (PointsAbove s.items level) ps
      → (t : Level) × (level_loop names level values offset p ps s ≡ some t) × IsBuilt level t
  unfolding level_loop add_item
  level_loop-IsBuilt level [] offset p ps s bars h here later = (s, refl, h)
  level_loop-IsBuilt level (start ∷ value ∷ self ∷ name ∷ values) offset p ps s bars h here later =
      let item_start = add64 start offset in
      let item_end = add64 item_start value in
      let (text, named) = get_elem?-some names name bars.0 in
      elim (Option-cases (next_parent item_start item_end p ps)) [
        | inl out ↦ (s, rw (level_loop, out) refl, h)
        | inr (r, found) ↦
            let chosen = subst (Chosen (PointsAbove s.items level) item_start item_end) found (
              next_parent-Chosen (PointsAbove s.items level) item_start item_end p ps here later) in
            let bar : Bar = record {
              start = item_start;
              value = value;
              self = self;
              level = level;
              name = text;
            } in
            let grow =
              PointsAbove-grow s.items (record { bar = bar; parent = r.0.place } ∷ []) level in
            let (t, e, built) =
              level_loop-IsBuilt level values item_end r.0 r.1 (add_item bar r.0 s) bars.1
                (add_item-IsBuilt level bar r.0 s h chosen.1 refl chosen.0) (grow r.0 chosen.1)
                (All-map grow r.1 chosen.2) in
            (t, rw (level_loop, found, named) e, built)
      ]
  level_loop-IsBuilt level (_ ∷ _ ∷ _ ∷ []) offset p ps s bars h here later = absurd bars
  level_loop-IsBuilt level (_ ∷ _ ∷ []) offset p ps s bars h here later = absurd bars
  level_loop-IsBuilt level (_ ∷ []) offset p ps s bars h here later = absurd bars

  levels_loop-IsNested :
      (level : ℕ) (ls : List (List ℕ)) (ps : List Pointer) (items : List Item)
      → All HasBars ls
      → IsNested items
      → All (PointsAbove items level) ps
      → (built : List Item) × (levels_loop names level ls ps items ≡ some built) × IsNested built
  unfolding levels_loop
  levels_loop-IsNested level [] ps items bars h above = (items, refl, h)
  levels_loop-IsNested level (l ∷ ls) [] items bars h above = (items, refl, h)
  levels_loop-IsNested level (l ∷ ls) (p ∷ ps) items bars h above =
      let start : IsBuilt level (record { items = items; next_parents = [] }) = record {
        nested = h;
        parents = tt;
      } in
      let (s, e, built) = level_loop-IsBuilt level l 0 p ps _ bars.0 start above.0 above.1 in
      let (last, done, nested) =
        levels_loop-IsNested (suc level) ls s.next_parents s.items bars.1 built.nested
          built.parents in
      (last, rw (levels_loop, e) done, nested)

  -- From levels of whole bars with names there are, under a root of at least three numbers whose
  -- first is that of a name, a tree is made, without a panic, and every item of it but the root
  -- lies within its parent, which was made before it and is one level above; whatever the numbers.
  pub levels_to_tree-IsNested :
      (at value self : ℕ) (values : List ℕ) (ls : List (List ℕ))
      → at < length names
      → All HasBars ls
      → (items : List Item) × (levels_to_tree names ((at ∷ value ∷ self ∷ values) ∷ ls)
          ≡ some items)
        × IsNested items
  unfolding levels_to_tree root get_elem?
  levels_to_tree-IsNested at value self values ls named bars =
      let (text, found) = get_elem?-some names at named in
      let bar : Bar = record { start = 0; value = value; self = self; level = 0; name = text } in
      let item : Item = record { bar = bar; parent = 0 } in
      let (items, e, nested) =
        levels_loop-IsNested 1 ls (record { place = 0; bar = bar } ∷ []) (item ∷ []) bars
          (alone item) (record { item = item; at = refl; same_bar = refl; above = refl }, tt) in
      (items, rw (levels_to_tree, root, found) e, nested)
    where
      alone : (item : Item) → IsNested (item ∷ [])
      alone item zero x e = inl refl
      alone item (suc i) x e = absurd (none-ne-some x e)
