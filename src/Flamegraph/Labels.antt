-- ===== src/Flamegraph/Labels.antt =====
-- The label field of internal/flamegraph/flamegraph.go: its numbers, and the texts that they stand
-- for.
use mathlib.Core.List.Memᴰ
use mathlib.Core.List.{Memᴰ, append-nil, append_assoc}
use mathlib.Core.Option.{none-ne-some, some-injective}
use mathlib.Core.Logic.{if_pos, if_neg}
use native.Mathlib.Nat.{mod-eq_of_lt}
use jidick.Base.{
  ℕ, ◌+◌, ◌%◌, ◌≤◌, ◌<◌, ◌≡◌, inl, inr, refl, sym, ◌∙◌, arith, Option-cases, none, some, List, [],
  ◌∷◌, ◌++◌, length, length-append, get_elem?, get_elem?-length, get_elem?-grow, get_elem?-snoc,
}
use jidick.Flamegraph.{
  String, String-discrete, Entry, EnumField, lookup, append_label, append_labels, labels_of,
  new_enum_field,
}

-- Each number stands for the label at its place.
abbrev pub Decodes : List String → List ℕ → List String → Type 0
Decodes names [] [] = Unit
Decodes names (i ∷ is) (l ∷ ls) = (get_elem? names i ≡ some l) × Decodes names is ls
Decodes names _ _ = ⊥

pub Decodes-grow :
    (names more : List String) (is : List ℕ) (ls : List String)
    → Decodes names is ls
    → Decodes (names ++ more) is ls
Decodes-grow names more [] [] h = tt
Decodes-grow names more (i ∷ is) (l ∷ ls) h =
    (get_elem?-grow names more i l h.0, Decodes-grow names more is ls h.1)
Decodes-grow names more [] (l ∷ ls) h = h
Decodes-grow names more (i ∷ is) [] h = h

pub Decodes-append :
    (names : List String) (is : List ℕ) (ls : List String) (i : ℕ) (l : String)
    → Decodes names is ls
    → get_elem? names i ≡ some l
    → Decodes names (is ++ i ∷ []) (ls ++ l ∷ [])
Decodes-append names [] [] i l h e = (e, tt)
Decodes-append names (j ∷ is) (k ∷ ls) i l h e = (h.0, Decodes-append names is ls i l h.1 e)
Decodes-append names [] (k ∷ ls) i l h e = absurd h
Decodes-append names (j ∷ is) [] i l h e = absurd h

pub labels_of-Decodes :
    (names : List String) (is : List ℕ) (ls : List String)
    → Decodes names is ls
    → labels_of names is ≡ some ls
unfolding labels_of
labels_of-Decodes names [] [] h = refl
labels_of-Decodes names (i ∷ is) (l ∷ ls) h = rw (h.0, labels_of-Decodes names is ls h.1) refl
labels_of-Decodes names [] (l ∷ ls) h = absurd h
labels_of-Decodes names (i ∷ is) [] h = absurd h

lookup-Mem :
    (value : String) (es : List Entry) (i : ℕ)
    → lookup value es ≡ some i
    → Memᴰ (record { key = value; index = i }) es
unfolding lookup
lookup-Mem value [] i h = absurd (none-ne-some i h)
lookup-Mem value (e ∷ es) i h = elim (String-discrete value e.key) [
  | yes same ↦
      let at =
        some-injective e.index i
          (sym (if_pos (String-discrete value e.key) same _ (lookup value es)) ∙ h) in
      Memᴰ.head (rw (same, sym at) refl)
  | no other ↦ Memᴰ.tail (
      lookup-Mem value es i (sym (if_neg (String-discrete value e.key) other (some e.index) _) ∙ h))
]

-- The field behind some labels, with the names that it has met in their order.
pub record Enumerates (names labels : List String) (e : EnumField) : Type 0 where
  pub counted : e.counter ≡ length names
  pub sized : length e.values_map ≡ length names
  pub entries : (x : Entry) → Memᴰ x e.values_map → get_elem? names x.index ≡ some x.key
  pub covered :
      (i : ℕ) (k : String)
      → get_elem? names i ≡ some k
      → Memᴰ (record { key = k; index = i }) e.values_map
  pub decoded : Decodes names e.field labels
  pub few : length names ≤ length labels

pub new-Enumerates : Enumerates [] [] new_enum_field
unfolding get_elem?
new-Enumerates = record {
  counted = refl;
  sized = refl;
  entries = λ x m. absurd (Memᴰ.not-nil m);
  covered = λ i k h. absurd (none-ne-some k h);
  decoded = tt;
  few = omega arith;
}

module _ (items : ℕ) where
  append_label-known :
      (names labels : List String) (e : EnumField) (v : String) (i : ℕ)
      → Enumerates names labels e
      → lookup v e.values_map ≡ some i
      → Enumerates names (labels ++ v ∷ []) (append_label items v e)
  unfolding append_label
  append_label-known names labels e v i h found =
      let at = h.entries (record { key = v; index = i }) (lookup-Mem v e.values_map i found) in
      let more = length-append labels (v ∷ []) in
      let few = h.few in
      rw (append_label, found)
        (record {
          counted = h.counted;
          sized = h.sized;
          entries = h.entries;
          covered = h.covered;
          decoded = Decodes-append names e.field labels i v h.decoded at;
          few = omega arith;
        })

  append_label-new :
      (names labels : List String) (e : EnumField) (v : String)
      → Enumerates names labels e
      → lookup v e.values_map ≡ none
      → length labels + 1 < items
      → Enumerates (names ++ v ∷ []) (labels ++ v ∷ []) (append_label items v e)
  unfolding append_label
  append_label-new names labels e v h missed fits =
      let more = length-append labels (v ∷ []) in
      let one_more = length-append names (v ∷ []) in
      let few = h.few in
      let counted = h.counted in
      let sized = h.sized in
      let here : get_elem? (names ++ v ∷ []) e.counter ≡ some v =
        rw counted (get_elem?-length names [] v) in
      let grown = Decodes-grow names (v ∷ []) e.field labels h.decoded in
      let wraps : (e.counter + 1) % items ≡ length (names ++ v ∷ []) =
        rw (mod-eq_of_lt {n = e.counter + 1} {m = items} (omega arith)) (omega arith) in
      rw (append_label, missed)
        (record {
          counted = wraps;
          sized = omega arith;
          entries = entries here;
          covered = covered;
          decoded = Decodes-append (names ++ v ∷ []) e.field labels e.counter v grown here;
          few = omega arith;
        })
    where
      entry : Entry
      entry = record { key = v; index = e.counter }

      entries :
          get_elem? (names ++ v ∷ []) e.counter ≡ some v
          → (x : Entry) → Memᴰ x (entry ∷ e.values_map)
          → get_elem? (names ++ v ∷ []) x.index ≡ some x.key
      entries here x m = elim (Memᴰ.cases_cons m) [
        | inl same ↦ rw same here
        | inr old ↦ get_elem?-grow names (v ∷ []) x.index x.key (h.entries x old)
      ]

      covered :
          (i : ℕ) (k : String)
          → get_elem? (names ++ v ∷ []) i ≡ some k
          → Memᴰ (record { key = k; index = i }) (entry ∷ e.values_map)
      covered i k at = elim (get_elem?-snoc names v i k at) [
        | inl old ↦ Memᴰ.tail (h.covered i k old)
        | inr (same, last) ↦ Memᴰ.head (rw (same, last, sym h.counted) refl)
      ]

  append_label-Enumerates :
      (names labels : List String) (e : EnumField) (v : String)
      → Enumerates names labels e
      → length labels + 1 < items
      → (ns : List String) × Enumerates ns (labels ++ v ∷ []) (append_label items v e)
  append_label-Enumerates names labels e v h fits = elim (Option-cases (lookup v e.values_map)) [
    | inl missed ↦ (names ++ v ∷ [], append_label-new names labels e v h missed fits)
    | inr (i, found) ↦ (names, append_label-known names labels e v i h found)
  ]

  -- However many labels are appended, below the number of indices.
  pub append_labels-Enumerates :
      (vs names labels : List String) (e : EnumField)
      → Enumerates names labels e
      → length labels + length vs < items
      → (ns : List String) × Enumerates ns (labels ++ vs) (append_labels items vs e)
  unfolding append_labels
  append_labels-Enumerates [] names labels e h fits = (names, rw (append-nil labels) h)
  append_labels-Enumerates (v ∷ vs) names labels e h fits =
      let (ns, next) = append_label-Enumerates names labels e v h (omega arith) in
      let more = length-append labels (v ∷ []) in
      let (last, done) =
        append_labels-Enumerates vs ns (labels ++ v ∷ []) (append_label items v e) next
          (omega arith) in
      (last, rw (sym (append_assoc labels (v ∷ []) vs)) done)
