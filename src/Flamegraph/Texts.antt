-- ===== src/Flamegraph/Texts.antt =====
-- The texts of the label field of internal/flamegraph/flamegraph.go, in whatever order a `range`
-- takes the entries of its map.
use mathlib.Core.List.Memᴰ
use mathlib.Core.List.{Memᴰ}
use mathlib.Core.Option.{some-injective}
use jidick.Base.{
  ℕ, ◌≡◌, ◌≢◌, ◌⊎◌, ◌↔◌, replicate, length-replicate, inl, inr, refl, sym, ap, ◌∙◌, arith, ◌==◌,
  ==_iff, Bool-cases, Option-cases, some, List, [], ◌∷◌, length, get_elem?, get_elem?-none,
  length-le, get_elem?-lt, get_elem?-ext, set?-Written,
}
use jidick.Flamegraph.{String, Entry, EnumField, fill_keys}
use jidick.Flamegraph.Labels.{Enumerates}

-- Entries that are taken in any order, each of which holds the name of its index, fill an array of
-- the right length with the names, if they hold each index that is not filled yet.
pub fill_keys-names :
    (names : List String) (order : List Entry) (keys : List String)
    → ((x : Entry) → Memᴰ x order → get_elem? names x.index ≡ some x.key)
    → length keys ≡ length names
    → ((i : ℕ) (k : String)
        → get_elem? names i ≡ some k
        → (get_elem? keys i ≡ some k) ⊎ Memᴰ (record { key = k; index = i }) order)
    → fill_keys order keys ≡ some names
unfolding fill_keys
fill_keys-names names [] keys entries sized covered = ap some (get_elem?-ext keys names same)
  where
    same : (i : ℕ) → get_elem? keys i ≡ get_elem? names i
    same i = elim (Option-cases (get_elem? names i)) [
      | inl missing ↦
          let below = length-le names i missing in get_elem?-none keys i (omega arith) ∙ sym missing
      | inr (k, found) ↦ elim (covered i k found) [
        | inl here ↦ here ∙ sym found
        | inr m ↦ absurd (Memᴰ.not-nil m)
      ]
    ]
fill_keys-names names (e ∷ es) keys entries sized covered =
    let here = entries e (Memᴰ.head refl) in
    let below = get_elem?-lt names e.index e.key here in
    let (ys, written, w) = set?-Written keys e.index e.key (omega arith) in
    rw written (
      fill_keys-names names es ys (λ x m. entries x (Memᴰ.tail m)) (w.same_length ∙ sized)
        (λ i k at. elim (Bool-cases (i == e.index)) [
          | inl same ↦
              let eq = (==_iff i e.index).0 same in
              let key : e.key ≡ k =
                some-injective e.key k (sym here ∙ sym (ap (get_elem? names) eq) ∙ at) in
              inl (ap (get_elem? ys) eq ∙ w.at_index ∙ ap some key)
          | inr other ↦
              let apart : i ≢ e.index = ground (arith, other) in
              elim (covered i k at) [
                | inl old ↦ inl (w.elsewhere i apart ∙ old)
                | inr m ↦ elim (Memᴰ.cases_cons m) [
                  | inl same ↦ absurd (apart (ap (λ x. x.index) same))
                  | inr later ↦ inr later
                ]
              ]
        ]))

module _ (range : List Entry → List Entry)
    (takes_all : (m : List Entry) (x : Entry) → Memᴰ x (range m) ↔ Memᴰ x m) where
  -- The texts are the names, whatever the order of the entries.
  pub fill_keys-range :
      (names labels : List String) (e : EnumField)
      → Enumerates names labels e
      → fill_keys (range e.values_map) (replicate (length e.values_map) []) ≡ some names
  fill_keys-range names labels e h =
      fill_keys-names names (range e.values_map) (replicate (length e.values_map) [])
        (λ x m. h.entries x ((takes_all e.values_map x).0 m))
        (length-replicate (length e.values_map) [] ∙ h.sized)
        (λ i k at. inr ((takes_all e.values_map _).1 (h.covered i k at)))
