-- ===== src/Flamegraph/Records.antt =====
-- From a tree of internal/flamegraph/flamegraph.go to the records of cmd/perf/parsedata.go.
use mathlib.Core.List.{Memᴰ}
use jidick.Base.{
  ℕ, suc, ◌+◌, ◌<◌, ◌≡◌, ◌==◌, true, refl, ap, arith, some, List, [], ◌∷◌, map, length, ◌↔◌,
}
use jidick.Flamegraph.{
  Bar, ProfileTree, Entry, FrameData, flame_data, zip_rows, bars, append_labels, new_enum_field,
  frame_labels, rows, tree_to_nested_set_data_frame, parse_tree,
}
use jidick.Flamegraph.Texts.{fill_keys-range}
use jidick.Flamegraph.Preorder.{preorder, walk_tree-preorder}
use jidick.Flamegraph.Labels.{new-Enumerates, append_labels-Enumerates, labels_of-Decodes}

-- What is printed of a bar.
unfoldable pub frame_data : Bar → FrameData
frame_data b = record { level = b.level; value = b.value; self = b.self; label = b.name }

length-map {ℓ} : {A : Type ℓ} (f : Bar → A) (bs : List Bar) → length (map f bs) ≡ length bs
length-map f [] = refl
length-map f (b ∷ bs) = ap suc (length-map f bs)

-- Columns of one list of bars have the same length.
same_length {ℓ} :
    {A : Type ℓ} (f : Bar → A) (bs : List Bar)
    → (length (map f bs) == length (map (λ b. b.level) bs)) ≡ true
same_length f bs = rw (length-map f bs, length-map (λ b. b.level) bs) (ground arith)

zip_rows-map :
    (bs : List Bar)
    → zip_rows
        (map (λ b. b.level) bs)
        (map (λ b. b.value) bs)
        (map (λ b. b.self) bs)
        (map (λ b. b.name) bs)
      ≡ map frame_data bs
unfolding zip_rows frame_data
zip_rows-map [] = refl
zip_rows-map (b ∷ bs) = ap (λ rs. frame_data b ∷ rs) (zip_rows-map bs)

-- The records are the bars of the tree in the order of `preorder`, each with its own name, in
-- whatever order the entries of the labels are ranged over, if the bars are fewer than the numbers
-- that an `EnumItemIndex` has. In particular no index is out of range and the lengths are equal.
pub parse_tree-preorder :
    (items : ℕ) (range : List Entry → List Entry)
    → ((m : List Entry) (x : Entry) → Memᴰ x (range m) ↔ Memᴰ x m)
    → (tree : ProfileTree) → length (preorder tree) < items
    → parse_tree items range (some tree) ≡ flame_data (map frame_data (preorder tree))
unfolding parse_tree tree_to_nested_set_data_frame frame_labels rows bars
parse_tree-preorder items range takes_all tree fits =
    let bs = preorder tree in
    let labels = map (λ b. b.name) bs in
    let names_fit : 0 + length labels < items = rw (length-map (λ b. b.name) bs) (omega arith) in
    let (names, h) =
      append_labels-Enumerates items labels [] [] new_enum_field new-Enumerates names_fit in
    let e = append_labels items labels new_enum_field in
    let filled = fill_keys-range range takes_all names labels e h in
    let decoded = labels_of-Decodes names e.field labels h.decoded in
    rw
      (
        parse_tree,
        tree_to_nested_set_data_frame,
        bars,
        walk_tree-preorder tree,
        filled,
        frame_labels,
        filled,
        decoded,
        rows,
        same_length (λ b. b.value) bs,
        same_length (λ b. b.self) bs,
        same_length (λ b. b.name) bs,
        zip_rows-map bs,
      )
      refl
