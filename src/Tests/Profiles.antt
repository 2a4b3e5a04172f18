-- ===== src/Tests/Profiles.antt =====
-- internal/flamegraph and cmd/perf at a small profile.
use native.Mathlib.Decide.{ℕ_discrete}
use jidick.Base.{ℕ, ◌≡◌, ◌≤◌, ◌^◌, refl, arith, some, List, [], ◌∷◌, map}
use jidick.Flamegraph.{
  String, Bar, ProfileTree, profile_tree, nil, cons, walk_tree, Entry, bars,
  tree_to_nested_set_data_frame, frame_labels, rows, parse_tree, flame_data,
}
use jidick.Flamegraph.Preorder.{preorder}
use jidick.Flamegraph.Records.{frame_data, parse_tree-preorder}
use jidick.Flamegraph.Samples.{KeyValue, samples, kernel_frames, user_frames}
use jidick.Flamegraph.Samples.Names.{read_samples, stacks, total, read_samples-samples}
use jidick.Flamegraph.Levels.{Item, levels_to_tree}
use jidick.Flamegraph.Levels.Nesting.{IsNested, levels_to_tree-IsNested}

abbrev bar : ℕ → ℕ → ℕ → ℕ → Bar
bar start value level letter = record {
  start = start;
  value = value;
  self = 1;
  level = level;
  name = letter ∷ [];
}

-- Two calls of a function 97 from the root 116, the first of which calls 98.
abbrev tree : ProfileTree
tree = profile_tree (bar 0 9 0 116) (
    cons (profile_tree (bar 0 4 1 97) (cons (profile_tree (bar 0 2 2 98) nil) nil))
      (cons (profile_tree (bar 4 5 1 97) nil) nil))

same_order : List Entry → List Entry
same_order m = m

parses : Unit {0}
unfolding parse_tree tree_to_nested_set_data_frame frame_labels rows bars preorder frame_data
    same_order
parses = tt

tree_bars : walk_tree tree ≡ bar 0 9 0 116 ∷ bar 0 4 1 97 ∷ bar 0 2 2 98 ∷ bar 4 5 1 97 ∷ []
unfolding walk_tree
tree_bars = refl

parse_tree-preorder_example :
    parse_tree 65_536 same_order (some tree) ≡ flame_data (map frame_data (preorder tree))
unfolding preorder same_order
parse_tree-preorder_example =
    parse_tree-preorder 65_536 same_order (λ m x. (λ h. h, λ h. h)) tree (omega arith)

abbrev names : List String
names = (116 ∷ []) ∷ (97 ∷ []) ∷ (98 ∷ []) ∷ []

abbrev levels : List (List ℕ)
levels = (0 ∷ 4 ∷ 1 ∷ 1 ∷ 0 ∷ 5 ∷ 1 ∷ 1 ∷ []) ∷ (0 ∷ 2 ∷ 1 ∷ 2 ∷ []) ∷ []

abbrev item : ℕ → ℕ → ℕ → ℕ → ℕ → Item
item start value level letter parent = record {
  bar = bar start value level letter;
  parent = parent;
}

levels_items :
    levels_to_tree names ((0 ∷ 9 ∷ 1 ∷ []) ∷ levels)
    ≡ some (item 0 9 0 116 0 ∷ item 0 4 1 97 0 ∷ item 4 5 1 97 0 ∷ item 0 2 2 98 1 ∷ [])
unfolding levels_to_tree
levels_items = refl

levels_to_tree-IsNested_example :
    (items : List Item) × (levels_to_tree names ((0 ∷ 9 ∷ 1 ∷ []) ∷ levels) ≡ some items)
    × IsNested items
levels_to_tree-IsNested_example =
    levels_to_tree-IsNested names 0 9 1 [] levels (omega arith)
      ((omega arith, (omega arith, tt)), ((omega arith, tt), tt))

abbrev kernel_stack : List ℕ → List String
kernel_stack addrs = (100 ∷ []) ∷ [] ∷ []

abbrev resolve_letter : ℕ → ℕ → String
resolve_letter addr pid = addr ∷ []

-- The process 116 in the kernel function 100, called from 98, from 97; and the same process in 98.
abbrev counted : List KeyValue
counted =
    record {
      key = record {
        ustack = 98 ∷ 97 ∷ 0 ∷ [];
        kstack = 1 ∷ 0 ∷ [];
        ustack_size = 16;
        kstack_size = 8;
        pid = 7;
        name = 116 ∷ 0 ∷ 0 ∷ [];
      };
      value = 3;
    }
    ∷ record {
      key = record {
        ustack = 98 ∷ 0 ∷ 0 ∷ [];
        kstack = 0 ∷ 0 ∷ [];
        ustack_size = 8;
        kstack_size = 0;
        pid = 7;
        name = 116 ∷ 0 ∷ 0 ∷ [];
      };
      value = 5;
    }
    ∷ []

counted_samples :
    (samples kernel_stack resolve_letter counted []).0
    ≡ record { value = 3; function_ids = 0 ∷ 1 ∷ 2 ∷ 3 ∷ [] }
      ∷ record { value = 5; function_ids = 1 ∷ 3 ∷ [] }
      ∷ []
unfolding samples ℕ_discrete
counted_samples = refl

read_samples-samples_example :
    read_samples kernel_stack resolve_letter
      (samples kernel_stack resolve_letter counted []).1
      (samples kernel_stack resolve_letter counted []).0
    ≡ stacks kernel_stack resolve_letter counted
unfolding kernel_frames user_frames
read_samples-samples_example = read_samples-samples kernel_stack resolve_letter counted few
  where
    few : total kernel_stack resolve_letter counted ≤ 2 ^ 31
    few = omega arith
