-- ===== src/Flamegraph.antt =====
-- internal/flamegraph/flamegraph.go: the walk through a tree and the columns of its data frame; and
-- cmd/perf/parsedata.go, where the columns become the records that are printed. `data.Frame` and
-- `data.Field` of the Grafana SDK are lists here, and `EnumItemIndex` is a number below `items`.
pub mod Preorder
pub mod Labels
pub mod Texts
pub mod Levels
pub mod Records
pub mod Samples
use mathlib.Core.Logic.{ite}
use native.Mathlib.Decide.{ℕ_discrete}
use jidick.Base.{
  ℕ, zero, suc, ◌+◌, ◌%◌, ◌==◌, Bool, not, ◌||◌, if◌then◌else◌, Option, none, some, List, [], ◌∷◌,
  ◌++◌, ◌>>=◌, map, length, replicate, get_elem?, set?,
}

-- A name is a string, as the list of its characters.
abbrev pub String : Type 0
String = List ℕ

unfoldable pub String-discrete : Discrete String
String-discrete = hlevel (ℕ_discrete)

-- What a `ProfileTree` holds besides its `Nodes`.
pub record Bar : Type 0 where
  pub start : ℕ
  pub value : ℕ
  pub self : ℕ
  pub level : ℕ
  pub name : String

mutual
  pub data ProfileTree : Type 0 where
    profile_tree : Bar → Nodes → ProfileTree

  pub data Nodes : Type 0 where
    nil : Nodes
    cons : ProfileTree → Nodes → Nodes

-- `append(ns, rest...)`
unfoldable pub append : Nodes → Nodes → Nodes
append nil rest = rest
append (cons t ts) rest = cons t (append ts rest)

-- The number of trees in a list, with those below them.
unfoldable mutual
  pub size : ProfileTree → ℕ
  size (profile_tree b ns) = suc (size_nodes ns)

  pub size_nodes : Nodes → ℕ
  size_nodes nil = 0
  size_nodes (cons t ts) = size t + size_nodes ts

-- The stack after its first tree is taken off.
abbrev pub push_nodes : Nodes → Nodes → Nodes
push_nodes nil rest = rest
push_nodes (cons t ts) rest = append (cons t ts) rest

-- The loop of `walkTree`, with fuel for its rounds: the bars that `fn` is called with, in order.
unfoldable pub walk_loop : ℕ → Nodes → List Bar
unfolding append
walk_loop zero stack = []
walk_loop (suc fuel) nil = []
walk_loop (suc fuel) (cons (profile_tree b ns) rest) = b ∷ walk_loop fuel (push_nodes ns rest)

-- `walkTree`
unfoldable pub walk_tree : ProfileTree → List Bar
unfolding walk_loop size
walk_tree (profile_tree b ns) = b ∷ walk_loop (size_nodes ns) ns

-- An entry of `valuesMap`.
pub record Entry : Type 0 where
  pub key : String
  pub index : ℕ

pub record EnumField : Type 0 where
  pub field : List ℕ
  pub values_map : List Entry
  pub counter : ℕ

-- `NewEnumField`
abbrev pub new_enum_field : EnumField
new_enum_field = record { field = []; values_map = []; counter = 0 }

-- `e.valuesMap[value]`
unfoldable pub lookup : String → List Entry → Option ℕ
unfolding String-discrete
lookup value [] = none
lookup value (e ∷ es) = ite (String-discrete value e.key) (some e.index) (lookup value es)

module _ (items : ℕ) where
  -- `Append`, where the counter wraps around at the number of values of an `EnumItemIndex`.
  unfoldable pub append_label : String → EnumField → EnumField
  unfolding lookup
  append_label value e = elim (lookup value e.values_map) [
    | some value_index ↦ record e { field = e.field ++ value_index ∷ [] }
    | none ↦ record {
      field = e.field ++ e.counter ∷ [];
      values_map = record { key = value; index = e.counter } ∷ e.values_map;
      counter = (e.counter + 1) % items;
    }
  ]

  unfoldable pub append_labels : List String → EnumField → EnumField
  unfolding append_label
  append_labels [] e = e
  append_labels (v ∷ vs) e = append_labels vs (append_label v e)

-- The texts by their index, `s[v] = k` for the entries in the order that they are ranged over in:
-- in GetField, and again in parsedata. `none` is the panic of an index out of range.
unfoldable pub fill_keys : List Entry → List String → Option (List String)
fill_keys [] keys = some keys
fill_keys (e ∷ es) keys = do written ← set? keys e.index e.key; fill_keys es written

-- `keys[number]` for each index of the label field.
unfoldable pub labels_of : List String → List ℕ → Option (List String)
labels_of keys [] = some []
labels_of keys (i ∷ is) = do k ← get_elem? keys i; ks ← labels_of keys is; some (k ∷ ks)

-- The columns of the frame, and the label field with its texts.
pub record Frame : Type 0 where
  pub level : List ℕ
  pub value : List ℕ
  pub self : List ℕ
  pub label : EnumField
  pub text : List String

pub record FrameData : Type 0 where
  pub level : ℕ
  pub value : ℕ
  pub self : ℕ
  pub label : String

-- What the last part of parsedata comes to.
pub data Parsed : Type 0 where
  panics : Parsed
  length_not_equal : Parsed
  flame_data : List FrameData → Parsed

-- `FlameData[i]`, up to the shortest of the arrays.
unfoldable pub zip_rows : List ℕ → List ℕ → List ℕ → List String → List FrameData
zip_rows (l ∷ ls) (v ∷ vs) (s ∷ ss) (n ∷ ns) =
    record { level = l; value = v; self = s; label = n } ∷ zip_rows ls vs ss ns
zip_rows _ _ _ _ = []

-- The bars that the columns are filled from: none, if the profile was empty.
unfoldable pub bars : Option ProfileTree → List Bar
unfolding walk_tree
bars none = []
bars (some tree) = walk_tree tree

module _ (items : ℕ) (range : List Entry → List Entry) where
  -- `TreeToNestedSetDataFrame`; `range` gives the order in which a `range` takes the entries.
  unfoldable pub tree_to_nested_set_data_frame : Option ProfileTree → Option Frame
  unfolding bars append_labels fill_keys
  tree_to_nested_set_data_frame tree =
      let label_field = append_labels items (map (λ b. b.name) (bars tree)) new_enum_field in
      do
        text ←
            fill_keys (range label_field.values_map) (replicate (length label_field.values_map) [])
        some (record {
          level = map (λ b. b.level) (bars tree);
          value = map (λ b. b.value) (bars tree);
          self = map (λ b. b.self) (bars tree);
          label = label_field;
          text = text;
        })

  -- The check of the lengths, and the rows.
  unfoldable pub rows : Frame → List String → Parsed
  unfolding zip_rows
  rows frame labels =
      let data_size = length frame.level in
      if not (length frame.value == data_size)
        || (not (length frame.self == data_size) || not (length labels == data_size))
      then length_not_equal
      else flame_data (zip_rows frame.level frame.value frame.self labels)

  -- From the frame to the labels, with their texts filled in once more.
  unfoldable pub frame_labels : Frame → Option (List String)
  unfolding fill_keys labels_of
  frame_labels frame = do
    keys ← fill_keys (range frame.label.values_map) (replicate (length frame.label.values_map) [])
    labels_of keys frame.label.field

  -- parsedata, from the tree on.
  unfoldable pub parse_tree : Option ProfileTree → Parsed
  unfolding tree_to_nested_set_data_frame frame_labels rows
  parse_tree tree = elim (tree_to_nested_set_data_frame tree) [
    | none ↦ panics
    | some frame ↦ elim (frame_labels frame) [ none ↦ panics | some labels ↦ rows frame labels ]
  ]
