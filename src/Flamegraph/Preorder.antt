-- ===== src/Flamegraph/Preorder.antt =====
-- The order in which the loop of internal/flamegraph/flamegraph.go visits a tree.
use mathlib.Core.List.{append_assoc}
use jidick.Base.{ℕ, zero, suc, ◌+◌, ◌≤◌, ◌≡◌, refl, sym, ap, arith, List, [], ◌∷◌, ◌++◌}
use jidick.Flamegraph.{
  Bar, ProfileTree, profile_tree, Nodes, nil, cons, append, size, size_nodes, push_nodes, walk_loop,
  walk_tree,
}

-- A tree, and then the trees below it from the first to the last, each with those below it.
unfoldable mutual
  pub preorder : ProfileTree → List Bar
  preorder (profile_tree b ns) = b ∷ preorder_nodes ns

  pub preorder_nodes : Nodes → List Bar
  preorder_nodes nil = []
  preorder_nodes (cons t ts) = preorder t ++ preorder_nodes ts

preorder_nodes-append :
    (ns rest : Nodes) → preorder_nodes (append ns rest) ≡ preorder_nodes ns ++ preorder_nodes rest
unfolding append preorder
preorder_nodes-append nil rest = refl
preorder_nodes-append (cons t ts) rest =
    rw (preorder_nodes-append ts rest) (sym (append_assoc (preorder t) _ _))

size_nodes-append :
    (ns rest : Nodes) → size_nodes (append ns rest) ≡ size_nodes ns + size_nodes rest
unfolding append size
size_nodes-append nil rest = omega arith
size_nodes-append (cons t ts) rest = let tail = size_nodes-append ts rest in omega arith

push_nodes-append : (ns rest : Nodes) → push_nodes ns rest ≡ append ns rest
unfolding append
push_nodes-append nil rest = refl
push_nodes-append (cons t ts) rest = refl

walk_loop-preorder :
    (fuel : ℕ) (stack : Nodes)
    → size_nodes stack ≤ fuel
    → walk_loop fuel stack ≡ preorder_nodes stack
unfolding walk_loop preorder size
walk_loop-preorder zero nil h = refl
walk_loop-preorder zero (cons (profile_tree b ns) rest) h = absurd (omega arith)
walk_loop-preorder (suc fuel) nil h = refl
walk_loop-preorder (suc fuel) (cons (profile_tree b ns) rest) h =
    let enough : size_nodes (append ns rest) ≤ fuel =
      rw (size_nodes-append ns rest) (omega arith) in
    let tail = walk_loop-preorder fuel (append ns rest) enough in
    rw (push_nodes-append ns rest, tail, preorder_nodes-append ns rest) refl

-- The loop over a stack visits every bar of the tree once, a bar before those below it, and those
-- below it before the ones that follow.
pub walk_tree-preorder : (tree : ProfileTree) → walk_tree tree ≡ preorder tree
unfolding walk_tree preorder
walk_tree-preorder (profile_tree b ns) =
    ap (λ bs. b ∷ bs) (walk_loop-preorder (size_nodes ns) ns (omega arith))
