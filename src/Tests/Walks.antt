-- ===== src/Tests/Walks.antt =====
-- The theorem on the walk over an old tree (lib/src/reusable_node.h) at a small tree.
use tree_sitter.Prelude.{ℕ, ◌≡◌, refl, Option, none, some, List, [], ◌∷◌, add32, arith}
use tree_sitter.Prelude.Run.{Run, ok, ◌>>=◌}
use tree_sitter.Length.{length_add}
use tree_sitter.Subtree.{Subtree, total_bytes}
use tree_sitter.Subtree.External.{last_external_token}
use tree_sitter.Subtree.External.Laws.{any_external}
use tree_sitter.ReusableNode.{
  ReusableNode, StackEntry, reusable_node_new, reusable_node_tree, reusable_node_byte_offset,
  reusable_node_reset, reusable_node_advance, reusable_node_advance_past_leaf,
}
use tree_sitter.ReusableNode.Offsets.{
  Placed, GoesOn, Sized, levels, first_leaf, reusable_node_advance_past_leaf-Placed,
}
use tree_sitter.Tests.Trees.{comma, indent, list_node}

abbrev seen_at : ReusableNode → Option Subtree × ℕ
unfolding reusable_node_tree reusable_node_byte_offset
seen_at r = (reusable_node_tree r, reusable_node_byte_offset r)

-- The second and the third child, and the end.
abbrev walked : Run (List (Option Subtree × ℕ))
unfolding reusable_node_new reusable_node_reset reusable_node_advance
    reusable_node_advance_past_leaf reusable_node_tree reusable_node_byte_offset
walked = do
  r ← reusable_node_reset reusable_node_new list_node
  r1 ← reusable_node_advance r
  r2 ← reusable_node_advance_past_leaf 1 r1
  r3 ← reusable_node_advance r2
  ok (seen_at r1 ∷ seen_at r2 ∷ seen_at r3 ∷ [])

walked_nodes : walked ≡ ok ((some comma, 3) ∷ (some indent, 5) ∷ (none, 4294967295) ∷ [])
unfolding reusable_node_new reusable_node_reset reusable_node_advance
    reusable_node_advance_past_leaf reusable_node_tree reusable_node_byte_offset length_add
    last_external_token
walked_nodes = refl

abbrev root_entry : StackEntry
root_entry = record { tree = list_node; child_index = 0; byte_offset = 0 }

reusable_node_advance_past_leaf-Placed_example :
    (r : ReusableNode) × (reusable_node_advance_past_leaf 2
        (record { stack = root_entry ∷ []; last_external_token = none })
      ≡ ok r)
    × Placed r.stack
    × GoesOn (add32 0 (total_bytes (first_leaf list_node))) r.stack
unfolding Sized levels length_add any_external
reusable_node_advance_past_leaf-Placed_example =
    reusable_node_advance_past_leaf-Placed 2 list_node 0 0 [] none
      (refl, omega arith, tt, (tt, (tt, tt))) (omega arith) (refl, tt, (tt, (tt, tt))) (omega arith)
