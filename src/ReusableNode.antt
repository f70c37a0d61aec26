-- ===== src/ReusableNode.antt =====
-- lib/src/reusable_node.h: the walk of the parser over the nodes of an old tree.
pub mod Offsets
use tree_sitter.Prelude.{
  ℕ, zero, suc, ◌+◌, Bool, true, false, Option, none, some, List, [], ◌∷◌, ltb, if◌then◌else◌,
  add32, u32_max,
}
use tree_sitter.Prelude.Run.{Run, ok, fault, out_of_fuel, ◌>>=◌}
use tree_sitter.Subtree.{Subtree, child_at, child_count, children, total_bytes, has_external_tokens}
use tree_sitter.Subtree.External as External

-- `StackEntry`
pub record StackEntry : Type 0 where
  pub tree : Subtree
  pub child_index : ℕ
  pub byte_offset : ℕ

-- `ReusableNode`, with the last entry of its stack first
pub record ReusableNode : Type 0 where
  pub stack : List StackEntry
  pub last_external_token : Option Subtree

unfoldable pub reusable_node_new : ReusableNode
reusable_node_new = record { stack = []; last_external_token = none }

abbrev pub reusable_node_clear : ReusableNode → ReusableNode
reusable_node_clear r = record { stack = []; last_external_token = none }

unfoldable pub reusable_node_tree : ReusableNode → Option Subtree
reusable_node_tree r = elim r.stack [ [] ↦ none | e ∷ es ↦ some e.tree ]

unfoldable pub reusable_node_byte_offset : ReusableNode → ℕ
reusable_node_byte_offset r = elim r.stack [ [] ↦ u32_max | e ∷ es ↦ e.byte_offset ]

-- The loop that pops entries up to one with a child at the next index; that index is an argument. A
-- child that is not there, which the test excludes, ends the walk here.
unfoldable pub climb : ℕ → ℕ → List StackEntry → List StackEntry
climb byte_offset next_index [] = []
climb byte_offset next_index (p ∷ rest) =
    let further = climb byte_offset (add32 p.child_index 1) rest in
    if ltb next_index (child_count p.tree)
    then elim (child_at (children p.tree) next_index) [
      | none ↦ []
      | some c ↦
          (record { tree = c; child_index = next_index; byte_offset = byte_offset }) ∷ p ∷ rest
    ]
    else further

-- An empty stack fails the assertion of `array_back`.
unfoldable pub reusable_node_advance : ReusableNode → Run ReusableNode
unfolding climb
reusable_node_advance r = elim r.stack [
  | [] ↦ fault
  | e ∷ rest ↦
      let stack = climb (add32 e.byte_offset (total_bytes e.tree)) (add32 e.child_index 1) rest in
      if has_external_tokens e.tree
      then elim (External.last_external_token e.tree) [
        | none ↦ out_of_fuel
        | some token ↦ ok (record { stack = stack; last_external_token = token })
      ]
      else ok (record r { stack = stack })
]

unfoldable pub reusable_node_descend : ReusableNode → Run (Bool × ReusableNode)
reusable_node_descend r = elim r.stack [
  | [] ↦ fault
  | e ∷ rest ↦ elim (child_at (children e.tree) 0) [
    | none ↦ ok (false, r)
    | some c ↦ ok (
      true,
      record r {
        stack = (record { tree = c; child_index = 0; byte_offset = e.byte_offset }) ∷ e ∷ rest;
      },
    )
  ]
]

-- On fuel: one for each level of the tree, and one more.
unfoldable pub reusable_node_advance_past_leaf : ℕ → ReusableNode → Run ReusableNode
unfolding reusable_node_descend reusable_node_advance
reusable_node_advance_past_leaf zero r = out_of_fuel
reusable_node_advance_past_leaf (suc fuel) r = do
  (descended, r') ← reusable_node_descend r
  if descended then reusable_node_advance_past_leaf fuel r' else reusable_node_advance r'

unfoldable pub reusable_node_reset : ReusableNode → Subtree → Run ReusableNode
unfolding reusable_node_descend
reusable_node_reset r tree = do
  (descended, r') ← reusable_node_descend (record {
    stack = (record { tree = tree; child_index = 0; byte_offset = 0 }) ∷ [];
    last_external_token = none;
  })
  ok (if descended then r' else reusable_node_clear r')
