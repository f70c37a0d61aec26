-- ===== src/Subtree/Compare.antt =====
-- lib/src/subtree.c: `ts_subtree_compare`, which walks two trees together on an explicit stack.
pub mod Order
pub mod Loop
use tree_sitter.Prelude.{ℕ, zero, suc, Bool, Option, none, some, List, [], ◌∷◌, ltb, if◌then◌else◌}
use tree_sitter.Prelude.Int.{ℤ, pos, negsuc}
use tree_sitter.Subtree.{Subtree, Subtrees, nil, cons, children, child_count, symbol}

-- The four tests at one pair of nodes, each of which overwrites the result of those above it.
pub compare_nodes : Subtree → Subtree → ℤ
compare_nodes left right =
    let r0 : ℤ = if ltb (symbol left) (symbol right) then negsuc 0 else pos 0 in
    let r1 : ℤ = if ltb (symbol right) (symbol left) then pos 1 else r0 in
    let r2 : ℤ = if ltb (child_count left) (child_count right) then negsuc 0 else r1 in
    if ltb (child_count right) (child_count left) then pos 1 else r2

-- Pushes the pairs of children from the last to the first, so that the first pair is on top. The
-- right tree of a pair lies above the left one.
pub push_pairs : Subtrees → Subtrees → List Subtree → List Subtree
push_pairs (cons l ls) (cons r rs) stack = r ∷ l ∷ push_pairs ls rs stack
push_pairs nil _ stack = stack
push_pairs (cons l ls) nil stack = stack

-- The loop, on fuel; the result comes with the stack that is left in the pool.
pub compare_loop : ℕ → List Subtree → Option (ℤ × List Subtree)
unfolding compare_nodes push_pairs
compare_loop zero stack = none
compare_loop (suc fuel) [] = some (pos 0, [])
compare_loop (suc fuel) (right ∷ []) = none
compare_loop (suc fuel) (right ∷ (left ∷ stack)) = elim (compare_nodes left right) [
  | pos zero ↦ compare_loop fuel (push_pairs (children left) (children right) stack)
  | pos (suc n) ↦ some (pos (suc n), [])
  | negsuc n ↦ some (negsuc n, [])
]

unfoldable pub compare : ℕ → Subtree → Subtree → List Subtree → Option (ℤ × List Subtree)
unfolding compare_loop
compare fuel left right stack = compare_loop fuel (right ∷ left ∷ stack)
