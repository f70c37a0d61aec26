-- ===== src/Parser/Select.antt =====
-- lib/src/parser.c: choosing between two trees for the same text.
pub mod Order
use tree_sitter.Prelude.{
  zero, suc, Bool, true, false, Option, none, some, List, [], ltb, if◌then◌else◌,
}
use tree_sitter.Prelude.Int.{ℤ, pos, negsuc}
use tree_sitter.Prelude.Run.{Run, ok, out_of_fuel}
use tree_sitter.Language.{Language}
use tree_sitter.Subtree.{Subtree, symbol, error_cost, dynamic_precedence}
use tree_sitter.Subtree.Summary.{new_node}
use tree_sitter.Subtree.Compare.{compare}
use tree_sitter.Subtree.Compare.Loop.{nodes}
use tree_sitter.Stack.Merge.{ltbℤ}

-- The result 1 of the comparison takes the right tree, -1 and 0 do not.
abbrev pub takes_right : ℤ → Bool
takes_right (pos zero) = false
takes_right (pos (suc n)) = true
takes_right (negsuc n) = false

abbrev compared : Option (ℤ × List Subtree) → Run Bool
compared none = out_of_fuel
compared (some (result, rest)) = ok (takes_right result)

-- `ts_parser__select_tree` of two trees
pub select_between : Subtree → Subtree → Run Bool
unfolding compare nodes
select_between left right =
    if ltb (error_cost right) (error_cost left)
    then ok true
    else if ltb (error_cost left) (error_cost right)
    then ok false
    else if ltbℤ (dynamic_precedence left) (dynamic_precedence right)
    then ok true
    else if ltbℤ (dynamic_precedence right) (dynamic_precedence left)
    then ok false
    else if ltb 0 (error_cost left)
    then ok true
    else compared (compare (suc (nodes left)) left right [])

-- `ts_parser__select_tree`; `none` is the null subtree.
unfoldable pub select_tree : Option Subtree → Option Subtree → Run Bool
unfolding select_between
select_tree none right = ok true
select_tree (some l) none = ok false
select_tree (some l) (some r) = select_between l r

-- `ts_parser__select_children`
unfoldable pub select_children : Language → Subtree → List Subtree → Run Bool
unfolding select_tree new_node
select_children l left children =
    select_tree (some left) (some (new_node l (symbol left) children 0))
