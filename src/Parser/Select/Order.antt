-- ===== src/Parser/Select/Order.antt =====
-- Which of two trees `ts_parser__select_tree` keeps, whatever their order.
use tree_sitter.Prelude.{
  suc, ◌≡◌, refl, Bool, true, false, not, ◌&&◌, ◌||◌, ltb, ◌==◌, if◌then◌else◌, zero, arith, some,
}
use tree_sitter.Prelude.Int.{ℤ, pos, negsuc}
use tree_sitter.Prelude.Run.{ok}
use tree_sitter.Subtree.{Subtree, error_cost, dynamic_precedence}
use tree_sitter.Subtree.Compare.Order.{order, order_swap, order-zero, same_shape, opposite, is_zero}
use tree_sitter.Subtree.Compare.Loop.{nodes, compare_is_order}
use tree_sitter.Stack.Merge.{ltbℤ}
use tree_sitter.Parser.Select.{select_tree, select_between, takes_right}

-- Neither tree is cheaper, nor of a higher precedence.
abbrev pub is_even : Subtree → Subtree → Bool
is_even l r =
    error_cost l == error_cost r
    && not (ltbℤ (dynamic_precedence l) (dynamic_precedence r))
    && not (ltbℤ (dynamic_precedence r) (dynamic_precedence l))

-- What the selection comes to
abbrev chosen : Subtree → Subtree → Bool
chosen l r =
    if ltb (error_cost r) (error_cost l)
    then true
    else if ltb (error_cost l) (error_cost r)
    then false
    else if ltbℤ (dynamic_precedence l) (dynamic_precedence r)
    then true
    else if ltbℤ (dynamic_precedence r) (dynamic_precedence l)
    then false
    else ltb 0 (error_cost l) || takes_right (order l r)

select_tree-chosen : (l r : Subtree) → select_tree (some l) (some r) ≡ ok (chosen l r)
unfolding select_tree select_between
select_tree-chosen l r = rw (compare_is_order (suc (nodes l)) l r (omega arith)) (ground arith)

takes_right-swap :
    (z : ℤ)
    → ((takes_right z && takes_right (opposite z)) ≡ false)
      × ((not (takes_right z) && not (takes_right (opposite z))) ≡ is_zero z)
unfolding is_zero
takes_right-swap (pos zero) = (refl, refl)
takes_right-swap (pos (suc n)) = (refl, refl)
takes_right-swap (negsuc n) = (refl, refl)

-- Selecting between two trees always returns, and the order in which they are given rarely matters:
-- both orders take the second tree only when the trees have the same error cost above 0 and the same
-- dynamic precedence; both keep the first one only when the trees have no errors, the same dynamic
-- precedence and the same symbols at the same places. In all other cases one tree is kept in either
-- order.
pub select_tree_swap :
    (l r : Subtree)
    → (b c : Bool) × (select_tree (some l) (some r) ≡ ok b)
      × (select_tree (some r) (some l) ≡ ok c)
      × ((b && c) ≡ (is_even l r && ltb 0 (error_cost l)))
      × ((not b && not c) ≡ (is_even l r && not (ltb 0 (error_cost l)) && same_shape l r))
select_tree_swap l r =
    let t = takes_right-swap (order l r) in
    let o = order_swap l r in
    let z = order-zero l r in
    (
      chosen l r,
      chosen r l,
      select_tree-chosen l r,
      select_tree-chosen r l,
      rw o (ground (arith, t.0)),
      rw o (ground (arith, t.1, z)),
    )
