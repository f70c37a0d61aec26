-- ===== src/Subtree/Compare/Order.antt =====
-- The order on trees by which `ts_subtree_compare` goes, as a recursion over the left tree.
use tree_sitter.Prelude.{
  ℕ, ltb, if◌then◌else◌, zero, suc, ◌≡◌, refl, sym, ap, ap₂, ◌∙◌, Bool, true, false, ◌&&◌, ◌==◌,
  arith,
}
use tree_sitter.Prelude.Int.{ℤ, pos, negsuc}
use tree_sitter.Subtree.{
  Subtree, Subtrees, InlineData, inline, heap, nil, cons, children, child_count, symbol, count,
}
use tree_sitter.Subtree.Compare.{compare_nodes}

-- The first of two comparisons decides, unless it is 0.
abbrev pub or_else : ℤ → ℤ → ℤ
or_else (pos zero) b = b
or_else (pos (suc n)) b = pos (suc n)
or_else (negsuc n) b = negsuc n

-- Negative, positive or 0, as the first number is less than, greater than or equal to the second
abbrev pub three_way : ℕ → ℕ → ℤ
three_way a b = if ltb a b then negsuc 0 else if ltb b a then pos 1 else pos 0

-- Of two nodes the child counts decide, and the symbols if these are equal.
unfoldable pub node_order : Subtree → Subtree → ℤ
node_order l r =
    or_else (three_way (child_count l) (child_count r)) (three_way (symbol l) (symbol r))

node_order_lem : (l r : Subtree) → compare_nodes l r ≡ node_order l r
unfolding compare_nodes node_order
node_order_lem l r = ground arith

-- Nodes are compared before their children, and children from the first to the last.
unfoldable mutual
  pub order : Subtree → Subtree → ℤ
  order (inline d) r = node_order (inline d) r
  order (heap d cs) r = or_else (node_order (heap d cs) r) (order_all cs (children r))

  pub order_all : Subtrees → Subtrees → ℤ
  order_all nil rs = pos 0
  order_all (cons l ls) nil = pos 0
  order_all (cons l ls) (cons r rs) = or_else (order l r) (order_all ls rs)

-- The three results of a comparison, turned round.
abbrev pub opposite : ℤ → ℤ
opposite (pos zero) = pos 0
opposite (pos (suc n)) = negsuc n
opposite (negsuc n) = pos (suc n)

opposite-or_else : (a b : ℤ) → opposite (or_else a b) ≡ or_else (opposite a) (opposite b)
opposite-or_else (pos zero) b = refl
opposite-or_else (pos (suc n)) b = refl
opposite-or_else (negsuc n) b = refl

opposite-node_order : (l r : Subtree) → node_order r l ≡ opposite (node_order l r)
unfolding node_order
opposite-node_order l r = ground arith

pub or_else_zero : (a : ℤ) → or_else a (pos 0) ≡ a
or_else_zero (pos zero) = refl
or_else_zero (pos (suc n)) = refl
or_else_zero (negsuc n) = refl

order_all_nil : (cs : Subtrees) → order_all cs nil ≡ pos 0
unfolding order
order_all_nil nil = refl
order_all_nil (cons c cs) = refl

order-inline : (l : Subtree) (r : InlineData) → order l (inline r) ≡ node_order l (inline r)
unfolding order
order-inline (inline d) r = refl
order-inline (heap d cs) r =
    ap (or_else (node_order (heap d cs) (inline r))) (order_all_nil cs) ∙ or_else_zero _

mutual
  unfolding order

  order-opposite : (l r : Subtree) → order r l ≡ opposite (order l r)
  order-opposite (inline d) r = order-inline r d ∙ opposite-node_order (inline d) r
  order-opposite (heap d cs) (inline e) =
      opposite-node_order (heap d cs) (inline e) ∙ ap opposite (sym (order-inline (heap d cs) e))
  order-opposite (heap d cs) (heap e ds) =
      ap₂ or_else (opposite-node_order (heap d cs) (heap e ds)) (order_all-opposite cs ds)
      ∙ sym (opposite-or_else (node_order (heap d cs) (heap e ds)) (order_all cs ds))

  order_all-opposite : (ls rs : Subtrees) → order_all rs ls ≡ opposite (order_all ls rs)
  order_all-opposite nil nil = refl
  order_all-opposite nil (cons r rs) = refl
  order_all-opposite (cons l ls) nil = refl
  order_all-opposite (cons l ls) (cons r rs) =
      ap₂ or_else (order-opposite l r) (order_all-opposite ls rs)
      ∙ sym (opposite-or_else (order l r) (order_all ls rs))

-- One step of the order, without a case of the left tree.
pub order_step :
    (l r : Subtree) → order l r ≡ or_else (compare_nodes l r) (order_all (children l) (children r))
unfolding order
order_step (inline d) r = sym (or_else_zero _ ∙ node_order_lem (inline d) r)
order_step (heap d cs) r =
    ap (λ z. or_else z (order_all cs (children r))) (sym (node_order_lem (heap d cs) r))

-- The order is turned round with the trees.
pub order_swap : (l r : Subtree) → order r l ≡ opposite (order l r)
order_swap l r = order-opposite l r

-- Two trees have the same symbols at the same places.
unfoldable mutual
  pub same_shape : Subtree → Subtree → Bool
  same_shape (inline d) r = d.symbol == symbol r && child_count r == 0
  same_shape (heap d cs) r =
      d.symbol == symbol r && count cs == child_count r && same_shapes cs (children r)

  pub same_shapes : Subtrees → Subtrees → Bool
  same_shapes nil nil = true
  same_shapes nil (cons r rs) = false
  same_shapes (cons l ls) nil = false
  same_shapes (cons l ls) (cons r rs) = same_shape l r && same_shapes ls rs

unfoldable pub is_zero : ℤ → Bool
is_zero (pos zero) = true
is_zero _ = false

is_zero-or_else : (a b : ℤ) → is_zero (or_else a b) ≡ (is_zero a && is_zero b)
unfolding is_zero
is_zero-or_else (pos zero) b = refl
is_zero-or_else (pos (suc n)) b = refl
is_zero-or_else (negsuc n) b = refl

mutual
  unfolding order same_shape is_zero node_order

  zero-order : (l r : Subtree) → is_zero (order l r) ≡ same_shape l r
  zero-order (inline d) r = ground arith
  zero-order (heap d cs) r =
      is_zero-or_else (node_order (heap d cs) r) (order_all cs (children r))
      ∙ ground (arith, zero-order_all cs (children r))

  zero-order_all :
      (ls rs : Subtrees) → count ls ≡ count rs → is_zero (order_all ls rs) ≡ same_shapes ls rs
  zero-order_all nil nil h = refl
  zero-order_all nil (cons r rs) h = absurd (omega arith)
  zero-order_all (cons l ls) nil h = absurd (omega arith)
  zero-order_all (cons l ls) (cons r rs) h =
      is_zero-or_else (order l r) (order_all ls rs)
      ∙ ground (arith, zero-order l r, zero-order_all ls rs)

-- Trees are equal in the order exactly when they have the same shape.
pub order-zero : (l r : Subtree) → is_zero (order l r) ≡ same_shape l r
order-zero l r = zero-order l r
