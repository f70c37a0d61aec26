-- ===== src/Subtree/Compare/Loop.antt =====
-- The loop of `ts_subtree_compare` computes the order of the two trees.
use tree_sitter.Prelude.{
  ℕ, zero, suc, ◌+◌, ◌≤◌, ◌<◌, ◌≡◌, refl, sym, ◌∙◌, ap, some, List, [], ◌∷◌, arith, ◌⊎◌, inl, inr,
}
use tree_sitter.Prelude.Int.{ℤ, pos, negsuc}
use tree_sitter.Subtree.{Subtree, Subtrees, inline, heap, nil, cons, children}
use tree_sitter.Subtree.Compare.{compare_nodes, push_pairs, compare_loop, compare}
use tree_sitter.Subtree.Compare.Order.{
  or_else, order, order_all, opposite, order_swap, same_shape, order_step, or_else_zero, is_zero,
  order-zero,
}

-- the nodes of a tree: the rounds that the loop makes for it
unfoldable mutual
  pub nodes : Subtree → ℕ
  nodes (inline d) = 1
  nodes (heap d cs) = suc (nodes_all cs)

  pub nodes_all : Subtrees → ℕ
  nodes_all nil = 0
  nodes_all (cons c cs) = nodes c + nodes_all cs

-- what is left to do and to decide for a stack of pairs
rounds : List Subtree → ℕ
rounds [] = 0
rounds (r ∷ []) = 0
rounds (r ∷ (l ∷ stack)) = nodes l + rounds stack

order_stack : List Subtree → ℤ
order_stack [] = pos 0
order_stack (r ∷ []) = pos 0
order_stack (r ∷ (l ∷ stack)) = or_else (order l r) (order_stack stack)

data Pairs : List Subtree → Type 0 where
  done : Pairs []
  pair : {stack : List Subtree} (l r : Subtree) → Pairs stack → Pairs (r ∷ (l ∷ stack))

or_else_assoc : (a b c : ℤ) → or_else (or_else a b) c ≡ or_else a (or_else b c)
or_else_assoc (pos zero) b c = refl
or_else_assoc (pos (suc n)) b c = refl
or_else_assoc (negsuc n) b c = refl

push_pairs-Pairs : (ls rs : Subtrees) (s : List Subtree) → Pairs s → Pairs (push_pairs ls rs s)
unfolding push_pairs
push_pairs-Pairs nil rs s p = p
push_pairs-Pairs (cons l ls) nil s p = p
push_pairs-Pairs (cons l ls) (cons r rs) s p = pair l r (push_pairs-Pairs ls rs s p)

rounds-push_pairs :
    (ls rs : Subtrees) (s : List Subtree) → rounds (push_pairs ls rs s) ≤ nodes_all ls + rounds s
unfolding push_pairs rounds nodes
rounds-push_pairs nil rs s = omega arith
rounds-push_pairs (cons l ls) nil s = omega arith
rounds-push_pairs (cons l ls) (cons r rs) s = omega (arith, rounds-push_pairs ls rs s)

order_stack-push_pairs :
    (ls rs : Subtrees) (s : List Subtree)
    → order_stack (push_pairs ls rs s) ≡ or_else (order_all ls rs) (order_stack s)
unfolding push_pairs order_stack order
order_stack-push_pairs nil rs s = refl
order_stack-push_pairs (cons l ls) nil s = refl
order_stack-push_pairs (cons l ls) (cons r rs) s =
    ap (or_else (order l r)) (order_stack-push_pairs ls rs s)
    ∙ sym (or_else_assoc (order l r) (order_all ls rs) (order_stack s))

nodes-children : (t : Subtree) → nodes t ≡ suc (nodes_all (children t))
unfolding nodes
nodes-children (inline d) = refl
nodes-children (heap d cs) = refl

ℤ-cases : (z : ℤ) → (z ≡ pos 0) ⊎ ((n : ℕ) × (z ≡ pos (suc n))) ⊎ ((n : ℕ) × (z ≡ negsuc n))
ℤ-cases (pos zero) = inl refl
ℤ-cases (pos (suc n)) = inr (inl (n, refl))
ℤ-cases (negsuc n) = inr (inr (n, refl))

-- With more fuel than nodes the loop ends, with the order of the pairs and an empty stack.
loop_decides :
    (fuel : ℕ) {stack : List Subtree}
    → Pairs stack
    → rounds stack < fuel
    → compare_loop fuel stack ≡ some (order_stack stack, [])
unfolding compare_loop rounds order_stack
loop_decides zero p h = absurd (omega arith)
loop_decides (suc fuel) done h = refl
loop_decides (suc fuel) (pair {stack} l r p) h = elim (ℤ-cases (compare_nodes l r)) [
  | inl e ↦
      rw (order_step l r, e, compare_loop)
        (loop_decides fuel (push_pairs-Pairs (children l) (children r) stack p)
            (omega (arith, nodes-children l, rounds-push_pairs (children l) (children r) stack))
          ∙ ap (λ z. some (z, [])) (order_stack-push_pairs (children l) (children r) stack))
  | inr (inl (n, e)) ↦ rw (order_step l r, e, compare_loop)
  | inr (inr (n, e)) ↦ rw (order_step l r, e, compare_loop)
]

-- Started on an empty stack, with more fuel than the left tree has nodes, the comparison returns,
-- leaves the stack empty, and its result is the order of the trees: a node before its children, its
-- children from the first to the last, and of two nodes first the child counts, then the symbols.
pub compare_is_order :
    (fuel : ℕ) (l r : Subtree) → nodes l < fuel → compare fuel l r [] ≡ some (order l r, [])
unfolding compare
compare_is_order fuel l r h =
    loop_decides fuel (pair l r done) (rounds_pair h)
    ∙ ap (λ z. some (z, [])) (order_stack_pair l r)
  where
    rounds_pair : nodes l < fuel → rounds (r ∷ (l ∷ [])) < fuel
    rounds_pair h = unfold rounds in omega arith

    order_stack_pair : (l r : Subtree) → order_stack (r ∷ (l ∷ [])) ≡ order l r
    order_stack_pair l r = unfold order_stack in or_else_zero (order l r)

-- With more fuel than either tree has nodes, comparing two trees in either order returns, the two
-- results are opposite, and they are 0 exactly when the trees have the same symbols at the same
-- places.
pub compare_swap :
    (fuel : ℕ) (l r : Subtree)
    → nodes l < fuel
    → nodes r < fuel
    → (z : ℤ) × (compare fuel l r [] ≡ some (z, []))
      × (compare fuel r l [] ≡ some (opposite z, []))
      × (is_zero z ≡ same_shape l r)
compare_swap fuel l r hl hr = (
  order l r,
  compare_is_order fuel l r hl,
  compare_is_order fuel r l hr ∙ ap (λ z. some (z, [])) (order_swap l r),
  order-zero l r,
)
