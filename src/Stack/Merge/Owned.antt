-- ===== src/Stack/Merge/Owned.antt =====
-- Merging two versions of the stack keeps the counts of its nodes right.
use tree_sitter.Prelude.{
  ℕ, zero, suc, ◌+◌, ◌<◌, ◌≡◌, refl, Bool, true, false, not, some, List, [], ◌∷◌, ◌==◌,
  if◌then◌else◌, length, get_elem?, set, arith, length-set, u32_mod,
}
use tree_sitter.Prelude.Run.{ok, ◌>>=◌, Holds, Holds-if, Holds-bind}
use tree_sitter.Stack.{StackNode, Store, total, load, max_link_count}
use tree_sitter.Stack.Counts.{one, count_of, count_of-get}
use tree_sitter.Stack.Versions.{
  Stack, StackHead, head_at, head_node, put_head, can_merge, remove_version, error_state,
}
use tree_sitter.Stack.Versions.Owned.{Owned, head_times, head_live, put_head-Owned}
use tree_sitter.Stack.Versions.Moves.{remove-Keeps}
use tree_sitter.Stack.Pop.Counts.{CountsFit, Fits-of_total, Holds-then}
use tree_sitter.Stack.Merge.{merge, add_links, stack_node_add_link}
use tree_sitter.Stack.Merge.Counts.{Linked, add_links-Linked, stack_node_add_link-Adds}

get_elem?-lt {ℓ} :
    {A : Type ℓ} (xs : List A) (i : ℕ) (x : A) → get_elem? xs i ≡ some x → i < length xs
get_elem?-lt [] i x e = cc
get_elem?-lt (y ∷ xs) zero x e = omega arith
get_elem?-lt (y ∷ xs) (suc i) x e = omega (arith, get_elem?-lt xs i x e)

head_node-get :
    (s : Stack) (v : ℕ) (x : StackHead × StackNode)
    → head_node s v ≡ ok x
    → get_elem? s.heads v ≡ some x.0
unfolding head_node head_at load
head_node-get s v x e = ground arith

-- The last part of the merge: the head of the first version keeps its node, and the second one goes.
remove-Owned :
    (s : Stack) (store : Store) (v1 v2 : ℕ) (h1 h2 h1' : StackHead)
    → CountsFit store (λ q. one s.base_node q + head_times q s.heads)
    → get_elem? s.heads v1 ≡ some h1
    → get_elem? s.heads v2 ≡ some h2
    → h1'.node ≡ h1.node
    → Holds
        (λ (x : Bool × Stack). Owned x.1)
        (remove_version (put_head (record s { store = store }) v1 h1') v2 >>= λ t. ok (true, t))
remove-Owned s store v1 v2 h1 h2 h1' c g1 g2 e =
    let o = put_head-Owned (record s { store = store }) v1 h1 h1' g1 e c.0 in
    let here : v2 < length (set s.heads v1 h1') =
      omega (arith, get_elem?-lt s.heads v2 h2 g2, length-set s.heads v1 h1') in
    let (t, f, o') = remove-Keeps (put_head (record s { store = store }) v1 h1') v2 o here in
    rw (f, ◌>>=◌) o'

-- In a stack whose nodes are counted right and have fewer than 2 ^ 32 pointers in all, a merge that
-- returns leaves the nodes counted right.
pub merge-Owned :
    (fuel : ℕ) (s : Stack) (v1 v2 : ℕ)
    → Owned s
    → total s.store.nodes < u32_mod
    → Holds (λ (x : Bool × Stack). Owned x.1) (merge fuel s v1 v2)
unfolding merge
merge-Owned fuel s v1 v2 o b =
    let Q = λ (x : Bool × Stack). Owned x.1 in
    let w = λ (q : ℕ). one s.base_node q + head_times q s.heads in
    Holds-bind Q (can_merge s v1 v2) _ (λ possible _.
      Holds-if Q (not possible) _ _ (λ _. o)
        (λ _. Holds-bind Q (head_node s v1) _ (λ x e1. Holds-bind Q (head_node s v2) _ (λ y e2.
          let g1 = head_node-get s v1 x e1 in
          Holds-then (Linked s.store w) Q
            (add_links (stack_node_add_link fuel) (suc max_link_count) x.0.node y.0.node 0 s.store)
            _
            (add_links-Linked (stack_node_add_link fuel) w (suc max_link_count) x.0.node y.0.node 0
              s.store (stack_node_add_link-Adds fuel w) (Fits-of_total s o b) (in_use x.0 g1))
            (λ store c. Holds-bind Q (load store x.0.node) _ (λ n _.
              remove-Owned s store v1 v2 x.0 y.0
                (if n.state == error_state
                  then record (x.0) { node_count_at_last_error = n.node_count }
                  else x.0)
                c.0 g1 (head_node-get s v2 y e2)
                (same_node x.0 n.node_count (n.state == error_state))))))))
  where
    in_use : (h : StackHead) → get_elem? s.heads v1 ≡ some h → 0 < count_of s.store.nodes h.node
    in_use h g =
        let (n, k, l) = head_live s v1 h o g in
        omega (arith, (count_of-get s.store.nodes h.node n k).0, l)

    same_node :
        (h : StackHead) (count : ℕ) (b : Bool)
        → (if b then record h { node_count_at_last_error = count } else h).node ≡ h.node
    same_node h count true = refl
    same_node h count false = refl
