-- ===== src/Stack.antt =====
-- lib/src/stack.c: the nodes of the parse stack. A node points to its predecessors, and is shared by
-- the versions of the stack; it is counted how many pointers there are to it.
--
-- A pointer to a node is the node's index in `nodes`. A node that was given back stays there with the
-- count 0; `node_pool` holds those that are used again, the last one first. Subtrees are values, so
-- that their own reference counts, and the equality of two pointers to subtrees, which implies the rest
-- of the test it stands in, are left out.
pub mod Counts
pub mod Merge
pub mod Pop
pub mod Versions
use tree_sitter.Prelude.{
  ℕ, zero, suc, ◌+◌, ◌-◌, Bool, true, false, not, ◌&&◌, ◌||◌, Option, none, some, List, [], ◌∷◌,
  ◌++◌, ltb, ◌==◌, if◌then◌else◌, length, get_elem?, set, add32,
}
use tree_sitter.Prelude.Int.{ℤ, pos, ◌+ℤ◌}
use tree_sitter.Prelude.Run.{Run, ok, fault, out_of_fuel, ◌>>=◌}
use tree_sitter.Length.{Length, length_zero, length_add}
use tree_sitter.Language.{sym_error_repeat}
use tree_sitter.Subtree.{
  Subtree, symbol, visible, extra, padding, size, total_size, child_count, visible_descendant_count,
}
use tree_sitter.Subtree as Tree
use tree_sitter.Subtree.External.{external_scanner_state_eq}

abbrev pub max_link_count : ℕ
max_link_count = 8

abbrev pub max_node_pool_size : ℕ
max_node_pool_size = 50

-- `StackLink`; `none` is the null subtree.
pub record StackLink : Type 0 where
  pub node : ℕ
  pub subtree : Option Subtree
  pub is_pending : Bool

-- `StackNode`; `link_count` is the length of `links`.
pub record StackNode : Type 0 where
  pub state : ℕ
  pub position : Length
  pub links : List StackLink
  pub ref_count : ℕ
  pub error_cost : ℕ
  pub node_count : ℕ
  pub dynamic_precedence : ℤ

pub record Store : Type 0 where
  pub nodes : List StackNode
  pub node_pool : List ℕ

-- `*p`
pub load : Store → ℕ → Run StackNode
load s p = elim (get_elem? s.nodes p) [ none ↦ fault | some n ↦ ok n ]

abbrev pub put : Store → ℕ → StackNode → Store
put s p n = record s { nodes = set s.nodes p n }

-- `stack_node_retain` of a pointer that is not null
unfoldable pub stack_node_retain : Store → ℕ → Run Store
unfolding load
stack_node_retain s p = do
  n ← load s p
  if n.ref_count == 0 || add32 n.ref_count 1 == 0
      then fault
      else ok (put s p (record n { ref_count = add32 n.ref_count 1 }))

abbrev pub pool_push : Store → ℕ → Store
pool_push s p =
    if ltb (length s.node_pool) max_node_pool_size
    then record s { node_pool = p ∷ s.node_pool }
    else s

-- The links behind the first are released from the last on.
pub release_back : (Store → ℕ → Run Store) → List StackLink → Store → Run Store
release_back f [] s = ok s
release_back f (l ∷ ls) s = do s' ← release_back f ls s; f s' l.node

-- The rest of `stack_node_release` when the count of `p` has come down to 0.
pub release_links : (Store → ℕ → Run Store) → ℕ → List StackLink → Store → Run Store
unfolding release_back
release_links f p [] s = ok (pool_push s p)
release_links f p (l ∷ ls) s = do s' ← release_back f ls s; f (pool_push s' p) l.node

-- On fuel, which more than the sum of all counts is enough of.
unfoldable pub stack_node_release : ℕ → Store → ℕ → Run Store
unfolding load release_links
stack_node_release zero s p = out_of_fuel
stack_node_release (suc fuel) s p = do
  n ← load s p
  let s' = put s p (record n { ref_count = n.ref_count - 1 })
  if n.ref_count == 0
      then fault
      else if ltb 0 (n.ref_count - 1)
      then ok s'
      else release_links (stack_node_release fuel) p n.links s'

-- the sum of all counts
unfoldable pub total : List StackNode → ℕ
total [] = 0
total (n ∷ ns) = n.ref_count + total ns

pub release : Store → ℕ → Run Store
unfolding stack_node_release total
release s p = stack_node_release (suc (total s.nodes)) s p

-- `stack__subtree_node_count`
pub subtree_node_count : Subtree → ℕ
subtree_node_count t =
    let count = visible_descendant_count t in
    let count' = if visible t then add32 count 1 else count in
    if symbol t == sym_error_repeat then add32 count' 1 else count'

-- The node that `stack_node_new` writes, on the base node and on a previous node.
abbrev pub base_value : ℕ → StackNode
base_value state = record {
  state = state;
  position = length_zero;
  links = [];
  ref_count = 1;
  error_cost = 0;
  node_count = 0;
  dynamic_precedence = pos 0;
}

pub pushed_value : StackNode → ℕ → Option Subtree → Bool → ℕ → StackNode
unfolding subtree_node_count
pushed_value n p none is_pending state = record n {
  state = state;
  links = (record { node = p; subtree = none; is_pending = is_pending }) ∷ [];
  ref_count = 1;
}
pushed_value n p (some t) is_pending state = record {
  state = state;
  position = length_add n.position (total_size t);
  links = (record { node = p; subtree = some t; is_pending = is_pending }) ∷ [];
  ref_count = 1;
  error_cost = add32 n.error_cost (Tree.error_cost t);
  node_count = add32 n.node_count (subtree_node_count t);
  dynamic_precedence = n.dynamic_precedence +ℤ Tree.dynamic_precedence t;
}

-- A node from the pool, or a new one.
pub alloc : Store → StackNode → ℕ × Store
alloc s n = elim s.node_pool [
  | [] ↦ (length s.nodes, record s { nodes = s.nodes ++ n ∷ [] })
  | p ∷ ps ↦ (p, record { nodes = set s.nodes p n; node_pool = ps })
]

unfoldable pub stack_node_new : Store → Option ℕ → Option Subtree → Bool → ℕ → Run (ℕ × Store)
unfolding alloc load pushed_value
stack_node_new s none subtree is_pending state = ok (alloc s (base_value state))
stack_node_new s (some previous) subtree is_pending state = do
  n ← load s previous
  ok (alloc s (pushed_value n previous subtree is_pending state))

abbrev pub same : Bool → Bool → Bool
same true b = b
same false b = not b

-- `stack__subtree_is_equivalent`
unfoldable pub subtree_is_equivalent : Option Subtree → Option Subtree → Bool
unfolding external_scanner_state_eq
subtree_is_equivalent none none = true
subtree_is_equivalent none (some r) = false
subtree_is_equivalent (some l) none = false
subtree_is_equivalent (some l) (some r) =
    symbol l == symbol r
    && ((ltb 0 (Tree.error_cost l) && ltb 0 (Tree.error_cost r))
        || ((padding l).bytes == (padding r).bytes
            && (size l).bytes == (size r).bytes
            && child_count l == child_count r
            && same (extra l) (extra r)
            && external_scanner_state_eq (some l) (some r)))
