-- ===== src/Stack/Merge.antt =====
-- lib/src/stack.c: adding a link to a node, and merging two versions.
pub mod Counts
pub mod Owned
use tree_sitter.Prelude.{
  ℕ, zero, suc, ◌+◌, Bool, true, false, not, ◌&&◌, Option, none, some, List, [], ◌∷◌, ◌++◌, ltb,
  ◌==◌, if◌then◌else◌, length, get_elem?, set, add32,
}
use tree_sitter.Prelude.Int.{ℤ, pos_part, neg_part, ◌+ℤ◌}
use tree_sitter.Prelude.Run.{Run, ok, fault, out_of_fuel, ◌>>=◌}
use tree_sitter.Subtree.{Subtree}
use tree_sitter.Subtree as Tree
use tree_sitter.Stack.{
  StackLink, StackNode, Store, load, put, max_link_count, stack_node_retain, subtree_node_count,
  subtree_is_equivalent,
}
use tree_sitter.Stack.Versions.{Stack, head_node, put_head, can_merge, remove_version, error_state}

abbrev pub ltbℤ : ℤ → ℤ → Bool
ltbℤ a b = ltb (pos_part a + neg_part b) (pos_part b + neg_part a)

-- What the loop over the links of a node finds for a new link.
pub data LinkMatch : Type 0 where
  no_match : LinkMatch
  same_node : (index : ℕ) → LinkMatch
  mergeable : (node : ℕ) → LinkMatch

pub find_match : Store → StackLink → List StackLink → ℕ → Run LinkMatch
unfolding load subtree_is_equivalent
find_match s link [] i = ok no_match
find_match s link (x ∷ xs) i =
    let rest = find_match s link xs (i + 1) in
    if not (subtree_is_equivalent x.subtree link.subtree)
    then rest
    else if x.node == link.node
    then ok (same_node i)
    else do
      a ← load s x.node
      b ← load s link.node
      if a.state == b.state && a.position.bytes == b.position.bytes
          then ok (mergeable x.node)
          else rest

-- Of two links to the same node the one with the higher precedence stays. The code reads both
-- subtrees, also where they are null.
pub replace_link : Store → ℕ → StackNode → ℕ → StackLink → Option Subtree → Run Store
unfolding load
replace_link s self n i link none = fault
replace_link s self n i link (some x) = elim link.subtree [
  | none ↦ fault
  | some t ↦ if not (ltbℤ (Tree.dynamic_precedence x) (Tree.dynamic_precedence t)) then ok s else do
    m ← load s link.node
    elim (get_elem? n.links i) [
      | none ↦ fault
      | some l ↦ ok (
          put s self (record n {
            links = set n.links i (record l { subtree = some t });
            dynamic_precedence = m.dynamic_precedence +ℤ Tree.dynamic_precedence t;
          }))
    ]
]

abbrev pub subtree_of : List StackLink → ℕ → Option Subtree
subtree_of links i = elim (get_elem? links i) [ none ↦ none | some l ↦ l.subtree ]

abbrev pub link_precedence : StackNode → StackLink → ℤ
link_precedence m link = elim link.subtree [
  | none ↦ m.dynamic_precedence
  | some t ↦ m.dynamic_precedence +ℤ Tree.dynamic_precedence t
]

abbrev pub link_node_count : StackNode → StackLink → ℕ
unfolding subtree_node_count
link_node_count m link = elim link.subtree [
  | none ↦ m.node_count
  | some t ↦ add32 m.node_count (subtree_node_count t)
]

-- The precedence of a node is at least that along a link.
abbrev pub raised : ℤ → ℤ → ℤ
raised old new = if ltbℤ old new then new else old

pub append_link : Store → ℕ → StackNode → StackLink → Run Store
unfolding load stack_node_retain
append_link s self n link = if length n.links == max_link_count then ok s else do
  s' ← stack_node_retain s link.node
  m ← load s' link.node
  let nodes = link_node_count m link
  ok (
      put s' self (record n {
        links = n.links ++ link ∷ [];
        node_count = if ltb n.node_count nodes then nodes else n.node_count;
        dynamic_precedence = raised n.dynamic_precedence (link_precedence m link);
      }))

-- The loop that adds the links of the node `source`, from one index on, to the node `target`.
pub add_links : (Store → ℕ → StackLink → Run Store) → ℕ → ℕ → ℕ → ℕ → Store → Run Store
unfolding load
add_links f zero target source j s = out_of_fuel
add_links f (suc rounds) target source j s = do
  n ← load s source
  elim (get_elem? n.links j) [
    | none ↦ ok s
    | some l ↦ f s target l >>= add_links f rounds target source (suc j)
  ]

-- `stack_node_add_link`, on fuel: one for each node on a path from the link on.
pub stack_node_add_link : ℕ → Store → ℕ → StackLink → Run Store
unfolding load find_match replace_link append_link add_links
stack_node_add_link zero s self link = out_of_fuel
stack_node_add_link (suc fuel) s self link = if link.node == self then ok s else do
  n ← load s self
  found ← find_match s link n.links 0
  elim found [
    | no_match ↦ append_link s self n link
    | same_node i ↦ replace_link s self n i link (subtree_of n.links i)
    | mergeable target ↦ (do
      s' ← add_links (stack_node_add_link fuel) (suc max_link_count) target link.node 0 s
      n' ← load s' self
      m ← load s' link.node
      ok (
          put s' self (record n' {
            dynamic_precedence = raised n'.dynamic_precedence (link_precedence m link);
          })))
  ]

-- `ts_stack_merge`
unfoldable pub merge : ℕ → Stack → ℕ → ℕ → Run (Bool × Stack)
unfolding can_merge head_node add_links stack_node_add_link load remove_version
merge fuel s v1 v2 = do
  possible ← can_merge s v1 v2
  if not possible then ok (false, s) else do
    (h1, n1) ← head_node s v1
    (h2, n2) ← head_node s v2
    store ← add_links (stack_node_add_link fuel) (suc max_link_count) h1.node h2.node 0 s.store
    n1' ← load store h1.node
    let h1' =
        if n1'.state == error_state
        then record h1 { node_count_at_last_error = n1'.node_count }
        else h1
    s' ← remove_version (put_head (record s { store = store }) v1 h1') v2
    ok (true, s')
