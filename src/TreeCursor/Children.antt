-- ===== src/TreeCursor/Children.antt =====
-- lib/src/tree_cursor.c: what the iteration over the children of a node visits, and with which
-- positions and indices.
use tree_sitter.Prelude.{
  ℕ, suc, ◌+◌, ◌%◌, ◌<◌, ◌≡◌, refl, ◌∙◌, arith, false, some, List, ◌==◌, if◌then◌else◌, get_elem?,
  length, add32, ne→==, u32_mod,
}
use tree_sitter.Language.{Language, alias_sequence}
use tree_sitter.Subtree.{child_at, Subtree, Subtrees, nil, cons, count, children, production_id}
use tree_sitter.Subtree.Summary.Counts.{visible_below_in, AllCounted}
use tree_sitter.TreeCursor.Siblings.{position_of}
use tree_sitter.TreeCursor.Moves.{iterate}
use tree_sitter.TreeCursor.{
  TreeCursorEntry, TreeCursor, CursorChildIterator, Visit, child_iterator_next, visits, all_visits,
  iterate_children, is_entry_visible,
}
use tree_sitter.TreeCursor.Walk.{
  walk, InFrontOf, visits-walk, walk-descendants, walk-children, length-walk, walk-position, first,
  rows,
}

-- The iterator that a cursor starts with at an entry that has children.
abbrev iterator_at : Language → TreeCursorEntry → List TreeCursorEntry → CursorChildIterator
unfolding is_entry_visible alias_sequence
iterator_at l e below = record {
  parent = some e.subtree;
  position = e.position;
  child_index = 0;
  structural_child_index = 0;
  descendant_index =
      if is_entry_visible l e below then add32 e.descendant_index 1 else e.descendant_index;
  aliases = alias_sequence l (production_id e.subtree);
}

iterate_children-iterator_at :
    (l : Language) (e : TreeCursorEntry) (below : List TreeCursorEntry) (c : Subtree)
    (cs : Subtrees)
    → children e.subtree ≡ cons c cs
    → iterate_children l e below ≡ iterator_at l e below
unfolding iterate_children
iterate_children-iterator_at l e below c cs h =
    let some_children : (suc (count cs) == 0) ≡ false = ne→== (suc (count cs)) 0 (omega arith) in
    rw (h, some_children) refl

iterate-walk :
    (l : Language) (e : TreeCursorEntry) (below : List TreeCursorEntry) (cs : Subtrees)
    → children e.subtree ≡ cs
    → count cs < u32_mod
    → all_visits child_iterator_next (iterate_children l e below) ≡ walk (iterator_at l e below) cs
unfolding visits walk iterate_children
iterate-walk l e below nil h b = rw h refl
iterate-walk l e below (cons c cs) h b =
    let in_front : InFrontOf (iterator_at l e below) e.subtree (cons c cs) =
      (refl, omega arith, λ k. let same : 0 + k ≡ k = omega arith in rw (h, same) refl) in
    let h' = visits-walk (iterator_at l e below) e.subtree (cons c cs) in_front in
    rw (iterate_children-iterator_at l e below c cs h, h) h'

-- The visits at a cursor.
unfoldable pub visited : TreeCursor → List Visit
unfolding iterate_children visits child_iterator_next
visited c = all_visits child_iterator_next (iterate c)

-- Iterating over the children of the node at a cursor visits each child once and in order, with its
-- index, if the number of children fits 32 bits.
visited-children :
    (c : TreeCursor)
    → count (children c.top.subtree) < u32_mod
    → (length (visited c) ≡ count (children c.top.subtree))
      × ((j : ℕ) (v : Visit)
          → get_elem? (visited c) j ≡ some v
          → (child_at (children c.top.subtree) j ≡ some v.entry.subtree)
            × (v.entry.child_index ≡ j))
unfolding visited
visited-children c b =
    let it = iterator_at c.language c.top c.below in
    let cs = children c.top.subtree in
    rw (iterate-walk c.language c.top c.below cs refl b) (
      length-walk it cs,
      λ j v e. let (there, index) = walk-children it cs (omega arith) j v e in (there, omega arith),
    )

-- The position that the iteration gives a child is the one that going back to a previous sibling
-- recomputes from the position of the parent and the sizes of the children before, if the number of
-- children fits 32 bits and the last row in the node does too.
pub visited-position :
    (c : TreeCursor)
    → count (children c.top.subtree) < u32_mod
    → c.top.position.extent.row + rows (children c.top.subtree) < u32_mod
    → (j : ℕ) (v : Visit) → get_elem? (visited c) j ≡ some v
    → v.entry.position ≡ position_of c.top.position (children c.top.subtree) j
unfolding visited position_of
visited-position c b r j v =
    let it = iterator_at c.language c.top c.below in
    let cs = children c.top.subtree in
    rw (iterate-walk c.language c.top c.below cs refl b) (walk-position it cs r j v)

-- The index that the iteration gives a child among the descendants of the node the walk began at is
-- the node's own, one more if the node is visible, and the number of visible nodes in the children
-- before, counted over their whole trees, modulo 2 ^ 32. The number of children fits 32 bits, and the
-- children cache their counts.
pub visited-descendant_index :
    (c : TreeCursor)
    → count (children c.top.subtree) < u32_mod
    → AllCounted c.language (children c.top.subtree)
    → c.top.descendant_index < u32_mod
    → (j : ℕ) (v : Visit) → get_elem? (visited c) j ≡ some v
    → v.entry.descendant_index
      ≡ (c.top.descendant_index
          + (if is_entry_visible c.language c.top c.below then 1 else 0)
          + visible_below_in c.language
              (alias_sequence c.language (production_id c.top.subtree))
              0
              (first j (children c.top.subtree)))
        % u32_mod
unfolding visited is_entry_visible
visited-descendant_index c b h f j v =
    let it = iterator_at c.language c.top c.below in
    let cs = children c.top.subtree in
    rw (iterate-walk c.language c.top c.below cs refl b)
      (λ e. walk-descendants c.language it cs h (ground arith) j v e ∙ ground arith)
