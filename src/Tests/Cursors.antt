-- ===== src/Tests/Cursors.antt =====
-- The theorems on cursors (lib/src/tree_cursor.c) at a small tree.
use tree_sitter.Prelude.{
  ◌+◌, ◌%◌, ◌≡◌, refl, Bool, true, Option, none, some, [], ◌∷◌, arith, u32_mod,
}
use tree_sitter.Point.{point_new, point_add}
use tree_sitter.Length.{length_new, length_add}
use tree_sitter.Language.{alias_sequence}
use tree_sitter.Subtree.Summary.Counts.{AllCounted, visible_below_in, shown, named_shown}
use tree_sitter.TreeCursor.{TreeCursor, TreeCursorEntry, Visit, is_entry_visible}
use tree_sitter.TreeCursor.Moves.{
  goto_first_child, goto_last_child, goto_first_child_for_byte, goto_first_child_for_point,
}
use tree_sitter.TreeCursor.Siblings.{
  position_of, goto_next_sibling, goto_previous_sibling, goto_parent, goto_descendant,
}
use tree_sitter.TreeCursor.Nodes.{
  init, reset_to, current_node, current_depth, parent_node, current_subtree,
  current_descendant_index,
}
use tree_sitter.TreeCursor.Walk.{first}
use tree_sitter.TreeCursor.Children.{visited, visited-position, visited-descendant_index}
use tree_sitter.Tests.Trees.{lang, comma, indent, items, list_node}

-- At the root of the tree, and at its last child.
abbrev at_root : TreeCursor
at_root = init lang list_node (length_new 2 0 2)

abbrev last_entry : TreeCursorEntry
last_entry = record {
  subtree = indent;
  position = length_new 9 0 9;
  child_index = 2;
  structural_child_index = 2;
  descendant_index = 3;
}

abbrev at_last : TreeCursor
at_last = record at_root { top = last_entry; below = at_root.top ∷ [] }

abbrev after : Option (Bool × TreeCursor) → TreeCursor
after none = at_root
after (some (moved, c)) = c

abbrev walked : Option (Bool × TreeCursor)
unfolding goto_first_child goto_next_sibling
walked =
    let c1 = after (goto_first_child 2 at_root) in
    let c2 = after (goto_next_sibling 2 c1) in goto_next_sibling 2 c2

walked_to_last : walked ≡ some (true, at_last)
unfolding goto_first_child goto_next_sibling length_add point_add
walked_to_last = refl

last_of_root : goto_last_child 2 none at_root ≡ some (true, at_last)
unfolding goto_last_child length_add point_add
last_of_root = refl

descended_to_last : goto_descendant 3 at_root 3 ≡ some at_last
unfolding goto_descendant length_add point_add
descended_to_last = refl

back_to_root : goto_parent at_last ≡ (true, at_root)
unfolding goto_parent
back_to_root = refl

-- The second child, reached from the first one and from the last one.
abbrev forth : TreeCursor
unfolding goto_first_child goto_next_sibling
forth = after (goto_next_sibling 2 (after (goto_first_child 2 at_root)))

abbrev back : TreeCursor
unfolding goto_previous_sibling
back = after (goto_previous_sibling 2 none at_last)

back_is_forth :
    (current_node back ≡ current_node forth)
    × (current_depth back ≡ current_depth forth)
    × (parent_node back ≡ parent_node forth)
    × (current_subtree back ≡ current_subtree forth)
unfolding goto_previous_sibling goto_first_child goto_next_sibling length_add point_add current_node
    current_depth parent_node current_subtree
back_is_forth = (refl, refl, refl, refl)

-- The way back loses the index among the descendants.
back_loses_index : (current_descendant_index forth ≡ 2) × (current_descendant_index back ≡ 0)
unfolding goto_previous_sibling goto_first_child goto_next_sibling current_descendant_index
back_loses_index = (refl, refl)

-- The comma ends at byte 7 of the text, and the word before it at byte 5.
found_by_byte : goto_first_child_for_byte 2 at_root 6 ≡ some (some 1, forth)
unfolding goto_first_child_for_byte goto_first_child goto_next_sibling length_add point_add
found_by_byte = refl

found_by_point :
    goto_first_child_for_point 2 at_root (point_new 0 4) ≡ goto_first_child_for_byte 2 at_root 4
unfolding goto_first_child_for_point goto_first_child_for_byte length_add point_add
found_by_point = refl

-- The alias of the comma is symbol 2, and that of the word none.
aliased_comma :
    current_node forth ≡ (record { id = some comma; position = length_new 6 0 6; alias_symbol = 2 })
unfolding goto_first_child goto_next_sibling length_add point_add current_node
aliased_comma = refl

reset_to_last : reset_to at_root at_last ≡ at_last
reset_to_last = refl

-- The visit of the last child.
abbrev last_visit : Visit
last_visit = record {
  entry = last_entry;
  is_visible = true;
  after = record {
    parent = some list_node;
    position = length_new 13 0 13;
    child_index = 3;
    structural_child_index = 3;
    descendant_index = 4;
    aliases = some (0 ∷ 2 ∷ []);
  };
}

visited-position_example : length_new 9 0 9 ≡ position_of (length_new 2 0 2) items 2
unfolding visited length_add point_add
visited-position_example = visited-position at_root (omega arith) (omega arith) 2 last_visit refl

items_counted : AllCounted lang items
unfolding visible_below_in shown named_shown
items_counted = ((refl, refl, refl), ((refl, refl, refl), ((refl, refl, refl), tt)))

visited-descendant_index_example :
    3 ≡ (0 + 1 + visible_below_in lang (alias_sequence lang 1) 0 (first 2 items)) % u32_mod
unfolding visited length_add point_add is_entry_visible
visited-descendant_index_example =
    visited-descendant_index at_root (omega arith) items_counted (omega arith) 2 last_visit refl
