-- ===== src/TreeCursor/Nodes.antt =====
-- lib/src/tree_cursor.c, lib/src/node.c: the node at a cursor, its parent and its depth.
use tree_sitter.Prelude.{ℕ, suc, not, ◌||◌, Option, none, some, List, [], ◌∷◌, ◌==◌, if◌then◌else◌}
use tree_sitter.Length.{Length, length_zero}
use tree_sitter.Language.{Language, alias_at}
use tree_sitter.Subtree.{Subtree, visible, extra, production_id}
use tree_sitter.TreeCursor.{TreeCursorEntry, TreeCursor, is_entry_visible}

-- `TSNode`: the subtree, null if there is none, its position and its alias; the tree is left out.
pub record TsNode : Type 0 where
  pub id : Option Subtree
  pub position : Length
  pub alias_symbol : ℕ

-- `ts_node_new`
abbrev pub node_new : Option Subtree → Length → ℕ → TsNode
node_new s p a = record { id = s; position = p; alias_symbol = a }

-- `ts_tree_cursor_init` at a node that is not null
abbrev pub init : Language → Subtree → Length → TreeCursor
init l s p = record {
  language = l;
  top = record {
    subtree = s;
    position = p;
    child_index = 0;
    structural_child_index = 0;
    descendant_index = 0;
  };
  below = [];
}

abbrev pub reset_to : TreeCursor → TreeCursor → TreeCursor
reset_to dst src = record dst { language = src.language; top = src.top; below = src.below }

unfoldable pub current_descendant_index : TreeCursor → ℕ
current_descendant_index c = c.top.descendant_index

unfoldable pub current_subtree : TreeCursor → Subtree
current_subtree c = c.top.subtree

-- The alias that an entry has in the one below it.
abbrev pub alias_in : Language → TreeCursorEntry → List TreeCursorEntry → ℕ
unfolding alias_at
alias_in l e [] = 0
alias_in l e (p ∷ rest) = alias_at l (production_id p.subtree) e.structural_child_index

unfoldable pub current_node : TreeCursor → TsNode
unfolding alias_at
current_node c =
    let e = c.top in
    node_new (some e.subtree) e.position
      (if extra e.subtree then 0 else alias_in c.language e c.below)

pub depth_of : Language → TreeCursorEntry → List TreeCursorEntry → ℕ
unfolding is_entry_visible
depth_of l e [] = 0
depth_of l e (p ∷ rest) =
    let further = depth_of l p rest in
    if is_entry_visible l e (p ∷ rest) then suc further else further

unfoldable pub current_depth : TreeCursor → ℕ
unfolding depth_of
current_depth c = depth_of c.language c.top c.below

-- Unlike elsewhere, the alias of an extra child is read too.
pub parent_of : Language → List TreeCursorEntry → TsNode
unfolding alias_at
parent_of l [] = node_new none length_zero 0
parent_of l (e ∷ []) = node_new (some e.subtree) e.position 0
parent_of l (e ∷ p ∷ rest) =
    let alias = alias_in l e (p ∷ rest) in
    let further = parent_of l (p ∷ rest) in
    if not (alias == 0) || visible e.subtree
    then node_new (some e.subtree) e.position alias
    else further

unfoldable pub parent_node : TreeCursor → TsNode
unfolding parent_of
parent_node c = parent_of c.language c.below
