-- ===== src/Subtree/Summary/Column.antt =====
-- When a node depends on the column at which it starts.
use tree_sitter.Prelude.{ℕ, ◌≡◌, ◌∙◌, Bool, true, false, ◌&&◌, ◌||◌, List, Option, ◌==◌, arith}
use tree_sitter.Length.{Length, length_add}
use tree_sitter.Language.{Language, alias_sequence}
use tree_sitter.Subtree.{
  Subtree, Subtrees, HeapData, nil, cons, size, total_size, depends_on_column,
}
use tree_sitter.Subtree.Summary.{Loop, summarize_child, summarize_rest, summarize_children, reset}

-- One of the children depends on the column, and what is before it, of size `before` without the
-- padding, spans no row.
pub on_first_row : Length → Subtrees → Bool
on_first_row before nil = false
on_first_row before (cons c cs) =
    (before.extent.row == 0 && depends_on_column c)
    || on_first_row (length_add before (total_size c)) cs

rest-column :
    (l : Language) (a : Option (List ℕ)) (s : Loop) (cs : Subtrees)
    → (summarize_rest l a s cs).self.depends_on_column
      ≡ (s.self.depends_on_column || on_first_row s.self.size cs)
unfolding summarize_rest summarize_child on_first_row
rest-column l a s nil = ground arith
rest-column l a s (cons c cs) = rest-column l a (summarize_child l a false s c) cs ∙ ground arith

-- A summarized node depends on its column when a child on its first row does. The test of the first
-- child reads the size that the node had before: it passes in a new node, whose size is zero, and
-- fails in a node that spanned several rows when it is summarized again.
pub summarize_children_column :
    (l : Language) (d : HeapData) (c : Subtree) (cs : Subtrees)
    → (summarize_children l d (cons c cs)).depends_on_column
      ≡ ((d.size.extent.row == 0 && depends_on_column c) || on_first_row (size c) cs)
unfolding summarize_children
summarize_children_column l d c cs =
    rest-column l (alias_sequence l d.production_id) first cs ∙ ground arith
  where
    first : Loop
    first =
        summarize_child l (alias_sequence l d.production_id) true
          (record { self = reset d; structural_index = 0; lookahead_end_byte = 0 }) c
