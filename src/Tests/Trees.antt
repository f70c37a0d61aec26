-- ===== src/Tests/Trees.antt =====
-- The theorems on syntax trees (lib/src/subtree.c) at small trees.
use tree_sitter.Prelude.{
  ℕ, ◌+◌, ◌-◌, ◌^◌, ◌<◌, ◌≡◌, refl, inl, Bool, true, false, ◌&&◌, ◌||◌, ◌==◌, some, List, [], ◌∷◌,
  ◌++◌, reverse, arith,
}
use tree_sitter.Prelude.Int.{ℤ, pos}
use tree_sitter.Length.{length_new, length_add, length_zero}
use tree_sitter.Language.{Language, SymbolMetadata, symbol_metadata_of, alias_sequence, sym_end}
use tree_sitter.Subtree.{
  Subtree, Subtrees, InlineData, HeapData, inline, heap, nil, cons, of_list, symbol, padding, size,
  lookahead_bytes, parse_state, visible, named, extra, is_keyword, has_external_tokens,
  depends_on_column, has_changes,
}
use tree_sitter.Subtree.Leaf.{new_leaf}
use tree_sitter.Subtree.Leaf.Laws.{new_leaf_reads}
use tree_sitter.Subtree.Summary.{summarize_children, new_node}
use tree_sitter.Subtree.Summary.Size.{sum_sizes, summarize_children_total_size}
use tree_sitter.Subtree.Summary.Lookahead.{furthest, summarize_children_lookahead}
use tree_sitter.Subtree.Summary.Counts.{
  Counted, AllCounted, shown, named_shown, visible_below, new_node-Counted,
}
use tree_sitter.Subtree.Summary.Column.{on_first_row, summarize_children_column}
use tree_sitter.Subtree.Compare.{compare}
use tree_sitter.Subtree.Compare.Order.{order, same_shape, opposite, is_zero}
use tree_sitter.Subtree.Compare.Loop.{nodes, compare_is_order, compare_swap}
use tree_sitter.Subtree.Arrays.{remove_trailing_extras}
use tree_sitter.Subtree.Arrays.Laws.{AllExtra, FirstNotExtra, remove_trailing_extras_splits}
use tree_sitter.Subtree.External.{last_external_token}
use tree_sitter.Subtree.External.Laws.{
  leaves, last_external, any_external, Flagged, last_external_token_lem,
}
use tree_sitter.Subtree.Edit.{Edit, edit_tree, is_outside}
use tree_sitter.Subtree.Edit.Bytes.{width, width-edit_tree}
use tree_sitter.Subtree.Edit.Shape.{edit_tree_keeps_shape}

abbrev metadata : Bool → Bool → SymbolMetadata
metadata visible named = record { visible = visible; named = named; supertype = false }

-- Symbol 1 is a named token, 2 an anonymous one, 3 a hidden rule.
abbrev pub lang : Language
lang = record {
  symbol_metadata =
      metadata false false ∷ metadata true true ∷ metadata true false ∷ metadata false false ∷ [];
  max_alias_sequence_length = 2;
  alias_sequences = 0 ∷ 0 ∷ 0 ∷ 2 ∷ [];
}

-- A token of a symbol with some bytes of padding and of size, on one row.
abbrev token_data : ℕ → ℕ → ℕ → InlineData
token_data sym p s = record {
  visible = true;
  named = sym == 1;
  extra = false;
  has_changes = false;
  is_missing = false;
  is_keyword = false;
  symbol = sym;
  parse_state = 4;
  padding_columns = p;
  padding_rows = 0;
  lookahead_bytes = 1;
  padding_bytes = p;
  size_bytes = s;
}

abbrev pub word : Subtree
word = inline (token_data 1 0 3)

abbrev pub comma : Subtree
comma = inline (token_data 2 1 1)

abbrev comment : Subtree
comment = inline (record (token_data 1 1 5) { extra = true })

-- A heap leaf with an external token, that depends on its column.
abbrev indent_data : HeapData
indent_data = record {
  ref_count = 1;
  padding = length_new 2 0 2;
  size = length_new 4 0 4;
  lookahead_bytes = 0;
  error_cost = 0;
  symbol = 1;
  parse_state = 4;
  visible = true;
  named = true;
  extra = false;
  fragile_left = false;
  fragile_right = false;
  has_changes = false;
  has_external_tokens = true;
  has_external_scanner_state_change = true;
  depends_on_column = true;
  is_missing = false;
  is_keyword = false;
  visible_child_count = 0;
  named_child_count = 0;
  visible_descendant_count = 0;
  dynamic_precedence = pos 0;
  repeat_depth = 0;
  production_id = 0;
  first_leaf = record { symbol = 0; parse_state = 0 };
  external_scanner_state = 1 ∷ 2 ∷ [];
  lookahead_char = pos 0;
}

abbrev pub indent : Subtree
indent = heap indent_data nil

-- A hidden node of three tokens, ten bytes and one row long, as it is cached.
abbrev list_data : HeapData
list_data = record indent_data {
  padding = length_zero;
  size = length_new 11 0 11;
  lookahead_bytes = 0;
  symbol = 3;
  visible = false;
  named = false;
  visible_child_count = 3;
  named_child_count = 2;
  visible_descendant_count = 3;
  production_id = 1;
}

abbrev pub items : Subtrees
items = cons word (cons comma (cons indent nil))

abbrev pub list_node : Subtree
list_node = heap list_data items

abbrev low_bytes : List ℕ
low_bytes = 1 ∷ 2 ∷ []

abbrev high_bytes : List ℕ
high_bytes = 1 ∷ 3 ∷ []

-- Three bytes in the middle of the node are replaced by five.
abbrev middle : Edit
middle = record { start = length_new 2 0 2; old_end = length_new 5 0 5; new_end = length_new 7 0 7 }

-- A long insertion into the word.
abbrev long_insertion : Edit
long_insertion = record {
  start = length_new 1 0 1;
  old_end = length_new 1 0 1;
  new_end = length_new 301 0 301;
}

new_leaf_reads_example :
    let t = new_leaf lang 1 (length_new 1 0 1) (length_new 3 0 3) 1 4 false false false in
    (symbol t ≡ 1)
    × (padding t ≡ length_new 1 0 1)
    × (size t ≡ length_new 3 0 3)
    × (lookahead_bytes t ≡ 1)
    × (parse_state t ≡ 4)
    × (visible t ≡ (symbol_metadata_of lang 1).visible)
    × (named t ≡ (symbol_metadata_of lang 1).named)
    × (extra t ≡ (1 == sym_end))
    × (is_keyword t ≡ false)
    × (has_external_tokens t ≡ false)
new_leaf_reads_example =
    new_leaf_reads lang 1 (length_new 1 0 1) (length_new 3 0 3) 1 4 false false false (λ _. refl)
      (omega arith)

summarize_children_total_size_example :
    let d' = summarize_children lang list_data items in
    (d'.padding ≡ length_new 0 0 0) × (length_add d'.padding d'.size ≡ sum_sizes items)
summarize_children_total_size_example =
    summarize_children_total_size lang list_data word (cons comma (cons indent nil)) (omega arith)
      (omega arith)

summarize_children_lookahead_example :
    let d' = summarize_children lang list_data items in
    d'.padding.bytes + d'.size.bytes + d'.lookahead_bytes ≡ furthest 0 items
summarize_children_lookahead_example =
    summarize_children_lookahead lang list_data word (cons comma (cons indent nil)) furthest_small
  where
    furthest_small : furthest 0 items < 2 ^ 32
    furthest_small = unfold furthest in omega arith

new_node-Counted_example : Counted lang (new_node lang 3 (word ∷ list_node ∷ []) 1)
unfolding shown named_shown visible_below alias_sequence symbol_metadata_of
new_node-Counted_example = new_node-Counted lang 3 (word ∷ list_node ∷ []) 1 children_counted
  where
    children_counted : AllCounted lang (of_list (word ∷ list_node ∷ []))
    children_counted = ((refl, refl, refl), ((refl, refl, refl), tt))

summarize_children_column_example :
    (summarize_children lang list_data (cons indent nil)).depends_on_column ≡ (
      (list_data.size.extent.row == 0 && depends_on_column indent)
      || on_first_row (size indent) nil)
summarize_children_column_example = summarize_children_column lang list_data indent nil

compare_is_order_example : compare 9 list_node list_node [] ≡ some (order list_node list_node, [])
compare_is_order_example = compare_is_order 9 list_node list_node few_nodes
  where
    few_nodes : nodes list_node < 9
    few_nodes = unfold nodes in omega arith

compare_swap_example :
    (z : ℤ) × (compare 9 list_node (inline (token_data 1 1 3)) [] ≡ some (z, []))
    × (compare 9 (inline (token_data 1 1 3)) list_node [] ≡ some (opposite z, []))
    × (is_zero z ≡ same_shape list_node (inline (token_data 1 1 3)))
compare_swap_example = compare_swap 9 list_node (inline (token_data 1 1 3)) few_nodes one_node
  where
    few_nodes : nodes list_node < 9
    few_nodes = unfold nodes in omega arith

    one_node : nodes (inline (token_data 1 1 3)) < 9
    one_node = unfold nodes in omega arith

abbrev some_trees : List Subtree
some_trees = inline (token_data 1 0 1) ∷ inline (record (token_data 2 0 1) { extra = true }) ∷ []

remove_trailing_extras_splits_example :
    let (kept, moved) = remove_trailing_extras some_trees in
    (kept ++ moved ≡ some_trees) × AllExtra moved × FirstNotExtra (reverse kept)
remove_trailing_extras_splits_example = remove_trailing_extras_splits some_trees

last_external_token_lem_example :
    last_external_token list_node ≡ some (last_external (leaves list_node))
last_external_token_lem_example = last_external_token_lem list_node flagged
  where
    flagged : Flagged list_node
    flagged = unfold any_external in (refl, tt, (tt, (tt, tt)))

width-edit_tree_example : width (edit_tree indent_data middle list_node) ≡ 7 + (11 - 5)
width-edit_tree_example =
    width-edit_tree indent_data middle list_node (omega arith) (omega arith) (omega arith)
      (inl (omega arith)) tt

edit_tree_keeps_shape_example :
    (same_shape list_node (edit_tree indent_data middle list_node) ≡ true)
    × ((is_outside middle list_node ≡ true) → edit_tree indent_data middle list_node ≡ list_node)
    × ((is_outside middle list_node ≡ false)
        → has_changes (edit_tree indent_data middle list_node) ≡ true)
edit_tree_keeps_shape_example = edit_tree_keeps_shape indent_data middle list_node
