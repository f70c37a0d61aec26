-- ===== src/Subtree/Summary.antt =====
-- lib/src/subtree.c: what a node caches about its children, and the constructors of nodes.
pub mod Column
pub mod Counts
pub mod Lookahead
pub mod Size
use tree_sitter.Prelude.{
  ℕ, ◌+◌, ◌*◌, ◌%◌, ◌^◌, Bool, true, false, not, ◌&&◌, ◌||◌, Option, none, some, List, [], ltb,
  ◌==◌, if◌then◌else◌, get_or, add32, sub32, u16_mod,
}
use tree_sitter.Prelude.Int.{pos, ◌+ℤ◌}
use tree_sitter.Length.{Length, length_zero, length_add}
use tree_sitter.Language.{
  Language, SymbolMetadata, sym_error, sym_error_repeat, symbol_metadata_of, alias_sequence,
}
use tree_sitter.Subtree.{
  Subtree, Subtrees, HeapData, FirstLeaf, inline, heap, nil, cons, of_list, count,
  error_cost_per_recovery, error_cost_per_skipped_tree, error_cost_per_skipped_line,
  error_cost_per_skipped_char,
}
use tree_sitter.Subtree as Tree

-- `TS_TREE_STATE_NONE`
abbrev pub tree_state_none : ℕ
tree_state_none = 0xffff

abbrev pub is_error_symbol : ℕ → Bool
is_error_symbol symbol = symbol == sym_error || symbol == sym_error_repeat

-- What the loop over the children carries: the node's data, the number of children so far that are
-- no extras, and the furthest byte that a child looked at.
pub record Loop : Type 0 where
  pub self : HeapData
  pub structural_index : ℕ
  pub lookahead_end_byte : ℕ

-- The alias of the child at a structural index, 0 if there is none.
abbrev pub alias_of : Option (List ℕ) → ℕ → ℕ
alias_of none i = 0
alias_of (some sequence) i = get_or sequence i 0

abbrev aliased : Option (List ℕ) → ℕ → Subtree → Bool
aliased aliases i child = not (alias_of aliases i == 0) && not (Tree.extra child)

-- The cost of a child that error recovery skipped, on top of the child's own.
pub skipped_cost : HeapData → Subtree → ℕ
skipped_cost self child =
    if is_error_symbol self.symbol
      && not (Tree.extra child)
      && not (Tree.is_error child && Tree.child_count child == 0)
    then (if Tree.visible child
        then error_cost_per_skipped_tree
        else if ltb 0 (Tree.child_count child)
        then error_cost_per_skipped_tree * Tree.visible_child_count child
        else 0)
    else 0

pub own_cost : Subtree → ℕ
own_cost child = if Tree.symbol child == sym_error_repeat then 0 else Tree.error_cost child

-- What a child adds to the number of visible children, and of named children.
pub visible_part : Option (List ℕ) → ℕ → Subtree → ℕ
visible_part aliases i child =
    if aliased aliases i child || Tree.visible child
    then 1
    else if ltb 0 (Tree.child_count child)
    then Tree.visible_child_count child
    else 0

pub named_part : Language → Option (List ℕ) → ℕ → Subtree → ℕ
named_part l aliases i child =
    if aliased aliases i child
    then (if (symbol_metadata_of l (alias_of aliases i)).named then 1 else 0)
    else if Tree.visible child
    then (if Tree.named child then 1 else 0)
    else if ltb 0 (Tree.child_count child)
    then Tree.named_child_count child
    else 0

pub descendant_part : Option (List ℕ) → ℕ → Subtree → ℕ
descendant_part aliases i child =
    Tree.visible_descendant_count child
    + (if aliased aliases i child || Tree.visible child then 1 else 0)

pub grown_padding : Bool → HeapData → Subtree → Length
grown_padding first self child = if first then Tree.padding child else self.padding

pub grown_size : Bool → HeapData → Subtree → Length
grown_size first self child =
    if first then Tree.size child else length_add self.size (Tree.total_size child)

pub grown_lookahead : Bool → Loop → Subtree → ℕ
unfolding grown_padding grown_size
grown_lookahead first s child =
    let end =
      add32 (add32 (grown_padding first s.self child).bytes (grown_size first s.self child).bytes)
        (Tree.lookahead_bytes child) in
    if ltb s.lookahead_end_byte end then end else s.lookahead_end_byte

-- One round of the loop; `first` says that it is the first. Each field depends on the fields as
-- they were before the round, but for the lookahead, which reads the new padding and size.
pub summarize_child : Language → Option (List ℕ) → Bool → Loop → Subtree → Loop
unfolding skipped_cost own_cost visible_part named_part descendant_part grown_padding grown_size
    grown_lookahead
summarize_child l aliases first s child = record {
  self = record d {
    depends_on_column =
        (d.size.extent.row == 0 && Tree.depends_on_column child) || d.depends_on_column;
    has_external_scanner_state_change =
        Tree.has_external_scanner_state_change child || d.has_external_scanner_state_change;
    padding = grown_padding first d child;
    size = grown_size first d child;
    error_cost = add32 (add32 d.error_cost (own_cost child)) (skipped_cost d child);
    dynamic_precedence = d.dynamic_precedence +ℤ Tree.dynamic_precedence child;
    visible_descendant_count = add32 d.visible_descendant_count (descendant_part aliases i child);
    visible_child_count = add32 d.visible_child_count (visible_part aliases i child);
    named_child_count = add32 d.named_child_count (named_part l aliases i child);
    has_external_tokens = Tree.has_external_tokens child || d.has_external_tokens;
    fragile_left = Tree.is_error child || d.fragile_left;
    fragile_right = Tree.is_error child || d.fragile_right;
    parse_state = if Tree.is_error child then tree_state_none else d.parse_state;
  };
  structural_index = if Tree.extra child then i else add32 i 1;
  lookahead_end_byte = grown_lookahead first s child;
}
  where
    open s use {self as d, structural_index as i}

pub summarize_rest : Language → Option (List ℕ) → Loop → Subtrees → Loop
summarize_rest l aliases s nil = s
summarize_rest l aliases s (cons c cs) =
    summarize_rest l aliases (summarize_child l aliases false s c) cs

pub summarize_loop : Language → Option (List ℕ) → Loop → Subtrees → Loop
summarize_loop l aliases s nil = s
summarize_loop l aliases s (cons c cs) =
    summarize_rest l aliases (summarize_child l aliases true s c) cs

-- The fields that are reset before the loop. Size, padding, parse state and fragility are not.
pub reset : HeapData → HeapData
reset d = record d {
  named_child_count = 0;
  visible_child_count = 0;
  error_cost = 0;
  repeat_depth = 0;
  visible_descendant_count = 0;
  has_external_tokens = false;
  depends_on_column = false;
  has_external_scanner_state_change = false;
  dynamic_precedence = pos 0;
}

unfoldable pub last_of : Subtree → Subtrees → Subtree
last_of c nil = c
last_of c (cons d ds) = last_of d ds

abbrev repeat_depth_of : HeapData → Subtree → Subtree → ℕ
repeat_depth_of d first last =
    if ltb (Tree.repeat_depth last) (Tree.repeat_depth first)
    then (Tree.repeat_depth first + 1) % u16_mod
    else (Tree.repeat_depth last + 1) % u16_mod

-- The last block, on the first and the last child.
pub summarize_ends : HeapData → Subtrees → HeapData
unfolding last_of
summarize_ends d nil = d
summarize_ends d (cons c cs) =
    let last = last_of c cs in
    record d {
      first_leaf = record { symbol = Tree.leaf_symbol c; parse_state = Tree.leaf_parse_state c };
      fragile_left = Tree.fragile_left c || d.fragile_left;
      fragile_right = Tree.fragile_right last || d.fragile_right;
      repeat_depth =
          if ltb 0 (count cs) && not d.visible && not d.named && Tree.symbol c == d.symbol
          then repeat_depth_of d c last
          else d.repeat_depth;
    }

-- Between the loop and the last block: the lookahead and the cost of an error node itself.
pub summarize_totals : Loop → HeapData
summarize_totals s = record d {
  lookahead_bytes = sub32 (sub32 s.lookahead_end_byte d.size.bytes) d.padding.bytes;
  error_cost =
      if is_error_symbol d.symbol
      then (d.error_cost
          + error_cost_per_recovery
          + error_cost_per_skipped_char * d.size.bytes
          + error_cost_per_skipped_line * d.size.extent.row)
        % 2 ^ 32
      else d.error_cost;
}
  where
    open s use {self as d}

-- `ts_subtree_summarize_children`
unfoldable pub summarize_children : Language → HeapData → Subtrees → HeapData
unfolding summarize_child summarize_rest summarize_loop reset summarize_ends summarize_totals
summarize_children l d cs =
    let start : Loop = record { self = reset d; structural_index = 0; lookahead_end_byte = 0 } in
    summarize_ends (summarize_totals (summarize_loop l (alias_sequence l d.production_id) start cs))
      cs

-- The data of a node before its children are summarized; what is not set is zero.
pub blank_node : SymbolMetadata → ℕ → ℕ → HeapData
blank_node m symbol production_id = record {
  ref_count = 1;
  padding = length_zero;
  size = length_zero;
  lookahead_bytes = 0;
  error_cost = 0;
  symbol = symbol;
  parse_state = 0;
  visible = m.visible;
  named = m.named;
  extra = false;
  fragile_left = is_error_symbol symbol;
  fragile_right = is_error_symbol symbol;
  has_changes = false;
  has_external_tokens = false;
  has_external_scanner_state_change = false;
  depends_on_column = false;
  is_missing = false;
  is_keyword = false;
  visible_child_count = 0;
  named_child_count = 0;
  visible_descendant_count = 0;
  dynamic_precedence = pos 0;
  repeat_depth = 0;
  production_id = production_id % u16_mod;
  first_leaf = record { symbol = 0; parse_state = 0 };
  external_scanner_state = [];
  lookahead_char = pos 0;
}

unfoldable pub new_node : Language → ℕ → List Subtree → ℕ → Subtree
unfolding summarize_children blank_node
new_node l symbol children production_id =
    let cs = of_list children in
    heap (summarize_children l (blank_node (symbol_metadata_of l symbol) symbol production_id) cs)
      cs

-- The cast of the new node to heap data.
abbrev with_extra : Bool → Subtree → Subtree
with_extra is_extra (heap d cs) = heap (record d { extra = is_extra }) cs
with_extra is_extra (inline d) = inline d

unfoldable pub new_error_node : Language → List Subtree → Bool → Subtree
unfolding new_node
new_error_node l children is_extra = with_extra is_extra (new_node l sym_error children 0)
