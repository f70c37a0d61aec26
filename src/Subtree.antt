-- ===== src/Subtree.antt =====
-- lib/src/subtree.h: the representation of syntax trees and its accessors.
--
-- A subtree is a small leaf packed into a word, or heap data behind a pointer, before which its
-- children are stored. Trees are values here: a node holds its children, and `child_count` is
-- their number. The reference count is a field, which only the code that asks for unshared nodes
-- reads. The three structs of the union at the end of `SubtreeHeapData` are separate fields.
pub mod Leaf
pub mod Summary
pub mod Arrays
pub mod Balance
pub mod Compare
pub mod External
pub mod Edit
use tree_sitter.Prelude.{
  Option, none, some, zero, ℕ, suc, ◌+◌, ◌<◌, ◌*◌, Bool, true, false, not, ◌&&◌, ◌||◌, ltb, ◌==◌,
  if◌then◌else◌, List, [], ◌∷◌,
}
use tree_sitter.Prelude.Int.{ℤ, pos}
use tree_sitter.Length.{Length, length_new, length_add}
use tree_sitter.Language.{sym_error, sym_end}

-- `SubtreeInlineData`, whose numbers are bit-fields of 4, 8 and 16 bits
pub record InlineData : Type 0 where
  pub visible : Bool
  pub named : Bool
  pub extra : Bool
  pub has_changes : Bool
  pub is_missing : Bool
  pub is_keyword : Bool
  pub symbol : ℕ
  pub parse_state : ℕ
  pub padding_columns : ℕ
  pub padding_rows : ℕ
  pub lookahead_bytes : ℕ
  pub padding_bytes : ℕ
  pub size_bytes : ℕ

-- `first_leaf` of `SubtreeHeapData`
pub record FirstLeaf : Type 0 where
  pub symbol : ℕ
  pub parse_state : ℕ

-- `SubtreeHeapData` without the children
pub record HeapData : Type 0 where
  pub ref_count : ℕ
  pub padding : Length
  pub size : Length
  pub lookahead_bytes : ℕ
  pub error_cost : ℕ
  pub symbol : ℕ
  pub parse_state : ℕ
  pub visible : Bool
  pub named : Bool
  pub extra : Bool
  pub fragile_left : Bool
  pub fragile_right : Bool
  pub has_changes : Bool
  pub has_external_tokens : Bool
  pub has_external_scanner_state_change : Bool
  pub depends_on_column : Bool
  pub is_missing : Bool
  pub is_keyword : Bool
  pub visible_child_count : ℕ
  pub named_child_count : ℕ
  pub visible_descendant_count : ℕ
  pub dynamic_precedence : ℤ
  pub repeat_depth : ℕ
  pub production_id : ℕ
  pub first_leaf : FirstLeaf
  pub external_scanner_state : List ℕ
  pub lookahead_char : ℤ

-- `Subtree`, and the array of children before a node's heap data
mutual
  pub data Subtree : Type 0 where
    inline : InlineData → Subtree
    heap : HeapData → Subtrees → Subtree

  pub data Subtrees : Type 0 where
    nil : Subtrees
    cons : Subtree → Subtrees → Subtrees

abbrev pub of_list : List Subtree → Subtrees
of_list [] = nil
of_list (t ∷ ts) = cons t (of_list ts)

abbrev pub to_list : Subtrees → List Subtree
to_list nil = []
to_list (cons t ts) = t ∷ to_list ts

abbrev pub count : Subtrees → ℕ
count nil = 0
count (cons t ts) = suc (count ts)

abbrev pub child_at : Subtrees → ℕ → Option Subtree
child_at nil i = none
child_at (cons c cs) zero = some c
child_at (cons c cs) (suc i) = child_at cs i

-- error_costs.h
abbrev pub error_cost_per_recovery : ℕ
error_cost_per_recovery = 500

abbrev pub error_cost_per_missing_tree : ℕ
error_cost_per_missing_tree = 110

abbrev pub error_cost_per_skipped_tree : ℕ
error_cost_per_skipped_tree = 100

abbrev pub error_cost_per_skipped_line : ℕ
error_cost_per_skipped_line = 30

abbrev pub error_cost_per_skipped_char : ℕ
error_cost_per_skipped_char = 1

-- The accessors, named without the prefix `ts_subtree_`.
abbrev pub symbol : Subtree → ℕ
symbol (inline d) = d.symbol
symbol (heap d cs) = d.symbol

abbrev pub visible : Subtree → Bool
visible (inline d) = d.visible
visible (heap d cs) = d.visible

abbrev pub named : Subtree → Bool
named (inline d) = d.named
named (heap d cs) = d.named

abbrev pub extra : Subtree → Bool
extra (inline d) = d.extra
extra (heap d cs) = d.extra

abbrev pub has_changes : Subtree → Bool
has_changes (inline d) = d.has_changes
has_changes (heap d cs) = d.has_changes

abbrev pub missing : Subtree → Bool
missing (inline d) = d.is_missing
missing (heap d cs) = d.is_missing

abbrev pub is_keyword : Subtree → Bool
is_keyword (inline d) = d.is_keyword
is_keyword (heap d cs) = d.is_keyword

abbrev pub parse_state : Subtree → ℕ
parse_state (inline d) = d.parse_state
parse_state (heap d cs) = d.parse_state

abbrev pub lookahead_bytes : Subtree → ℕ
lookahead_bytes (inline d) = d.lookahead_bytes
lookahead_bytes (heap d cs) = d.lookahead_bytes

abbrev pub children : Subtree → Subtrees
children (inline d) = nil
children (heap d cs) = cs

abbrev pub set_extra : Subtree → Bool → Subtree
set_extra (inline d) is_extra = inline (record d { extra = is_extra })
set_extra (heap d cs) is_extra = heap (record d { extra = is_extra }) cs

abbrev pub leaf_symbol : Subtree → ℕ
leaf_symbol (inline d) = d.symbol
leaf_symbol (heap d nil) = d.symbol
leaf_symbol (heap d (cons _ _)) = d.first_leaf.symbol

abbrev pub leaf_parse_state : Subtree → ℕ
leaf_parse_state (inline d) = d.parse_state
leaf_parse_state (heap d nil) = d.parse_state
leaf_parse_state (heap d (cons _ _)) = d.first_leaf.parse_state

abbrev pub padding : Subtree → Length
padding (inline d) = length_new d.padding_bytes d.padding_rows d.padding_columns
padding (heap d cs) = d.padding

abbrev pub size : Subtree → Length
size (inline d) = length_new d.size_bytes 0 d.size_bytes
size (heap d cs) = d.size

abbrev pub total_size : Subtree → Length
total_size t = length_add (padding t) (size t)

abbrev pub total_bytes : Subtree → ℕ
unfolding length_add
total_bytes t = (total_size t).bytes

abbrev pub child_count : Subtree → ℕ
child_count t = count (children t)

abbrev pub repeat_depth : Subtree → ℕ
repeat_depth (inline d) = 0
repeat_depth (heap d cs) = d.repeat_depth

abbrev pub is_repetition : Subtree → Bool
is_repetition (inline d) = false
is_repetition (heap d cs) = not d.named && not d.visible && not (count cs == 0)

abbrev pub visible_descendant_count : Subtree → ℕ
visible_descendant_count (inline d) = 0
visible_descendant_count (heap d nil) = 0
visible_descendant_count (heap d (cons _ _)) = d.visible_descendant_count

abbrev pub visible_child_count : Subtree → ℕ
visible_child_count (inline d) = 0
visible_child_count (heap d nil) = 0
visible_child_count (heap d (cons _ _)) = d.visible_child_count

-- Read only where there are children, as in `visible_child_count`.
abbrev pub named_child_count : Subtree → ℕ
named_child_count (inline d) = 0
named_child_count (heap d nil) = 0
named_child_count (heap d (cons _ _)) = d.named_child_count

abbrev pub error_cost : Subtree → ℕ
error_cost (inline d) =
    if d.is_missing then error_cost_per_missing_tree + error_cost_per_recovery else 0
error_cost (heap d cs) =
    if d.is_missing then error_cost_per_missing_tree + error_cost_per_recovery else d.error_cost

abbrev pub dynamic_precedence : Subtree → ℤ
dynamic_precedence (inline d) = pos 0
dynamic_precedence (heap d nil) = pos 0
dynamic_precedence (heap d (cons _ _)) = d.dynamic_precedence

abbrev pub production_id : Subtree → ℕ
production_id (inline d) = 0
production_id (heap d nil) = 0
production_id (heap d (cons _ _)) = d.production_id

abbrev pub fragile_left : Subtree → Bool
fragile_left (inline d) = false
fragile_left (heap d cs) = d.fragile_left

abbrev pub fragile_right : Subtree → Bool
fragile_right (inline d) = false
fragile_right (heap d cs) = d.fragile_right

abbrev pub has_external_tokens : Subtree → Bool
has_external_tokens (inline d) = false
has_external_tokens (heap d cs) = d.has_external_tokens

abbrev pub has_external_scanner_state_change : Subtree → Bool
has_external_scanner_state_change (inline d) = false
has_external_scanner_state_change (heap d cs) = d.has_external_scanner_state_change

abbrev pub depends_on_column : Subtree → Bool
depends_on_column (inline d) = false
depends_on_column (heap d cs) = d.depends_on_column

abbrev pub is_fragile : Subtree → Bool
is_fragile (inline d) = false
is_fragile (heap d cs) = d.fragile_left || d.fragile_right

abbrev pub is_error : Subtree → Bool
is_error t = symbol t == sym_error

abbrev pub is_eof : Subtree → Bool
is_eof t = symbol t == sym_end
