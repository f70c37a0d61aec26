-- ===== src/Subtree/Edit.antt =====
-- lib/src/subtree.c: `ts_subtree_edit`, which adjusts a tree to an edit of its text.
--
-- The code keeps a stack of the children that are still to be edited, each with an edit of its own.
-- An entry is edited in place and depends on nothing but itself, so that the order of the entries
-- does not matter, and the stack is a recursion over the tree here. `ts_subtree_make_mut` copies
-- a shared node, which as a value is the same, with a reference count of 1.
pub mod Bytes
pub mod Shape
use tree_sitter.Prelude.{
  ℕ, ◌+◌, ◌*◌, ◌%◌, Bool, true, false, not, ◌&&◌, ◌||◌, ltb, leb, ◌==◌, if◌then◌else◌, add32,
  u8_mod,
}
use tree_sitter.Point.{Point}
use tree_sitter.Length.{Length, length_zero, length_add, length_sub, length_saturating_sub}
use tree_sitter.Subtree.{
  Subtree, Subtrees, InlineData, HeapData, inline, heap, nil, cons, children, padding, size,
  total_size, lookahead_bytes, depends_on_column,
}
use tree_sitter.Subtree.Leaf.{can_inline}

-- `Edit`
pub record Edit : Type 0 where
  pub start : Length
  pub old_end : Length
  pub new_end : Length

-- `TSInputEdit`
pub record InputEdit : Type 0 where
  pub start_byte : ℕ
  pub old_end_byte : ℕ
  pub new_end_byte : ℕ
  pub start_point : Point
  pub old_end_point : Point
  pub new_end_point : Point

abbrev pub is_pure_insertion : Edit → Bool
is_pure_insertion e = e.old_end.bytes == e.start.bytes

abbrev pub is_noop : Edit → Bool
is_noop e = e.old_end.bytes == e.start.bytes && e.new_end.bytes == e.start.bytes

-- The edit lies behind all that the tree depends on.
unfoldable pub is_outside : Edit → Subtree → Bool
is_outside e t =
    let end_byte = add32 (total_size t).bytes (lookahead_bytes t) in
    ltb end_byte e.start.bytes || (is_noop e && e.start.bytes == end_byte)

-- The new padding and size, branch by branch.
unfoldable pub resize : Edit → Length → Length → Length × Length
resize e padding size =
    let total = length_add padding size in
    if leb e.old_end.bytes padding.bytes
    then (length_add e.new_end (length_sub padding e.old_end), size)
    else if ltb e.start.bytes padding.bytes
    then (e.new_end, length_saturating_sub size (length_sub e.old_end padding))
    else if e.start.bytes == padding.bytes && is_pure_insertion e
    then (e.new_end, size)
    else if ltb e.start.bytes total.bytes || (e.start.bytes == total.bytes && is_pure_insertion e)
    then (
      padding,
      length_add (length_sub e.new_end padding) (length_saturating_sub total e.old_end),
    )
    else (padding, size)

-- Storing the new lengths. A packed leaf that no longer fits becomes heap data in memory that held
-- `junk`; the code sets all fields but those that are left out here.
pub store : HeapData → Length → Length → InlineData → Subtree
store junk p s d =
    if can_inline p s d.lookahead_bytes
    then inline (record d {
      padding_bytes = p.bytes % u8_mod;
      padding_rows = p.extent.row % 16;
      padding_columns = p.extent.column % u8_mod;
      size_bytes = s.bytes % u8_mod;
      has_changes = true;
    })
    else heap
        (record junk {
          ref_count = 1;
          padding = p;
          size = s;
          lookahead_bytes = d.lookahead_bytes;
          error_cost = 0;
          symbol = d.symbol;
          parse_state = d.parse_state;
          visible = d.visible;
          named = d.named;
          extra = d.extra;
          fragile_left = false;
          fragile_right = false;
          has_changes = true;
          has_external_tokens = false;
          depends_on_column = false;
          is_missing = d.is_missing;
          is_keyword = d.is_keyword;
        })
        nil

-- The edit seen from a child that starts at `left`; only a child that the edit `touches` is
-- reshaped.
pub child_edit : Edit → Length → Bool → Edit
child_edit e left touches =
    let start = length_saturating_sub e.start left in
    record {
      start = start;
      old_end = if touches then length_saturating_sub e.old_end left else start;
      new_end = if touches then length_saturating_sub e.new_end left else start;
    }

abbrev pub touches : Edit → Length → Bool
touches e right =
    ltb e.start.bytes right.bytes || (e.start.bytes == right.bytes && is_pure_insertion e)

-- The first child that the edit touches takes all the inserted text.
abbrev pub without_insertion : Edit → Bool → Edit
without_insertion e touched = record e { new_end = if touched then e.start else e.new_end }

-- The child ends before the edit, its lookahead included.
abbrev pub ends_before : Edit → Length → Subtree → Bool
ends_before e right c = ltb (add32 right.bytes (lookahead_bytes c)) e.start.bytes

-- The loop over the children ends before the child between `left` and `right`. `first` stands for
-- `i == 0`; `row` is the row of the node's new padding.
abbrev pub stops_before : Edit → Bool → ℕ → Bool → Length → Subtree → Bool
stops_before e invalidate_first_row row first left c =
    (ltb e.old_end.bytes left.bytes
      || (left.bytes == e.old_end.bytes && ltb 0 (total_size c).bytes && not first))
    && (not invalidate_first_row || ltb row left.extent.row)

unfoldable mutual
  pub edit_tree : HeapData → Edit → Subtree → Subtree
  edit_tree junk e (inline d) =
      let (p, s) = resize e (padding (inline d)) (size (inline d)) in
      if is_outside e (inline d) then inline d else store junk p s d
  edit_tree junk e (heap d cs) =
      let (p, s) = resize e d.padding d.size in
      let edited = edit_children junk e d.depends_on_column p.extent.row true length_zero cs in
      if is_outside e (heap d cs)
      then heap d cs
      else heap (record d { ref_count = 1; padding = p; size = s; has_changes = true }) edited

  -- `left` is where the next child starts, the `child_right` of the round before.
  pub edit_children : HeapData → Edit → Bool → ℕ → Bool → Length → Subtrees → Subtrees
  edit_children junk e column row first left nil = nil
  edit_children junk e column row first left (cons c cs) =
      let right = length_add left (total_size c) in
      let touched = touches e right in
      let passed = cons c (edit_children junk e column row false right cs) in
      let edited =
        cons (edit_tree junk (child_edit e left touched) c)
          (edit_children junk (without_insertion e touched) column row false right cs) in
      if ends_before e right c
      then passed
      else if stops_before e column row first left c
      then cons c cs
      else edited

pub edit : HeapData → InputEdit → Subtree → Subtree
edit junk input t =
    edit_tree junk
      (record {
        start = record { bytes = input.start_byte; extent = input.start_point };
        old_end = record { bytes = input.old_end_byte; extent = input.old_end_point };
        new_end = record { bytes = input.new_end_byte; extent = input.new_end_point };
      })
      t
