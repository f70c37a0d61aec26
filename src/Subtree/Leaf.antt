-- ===== src/Subtree/Leaf.antt =====
-- lib/src/subtree.c: the constructors of leaves.
pub mod Laws
use tree_sitter.Prelude.{
  ℕ, ◌%◌, Bool, true, false, not, ◌&&◌, ltb, leb, ◌==◌, if◌then◌else◌, [], u8_mod, u16_mod,
}
use tree_sitter.Prelude.Int.{ℤ, pos}
use tree_sitter.Length.{Length, length_zero}
use tree_sitter.Language.{Language, SymbolMetadata, sym_error, sym_end, symbol_metadata_of}
use tree_sitter.Subtree.{Subtree, InlineData, HeapData, FirstLeaf, inline, heap, nil}

abbrev pub max_inline_tree_length : ℕ
max_inline_tree_length = 255

unfoldable pub can_inline : Length → Length → ℕ → Bool
can_inline padding size lookahead_bytes =
    ltb padding.bytes max_inline_tree_length
    && ltb padding.extent.row 16
    && ltb padding.extent.column max_inline_tree_length
    && size.extent.row == 0
    && ltb size.extent.column max_inline_tree_length
    && ltb lookahead_bytes 16

-- The fields that a heap leaf does not set are zero.
abbrev pub no_first_leaf : FirstLeaf
no_first_leaf = record { symbol = 0; parse_state = 0 }

-- What is stored in a bit-field keeps its low bits.
abbrev inline_leaf : SymbolMetadata → ℕ → Length → Length → ℕ → ℕ → Bool → InlineData
inline_leaf m symbol padding size lookahead_bytes parse_state is_keyword = record {
  visible = m.visible;
  named = m.named;
  extra = symbol == sym_end;
  has_changes = false;
  is_missing = false;
  is_keyword = is_keyword;
  symbol = symbol % u8_mod;
  parse_state = parse_state % u16_mod;
  padding_columns = padding.extent.column % u8_mod;
  padding_rows = padding.extent.row % 16;
  lookahead_bytes = lookahead_bytes % 16;
  padding_bytes = padding.bytes % u8_mod;
  size_bytes = size.bytes % u8_mod;
}

abbrev heap_leaf : SymbolMetadata → ℕ → Length → Length → ℕ → ℕ → Bool → Bool → Bool → HeapData
heap_leaf m symbol padding size lookahead_bytes parse_state external column is_keyword = record {
  ref_count = 1;
  padding = padding;
  size = size;
  lookahead_bytes = lookahead_bytes;
  error_cost = 0;
  symbol = symbol;
  parse_state = parse_state;
  visible = m.visible;
  named = m.named;
  extra = symbol == sym_end;
  fragile_left = false;
  fragile_right = false;
  has_changes = false;
  has_external_tokens = external;
  has_external_scanner_state_change = false;
  depends_on_column = column;
  is_missing = false;
  is_keyword = is_keyword;
  visible_child_count = 0;
  named_child_count = 0;
  visible_descendant_count = 0;
  dynamic_precedence = pos 0;
  repeat_depth = 0;
  production_id = 0;
  first_leaf = no_first_leaf;
  external_scanner_state = [];
  lookahead_char = pos 0;
}

unfoldable pub new_leaf : Language → ℕ → Length → Length → ℕ → ℕ → Bool → Bool → Bool → Subtree
unfolding can_inline
new_leaf l symbol padding size lookahead_bytes parse_state external column is_keyword =
    let m = symbol_metadata_of l symbol in
    if leb symbol 255 && not external && can_inline padding size lookahead_bytes
    then inline (inline_leaf m symbol padding size lookahead_bytes parse_state is_keyword)
    else heap
        (heap_leaf m symbol padding size lookahead_bytes parse_state external column is_keyword) nil

-- `assert(symbol < UINT8_MAX)` aside, a stored symbol keeps its low byte in an inline leaf.
unfoldable pub set_symbol : Subtree → ℕ → Language → Subtree
set_symbol (inline d) symbol l =
    let m = symbol_metadata_of l symbol in
    inline (record d { symbol = symbol % u8_mod; named = m.named; visible = m.visible })
set_symbol (heap d cs) symbol l =
    let m = symbol_metadata_of l symbol in
    heap (record d { symbol = symbol; named = m.named; visible = m.visible }) cs

-- The cast of the new leaf to heap data; an inline leaf, which it never is, would be corrupted.
abbrev as_error : ℤ → Subtree → Subtree
as_error lookahead_char (heap d cs) =
    heap (record d { fragile_left = true; fragile_right = true; lookahead_char = lookahead_char })
      cs
as_error lookahead_char (inline d) = inline d

unfoldable pub new_error : Language → ℤ → Length → Length → ℕ → ℕ → Subtree
unfolding new_leaf
new_error l lookahead_char padding size bytes_scanned parse_state =
    as_error lookahead_char
      (new_leaf l sym_error padding size bytes_scanned parse_state false false false)

abbrev as_missing : Subtree → Subtree
as_missing (inline d) = inline (record d { is_missing = true })
as_missing (heap d cs) = heap (record d { is_missing = true }) cs

unfoldable pub new_missing_leaf : Language → ℕ → Length → ℕ → Subtree
unfolding new_leaf
new_missing_leaf l symbol padding lookahead_bytes =
    as_missing (new_leaf l symbol padding length_zero lookahead_bytes 0 false false false)
