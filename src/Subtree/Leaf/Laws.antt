-- ===== src/Subtree/Leaf/Laws.antt =====
-- What the leaf constructors store is what the accessors read, in both representations.
use tree_sitter.Prelude.{ℕ, ◌<◌, ◌≡◌, refl, Bool, true, false, ◌==◌, u16_mod, arith}
use tree_sitter.Prelude.Int.{ℤ}
use tree_sitter.Length.{Length, length_zero}
use tree_sitter.Language.{Language, symbol_metadata_of, sym_error, sym_end}
use tree_sitter.Subtree.{
  HeapData, heap, nil, symbol, padding, size, lookahead_bytes, parse_state, visible, named, extra,
  missing, is_keyword, error_cost, has_external_tokens,
}
use tree_sitter.Subtree.Leaf.{new_leaf, new_error, new_missing_leaf, heap_leaf}

-- Within a row, columns count bytes.
abbrev pub IsCoherent : Length → Type 0
IsCoherent l = l.extent.row ≡ 0 → l.extent.column ≡ l.bytes

-- A leaf gives back its symbol, padding, size, lookahead and parse state, and the metadata of its
-- symbol, whether it is packed into a word or not, if the size of a leaf on one row has as many
-- columns as bytes and the parse state is a 16-bit number.
pub new_leaf_reads :
    (l : Language) (sym : ℕ) (p s : Length) (la state : ℕ) (external column keyword : Bool)
    → IsCoherent s
    → state < u16_mod
    → let t = new_leaf l sym p s la state external column keyword in
      (symbol t ≡ sym)
      × (padding t ≡ p)
      × (size t ≡ s)
      × (lookahead_bytes t ≡ la)
      × (parse_state t ≡ state)
      × (visible t ≡ (symbol_metadata_of l sym).visible)
      × (named t ≡ (symbol_metadata_of l sym).named)
      × (extra t ≡ (sym == sym_end))
      × (is_keyword t ≡ keyword)
      × (has_external_tokens t ≡ external)
unfolding new_leaf
new_leaf_reads l sym p s la state external column keyword h hs = ground arith

abbrev error_data : Language → ℤ → Length → Length → ℕ → ℕ → HeapData
error_data l c p s la state =
    record (heap_leaf (symbol_metadata_of l sym_error) sym_error p s la state false false false) {
      fragile_left = true;
      fragile_right = true;
      lookahead_char = c;
    }

-- An error leaf is always heap data without children, so that writing its character is safe; it is
-- fragile on both sides, and keeps its character, extents, lookahead and parse state.
new_error_is_heap :
    (l : Language) (c : ℤ) (p s : Length) (la state : ℕ)
    → (d : HeapData) × (new_error l c p s la state ≡ heap d nil)
      × (d.lookahead_char ≡ c)
      × (d.symbol ≡ sym_error)
      × (d.fragile_left ≡ true)
      × (d.fragile_right ≡ true)
      × (d.padding ≡ p)
      × (d.size ≡ s)
      × (d.lookahead_bytes ≡ la)
      × (d.parse_state ≡ state)
unfolding new_error
new_error_is_heap l c p s la state =
    (error_data l c p s la state, refl, refl, refl, refl, refl, refl, refl, refl, refl)

-- A missing leaf is empty, in parse state 0, costs a missing tree and a recovery in either
-- representation, and has the symbol, padding and lookahead that it was made with.
new_missing_leaf_reads :
    (l : Language) (sym : ℕ) (p : Length) (la : ℕ)
    → let t = new_missing_leaf l sym p la in
      (missing t ≡ true)
      × (error_cost t ≡ 610)
      × (symbol t ≡ sym)
      × (padding t ≡ p)
      × (size t ≡ length_zero)
      × (lookahead_bytes t ≡ la)
      × (parse_state t ≡ 0)
unfolding new_missing_leaf
new_missing_leaf_reads l sym p la = ground arith
