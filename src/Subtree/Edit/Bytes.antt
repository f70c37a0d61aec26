-- ===== src/Subtree/Edit/Bytes.antt =====
-- How an edit changes the number of bytes of a tree.
use tree_sitter.Prelude.{
  ℕ, ◌+◌, ◌-◌, ◌≤◌, ◌<◌, ◌≡◌, ◌⊎◌, true, u32_mod, arith, ◌∙◌, inl, inr, Bool-cases,
}
use tree_sitter.Length.{Length, length_add, length_sub, length_saturating_sub}
use tree_sitter.Subtree.Leaf.{can_inline}
use tree_sitter.Subtree.Leaf.Laws.{IsCoherent}
use tree_sitter.Subtree.{
  Subtree, InlineData, HeapData, inline, heap, padding, size, lookahead_bytes,
}
use tree_sitter.Subtree.Edit.{Edit, resize, store, is_outside, edit_tree}

-- The bytes of a tree, as a number that does not wrap.
abbrev pub width : Subtree → ℕ
width t = (padding t).bytes + (size t).bytes

-- An edit replaces the bytes from its start to its old end by those up to its new end.
pub record IsReplacement (e : Edit) : Type 0 where
  pub old_after_start : e.start.bytes ≤ e.old_end.bytes
  pub new_after_start : e.start.bytes ≤ e.new_end.bytes
  pub old_fits : e.old_end.bytes < u32_mod

-- The edit starts inside a text of `n` bytes, or inserts text at its end.
abbrev pub Reaches : Edit → ℕ → Type 0
Reaches e n = (e.start.bytes < n) ⊎ ((e.start.bytes ≡ n) × (e.old_end.bytes ≡ n))

resize-bytes :
    (e : Edit) (p s : Length)
    → IsReplacement e
    → e.new_end.bytes + p.bytes + s.bytes < u32_mod
    → Reaches e (p.bytes + s.bytes)
    → let (p', s') = resize e p s in
      p'.bytes + s'.bytes ≡ e.new_end.bytes + (p.bytes + s.bytes - e.old_end.bytes)
unfolding resize length_add length_sub length_saturating_sub
resize-bytes e p s v h r = ground arith

-- A packed leaf has room for as many bytes as columns: on one row its new size must have as many
-- columns as bytes, as the points of an edit that fit its byte offsets give.
abbrev pub Keeps : Edit → Subtree → Type 0
Keeps e (inline d) = IsCoherent (resize e (padding (inline d)) (size (inline d))).1
Keeps e (heap d cs) = Unit

width-store :
    (junk : HeapData) (p s : Length) (d : InlineData)
    → IsCoherent s
    → width (store junk p s d) ≡ p.bytes + s.bytes
unfolding store can_inline
width-store junk p s d h = ground arith

outside-width :
    (e : Edit) (t : Subtree)
    → IsReplacement e
    → width t + lookahead_bytes t < u32_mod
    → Reaches e (width t)
    → is_outside e t ≡ true
    → width t ≡ e.new_end.bytes + (width t - e.old_end.bytes)
unfolding is_outside length_add
outside-width e t v h r o = ground arith

-- An edit that starts inside a tree, or inserts text right at its end, leaves it with the bytes up
-- to the new end and those of the tree behind the old end, if the edit ends where it starts or
-- later, no sum exceeds 32 bits, and a packed leaf stays coherent.
pub width-edit_tree :
    (junk : HeapData) (e : Edit) (t : Subtree)
    → IsReplacement e
    → width t + lookahead_bytes t < u32_mod
    → e.new_end.bytes + (padding t).bytes + (size t).bytes < u32_mod
    → Reaches e (width t)
    → Keeps e t
    → width (edit_tree junk e t) ≡ e.new_end.bytes + (width t - e.old_end.bytes)
unfolding edit_tree
width-edit_tree junk e (inline d) v h f r k = elim (Bool-cases (is_outside e (inline d))) [
  | inl o ↦ rw o (outside-width e (inline d) v h r o)
  | inr i ↦ rw i (
      width-store junk (resize e (padding (inline d)) (size (inline d))).0
        (resize e (padding (inline d)) (size (inline d))).1 d k
      ∙ resize-bytes e (padding (inline d)) (size (inline d)) v f r)
]
width-edit_tree junk e (heap d cs) v h f r k = elim (Bool-cases (is_outside e (heap d cs))) [
  | inl o ↦ rw o (outside-width e (heap d cs) v h r o)
  | inr i ↦ rw i (resize-bytes e d.padding d.size v f r)
]
