-- ===== src/Subtree/Edit/Shape.antt =====
-- What an edit leaves as it was, and what it marks.
use tree_sitter.Prelude.{
  ℕ, ◌≡◌, refl, Bool, true, false, ◌&&◌, arith, Bool-cases, inl, inr, ap, suc, if◌then◌else◌,
}
use tree_sitter.Length.{Length, length_zero, length_add}
use tree_sitter.Subtree.{
  Subtree, Subtrees, HeapData, InlineData, inline, heap, nil, cons, symbol, count, padding, size,
  total_size, child_count, has_changes,
}
use tree_sitter.Subtree.Compare.Order.{same_shape, same_shapes}
use tree_sitter.Subtree.Edit.{
  Edit, store, is_outside, resize, touches, ends_before, stops_before, without_insertion,
  child_edit, edit_tree, edit_children,
}

mutual
  unfolding same_shape

  same_shape_refl : (t : Subtree) → same_shape t t ≡ true
  same_shape_refl (inline d) = ground arith
  same_shape_refl (heap d cs) = ground (arith, same_shapes_refl cs)

  same_shapes_refl : (cs : Subtrees) → same_shapes cs cs ≡ true
  same_shapes_refl nil = refl
  same_shapes_refl (cons c cs) = ground (arith, same_shape_refl c, same_shapes_refl cs)

shape-store :
    (junk : HeapData) (p s : Length) (d : InlineData)
    → (symbol (store junk p s d) ≡ d.symbol)
      × (child_count (store junk p s d) ≡ 0)
      × (has_changes (store junk p s d) ≡ true)
unfolding store
shape-store junk p s d = ground arith

both : {a b : Bool} → a ≡ true → b ≡ true → (a && b) ≡ true
both p q = ground arith

-- A property of each of the three results of a round holds of its result.
round_cases {ℓ} :
    (P : Subtrees → Type ℓ) (a b : Bool) (x y z : Subtrees)
    → P x
    → P y
    → P z
    → P (if a then x else if b then y else z)
round_cases P true b x y z p q r = p
round_cases P false true x y z p q r = q
round_cases P false false x y z p q r = r

module _ (junk : HeapData) where
  count-edit_children :
      (e : Edit) (column : Bool) (row : ℕ) (first : Bool) (left : Length) (cs : Subtrees)
      → count (edit_children junk e column row first left cs) ≡ count cs
  unfolding edit_tree
  count-edit_children e column row first left nil = refl
  count-edit_children e column row first left (cons c cs) =
      let right = length_add left (total_size c) in
      let t = touches e right in
      let passed = edit_children junk e column row false right cs in
      let edited = edit_children junk (without_insertion e t) column row false right cs in
      round_cases (λ r. count r ≡ suc (count cs)) (ends_before e right c)
        (stops_before e column row first left c) (cons c passed) (cons c cs)
        (cons (edit_tree junk (child_edit e left t) c) edited)
        (ap suc (count-edit_children e column row false right cs)) refl
        (ap suc (count-edit_children (without_insertion e t) column row false right cs))

  mutual
    unfolding edit_tree same_shape

    shape-edit_tree : (e : Edit) (t : Subtree) → same_shape t (edit_tree junk e t) ≡ true
    shape-edit_tree e (inline d) = ground (
      arith,
      shape-store junk (resize e (padding (inline d)) (size (inline d))).0
          (resize e (padding (inline d)) (size (inline d))).1 d,
    )
    shape-edit_tree e (heap d cs) = elim (Bool-cases (is_outside e (heap d cs))) [
      | inl o ↦ rw o (same_shape_refl (heap d cs))
      | inr i ↦
          let row = (resize e d.padding d.size).0.extent.row in
          rw i (
            ground (
              arith,
              count-edit_children e d.depends_on_column row true length_zero cs,
              shape-edit_children e d.depends_on_column row true length_zero cs,
            ))
    ]

    shape-edit_children :
        (e : Edit) (column : Bool) (row : ℕ) (first : Bool) (left : Length) (cs : Subtrees)
        → same_shapes cs (edit_children junk e column row first left cs) ≡ true
    shape-edit_children e column row first left nil = refl
    shape-edit_children e column row first left (cons c cs) =
        let right = length_add left (total_size c) in
        let t = touches e right in
        let passed = edit_children junk e column row false right cs in
        let edited = edit_children junk (without_insertion e t) column row false right cs in
        round_cases (λ r. same_shapes (cons c cs) r ≡ true) (ends_before e right c)
          (stops_before e column row first left c) (cons c passed) (cons c cs)
          (cons (edit_tree junk (child_edit e left t) c) edited)
          (both (same_shape_refl c) (shape-edit_children e column row false right cs))
          (both (same_shape_refl c) (same_shapes_refl cs))
          (both (shape-edit_tree (child_edit e left t) c)
            (shape-edit_children (without_insertion e t) column row false right cs))

-- An edit leaves every symbol and every number of children in the whole tree as it was. It marks
-- the tree as changed, unless it lies outside of it, and then the tree stays the same.
pub edit_tree_keeps_shape :
    (junk : HeapData) (e : Edit) (t : Subtree)
    → (same_shape t (edit_tree junk e t) ≡ true)
      × ((is_outside e t ≡ true) → edit_tree junk e t ≡ t)
      × ((is_outside e t ≡ false) → has_changes (edit_tree junk e t) ≡ true)
unfolding edit_tree
edit_tree_keeps_shape junk e (inline d) = (
  shape-edit_tree junk e (inline d),
  λ o. rw o,
  λ i.
      rw i
        (shape-store junk (resize e (padding (inline d)) (size (inline d))).0
          (resize e (padding (inline d)) (size (inline d))).1 d).2,
)
edit_tree_keeps_shape junk e (heap d cs) =
    (shape-edit_tree junk e (heap d cs), λ o. rw o, λ i. rw i)
