-- ===== src/Subtree/Summary/Size.antt =====
-- The padding and the size of a node against the sum of its children's lengths.
use tree_sitter.Prelude.{ℕ, ◌+◌, ◌≤◌, ◌<◌, ◌≡◌, refl, sym, ◌∙◌, true, false, List, u32_mod, arith}
use tree_sitter.Prelude.{Option}
use tree_sitter.Point.{point_add}
use tree_sitter.Length.{Length, Fits, length_zero, length_add}
use tree_sitter.Length.Laws.{length_add_assoc, length_add_zero}
use tree_sitter.Language.{Language, alias_sequence}
use tree_sitter.Subtree.{Subtree, Subtrees, HeapData, nil, cons, padding, size, total_size}
use tree_sitter.Subtree.Summary.{Loop, summarize_child, summarize_rest, summarize_children, reset}

-- the lengths of the children, one after the other
pub sum_sizes : Subtrees → Length
sum_sizes nil = length_zero
sum_sizes (cons c cs) = length_add (total_size c) (sum_sizes cs)

-- the rows that they span, as a number that does not wrap
abbrev pub rows : Subtree → ℕ
rows t = (padding t).extent.row + (size t).extent.row

abbrev pub sum_rows : Subtrees → ℕ
sum_rows nil = 0
sum_rows (cons c cs) = rows c + sum_rows cs

-- Every length that a child stores fits its C type.
abbrev pub AllFit : Subtrees → Type 0
AllFit nil = Unit
AllFit (cons c cs) = Fits (padding c) × Fits (size c) × AllFit cs

length_add-Fits : (a b : Length) → Fits a → Fits b → Fits (length_add a b)
unfolding length_add point_add
length_add-Fits a b ha hb = ground arith

row-length_add : (a b : Length) → (length_add a b).extent.row ≤ a.extent.row + b.extent.row
unfolding length_add point_add
row-length_add a b = ground arith

row-sum_sizes : (cs : Subtrees) → (sum_sizes cs).extent.row ≤ sum_rows cs
unfolding sum_sizes
row-sum_sizes nil = omega arith
row-sum_sizes (cons c cs) = omega (
  arith,
  row-sum_sizes cs,
  row-length_add (padding c) (size c),
  row-length_add (total_size c) (sum_sizes cs),
)

-- After the first round the padding stays.
rest-padding :
    (l : Language) (a : Option (List ℕ)) (s : Loop) (cs : Subtrees)
    → (summarize_rest l a s cs).self.padding ≡ s.self.padding
unfolding summarize_rest summarize_child
rest-padding l a s nil = refl
rest-padding l a s (cons c cs) = rest-padding l a (summarize_child l a false s c) cs

-- The other rounds add the remaining children to the size.
rest-size :
    (l : Language) (a : Option (List ℕ)) (s : Loop) (cs : Subtrees)
    → Fits s.self.size
    → AllFit cs
    → s.self.size.extent.row + sum_rows cs < u32_mod
    → (summarize_rest l a s cs).self.size ≡ length_add s.self.size (sum_sizes cs)
unfolding summarize_rest summarize_child sum_sizes
rest-size l a s nil f g h = sym ((length_add_zero s.self.size f).0)
rest-size l a s (cons c cs) f g h =
    rest-size l a (summarize_child l a false s c) cs
      (length_add-Fits s.self.size (total_size c) f (length_add-Fits (padding c) (size c) g.0 g.1))
      g.2
      (omega
        (arith, row-length_add s.self.size (total_size c), row-length_add (padding c) (size c)))
    ∙ length_add_assoc s.self.size (total_size c) (sum_sizes cs)
        (omega (arith, row-sum_sizes cs, row-length_add (padding c) (size c)))

-- A node takes its padding from its first child, and its total size is the sum of the total sizes
-- of its children, if the children's lengths fit and their rows add up to a 32-bit number.
pub summarize_children_total_size :
    (l : Language) (d : HeapData) (c : Subtree) (cs : Subtrees)
    → AllFit (cons c cs)
    → sum_rows (cons c cs) < u32_mod
    → let d' = summarize_children l d (cons c cs) in
      (d'.padding ≡ padding c) × (length_add d'.padding d'.size ≡ sum_sizes (cons c cs))
unfolding summarize_children sum_sizes
summarize_children_total_size l d c cs f h = (
  rest-padding l a s cs,
  rw (rest-padding l a s cs, rest-size l a s cs f.1 f.2 (omega arith))
      (sym
        (length_add_assoc (padding c) (size c) (sum_sizes cs) (omega (arith, row-sum_sizes cs)))),
)
  where
    a : Option (List ℕ)
    a = alias_sequence l d.production_id

    s : Loop
    s =
        summarize_child l a true
          (record { self = reset d; structural_index = 0; lookahead_end_byte = 0 }) c
