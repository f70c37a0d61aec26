-- ===== src/TreeCursor/Walk.antt =====
-- lib/src/tree_cursor.c: the iteration over children, without looking any of them up.
use tree_sitter.Prelude.{
  ℕ, zero, suc, ◌+◌, ◌%◌, ◌<◌, ◌≤◌, ◌≡◌, refl, ◌∙◌, arith, some, List, [], ◌∷◌, get_elem?, length,
  add32, u32_mod,
}
use tree_sitter.Point.{point_add}
use tree_sitter.Length.{Length, length_add}
use tree_sitter.Length.Laws.{length_add_assoc}
use tree_sitter.Language.{Language}
use tree_sitter.Subtree.{
  child_at, Subtree, Subtrees, nil, cons, count, children, padding, size, total_size,
}
use tree_sitter.Subtree.Summary.Counts.{visible_below_in, visible_below, AllCounted}
use tree_sitter.TreeCursor.Siblings.{pass_children, position_of}
use tree_sitter.TreeCursor.{
  CursorChildIterator, Visit, visit_next, behind, child_iterator_next, visits,
}

-- The visits of the children that are left, without looking any up.
unfoldable pub walk : CursorChildIterator → Subtrees → List Visit
unfolding length_add
walk it nil = []
walk it (cons c cs) = let v = visit_next it (child_at cs 0) c in v ∷ walk v.after cs

-- An iterator stands in front of some children of a node.
abbrev pub InFrontOf : CursorChildIterator → Subtree → Subtrees → Type 0
InFrontOf it t cs =
    (it.parent ≡ some t)
    × (it.child_index + count cs < u32_mod)
    × ((k : ℕ) → child_at (children t) (it.child_index + k) ≡ child_at cs k)

child_at-first :
    (it : CursorChildIterator) (t : Subtree) (cs : Subtrees)
    → InFrontOf it t cs
    → child_at (children t) it.child_index ≡ child_at cs 0
child_at-first it t cs (p, b, f) =
    let here : it.child_index ≡ it.child_index + 0 = omega arith in rw here (f 0)

visit_next-InFrontOf :
    (it : CursorChildIterator) (t : Subtree) (c : Subtree) (cs : Subtrees)
    → InFrontOf it t (cons c cs)
    → InFrontOf (visit_next it (child_at cs 0) c).after t cs
unfolding length_add
visit_next-InFrontOf it t c cs (p, b, f) =
    let after = (visit_next it (child_at cs 0) c).after in
    let bound : add32 it.child_index 1 + count cs < u32_mod = omega arith in
    let next : (k : ℕ) → child_at (children t) (add32 it.child_index 1 + k) ≡ child_at cs k = λ k.
      let shifted : add32 it.child_index 1 + k ≡ it.child_index + suc k = omega arith in
      rw shifted (f (suc k)) in
    (p, bound, next)

child_iterator_next_lem :
    (it : CursorChildIterator) (t : Subtree) (c : Subtree) (cs : Subtrees)
    → InFrontOf it t (cons c cs)
    → child_iterator_next it ≡ some (visit_next it (child_at cs 0) c)
unfolding child_iterator_next length_add
child_iterator_next_lem it t c cs h =
    let after = (visit_next it (child_at cs 0) c).after in
    let next : child_at (children t) (add32 it.child_index 1) ≡ child_at cs 0 =
      child_at-first after t cs (visit_next-InFrontOf it t c cs h) in
    let here : child_at (children t) it.child_index ≡ some c = child_at-first it t (cons c cs) h in
    simp (child_iterator_next, h.0, here, next)

-- The loop sees one visit for each child that is left, in their order, if the index of a child fits
-- its type.
pub visits-walk :
    (it : CursorChildIterator) (t : Subtree) (cs : Subtrees)
    → InFrontOf it t cs
    → visits child_iterator_next (count cs) it ≡ walk it cs
unfolding visits walk child_iterator_next length_add
visits-walk it t nil h = refl
visits-walk it t (cons c cs) h =
    let after = (visit_next it (child_at cs 0) c).after in
    let h' = visit_next-InFrontOf it t c cs h in
    rw (visits, child_iterator_next_lem it t c cs h, visits-walk after t cs h') refl

-- The first children.
unfoldable pub first : ℕ → Subtrees → Subtrees
first zero cs = nil
first (suc n) nil = nil
first (suc n) (cons c cs) = cons c (first n cs)

pub walk-descendants :
    (l : Language) (it : CursorChildIterator) (cs : Subtrees)
    → AllCounted l cs
    → it.descendant_index < u32_mod
    → (j : ℕ) (v : Visit) → get_elem? (walk it cs) j ≡ some v
    → v.entry.descendant_index
      ≡ (it.descendant_index + visible_below_in l it.aliases it.structural_child_index (first j cs))
        % u32_mod
unfolding walk first visible_below length_add
walk-descendants l it nil h f j v e = cc
walk-descendants l it (cons c cs) h f zero v e = ground arith
walk-descendants l it (cons c cs) h f (suc j) v e =
    walk-descendants l (visit_next it (child_at cs 0) c).after cs h.1 (ground arith) j v e
    ∙ ground arith

pub walk-children :
    (it : CursorChildIterator) (cs : Subtrees)
    → it.child_index + count cs < u32_mod
    → (j : ℕ) (v : Visit) → get_elem? (walk it cs) j ≡ some v
    → (child_at cs j ≡ some v.entry.subtree) × (v.entry.child_index ≡ it.child_index + j)
unfolding walk length_add
walk-children it nil b j v e = cc
walk-children it (cons c cs) b zero v e = ground arith
walk-children it (cons c cs) b (suc j) v e =
    let after = (visit_next it (child_at cs 0) c).after in
    let (subtree_there, index_there) = walk-children after cs (omega arith) j v e in
    (subtree_there, omega arith)

pub length-walk : (it : CursorChildIterator) (cs : Subtrees) → length (walk it cs) ≡ count cs
unfolding walk length_add
length-walk it nil = refl
length-walk it (cons c cs) =
    let h = length-walk (visit_next it (child_at cs 0) c).after cs in omega arith

-- The rows that subtrees go through.
abbrev pub rows : Subtrees → ℕ
rows nil = 0
rows (cons c cs) = (padding c).extent.row + (size c).extent.row + rows cs

visit-first :
    (it : CursorChildIterator) (c : Subtree) (cs : Subtrees) (v : Visit)
    → get_elem? (walk it (cons c cs)) 0 ≡ some v
    → visit_next it (child_at cs 0) c ≡ v
unfolding walk length_add
visit-first it c cs v e = cc

-- Adding a length adds at most its rows.
length_add-row : (a b : Length) → (length_add a b).extent.row ≤ a.extent.row + b.extent.row
unfolding length_add point_add
length_add-row a b = ground arith

behind-length_add :
    (q p : Length) (c d : Subtree)
    → q ≡ length_add p (padding c)
    → p.extent.row + (padding c).extent.row + (size c).extent.row < u32_mod
    → behind q c (some d) ≡ length_add (length_add p (total_size c)) (padding d)
behind-length_add q p c d h b = rw (h, length_add_assoc p (padding c) (size c) b) refl

walk-pass :
    (it : CursorChildIterator) (p : Length) (c : Subtree) (cs : Subtrees)
    → it.position ≡ length_add p (padding c)
    → p.extent.row + rows (cons c cs) < u32_mod
    → (j : ℕ) (v : Visit) → get_elem? (walk it (cons c cs)) j ≡ some v
    → v.entry.position ≡ pass_children p (cons c cs) j
unfolding walk pass_children length_add point_add
walk-pass it p c cs h b zero v e = rw⁻¹ (visit-first it c cs v e) h
walk-pass it p c nil h b (suc j) v e = cc
walk-pass it p c (cons d ds) h b (suc j) v e =
    let there = behind-length_add it.position p c d h (omega arith) in
    walk-pass (visit_next it (some d) c).after (length_add p (total_size c)) d ds there
      (omega (arith, length_add-row p (total_size c), length_add-row (padding c) (size c))) j v e

pub walk-position :
    (it : CursorChildIterator) (cs : Subtrees)
    → it.position.extent.row + rows cs < u32_mod
    → (j : ℕ) (v : Visit) → get_elem? (walk it cs) j ≡ some v
    → v.entry.position ≡ position_of it.position cs j
unfolding walk position_of length_add point_add
walk-position it nil b j v e = cc
walk-position it (cons c cs) b zero v e = rw⁻¹ (visit-first it c cs v e) refl
walk-position it (cons c nil) b (suc j) v e = cc
walk-position it (cons c (cons d ds)) b (suc j) v e =
    walk-pass (visit_next it (some d) c).after (length_add it.position (size c)) d ds refl
      (omega (arith, length_add-row it.position (size c))) j v e
