-- ===== src/TreeCursor/Siblings.antt =====
-- lib/src/tree_cursor.c: going to a sibling, to an ancestor and to a descendant by its index.
use tree_sitter.Prelude.{
  ℕ, zero, suc, Bool, true, false, ◌&&◌, Option, none, some, List, [], ◌∷◌, ltb, leb, ◌==◌,
  if◌then◌else◌, add32,
}
use tree_sitter.Length.{Length, length_add, length_is_undefined}
use tree_sitter.Language.{Language}
use tree_sitter.Subtree.{
  Subtrees, nil, cons, padding, size, total_size, children, visible_descendant_count,
}
use tree_sitter.TreeCursor.{
  TreeCursorEntry, TreeCursor, CursorChildIterator, Visit, is_entry_visible, iterate_children,
  child_iterator_next, child_iterator_previous, visits, all_visits,
}
use tree_sitter.TreeCursor.Moves.{
  TreeCursorStep, step_none, step_hidden, step_visible, first_of, push, iterate, goto_first_child,
  goto_last_child,
}

-- The iterator over the siblings of an entry, standing at it.
abbrev pub at_entry : CursorChildIterator → TreeCursorEntry → CursorChildIterator
at_entry it e = record it {
  child_index = e.child_index;
  structural_child_index = e.structural_child_index;
  position = e.position;
  descendant_index = e.descendant_index;
}

-- One step whose result is only its visibility; a step that is not taken changes nothing.
abbrev pub step_over : Option Visit → CursorChildIterator → Bool × CursorChildIterator
step_over none it = (false, it)
step_over (some v) it = (v.is_visible, v.after)

-- A step to a sibling, else what the levels below give.
abbrev pub taken :
    TreeCursorStep × Option TreeCursor
    → Language
    → List TreeCursorEntry
    → TreeCursorStep × Option TreeCursorEntry
    → TreeCursorStep × Option TreeCursor
taken further l below (step, none) = further
taken further l below (step, some e) =
    (step, some (record { language = l; top = e; below = below }))

-- The loop of `ts_tree_cursor_goto_sibling_internal` over the entries; `above` is whether it has left
-- the entry that the cursor stood at.
pub sibling_loop :
    (CursorChildIterator → Option Visit)
    → Language
    → Bool
    → TreeCursorEntry
    → List TreeCursorEntry
    → TreeCursorStep × Option TreeCursor
unfolding iterate_children visits first_of
sibling_loop advance l above e [] = (step_none, none)
sibling_loop advance l above e (p ∷ rest) =
    let it = at_entry (iterate_children l p rest) e in
    let (is_visible, it') = step_over (advance it) it in
    let further = sibling_loop advance l true p rest in
    if is_visible && above
    then (step_none, none)
    else taken further l (p ∷ rest) (first_of (all_visits advance it'))

pub goto_sibling_internal :
    (CursorChildIterator → Option Visit) → TreeCursor → TreeCursorStep × TreeCursor
unfolding sibling_loop
goto_sibling_internal advance c =
    let (step, result) = sibling_loop advance c.language false c.top c.below in
    elim result [ none ↦ (step_none, c) | some c' ↦ (step, c') ]

pub goto_next_sibling_internal : TreeCursor → TreeCursorStep × TreeCursor
unfolding goto_sibling_internal child_iterator_next
goto_next_sibling_internal c = goto_sibling_internal child_iterator_next c

-- On the fuel of the way to the first child.
unfoldable pub goto_next_sibling : ℕ → TreeCursor → Option (Bool × TreeCursor)
unfolding goto_next_sibling_internal goto_first_child
goto_next_sibling fuel c =
    let (step, c') = goto_next_sibling_internal c in
    elim step [
      | step_none ↦ some (false, c')
      | step_hidden ↦ elim (goto_first_child fuel c') [
        | none ↦ none
        | some (moved, c'') ↦ some (true, c'')
      ]
      | step_visible ↦ some (true, c')
    ]

-- The position of a child behind the first one, found from what is before it.
unfoldable pub pass_children : Length → Subtrees → ℕ → Length
unfolding length_add
pass_children p nil i = p
pass_children p (cons c cs) zero = length_add p (padding c)
pass_children p (cons c cs) (suc i) = pass_children (length_add p (total_size c)) cs i

unfoldable pub position_of : Length → Subtrees → ℕ → Length
unfolding length_add pass_children
position_of p cs zero = p
position_of p nil (suc i) = p
position_of p (cons c cs) (suc i) = pass_children (length_add p (size c)) cs i

abbrev pub restore : TreeCursor → List TreeCursorEntry → TreeCursor
unfolding position_of
restore c [] = c
restore c (p ∷ rest) = record c {
  top = record c.top { position = position_of p.position (children p.subtree) c.top.child_index };
}

pub goto_previous_sibling_internal : TreeCursor → TreeCursorStep × TreeCursor
unfolding goto_sibling_internal child_iterator_previous length_is_undefined position_of
goto_previous_sibling_internal c =
    let (step, c') = goto_sibling_internal child_iterator_previous c in
    let restored : TreeCursor =
      if length_is_undefined c'.top.position then restore c' c'.below else c' in
    elim step [
      | step_none ↦ (step_none, c')
      | step_hidden ↦ (step_hidden, restored)
      | step_visible ↦ (step_visible, restored)
    ]

unfoldable pub goto_previous_sibling :
    ℕ → Option TreeCursorEntry → TreeCursor → Option (Bool × TreeCursor)
unfolding goto_previous_sibling_internal goto_last_child
goto_previous_sibling fuel junk c =
    let (step, c') = goto_previous_sibling_internal c in
    elim step [
      | step_none ↦ some (false, c')
      | step_hidden ↦ elim (goto_last_child fuel junk c') [
        | none ↦ none
        | some (moved, c'') ↦ some (true, c'')
      ]
      | step_visible ↦ some (true, c')
    ]

pub parent_loop : TreeCursor → List TreeCursorEntry → Bool × TreeCursor
unfolding is_entry_visible
parent_loop c [] = (false, c)
parent_loop c (e ∷ rest) =
    let further = parent_loop c rest in
    if is_entry_visible c.language e rest
    then (true, record c { top = e; below = rest })
    else further

unfoldable pub goto_parent : TreeCursor → Bool × TreeCursor
unfolding parent_loop
goto_parent c = parent_loop c c.below

-- Whether a node is among an entry and what is below it.
abbrev pub holds : Language → ℕ → TreeCursorEntry → List TreeCursorEntry → Bool
unfolding is_entry_visible
holds l goal e rest =
    let own = if is_entry_visible l e rest then 1 else 0 in
    let next = add32 (add32 e.descendant_index own) (visible_descendant_count e.subtree) in
    leb e.descendant_index goal && ltb goal next

-- The first loop of `ts_tree_cursor_goto_descendant`, and whether the second one is entered.
pub ascend : Language → ℕ → TreeCursorEntry → List TreeCursorEntry → Bool × TreeCursor
unfolding is_entry_visible
ascend l goal e [] = (holds l goal e [], record { language = l; top = e; below = [] })
ascend l goal e (p ∷ rest) =
    let further = ascend l goal p rest in
    if holds l goal e (p ∷ rest)
    then (true, record { language = l; top = e; below = p ∷ rest })
    else further

pub first_past : ℕ → List Visit → Option Visit
first_past goal [] = none
first_past goal (v ∷ vs) =
    let rest = first_past goal vs in if ltb goal v.after.descendant_index then some v else rest

-- The second loop, on fuel: one for each level of the tree.
pub descend : ℕ → ℕ → TreeCursor → Option TreeCursor
unfolding iterate_children child_iterator_next visits first_past
descend zero goal c = none
descend (suc fuel) goal c =
    if ltb goal (iterate c).descendant_index
    then some c
    else elim (first_past goal (all_visits child_iterator_next (iterate c))) [
      | none ↦ some c
      | some v ↦
          if v.is_visible && v.entry.descendant_index == goal
          then some (push c v.entry)
          else descend fuel goal (push c v.entry)
    ]

unfoldable pub goto_descendant : ℕ → TreeCursor → ℕ → Option TreeCursor
unfolding ascend descend
goto_descendant fuel c goal =
    let (found, c') = ascend c.language goal c.top c.below in
    elim found [ true ↦ descend fuel goal c' | false ↦ some c' ]
