-- ===== src/TreeCursor/Moves.antt =====
-- lib/src/tree_cursor.c: walking a tree with a cursor.
use tree_sitter.Prelude.{
  ℕ, zero, suc, Bool, true, false, ◌&&◌, Option, none, some, List, [], ◌∷◌, ltb, leb, if◌then◌else◌,
  add32,
}
use tree_sitter.Point.{Point, point_gte, point_zero}
use tree_sitter.Length.{length_add}
use tree_sitter.Subtree.{size, visible_child_count}
use tree_sitter.TreeCursor.{
  TreeCursorEntry, TreeCursor, CursorChildIterator, Visit, iterate_children, child_iterator_next,
  visits, all_visits,
}

-- `TreeCursorStep`
pub data TreeCursorStep : Type 0 where
  step_none step_hidden step_visible : TreeCursorStep

abbrev pub push : TreeCursor → TreeCursorEntry → TreeCursor
push c e = record c { top = e; below = c.top ∷ c.below }

abbrev pub iterate : TreeCursor → CursorChildIterator
unfolding iterate_children
iterate c = iterate_children c.language c.top c.below

-- How a step is taken: to a visible child, into a hidden one that shows children, or not.
abbrev pub kind_of : Visit → TreeCursorStep
kind_of v =
    if v.is_visible
    then step_visible
    else if ltb 0 (visible_child_count v.entry.subtree)
    then step_hidden
    else step_none

-- The first step that is taken.
unfoldable pub first_of : List Visit → TreeCursorStep × Option TreeCursorEntry
first_of [] = (step_none, none)
first_of (v ∷ vs) = elim (kind_of v) [
  | step_none ↦ first_of vs
  | step_hidden ↦ (step_hidden, some v.entry)
  | step_visible ↦ (step_visible, some v.entry)
]

abbrev pub moved :
    TreeCursor → TreeCursorStep × Option TreeCursorEntry → TreeCursorStep × TreeCursor
moved c (step, none) = (step, c)
moved c (step, some e) = (step, push c e)

unfoldable pub goto_first_child_internal : TreeCursor → TreeCursorStep × TreeCursor
unfolding iterate_children child_iterator_next visits first_of
goto_first_child_internal c = moved c (first_of (all_visits child_iterator_next (iterate c)))

-- On fuel: one for each level of the tree.
unfoldable pub goto_first_child : ℕ → TreeCursor → Option (Bool × TreeCursor)
unfolding goto_first_child_internal
goto_first_child zero c = none
goto_first_child (suc fuel) c =
    let (step, c') = goto_first_child_internal c in
    elim step [
      | step_none ↦ some (false, c')
      | step_hidden ↦ goto_first_child fuel c'
      | step_visible ↦ some (true, c')
    ]

-- The last step that is taken, else what was there before.
pub last_taken :
    List Visit → TreeCursorStep × Option TreeCursorEntry → TreeCursorStep × Option TreeCursorEntry
last_taken [] found = found
last_taken (v ∷ vs) found = last_taken vs (elim (kind_of v) [
  | step_none ↦ found
  | step_hidden ↦ (step_hidden, some v.entry)
  | step_visible ↦ (step_visible, some v.entry)
])

-- The variable for the last entry has no initial value: `junk` is what its memory holds, and `none`
-- if its pointer to a subtree is null.
unfoldable pub goto_last_child_internal :
    Option TreeCursorEntry → TreeCursor → TreeCursorStep × TreeCursor
unfolding iterate_children child_iterator_next visits last_taken
goto_last_child_internal junk c = elim (iterate c).parent [
  | none ↦ (step_none, c)
  | some p ↦ moved c (last_taken (all_visits child_iterator_next (iterate c)) (step_none, junk))
]

unfoldable pub goto_last_child :
    ℕ → Option TreeCursorEntry → TreeCursor → Option (Bool × TreeCursor)
unfolding goto_last_child_internal
goto_last_child zero junk c = none
goto_last_child (suc fuel) junk c =
    let (step, c') = goto_last_child_internal junk c in
    elim step [
      | step_none ↦ some (false, c')
      | step_hidden ↦ goto_last_child fuel junk c'
      | step_visible ↦ some (true, c')
    ]

-- What the inner loop of `ts_tree_cursor_goto_first_child_for_byte_and_point` finds: a visible child,
-- a hidden one to descend into, or neither, with the number of visible children passed.
pub data GoalSearch : Type 0 where
  reached descended : (entry : TreeCursorEntry) (visible_child_index : ℕ) → GoalSearch
  missed : GoalSearch

pub search_goal : ℕ → Point → List Visit → ℕ → GoalSearch
unfolding length_add point_gte
search_goal goal_byte goal_point [] index = missed
search_goal goal_byte goal_point (v ∷ vs) index =
    let e = v.entry in
    let entry_end = length_add e.position (size e.subtree) in
    let count = visible_child_count e.subtree in
    let rest = search_goal goal_byte goal_point vs in
    if leb goal_byte entry_end.bytes && point_gte entry_end.extent goal_point
    then (if v.is_visible
        then reached e index
        else if ltb 0 count
        then descended e index
        else rest index)
    else rest (if v.is_visible then add32 index 1 else add32 index count)

-- The outer loop, on fuel. The inner option is the result, `none` for -1.
pub descend_to_goal : ℕ → ℕ → Point → ℕ → TreeCursor → Option (Option (ℕ × TreeCursor))
unfolding iterate_children child_iterator_next visits search_goal
descend_to_goal zero goal_byte goal_point index c = none
descend_to_goal (suc fuel) goal_byte goal_point index c =
    elim (search_goal goal_byte goal_point (all_visits child_iterator_next (iterate c)) index) [
      | missed ↦ some none
      | reached e index' ↦ some (some (index', push c e))
      | descended e index' ↦ descend_to_goal fuel goal_byte goal_point index' (push c e)
    ]

unfoldable pub goto_first_child_for_byte_and_point :
    ℕ → TreeCursor → ℕ → Point → Option (Option ℕ × TreeCursor)
unfolding descend_to_goal
goto_first_child_for_byte_and_point fuel c goal_byte goal_point =
    elim (descend_to_goal fuel goal_byte goal_point 0 c) [
      | none ↦ none
      | some none ↦ some (none, c)
      | some (some (index, c')) ↦ some (some index, c')
    ]

unfoldable pub goto_first_child_for_byte : ℕ → TreeCursor → ℕ → Option (Option ℕ × TreeCursor)
unfolding goto_first_child_for_byte_and_point
goto_first_child_for_byte fuel c goal_byte =
    goto_first_child_for_byte_and_point fuel c goal_byte point_zero

unfoldable pub goto_first_child_for_point : ℕ → TreeCursor → Point → Option (Option ℕ × TreeCursor)
unfolding goto_first_child_for_byte_and_point
goto_first_child_for_point fuel c goal_point =
    goto_first_child_for_byte_and_point fuel c 0 goal_point
