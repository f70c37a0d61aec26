-- ===== src/TreeCursor.antt =====
-- lib/src/tree_cursor.c: the entries of a cursor and the iteration over the children of a node. A
-- pointer to a subtree is the subtree.
pub mod Children
pub mod Moves
pub mod Siblings
pub mod Walk
pub mod Nodes
use tree_sitter.Prelude.{
  ℕ, zero, suc, ◌+◌, ◌-◌, ◌%◌, Bool, true, false, not, ◌&&◌, ◌||◌, Option, none, some, List, [],
  ◌∷◌, ltb, ◌==◌, if◌then◌else◌, add32, sub32, u8_mod,
}
use tree_sitter.Point.{point_new}
use tree_sitter.Length.{Length, length_zero, length_add, length_is_undefined, length_undefined}
use tree_sitter.Language.{Language, alias_sequence, alias_at}
use tree_sitter.Subtree.{
  Subtree, Subtrees, nil, cons, visible, extra, padding, size, child_at, child_count, children,
  production_id, visible_descendant_count,
}
use tree_sitter.Subtree.Summary.{alias_of}

-- `TreeCursorEntry`
pub record TreeCursorEntry : Type 0 where
  pub subtree : Subtree
  pub position : Length
  pub child_index : ℕ
  pub structural_child_index : ℕ
  pub descendant_index : ℕ

-- `TreeCursor`, with the language of its tree. Its stack is never empty: `top` is the last entry, and
-- `below` are the others, the last one first.
pub record TreeCursor : Type 0 where
  pub language : Language
  pub top : TreeCursorEntry
  pub below : List TreeCursorEntry

-- `CursorChildIterator`; a parent of `none` is the null subtree.
pub record CursorChildIterator : Type 0 where
  pub parent : Option Subtree
  pub position : Length
  pub child_index : ℕ
  pub structural_child_index : ℕ
  pub descendant_index : ℕ
  pub aliases : Option (List ℕ)

-- `ts_tree_cursor_is_entry_visible` of an entry with those below it
unfoldable pub is_entry_visible : Language → TreeCursorEntry → List TreeCursorEntry → Bool
unfolding alias_at
is_entry_visible l e [] = true
is_entry_visible l e (p ∷ rest) =
    visible e.subtree
    || (not (extra e.subtree)
        && not (alias_at l (production_id p.subtree) e.structural_child_index == 0))

-- `ts_tree_cursor_iterate_children`
unfoldable pub iterate_children :
    Language → TreeCursorEntry → List TreeCursorEntry → CursorChildIterator
unfolding is_entry_visible alias_sequence
iterate_children l e below =
    if child_count e.subtree == 0
    then (record {
      parent = none;
      position = length_zero;
      child_index = 0;
      structural_child_index = 0;
      descendant_index = 0;
      aliases = none;
    })
    else (record {
      parent = some e.subtree;
      position = e.position;
      child_index = 0;
      structural_child_index = 0;
      descendant_index =
          if is_entry_visible l e below then add32 e.descendant_index 1 else e.descendant_index;
      aliases = alias_sequence l (production_id e.subtree);
    })

-- What a step of an iterator gives.
pub record Visit : Type 0 where
  pub entry : TreeCursorEntry
  pub is_visible : Bool
  pub after : CursorChildIterator

-- Whether the iteration takes a child for visible.
abbrev pub seen : Option (List ℕ) → ℕ → Subtree → Bool
seen aliases i c = visible c || (not (extra c) && not (alias_of aliases i == 0))

-- The position behind a child, and behind the padding of the next one.
abbrev pub behind : Length → Subtree → Option Subtree → Length
behind p c none = length_add p (size c)
behind p c (some d) = length_add (length_add p (size c)) (padding d)

abbrev pub visit_next : CursorChildIterator → Option Subtree → Subtree → Visit
unfolding length_add
visit_next it next c =
    let is_visible = seen it.aliases it.structural_child_index c in
    let below = add32 it.descendant_index (visible_descendant_count c) in
    record {
      entry = record {
        subtree = c;
        position = it.position;
        child_index = it.child_index;
        structural_child_index = it.structural_child_index;
        descendant_index = it.descendant_index;
      };
      is_visible = is_visible;
      after = record it {
        structural_child_index =
            if extra c then it.structural_child_index else add32 it.structural_child_index 1;
        descendant_index = if is_visible then add32 below 1 else below;
        position = behind it.position c next;
        child_index = add32 it.child_index 1;
      };
    }

-- `ts_tree_cursor_child_iterator_next`; `none` is false.
unfoldable pub child_iterator_next : CursorChildIterator → Option Visit
unfolding visit_next
child_iterator_next it = elim it.parent [
  | none ↦ none
  | some p ↦ elim (child_at (children p) it.child_index) [
    | none ↦ none
    | some c ↦ some (visit_next it (child_at (children p) (add32 it.child_index 1)) c)
  ]
]

unfoldable pub length_backtrack : Length → Length → Length
unfolding length_is_undefined
length_backtrack a b =
    if length_is_undefined a || not (b.extent.row == 0) then length_undefined else (record {
      bytes = sub32 a.bytes b.bytes;
      extent = point_new a.extent.row (sub32 a.extent.column b.extent.column);
    })

-- The position before the padding of a child, and before the previous one.
abbrev pub before : Length → Subtree → Option Subtree → Length
unfolding length_backtrack
before p c none = length_backtrack p (padding c)
before p c (some d) = length_backtrack (length_backtrack p (padding c)) (size d)

abbrev pub visit_previous : CursorChildIterator → Subtrees → Subtree → Visit
unfolding length_backtrack
visit_previous it cs c =
    let steps : Bool = elim it.aliases [ none ↦ false | some aliases ↦ not (extra c) ] in
    record {
      entry = record {
        subtree = c;
        position = it.position;
        child_index = it.child_index;
        structural_child_index = it.structural_child_index;
        descendant_index = 0;
      };
      is_visible = seen it.aliases it.structural_child_index c;
      after = record it {
        structural_child_index =
            if steps then sub32 it.structural_child_index 1 else it.structural_child_index;
        position = before it.position c (child_at cs (sub32 it.child_index 1));
        child_index = sub32 it.child_index 1;
      };
    }

-- `ts_tree_cursor_child_iterator_previous`: the index is compared with -1 as an `int8_t`. A read
-- behind the children, which no index of a child gives, is false here.
unfoldable pub child_iterator_previous : CursorChildIterator → Option Visit
unfolding visit_previous
child_iterator_previous it = elim it.parent [
  | none ↦ none
  | some p ↦
      if it.child_index % u8_mod == 255 then none else elim (child_at (children p) it.child_index) [
        | none ↦ none
        | some c ↦ some (visit_previous it (children p) c)
      ]
]

-- The steps that a loop over an iterator sees, at most so many.
unfoldable pub visits : (CursorChildIterator → Option Visit) → ℕ → CursorChildIterator → List Visit
visits advance zero it = []
visits advance (suc n) it = elim (advance it) [ none ↦ [] | some v ↦ v ∷ visits advance n v.after ]

-- All steps that are left: there are no more than children.
abbrev pub all_visits : (CursorChildIterator → Option Visit) → CursorChildIterator → List Visit
unfolding visits
all_visits advance it = visits advance (elim it.parent [ none ↦ 0 | some p ↦ child_count p ]) it
