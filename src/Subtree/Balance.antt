-- ===== src/Subtree/Balance.antt =====
-- lib/src/subtree.c: balancing a node of a repetition, by rotations on its left edge.
pub mod Leaves
pub mod Turns
use tree_sitter.Prelude.{
  ℕ, zero, suc, ◌-◌, ◌/◌, Bool, true, false, not, ◌&&◌, Option, none, some, ltb, ◌==◌,
  if◌then◌else◌,
}
use mathlib.Core.Option as Option
use tree_sitter.Language.{Language}
use tree_sitter.Subtree.{Subtree, Subtrees, HeapData, inline, heap, nil, cons, count, repeat_depth}
use tree_sitter.Subtree.Summary.{summarize_children, last_of}

-- The parts of a node that a round of `ts_subtree__compress` takes apart: the data of the node, of
-- its first child and of the child's first child, the last child of that and those before it, the
-- other children of the child, and the other children of the node.
pub record Rotation : Type 0 where
  pub tree : HeapData
  pub child : HeapData
  pub grandchild : HeapData
  pub before : Subtrees
  pub last : Subtree
  pub rest : Subtrees
  pub others : Subtrees

-- all children but the last
pub before_last : Subtree → Subtrees → Subtrees
before_last c nil = nil
before_last c (cons d ds) = cons c (before_last d ds)

pub snoc : Subtrees → Subtree → Subtrees
snoc nil t = cons t nil
snoc (cons c cs) t = cons c (snoc cs t)

-- The tests on a node that the rotation changes.
abbrev pub is_own : HeapData → Subtrees → Bool
is_own d cs = not (ltb 1 d.ref_count) && not (ltb (count cs) 2)

-- The guards of the loop. `none` is a break.
pub rotation : ℕ → Subtree → Option Rotation
unfolding before_last last_of
rotation symbol (inline d) = none
rotation symbol (heap d nil) = none
rotation symbol (heap d (cons (inline c) others)) = none
rotation symbol (heap d (cons (heap c nil) others)) = none
rotation symbol (heap d (cons (heap c (cons (inline g) rest)) others)) = none
rotation symbol (heap d (cons (heap c (cons (heap g nil) rest)) others)) = none
rotation symbol (heap d (cons (heap c (cons (heap g (cons x xs)) rest)) others)) =
    let first = cons (heap g (cons x xs)) rest in
    if is_own d (cons (heap c first) others)
      && is_own c first
      && c.symbol == symbol
      && is_own g (cons x xs)
      && g.symbol == symbol
    then some (record {
      tree = d;
      child = c;
      grandchild = g;
      before = before_last x xs;
      last = last_of x xs;
      rest = rest;
      others = others;
    })
    else none

-- The grandchild, with the child as its last child.
pub turned : Rotation → Subtree
unfolding snoc
turned r = heap r.grandchild (snoc r.before (heap r.child (cons r.last r.rest)))

pub resummarize : Language → Subtree → Subtree
unfolding summarize_children
resummarize l (inline d) = inline d
resummarize l (heap d cs) = heap (summarize_children l d cs) cs

pub resummarize_last : Language → Subtrees → Subtrees
unfolding resummarize
resummarize_last l nil = nil
resummarize_last l (cons c nil) = cons (resummarize l c) nil
resummarize_last l (cons c (cons d ds)) = cons c (resummarize_last l (cons d ds))

pub with_last : Language → Subtree → Subtree
unfolding resummarize_last
with_last l (inline d) = inline d
with_last l (heap d cs) = heap d (resummarize_last l cs)

-- A round of the second loop: the last child of the node's first child is summarized, then the first
-- child, then the node.
pub unwind : Language → HeapData → Subtree → Subtrees → Subtree
unfolding resummarize with_last
unwind l d g others = resummarize l (heap d (cons (resummarize l (with_last l g)) others))

-- `ts_subtree__compress`: at most so many rotations down the left edge, then the summaries on the
-- way back up, as the stack gives them.
pub compress_from : Language → ℕ → ℕ → Subtree → Subtree
unfolding rotation turned unwind
compress_from l symbol zero t = t
compress_from l symbol (suc n) t = elim (rotation symbol t) [
  | none ↦ t
  | some r ↦ unwind l r.tree (compress_from l symbol n (turned r)) r.others
]

abbrev symbol_of : Subtree → ℕ
symbol_of (inline d) = d.symbol
symbol_of (heap d cs) = d.symbol

pub compress : Language → ℕ → Subtree → Subtree
unfolding compress_from
compress l n t = compress_from l (symbol_of t) n t

-- The loop that halves the number of rotations, on fuel.
pub compress_halves : ℕ → Language → ℕ → Subtree → Option Subtree
unfolding compress
compress_halves zero l i t = if i == 0 then some t else none
compress_halves (suc fuel) l i t =
    let rest = compress_halves fuel l (i / 2) (compress l i t) in if i == 0 then some t else rest

-- What `ts_subtree_balance` does to a node itself.
pub balance_node : Language → Subtree → Option Subtree
unfolding compress_halves last_of
balance_node l (inline d) = some (inline d)
balance_node l (heap d nil) = some (heap d nil)
balance_node l (heap d (cons c cs)) =
    let repeat_delta = repeat_depth c - repeat_depth (last_of c cs) in
    if ltb 0 d.repeat_depth && ltb 0 repeat_delta
    then compress_halves repeat_delta l (repeat_delta / 2) (heap d (cons c cs))
    else some (heap d (cons c cs))

pub each : (Subtree → Option Subtree) → Subtrees → Option Subtrees
each f nil = some nil
each f (cons c cs) = elim (f c) [ none ↦ none | some c' ↦ Option.map (cons c') (each f cs) ]

pub each_child : (Subtree → Option Subtree) → Subtree → Option Subtree
unfolding each
each_child f (inline d) = some (inline d)
each_child f (heap d cs) = Option.map (heap d) (each f cs)

-- A tree that the stack of `ts_subtree_balance` takes.
abbrev is_unshared_node : Subtree → Bool
is_unshared_node (inline d) = false
is_unshared_node (heap d cs) = ltb 0 (count cs) && d.ref_count == 1

-- `ts_subtree_balance`. The trees on the stack do not share a node, and none is summarized again
-- after its children are pushed, so their order does not matter.
unfoldable pub balance : ℕ → Language → Subtree → Option Subtree
unfolding balance_node each_child
balance zero l t = none
balance (suc fuel) l t =
    if is_unshared_node t
    then elim (balance_node l t) [ none ↦ none | some t' ↦ each_child (balance fuel l) t' ]
    else some t
