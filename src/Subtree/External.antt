-- ===== src/Subtree/External.antt =====
-- lib/src/subtree.c: `ts_subtree_last_external_token` and the scanner state that a token keeps.
pub mod Laws
use tree_sitter.Prelude.{
  ℕ, Bool, true, false, not, ◌&&◌, Option, none, some, List, [], ◌∷◌, ◌==◌, if◌then◌else◌, length,
}
use tree_sitter.Subtree.{Subtree, Subtrees, inline, heap, nil, cons, count, has_external_tokens}

-- The descent to the last child that has external tokens. Where no child has any, the loop of the
-- code runs for ever, and the result is `none`.
unfoldable mutual
  pub descend : Subtree → Option Subtree
  descend (inline d) = some (inline d)
  descend (heap d nil) = some (heap d nil)
  descend (heap d (cons c cs)) = elim (last_descent (cons c cs)) [ none ↦ none | some r ↦ r ]

  -- The descent into the last child with the flag; `none` if there is no such child.
  pub last_descent : Subtrees → Option (Option Subtree)
  last_descent nil = none
  last_descent (cons c cs) = elim (last_descent cs) [
    | some r ↦ some r
    | none ↦ if has_external_tokens c then some (descend c) else none
  ]

-- The outer option tells that the function returns, the inner one is the null subtree.
unfoldable pub last_external_token : Subtree → Option (Option Subtree)
unfolding descend
last_external_token t =
    if has_external_tokens t
    then elim (descend t) [ none ↦ none | some r ↦ some (some r) ]
    else some none

-- `ts_subtree_external_scanner_state`: the bytes of the state.
unfoldable pub external_scanner_state : Option Subtree → List ℕ
external_scanner_state none = []
external_scanner_state (some (inline d)) = []
external_scanner_state (some (heap d cs)) =
    if d.has_external_tokens && count cs == 0 then d.external_scanner_state else []

-- `memcmp` on two buffers of one length
unfoldable pub same_bytes : List ℕ → List ℕ → Bool
same_bytes [] _ = true
same_bytes (a ∷ rest) [] = true
same_bytes (a ∷ rest) (b ∷ bs) = a == b && same_bytes rest bs

-- `ts_external_scanner_state_eq`
unfoldable pub scanner_state_eq : List ℕ → List ℕ → Bool
unfolding same_bytes
scanner_state_eq a b = length a == length b && same_bytes a b

unfoldable pub external_scanner_state_eq : Option Subtree → Option Subtree → Bool
unfolding external_scanner_state scanner_state_eq
external_scanner_state_eq a b =
    scanner_state_eq (external_scanner_state a) (external_scanner_state b)
