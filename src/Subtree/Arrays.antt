-- ===== src/Subtree/Arrays.antt =====
-- lib/src/subtree.c: arrays of subtrees, and the state of an external scanner that a leaf keeps.
-- An array is the list of its items, first one first.
pub mod Laws
use tree_sitter.Prelude.{
  ℕ, zero, suc, ◌+◌, ◌-◌, ◌/◌, Bool, true, false, ◌&&◌, Option, none, some, List, [], ◌∷◌, ◌++◌,
  reverse, ltb, ◌==◌, if◌then◌else◌, length, get_elem?, set,
}
use tree_sitter.Subtree.{Subtree, extra}

-- Exchanges the items at two indices; out of range it changes nothing.
abbrev pub swap_at {ℓ} : {A : Type ℓ} → List A → ℕ → ℕ → List A
swap_at xs i j = elim (get_elem? xs i) [
  | none ↦ xs
  | some x ↦ elim (get_elem? xs j) [ none ↦ xs | some y ↦ set (set xs i y) j x ]
]

-- The loop of `ts_subtree_array_reverse`: `rounds` are left, at index `i`.
pub reverse_loop {ℓ} : {A : Type ℓ} → ℕ → ℕ → List A → List A
reverse_loop zero i xs = xs
reverse_loop (suc rounds) i xs = reverse_loop rounds (i + 1) (swap_at xs i (length xs - 1 - i))

pub array_reverse : List Subtree → List Subtree
unfolding reverse_loop
array_reverse xs = reverse_loop (length xs / 2) 0 xs

-- The loop of `ts_subtree_array_remove_trailing_extras` over the array from its end, with what was
-- pushed to the destination; the result is what stays, still from its end, and the destination.
pub take_extras : List Subtree → List Subtree → List Subtree × List Subtree
take_extras [] destination = ([], destination)
take_extras (last ∷ before) destination =
    let rest = take_extras before (destination ++ last ∷ []) in
    if extra last then rest else (last ∷ before, destination)

unfoldable pub remove_trailing_extras : List Subtree → List Subtree × List Subtree
unfolding take_extras array_reverse
remove_trailing_extras xs =
    let (kept, destination) = take_extras (reverse xs) [] in
    (reverse kept, array_reverse destination)
