-- ===== src/ReusableNode/Offsets.antt =====
-- The byte offsets of the walk over an old tree.
use tree_sitter.Prelude.{
  ℕ, zero, suc, ◌+◌, ◌%◌, ◌≤◌, ◌<◌, ◌≡◌, refl, ap, inl, inr, true, false, Option, some, List, [],
  ◌∷◌, ltb, add32, u32_mod, arith, Bool-cases,
}
use mathlib.Core.Option.{some_inj}
use tree_sitter.Prelude.Run.{ok}
use tree_sitter.Subtree.{
  Subtree, Subtrees, inline, heap, nil, cons, count, child_at, child_count, children, total_bytes,
  has_external_tokens,
}
use tree_sitter.Subtree.External.Laws.{Flagged, leaves, last_external, last_external_token_lem}
use tree_sitter.ReusableNode.{
  StackEntry, ReusableNode, climb, reusable_node_advance, reusable_node_descend,
  reusable_node_advance_past_leaf,
}

abbrev pub bytes_of : Subtrees → ℕ
bytes_of nil = 0
bytes_of (cons c cs) = total_bytes c + bytes_of cs

-- the bytes of the children before an index
abbrev pub bytes_before : Subtrees → ℕ → ℕ
bytes_before cs zero = 0
bytes_before nil (suc i) = 0
bytes_before (cons c cs) (suc i) = total_bytes c + bytes_before cs i

-- The size of each node is that of its children, whose number fits 32 bits.
unfoldable mutual
  pub Sized : Subtree → Type 0
  Sized (inline d) = Unit
  Sized (heap d nil) = Unit
  Sized (heap d (cons c cs)) =
      (total_bytes (heap d (cons c cs)) ≡ bytes_of (cons c cs) % u32_mod)
      × (count (cons c cs) < u32_mod)
      × Sized c
      × AllSized cs

  pub AllSized : Subtrees → Type 0
  AllSized nil = Unit
  AllSized (cons c cs) = Sized c × AllSized cs

-- Each entry is the child of the entry below it at its index, and its offset is that of the entry below
-- it and the bytes of the children before.
abbrev pub Placed : List StackEntry → Type 0
Placed [] = Unit
Placed (e ∷ []) = Sized e.tree
Placed (e ∷ p ∷ rest) =
    (child_at (children p.tree) e.child_index ≡ some e.tree)
    × (e.byte_offset ≡ (p.byte_offset + bytes_before (children p.tree) e.child_index) % u32_mod)
    × Placed (p ∷ rest)

bytes_of-none : (cs : Subtrees) → count cs ≤ 0 → bytes_of cs ≡ 0
bytes_of-none nil h = refl
bytes_of-none (cons c cs) h = absurd (omega arith)

-- What is known of the children around an index at which there is one.
child_at-bounds :
    (cs : Subtrees) (i : ℕ) (c : Subtree)
    → child_at cs i ≡ some c
    → (i < count cs)
      × (bytes_before cs (suc i) ≡ bytes_before cs i + total_bytes c)
      × (count cs ≤ i + 1 → bytes_of cs ≡ bytes_before cs i + total_bytes c)
child_at-bounds nil i c h = cc
child_at-bounds (cons x cs) zero c h =
    let same = ap total_bytes (some_inj.0 h) in
    (omega arith, omega (arith, same), λ b. omega (arith, same, bytes_of-none cs (omega arith)))
child_at-bounds (cons x cs) (suc i) c h =
    let (inside, next, last) = child_at-bounds cs i c h in
    (omega arith, omega arith, λ b. omega (arith, last (omega arith)))

child_at-there : (cs : Subtrees) (i : ℕ) → i < count cs → (c : Subtree) × (child_at cs i ≡ some c)
child_at-there nil i h = absurd (omega arith)
child_at-there (cons c cs) zero h = (c, refl)
child_at-there (cons c cs) (suc i) h = child_at-there cs i (omega arith)

child_at-AllSized :
    (cs : Subtrees) (i : ℕ) (c : Subtree) → AllSized cs → child_at cs i ≡ some c → Sized c
unfolding Sized
child_at-AllSized nil i c s h = cc
child_at-AllSized (cons x cs) zero c s h = rw⁻¹ (some_inj.0 h) s.0
child_at-AllSized (cons x cs) (suc i) c s h = child_at-AllSized cs i c s.1 h

-- A node with a child at an index has the bytes of its children, which have their sizes too.
child_at-Sized :
    (t : Subtree) (i : ℕ) (c : Subtree)
    → Sized t
    → child_at (children t) i ≡ some c
    → (total_bytes t ≡ bytes_of (children t) % u32_mod) × (count (children t) < u32_mod) × Sized c
unfolding Sized
child_at-Sized (inline d) i c s h = cc
child_at-Sized (heap d nil) i c s h = cc
child_at-Sized (heap d (cons x cs)) i c s h =
    (s.0, s.1, child_at-AllSized (cons x cs) i c (s.2, s.3) h)

Placed-Sized : (e : StackEntry) (rest : List StackEntry) → Placed (e ∷ rest) → Sized e.tree
Placed-Sized e [] h = h
Placed-Sized e (p ∷ rest) h =
    (child_at-Sized p.tree e.child_index e.tree (Placed-Sized p rest h.2) h.0).2

-- A stack of entries that goes on at an offset, or is at its end.
abbrev pub GoesOn : ℕ → List StackEntry → Type 0
GoesOn offset [] = Unit
GoesOn offset (e ∷ rest) = e.byte_offset ≡ offset

module _ (offset next : ℕ) (p : StackEntry) (rest : List StackEntry) where
  climb-here :
      (c : Subtree)
      → ltb next (child_count p.tree) ≡ true
      → child_at (children p.tree) next ≡ some c
      → climb offset next (p ∷ rest)
        ≡ (record { tree = c; child_index = next; byte_offset = offset }) ∷ p ∷ rest
  unfolding climb
  climb-here c b there = rw (b, there) refl

  climb-above :
      ltb next (child_count p.tree) ≡ false
      → climb offset next (p ∷ rest) ≡ climb offset (add32 p.child_index 1) rest
  unfolding climb
  climb-above b = rw b refl

climb-Placed :
    (e : StackEntry) (rest : List StackEntry) (offset next : ℕ)
    → Placed (e ∷ rest)
    → offset ≡ (e.byte_offset + total_bytes e.tree) % u32_mod
    → next ≡ add32 e.child_index 1
    → Placed (climb offset next rest) × GoesOn offset (climb offset next rest)
unfolding climb
climb-Placed e [] offset next h o n = (tt, tt)
climb-Placed e (p ∷ rest) offset next h o n =
    let (here, off, below) = h in
    let cs = children p.tree in
    let (inside, later, last) = child_at-bounds cs e.child_index e.tree here in
    let sized = child_at-Sized p.tree e.child_index e.tree (Placed-Sized p rest below) here in
    let index : next ≡ suc e.child_index = omega (arith, sized.1) in
    elim (Bool-cases (ltb next (child_count p.tree))) [
      | inl b ↦
          let (c, there) = child_at-there cs next (ground arith) in
          let bytes : bytes_before cs next ≡ bytes_before cs e.child_index + total_bytes e.tree =
            rw index later in
          rw (climb-here offset next p rest c b there) ((there, omega arith, below), refl)
      | inr b ↦
          let outside : count cs ≤ next = ground arith in
          let all = last (omega arith) in
          rw (climb-above offset next p rest b)
            (climb-Placed p rest offset (add32 p.child_index 1) below (omega (arith, sized.0)) refl)
    ]

-- From an entry of a placed stack the walk goes on behind its tree: the advance succeeds, the entries are
-- placed again, and the next tree starts where the last one ends; if the marks of external tokens in
-- the last one are those of its leaves.
reusable_node_advance-Placed :
    (e : StackEntry) (rest : List StackEntry) (token : Option Subtree)
    → Placed (e ∷ rest)
    → Flagged e.tree
    → (r : ReusableNode) × (reusable_node_advance
          (record { stack = e ∷ rest; last_external_token = token })
        ≡ ok r)
      × Placed r.stack
      × GoesOn (add32 e.byte_offset (total_bytes e.tree)) r.stack
unfolding reusable_node_advance
reusable_node_advance-Placed e rest token h f =
    let offset = add32 e.byte_offset (total_bytes e.tree) in
    let stack = climb offset (add32 e.child_index 1) rest in
    let (placed, goes_on) = climb-Placed e rest offset (add32 e.child_index 1) h refl refl in
    elim (Bool-cases (has_external_tokens e.tree)) [
      | inl b ↦ (
        record { stack = stack; last_external_token = last_external (leaves e.tree) },
        rw (b, last_external_token_lem e.tree f) refl,
        placed,
        goes_on,
      )
      | inr b ↦ (record { stack = stack; last_external_token = token }, rw b refl, placed, goes_on)
    ]

-- the levels down to the first leaf of a tree, and that leaf
unfoldable pub levels : Subtree → ℕ
levels (inline d) = 0
levels (heap d nil) = 0
levels (heap d (cons c cs)) = suc (levels c)

unfoldable pub first_leaf : Subtree → Subtree
first_leaf (inline d) = inline d
first_leaf (heap d nil) = heap d nil
first_leaf (heap d (cons c cs)) = first_leaf c

-- From an entry of a placed stack, whose offset fits 32 bits, the walk goes on behind the first leaf of
-- its tree: with fuel for one level more than there are down to that leaf, the code ends, the entries are
-- placed again, and the next tree starts where the leaf ends; if the marks of external tokens in the
-- tree are those of its leaves.
pub reusable_node_advance_past_leaf-Placed :
    (fuel : ℕ) (t : Subtree) (i off : ℕ) (rest : List StackEntry) (token : Option Subtree)
    → let e : StackEntry = record { tree = t; child_index = i; byte_offset = off } in
      Placed (e ∷ rest)
      → off < u32_mod
      → Flagged t
      → levels t < fuel
      → (r : ReusableNode) × (reusable_node_advance_past_leaf fuel
            (record { stack = e ∷ rest; last_external_token = token })
          ≡ ok r)
        × Placed r.stack
        × GoesOn (add32 off (total_bytes (first_leaf t))) r.stack
unfolding reusable_node_advance_past_leaf reusable_node_descend levels first_leaf
reusable_node_advance_past_leaf-Placed zero t i off rest token h b f l = absurd (omega arith)
reusable_node_advance_past_leaf-Placed (suc fuel) (inline d) i off rest token h b f l =
    reusable_node_advance-Placed (record { tree = inline d; child_index = i; byte_offset = off })
      rest token h f
reusable_node_advance_past_leaf-Placed (suc fuel) (heap d nil) i off rest token h b f l =
    reusable_node_advance-Placed (record { tree = heap d nil; child_index = i; byte_offset = off })
      rest token h f
reusable_node_advance_past_leaf-Placed (suc fuel) (heap d (cons c cs)) i off rest token h b f l =
    let e : StackEntry = record { tree = heap d (cons c cs); child_index = i; byte_offset = off } in
    reusable_node_advance_past_leaf-Placed fuel c 0 off (e ∷ rest) token (refl, omega arith, h) b
      f.1 (omega arith)
