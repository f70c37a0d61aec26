-- ===== src/Subtree/Summary/Lookahead.antt =====
-- The lookahead of a node against the bytes that its children looked at.
use tree_sitter.Prelude.{
  ℕ, ◌+◌, ◌≤◌, ◌<◌, ◌≡◌, refl, ◌∙◌, ap, false, true, List, Option, u32_mod, arith,
}
use Prim.Native.Nat.{max}
use tree_sitter.Length.{length_add}
use tree_sitter.Language.{Language, alias_sequence}
use tree_sitter.Subtree.{Subtree, Subtrees, HeapData, nil, cons, padding, size, lookahead_bytes}
use tree_sitter.Subtree.Summary.{Loop, summarize_child, summarize_rest, summarize_children, reset}

abbrev pub width : Subtree → ℕ
width t = (padding t).bytes + (size t).bytes

-- the furthest byte that a list of children looked at, the first of them starting at `start`
unfoldable pub furthest : ℕ → Subtrees → ℕ
furthest start nil = 0
furthest start (cons c cs) =
    max (start + width c + lookahead_bytes c) (furthest (start + width c) cs)

abbrev end_of : Loop → ℕ
end_of s = s.self.padding.bytes + s.self.size.bytes

step-lookahead :
    (l : Language) (a : Option (List ℕ)) (s : Loop) (c : Subtree)
    → end_of s + width c + lookahead_bytes c < u32_mod
    → let s' = summarize_child l a false s c in
      (end_of s' ≡ end_of s + width c)
      × (s'.lookahead_end_byte ≡ max s.lookahead_end_byte (end_of s + width c + lookahead_bytes c))
unfolding summarize_child length_add
step-lookahead l a s c h = (omega arith, ground arith)

first-lookahead :
    (l : Language) (a : Option (List ℕ)) (d : HeapData) (c : Subtree)
    → width c + lookahead_bytes c < u32_mod
    → let s' =
        summarize_child l a true
          (record { self = d; structural_index = 0; lookahead_end_byte = 0 })
          c in
      (end_of s' ≡ width c) × (s'.lookahead_end_byte ≡ width c + lookahead_bytes c)
unfolding summarize_child
first-lookahead l a d c h = (refl, ground arith)

rest-lookahead :
    (l : Language) (a : Option (List ℕ)) (s : Loop) (cs : Subtrees)
    → end_of s ≤ s.lookahead_end_byte
    → s.lookahead_end_byte < u32_mod
    → furthest (end_of s) cs < u32_mod
    → let r = summarize_rest l a s cs in
      (r.lookahead_end_byte ≡ max s.lookahead_end_byte (furthest (end_of s) cs))
      × (end_of r ≤ r.lookahead_end_byte)
unfolding summarize_rest furthest
rest-lookahead l a s nil e f h = (omega arith, omega arith)
rest-lookahead l a s (cons c cs) e f h =
    let st = step-lookahead l a s c (omega arith) in
    let ih =
      rest-lookahead l a (summarize_child l a false s c) cs (omega (arith, st)) (omega (arith, st))
        (rw (st.0) (omega arith)) in
    (ih.0 ∙ rw (st.0, st.1) (omega arith), ih.1)

-- Total size and lookahead of a node reach together to the furthest byte that one of its children
-- looked at, if that is a 32-bit number: an edit there is an edit that the node depends on.
pub summarize_children_lookahead :
    (l : Language) (d : HeapData) (c : Subtree) (cs : Subtrees)
    → furthest 0 (cons c cs) < u32_mod
    → let d' = summarize_children l d (cons c cs) in
      d'.padding.bytes + d'.size.bytes + d'.lookahead_bytes ≡ furthest 0 (cons c cs)
unfolding summarize_children furthest
summarize_children_lookahead l d c cs h =
    let a = alias_sequence l d.production_id in
    let z : furthest (0 + width c) cs ≡ furthest (width c) cs =
      ap (λ n. furthest n cs) (omega arith) in
    let st = first-lookahead l a (reset d) c (omega arith) in
    let s =
      summarize_child l a true
        (record { self = reset d; structural_index = 0; lookahead_end_byte = 0 }) c in
    let r =
      rest-lookahead l a s cs (omega (arith, st)) (omega (arith, st))
        (rw (st.0) (omega (arith, z))) in
    omega (arith, z, r, st, ap (λ n. furthest n cs) (st.0))
