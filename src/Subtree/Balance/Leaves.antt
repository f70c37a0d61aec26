-- ===== src/Subtree/Balance/Leaves.antt =====
-- Balancing ends, and keeps the sequence of leaves.
use tree_sitter.Prelude.{
  ℕ, zero, suc, ◌-◌, ◌/◌, ◌≤◌, ◌<◌, ◌≡◌, refl, ap₂, ◌∙◌, Option, none, some, ◌++◌, arith, ltb, ◌==◌,
  Bool-cases, inl, inr, ◌&&◌, ==_iff,
}
use mathlib.Core.Path.{subst}
use tree_sitter.Language.{Language}
use tree_sitter.Subtree.{Subtree, Subtrees, inline, heap, nil, cons, repeat_depth}
use tree_sitter.Subtree.Summary.{last_of}
use tree_sitter.Subtree.External.Laws.{leaves}
use tree_sitter.Subtree.Compare.Loop.{nodes, nodes_all}
use tree_sitter.Subtree.Balance.{
  Rotation, rotation, turned, unwind, compress_from, compress, compress_halves, balance_node, each,
  each_child, is_unshared_node, balance,
}
use tree_sitter.Subtree.Balance.Turns.{Same, SameAll, Kept, Fits, rotation-Fits, unwind-Kept}

round-Kept :
    (l : Language) (t : Subtree) (f : Subtree → Subtree) (o : Option Rotation)
    → ((t : Subtree) → Kept t (f t))
    → Fits t o
    → Kept t (elim o [ none ↦ t | some r ↦ unwind l r.tree (f (turned r)) r.others ])
round-Kept l t f none ih h = ((refl, refl), (λ h. h), λ h. h)
round-Kept l t f (some r) ih h =
    subst (λ x. Kept x (unwind l r.tree (f (turned r)) r.others)) h
      (unwind-Kept l r (f (turned r)) (ih (turned r)))

compress_from-Kept :
    (l : Language) (symbol n : ℕ) (t : Subtree) → Kept t (compress_from l symbol n t)
unfolding compress_from
compress_from-Kept l symbol zero t = ((refl, refl), (λ h. h), λ h. h)
compress_from-Kept l symbol (suc n) t =
    round-Kept l t (compress_from l symbol n) (rotation symbol t) (compress_from-Kept l symbol n)
      (rotation-Fits symbol t)

compress-Same : (l : Language) (n : ℕ) (t : Subtree) → Same t (compress l n t)
unfolding compress
compress-Same l n (inline d) = (compress_from-Kept l d.symbol n (inline d)).0
compress-Same l n (heap d cs) = (compress_from-Kept l d.symbol n (heap d cs)).0

Same-trans : (a b c : Subtree) → Same a b → Same b c → Same a c
Same-trans a b c h k = (k.0 ∙ h.0, k.1 ∙ h.1)

compress_halves-Same :
    (fuel : ℕ) (l : Language) (i : ℕ) (t : Subtree)
    → i ≤ fuel
    → (t' : Subtree) × (compress_halves fuel l i t ≡ some t') × Same t t'
unfolding compress_halves
compress_halves-Same zero l i t h = (t, rw ((==_iff i 0).1 (omega arith)), (refl, refl))
compress_halves-Same (suc fuel) l i t h = elim (Bool-cases (i == 0)) [
  | inl e ↦ (t, rw e, (refl, refl))
  | inr e ↦
      let c = compress l i t in
      let (t', p, q) = compress_halves-Same fuel l (i / 2) c (ground arith) in
      (t', rw (e, p), Same-trans t c t' (compress-Same l i t) q)
]

balance_node-Same :
    (l : Language) (t : Subtree) → (t' : Subtree) × (balance_node l t ≡ some t') × Same t t'
unfolding balance_node
balance_node-Same l (inline d) = (inline d, refl, (refl, refl))
balance_node-Same l (heap d nil) = (heap d nil, refl, (refl, refl))
balance_node-Same l (heap d (cons c cs)) =
    let t = heap d (cons c cs) in
    let delta = repeat_depth c - repeat_depth (last_of c cs) in
    elim (Bool-cases (ltb 0 d.repeat_depth && ltb 0 delta)) [
      | inl e ↦
          (let h = compress_halves-Same delta l (delta / 2) t (omega arith) in
            (h.0, rw (e, h.1), h.2))
      | inr e ↦ (t, rw e, (refl, refl))
    ]

module _ (f : Subtree → Option Subtree) (n : ℕ)
    (ih : (t : Subtree) → nodes t < n → (t' : Subtree) × (f t ≡ some t') × Same t t') where
  each-SameAll :
      (cs : Subtrees)
      → nodes_all cs < n
      → (cs' : Subtrees) × (each f cs ≡ some cs') × SameAll cs cs'
  unfolding each leaves nodes
  each-SameAll nil h = (nil, refl, (refl, refl))
  each-SameAll (cons c cs) h =
      let (c', p, q) = ih c (omega arith) in
      let (cs', p', q') = each-SameAll cs (omega arith) in
      (cons c' cs', rw (each, p, p'), (ap₂ (λ x y. x ++ y) q.0 q'.0, omega (arith, q.1, q'.1)))

  each_child-Same :
      (t : Subtree) → nodes t ≤ n → (t' : Subtree) × (each_child f t ≡ some t') × Same t t'
  unfolding each_child each leaves nodes
  each_child-Same (inline d) h = (inline d, refl, (refl, refl))
  each_child-Same (heap d nil) h = (heap d nil, refl, (refl, refl))
  each_child-Same (heap d (cons c cs)) h =
      let (c', p, q) = ih c (omega arith) in
      let (cs', p', q') = each-SameAll cs (omega arith) in
      (
        heap d (cons c' cs'),
        rw (each, p, p'),
        (ap₂ (λ x y. x ++ y) q.0 q'.0, omega (arith, q.1, q'.1)),
      )

-- With more fuel than the tree has nodes, balancing ends, and leaves the tree with the same leaves in
-- the same order, and with as many nodes.
pub balance_keeps_leaves :
    (fuel : ℕ) (l : Language) (t : Subtree)
    → nodes t < fuel
    → (t' : Subtree) × (balance fuel l t ≡ some t') × Same t t'
unfolding balance
balance_keeps_leaves zero l t h = elim h [ ]
balance_keeps_leaves (suc fuel) l t h = elim (Bool-cases (is_unshared_node t)) [
  | inr e ↦ (t, rw e, (refl, refl))
  | inl e ↦
      let (b, p, q) = balance_node-Same l t in
      let (t', p', q') =
        each_child-Same (balance fuel l) fuel (balance_keeps_leaves fuel l) b
          (omega (arith, q.1)) in
      (t', rw (e, p, p'), Same-trans t b t' q q')
]
