-- ===== src/Subtree/Balance/Turns.antt =====
-- A rotation of a repetition with its summaries keeps the leaves and the number of nodes.
use tree_sitter.Prelude.{
  ℕ, suc, ◌+◌, ◌≡◌, refl, sym, ap, ◌∙◌, Bool, true, false, Option, none, some, List, [], ◌∷◌, ◌++◌,
  arith, ◌==◌, if◌then◌else◌, ◌&&◌,
}
use tree_sitter.Language.{Language}
use tree_sitter.Subtree.{Subtree, Subtrees, HeapData, inline, heap, nil, cons}
use tree_sitter.Subtree.Summary.{last_of}
use tree_sitter.Subtree.External.Laws.{leaves, leaves_all}
use tree_sitter.Subtree.Compare.Loop.{nodes, nodes_all}
use tree_sitter.Subtree.Balance.{
  Rotation, is_own, before_last, snoc, rotation, turned, resummarize, resummarize_last, with_last,
  unwind,
}

-- two trees with the same leaves in the same order, and equally many nodes
abbrev pub Same : Subtree → Subtree → Type 0
Same t t' = (leaves t' ≡ leaves t) × (nodes t' ≡ nodes t)

abbrev pub SameAll : Subtrees → Subtrees → Type 0
SameAll cs cs' = (leaves_all cs' ≡ leaves_all cs) × (nodes_all cs' ≡ nodes_all cs)

append_assoc {ℓ} : {A : Type ℓ} (xs ys zs : List A) → (xs ++ ys) ++ zs ≡ xs ++ (ys ++ zs)
append_assoc [] ys zs = refl
append_assoc (x ∷ xs) ys zs = ap (λ l. x ∷ l) (append_assoc xs ys zs)

append_nil {ℓ} : {A : Type ℓ} (xs : List A) → xs ++ [] ≡ xs
append_nil [] = refl
append_nil (x ∷ xs) = ap (λ l. x ∷ l) (append_nil xs)

leaves_all-snoc : (cs : Subtrees) (t : Subtree) → leaves_all (snoc cs t) ≡ leaves_all cs ++ leaves t
unfolding leaves snoc
leaves_all-snoc nil t = append_nil (leaves t)
leaves_all-snoc (cons c cs) t =
    ap (λ l. leaves c ++ l) (leaves_all-snoc cs t)
    ∙ sym (append_assoc (leaves c) (leaves_all cs) (leaves t))

nodes_all-snoc : (cs : Subtrees) (t : Subtree) → nodes_all (snoc cs t) ≡ nodes_all cs + nodes t
unfolding nodes snoc
nodes_all-snoc nil t = omega arith
nodes_all-snoc (cons c cs) t = omega (arith, nodes_all-snoc cs t)

leaves-snoc :
    (d : HeapData) (cs : Subtrees) (t : Subtree)
    → leaves (heap d (snoc cs t)) ≡ leaves_all cs ++ leaves t
unfolding leaves snoc
leaves-snoc d nil t = leaves_all-snoc nil t
leaves-snoc d (cons c cs) t = leaves_all-snoc (cons c cs) t

snoc-before_last :
    (c : Subtree) (cs : Subtrees) → snoc (before_last c cs) (last_of c cs) ≡ cons c cs
unfolding snoc before_last last_of
snoc-before_last c nil = refl
snoc-before_last c (cons d ds) = ap (cons c) (snoc-before_last d ds)

-- the tree that a rotation takes apart
abbrev pub whole : Rotation → Subtree
whole r =
    heap r.tree
      (cons (heap r.child (cons (heap r.grandchild (snoc r.before r.last)) r.rest)) r.others)

abbrev pub Fits : Subtree → Option Rotation → Type 0
Fits t none = Unit
Fits t (some r) = whole r ≡ t

pub rotation-Fits : (symbol : ℕ) (t : Subtree) → Fits t (rotation symbol t)
unfolding rotation
rotation-Fits symbol (inline d) = tt
rotation-Fits symbol (heap d nil) = tt
rotation-Fits symbol (heap d (cons (inline c) others)) = tt
rotation-Fits symbol (heap d (cons (heap c nil) others)) = tt
rotation-Fits symbol (heap d (cons (heap c (cons (inline g) rest)) others)) = tt
rotation-Fits symbol (heap d (cons (heap c (cons (heap g nil) rest)) others)) = tt
rotation-Fits symbol (heap d (cons (heap c (cons (heap g (cons x xs)) rest)) others)) = fits (
    is_own d (cons (heap c (cons (heap g (cons x xs)) rest)) others)
    && is_own c (cons (heap g (cons x xs)) rest)
    && c.symbol == symbol
    && is_own g (cons x xs)
    && g.symbol == symbol)
  where
    fits :
        (b : Bool)
        → Fits (heap d (cons (heap c (cons (heap g (cons x xs)) rest)) others)) (
            if b
            then some (record {
              tree = d;
              child = c;
              grandchild = g;
              before = before_last x xs;
              last = last_of x xs;
              rest = rest;
              others = others;
            })
            else none)
    fits true =
        ap (λ ds. heap d (cons (heap c (cons (heap g ds) rest)) others)) (snoc-before_last x xs)
    fits false = tt

-- A node with children, and one whose last child has children.
abbrev pub Inner : Subtree → Type 0
Inner (inline d) = ⊥
Inner (heap d nil) = ⊥
Inner (heap d (cons c cs)) = Unit

abbrev pub LastInner : Subtrees → Type 0
LastInner nil = Unit
LastInner (cons c nil) = Inner c
LastInner (cons c (cons d ds)) = LastInner (cons d ds)

abbrev pub EndsInner : Subtree → Type 0
EndsInner (inline d) = Unit
EndsInner (heap d cs) = LastInner cs

abbrev pub Kept : Subtree → Subtree → Type 0
Kept t t' = Same t t' × (Inner t → Inner t') × (EndsInner t → EndsInner t')

resummarize-Same : (l : Language) (t : Subtree) → Inner t → Same t (resummarize l t)
unfolding resummarize leaves nodes
resummarize-Same l (inline d) h = absurd h
resummarize-Same l (heap d nil) h = absurd h
resummarize-Same l (heap d (cons c cs)) h = (refl, refl)

resummarize-Inner : (l : Language) (t : Subtree) → Inner t → Inner (resummarize l t)
unfolding resummarize
resummarize-Inner l (inline d) h = absurd h
resummarize-Inner l (heap d nil) h = absurd h
resummarize-Inner l (heap d (cons c cs)) h = tt

resummarize_last-SameAll :
    (l : Language) (cs : Subtrees) → LastInner cs → SameAll cs (resummarize_last l cs)
unfolding resummarize_last leaves nodes
resummarize_last-SameAll l nil h = (refl, refl)
resummarize_last-SameAll l (cons c nil) h =
    let k = resummarize-Same l c h in (ap (λ x. x ++ []) k.0, omega (arith, k.1))
resummarize_last-SameAll l (cons c (cons d ds)) h =
    let k = resummarize_last-SameAll l (cons d ds) h in
    (ap (λ x. leaves c ++ x) k.0, omega (arith, k.1))

with_last-Same : (l : Language) (t : Subtree) → EndsInner t → Same t (with_last l t)
unfolding with_last resummarize_last leaves nodes
with_last-Same l (inline d) h = (refl, refl)
with_last-Same l (heap d nil) h = (refl, refl)
with_last-Same l (heap d (cons c nil)) h =
    let k = resummarize_last-SameAll l (cons c nil) h in (k.0, ap suc k.1)
with_last-Same l (heap d (cons c (cons e es))) h =
    let k = resummarize_last-SameAll l (cons c (cons e es)) h in (k.0, ap suc k.1)

with_last-Inner : (l : Language) (t : Subtree) → Inner t → Inner (with_last l t)
unfolding with_last resummarize_last
with_last-Inner l (inline d) h = absurd h
with_last-Inner l (heap d nil) h = absurd h
with_last-Inner l (heap d (cons c nil)) h = tt
with_last-Inner l (heap d (cons c (cons e es))) h = tt

turned-Inner : (r : Rotation) → Inner (turned r)
unfolding turned snoc
turned-Inner r = snoc_inner r.grandchild r.before (heap r.child (cons r.last r.rest))
  where
    snoc_inner : (d : HeapData) (cs : Subtrees) (t : Subtree) → Inner (heap d (snoc cs t))
    snoc_inner d nil t = tt
    snoc_inner d (cons c cs) t = tt

LastInner-snoc : (cs : Subtrees) (t : Subtree) → Inner t → LastInner (snoc cs t)
unfolding snoc
LastInner-snoc nil t h = h
LastInner-snoc (cons c nil) t h = h
LastInner-snoc (cons c (cons d ds)) t h = LastInner-snoc (cons d ds) t h

turned-EndsInner : (r : Rotation) → EndsInner (turned r)
unfolding turned
turned-EndsInner r = LastInner-snoc r.before (heap r.child (cons r.last r.rest)) tt

turned-leaves : (r : Rotation) → leaves (turned r) ++ leaves_all r.others ≡ leaves (whole r)
unfolding turned leaves
turned-leaves r =
    ap (λ x. x ++ leaves_all r.others)
      (leaves-snoc r.grandchild r.before (heap r.child (cons r.last r.rest))
        ∙ sym (append_assoc (leaves_all r.before) (leaves r.last) (leaves_all r.rest))
        ∙ ap (λ x. x ++ leaves_all r.rest) (sym (leaves-snoc r.grandchild r.before r.last)))

turned-nodes : (r : Rotation) → suc (nodes (turned r) + nodes_all r.others) ≡ nodes (whole r)
unfolding turned nodes
turned-nodes r = omega (
  arith,
  nodes_all-snoc r.before (heap r.child (cons r.last r.rest)),
  nodes_all-snoc r.before r.last,
)

LastInner-first :
    (c c' : Subtree) (cs : Subtrees) → Inner c' → LastInner (cons c cs) → LastInner (cons c' cs)
LastInner-first c c' nil k h = k
LastInner-first c c' (cons d ds) k h = h

pub unwind-Kept :
    (l : Language) (r : Rotation) (g : Subtree)
    → Kept (turned r) g
    → Kept (whole r) (unwind l r.tree g r.others)
unfolding unwind resummarize leaves nodes
unwind-Kept l r g h =
    let inner = h.1 (turned-Inner r) in
    let a = with_last-Same l g (h.2 (turned-EndsInner r)) in
    let inner' = with_last-Inner l g inner in
    let b = resummarize-Same l (with_last l g) inner' in
    (
      (
        ap (λ x. x ++ leaves_all r.others) (b.0 ∙ a.0 ∙ h.0.0) ∙ turned-leaves r,
        omega (arith, a.1, b.1, h.0.1, turned-nodes r),
      ),
      λ _. tt,
      LastInner-first (heap r.child (cons (heap r.grandchild (snoc r.before r.last)) r.rest))
          (resummarize l (with_last l g)) r.others (resummarize-Inner l (with_last l g) inner'),
    )
