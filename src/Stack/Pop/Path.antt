-- ===== src/Stack/Pop/Path.antt =====
-- Popping from a stack whose nodes have one link each, as far as the pop goes.
use tree_sitter.Prelude.{
  ℕ, zero, suc, ◌+◌, ◌<◌, ◌≡◌, ◌≢◌, ◌⊎◌, refl, sym, ap, ◌∙◌, true, none, some, List, [], ◌∷◌, ◌++◌,
  if◌then◌else◌, length, get_elem?, arith, ne→==, inl, inr, ==_iff, reverse, add32,
}
use tree_sitter.Prelude.Run.{ok, ◌>>=◌}
use mathlib.Core.Path.{subst}
use tree_sitter.Subtree.{Subtree, extra}
use tree_sitter.Stack.{StackLink, StackNode, Store, load}
use tree_sitter.Stack.Versions.{Stack, StackHead, head_at}
use tree_sitter.Stack.Pop.{
  StackIterator, Walk, follow, branch, visit, pass, walk, add_version, insert_slice, add_slice,
  pop_count_callback, pop_count, go_on, pop_and_stop,
}

-- The links of a path from a node to another, each of them the only one of its node. The nodes are in
-- use.
abbrev pub Chain : Store → ℕ → List StackLink → ℕ → Type 0
Chain s p [] q = (n : StackNode) × (get_elem? s.nodes p ≡ some n) × (0 < n.ref_count) × (p ≡ q)
Chain s p (l ∷ ls) q =
    (n : StackNode) × (get_elem? s.nodes p ≡ some n)
    × (0 < n.ref_count)
    × (n.links ≡ l ∷ [])
    × Chain s l.node ls q

abbrev pub counted : ℕ → StackLink → ℕ
counted c l = elim l.subtree [ none ↦ add32 c 1 | some t ↦ if extra t then c else add32 c 1 ]

-- The count comes to the goal with the last link, and not before.
abbrev pub Ends : ℕ → ℕ → List StackLink → Type 0
Ends c goal [] = c ≡ goal
Ends c goal (l ∷ ls) = (c ≢ goal) × Ends (counted c l) goal ls

abbrev pub link_subtrees : List Subtree → List StackLink → List Subtree
link_subtrees ts [] = ts
link_subtrees ts (l ∷ ls) = link_subtrees (elim l.subtree [ none ↦ ts | some t ↦ ts ++ t ∷ [] ]) ls

follow_lem :
    (it : StackIterator) (l : StackLink)
    → ((follow true it l).node ≡ l.node)
      × ((follow true it l).subtree_count ≡ counted it.subtree_count l)
      × ((follow true it l).subtrees
          ≡ elim l.subtree [ none ↦ it.subtrees | some t ↦ it.subtrees ++ t ∷ [] ])
unfolding follow
follow_lem it l = (ground arith, ground arith, ground arith)

List-cases {ℓ} :
    {A : Type ℓ} (xs : List A) → (xs ≡ []) ⊎ ((x : A) × (rest : List A) × (xs ≡ x ∷ rest))
List-cases [] = inl refl
List-cases (x ∷ xs) = inr (x, xs, refl)

module _ (s : Stack) (version goal : ℕ) where
  abbrev begin : Walk ℕ
  begin = record { stack = s; slices = []; payload = goal }

  callback_goes :
      (it : StackIterator) (n : StackNode)
      → it.subtree_count ≢ goal
      → pop_count_callback goal it n ≡ (go_on, goal)
  unfolding pop_count_callback
  callback_goes it n h = rw (ne→== it.subtree_count goal h)

  callback_stops :
      (it : StackIterator) (n : StackNode)
      → it.subtree_count ≡ goal
      → pop_count_callback goal it n ≡ (pop_and_stop, goal)
  unfolding pop_count_callback
  callback_stops it n h = rw ((==_iff it.subtree_count goal).1 h)

  visit_link :
      (size : ℕ) (it : StackIterator) (n : StackNode) (l : StackLink)
      → get_elem? s.store.nodes it.node ≡ some n
      → n.links ≡ l ∷ []
      → it.subtree_count ≢ goal
      → visit pop_count_callback true version size begin it ≡ ok (begin, follow true it l ∷ [], [])
  unfolding visit load branch
  visit_link size it n l g e h = rw (g, ◌>>=◌, callback_goes it n h, e, callback_goes it n h, e)

  add_slice_lem :
      (node : ℕ) (ts : List Subtree) (r : ℕ × Stack)
      → add_version s version node ≡ ok r
      → add_slice s [] version node ts ≡ ok (r.1, (record { subtrees = ts; version = r.0 }) ∷ [])
  unfolding add_slice insert_slice
  add_slice_lem node ts r h = rw (h, ◌>>=◌)

  abbrev pub finish : ℕ × Stack → List Subtree → Walk ℕ
  finish r ts = record {
    stack = r.1;
    slices = (record { subtrees = reverse ts; version = r.0 }) ∷ [];
    payload = goal;
  }

  visit_last :
      (size : ℕ) (it : StackIterator) (n : StackNode) (r : ℕ × Stack)
      → get_elem? s.store.nodes it.node ≡ some n
      → it.subtree_count ≡ goal
      → add_version s version it.node ≡ ok r
      → visit pop_count_callback true version size begin it ≡ ok (finish r it.subtrees, [], [])
  unfolding visit load
  visit_last size it n r g e h =
      let stops = callback_stops it n e in
      let added = add_slice_lem it.node (reverse it.subtrees) r h in
      elim (List-cases n.links) [
        | inl k ↦ rw (g, ◌>>=◌, stops, added, k, stops)
        | inr (l, ls, k) ↦ rw (g, ◌>>=◌, stops, added, k, stops)
      ]

  walk-Chain :
      (ls : List StackLink) (fuel : ℕ) (it : StackIterator) (q : ℕ) (r : ℕ × Stack)
      → Chain s.store it.node ls q
      → Ends it.subtree_count goal ls
      → add_version s version q ≡ ok r
      → length ls + 1 < fuel
      → walk pop_count_callback true version fuel (it ∷ []) begin
        ≡ ok (finish r (link_subtrees it.subtrees ls))
  unfolding walk pass
  walk-Chain ls zero it q r c e h f = absurd (omega arith)
  walk-Chain [] (suc zero) it q r c e h f = absurd (omega arith)
  walk-Chain [] (suc (suc fuel)) it q r (n, g, _, k) e h f =
      rw (visit_last 1 it n r g e (ap (add_version s version) k ∙ h))
  walk-Chain (l ∷ ls) (suc fuel) it q r (n, g, _, k, c) e h f =
      let m = follow_lem it l in
      let ih =
        walk-Chain ls fuel (follow true it l) q r (subst (λ p. Chain s.store p ls q) (sym m.0) c)
          (subst (λ i. Ends i goal ls) (sym m.1) e.1) h (omega arith) in
      rw (visit_link 1 it n l g k e.0) (ih ∙ ap (λ ts. ok (finish r (link_subtrees ts ls))) m.2)

-- Where each node is in use and has one link, down to the last of the links that the goal counts, popping so many
-- subtrees gives one slice, the subtrees of the links from the last to the first, in a new version
-- that points to the node behind them, with fuel for two rounds more than the links.
pub pop_count_lem :
    (s : Stack) (version goal fuel : ℕ) (h : StackHead) (ls : List StackLink) (q : ℕ)
    (r : ℕ × Stack)
    → get_elem? s.heads version ≡ some h
    → Chain s.store h.node ls q
    → Ends 0 goal ls
    → add_version s version q ≡ ok r
    → length ls + 1 < fuel
    → pop_count fuel s version goal ≡ ok (finish s version goal r (link_subtrees [] ls))
unfolding pop_count head_at
pop_count_lem s version goal fuel h ls q r g c e a f =
    rw (g, ◌>>=◌)
      (walk-Chain s version goal ls fuel
        (record { node = h.node; subtrees = []; subtree_count = 0; is_pending = true }) q r c e a f)
