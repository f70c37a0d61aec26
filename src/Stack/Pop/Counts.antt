-- ===== src/Stack/Pop/Counts.antt =====
-- Popping adds versions to the stack, and keeps the counts of its nodes right.
use tree_sitter.Prelude.{
  ℕ, zero, suc, ◌+◌, ◌≤◌, ◌<◌, ◌≡◌, refl, Bool, true, false, not, ◌||◌, Option, none, some, List,
  [], ◌∷◌, ◌++◌, ◌==◌, if◌then◌else◌, length, get_elem?, arith, Bool-cases, inl, inr, add32,
  u32_mod, ltb, reverse, length-set, ltb→lt,
}
use tree_sitter.Prelude.Run.{
  Run, ok, fault, out_of_fuel, ◌>>=◌, Holds, Holds-if, Holds-bind, Holds-ok,
}
use tree_sitter.Subtree.{Subtree}
use tree_sitter.Stack.{StackNode, StackLink, Store, total, load, put, stack_node_retain}
use tree_sitter.Stack.Counts.{
  one, Counted, count_of, count_of-get, count_of-le-total, count_of-set, incoming-set,
}
use tree_sitter.Stack.Counts.Release.{Counted-along}
use tree_sitter.Stack.Versions.{
  Stack, StackHead, StackSummaryEntry, active, head_at, head_node, renumber_version,
}
use tree_sitter.Stack.Versions.Owned.{Owned, head_times, head_times-append, put_head-Owned}
use tree_sitter.Stack.Versions.Moves.{renumber-Keeps}
use tree_sitter.Stack.Pop.{
  StackIterator, StackSlice, StackCallback, Walk, add_version, add_slice, insert_slice, follow,
  branch, visit, pass, walk, iter, pop_count, pop_pending, pop_error, pop_all, record_summary,
  pop_count_callback, pop_pending_callback, pop_error_callback, pop_all_callback,
  summarize_stack_callback, has_error_link,
}

-- What is known of the value is enough for what follows.
pub Holds-then {ℓ κ} :
    {A : Type ℓ} {B : Type κ} (Q : A → Type 0) (P : B → Type 0) (r : Run A) (f : A → Run B)
    → Holds Q r
    → ((a : A) → Q a → Holds P (f a))
    → Holds P (r >>= f)
Holds-then Q P (ok a) f h k = k a h
Holds-then Q P fault f h k = tt
Holds-then Q P out_of_fuel f h k = tt

-- The counts are right, and fit 32 bits.
abbrev pub CountsFit : Store → (ℕ → ℕ) → Type 0
CountsFit s outside = Counted s outside × ((q : ℕ) → count_of s.nodes q < u32_mod)

retained-CountsFit :
    (s : Store) (p : ℕ) (outside : ℕ → ℕ) (n : StackNode)
    → CountsFit s outside
    → get_elem? s.nodes p ≡ some n
    → (n.ref_count == 0 || add32 n.ref_count 1 == 0) ≡ false
    → CountsFit (put s p (record n { ref_count = add32 n.ref_count 1 })) (λ q. one p q + outside q)
retained-CountsFit s p w n (c, small) g b =
    let n' = record n { ref_count = add32 n.ref_count 1 } in
    let g' = count_of-get s.nodes p n g in
    let e = λ (q : ℕ). count_of-set n n' s.nodes p q g in
    let k = small p in
    let bound : n.ref_count < u32_mod = omega (arith, g'.0, k) in
    let grows : (0 < n.ref_count)
        × (add32 n.ref_count 1 ≡ n.ref_count + 1)
        × (n.ref_count + 1 < u32_mod) =
      ground (arith, bound, b) in
    (
      record {
        counts = λ q. ground (arith, e q, c.counts q, incoming-set n n' s.nodes p q g, g'.0, grows);
        once = c.once;
        unused = λ q l. ground (arith, e q, c.unused q l, g'.0, grows);
        inside = λ q l. omega (arith, c.inside q l, length-set s.nodes p n');
      },
      λ q. ground (arith, e q, small q, grows),
    )

pub load-get : (s : Store) (p : ℕ) (n : StackNode) → load s p ≡ ok n → get_elem? s.nodes p ≡ some n
unfolding load
load-get s p n e = ground arith

-- A retain that passes its assertions counts the new pointer.
pub retain-CountsFit :
    (s : Store) (p : ℕ) (outside : ℕ → ℕ)
    → CountsFit s outside
    → Holds (λ s'. CountsFit s' (λ q. one p q + outside q)) (stack_node_retain s p)
unfolding stack_node_retain
retain-CountsFit s p w c =
    let P = λ (s' : Store). CountsFit s' (λ q. one p q + w q) in
    Holds-bind P (load s p) _ (λ n e.
      Holds-if P (n.ref_count == 0 || add32 n.ref_count 1 == 0) _ _ (λ _. tt)
        (λ b. retained-CountsFit s p w n c (load-get s p n e) b))

abbrev pub Fits : Stack → Type 0
Fits s = CountsFit s.store (λ q. one s.base_node q + head_times q s.heads)

add_version-Fits :
    (s : Stack) (v node : ℕ) → Fits s → Holds (λ (x : ℕ × Stack). Fits x.1) (add_version s v node)
unfolding add_version
add_version-Fits s v node c =
    let P = λ (x : ℕ × Stack). Fits x.1 in
    let w = λ (q : ℕ). one s.base_node q + head_times q s.heads in
    Holds-bind P (head_at s v) _ (λ h _.
      Holds-then (λ s'. CountsFit s' (λ q. one node q + w q)) P (stack_node_retain s.store node) _
        (retain-CountsFit s.store node w c)
        (λ store k. (
          Counted-along store (λ q. one node q + w q) _
              (λ q. omega (arith, head_times-append s.heads (added h) q)) k.0,
          k.1,
        )))
  where
    added : StackHead → StackHead
    added h = record h {
      node = node;
      summary = none;
      status = active;
      lookahead_when_paused = none;
    }

add_slice-Fits :
    (s : Stack) (slices : List StackSlice) (v node : ℕ) (ts : List Subtree)
    → Fits s
    → Holds (λ (x : Stack × List StackSlice). Fits x.0) (add_slice s slices v node ts)
unfolding add_slice
add_slice-Fits s slices v node ts c = by_slices (insert_slice s node ts slices)
  where
    by_slices :
        (o : Option (List StackSlice))
        → Holds
            (λ (x : Stack × List StackSlice). Fits x.0)
            (elim o [
              | some slices' ↦ ok (s, slices')
              | none ↦ (do
                (version, s') ← add_version s v node
                ok (s', slices ++ (record { subtrees = ts; version = version }) ∷ []))
            ])
    by_slices (some slices') = c
    by_slices none =
        Holds-then (λ (x : ℕ × Stack). Fits x.1) (λ (x : Stack × List StackSlice). Fits x.0)
          (add_version s v node) _ (add_version-Fits s v node c) (λ x k. k)

module _ {P : Type 0} (callback : StackCallback P) (include : Bool) (version : ℕ) where
  visit-Fits :
      (size : ℕ) (w : Walk P) (it : StackIterator)
      → Fits w.stack
      → Holds
          (λ (x : Walk P × List StackIterator × List StackIterator). Fits x.0.stack)
          (visit callback include version size w it)
  unfolding visit
  visit-Fits size w it c =
      let Q = λ (x : Walk P × List StackIterator × List StackIterator). Fits x.0.stack in
      Holds-bind Q (load w.stack.store it.node) _ (λ n _.
        let a = callback w.payload it n in
        Holds-then (λ (x : Stack × List StackSlice). Fits x.0) Q _ _
          (Holds-if (λ (x : Stack × List StackSlice). Fits x.0) a.0.pop
            (add_slice w.stack w.slices version it.node (reverse it.subtrees))
            (ok (w.stack, w.slices))
            (λ _. add_slice-Fits w.stack w.slices version it.node (reverse it.subtrees) c) (λ _. c))
          (λ x k.
            by_links n.links (a.0.stop || length n.links == 0)
              (record { stack = x.0; slices = x.1; payload = a.1 }) k))
    where
      by_links :
          (links : List StackLink) (stop : Bool) (w' : Walk P)
          → Fits w'.stack
          → Holds
              (λ (x : Walk P × List StackIterator × List StackIterator). Fits x.0.stack)
              (elim links [
                | [] ↦ ok (w', [], [])
                | l ∷ ls ↦
                    if stop
                    then ok (w', [], [])
                    else ok (w', follow include it l ∷ [], branch include size it ls)
              ])
      by_links [] stop w' k = k
      by_links (l ∷ ls) true w' k = k
      by_links (l ∷ ls) false w' k = k

  pass-Fits :
      (kept its added : List StackIterator) (w : Walk P)
      → Fits w.stack
      → Holds
          (λ (x : Walk P × List StackIterator). Fits x.0.stack)
          (pass callback include version kept its added w)
  unfolding pass
  pass-Fits kept [] added w c = c
  pass-Fits kept (it ∷ its) added w c =
      Holds-then (λ (x : Walk P × List StackIterator × List StackIterator). Fits x.0.stack)
        (λ (x : Walk P × List StackIterator). Fits x.0.stack)
        (visit callback include version (length kept + length (it ∷ its) + length added) w it) _
        (visit-Fits (length kept + length (it ∷ its) + length added) w it c)
        (λ x k. pass-Fits (kept ++ x.1) its (added ++ x.2) x.0 k)

  walk-Fits :
      (fuel : ℕ) (its : List StackIterator) (w : Walk P)
      → Fits w.stack
      → Holds (λ (x : Walk P). Fits x.stack) (walk callback include version fuel its w)
  unfolding walk
  walk-Fits zero its w c = tt
  walk-Fits (suc fuel) [] w c = c
  walk-Fits (suc fuel) (it ∷ its) w c =
      Holds-then (λ (x : Walk P × List StackIterator). Fits x.0.stack)
        (λ (x : Walk P). Fits x.stack) (pass callback include version [] (it ∷ its) [] w) _
        (pass-Fits [] (it ∷ its) [] w c) (λ x k. walk-Fits fuel x.1 x.0 k)

iter-Fits :
    {P : Type 0} (fuel : ℕ) (s : Stack) (v : ℕ) (callback : StackCallback P) (p : P)
    (include : Bool)
    → Fits s
    → Holds (λ (x : Walk P). Fits x.stack) (iter fuel s v callback p include)
unfolding iter
iter-Fits {P} fuel s v callback p include c =
    Holds-bind (λ (x : Walk P). Fits x.stack) (head_at s v) _
      (λ h _. walk-Fits callback include v fuel _ _ c)

get_elem?-of_ge {ℓ} : {A : Type ℓ} (xs : List A) (i : ℕ) → length xs ≤ i → get_elem? xs i ≡ none
get_elem?-of_ge [] i h = refl
get_elem?-of_ge (x ∷ xs) zero h = absurd (omega arith)
get_elem?-of_ge (x ∷ xs) (suc i) h = get_elem?-of_ge xs i (omega arith)

renumber-Owned : (s : Stack) (v1 v2 : ℕ) → Owned s → Holds Owned (renumber_version s v1 v2)
unfolding renumber_version head_at
renumber-Owned s v1 v2 o = elim (Bool-cases (v1 == v2)) [
  | inl e ↦ rw e o
  | inr e ↦ elim (Bool-cases (ltb v2 v1)) [
    | inr l ↦ rw (e, l) tt
    | inl l ↦ elim (Bool-cases (ltb v1 (length s.heads))) [
      | inl i ↦
          let (s', f, o') =
            renumber-Keeps s v1 v2 o (ltb→lt v1 (length s.heads) i) (ground (arith, l)) in
          rw f o'
      | inr i ↦ rw (e, l, get_elem?-of_ge s.heads v1 (ground (arith, i)), ◌>>=◌) tt
    ]
  ]
]

abbrev Popped : Stack × List StackSlice → Type 0
Popped x = Owned x.0

pop_pending-Owned :
    (fuel : ℕ) (s : Stack) (v : ℕ)
    → Fits s
    → Holds (λ (x : Stack × List StackSlice). Owned x.0) (pop_pending fuel s v)
unfolding pop_pending
pop_pending-Owned fuel s v c =
    Holds-then (λ (w : Walk (Unit {0})). Fits w.stack) Popped
      (iter fuel s v pop_pending_callback tt true) _
      (iter-Fits fuel s v pop_pending_callback tt true c) (λ w k. by_slices w.stack k.0 w.slices)
  where
    by_slices :
        (t : Stack)
        → Owned t
        → (slices : List StackSlice)
        → Holds Popped (elim slices [
          | [] ↦ ok (t, [])
          | x ∷ xs ↦ (do
            s' ← renumber_version t x.version v
            ok (s', (record x { version = v }) ∷ xs))
        ])
    by_slices t o [] = o
    by_slices t o (x ∷ xs) =
        Holds-then Owned Popped (renumber_version t x.version v) _ (renumber-Owned t x.version v o)
          (λ s' o'. o')

pop_error-Owned :
    (fuel : ℕ) (s : Stack) (v : ℕ)
    → Fits s
    → Holds (λ (x : Stack × List Subtree). Owned x.0) (pop_error fuel s v)
unfolding pop_error
pop_error-Owned fuel s v c =
    let Q = λ (x : Stack × List Subtree). Owned x.0 in
    Holds-bind Q (head_node s v) _ (λ h _.
      Holds-if Q (not (has_error_link h.1.links)) _ _ (λ _. c.0)
        (λ _.
          Holds-then (λ (w : Walk Bool). Fits w.stack) Q
            (iter fuel s v pop_error_callback false true) _
            (iter-Fits fuel s v pop_error_callback false true c)
            (λ w k. by_slices w.stack k.0 w.slices)))
  where
    by_slices :
        (t : Stack)
        → Owned t
        → (slices : List StackSlice)
        → Holds
            (λ (x : Stack × List Subtree). Owned x.0)
            (elim slices [
              | [] ↦ ok (t, [])
              | x ∷ [] ↦ (do s' ← renumber_version t x.version v; ok (s', x.subtrees))
              | x ∷ (y ∷ ys) ↦ fault
            ])
    by_slices t o [] = o
    by_slices t o (x ∷ []) =
        Holds-then Owned (λ (y : Stack × List Subtree). Owned y.0) (renumber_version t x.version v)
          _ (renumber-Owned t x.version v o) (λ s' o'. o')
    by_slices t o (x ∷ (y ∷ ys)) = tt

record_summary-Owned :
    (fuel : ℕ) (s : Stack) (v max_depth : ℕ)
    → Fits s
    → Holds Owned (record_summary fuel s v max_depth)
unfolding record_summary
record_summary-Owned fuel s v d c =
    Holds-then (λ (w : Walk (List StackSummaryEntry)). Fits w.stack) Owned
      (iter fuel s v (summarize_stack_callback d) [] false) _
      (iter-Fits fuel s v (summarize_stack_callback d) [] false c)
      (λ w k. Holds-bind Owned (head_at w.stack v) _ (λ h e.
        put_head-Owned w.stack v h (record h { summary = some w.payload })
          (head_at-get w.stack v h e) refl k.0))
  where
    head_at-get :
        (s : Stack) (v : ℕ) (h : StackHead) → head_at s v ≡ ok h → get_elem? s.heads v ≡ some h
    head_at-get s v h e = unfold head_at in ground arith

pub Fits-of_total : (s : Stack) → Owned s → total s.store.nodes < u32_mod → Fits s
Fits-of_total s o b = (o, λ q. omega (arith, count_of-le-total s.store.nodes q))

-- The calls that pop, along all paths, up to a count of subtrees, to a pending node, to an error or to
-- the base node, and the one that records a summary: the stacks that they lead from and to.
pub data Pops : Stack → Stack → Type 0 where
  pops_count :
      (s : Stack) (fuel version goal : ℕ) (w : Walk ℕ)
      → pop_count fuel s version goal ≡ ok w
      → Pops s w.stack
  pops_pending :
      (s s' : Stack) (fuel version : ℕ) (slices : List StackSlice)
      → pop_pending fuel s version ≡ ok (s', slices)
      → Pops s s'
  pops_error :
      (s s' : Stack) (fuel version : ℕ) (subtrees : List Subtree)
      → pop_error fuel s version ≡ ok (s', subtrees)
      → Pops s s'
  pops_all :
      (s : Stack) (fuel version : ℕ) (w : Walk (Unit {0}))
      → pop_all fuel s version ≡ ok w
      → Pops s w.stack
  records :
      (s s' : Stack) (fuel version max_depth : ℕ)
      → record_summary fuel s version max_depth ≡ ok s'
      → Pops s s'

-- In a stack whose nodes are counted right and have fewer than 2 ^ 32 pointers in all, what returns of
-- these calls leaves the nodes counted right, with the versions that are added for slices.
pub Pops-Owned : (s s' : Stack) → Pops s s' → Owned s → total s.store.nodes < u32_mod → Owned s'
unfolding pop_count pop_all
Pops-Owned s _ (pops_count _ fuel v goal w e) o b =
    (Holds-ok (λ (w : Walk ℕ). Fits w.stack) _ w
      (iter-Fits fuel s v pop_count_callback goal true (Fits-of_total s o b)) e).0
Pops-Owned s s' (pops_pending _ _ fuel v slices e) o b =
    Holds-ok (λ (x : Stack × List StackSlice). Owned x.0) _ (s', slices)
      (pop_pending-Owned fuel s v (Fits-of_total s o b)) e
Pops-Owned s s' (pops_error _ _ fuel v subtrees e) o b =
    Holds-ok (λ (x : Stack × List Subtree). Owned x.0) _ (s', subtrees)
      (pop_error-Owned fuel s v (Fits-of_total s o b)) e
Pops-Owned s _ (pops_all _ fuel v w e) o b =
    (Holds-ok (λ (w : Walk (Unit {0})). Fits w.stack) _ w
      (iter-Fits fuel s v pop_all_callback tt true (Fits-of_total s o b)) e).0
Pops-Owned s s' (records _ _ fuel v d e) o b =
    Holds-ok Owned _ s' (record_summary-Owned fuel s v d (Fits-of_total s o b)) e
