-- ===== src/Stack/Counts/New.antt =====
-- New pointers to a node of the stack: another one to a node, and the first one to a new node.
use tree_sitter.Prelude.{
  ℕ, zero, suc, ◌+◌, ◌≤◌, ◌<◌, ◌≡◌, refl, ap, ◌∙◌, Bool, Option, none, some, List, [], ◌∷◌, ◌++◌,
  ◌==◌, if◌then◌else◌, length, get_elem?, set, arith, length-set, length-append, ne→==, add32,
  u32_mod, get_elem?-set_self, get_elem?-set_ne, get_elem?-of_lt, get_elem?-append_new,
}
use tree_sitter.Prelude.Run.{ok, ◌>>=◌}
use tree_sitter.Subtree.{Subtree}
use tree_sitter.Stack.{
  total, StackNode, StackLink, Store, load, put, alloc, pushed_value, stack_node_new,
  stack_node_retain,
}
use tree_sitter.Stack.Counts.{
  one, times, link_times, held, incoming, count_of, Counted, count_of-get, get-count_of,
  count_of-set, incoming-set, total-set,
}

count_of-append :
    (ns : List StackNode) (n : StackNode) (q : ℕ)
    → count_of (ns ++ n ∷ []) q ≡ (if length ns == q then n.ref_count else count_of ns q)
unfolding count_of
count_of-append [] n zero = refl
count_of-append [] n (suc q) = ground arith
count_of-append (x ∷ ns) n zero = ground arith
count_of-append (x ∷ ns) n (suc q) = ground (arith, count_of-append ns n q)

incoming-append :
    (ns : List StackNode) (n : StackNode) (q : ℕ)
    → incoming q (ns ++ n ∷ []) ≡ incoming q ns + held q n
unfolding incoming
incoming-append [] n q = omega arith
incoming-append (x ∷ ns) n q = omega (arith, incoming-append ns n q)

total-append : (ns : List StackNode) (n : StackNode) → total (ns ++ n ∷ []) ≡ total ns + n.ref_count
unfolding total
total-append [] n = omega arith
total-append (x ∷ ns) n = omega (arith, total-append ns n)

get-append_old :
    (ns : List StackNode) (n m : StackNode) (q : ℕ)
    → get_elem? ns q ≡ some m
    → get_elem? (ns ++ n ∷ []) q ≡ some m
get-append_old [] n m q h = cc
get-append_old (x ∷ ns) n m zero h = h
get-append_old (x ∷ ns) n m (suc q) h = get-append_old ns n m q h

count_of-none : (ns : List StackNode) (q : ℕ) → length ns ≤ q → count_of ns q ≡ 0
unfolding count_of
count_of-none [] q h = refl
count_of-none (x ∷ ns) zero h = absurd (omega arith)
count_of-none (x ∷ ns) (suc q) h = count_of-none ns q (omega arith)

-- The pointers that the new node holds come from outside.
alloc_append :
    (s : Store) (n : StackNode) (w : ℕ → ℕ)
    → n.ref_count ≡ 1
    → Counted s (λ q. link_times q n.links + w q)
    → Counted (record s { nodes = s.nodes ++ n ∷ [] }) (λ q. one (length s.nodes) q + w q)
alloc_append s n w e c =
    let last = count_of-none s.nodes (length s.nodes) (omega arith) in
    record {
      counts = λ q.
          ground
            (arith, count_of-append s.nodes n q, incoming-append s.nodes n q, c.counts q, last);
      once = c.once;
      unused = λ q h. ground (arith, count_of-append s.nodes n q, c.unused q h, c.inside q h);
      inside = λ q h. omega (arith, c.inside q h, length-append s.nodes (n ∷ []));
    }

alloc_again :
    (s : Store) (p : ℕ) (ps : List ℕ) (m n : StackNode) (w : ℕ → ℕ)
    → s.node_pool ≡ p ∷ ps
    → get_elem? s.nodes p ≡ some m
    → n.ref_count ≡ 1
    → Counted s (λ q. link_times q n.links + w q)
    → Counted (record { nodes = set s.nodes p n; node_pool = ps }) (λ q. one p q + w q)
alloc_again s p ps m n w e g k c =
    let t = λ (q : ℕ). ap (times q) e in
    let g' = count_of-get s.nodes p m g in
    let dead : count_of s.nodes p ≡ 0 = c.unused p (ground (arith, t p)) in
    record {
      counts = λ q. ground (
        arith,
        count_of-set m n s.nodes p q g,
        incoming-set m n s.nodes p q g,
        c.counts q,
        dead,
        g'.0,
      );
      once = λ q. omega (arith, t q, c.once q);
      unused = λ q h.
          ground
            (arith, t q, c.once q, c.unused q (omega (arith, t q)), count_of-set m n s.nodes p q g);
      inside = λ q h. omega (arith, t q, c.inside q (omega (arith, t q)), length-set s.nodes p n);
    }

-- What a new node leaves as it was: the nodes in use.
abbrev pub Extends : Store → Store → Type 0
Extends s s' =
    (q : ℕ) (n : StackNode)
    → 0 < n.ref_count
    → get_elem? s.nodes q ≡ some n
    → get_elem? s'.nodes q ≡ some n

abbrev Allocates : Store → StackNode → (ℕ → ℕ) → ℕ × Store → Type 0
Allocates s n w r =
    Counted r.1 (λ q. one r.0 q + w q)
    × (get_elem? r.1.nodes r.0 ≡ some n)
    × Extends s r.1
    × (total r.1.nodes ≡ total s.nodes + 1)

alloc-by :
    (s : Store) (n : StackNode) (w : ℕ → ℕ) (pool : List ℕ)
    → s.node_pool ≡ pool
    → n.ref_count ≡ 1
    → Counted s (λ q. link_times q n.links + w q)
    → Allocates s n w (elim pool [
      | [] ↦ (length s.nodes, record s { nodes = s.nodes ++ n ∷ [] })
      | p ∷ ps ↦ (p, record { nodes = set s.nodes p n; node_pool = ps })
    ])
alloc-by s n w [] e k c = (
  alloc_append s n w k c,
  get_elem?-append_new s.nodes n,
  (λ q m h. get-append_old s.nodes n m q),
  omega (arith, total-append s.nodes n),
)
alloc-by s n w (p ∷ ps) e k c =
    let t = ap (times p) e in
    let first : 0 < times p s.node_pool = ground (arith, t) in
    let i = c.inside p first in
    let (m, g) = get_elem?-of_lt s.nodes p i in
    let g' = count_of-get s.nodes p m g in
    (
      alloc_again s p ps m n w e g k c,
      get_elem?-set_self s.nodes p n i,
      (λ q x h j.
          get_elem?-set_ne s.nodes n (λ (a : p ≡ q).
            let b = count_of-get s.nodes q x j in
            omega (arith, b.0, c.unused p first, ap (count_of s.nodes) a))
          ∙ j),
      omega (arith, total-set m n s.nodes p g, g'.0, c.unused p first),
    )

pub alloc_lem :
    (s : Store) (n : StackNode) (w : ℕ → ℕ)
    → n.ref_count ≡ 1
    → Counted s (λ q. link_times q n.links + w q)
    → Allocates s n w (alloc s n)
unfolding alloc
alloc_lem s n w k c = alloc-by s n w s.node_pool refl k c

pub pushed_value-links :
    (n : StackNode) (p : ℕ) (t : Option Subtree) (b : Bool) (state q : ℕ)
    → ((pushed_value n p t b state).ref_count ≡ 1)
      × (link_times q (pushed_value n p t b state).links ≡ one p q)
unfolding pushed_value
pushed_value-links n p none b state q = (refl, omega arith)
pushed_value-links n p (some t) b state q = (refl, omega arith)

abbrev pub link_to : ℕ → Option Subtree → Bool → StackLink
link_to p t b = record { node = p; subtree = t; is_pending = b }

pub pushed_value-link :
    (n : StackNode) (p : ℕ) (t : Option Subtree) (b : Bool) (state : ℕ)
    → (pushed_value n p t b state).links ≡ link_to p t b ∷ []
unfolding pushed_value
pushed_value-link n p none b state = refl
pushed_value-link n p (some t) b state = refl

-- A new node takes the place of the pointer to the previous node: the node is counted once, it holds
-- the pointer to the previous node, nodes in use are not touched, and there is one more pointer.
pub stack_node_new_lem :
    (s : Store) (p : ℕ) (t : Option Subtree) (is_pending : Bool) (state : ℕ) (outside : ℕ → ℕ)
    → Counted s (λ q. one p q + outside q)
    → (n : StackNode) × (r : ℕ × Store) × (get_elem? s.nodes p ≡ some n)
      × (stack_node_new s (some p) t is_pending state ≡ ok r)
      × Counted r.1 (λ q. one r.0 q + outside q)
      × (get_elem? r.1.nodes r.0 ≡ some (pushed_value n p t is_pending state))
      × Extends s r.1
      × (total r.1.nodes ≡ total s.nodes + 1)
unfolding stack_node_new load
stack_node_new_lem s p t b state w c =
    let in_use : 0 < count_of s.nodes p = ground (arith, c.counts p) in
    let (n, g) = get-count_of s.nodes p in_use in
    let v = pushed_value n p t b state in
    let links = pushed_value-links n p t b state in
    let a = alloc_lem s v w (links 0).0 (record {
      counts = λ q. omega (arith, c.counts q, (links q).1);
      once = c.once;
      unused = c.unused;
      inside = c.inside;
    }) in
    (n, alloc s v, g, rw (g, ◌>>=◌), a.0, a.1, a.2, a.3)

-- Another pointer to a node in use, whose count does not overflow.
pub stack_node_retain_lem :
    (s : Store) (p : ℕ) (outside : ℕ → ℕ)
    → Counted s outside
    → 0 < count_of s.nodes p
    → count_of s.nodes p + 1 < u32_mod
    → (s' : Store) × (stack_node_retain s p ≡ ok s') × Counted s' (λ q. one p q + outside q)
unfolding stack_node_retain load
stack_node_retain_lem s p w c h k =
    let (n, g) = get-count_of s.nodes p h in
    let g' = count_of-get s.nodes p n g in
    let n' = record n { ref_count = add32 n.ref_count 1 } in
    let e = λ (q : ℕ). count_of-set n n' s.nodes p q g in
    (
      put s p n',
      rw (
        g,
        ◌>>=◌,
        ne→== n.ref_count 0 (omega (arith, g'.0)),
        ne→== (add32 n.ref_count 1) 0 (omega (arith, g'.0)),
      ),
      record {
        counts = λ q. ground (arith, e q, c.counts q, incoming-set n n' s.nodes p q g, g'.0);
        once = c.once;
        unused = λ q l. ground (arith, e q, c.unused q l, g'.0);
        inside = λ q l. omega (arith, c.inside q l, length-set s.nodes p n');
      },
    )
