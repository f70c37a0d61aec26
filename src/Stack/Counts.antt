-- ===== src/Stack/Counts.antt =====
-- The reference counts of the stack's nodes: each node's count is the number of pointers to it.
pub mod New
pub mod Release
use tree_sitter.Prelude.{
  ℕ, zero, suc, ◌+◌, ◌-◌, ◌≤◌, ◌<◌, ◌≡◌, refl, ap, Option, none, some, List, [], ◌∷◌, ◌++◌, ◌==◌,
  if◌then◌else◌, length, get_elem?, set, arith, map,
}
use mathlib.Core.Option.{some_inj}
use tree_sitter.Stack.{StackNode, StackLink, Store, total}

abbrev pub one : ℕ → ℕ → ℕ
one p q = if p == q then 1 else 0

abbrev pub times : ℕ → List ℕ → ℕ
times q [] = 0
times q (p ∷ ps) = one p q + times q ps

abbrev pub link_times : ℕ → List StackLink → ℕ
link_times q [] = 0
link_times q (l ∷ ls) = one l.node q + link_times q ls

-- the pointers to `q` that a node in use holds
abbrev pub held : ℕ → StackNode → ℕ
held q n = if n.ref_count == 0 then 0 else link_times q n.links

unfoldable pub incoming : ℕ → List StackNode → ℕ
incoming q [] = 0
incoming q (n ∷ ns) = held q n + incoming q ns

-- the count of a node, 0 where there is none
unfoldable pub count_of : List StackNode → ℕ → ℕ
count_of [] q = 0
count_of (n ∷ ns) zero = n.ref_count
count_of (n ∷ ns) (suc q) = count_of ns q

-- Each count is the number of pointers from outside and from other nodes in use, and the pool holds
-- nodes that are not in use, each of them once.
pub record Counted (s : Store) (outside : ℕ → ℕ) : Type 0 where
  pub counts : (q : ℕ) → count_of s.nodes q ≡ outside q + incoming q s.nodes
  pub once : (q : ℕ) → times q s.node_pool ≤ 1
  pub unused : (q : ℕ) → 0 < times q s.node_pool → count_of s.nodes q ≡ 0
  pub inside : (q : ℕ) → 0 < times q s.node_pool → q < length s.nodes

pub count_of-get :
    (ns : List StackNode) (p : ℕ) (n : StackNode)
    → get_elem? ns p ≡ some n
    → (count_of ns p ≡ n.ref_count) × (p < length ns)
unfolding count_of
count_of-get [] p n h = cc
count_of-get (x ∷ ns) zero n h = (ap StackNode.ref_count (some_inj.0 h), omega arith)
count_of-get (x ∷ ns) (suc p) n h = let ih = count_of-get ns p n h in (ih.0, omega (arith, ih.1))

pub get-count_of :
    (ns : List StackNode) (p : ℕ) → 0 < count_of ns p → (n : StackNode) × (get_elem? ns p ≡ some n)
unfolding count_of
get-count_of [] p h = absurd (omega arith)
get-count_of (x ∷ ns) zero h = (x, refl)
get-count_of (x ∷ ns) (suc p) h = get-count_of ns p h

module _ (n n' : StackNode) where
  pub count_of-set :
      (ns : List StackNode) (p q : ℕ)
      → get_elem? ns p ≡ some n
      → count_of (set ns p n') q ≡ (if p == q then n'.ref_count else count_of ns q)
  unfolding count_of
  count_of-set [] p q h = cc
  count_of-set (x ∷ ns) zero zero h = refl
  count_of-set (x ∷ ns) zero (suc q) h = ground arith
  count_of-set (x ∷ ns) (suc p) zero h = ground arith
  count_of-set (x ∷ ns) (suc p) (suc q) h = ground (arith, count_of-set ns p q h)

  pub incoming-set :
      (ns : List StackNode) (p q : ℕ)
      → get_elem? ns p ≡ some n
      → incoming q (set ns p n') + held q n ≡ incoming q ns + held q n'
  unfolding incoming
  incoming-set [] p q h = cc
  incoming-set (x ∷ ns) zero q h = let e = ap (held q) (some_inj.0 h) in omega (arith, e)
  incoming-set (x ∷ ns) (suc p) q h = omega (arith, incoming-set ns p q h)

  pub total-set :
      (ns : List StackNode) (p : ℕ)
      → get_elem? ns p ≡ some n
      → total (set ns p n') + n.ref_count ≡ total ns + n'.ref_count
  unfolding total
  total-set [] p h = cc
  total-set (x ∷ ns) zero h = let e = ap StackNode.ref_count (some_inj.0 h) in omega (arith, e)
  total-set (x ∷ ns) (suc p) h = omega (arith, total-set ns p h)

pub count_of-le-total : (ns : List StackNode) (q : ℕ) → count_of ns q ≤ total ns
unfolding count_of total
count_of-le-total [] q = omega arith
count_of-le-total (n ∷ ns) zero = omega arith
count_of-le-total (n ∷ ns) (suc q) = omega (arith, count_of-le-total ns q)
