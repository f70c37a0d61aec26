-- ===== src/Stack/Versions/Owned.antt =====
-- The heads of the stack own the nodes that they point to: every operation on versions that exist
-- succeeds, and the counts of the nodes stay right.
use tree_sitter.Prelude.{
  ℕ, zero, suc, ◌+◌, ◌<◌, ◌≡◌, ap, some, List, [], ◌∷◌, ◌++◌, length, get_elem?, set, arith,
  get_elem?-of_lt,
}
use tree_sitter.Prelude.Run.{Run, ok, ◌>>=◌}
use mathlib.Core.Option.{some_inj}
use tree_sitter.Stack.{StackNode, Store, total, load, release}
use tree_sitter.Stack.Counts.{one, count_of, Counted, count_of-get, get-count_of}
use tree_sitter.Stack.Counts.Release.{stack_node_release_lem, Counted-along}
use tree_sitter.Stack.Versions.{Stack, StackHead, head_at, head_node, erase, put_head}

abbrev pub head_times : ℕ → List StackHead → ℕ
head_times q [] = 0
head_times q (h ∷ hs) = one h.node q + head_times q hs

-- The pointers from outside of the nodes are those of the heads and the one to the base node.
abbrev pub Owned : Stack → Type 0
Owned s = Counted s.store (λ q. one s.base_node q + head_times q s.heads)

pub head_times-set :
    (hs : List StackHead) (v : ℕ) (h h' : StackHead) (q : ℕ)
    → get_elem? hs v ≡ some h
    → head_times q (set hs v h') + one h.node q ≡ head_times q hs + one h'.node q
head_times-set [] v h h' q g = cc
head_times-set (x ∷ hs) zero h h' q g =
    let e = ap (λ (y : StackHead). one y.node q) (some_inj.0 g) in omega (arith, e)
head_times-set (x ∷ hs) (suc v) h h' q g = omega (arith, head_times-set hs v h h' q g)

pub head_times-erase :
    (hs : List StackHead) (v : ℕ) (h : StackHead) (q : ℕ)
    → get_elem? hs v ≡ some h
    → head_times q (erase hs v) + one h.node q ≡ head_times q hs
unfolding erase
head_times-erase [] v h q g = cc
head_times-erase (x ∷ hs) zero h q g =
    let e = ap (λ (y : StackHead). one y.node q) (some_inj.0 g) in omega (arith, e)
head_times-erase (x ∷ hs) (suc v) h q g = omega (arith, head_times-erase hs v h q g)

pub head_times-append :
    (hs : List StackHead) (h : StackHead) (q : ℕ)
    → head_times q (hs ++ h ∷ []) ≡ head_times q hs + one h.node q
head_times-append [] h q = omega arith
head_times-append (x ∷ hs) h q = omega (arith, head_times-append hs h q)

-- a pointer that is given back
pub release_lem :
    (s : Store) (p : ℕ) (w : ℕ → ℕ)
    → Counted s (λ q. one p q + w q)
    → (s' : Store) × (release s p ≡ ok s') × Counted s' w
unfolding release
release_lem s p w c =
    let r = stack_node_release_lem (suc (total s.nodes)) s p w c (omega arith) in (r.0, r.1, r.2)

abbrev pub Has : Stack → ℕ → Type 0
Has s v = v < length s.heads

abbrev pub Keeps : Run Stack → Type 0
Keeps r = (s' : Stack) × (r ≡ ok s') × Owned s'

pub head_live :
    (s : Stack) (v : ℕ) (h : StackHead)
    → Owned s
    → get_elem? s.heads v ≡ some h
    → (n : StackNode) × (get_elem? s.store.nodes h.node ≡ some n) × (0 < n.ref_count)
head_live s v h o g =
    let e = head_times-erase s.heads v h h.node g in
    let in_use : 0 < count_of s.store.nodes h.node = ground (arith, o.counts h.node, e) in
    let (n, k) = get-count_of s.store.nodes h.node in_use in
    (n, k, omega (arith, count_of-get s.store.nodes h.node n k))

-- the head of a version, with the node that it points to
pub head_lem :
    (s : Stack) (v : ℕ)
    → Owned s
    → Has s v
    → (h : StackHead) × (n : StackNode) × (get_elem? s.heads v ≡ some h)
      × (get_elem? s.store.nodes h.node ≡ some n)
      × (head_node s v ≡ ok (h, n))
unfolding head_node head_at load
head_lem s v o i =
    let (h, g) = get_elem?-of_lt s.heads v i in
    let (n, k, _) = head_live s v h o g in (h, n, g, k, rw (g, ◌>>=◌, k))

-- A head is changed, but not its node.
pub put_head-Owned :
    (s : Stack) (v : ℕ) (h h' : StackHead)
    → get_elem? s.heads v ≡ some h
    → h'.node ≡ h.node
    → Owned s
    → Owned (put_head s v h')
put_head-Owned s v h h' g e o =
    Counted-along s.store (λ q. one s.base_node q + head_times q s.heads)
      (λ q. one s.base_node q + head_times q (set s.heads v h'))
      (λ q. omega (arith, head_times-set s.heads v h h' q g, ap (λ p. one p q) e)) o
