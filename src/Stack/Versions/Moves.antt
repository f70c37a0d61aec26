-- ===== src/Stack/Versions/Moves.antt =====
-- The calls that move pointers between the versions of the stack.
use tree_sitter.Prelude.{
  ℕ, zero, suc, ◌+◌, ◌≤◌, ◌<◌, ◌≡◌, ◌≢◌, refl, ap, ◌∙◌, Bool, Option, none, some, List, [], ◌∷◌,
  ◌++◌, ◌==◌, if◌then◌else◌, length, get_elem?, set, arith, lt→ltb, u32_mod, Bool-cases, inl, inr,
  ==_iff, get_elem?-set_ne, get_elem?-set_self, get_elem?-of_lt, length-set, get_elem?-of_lt,
}
use tree_sitter.Prelude.Run.{Run, ok, ◌>>=◌}
use tree_sitter.Subtree.{Subtree}
use tree_sitter.Stack.{StackNode, Store, total, load, pushed_value}
use tree_sitter.Stack.Counts.{one, Counted, count_of-le-total}
use tree_sitter.Stack.Counts.Release.{Counted-along}
use tree_sitter.Stack.Counts.New.{
  link_to, pushed_value-link, pushed_value-links, Extends, stack_node_new_lem,
  stack_node_retain_lem,
}
use tree_sitter.Stack.Versions.{
  Stack, StackHead, head_at, erase, moved, base_head, is_null, push, remove_version,
  renumber_version, swap_versions, copy_version, clear, release_heads,
}
use tree_sitter.Stack.Versions.Owned.{
  head_times, Owned, head_times-set, head_times-erase, head_times-append, release_lem, head_lem,
  Has, Keeps,
}

abbrev pub drop_result {ℓ} : {A : Type ℓ} → Run (A × Stack) → Run Stack
drop_result r = r >>= λ p. ok p.1

-- A push gives the version a new node with one link, to the node that it had.
pub push_lem :
    (s : Stack) (v : ℕ) (t : Option Subtree) (pending : Bool) (state : ℕ) (h : StackHead)
    → Owned s
    → get_elem? s.heads v ≡ some h
    → v < length s.heads
    → (s' : Stack) × (h' : StackHead) × (n : StackNode) × (push s v t pending state ≡ ok s')
      × Owned s'
      × (get_elem? s'.heads v ≡ some h')
      × (get_elem? s'.store.nodes h'.node ≡ some n)
      × (0 < n.ref_count)
      × (n.links ≡ link_to h.node t pending ∷ [])
      × Extends s.store s'.store
      × (total s'.store.nodes ≡ total s.store.nodes + 1)
      × (length s'.heads ≡ length s.heads)
unfolding push head_at load
push_lem s v t pending state h o g i =
    let (m, r, e, f, c, l, x, y) =
      stack_node_new_lem s.store h.node t pending state
        (λ q. one s.base_node q + head_times q (erase s.heads v))
        (Counted-along s.store _ _ (λ q. omega (arith, head_times-erase s.heads v h q g)) o) in
    let n = pushed_value m h.node t pending state in
    let h' = record h {
      node = r.0;
      node_count_at_last_error = if is_null t then n.node_count else h.node_count_at_last_error;
    } in
    (
      record s { heads = set s.heads v h'; store = r.1 },
      h',
      n,
      rw (g, ◌>>=◌, f, l),
      Counted-along r.1 (λ q. one r.0 q + (one s.base_node q + head_times q (erase s.heads v)))
          (λ q. one s.base_node q + head_times q (set s.heads v h'))
          (λ q. omega (arith, head_times-erase s.heads v h q g, head_times-set s.heads v h h' q g))
          c,
      get_elem?-set_self s.heads v h' i,
      l,
      omega (arith, (pushed_value-links m h.node t pending state 0).0),
      pushed_value-link m h.node t pending state,
      x,
      y,
      length-set s.heads v h',
    )

pub push-Keeps :
    (s : Stack) (v : ℕ) (t : Option Subtree) (pending : Bool) (state : ℕ)
    → Owned s
    → Has s v
    → Keeps (push s v t pending state)
push-Keeps s v t pending state o i =
    let (h, g) = get_elem?-of_lt s.heads v i in
    let r = push_lem s v t pending state h o g i in (r.0, r.3, r.4)

length-erase {ℓ} :
    {A : Type ℓ} (xs : List A) (i : ℕ) → i < length xs → length (erase xs i) + 1 ≡ length xs
unfolding erase
length-erase [] i h = omega arith
length-erase (x ∷ xs) zero h = omega arith
length-erase (x ∷ xs) (suc i) h = omega (arith, length-erase xs i (omega arith))

-- A removal takes the head out of the list.
pub remove_version_lem :
    (s : Stack) (v : ℕ)
    → Owned s
    → Has s v
    → (s' : Stack) × (remove_version s v ≡ ok s')
      × Owned s'
      × (s'.heads ≡ erase s.heads v)
      × (length s'.heads + 1 ≡ length s.heads)
unfolding remove_version head_at
remove_version_lem s v o i =
    let (h, n, g, k, _) = head_lem s v o i in
    let (store, e, c) =
      release_lem s.store h.node (λ q. one s.base_node q + head_times q (erase s.heads v))
        (Counted-along s.store _ _ (λ q. omega (arith, head_times-erase s.heads v h q g)) o) in
    (
      record s { heads = erase s.heads v; store = store },
      rw (g, ◌>>=◌, e),
      c,
      refl,
      length-erase s.heads v i,
    )

pub remove-Keeps : (s : Stack) (v : ℕ) → Owned s → Has s v → Keeps (remove_version s v)
remove-Keeps s v o i = let r = remove_version_lem s v o i in (r.0, r.1, r.2)

moved-node : (source target : StackHead) → (moved source target).node ≡ source.node
moved-node source target = ground arith

pub renumber-Keeps :
    (s : Stack) (v1 v2 : ℕ) → Owned s → Has s v1 → v2 ≤ v1 → Keeps (renumber_version s v1 v2)
unfolding renumber_version head_at
renumber-Keeps s v1 v2 o i l = elim (Bool-cases (v1 == v2)) [
  | inl e ↦ (s, rw e, o)
  | inr e ↦
      let ne : v1 ≢ v2 = λ x. ground arith in
      let (h1, _, g1, _, _) = head_lem s v1 o i in
      let (h2, _, g2, _, _) = head_lem s v2 o (omega arith) in
      let hs = set s.heads v2 (moved h1 h2) in
      let g1' : get_elem? hs v1 ≡ some h1 =
        get_elem?-set_ne s.heads (moved h1 h2) (λ x. ground arith) ∙ g1 in
      let at = λ (q : ℕ). head_times-set s.heads v2 h2 (moved h1 h2) q g2 in
      let (store, f, c) =
        release_lem s.store h2.node (λ q. one s.base_node q + head_times q (erase hs v1))
          (Counted-along s.store _ _
            (λ q.
              omega (
                arith,
                at q,
                head_times-erase hs v1 h1 q g1',
                ap (λ p. one p q) (moved-node h1 h2),
              ))
            o) in
      (
        record s { heads = erase hs v1; store = store },
        rw (e, lt→ltb v2 v1 (ground arith), g1, ◌>>=◌, g2, f),
        c,
      )
]

pub swap-Keeps :
    (s : Stack) (v1 v2 : ℕ) → Owned s → Has s v1 → Has s v2 → Keeps (swap_versions s v1 v2)
unfolding swap_versions head_at
swap-Keeps s v1 v2 o i j =
    let (h1, _, g1, _, _) = head_lem s v1 o i in
    let (h2, _, g2, _, _) = head_lem s v2 o j in
    let hs = set s.heads v1 h2 in
    let at : get_elem? hs v2 ≡ some h2 = elim (Bool-cases (v1 == v2)) [
      | inl e ↦ rw ((==_iff v1 v2).0 e) (get_elem?-set_self s.heads v2 h2 j)
      | inr e ↦ get_elem?-set_ne s.heads h2 (λ x. ground arith) ∙ g2
    ] in
    (
      record s { heads = set hs v2 h1 },
      rw (g1, ◌>>=◌, g2),
      Counted-along s.store (λ q. one s.base_node q + head_times q s.heads)
          (λ q. one s.base_node q + head_times q (set hs v2 h1))
          (λ q.
            omega (arith, head_times-set s.heads v1 h1 h2 q g1, head_times-set hs v2 h2 h1 q at))
          o,
    )

pub copy-Keeps :
    (s : Stack) (v : ℕ)
    → Owned s
    → total s.store.nodes + 1 < u32_mod
    → Has s v
    → Keeps (drop_result (copy_version s v))
unfolding copy_version head_at
copy-Keeps s v o b i =
    let (h, n, g, k, _) = head_lem s v o i in
    let (store, f, c) =
      stack_node_retain_lem s.store h.node (λ q. one s.base_node q + head_times q s.heads) o
        (ground (arith, o.counts h.node, head_times-erase s.heads v h h.node g))
        (omega (arith, count_of-le-total s.store.nodes h.node)) in
    let hs = s.heads ++ (record h { summary = none }) ∷ [] in
    (
      record s { heads = hs; store = store },
      rw (g, ◌>>=◌, f),
      Counted-along store (λ q. one h.node q + (one s.base_node q + head_times q s.heads))
          (λ q. one s.base_node q + head_times q hs)
          (λ q. omega (arith, head_times-append s.heads (record h { summary = none }) q)) c,
    )

release_heads-Counted :
    (hs : List StackHead) (s : Store) (w : ℕ → ℕ)
    → Counted s (λ q. w q + head_times q hs)
    → (s' : Store) × (release_heads hs s ≡ ok s') × Counted s' w
unfolding release_heads
release_heads-Counted [] s w c = (s, refl, Counted-along s _ w (λ q. omega arith) c)
release_heads-Counted (h ∷ hs) s w c =
    let (s', f, c') =
      release_lem s h.node (λ q. w q + head_times q hs)
        (Counted-along s _ (λ q. one h.node q + (w q + head_times q hs)) (λ q. omega arith) c) in
    let r = release_heads-Counted hs s' w c' in (r.0, rw (f, ◌>>=◌, r.1), r.2)

pub clear-Keeps : (s : Stack) → Owned s → total s.store.nodes + 1 < u32_mod → Keeps (clear s)
unfolding clear
clear-Keeps s o b =
    let base = s.base_node in
    let (kept, f, c) =
      stack_node_retain_lem s.store base (λ q. one base q + head_times q s.heads) o
        (ground (arith, o.counts base)) (omega (arith, count_of-le-total s.store.nodes base)) in
    let r =
      release_heads-Counted s.heads kept (λ q. one base q + one base q)
        (Counted-along kept (λ q. one base q + (one base q + head_times q s.heads))
          (λ q. one base q + one base q + head_times q s.heads) (λ q. omega arith) c) in
    (
      record s { heads = base_head base ∷ []; store = r.0 },
      rw (f, ◌>>=◌, r.1),
      Counted-along r.0 (λ q. one base q + one base q)
          (λ q. one base q + head_times q (base_head base ∷ [])) (λ q. omega arith) r.2,
    )
