-- ===== src/Stack/Counts/Release.antt =====
-- Giving back a pointer to a node of the stack.
use tree_sitter.Prelude.{
  ℕ, zero, suc, ◌+◌, ◌-◌, ◌≤◌, ◌<◌, ◌≡◌, refl, Bool-cases, inl, inr, some, List, [], ◌∷◌, ◌==◌, ltb,
  if◌then◌else◌, length, get_elem?, arith, length-set, ne→==,
}
use tree_sitter.Prelude.Run.{Run, ok, ◌>>=◌}
use tree_sitter.Stack.{
  total, StackNode, StackLink, Store, load, put, pool_push, max_node_pool_size, release_back,
  release_links, stack_node_release,
}
use tree_sitter.Stack.Counts.{
  one, times, link_times, count_of, Counted, count_of-get, get-count_of, count_of-set, incoming-set,
  total-set,
}

-- What a release leaves as it was: nodes out of use stay so, and are not added to the pool.
pub record Kept (s s' : Store) : Type 0 where
  pub same_length : length s'.nodes ≡ length s.nodes
  pub fewer : total s'.nodes ≤ total s.nodes
  pub still_unused : (q : ℕ) → count_of s.nodes q ≡ 0 → count_of s'.nodes q ≡ 0
  pub pooled : (q : ℕ) → count_of s.nodes q ≡ 0 → times q s'.node_pool ≡ times q s.node_pool

Kept-refl : (s : Store) → Kept s s
Kept-refl s = record {
  same_length = refl;
  fewer = omega arith;
  still_unused = λ q h. h;
  pooled = λ q h. refl;
}

Kept-trans : {s t u : Store} → Kept s t → Kept t u → Kept s u
Kept-trans a b = record {
  same_length = omega (arith, a.same_length, b.same_length);
  fewer = omega (arith, a.fewer, b.fewer);
  still_unused = λ q h. b.still_unused q (a.still_unused q h);
  pooled = λ q h. omega (arith, a.pooled q h, b.pooled q (a.still_unused q h));
}

abbrev lowered : StackNode → StackNode
lowered n = record n { ref_count = n.ref_count - 1 }

-- The count of `p` goes down. At 0 its links count as pointers from outside.
lower-Counted :
    (s : Store) (p : ℕ) (n : StackNode) (w : ℕ → ℕ)
    → get_elem? s.nodes p ≡ some n
    → Counted s (λ q. one p q + w q)
    → Counted
        (put s p (lowered n))
        (λ q. (if n.ref_count == 1 then link_times q n.links else 0) + w q)
      × Kept s (put s p (lowered n))
      × (total (put s p (lowered n)).nodes < total s.nodes)
lower-Counted s p n w g c =
    let n' = lowered n in
    let g' = count_of-get s.nodes p n g in
    let e = λ (q : ℕ). count_of-set n n' s.nodes p q g in
    let fewer = total-set n n' s.nodes p g in
    let positive : 0 < n.ref_count = ground (arith, c.counts p, g'.0) in
    (
      record {
        counts = λ q. ground (arith, e q, c.counts q, incoming-set n n' s.nodes p q g, g'.0);
        once = c.once;
        unused = λ q k. ground (arith, e q, c.unused q k, g'.0);
        inside = λ q k. omega (arith, c.inside q k, length-set s.nodes p n');
      },
      record {
        same_length = length-set s.nodes p n';
        fewer = omega (arith, fewer);
        still_unused = λ q k. ground (arith, e q, g'.0);
        pooled = λ q k. refl;
      },
      omega (arith, fewer),
    )

pool_push-Counted :
    (s : Store) (p : ℕ) (w : ℕ → ℕ)
    → count_of s.nodes p ≡ 0
    → p < length s.nodes
    → times p s.node_pool ≡ 0
    → Counted s w
    → Counted (pool_push s p) w × (total (pool_push s p).nodes ≡ total s.nodes)
pool_push-Counted s p w h k e c = elim (Bool-cases (ltb (length s.node_pool) max_node_pool_size)) [
  | inl b ↦ rw b (
    record {
      counts = c.counts;
      once = λ q. ground (arith, c.once q, e);
      unused = λ q l. ground (arith, c.unused q, h);
      inside = λ q l. ground (arith, c.inside q, k);
    },
    refl,
  )
  | inr b ↦ rw b (c, refl)
]

-- A node that was in use comes into the pool.
pool_push-Kept : (s t : Store) (p : ℕ) → 0 < count_of s.nodes p → Kept s t → Kept s (pool_push t p)
pool_push-Kept s t p h k = elim (Bool-cases (ltb (length t.node_pool) max_node_pool_size)) [
  | inl b ↦ rw b (record {
    same_length = k.same_length;
    fewer = k.fewer;
    still_unused = k.still_unused;
    pooled = λ q l. ground (arith, k.pooled q l);
  })
  | inr b ↦ rw b k
]

-- What the release of one pointer promises, with that fuel.
abbrev Releases : ℕ → (Store → ℕ → Run Store) → Type 0
Releases fuel f =
    (s : Store) (p : ℕ) (w : ℕ → ℕ)
    → Counted s (λ q. one p q + w q)
    → total s.nodes < fuel
    → (s' : Store) × (f s p ≡ ok s') × Counted s' w × Kept s s'

pub Counted-along : (s : Store) (w v : ℕ → ℕ) → ((q : ℕ) → w q ≡ v q) → Counted s w → Counted s v
Counted-along s w v e c = record {
  counts = λ q. omega (arith, c.counts q, e q);
  once = c.once;
  unused = c.unused;
  inside = c.inside;
}

module _ (fuel : ℕ) (f : Store → ℕ → Run Store) (ih : Releases fuel f) where
  release_back_lem :
      (ls : List StackLink) (s : Store) (w : ℕ → ℕ)
      → Counted s (λ q. link_times q ls + w q)
      → total s.nodes < fuel
      → (s' : Store) × (release_back f ls s ≡ ok s') × Counted s' w × Kept s s'
  unfolding release_back
  release_back_lem [] s w c h = (s, refl, Counted-along s _ w (λ q. omega arith) c, Kept-refl s)
  release_back_lem (l ∷ ls) s w c h =
      let r =
        release_back_lem ls s (λ q. one l.node q + w q)
          (Counted-along s (λ q. link_times q (l ∷ ls) + w q)
            (λ q. link_times q ls + (one l.node q + w q)) (λ q. omega arith) c)
          h in
      let t = ih r.0 l.node w r.2 (omega (arith, r.3.fewer)) in
      (t.0, rw (r.1, ◌>>=◌, t.1), t.2, Kept-trans r.3 t.3)

  release_links_lem :
      (before s : Store) (p : ℕ) (ls : List StackLink) (w : ℕ → ℕ)
      → Counted s (λ q. link_times q ls + w q)
      → total s.nodes < fuel
      → Kept before s
      → 0 < count_of before.nodes p
      → count_of s.nodes p ≡ 0
      → p < length s.nodes
      → times p s.node_pool ≡ 0
      → (s' : Store) × (release_links f p ls s ≡ ok s') × Counted s' w × Kept before s'
  unfolding release_links
  release_links_lem before s p [] w c h k b u i e = (
    pool_push s p,
    refl,
    (pool_push-Counted s p w u i e (Counted-along s _ w (λ q. omega arith) c)).0,
    pool_push-Kept before s p b k,
  )
  release_links_lem before s p (l ∷ ls) w c h k b u i e =
      let w' : ℕ → ℕ = λ q. one l.node q + w q in
      let r =
        release_back_lem ls s w'
          (Counted-along s (λ q. link_times q (l ∷ ls) + w q) (λ q. link_times q ls + w' q)
            (λ q. omega arith) c)
          h in
      let pushed =
        pool_push-Counted r.0 p w' (r.3.still_unused p u) (omega (arith, r.3.same_length))
          (omega (arith, r.3.pooled p u)) r.2 in
      let t = ih (pool_push r.0 p) l.node w pushed.0 (omega (arith, r.3.fewer, pushed.1)) in
      (
        t.0,
        rw (r.1, ◌>>=◌, t.1),
        t.2,
        Kept-trans (pool_push-Kept before r.0 p b (Kept-trans k r.3)) t.3,
      )

release_step : (fuel : ℕ) → Releases fuel (stack_node_release fuel)
unfolding stack_node_release load
release_step zero s p w c h = absurd (omega arith)
release_step (suc fuel) s p w c h =
    let in_use : 0 < count_of s.nodes p = ground (arith, c.counts p) in
    let (n, g) = get-count_of s.nodes p in_use in
    let g' = count_of-get s.nodes p n g in
    let (d, k, l) = lower-Counted s p n w g c in
    elim (Bool-cases (ltb 0 (n.ref_count - 1))) [
      | inl b ↦ (
        put s p (lowered n),
        rw (g, ◌>>=◌, ne→== n.ref_count 0 (ground arith), b),
        Counted-along (put s p (lowered n))
            (λ q. (if n.ref_count == 1 then link_times q n.links else 0) + w q) w
            (λ q. ground arith) d,
        k,
      )
      | inr b ↦
          let r =
            release_links_lem fuel (stack_node_release fuel) (release_step fuel) s
              (put s p (lowered n)) p n.links w
              (Counted-along (put s p (lowered n))
                (λ q. (if n.ref_count == 1 then link_times q n.links else 0) + w q)
                (λ q. link_times q n.links + w q) (λ q. ground (arith, c.counts p, g'.0)) d)
              (omega arith) k in_use
              (ground (arith, count_of-set n (lowered n) s.nodes p p g, c.counts p))
              (omega (arith, g'.1, length-set s.nodes p (lowered n)))
              (ground (arith, c.unused p, c.counts p)) in
          (
            r.0,
            rw (g, ◌>>=◌, ne→== n.ref_count 0 (ground (arith, c.counts p, g'.0)), b, r.1),
            r.2,
            r.3,
          )
    ]

-- With more fuel than the sum of all counts, giving back a counted pointer meets no failed assertion
-- and ends, and the counts are right without the pointer. A node that had no pointers has none still.
pub stack_node_release_lem :
    (fuel : ℕ) (s : Store) (p : ℕ) (outside : ℕ → ℕ)
    → Counted s (λ q. one p q + outside q)
    → total s.nodes < fuel
    → (s' : Store) × (stack_node_release fuel s p ≡ ok s') × Counted s' outside × Kept s s'
stack_node_release_lem fuel s p outside c h = release_step fuel s p outside c h
