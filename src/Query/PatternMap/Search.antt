-- ===== src/Query/PatternMap/Search.antt =====
-- The search in the pattern map ends at the first entry whose symbol is not smaller.
use tree_sitter.Prelude.{
  ℕ, zero, suc, ◌+◌, ◌-◌, ◌*◌, ◌/◌, ◌≤◌, ◌<◌, ◌≡◌, refl, ◌↔◌, Bool, true, false, ltb, ◌==◌, length,
  arith, Bool-cases, inl, inr,
}
use tree_sitter.Prelude.Run.{Run, ok, ◌>>=◌}
use tree_sitter.Query.PatternMap.{
  PatternMap, symbol_at, search_loop, search_end, pattern_map_search,
}

module _ (self : PatternMap) (symbol : ℕ → ℕ) (needle : ℕ) where
  -- The entries behind the wildcards can be read, and their symbols do not decrease.
  abbrev pub Sorted : Type 0
  Sorted =
      (self.wildcard_root_pattern_count ≤ length self.pattern_map)
      × ((i : ℕ)
          → self.wildcard_root_pattern_count ≤ i
          → i < length self.pattern_map
          → symbol_at self i ≡ ok (symbol i))
      × ((i j : ℕ)
          → self.wildcard_root_pattern_count ≤ i
          → i ≤ j
          → j < length self.pattern_map
          → symbol i ≤ symbol j)

  -- All entries in front of the index have smaller symbols.
  abbrev pub Below : ℕ → Type 0
  Below r = (i : ℕ) → self.wildcard_root_pattern_count ≤ i → i < r → symbol i < needle

  -- No entry from the index on has a smaller symbol.
  abbrev pub Above : ℕ → Type 0
  Above r = (i : ℕ) → r ≤ i → i < length self.pattern_map → needle ≤ symbol i

  loop_lem :
      (rounds base size : ℕ)
      → Sorted
      → self.wildcard_root_pattern_count ≤ base
      → base + size ≤ length self.pattern_map
      → 1 ≤ size
      → size ≤ rounds
      → Below base
      → Above (base + size)
      → (r : ℕ) × (search_loop rounds self needle base size ≡ ok r)
        × Below r
        × Above (r + 1)
        × (self.wildcard_root_pattern_count ≤ r)
        × (r < length self.pattern_map)
  unfolding search_loop
  loop_lem zero base size s w b p k l h = ground arith
  loop_lem (suc rounds) base size s w b p k l h = elim (Bool-cases (ltb 1 size)) [
    | inr e ↦ (base, rw e refl, l, (λ i x y. h i (ground arith) y), w, ground arith)
    | inl e ↦
        let mid = base + size / 2 in
        let m1 : 1 ≤ size / 2 = ground arith in
        let m2 : 2 * (size / 2) ≤ size = omega arith in
        let at = s.1 mid (omega arith) (omega arith) in
        elim (Bool-cases (ltb (symbol mid) needle)) [
          | inl f ↦
              let (r, g, b', a', w', l') =
                loop_lem rounds mid (size - size / 2) s (omega arith) (omega arith) (omega arith)
                  (omega arith)
                  (λ i x y. let m = s.2 i mid x (omega arith) (omega arith) in ground arith)
                  (λ i x y. h i (omega arith) y) in
              (r, rw (e, at, ◌>>=◌, f) g, b', a', w', l')
          | inr f ↦
              let (r, g, b', a', w', l') =
                loop_lem rounds base (size - size / 2) s w (omega arith) (omega arith) (omega arith)
                  l (λ i x y. let m = s.2 mid i (omega arith) (omega arith) y in ground arith) in
              (r, rw (e, at, ◌>>=◌, f) g, b', a', w', l')
        ]
  ]

  -- What the search finds: the first entry that is not smaller, and whether it has the symbol
  abbrev pub Finds : Run (Bool × ℕ) → Type 0
  Finds result =
      (found : Bool) × (r : ℕ) × (result ≡ ok (found, r))
      × Below r
      × Above r
      × (self.wildcard_root_pattern_count ≤ r)
      × (r ≤ length self.pattern_map)
      × ((found ≡ true) ↔ ((r < length self.pattern_map) × (symbol r ≡ needle)))

  end_lem :
      (r : ℕ)
      → Sorted
      → Below r
      → Above (r + 1)
      → self.wildcard_root_pattern_count ≤ r
      → r < length self.pattern_map
      → Finds (search_end self needle r (symbol r))
  unfolding search_end
  end_lem r s b a w l = elim (Bool-cases (ltb (symbol r) needle)) [
    | inr e ↦ (
      needle == symbol r,
      r,
      rw e refl,
      b,
      λ i x y. let m = s.2 r i w x y in ground arith,
      w,
      omega arith,
      ground arith,
    )
    | inl e ↦
        let below : Below (r + 1) = λ i x y. let m = s.2 i r x (omega arith) l in ground arith in
        elim (Bool-cases (ltb (r + 1) (length self.pattern_map))) [
          | inl f ↦ (
            needle == symbol (r + 1),
            r + 1,
            rw (e, f, s.1 (r + 1) (omega arith) (ground arith), ◌>>=◌) refl,
            below,
            a,
            omega arith,
            omega arith,
            ground arith,
          )
          | inr f ↦ (
            needle == symbol r,
            r + 1,
            rw (e, f) refl,
            below,
            a,
            omega arith,
            omega arith,
            ground arith,
          )
        ]
  ]

  -- Where the entries behind the wildcards can be read and their symbols do not decrease, the search
  -- returns: the index of the first of them whose symbol is not smaller than the needle, or the number
  -- of entries if there is none, and whether there is an entry with the symbol at that index. It has
  -- enough fuel.
  pub pattern_map_search_lem : Sorted → Finds (pattern_map_search self needle)
  unfolding pattern_map_search
  pattern_map_search_lem s =
      let base = self.wildcard_root_pattern_count in
      let size = length self.pattern_map - base in
      elim (Bool-cases (size == 0)) [
        | inl z ↦ (
          false,
          base,
          rw z refl,
          λ i x y. ground arith,
          λ i x y. ground arith,
          omega arith,
          s.0,
          ground arith,
        )
        | inr z ↦
            let (r, e, b, a, w, l) =
              loop_lem size base size s (omega arith) (omega (arith, s.0)) (ground arith)
                (omega arith) (λ i x y. ground arith) (λ i x y. ground arith) in
            let (found, n, g, b', a', w', l', i) = end_lem r s b a w l in
            (found, n, rw (z, e, ◌>>=◌, s.1 r w l) g, b', a', w', l', i)
      ]
