-- ===== src/Parser/Condense/Truncate.antt =====
-- The upper bound on the number of versions.
use tree_sitter.Prelude.{
  ℕ, zero, suc, ◌+◌, ◌-◌, ◌≤◌, ◌≡◌, refl, ap, ◌∙◌, sym, List, [], ◌∷◌, length, arith, Bool-cases,
  inl, inr, ltb,
}
use tree_sitter.Prelude.Run.{ok, ◌>>=◌}
use tree_sitter.Stack.Versions.{Stack, erase, version_count}
use tree_sitter.Stack.Versions.Owned.{Owned}
use tree_sitter.Stack.Versions.Moves.{remove_version_lem}
use tree_sitter.Parser.{max_version_count}
use tree_sitter.Parser.Condense.{truncate_loop, truncate_versions}

abbrev pub take {ℓ} : {A : Type ℓ} → ℕ → List A → List A
take zero xs = []
take (suc n) [] = []
take (suc n) (x ∷ xs) = x ∷ take n xs

take-erase {ℓ} : {A : Type ℓ} (n : ℕ) (xs : List A) → take n (erase xs n) ≡ take n xs
unfolding erase
take-erase zero xs = refl
take-erase (suc n) [] = refl
take-erase (suc n) (x ∷ xs) = ap (λ ys. x ∷ ys) (take-erase n xs)

take_all {ℓ} : {A : Type ℓ} (n : ℕ) (xs : List A) → length xs ≤ n → take n xs ≡ xs
take_all zero [] h = refl
take_all (suc n) [] h = refl
take_all zero (x ∷ xs) h = ground arith
take_all (suc n) (x ∷ xs) h = ap (λ ys. x ∷ ys) (take_all n xs (omega arith))

truncate_loop_lem :
    (n : ℕ) (s : Stack)
    → Owned s
    → length s.heads ≡ max_version_count + n
    → (s' : Stack) × (truncate_loop n s ≡ ok s')
      × Owned s'
      × (s'.heads ≡ take max_version_count s.heads)
unfolding truncate_loop
truncate_loop_lem zero s o e = (s, refl, o, sym (take_all max_version_count s.heads (omega arith)))
truncate_loop_lem (suc n) s o e =
    let (s1, r, o1, h1, l1) = remove_version_lem s max_version_count o (omega arith) in
    let (s2, r2, o2, h2) = truncate_loop_lem n s1 o1 (omega arith) in
    (
      s2,
      rw (r, ◌>>=◌) r2,
      o2,
      h2 ∙ ap (take max_version_count) h1 ∙ take-erase max_version_count s.heads,
    )

-- On a stack whose heads own their nodes, dropping versions until there are at most six succeeds, keeps
-- the ownership, and leaves the first six heads as they were.
pub truncate_versions_lem :
    (s : Stack)
    → Owned s
    → (s' : Stack) × (truncate_versions s ≡ ok s')
      × Owned s'
      × (s'.heads ≡ take max_version_count s.heads)
unfolding truncate_versions version_count
truncate_versions_lem s o = elim (Bool-cases (ltb max_version_count (version_count s))) [
  | inl l ↦ truncate_loop_lem (length s.heads - max_version_count) s o (ground arith)
  | inr l ↦
      let z : length s.heads - max_version_count ≡ 0 = ground arith in
      (s, rw z refl, o, sym (take_all max_version_count s.heads (ground arith)))
]
