-- ===== src/Tests/Queries.antt =====
-- The theorems on the parts of a query (lib/src/query.c) at small inputs.
use tree_sitter.Prelude.{
  ℕ, zero, suc, ◌≤◌, ◌<◌, ◌≡◌, refl, true, false, List, [], ◌∷◌, ◌==◌, if◌then◌else◌, arith,
}
use tree_sitter.Prelude.Run.{ok}
use tree_sitter.Query.Quantifiers.{
  Quantifier, zero_or_one, exactly_one, one_or_more, quantifier_add, quantifier_join,
  quantifier_mul, quantifier_for_id, add_for_id, add_all, mul_all, join_all,
}
use tree_sitter.Query.Quantifiers.Best.{IsBest, Added, Joined, Multiplied, quantifiers_lem}
use tree_sitter.Query.Quantifiers.Captures.{capture_quantifiers_lem}
use tree_sitter.Query.PatternMap.{
  PatternMap, PatternEntry, query_step_new, symbol_at, pattern_map_search, pattern_map_insert,
}
use tree_sitter.Query.PatternMap.Search.{Sorted, Finds, pattern_map_search_lem}

quantifiers_lem_example :
    IsBest (Added zero_or_one exactly_one) (quantifier_add zero_or_one exactly_one)
    × IsBest (Joined zero_or_one exactly_one) (quantifier_join zero_or_one exactly_one)
    × IsBest (Multiplied zero_or_one exactly_one) (quantifier_mul zero_or_one exactly_one)
quantifiers_lem_example = quantifiers_lem zero_or_one exactly_one

abbrev some_quantifiers : List Quantifier
some_quantifiers = exactly_one ∷ zero_or_one ∷ []

abbrev more_quantifiers : List Quantifier
more_quantifiers = one_or_more ∷ []

capture_quantifiers_lem_example :
    (quantifier_for_id (add_for_id some_quantifiers 3 exactly_one) 1 ≡ (
      if 3 == 1
      then quantifier_add (quantifier_for_id some_quantifiers 1) exactly_one
      else quantifier_for_id some_quantifiers 1))
    × (quantifier_for_id (add_all some_quantifiers more_quantifiers) 1
        ≡ quantifier_add
            (quantifier_for_id some_quantifiers 1)
            (quantifier_for_id more_quantifiers 1))
    × (quantifier_for_id (mul_all some_quantifiers exactly_one) 1
        ≡ quantifier_mul (quantifier_for_id some_quantifiers 1) exactly_one)
    × (quantifier_for_id (join_all some_quantifiers more_quantifiers) 1
        ≡ quantifier_join
            (quantifier_for_id some_quantifiers 1)
            (quantifier_for_id more_quantifiers 1))
capture_quantifiers_lem_example =
    capture_quantifiers_lem some_quantifiers more_quantifiers exactly_one 3 1 (omega arith)
      (omega arith) (omega arith)

abbrev root : ℕ → ℕ → PatternEntry
root step pattern = record { step_index = step; pattern_index = pattern; is_rooted = true }

-- One entry for a wildcard, and three sorted ones
abbrev map_of_four : PatternMap
map_of_four = record {
  steps =
      query_step_new 0 0 false
      ∷ query_step_new 4 0 false
      ∷ query_step_new 7 0 false
      ∷ query_step_new 9 0 false
      ∷ [];
  pattern_map = root 0 0 ∷ root 1 1 ∷ root 2 2 ∷ root 3 3 ∷ [];
  wildcard_root_pattern_count = 1;
}

abbrev roots : ℕ → ℕ
roots zero = 0
roots (suc zero) = 4
roots (suc (suc zero)) = 7
roots (suc (suc (suc i))) = 9

four_symbols : (i : ℕ) → i < 4 → symbol_at map_of_four i ≡ ok (roots i)
unfolding symbol_at
four_symbols zero h = refl
four_symbols (suc zero) h = refl
four_symbols (suc (suc zero)) h = refl
four_symbols (suc (suc (suc zero))) h = refl
four_symbols (suc (suc (suc (suc i)))) h = ground arith

roots_increase : (i j : ℕ) → i ≤ j → roots i ≤ roots j
roots_increase zero j h = ground arith
roots_increase (suc zero) zero h = ground arith
roots_increase (suc zero) (suc zero) h = ground arith
roots_increase (suc zero) (suc (suc zero)) h = ground arith
roots_increase (suc zero) (suc (suc (suc j))) h = ground arith
roots_increase (suc (suc zero)) zero h = ground arith
roots_increase (suc (suc zero)) (suc zero) h = ground arith
roots_increase (suc (suc zero)) (suc (suc zero)) h = ground arith
roots_increase (suc (suc zero)) (suc (suc (suc j))) h = ground arith
roots_increase (suc (suc (suc i))) zero h = ground arith
roots_increase (suc (suc (suc i))) (suc zero) h = ground arith
roots_increase (suc (suc (suc i))) (suc (suc zero)) h = ground arith
roots_increase (suc (suc (suc i))) (suc (suc (suc j))) h = ground arith

map_of_four-Sorted : Sorted map_of_four roots 7
map_of_four-Sorted = (omega arith, λ i b h. four_symbols i h, λ i j b h k. roots_increase i j h)

pattern_map_search_lem_example : Finds map_of_four roots 7 (pattern_map_search map_of_four 7)
pattern_map_search_lem_example = pattern_map_search_lem map_of_four roots 7 map_of_four-Sorted

inserted :
    pattern_map_insert map_of_four 7 (root 2 4)
    ≡ ok (record map_of_four {
      pattern_map = root 0 0 ∷ root 1 1 ∷ root 2 2 ∷ root 2 4 ∷ root 3 3 ∷ [];
    })
unfolding pattern_map_insert
inserted = refl
