-- ===== src/Query/Quantifiers.antt =====
-- lib/src/query.c: how often a pattern captures a node.
pub mod Best
pub mod Captures
use tree_sitter.Prelude.{ℕ, zero, suc, ◌%◌, List, [], ◌∷◌, length, u16_mod}

-- `TSQuantifier`
pub data Quantifier : Type 0 where
  zero_times zero_or_one zero_or_more exactly_one one_or_more : Quantifier

unfoldable pub quantifier_mul : Quantifier → Quantifier → Quantifier
quantifier_mul zero_times right = zero_times
quantifier_mul zero_or_one zero_times = zero_times
quantifier_mul zero_or_one zero_or_one = zero_or_one
quantifier_mul zero_or_one zero_or_more = zero_or_more
quantifier_mul zero_or_one exactly_one = zero_or_one
quantifier_mul zero_or_one one_or_more = zero_or_more
quantifier_mul zero_or_more zero_times = zero_times
quantifier_mul zero_or_more zero_or_one = zero_or_more
quantifier_mul zero_or_more zero_or_more = zero_or_more
quantifier_mul zero_or_more exactly_one = zero_or_more
quantifier_mul zero_or_more one_or_more = zero_or_more
quantifier_mul exactly_one right = right
quantifier_mul one_or_more zero_times = zero_times
quantifier_mul one_or_more zero_or_one = zero_or_more
quantifier_mul one_or_more zero_or_more = zero_or_more
quantifier_mul one_or_more exactly_one = one_or_more
quantifier_mul one_or_more one_or_more = one_or_more

unfoldable pub quantifier_join : Quantifier → Quantifier → Quantifier
quantifier_join zero_times zero_times = zero_times
quantifier_join zero_times zero_or_one = zero_or_one
quantifier_join zero_times zero_or_more = zero_or_more
quantifier_join zero_times exactly_one = zero_or_one
quantifier_join zero_times one_or_more = zero_or_more
quantifier_join zero_or_one zero_times = zero_or_one
quantifier_join zero_or_one zero_or_one = zero_or_one
quantifier_join zero_or_one zero_or_more = zero_or_more
quantifier_join zero_or_one exactly_one = zero_or_one
quantifier_join zero_or_one one_or_more = zero_or_more
quantifier_join zero_or_more right = zero_or_more
quantifier_join exactly_one zero_times = zero_or_one
quantifier_join exactly_one zero_or_one = zero_or_one
quantifier_join exactly_one zero_or_more = zero_or_more
quantifier_join exactly_one exactly_one = exactly_one
quantifier_join exactly_one one_or_more = one_or_more
quantifier_join one_or_more zero_times = zero_or_more
quantifier_join one_or_more zero_or_one = zero_or_more
quantifier_join one_or_more zero_or_more = zero_or_more
quantifier_join one_or_more exactly_one = one_or_more
quantifier_join one_or_more one_or_more = one_or_more

unfoldable pub quantifier_add : Quantifier → Quantifier → Quantifier
quantifier_add zero_times right = right
quantifier_add zero_or_one zero_times = zero_or_one
quantifier_add zero_or_one zero_or_one = zero_or_more
quantifier_add zero_or_one zero_or_more = zero_or_more
quantifier_add zero_or_one exactly_one = one_or_more
quantifier_add zero_or_one one_or_more = one_or_more
quantifier_add zero_or_more zero_times = zero_or_more
quantifier_add zero_or_more zero_or_one = zero_or_more
quantifier_add zero_or_more zero_or_more = zero_or_more
quantifier_add zero_or_more exactly_one = one_or_more
quantifier_add zero_or_more one_or_more = one_or_more
quantifier_add exactly_one zero_times = exactly_one
quantifier_add exactly_one zero_or_one = one_or_more
quantifier_add exactly_one zero_or_more = one_or_more
quantifier_add exactly_one exactly_one = one_or_more
quantifier_add exactly_one one_or_more = one_or_more
quantifier_add one_or_more right = one_or_more

-- `capture_quantifier_for_id`; the array of quantifiers is a list.
unfoldable pub quantifier_for_id : List Quantifier → ℕ → Quantifier
quantifier_for_id [] id = zero_times
quantifier_for_id (q ∷ qs) zero = q
quantifier_for_id (q ∷ qs) (suc id) = quantifier_for_id qs id

-- `capture_quantifiers_add_for_id`; the array grows by zeros.
unfoldable pub add_for_id : List Quantifier → ℕ → Quantifier → List Quantifier
unfolding quantifier_add
add_for_id [] zero q = quantifier_add zero_times q ∷ []
add_for_id [] (suc id) q = zero_times ∷ add_for_id [] id q
add_for_id (x ∷ xs) zero q = quantifier_add x q ∷ xs
add_for_id (x ∷ xs) (suc id) q = x ∷ add_for_id xs id q

-- `array_grow_by`, up to a size; the new elements are zeros.
pub grow_to : ℕ → List Quantifier → List Quantifier
grow_to zero xs = xs
grow_to (suc n) [] = zero_times ∷ grow_to n []
grow_to (suc n) (x ∷ xs) = x ∷ grow_to n xs

-- The loop of `capture_quantifiers_add_all`, over the first so many ids. Both arrays are as long.
pub add_first : ℕ → List Quantifier → List Quantifier → List Quantifier
unfolding quantifier_add
add_first zero xs qs = xs
add_first (suc n) [] qs = []
add_first (suc n) (x ∷ xs) [] = x ∷ xs
add_first (suc n) (x ∷ xs) (q ∷ qs) = quantifier_add x q ∷ add_first n xs qs

-- `capture_quantifiers_add_all`; the bound of the loop is cast to 16 bits.
unfoldable pub add_all : List Quantifier → List Quantifier → List Quantifier
unfolding grow_to add_first
add_all xs qs = add_first (length qs % u16_mod) (grow_to (length qs) xs) qs

-- The loop of `capture_quantifiers_mul`, over the first so many ids
pub mul_first : ℕ → List Quantifier → Quantifier → List Quantifier
unfolding quantifier_mul
mul_first zero xs q = xs
mul_first (suc n) [] q = []
mul_first (suc n) (x ∷ xs) q = quantifier_mul x q ∷ mul_first n xs q

-- `capture_quantifiers_mul`; the bound of the loop is cast to 16 bits.
unfoldable pub mul_all : List Quantifier → Quantifier → List Quantifier
unfolding mul_first
mul_all xs q = mul_first (length xs % u16_mod) xs q

-- `capture_quantifiers_join_all`
unfoldable pub join_all : List Quantifier → List Quantifier → List Quantifier
unfolding quantifier_join
join_all [] [] = []
join_all (x ∷ xs) [] = quantifier_join x zero_times ∷ join_all xs []
join_all [] (q ∷ qs) = quantifier_join zero_times q ∷ join_all [] qs
join_all (x ∷ xs) (q ∷ qs) = quantifier_join x q ∷ join_all xs qs
