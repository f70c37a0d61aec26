-- ===== src/Query/Quantifiers/Captures.antt =====
-- The quantifiers of all captures, against those of single ones.
use tree_sitter.Prelude.{
  ℕ, zero, suc, ap, ◌%◌, ◌≤◌, ◌<◌, ◌≡◌, refl, sym, ◌∙◌, arith, if◌then◌else◌, ◌==◌, List, [], ◌∷◌,
  length, u16_mod,
}
use tree_sitter.Query.Quantifiers.{
  Quantifier, zero_times, quantifier_mul, quantifier_join, quantifier_add, quantifier_for_id,
  grow_to, add_first, mul_first, add_all, mul_all, join_all, add_for_id,
}

add_for_id_lem :
    (xs : List Quantifier) (id other : ℕ) (q : Quantifier)
    → quantifier_for_id (add_for_id xs id q) other ≡ (
        if id == other
        then quantifier_add (quantifier_for_id xs other) q
        else quantifier_for_id xs other)
unfolding quantifier_for_id add_for_id
add_for_id_lem [] zero zero q = refl
add_for_id_lem [] zero (suc other) q = ground arith
add_for_id_lem [] (suc id) zero q = ground arith
add_for_id_lem [] (suc id) (suc other) q = let i = add_for_id_lem [] id other q in ground (arith, i)
add_for_id_lem (x ∷ xs) zero zero q = refl
add_for_id_lem (x ∷ xs) zero (suc other) q = ground arith
add_for_id_lem (x ∷ xs) (suc id) zero q = ground arith
add_for_id_lem (x ∷ xs) (suc id) (suc other) q =
    let i = add_for_id_lem xs id other q in ground (arith, i)

grow_to_lem :
    (n : ℕ) (xs : List Quantifier) (id : ℕ)
    → quantifier_for_id (grow_to n xs) id ≡ quantifier_for_id xs id
unfolding quantifier_for_id grow_to
grow_to_lem zero xs id = refl
grow_to_lem (suc n) [] zero = refl
grow_to_lem (suc n) [] (suc id) = grow_to_lem n [] id
grow_to_lem (suc n) (x ∷ xs) zero = refl
grow_to_lem (suc n) (x ∷ xs) (suc id) = grow_to_lem n xs id

length-grow_to : (n : ℕ) (xs : List Quantifier) → n ≤ length (grow_to n xs)
unfolding grow_to
length-grow_to zero xs = omega arith
length-grow_to (suc n) [] = omega (arith, length-grow_to n [])
length-grow_to (suc n) (x ∷ xs) = omega (arith, length-grow_to n xs)

zero_added : (x : Quantifier) → quantifier_add x zero_times ≡ x
unfolding quantifier_add
zero_added x = ground arith

add_first_lem :
    (n : ℕ) (xs qs : List Quantifier) (id : ℕ)
    → length qs ≤ n
    → length qs ≤ length xs
    → quantifier_for_id (add_first n xs qs) id
      ≡ quantifier_add (quantifier_for_id xs id) (quantifier_for_id qs id)
unfolding quantifier_for_id add_first
add_first_lem zero xs [] id h k = sym (zero_added (quantifier_for_id xs id))
add_first_lem zero xs (q ∷ qs) id h k = absurd (omega arith)
add_first_lem (suc n) [] [] id h k = sym (zero_added zero_times)
add_first_lem (suc n) [] (q ∷ qs) id h k = absurd (omega arith)
add_first_lem (suc n) (x ∷ xs) [] id h k = sym (zero_added (quantifier_for_id (x ∷ xs) id))
add_first_lem (suc n) (x ∷ xs) (q ∷ qs) zero h k = refl
add_first_lem (suc n) (x ∷ xs) (q ∷ qs) (suc id) h k =
    add_first_lem n xs qs id (omega arith) (omega arith)

add_all_lem :
    (xs qs : List Quantifier) (id : ℕ)
    → length qs < u16_mod
    → quantifier_for_id (add_all xs qs) id
      ≡ quantifier_add (quantifier_for_id xs id) (quantifier_for_id qs id)
unfolding add_all
add_all_lem xs qs id h =
    add_first_lem (length qs % u16_mod) (grow_to (length qs) xs) qs id (omega arith)
      (length-grow_to (length qs) xs)
    ∙ ap (λ x. quantifier_add x (quantifier_for_id qs id)) (grow_to_lem (length qs) xs id)

mul_first_lem :
    (n : ℕ) (xs : List Quantifier) (q : Quantifier) (id : ℕ)
    → length xs ≤ n
    → quantifier_for_id (mul_first n xs q) id ≡ quantifier_mul (quantifier_for_id xs id) q
unfolding quantifier_for_id mul_first quantifier_mul
mul_first_lem zero [] q id h = refl
mul_first_lem zero (x ∷ xs) q id h = absurd (omega arith)
mul_first_lem (suc n) [] q id h = refl
mul_first_lem (suc n) (x ∷ xs) q zero h = refl
mul_first_lem (suc n) (x ∷ xs) q (suc id) h = mul_first_lem n xs q id (omega arith)

mul_all_lem :
    (xs : List Quantifier) (q : Quantifier) (id : ℕ)
    → length xs < u16_mod
    → quantifier_for_id (mul_all xs q) id ≡ quantifier_mul (quantifier_for_id xs id) q
unfolding mul_all
mul_all_lem xs q id h = mul_first_lem (length xs % u16_mod) xs q id (omega arith)

join_all_lem :
    (xs qs : List Quantifier) (id : ℕ)
    → quantifier_for_id (join_all xs qs) id
      ≡ quantifier_join (quantifier_for_id xs id) (quantifier_for_id qs id)
unfolding quantifier_for_id join_all quantifier_join
join_all_lem [] [] id = refl
join_all_lem (x ∷ xs) [] zero = refl
join_all_lem (x ∷ xs) [] (suc id) = join_all_lem xs [] id
join_all_lem [] (q ∷ qs) zero = refl
join_all_lem [] (q ∷ qs) (suc id) = join_all_lem [] qs id
join_all_lem (x ∷ xs) (q ∷ qs) zero = refl
join_all_lem (x ∷ xs) (q ∷ qs) (suc id) = join_all_lem xs qs id

-- The operations on the quantifiers of all captures are those on single quantifiers, capture by
-- capture, where a capture that an array does not hold has the quantifier zero: adding to one capture
-- changes that one only; adding and joining two arrays, and multiplying one, work at every capture.
-- The arrays must hold fewer than 2 ^ 16 captures, and the capture that is added to has an id below it.
pub capture_quantifiers_lem :
    (xs qs : List Quantifier) (q : Quantifier) (id other : ℕ)
    → length xs < u16_mod
    → length qs < u16_mod
    → id < u16_mod
    → (quantifier_for_id (add_for_id xs id q) other ≡ (
        if id == other
        then quantifier_add (quantifier_for_id xs other) q
        else quantifier_for_id xs other))
      × (quantifier_for_id (add_all xs qs) other
          ≡ quantifier_add (quantifier_for_id xs other) (quantifier_for_id qs other))
      × (quantifier_for_id (mul_all xs q) other ≡ quantifier_mul (quantifier_for_id xs other) q)
      × (quantifier_for_id (join_all xs qs) other
          ≡ quantifier_join (quantifier_for_id xs other) (quantifier_for_id qs other))
capture_quantifiers_lem xs qs q id other h k l = (
  add_for_id_lem xs id other q,
  add_all_lem xs qs other k,
  mul_all_lem xs q other h,
  join_all_lem xs qs other,
)
