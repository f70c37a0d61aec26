-- ===== src/Query/Quantifiers/Best.antt =====
-- The quantifiers stand for sets of counts, and each operation gives the best one.
use tree_sitter.Prelude.{
  ℕ, zero, suc, ◌+◌, ap, ◌≤◌, ◌<◌, ◌≡◌, refl, ◌⊎◌, inl, inr, arith, List, [], ◌∷◌, length,
}
use tree_sitter.Query.Quantifiers.{
  Quantifier, zero_times, zero_or_one, zero_or_more, exactly_one, one_or_more, quantifier_mul,
  quantifier_join, quantifier_add,
}

-- The quantifier allows the count.
abbrev pub Allows : Quantifier → ℕ → Type 0
Allows zero_times n = n ≡ 0
Allows zero_or_one n = n ≤ 1
Allows zero_or_more n = Unit
Allows exactly_one n = n ≡ 1
Allows one_or_more n = 0 < n

-- The quantifier allows all counts of the set, and no other one that does allows less.
abbrev pub IsBest : (ℕ → Type 0) → Quantifier → Type 0
IsBest P q =
    ((n : ℕ) → P n → Allows q n)
    × ((r : Quantifier) → ((n : ℕ) → P n → Allows r n) → (n : ℕ) → Allows q n → Allows r n)

-- Two counts that the quantifier allows, the same one twice if it tells all
first : Quantifier → ℕ
first zero_times = 0
first zero_or_one = 0
first zero_or_more = 0
first exactly_one = 1
first one_or_more = 2

second : Quantifier → ℕ
second zero_times = 0
second zero_or_one = 1
second zero_or_more = 2
second exactly_one = 1
second one_or_more = 2

Allows-first : (q : Quantifier) → Allows q (first q)
unfolding first
Allows-first q = ground arith

Allows-second : (q : Quantifier) → Allows q (second q)
unfolding second
Allows-second q = ground arith

-- The sum of two counts
abbrev pub Added : Quantifier → Quantifier → ℕ → Type 0
Added l r n = (i j : ℕ) × Allows l i × Allows r j × (n ≡ i + j)

Added-sound : (l r : Quantifier) (n : ℕ) → Added l r n → Allows (quantifier_add l r) n
unfolding quantifier_add
Added-sound l r n (i, j, a, b, e) = ground arith

added_least :
    (l r q : Quantifier) (n : ℕ)
    → Allows q (first l + first r)
    → Allows q (second l + second r)
    → Allows (quantifier_add l r) n
    → Allows q n
unfolding quantifier_add first second
added_least l r q n a b c = ground arith

-- A count of one of two patterns
abbrev pub Joined : Quantifier → Quantifier → ℕ → Type 0
Joined l r n = Allows l n ⊎ Allows r n

Joined-sound : (l r : Quantifier) (n : ℕ) → Joined l r n → Allows (quantifier_join l r) n
unfolding quantifier_join
Joined-sound l r n a = ground arith

joined_least :
    (l r q : Quantifier) (n : ℕ)
    → Allows q (first l)
    → Allows q (second l)
    → Allows q (first r)
    → Allows q (second r)
    → Allows (quantifier_join l r) n
    → Allows q n
unfolding quantifier_join first second
joined_least l r q n a b c d e = ground arith

-- Every count in the list is allowed.
abbrev pub EachAllowed : Quantifier → List ℕ → Type 0
EachAllowed q [] = Unit
EachAllowed q (n ∷ ns) = Allows q n × EachAllowed q ns

abbrev pub sum : List ℕ → ℕ
sum [] = 0
sum (n ∷ ns) = n + sum ns

-- As many counts of the right quantifier as the left one allows, added up
abbrev pub Multiplied : Quantifier → Quantifier → ℕ → Type 0
Multiplied l r n = (ns : List ℕ) × Allows l (length ns) × EachAllowed r ns × (n ≡ sum ns)

-- What is known of the sum of a list
abbrev SumBounds : Quantifier → ℕ → ℕ → Type 0
SumBounds zero_times k n = n ≡ 0
SumBounds zero_or_one k n = n ≤ k
SumBounds zero_or_more k n = (k ≡ 0) → (n ≡ 0)
SumBounds exactly_one k n = n ≡ k
SumBounds one_or_more k n = (k ≤ n) × ((k ≡ 0) → (n ≡ 0))

sum_bounds : (q : Quantifier) (ns : List ℕ) → EachAllowed q ns → SumBounds q (length ns) (sum ns)
sum_bounds q [] a = ground arith
sum_bounds q (n ∷ ns) a = let b = sum_bounds q ns a.1 in ground arith

Multiplied-sound : (l r : Quantifier) (n : ℕ) → Multiplied l r n → Allows (quantifier_mul l r) n
unfolding quantifier_mul
Multiplied-sound l r n (ns, a, b, e) = let c = sum_bounds r ns b in ground arith

copies : ℕ → ℕ → List ℕ
copies zero n = []
copies (suc k) n = n ∷ copies k n

multiplied_least :
    (l r q : Quantifier) (n : ℕ)
    → Allows q (sum (copies (first l) (first r)))
    → Allows q (sum (copies (first l) (second r)))
    → Allows q (sum (copies (second l) (first r)))
    → Allows q (sum (copies (second l) (second r)))
    → Allows (quantifier_mul l r) n
    → Allows q n
unfolding quantifier_mul first second copies
multiplied_least l r q n a b c d e = ground arith

length-copies : (k n : ℕ) → length (copies k n) ≡ k
unfolding copies
length-copies zero n = refl
length-copies (suc k) n = ap suc (length-copies k n)

copies_allowed : (q : Quantifier) (k n : ℕ) → Allows q n → EachAllowed q (copies k n)
unfolding copies
copies_allowed q zero n a = tt
copies_allowed q (suc k) n a = (a, copies_allowed q k n a)

Multiplied-copies :
    (l r : Quantifier) (k n : ℕ) → Allows l k → Allows r n → Multiplied l r (sum (copies k n))
Multiplied-copies l r k n a b = (copies k n, rw (length-copies k n) a, copies_allowed r k n b, refl)

-- Each operation on quantifiers gives the best abstraction of the operation on counts, where a
-- quantifier stands for the counts that it allows: it allows every sum of two counts, every count of
-- either of two patterns, and every sum of as many counts as the left quantifier allows; and every
-- quantifier that allows these allows all that the result does.
pub quantifiers_lem :
    (l r : Quantifier)
    → IsBest (Added l r) (quantifier_add l r)
      × IsBest (Joined l r) (quantifier_join l r)
      × IsBest (Multiplied l r) (quantifier_mul l r)
quantifiers_lem l r = (
  (
    Added-sound l r,
    λ q h n a.
        added_least l r q n (h _ (first l, first r, Allows-first l, Allows-first r, refl))
          (h _ (second l, second r, Allows-second l, Allows-second r, refl)) a,
  ),
  (
    Joined-sound l r,
    λ q h n a.
        joined_least l r q n (h _ (inl (Allows-first l))) (h _ (inl (Allows-second l)))
          (h _ (inr (Allows-first r))) (h _ (inr (Allows-second r))) a,
  ),
  (
    Multiplied-sound l r,
    λ q h n a.
        let p =
          λ (k m : ℕ) (x : Allows l k) (y : Allows r m). h _ (Multiplied-copies l r k m x y) in
        multiplied_least l r q n (p (first l) (first r) (Allows-first l) (Allows-first r))
          (p (first l) (second r) (Allows-first l) (Allows-second r))
          (p (second l) (first r) (Allows-second l) (Allows-first r))
          (p (second l) (second r) (Allows-second l) (Allows-second r)) a,
  ),
)
