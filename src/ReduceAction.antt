-- ===== src/ReduceAction.antt =====
-- lib/src/reduce_action.h: the set of reductions that the parser collects at an error.
use tree_sitter.Prelude.{ℕ, ◌≡◌, ◌↔◌, ◌&&◌, ◌==◌, if◌then◌else◌, List, [], ◌∷◌, arith, Bool}
use tree_sitter.Prelude.Int.{ℤ}

pub record ReduceAction : Type 0 where
  pub count : ℕ
  pub symbol : ℕ
  pub dynamic_precedence : ℤ
  pub production_id : ℕ

abbrev same_key : ReduceAction → ReduceAction → Bool
same_key a b = a.symbol == b.symbol && a.count == b.count

unfoldable pub reduce_action_set_add : List ReduceAction → ReduceAction → List ReduceAction
reduce_action_set_add [] new_action = new_action ∷ []
reduce_action_set_add (a ∷ rest) new_action =
    let rest' = reduce_action_set_add rest new_action in
    if same_key a new_action then a ∷ rest else a ∷ rest'

abbrev pub SameKey : ReduceAction → ReduceAction → Type 0
SameKey a b = (a.symbol ≡ b.symbol) × (a.count ≡ b.count)

abbrev pub Absent : ReduceAction → List ReduceAction → Type 0
Absent a [] = Unit
Absent a (b ∷ bs) = (¬ SameKey a b) × Absent a bs

abbrev pub Distinct : List ReduceAction → Type 0
Distinct [] = Unit
Distinct (a ∷ rest) = Absent a rest × Distinct rest

Absent-add :
    (s : List ReduceAction) (new b : ReduceAction)
    → Absent b (reduce_action_set_add s new) ↔ (Absent b s × ¬ SameKey b new)
unfolding reduce_action_set_add
Absent-add [] new b = (λ h. (tt, h.0), λ h. (h.1, tt))
Absent-add (a ∷ rest) new b =
    let ih = Absent-add rest new b in (λ h. ground (arith, ih.0), λ h. ground (arith, ih.1))

Distinct-add :
    (s : List ReduceAction) (new : ReduceAction)
    → Distinct s
    → Distinct (reduce_action_set_add s new)
unfolding reduce_action_set_add
Distinct-add [] new h = (tt, tt)
Distinct-add (a ∷ rest) new h =
    let ih = Distinct-add rest new h.1 in let k = Absent-add rest new a in ground (arith, k.1)

-- Adding a reduction keeps the symbols and counts of a set's reductions distinct, if they are; and a
-- symbol and count are absent afterwards exactly when they were absent and are not the added ones.
pub reduce_action_set_add_lem :
    (s : List ReduceAction) (new_action : ReduceAction)
    → Distinct s
    → Distinct (reduce_action_set_add s new_action)
      × ((b : ReduceAction)
          → Absent b (reduce_action_set_add s new_action) ↔ (Absent b s × ¬ SameKey b new_action))
reduce_action_set_add_lem s new_action h = (Distinct-add s new_action h, Absent-add s new_action)
