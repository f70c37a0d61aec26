-- ===== src/Subtree/External/Laws.antt =====
-- The last external token of a tree is the last of its leaves that has external tokens.
use tree_sitter.Prelude.{
  ℕ, ◌≡◌, refl, sym, ◌∙◌, ap, ap₂, Bool, true, false, ◌||◌, Option, none, some, List, [], ◌∷◌, ◌++◌,
  arith, ◌↔◌, if◌then◌else◌, length,
}
use tree_sitter.Subtree.{Subtree, Subtrees, inline, heap, nil, cons, has_external_tokens}
use tree_sitter.Subtree.External.{
  descend, last_descent, last_external_token, same_bytes, scanner_state_eq,
}

-- the leaves of a tree, from left to right
unfoldable mutual
  pub leaves : Subtree → List Subtree
  leaves (inline d) = inline d ∷ []
  leaves (heap d nil) = heap d nil ∷ []
  leaves (heap d (cons c cs)) = leaves c ++ leaves_all cs

  pub leaves_all : Subtrees → List Subtree
  leaves_all nil = []
  leaves_all (cons c cs) = leaves c ++ leaves_all cs

-- the last of a list of leaves that has external tokens
pub last_external : List Subtree → Option Subtree
last_external [] = none
last_external (t ∷ ts) = elim (last_external ts) [
  | some r ↦ some r
  | none ↦ if has_external_tokens t then some t else none
]

unfoldable pub any_external : Subtrees → Bool
any_external nil = false
any_external (cons c cs) = has_external_tokens c || any_external cs

-- A node has external tokens when one of its children has, as summarizing leaves it.
abbrev mutual
  pub Flagged : Subtree → Type 0
  Flagged (inline d) = Unit
  Flagged (heap d nil) = Unit
  Flagged (heap d (cons c cs)) =
      (d.has_external_tokens ≡ (has_external_tokens c || any_external cs))
      × Flagged c
      × AllFlagged cs

  pub AllFlagged : Subtrees → Type 0
  AllFlagged nil = Unit
  AllFlagged (cons c cs) = Flagged c × AllFlagged cs

abbrev or_option : Option Subtree → Option Subtree → Option Subtree
or_option (some r) o = some r
or_option none o = o

abbrev is_found : Option Subtree → Bool
is_found (some r) = true
is_found none = false

abbrev wrap : Option Subtree → Option (Option Subtree)
wrap (some r) = some (some r)
wrap none = none

abbrev join : Option (Option Subtree) → Option Subtree
join o = elim o [ none ↦ none | some r ↦ r ]

join-wrap : (o : Option Subtree) → join (wrap o) ≡ o
join-wrap none = refl
join-wrap (some r) = refl

-- one step of `last_descent`
abbrev pick : Bool → Option Subtree → Option (Option Subtree) → Option (Option Subtree)
pick flag descent o = elim o [ some r ↦ some r | none ↦ if flag then some descent else none ]

pick-wrap :
    (flag : Bool) (descent x y : Option Subtree)
    → flag ≡ is_found y
    → (flag ≡ true → descent ≡ y)
    → pick flag descent (wrap x) ≡ wrap (or_option x y)
pick-wrap flag descent (some r) y f g = refl
pick-wrap flag descent none none f g = rw f
pick-wrap flag descent none (some r) f g = rw f (ap some (g f))

is_found-or_option : (x y : Option Subtree) → (is_found y || is_found x) ≡ is_found (or_option x y)
is_found-or_option x y = ground arith

last_external-append :
    (xs ys : List Subtree)
    → last_external (xs ++ ys) ≡ or_option (last_external ys) (last_external xs)
unfolding last_external
last_external-append [] ys = ground arith
last_external-append (x ∷ xs) ys = ground (arith, last_external-append xs ys)

mutual
  unfolding descend leaves last_external any_external

  descend-leaves :
      (t : Subtree)
      → Flagged t
      → (has_external_tokens t ≡ is_found (last_external (leaves t)))
        × ((has_external_tokens t ≡ true) → descend t ≡ last_external (leaves t))
  descend-leaves (inline d) f = (refl, λ e. cc)
  descend-leaves (heap d nil) f = (ground arith, λ e. ground arith)
  descend-leaves (heap d (cons c cs)) f =
      let ih = descend-leaves_all (cons c cs) (f.1, f.2) in
      (f.0 ∙ ih.1, λ e. ap join ih.0 ∙ join-wrap (last_external (leaves_all (cons c cs))))

  descend-leaves_all :
      (cs : Subtrees)
      → AllFlagged cs
      → (last_descent cs ≡ wrap (last_external (leaves_all cs)))
        × (any_external cs ≡ is_found (last_external (leaves_all cs)))
  descend-leaves_all nil f = (refl, refl)
  descend-leaves_all (cons c cs) f =
      let ih = descend-leaves c f.0 in
      let ih' = descend-leaves_all cs f.1 in
      let x = last_external (leaves_all cs) in
      let y = last_external (leaves c) in
      let app = last_external-append (leaves c) (leaves_all cs) in
      (
        ap (pick (has_external_tokens c) (descend c)) ih'.0
            ∙ pick-wrap (has_external_tokens c) (descend c) x y ih.0 ih.1
            ∙ ap wrap (sym app),
        ap₂ ◌||◌ ih.0 ih'.1 ∙ is_found-or_option x y ∙ ap is_found (sym app),
      )

-- In a tree whose flags are right the search returns: the null subtree if no leaf has external
-- tokens, and otherwise the last leaf that has.
pub last_external_token_lem :
    (t : Subtree) → Flagged t → last_external_token t ≡ some (last_external (leaves t))
unfolding last_external_token
last_external_token_lem t f = ground (arith, descend-leaves t f)

same_bytes_iff : (a b : List ℕ) → length a ≡ length b → (same_bytes a b ≡ true) ↔ (a ≡ b)
unfolding same_bytes
same_bytes_iff [] [] h = (λ _. refl, λ _. refl)
same_bytes_iff [] (y ∷ b) h = absurd (omega arith)
same_bytes_iff (x ∷ a) [] h = absurd (omega arith)
same_bytes_iff (x ∷ a) (y ∷ b) h =
    let ih = same_bytes_iff a b (omega arith) in
    (λ e. ground (arith, ih.0), λ e. ground (arith, ih.1))

-- Two scanner states are equal to the code exactly when they hold the same bytes.
scanner_state_eq_iff : (a b : List ℕ) → (scanner_state_eq a b ≡ true) ↔ (a ≡ b)
unfolding scanner_state_eq
scanner_state_eq_iff a b = (
  λ e. (same_bytes_iff a b (ground arith)).0 (ground arith),
  λ e. rw e (ground (arith, (same_bytes_iff b b refl).1 refl)),
)
