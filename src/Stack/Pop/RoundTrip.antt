-- ===== src/Stack/Pop/RoundTrip.antt =====
-- What is pushed on a version of the stack is popped from it.
use tree_sitter.Prelude.{ℕ, ◌≡◌, false, some, List, [], ◌∷◌}
use tree_sitter.Prelude.Run.{Run, ok, ◌>>=◌}
use tree_sitter.Subtree.{Subtree, extra}
use tree_sitter.Stack.{StackLink}
use tree_sitter.Stack.Versions.{Stack, push}
use tree_sitter.Stack.Versions.Owned.{Owned}

-- the subtrees pushed one after another, each with the state behind it
unfoldable pub push_all : Stack → ℕ → List (Subtree × ℕ) → Run Stack
unfolding push
push_all s v [] = ok s
push_all s v ((t, state) ∷ ts) = push s v (some t) false state >>= λ s'. push_all s' v ts

-- The links hold these subtrees, none of them an extra.
abbrev Carries : List StackLink → List Subtree → Type 0
Carries [] [] = Unit
Carries [] (t ∷ ts) = ⊥
Carries (l ∷ ls) [] = ⊥
Carries (l ∷ ls) (t ∷ ts) = (l.subtree ≡ some t) × (extra t ≡ false) × Carries ls ts

abbrev pub trees : List (Subtree × ℕ) → List Subtree
trees [] = []
trees ((t, state) ∷ ts) = t ∷ trees ts

abbrev pub NoExtras : List (Subtree × ℕ) → Type 0
NoExtras [] = Unit
NoExtras ((t, state) ∷ ts) = (extra t ≡ false) × NoExtras ts
