-- ===== src/Parser/Reduce/Groups.antt =====
-- The trees of a finished parse come in three parts.
use mathlib.Core.List.{reverse-reverse, append_assoc, reverse-cons, append-nil}
use mathlib.Core.Path.{subst}
use tree_sitter.Prelude.{
  ◌≡◌, refl, ap, ◌∙◌, sym, false, Option, none, some, List, [], ◌∷◌, ◌++◌, Bool-cases, inl, inr,
  reverse,
}
use tree_sitter.Subtree.{Subtree, extra}
use tree_sitter.Subtree.Arrays.Laws.{AllExtra}
use tree_sitter.Parser.Reduce.{split_root}

abbrev pub Split : List Subtree → Option (List Subtree × Subtree × List Subtree) → Type 0
Split ts none = AllExtra ts
Split ts (some (before, root, behind)) =
    (before ++ root ∷ behind ≡ ts) × (extra root ≡ false) × AllExtra behind

Split-loop :
    (ts behind : List Subtree)
    → AllExtra behind
    → Split (reverse ts ++ behind) (split_root ts behind)
unfolding split_root
Split-loop [] behind a = a
Split-loop (t ∷ ts) behind a =
    subst (λ xs. Split xs (split_root (t ∷ ts) behind))
      (sym (append_assoc (reverse ts) (t ∷ []) behind)
        ∙ ap (λ xs. xs ++ behind) (sym (reverse-cons t ts)))
      (elim (Bool-cases (extra t)) [
        | inl e ↦ rw e (Split-loop ts (t ∷ behind) (e, a))
        | inr e ↦ rw e (refl, e, a)
      ])

-- The last tree that is no extra splits the trees of a finished parse in three: put together again the
-- parts are these trees, the middle one is no extra, and all behind it are; where there is no such
-- tree, all trees are extras.
pub split_root_lem : (ts : List Subtree) → Split ts (split_root (reverse ts) [])
split_root_lem ts =
    subst (λ xs. Split xs (split_root (reverse ts) []))
      (append-nil (reverse (reverse ts)) ∙ reverse-reverse ts) (Split-loop (reverse ts) [] tt)
