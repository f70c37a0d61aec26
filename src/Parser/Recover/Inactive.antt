-- ===== src/Parser/Recover/Inactive.antt =====
-- Which versions a recovery leaves behind.
use tree_sitter.Prelude.{
  ℕ, zero, suc, ◌+◌, ◌≤◌, ◌≡◌, refl, ap, ◌∙◌, sym, true, false, some, List, [], ◌∷◌, length,
  get_elem?, arith, Bool-cases, inl, inr, if◌then◌else◌,
}
use tree_sitter.Prelude.Run.{ok, ◌>>=◌}
use tree_sitter.Stack.Versions.{Stack, StackHead, erase, is_active, head_at, remove_version}
use tree_sitter.Stack.Versions.Owned.{Owned, head_lem}
use tree_sitter.Stack.Versions.Moves.{remove_version_lem}
use tree_sitter.Parser.Recover.{drop_inactive}

-- The first heads, and those of the others that are active
pub active_from : ℕ → List StackHead → List StackHead
active_from i [] = []
active_from zero (h ∷ hs) =
    let rest = active_from zero hs in if is_active h.status then h ∷ rest else rest
active_from (suc i) (h ∷ hs) = h ∷ active_from i hs

active_from-active :
    (i : ℕ) (hs : List StackHead) (h : StackHead)
    → get_elem? hs i ≡ some h
    → is_active h.status ≡ true
    → active_from (suc i) hs ≡ active_from i hs
unfolding active_from
active_from-active i [] h g a = refl
active_from-active zero (x ∷ hs) h g a = ground arith
active_from-active (suc i) (x ∷ hs) h g a = ap (λ ys. x ∷ ys) (active_from-active i hs h g a)

active_from-erase :
    (i : ℕ) (hs : List StackHead) (h : StackHead)
    → get_elem? hs i ≡ some h
    → is_active h.status ≡ false
    → active_from i (erase hs i) ≡ active_from i hs
unfolding active_from erase
active_from-erase i [] h g a = refl
active_from-erase zero (x ∷ hs) h g a = ground arith
active_from-erase (suc i) (x ∷ hs) h g a = ap (λ ys. x ∷ ys) (active_from-erase i hs h g a)

active_from_end : (i : ℕ) (hs : List StackHead) → length hs ≤ i → active_from i hs ≡ hs
unfolding active_from
active_from_end i [] h = refl
active_from_end zero (x ∷ hs) h = ground arith
active_from_end (suc i) (x ∷ hs) h = ap (λ ys. x ∷ ys) (active_from_end i hs (omega arith))

drop_step :
    (rounds : ℕ) (s s1 : Stack) (i : ℕ) (h : StackHead)
    → remove_version s i ≡ ok s1
    → head_at s i ≡ ok h
    → is_active h.status ≡ false
    → drop_inactive (suc rounds) s i ≡ drop_inactive rounds s1 i
unfolding drop_inactive remove_version
drop_step rounds s s1 i h r g a = rw (r, g, ◌>>=◌, a) refl

-- On a stack whose heads own their nodes, dropping the inactive versions among all from one on succeeds,
-- keeps the ownership, and leaves the heads before it and the active ones behind, in their order.
pub drop_inactive_lem :
    (rounds : ℕ) (s : Stack) (i : ℕ)
    → Owned s
    → length s.heads ≡ i + rounds
    → (s' : Stack) × (drop_inactive rounds s i ≡ ok s')
      × Owned s'
      × (s'.heads ≡ active_from i s.heads)
unfolding drop_inactive head_at
drop_inactive_lem zero s i o e = (s, refl, o, sym (active_from_end i s.heads (omega arith)))
drop_inactive_lem (suc rounds) s i o e =
    let (h, n, g, _, _) = head_lem s i o (omega arith) in
    elim (Bool-cases (is_active h.status)) [
      | inl a ↦
          let (s', r, o', h') = drop_inactive_lem rounds s (suc i) o (omega arith) in
          (s', rw (g, ◌>>=◌, a) r, o', h' ∙ active_from-active i s.heads h g a)
      | inr a ↦
          let (s1, r1, o1, h1, l1) = remove_version_lem s i o (omega arith) in
          let (s', r, o', h') = drop_inactive_lem rounds s1 i o1 (omega arith) in
          (
            s',
            drop_step rounds s s1 i h r1 (rw (g, head_at) refl) a ∙ r,
            o',
            h' ∙ ap (active_from i) h1 ∙ active_from-erase i s.heads h g a,
          )
    ]
