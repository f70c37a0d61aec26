-- ===== src/Lexer/Session/Laws.antt =====
-- The contracts of the calls that the parser makes.
use tree_sitter.Prelude.{
  ℕ, ◌≡◌, refl, sym, ◌∙◌, ◌↔◌, inl, inr, true, false, List, [], ◌∷◌, arith, Bool-cases,
}
use mathlib.Core.Bool.{false≢true}
use tree_sitter.Range.{Range}
use tree_sitter.Lexer.{Lexer}
use tree_sitter.Lexer.Ranges.{Ordered}
use tree_sitter.Lexer.Goto.{included_ranges-goto}
use tree_sitter.Lexer.Session.{check_ranges, set_included_ranges}

check_ranges_iff :
    (previous : ℕ) (rs : List Range) → (check_ranges previous rs ≡ true) ↔ Ordered previous rs
unfolding check_ranges
check_ranges_iff previous [] = (λ _. tt, λ _. refl)
check_ranges_iff previous (r ∷ rs) =
    let ih = check_ranges_iff r.end_byte rs in
    (λ e. ground (arith, ih.0), λ o. ground (arith, ih.1 o.2))

-- Setting ranges succeeds exactly when they follow one another without overlap, none ending before
-- it starts. It then installs them, and otherwise leaves the lexer as it was.
pub set_included_ranges_lem :
    (s : Lexer) (r : Range) (rs : List Range)
    → let (accepted, s') = set_included_ranges s (r ∷ rs) in
      ((accepted ≡ true) ↔ Ordered 0 (r ∷ rs))
      × ((accepted ≡ true) → s'.included_ranges ≡ r ∷ rs)
      × ((accepted ≡ false) → s' ≡ s)
unfolding set_included_ranges
set_included_ranges_lem s r rs = elim (Bool-cases (check_ranges 0 (r ∷ rs))) [
  | inl e ↦ rw e (
    (λ _. (check_ranges_iff 0 (r ∷ rs)).0 e, λ _. refl),
    λ _. included_ranges-goto _ s.current_position,
    λ h. cc,
  )
  | inr e ↦ rw e (
    (λ h. cc, λ o. absurd (false≢true (sym e ∙ (check_ranges_iff 0 (r ∷ rs)).1 o))),
    λ h. cc,
    λ _. refl,
  )
]
