-- ===== src/ChangedRanges/Sides.antt =====
-- One of two lists of ranges in the loop that compares them: the bytes that it still has ahead.
use tree_sitter.Prelude.{
  ℕ, ◌+◌, ◌⊎◌, ◌-◌, ◌≤◌, ◌<◌, ◌≡◌, ◌≢◌, u32_mod, refl, Bool, true, false, not, ◌&&◌, ◌||◌, List, [],
  ◌∷◌, arith, ltb, leb,
}
use tree_sitter.Prelude.Run.{ok}
use tree_sitter.Range.{Range}
use tree_sitter.Lexer.Ranges.{Ordered}
use tree_sitter.ChangedRanges.{next_position, step_ranges}
use tree_sitter.ChangedRanges.Termination.{Small, next_end}

-- whether a byte lies in one of the ranges
abbrev pub covers : List Range → ℕ → Bool
covers [] b = false
covers (r ∷ rs) b = (leb r.start_byte b && ltb b r.end_byte) || covers rs b

abbrev pub xor : Bool → Bool → Bool
xor a b = (a && not b) || (b && not a)

-- The bytes ahead on one side, which is inside its first range or not.
abbrev pub covered : Bool → List Range → ℕ → Bool
covered true [] b = false
covered true (r ∷ rs) b = ltb b r.end_byte || covers rs b
covered false rs b = covers rs b

covers-before : (p : ℕ) (rs : List Range) (b : ℕ) → Ordered p rs → b < p → covers rs b ≡ false
covers-before p [] b o h = refl
covers-before p (r ∷ rs) b o h = ground (arith, covers-before r.end_byte rs b o.2 (omega arith))

abbrev pub Side : Bool → List Range → ℕ → Type 0
Side true [] pos = pos ≡ u32_mod - 1
Side true (r ∷ rs) pos =
    (r.start_byte ≤ pos)
    × (pos ≤ r.end_byte)
    × (r.end_byte < u32_mod)
    × Ordered r.end_byte rs
    × Small rs
    × (pos + 1 < u32_mod)
Side false rs pos = Ordered pos rs × Small rs × (pos < u32_mod)

-- A side moves from one position to another, and has the same bytes ahead there.
abbrev pub Advance : Bool → List Range → Bool → List Range → ℕ → ℕ → Type 0
Advance inside rs inside' rs' pos p =
    Side inside' rs' p
    × ((b : ℕ) → pos ≤ b → b < p → covered inside rs b ≡ inside)
    × ((b : ℕ) → p ≤ b → covered inside' rs' b ≡ covered inside rs b)

pub Advance-pass :
    (inside : Bool) (rs : List Range) (pos : ℕ)
    → Side inside rs pos
    → (pos ≤ (next_end inside rs).bytes)
      × Advance inside rs (not inside) (step_ranges inside rs) pos (next_end inside rs).bytes
Advance-pass true [] pos h =
    (omega arith, ((tt, tt, omega arith), (λ b k l. absurd (omega arith)), λ b k. refl))
Advance-pass false [] pos h = (omega arith, (refl, (λ b k l. refl), λ b k. refl))
Advance-pass true (r ∷ rs) pos h =
    (h.1, ((h.3, h.4, h.2), (λ b k l. ground arith), λ b k. ground arith))
Advance-pass false (r ∷ rs) pos h = (
  h.0.0,
  (
    (omega arith, h.0.1, h.1.1, h.0.2, h.1.2, h.1.0),
    (λ b k l. covers-before r.start_byte (r ∷ rs) b (omega arith, h.0.1, h.0.2) l),
    λ b k. ground arith,
  ),
)

pub Advance-stay :
    (inside : Bool) (rs : List Range) (pos p : ℕ)
    → Side inside rs pos
    → pos ≤ p
    → p < (next_end inside rs).bytes
    → Advance inside rs inside rs pos p
Advance-stay true [] pos p h k l = absurd (omega arith)
Advance-stay false [] pos p h k l = ((tt, tt, omega arith), (λ b _ _. refl), λ b _. refl)
Advance-stay true (r ∷ rs) pos p h k l =
    ((omega arith, omega arith, h.2, h.3, h.4, omega arith), (λ b k' l'. ground arith), λ b _. refl)
Advance-stay false (r ∷ rs) pos p h k l = (
  ((omega arith, h.0.1, h.0.2), h.1, omega arith),
  (λ b _ k'. covers-before p (r ∷ rs) b (omega arith, h.0.1, h.0.2) k'),
  λ b _. refl,
)

-- A side with ranges left is not at the last byte, and one that is inside a range where none is left is.
pub Side-reads :
    (inside : Bool) (rs other : List Range) (other_inside : Bool) (pos : ℕ)
    → Side inside rs pos
    → Side other_inside other pos
    → (rs ≢ []) ⊎ (other ≢ [])
    → next_position inside rs ≡ ok (next_end inside rs)
Side-reads false [] other b pos h k n = refl
Side-reads false (r ∷ rs) other b pos h k n = refl
Side-reads true (r ∷ rs) other b pos h k n = refl
Side-reads true [] [] b pos h k n = ground arith
Side-reads true [] (q ∷ qs) true pos h k n = absurd (omega arith)
Side-reads true [] (q ∷ qs) false pos h k n = absurd (omega arith)
