-- ===== src/Lexer/Moves/Skip.antt =====
-- Where the loop of `ts_lexer__do_advance` over the included ranges ends.
use tree_sitter.Prelude.{
  ℕ, ◌+◌, ◌≤◌, ◌<◌, ◌≡◌, refl, ◌⊎◌, inl, inr, true, false, List, [], ◌∷◌, length, Bool-cases, arith,
  Bool,
}
use tree_sitter.Length.{Length}
use tree_sitter.Range.{Range, range_start}
use tree_sitter.Lexer.Moves.{skip_ranges, is_left}
use tree_sitter.Lexer.Ranges.{Ordered, Included, Included-ge, IsLeast}

-- A byte is the end of a character, if that lies before the end of the current range, and otherwise the
-- first byte of the ranges behind.
abbrev pub Lands : ℕ → Range → List Range → ℕ → Type 0
Lands past r rs p =
    ((past < r.end_byte) × (p ≡ past)) ⊎ ((r.end_byte ≤ past) × IsLeast r.end_byte rs p)

-- No byte is left behind the character, which reaches the end of the current range.
abbrev pub Leaves : ℕ → Range → List Range → Type 0
Leaves past r rs = (r.end_byte ≤ past) × ((b : ℕ) → ¬ Included b rs)

-- What the loop of an advance may end with, over the ranges from the current one on.
abbrev pub Skipped : Length → ℕ → Range → List Range → Length × ℕ × Bool → Type 0
Skipped p i r rs (p', j, true) = Lands p.bytes r rs p'.bytes × (j < i + length (r ∷ rs))
Skipped p i r rs (p', j, false) = Leaves p.bytes r rs × (j ≡ i + length (r ∷ rs))

Lands-cons :
    (past : ℕ) (r q : Range) (rs : List Range) (p : ℕ)
    → Ordered r.start_byte (r ∷ (q ∷ rs))
    → r.end_byte ≤ past
    → Lands q.start_byte q rs p
    → Lands past r (q ∷ rs) p
Lands-cons past r q rs p o t (inl h) = inr (t, (inl (omega arith), bound))
  where
    bound : (b : ℕ) → r.end_byte ≤ b → Included b (q ∷ rs) → p ≤ b
    bound b k (inl i) = omega arith
    bound b k (inr i) = omega (arith, Included-ge q.end_byte b rs o.2.2 i)
Lands-cons past r q rs p o t (inr h) = inr (t, (inr (h.1.0), bound))
  where
    bound : (b : ℕ) → r.end_byte ≤ b → Included b (q ∷ rs) → p ≤ b
    bound b k (inl i) = omega arith
    bound b k (inr i) = h.1.1 b (Included-ge q.end_byte b rs o.2.2 i) i

Leaves-cons :
    (past : ℕ) (r q : Range) (rs : List Range)
    → r.end_byte ≤ past
    → Leaves q.start_byte q rs
    → Leaves past r (q ∷ rs)
Leaves-cons past r q rs t h = (t, λ b i. elim i [ inl k ↦ omega arith | inr k ↦ h.1 b k ])

Skipped-cons :
    (p : Length) (i : ℕ) (r q : Range) (rs : List Range) (o : Length × ℕ × Bool)
    → Ordered r.start_byte (r ∷ (q ∷ rs))
    → r.end_byte ≤ p.bytes
    → Skipped (range_start q) (i + 1) q rs o
    → Skipped p i r (q ∷ rs) o
Skipped-cons p i r q rs (p', j, true) o t f =
    (Lands-cons p.bytes r q rs p'.bytes o t f.0, omega (arith, f.1))
Skipped-cons p i r q rs (p', j, false) o t f =
    (Leaves-cons p.bytes r q rs t f.0, omega (arith, f.1))

-- A range that starts no later than a position is left exactly when it ends no later.
is_left_lem : (p : ℕ) (r : Range) → r.start_byte ≤ p → is_left p r ≡ true → r.end_byte ≤ p
is_left_lem p r h t = ground arith

stays : (p : ℕ) (r : Range) → is_left p r ≡ false → p < r.end_byte
stays p r t = ground arith

pub skip_ranges-Skipped :
    (p : Length) (i : ℕ) (r : Range) (rs : List Range)
    → Ordered r.start_byte (r ∷ rs)
    → r.start_byte ≤ p.bytes
    → Skipped p i r rs (skip_ranges p i r rs)
unfolding skip_ranges
skip_ranges-Skipped p i r [] o h = elim (Bool-cases (is_left p.bytes r)) [
  | inl t ↦ rw t ((is_left_lem p.bytes r h t, λ b k. k), omega arith)
  | inr t ↦ rw t (inl (stays p.bytes r t, refl), omega arith)
]
skip_ranges-Skipped p i r (q ∷ rs) o h = elim (Bool-cases (is_left p.bytes r)) [
  | inl t ↦ rw t (
      Skipped-cons p i r q rs (skip_ranges (range_start q) (i + 1) q rs) o
        (is_left_lem p.bytes r h t)
        (skip_ranges-Skipped (range_start q) (i + 1) q rs (omega arith, o.2.1, o.2.2)
          (omega arith)))
  | inr t ↦ rw t (inl (stays p.bytes r t, refl), omega arith)
]
