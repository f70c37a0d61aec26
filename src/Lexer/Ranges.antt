-- ===== src/Lexer/Ranges.antt =====
-- The included ranges of a lexer: their order, and the bytes in them.
use tree_sitter.Prelude.{
  ℕ, ◌+◌, ◌≤◌, ◌<◌, ◌≡◌, ◌⊎◌, inl, inr, false, Option, none, some, List, [], ◌∷◌, length,
  Bool-cases, arith, ◌&&◌, ltb, leb, if◌then◌else◌,
}
use tree_sitter.Range.{Range}
use tree_sitter.Lexer.{find_range}

-- Ranges follow one another, the first not before a byte, and none ends before it starts.
abbrev pub Ordered : ℕ → List Range → Type 0
Ordered previous [] = Unit
Ordered previous (r ∷ rs) =
    (previous ≤ r.start_byte) × (r.start_byte ≤ r.end_byte) × Ordered r.end_byte rs

-- A byte lies in one of the ranges.
abbrev pub Included : ℕ → List Range → Type 0
Included b [] = ⊥
Included b (r ∷ rs) = ((r.start_byte ≤ b) × (b < r.end_byte)) ⊎ Included b rs

pub Included-ge : (m b : ℕ) (rs : List Range) → Ordered m rs → Included b rs → m ≤ b
Included-ge m b [] o i = absurd i
Included-ge m b (r ∷ rs) o (inl h) = omega arith
Included-ge m b (r ∷ rs) o (inr h) = omega (arith, Included-ge r.end_byte b rs o.2 h)

-- The start of the range that is found, or the byte itself if that lies in it.
abbrev pub landing : ℕ → Range → ℕ
landing byte r = if leb byte r.start_byte then r.start_byte else byte

-- The least included byte from a byte on.
abbrev pub IsLeast : ℕ → List Range → ℕ → Type 0
IsLeast byte rs p = Included p rs × ((b : ℕ) → byte ≤ b → Included b rs → p ≤ b)

-- What a search from a byte on may find, with indices from `i`.
abbrev pub Found : ℕ → ℕ → List Range → Option (ℕ × Range) → Type 0
Found byte i rs none = (b : ℕ) → byte ≤ b → ¬ Included b rs
Found byte i rs (some (j, r)) = IsLeast byte rs (landing byte r) × (j < i + length rs)

Found-cons :
    (byte i : ℕ) (q : Range) (rs : List Range) (o : Option (ℕ × Range))
    → (ltb byte q.end_byte && ltb q.start_byte q.end_byte) ≡ false
    → Found byte (i + 1) rs o
    → Found byte i (q ∷ rs) o
Found-cons byte i q rs none t f = λ b h k. elim k [ inl m ↦ ground arith | inr m ↦ f b h m ]
Found-cons byte i q rs (some (j, r)) t f = ((inr (f.0.0), bound), omega (arith, f.1))
  where
    bound : (b : ℕ) → byte ≤ b → Included b (q ∷ rs) → landing byte r ≤ b
    bound b h (inl k) = ground arith
    bound b h (inr k) = f.0.1 b h k

pub find_range-Found :
    (byte i previous : ℕ) (rs : List Range)
    → Ordered previous rs
    → Found byte i rs (find_range byte i rs)
unfolding find_range
find_range-Found byte i previous [] o = λ b h k. k
find_range-Found byte i previous (q ∷ rs) o =
    elim (Bool-cases (ltb byte q.end_byte && ltb q.start_byte q.end_byte)) [
      | inl t ↦ rw t ((inl (ground arith), bound), omega arith)
      | inr t ↦ rw t (
          Found-cons byte i q rs (find_range byte (i + 1) rs) t
            (find_range-Found byte (i + 1) q.end_byte rs o.2))
    ]
  where
    bound : (b : ℕ) → byte ≤ b → Included b (q ∷ rs) → landing byte q ≤ b
    bound b h (inl k) = ground arith
    bound b h (inr k) = ground (arith, Included-ge q.end_byte b rs o.2 k)
