-- ===== src/ChangedRanges/Termination.antt =====
-- Each round of the loop over two lists of ranges passes an end of a range.
use tree_sitter.Prelude.{
  ℕ, ◌+◌, ◌-◌, ◌*◌, ◌≤◌, ◌<◌, ◌≡◌, ◌≢◌, u32_mod, refl, ◌⊎◌, inl, inr, Bool, true, false, not, List,
  [], ◌∷◌, arith, length,
}
use tree_sitter.Length.{Length, length_max}
use tree_sitter.Range.{Range, range_start, range_end}
use tree_sitter.ChangedRanges.{Sweep, step_ranges, pass_nearest, swept}

abbrev bit : Bool → ℕ
bit true = 1
bit false = 0

-- The next end of a range on one side, or the largest position where none is left
abbrev pub next_end : Bool → List Range → Length
next_end inside [] = length_max
next_end true (r ∷ rs) = range_end r
next_end false (r ∷ rs) = range_start r

-- A round whose reads stay inside the arrays.
abbrev pub nearest : Sweep → Sweep
unfolding pass_nearest
nearest s =
    pass_nearest s (next_end s.in_old_range s.old_ranges) (next_end s.in_new_range s.new_ranges)

-- The ends of ranges that one side has not passed yet.
abbrev left : Bool → List Range → ℕ
left inside [] = 0
left true (r ∷ rs) = 1 + 2 * length rs
left false (r ∷ rs) = 2 + 2 * length rs

-- The bytes of ranges fit 32 bits, and no range starts at the last of them.
abbrev pub Small : List Range → Type 0
Small [] = Unit
Small (r ∷ rs) = (r.start_byte + 1 < u32_mod) × (r.end_byte < u32_mod) × Small rs

step_ranges-Small : (inside : Bool) (rs : List Range) → Small rs → Small (step_ranges inside rs)
step_ranges-Small inside [] h = tt
step_ranges-Small true (r ∷ rs) h = h.2
step_ranges-Small false (r ∷ rs) h = h

next_end-Small : (inside : Bool) (rs : List Range) → Small rs → (next_end inside rs).bytes < u32_mod
next_end-Small inside [] h = omega arith
next_end-Small true (r ∷ rs) h = h.1
next_end-Small false (r ∷ rs) h = omega (arith, h.0)

-- Passing an end takes one off what is left, where there is one.
left-step :
    (inside : Bool) (rs : List Range)
    → (left (not inside) (step_ranges inside rs) + 1 ≡ left inside rs)
      ⊎ ((rs ≡ [])
          × (left (not inside) (step_ranges inside rs) ≡ 0)
          × (left inside rs ≡ 0)
          × ((next_end inside rs).bytes ≡ u32_mod - 1))
left-step inside [] = inr (refl, refl, refl, refl)
left-step true (r ∷ []) = inl refl
left-step true (r ∷ (q ∷ rs)) = inl (omega arith)
left-step false (r ∷ rs) = inl (omega arith)

abbrev pub all_left : Sweep → ℕ
all_left s = left s.in_old_range s.old_ranges + left s.in_new_range s.new_ranges

pub swept-cases : (s : Sweep) → swept s ≡ false → (s.old_ranges ≢ []) ⊎ (s.new_ranges ≢ [])
swept-cases s e = ground arith

pub nearest-Small :
    (s : Sweep)
    → Small s.old_ranges
    → Small s.new_ranges
    → Small (nearest s).old_ranges × Small (nearest s).new_ranges
unfolding pass_nearest
nearest-Small s a b = ground (
  arith,
  step_ranges-Small s.in_old_range s.old_ranges a,
  step_ranges-Small s.in_new_range s.new_ranges b,
)

pub all_left-step :
    (s : Sweep)
    → swept s ≡ false
    → Small s.old_ranges
    → Small s.new_ranges
    → all_left (nearest s) < all_left s
unfolding pass_nearest
all_left-step s e a b = ground (
  arith,
  swept-cases s e,
  left-step s.in_old_range s.old_ranges,
  left-step s.in_new_range s.new_ranges,
  next_end-Small s.in_old_range s.old_ranges a,
  next_end-Small s.in_new_range s.new_ranges b,
)

pub left_at_start : (rs : List Range) → left false rs ≤ 2 * length rs
left_at_start [] = omega arith
left_at_start (r ∷ rs) = omega arith
