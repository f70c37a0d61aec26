-- ===== src/ChangedRanges/Arrays.antt =====
-- Adding to an array of ranges, and asking it for an intersection.
use tree_sitter.Prelude.{
  ℕ, ◌≤◌, ◌<◌, ◌≡◌, ◌↔◌, ◌⊎◌, inl, inr, true, List, [], ◌∷◌, arith, drop, zero, suc,
}
use mathlib.Core.Bool.{false≢true}
use tree_sitter.Length.{Length}
use tree_sitter.Range.{Range}
use tree_sitter.Lexer.Ranges.{Ordered, Included}
use tree_sitter.ChangedRanges.{range_array_add, intersects_from, range_array_intersects}

-- where the last range of an array ends
abbrev pub last_end : ℕ → List Range → ℕ
last_end e [] = e
last_end e (r ∷ rs) = last_end r.end_byte rs

-- A piece behind all ranges of an ordered array is added to it: the array stays ordered, and a byte
-- is in it exactly when it was before or lies in the piece.
pub range_array_add_lem :
    (previous : ℕ) (rs : List Range) (start end : Length)
    → Ordered previous rs
    → last_end previous rs ≤ start.bytes
    → start.bytes ≤ end.bytes
    → Ordered previous (range_array_add rs start end)
      × ((b : ℕ)
          → Included b (range_array_add rs start end)
            ↔ (Included b rs ⊎ ((start.bytes ≤ b) × (b < end.bytes))))
unfolding range_array_add
range_array_add_lem previous [] start end o h k =
    (ground arith, λ b. (λ i. ground arith, λ i. ground arith))
range_array_add_lem previous (r ∷ []) start end o h k =
    (ground arith, λ b. (λ i. ground arith, λ i. ground arith))
range_array_add_lem previous (r ∷ (q ∷ rs)) start end o h k =
    let ih = range_array_add_lem r.end_byte (q ∷ rs) start end o.2 h k in
    ((o.0, o.1, ih.0), λ b. (λ i. ground (arith, (ih.1 b).0), λ i. ground (arith, (ih.1 b).1)))

-- One of the ranges ends behind the start of a piece and starts before its end.
abbrev pub Overlaps : List Range → ℕ → ℕ → Type 0
Overlaps [] start_byte end_byte = ⊥
Overlaps (r ∷ rs) start_byte end_byte =
    ((start_byte < r.end_byte) × (r.start_byte < end_byte)) ⊎ Overlaps rs start_byte end_byte

not_beyond :
    (e : ℕ) (rs : List Range) (start_byte end_byte : ℕ)
    → Ordered e rs
    → end_byte ≤ e
    → ¬ Overlaps rs start_byte end_byte
not_beyond e [] a z o h k = k
not_beyond e (r ∷ rs) a z o h (inl k) = omega arith
not_beyond e (r ∷ rs) a z o h (inr k) = not_beyond r.end_byte rs a z o.2 (omega arith) k

intersects_from_iff :
    (previous : ℕ) (rs : List Range) (start_byte end_byte : ℕ)
    → Ordered previous rs
    → (intersects_from rs start_byte end_byte ≡ true) ↔ Overlaps rs start_byte end_byte
unfolding intersects_from
intersects_from_iff previous [] a z o = (λ e. absurd (false≢true e), λ k. absurd k)
intersects_from_iff previous (r ∷ rs) a z o =
    let ih = intersects_from_iff r.end_byte rs a z o.2 in
    (λ e. ground (arith, ih.0), λ k. ground (arith, ih.1, not_beyond r.end_byte rs a z o.2))

Ordered-drop :
    (n previous : ℕ) (rs : List Range) → Ordered previous rs → (e : ℕ) × Ordered e (drop n rs)
Ordered-drop zero previous rs o = (previous, o)
Ordered-drop (suc n) previous [] o = (previous, tt)
Ordered-drop (suc n) previous (r ∷ rs) o = Ordered-drop n r.end_byte rs o.2

-- An ordered array intersects a piece of the text, from an index on, exactly when one of its ranges
-- from there on ends behind the start of the piece and starts before its end.
pub range_array_intersects_iff :
    (rs : List Range) (start_index start_byte end_byte : ℕ)
    → Ordered 0 rs
    → (range_array_intersects rs start_index start_byte end_byte ≡ true)
      ↔ Overlaps (drop start_index rs) start_byte end_byte
unfolding range_array_intersects
range_array_intersects_iff rs n a z o =
    let d = Ordered-drop n 0 rs o in intersects_from_iff d.0 (drop n rs) a z d.1
