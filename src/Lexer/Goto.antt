-- ===== src/Lexer/Goto.antt =====
-- Where `ts_lexer_goto` moves the lexer.
use tree_sitter.Prelude.{
  ℕ, ◌≤◌, ◌≡◌, ◌≢◌, refl, ap, ◌⊎◌, inl, inr, true, false, List, [], ◌∷◌, length, Option-cases,
  arith, ◌+◌, ◌<◌,
}
use tree_sitter.Length.{Length}
use tree_sitter.Range.{Range}
use tree_sitter.Lexer.{Lexer, eof, goto, find_range, clear_chunk, goto_found, goto_end}
use tree_sitter.Lexer.Ranges.{Ordered, Included, IsLeast, landing, find_range-Found}

found-fields :
    (m : Lexer) (i : ℕ) (r : Range)
    → let s' = goto_found m i r in
      (s'.current_position.bytes ≡ landing m.current_position.bytes r)
      × (s'.current_included_range_index ≡ i)
      × (s'.included_ranges ≡ m.included_ranges)
unfolding clear_chunk
found-fields m i r = (ground arith, ground arith, ground arith)

end-fields :
    (m : Lexer) (rs : List Range)
    → rs ≢ []
    → ((goto_end m rs).current_included_range_index ≡ length m.included_ranges)
      × ((goto_end m rs).included_ranges ≡ m.included_ranges)
unfolding clear_chunk
end-fields m [] ne = absurd (ne refl)
end-fields m (r ∷ rs) ne = (refl, refl)

landed :
    (s' : Lexer) {byte : ℕ} {rs : List Range} (i : ℕ) (r : Range)
    → s'.current_position.bytes ≡ landing byte r
    → s'.current_included_range_index ≡ i
    → s'.included_ranges ≡ rs
    → IsLeast byte rs (landing byte r) × (i < 0 + length rs)
    → (eof s' ≡ false)
      × (byte ≤ s'.current_position.bytes)
      × IsLeast byte rs s'.current_position.bytes
landed s' i r at_byte at_range same f =
    (ground (arith, ap length same), ground arith, rw at_byte f.0)

-- A lexer that has gone somewhere stands at the least included byte at or after the given position,
-- in one of its ranges, or, if there is no such byte, at the end of its input; its ranges follow one
-- another, and there is at least one.
pub goto_lands :
    (s : Lexer) (p : Length)
    → Ordered 0 s.included_ranges
    → s.included_ranges ≢ []
    → let s' = goto s p in
      ((eof s' ≡ false)
        × (p.bytes ≤ s'.current_position.bytes)
        × IsLeast p.bytes s.included_ranges s'.current_position.bytes)
      ⊎ ((eof s' ≡ true) × ((b : ℕ) → p.bytes ≤ b → ¬ Included b s.included_ranges))
unfolding goto
goto_lands s p o ne = elim (Option-cases (find_range p.bytes 0 s.included_ranges)) [
  | inl e ↦
      let g = end-fields moved s.included_ranges ne in
      let f = find_range-Found p.bytes 0 0 s.included_ranges o in
      inr (rw (e, goto) (ground (arith, g)), rw e at f)
  | inr ((i, r), e) ↦
      let g = found-fields moved i r in
      let f = find_range-Found p.bytes 0 0 s.included_ranges o in
      inl (rw (e, goto) (landed (goto_found moved i r) i r g.0 g.1 g.2 (rw e at f)))
]
  where
    moved : Lexer
    moved = record s { current_position = p }

-- Going somewhere leaves the ranges as they are.
pub included_ranges-goto : (s : Lexer) (p : Length) → (goto s p).included_ranges ≡ s.included_ranges
unfolding goto
included_ranges-goto s p = elim (Option-cases (find_range p.bytes 0 s.included_ranges)) [
  | inl e ↦ rw (e, goto) (kept (record s { current_position = p }) s.included_ranges)
  | inr ((i, r), e) ↦ rw (e, goto) ((found-fields (record s { current_position = p }) i r).2)
]
  where
    kept : (m : Lexer) (rs : List Range) → (goto_end m rs).included_ranges ≡ m.included_ranges
    kept m [] = refl
    kept m (r ∷ rs) = refl
