-- ===== src/Lexer/Moves/Laws.antt =====
-- What advancing the lexer does to its position, and what it leaves alone.
use tree_sitter.Prelude.{
  ℕ, zero, suc, ltb, some, ◌+◌, ◌≤◌, ◌<◌, ◌≡◌, refl, sym, ap, ◌⊎◌, inl, inr, Bool, true, false,
  List, [], ◌∷◌, length, drop, if◌then◌else◌, u32_mod, arith,
}
use mathlib.Core.Path.{subst₂}
use tree_sitter.Length.{Length}
use tree_sitter.Range.{Range}
use tree_sitter.Lexer.{Lexer, eof, get_chunk, get_lookahead, with_chunk, past_lookahead}
use tree_sitter.Lexer.Ranges.{Ordered}
use tree_sitter.Lexer.Moves.{
  skip_ranges, fetch, advance_over, do_advance, get_column, line_start, column_loop,
}
use tree_sitter.Lexer.Moves.Skip.{Lands, Leaves, Skipped, skip_ranges-Skipped}

-- Two states of a lexer differ in nothing but the chunk and the lookahead, and maybe in the index.
pub record SamePlace (s s' : Lexer) : Type 0 where
  pub position : s'.current_position ≡ s.current_position
  pub ranges : s'.included_ranges ≡ s.included_ranges
  pub token_start : s'.token_start_position ≡ s.token_start_position
  pub token_end : s'.token_end_position ≡ s.token_end_position

with_chunk-SamePlace : (s : Lexer) (bytes : List ℕ) → SamePlace s (with_chunk s bytes)
with_chunk-SamePlace s [] = record {
  position = refl;
  ranges = refl;
  token_start = refl;
  token_end = refl;
}
with_chunk-SamePlace s (b ∷ bs) = record {
  position = refl;
  ranges = refl;
  token_start = refl;
  token_end = refl;
}

pub get_chunk-SamePlace : (s : Lexer) → SamePlace s (get_chunk s)
unfolding get_chunk
get_chunk-SamePlace s =
    with_chunk-SamePlace s (s.input.read s.current_position.bytes s.current_position.extent)

get_lookahead-SamePlace : (s : Lexer) → SamePlace s (get_lookahead s)
unfolding get_lookahead
get_lookahead-SamePlace s = ground (arith, get_chunk-SamePlace s)

fetch-SamePlace : (s : Lexer) (inside : Bool) → SamePlace s (fetch s inside)
unfolding fetch
fetch-SamePlace s true =
    ground (
      arith,
      get_chunk-SamePlace s,
      get_lookahead-SamePlace s,
      get_lookahead-SamePlace (get_chunk s),
    )
fetch-SamePlace s false = ground arith

-- The lexer stands in the first of the ranges that are left to it.
pub record InRange (s : Lexer) (r : Range) (rs : List Range) : Type 0 where
  pub here : drop s.current_included_range_index s.included_ranges ≡ r ∷ rs
  pub ordered : Ordered r.start_byte (r ∷ rs)
  pub after_start : r.start_byte ≤ s.current_position.bytes
  pub before_end : s.current_position.bytes < r.end_byte

-- One step from `s` to `s'` out of the range `r` or within it, the lookahead ending at `past`.
abbrev pub Moved : ℕ → Range → List Range → Lexer → Type 0
Moved past r rs s' =
    Lands past r rs s'.current_position.bytes ⊎ ((eof s' ≡ true) × Leaves past r rs)

-- All that a step does.
abbrev pub Advanced : ℕ → Range → List Range → Bool → Lexer → Lexer → Type 0
Advanced past r rs skip s s' =
    Moved past r rs s'
    × (s'.included_ranges ≡ s.included_ranges)
    × (s'.token_end_position ≡ s.token_end_position)
    × (s'.token_start_position ≡ (if skip then s'.current_position else s.token_start_position))

abbrev advanced : Lexer → Bool → Length × ℕ × Bool → Lexer
advanced s skip (p, i, inside) = record s {
  current_position = p;
  current_included_range_index = i;
  token_start_position = if skip then p else s.token_start_position;
}

fetch-index :
    (s : Lexer) → (fetch s false).current_included_range_index ≡ s.current_included_range_index
unfolding fetch
fetch-index s = refl

length-drop_all {ℓ} :
    {A : Type ℓ} (n : ℕ) (xs : List A) {y : A} {ys : List A}
    → drop n xs ≡ y ∷ ys
    → n + length (y ∷ ys) ≡ length xs
length-drop_all zero xs e = omega (arith, ap length e)
length-drop_all (suc n) [] e = cc
length-drop_all (suc n) (x ∷ xs) e = omega (arith, length-drop_all n xs e)

Lands-at :
    (past : ℕ) (r : Range) (rs : List Range) {p q : Length}
    → q ≡ p
    → Lands past r rs p.bytes
    → Lands past r rs q.bytes
Lands-at past r rs e f = rw e f

fetch-Moved :
    (s : Lexer) (skip : Bool) {r : Range} {rs : List Range} (o : Length × ℕ × Bool)
    → InRange s r rs
    → Skipped (past_lookahead s) s.current_included_range_index r rs o
    → Advanced (past_lookahead s).bytes r rs skip s (fetch (advanced s skip o) (o.2))
fetch-Moved s skip {r} {rs} (p, i, true) v f =
    let same = fetch-SamePlace (advanced s skip (p, i, true)) true in
    (
      inl (Lands-at (past_lookahead s).bytes r rs same.position f.0),
      same.ranges,
      same.token_end,
      rw (same.position) same.token_start,
    )
fetch-Moved s skip {r} {rs} (p, i, false) v f =
    let same = fetch-SamePlace (advanced s skip (p, i, false)) false in
    (inr (ended same, f.0), same.ranges, same.token_end, rw (same.position) same.token_start)
  where
    ended :
        SamePlace (advanced s skip (p, i, false)) (fetch (advanced s skip (p, i, false)) false)
        → eof (fetch (advanced s skip (p, i, false)) false) ≡ true
    ended same = ground (
      arith,
      fetch-index (advanced s skip (p, i, false)),
      f.1,
      ap length (same.ranges),
      length-drop_all s.current_included_range_index s.included_ranges v.here,
    )

past_lookahead-grows :
    (s : Lexer)
    → 0 < s.lookahead_size
    → s.current_position.bytes + s.lookahead_size < u32_mod
    → (past_lookahead s).bytes ≡ s.current_position.bytes + s.lookahead_size
unfolding past_lookahead
past_lookahead-grows s h f = ground arith

advance_over-Advanced :
    (s : Lexer) (skip : Bool) {r : Range} {rs : List Range}
    → InRange s r rs
    → s.current_position.bytes < (past_lookahead s).bytes
    → Advanced (past_lookahead s).bytes r rs skip s (advance_over (r ∷ rs) s skip)
unfolding advance_over
advance_over-Advanced s skip {r} {rs} v h =
    let o = skip_ranges (past_lookahead s) s.current_included_range_index r rs in
    fetch-Moved s skip o v (
      skip_ranges-Skipped (past_lookahead s) s.current_included_range_index r rs v.ordered
        (omega (arith, h, v.after_start)))

-- Advancing over a character in a range of the lexer moves the position to the end of the character,
-- if that lies before the end of the range. Otherwise it moves to the first included byte behind the
-- range, even if the character reaches further, or ends the input, when no included byte is left
-- there. The token then starts at the new position if the character is skipped, and where it did
-- otherwise; its end and the ranges stay. The position must not exceed 32 bits.
pub do_advance_moves :
    (s : Lexer) (skip : Bool) (r : Range) (rs : List Range)
    → InRange s r rs
    → 0 < s.lookahead_size
    → s.current_position.bytes + s.lookahead_size < u32_mod
    → Advanced (s.current_position.bytes + s.lookahead_size) r rs skip s (do_advance s skip)
unfolding do_advance
do_advance_moves s skip r rs v h f =
    let g = past_lookahead-grows s h f in
    subst₂ (λ past l. Advanced past r rs skip s (advance_over l s skip)) g (sym v.here)
      (advance_over-Advanced s skip v (omega (arith, g)))

-- The clause of `get_column`, with its callees shut.
pub get_column_lem :
    (fuel : ℕ) (s : Lexer)
    → get_column fuel s ≡ (
        let back = line_start s in
        let s' =
          if ltb back.current_position.bytes back.chunk_start then get_chunk back else back in
        let result = column_loop fuel s.current_position.bytes 0 (get_lookahead s') in
        if eof s' then some (0, s') else result)
unfolding get_column
get_column_lem fuel s = refl
