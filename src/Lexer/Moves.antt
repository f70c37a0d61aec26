-- ===== src/Lexer/Moves.antt =====
-- lib/src/lexer.c: advancing, marking the end of a token, and the column.
pub mod Skip
pub mod Laws
use tree_sitter.Prelude.{
  ℕ, zero, suc, ◌+◌, ◌-◌, Bool, true, false, not, ◌&&◌, ◌||◌, Option, none, some, List, [], ◌∷◌,
  ltb, leb, ◌==◌, if◌then◌else◌, drop, get_elem?, sub32,
}
use tree_sitter.Prelude.Int.{pos}
use tree_sitter.Point.{point_new}
use tree_sitter.Length.{Length}
use tree_sitter.Range.{Range, range_start, range_end}
use tree_sitter.Lexer.{
  Lexer, eof, has_chunk, included_range_count, outside_chunk, clear_chunk, get_chunk, get_lookahead,
  past_lookahead,
}

-- A range that a position has left, or that is empty.
abbrev pub is_left : ℕ → Range → Bool
is_left byte r = leb r.end_byte byte || r.end_byte == r.start_byte

-- The loop of `ts_lexer__do_advance` over the current range and those behind it: the position, the
-- index, and whether there still is a current range.
pub skip_ranges : Length → ℕ → Range → List Range → Length × ℕ × Bool
skip_ranges p i r [] = if is_left p.bytes r then (p, i + 1, false) else (p, i, true)
skip_ranges p i r (q ∷ rs) =
    let next = skip_ranges (range_start q) (i + 1) q rs in
    if is_left p.bytes r then next else (p, i, true)

-- The last block: the next character, or the end of the text.
pub fetch : Lexer → Bool → Lexer
unfolding clear_chunk get_chunk get_lookahead
fetch s true =
    if outside_chunk s s.current_position.bytes
    then get_lookahead (get_chunk s)
    else get_lookahead s
fetch s false = record (clear_chunk s) { lookahead = pos 0; lookahead_size = 1 }

-- With the ranges from the current one on. At the end of the ranges the code would read behind the
-- array, and the state stays as it is here; a lexer with a chunk is never there.
pub advance_over : List Range → Lexer → Bool → Lexer
unfolding past_lookahead skip_ranges fetch
advance_over [] s skip = s
advance_over (r ∷ rs) s skip =
    let (p, i, inside) = skip_ranges (past_lookahead s) s.current_included_range_index r rs in
    fetch
      (record s {
        current_position = p;
        current_included_range_index = i;
        token_start_position = if skip then p else s.token_start_position;
      })
      inside

-- `ts_lexer__do_advance`
unfoldable pub do_advance : Lexer → Bool → Lexer
unfolding advance_over
do_advance s skip = advance_over (drop s.current_included_range_index s.included_ranges) s skip

-- `ts_lexer__advance`
unfoldable pub advance : Lexer → Bool → Lexer
unfolding do_advance
advance s skip = if has_chunk s then do_advance s skip else s

-- The range before the current one, if the position is at the start of the current one.
abbrev left_range : Lexer → Option Range
left_range s =
    if eof s || s.current_included_range_index == 0
    then none
    else elim (get_elem? s.included_ranges s.current_included_range_index) [
      | none ↦ none
      | some r ↦
          if s.current_position.bytes == r.start_byte
          then get_elem? s.included_ranges (s.current_included_range_index - 1)
          else none
    ]

-- `ts_lexer__mark_end`
unfoldable pub mark_end : Lexer → Lexer
mark_end s = elim (left_range s) [
  | none ↦ record s { token_end_position = s.current_position }
  | some r ↦ record s { token_end_position = range_end r }
]

-- The loop of `ts_lexer__get_column`, on fuel, with the count so far.
pub column_loop : ℕ → ℕ → ℕ → Lexer → Option (ℕ × Lexer)
unfolding do_advance
column_loop zero goal result s = none
column_loop (suc fuel) goal result s =
    let s' = do_advance s false in
    let rest = column_loop fuel goal (result + 1) s' in
    if ltb s.current_position.bytes goal && has_chunk s
    then (if eof s' then some (result + 1, s') else rest)
    else some (result, s)

-- The position moved back to the start of its line.
abbrev pub line_start : Lexer → Lexer
line_start s = record s {
  did_get_column = true;
  current_position = record {
    bytes = sub32 s.current_position.bytes s.current_position.extent.column;
    extent = point_new s.current_position.extent.row 0;
  };
}

-- `ts_lexer__get_column`
unfoldable pub get_column : ℕ → Lexer → Option (ℕ × Lexer)
unfolding get_chunk get_lookahead column_loop
get_column fuel s =
    let back = line_start s in
    let s' = if ltb back.current_position.bytes back.chunk_start then get_chunk back else back in
    let result = column_loop fuel s.current_position.bytes 0 (get_lookahead s') in
    if eof s' then some (0, s') else result

-- `ts_lexer__is_at_included_range_start`
pub is_at_included_range_start : Lexer → Bool
is_at_included_range_start s = elim (get_elem? s.included_ranges s.current_included_range_index) [
  | none ↦ false
  | some r ↦ s.current_position.bytes == r.start_byte
]
