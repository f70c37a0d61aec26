-- ===== src/Tests/Texts.antt =====
-- The theorems on positions, lengths, the lexer and ranges (lib/src/point.h, length.h, lexer.c and
-- get_changed_ranges.c) at small inputs.
use tree_sitter.Prelude.{
  ℕ, ◌+◌, ◌≤◌, ◌<◌, ◌≡◌, refl, ◌↔◌, ◌⊎◌, true, false, some, List, [], ◌∷◌, drop, arith,
}
use tree_sitter.Prelude.Int.{ℤ, pos}
use tree_sitter.Point.{point_new}
use tree_sitter.Length.{length_new, length_zero, length_undefined}
use tree_sitter.Range.{Range}
use tree_sitter.Lexer.{Lexer, Input, eof, goto}
use tree_sitter.Lexer.Ranges.{Ordered, Included, IsLeast}
use tree_sitter.Lexer.Goto.{goto_lands}
use tree_sitter.Lexer.Moves.{do_advance}
use tree_sitter.Lexer.Moves.Laws.{Advanced, do_advance_moves}
use tree_sitter.Lexer.Session.{set_included_ranges}
use tree_sitter.Lexer.Session.Laws.{set_included_ranges_lem}
use tree_sitter.Prelude.Run.{ok, fault}
use tree_sitter.ChangedRanges.{range_array_add, range_array_intersects, get_changed_ranges}
use tree_sitter.ChangedRanges.Arrays.{range_array_add_lem, range_array_intersects_iff, Overlaps}
use tree_sitter.ChangedRanges.Sides.{covers, xor}
use tree_sitter.ChangedRanges.Difference.{get_changed_ranges_lem}

abbrev text : List ℕ
text = b'a' ∷ b'b' ∷ b'\n' ∷ b'c' ∷ b'd' ∷ b'e' ∷ []

-- The whole text at once, and one byte to a character.
abbrev decode_byte : List ℕ → ℕ × ℤ
decode_byte [] = (1, pos 0)
decode_byte (b ∷ bs) = (1, pos b)

abbrev ascii : Input
ascii = record { read = λ byte point. drop byte text; decode = decode_byte }

abbrev range : ℕ → ℕ → Range
range a z = record {
  start_point = point_new 0 a;
  end_point = point_new 0 z;
  start_byte = a;
  end_byte = z;
}

abbrev two_ranges : List Range
two_ranges = range 0 2 ∷ range 3 6 ∷ []

abbrev at_byte : ℕ → ℕ → Lexer
at_byte byte index = record {
  lookahead = pos b'b';
  result_symbol = 0;
  current_position = length_new byte 0 byte;
  token_start_position = length_zero;
  token_end_position = length_undefined;
  included_ranges = two_ranges;
  chunk = some text;
  input = ascii;
  current_included_range_index = index;
  chunk_start = 0;
  lookahead_size = 1;
  did_get_column = false;
}

goto_lands_example :
    let s' = goto (at_byte 1 0) (length_new 2 0 2) in
    ((eof s' ≡ false)
      × (2 ≤ s'.current_position.bytes)
      × IsLeast 2 two_ranges s'.current_position.bytes)
    ⊎ ((eof s' ≡ true) × ((b : ℕ) → 2 ≤ b → ¬ Included b two_ranges))
goto_lands_example = goto_lands (at_byte 1 0) (length_new 2 0 2) (omega arith) (λ e. cc)

-- From the last byte of the first range to the second range, over a character of four bytes that
-- reaches into it.
abbrev over_gap : Lexer
over_gap = record (at_byte 1 0) { lookahead_size = 4 }

do_advance_moves_example :
    Advanced (1 + 4) (range 0 2) (range 3 6 ∷ []) true over_gap (do_advance over_gap true)
do_advance_moves_example =
    do_advance_moves over_gap true (range 0 2) (range 3 6 ∷ [])
      (record {
        here = refl;
        ordered = omega arith;
        after_start = omega arith;
        before_end = omega arith;
      })
      (omega arith) (omega arith)

set_included_ranges_lem_example :
    let (accepted, s') = set_included_ranges (at_byte 1 0) (range 2 5 ∷ range 4 6 ∷ []) in
    ((accepted ≡ true) ↔ Ordered 0 (range 2 5 ∷ range 4 6 ∷ []))
    × ((accepted ≡ true) → s'.included_ranges ≡ range 2 5 ∷ range 4 6 ∷ [])
    × ((accepted ≡ false) → s' ≡ at_byte 1 0)
set_included_ranges_lem_example = set_included_ranges_lem (at_byte 1 0) (range 2 5) (range 4 6 ∷ [])

-- Six bytes into the line, at the end of the text.
range_array_add_lem_example :
    Ordered 0 (range_array_add two_ranges (length_new 8 0 8) (length_new 9 0 9))
    × ((b : ℕ)
        → Included b (range_array_add two_ranges (length_new 8 0 8) (length_new 9 0 9))
          ↔ (Included b two_ranges ⊎ ((8 ≤ b) × (b < 9))))
range_array_add_lem_example =
    range_array_add_lem 0 two_ranges (length_new 8 0 8) (length_new 9 0 9) (omega arith)
      (omega arith) (omega arith)

range_array_intersects_iff_example :
    (range_array_intersects two_ranges 1 1 4 ≡ true) ↔ Overlaps (range 3 6 ∷ []) 1 4
range_array_intersects_iff_example = range_array_intersects_iff two_ranges 1 1 4 (omega arith)

get_changed_ranges_lem_example :
    (rs : List Range) × (get_changed_ranges 7 two_ranges (range 1 4 ∷ []) [] ≡ ok rs)
    × Ordered 0 rs
    × ((b : ℕ) → Included b rs ↔ (xor (covers two_ranges b) (covers (range 1 4 ∷ []) b) ≡ true))
get_changed_ranges_lem_example =
    get_changed_ranges_lem 7 two_ranges (range 1 4 ∷ []) (omega arith) (omega arith) (omega arith)
      (omega arith) (omega arith)

-- A range that ends at the last byte and an empty one behind it: the code reads behind the array of the
-- other side, which is empty.
reads_behind_array :
    get_changed_ranges 9 [] (range 0 4294967295 ∷ range 4294967295 4294967295 ∷ []) [] ≡ fault
unfolding get_changed_ranges
reads_behind_array = refl
