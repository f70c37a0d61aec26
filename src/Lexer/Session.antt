-- ===== src/Lexer/Session.antt =====
-- lib/src/lexer.c: what the parser calls to set a lexer up and to lex one token.
pub mod Laws
use tree_sitter.Prelude.{
  ℕ, zero, suc, ◌+◌, Bool, true, false, not, ◌&&◌, ◌||◌, Option, none, some, List, [], ◌∷◌, ltb,
  ◌==◌, if◌then◌else◌, add32,
}
use tree_sitter.Prelude.Int.{pos}
use tree_sitter.Length.{Length, length_zero, length_undefined, length_is_undefined}
use tree_sitter.Range.{Range, default_range}
use tree_sitter.Lexer.{
  Lexer, Input, eof, has_chunk, chunk_size, byte_order_mark, is_char, is_decode_error, clear_chunk,
  get_chunk, get_lookahead, goto,
}
use tree_sitter.Lexer.Moves.{advance, mark_end}

-- The loop over the given ranges; `previous` is where the one before ends.
pub check_ranges : ℕ → List Range → Bool
check_ranges previous [] = true
check_ranges previous (r ∷ rs) =
    let rest = check_ranges r.end_byte rs in
    if ltb r.start_byte previous || ltb r.end_byte r.start_byte then false else rest

abbrev with_ranges : Lexer → List Range → Lexer
with_ranges s ranges = goto (record s { included_ranges = ranges }) s.current_position

-- `ts_lexer_set_included_ranges`; the null pointer and a count of 0 are the empty list.
unfoldable pub set_included_ranges : Lexer → List Range → Bool × Lexer
unfolding check_ranges
set_included_ranges s [] = (true, with_ranges s (default_range ∷ []))
set_included_ranges s (r ∷ rs) =
    if check_ranges 0 (r ∷ rs) then (true, with_ranges s (r ∷ rs)) else (false, s)

-- `ts_lexer_init`. The input, which the code sets to zero, comes before the first use.
unfoldable pub init : Input → Lexer
unfolding set_included_ranges
init input =
    (set_included_ranges
      (record {
        lookahead = pos 0;
        result_symbol = 0;
        current_position = length_zero;
        token_start_position = length_zero;
        token_end_position = length_zero;
        included_ranges = [];
        chunk = none;
        input = input;
        current_included_range_index = 0;
        chunk_start = 0;
        lookahead_size = 0;
        did_get_column = false;
      })
      []).1

-- `ts_lexer_set_input`
unfoldable pub set_input : Lexer → Input → Lexer
unfolding clear_chunk
set_input s input = goto (clear_chunk (record s { input = input })) s.current_position

-- `ts_lexer_reset`
unfoldable pub reset : Lexer → Length → Lexer
reset s position = if position.bytes == s.current_position.bytes then s else goto s position

-- `ts_lexer_start`
unfoldable pub start : Lexer → Lexer
unfolding get_chunk get_lookahead advance
start s =
    let fresh = record s {
      token_start_position = s.current_position;
      token_end_position = length_undefined;
      result_symbol = 0;
      did_get_column = false;
    } in
    let chunked = if chunk_size fresh == 0 then get_chunk fresh else fresh in
    let ready = if chunked.lookahead_size == 0 then get_lookahead chunked else chunked in
    if eof fresh
    then fresh
    else if ready.current_position.bytes == 0 && is_char ready.lookahead byte_order_mark
    then advance ready true
    else ready

-- `ts_lexer_finish`; the number is the byte up to which the token was looked at.
unfoldable pub finish : Lexer → ℕ → Lexer × ℕ
unfolding mark_end length_is_undefined
finish s lookahead_end_byte =
    let ended = if length_is_undefined s.token_end_position then mark_end s else s in
    let started =
      if ltb ended.token_end_position.bytes ended.token_start_position.bytes
      then (record ended { token_start_position = ended.token_end_position })
      else ended in
    let current =
      add32 (add32 s.current_position.bytes 1) (if is_decode_error s.lookahead then 1 else 0) in
    (started, if ltb lookahead_end_byte current then current else lookahead_end_byte)

-- `ts_lexer_advance_to_end`, on fuel
pub advance_to_end : ℕ → Lexer → Option Lexer
unfolding advance
advance_to_end zero s = none
advance_to_end (suc fuel) s =
    let rest = advance_to_end fuel (advance s false) in if has_chunk s then rest else some s
