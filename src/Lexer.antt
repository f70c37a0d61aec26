-- ===== src/Lexer.antt =====
-- lib/src/lexer.c: reading characters from the included ranges of a text.
--
-- The text comes in chunks from a callback of the client, and characters are decoded by macros of
-- ICU; both are fields of `Input`. A chunk is the list of its bytes, `none` the null pointer, and
-- `chunk_size` the length of that list. Logging is left out.
pub mod Ranges
pub mod Goto
pub mod Moves
pub mod Session
use tree_sitter.Prelude.{
  ℕ, zero, suc, ◌+◌, Bool, true, false, not, ◌&&◌, ◌||◌, Option, none, some, List, [], ◌∷◌, ltb,
  leb, ◌==◌, if◌then◌else◌, length, drop, get_elem?, get_or, add32, sub32,
}
use tree_sitter.Prelude.Int.{ℤ, pos, negsuc}
use tree_sitter.Point.{Point, point_new}
use tree_sitter.Length.{Length, length_zero, length_undefined, length_is_undefined}
use tree_sitter.Range.{Range, range_start, range_end, default_range}

-- `TSInput`, with the decoder of its encoding: from the bytes up to the end of the chunk, the
-- number of bytes that were read and the character.
pub record Input : Type 0 where
  pub read : ℕ → Point → List ℕ
  pub decode : List ℕ → ℕ × ℤ

-- `Lexer`
pub record Lexer : Type 0 where
  pub lookahead : ℤ
  pub result_symbol : ℕ
  pub current_position : Length
  pub token_start_position : Length
  pub token_end_position : Length
  pub included_ranges : List Range
  pub chunk : Option (List ℕ)
  pub input : Input
  pub current_included_range_index : ℕ
  pub chunk_start : ℕ
  pub lookahead_size : ℕ
  pub did_get_column : Bool

-- `TS_DECODE_ERROR` is -1.
abbrev pub decode_error : ℤ
decode_error = negsuc 0

abbrev pub is_char : ℤ → ℕ → Bool
is_char (pos c) k = c == k
is_char (negsuc c) k = false

abbrev pub is_decode_error : ℤ → Bool
is_decode_error (negsuc zero) = true
is_decode_error _ = false

abbrev pub byte_order_mark : ℕ
byte_order_mark = 0xfeff

abbrev pub included_range_count : Lexer → ℕ
included_range_count s = length s.included_ranges

abbrev pub bytes_of : Option (List ℕ) → List ℕ
bytes_of none = []
bytes_of (some bytes) = bytes

abbrev pub chunk_size : Lexer → ℕ
chunk_size s = length (bytes_of s.chunk)

abbrev pub has_chunk : Lexer → Bool
has_chunk s = elim s.chunk [ none ↦ false | some bytes ↦ true ]

abbrev pub eof : Lexer → Bool
eof s = s.current_included_range_index == included_range_count s

pub clear_chunk : Lexer → Lexer
clear_chunk s = record s { chunk = none; chunk_start = 0 }

-- An empty chunk is the end of the text.
abbrev with_chunk : Lexer → List ℕ → Lexer
with_chunk s [] = record s {
  chunk_start = s.current_position.bytes;
  chunk = none;
  current_included_range_index = included_range_count s;
}
with_chunk s (b ∷ bs) = record s { chunk_start = s.current_position.bytes; chunk = some (b ∷ bs) }

pub get_chunk : Lexer → Lexer
get_chunk s = with_chunk s (s.input.read s.current_position.bytes s.current_position.extent)

-- The last test: a character that cannot be decoded is one byte.
abbrev with_lookahead : Lexer → ℕ × ℤ → Lexer
with_lookahead s (size, c) = record s {
  lookahead = c;
  lookahead_size = if is_decode_error c then 1 else size;
}

-- Where fewer than four bytes are left and do not decode, the character is read once more from a
-- fresh chunk.
pub get_lookahead : Lexer → Lexer
unfolding get_chunk
get_lookahead s =
    let position = sub32 s.current_position.bytes s.chunk_start in
    let size = sub32 (chunk_size s) position in
    let (read, c) = s.input.decode (drop position (bytes_of s.chunk)) in
    let again = get_chunk s in
    if size == 0
    then (record s { lookahead_size = 1; lookahead = pos 0 })
    else if is_decode_error c && ltb size 4
    then with_lookahead again (s.input.decode (bytes_of again.chunk))
    else with_lookahead s (read, c)

-- The first range that ends behind a byte and is not empty, with its index.
pub find_range : ℕ → ℕ → List Range → Option (ℕ × Range)
find_range byte i [] = none
find_range byte i (r ∷ rs) =
    if ltb byte r.end_byte && ltb r.start_byte r.end_byte
    then some (i, r)
    else find_range byte (i + 1) rs

abbrev last_range : Range → List Range → Range
last_range r [] = r
last_range r (q ∷ rs) = last_range q rs

abbrev pub outside_chunk : Lexer → ℕ → Bool
outside_chunk s byte = ltb byte s.chunk_start || leb (add32 s.chunk_start (chunk_size s)) byte

abbrev goto_found : Lexer → ℕ → Range → Lexer
unfolding clear_chunk
goto_found s i r =
    let p =
      if leb s.current_position.bytes r.start_byte then range_start r else s.current_position in
    let moved = record s { current_position = p; current_included_range_index = i } in
    let kept = if has_chunk s && outside_chunk s p.bytes then clear_chunk moved else moved in
    record kept { lookahead_size = 0; lookahead = pos 0 }

-- There is always an included range; without one the code reads before the array.
abbrev goto_end : Lexer → List Range → Lexer
unfolding clear_chunk
goto_end s [] = s
goto_end s (r ∷ rs) = record (clear_chunk s) {
  current_included_range_index = included_range_count s;
  current_position = range_end (last_range r rs);
  lookahead_size = 1;
  lookahead = pos 0;
}

-- `ts_lexer_goto`
unfoldable pub goto : Lexer → Length → Lexer
unfolding clear_chunk find_range
goto s position =
    let moved : Lexer = record s { current_position = position } in
    elim (find_range position.bytes 0 s.included_ranges) [
      | none ↦ goto_end moved s.included_ranges
      | some (i, r) ↦ goto_found moved i r
    ]

-- The position behind the lookahead.
pub past_lookahead : Lexer → Length
past_lookahead s =
    let p = s.current_position in
    if s.lookahead_size == 0
    then p
    else if is_char s.lookahead b'\n'
    then (record {
      bytes = add32 p.bytes s.lookahead_size;
      extent = point_new (add32 p.extent.row 1) 0;
    })
    else (record {
      bytes = add32 p.bytes s.lookahead_size;
      extent = point_new p.extent.row (add32 p.extent.column s.lookahead_size);
    })
