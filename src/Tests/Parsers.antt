-- ===== src/Tests/Parsers.antt =====
-- The parser (lib/src/parser.c) at a small language: one or more letters.
use tree_sitter.Prelude.{
  ℕ, ◌≡◌, refl, Bool, true, false, Option, none, some, List, [], ◌∷◌, drop, if◌then◌else◌,
}
use tree_sitter.Prelude.Int.{ℤ, pos, ◌+ℤ◌}
use tree_sitter.Point.{point_add, point_sub}
use tree_sitter.Length.{length_add}
use tree_sitter.Stack.Pop.{add_version}
use tree_sitter.Parser.Reduce.{add_precedence}
use tree_sitter.Prelude.Run.{Run, ok, ◌>>=◌}
use tree_sitter.Language.{SymbolMetadata, symbol_metadata_of, alias_sequence}
use tree_sitter.Language.Tables.{ParseTables, shift, reduce, accept, recover, action, entry}
use tree_sitter.Subtree.{symbol, child_count, error_cost, total_bytes}
use tree_sitter.Lexer.{Lexer, Input, eof, is_char, goto}
use tree_sitter.Lexer.Moves.{advance, mark_end}
use tree_sitter.Lexer.Session as Session
use tree_sitter.Stack.Versions as Versions
use tree_sitter.ReusableNode.{reusable_node_new}
use tree_sitter.Parser.{Parser, ParserLanguage}
use tree_sitter.Parser.Lex.{LanguageFunctions, ParserState}
use tree_sitter.Parser.Parse.{Tree, parse}

-- The symbols are the end, a letter, the file and a repetition; the file is a repetition of letters.
abbrev pub tables : ParseTables
tables = record {
  version = 14;
  symbol_count = 4;
  token_count = 2;
  external_token_count = 0;
  state_count = 6;
  large_state_count = 6;
  parse_table =
      7 ∷ 7 ∷ 0 ∷ 0 ∷ 0 ∷ 1 ∷ 3 ∷ 4 ∷ 9 ∷ 9 ∷ 0 ∷ 0 ∷ 5 ∷ 0 ∷ 0 ∷ 0 ∷ 3 ∷ 11 ∷ 0 ∷ 0 ∷ 13 ∷ 13 ∷ 0
      ∷ 0 ∷ [];
  small_parse_table = [];
  small_parse_table_map = [];
  parse_actions =
      entry 0 false
      ∷ entry 1 true
      ∷ action (shift 2 false false)
      ∷ entry 1 true
      ∷ action (reduce 1 2 (pos 0) 0)
      ∷ entry 1 true
      ∷ action accept
      ∷ entry 1 false
      ∷ action recover
      ∷ entry 1 true
      ∷ action (reduce 1 3 (pos 0) 0)
      ∷ entry 1 true
      ∷ action (shift 5 false false)
      ∷ entry 1 true
      ∷ action (reduce 2 3 (pos 0) 0)
      ∷ [];
  public_symbol_map = 0 ∷ 1 ∷ 2 ∷ 3 ∷ [];
  primary_state_ids = [];
}

abbrev pub shown : SymbolMetadata
shown = record { visible = true; named = true; supertype = false }

abbrev pub language : ParserLanguage
language = record {
  language = record {
    symbol_metadata = shown ∷ shown ∷ shown ∷ shown ∷ [];
    max_alias_sequence_length = 0;
    alias_sequences = [];
  };
  tables = tables;
  lex_modes = [];
  keyword_capture_token = 0;
}

-- A letter is `a`.
unfoldable pub lex_letter : Lexer → ℕ → Bool × Lexer
unfolding mark_end advance
lex_letter s state =
    if eof s
    then (true, mark_end (record s { result_symbol = 0 }))
    else if is_char s.lookahead b'a'
    then (true, mark_end (record (advance s false) { result_symbol = 1 }))
    else (false, s)

abbrev pub functions : LanguageFunctions (Unit {0})
functions = record {
  lex_fn = lex_letter;
  keyword_lex_fn = lex_letter;
  states = [];
  symbol_map = [];
  scan = λ u s valid. (false, u, s);
  serialize = λ u. [];
  deserialize = λ u bytes. u;
}

abbrev pub decode_byte : List ℕ → ℕ × ℤ
decode_byte [] = (1, pos 0)
decode_byte (b ∷ bs) = (1, pos b)

abbrev pub input : List ℕ → Input
input text = record { read = λ byte point. drop byte text; decode = decode_byte }

-- A new parser on a stack
unfoldable pub idle : Versions.Stack → Parser
unfolding Session.init reusable_node_new
idle stack = record {
  language = language;
  lexer = Session.init (input []);
  stack = stack;
  finished_tree = none;
  token_cache = record { token = none; last_external_token = none; byte_index = 0 };
  reusable_node = reusable_node_new;
  accept_count = 0;
  included_range_differences = [];
  included_range_difference_index = 0;
}

abbrev pub state_of : Parser → ParserState (Unit {0})
state_of p = record { parser = p; external_scanner_payload = tt; operation_count = 0; checks = 0 }

abbrev new_parser : Run (ParserState (Unit {0}))
unfolding Versions.new idle
new_parser = Versions.new >>= λ stack. ok (state_of (idle stack))

-- The symbol, the number of children, the size and the error cost of a tree
abbrev summary : Option Tree → Option (ℕ × ℕ × ℕ × ℕ)
summary none = none
summary (some t) = some (symbol t.root, child_count t.root, total_bytes t.root, error_cost t.root)

abbrev parsed : (ℕ → Bool) → List ℕ → Run (Option (ℕ × ℕ × ℕ × ℕ))
unfolding parse
parsed stops text = do
  s ← new_parser
  (tree, s') ← parse functions stops 40 none (input text) s
  ok (summary tree)

abbrev two_letters : List ℕ
two_letters = b'a' ∷ b'a' ∷ []

parsed_letters : parsed (λ n. false) two_letters ≡ ok (some (2, 2, 2, 0))
unfolding parsed new_parser idle goto lex_letter point_sub length_add symbol_metadata_of point_add
    add_version add_precedence ◌+ℤ◌ alias_sequence
parsed_letters = refl

-- The character in the middle is skipped: 500 for the recovery, 100 for a tree, 1 for a character.
parsed_error : parsed (λ n. false) (b'a' ∷ b'?' ∷ b'a' ∷ []) ≡ ok (some (2, 2, 3, 601))
unfolding parsed new_parser idle goto lex_letter point_sub length_add symbol_metadata_of point_add
    add_version add_precedence ◌+ℤ◌ alias_sequence
parsed_error = refl

-- A text without letters is an error.
parsed_empty : parsed (λ n. false) [] ≡ ok (some (65535, 1, 0, 500))
unfolding parsed new_parser idle goto lex_letter point_sub length_add symbol_metadata_of point_add
    add_version add_precedence ◌+ℤ◌ alias_sequence
parsed_empty = refl
