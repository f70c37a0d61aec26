-- ===== src/Parser/Lex.antt =====
-- lib/src/parser.c: `ts_parser__lex` and the calls of the external scanner. The functions of the language
-- are generated or written for a grammar: they are parameters, and so is what the scanner remembers.
use tree_sitter.Prelude.{
  ℕ, zero, suc, ◌*◌, Bool, true, false, not, ◌&&◌, Option, none, some, List, [], leb, ◌==◌,
  if◌then◌else◌, drop, sub32, get_or,
}
use tree_sitter.Prelude.Int.{ℤ, pos}
use tree_sitter.Prelude.Run.{Run, ok, fault, out_of_fuel, ◌>>=◌}
use tree_sitter.Length.{Length, length_zero, length_sub}
use tree_sitter.Language.{sym_error}
use tree_sitter.Language.Tables.{has_actions}
use tree_sitter.Lexer.{Lexer, eof}
use tree_sitter.Lexer.Moves.{advance}
use tree_sitter.Lexer.Session as Session
use tree_sitter.Subtree.{Subtree, inline, heap}
use tree_sitter.Subtree.Leaf.{new_leaf, new_error}
use tree_sitter.Subtree.External as External
use tree_sitter.Stack.Versions.{
  position, last_external_token, has_advanced_since_error, error_state,
}
use tree_sitter.Parser.{Parser, LexMode}
use tree_sitter.Parser.Reuse.{mode_at}
use tree_sitter.Parser.Reduce.{map_heap}

-- The functions of `TSLanguage` and the fields that go with them. A scanner remembers a value of `P`.
pub record LanguageFunctions (P : Type 0) : Type 0 where
  pub lex_fn : Lexer → ℕ → Bool × Lexer
  pub keyword_lex_fn : Lexer → ℕ → Bool × Lexer
  pub states : List Bool
  pub symbol_map : List ℕ
  pub scan : P → Lexer → List Bool → Bool × P × Lexer
  pub serialize : P → List ℕ
  pub deserialize : P → List ℕ → P

-- `TSParser` with what its external scanner remembers; `operation_count` counts up to the next check
-- whether to stop, and `checks` those that were made.
pub record ParserState (P : Type 0) : Type 0 where
  pub parser : Parser
  pub external_scanner_payload : P
  pub operation_count : ℕ
  pub checks : ℕ

abbrev pub with_parser : {P : Type 0} → ParserState P → Parser → ParserState P
with_parser s p = record s { parser = p }

-- The bytes that the scanner takes up its state from; an inline token has none to read.
abbrev pub saved_state : Option Subtree → Run (List ℕ)
saved_state none = ok []
saved_state (some (inline d)) = fault
saved_state (some (heap d cs)) = ok d.external_scanner_state

-- The variables of the loop
pub record LexLoop (P : Type 0) : Type 0 where
  pub lexer : Lexer
  pub payload : P
  pub lex_mode : LexMode
  pub error_mode : Bool
  pub skipped_error : Bool
  pub first_error_character : ℤ
  pub error_start_position : Length
  pub error_end_position : Length
  pub lookahead_end_byte : ℕ

-- What the external scanner found: the bytes of its state, and whether they have changed.
pub record ExternalToken : Type 0 where
  pub external_scanner_state : List ℕ
  pub changed : Bool
  pub called_get_column : Bool

module _ {P : Type 0} (f : LanguageFunctions P) (fuel : ℕ) (p : Parser) (version : ℕ) where
  -- `ts_parser__external_scanner_scan`
  pub scan_external : P → Lexer → ℕ → Bool × P × Lexer
  scan_external payload lexer external_lex_state = f.scan payload lexer (
      if external_lex_state == 0
      then []
      else drop (p.language.tables.external_token_count * external_lex_state) f.states)

  -- An empty token is ignored while the parser recovers, unless the scanner's state has changed.
  pub ignores_token : Bool → Bool → ℕ → Lexer → Run Bool
  unfolding has_advanced_since_error
  ignores_token error_mode changed current_bytes lexer =
      if not (leb lexer.token_end_position.bytes current_bytes)
      then ok false
      else if error_mode
      then ok (not changed)
      else do
        advanced ← has_advanced_since_error fuel p.stack version
        ok (not advanced && not changed)

  -- The part of a round that asks the external scanner.
  pub lex_external : Option Subtree → LexLoop P → Run (Option ExternalToken × LexLoop P)
  unfolding Session.start Session.finish Session.reset External.external_scanner_state
      External.scanner_state_eq scan_external ignores_token
  lex_external external_token s = if s.lex_mode.external_lex_state == 0 then ok (none, s) else do
    saved ← saved_state external_token
    let (found, payload, scanned) =
        scan_external (f.deserialize s.payload saved) (Session.start s.lexer)
          s.lex_mode.external_lex_state
    let (lexer, lookahead_end_byte) = Session.finish scanned s.lookahead_end_byte
    let s' = record s { lexer = lexer; payload = payload; lookahead_end_byte = lookahead_end_byte }
    let otherwise : LexLoop P = record s' { lexer = Session.reset lexer s.lexer.current_position }
    let state = f.serialize payload
    let changed =
        not (External.scanner_state_eq (External.external_scanner_state external_token) state)
    if not found then ok (none, otherwise) else do
      ignored ← ignores_token s.error_mode changed s.lexer.current_position.bytes lexer
      if ignored
          then ok (none, otherwise)
          else ok (
            some (record {
              external_scanner_state = state;
              changed = changed;
              called_get_column = lexer.did_get_column;
            }),
            s',
          )

  -- What the internal lexer leaves: a token, the end of the input, or a further round.
  pub data LexStep : Type 0 where
    stopped more : LexLoop P → LexStep

  -- A character that starts no token is skipped.
  pub skip_character : LexLoop P → LexStep
  unfolding advance
  skip_character s =
      let s1 = if s.skipped_error then s else record s {
        skipped_error = true;
        error_start_position = s.lexer.token_start_position;
        error_end_position = s.lexer.token_start_position;
        first_error_character = s.lexer.lookahead;
      } in
      if s.lexer.current_position.bytes == s1.error_end_position.bytes
      then (if eof s.lexer
          then stopped (record s1 { lexer = record s.lexer { result_symbol = sym_error } })
          else (let lexer = advance s.lexer false in
              more (record s1 { lexer = lexer; error_end_position = lexer.current_position })))
      else more (record s1 { error_end_position = s.lexer.current_position })

  pub lex_internal : Length → LexLoop P → LexStep
  unfolding Session.start Session.finish Session.reset skip_character
  lex_internal start_position s =
      let (found, lexed) = f.lex_fn (Session.start s.lexer) s.lex_mode.lex_state in
      let (lexer, lookahead_end_byte) = Session.finish lexed s.lookahead_end_byte in
      let s' = record s { lexer = lexer; lookahead_end_byte = lookahead_end_byte } in
      if found
      then stopped s'
      else if not s.error_mode
      then more (record s' {
        error_mode = true;
        lex_mode = mode_at p.language error_state;
        lexer = Session.reset lexer start_position;
      })
      else skip_character s'

  -- The loop, on fuel
  pub lex_loop : ℕ → Option Subtree → Length → LexLoop P → Run (Option ExternalToken × LexLoop P)
  unfolding lex_external lex_internal
  lex_loop zero external_token start_position s = out_of_fuel
  lex_loop (suc rounds) external_token start_position s = do
    (token, s') ← lex_external external_token s
    elim token [
      | some t ↦ ok (some t, s')
      | none ↦ elim (lex_internal start_position s') [
        | stopped s'' ↦ ok (none, s'')
        | more s'' ↦ lex_loop rounds external_token start_position s''
      ]
    ]

  -- The symbol of a token that may be a keyword, and whether it is one.
  pub keyword_symbol : ℕ → LexLoop P → ℕ × Bool × Lexer
  unfolding Session.reset Session.start has_actions
  keyword_symbol parse_state s =
      let symbol = s.lexer.result_symbol in
      if symbol == p.language.keyword_capture_token && not (symbol == 0)
      then (let (is_keyword, lexer) =
            f.keyword_lex_fn (Session.start (Session.reset s.lexer s.lexer.token_start_position))
              0 in
          (
            if is_keyword
                  && lexer.token_end_position.bytes == s.lexer.token_end_position.bytes
                  && has_actions p.language.tables parse_state lexer.result_symbol
                then lexer.result_symbol
                else symbol,
            is_keyword,
            lexer,
          ))
      else (symbol, false, s.lexer)

  -- The leaf for what the loop found.
  pub lexed_tree : ℕ → Length → Option ExternalToken → LexLoop P → Subtree × Lexer
  unfolding new_error new_leaf length_sub keyword_symbol
  lexed_tree parse_state start_position token s =
      let padding = length_sub s.lexer.token_start_position start_position in
      let size = length_sub s.lexer.token_end_position s.lexer.token_start_position in
      let lookahead_bytes = sub32 s.lookahead_end_byte s.lexer.token_end_position.bytes in
      let l = p.language.language in
      if s.skipped_error
      then (
        new_error l s.first_error_character (length_sub s.error_start_position start_position)
            (length_sub s.error_end_position s.error_start_position)
            (sub32 s.lookahead_end_byte s.error_end_position.bytes) parse_state,
        s.lexer,
      )
      else elim token [
        | none ↦
            let (symbol, is_keyword, lexer) = keyword_symbol parse_state s in
            (
              new_leaf l symbol padding size lookahead_bytes parse_state false false is_keyword,
              lexer,
            )
        | some t ↦ (
          map_heap
              (λ d. record d {
                external_scanner_state = t.external_scanner_state;
                has_external_scanner_state_change = t.changed;
              })
              (new_leaf l (get_or f.symbol_map s.lexer.result_symbol 0) padding size lookahead_bytes
                parse_state true t.called_get_column false),
          s.lexer,
        )
      ]

-- The variables before the first round
abbrev pub first_round : {P : Type 0} → ParserState P → ℕ → Length → LexLoop P
unfolding Session.reset
first_round s parse_state start_position = record {
  lexer = Session.reset s.parser.lexer start_position;
  payload = s.external_scanner_payload;
  lex_mode = mode_at s.parser.language parse_state;
  error_mode = parse_state == error_state;
  skipped_error = false;
  first_error_character = pos 0;
  error_start_position = length_zero;
  error_end_position = length_zero;
  lookahead_end_byte = 0;
}

-- `ts_parser__lex`, on fuel
unfoldable pub lex :
    {P : Type 0}
    → ℕ
    → LanguageFunctions P
    → ParserState P
    → ℕ
    → ℕ
    → Run (Option Subtree × ParserState P)
unfolding position last_external_token lex_loop lexed_tree
lex {P} fuel f s version parse_state =
    let p = s.parser in
    if (mode_at p.language parse_state).lex_state == 65535 then ok (none, s) else do
      start_position ← position p.stack version
      external_token ← last_external_token p.stack version
      (token, loop) ←
          lex_loop f fuel p version fuel external_token start_position
            (first_round s parse_state start_position)
      let (tree, lexer) = lexed_tree f fuel p version parse_state start_position token loop
      ok (
        some tree,
        record s { parser = record p { lexer = lexer }; external_scanner_payload = loop.payload },
      )
