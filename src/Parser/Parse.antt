-- ===== src/Parser/Parse.antt =====
-- lib/src/parser.c: `ts_parser_reset` and `ts_parser_parse`.
use tree_sitter.Prelude.{
  ℕ, zero, suc, Bool, true, false, not, ◌&&◌, ◌||◌, Option, none, some, List, [], ltb, leb, ◌==◌,
  if◌then◌else◌, length, get_elem?,
}
use tree_sitter.Prelude.Run.{Run, ok, fault, out_of_fuel, ◌>>=◌}
use tree_sitter.Length.{length_zero}
use tree_sitter.Range.{Range}
use tree_sitter.Language.{Language}
use tree_sitter.Subtree.{Subtree, error_cost}
use tree_sitter.Subtree.Balance.{balance}
use tree_sitter.Lexer.{Input}
use tree_sitter.Lexer.Session as Session
use tree_sitter.ChangedRanges.{get_changed_ranges}
use tree_sitter.ReusableNode.{reusable_node_clear, reusable_node_reset}
use tree_sitter.Stack.Versions.{
  Stack, head_at, is_active, state, position, node_count_since_error, version_count, clear,
}
use tree_sitter.Parser.{Parser, with_stack}
use tree_sitter.Parser.Reuse.{set_cached_token}
use tree_sitter.Parser.Condense.{condense_stack}
use tree_sitter.Parser.Lex.{LanguageFunctions, ParserState, with_parser}
use tree_sitter.Parser.Turn.{advance}

-- `TSTree`
pub record Tree : Type 0 where
  pub root : Subtree
  pub language : Language
  pub included_ranges : List Range

-- What a loop that runs out of fuel is.
abbrev pub enough {ℓ} : {A : Type ℓ} → Option A → Run A
enough none = out_of_fuel
enough (some a) = ok a

-- `ts_parser_reset`, for a language with an external scanner
unfoldable pub reset : {P : Type 0} → LanguageFunctions P → ParserState P → Run (ParserState P)
unfolding clear Session.reset set_cached_token
reset f s = do
  stack ← clear s.parser.stack
  let p = set_cached_token s.parser 0 none none
  ok (record s {
    parser = record p {
      reusable_node = reusable_node_clear p.reusable_node;
      lexer = Session.reset p.lexer length_zero;
      stack = stack;
      finished_tree = none;
      accept_count = 0;
    };
    external_scanner_payload = f.deserialize s.external_scanner_payload [];
  })

-- `ts_parser_has_outstanding_parse`; the node count is read only in the state 1.
pub has_outstanding_parse : Stack → Run (Bool × Stack)
unfolding state node_count_since_error
has_outstanding_parse s = do
  q ← state s 0
  if not (q == 1)
      then ok (true, s)
      else do (node_count, s') ← node_count_since_error s 0; ok (not (node_count == 0), s')

-- The variables `position` and `last_position`
pub record Progress : Type 0 where
  pub position : ℕ
  pub last_position : ℕ

-- A loop has stopped, for the check whether to stop said so, or has come to its end.
pub data LoopEnd (P : Type 0) : Type 0 where
  stopped : ParserState P → LoopEnd P
  done : (s : ParserState P) (progress : Progress) → LoopEnd P

-- Past the differences that end before the position.
pub skip_differences : ℕ → List Range → ℕ → ℕ → ℕ
skip_differences zero ranges index position = index
skip_differences (suc rounds) ranges index position =
    let further = skip_differences rounds ranges (suc index) position in
    elim (get_elem? ranges index) [
      | none ↦ index
      | some r ↦ if leb r.end_byte position then further else index
    ]

abbrev finished_below : Option Subtree → ℕ → Bool
finished_below none cost = false
finished_below (some t) cost = ltb (error_cost t) cost

module _ {P : Type 0} (f : LanguageFunctions P) (stops : ℕ → Bool) (fuel : ℕ) where
  -- A version advances until it gets further than the last one, or is no longer active.
  pub advance_version : ℕ → ℕ → Bool → Progress → ParserState P → Run (LoopEnd P)
  unfolding head_at advance position
  advance_version zero version allow_node_reuse r s = out_of_fuel
  advance_version (suc rounds) version allow_node_reuse r s = do
    h ← head_at s.parser.stack version
    if not (is_active h.status) then ok (done s r) else do
      (went_on, s') ← advance fuel f stops s version allow_node_reuse
      if not went_on then ok (stopped s') else do
        here ← position s'.parser.stack version
        if ltb r.last_position here.bytes || (ltb 0 version && here.bytes == r.last_position)
            then ok (done s' (record { position = here.bytes; last_position = here.bytes }))
            else advance_version rounds version allow_node_reuse
                (record r { position = here.bytes }) s'

  -- The loop over the versions
  pub advance_versions : ℕ → ℕ → Progress → ParserState P → Run (LoopEnd P)
  unfolding advance_version version_count
  advance_versions zero version r s = out_of_fuel
  advance_versions (suc rounds) version r s =
      if leb (version_count s.parser.stack) version then ok (done s r) else do
        end ← advance_version fuel version (version_count s.parser.stack == 1) r s
        elim end [
          | stopped s' ↦ ok (stopped s')
          | done s' r' ↦ advance_versions rounds (suc version) r' s'
        ]

  -- The outer loop, on fuel
  pub parse_loop : ℕ → Progress → ParserState P → Run (LoopEnd P)
  unfolding advance_versions condense_stack clear version_count skip_differences
  parse_loop zero r s = out_of_fuel
  parse_loop (suc rounds) r s = do
    end ← advance_versions fuel 0 r s
    elim end [
      | stopped s' ↦ ok (stopped s')
      | done s1 r1 ↦ (do
        (min_error_cost, p) ← condense_stack fuel s1.parser
        if finished_below p.finished_tree min_error_cost
            then (do stack ← clear p.stack; ok (done (with_parser s1 (with_stack p stack)) r1))
            else do
              let s2 = with_parser s1 (record p {
                included_range_difference_index =
                    skip_differences (length p.included_range_differences)
                      p.included_range_differences p.included_range_difference_index r1.position;
              })
              if version_count s1.parser.stack == 0
                  then ok (done s2 r1)
                  else parse_loop rounds r1 s2)
    ]

  -- The old tree's nodes can be reused, but where the included ranges differ.
  pub begin : Option Tree → Input → ParserState P → Run (ParserState P)
  unfolding Session.set_input has_outstanding_parse get_changed_ranges reusable_node_reset
  begin old_tree input s = do
    let lexer = Session.set_input s.parser.lexer input
    (outstanding, stack) ← has_outstanding_parse s.parser.stack
    let p : Parser = record s.parser {
      lexer = lexer;
      stack = stack;
      included_range_differences = [];
      included_range_difference_index = 0;
    }
    p' ←
        (if outstanding then ok p else elim old_tree [
          | none ↦ ok (record p { reusable_node = reusable_node_clear p.reusable_node })
          | some tree ↦ (do
            differences ← get_changed_ranges fuel tree.included_ranges lexer.included_ranges []
            r ← reusable_node_reset p.reusable_node tree.root
            ok (record p { included_range_differences = differences; reusable_node = r }))
        ])
    ok (record s { parser = p'; operation_count = 0 })

  -- `ts_parser_parse`, for a parser with a language; no tree if it has stopped.
  unfoldable pub parse : Option Tree → Input → ParserState P → Run (Option Tree × ParserState P)
  unfolding begin parse_loop balance reset
  parse old_tree input s = do
    s1 ← begin old_tree input s
    end ← parse_loop fuel (record { position = 0; last_position = 0 }) s1
    elim end [
      | stopped s2 ↦ ok (none, s2)
      | done s2 r ↦ elim s2.parser.finished_tree [
        | none ↦ fault
        | some finished ↦ (do
          root ← enough (balance fuel s2.parser.language.language finished)
          s3 ← reset f s2
          ok (
            some (record {
              root = root;
              language = s2.parser.language.language;
              included_ranges = s2.parser.lexer.included_ranges;
            }),
            s3,
          ))
      ]
    ]
