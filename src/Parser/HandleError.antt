-- ===== src/Parser/HandleError.antt =====
-- lib/src/parser.c: `ts_parser__handle_error`.
use tree_sitter.Prelude.{
  ℕ, zero, suc, ◌-◌, ◌%◌, Bool, true, false, not, ◌||◌, none, some, ltb, leb, ◌==◌, if◌then◌else◌,
  add32, u16_mod,
}
use tree_sitter.Prelude.Run.{Run, ok, fault, out_of_fuel, ◌>>=◌}
use tree_sitter.Length.{Length, length_sub}
use tree_sitter.Language.Tables.{next_state, has_reduce_action}
use tree_sitter.Lexer.Session.{reset}
use tree_sitter.Lexer.Moves.{mark_end}
use tree_sitter.Subtree.{Subtree, leaf_symbol, total_bytes, lookahead_bytes, child_count}
use tree_sitter.Subtree.Leaf.{new_missing_leaf}
use tree_sitter.Stack.Versions.{
  Stack, error_state, push, state, position, version_count, copy_version,
}
use tree_sitter.Stack.Merge.{merge}
use tree_sitter.Stack.Pop.{record_summary}
use tree_sitter.Parser.{Parser, with_stack, max_summary_depth}
use tree_sitter.Parser.Reuse.{checked, breakdown_lookahead}
use tree_sitter.Parser.Potential.{do_all_potential_reductions}
use tree_sitter.Parser.Recover.{recover}

-- A copy of the version takes a missing token and its reductions: whether the lookahead can follow.
pub insert_missing : ℕ → Parser → ℕ → ℕ → ℕ → Length → Subtree → Run (Bool × Parser)
unfolding reset mark_end length_sub copy_version new_missing_leaf push do_all_potential_reductions
insert_missing fuel p v missing_symbol q position lookahead = do
  let lexer = mark_end (reset p.lexer position)
  let padding = length_sub lexer.token_end_position position
  (copy, s) ← copy_version p.stack v
  s' ←
      push s copy
        (some (
          new_missing_leaf p.language.language missing_symbol padding
            (add32 (total_bytes lookahead) (lookahead_bytes lookahead))))
        false q
  do_all_potential_reductions fuel (record p { lexer = lexer; stack = s' }) copy
      (leaf_symbol lookahead)

-- The loop over so many symbols, from one on.
pub missing_loop : ℕ → ℕ → Parser → ℕ → ℕ → ℕ → Length → Subtree → Run (Bool × Parser)
unfolding next_state has_reduce_action insert_missing
missing_loop fuel zero p v q missing_symbol position lookahead = ok (false, p)
missing_loop fuel (suc rounds) p v q missing_symbol position lookahead = do
  let after = next_state p.language.tables q missing_symbol
  let further =
      λ (p' : Parser). missing_loop fuel rounds p' v q (suc missing_symbol) position lookahead
  if after == 0 || after == q then further p else do
    reduces ← checked (has_reduce_action p.language.tables after (leaf_symbol lookahead))
    if not reduces then further p else do
      (inserted, p') ← insert_missing fuel p v missing_symbol after position lookahead
      if inserted then ok (true, p') else further p'

-- What `ts_parser__handle_error` knows of the versions.
pub record ErrorContext : Type 0 where
  pub version : ℕ
  pub previous_version_count : ℕ
  pub version_count : ℕ
  pub position : Length
  pub lookahead : Subtree

-- The loop over the version and those that the reductions have added: each comes into the error state.
pub discontinue : ℕ → ℕ → ErrorContext → ℕ → Bool → Parser → Run Parser
unfolding state missing_loop push
discontinue zero fuel c v did_insert p = out_of_fuel
discontinue (suc rounds) fuel c v did_insert p = if leb c.version_count v then ok p else do
  (did_insert', p') ←
      (if did_insert then ok (true, p) else (do
        q ← state p.stack v
        missing_loop fuel (p.language.tables.token_count % u16_mod - 1) p v q 1 c.position
            c.lookahead))
  s ← push p'.stack v none false error_state
  discontinue rounds fuel c (if v == c.version then c.previous_version_count else suc v) did_insert'
      (with_stack p' s)

-- So many versions go into one; one that does not fails the assertion.
pub merge_all : ℕ → ℕ → ℕ → ℕ → Stack → Run Stack
unfolding merge
merge_all fuel zero version other s = ok s
merge_all fuel (suc rounds) version other s = do
  (merged, s') ← merge fuel s version other
  if merged then merge_all fuel rounds version other s' else fault

-- `ts_parser__handle_error`; the loop over the versions visits each at most once.
unfoldable pub handle_error : ℕ → Parser → ℕ → Subtree → Run Parser
unfolding version_count do_all_potential_reductions position discontinue merge_all record_summary
    breakdown_lookahead recover
handle_error fuel p version lookahead = do
  let previous = version_count p.stack
  (shifts, p1) ← do_all_potential_reductions fuel p version 0
  let count = version_count p1.stack
  here ← position p1.stack version
  p2 ←
      discontinue (suc (suc count)) fuel
        (record {
          version = version;
          previous_version_count = previous;
          version_count = count;
          position = here;
          lookahead = lookahead;
        })
        version false p1
  s ← merge_all fuel (count - previous) version previous p2.stack
  s' ← record_summary fuel s version max_summary_depth
  (token, p3) ←
      (if ltb 0 (child_count lookahead)
        then breakdown_lookahead fuel (with_stack p2 s') lookahead error_state
        else ok (lookahead, with_stack p2 s'))
  recover fuel p3 version token
