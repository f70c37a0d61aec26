-- ===== src/Parser/Turn.antt =====
-- lib/src/parser.c: the rounds of `ts_parser__advance`.
pub mod Checks
use tree_sitter.Prelude.{
  ℕ, zero, suc, Bool, true, false, Option, none, some, ◌==◌, if◌then◌else◌, add32,
}
use tree_sitter.Prelude.Run.{Run, ok, out_of_fuel, ◌>>=◌}
use tree_sitter.Language.{sym_end}
use tree_sitter.Language.Tables.{TableEntry, table_entry, no_entry}
use tree_sitter.Subtree.{Subtree, symbol}
use tree_sitter.Stack.Versions as Versions
use tree_sitter.Parser.{Parser}
use tree_sitter.Parser.Reuse.{checked, reuse_node, get_cached_token, set_cached_token}
use tree_sitter.Parser.Lex.{LanguageFunctions, ParserState, with_parser, lex}
use tree_sitter.Parser.Advance.{
  AdvanceContext, Lookahead, AdvanceStep, advanced, again, process, op_count_per_timeout_check,
}

-- What a round comes to: the call ends, whether the parser goes on or has stopped, or a further round.
pub data TurnEnd (P : Type 0) : Type 0 where
  over : (goes_on : Bool) (s : ParserState P) → TurnEnd P
  further : (needs_lex : Bool) (la : Lookahead) (s : ParserState P) → TurnEnd P

-- The lookahead with its entry; a null token stands for the end of a rule.
pub with_entry :
    {P : Type 0}
    → AdvanceContext
    → Lookahead
    → Option Subtree
    → ParserState P
    → Run (Lookahead × ParserState P)
unfolding set_cached_token table_entry
with_entry c la none s = do
  entry ← checked (table_entry s.parser.language.tables la.state sym_end)
  ok (record la { tree = none; entry = entry }, s)
with_entry c la (some t) s = do
  entry ← checked (table_entry s.parser.language.tables la.state (symbol t))
  ok (
    record la { tree = some t; entry = entry },
    with_parser s (set_cached_token s.parser c.position c.last_external_token (some t)),
  )

-- `stops n` is whether the cancellation flag is set or the time is up at the check `n`.
module _ {P : Type 0} (f : LanguageFunctions P) (stops : ℕ → Bool) (fuel : ℕ) where
  -- The lexer runs again, if it has to.
  pub relex : AdvanceContext → Bool → Lookahead → ParserState P → Run (Lookahead × ParserState P)
  unfolding lex with_entry
  relex c needs_lex la s =
      if needs_lex
      then lex fuel f s c.version la.state >>= (λ x. with_entry c la x.0 x.1)
      else ok (la, s)

  -- One more operation; at every so many the parser asks whether to stop.
  pub count_operation : ParserState P → Bool × ParserState P
  count_operation s =
      if add32 s.operation_count 1 == op_count_per_timeout_check
      then (stops s.checks, record s { operation_count = 0; checks = suc s.checks })
      else (false, record s { operation_count = add32 s.operation_count 1 })

  -- What comes behind the check in a round
  abbrev pub turned : ParserState P → AdvanceStep → TurnEnd P
  turned s (advanced p) = over true (with_parser s p)
  turned s (again needs_lex la p) = further needs_lex la (with_parser s p)

  pub turn : AdvanceContext → Bool → Lookahead → ParserState P → Run (TurnEnd P)
  unfolding relex count_operation process
  turn c needs_lex la s = relex c needs_lex la s >>= λ x.
      if (count_operation x.1).0
      then ok (over false (count_operation x.1).1)
      else process fuel c (count_operation x.1).1.parser x.0 >>= λ step.
          ok (turned (count_operation x.1).1 step)

  -- The call's result, or what further rounds give
  abbrev pub settle :
      (Bool → Lookahead → ParserState P → Run (Bool × ParserState P))
      → TurnEnd P
      → Run (Bool × ParserState P)
  settle rest (over goes_on s) = ok (goes_on, s)
  settle rest (further needs_lex la s) = rest needs_lex la s

  -- The loop, on fuel; `false` tells that the parser has stopped.
  pub advance_loop :
      ℕ → AdvanceContext → Bool → Lookahead → ParserState P → Run (Bool × ParserState P)
  unfolding turn
  advance_loop zero c needs_lex la s = out_of_fuel
  advance_loop (suc rounds) c needs_lex la s =
      turn c needs_lex la s >>= settle (advance_loop rounds c)

abbrev entry_or : Option TableEntry → TableEntry → TableEntry
entry_or none e = e
entry_or (some e) e' = e

-- A node of the old tree, or the token that the lexer returned last, else none.
pub first_lookahead :
    ℕ → Parser → ℕ → ℕ → ℕ → Option Subtree → Bool → Run (Bool × Lookahead × Parser)
unfolding reuse_node get_cached_token
first_lookahead fuel p version q position last_external_token allow_node_reuse = do
  (reused, entry, p', q') ←
      (if allow_node_reuse
        then reuse_node fuel fuel p version q position last_external_token
        else ok (none, none, p, q))
  let entry' = entry_or entry no_entry
  elim reused [
    | some t ↦ ok (true, record { state = q'; tree = some t; entry = entry' }, p')
    | none ↦ (do
      cached ← get_cached_token p' q' position last_external_token
      ok (
        false,
        elim cached [
          | some x ↦ record { state = q'; tree = some (x.0); entry = x.1 }
          | none ↦ record { state = q'; tree = none; entry = entry' }
        ],
        p',
      ))
  ]

abbrev is_null : Option Subtree → Bool
is_null none = true
is_null (some t) = false

-- `ts_parser__advance`
unfoldable pub advance :
    {P : Type 0}
    → ℕ
    → LanguageFunctions P
    → (ℕ → Bool)
    → ParserState P
    → ℕ
    → Bool
    → Run (Bool × ParserState P)
unfolding Versions.state Versions.position Versions.last_external_token first_lookahead advance_loop
advance fuel f stops s version allow_node_reuse = do
  let p = s.parser
  q ← Versions.state p.stack version
  position ← Versions.position p.stack version
  token ← Versions.last_external_token p.stack version
  (did_reuse, la, p') ← first_lookahead fuel p version q position.bytes token allow_node_reuse
  advance_loop f stops fuel fuel
      (record {
        version = version;
        position = position.bytes;
        last_external_token = token;
        did_reuse = did_reuse;
      })
      (is_null la.tree) la (with_parser s p')
