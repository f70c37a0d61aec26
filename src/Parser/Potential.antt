-- ===== src/Parser/Potential.antt =====
-- lib/src/parser.c: `ts_parser__do_all_potential_reductions`.
pub mod Collected
use tree_sitter.Prelude.{
  ℕ, zero, suc, ◌-◌, Bool, true, false, not, ◌&&◌, ◌||◌, Option, none, some, List, [], ◌∷◌, ltb,
  leb, ◌==◌, if◌then◌else◌,
}
use tree_sitter.Prelude.Run.{Run, ok, out_of_fuel, ◌>>=◌}
use tree_sitter.Language.Tables.{ParseTables, ParseAction, TableEntry, table_entry, action_at}
use tree_sitter.Language.Tables as Tables
use tree_sitter.ReduceAction.{ReduceAction, reduce_action_set_add}
use tree_sitter.Stack.Versions.{version_count, state, renumber_version, remove_version}
use tree_sitter.Parser.{Parser, with_stack, max_version_count}
use tree_sitter.Parser.Reuse.{checked}
use tree_sitter.Parser.Reduce.{reduce, merge_into_any}

-- Whether there is an action that shifts, and the reductions so far.
abbrev pub Collected : Type 0
Collected = Bool × List ReduceAction

abbrev pub collect_action : Option ParseAction → Collected → Collected
unfolding reduce_action_set_add
collect_action none (shifts, found) = (shifts, found)
collect_action (some (Tables.shift q is_extra repetition)) (shifts, found) =
    (shifts || (not is_extra && not repetition), found)
collect_action (some (Tables.reduce child_count sym precedence production)) (shifts, found) = (
  shifts,
  if ltb 0 child_count
      then reduce_action_set_add found (record {
        count = child_count;
        symbol = sym;
        dynamic_precedence = precedence;
        production_id = production;
      })
      else found,
)
collect_action (some Tables.accept) (shifts, found) = (shifts, found)
collect_action (some Tables.recover) (shifts, found) = (true, found)

-- The actions of an entry from one on.
pub collect_entry : ℕ → TableEntry → ℕ → Collected → Collected
unfolding collect_action
collect_entry zero e j found = found
collect_entry (suc rounds) e j found =
    collect_entry rounds e (suc j) (collect_action (action_at e j) found)

-- The actions in a state at so many symbols.
pub collect_symbols : ℕ → ParseTables → ℕ → ℕ → Collected → Run Collected
unfolding table_entry collect_entry
collect_symbols zero t q sym found = ok found
collect_symbols (suc rounds) t q sym found = do
  e ← checked (table_entry t q sym)
  collect_symbols rounds t q (suc sym) (collect_entry e.action_count e 0 found)

-- The symbol of the lookahead, or every token if that is 0.
unfoldable pub collect_actions : ParseTables → ℕ → ℕ → Run Collected
unfolding collect_symbols
collect_actions t q lookahead_symbol =
    if lookahead_symbol == 0
    then collect_symbols (t.token_count - 1) t q 1 (false, [])
    else collect_symbols 1 t q lookahead_symbol (false, [])

-- All reductions, with the result of the last one.
pub reduce_all : ℕ → Parser → ℕ → List ReduceAction → Option ℕ → Run (Option ℕ × Parser)
unfolding reduce
reduce_all fuel p version [] last = ok (last, p)
reduce_all fuel p version (a ∷ rest) last = do
  (result, p') ← reduce fuel p version (record {
    symbol = a.symbol;
    count = a.count;
    dynamic_precedence = a.dynamic_precedence;
    production_id = a.production_id;
    is_fragile = true;
    end_of_non_terminal_extra = false;
  })
  reduce_all fuel p' version rest result

-- The version that the loop goes on with, and whether the lookahead can be shifted there.
pub record PotentialStep : Type 0 where
  pub parser : Parser
  pub version : ℕ
  pub shifts : Bool

abbrev next_version : ℕ → ℕ → ℕ → ℕ
next_version start count version = if version == start then count else suc version

pub potential_step : ℕ → ℕ → ℕ → ℕ → ℕ → ℕ → Parser → Run PotentialStep
unfolding merge_into_any state collect_actions reduce_all renumber_version remove_version
potential_step fuel i start initial lookahead_symbol version p = do
  let count = version_count p.stack
  (merged, s) ← merge_into_any fuel (version - initial) p.stack none initial version
  if merged then ok (record { parser = with_stack p s; version = version; shifts = false }) else do
    q ← state s version
    (shifts, found) ← collect_actions p.language.tables q lookahead_symbol
    (last, p') ← reduce_all fuel (with_stack p s) version found none
    let step = λ (p'' : Parser).
        let r : PotentialStep = record {
          parser = p'';
          version = next_version start count version;
          shifts = shifts;
        } in
        ok r
    if shifts then step p' else elim (if ltb i max_version_count then last else none) [
      | some reduced ↦ (do
        s' ← renumber_version p'.stack reduced version
        ok (record { parser = with_stack p' s'; version = version; shifts = false }))
      | none ↦
          if lookahead_symbol == 0
          then step p'
          else (do s' ← remove_version p'.stack version; step (with_stack p' s'))
    ]

-- The loop, on fuel that its steps take too.
pub potential_loop : ℕ → ℕ → ℕ → ℕ → ℕ → ℕ → ℕ → Bool → Parser → Run (Bool × Parser)
unfolding version_count potential_step
potential_loop zero fuel i start initial lookahead_symbol version can_shift p = out_of_fuel
potential_loop (suc rounds) fuel i start initial lookahead_symbol version can_shift p =
    if leb (version_count p.stack) version
    then ok (can_shift, p)
    else potential_step fuel i start initial lookahead_symbol version p >>= λ step.
        potential_loop rounds fuel (suc i) start initial lookahead_symbol step.version
          (can_shift || step.shifts) step.parser

unfoldable pub do_all_potential_reductions : ℕ → Parser → ℕ → ℕ → Run (Bool × Parser)
unfolding potential_loop version_count
do_all_potential_reductions fuel p start lookahead_symbol =
    potential_loop fuel fuel 0 start (version_count p.stack) lookahead_symbol start false p
