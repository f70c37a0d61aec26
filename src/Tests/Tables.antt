-- ===== src/Tests/Tables.antt =====
-- The parse tables (lib/src/language.h, language.c) and the set of reductions at small inputs.
use tree_sitter.Prelude.{ℕ, suc, ◌≡◌, refl, true, false, some, List, [], ◌∷◌, length, arith}
use tree_sitter.Prelude.Int.{pos}
use tree_sitter.Language.Tables.{
  ParseTables, small_state_index, shift, reduce, action, entry, lookup, lookaheads, has_actions,
  has_reduce_action, next_state, lookahead_next, public_symbol, is_symbol_external,
  state_is_primary,
}
use tree_sitter.Language.Tables.Groups.{
  Group, listing, find, visits, HasGroups, lookaheads_match_lookup,
}
use tree_sitter.ReduceAction.{ReduceAction, Distinct}

-- one large and one small state; 1 and 2 are tokens, 3 and 4 are not
abbrev tables : ParseTables
tables = record {
  version = 14;
  symbol_count = 5;
  token_count = 3;
  external_token_count = 1;
  state_count = 2;
  large_state_count = 1;
  parse_table = 0 ∷ 1 ∷ 0 ∷ 6 ∷ 0 ∷ [];
  small_parse_table = 2 ∷ 3 ∷ 1 ∷ 2 ∷ 8 ∷ 2 ∷ 3 ∷ 4 ∷ 9 ∷ [];
  small_parse_table_map = 0 ∷ [];
  parse_actions =
      entry 0 false
      ∷ entry 1 true
      ∷ action (shift 1 false false)
      ∷ entry 1 true
      ∷ action (reduce 2 3 (pos 0) 0)
      ∷ [];
  public_symbol_map = 0 ∷ 1 ∷ 2 ∷ 3 ∷ 3 ∷ [];
  primary_state_ids = 0 ∷ 0 ∷ [];
}

abbrev groups : List Group
groups =
    record { value = 3; first = 2; others = [] }
    ∷ record { value = 8; first = 3; others = 4 ∷ [] }
    ∷ []

groups_in_table : HasGroups tables 1 groups (9 ∷ [])
unfolding small_state_index
groups_in_table = (omega arith, refl)

lookaheads_match_lookup_example :
    (visits (suc (length (listing groups))) tables (lookaheads tables 1) ≡ some (listing groups))
    × ((symbol : ℕ) → lookup tables 1 symbol ≡ find (listing groups) symbol)
lookaheads_match_lookup_example = lookaheads_match_lookup tables 1 groups (9 ∷ []) groups_in_table

large_visits : visits 3 tables (lookaheads tables 0) ≡ some ((1, 1) ∷ (3, 6) ∷ [])
unfolding lookaheads lookahead_next
large_visits = refl

table_reads :
    (has_actions tables 0 1 ≡ true)
    × (has_actions tables 0 2 ≡ false)
    × (next_state tables 0 1 ≡ 1)
    × (next_state tables 1 2 ≡ 0)
    × (next_state tables 1 4 ≡ 8)
    × (has_reduce_action tables 1 2 ≡ some true)
    × (has_reduce_action tables 0 1 ≡ some false)
    × (public_symbol tables 4 ≡ 3)
    × (is_symbol_external tables 1 ≡ true)
    × (state_is_primary tables 1 ≡ false)
unfolding has_actions next_state has_reduce_action public_symbol is_symbol_external state_is_primary
table_reads = (refl, refl, refl, refl, refl, refl, refl, refl, refl, refl)

abbrev reduction : ℕ → ℕ → ReduceAction
reduction symbol count = record {
  count = count;
  symbol = symbol;
  dynamic_precedence = pos 0;
  production_id = 0;
}

abbrev reductions : List ReduceAction
reductions = reduction 3 1 ∷ reduction 3 2 ∷ []

reductions-Distinct : Distinct reductions
reductions-Distinct = ground arith
