-- ===== src/Tests/Reductions.antt =====
-- The theorems on the parser (lib/src/parser.c) at small inputs.
use tree_sitter.Prelude.{
  ℕ, zero, suc, ◌+◌, ◌*◌, ◌<◌, ◌↔◌, ◌≡◌, refl, Bool, true, false, not, ◌&&◌, none, some, List, [],
  ◌∷◌, drop, ltb, arith, reverse,
}
use tree_sitter.Prelude.Int.{pos}
use tree_sitter.Prelude.Run.{ok}
use tree_sitter.Subtree.{Subtree, inline, error_cost}
use tree_sitter.Subtree.Compare.Order.{same_shape}
use tree_sitter.Stack.Versions.{Stack, base_head, halted}
use tree_sitter.Stack.Versions.Owned.{Owned, head_times}
use tree_sitter.Stack.{base_value}
use tree_sitter.Stack.Counts.{count_of, one, incoming}
use tree_sitter.ReduceAction.{
  ReduceAction, SameKey, Absent, Distinct, reduce_action_set_add, reduce_action_set_add_lem,
}
use tree_sitter.Language.Tables.{TableEntry, no_entry}
use tree_sitter.Parser.Advance.{AdvanceContext, Lookahead, op_count_per_timeout_check}
use tree_sitter.Parser.Turn.{advance_loop}
use tree_sitter.Parser.Turn.Checks.{
  EndsInTime, count_operations, count_operations_lem, advance_loop-stops,
}
use tree_sitter.Parser.{Parser, max_version_count}
use tree_sitter.Parser.Versions.{ErrorStatus, compare_versions}
use tree_sitter.Parser.Versions.Laws.{mirror, compare_versions-mirror}
use tree_sitter.Parser.Select.{select_tree}
use tree_sitter.Parser.Select.Order.{is_even, select_tree_swap}
use tree_sitter.Parser.Reduce.{split_root}
use tree_sitter.Parser.Reduce.Groups.{Split, split_root_lem}
use tree_sitter.Parser.Condense.{truncate_versions}
use tree_sitter.Parser.Condense.Truncate.{take, truncate_versions_lem}
use tree_sitter.Parser.Recover.{drop_inactive}
use tree_sitter.Parser.Recover.Inactive.{active_from, drop_inactive_lem}
use tree_sitter.Parser.Potential.{collect_actions}
use tree_sitter.Parser.Potential.Collected.{Collects, consulted, collect_actions_lem}
use tree_sitter.Parser.Reuse.{reuse_node, cannot_reuse}
use tree_sitter.Parser.Reuse.Safety.{Reusable, reuse_node-Reusable}
use tree_sitter.Tests.Parsers.{tables, idle, state_of, functions}
use tree_sitter.Tests.Stacks.{token_data, token}

abbrev status : ℕ → Bool → ErrorStatus
status cost is_in_error = record {
  cost = cost;
  node_count = 40;
  dynamic_precedence = pos 0;
  is_in_error = is_in_error;
}

compare_versions-mirror_example :
    compare_versions (status 100 false) (status 0 false)
    ≡ mirror (compare_versions (status 0 false) (status 100 false))
compare_versions-mirror_example = compare_versions-mirror (status 0 false) (status 100 false)

select_tree_swap_example :
    (b c : Bool) × (select_tree (some (token 3)) (some (token 4)) ≡ ok b)
    × (select_tree (some (token 4)) (some (token 3)) ≡ ok c)
    × ((b && c) ≡ (is_even (token 3) (token 4) && ltb 0 (error_cost (token 3))))
    × ((not b && not c) ≡ (
        is_even (token 3) (token 4)
        && not (ltb 0 (error_cost (token 3)))
        && same_shape (token 3) (token 4)))
select_tree_swap_example = select_tree_swap (token 3) (token 4)

abbrev read_trees : List Subtree
read_trees = token 3 ∷ inline (record (token_data 1) { extra = true }) ∷ []

split_root_lem_example : Split read_trees (split_root (reverse read_trees) [])
split_root_lem_example = split_root_lem read_trees

-- Seven versions at the base node, of which one has halted
abbrev crowded : Stack
crowded = record {
  heads =
      base_head 0
      ∷ base_head 0
      ∷ (record (base_head 0) { status = halted })
      ∷ base_head 0
      ∷ base_head 0
      ∷ base_head 0
      ∷ base_head 0
      ∷ [];
  store = record { nodes = (record (base_value 1) { ref_count = 8 }) ∷ []; node_pool = [] };
  base_node = 0;
}

crowded_counts :
    (q : ℕ)
    → count_of crowded.store.nodes q
      ≡ one 0 q + head_times q crowded.heads + incoming q crowded.store.nodes
unfolding count_of incoming
crowded_counts zero = refl
crowded_counts (suc q) = ground arith

crowded-Owned : Owned crowded
crowded-Owned = record {
  counts = crowded_counts;
  once = λ q. omega arith;
  unused = λ q h. absurd (omega arith);
  inside = λ q h. absurd (omega arith);
}

truncate_versions_lem_example :
    (s' : Stack) × (truncate_versions crowded ≡ ok s')
    × Owned s'
    × (s'.heads ≡ take max_version_count crowded.heads)
truncate_versions_lem_example = truncate_versions_lem crowded crowded-Owned

drop_inactive_lem_example :
    (s' : Stack) × (drop_inactive 6 crowded 1 ≡ ok s')
    × Owned s'
    × (s'.heads ≡ active_from 1 crowded.heads)
drop_inactive_lem_example = drop_inactive_lem 6 crowded 1 crowded-Owned refl

abbrev one_letter : ReduceAction
one_letter = record { count = 1; symbol = 3; dynamic_precedence = pos 0; production_id = 0 }

collect_actions_lem_example : Collects (consulted tables 2 0) false (one_letter ∷ [])
unfolding collect_actions
collect_actions_lem_example = collect_actions_lem tables 2 0 false (one_letter ∷ []) refl

-- A letter of the old tree, read in the state 4
abbrev letter_entry : TableEntry
letter_entry = record {
  actions = drop 2 tables.parse_actions;
  action_count = 1;
  is_reusable = true;
}

abbrev reusing : Parser
unfolding idle
reusing = record (idle crowded) {
  reusable_node = record {
    stack = (record { tree = token 3; child_index = 0; byte_offset = 0 }) ∷ [];
    last_external_token = none;
  };
}

reuse_node-Reusable_example : Reusable (some (token 3)) (some letter_entry) reusing 1 0 none
unfolding reuse_node reusing cannot_reuse
reuse_node-Reusable_example =
    reuse_node-Reusable 1 0 reusing 0 1 0 none (some (token 3)) (some letter_entry) reusing 1 refl

abbrev context : AdvanceContext
context = record { version = 0; position = 0; last_external_token = none; did_reuse = false }

abbrev no_lookahead : Lookahead
no_lookahead = record { state = 1; tree = none; entry = no_entry }

advance_loop-stops_example :
    EndsInTime functions
      (λ k. true)
      9
      context
      true
      no_lookahead
      (state_of (idle crowded))
      (advance_loop functions (λ k. true) 9 100 context true no_lookahead (state_of (idle crowded)))
advance_loop-stops_example =
    advance_loop-stops functions (λ k. true) 9 100 context true no_lookahead
      (state_of (idle crowded)) (λ k. refl) (omega arith) (omega arith)

count_operations_lem_example :
    let s = state_of (idle crowded) in
    let s' = count_operations functions (λ k. true) 9 250 s in
    (s'.operation_count < op_count_per_timeout_check)
    × (op_count_per_timeout_check * s'.checks + s'.operation_count
        ≡ op_count_per_timeout_check * s.checks + s.operation_count + 250)
count_operations_lem_example =
    count_operations_lem functions (λ k. true) 9 250 (state_of (idle crowded)) (omega arith)

reduce_action_set_add_lem_example :
    Distinct (reduce_action_set_add (one_letter ∷ []) one_letter)
    × ((b : ReduceAction)
        → Absent b (reduce_action_set_add (one_letter ∷ []) one_letter)
          ↔ (Absent b (one_letter ∷ []) × ¬ SameKey b one_letter))
reduce_action_set_add_lem_example = reduce_action_set_add_lem (one_letter ∷ []) one_letter (tt, tt)
