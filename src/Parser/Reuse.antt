-- ===== src/Parser/Reuse.antt =====
-- lib/src/parser.c: reusing tokens and nodes of the old tree.
pub mod Safety
use tree_sitter.Prelude.{
  ℕ, zero, suc, Bool, true, false, not, ◌&&◌, ◌||◌, Option, none, some, List, [], ◌∷◌, ltb, leb,
  ◌==◌, if◌then◌else◌, get_or, add32, u16_mod, u32_max, length,
}
use tree_sitter.Prelude.Run.{Run, ok, fault, out_of_fuel, ◌>>=◌}
use tree_sitter.Language.{sym_end}
use tree_sitter.Language.Tables.{ParseTables, TableEntry, table_entry, next_state}
use tree_sitter.Subtree.{
  Subtree, Subtrees, nil, cons, symbol, size, extra, is_error, is_eof, missing, is_fragile,
  has_changes, is_keyword, parse_state, leaf_symbol, leaf_parse_state, child_count, children,
  total_bytes,
}
use tree_sitter.Subtree.External.{external_scanner_state_eq}
use tree_sitter.ChangedRanges.{range_array_intersects}
use tree_sitter.ReusableNode.{
  ReusableNode, reusable_node_tree, reusable_node_byte_offset, reusable_node_advance,
  reusable_node_descend, reusable_node_advance_past_leaf,
}
use tree_sitter.Stack.Versions.{Stack, push, state, error_state}
use tree_sitter.Stack.Pop.{StackSlice, pop_pending}
use tree_sitter.Parser.{Parser, ParserLanguage, TokenCache, LexMode, same_mode, with_stack}

-- What a call that returns without a value leaves out of a table lookup: a failed assertion.
abbrev pub checked {ℓ} : {A : Type ℓ} → Option A → Run A
checked none = fault
checked (some a) = ok a

-- `lex_modes[state]`
abbrev pub mode_at : ParserLanguage → ℕ → LexMode
mode_at l q = get_or l.lex_modes q (record { lex_state = 0; external_lex_state = 0 })

-- `ts_parser__can_reuse_first_leaf`
unfoldable pub can_reuse_first_leaf : ParserLanguage → ℕ → Subtree → TableEntry → Bool
can_reuse_first_leaf l q tree entry =
    let current_lex_mode = mode_at l q in
    let leaf_lex_mode = mode_at l (leaf_parse_state tree) in
    if current_lex_mode.lex_state == 65535
    then false
    else if ltb 0 entry.action_count
        && same_mode leaf_lex_mode current_lex_mode
        && (not (leaf_symbol tree == l.keyword_capture_token)
            || (not (is_keyword tree) && parse_state tree == q))
    then true
    else if (size tree).bytes == 0 && not (leaf_symbol tree == sym_end)
    then false
    else current_lex_mode.external_lex_state == 0 && entry.is_reusable

-- `ts_parser__get_cached_token`, with the entry of the table that it looks up.
unfoldable pub get_cached_token :
    Parser → ℕ → ℕ → Option Subtree → Run (Option (Subtree × TableEntry))
unfolding table_entry can_reuse_first_leaf external_scanner_state_eq
get_cached_token p q byte_index last_external_token = elim p.token_cache.token [
  | none ↦ ok none
  | some token ↦
      if p.token_cache.byte_index == byte_index
        && external_scanner_state_eq p.token_cache.last_external_token last_external_token
      then (do
        entry ← checked (table_entry p.language.tables q (symbol token))
        ok (if can_reuse_first_leaf p.language q token entry then some (token, entry) else none))
      else ok none
]

-- `ts_parser__set_cached_token`
unfoldable pub set_cached_token : Parser → ℕ → Option Subtree → Option Subtree → Parser
set_cached_token p byte_index last_external_token token = record p {
  token_cache = record {
    token = token;
    last_external_token = last_external_token;
    byte_index = byte_index;
  };
}

-- `ts_parser__has_included_range_difference`
unfoldable pub has_included_range_difference : Parser → ℕ → ℕ → Bool
unfolding range_array_intersects
has_included_range_difference p start_position end_position =
    range_array_intersects p.included_range_differences p.included_range_difference_index
      start_position end_position

-- The children of a node are pushed one by one; with the state behind them, and whether the last one
-- may be taken apart too.
pub push_children : ParseTables → Subtrees → ℕ → ℕ → Bool → Stack → Run (ℕ × Bool × Stack)
unfolding push next_state
push_children t nil v q pending s = ok (q, pending, s)
push_children t (cons c cs) v q pending s =
    let q' = if is_error c then error_state else if extra c then q else next_state t q (symbol c) in
    push s v (some c) (ltb 0 (child_count c)) q' >>= push_children t cs v q' (ltb 0 (child_count c))

unfoldable pub push_trees : List Subtree → ℕ → ℕ → Stack → Run Stack
unfolding push
push_trees [] v q s = ok s
push_trees (t ∷ ts) v q s = push s v (some t) false q >>= push_trees ts v q

-- The slices of one round; a slice without a subtree fails the assertion of `array_front`.
pub break_slices : ParseTables → List StackSlice → Bool → Stack → Run (Bool × Stack)
unfolding state push_children push_trees
break_slices t [] pending s = ok (pending, s)
break_slices t (slice ∷ slices) pending s = elim slice.subtrees [
  | [] ↦ fault
  | parent ∷ rest ↦ (do
    q ← state s slice.version
    (q', pending', s1) ← push_children t (children parent) slice.version q pending s
    s2 ← push_trees rest slice.version q' s1
    break_slices t slices pending' s2)
]

-- The loop of `ts_parser__breakdown_top_of_stack`, on fuel that the walks over the stack take too.
pub breakdown_loop : ℕ → ℕ → ParseTables → ℕ → Bool → Stack → Run (Bool × Stack)
unfolding pop_pending break_slices
breakdown_loop zero fuel t v did s = out_of_fuel
breakdown_loop (suc rounds) fuel t v did s = do
  (s1, slices) ← pop_pending fuel s v
  elim slices [
    | [] ↦ ok (did, s1)
    | x ∷ xs ↦ (do
      (pending, s2) ← break_slices t (x ∷ xs) false s1
      if pending then breakdown_loop rounds fuel t v true s2 else ok (true, s2))
  ]

unfoldable pub breakdown_top_of_stack : ℕ → Parser → ℕ → Run (Bool × Parser)
unfolding breakdown_loop
breakdown_top_of_stack fuel p v = do
  (did, s) ← breakdown_loop fuel fuel p.language.tables v false p.stack
  ok (did, with_stack p s)

-- The loop of `ts_parser__breakdown_lookahead`, on fuel; with whether it has descended. A null
-- subtree cannot be read.
pub descend_to_state : ℕ → ℕ → Bool → ReusableNode → Run (Bool × Subtree × ReusableNode)
unfolding reusable_node_tree reusable_node_descend
descend_to_state zero q did r = out_of_fuel
descend_to_state (suc fuel) q did r = elim (reusable_node_tree r) [
  | none ↦ fault
  | some tree ↦
      if ltb 0 (child_count tree) && not (parse_state tree == q)
      then (do (descended, r') ← reusable_node_descend r; descend_to_state fuel q true r')
      else ok (did, tree, r)
]

unfoldable pub breakdown_lookahead : ℕ → Parser → Subtree → ℕ → Run (Subtree × Parser)
unfolding descend_to_state
breakdown_lookahead fuel p lookahead q = do
  (did, tree, r) ← descend_to_state fuel q false p.reusable_node
  ok (if did then tree else lookahead, record p { reusable_node = r })

-- What one round of `ts_parser__reuse_node` does: it ends, with the tree to reuse and the entry that it
-- has looked up, or goes on; either in a state of the parse table.
pub data ReuseStep : Type 0 where
  finished : (tree : Option Subtree) (entry : Option TableEntry) (p : Parser) (q : ℕ) → ReuseStep
  continued : (p : Parser) (q : ℕ) → ReuseStep

abbrev with_node : Parser → ReusableNode → Parser
with_node p r = record p { reusable_node = r }

-- Past a node that lies before the position.
pub skip_node : Parser → ℕ → Bool → Run ReuseStep
unfolding reusable_node_descend reusable_node_advance
skip_node p q ends_before =
    if ends_before
    then (do r ← reusable_node_advance p.reusable_node; ok (continued (with_node p r) q))
    else do
      (descended, r) ← reusable_node_descend p.reusable_node
      if descended
          then ok (continued (with_node p r) q)
          else do r' ← reusable_node_advance r; ok (continued (with_node p r') q)

-- Into a node that cannot be reused, or past it.
pub reject_node : ℕ → Parser → ℕ → ℕ → Run ReuseStep
unfolding reusable_node_descend reusable_node_advance breakdown_top_of_stack state
reject_node fuel p version q = do
  (descended, r) ← reusable_node_descend p.reusable_node
  if descended then ok (continued (with_node p r) q) else do
    r' ← reusable_node_advance r
    (did, p') ← breakdown_top_of_stack fuel (with_node p r') version
    q' ← state p'.stack version
    ok (continued p' q')

-- The reasons not to reuse a node.
unfoldable pub cannot_reuse : Parser → Subtree → ℕ → ℕ → Bool
unfolding has_included_range_difference
cannot_reuse p tree byte_offset end_byte_offset =
    has_changes tree
    || is_error tree
    || missing tree
    || is_fragile tree
    || has_included_range_difference p byte_offset end_byte_offset

abbrev pub end_offset : ℕ → Subtree → ℕ
end_offset byte_offset tree = if is_eof tree then u32_max else add32 byte_offset (total_bytes tree)

-- A round at a node that begins at an offset
pub reuse_tree : ℕ → Parser → ℕ → ℕ → ℕ → Option Subtree → Subtree → ℕ → Run ReuseStep
unfolding skip_node reject_node table_entry can_reuse_first_leaf reusable_node_advance_past_leaf
    reusable_node_advance external_scanner_state_eq cannot_reuse
reuse_tree fuel p version q position last_external_token tree byte_offset =
    let end_byte_offset = end_offset byte_offset tree in
    if ltb position byte_offset
    then ok (finished none none p q)
    else if ltb byte_offset position
    then skip_node p q (leb end_byte_offset position)
    else if not (external_scanner_state_eq p.reusable_node.last_external_token last_external_token)
    then (do r ← reusable_node_advance p.reusable_node; ok (continued (with_node p r) q))
    else if cannot_reuse p tree byte_offset end_byte_offset
    then reject_node fuel p version q
    else do
      entry ← checked (table_entry p.language.tables q (leaf_symbol tree))
      if can_reuse_first_leaf p.language q tree entry
          then ok (finished (some tree) (some entry) p q)
          else (do
            r ← reusable_node_advance_past_leaf fuel p.reusable_node
            ok (finished none (some entry) (with_node p r) q))

pub reuse_step : ℕ → Parser → ℕ → ℕ → ℕ → Option Subtree → Run ReuseStep
unfolding reusable_node_tree reusable_node_byte_offset reuse_tree
reuse_step fuel p version q position last_external_token =
    elim (reusable_node_tree p.reusable_node) [
      | none ↦ ok (finished none none p q)
      | some tree ↦
          reuse_tree fuel p version q position last_external_token tree
            (reusable_node_byte_offset p.reusable_node)
    ]

-- `ts_parser__reuse_node`, on fuel
unfoldable pub reuse_node :
    ℕ
    → ℕ
    → Parser
    → ℕ
    → ℕ
    → ℕ
    → Option Subtree
    → Run (Option Subtree × Option TableEntry × Parser × ℕ)
unfolding reuse_step
reuse_node zero fuel p version q position last_external_token = out_of_fuel
reuse_node (suc rounds) fuel p version q position last_external_token =
    reuse_step fuel p version q position last_external_token >>= λ step. elim step [
      | finished tree entry p' q' ↦ ok (tree, entry, p', q')
      | continued p' q' ↦ reuse_node rounds fuel p' version q' position last_external_token
    ]
