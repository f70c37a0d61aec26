-- ===== src/Parser/Recover.antt =====
-- lib/src/parser.c: recovery in the error state.
pub mod Inactive
use tree_sitter.Prelude.{
  ℕ, zero, suc, ◌+◌, ◌-◌, ◌*◌, ◌%◌, Bool, true, false, not, ◌&&◌, ◌||◌, Option, none, some, List,
  [], ◌∷◌, ◌++◌, ltb, ◌==◌, if◌then◌else◌, length, add32, sub32, u32_mod,
}
use tree_sitter.Prelude.Run.{Run, ok, fault, ◌>>=◌}
use tree_sitter.Length.{Length}
use tree_sitter.Language.{Language, sym_error_repeat}
use tree_sitter.Language.Tables.{
  ParseTables, TableEntry, ParseAction, table_entry, action_at, has_actions,
}
use tree_sitter.Language.Tables as Tables
use tree_sitter.Subtree.{
  Subtree, symbol, is_error, is_eof, set_extra, children, to_list, total_bytes, total_size,
  has_external_scanner_state_change, error_cost_per_skipped_tree, error_cost_per_skipped_char,
  error_cost_per_skipped_line,
}
use tree_sitter.Subtree.Summary.{new_node, new_error_node}
use tree_sitter.Subtree.Arrays.{remove_trailing_extras}
use tree_sitter.Stack.Versions.{
  Stack, StackSummaryEntry, error_state, head_at, is_active, push, state, position, version_count,
  get_summary, node_count_since_error, error_cost, halt, remove_version, renumber_version,
}
use tree_sitter.Stack.Pop.{StackSlice, pop_count, pop_error}
use tree_sitter.Parser.{Parser, with_stack, max_version_count}
use tree_sitter.Parser.Versions.{better_version_exists}
use tree_sitter.Parser.Reuse.{checked, push_trees}
use tree_sitter.Parser.Reduce.{accept, keep_external_token}

-- The children of the error that is popped go in front of the subtrees; two errors fail the assertion.
pub splice_error : List Subtree → List Subtree → Run (List Subtree)
splice_error [] subtrees = ok subtrees
splice_error (t ∷ []) subtrees = ok (to_list (children t) ++ subtrees)
splice_error (t ∷ u ∷ ts) subtrees = fault

-- One slice: its subtrees become an error node, if there are any, behind which the extras follow.
pub recover_slice : ℕ → Language → ℕ → StackSlice → Stack → Run Stack
unfolding pop_error splice_error remove_trailing_extras new_error_node push push_trees
recover_slice fuel l goal slice s = do
  (s1, error_trees) ← pop_error fuel s slice.version
  subtrees ← splice_error error_trees slice.subtrees
  let (trees, extras) = remove_trailing_extras subtrees
  s2 ← (elim trees [
    | [] ↦ ok s1
    | t ∷ ts ↦ push s1 slice.version (some (new_error_node l (t ∷ ts) true)) false goal
  ])
  push_trees extras slice.version goal s2

-- The loop over the slices; `previous` is the version that it has recovered last.
pub recover_slices : ℕ → Language → ℕ → Option ℕ → List StackSlice → Stack → Run (Option ℕ × Stack)
unfolding state halt recover_slice
recover_slices fuel l goal previous [] s = ok (previous, s)
recover_slices fuel l goal previous (slice ∷ slices) s =
    if elim previous [ none ↦ false | some v ↦ slice.version == v ]
    then recover_slices fuel l goal previous slices s
    else do
      q ← state s slice.version
      if q == goal
          then recover_slice fuel l goal slice s
            >>= recover_slices fuel l goal (some slice.version) slices
          else halt s slice.version >>= recover_slices fuel l goal previous slices

abbrev is_there {ℓ} : {A : Type ℓ} → Option A → Bool
is_there none = false
is_there (some a) = true

-- `ts_parser__recover_to_state`
unfoldable pub recover_to_state : ℕ → Parser → ℕ → ℕ → ℕ → Run (Bool × Parser)
unfolding pop_count recover_slices
recover_to_state fuel p version depth goal = do
  w ← pop_count fuel p.stack version depth
  (previous, s) ← recover_slices fuel p.language.language goal none w.slices w.stack
  ok (is_there previous, with_stack p s)

-- Whether one of so many versions from `j` on is in the state at the byte.
pub would_merge : ℕ → Stack → ℕ → ℕ → ℕ → Run Bool
unfolding state position
would_merge zero s j q bytes = ok false
would_merge (suc rounds) s j q bytes = do
  here ← state s j
  there ← position s j
  if here == q && there.bytes == bytes then ok true else would_merge rounds s (suc j) q bytes

-- The cost of skipping so many trees, bytes and lines.
abbrev pub skip_cost : ℕ → ℕ → ℕ → ℕ → ℕ
skip_cost cost trees bytes lines =
    add32
      (add32 (add32 cost (trees * error_cost_per_skipped_tree % u32_mod))
        (bytes * error_cost_per_skipped_char % u32_mod))
      (lines * error_cost_per_skipped_line % u32_mod)

-- What `ts_parser__recover` knows of its version before it changes anything.
pub record RecoverContext : Type 0 where
  pub version : ℕ
  pub previous_version_count : ℕ
  pub position : Length
  pub node_count_since_error : ℕ
  pub cost : ℕ

-- The loop over the summary: whether it has recovered.
pub recover_summary :
    ℕ → RecoverContext → Subtree → List StackSummaryEntry → Parser → Run (Bool × Parser)
unfolding would_merge better_version_exists has_actions recover_to_state
recover_summary fuel c lookahead [] p = ok (false, p)
recover_summary fuel c lookahead (entry ∷ rest) p =
    let further = recover_summary fuel c lookahead rest in
    if entry.state == error_state || entry.position.bytes == c.position.bytes then further p else do
      merges ← would_merge c.previous_version_count p.stack 0 entry.state c.position.bytes
      if merges then further p else do
        (better, p1) ← better_version_exists p c.version false (
            skip_cost c.cost entry.depth (sub32 c.position.bytes entry.position.bytes)
              (sub32 c.position.extent.row entry.position.extent.row))
        if better
            then ok (false, p1)
            else if not (has_actions p1.language.tables entry.state (symbol lookahead))
            then further p1
            else do
              (recovered, p2) ←
                  recover_to_state fuel p1 c.version
                    (if ltb 0 c.node_count_since_error then add32 entry.depth 1 else entry.depth)
                    entry.state
              if recovered then ok (true, p2) else further p2

-- Versions that are not active go, from `i` on, in so many rounds.
pub drop_inactive : ℕ → Stack → ℕ → Run Stack
unfolding head_at remove_version
drop_inactive zero s i = ok s
drop_inactive (suc rounds) s i = do
  h ← head_at s i
  if is_active h.status
      then drop_inactive rounds s (suc i)
      else (do s' ← remove_version s i; drop_inactive rounds s' i)

abbrev is_extra_shift : Option ParseAction → Bool
is_extra_shift (some (Tables.shift q is_extra repetition)) = is_extra
is_extra_shift (some (Tables.reduce count sym precedence production)) = false
is_extra_shift (some Tables.accept) = false
is_extra_shift (some Tables.recover) = false
is_extra_shift none = false

-- A token that is an extra in the state 1 is marked as one.
abbrev pub mark_if_extra : TableEntry → Subtree → Subtree
mark_if_extra e t =
    if ltb 0 e.action_count && is_extra_shift (action_at e (e.action_count - 1))
    then set_extra t true
    else t

-- So many versions behind the first slice's go.
pub drop_behind : ℕ → Stack → ℕ → Run Stack
unfolding remove_version
drop_behind zero s v = ok s
drop_behind (suc rounds) s v = remove_version s v >>= λ s'. drop_behind rounds s' v

-- The error on top of the version, if there is one, and the new error become one.
pub wrap_error : ℕ → Language → ℕ → Subtree → Stack → Run (Subtree × Stack)
unfolding pop_count drop_behind renumber_version new_node version_count
wrap_error fuel l version error_repeat s = do
  w ← pop_count fuel s version 1
  elim w.slices [
    | [] ↦ fault
    | x ∷ xs ↦ (do
      s1 ←
          (if ltb 1 (length (x ∷ xs))
            then drop_behind (version_count w.stack - (x.version + 1)) w.stack (x.version + 1)
            else ok w.stack)
      s2 ← renumber_version s1 x.version version
      ok (new_node l sym_error_repeat (x.subtrees ++ error_repeat ∷ []) 0, s2))
  ]

-- The lookahead goes into an error on top of the version.
pub skip_token : ℕ → RecoverContext → Subtree → Parser → Run Parser
unfolding table_entry new_node wrap_error push keep_external_token
skip_token fuel c lookahead p = do
  e ← checked (table_entry p.language.tables 1 (symbol lookahead))
  let token = mark_if_extra e lookahead
  let error_repeat = new_node p.language.language sym_error_repeat (token ∷ []) 0
  (error, s) ←
      (if ltb 0 c.node_count_since_error
        then wrap_error fuel p.language.language c.version error_repeat p.stack
        else ok (error_repeat, p.stack))
  s1 ← push s c.version (some error) false error_state
  s2 ← keep_external_token s1 c.version token
  ok (with_stack p s2)

abbrev halt_version : Parser → ℕ → Run Parser
unfolding halt
halt_version p version = halt p.stack version >>= λ s. ok (with_stack p s)

-- What follows the attempt to return to an earlier state.
pub recover_further : ℕ → RecoverContext → Subtree → Bool → Parser → Run Parser
unfolding version_count new_error_node push accept better_version_exists skip_token
recover_further fuel c lookahead did_recover p =
    if did_recover
      && (ltb max_version_count (version_count p.stack)
          || has_external_scanner_state_change lookahead)
    then halt_version p c.version
    else if is_eof lookahead
    then (do
      let parent = new_error_node p.language.language [] false
      s ← push p.stack c.version (some parent) false 1
      accept fuel (with_stack p s) c.version lookahead)
    else do
      (better, p') ←
          better_version_exists p c.version false
            (skip_cost c.cost 1 (total_bytes lookahead) (total_size lookahead).extent.row)
      if better then halt_version p' c.version else skip_token fuel c lookahead p'

-- `ts_parser__recover`
unfoldable pub recover : ℕ → Parser → ℕ → Subtree → Run Parser
unfolding version_count position get_summary node_count_since_error error_cost recover_summary
    drop_inactive recover_further
recover fuel p version lookahead = do
  let count = version_count p.stack
  here ← position p.stack version
  summary ← get_summary p.stack version
  (node_count, s) ← node_count_since_error p.stack version
  cost ← error_cost s version
  let c : RecoverContext = record {
    version = version;
    previous_version_count = count;
    position = here;
    node_count_since_error = node_count;
    cost = cost;
  }
  (did_recover, p1) ← (elim summary [
    | none ↦ ok (false, with_stack p s)
    | some entries ↦
        if is_error lookahead
        then ok (false, with_stack p s)
        else recover_summary fuel c lookahead entries (with_stack p s)
  ])
  s2 ← drop_inactive (version_count p1.stack - count) p1.stack count
  recover_further fuel c lookahead did_recover (with_stack p1 s2)
