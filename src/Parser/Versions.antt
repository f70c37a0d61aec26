-- ===== src/Parser/Versions.antt =====
-- lib/src/parser.c: comparing the versions of the stack.
pub mod Laws
use tree_sitter.Prelude.{
  ℕ, zero, suc, ◌+◌, ◌-◌, ◌*◌, ◌%◌, Bool, true, false, not, ◌&&◌, ◌||◌, Option, none, some, ltb,
  leb, ◌==◌, if◌then◌else◌, add32, u32_mod,
}
use tree_sitter.Prelude.Int.{ℤ}
use tree_sitter.Prelude.Run.{Run, ok, fault, out_of_fuel, ◌>>=◌}
use tree_sitter.Subtree.{Subtree, error_cost_per_skipped_tree}
use tree_sitter.Subtree as Tree
use tree_sitter.Stack.Merge.{ltbℤ}
use tree_sitter.Stack.Versions.{
  Stack, head_at, is_paused, is_active, error_cost, node_count_since_error, dynamic_precedence,
  state, position, version_count, can_merge, error_state,
}
use tree_sitter.Parser.{Parser, with_stack, max_cost_difference}

pub record ErrorStatus : Type 0 where
  pub cost : ℕ
  pub node_count : ℕ
  pub dynamic_precedence : ℤ
  pub is_in_error : Bool

-- `ErrorComparison`
pub data ErrorComparison : Type 0 where
  take_left prefer_left no_preference prefer_right take_right : ErrorComparison

-- The difference of two costs weighs more the more nodes the cheaper version has read.
abbrev pub outweighs : ℕ → ℕ → ℕ → Bool
outweighs low high node_count =
    ltb max_cost_difference ((high - low) * add32 1 node_count % u32_mod)

-- `ts_parser__compare_versions`
unfoldable pub compare_versions : ErrorStatus → ErrorStatus → ErrorComparison
compare_versions a b =
    if not a.is_in_error && b.is_in_error
    then (if ltb a.cost b.cost then take_left else prefer_left)
    else if a.is_in_error && not b.is_in_error
    then (if ltb b.cost a.cost then take_right else prefer_right)
    else if ltb a.cost b.cost
    then (if outweighs a.cost b.cost a.node_count then take_left else prefer_left)
    else if ltb b.cost a.cost
    then (if outweighs b.cost a.cost b.node_count then take_right else prefer_right)
    else if ltbℤ b.dynamic_precedence a.dynamic_precedence
    then prefer_left
    else if ltbℤ a.dynamic_precedence b.dynamic_precedence
    then prefer_right
    else no_preference

-- `ts_parser__version_status`; reading the node count may lower a field of the head.
unfoldable pub version_status : Stack → ℕ → Run (ErrorStatus × Stack)
unfolding error_cost node_count_since_error dynamic_precedence state head_at
version_status s v = do
  cost ← error_cost s v
  h ← head_at s v
  (node_count, s') ← node_count_since_error s v
  precedence ← dynamic_precedence s' v
  q ← state s' v
  ok (
    record {
      cost = if is_paused h.status then add32 cost error_cost_per_skipped_tree else cost;
      node_count = node_count;
      dynamic_precedence = precedence;
      is_in_error = is_paused h.status || q == error_state;
    },
    s',
  )

-- What the loop over the other versions does with one of them: it is better, or the search goes on.
pub is_beaten_by : Stack → ℕ → ℕ → ErrorStatus → Run (Bool × Stack)
unfolding head_at position version_status compare_versions can_merge
is_beaten_by s version i status = do
  h ← head_at s i
  here ← position s i
  there ← position s version
  if i == version || not (is_active h.status) || ltb here.bytes there.bytes
      then ok (false, s)
      else do
        (status_i, s') ← version_status s i
        elim (compare_versions status status_i) [
          | take_right ↦ ok (true, s')
          | prefer_right ↦ (do merges ← can_merge s' i version; ok (merges, s'))
          | _ ↦ ok (false, s')
        ]

pub better_loop : ℕ → Stack → ℕ → ℕ → ErrorStatus → Run (Bool × Stack)
unfolding is_beaten_by
better_loop zero s version i status = ok (false, s)
better_loop (suc rounds) s version i status = do
  (better, s') ← is_beaten_by s version i status
  if better then ok (true, s') else better_loop rounds s' version (suc i) status

-- The finished tree costs no more than this.
abbrev pub is_finished_within : Option Subtree → ℕ → Bool
is_finished_within none cost = false
is_finished_within (some t) cost = leb (Tree.error_cost t) cost

-- `ts_parser__better_version_exists`
unfoldable pub better_version_exists : Parser → ℕ → Bool → ℕ → Run (Bool × Parser)
unfolding better_loop dynamic_precedence node_count_since_error version_count
better_version_exists p version is_in_error cost =
    if is_finished_within p.finished_tree cost then ok (true, p) else do
      precedence ← dynamic_precedence p.stack version
      (node_count, s) ← node_count_since_error p.stack version
      (better, s') ← better_loop (version_count s) s version 0 (record {
        cost = cost;
        node_count = node_count;
        dynamic_precedence = precedence;
        is_in_error = is_in_error;
      })
      ok (better, with_stack p s')
