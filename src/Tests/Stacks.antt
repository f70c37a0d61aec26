-- ===== src/Tests/Stacks.antt =====
-- The theorems on the parse stack (lib/src/stack.c) at small stacks.
use tree_sitter.Prelude.{
  not, ◌&&◌, ℕ, zero, suc, ◌+◌, ◌<◌, ◌≡◌, refl, Bool, true, false, Option, none, some, List, [],
  ◌∷◌, arith, u32_mod,
}
use tree_sitter.Prelude.Int.{ℤ, pos, ◌+ℤ◌}
use tree_sitter.Prelude.Run.{Run, ok, ◌>>=◌}
use tree_sitter.Length.{Length, length_new, length_add}
use tree_sitter.Point.{point_add}
use tree_sitter.Subtree.{Subtree, InlineData, inline}
use tree_sitter.Stack.{Store, base_value, total, stack_node_release}
use tree_sitter.Stack.Counts.{one, incoming, count_of, Counted}
use tree_sitter.Stack.Counts.Release.{Kept, stack_node_release_lem}
use tree_sitter.Stack.Versions.{
  delete, is_halted, is_active, head_at, Stack, StackSummaryEntry, new, base_head, push, state,
  position, copy_version, version_count, pause, resume, halt, error_cost, dynamic_precedence,
  last_external_token, get_summary, has_advanced_since_error,
}
use tree_sitter.Stack.Versions.Owned.{Owned}
use tree_sitter.Stack.Versions.Calls.{push_call, copy_call, call, call-Owned}
use tree_sitter.Stack.Pop.Counts.{pops_all}
use tree_sitter.Stack.Versions.Reached.{pops, initial, Reached, fresh, called, Reached-Owned}
use tree_sitter.Stack.Pop.{
  Walk, StackSlice, add_version, pop_all, pop_pending, pop_error, record_summary,
}
use tree_sitter.Stack.Merge.{merge}

abbrev pub token_data : ℕ → InlineData
token_data n = record {
  visible = true;
  named = true;
  extra = false;
  has_changes = false;
  is_missing = false;
  is_keyword = false;
  symbol = 1;
  parse_state = 4;
  padding_columns = 1;
  padding_rows = 0;
  lookahead_bytes = 1;
  padding_bytes = 1;
  size_bytes = n;
}

abbrev pub token : ℕ → Subtree
token n = inline (token_data n)

-- Two versions: both read a token in state 2, and one reads a further one.
abbrev forked : Run Stack
unfolding new copy_version push
forked = do
  s ← new
  s1 ← push s 0 (some (token 3)) false 2
  (v, s2) ← copy_version s1 0
  s3 ← push s2 0 (some (token 4)) false 3
  push s3 v (some (token 4)) false 3

abbrev merged : Run (Bool × ℕ)
unfolding new copy_version push merge version_count
merged = do s ← forked; (b, s1) ← merge 4 s 0 1; ok (b, version_count s1)

merged_versions : merged ≡ ok (true, 1)
unfolding merge new push version_count copy_version length_add
merged_versions = refl

abbrev read_back : Run (Length × ℕ)
unfolding new copy_version push position state
read_back = do s ← forked; p ← position s 1; q ← state s 0; ok (p, q)

read_back_after_pushes : read_back ≡ ok (length_new 9 0 9, 3)
unfolding new copy_version push position state length_add point_add
read_back_after_pushes = refl

-- Both tokens of each version, in one slice, since the versions share the base node.
abbrev popped : Run (List StackSlice)
unfolding new copy_version push merge pop_all
popped = do s ← forked; (b, s1) ← merge 4 s 0 1; w ← pop_all 5 s1 0; ok w.slices

popped_slices : popped ≡ ok ((record { subtrees = token 3 ∷ token 4 ∷ []; version = 1 }) ∷ [])
unfolding new copy_version push merge pop_all length_add add_version
popped_slices = refl

abbrev waiting : Run (ℕ × Option Subtree)
unfolding new push pause resume error_cost
waiting = do
  s ← new
  s1 ← push s 0 (some (token 3)) false 2
  s2 ← pause s1 0 (some (token 4))
  c ← error_cost s2 0
  (t, s3) ← resume s2 0
  ok (c, t)

waiting_costs : waiting ≡ ok (500, some (token 4))
unfolding new push pause resume error_cost
waiting_costs = refl

-- A pending node is taken off, and nothing else.
abbrev taken_pending : Run (List StackSlice × List StackSlice)
unfolding new push pop_pending
taken_pending = do
  s ← new
  s1 ← push s 0 (some (token 3)) false 2
  s2 ← push s1 0 (some (token 4)) true 3
  (s3, first) ← pop_pending 4 s2 0
  (s4, second) ← pop_pending 4 s3 0
  ok (first, second)

taken_pending_slices :
    taken_pending ≡ ok ((record { subtrees = token 4 ∷ []; version = 0 }) ∷ [], [])
unfolding new push pop_pending length_add add_version
taken_pending_slices = refl

-- No link of the version is an error.
abbrev taken_error : Run (List Subtree)
unfolding new push pop_error
taken_error = do
  s ← new
  s1 ← push s 0 (some (token 3)) false 2
  (s2, subtrees) ← pop_error 4 s1 0
  ok subtrees

taken_error_subtrees : taken_error ≡ ok []
unfolding new push pop_error length_add
taken_error_subtrees = refl

abbrev summarized : Run (Option (List StackSummaryEntry))
unfolding new push record_summary get_summary
summarized = do
  s ← new
  s1 ← push s 0 (some (token 3)) false 2
  s2 ← record_summary 4 s1 0 5
  get_summary s2 0

abbrev summary_entry : ℕ → ℕ → ℕ → StackSummaryEntry
summary_entry bytes depth state = record {
  position = length_new bytes 0 bytes;
  depth = depth;
  state = state;
}

summarized_entries : summarized ≡ ok (some (summary_entry 4 0 2 ∷ summary_entry 0 1 1 ∷ []))
unfolding new push record_summary get_summary length_add point_add
summarized_entries = refl

-- What is read of a version after an error and a token.
abbrev recovered : Run (Bool × ℤ × Option Subtree)
unfolding new push halt has_advanced_since_error dynamic_precedence last_external_token
recovered = do
  s ← new
  s1 ← push s 0 none false 0
  s2 ← push s1 0 (some (token 3)) false 2
  s3 ← halt s2 0
  b ← has_advanced_since_error 3 s3 0
  z ← dynamic_precedence s3 0
  t ← last_external_token s3 0
  ok (b, z, t)

recovered_values : recovered ≡ ok (true, pos 0, none)
unfolding new push halt has_advanced_since_error dynamic_precedence last_external_token length_add
    ◌+ℤ◌
recovered_values = refl

-- A stack that is deleted gives all its nodes back, the last one first in the pool.
abbrev deleted : Run (List ℕ)
unfolding new copy_version push delete
deleted = do s ← forked; store ← delete s; ok store.node_pool

deleted_nodes : deleted ≡ ok (0 ∷ 1 ∷ 3 ∷ 2 ∷ [])
unfolding new copy_version push delete length_add
deleted_nodes = refl

abbrev halted_at : Run Bool
unfolding new halt head_at
halted_at = do
  s ← new
  s1 ← halt s 0
  h ← head_at s1 0
  ok (is_halted h.status && not (is_active h.status))

halted_there : halted_at ≡ ok true
unfolding new halt head_at
halted_there = refl

-- The base node with its two pointers from outside.
abbrev twice : ℕ → ℕ
twice q = one 0 q + one 0 q

twice_counts : (q : ℕ) → count_of initial.store.nodes q ≡ twice q + incoming q initial.store.nodes
unfolding initial count_of incoming
twice_counts zero = refl
twice_counts (suc q) = ground arith

twice-Counted : Counted initial.store twice
unfolding initial
twice-Counted = record {
  counts = twice_counts;
  once = λ q. omega arith;
  unused = λ q h. absurd (omega arith);
  inside = λ q h. absurd (omega arith);
}

stack_node_release_lem_example :
    (s' : Store) × (stack_node_release 3 initial.store 0 ≡ ok s')
    × Counted s' (λ q. one 0 q)
    × Kept initial.store s'
unfolding initial total
stack_node_release_lem_example =
    stack_node_release_lem 3 initial.store 0 (λ q. one 0 q) twice-Counted (omega arith)

start-Reached : Reached initial
unfolding new initial
start-Reached = fresh initial refl

call-Owned_example :
    (s' : Stack) × (call (push_call 0 (some (token 3)) false 2) initial ≡ ok s') × Owned s'
unfolding initial total
call-Owned_example =
    call-Owned (push_call 0 (some (token 3)) false 2) initial (Reached-Owned initial start-Reached)
      (omega arith) (omega arith)

-- The stack with a second version.
abbrev copied : Stack
unfolding initial
copied = record {
  heads = base_head 0 ∷ base_head 0 ∷ [];
  store = record { nodes = (record (base_value 1) { ref_count = 3 }) ∷ []; node_pool = [] };
  base_node = 0;
}

copied-Reached : Reached copied
unfolding initial total copy_version
copied-Reached = called initial copied (copy_call 0) start-Reached (omega arith) (omega arith) refl

-- The second version is popped to the base node, which adds a third one.
popped_base : (w : Walk (Unit {0})) × (pop_all 3 copied 1 ≡ ok w)
unfolding pop_all copied add_version
popped_base = (_, refl)

popped_fits : total copied.store.nodes < u32_mod
unfolding copied total
popped_fits = omega arith

Reached-Owned_example : Owned popped_base.0.stack
Reached-Owned_example = Reached-Owned popped_base.0.stack (
    pops copied popped_base.0.stack copied-Reached popped_fits
      (pops_all copied 3 1 popped_base.0 popped_base.1))

abbrev two_tokens : List (Subtree × ℕ)
two_tokens = (token 3, 2) ∷ (token 4, 3) ∷ []
