-- ===== src/Stack/Versions.antt =====
-- lib/src/stack.c: the versions of the parse stack. A version is the index of a head.
pub mod Calls
pub mod Moves
pub mod Owned
pub mod Reached
use tree_sitter.Prelude.{
  ℕ, zero, suc, ◌-◌, Bool, true, false, not, ◌&&◌, ◌||◌, Option, none, some, List, [], ◌∷◌, ◌++◌,
  map, ltb, ◌==◌, if◌then◌else◌, length, get_elem?, set, add32, sub32,
}
use tree_sitter.Prelude.Int.{ℤ}
use tree_sitter.Prelude.Run.{Run, ok, fault, out_of_fuel, ◌>>=◌}
use tree_sitter.Length.{Length}
use tree_sitter.Subtree.{Subtree, total_bytes, error_cost_per_recovery}
use tree_sitter.Subtree as Tree
use tree_sitter.Subtree.External.{external_scanner_state_eq}
use tree_sitter.Stack.{
  StackLink, StackNode, Store, load, stack_node_retain, release, stack_node_new,
}

-- `ERROR_STATE`
abbrev pub error_state : ℕ
error_state = 0

-- `StackStatus`
pub data StackStatus : Type 0 where
  active paused halted : StackStatus

pub record StackSummaryEntry : Type 0 where
  pub position : Length
  pub depth : ℕ
  pub state : ℕ

-- `StackHead`; a summary of `none` is the null pointer.
pub record StackHead : Type 0 where
  pub node : ℕ
  pub summary : Option (List StackSummaryEntry)
  pub node_count_at_last_error : ℕ
  pub last_external_token : Option Subtree
  pub lookahead_when_paused : Option Subtree
  pub status : StackStatus

-- `Stack` without the arrays that serve a single call
pub record Stack : Type 0 where
  pub heads : List StackHead
  pub store : Store
  pub base_node : ℕ

-- `array_get`, whose assertion fails out of bounds
unfoldable pub head_at : Stack → ℕ → Run StackHead
head_at s v = elim (get_elem? s.heads v) [ none ↦ fault | some h ↦ ok h ]

-- `array_erase`
unfoldable pub erase {ℓ} : {A : Type ℓ} → List A → ℕ → List A
erase [] i = []
erase (x ∷ xs) zero = xs
erase (x ∷ xs) (suc i) = x ∷ erase xs i

abbrev pub put_head : Stack → ℕ → StackHead → Stack
put_head s v h = record s { heads = set s.heads v h }

unfoldable pub head_node : Stack → ℕ → Run (StackHead × StackNode)
unfolding head_at load
head_node s v = do h ← head_at s v; n ← load s.store h.node; ok (h, n)

unfoldable pub version_count : Stack → ℕ
version_count s = length s.heads

unfoldable pub state : Stack → ℕ → Run ℕ
unfolding head_node
state s v = do (h, n) ← head_node s v; ok n.state

unfoldable pub position : Stack → ℕ → Run Length
unfolding head_node
position s v = do (h, n) ← head_node s v; ok n.position

unfoldable pub set_last_external_token : Stack → ℕ → Option Subtree → Run Stack
unfolding head_at
set_last_external_token s v token = do
  h ← head_at s v
  ok (put_head s v (record h { last_external_token = token }))

unfoldable pub last_external_token : Stack → ℕ → Run (Option Subtree)
unfolding head_at
last_external_token s v = do h ← head_at s v; ok h.last_external_token

unfoldable pub get_summary : Stack → ℕ → Run (Option (List StackSummaryEntry))
unfolding head_at
get_summary s v = do h ← head_at s v; ok h.summary

abbrev pub is_paused : StackStatus → Bool
is_paused active = false
is_paused paused = true
is_paused halted = false

abbrev pub is_active : StackStatus → Bool
is_active active = true
is_active paused = false
is_active halted = false

abbrev pub is_halted : StackStatus → Bool
is_halted active = false
is_halted paused = false
is_halted halted = true

-- `!links[0].subtree.ptr`; a new node is all zeros, so that the first link of the base node has none.
abbrev first_is_null : List StackLink → Bool
first_is_null [] = true
first_is_null (l ∷ ls) = elim l.subtree [ none ↦ true | some t ↦ false ]

unfoldable pub error_cost : Stack → ℕ → Run ℕ
unfolding head_node
error_cost s v = do
  (h, n) ← head_node s v
  ok (
      if is_paused h.status || (n.state == error_state && first_is_null n.links)
      then add32 n.error_cost error_cost_per_recovery
      else n.error_cost)

unfoldable pub node_count_since_error : Stack → ℕ → Run (ℕ × Stack)
unfolding head_node
node_count_since_error s v = do
  (h, n) ← head_node s v
  ok (
      if ltb n.node_count h.node_count_at_last_error
      then (0, put_head s v (record h { node_count_at_last_error = n.node_count }))
      else (n.node_count - h.node_count_at_last_error, s))

abbrev pub is_null : Option Subtree → Bool
is_null none = true
is_null (some t) = false

unfoldable pub push : Stack → ℕ → Option Subtree → Bool → ℕ → Run Stack
unfolding head_at stack_node_new load
push s v subtree pending state = do
  h ← head_at s v
  (p, store) ← stack_node_new s.store (some h.node) subtree pending state
  n ← load store p
  ok (record s {
    heads = set s.heads v (record h {
      node = p;
      node_count_at_last_error =
          if is_null subtree then n.node_count else h.node_count_at_last_error;
    });
    store = store;
  })

unfoldable pub dynamic_precedence : Stack → ℕ → Run ℤ
unfolding head_node
dynamic_precedence s v = do (h, n) ← head_node s v; ok n.dynamic_precedence

-- The loop over the nodes of `has_advanced_since_error`, on fuel.
pub advanced_loop : ℕ → Store → ℕ → StackNode → Run Bool
unfolding load
advanced_loop zero s at_last_error n = out_of_fuel
advanced_loop (suc fuel) s at_last_error n = elim n.links [
  | [] ↦ ok false
  | l ∷ ls ↦ elim l.subtree [
    | none ↦ ok false
    | some t ↦
        if ltb 0 (total_bytes t)
        then ok true
        else if ltb at_last_error n.node_count && Tree.error_cost t == 0
        then load s l.node >>= advanced_loop fuel s at_last_error
        else ok false
  ]
]

unfoldable pub has_advanced_since_error : ℕ → Stack → ℕ → Run Bool
unfolding head_node advanced_loop
has_advanced_since_error fuel s v = do
  (h, n) ← head_node s v
  if n.error_cost == 0 then ok true else advanced_loop fuel s.store h.node_count_at_last_error n

-- `stack_head_delete` and `array_erase`
unfoldable pub remove_version : Stack → ℕ → Run Stack
unfolding head_at release erase
remove_version s v = do
  h ← head_at s v
  store ← release s.store h.node
  ok (record s { heads = erase s.heads v; store = store })

-- The source takes the summary of the target if it has none.
abbrev pub moved : StackHead → StackHead → StackHead
moved source target = elim source.summary [
  | none ↦ record source { summary = target.summary }
  | some x ↦ source
]

unfoldable pub renumber_version : Stack → ℕ → ℕ → Run Stack
unfolding head_at release erase
renumber_version s v1 v2 = if v1 == v2 then ok s else if not (ltb v2 v1) then fault else do
  source ← head_at s v1
  target ← head_at s v2
  store ← release s.store target.node
  ok (record s { heads = erase (set s.heads v2 (moved source target)) v1; store = store })

unfoldable pub swap_versions : Stack → ℕ → ℕ → Run Stack
unfolding head_at
swap_versions s v1 v2 = do
  h1 ← head_at s v1
  h2 ← head_at s v2
  ok (record s { heads = set (set s.heads v1 h2) v2 h1 })

unfoldable pub copy_version : Stack → ℕ → Run (ℕ × Stack)
unfolding head_at stack_node_retain
copy_version s v = do
  h ← head_at s v
  store ← stack_node_retain s.store h.node
  ok (
    length s.heads,
    record s { heads = s.heads ++ (record h { summary = none }) ∷ []; store = store },
  )

unfoldable pub can_merge : Stack → ℕ → ℕ → Run Bool
unfolding head_node external_scanner_state_eq
can_merge s v1 v2 = do
  (h1, n1) ← head_node s v1
  (h2, n2) ← head_node s v2
  ok (
      is_active h1.status
      && is_active h2.status
      && n1.state == n2.state
      && n1.position.bytes == n2.position.bytes
      && n1.error_cost == n2.error_cost
      && external_scanner_state_eq h1.last_external_token h2.last_external_token)

unfoldable pub halt : Stack → ℕ → Run Stack
unfolding head_at
halt s v = do h ← head_at s v; ok (put_head s v (record h { status = halted }))

unfoldable pub pause : Stack → ℕ → Option Subtree → Run Stack
unfolding head_node
pause s v lookahead = do
  (h, n) ← head_node s v
  ok (
      put_head s v (record h {
        status = paused;
        lookahead_when_paused = lookahead;
        node_count_at_last_error = n.node_count;
      }))

unfoldable pub resume : Stack → ℕ → Run (Option Subtree × Stack)
unfolding head_at
resume s v = do
  h ← head_at s v
  if is_paused h.status
      then ok (
        h.lookahead_when_paused,
        put_head s v (record h { status = active; lookahead_when_paused = none }),
      )
      else fault

-- `stack_head_delete` of each head
pub release_heads : List StackHead → Store → Run Store
unfolding release
release_heads [] store = ok store
release_heads (h ∷ hs) store = do store' ← release store h.node; release_heads hs store'

-- What `ts_stack_delete` leaves of the nodes, before it frees the pool.
unfoldable pub delete : Stack → Run Store
unfolding release release_heads
delete s = do store ← release s.store s.base_node; release_heads s.heads store

abbrev pub base_head : ℕ → StackHead
base_head p = record {
  node = p;
  summary = none;
  node_count_at_last_error = 0;
  last_external_token = none;
  lookahead_when_paused = none;
  status = active;
}

unfoldable pub clear : Stack → Run Stack
unfolding stack_node_retain release_heads
clear s = do
  retained ← stack_node_retain s.store s.base_node
  store ← release_heads s.heads retained
  ok (record s { heads = base_head s.base_node ∷ []; store = store })

unfoldable pub new : Run Stack
unfolding stack_node_new clear
new = do
  (p, store) ← stack_node_new (record { nodes = []; node_pool = [] }) none none false 1
  clear (record { heads = []; store = store; base_node = p })
