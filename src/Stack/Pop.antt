-- ===== src/Stack/Pop.antt =====
-- lib/src/stack.c: popping along all paths of the graph of nodes.
pub mod Counts
pub mod Path
pub mod RoundTrip
use tree_sitter.Prelude.{
  ℕ, zero, suc, ◌+◌, ◌-◌, Bool, true, false, not, ◌&&◌, ◌||◌, Option, none, some, List, [], ◌∷◌,
  ◌++◌, reverse, ltb, leb, ◌==◌, if◌then◌else◌, length, get_elem?, set, add32,
}
use tree_sitter.Prelude.Run.{Run, ok, fault, out_of_fuel, ◌>>=◌}
use tree_sitter.Subtree.{Subtree, extra, is_error}
use tree_sitter.Stack.{StackLink, StackNode, Store, load, stack_node_retain}
use tree_sitter.Stack.Versions.{
  Stack, StackHead, StackSummaryEntry, head_at, head_node, active, renumber_version,
}

abbrev pub max_iterator_count : ℕ
max_iterator_count = 64

-- `StackIterator`
pub record StackIterator : Type 0 where
  pub node : ℕ
  pub subtrees : List Subtree
  pub subtree_count : ℕ
  pub is_pending : Bool

-- `StackSlice`
pub record StackSlice : Type 0 where
  pub subtrees : List Subtree
  pub version : ℕ

-- `StackAction`, whose values are flags
pub record StackAction : Type 0 where
  pub stop : Bool
  pub pop : Bool

-- `StackCallback`: it reads the iterator and its node, and changes its payload.
abbrev pub StackCallback : Type 0 → Type 0
StackCallback P = P → StackIterator → StackNode → StackAction × P

-- `ts_stack__add_version`
unfoldable pub add_version : Stack → ℕ → ℕ → Run (ℕ × Stack)
unfolding head_at stack_node_retain
add_version s original_version node = do
  h ← head_at s original_version
  store ← stack_node_retain s.store node
  ok (
    length s.heads,
    record s {
      heads =
          s.heads
          ++ (record h {
            node = node;
            summary = none;
            status = active;
            lookahead_when_paused = none;
          })
            ∷ [];
      store = store;
    },
  )

-- The head of the slice's version points to the node.
pub is_slice_of : Stack → ℕ → StackSlice → Bool
is_slice_of s node slice = elim (get_elem? s.heads slice.version) [
  | none ↦ false
  | some h ↦ h.node == node
]

-- A slice goes behind the last one of the same node; `none` if there is no such slice.
pub insert_slice : Stack → ℕ → List Subtree → List StackSlice → Option (List StackSlice)
unfolding is_slice_of
insert_slice s node subtrees [] = none
insert_slice s node subtrees (x ∷ xs) = elim (insert_slice s node subtrees xs) [
  | some ys ↦ some (x ∷ ys)
  | none ↦
      if is_slice_of s node x
      then some (x ∷ (record { subtrees = subtrees; version = x.version }) ∷ xs)
      else none
]

-- `ts_stack__add_slice`
pub add_slice : Stack → List StackSlice → ℕ → ℕ → List Subtree → Run (Stack × List StackSlice)
unfolding insert_slice
add_slice s slices original_version node subtrees = elim (insert_slice s node subtrees slices) [
  | some slices' ↦ ok (s, slices')
  | none ↦ (do
    (version, s') ← add_version s original_version node
    ok (s', slices ++ (record { subtrees = subtrees; version = version }) ∷ []))
]

-- The iterator moves along a link.
pub follow : Bool → StackIterator → StackLink → StackIterator
follow include it l = elim l.subtree [
  | none ↦ record it { node = l.node; subtree_count = add32 it.subtree_count 1; is_pending = false }
  | some t ↦ record {
    node = l.node;
    subtrees = if include then it.subtrees ++ t ∷ [] else it.subtrees;
    subtree_count = if extra t then it.subtree_count else add32 it.subtree_count 1;
    is_pending = if extra t || l.is_pending then it.is_pending else false;
  }
]

-- The copies for the links behind the first, as long as there are not too many iterators.
pub branch : Bool → ℕ → StackIterator → List StackLink → List StackIterator
unfolding follow
branch include size it [] = []
branch include size it (l ∷ ls) =
    let here = follow include it l ∷ branch include (size + 1) it ls in
    if ltb size max_iterator_count then here else branch include size it ls

-- What a call of `stack__iter` carries, but for the iterators.
pub record Walk (P : Type 0) : Type 0 where
  pub stack : Stack
  pub slices : List StackSlice
  pub payload : P

module _ {P : Type 0} (callback : StackCallback P) (include : Bool) (version : ℕ) where
  -- One iterator: it is erased, or moves on; with the copies that are added behind all others.
  -- `size` is the number of iterators.
  pub visit : ℕ → Walk P → StackIterator → Run (Walk P × List StackIterator × List StackIterator)
  unfolding load add_slice branch follow
  visit size w it = do
    n ← load w.stack.store it.node
    let (action, payload) = callback w.payload it n
    let stop = action.stop || length n.links == 0
    (s, slices) ←
        (if action.pop
          then add_slice w.stack w.slices version it.node (reverse it.subtrees)
          else ok (w.stack, w.slices))
    let w' : Walk P = record { stack = s; slices = slices; payload = payload }
    elim n.links [
      | [] ↦ ok (w', [], [])
      | l ∷ ls ↦
          if stop
          then ok (w', [], [])
          else ok (w', follow include it l ∷ [], branch include size it ls)
    ]

  -- The inner loop: the iterators that are there at its start, with those that are added.
  pub pass :
      List StackIterator
      → List StackIterator
      → List StackIterator
      → Walk P
      → Run (Walk P × List StackIterator)
  unfolding visit
  pass kept [] added w = ok (w, kept ++ added)
  pass kept (it ∷ its) added w = do
    (w', here, more) ← visit (length kept + length (it ∷ its) + length added) w it
    pass (kept ++ here) its (added ++ more) w'

  -- The outer loop, on fuel.
  pub walk : ℕ → List StackIterator → Walk P → Run (Walk P)
  unfolding pass
  walk zero its w = out_of_fuel
  walk (suc fuel) its w = elim its [
    | [] ↦ ok w
    | it ∷ rest ↦ pass [] (it ∷ rest) [] w >>= λ r. walk fuel r.1 r.0
  ]

-- `stack__iter`; a negative goal count, for which no subtrees are kept, is `include` false.
unfoldable pub iter : {P : Type 0} → ℕ → Stack → ℕ → StackCallback P → P → Bool → Run (Walk P)
unfolding head_at walk
iter fuel s version callback payload include = do
  h ← head_at s version
  walk callback include version fuel
      ((record { node = h.node; subtrees = []; subtree_count = 0; is_pending = true }) ∷ [])
      (record { stack = s; slices = []; payload = payload })

abbrev pub go_on : StackAction
go_on = record { stop = false; pop = false }

abbrev pub pop_and_stop : StackAction
pop_and_stop = record { stop = true; pop = true }

pub pop_count_callback : StackCallback ℕ
pop_count_callback goal it n = (if it.subtree_count == goal then pop_and_stop else go_on, goal)

unfoldable pub pop_count : ℕ → Stack → ℕ → ℕ → Run (Walk ℕ)
unfolding iter pop_count_callback
pop_count fuel s version goal = iter fuel s version pop_count_callback goal true

pub pop_pending_callback : StackCallback (Unit {0})
pop_pending_callback p it n =
    (if leb 1 it.subtree_count then record { stop = true; pop = it.is_pending } else go_on, p)

-- The stack after the first slice has taken the place of the version.
unfoldable pub pop_pending : ℕ → Stack → ℕ → Run (Stack × List StackSlice)
unfolding iter pop_pending_callback renumber_version
pop_pending fuel s version = do
  w ← iter fuel s version pop_pending_callback tt true
  elim w.slices [
    | [] ↦ ok (w.stack, [])
    | x ∷ xs ↦ (do
      s' ← renumber_version w.stack x.version version
      ok (s', (record x { version = version }) ∷ xs))
  ]

pub pop_error_callback : StackCallback Bool
pop_error_callback found it n = elim it.subtrees [
  | [] ↦ (go_on, found)
  | t ∷ ts ↦
      if not found && is_error t
      then (pop_and_stop, true)
      else (record { stop = true; pop = false }, found)
]

pub has_error_link : List StackLink → Bool
has_error_link [] = false
has_error_link (l ∷ ls) = elim l.subtree [ none ↦ false | some t ↦ is_error t ] || has_error_link ls

unfoldable pub pop_error : ℕ → Stack → ℕ → Run (Stack × List Subtree)
unfolding iter pop_error_callback renumber_version has_error_link head_node
pop_error fuel s version = do
  (h, n) ← head_node s version
  if not (has_error_link n.links) then ok (s, []) else do
    w ← iter fuel s version pop_error_callback false true
    elim w.slices [
      | [] ↦ ok (w.stack, [])
      | x ∷ [] ↦ (do s' ← renumber_version w.stack x.version version; ok (s', x.subtrees))
      | x ∷ (y ∷ ys) ↦ fault
    ]

pub pop_all_callback : StackCallback (Unit {0})
pop_all_callback p it n = (record { stop = false; pop = length n.links == 0 }, p)

unfoldable pub pop_all : ℕ → Stack → ℕ → Run (Walk (Unit {0}))
unfolding iter pop_all_callback
pop_all fuel s version = iter fuel s version pop_all_callback tt true

-- The summary has an entry of this depth and state, among its last ones of that depth or deeper. The
-- entries are searched from the last on, here the first of the list.
pub is_summarized : List StackSummaryEntry → ℕ → ℕ → Bool
is_summarized [] depth state = false
is_summarized (e ∷ es) depth state =
    if ltb e.depth depth
    then false
    else (e.depth == depth && e.state == state) || is_summarized es depth state

pub summarize_stack_callback : ℕ → StackCallback (List StackSummaryEntry)
unfolding is_summarized
summarize_stack_callback max_depth summary it n =
    if ltb max_depth it.subtree_count
    then (record { stop = true; pop = false }, summary)
    else if is_summarized (reverse summary) it.subtree_count n.state
    then (go_on, summary)
    else (
      go_on,
      summary ++ (record { position = n.position; depth = it.subtree_count; state = n.state }) ∷ [],
    )

unfoldable pub record_summary : ℕ → Stack → ℕ → ℕ → Run Stack
unfolding iter summarize_stack_callback head_at is_summarized
record_summary fuel s version max_depth = do
  w ← iter fuel s version (summarize_stack_callback max_depth) [] false
  h ← head_at w.stack version
  ok (record (w.stack) {
    heads = set w.stack.heads version (record h { summary = some w.payload });
  })
