-- ===== src/Stack/Versions/Calls.antt =====
-- The calls that work on single versions of the stack, and what they do to the counts of its nodes. Those
-- that merge versions, pop, or record a summary are not among them.
use tree_sitter.Prelude.{
  ℕ, ◌+◌, ◌≤◌, ◌<◌, ◌≡◌, refl, Bool, true, Option, none, some, ltb, get_elem?, u32_mod, Bool-cases,
  inl, inr,
}
use tree_sitter.Prelude.Run.{Run, ok, ◌>>=◌}
use tree_sitter.Subtree.{Subtree}
use tree_sitter.Stack.{total}
use tree_sitter.Stack.Versions.{
  Stack, StackHead, active, paused, halted, head_at, put_head, is_paused, push, remove_version,
  renumber_version, swap_versions, copy_version, halt, pause, resume, clear,
  set_last_external_token, node_count_since_error,
}
use tree_sitter.Stack.Versions.Owned.{Owned, head_lem, put_head-Owned, Has, Keeps}
use tree_sitter.Stack.Versions.Moves.{
  drop_result, push-Keeps, remove-Keeps, renumber-Keeps, swap-Keeps, copy-Keeps, clear-Keeps,
}

-- The calls that work on single versions of the stack.
pub data Call : Type 0 where
  push_call : (version : ℕ) (subtree : Option Subtree) (pending : Bool) (state : ℕ) → Call
  remove_call : (version : ℕ) → Call
  renumber_call : (v1 v2 : ℕ) → Call
  swap_call : (v1 v2 : ℕ) → Call
  copy_call : (version : ℕ) → Call
  halt_call : (version : ℕ) → Call
  pause_call : (version : ℕ) (lookahead : Option Subtree) → Call
  resume_call : (version : ℕ) → Call
  token_call : (version : ℕ) (token : Option Subtree) → Call
  count_call : (version : ℕ) → Call
  clear_call : Call

abbrev pub call : Call → Stack → Run Stack
call (push_call v t pending state) s = push s v t pending state
call (remove_call v) s = remove_version s v
call (renumber_call v1 v2) s = renumber_version s v1 v2
call (swap_call v1 v2) s = swap_versions s v1 v2
call (copy_call v) s = drop_result (copy_version s v)
call (halt_call v) s = halt s v
call (pause_call v t) s = pause s v t
call (resume_call v) s = drop_result (resume s v)
call (token_call v t) s = set_last_external_token s v t
call (count_call v) s = drop_result (node_count_since_error s v)
call clear_call s = clear s

abbrev pub IsPausedAt : Stack → ℕ → Type 0
IsPausedAt s v = (h : StackHead) → get_elem? s.heads v ≡ some h → is_paused h.status ≡ true

-- The versions exist, one is renumbered downwards, and only a paused one is resumed.
abbrev pub Allowed : Call → Stack → Type 0
Allowed (push_call v t pending state) s = Has s v
Allowed (remove_call v) s = Has s v
Allowed (renumber_call v1 v2) s = Has s v1 × (v2 ≤ v1)
Allowed (swap_call v1 v2) s = Has s v1 × Has s v2
Allowed (copy_call v) s = Has s v
Allowed (halt_call v) s = Has s v
Allowed (pause_call v t) s = Has s v
Allowed (resume_call v) s = Has s v × IsPausedAt s v
Allowed (token_call v t) s = Has s v
Allowed (count_call v) s = Has s v
Allowed clear_call s = Unit

halt-Keeps : (s : Stack) (v : ℕ) → Owned s → Has s v → Keeps (halt s v)
unfolding halt head_at
halt-Keeps s v o i =
    let (h, n, g, k, _) = head_lem s v o i in
    let h' = record h { status = halted } in
    (put_head s v h', rw (g, ◌>>=◌), put_head-Owned s v h h' g refl o)

pause-Keeps : (s : Stack) (v : ℕ) (t : Option Subtree) → Owned s → Has s v → Keeps (pause s v t)
unfolding pause
pause-Keeps s v t o i =
    let (h, n, g, k, e) = head_lem s v o i in
    let h' = record h {
      status = paused;
      lookahead_when_paused = t;
      node_count_at_last_error = n.node_count;
    } in
    (put_head s v h', rw (e, ◌>>=◌), put_head-Owned s v h h' g refl o)

resume-Keeps :
    (s : Stack) (v : ℕ) → Owned s → Has s v → IsPausedAt s v → Keeps (drop_result (resume s v))
unfolding resume head_at
resume-Keeps s v o i p =
    let (h, n, g, k, _) = head_lem s v o i in
    let h' = record h { status = active; lookahead_when_paused = none } in
    (put_head s v h', rw (g, ◌>>=◌, p h g), put_head-Owned s v h h' g refl o)

token-Keeps :
    (s : Stack) (v : ℕ) (t : Option Subtree)
    → Owned s
    → Has s v
    → Keeps (set_last_external_token s v t)
unfolding set_last_external_token head_at
token-Keeps s v t o i =
    let (h, n, g, k, _) = head_lem s v o i in
    let h' = record h { last_external_token = t } in
    (put_head s v h', rw (g, ◌>>=◌), put_head-Owned s v h h' g refl o)

count-Keeps :
    (s : Stack) (v : ℕ) → Owned s → Has s v → Keeps (drop_result (node_count_since_error s v))
unfolding node_count_since_error
count-Keeps s v o i =
    let (h, n, g, k, e) = head_lem s v o i in
    let h' = record h { node_count_at_last_error = n.node_count } in
    elim (Bool-cases (ltb n.node_count h.node_count_at_last_error)) [
      | inl b ↦ (put_head s v h', rw (e, ◌>>=◌, b), put_head-Owned s v h h' g refl o)
      | inr b ↦ (s, rw (e, ◌>>=◌, b), o)
    ]

-- In a stack whose nodes are counted right and have fewer than 2 ^ 32 - 1 pointers in all, each of
-- these calls succeeds: pushing on a version, removing, renumbering, swapping, copying, halting,
-- pausing and resuming versions, setting the last external token of one, counting its nodes since an
-- error, and clearing the stack. The nodes of the result are counted right: each count is the number
-- of heads and links that point to the node. The versions must exist, a version is renumbered
-- downwards, and only a paused version is resumed. Merging, popping, and recording a summary are not
-- among these calls.
pub call-Owned :
    (c : Call) (s : Stack)
    → Owned s
    → total s.store.nodes + 1 < u32_mod
    → Allowed c s
    → (s' : Stack) × (call c s ≡ ok s') × Owned s'
call-Owned (push_call v t pending state) s o b a = push-Keeps s v t pending state o a
call-Owned (remove_call v) s o b a = remove-Keeps s v o a
call-Owned (renumber_call v1 v2) s o b a = renumber-Keeps s v1 v2 o a.0 a.1
call-Owned (swap_call v1 v2) s o b a = swap-Keeps s v1 v2 o a.0 a.1
call-Owned (copy_call v) s o b a = copy-Keeps s v o b a
call-Owned (halt_call v) s o b a = halt-Keeps s v o a
call-Owned (pause_call v t) s o b a = pause-Keeps s v t o a
call-Owned (resume_call v) s o b a = resume-Keeps s v o a.0 a.1
call-Owned (token_call v t) s o b a = token-Keeps s v t o a
call-Owned (count_call v) s o b a = count-Keeps s v o a
call-Owned clear_call s o b a = clear-Keeps s o b
