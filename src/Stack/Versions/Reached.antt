-- ===== src/Stack/Versions/Reached.antt =====
-- The stacks that calls reach from a new one.
use tree_sitter.Prelude.{ℕ, Bool, zero, suc, ◌+◌, ◌<◌, ◌≡◌, refl, [], ◌∷◌, arith, u32_mod}
use tree_sitter.Prelude.Run.{ok, Holds-ok}
use tree_sitter.Stack.Merge.{merge}
use tree_sitter.Stack.Merge.Owned.{merge-Owned}
use tree_sitter.Stack.{base_value, total}
use tree_sitter.Stack.Counts.{one, incoming, count_of}
use tree_sitter.Stack.Versions.{Stack, base_head, new}
use tree_sitter.Stack.Versions.Owned.{Owned, head_times}
use tree_sitter.Stack.Pop.Counts.{Pops, Pops-Owned}
use tree_sitter.Stack.Versions.Calls.{Call, call, Allowed, call-Owned}

-- What `new` gives: the base node has a pointer from the stack and one from the first head.
unfoldable pub initial : Stack
initial = record {
  heads = base_head 0 ∷ [];
  store = record { nodes = (record (base_value 1) { ref_count = 2 }) ∷ []; node_pool = [] };
  base_node = 0;
}

new_lem : new ≡ ok initial
unfolding new initial
new_lem = refl

counts_there :
    (q : ℕ)
    → count_of initial.store.nodes q
      ≡ (one initial.base_node q + head_times q initial.heads) + incoming q initial.store.nodes
unfolding initial count_of incoming
counts_there zero = refl
counts_there (suc q) = ground arith

initial-Owned : Owned initial
unfolding initial
initial-Owned = record {
  counts = counts_there;
  once = λ q. omega arith;
  unused = λ q h. absurd (omega arith);
  inside = λ q h. absurd (omega arith);
}

-- Calls on single versions that keep to their conditions, calls that pop, and merges lead from a new
-- stack to this one.
pub data Reached : Stack → Type 0 where
  fresh : (s : Stack) → new ≡ ok s → Reached s
  called :
      (s s' : Stack) (c : Call)
      → Reached s
      → total s.store.nodes + 1 < u32_mod
      → Allowed c s
      → call c s ≡ ok s'
      → Reached s'
  pops : (s s' : Stack) → Reached s → total s.store.nodes < u32_mod → Pops s s' → Reached s'
  merges :
      (s s' : Stack) (fuel v1 v2 : ℕ) (merged : Bool)
      → Reached s
      → total s.store.nodes < u32_mod
      → merge fuel s v1 v2 ≡ ok (merged, s')
      → Reached s'

-- In each stack that calls reach from a new one, the count of a node is the number of heads and links
-- that point to it, with the stack's own pointer to the base node. The calls are all that change the
-- stack: pushing on versions, removing, renumbering, swapping, copying, halting, pausing and resuming
-- them, setting their last external tokens, counting their nodes since an error, clearing the stack,
-- popping in each of the four ways, recording a summary, and merging. Each call returns, is made with
-- fewer than 2 ^ 32 - 1 pointers to nodes, and those on single versions with versions as they must be.
pub Reached-Owned : (s : Stack) → Reached s → Owned s
Reached-Owned s (fresh t e) = let same : initial ≡ t = cc (new_lem, e) in rw⁻¹ same initial-Owned
Reached-Owned s (called t t' c r b a e) =
    let (u, e', o) = call-Owned c t (Reached-Owned t r) b a in let same : u ≡ t' = cc in rw⁻¹ same o
Reached-Owned s (pops t _ r b p) = Pops-Owned t s p (Reached-Owned t r) b
Reached-Owned s (merges t _ fuel v1 v2 merged r b e) =
    Holds-ok (λ (x : Bool × Stack). Owned x.1) _ (merged, s)
      (merge-Owned fuel t v1 v2 (Reached-Owned t r) b) e
