-- ===== src/Subtree/Summary/Counts.antt =====
-- The numbers of visible nodes that a node caches against counts over the whole tree.
use tree_sitter.Prelude.{
  ℕ, ◌+◌, ◌%◌, ◌<◌, ◌≡◌, refl, ◌∙◌, true, false, ◌||◌, List, Option, add32, u32_mod, arith,
  if◌then◌else◌,
}
use tree_sitter.Language.{Language, alias_sequence, symbol_metadata_of}
use tree_sitter.Subtree.{Subtree, Subtrees, HeapData, inline, heap, nil, cons, of_list}
use tree_sitter.Subtree as Tree
use tree_sitter.Subtree.Summary.{
  Loop, aliased, alias_of, summarize_child, summarize_rest, summarize_children, new_node,
  blank_node, reset, visible_part, named_part, descendant_part,
}

-- the structural index after a child
abbrev next_index : ℕ → Subtree → ℕ
next_index i c = if Tree.extra c then i else add32 i 1

-- The nodes that a tree shows as its children: a hidden child is replaced by what it shows.
unfoldable mutual
  pub shown : Language → Subtree → ℕ
  shown l (inline d) = 0
  shown l (heap d cs) = shown_in l (alias_sequence l d.production_id) 0 cs

  pub shown_in : Language → Option (List ℕ) → ℕ → Subtrees → ℕ
  shown_in l a i nil = 0
  shown_in l a i (cons c cs) =
      (if aliased a i c || Tree.visible c then 1 else shown l c) + shown_in l a (next_index i c) cs

-- The named ones among them.
unfoldable mutual
  pub named_shown : Language → Subtree → ℕ
  named_shown l (inline d) = 0
  named_shown l (heap d cs) = named_shown_in l (alias_sequence l d.production_id) 0 cs

  pub named_shown_in : Language → Option (List ℕ) → ℕ → Subtrees → ℕ
  named_shown_in l a i nil = 0
  named_shown_in l a i (cons c cs) =
      (if aliased a i c
        then (if (symbol_metadata_of l (alias_of a i)).named then 1 else 0)
        else if Tree.visible c
        then (if Tree.named c then 1 else 0)
        else named_shown l c)
      + named_shown_in l a (next_index i c) cs

-- All visible nodes strictly below a tree.
unfoldable mutual
  pub visible_below : Language → Subtree → ℕ
  visible_below l (inline d) = 0
  visible_below l (heap d cs) = visible_below_in l (alias_sequence l d.production_id) 0 cs

  pub visible_below_in : Language → Option (List ℕ) → ℕ → Subtrees → ℕ
  visible_below_in l a i nil = 0
  visible_below_in l a i (cons c cs) =
      visible_below l c
      + (if aliased a i c || Tree.visible c then 1 else 0)
      + visible_below_in l a (next_index i c) cs

-- The cached numbers of a tree are those counts, up to the wrap-around of their type.
abbrev pub Counted : Language → Subtree → Type 0
Counted l t =
    (Tree.visible_child_count t ≡ shown l t % u32_mod)
    × (Tree.named_child_count t ≡ named_shown l t % u32_mod)
    × (Tree.visible_descendant_count t ≡ visible_below l t % u32_mod)

abbrev pub AllCounted : Language → Subtrees → Type 0
AllCounted l nil = Unit
AllCounted l (cons c cs) = Counted l c × AllCounted l cs

-- Without children there is nothing to show.
childless :
    (c : Subtree)
    → Tree.child_count c ≡ 0
    → (Tree.visible_child_count c ≡ 0) × (Tree.named_child_count c ≡ 0)
childless (inline d) h = (refl, refl)
childless (heap d nil) h = (refl, refl)
childless (heap d (cons c cs)) h = cc

rest-visible :
    (l : Language) (a : Option (List ℕ)) (s : Loop) (cs : Subtrees)
    → AllCounted l cs
    → s.self.visible_child_count < u32_mod
    → (summarize_rest l a s cs).self.visible_child_count
      ≡ (s.self.visible_child_count + shown_in l a s.structural_index cs) % u32_mod
unfolding summarize_rest summarize_child visible_part shown
rest-visible l a s nil h f = omega arith
rest-visible l a s (cons c cs) h f =
    rest-visible l a (summarize_child l a false s c) cs h.1 (omega arith)
    ∙ ground (arith, childless c)

rest-named :
    (l : Language) (a : Option (List ℕ)) (s : Loop) (cs : Subtrees)
    → AllCounted l cs
    → s.self.named_child_count < u32_mod
    → (summarize_rest l a s cs).self.named_child_count
      ≡ (s.self.named_child_count + named_shown_in l a s.structural_index cs) % u32_mod
unfolding summarize_rest summarize_child named_part named_shown
rest-named l a s nil h f = omega arith
rest-named l a s (cons c cs) h f =
    rest-named l a (summarize_child l a false s c) cs h.1 (omega arith)
    ∙ ground (arith, childless c)

rest-below :
    (l : Language) (a : Option (List ℕ)) (s : Loop) (cs : Subtrees)
    → AllCounted l cs
    → s.self.visible_descendant_count < u32_mod
    → (summarize_rest l a s cs).self.visible_descendant_count
      ≡ (s.self.visible_descendant_count + visible_below_in l a s.structural_index cs) % u32_mod
unfolding summarize_rest summarize_child descendant_part visible_below
rest-below l a s nil h f = omega arith
rest-below l a s (cons c cs) h f =
    rest-below l a (summarize_child l a false s c) cs h.1 (omega arith) ∙ ground arith

rest-production_id :
    (l : Language) (a : Option (List ℕ)) (s : Loop) (cs : Subtrees)
    → (summarize_rest l a s cs).self.production_id ≡ s.self.production_id
unfolding summarize_rest summarize_child
rest-production_id l a s nil = refl
rest-production_id l a s (cons c cs) = rest-production_id l a (summarize_child l a false s c) cs

-- Summarizing children whose cached numbers are right makes those of their parent right.
pub summarize_children-Counted :
    (l : Language) (d : HeapData) (cs : Subtrees)
    → AllCounted l cs
    → Counted l (heap (summarize_children l d cs) cs)
unfolding summarize_children shown named_shown visible_below
summarize_children-Counted l d nil h = (omega arith, omega arith, omega arith)
summarize_children-Counted l d (cons c cs) h =
    let a = alias_sequence l d.production_id in
    let s =
      summarize_child l a true
        (record { self = reset d; structural_index = 0; lookahead_end_byte = 0 }) c in
    rw (rest-production_id l a s cs) (
      rest-visible l a s cs h.1 (omega arith) ∙ ground (arith, childless c),
      rest-named l a s cs h.1 (omega arith) ∙ ground (arith, childless c),
      rest-below l a s cs h.1 (omega arith) ∙ ground arith,
    )

-- A new node caches how many nodes and named nodes it shows as its children, and how many visible
-- nodes lie below it, counted over the whole tree, each modulo 2 ^ 32, if its children cache theirs.
pub new_node-Counted :
    (l : Language) (sym : ℕ) (children : List Subtree) (production_id : ℕ)
    → AllCounted l (of_list children)
    → Counted l (new_node l sym children production_id)
unfolding new_node
new_node-Counted l sym children production_id h =
    summarize_children-Counted l (blank_node (symbol_metadata_of l sym) sym production_id)
      (of_list children) h
