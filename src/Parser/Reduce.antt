-- ===== src/Parser/Reduce.antt =====
-- lib/src/parser.c: the actions of the parse table on a version of the stack.
pub mod Groups
use tree_sitter.Prelude.{
  ℕ, zero, suc, ◌+◌, Bool, true, false, not, ◌&&◌, ◌||◌, Option, none, some, List, [], ◌∷◌, ◌++◌,
  ltb, ◌==◌, if◌then◌else◌, length, add32, sub32, reverse,
}
use tree_sitter.Prelude.Int.{ℤ, ◌+ℤ◌}
use tree_sitter.Prelude.Run.{Run, ok, fault, out_of_fuel, ◌>>=◌}
use tree_sitter.Language.{Language}
use tree_sitter.Language.Tables.{next_state}
use tree_sitter.Subtree.{
  Subtree, HeapData, inline, heap, extra, set_extra, is_eof, child_count, to_list,
  has_external_tokens,
}
use tree_sitter.Subtree.Summary.{new_node, tree_state_none}
use tree_sitter.Subtree.Arrays.{remove_trailing_extras}
use tree_sitter.Subtree.External as External
use tree_sitter.Stack.Versions.{
  Stack, push, state, version_count, remove_version, set_last_external_token, halt,
}
use tree_sitter.Stack.Pop.{StackSlice, pop_count, pop_all}
use tree_sitter.Stack.Merge.{merge}
use tree_sitter.Parser.{
  Parser, ParserLanguage, with_stack, max_version_count, max_version_count_overflow,
}
use tree_sitter.Parser.Select.{select_tree, select_children}
use tree_sitter.Parser.Reuse.{push_trees}

-- The token that the version keeps, if the tree has external tokens; an endless search for it is
-- `out_of_fuel`.
unfoldable pub keep_external_token : Stack → ℕ → Subtree → Run Stack
unfolding External.last_external_token set_last_external_token
keep_external_token s v t =
    if not (has_external_tokens t) then ok s else elim (External.last_external_token t) [
      | none ↦ out_of_fuel
      | some token ↦ set_last_external_token s v token
    ]

abbrev pub same_flag : Bool → Bool → Bool
same_flag true b = b
same_flag false b = not b

-- `ts_parser__shift`
unfoldable pub shift : Parser → ℕ → ℕ → Subtree → Bool → Run Parser
unfolding push keep_external_token
shift p v q lookahead is_extra = do
  let is_leaf = child_count lookahead == 0
  let subtree =
      if not (same_flag is_extra (extra lookahead)) && is_leaf
      then set_extra lookahead is_extra
      else lookahead
  s ← push p.stack v (some subtree) (not is_leaf) q
  s' ← keep_external_token s v subtree
  ok (with_stack p s')

-- Slices that follow one another in one version.
pub record SliceGroup : Type 0 where
  pub version : ℕ
  pub first : List Subtree
  pub others : List (List Subtree)

abbrev pub add_to_group : StackSlice → List SliceGroup → List SliceGroup
add_to_group x [] = (record { version = x.version; first = x.subtrees; others = [] }) ∷ []
add_to_group x (g ∷ gs) =
    if g.version == x.version
    then (record { version = x.version; first = x.subtrees; others = g.first ∷ g.others }) ∷ gs
    else (record { version = x.version; first = x.subtrees; others = [] }) ∷ g ∷ gs

pub group_slices : List StackSlice → List SliceGroup
group_slices [] = []
group_slices (x ∷ xs) = add_to_group x (group_slices xs)

-- The parent of one of the slices, with the extras that came behind its children.
pub choose_parent :
    Language → ℕ → ℕ → Subtree × List Subtree → List (List Subtree) → Run (Subtree × List Subtree)
unfolding new_node remove_trailing_extras select_children
choose_parent l sym production_id chosen [] = ok chosen
choose_parent l sym production_id (parent, extras) (slice ∷ slices) = do
  let (children, extras') = remove_trailing_extras slice
  better ← select_children l parent children
  choose_parent l sym production_id
      (if better then (new_node l sym children production_id, extras') else (parent, extras)) slices

abbrev pub map_heap : (HeapData → HeapData) → Subtree → Subtree
map_heap f (inline d) = inline d
map_heap f (heap d cs) = heap (f d) cs

abbrev pub mark_extra : Bool → HeapData → HeapData
mark_extra b d = if b then record d { extra = true } else d

abbrev pub mark_state : Bool → ℕ → HeapData → HeapData
mark_state fragile q d =
    if fragile
    then record d { fragile_left = true; fragile_right = true; parse_state = tree_state_none }
    else record d { parse_state = q }

unfoldable pub add_precedence : ℤ → HeapData → HeapData
unfolding ◌+ℤ◌
add_precedence z d = record d { dynamic_precedence = d.dynamic_precedence +ℤ z }

-- The first of so many versions from `j` on, but for one, that the target merges into.
unfoldable pub merge_into_any : ℕ → ℕ → Stack → Option ℕ → ℕ → ℕ → Run (Bool × Stack)
unfolding merge
merge_into_any fuel zero s skipped j target = ok (false, s)
merge_into_any fuel (suc rounds) s skipped j target =
    let further = λ (s' : Stack). merge_into_any fuel rounds s' skipped (suc j) target in
    if elim skipped [ none ↦ false | some v ↦ j == v ]
    then further s
    else do (merged, s') ← merge fuel s j target; if merged then ok (true, s') else further s'

-- What a reduction is called with.
pub record Reduction : Type 0 where
  pub symbol : ℕ
  pub count : ℕ
  pub dynamic_precedence : ℤ
  pub production_id : ℕ
  pub is_fragile : Bool
  pub end_of_non_terminal_extra : Bool

-- One group of slices becomes one parent; `removed` is the number of versions that are gone. `several`
-- is whether there are more slices or versions than one.
pub reduce_group :
    ℕ → ParserLanguage → Reduction → ℕ → Bool → SliceGroup → ℕ → Stack → Run (ℕ × Stack)
unfolding remove_version remove_trailing_extras new_node choose_parent state next_state push
    push_trees merge_into_any
reduce_group fuel l r version several g removed s = do
  let v = sub32 g.version removed
  if ltb (max_version_count + max_version_count_overflow) v
      then (do s' ← remove_version s v; ok (add32 removed 1, s'))
      else do
        let (children, extras) = remove_trailing_extras g.first
        (parent, extras') ←
            choose_parent l.language r.symbol r.production_id
              (new_node l.language r.symbol children r.production_id, extras) g.others
        q ← state s v
        let q' = next_state l.tables q r.symbol
        let parent' =
            map_heap
              (λ d. add_precedence r.dynamic_precedence (
                mark_state (r.is_fragile || several) q
                  (mark_extra (r.end_of_non_terminal_extra && q' == q) d)))
              parent
        s1 ← push s v (some parent') false q'
        s2 ← push_trees extras' v q' s1
        (merged, s3) ← merge_into_any fuel v s2 (some version) 0 v
        ok (if merged then add32 removed 1 else removed, s3)

pub reduce_groups :
    ℕ → ParserLanguage → Reduction → ℕ → Bool → List SliceGroup → ℕ → Stack → Run Stack
unfolding reduce_group
reduce_groups fuel l r version several [] removed s = ok s
reduce_groups fuel l r version several (g ∷ gs) removed s =
    reduce_group fuel l r version several g removed s >>= λ x.
    reduce_groups fuel l r version several gs x.0 x.1

-- `ts_parser__reduce`; the result is the first new version, `none` for `STACK_VERSION_NONE`.
unfoldable pub reduce : ℕ → Parser → ℕ → Reduction → Run (Option ℕ × Parser)
unfolding version_count pop_count group_slices reduce_groups
reduce fuel p version r = do
  let initial = version_count p.stack
  w ← pop_count fuel p.stack version r.count
  let several = ltb 1 (length w.slices) || ltb 1 initial
  s ← reduce_groups fuel p.language r version several (group_slices w.slices) 0 w.stack
  ok (if ltb initial (version_count s) then some initial else none, with_stack p s)

-- The last tree that is no extra, with those before and behind it; the array comes from its end.
pub split_root : List Subtree → List Subtree → Option (List Subtree × Subtree × List Subtree)
split_root [] behind = none
split_root (t ∷ before) behind =
    let further = split_root before (t ∷ behind) in
    if extra t then further else some (reverse before, t, behind)

-- A root that is a leaf without heap data fails the assertion.
pub root_of : Language → List Subtree × Subtree × List Subtree → Run Subtree
unfolding new_node
root_of l (before, inline d, behind) = fault
root_of l (before, heap d cs, behind) =
    ok (new_node l d.symbol (before ++ to_list cs ++ behind) d.production_id)

pub finish_with : Parser → Subtree → Run Parser
unfolding select_tree
finish_with p root = do
  better ← select_tree p.finished_tree (some root)
  ok (record p {
    accept_count = add32 p.accept_count 1;
    finished_tree = if better then some root else p.finished_tree;
  })

pub accept_slices : Parser → List StackSlice → Run Parser
unfolding split_root root_of finish_with
accept_slices p [] = ok p
accept_slices p (x ∷ xs) = elim (split_root (reverse x.subtrees) []) [
  | none ↦ fault
  | some parts ↦ (do
    root ← root_of p.language.language parts
    p' ← finish_with p root
    accept_slices p' xs)
]

-- `ts_parser__accept`
unfoldable pub accept : ℕ → Parser → ℕ → Subtree → Run Parser
unfolding push pop_all accept_slices remove_version halt
accept fuel p version lookahead = if not (is_eof lookahead) then fault else do
  s ← push p.stack version (some lookahead) false 1
  w ← pop_all fuel s version
  p' ← accept_slices (with_stack p w.stack) w.slices
  elim w.slices [
    | [] ↦ fault
    | x ∷ xs ↦ (do
      s1 ← remove_version p'.stack x.version
      s2 ← halt s1 version
      ok (with_stack p' s2))
  ]
