-- ===== src/Parser/Advance.antt =====
-- lib/src/parser.c: `ts_parser__advance`.
use tree_sitter.Prelude.{
  ℕ, zero, suc, Bool, true, false, not, ◌&&◌, Option, none, some, ltb, ◌==◌, if◌then◌else◌,
}
use tree_sitter.Prelude.Run.{Run, ok, fault, ◌>>=◌}
use tree_sitter.Language.Tables.{ParseAction, TableEntry, table_entry, action_at, next_state}
use tree_sitter.Language.Tables as Tables
use tree_sitter.Subtree.{Subtree, symbol, leaf_symbol, is_keyword, child_count}
use tree_sitter.Subtree.Leaf.{set_symbol}
use tree_sitter.ReusableNode.{reusable_node_advance}
use tree_sitter.Stack.Versions.{error_state, state, renumber_version, halt, pause}
use tree_sitter.Parser.{Parser, with_stack}
use tree_sitter.Parser.Reuse.{checked, breakdown_lookahead, breakdown_top_of_stack}
use tree_sitter.Parser.Reduce.{shift, reduce, accept}
use tree_sitter.Parser.Recover.{recover}

-- `OP_COUNT_PER_TIMEOUT_CHECK`
abbrev pub op_count_per_timeout_check : ℕ
op_count_per_timeout_check = 100

-- What a call knows from its start on.
pub record AdvanceContext : Type 0 where
  pub version : ℕ
  pub position : ℕ
  pub last_external_token : Option Subtree
  pub did_reuse : Bool

-- The lookahead that a round works with; a null one is none.
pub record Lookahead : Type 0 where
  pub state : ℕ
  pub tree : Option Subtree
  pub entry : TableEntry

-- What the actions of an entry come to: the call ends, or all are done, with the last new version.
pub data ActionStep : Type 0 where
  ended : Parser → ActionStep
  performed : (p : Parser) (last_reduction_version : Option ℕ) → ActionStep

-- A null subtree has nothing to read.
abbrev pub present : Option Subtree → Run Subtree
present none = fault
present (some t) = ok t

abbrev is_null : Option Subtree → Bool
is_null none = true
is_null (some t) = false

-- The next node of the old tree, if the lookahead was taken from it.
abbrev after_reuse : Bool → Parser → Run Parser
unfolding reusable_node_advance
after_reuse did_reuse p =
    if not did_reuse
    then ok p
    else do r ← reusable_node_advance p.reusable_node; ok (record p { reusable_node = r })

abbrev pub broken_down : ℕ → Parser → Subtree → ℕ → Run (Subtree × Parser)
unfolding breakdown_lookahead
broken_down fuel p lookahead q =
    if ltb 0 (child_count lookahead)
    then breakdown_lookahead fuel p lookahead q
    else ok (lookahead, p)

-- A null lookahead that is shifted is read.
pub perform_shift : ℕ → AdvanceContext → Parser → Lookahead → ℕ → Bool → Run Parser
unfolding broken_down next_state shift after_reuse
perform_shift fuel c p la target is_extra = do
  lookahead ← present la.tree
  (token, p1) ← broken_down fuel p lookahead la.state
  let q =
      if ltb 0 (child_count lookahead)
      then next_state p1.language.tables la.state (symbol token)
      else if is_extra
      then la.state
      else target
  p2 ← shift p1 c.version q token is_extra
  after_reuse c.did_reuse p2

abbrev pub later : Option ℕ → Option ℕ → Option ℕ
later none last = last
later (some v) last = some v

-- One action; a shift that is marked as a repetition is passed over.
pub perform :
    ℕ → AdvanceContext → Parser → Lookahead → Option ℕ → Option ParseAction → Run ActionStep
unfolding perform_shift reduce accept broken_down recover after_reuse
perform fuel c p la last none = fault
perform fuel c p la last (some (Tables.shift target is_extra repetition)) =
    if repetition
    then ok (performed p last)
    else perform_shift fuel c p la target is_extra >>= λ p'. ok (ended p')
perform fuel c p la last (some (Tables.reduce count sym precedence production_id)) = do
  (reduction_version, p') ← reduce fuel p c.version (record {
    symbol = sym;
    count = count;
    dynamic_precedence = precedence;
    production_id = production_id;
    is_fragile = ltb 1 la.entry.action_count;
    end_of_non_terminal_extra = is_null la.tree;
  })
  ok (performed p' (later reduction_version last))
perform fuel c p la last (some Tables.accept) = do
  lookahead ← present la.tree
  p' ← accept fuel p c.version lookahead
  ok (ended p')
perform fuel c p la last (some Tables.recover) = do
  lookahead ← present la.tree
  (token, p1) ← broken_down fuel p lookahead error_state
  p2 ← recover fuel p1 c.version token
  p3 ← after_reuse c.did_reuse p2
  ok (ended p3)

-- So many actions of the entry, from one on.
pub perform_all : ℕ → AdvanceContext → ℕ → ℕ → Lookahead → Option ℕ → Parser → Run ActionStep
unfolding perform
perform_all fuel c zero i la last p = ok (performed p last)
perform_all fuel c (suc rounds) i la last p = do
  step ← perform fuel c p la last (action_at la.entry i)
  elim step [
    | ended p' ↦ ok (ended p')
    | performed p' last' ↦ perform_all fuel c rounds (suc i) la last' p'
  ]

-- What a round leaves: the call ends, or a further round, with or without a run of the lexer.
pub data AdvanceStep : Type 0 where
  advanced : Parser → AdvanceStep
  again : (needs_lex : Bool) (la : Lookahead) (p : Parser) → AdvanceStep

-- A reduction was performed: its version takes the place of the call's version.
pub after_reduction : AdvanceContext → Parser → Lookahead → ℕ → Run AdvanceStep
unfolding renumber_version state table_entry
after_reduction c p la reduced = do
  s ← renumber_version p.stack reduced c.version
  q ← state s c.version
  let p' = with_stack p s
  elim la.tree [
    | none ↦ ok (again true (record la { state = q }) p')
    | some t ↦ (do
      entry ← checked (table_entry p.language.tables q (leaf_symbol t))
      ok (again false (record la { state = q; entry = entry }) p'))
  ]

-- The lookahead is not valid in the state, not even as the word that it is.
pub reject : ℕ → AdvanceContext → Parser → Lookahead → Subtree → Run AdvanceStep
unfolding recover breakdown_top_of_stack state pause
reject fuel c p la t =
    if la.state == error_state then (do p' ← recover fuel p c.version t; ok (advanced p')) else do
      (did, p1) ← breakdown_top_of_stack fuel p c.version
      if did
          then (do q ← state p1.stack c.version; ok (again true (record la { state = q }) p1))
          else do s ← pause p1.stack c.version (some t); ok (advanced (with_stack p1 s))

-- There was no action that ends the call, and no reduction.
pub without_action : ℕ → AdvanceContext → Parser → Lookahead → Run AdvanceStep
unfolding halt table_entry set_symbol reject
without_action fuel c p la = elim la.tree [
  | none ↦ halt p.stack c.version >>= λ s. ok (advanced (with_stack p s))
  | some t ↦
      let word = p.language.keyword_capture_token in
      if is_keyword t && not (symbol t == word)
      then (do
        entry ← checked (table_entry p.language.tables la.state word)
        if ltb 0 entry.action_count
            then ok (
                again false
                  (record la { tree = some (set_symbol t word p.language.language); entry = entry })
                  p)
            else reject fuel c p la t)
      else reject fuel c p la t
]

-- The part of a round behind the check whether to stop.
unfoldable pub process : ℕ → AdvanceContext → Parser → Lookahead → Run AdvanceStep
unfolding perform_all after_reduction without_action
process fuel c p la = do
  step ← perform_all fuel c la.entry.action_count 0 la none p
  elim step [
    | ended p' ↦ ok (advanced p')
    | performed p' last ↦ elim last [
      | some v ↦ after_reduction c p' la v
      | none ↦ without_action fuel c p' la
    ]
  ]
