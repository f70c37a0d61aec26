-- ===== src/Parser/Turn/Checks.antt =====
-- How often the parser asks whether to stop.
use mathlib.Core.Path.{subst}
use tree_sitter.Prelude.{
  ℕ, zero, suc, ◌+◌, ◌*◌, ◌<◌, ◌≤◌, ◌≡◌, refl, Option, none, some, ap, ◌∙◌, Bool, true, false, ◌==◌,
  arith,
}
use tree_sitter.Prelude.Run.{
  Run, ok, fault, out_of_fuel, ◌>>=◌, Holds, Holds-if, Holds-bind, Holds-ok,
}
use tree_sitter.Subtree.{Subtree, symbol}
use tree_sitter.Language.{sym_end}
use tree_sitter.Language.Tables.{table_entry}
use tree_sitter.Stack.Versions as Versions
use tree_sitter.Parser.Lex.{LanguageFunctions, ParserState, lex, lex_loop, first_round}
use tree_sitter.Parser.Reuse.{mode_at, checked}
use tree_sitter.Parser.Turn.{
  count_operation, relex, advance_loop, with_entry, turn, turned, settle, TurnEnd, over, further,
}
use tree_sitter.Parser.Advance.{
  AdvanceContext, Lookahead, AdvanceStep, advanced, again, process, op_count_per_timeout_check,
}

module _ {P : Type 0} (f : LanguageFunctions P) (stops : ℕ → Bool) (fuel : ℕ) where
  -- The state behind so many operations
  pub count_operations : ℕ → ParserState P → ParserState P
  unfolding count_operation
  count_operations zero s = s
  count_operations (suc n) s = (count_operation f stops fuel (count_operations n s)).1

  count_step :
      (s : ParserState P)
      → s.operation_count < op_count_per_timeout_check
      → let s' = (count_operation f stops fuel s).1 in
        (s'.operation_count < op_count_per_timeout_check)
        × (100 * s'.checks + s'.operation_count ≡ 100 * s.checks + s.operation_count + 1)
  unfolding count_operation
  count_step s h = ground arith

  -- After so many operations, from a count below 100 on, the count is below 100 again, and 100 times the
  -- checks made so far plus the count has grown by the number of operations: there is one check in
  -- every hundred operations.
  pub count_operations_lem :
      (n : ℕ) (s : ParserState P)
      → s.operation_count < op_count_per_timeout_check
      → let s' = count_operations n s in
        (s'.operation_count < op_count_per_timeout_check)
        × (op_count_per_timeout_check * s'.checks + s'.operation_count
            ≡ op_count_per_timeout_check * s.checks + s.operation_count + n)
  unfolding count_operations
  count_operations_lem zero s h = (h, omega arith)
  count_operations_lem (suc n) s h =
      let (l, e) = count_operations_lem n s h in
      let (l', e') = count_step (count_operations n s) l in (l', omega (arith, e, e'))

  lex-keeps_count :
      (s : ParserState P) (version q : ℕ)
      → Holds (λ x. x.1.operation_count ≡ s.operation_count) (lex fuel f s version q)
  unfolding lex
  lex-keeps_count s version q =
      let S = λ (x : Option Subtree × ParserState P). x.1.operation_count ≡ s.operation_count in
      let p = s.parser in
      Holds-if S ((mode_at p.language q).lex_state == 65535) _ _ (λ _. refl)
        (λ _. Holds-bind S (Versions.position p.stack version) _ (λ start _.
          Holds-bind S (Versions.last_external_token p.stack version) _ (λ token _.
            Holds-bind S (lex_loop f fuel p version fuel token start (first_round s q start)) _
              (λ x _. refl))))

  with_entry-keeps_count :
      (c : AdvanceContext) (la : Lookahead) (token : Option Subtree) (s : ParserState P)
      → Holds (λ x. x.1.operation_count ≡ s.operation_count) (with_entry c la token s)
  unfolding with_entry
  with_entry-keeps_count c la none s =
      Holds-bind (λ (x : Lookahead × ParserState P). x.1.operation_count ≡ s.operation_count)
        (checked (table_entry s.parser.language.tables la.state sym_end)) _ (λ entry _. refl)
  with_entry-keeps_count c la (some t) s =
      Holds-bind (λ (x : Lookahead × ParserState P). x.1.operation_count ≡ s.operation_count)
        (checked (table_entry s.parser.language.tables la.state (symbol t))) _ (λ entry _. refl)

  relex-keeps_count :
      (c : AdvanceContext) (needs_lex : Bool) (la : Lookahead) (s : ParserState P)
      → Holds (λ x. x.1.operation_count ≡ s.operation_count) (relex f stops fuel c needs_lex la s)
  unfolding relex
  relex-keeps_count c false la s = refl
  relex-keeps_count c true la s =
      let S = λ (k : ℕ) (x : Lookahead × ParserState P). x.1.operation_count ≡ k in
      Holds-bind (S s.operation_count) (lex fuel f s c.version la.state) _ (λ x e.
        subst (λ k. Holds (S k) (with_entry c la x.0 x.1))
          (Holds-ok (λ y. y.1.operation_count ≡ s.operation_count) _ x
            (lex-keeps_count s c.version la.state) e)
          (with_entry-keeps_count c la x.0 x.1))

  -- A further round has counted one more operation, and was not the one of the check.
  abbrev Counted : ParserState P → TurnEnd P → Type 0
  Counted s (over goes_on s') = Unit
  Counted s (further needs_lex la s') =
      (s'.operation_count ≡ s.operation_count + 1)
      × (s'.operation_count < op_count_per_timeout_check)

  count_lem :
      (s : ParserState P)
      → ((k : ℕ) → stops k ≡ true)
      → s.operation_count < op_count_per_timeout_check
      → (count_operation f stops fuel s).0 ≡ false
      → let s' = (count_operation f stops fuel s).1 in
        (s'.operation_count ≡ s.operation_count + 1)
        × (s'.operation_count < op_count_per_timeout_check)
  unfolding count_operation
  count_lem s always l h = ground (arith, always s.checks)

  turn-Counted :
      (c : AdvanceContext) (needs_lex : Bool) (la : Lookahead) (s : ParserState P)
      → ((k : ℕ) → stops k ≡ true)
      → s.operation_count < op_count_per_timeout_check
      → Holds (Counted s) (turn f stops fuel c needs_lex la s)
  unfolding turn
  turn-Counted c needs_lex la s always l =
      Holds-bind (Counted s) (relex f stops fuel c needs_lex la s) _ (λ x e.
        let k =
          Holds-ok (λ y. y.1.operation_count ≡ s.operation_count) _ x
            (relex-keeps_count c needs_lex la s) e in
        Holds-if (Counted s) (count_operation f stops fuel x.1).0 _ _ (λ _. tt)
          (λ stop.
            let (e1, e2) = count_lem x.1 always (omega (arith, k)) stop in
            Holds-bind (Counted s) (process fuel c (count_operation f stops fuel x.1).1.parser x.0)
              _
              (λ step _.
                turned_lem (count_operation f stops fuel x.1).1 step (e1 ∙ ap (λ n. n + 1) k) e2)))
    where
      turned_lem :
          (s' : ParserState P) (step : AdvanceStep)
          → s'.operation_count ≡ s.operation_count + 1
          → s'.operation_count < op_count_per_timeout_check
          → Counted s (turned f stops fuel s' step)
      turned_lem s' (advanced p) e1 e2 = tt
      turned_lem s' (again needs_lex' la' p) e1 e2 = (e1, e2)

  -- What the rounds from a state on come to, and how many they are: the last of them returns, fails,
  -- or runs out of the fuel for the work within it, and those before it each lead to a further one.
  pub data Ends (c : AdvanceContext)
      : ℕ → Bool → Lookahead → ParserState P → Run (Bool × ParserState P) → Type 0 where
    returns :
        (needs_lex : Bool) (la : Lookahead) (s : ParserState P) (goes_on : Bool)
        (s' : ParserState P)
        → turn f stops fuel c needs_lex la s ≡ ok (over goes_on s')
        → Ends c 1 needs_lex la s (ok (goes_on, s'))
    fails :
        (needs_lex : Bool) (la : Lookahead) (s : ParserState P)
        → turn f stops fuel c needs_lex la s ≡ fault
        → Ends c 1 needs_lex la s fault
    runs_out :
        (needs_lex : Bool) (la : Lookahead) (s : ParserState P)
        → turn f stops fuel c needs_lex la s ≡ out_of_fuel
        → Ends c 1 needs_lex la s out_of_fuel
    goes_on_to :
        (needs_lex : Bool) (la : Lookahead) (s : ParserState P) (needs_lex' : Bool)
        (la' : Lookahead) (s' : ParserState P) (k : ℕ) (r : Run (Bool × ParserState P))
        → turn f stops fuel c needs_lex la s ≡ ok (further needs_lex' la' s')
        → Ends c k needs_lex' la' s' r
        → Ends c (suc k) needs_lex la s r

  -- the rounds that are left before the next check, and the result they come to
  abbrev pub EndsInTime :
      AdvanceContext → Bool → Lookahead → ParserState P → Run (Bool × ParserState P) → Type 0
  EndsInTime c needs_lex la s r =
      (k : ℕ) × (k + s.operation_count ≤ op_count_per_timeout_check) × Ends c k needs_lex la s r

  -- Once every check asks to stop, the step loop of a call ends within 100 operations: the rounds made
  -- and the operations counted before them are at most 100, and the result is what the last round
  -- returns, or its fault, or that the fuel for the work within that round has run out; the rounds
  -- themselves do not run out, when the loop may make as many as are left up to the next check.
  pub advance_loop-stops :
      (rounds : ℕ) (c : AdvanceContext) (needs_lex : Bool) (la : Lookahead) (s : ParserState P)
      → ((k : ℕ) → stops k ≡ true)
      → s.operation_count < op_count_per_timeout_check
      → op_count_per_timeout_check ≤ rounds + s.operation_count
      → EndsInTime c needs_lex la s (advance_loop f stops fuel rounds c needs_lex la s)
  unfolding advance_loop
  advance_loop-stops zero c needs_lex la s always l h = absurd (omega arith)
  advance_loop-stops (suc n) c needs_lex la s always l h =
      by_turn (turn f stops fuel c needs_lex la s) refl (turn-Counted c needs_lex la s always l)
        (λ b la' s' l' h'. advance_loop-stops n c b la' s' always l' h')
    where
      by_turn :
          (t : Run (TurnEnd P))
          → turn f stops fuel c needs_lex la s ≡ t
          → Holds (Counted s) t
          → ((b : Bool) (la' : Lookahead) (s' : ParserState P)
              → s'.operation_count < op_count_per_timeout_check
              → op_count_per_timeout_check ≤ n + s'.operation_count
              → EndsInTime c b la' s' (advance_loop f stops fuel n c b la' s'))
          → EndsInTime c needs_lex la s (t >>= settle f stops fuel (advance_loop f stops fuel n c))
      by_turn fault e k ih = (1, omega arith, fails needs_lex la s e)
      by_turn out_of_fuel e k ih = (1, omega arith, runs_out needs_lex la s e)
      by_turn (ok (over goes_on s')) e k ih = (1, omega arith, returns needs_lex la s goes_on s' e)
      by_turn (ok (further b la' s')) e k ih =
          let (m, i, ends) = ih b la' s' k.1 (omega (arith, k.0)) in
          (suc m, omega (arith, i, k.0), goes_on_to needs_lex la s b la' s' m _ e ends)
