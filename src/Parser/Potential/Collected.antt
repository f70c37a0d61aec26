-- ===== src/Parser/Potential/Collected.antt =====
-- The reductions that are collected for a lookahead.
use mathlib.Core.Path.{subst}
use tree_sitter.Prelude.{
  ℕ, zero, suc, ◌-◌, ◌<◌, ◌≡◌, refl, Bool, true, false, Option, none, some, List, [], ◌∷◌, ◌++◌,
  ◌∙◌, sym, ◌==◌, ◌↔◌, ◌⊎◌, if◌then◌else◌, arith,
}
use tree_sitter.Prelude.Run.{ok, ◌>>=◌}
use tree_sitter.Language.Tables.{ParseTables, ParseAction, TableEntry, action_at, table_entry}
use tree_sitter.Language.Tables as Tables
use tree_sitter.ReduceAction.{ReduceAction, Distinct, Absent, reduce_action_set_add_lem}
use tree_sitter.Parser.Potential.{
  Collected, collect_action, collect_entry, collect_symbols, collect_actions,
}
use tree_sitter.Parser.Reuse.{checked}

-- So many of a state's actions at the symbols from one on, in the order of the table
pub entry_actions : ℕ → TableEntry → ℕ → List (Option ParseAction)
entry_actions zero e j = []
entry_actions (suc rounds) e j = action_at e j ∷ entry_actions rounds e (suc j)

-- The action shifts the lookahead for good.
abbrev pub Shifts : Option ParseAction → Type 0
Shifts none = ⊥
Shifts (some (Tables.shift q is_extra repetition)) = (is_extra ≡ false) × (repetition ≡ false)
Shifts (some (Tables.reduce count sym precedence production)) = ⊥
Shifts (some Tables.accept) = ⊥
Shifts (some Tables.recover) = Unit

-- The action reduces at least one child to a symbol.
abbrev pub Reduces : Option ParseAction → ReduceAction → Type 0
Reduces none a = ⊥
Reduces (some (Tables.shift q is_extra repetition)) a = ⊥
Reduces (some (Tables.reduce count sym precedence production)) a =
    (0 < count) × (a.symbol ≡ sym) × (a.count ≡ count)
Reduces (some Tables.accept) a = ⊥
Reduces (some Tables.recover) a = ⊥

-- What one action adds
action_lem :
    (x : Option ParseAction) (shifts : Bool) (found : List ReduceAction)
    → Distinct found
    → let (shifts', found') = collect_action x (shifts, found) in
      Distinct found'
      × ((shifts' ≡ true) ↔ ((shifts ≡ true) ⊎ Shifts x))
      × ((b : ReduceAction) → Absent b found' ↔ (Absent b found × ¬ Reduces x b))
unfolding collect_action
action_lem none shifts found d = (d, ground arith, λ b. ground arith)
action_lem (some (Tables.shift q is_extra repetition)) shifts found d =
    (d, ground arith, λ b. ground arith)
action_lem (some (Tables.reduce count sym precedence production)) shifts found d =
    let a : ReduceAction = record {
      count = count;
      symbol = sym;
      dynamic_precedence = precedence;
      production_id = production;
    } in
    let (d', r) = reduce_action_set_add_lem found a d in
    (ground (arith, d'), ground arith, λ b. ground (arith, r b))
action_lem (some Tables.accept) shifts found d = (d, ground arith, λ b. ground arith)
action_lem (some Tables.recover) shifts found d = (d, ground arith, λ b. ground arith)

-- One action after the other
collect_list : List (Option ParseAction) → Collected → Collected
collect_list [] c = c
collect_list (x ∷ xs) c = collect_list xs (collect_action x c)

-- The entry's actions
abbrev listed : Option TableEntry → List (Option ParseAction)
listed none = []
listed (some e) = entry_actions e.action_count e 0

-- The actions at so many symbols from one on
abbrev pub symbol_actions : ℕ → ParseTables → ℕ → ℕ → List (Option ParseAction)
unfolding table_entry
symbol_actions zero t q symbol = []
symbol_actions (suc rounds) t q symbol =
    listed (table_entry t q symbol) ++ symbol_actions rounds t q (suc symbol)

-- All actions that are looked at for a lookahead
abbrev pub consulted : ParseTables → ℕ → ℕ → List (Option ParseAction)
consulted t q lookahead_symbol =
    if lookahead_symbol == 0
    then symbol_actions (t.token_count - 1) t q 1
    else symbol_actions 1 t q lookahead_symbol

abbrev pub AnyShifts : List (Option ParseAction) → Type 0
AnyShifts [] = ⊥
AnyShifts (x ∷ xs) = Shifts x ⊎ AnyShifts xs

abbrev pub AnyReduces : List (Option ParseAction) → ReduceAction → Type 0
AnyReduces [] b = ⊥
AnyReduces (x ∷ xs) b = Reduces x b ⊎ AnyReduces xs b

-- What a list of actions makes of what was collected before
abbrev Sum : List (Option ParseAction) → Collected → Collected → Type 0
Sum xs (shifts, found) (shifts', found') =
    Distinct found'
    × ((shifts' ≡ true) ↔ ((shifts ≡ true) ⊎ AnyShifts xs))
    × ((b : ReduceAction) → Absent b found' ↔ (Absent b found × ¬ AnyReduces xs b))

sum_lem :
    (xs : List (Option ParseAction)) (c : Collected) → Distinct c.1 → Sum xs c (collect_list xs c)
unfolding collect_list
sum_lem [] (shifts, found) d = (d, ground arith, λ b. ground arith)
sum_lem (x ∷ xs) (shifts, found) d =
    let (d', s, r) = action_lem x shifts found d in
    let (d'', s', r') = sum_lem xs (collect_action x (shifts, found)) d' in
    (d'', ground (arith, s, s'), λ b. ground (arith, r b, r' b))

collect_entry_lem :
    (n : ℕ) (e : TableEntry) (j : ℕ) (c : Collected)
    → collect_entry n e j c ≡ collect_list (entry_actions n e j) c
unfolding collect_entry collect_list entry_actions
collect_entry_lem zero e j c = refl
collect_entry_lem (suc n) e j c = collect_entry_lem n e (suc j) (collect_action (action_at e j) c)

collect_list-append :
    (xs ys : List (Option ParseAction)) (c : Collected)
    → collect_list (xs ++ ys) c ≡ collect_list ys (collect_list xs c)
unfolding collect_list
collect_list-append [] ys c = refl
collect_list-append (x ∷ xs) ys c = collect_list-append xs ys (collect_action x c)

symbols_lem :
    (n : ℕ) (t : ParseTables) (q symbol : ℕ) (c c' : Collected)
    → collect_symbols n t q symbol c ≡ ok c'
    → collect_list (symbol_actions n t q symbol) c ≡ c'
unfolding collect_symbols collect_list
symbols_lem zero t q symbol c c' h = cc
symbols_lem (suc n) t q symbol c c' h =
    behind_entry (table_entry t q symbol) (λ c1. symbols_lem n t q (suc symbol) c1 c') h
  where
    behind_entry :
        (o : Option TableEntry)
        → ((c1 : Collected)
            → collect_symbols n t q (suc symbol) c1 ≡ ok c'
            → collect_list (symbol_actions n t q (suc symbol)) c1 ≡ c')
        → (checked o >>= λ e.
            collect_symbols n t q (suc symbol) (collect_entry e.action_count e 0 c))
          ≡ ok c'
        → collect_list (listed o ++ symbol_actions n t q (suc symbol)) c ≡ c'
    behind_entry none ih h = cc
    behind_entry (some e) ih h =
        collect_list-append (entry_actions e.action_count e 0) (symbol_actions n t q (suc symbol)) c
        ∙ rw (sym (collect_entry_lem e.action_count e 0 c)) (ih _ h)

-- What is true of the result for a list of actions
abbrev pub Collects : List (Option ParseAction) → Bool → List ReduceAction → Type 0
Collects actions shifts found =
    Distinct found
    × ((shifts ≡ true) ↔ AnyShifts actions)
    × ((b : ReduceAction) → Absent b found ↔ ¬ AnyReduces actions b)

collects_lem :
    (n : ℕ) (t : ParseTables) (q symbol : ℕ) (shifts : Bool) (found : List ReduceAction)
    → collect_symbols n t q symbol (false, []) ≡ ok (shifts, found)
    → Collects (symbol_actions n t q symbol) shifts found
collects_lem n t q symbol shifts found h =
    let xs = symbol_actions n t q symbol in
    let (d, s, r) =
      subst (Sum xs (false, [])) (symbols_lem n t q symbol (false, []) (shifts, found) h)
        (sum_lem xs (false, []) tt) in
    (d, ground (arith, s), λ b. ground (arith, r b))

-- Where the actions for a lookahead, or for all tokens if that is 0, can be collected: the reductions
-- found differ in symbol or count; a reduction is absent exactly when no action of a consulted entry
-- reduces at least one child with its symbol and count; and the lookahead is found to be shifted exactly
-- when one of these actions recovers or shifts it, neither as an extra nor as a repetition.
pub collect_actions_lem :
    (t : ParseTables) (q lookahead_symbol : ℕ) (shifts : Bool) (found : List ReduceAction)
    → collect_actions t q lookahead_symbol ≡ ok (shifts, found)
    → Collects (consulted t q lookahead_symbol) shifts found
unfolding collect_actions
collect_actions_lem t q lookahead_symbol shifts found h = go (lookahead_symbol == 0) h
  where
    go :
        (b : Bool)
        → (if b
            then collect_symbols (t.token_count - 1) t q 1 (false, [])
            else collect_symbols 1 t q lookahead_symbol (false, []))
          ≡ ok (shifts, found)
        → Collects
            (if b
              then symbol_actions (t.token_count - 1) t q 1
              else symbol_actions 1 t q lookahead_symbol)
            shifts
            found
    go true h = collects_lem (t.token_count - 1) t q 1 shifts found h
    go false h = collects_lem 1 t q lookahead_symbol shifts found h
