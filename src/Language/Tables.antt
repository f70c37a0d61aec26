-- ===== src/Language/Tables.antt =====
-- The parse tables of a language: struct TSLanguage of lib/src/parser.h and the code that reads them in
-- lib/src/language.h and language.c. They are generated for each grammar; a read past the end of one,
-- which the generator excludes, gives the default that is written at the read.
pub mod Groups
use tree_sitter.Prelude.{
  ℕ, zero, suc, ◌+◌, ◌-◌, ◌*◌, ◌%◌, Bool, true, false, not, ◌&&◌, ◌||◌, Option, none, some, List,
  [], ◌∷◌, ltb, leb, ◌==◌, if◌then◌else◌, get_or, get_elem?, drop, add32, u32_mod, u16_mod,
}
use tree_sitter.Prelude.Int.{ℤ}
use tree_sitter.Language.{sym_error, sym_error_repeat}

-- `TSParseAction`
pub data ParseAction : Type 0 where
  shift : (state : ℕ) (extra repetition : Bool) → ParseAction
  reduce : (child_count symbol : ℕ) (dynamic_precedence : ℤ) (production_id : ℕ) → ParseAction
  accept : ParseAction
  recover : ParseAction

-- `TSParseActionEntry`: the count in front of some actions, or one of them
pub data ParseActionEntry : Type 0 where
  action : ParseAction → ParseActionEntry
  entry : (count : ℕ) (reusable : Bool) → ParseActionEntry

-- The part of `TSLanguage` that holds the parse tables.
pub record ParseTables : Type 0 where
  pub version : ℕ
  pub symbol_count : ℕ
  pub token_count : ℕ
  pub external_token_count : ℕ
  pub state_count : ℕ
  pub large_state_count : ℕ
  pub parse_table : List ℕ
  pub small_parse_table : List ℕ
  pub small_parse_table_map : List ℕ
  pub parse_actions : List ParseActionEntry
  pub public_symbol_map : List ℕ
  pub primary_state_ids : List ℕ

-- `TableEntry`; the actions are what follows the entry in the table.
pub record TableEntry : Type 0 where
  pub actions : List ParseActionEntry
  pub action_count : ℕ
  pub is_reusable : Bool

-- whether one of the next numbers is the symbol
pub lists_symbol : ℕ → List ℕ → ℕ → Bool
lists_symbol zero numbers symbol = false
lists_symbol (suc n) numbers symbol =
    get_or numbers 0 0 == symbol || lists_symbol n (drop 1 numbers) symbol

-- The loop of `ts_language_lookup` over the groups of a small state.
pub lookup_groups : ℕ → List ℕ → ℕ → ℕ
unfolding lists_symbol
lookup_groups zero numbers symbol = 0
lookup_groups (suc n) numbers symbol =
    let section_value = get_or numbers 0 0 in
    let symbol_count = get_or numbers 1 0 in
    if lists_symbol symbol_count (drop 2 numbers) symbol
    then section_value
    else lookup_groups n (drop symbol_count (drop 2 numbers)) symbol

-- where the groups of a small state start
unfoldable pub small_state_index : ParseTables → ℕ → ℕ
small_state_index t state = get_or t.small_parse_table_map (state - t.large_state_count) 0

unfoldable pub lookup : ParseTables → ℕ → ℕ → ℕ
unfolding lookup_groups small_state_index
lookup t state symbol =
    if leb t.large_state_count state
    then (let numbers = drop (small_state_index t state) t.small_parse_table in
        lookup_groups (get_or numbers 0 0) (drop 1 numbers) symbol)
    else get_or t.parse_table (add32 (state * t.symbol_count % u32_mod) symbol) 0

unfoldable pub has_actions : ParseTables → ℕ → ℕ → Bool
unfolding lookup
has_actions t state symbol = not (lookup t state symbol == 0)

abbrev pub no_entry : TableEntry
no_entry = record { actions = []; action_count = 0; is_reusable = false }

-- The entry at an index of the actions; one that is no header has no count to read.
pub entry_at : ParseTables → ℕ → TableEntry
entry_at t index = elim (get_elem? t.parse_actions index) [
  | some (entry count reusable) ↦ record {
    actions = drop (index + 1) t.parse_actions;
    action_count = count;
    is_reusable = reusable;
  }
  | _ ↦ no_entry
]

-- `none` is a failed assertion: the symbol is no token.
unfoldable pub table_entry : ParseTables → ℕ → ℕ → Option TableEntry
unfolding lookup entry_at
table_entry t state symbol =
    if symbol == sym_error || symbol == sym_error_repeat
    then some no_entry
    else if ltb symbol t.token_count
    then some (entry_at t (lookup t state symbol))
    else none

-- `entry.actions[i]`
abbrev pub action_at : TableEntry → ℕ → Option ParseAction
action_at e i = elim (get_elem? e.actions i) [ some (action a) ↦ some a | _ ↦ none ]

unfoldable pub has_reduce_action : ParseTables → ℕ → ℕ → Option Bool
unfolding table_entry
has_reduce_action t state symbol = elim (table_entry t state symbol) [
  | none ↦ none
  | some e ↦ some (elim (action_at e 0) [
    | some (reduce child_count symbol dynamic_precedence production_id) ↦ ltb 0 e.action_count
    | _ ↦ false
  ])
]

-- the state behind the last action, if that is a shift
abbrev shift_state : ParseTables → ℕ → TableEntry → ℕ
shift_state t state e = if e.action_count == 0 then 0 else elim (action_at e (e.action_count - 1)) [
  | some (shift target extra repetition) ↦ if extra then state else target
  | _ ↦ 0
]

unfoldable pub next_state : ParseTables → ℕ → ℕ → ℕ
unfolding table_entry lookup
next_state t state symbol =
    if symbol == sym_error || symbol == sym_error_repeat
    then 0
    else if ltb symbol t.token_count
    then elim (table_entry t state symbol) [ none ↦ 0 | some e ↦ shift_state t state e ]
    else lookup t state symbol

unfoldable pub public_symbol : ParseTables → ℕ → ℕ
public_symbol t symbol = if symbol == sym_error then symbol else get_or t.public_symbol_map symbol 0

unfoldable pub is_symbol_external : ParseTables → ℕ → Bool
is_symbol_external t symbol = ltb 0 symbol && ltb symbol (add32 t.external_token_count 1)

unfoldable pub state_is_primary : ParseTables → ℕ → Bool
state_is_primary t state =
    if leb 14 t.version then state == get_or t.primary_state_ids state 0 else true

-- `LookaheadIterator` without the language, and without the fields that no code uses. The pointers
-- `data` and `group_end` are indices into the table plus one: 0 is the null pointer, and the pointer
-- in front of the first number.
pub record LookaheadIterator : Type 0 where
  pub data_pointer : ℕ
  pub group_end : ℕ
  pub table_value : ℕ
  pub group_count : ℕ
  pub is_small_state : Bool
  pub actions : List ParseActionEntry
  pub symbol : ℕ
  pub next_state : ℕ
  pub action_count : ℕ

unfoldable pub lookaheads : ParseTables → ℕ → LookaheadIterator
unfolding small_state_index
lookaheads t state =
    let is_small = leb t.large_state_count state in
    let index = small_state_index t state in
    record {
      data_pointer = if is_small then index + 1 else state * t.symbol_count % u32_mod;
      group_end = if is_small then index + 2 else 0;
      table_value = 0;
      group_count = if is_small then get_or t.small_parse_table index 0 else 0;
      is_small_state = is_small;
      actions = [];
      symbol = u16_mod - 1;
      next_state = 0;
      action_count = 0;
    }

-- The last block of `ts_lookahead_iterator__next`.
pub read_value : ParseTables → LookaheadIterator → LookaheadIterator
unfolding entry_at
read_value t it =
    let is_token = ltb it.symbol t.token_count in
    let e = entry_at t it.table_value in
    record it {
      action_count = if is_token then e.action_count else 0;
      actions = if is_token then e.actions else it.actions;
      next_state = if is_token then 0 else it.table_value;
    }

-- `*p` in the table of the small states
abbrev pub small_at : ParseTables → ℕ → ℕ
small_at t p = get_or t.small_parse_table (p - 1) 0

-- The block for a small state.
pub next_small : ParseTables → LookaheadIterator → LookaheadIterator × Bool
unfolding read_value
next_small t it =
    let p = it.data_pointer + 1 in
    if p == it.group_end
    then (if it.group_count == 0 then (record it { data_pointer = p }, false) else (
      read_value t (record it {
        data_pointer = p + 2;
        group_count = it.group_count - 1;
        table_value = small_at t p;
        group_end = p + 2 + small_at t (p + 1);
        symbol = small_at t (p + 2);
      }),
      true,
    ))
    else (record it { data_pointer = p; symbol = small_at t p }, true)

-- The loop for a large state, on fuel.
pub next_large : ℕ → ParseTables → LookaheadIterator → Option (LookaheadIterator × Bool)
unfolding read_value
next_large zero t it = none
next_large (suc fuel) t it =
    let symbol' = (it.symbol + 1) % u16_mod in
    let p = it.data_pointer + 1 in
    let value = get_or t.parse_table (p - 1) 0 in
    let it' = record it { data_pointer = p; symbol = symbol'; table_value = value } in
    let rest = next_large fuel t it' in
    if leb t.symbol_count symbol'
    then some (record it { data_pointer = p; symbol = symbol' }, false)
    else if value == 0
    then rest
    else some (read_value t it', true)

-- `ts_lookahead_iterator__next`; one more than the symbols is enough fuel.
unfoldable pub lookahead_next : ParseTables → LookaheadIterator → Option (LookaheadIterator × Bool)
unfolding next_small next_large
lookahead_next t it =
    if it.is_small_state then some (next_small t it) else next_large (t.symbol_count + 1) t it
