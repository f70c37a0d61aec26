-- ===== src/Query/PatternMap.antt =====
-- lib/src/query.c: the entries of the patterns, sorted by the symbols of their roots.
pub mod Search
use tree_sitter.Prelude.{
  ℕ, zero, suc, ◌+◌, ◌-◌, ◌/◌, Bool, true, false, not, ◌&&◌, Option, none, some, List, [], ◌∷◌, ltb,
  ◌==◌, if◌then◌else◌, length, get_elem?,
}
use tree_sitter.Prelude.Run.{Run, ok, fault, out_of_fuel, ◌>>=◌}

-- `QueryStep`
pub record QueryStep : Type 0 where
  pub symbol : ℕ
  pub supertype_symbol : ℕ
  pub field : ℕ
  pub capture_ids : List ℕ
  pub depth : ℕ
  pub alternative_index : ℕ
  pub negated_field_list_id : ℕ
  pub is_named : Bool
  pub is_immediate : Bool
  pub is_last_child : Bool
  pub is_pass_through : Bool
  pub is_dead_end : Bool
  pub alternative_is_immediate : Bool
  pub contains_captures : Bool
  pub root_pattern_guaranteed : Bool
  pub parent_pattern_guaranteed : Bool

-- The constant `NONE`
abbrev pub no_id : ℕ
no_id = 65535

-- `query_step__new`; what it does not name is zero.
abbrev pub query_step_new : ℕ → ℕ → Bool → QueryStep
query_step_new symbol depth is_immediate = record {
  symbol = symbol;
  supertype_symbol = 0;
  field = 0;
  capture_ids = no_id ∷ no_id ∷ no_id ∷ [];
  depth = depth;
  alternative_index = no_id;
  negated_field_list_id = 0;
  is_named = false;
  is_immediate = is_immediate;
  is_last_child = false;
  is_pass_through = false;
  is_dead_end = false;
  alternative_is_immediate = false;
  contains_captures = false;
  root_pattern_guaranteed = false;
  parent_pattern_guaranteed = false;
}

-- `PatternEntry`
pub record PatternEntry : Type 0 where
  pub step_index : ℕ
  pub pattern_index : ℕ
  pub is_rooted : Bool

-- The part of `TSQuery` that the functions on the map use
pub record PatternMap : Type 0 where
  pub steps : List QueryStep
  pub pattern_map : List PatternEntry
  pub wildcard_root_pattern_count : ℕ

-- `array_get`
abbrev pub read {ℓ} : {A : Type ℓ} → Option A → Run A
read none = fault
read (some a) = ok a

-- The symbol of the root of the entry at an index
unfoldable pub symbol_at : PatternMap → ℕ → Run ℕ
symbol_at self i =
    read (get_elem? self.pattern_map i)
    >>= (λ entry. read (get_elem? self.steps entry.step_index) >>= (λ step. ok step.symbol))

-- The loop that halves the size, on fuel: the index where it ends.
pub search_loop : ℕ → PatternMap → ℕ → ℕ → ℕ → Run ℕ
unfolding symbol_at
search_loop zero self needle base_index size = out_of_fuel
search_loop (suc rounds) self needle base_index size =
    if not (ltb 1 size)
    then ok base_index
    else symbol_at self (base_index + size / 2) >>= λ mid_symbol.
        search_loop rounds self needle
          (if ltb mid_symbol needle then base_index + size / 2 else base_index) (size - size / 2)

-- The step to the next entry behind the loop: the index, and whether the symbol is there.
pub search_end : PatternMap → ℕ → ℕ → ℕ → Run (Bool × ℕ)
unfolding symbol_at
search_end self needle base_index symbol =
    if not (ltb symbol needle)
    then ok (needle == symbol, base_index)
    else if ltb (base_index + 1) (length self.pattern_map)
    then symbol_at self (base_index + 1) >>= (λ next. ok (needle == next, base_index + 1))
    else ok (needle == symbol, base_index + 1)

-- `ts_query__pattern_map_search`; the wildcard entries come first and are not searched.
unfoldable pub pattern_map_search : PatternMap → ℕ → Run (Bool × ℕ)
unfolding symbol_at search_loop search_end
pattern_map_search self needle =
    let base_index = self.wildcard_root_pattern_count in
    let size = length self.pattern_map - base_index in
    if size == 0
    then ok (false, base_index)
    else search_loop size self needle base_index size >>= λ found.
        symbol_at self found >>= λ symbol. search_end self needle found symbol

-- The loop of the insertion, on one round for each entry: past those of earlier patterns.
pub insert_index : ℕ → PatternMap → ℕ → ℕ → ℕ → Run ℕ
unfolding symbol_at
insert_index zero self symbol pattern_index index = ok index
insert_index (suc rounds) self symbol pattern_index index =
    elim (get_elem? self.pattern_map index) [
      | none ↦ ok index
      | some entry ↦ symbol_at self index >>= λ here.
          if here == symbol && ltb entry.pattern_index pattern_index
          then insert_index rounds self symbol pattern_index (index + 1)
          else ok index
    ]

-- `array_insert`
pub insert_at {ℓ} : {A : Type ℓ} → List A → ℕ → A → List A
insert_at xs zero x = x ∷ xs
insert_at [] (suc i) x = x ∷ []
insert_at (y ∷ ys) (suc i) x = y ∷ insert_at ys i x

-- `ts_query__pattern_map_insert`
unfoldable pub pattern_map_insert : PatternMap → ℕ → PatternEntry → Run PatternMap
unfolding pattern_map_search insert_index insert_at
pattern_map_insert self symbol new_entry = pattern_map_search self symbol >>= λ x.
    insert_index (length self.pattern_map) self symbol new_entry.pattern_index x.1 >>= λ index.
    ok (record self { pattern_map = insert_at self.pattern_map index new_entry })
