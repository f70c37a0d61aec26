-- ===== src/Language/Tables/Groups.antt =====
-- The groups of symbols of a small state, as the table lists them: the lookup of a symbol and the
-- iteration over the symbols.
use tree_sitter.Prelude.{
  ℕ, zero, suc, ◌+◌, ◌-◌, ◌≤◌, ◌≡◌, refl, sym, ap, ◌∙◌, true, false, Option, none, some, List, [],
  ◌∷◌, ◌++◌, arith, ◌==◌, ==_iff, ne→==, le→leb, if◌then◌else◌, get_or, drop, length,
}
use tree_sitter.Language.Tables.{
  ParseTables, lists_symbol, lookup_groups, small_state_index, lookup, LookaheadIterator,
  lookaheads, read_value, small_at, next_small, lookahead_next,
}

-- A value and the symbols that have it, at least one.
pub record Group : Type 0 where
  pub value : ℕ
  pub first : ℕ
  pub others : List ℕ

-- The groups as the table lists them, in front of the rest of the table.
abbrev pub encode : List Group → List ℕ → List ℕ
encode [] tail = tail
encode (g ∷ gs) tail = g.value ∷ suc (length g.others) ∷ g.first ∷ (g.others ++ encode gs tail)

abbrev pairs : ℕ → List ℕ → List (ℕ × ℕ) → List (ℕ × ℕ)
pairs v [] rest = rest
pairs v (s ∷ ss) rest = (s, v) ∷ pairs v ss rest

-- The symbols of some groups with their values.
abbrev pub listing : List Group → List (ℕ × ℕ)
listing [] = []
listing (g ∷ gs) = pairs g.value (g.first ∷ g.others) (listing gs)

-- The value of a symbol in such a list, 0 if it is not there.
abbrev pub find : List (ℕ × ℕ) → ℕ → ℕ
find [] symbol = 0
find ((s, v) ∷ ps) symbol = if s == symbol then v else find ps symbol

-- The state is small, and the table has these groups for it.
abbrev pub HasGroups : ParseTables → ℕ → List Group → List ℕ → Type 0
HasGroups t state gs tail =
    (t.large_state_count ≤ state)
    × (drop (small_state_index t state) t.small_parse_table ≡ length gs ∷ encode gs tail)

-- The pairs that the iterator comes to until it ends, if it ends in so many steps.
abbrev pub visits : ℕ → ParseTables → LookaheadIterator → Option (List (ℕ × ℕ))
visits zero t it = none
visits (suc n) t it = elim (lookahead_next t it) [
  | none ↦ none
  | some (it', false) ↦ some []
  | some (it', true) ↦ elim (visits n t it') [
    | none ↦ none
    | some ps ↦ some ((it'.symbol, it'.table_value) ∷ ps)
  ]
]

module _ {ℓ} {A : Type ℓ} where
  drop-append : (xs ys : List A) → drop (length xs) (xs ++ ys) ≡ ys
  drop-append [] ys = refl
  drop-append (x ∷ xs) ys = drop-append xs ys

  get_or-drop : (i j : ℕ) (xs : List A) (d : A) → get_or xs (i + j) d ≡ get_or (drop i xs) j d
  get_or-drop zero j xs d = ap (λ n. get_or xs n d) (omega arith)
  get_or-drop (suc i) j [] d = refl
  get_or-drop (suc i) j (x ∷ xs) d =
      ap (λ n. get_or (x ∷ xs) n d) {x = suc i + j} {y = suc (i + j)} (omega arith)
      ∙ get_or-drop i j xs d

  drop_nil : (n : ℕ) → drop {A = A} n [] ≡ []
  drop_nil zero = refl
  drop_nil (suc n) = refl

  drop-drop : (i j : ℕ) (xs : List A) → drop (i + j) xs ≡ drop j (drop i xs)
  drop-drop zero j xs = ap (λ n. drop n xs) (omega arith)
  drop-drop (suc i) j [] = drop_nil (suc i + j) ∙ sym (drop_nil j)
  drop-drop (suc i) j (x ∷ xs) =
      ap (λ n. drop n (x ∷ xs)) {x = suc i + j} {y = suc (i + j)} (omega arith) ∙ drop-drop i j xs

small_at_lem :
    (t : ParseTables) (p d j : ℕ) (l : List ℕ)
    → p ≡ d + suc j
    → drop d t.small_parse_table ≡ l
    → small_at t p ≡ get_or l j 0
small_at_lem t p d j l e h =
    ap (λ n. get_or t.small_parse_table n 0) {x = p - 1} {y = d + j} (omega arith)
    ∙ get_or-drop d j t.small_parse_table 0
    ∙ ap (λ l. get_or l j 0) h

table_at : (i : ℕ) (xs : List ℕ) (x : ℕ) (l : List ℕ) → drop i xs ≡ x ∷ l → get_or xs i 0 ≡ x
table_at i xs x l h =
    ap (λ n. get_or xs n 0) {x = i} {y = i + 0} (omega arith)
    ∙ get_or-drop i 0 xs 0
    ∙ ap (λ l. get_or l 0 0) h

drop_further : (p d j : ℕ) (xs l : List ℕ) → p ≡ d + j → drop d xs ≡ l → drop p xs ≡ drop j l
drop_further p d j xs l e h = ap (λ n. drop n xs) e ∙ drop-drop d j xs ∙ ap (drop j) h

find-pairs :
    (v : ℕ) (ss more : List ℕ) (rest : List (ℕ × ℕ)) (symbol : ℕ)
    → find (pairs v ss rest) symbol
      ≡ (if lists_symbol (length ss) (ss ++ more) symbol then v else find rest symbol)
unfolding lists_symbol
find-pairs v [] more rest symbol = refl
find-pairs v (s ∷ ss) more rest symbol = ground (arith, find-pairs v ss more rest symbol)

lookup_groups_lem :
    (gs : List Group) (tail : List ℕ) (symbol : ℕ)
    → lookup_groups (length gs) (encode gs tail) symbol ≡ find (listing gs) symbol
unfolding lookup_groups lists_symbol
lookup_groups_lem [] tail symbol = refl
lookup_groups_lem (g ∷ gs) tail symbol =
    let more = encode gs tail in
    rw (
      find-pairs g.value (g.first ∷ g.others) more (listing gs) symbol,
      drop-append g.others more,
      lookup_groups_lem gs tail symbol,
    )

lookup_finds :
    (t : ParseTables) (state : ℕ) (gs : List Group) (tail : List ℕ)
    → HasGroups t state gs tail
    → (symbol : ℕ) → lookup t state symbol ≡ find (listing gs) symbol
unfolding lookup
lookup_finds t state gs tail h symbol =
    rw (le→leb t.large_state_count state h.0, h.1, lookup_groups_lem gs tail symbol)

-- The iterator has passed a symbol of a group, with these symbols of it and these groups ahead.
abbrev Ahead : ParseTables → LookaheadIterator → ℕ → List ℕ → List Group → List ℕ → Type 0
Ahead t it v ss gs tail =
    (it.is_small_state ≡ true)
    × (it.table_value ≡ v)
    × (it.group_count ≡ length gs)
    × (it.group_end ≡ it.data_pointer + 1 + length ss)
    × (drop it.data_pointer t.small_parse_table ≡ ss ++ encode gs tail)

passes_symbol :
    (t : ParseTables) (it : LookaheadIterator) (v s : ℕ) (ss : List ℕ) (gs : List Group)
    (tail : List ℕ)
    → Ahead t it v (s ∷ ss) gs tail
    → (it' : LookaheadIterator) × (lookahead_next t it ≡ some (it', true))
      × (it'.symbol ≡ s)
      × Ahead t it' v ss gs tail
unfolding lookahead_next next_small
passes_symbol t it v s ss gs tail h =
    let p = it.data_pointer + 1 in
    let it' = record it { data_pointer = p; symbol = small_at t p } in
    (
      it',
      rw (h.0, ne→== p it.group_end (omega (arith, h.3))),
      small_at_lem t p it.data_pointer 0 (s ∷ (ss ++ encode gs tail)) (omega arith) h.4,
      (
        h.0,
        h.1,
        h.2,
        omega (arith, h.3),
        drop_further p it.data_pointer 1 t.small_parse_table (s ∷ (ss ++ encode gs tail))
            (omega arith) h.4,
      ),
    )

passes_group :
    (t : ParseTables) (it : LookaheadIterator) (v : ℕ) (g : Group) (gs : List Group) (tail : List ℕ)
    → Ahead t it v [] (g ∷ gs) tail
    → (it' : LookaheadIterator) × (lookahead_next t it ≡ some (it', true))
      × (it'.symbol ≡ g.first)
      × Ahead t it' g.value g.others gs tail
unfolding lookahead_next next_small read_value
passes_group t it v g gs tail h =
    let p = it.data_pointer + 1 in
    let l = encode (g ∷ gs) tail in
    let e0 = small_at_lem t p it.data_pointer 0 l (omega arith) h.4 in
    let e1 = small_at_lem t (p + 1) it.data_pointer 1 l (omega arith) h.4 in
    let e2 = small_at_lem t (p + 2) it.data_pointer 2 l (omega arith) h.4 in
    let it' = read_value t (record it {
      data_pointer = p + 2;
      group_count = it.group_count - 1;
      table_value = small_at t p;
      group_end = p + 2 + small_at t (p + 1);
      symbol = small_at t (p + 2);
    }) in
    (
      it',
      rw (
        h.0,
        (==_iff p it.group_end).1 (omega (arith, h.3)),
        ne→== it.group_count 0 (omega (arith, h.2)),
      ),
      e2,
      (
        h.0,
        e0,
        omega (arith, h.2),
        omega (arith, e1),
        drop_further (p + 2) it.data_pointer 3 t.small_parse_table l (omega arith) h.4,
      ),
    )

ends :
    (t : ParseTables) (it : LookaheadIterator) (v : ℕ) (tail : List ℕ)
    → Ahead t it v [] [] tail
    → (it' : LookaheadIterator) × (lookahead_next t it ≡ some (it', false))
unfolding lookahead_next next_small
ends t it v tail h =
    let p = it.data_pointer + 1 in
    (
      record it { data_pointer = p },
      rw (
        h.0,
        (==_iff p it.group_end).1 (omega (arith, h.3)),
        (==_iff it.group_count 0).1 (omega (arith, h.2)),
      ),
    )

visits-Ahead :
    (t : ParseTables) (gs : List Group) (tail ss : List ℕ) (it : LookaheadIterator) (v : ℕ)
    → Ahead t it v ss gs tail
    → visits (suc (length (pairs v ss (listing gs)))) t it ≡ some (pairs v ss (listing gs))
visits-Ahead t [] tail [] it v h = let e = ends t it v tail h in rw (visits, e.1)
visits-Ahead t (g ∷ gs) tail [] it v h =
    let n = passes_group t it v g gs tail h in
    rw (visits, n.1, visits-Ahead t gs tail g.others n.0 g.value n.3, n.2, n.3.1)
visits-Ahead t gs tail (s ∷ ss) it v h =
    let n = passes_symbol t it v s ss gs tail h in
    rw (visits, n.1, visits-Ahead t gs tail ss n.0 v n.3, n.2, n.3.1)

-- In a small state the iterator visits the symbols of the groups in the table, with their values, and
-- ends; and the lookup of a symbol gives the value of its first visit, or 0 if it has none.
pub lookaheads_match_lookup :
    (t : ParseTables) (state : ℕ) (gs : List Group) (tail : List ℕ)
    → HasGroups t state gs tail
    → (visits (suc (length (listing gs))) t (lookaheads t state) ≡ some (listing gs))
      × ((symbol : ℕ) → lookup t state symbol ≡ find (listing gs) symbol)
unfolding lookaheads
lookaheads_match_lookup t state gs tail h =
    let index = small_state_index t state in
    let small = le→leb t.large_state_count state h.0 in
    (
      visits-Ahead t gs tail [] (lookaheads t state) 0 (
        small,
        refl,
        rw small (table_at index t.small_parse_table (length gs) (encode gs tail) h.1),
        rw small (omega arith),
        rw small (
            drop_further (index + 1) index 1 t.small_parse_table (length gs ∷ encode gs tail)
              (omega arith) h.1),
      ),
      lookup_finds t state gs tail h,
    )
