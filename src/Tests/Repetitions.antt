-- ===== src/Tests/Repetitions.antt =====
-- Balancing a repetition (lib/src/subtree.c) that leans to the left.
use tree_sitter.Prelude.{
  ℕ, zero, suc, ◌≡◌, ◌<◌, refl, true, false, Option, none, some, [], ◌∷◌, arith,
}
use tree_sitter.Language.{Language, symbol_metadata_of}
use tree_sitter.Subtree.{Subtree, inline, repeat_depth}
use tree_sitter.Subtree.Summary.{new_node}
use tree_sitter.Subtree.Compare.Loop.{nodes}
use tree_sitter.Subtree.Balance.{balance}
use tree_sitter.Subtree.Balance.Turns.{Same}
use tree_sitter.Subtree.Balance.Leaves.{balance_keeps_leaves}

abbrev lang : Language
lang = record {
  symbol_metadata =
      record { visible = false; named = false; supertype = false }
      ∷ record { visible = false; named = false; supertype = false }
      ∷ [];
  max_alias_sequence_length = 0;
  alias_sequences = [];
}

abbrev token : ℕ → Subtree
token n = inline (record {
  visible = true;
  named = true;
  extra = false;
  has_changes = false;
  is_missing = false;
  is_keyword = false;
  symbol = 1;
  padding_bytes = 0;
  size_bytes = n;
  padding_columns = 0;
  padding_rows = 0;
  lookahead_bytes = 0;
  parse_state = 1;
})

-- A repetition as the parser builds it, one token after another.
chain : ℕ → Subtree
unfolding new_node
chain zero = new_node lang 0 (token 1 ∷ token 2 ∷ []) 0
chain (suc n) = new_node lang 0 (chain n ∷ token (suc (suc (suc n))) ∷ []) 0

abbrev depth : Option Subtree → ℕ
depth none = 0
depth (some t) = repeat_depth t

depth_before : repeat_depth (chain 6) ≡ 6
unfolding chain symbol_metadata_of
depth_before = refl

depth_after : depth (balance 20 lang (chain 6)) ≡ 3
unfolding chain balance symbol_metadata_of
depth_after = refl

chain_fits : nodes (chain 6) < 20
unfolding chain nodes
chain_fits = omega arith

balance_keeps_leaves_example :
    (t' : Subtree) × (balance 20 lang (chain 6) ≡ some t') × Same (chain 6) t'
balance_keeps_leaves_example = balance_keeps_leaves 20 lang (chain 6) chain_fits
