-- ===== src/Parser.antt =====
-- lib/src/parser.c: the state of the parser. The arrays that serve one call (`trailing_extras`,
-- `trailing_extras2`, `scratch_trees`, the set of reductions) are values of that call.
pub mod Versions
pub mod Select
pub mod Reuse
pub mod Reduce
pub mod Potential
pub mod Recover
pub mod HandleError
pub mod Condense
pub mod Lex
pub mod Advance
pub mod Turn
pub mod Parse
use tree_sitter.Prelude.{ℕ, Option, List, ◌==◌, Bool, ◌&&◌}
use tree_sitter.Subtree.{Subtree}
use tree_sitter.Range.{Range}
use tree_sitter.Language.{Language}
use tree_sitter.Language.Tables.{ParseTables}
use tree_sitter.Lexer.{Lexer}
use tree_sitter.Stack.Versions.{Stack}
use tree_sitter.ReusableNode.{ReusableNode}

abbrev pub max_version_count : ℕ
max_version_count = 6

abbrev pub max_version_count_overflow : ℕ
max_version_count_overflow = 4

abbrev pub max_summary_depth : ℕ
max_summary_depth = 16

-- `16 * ERROR_COST_PER_SKIPPED_TREE`
abbrev pub max_cost_difference : ℕ
max_cost_difference = 1600

-- `TSLexMode`
pub record LexMode : Type 0 where
  pub lex_state : ℕ
  pub external_lex_state : ℕ

-- `memcmp` of two modes
abbrev pub same_mode : LexMode → LexMode → Bool
same_mode a b = a.lex_state == b.lex_state && a.external_lex_state == b.external_lex_state

-- `TSLanguage`: the tables that are modelled apart, and two more fields that the parser reads.
pub record ParserLanguage : Type 0 where
  pub language : Language
  pub tables : ParseTables
  pub lex_modes : List LexMode
  pub keyword_capture_token : ℕ

-- `TokenCache`
pub record TokenCache : Type 0 where
  pub token : Option Subtree
  pub last_external_token : Option Subtree
  pub byte_index : ℕ

-- `TSParser`, without logging, time limits and the data of external scanners
pub record Parser : Type 0 where
  pub language : ParserLanguage
  pub lexer : Lexer
  pub stack : Stack
  pub finished_tree : Option Subtree
  pub token_cache : TokenCache
  pub reusable_node : ReusableNode
  pub accept_count : ℕ
  pub included_range_differences : List Range
  pub included_range_difference_index : ℕ

abbrev pub with_stack : Parser → Stack → Parser
with_stack p s = record p { stack = s }
