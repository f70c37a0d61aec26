-- ===== src/Language.antt =====
-- lib/src/language.h, language.c and the tables of lib/src/parser.h that they read. The tables are
-- generated for each grammar; a read past the end of one, which the generator excludes, gives the
-- default that is written at the read.
pub mod Tables
use tree_sitter.Prelude.{
  ℕ, ◌+◌, ◌*◌, Bool, true, false, Option, none, some, List, ◌==◌, if◌then◌else◌, get_or, drop,
}

-- `TSSymbolMetadata`
pub record SymbolMetadata : Type 0 where
  pub visible : Bool
  pub named : Bool
  pub supertype : Bool

-- The part of `TSLanguage` that the modelled code reads.
pub record Language : Type 0 where
  pub symbol_metadata : List SymbolMetadata
  pub max_alias_sequence_length : ℕ
  pub alias_sequences : List ℕ

abbrev pub sym_error : ℕ
sym_error = 0xffff

abbrev pub sym_error_repeat : ℕ
sym_error_repeat = 0xfffe

abbrev pub sym_end : ℕ
sym_end = 0

abbrev pub hidden_metadata : SymbolMetadata
hidden_metadata = record { visible = false; named = false; supertype = false }

unfoldable pub symbol_metadata_of : Language → ℕ → SymbolMetadata
symbol_metadata_of l symbol =
    if symbol == sym_error
    then (record { visible = true; named = true; supertype = false })
    else if symbol == sym_error_repeat
    then hidden_metadata
    else get_or l.symbol_metadata symbol hidden_metadata

-- `none` is the null pointer; a sequence runs on to the end of the table, as the pointer does.
unfoldable pub alias_sequence : Language → ℕ → Option (List ℕ)
alias_sequence l production_id =
    if production_id == 0
    then none
    else some (drop (production_id * l.max_alias_sequence_length) l.alias_sequences)

unfoldable pub alias_at : Language → ℕ → ℕ → ℕ
alias_at l production_id child_index =
    if production_id == 0
    then 0
    else get_or l.alias_sequences (production_id * l.max_alias_sequence_length + child_index) 0
