-- ===== src/Lib.antt =====
-- The parser of the tree-sitter runtime (lib/src), with its syntax trees, lexer, parse stack and cursors.
--
-- The runtime parses a text into a tree of subtrees, which the parser builds bottom-up from tokens that
-- the lexer cuts out of the included ranges of the text. An edit of the text is applied to the tree,
-- and the parser reuses what the edit did not touch. The parser keeps several versions of its stack, which
-- share their nodes; a cursor walks over the tree that comes out of it.
--
-- Prelude passes the library's names on and adds lists over native numbers, Boolean tests, unsigned
-- words, signed integers and the results of code that can fail. The other files model:
--
--   Point, Length       lib/src/point.h, lib/src/length.h: TSPoint and Length, with their arithmetic
--   Range               TSRange of lib/include/tree_sitter/api.h
--   Language            tables of lib/src/parser.h, read as in lib/src/language.h and language.c
--   Language.Tables     the parse tables: ts_language_lookup, _table_entry, _next_state, _lookaheads and
--                       the others, and ts_lookahead_iterator__next
--   ReduceAction        lib/src/reduce_action.h: ts_reduce_action_set_add
--   ReusableNode        lib/src/reusable_node.h: the walk of the parser over the old tree
--   Subtree             lib/src/subtree.h: InlineData, HeapData, Subtree and the accessors, which
--                       keep their names without the prefix ts_subtree_
--   Subtree.Leaf        ts_subtree_new_leaf, _new_error, _new_missing_leaf, _set_symbol
--   Subtree.Summary     ts_subtree_summarize_children, _new_node, _new_error_node
--   Subtree.Arrays      ts_subtree_array_reverse, _remove_trailing_extras
--   Subtree.Balance     ts_subtree_balance, ts_subtree__compress
--   Subtree.Compare     ts_subtree_compare
--   Subtree.External    ts_subtree_last_external_token, the equality of scanner states
--   Subtree.Edit        ts_subtree_edit
--   Lexer               lib/src/lexer.c: the state, the chunks, the lookahead and ts_lexer_goto
--   Lexer.Moves         ts_lexer__do_advance, __advance, __mark_end, __get_column
--   Lexer.Session       ts_lexer_start, _finish, _reset, _set_included_ranges and the others
--   ChangedRanges       lib/src/get_changed_ranges.c: arrays of ranges, the difference of two lists
--   Stack               lib/src/stack.c: the nodes in a store, stack_node_retain, _release, _new
--   Stack.Counts        what it is that the counts of the nodes count
--   Stack.Versions      ts_stack_push, _remove_version, _renumber_version, _copy_version, _pause, _clear and
--                       the other operations on versions, which keep their names without ts_stack_
--   Stack.Pop           stack__iter and what is built on it: ts_stack_pop_count, _pop_pending,
--                       _pop_error, _pop_all, _record_summary
--   Stack.Merge         stack_node_add_link, ts_stack_merge
--   TreeCursor          lib/src/tree_cursor.c: the entries and the iterators over children
--   TreeCursor.Moves    ts_tree_cursor_goto_first_child, _goto_last_child, to a byte or a point
--   TreeCursor.Siblings ts_tree_cursor_goto_next_sibling, _goto_previous_sibling, _goto_parent,
--                       _goto_descendant
--   TreeCursor.Nodes    the node at a cursor, its parent and its depth
--   Parser              lib/src/parser.c: TSParser; the parts that follow keep the names of the functions
--                       without ts_parser__
--   Parser.Versions     compare_versions, version_status, better_version_exists
--   Parser.Select       select_tree, select_children
--   Parser.Reuse        reuse_node, the cached token, breakdown_top_of_stack, breakdown_lookahead
--   Parser.Reduce       shift, reduce, accept
--   Parser.Potential    do_all_potential_reductions
--   Parser.Recover      recover_to_state, recover
--   Parser.HandleError  handle_error
--   Parser.Condense     condense_stack
--   Parser.Lex          lex and the calls of the external scanner
--   Parser.Advance      the actions and the other parts of a round of advance
--   Parser.Turn         the rounds of advance
--   Parser.Parse        ts_parser_parse and ts_parser_reset
--   Query.Quantifiers   lib/src/query.c: TSQuantifier and the quantifiers of captures
--   Query.PatternMap    ts_query__pattern_map_search, _pattern_map_insert
--   Tests               concrete inputs, among them parses of small texts
--
-- A uint32_t is a natural number below 2 ^ 32; additions and subtractions write the wrap-around out.
-- Signed numbers do not wrap, since signed overflow is undefined in C. Trees are values: sharing is
-- not modelled, the reference count is a field that balancing reads, and a node's children are its own
-- list. Pointers into arrays are the lists that start there; those of the lookahead iterator are indices. A read past the end of a generated table, which the generator excludes,
-- has the default that is written at the read.
--
-- The nodes of the parse stack are shared and counted, so they lie in a store, and a pointer to one is its
-- index. What can fail, by an assertion or by reading no object, returns a Run: ok, fault or
-- out_of_fuel. The stack of a cursor is its last entry and the list of those below it, so that it is never
-- empty; a pointer to a subtree is the subtree.
--
-- Loops are recursions on lists or on fuel. Fuel: ts_subtree_compare takes more than the nodes of the
-- left tree, ts_subtree_balance more than the nodes of the tree; the difference of two lists of ranges
-- more than the ends of all ranges; get_column and advance_to_end of the lexer one for each character up
-- to the goal or the end of the text; ts_lookahead_iterator__next one more than the symbols. Releasing a node of
-- the parse stack takes more than the sum of all counts, popping two rounds more than the longest path
-- to where it stops; merging and the walks down a tree, of a cursor or to its first leaf, one for each level of the graph or
-- the tree. The stack of
-- ts_subtree_edit is a recursion over the tree, since its entries do not depend on one another. The
-- search for the last external token is a recursion whose result `none` is an endless loop of the code.
--
-- The loops of the parser take one number of rounds, which the walks over the stack and the trees below
-- them take too; a round is a node of the old tree, a character that is skipped, a version, a reduction or
-- a step, as the comment at the loop says. A parse can go on for ever, as the generated tables and the functions of a
-- language are not known; the binary search of the pattern map takes as many rounds as entries.
--
-- Parameters are the functions of a language and of its external scanner, when a parse is asked to stop,
-- the input callback of the lexer with the decoder of its characters (macros of ICU),
-- the former contents of the memory that ts_subtree_edit takes from the pool, and those of the variable
-- that ts_tree_cursor_goto_last_child reads before it is set.
--
-- Not modelled: reference counting and printing of subtrees, the logging and the clock of the parser,
-- the fields of a cursor's node, nodes, most of the queries, WebAssembly, the bindings, and the programs
-- in Rust. They are other
-- components, or glue to the platform and to libraries outside of the sources.
pub mod Prelude
pub mod Parser
pub mod Query
pub mod Point
pub mod Length
pub mod Language
pub mod Subtree
pub mod Range
pub mod Lexer
pub mod ReduceAction
pub mod ReusableNode
pub mod Stack
pub mod TreeCursor
pub mod ChangedRanges
pub mod Tests
