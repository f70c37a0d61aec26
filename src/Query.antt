-- ===== src/Query.antt =====
-- lib/src/query.c: the parts of a query that other parts stand on.
pub mod Quantifiers
pub mod PatternMap
