-- ===== src/Range.antt =====
-- `TSRange` of lib/include/tree_sitter/api.h: a piece of a text by its two ends.
use tree_sitter.Prelude.{ℕ, u32_max}
use tree_sitter.Point.{Point, point_zero, point_max_value}
use tree_sitter.Length.{Length}

pub record Range : Type 0 where
  pub start_point : Point
  pub end_point : Point
  pub start_byte : ℕ
  pub end_byte : ℕ

abbrev pub range_start : Range → Length
range_start r = record { bytes = r.start_byte; extent = r.start_point }

abbrev pub range_end : Range → Length
range_end r = record { bytes = r.end_byte; extent = r.end_point }

-- `DEFAULT_RANGE` of lexer.c: the whole text
abbrev pub default_range : Range
default_range = record {
  start_point = point_zero;
  end_point = point_max_value;
  start_byte = 0;
  end_byte = u32_max;
}
