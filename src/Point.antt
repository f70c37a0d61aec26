-- ===== src/Point.antt =====
-- lib/src/point.h: a position in a text as a row and a column, both `uint32_t`.
pub mod Order
use tree_sitter.Prelude.{
  ℕ, ◌<◌, Bool, ◌&&◌, ◌||◌, ltb, leb, ◌==◌, if◌then◌else◌, u32_mod, u32_max, add32, sub32,
}

-- `TSPoint`
pub record Point : Type 0 where
  pub row : ℕ
  pub column : ℕ

-- Both fields fit their C type.
pub record IsU32 (p : Point) : Type 0 where
  pub row_fits : p.row < u32_mod
  pub column_fits : p.column < u32_mod

abbrev pub point_zero : Point
point_zero = record { row = 0; column = 0 }

abbrev pub point_max_value : Point
point_max_value = record { row = u32_max; column = u32_max }

abbrev pub point_new : ℕ → ℕ → Point
point_new row column = record { row = row; column = column }

unfoldable pub point_add : Point → Point → Point
point_add a b =
    if ltb 0 b.row
    then point_new (add32 a.row b.row) b.column
    else point_new a.row (add32 a.column b.column)

unfoldable pub point_sub : Point → Point → Point
point_sub a b =
    if ltb b.row a.row
    then point_new (sub32 a.row b.row) a.column
    else point_new 0 (sub32 a.column b.column)

unfoldable pub point_lte : Point → Point → Bool
point_lte a b = ltb a.row b.row || (a.row == b.row && leb a.column b.column)

unfoldable pub point_lt : Point → Point → Bool
point_lt a b = ltb a.row b.row || (a.row == b.row && ltb a.column b.column)

unfoldable pub point_gt : Point → Point → Bool
point_gt a b = ltb b.row a.row || (a.row == b.row && ltb b.column a.column)

unfoldable pub point_gte : Point → Point → Bool
point_gte a b = ltb b.row a.row || (a.row == b.row && leb b.column a.column)

unfoldable pub point_eq : Point → Point → Bool
point_eq a b = a.row == b.row && a.column == b.column

unfoldable pub point_min : Point → Point → Point
point_min a b = if ltb a.row b.row || (a.row == b.row && ltb a.column b.column) then a else b

unfoldable pub point_max : Point → Point → Point
point_max a b = if ltb b.row a.row || (a.row == b.row && ltb b.column a.column) then a else b
