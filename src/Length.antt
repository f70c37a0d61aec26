-- ===== src/Length.antt =====
-- lib/src/length.h: the extent of a piece of text, in bytes and as a point.
pub mod Laws
use tree_sitter.Prelude.{
  ℕ, ◌<◌, Bool, not, ◌&&◌, ltb, ◌==◌, if◌then◌else◌, u32_mod, u32_max, add32, sub32,
}
use tree_sitter.Point.{Point, IsU32, point_new, point_add, point_sub}

-- `Length`
pub record Length : Type 0 where
  pub bytes : ℕ
  pub extent : Point

pub record Fits (l : Length) : Type 0 where
  pub bytes_fit : l.bytes < u32_mod
  pub extent_fits : IsU32 l.extent

abbrev pub length_new : ℕ → ℕ → ℕ → Length
length_new bytes row column = record { bytes = bytes; extent = point_new row column }

abbrev pub length_undefined : Length
length_undefined = length_new 0 0 1

abbrev pub length_max : Length
length_max = length_new u32_max u32_max u32_max

unfoldable pub length_is_undefined : Length → Bool
length_is_undefined l = l.bytes == 0 && not (l.extent.column == 0)

unfoldable pub length_min : Length → Length → Length
length_min a b = if ltb a.bytes b.bytes then a else b

unfoldable pub length_add : Length → Length → Length
length_add a b = record { bytes = add32 a.bytes b.bytes; extent = point_add a.extent b.extent }

unfoldable pub length_sub : Length → Length → Length
length_sub a b = record { bytes = sub32 a.bytes b.bytes; extent = point_sub a.extent b.extent }

abbrev pub length_zero : Length
length_zero = length_new 0 0 0

unfoldable pub length_saturating_sub : Length → Length → Length
length_saturating_sub a b = if ltb b.bytes a.bytes then length_sub a b else length_zero
