-- ===== src/Point/Order.antt =====
-- The comparisons of point.h against one numbering of the points.
use tree_sitter.Prelude.{ℕ, ◌+◌, ◌*◌, ◌≡◌, ltb, leb, ◌==◌, if◌then◌else◌, u32_mod, arith}
use tree_sitter.Point.{
  Point, IsU32, point_lte, point_lt, point_gt, point_gte, point_eq, point_min, point_max,
}

-- the number of a point in reading order
abbrev pub key : Point → ℕ
key p = p.row * u32_mod + p.column

-- For points of 32-bit fields the six comparisons are those of their numbers in reading order, and
-- the minimum and the maximum are the points of the smaller and of the larger number.
comparisons-key :
    (a b : Point)
    → IsU32 a
    → IsU32 b
    → (point_lte a b ≡ leb (key a) (key b))
      × (point_lt a b ≡ ltb (key a) (key b))
      × (point_gt a b ≡ ltb (key b) (key a))
      × (point_gte a b ≡ leb (key b) (key a))
      × (point_eq a b ≡ (key a == key b))
      × (point_min a b ≡ (if ltb (key a) (key b) then a else b))
      × (point_max a b ≡ (if ltb (key b) (key a) then a else b))
unfolding point_lte point_lt point_gt point_gte point_eq point_min point_max
comparisons-key a b ha hb = ground arith
