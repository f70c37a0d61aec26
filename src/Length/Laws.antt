-- ===== src/Length/Laws.antt =====
-- The laws of adding and taking away lengths, where nothing exceeds 32 bits.
use tree_sitter.Prelude.{◌+◌, ◌<◌, ◌≡◌, arith, u32_mod}
use tree_sitter.Point.{point_add, point_sub}
use tree_sitter.Length.{Length, Fits, length_add, length_sub, length_zero}

-- Three lengths that follow one another may be added from either end, if no row count wraps.
pub length_add_assoc :
    (a b c : Length)
    → a.extent.row + b.extent.row + c.extent.row < u32_mod
    → length_add (length_add a b) c ≡ length_add a (length_add b c)
unfolding length_add point_add
length_add_assoc a b c h = ground arith

-- The empty length changes no length that fits its C type, on either side.
pub length_add_zero :
    (a : Length) → Fits a → (length_add a length_zero ≡ a) × (length_add length_zero a ≡ a)
unfolding length_add point_add
length_add_zero a h = ground arith

-- What was added in front is taken away again, if the rows do not wrap.
length_sub-length_add :
    (a b : Length)
    → Fits a
    → Fits b
    → a.extent.row + b.extent.row < u32_mod
    → length_sub (length_add a b) a ≡ b
unfolding length_add length_sub point_add point_sub
length_sub-length_add a b ha hb h = ground arith
