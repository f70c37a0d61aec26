-- ===== src/Parser/Versions/Laws.antt =====
-- lib/src/parser.c: `ts_parser__compare_versions` on two versions in either order.
use tree_sitter.Prelude.{◌≡◌, arith}
use tree_sitter.Parser.Versions.{
  ErrorStatus, ErrorComparison, take_left, prefer_left, no_preference, prefer_right, take_right,
  compare_versions,
}

-- The same judgement with the sides exchanged
abbrev pub mirror : ErrorComparison → ErrorComparison
mirror take_left = take_right
mirror prefer_left = prefer_right
mirror no_preference = no_preference
mirror prefer_right = prefer_left
mirror take_right = take_left

-- Comparing two versions in the other order gives the same judgement with the sides exchanged, for all
-- costs, node counts and precedences.
pub compare_versions-mirror :
    (a b : ErrorStatus) → compare_versions b a ≡ mirror (compare_versions a b)
unfolding compare_versions
compare_versions-mirror a b = ground arith
