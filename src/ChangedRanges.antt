-- ===== src/ChangedRanges.antt =====
-- lib/src/get_changed_ranges.c: arrays of ranges, and the difference of two lists of included ranges.
pub mod Arrays
pub mod Difference
pub mod Sides
pub mod Termination
use tree_sitter.Prelude.{
  ℕ, zero, suc, ◌+◌, Bool, true, false, not, ◌&&◌, ◌||◌, List, [], ◌∷◌, ltb, leb, if◌then◌else◌,
  drop,
}
use tree_sitter.Prelude.Run.{Run, ok, fault, out_of_fuel, ◌>>=◌}
use tree_sitter.Length.{Length, length_zero, length_max}
use tree_sitter.Range.{Range, range_start, range_end}

-- `ts_range_array_add`. The test of the last range stands before the append.
pub range_array_add : List Range → Length → Length → List Range
range_array_add [] start end =
    if ltb start.bytes end.bytes
    then (record {
      start_point = start.extent;
      end_point = end.extent;
      start_byte = start.bytes;
      end_byte = end.bytes;
    })
      ∷ []
    else []
range_array_add (r ∷ []) start end =
    if leb start.bytes r.end_byte
    then (record r { end_byte = end.bytes; end_point = end.extent }) ∷ []
    else if ltb start.bytes end.bytes
    then r
      ∷ ((record {
        start_point = start.extent;
        end_point = end.extent;
        start_byte = start.bytes;
        end_byte = end.bytes;
      })
          ∷ [])
    else r ∷ []
range_array_add (r ∷ (q ∷ rs)) start end = r ∷ range_array_add (q ∷ rs) start end

-- The loop of `ts_range_array_intersects`.
pub intersects_from : List Range → ℕ → ℕ → Bool
intersects_from [] start_byte end_byte = false
intersects_from (r ∷ rs) start_byte end_byte =
    let rest = intersects_from rs start_byte end_byte in
    if ltb start_byte r.end_byte then not (leb end_byte r.start_byte) else rest

unfoldable pub range_array_intersects : List Range → ℕ → ℕ → ℕ → Bool
unfolding intersects_from
range_array_intersects ranges start_index start_byte end_byte =
    intersects_from (drop start_index ranges) start_byte end_byte

-- The next end of a range on one side. Inside a range, where no range is left, the code reads behind
-- the array.
abbrev pub next_position : Bool → List Range → Run Length
next_position true [] = fault
next_position false [] = ok length_max
next_position true (r ∷ rs) = ok (range_end r)
next_position false (r ∷ rs) = ok (range_start r)

-- The ranges that are left on one side after its next position.
abbrev pub step_ranges : Bool → List Range → List Range
step_ranges inside [] = []
step_ranges true (r ∷ rs) = rs
step_ranges false (r ∷ rs) = r ∷ rs

-- What the loop of `ts_range_array_get_changed_ranges` carries.
pub record Sweep : Type 0 where
  pub old_ranges : List Range
  pub new_ranges : List Range
  pub current_position : Length
  pub in_old_range : Bool
  pub in_new_range : Bool
  pub differences : List Range

abbrev pub differs : Sweep → Bool
differs s = (s.in_old_range && not s.in_new_range) || (s.in_new_range && not s.in_old_range)

-- One round, which passes the next position of the sides that are asked for.
abbrev pub pass : Sweep → Length → Bool → Bool → Sweep
unfolding range_array_add
pass s p old new = record {
  old_ranges = if old then step_ranges s.in_old_range s.old_ranges else s.old_ranges;
  new_ranges = if new then step_ranges s.in_new_range s.new_ranges else s.new_ranges;
  current_position = p;
  in_old_range = if old then not s.in_old_range else s.in_old_range;
  in_new_range = if new then not s.in_new_range else s.in_new_range;
  differences =
      if differs s then range_array_add s.differences s.current_position p else s.differences;
}

-- The round that goes on to the nearer one of the next positions.
pub pass_nearest : Sweep → Length → Length → Sweep
unfolding range_array_add
pass_nearest s next_old next_new =
    if ltb next_old.bytes next_new.bytes
    then pass s next_old true false
    else if ltb next_new.bytes next_old.bytes
    then pass s next_new false true
    else pass s next_new true true

pub sweep_step : Sweep → Run Sweep
unfolding pass_nearest
sweep_step s = do
  next_old ← next_position s.in_old_range s.old_ranges
  next_new ← next_position s.in_new_range s.new_ranges
  ok (pass_nearest s next_old next_new)

abbrev pub swept : Sweep → Bool
swept s = elim s.old_ranges [
  | [] ↦ elim s.new_ranges [ [] ↦ true | r ∷ rs ↦ false ]
  | r ∷ rs ↦ false
]

-- The loop, on fuel
pub sweep_loop : ℕ → Sweep → Run (List Range)
unfolding sweep_step
sweep_loop zero s = out_of_fuel
sweep_loop (suc fuel) s =
    let rest = sweep_step s >>= sweep_loop fuel in if swept s then ok s.differences else rest

unfoldable pub get_changed_ranges : ℕ → List Range → List Range → List Range → Run (List Range)
unfolding sweep_loop
get_changed_ranges fuel old_ranges new_ranges differences = sweep_loop fuel (record {
  old_ranges = old_ranges;
  new_ranges = new_ranges;
  current_position = length_zero;
  in_old_range = false;
  in_new_range = false;
  differences = differences;
})
