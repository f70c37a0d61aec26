-- ===== src/Parser/Condense.antt =====
-- lib/src/parser.c: `ts_parser__condense_stack`.
pub mod Truncate
use tree_sitter.Prelude.{
  ℕ, zero, suc, ◌-◌, Bool, true, false, not, ◌&&◌, none, some, ltb, leb, if◌then◌else◌, u32_max,
}
use tree_sitter.Prelude.Run.{Run, ok, fault, out_of_fuel, ◌>>=◌}
use tree_sitter.Stack.Versions.{
  Stack, head_at, is_halted, is_paused, version_count, remove_version, swap_versions, error_cost,
  resume,
}
use tree_sitter.Stack.Merge.{merge}
use tree_sitter.Parser.{Parser, with_stack, max_version_count}
use tree_sitter.Parser.Versions.{
  ErrorStatus, ErrorComparison, take_left, prefer_left, no_preference, prefer_right, take_right,
  compare_versions, version_status,
}
use tree_sitter.Parser.HandleError.{handle_error}

-- What one pair of versions leaves: the later one is gone, both stay, or the earlier one is gone.
pub data PairStep : Type 0 where
  right_gone both_stay left_gone : (s : Stack) → PairStep

-- The versions are merged, or the stack is what it was.
abbrev merged_or : Bool × Stack → (Stack → Run PairStep) → Run PairStep
merged_or (merged, s) otherwise = if merged then ok (right_gone s) else otherwise s

pub condense_pair : ℕ → Stack → ℕ → ℕ → ErrorComparison → Run PairStep
unfolding remove_version merge swap_versions
condense_pair fuel s j i take_left = remove_version s i >>= λ s'. ok (right_gone s')
condense_pair fuel s j i prefer_left =
    merge fuel s j i >>= λ x. merged_or x (λ s'. ok (both_stay s'))
condense_pair fuel s j i no_preference =
    merge fuel s j i >>= λ x. merged_or x (λ s'. ok (both_stay s'))
condense_pair fuel s j i prefer_right =
    merge fuel s j i >>= λ x. merged_or x (λ s'. swap_versions s' i j >>= λ s''. ok (both_stay s''))
condense_pair fuel s j i take_right = remove_version s j >>= λ s'. ok (left_gone s')

-- The inner loop, with so many earlier versions left; the result is the version that the outer loop goes
-- on with. The status of the later version is not read again.
pub condense_with : ℕ → ℕ → Stack → ℕ → ℕ → ErrorStatus → Run (ℕ × Stack)
unfolding version_status compare_versions condense_pair
condense_with fuel zero s j i status_i = ok (suc i, s)
condense_with fuel (suc rounds) s j i status_i = do
  (status_j, s1) ← version_status s j
  step ← condense_pair fuel s1 j i (compare_versions status_j status_i)
  elim step [
    | right_gone s2 ↦ ok (i, s2)
    | both_stay s2 ↦ condense_with fuel rounds s2 (suc j) i status_i
    | left_gone s2 ↦ condense_with fuel rounds s2 j (i - 1) status_i
  ]

abbrev lower_cost : ErrorStatus → ℕ → ℕ
lower_cost status cost =
    if not status.is_in_error && ltb status.cost cost then status.cost else cost

-- The outer loop, on fuel; with the least cost of a version that is not in error.
pub condense_pairs : ℕ → ℕ → Stack → ℕ → ℕ → Run (ℕ × Stack)
unfolding version_count head_at remove_version version_status condense_with
condense_pairs zero fuel s i min_error_cost = out_of_fuel
condense_pairs (suc rounds) fuel s i min_error_cost =
    if leb (version_count s) i then ok (min_error_cost, s) else do
      h ← head_at s i
      if is_halted h.status
          then (do s' ← remove_version s i; condense_pairs rounds fuel s' i min_error_cost)
          else do
            (status_i, s1) ← version_status s i
            (next, s2) ← condense_with fuel i s1 0 i status_i
            condense_pairs rounds fuel s2 next (lower_cost status_i min_error_cost)

-- So many of the least promising versions go.
pub truncate_loop : ℕ → Stack → Run Stack
unfolding remove_version
truncate_loop zero s = ok s
truncate_loop (suc rounds) s = remove_version s max_version_count >>= truncate_loop rounds

unfoldable pub truncate_versions : Stack → Run Stack
unfolding truncate_loop version_count
truncate_versions s = truncate_loop (version_count s - max_version_count) s

-- The loop over so many versions from `i` on: the first paused one is resumed, unless one that is not
-- paused comes before it; the others go. A paused version without a lookahead cannot be resumed.
pub resume_loop : ℕ → ℕ → Parser → ℕ → Bool → ℕ → Run (ℕ × Parser)
unfolding head_at error_cost resume handle_error remove_version
resume_loop fuel zero p i has_unpaused min_error_cost = ok (min_error_cost, p)
resume_loop fuel (suc rounds) p i has_unpaused min_error_cost = do
  h ← head_at p.stack i
  if not (is_paused h.status)
      then resume_loop fuel rounds p (suc i) true min_error_cost
      else if not has_unpaused && ltb p.accept_count max_version_count
      then (do
        cost ← error_cost p.stack i
        (lookahead, s) ← resume p.stack i
        token ← (elim lookahead [ none ↦ fault | some t ↦ ok t ])
        p' ← handle_error fuel (with_stack p s) i token
        resume_loop fuel rounds p' (suc i) true cost)
      else do
        s ← remove_version p.stack i
        resume_loop fuel rounds (with_stack p s) i has_unpaused min_error_cost

-- `ts_parser__condense_stack`
unfoldable pub condense_stack : ℕ → Parser → Run (ℕ × Parser)
unfolding condense_pairs truncate_versions resume_loop version_count
condense_stack fuel p = do
  (min_error_cost, s) ← condense_pairs fuel fuel p.stack 0 u32_max
  s' ← truncate_versions s
  resume_loop fuel (version_count s') (with_stack p s') 0 false min_error_cost
