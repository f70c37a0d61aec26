-- ===== src/ChangedRanges/Difference.antt =====
-- The comparison of two lists of ranges finds the bytes that lie in one of them only.
use tree_sitter.Prelude.{
  ℕ, zero, suc, ◌+◌, ◌*◌, ◌≤◌, ◌<◌, ◌≡◌, ◌↔◌, ◌⊎◌, inl, inr, refl, sym, ap, ap₂, ◌∙◌, Bool, true,
  false, not, List, [], ◌∷◌, arith, ltb, length, Bool-cases, ltb→lt, if◌then◌else◌,
}
use mathlib.Core.Path.{subst}
use mathlib.Core.Bool.{false≢true}
use tree_sitter.Prelude.Run.{ok}
use tree_sitter.Length.{Length}
use tree_sitter.Range.{Range}
use tree_sitter.Lexer.Ranges.{Ordered, Included}
use tree_sitter.ChangedRanges.{
  Sweep, range_array_add, pass_nearest, step_ranges, differs, pass, sweep_step, sweep_loop, swept,
  get_changed_ranges,
}
use tree_sitter.ChangedRanges.Arrays.{last_end, range_array_add_lem}
use tree_sitter.ChangedRanges.Termination.{
  Small, nearest, next_end, swept-cases, all_left, all_left-step, nearest-Small, left_at_start,
}
use tree_sitter.ChangedRanges.Sides.{
  covers, xor, covered, Side, Side-reads, Advance, Advance-pass, Advance-stay,
}

last_end-add :
    (previous : ℕ) (rs : List Range) (start end : Length)
    → last_end previous rs ≤ start.bytes
    → start.bytes ≤ end.bytes
    → last_end previous (range_array_add rs start end) ≤ end.bytes
unfolding range_array_add
last_end-add previous [] start end h k = ground arith
last_end-add previous (r ∷ []) start end h k = ground arith
last_end-add previous (r ∷ (q ∷ rs)) start end h k = last_end-add r.end_byte (q ∷ rs) start end h k

-- the bytes ahead that lie on one side only
abbrev apart : Sweep → ℕ → Bool
apart s b = xor (covered s.in_old_range s.old_ranges b) (covered s.in_new_range s.new_ranges b)

abbrev Valid : Sweep → Type 0
Valid s =
    Side s.in_old_range s.old_ranges s.current_position.bytes
    × Side s.in_new_range s.new_ranges s.current_position.bytes
    × Ordered 0 s.differences
    × (last_end 0 s.differences ≤ s.current_position.bytes)

-- a byte that is found, or is still to be found
abbrev Total : Sweep → ℕ → Type 0
Total s b = Included b s.differences ⊎ ((s.current_position.bytes ≤ b) × (apart s b ≡ true))

grown : Sweep → Length → List Range
grown s p = if differs s then range_array_add s.differences s.current_position p else s.differences

grown_lem :
    (s : Sweep) (p : Length)
    → Ordered 0 s.differences
    → last_end 0 s.differences ≤ s.current_position.bytes
    → s.current_position.bytes ≤ p.bytes
    → Ordered 0 (grown s p)
      × (last_end 0 (grown s p) ≤ p.bytes)
      × ((b : ℕ)
          → Included b (grown s p) ↔ (
              Included b s.differences
              ⊎ ((s.current_position.bytes ≤ b)
                  × (b < p.bytes)
                  × (xor s.in_old_range s.in_new_range ≡ true))))
unfolding grown
grown_lem s p o h k = elim (Bool-cases (differs s)) [
  | inl e ↦
      let a = range_array_add_lem 0 s.differences s.current_position p o h k in
      rw e (
        a.0,
        last_end-add 0 s.differences s.current_position p h k,
        λ b. (λ i. ground (arith, (a.1 b).0), λ i. ground (arith, (a.1 b).1)),
      )
  | inr e ↦ rw e (o, omega arith, λ b. (λ i. inl i, λ i. ground arith))
]

moves_iff :
    (I G : Type 0) (pos p b : ℕ) (d x y : Bool)
    → pos ≤ p
    → G ↔ (I ⊎ ((pos ≤ b) × (b < p) × (d ≡ true)))
    → (pos ≤ b → b < p → x ≡ d)
    → (p ≤ b → y ≡ x)
    → (G ⊎ ((p ≤ b) × (y ≡ true))) ↔ (I ⊎ ((pos ≤ b) × (x ≡ true)))
moves_iff I G pos p b d x y k g h1 h2 =
    (λ i. ground (arith, g.0, h1, h2), λ i. ground (arith, g.1, h1, h2))

Total-moves :
    (s s' : Sweep) (p : Length)
    → s'.current_position ≡ p
    → s'.differences ≡ grown s p
    → Valid s
    → s.current_position.bytes ≤ p.bytes
    → Advance s.in_old_range s.old_ranges s'.in_old_range s'.old_ranges s.current_position.bytes
        p.bytes
    → Advance s.in_new_range s.new_ranges s'.in_new_range s'.new_ranges s.current_position.bytes
        p.bytes
    → Valid s' × ((b : ℕ) → Total s' b ↔ Total s b)
Total-moves s s' p e f v k old new =
    let g = grown_lem s p v.2 v.3 k in
    rw (e, f)
      (
        (old.0, new.0, g.0, g.1),
        λ b.
            moves_iff (Included b s.differences) (Included b (grown s p)) s.current_position.bytes
              p.bytes b (xor s.in_old_range s.in_new_range) (apart s b) (apart s' b) k (g.2 b)
              (λ h l. ap₂ xor (old.1 b h l) (new.1 b h l)) (λ h. ap₂ xor (old.2 b h) (new.2 b h)),
      )

nearest-Valid :
    (s : Sweep) → Valid s → Valid (nearest s) × ((b : ℕ) → Total (nearest s) b ↔ Total s b)
unfolding pass_nearest grown
nearest-Valid s v =
    let po = next_end s.in_old_range s.old_ranges in
    let pn = next_end s.in_new_range s.new_ranges in
    let old = Advance-pass s.in_old_range s.old_ranges s.current_position.bytes v.0 in
    let new = Advance-pass s.in_new_range s.new_ranges s.current_position.bytes v.1 in
    let stay_old = Advance-stay s.in_old_range s.old_ranges s.current_position.bytes in
    let stay_new = Advance-stay s.in_new_range s.new_ranges s.current_position.bytes in
    elim (Bool-cases (ltb po.bytes pn.bytes)) [
      | inl e ↦ rw e (
          Total-moves s (pass s po true false) po refl refl v old.0 old.1
            (stay_new po.bytes v.1 old.0 (ltb→lt po.bytes pn.bytes e)))
      | inr e ↦ elim (Bool-cases (ltb pn.bytes po.bytes)) [
        | inl e' ↦
            rw (e, e')
              (Total-moves s (pass s pn false true) pn refl refl v new.0
                (stay_old pn.bytes v.0 new.0 (ltb→lt pn.bytes po.bytes e')) new.1)
        | inr e' ↦
            let same : po.bytes ≡ pn.bytes = ground arith in
            rw (e, e')
              (Total-moves s (pass s pn true true) pn refl refl v new.0
                (subst
                  (λ q.
                    Advance s.in_old_range s.old_ranges (not s.in_old_range)
                      (step_ranges s.in_old_range s.old_ranges) s.current_position.bytes q)
                  same old.1)
                new.1)
      ]
    ]

covered_nil : (inside : Bool) (b : ℕ) → covered inside [] b ≡ false
covered_nil true b = refl
covered_nil false b = refl

swept-empty : (s : Sweep) → swept s ≡ true → (s.old_ranges ≡ []) × (s.new_ranges ≡ [])
swept-empty s e = ground arith

swept-apart : (s : Sweep) → swept s ≡ true → (b : ℕ) → Included b s.differences ↔ Total s b
swept-apart s e b =
    let empty = swept-empty s e in
    let none_apart : apart s b ≡ false =
      ap₂ xor (ap (λ l. covered s.in_old_range l b) empty.0 ∙ covered_nil s.in_old_range b)
        (ap (λ l. covered s.in_new_range l b) empty.1 ∙ covered_nil s.in_new_range b) in
    (λ i. inl i, λ i. elim i [ inl k ↦ k | inr k ↦ absurd (false≢true (sym none_apart ∙ k.1)) ])

sweep_step-nearest : (s : Sweep) → Valid s → swept s ≡ false → sweep_step s ≡ ok (nearest s)
unfolding sweep_step
sweep_step-nearest s v e =
    let left = swept-cases s e in
    rw (
      Side-reads s.in_old_range s.old_ranges s.new_ranges s.in_new_range s.current_position.bytes
          v.0 v.1 left,
      Side-reads s.in_new_range s.new_ranges s.old_ranges s.in_old_range s.current_position.bytes
          v.1 v.0 (elim left [ inl h ↦ inr h | inr h ↦ inl h ]),
    )

sweep_loop_lem :
    (fuel : ℕ) (s : Sweep)
    → Valid s
    → Small s.old_ranges
    → Small s.new_ranges
    → all_left s < fuel
    → (rs : List Range) × (sweep_loop fuel s ≡ ok rs)
      × Ordered 0 rs
      × ((b : ℕ) → Included b rs ↔ Total s b)
unfolding sweep_loop
sweep_loop_lem zero s v x y h = elim h [ ]
sweep_loop_lem (suc fuel) s v x y h = elim (Bool-cases (swept s)) [
  | inl e ↦ (s.differences, rw e, v.2, swept-apart s e)
  | inr e ↦
      let small = nearest-Small s x y in
      let step = nearest-Valid s v in
      let r =
        sweep_loop_lem fuel (nearest s) step.0 small.0 small.1
          (omega (arith, all_left-step s e x y)) in
      (
        r.0,
        rw (e, sweep_step-nearest s v e, r.1),
        r.2,
        λ b. (λ i. (step.1 b).0 ((r.3 b).0 i), λ i. (r.3 b).1 ((step.1 b).1 i)),
      )
]

-- The comparison of two ordered lists of ranges, if their bytes fit 32 bits, no range starts at the
-- last of them, and the fuel is more than the ends of ranges, reads nothing outside the two lists
-- and ends with an ordered list of ranges, in which a byte lies exactly when it lies in a range of
-- one of the two lists and in none of the other.
pub get_changed_ranges_lem :
    (fuel : ℕ) (old_ranges new_ranges : List Range)
    → Ordered 0 old_ranges
    → Ordered 0 new_ranges
    → Small old_ranges
    → Small new_ranges
    → 2 * length old_ranges + 2 * length new_ranges < fuel
    → (rs : List Range) × (get_changed_ranges fuel old_ranges new_ranges [] ≡ ok rs)
      × Ordered 0 rs
      × ((b : ℕ) → Included b rs ↔ (xor (covers old_ranges b) (covers new_ranges b) ≡ true))
unfolding get_changed_ranges
get_changed_ranges_lem fuel old new o n x y h =
    let r =
      sweep_loop_lem fuel _ ((o, x, omega arith), (n, y, omega arith), tt, omega arith) x y
        (omega (arith, left_at_start old, left_at_start new)) in
    (
      r.0,
      r.1,
      r.2,
      λ b.
          let low : 0 ≤ b = omega arith in
          (
            λ i. elim ((r.3 b).0 i) [ inl k ↦ absurd k | inr k ↦ k.1 ],
            λ i. (r.3 b).1 (inr (low, i)),
          ),
    )
