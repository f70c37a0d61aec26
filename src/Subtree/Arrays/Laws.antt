-- ===== src/Subtree/Arrays/Laws.antt =====
-- Reversing in place, and splitting trailing extras off.
use mathlib.Core.List.{reverse-append, reverse-reverse, append_assoc, reverse-cons, append-nil}
use tree_sitter.Prelude.{
  ℕ, zero, suc, ◌+◌, ◌-◌, ◌/◌, ◌≡◌, refl, sym, ◌∙◌, ap, true, false, some, List, [], ◌∷◌, ◌++◌,
  reverse, length, Bool-cases, get_elem?, set, length-append, arith, ◌⊎◌, inl, inr,
}
use tree_sitter.Subtree.{Subtree, extra}
use tree_sitter.Subtree.Arrays.{
  swap_at, reverse_loop, array_reverse, take_extras, remove_trailing_extras,
}

length-reverse {ℓ} : {A : Type ℓ} (xs : List A) → length (reverse xs) ≡ length xs
length-reverse [] = refl
length-reverse (x ∷ xs) =
    ap length (reverse-cons x xs)
    ∙ omega (arith, length-append (reverse xs) (x ∷ []), length-reverse xs)

get_elem?-middle {ℓ} :
    {A : Type ℓ} (xs : List A) (x : A) (ys : List A) (i : ℕ)
    → i ≡ length xs
    → get_elem? (xs ++ x ∷ ys) i ≡ some x
get_elem?-middle [] x ys zero h = refl
get_elem?-middle [] x ys (suc i) h = absurd (omega arith)
get_elem?-middle (y ∷ xs) x ys zero h = absurd (omega arith)
get_elem?-middle (y ∷ xs) x ys (suc i) h = get_elem?-middle xs x ys i (omega arith)

set-middle {ℓ} :
    {A : Type ℓ} (xs : List A) (x y : A) (ys : List A) (i : ℕ)
    → i ≡ length xs
    → set (xs ++ x ∷ ys) i y ≡ xs ++ y ∷ ys
set-middle [] x y ys zero h = refl
set-middle [] x y ys (suc i) h = absurd (omega arith)
set-middle (z ∷ xs) x y ys zero h = absurd (omega arith)
set-middle (z ∷ xs) x y ys (suc i) h = ap (λ r. z ∷ r) (set-middle xs x y ys i (omega arith))

-- An exchange of the two items that stand round a middle part.
swap_at-ends {ℓ} :
    {A : Type ℓ} (done : List A) (x : A) (mid : List A) (y : A) (rest : List A) (i j : ℕ)
    → i ≡ length done
    → j ≡ length done + 1 + length mid
    → swap_at (done ++ x ∷ (mid ++ y ∷ rest)) i j ≡ done ++ y ∷ (mid ++ x ∷ rest)
swap_at-ends {A} done x mid y rest i j hi hj =
    rw (get_elem?-middle done x (mid ++ y ∷ rest) i hi, second, swap_at)
      (ap (λ l. set l j x) (set-middle done x y (mid ++ y ∷ rest) i hi)
        ∙ rw (sym (append_assoc done (y ∷ mid) (y ∷ rest))) (
            set-middle (done ++ y ∷ mid) y x rest j (at_j _)
            ∙ append_assoc done (y ∷ mid) (x ∷ rest)))
  where
    at_j : (z : A) → j ≡ length (done ++ z ∷ mid)
    at_j z = omega (arith, length-append done (z ∷ mid))

    second : get_elem? (done ++ x ∷ (mid ++ y ∷ rest)) j ≡ some y
    second =
        ap (λ l. get_elem? l j) (sym (append_assoc done (x ∷ mid) (y ∷ rest)))
        ∙ get_elem?-middle (done ++ x ∷ mid) y rest j (at_j _)

unsnoc {ℓ} : {A : Type ℓ} (xs : List A) → (xs ≡ []) ⊎ ((m : List A) × (y : A) × (xs ≡ m ++ y ∷ []))
unsnoc [] = inl refl
unsnoc (x ∷ xs) = elim (unsnoc xs) [
  | inl e ↦ inr ([], x, rw e)
  | inr (m, y, e) ↦ inr (x ∷ m, y, rw e)
]

swap_middle {ℓ} :
    {A : Type ℓ} (i : ℕ) (done : List A) (x : A) (m : List A) (y : A) (tail : List A)
    → i ≡ length done
    → i ≡ length tail
    → let xs = done ++ x ∷ ((m ++ y ∷ []) ++ tail) in
      swap_at xs i (length xs - 1 - i) ≡ (done ++ y ∷ []) ++ (m ++ x ∷ tail)
swap_middle i done x m y tail hd ht =
    rw (append_assoc m (y ∷ []) tail, append_assoc done (y ∷ []) (m ++ x ∷ tail))
      (swap_at-ends done x m y tail i _ hd
        (omega (arith, length-append done (x ∷ (m ++ y ∷ tail)), length-append m (y ∷ tail))))

reverse_middle {ℓ} :
    {A : Type ℓ} (x : A) (m : List A) (y : A) (tail : List A)
    → reverse (x ∷ (m ++ y ∷ [])) ++ tail ≡ y ∷ (reverse m ++ x ∷ tail)
reverse_middle x m y tail =
    rw (reverse-cons x (m ++ y ∷ []), reverse-append m (y ∷ []))
      (append_assoc (y ∷ reverse m) (x ∷ []) tail)

-- The loop reverses the middle part of an array whose ends are done.
reverse_loop-middle {ℓ} :
    {A : Type ℓ} (rounds i : ℕ) (done mid tail : List A)
    → i ≡ length done
    → i ≡ length tail
    → rounds ≡ length mid / 2
    → reverse_loop rounds i (done ++ (mid ++ tail)) ≡ done ++ (reverse mid ++ tail)
unfolding reverse_loop
reverse_loop-middle zero i done [] tail hd ht hr = refl
reverse_loop-middle zero i done (x ∷ []) tail hd ht hr = refl
reverse_loop-middle zero i done (x ∷ (y ∷ mid)) tail hd ht hr = absurd (omega arith)
reverse_loop-middle (suc r) i done [] tail hd ht hr = absurd (omega arith)
reverse_loop-middle (suc r) i done (x ∷ xs) tail hd ht hr = elim (unsnoc xs) [
  | inl e ↦ absurd (omega (arith, ap length e))
  | inr (m, y, e) ↦ rw e (
      ap (reverse_loop r (i + 1)) (swap_middle i done x m y tail hd ht)
      ∙ reverse_loop-middle r (i + 1) (done ++ y ∷ []) m (x ∷ tail)
          (omega (arith, length-append done (y ∷ []))) (omega arith)
          (omega (arith, ap length e, length-append m (y ∷ [])))
      ∙ append_assoc done (y ∷ []) (reverse m ++ x ∷ tail)
      ∙ ap (λ l. done ++ l) (sym (reverse_middle x m y tail)))
]

-- `ts_subtree_array_reverse` reverses the array.
array_reverse_lem : (xs : List Subtree) → array_reverse xs ≡ reverse xs
unfolding array_reverse
array_reverse_lem xs =
    ap (reverse_loop (length xs / 2) 0) (sym (append-nil xs))
    ∙ reverse_loop-middle (length xs / 2) 0 [] xs [] refl refl refl
    ∙ append-nil (reverse xs)

-- Every item of a list is an extra; its first item, if there is one, is none.
abbrev pub AllExtra : List Subtree → Type 0
AllExtra [] = Unit
AllExtra (t ∷ ts) = (extra t ≡ true) × AllExtra ts

abbrev pub FirstNotExtra : List Subtree → Type 0
FirstNotExtra [] = Unit
FirstNotExtra (t ∷ ts) = extra t ≡ false

AllExtra-append :
    (xs : List Subtree) (y : Subtree) → AllExtra xs → extra y ≡ true → AllExtra (xs ++ y ∷ [])
AllExtra-append [] y h e = (e, tt)
AllExtra-append (x ∷ xs) y h e = (h.0, AllExtra-append xs y h.1 e)

AllExtra-reverse : (xs : List Subtree) → AllExtra xs → AllExtra (reverse xs)
AllExtra-reverse [] h = tt
AllExtra-reverse (x ∷ xs) h =
    rw (reverse-cons x xs) (AllExtra-append (reverse xs) x (AllExtra-reverse xs h.1) h.0)

take_extras-splits :
    (xs dest : List Subtree)
    → AllExtra dest
    → let (kept, out) = take_extras xs dest in
      FirstNotExtra kept × AllExtra out × (reverse kept ++ reverse out ≡ reverse xs ++ reverse dest)
unfolding take_extras
take_extras-splits [] dest h = (tt, h, refl)
take_extras-splits (x ∷ xs) dest h = elim (Bool-cases (extra x)) [
  | inl e ↦
      let ih = take_extras-splits xs (dest ++ x ∷ []) (AllExtra-append dest x h e) in
      rw e (ih.0, ih.1, ih.2 ∙ shift)
  | inr e ↦ rw e (e, h, refl)
]
  where
    shift : reverse xs ++ reverse (dest ++ x ∷ []) ≡ reverse (x ∷ xs) ++ reverse dest
    shift =
        rw (reverse-append dest (x ∷ []), reverse-cons x xs)
          (sym (append_assoc (reverse xs) (x ∷ []) (reverse dest)))

-- Trailing extras are moved from an array, in their order, to another one: what stays and what was
-- moved make up the array, all that was moved is extra, and what stays ends in no extra.
pub remove_trailing_extras_splits :
    (xs : List Subtree)
    → let (kept, moved) = remove_trailing_extras xs in
      (kept ++ moved ≡ xs) × AllExtra moved × FirstNotExtra (reverse kept)
unfolding remove_trailing_extras
remove_trailing_extras_splits xs =
    let t = take_extras-splits (reverse xs) [] tt in
    let out = (take_extras (reverse xs) []).1 in
    rw (array_reverse_lem out) (
      t.2 ∙ append-nil (reverse (reverse xs)) ∙ reverse-reverse xs,
      AllExtra-reverse out t.1,
      rw (reverse-reverse (take_extras (reverse xs) []).0) (t.0),
    )
