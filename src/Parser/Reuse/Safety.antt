-- ===== src/Parser/Reuse/Safety.antt =====
-- When a node of the old tree is reused.
use mathlib.Core.Path.{subst}
use tree_sitter.Prelude.{
  ℕ, zero, suc, ◌≡◌, refl, ◌∙◌, Bool, true, false, not, Option, none, some, ltb, arith,
}
use tree_sitter.Prelude.Run.{ok, Holds, Holds-if, Holds-bind, Holds-ok}
use tree_sitter.Language.Tables.{TableEntry, table_entry}
use tree_sitter.Subtree.{Subtree, leaf_symbol, has_changes, is_error, missing, is_fragile}
use tree_sitter.Subtree.External.{external_scanner_state_eq}
use tree_sitter.ReusableNode.{
  reusable_node_tree, reusable_node_byte_offset, reusable_node_advance, reusable_node_descend,
  reusable_node_advance_past_leaf,
}
use tree_sitter.Stack.Versions.{state}
use tree_sitter.Parser.{Parser}
use tree_sitter.Parser.Reuse.{
  ReuseStep, finished, continued, breakdown_top_of_stack, checked, reuse_step, reuse_tree,
  skip_node, reject_node, reuse_node, cannot_reuse, end_offset, has_included_range_difference,
  can_reuse_first_leaf,
}

-- The node can be taken as it is.
abbrev pub Undamaged : Parser → Subtree → ℕ → Type 0
Undamaged p tree position =
    (has_changes tree ≡ false)
    × (is_error tree ≡ false)
    × (missing tree ≡ false)
    × (is_fragile tree ≡ false)
    × (has_included_range_difference p position (end_offset position tree) ≡ false)

-- The node begins at the position, behind the same state of the external scanner, is not damaged, and
-- its first leaf may be read in the state.
abbrev pub Reusable : Option Subtree → Option TableEntry → Parser → ℕ → ℕ → Option Subtree → Type 0
Reusable none entry p q position token = Unit
Reusable (some tree) none p q position token = ⊥
Reusable (some tree) (some entry) p q position token =
    (reusable_node_tree p.reusable_node ≡ some tree)
    × (reusable_node_byte_offset p.reusable_node ≡ position)
    × (external_scanner_state_eq p.reusable_node.last_external_token token ≡ true)
    × Undamaged p tree position
    × (table_entry p.language.tables q (leaf_symbol tree) ≡ some entry)
    × (can_reuse_first_leaf p.language q tree entry ≡ true)

abbrev Step : ReuseStep → ℕ → Option Subtree → Type 0
Step (finished tree entry p q) position token = Reusable tree entry p q position token
Step (continued p q) position token = Unit

checked-some {ℓ} : {A : Type ℓ} (o : Option A) (a : A) → checked o ≡ ok a → o ≡ some a
checked-some none a e = cc
checked-some (some b) a e = cc

cannot_reuse-Undamaged :
    (p : Parser) (tree : Subtree) (position : ℕ)
    → cannot_reuse p tree position (end_offset position tree) ≡ false
    → Undamaged p tree position
unfolding cannot_reuse
cannot_reuse-Undamaged p tree position h = ground arith

double_not : (b : Bool) → not b ≡ false → b ≡ true
double_not true e = refl
double_not false e = cc

skip_lem :
    (p : Parser) (q : ℕ) (b : Bool) (position : ℕ) (token : Option Subtree)
    → Holds (λ step. Step step position token) (skip_node p q b)
unfolding skip_node
skip_lem p q b position token =
    let P = λ (step : ReuseStep). Step step position token in
    Holds-if P b _ _ (λ _. Holds-bind P (reusable_node_advance p.reusable_node) _ (λ r _. tt))
      (λ _. Holds-bind P (reusable_node_descend p.reusable_node) _ (λ x _.
        Holds-if P x.0 _ _ (λ _. tt) (λ _. Holds-bind P (reusable_node_advance x.1) _ (λ r _. tt))))

reject_lem :
    (fuel : ℕ) (p : Parser) (version q position : ℕ) (token : Option Subtree)
    → Holds (λ step. Step step position token) (reject_node fuel p version q)
unfolding reject_node
reject_lem fuel p version q position token =
    let P = λ (step : ReuseStep). Step step position token in
    Holds-bind P (reusable_node_descend p.reusable_node) _ (λ x _.
      Holds-if P x.0 _ _ (λ _. tt)
        (λ _. Holds-bind P (reusable_node_advance x.1) _ (λ r _.
          Holds-bind P (breakdown_top_of_stack fuel (record p { reusable_node = r }) version) _
            (λ y _. Holds-bind P (state y.1.stack version) _ (λ _ _. tt)))))

-- The node's own tests, in the order of the code
tree_lem :
    (fuel : ℕ) (p : Parser) (version q position : ℕ) (token : Option Subtree) (tree : Subtree)
    (offset : ℕ)
    → reusable_node_tree p.reusable_node ≡ some tree
    → reusable_node_byte_offset p.reusable_node ≡ offset
    → Holds
        (λ step. Step step position token)
        (reuse_tree fuel p version q position token tree offset)
unfolding reuse_tree
tree_lem fuel p version q position token tree offset t b =
    let P = λ (step : ReuseStep). Step step position token in
    let r = p.reusable_node in
    Holds-if P (ltb position offset) _ _ (λ _. tt)
      (λ n1.
        Holds-if P (ltb offset position) _ _ (λ _. skip_lem p q _ position token)
          (λ n2.
            Holds-if P (not (external_scanner_state_eq r.last_external_token token)) _ _
              (λ _. Holds-bind P (reusable_node_advance r) _ (λ _ _. tt))
              (λ n3.
                Holds-if P (cannot_reuse p tree offset (end_offset offset tree)) _ _
                  (λ _. reject_lem fuel p version q position token)
                  (λ n4.
                    Holds-bind P (checked (table_entry p.language.tables q (leaf_symbol tree))) _
                      (λ entry found.
                        Holds-if P (can_reuse_first_leaf p.language q tree entry) _ _
                          (λ fits.
                            let o : offset ≡ position = ground arith in
                            (
                              t,
                              b ∙ o,
                              double_not (external_scanner_state_eq r.last_external_token token) n3,
                              cannot_reuse-Undamaged p tree position (
                                  subst (λ x. cannot_reuse p tree x (end_offset x tree) ≡ false) o
                                    n4),
                              checked-some _ entry found,
                              fits,
                            ))
                          (λ _.
                            Holds-bind P (reusable_node_advance_past_leaf fuel r) _
                              (λ _ _. tt)))))))

step_lem :
    (fuel : ℕ) (p : Parser) (version q position : ℕ) (token : Option Subtree)
    → Holds (λ step. Step step position token) (reuse_step fuel p version q position token)
unfolding reuse_step
step_lem fuel p version q position token = go (reusable_node_tree p.reusable_node) refl
  where
    go :
        (o : Option Subtree)
        → reusable_node_tree p.reusable_node ≡ o
        → Holds
            (λ step. Step step position token)
            (elim o [
              | none ↦ ok (finished none none p q)
              | some tree ↦
                  reuse_tree fuel p version q position token tree
                    (reusable_node_byte_offset p.reusable_node)
            ])
    go none e = tt
    go (some tree) e =
        tree_lem fuel p version q position token tree (reusable_node_byte_offset p.reusable_node) e
          refl

-- A result of the loop
abbrev Result : Option Subtree × Option TableEntry × Parser × ℕ → ℕ → Option Subtree → Type 0
Result (tree, entry, p, q) position token = Reusable tree entry p q position token

after-Step :
    (rounds fuel version position : ℕ) (token : Option Subtree)
    → ((p : Parser) (q : ℕ)
        → Holds (λ x. Result x position token) (reuse_node rounds fuel p version q position token))
    → (step : ReuseStep) → Step step position token
    → Holds
        (λ x. Result x position token)
        (elim step [
          | finished tree entry p q ↦ ok (tree, entry, p, q)
          | continued p q ↦ reuse_node rounds fuel p version q position token
        ])
after-Step rounds fuel version position token ih (finished tree entry p q) h = h
after-Step rounds fuel version position token ih (continued p q) h = ih p q

loop_lem :
    (rounds fuel : ℕ) (p : Parser) (version q position : ℕ) (token : Option Subtree)
    → Holds (λ x. Result x position token) (reuse_node rounds fuel p version q position token)
unfolding reuse_node
loop_lem zero fuel p version q position token = tt
loop_lem (suc rounds) fuel p version q position token =
    Holds-bind (λ x. Result x position token) (reuse_step fuel p version q position token) _
      (λ step e.
        after-Step rounds fuel version position token
          (λ p' q'. loop_lem rounds fuel p' version q' position token) step
          (Holds-ok (λ x. Step x position token) _ step (step_lem fuel p version q position token)
            e))

-- A node of the old tree that is reused begins at the position of the version, behind a token that left
-- the external scanner in the same state; it has no changes, no error, is neither missing nor fragile,
-- meets no difference of the included ranges, and its first leaf may be read in the state that comes
-- with it, by the entry of the table that comes with it.
pub reuse_node-Reusable :
    (rounds fuel : ℕ) (p : Parser) (version q position : ℕ) (token tree : Option Subtree)
    (entry : Option TableEntry) (p' : Parser) (q' : ℕ)
    → reuse_node rounds fuel p version q position token ≡ ok (tree, entry, p', q')
    → Reusable tree entry p' q' position token
reuse_node-Reusable rounds fuel p version q position token tree entry p' q' e =
    Holds-ok (λ x. Result x position token) _ (tree, entry, p', q')
      (loop_lem rounds fuel p version q position token) e
