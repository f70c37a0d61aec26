-- ===== src/Stack/Merge/Counts.antt =====
-- Merging two versions adds links to nodes in use, and keeps the counts of the nodes right.
use tree_sitter.Prelude.{
  ℕ, zero, suc, ◌+◌, ◌≤◌, ◌<◌, ◌≡◌, ◌≢◌, refl, sym, ◌∙◌, ap, not, ◌&&◌, ◌||◌, Option, none, some,
  List, [], ◌∷◌, ◌++◌, ◌==◌, if◌then◌else◌, length, get_elem?, set, arith, Bool-cases, inl, inr,
  add32, length-set, get_elem?-set_ne, ==_iff,
}
use tree_sitter.Prelude.Run.{
  Run, ok, fault, out_of_fuel, ◌>>=◌, Holds, Holds-if, Holds-bind, Holds-ok,
}
use mathlib.Core.Option.{some_inj}
use tree_sitter.Prelude.Int.{◌+ℤ◌}
use tree_sitter.Subtree.{Subtree}
use tree_sitter.Subtree as Tree
use tree_sitter.Stack.{
  StackNode, StackLink, Store, load, put, max_link_count, stack_node_retain, subtree_is_equivalent,
}
use tree_sitter.Stack.Counts.{
  one, link_times, held, incoming, count_of, count_of-get, count_of-set, incoming-set,
}
use tree_sitter.Stack.Pop.Counts.{CountsFit, Holds-then, retain-CountsFit, load-get}
use tree_sitter.Stack.Merge.{
  append_link, replace_link, add_links, stack_node_add_link, find_match, LinkMatch, no_match,
  same_node, mergeable, subtree_of, ltbℤ, raised, link_precedence,
}

-- A node that is in use stays so.
abbrev pub StaysInUse : Store → Store → Type 0
StaysInUse s s' = (q : ℕ) → 0 < count_of s.nodes q → 0 < count_of s'.nodes q

-- What each of the steps gives: the counts are right as before.
abbrev pub Linked : Store → (ℕ → ℕ) → Store → Type 0
Linked s w s' = CountsFit s' w × StaysInUse s s'

same_count :
    (s : Store) (p : ℕ) (n n' : StackNode)
    → get_elem? s.nodes p ≡ some n
    → n'.ref_count ≡ n.ref_count
    → (q : ℕ) → count_of (set s.nodes p n') q ≡ count_of s.nodes q
same_count s p n n' g e q =
    let x = count_of-set n n' s.nodes p q g in
    elim (Bool-cases (p == q)) [
      | inl b ↦
          x
          ∙ rw b
              (e ∙ sym ((count_of-get s.nodes p n g).0) ∙ ap (count_of s.nodes) ((==_iff p q).0 b))
      | inr b ↦ x ∙ rw b refl
    ]

-- A node is written again with as many pointers as it has.
put-Linked :
    (s : Store) (p : ℕ) (n n' : StackNode) (w : ℕ → ℕ)
    → CountsFit s w
    → get_elem? s.nodes p ≡ some n
    → n'.ref_count ≡ n.ref_count
    → ((q : ℕ) → link_times q n'.links ≡ link_times q n.links)
    → Linked s w (put s p n')
put-Linked s p n n' w (c, small) g e l =
    let g' = count_of-get s.nodes p n g in
    let same = λ (q : ℕ). same_count s p n n' g e q in
    (
      (
        record {
          counts = λ q. ground (arith, same q, c.counts q, incoming-set n n' s.nodes p q g, l q, e);
          once = c.once;
          unused = λ q h. same q ∙ c.unused q h;
          inside = λ q h. omega (arith, c.inside q h, length-set s.nodes p n');
        },
        λ q. omega (arith, same q, small q),
      ),
      λ q h. omega (arith, same q),
    )

-- A node in use takes over a pointer that came from outside.
take-Linked :
    (s : Store) (p r : ℕ) (n n' : StackNode) (w : ℕ → ℕ)
    → CountsFit s (λ q. one r q + w q)
    → get_elem? s.nodes p ≡ some n
    → 0 < n.ref_count
    → n'.ref_count ≡ n.ref_count
    → ((q : ℕ) → link_times q n'.links ≡ link_times q n.links + one r q)
    → Linked s w (put s p n')
take-Linked s p r n n' w (c, small) g k e l =
    let g' = count_of-get s.nodes p n g in
    let same = λ (q : ℕ). same_count s p n n' g e q in
    (
      (
        record {
          counts =
              λ q. ground (arith, same q, c.counts q, incoming-set n n' s.nodes p q g, l q, e, k);
          once = c.once;
          unused = λ q h. same q ∙ c.unused q h;
          inside = λ q h. omega (arith, c.inside q h, length-set s.nodes p n');
        },
        λ q. omega (arith, same q, small q),
      ),
      λ q h. omega (arith, same q),
    )

Linked-along : (s t : Store) (w : ℕ → ℕ) (u : Store) → StaysInUse s t → Linked t w u → Linked s w u
Linked-along s t w u a b = (b.0, λ q h. b.1 q (a q h))

Holds-and {ℓ} :
    {A : Type ℓ} (P Q : A → Type 0) (r : Run A) → Holds P r → Holds Q r → Holds (λ a. P a × Q a) r
Holds-and P Q (ok a) p q = (p, q)
Holds-and P Q fault p q = tt
Holds-and P Q out_of_fuel p q = tt

-- A retain changes one node only, which stays in use.
abbrev KeepsOthers : ℕ → Store → Store → Type 0
KeepsOthers p s s' =
    ((q : ℕ) → p ≢ q → get_elem? s'.nodes q ≡ get_elem? s.nodes q) × StaysInUse s s'

retain-KeepsOthers : (s : Store) (p : ℕ) → Holds (KeepsOthers p s) (stack_node_retain s p)
unfolding stack_node_retain
retain-KeepsOthers s p = Holds-bind (KeepsOthers p s) (load s p) _ (λ n e.
    Holds-if (KeepsOthers p s) (n.ref_count == 0 || add32 n.ref_count 1 == 0) _ _ (λ _. tt)
      (λ b.
        let n' = record n { ref_count = add32 n.ref_count 1 } in
        (
          λ q ne. get_elem?-set_ne s.nodes n' ne,
          λ q h. ground (arith, count_of-set n n' s.nodes p q (load-get s p n e), b, h),
        )))

link_times-append :
    (ls : List StackLink) (l : StackLink) (q : ℕ)
    → link_times q (ls ++ l ∷ []) ≡ link_times q ls + one l.node q
link_times-append [] l q = omega arith
link_times-append (x ∷ ls) l q = omega (arith, link_times-append ls l q)

link_times-set :
    (ls : List StackLink) (i : ℕ) (l l' : StackLink) (q : ℕ)
    → get_elem? ls i ≡ some l
    → l'.node ≡ l.node
    → link_times q (set ls i l') ≡ link_times q ls
link_times-set [] i l l' q g e = cc
link_times-set (x ∷ ls) zero l l' q g e =
    let a = ap (λ p. one p q) e in
    let b = ap (λ (y : StackLink). one y.node q) (some_inj.0 g) in omega (arith, a, b)
link_times-set (x ∷ ls) (suc i) l l' q g e = omega (arith, link_times-set ls i l l' q g e)

append_link-Linked :
    (s : Store) (self : ℕ) (n : StackNode) (link : StackLink) (w : ℕ → ℕ)
    → CountsFit s w
    → get_elem? s.nodes self ≡ some n
    → 0 < n.ref_count
    → link.node ≢ self
    → Holds (Linked s w) (append_link s self n link)
unfolding append_link
append_link-Linked s self n link w c g k ne =
    Holds-if (Linked s w) (length n.links == max_link_count) _ _ (λ _. (c, λ q h. h))
      (λ _.
        Holds-then (λ s'. CountsFit s' (λ q. one link.node q + w q) × KeepsOthers link.node s s')
          (Linked s w) (stack_node_retain s link.node) _
          (Holds-and (λ s'. CountsFit s' (λ q. one link.node q + w q)) (KeepsOthers link.node s)
            (stack_node_retain s link.node) (retain-CountsFit s link.node w c)
            (retain-KeepsOthers s link.node))
          (λ s' x. Holds-bind (Linked s w) (load s' link.node) _ (λ m _.
            Linked-along s s' w _ x.1.1 (
              take-Linked s' self link.node n _ w x.0 (x.1.0 self ne ∙ g) k refl
                (λ q. link_times-append n.links link q)))))

replace_link-Linked :
    (s : Store) (self : ℕ) (n : StackNode) (i : ℕ) (link : StackLink) (t : Option Subtree)
    (w : ℕ → ℕ)
    → CountsFit s w
    → get_elem? s.nodes self ≡ some n
    → Holds (Linked s w) (replace_link s self n i link t)
unfolding replace_link
replace_link-Linked s self n i link none w c g = tt
replace_link-Linked s self n i link (some x) w c g = by_subtree link.subtree
  where
    by_link :
        (m : StackNode) (t : Subtree) (o : Option StackLink)
        → get_elem? n.links i ≡ o
        → Holds (Linked s w) (elim o [
          | none ↦ fault
          | some l ↦ ok (
              put s self (record n {
                links = set n.links i (record l { subtree = some t });
                dynamic_precedence = m.dynamic_precedence +ℤ Tree.dynamic_precedence t;
              }))
        ])
    by_link m t none e = tt
    by_link m t (some l) e =
        put-Linked s self n _ w c g refl
          (λ q. link_times-set n.links i l (record l { subtree = some t }) q e refl)

    by_subtree :
        (o : Option Subtree)
        → Holds (Linked s w) (elim o [
          | none ↦ fault
          | some t ↦
              if not (ltbℤ (Tree.dynamic_precedence x) (Tree.dynamic_precedence t))
              then ok s
              else (do
                m ← load s link.node
                elim (get_elem? n.links i) [
                  | none ↦ fault
                  | some l ↦ ok (
                      put s self (record n {
                        links = set n.links i (record l { subtree = some t });
                        dynamic_precedence = m.dynamic_precedence +ℤ Tree.dynamic_precedence t;
                      }))
                ])
        ])
    by_subtree none = tt
    by_subtree (some t) =
        Holds-if (Linked s w) (not (ltbℤ (Tree.dynamic_precedence x) (Tree.dynamic_precedence t))) _
          _ (λ _. (c, λ q h. h))
          (λ _.
            Holds-bind (Linked s w) (load s link.node) _
              (λ m _. by_link m t (get_elem? n.links i) refl))

incoming-ge :
    (ns : List StackNode) (p q : ℕ) (n : StackNode)
    → get_elem? ns p ≡ some n
    → held q n ≤ incoming q ns
unfolding incoming
incoming-ge [] p q n g = cc
incoming-ge (x ∷ ns) zero q n g = let e = ap (held q) (some_inj.0 g) in omega (arith, e)
incoming-ge (x ∷ ns) (suc p) q n g = omega (arith, incoming-ge ns p q n g)

linked_in_use :
    (s : Store) (p q : ℕ) (n : StackNode) (w : ℕ → ℕ)
    → CountsFit s w
    → get_elem? s.nodes p ≡ some n
    → 0 < n.ref_count
    → 0 < link_times q n.links
    → 0 < count_of s.nodes q
linked_in_use s p q n w c g k l = ground (arith, incoming-ge s.nodes p q n g, c.0.counts q)

abbrev IsLinked : List StackLink → LinkMatch → Type 0
IsLinked ls no_match = Unit
IsLinked ls (same_node i) = Unit
IsLinked ls (mergeable t) = 0 < link_times t ls

find_match-IsLinked :
    (s : Store) (link : StackLink) (ls : List StackLink) (i : ℕ)
    → Holds (IsLinked ls) (find_match s link ls i)
unfolding find_match
find_match-IsLinked s link [] i = tt
find_match-IsLinked s link (x ∷ ls) i =
    let Q = IsLinked (x ∷ ls) in
    let rest : Holds Q (find_match s link ls (i + 1)) =
      Holds-along (find_match s link ls (i + 1)) (find_match-IsLinked s link ls (i + 1)) in
    Holds-if Q (not (subtree_is_equivalent x.subtree link.subtree)) _ _ (λ _. rest)
      (λ _.
        Holds-if Q (x.node == link.node) _ _ (λ _. tt)
          (λ _. Holds-bind Q (load s x.node) _ (λ a _. Holds-bind Q (load s link.node) _ (λ b _.
            Holds-if Q (a.state == b.state && a.position.bytes == b.position.bytes) _ _
              (λ _. ground (arith, one_self x.node)) (λ _. rest)))))
  where
    one_self : (p : ℕ) → one p p ≡ 1
    one_self p = ground arith

    Holds-along : (r : Run LinkMatch) → Holds (IsLinked ls) r → Holds (IsLinked (x ∷ ls)) r
    Holds-along (ok no_match) h = tt
    Holds-along (ok (same_node j)) h = tt
    Holds-along (ok (mergeable t)) h = omega arith
    Holds-along fault h = tt
    Holds-along out_of_fuel h = tt

abbrev pub Adds : (ℕ → ℕ) → (Store → ℕ → StackLink → Run Store) → Type 0
Adds w f =
    (s : Store) (p : ℕ) (l : StackLink)
    → CountsFit s w
    → 0 < count_of s.nodes p
    → Holds (Linked s w) (f s p l)

pub add_links-Linked :
    (f : Store → ℕ → StackLink → Run Store) (w : ℕ → ℕ) (rounds target source j : ℕ) (s : Store)
    → Adds w f
    → CountsFit s w
    → 0 < count_of s.nodes target
    → Holds (Linked s w) (add_links f rounds target source j s)
unfolding add_links
add_links-Linked f w zero target source j s a c k = tt
add_links-Linked f w (suc rounds) target source j s a c k =
    Holds-bind (Linked s w) (load s source) _ (λ n _.
      by_link (get_elem? n.links j)
        (λ t x. add_links-Linked f w rounds target source (suc j) t a x.0 (x.1 target k)))
  where
    by_link :
        (o : Option StackLink)
        → ((t : Store)
            → Linked s w t
            → Holds (Linked t w) (add_links f rounds target source (suc j) t))
        → Holds (Linked s w) (elim o [
          | none ↦ ok s
          | some l ↦ f s target l >>= add_links f rounds target source (suc j)
        ])
    by_link none rest = (c, λ q h. h)
    by_link (some l) rest =
        Holds-then (Linked s w) (Linked s w) (f s target l) _ (a s target l c k)
          (λ t x. weaken t x.1 (add_links f rounds target source (suc j) t) (rest t x))
      where
        weaken :
            (t : Store)
            → StaysInUse s t
            → (r : Run Store) → Holds (Linked t w) r
            → Holds (Linked s w) r
        weaken t y (ok u) h = Linked-along s t w u y h
        weaken t y fault h = tt
        weaken t y out_of_fuel h = tt

pub stack_node_add_link-Adds : (fuel : ℕ) (w : ℕ → ℕ) → Adds w (stack_node_add_link fuel)
unfolding stack_node_add_link
stack_node_add_link-Adds zero w s self link c k = tt
stack_node_add_link-Adds (suc fuel) w s self link c k =
    Holds-if (Linked s w) (link.node == self) _ _ (λ _. (c, λ q h. h))
      (λ ne. Holds-bind (Linked s w) (load s self) _ (λ n e.
        Holds-bind (Linked s w) (find_match s link n.links 0) _ (λ found f.
          by_match n (load-get s self n e) (λ x. ground arith) found
            (Holds-ok (IsLinked n.links) _ found (find_match-IsLinked s link n.links 0) f)
            (stack_node_add_link-Adds fuel w))))
  where
    by_match :
        (n : StackNode)
        → get_elem? s.nodes self ≡ some n
        → link.node ≢ self
        → (found : LinkMatch) → IsLinked n.links found
        → Adds w (stack_node_add_link fuel)
        → Holds (Linked s w) (elim found [
          | no_match ↦ append_link s self n link
          | same_node i ↦ replace_link s self n i link (subtree_of n.links i)
          | mergeable target ↦ (do
            s' ← add_links (stack_node_add_link fuel) (suc max_link_count) target link.node 0 s
            n' ← load s' self
            m ← load s' link.node
            ok (
                put s' self (record n' {
                  dynamic_precedence = raised n'.dynamic_precedence (link_precedence m link);
                })))
        ])
    by_match n g ne no_match i a =
        append_link-Linked s self n link w c g (omega (arith, (count_of-get s.nodes self n g).0, k))
          ne
    by_match n g ne (same_node j) i a =
        replace_link-Linked s self n j link (subtree_of n.links j) w c g
    by_match n g ne (mergeable target) i a =
        Holds-then (Linked s w) (Linked s w)
          (add_links (stack_node_add_link fuel) (suc max_link_count) target link.node 0 s) _
          (add_links-Linked (stack_node_add_link fuel) w (suc max_link_count) target link.node 0 s a
            c
            (linked_in_use s self target n w c g
              (omega (arith, (count_of-get s.nodes self n g).0, k)) i))
          (λ s' x. Holds-bind (Linked s w) (load s' self) _ (λ n' e.
            Holds-bind (Linked s w) (load s' link.node) _ (λ m _.
              Linked-along s s' w _ x.1
                (put-Linked s' self n' _ w x.0 (load-get s' self n' e) refl (λ q. refl)))))
