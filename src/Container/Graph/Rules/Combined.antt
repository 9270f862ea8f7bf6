-- ===== src/Container/Graph/Rules/Combined.antt =====
-- core/container/graph.py: the combined edges hold the dependencies and the pairs of the rules.
use xime_framework.Prelude.{
  ℕ, ◌≡◌, Bool, true, false, ◌||◌, ◌&&◌, List, [], ◌∷◌, arith, ◌==◌, if◌then◌else◌, Bool-cases, inl,
  inr, contains, contains-append, IsDistinct, snoc-IsDistinct, All,
}
use xime_framework.Container.Graph.{AdjacencyMap}
use xime_framework.Container.Graph.Rules.{add_edge, add_rule, combine, all_classes}

add_edge-IsDistinct :
    (m : AdjacencyMap) (after before n : ℕ)
    → IsDistinct (m n)
    → IsDistinct (add_edge m after before n)
add_edge-IsDistinct m after before n d = elim (Bool-cases (contains (m n) before)) [
  | inl e ↦ rw e (if_same (after == n) _ _ d d)
  | inr e ↦ rw e (if_same (after == n) _ _ (snoc-IsDistinct (m n) before d e) d)
]
  where
    if_same :
        (b : Bool) (xs ys : List ℕ)
        → IsDistinct xs
        → IsDistinct ys
        → IsDistinct (if b then xs else ys)
    if_same true xs ys h k = h
    if_same false xs ys h k = k

contains-add_edge :
    (m : AdjacencyMap) (after before n d : ℕ)
    → contains (add_edge m after before n) d ≡ (contains (m n) d || (after == n) && (before == d))
contains-add_edge m after before n d = ground (arith, contains-append (m n) (before ∷ []) d)

add_rule-IsDistinct :
    (m : AdjacencyMap) (rule : List ℕ)
    → ((n : ℕ) → IsDistinct (m n))
    → (n : ℕ) → IsDistinct (add_rule m rule n)
unfolding add_rule
add_rule-IsDistinct m [] h n = h n
add_rule-IsDistinct m (x ∷ []) h n = h n
add_rule-IsDistinct m (x ∷ y ∷ rest) h n =
    add_rule-IsDistinct (add_edge m y x) (y ∷ rest) (λ k. add_edge-IsDistinct m y x k (h k)) n

pub combine-IsDistinct :
    (m : AdjacencyMap) (rules : List (List ℕ))
    → ((n : ℕ) → IsDistinct (m n))
    → (n : ℕ) → IsDistinct (combine m rules n)
unfolding combine
combine-IsDistinct m [] h n = h n
combine-IsDistinct m (rule ∷ rules) h n =
    combine-IsDistinct (add_rule m rule) rules (add_rule-IsDistinct m rule h) n

-- Edges are only added.
add_rule_keeps :
    (m : AdjacencyMap) (rule : List ℕ) (n d : ℕ)
    → contains (m n) d ≡ true
    → contains (add_rule m rule n) d ≡ true
unfolding add_rule
add_rule_keeps m [] n d h = h
add_rule_keeps m (x ∷ []) n d h = h
add_rule_keeps m (x ∷ y ∷ rest) n d h =
    add_rule_keeps (add_edge m y x) (y ∷ rest) n d (ground (arith, contains-add_edge m y x n d))

pub combine_keeps :
    (m : AdjacencyMap) (rules : List (List ℕ)) (n d : ℕ)
    → contains (m n) d ≡ true
    → contains (combine m rules n) d ≡ true
unfolding combine
combine_keeps m [] n d h = h
combine_keeps m (rule ∷ rules) n d h =
    combine_keeps (add_rule m rule) rules n d (add_rule_keeps m rule n d h)

-- Each class of the rule is a dependency of the next one.
abbrev pub Follows : AdjacencyMap → List ℕ → Type 0
Follows m [] = Unit
Follows m (x ∷ []) = Unit
Follows m (x ∷ y ∷ rest) = (contains (m y) x ≡ true) × Follows m (y ∷ rest)

Follows-weaken :
    (m k : AdjacencyMap) (rule : List ℕ)
    → ((n d : ℕ) → contains (m n) d ≡ true → contains (k n) d ≡ true)
    → Follows m rule
    → Follows k rule
Follows-weaken m k [] h f = tt
Follows-weaken m k (x ∷ []) h f = tt
Follows-weaken m k (x ∷ y ∷ rest) h f = (h y x f.0, Follows-weaken m k (y ∷ rest) h f.1)

add_rule-Follows : (m : AdjacencyMap) (rule : List ℕ) → Follows (add_rule m rule) rule
unfolding add_rule
add_rule-Follows m [] = tt
add_rule-Follows m (x ∷ []) = tt
add_rule-Follows m (x ∷ y ∷ rest) = (
  add_rule_keeps (add_edge m y x) (y ∷ rest) y x (ground (arith, contains-add_edge m y x y x)),
  add_rule-Follows (add_edge m y x) (y ∷ rest),
)

pub combine-Follows :
    (m : AdjacencyMap) (rules : List (List ℕ)) → All (Follows (combine m rules)) rules
unfolding combine
combine-Follows m [] = tt
combine-Follows m (rule ∷ rules) = (
  Follows-weaken (add_rule m rule) (combine (add_rule m rule) rules) rule
      (combine_keeps (add_rule m rule) rules) (add_rule-Follows m rule),
  combine-Follows (add_rule m rule) rules,
)

-- What is added is a class of a rule.
add_rule_inside :
    (m : AdjacencyMap) (rule : List ℕ) (n d : ℕ)
    → contains (add_rule m rule n) d ≡ true
    → (contains (m n) d || contains rule d) ≡ true
unfolding add_rule
add_rule_inside m [] n d h = ground arith
add_rule_inside m (x ∷ []) n d h = ground arith
add_rule_inside m (x ∷ y ∷ rest) n d h =
    ground (arith, add_rule_inside (add_edge m y x) (y ∷ rest) n d h, contains-add_edge m y x n d)

pub combine_inside :
    (m : AdjacencyMap) (rules : List (List ℕ)) (n d : ℕ)
    → contains (combine m rules n) d ≡ true
    → (contains (m n) d || contains (all_classes rules) d) ≡ true
unfolding combine
combine_inside m [] n d h = ground arith
combine_inside m (rule ∷ rules) n d h = ground (
  arith,
  combine_inside (add_rule m rule) rules n d h,
  add_rule_inside m rule n d,
  contains-append rule (all_classes rules) d,
)
