-- ===== src/Container/Graph/Rules.antt =====
-- core/container/graph.py: topological_order_with_rules, the instantiation order under the rules
-- of dependency.order().
pub mod Combined
pub mod Outcome
use xime_framework.Prelude.{
  ℕ, Bool, not, Option, none, some, List, [], ◌∷◌, ◌++◌, ◌==◌, if◌then◌else◌, length, keep,
  contains, dedup,
}
use xime_framework.Container.Graph.{AdjacencyMap, DependencyGraph, dependents_of, kahn}
use xime_framework.Container.Graph.Cycles.{find_cycle}

-- The returned order, or the exception that is raised.
pub data OrderResult : Type 0 where
  ordered : List ℕ → OrderResult
  invalid_rule : List ℕ → OrderResult
  rule_cycle : List ℕ → OrderResult
  out_of_fuel : OrderResult

abbrev pub all_classes : List (List ℕ) → List ℕ
all_classes [] = []
all_classes (rule ∷ rules) = rule ++ all_classes rules

abbrev pub unknown : List ℕ → List (List ℕ) → List ℕ
unknown nodes rules = keep (λ cls. not (contains nodes cls)) (all_classes rules)

-- `combined[after].add(before)`
abbrev pub add_edge : AdjacencyMap → ℕ → ℕ → AdjacencyMap
add_edge combined after before n =
    if after == n
    then if contains (combined n) before then combined n else combined n ++ before ∷ []
    else combined n

-- `for i in range(len(rule) - 1)`
unfoldable pub add_rule : AdjacencyMap → List ℕ → AdjacencyMap
add_rule combined [] = combined
add_rule combined (x ∷ []) = combined
add_rule combined (before ∷ after ∷ rest) = add_rule (add_edge combined after before) (after ∷ rest)

unfoldable pub combine : AdjacencyMap → List (List ℕ) → AdjacencyMap
unfolding add_rule
combine edges [] = edges
combine edges (rule ∷ rules) = combine (add_rule edges rule) rules

abbrev pub left_over : List ℕ → List ℕ → List ℕ
left_over nodes result = keep (λ n. not (contains result n)) nodes

unfoldable pub finish : AdjacencyMap → List ℕ → List ℕ → OrderResult
finish combined nodes result =
    if length result == length nodes
    then ordered result
    else elim (find_cycle combined (left_over nodes result)) [
      | none ↦ out_of_fuel
      | some cycle ↦ rule_cycle cycle
    ]

unfoldable pub order_known : DependencyGraph → AdjacencyMap → OrderResult
unfolding finish
order_known graph combined = elim (kahn graph.order combined (dependents_of combined graph.order)) [
  | none ↦ out_of_fuel
  | some result ↦ finish combined graph.order result
]

unfoldable pub topological_order_with_rules : DependencyGraph → List (List ℕ) → OrderResult
unfolding order_known combine
topological_order_with_rules graph rules = elim (unknown graph.order rules) [
  | cls ∷ rest ↦ invalid_rule (dedup (cls ∷ rest))
  | [] ↦ order_known graph (combine graph.edges rules)
]
