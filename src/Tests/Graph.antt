-- ===== src/Tests/Graph.antt =====
-- core/container/graph.py on small graphs: a service with a repository and a clock, and a cycle.
use xime_framework.Prelude.{ℕ, ◌≡◌, refl, true, some, List, [], ◌∷◌, contains, All, IsDistinct}
use xime_framework.Container.Graph.{ResolvedMap, build, topological_order, keys, kahn}
use xime_framework.Container.Graph.Order.{
  IsTopological, topological_order_total, topological_order_complete, detect_cycles_total,
}
use xime_framework.Container.Graph.Cycles.{detect_cycles, find_cycle}
use xime_framework.Container.Graph.Cycles.Walks.{IsCycle}
use xime_framework.Container.Graph.Rules.{
  topological_order_with_rules, ordered, invalid_rule, rule_cycle,
}
use xime_framework.Container.Graph.Rules.Outcome.{Ends, topological_order_with_rules-Ends}

-- 1 needs 2 and 3, 2 needs 3; the parameters are 10, 11, 12, and 99 is no node.
abbrev service : ResolvedMap
service = (1, (10, 2) ∷ (11, 3) ∷ []) ∷ (2, (10, 3) ∷ (12, 99) ∷ []) ∷ (3, []) ∷ (4, []) ∷ []

abbrev cyclic : ResolvedMap
cyclic = (1, (10, 2) ∷ []) ∷ (2, (10, 3) ∷ []) ∷ (3, (10, 2) ∷ []) ∷ []

service-IsDistinct : IsDistinct (keys service)
service-IsDistinct = (refl, (refl, (refl, (refl, tt))))

topological_order-service : topological_order (build service) ≡ some (3 ∷ 4 ∷ 2 ∷ 1 ∷ [])
unfolding topological_order build
topological_order-service = refl

topological_order-cyclic : topological_order (build cyclic) ≡ some []
unfolding topological_order build
topological_order-cyclic = refl

detect_cycles-service : detect_cycles (build service) ≡ some []
unfolding detect_cycles build
detect_cycles-service = refl

detect_cycles-cyclic : detect_cycles (build cyclic) ≡ some ((2 ∷ 3 ∷ 2 ∷ []) ∷ [])
unfolding detect_cycles build
detect_cycles-cyclic = refl

rules-service :
    topological_order_with_rules (build service) ((1 ∷ 4 ∷ []) ∷ []) ≡ ordered (3 ∷ 2 ∷ 1 ∷ 4 ∷ [])
unfolding topological_order_with_rules build kahn find_cycle
rules-service = refl

rules-cycle :
    topological_order_with_rules (build service) ((1 ∷ 4 ∷ 2 ∷ []) ∷ [])
    ≡ rule_cycle (1 ∷ 2 ∷ 4 ∷ 1 ∷ [])
unfolding topological_order_with_rules build kahn find_cycle
rules-cycle = refl

rules-unknown :
    topological_order_with_rules (build service) ((1 ∷ 7 ∷ 7 ∷ []) ∷ []) ≡ invalid_rule (7 ∷ [])
unfolding topological_order_with_rules build kahn find_cycle
rules-unknown = refl

topological_order_total_example :
    (out : List ℕ) × (topological_order (build service) ≡ some out)
    × IsTopological (build service).edges (keys service) out
topological_order_total_example = topological_order_total service service-IsDistinct

detect_cycles_total_example :
    (cycles : List (List ℕ)) × (detect_cycles (build cyclic) ≡ some cycles)
    × All (IsCycle (build cyclic).edges) cycles
    × (cycles ≡ [] → (cycle : List ℕ) → ¬ IsCycle (build cyclic).edges cycle)
detect_cycles_total_example = detect_cycles_total cyclic

topological_order_complete_example : contains (3 ∷ 4 ∷ 2 ∷ 1 ∷ []) 2 ≡ true
topological_order_complete_example =
    topological_order_complete service (3 ∷ 4 ∷ 2 ∷ 1 ∷ []) service-IsDistinct detect_cycles-service
      topological_order-service 2 refl

topological_order_with_rules-Ends_example :
    Ends
      (build service)
      ((1 ∷ 4 ∷ []) ∷ [])
      (topological_order_with_rules (build service) ((1 ∷ 4 ∷ []) ∷ []))
topological_order_with_rules-Ends_example =
    topological_order_with_rules-Ends service ((1 ∷ 4 ∷ []) ∷ []) service-IsDistinct
