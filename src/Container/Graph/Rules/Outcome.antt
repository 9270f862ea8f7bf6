-- ===== src/Container/Graph/Rules/Outcome.antt =====
-- core/container/graph.py: the three ways in which topological_order_with_rules ends.
use mathlib.Core.Logic.{◌≢◌}
use mathlib.Core.List.{append_assoc}
use xime_framework.Prelude.{
  ℕ, ◌≡◌, refl, sym, ◌∙◌, subst, true, false, not, ◌&&◌, List, [], ◌∷◌, ◌++◌, arith, ◌==◌,
  Bool-cases, inl, inr, contains, contains-append, contains-keep, contains-dedup, length, All, ap,
  IsDistinct, length-le_of_contains, dedup,
}
use xime_framework.Container.Graph.{
  AdjacencyMap, ResolvedMap, DependencyGraph, keys, build, dependents_of,
}
use xime_framework.Container.Graph.Reverse.{dependents_of_lem}
use xime_framework.Container.Graph.Kahn.{IsBuildable}
use xime_framework.Container.Graph.Order.{IsTopological, kahn_total, edges-IsDistinct, edges_closed}
use xime_framework.Container.Graph.Cycles.Walks.{IsCycle}
use xime_framework.Container.Graph.Cycles.Find.{find_cycle_total}
use xime_framework.Container.Graph.Rules.{
  OrderResult, ordered, invalid_rule, rule_cycle, out_of_fuel, all_classes, unknown, combine,
  left_over, finish, order_known, topological_order_with_rules,
}
use xime_framework.Container.Graph.Rules.Combined.{
  Follows, combine-IsDistinct, combine_keeps, combine-Follows, combine_inside,
}

-- `before` stands in front of `after`.
pub record Precedes (out : List ℕ) (before after : ℕ) : Type 0 where
  pub front : List ℕ
  pub back : List ℕ
  pub shape : out ≡ front ++ after ∷ back
  pub earlier : contains front before ≡ true

abbrev pub IsKept : List ℕ → List ℕ → Type 0
IsKept out [] = Unit
IsKept out (x ∷ []) = Unit
IsKept out (x ∷ y ∷ rest) = Precedes out x y × IsKept out (y ∷ rest)

-- A list in which dependencies come first puts a class behind each of its dependencies.
Precedes-of_buildable :
    (edges : AdjacencyMap) (seen ns : List ℕ) (before after : ℕ)
    → IsBuildable edges seen ns
    → contains (edges after) before ≡ true
    → contains ns after ≡ true
    → Precedes (seen ++ ns) before after
Precedes-of_buildable edges seen [] before after b e m = absurd (cc)
Precedes-of_buildable edges seen (n ∷ ns) before after b e m = elim (Bool-cases (n == after)) [
  | inl same ↦ record {
    front = seen;
    back = ns;
    shape = ground arith;
    earlier = b.0 before (ground arith);
  }
  | inr other ↦
      subst (λ out. Precedes out before after) (append_assoc seen (n ∷ []) ns)
        (Precedes-of_buildable edges (seen ++ n ∷ []) ns before after b.1 e (ground arith))
]

-- The successful order: every node once, dependencies first, and every rule kept.
pub record IsOrder (edges : AdjacencyMap) (nodes : List ℕ) (rules : List (List ℕ)) (out : List ℕ)
    : Type 0 where
  pub distinct : IsDistinct out
  pub same : (x : ℕ) → contains out x ≡ contains nodes x
  pub buildable : IsBuildable edges [] out
  pub kept : All (IsKept out) rules

abbrev pub Ends : DependencyGraph → List (List ℕ) → OrderResult → Type 0
Ends graph rules (ordered out) = IsOrder graph.edges graph.order rules out
Ends graph rules (invalid_rule names) =
    (names ≢ [])
    × ((c : ℕ)
        → contains names c ≡ (contains (all_classes rules) c && not (contains graph.order c)))
Ends graph rules (rule_cycle cycle) =
    (unknown graph.order rules ≡ []) × IsCycle (combine graph.edges rules) cycle
Ends graph rules out_of_fuel = ⊥

IsBuildable-fewer :
    (m k : AdjacencyMap)
    → ((n d : ℕ) → contains (m n) d ≡ true → contains (k n) d ≡ true)
    → (seen ns : List ℕ) → IsBuildable k seen ns
    → IsBuildable m seen ns
IsBuildable-fewer m k h seen [] b = tt
IsBuildable-fewer m k h seen (n ∷ ns) b =
    ((λ d e. b.0 d (h n d e)), IsBuildable-fewer m k h (seen ++ n ∷ []) ns b.1)

rule-IsKept :
    (combined : AdjacencyMap) (out rule : List ℕ)
    → IsBuildable combined [] out
    → Follows combined rule
    → ((x : ℕ) → contains rule x ≡ true → contains out x ≡ true)
    → IsKept out rule
rule-IsKept combined out [] b f m = tt
rule-IsKept combined out (x ∷ []) b f m = tt
rule-IsKept combined out (x ∷ y ∷ rest) b f m = (
  Precedes-of_buildable combined [] out x y b f.0 (m y (ground arith)),
  rule-IsKept combined out (y ∷ rest) b f.1 (λ z mz. m z (ground arith)),
)

rules-IsKept :
    (combined : AdjacencyMap) (out : List ℕ) (rules : List (List ℕ))
    → IsBuildable combined [] out
    → All (Follows combined) rules
    → ((x : ℕ) → contains (all_classes rules) x ≡ true → contains out x ≡ true)
    → All (IsKept out) rules
rules-IsKept combined out [] b f m = tt
rules-IsKept combined out (rule ∷ rules) b f m = (
  rule-IsKept combined out rule b f.0
      (λ x e. m x (ground (arith, contains-append rule (all_classes rules) x))),
  rules-IsKept combined out rules b f.1
      (λ x e. m x (ground (arith, contains-append rule (all_classes rules) x))),
)

-- A distinct list inside another and of its length holds all of it.
full_of_length :
    (out nodes : List ℕ)
    → IsDistinct out
    → ((x : ℕ) → contains out x ≡ true → contains nodes x ≡ true)
    → length out ≡ length nodes
    → (x : ℕ) → contains out x ≡ contains nodes x
full_of_length out nodes d h same x = elim (Bool-cases (contains out x)) [
  | inl e ↦ e ∙ sym (h x e)
  | inr e ↦ elim (Bool-cases (contains nodes x)) [
    | inl m ↦
        absurd (
          omega (arith, length-le_of_contains (x ∷ out) nodes (e, d) (λ y my. ground (arith, h y))))
    | inr m ↦ e ∙ sym m
  ]
]

left_over_some :
    (out nodes : List ℕ)
    → IsDistinct nodes
    → IsDistinct out
    → ((x : ℕ) → contains out x ≡ true → contains nodes x ≡ true)
    → (length out == length nodes) ≡ false
    → (n : ℕ) × (contains (left_over nodes out) n ≡ true)
left_over_some out nodes dn d h short = pick (left_over nodes out) refl
  where
    pick :
        (l : List ℕ) → left_over nodes out ≡ l → (n : ℕ) × (contains (left_over nodes out) n ≡ true)
    pick [] e = absurd (
        ground (
          arith,
          length-le_of_contains nodes out dn (λ x m.
              ground (
                arith,
                contains-keep (λ n. not (contains out n)) nodes x,
                ap (λ l. contains l x) e,
              )),
          length-le_of_contains out nodes d h,
        ))
    pick (n ∷ rest) e = (n, rw e (ground arith))

module _ (graph : DependencyGraph) (rules : List (List ℕ)) (nodes_distinct : IsDistinct graph.order)
    (edges-IsDistinct : (n : ℕ) → IsDistinct (graph.edges n))
    (closed : (n d : ℕ) → contains (graph.edges n) d ≡ true → contains graph.order d ≡ true)
    (known : unknown graph.order rules ≡ []) where
  abbrev combined : AdjacencyMap
  combined = combine graph.edges rules

  rule_class_known : (x : ℕ) → contains (all_classes rules) x ≡ true → contains graph.order x ≡ true
  rule_class_known x m = ground (
    arith,
    contains-keep (λ cls. not (contains graph.order cls)) (all_classes rules) x,
    ap (λ l. contains l x) known,
  )

  combined_closed : (n d : ℕ) → contains (combined n) d ≡ true → contains graph.order d ≡ true
  combined_closed n d m =
      ground (arith, combine_inside graph.edges rules n d m, closed n d, rule_class_known d)

  finish-Ends :
      (out : List ℕ)
      → IsTopological combined graph.order out
      → Ends graph rules (finish combined graph.order out)
  unfolding finish
  finish-Ends out t = elim (Bool-cases (length out == length graph.order)) [
    | inl full ↦
        let same = full_of_length out graph.order t.distinct t.inside (ground arith) in
        rw full (record {
          distinct = t.distinct;
          same = same;
          buildable =
              IsBuildable-fewer graph.edges combined (combine_keeps graph.edges rules) [] out
                t.buildable;
          kept =
              rules-IsKept combined out rules t.buildable (combine-Follows graph.edges rules)
                (λ x m. same x ∙ rule_class_known x m);
        })
    | inr short ↦
        let (n, m) = left_over_some out graph.order nodes_distinct t.distinct t.inside short in
        let (cycle, e, c) = find_cycle_total combined (left_over graph.order out) n m stuck in
        rw (short, finish) (rw e (known, c))
  ]
    where
      in_left :
          (x : ℕ)
          → contains (left_over graph.order out) x
            ≡ (contains graph.order x && not (contains out x))
      in_left x = contains-keep (λ y. not (contains out y)) graph.order x

      stuck :
          (x : ℕ)
          → contains (left_over graph.order out) x ≡ true
          → (d : ℕ) × (contains (combined x) d ≡ true)
            × (contains (left_over graph.order out) d ≡ true)
      stuck x m =
          let (d, e, absent) =
            t.left_out x (ground (arith, in_left x)) (ground (arith, in_left x)) in
          (d, e, ground (arith, in_left d, combined_closed x d e))

  order_known-Ends : Ends graph rules (order_known graph combined)
  unfolding order_known
  order_known-Ends =
      let (out, e, t) =
        kahn_total combined graph.order (dependents_of combined graph.order)
          (combine-IsDistinct graph.edges rules edges-IsDistinct) nodes_distinct
          (λ n.
            dependents_of_lem combined graph.order n
              (combine-IsDistinct graph.edges rules edges-IsDistinct)) in
      rw (e, order_known) (finish-Ends out t)

module _ (graph : DependencyGraph) (rules : List (List ℕ)) (nodes_distinct : IsDistinct graph.order)
    (edges-IsDistinct : (n : ℕ) → IsDistinct (graph.edges n))
    (closed : (n d : ℕ) → contains (graph.edges n) d ≡ true → contains graph.order d ≡ true) where
  rules_end :
      (names : List ℕ)
      → unknown graph.order rules ≡ names
      → Ends graph rules (elim names [
        | cls ∷ rest ↦ invalid_rule (dedup (cls ∷ rest))
        | [] ↦ order_known graph (combine graph.edges rules)
      ])
  rules_end [] e = order_known-Ends graph rules nodes_distinct edges-IsDistinct closed e
  rules_end (cls ∷ rest) e = (
    (λ none_named. cc),
    λ c.
        contains-dedup (cls ∷ rest) c
        ∙ ap (λ l. contains l c) (sym e)
        ∙ contains-keep (λ n. not (contains graph.order n)) (all_classes rules) c,
  )

-- topological_order_with_rules ends in one of three ways, for a map with distinct keys and any
-- rules. It returns an order with every node once, each behind its dependencies, and with the
-- classes of every rule in the order of the rule. Or it raises InvalidOrderRuleException, with the
-- classes of the rules that are no nodes, of which there is one. Or, where the classes are all
-- nodes, it raises OrderRuleCycleException with a cycle of the combined edges.
pub topological_order_with_rules-Ends :
    (resolved : ResolvedMap) (rules : List (List ℕ))
    → IsDistinct (keys resolved)
    → Ends (build resolved) rules (topological_order_with_rules (build resolved) rules)
unfolding topological_order_with_rules build
topological_order_with_rules-Ends resolved rules d =
    rules_end (build resolved) rules d (edges-IsDistinct resolved) (edges_closed resolved)
      (unknown (keys resolved) rules) refl
