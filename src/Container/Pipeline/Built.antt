-- ===== src/Container/Pipeline/Built.antt =====
-- core/container/__init__.py: what it means that build() returns, and what it refuses.
use xime_framework.Prelude.{
  ℕ, Bool, ◌≡◌, refl, false, true, some, List, [], ◌∷◌, contains, IsDistinct, All, ap, sym, ◌∙◌,
  subst,
}
use xime_framework.Container.Graph.{ResolvedMap, build, keys}
use xime_framework.Container.Graph.Cycles.Walks.{IsCycle}
use xime_framework.Container.Graph.Order.{
  detect_cycles_total, topological_order_total, topological_order_complete,
}
use xime_framework.Container.Graph.Rules.{
  OrderResult, ordered, invalid_rule, rule_cycle, topological_order_with_rules,
}
use xime_framework.Container.Graph.Rules.Outcome.{Ends, IsOrder, topological_order_with_rules-Ends}
use xime_framework.Container.Validator.{Result, valid, invalid, validate}
use xime_framework.Container.Validator.Verdict.{IsVerdict, validate-IsVerdict}
use xime_framework.Container.Pipeline.{
  Declared, all_classes, factory_provided, resolved_map, BuildResult, built, rejected,
  invalid_order, order_cycle, out_of_fuel, plain_order, ruled_order, order_of, build_container,
}
use xime_framework.Container.Pipeline.Keys.{resolved_map-IsDistinct}

both_ways : (p q : Bool) → (p ≡ true → q ≡ true) → (q ≡ true → p ≡ true) → p ≡ q
both_ways true q f g = sym (f refl)
both_ways false true f g = g refl
both_ways false false f g = refl

module _ (resolved : ResolvedMap) where
  no_cycles :
      (cycles : List (List ℕ))
      → All (IsCycle (build resolved).edges) cycles
      → ((c : List ℕ) → ¬ IsCycle (build resolved).edges c)
      → cycles ≡ []
  no_cycles [] h a = refl
  no_cycles (c ∷ rest) h a = absurd (a c h.0)

  -- The order of a graph without a cycle, or what is wrong with the rules.
  abbrev pub OrderEnds : List (List ℕ) → BuildResult → Type 0
  OrderEnds rules (built order) = IsOrder (build resolved).edges (build resolved).order rules order
  OrderEnds rules (rejected e) = ⊥
  OrderEnds rules (invalid_order names) = Ends (build resolved) rules (invalid_rule names)
  OrderEnds rules (order_cycle cycle) = Ends (build resolved) rules (rule_cycle cycle)
  OrderEnds rules out_of_fuel = ⊥

  ruled-OrderEnds :
      (rules : List (List ℕ)) (r : OrderResult)
      → Ends (build resolved) rules r
      → OrderEnds rules (ruled_order r)
  ruled-OrderEnds rules (ordered order) h = h
  ruled-OrderEnds rules (invalid_rule names) h = h
  ruled-OrderEnds rules (rule_cycle cycle) h = h
  ruled-OrderEnds rules OrderResult.out_of_fuel h = h

  order_of-OrderEnds :
      IsDistinct (keys resolved)
      → (rules : List (List ℕ)) → ((c : List ℕ) → ¬ IsCycle (build resolved).edges c)
      → OrderEnds rules (order_of (build resolved) rules)
  unfolding order_of build
  order_of-OrderEnds distinct (rule ∷ rules) a =
      ruled-OrderEnds (rule ∷ rules) (topological_order_with_rules (build resolved) (rule ∷ rules))
        (topological_order_with_rules-Ends resolved (rule ∷ rules) distinct)
  order_of-OrderEnds distinct [] a =
      let (out, e, t) = topological_order_total resolved distinct in
      let (cycles, ec, genuine, _) = detect_cycles_total resolved in
      let complete =
        topological_order_complete resolved out distinct (ec ∙ ap some (no_cycles cycles genuine a))
          e in
      subst (λ o. OrderEnds [] (plain_order o)) (sym e)
        (record {
          distinct = t.distinct;
          same = λ x.
              both_ways (contains out x) (contains (keys resolved) x) (t.inside x) (complete x);
          buildable = t.buildable;
          kept = tt;
        })

module _ (d : Declared) where
  -- The conditions that validate() checks, on what is declared.
  abbrev pub Verdict : Result → Type 0
  Verdict =
      IsVerdict d.facts (resolved_map d) d.validation_bindings (all_classes d) d.instances
        (factory_provided d)

  -- What build() ends with.
  abbrev pub BuildEnds : BuildResult → Type 0
  BuildEnds (rejected e) = Verdict (invalid e)
  BuildEnds (built order) = Verdict valid × OrderEnds (resolved_map d) d.order_rules (built order)
  BuildEnds (invalid_order names) =
      Verdict valid × OrderEnds (resolved_map d) d.order_rules (invalid_order names)
  BuildEnds (order_cycle cycle) =
      Verdict valid × OrderEnds (resolved_map d) d.order_rules (order_cycle cycle)
  BuildEnds out_of_fuel = ⊥

  order-BuildEnds :
      (r : BuildResult) → Verdict valid → OrderEnds (resolved_map d) d.order_rules r → BuildEnds r
  order-BuildEnds (rejected e) v h = absurd h
  order-BuildEnds (built order) v h = (v, h)
  order-BuildEnds (invalid_order names) v h = (v, h)
  order-BuildEnds (order_cycle cycle) v h = (v, h)
  order-BuildEnds out_of_fuel v h = absurd h

  -- Where the scanner returns no class twice, build() ends in one of four ways. It returns, with
  -- all conditions of validate() met and an order of exactly the classes of the resolved map, each
  -- once and behind its dependencies, that keeps the rules of order(). Or it raises the error of
  -- validate(), which names the condition that does not hold. Or, all conditions met, it names the
  -- classes of the rules that are unknown; or a cycle that the rules make.
  pub build_container-BuildEnds : IsDistinct d.scanned → BuildEnds (build_container d)
  unfolding build_container
  build_container-BuildEnds s =
      by_verdict
        (validate d.facts (resolved_map d) (build (resolved_map d)) d.validation_bindings
          (all_classes d) d.instances (factory_provided d))
        (validate-IsVerdict d.facts (resolved_map d) d.validation_bindings (all_classes d)
          d.instances (factory_provided d))
    where
      by_verdict :
          (r : Result)
          → Verdict r
          → BuildEnds (elim r as (λ _. BuildResult) [
            | valid ↦ order_of (build (resolved_map d)) d.order_rules
            | invalid e ↦ rejected e
            | Result.out_of_fuel ↦ out_of_fuel
          ])
      by_verdict valid v =
          order-BuildEnds (order_of (build (resolved_map d)) d.order_rules) v
            (order_of-OrderEnds (resolved_map d) (resolved_map-IsDistinct d s) d.order_rules v.0)
      by_verdict (invalid e) v = v
      by_verdict Result.out_of_fuel v = absurd v
