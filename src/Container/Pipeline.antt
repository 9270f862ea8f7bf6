-- ===== src/Container/Pipeline.antt =====
-- core/container/__init__.py and core/container/resolver.py: from the scanned classes to a checked
-- build plan and its order. What the signature of a constructor says (the types of its parameters
-- and which of them have a default) is a table; the scanner and the reader of config classes give
-- the scanned classes and the factory entries.
pub mod Keys
pub mod Built
use xime_framework.Prelude.{
  ℕ, Bool, true, false, not, ◌&&◌, Option, none, some, List, [], ◌∷◌, ◌++◌, map, ◌==◌,
  if◌then◌else◌, keep, contains,
}
use xime_framework.Container.Graph.{DependencyGraph, ResolvedMap, build, topological_order}
use xime_framework.Container.Graph.Rules.{
  OrderResult, ordered, invalid_rule, rule_cycle, topological_order_with_rules,
}
use xime_framework.Container.Switcher.{find}
use xime_framework.Container.Validator.{
  ClassFacts, Bindings, ValidationError, Result, valid, invalid, validate,
}

-- The parameters of a constructor or of a factory method.
abbrev pub ClassDeps : Type 0
ClassDeps = List (ℕ × ℕ)

pub record Signatures : Type 0 where
  pub hints : ℕ → ClassDeps
  pub defaults : ℕ → List ℕ

-- A provided type, its parameters, and those of them that have a default.
pub record FactoryEntry : Type 0 where
  pub provided_type : ℕ
  pub dependencies : ClassDeps
  pub defaults : List ℕ

module _ (facts : ClassFacts) (bindings : List (ℕ × ℕ)) where
  -- A protocol with a binding is replaced by its implementation.
  unfoldable pub resolve_one : ℕ → ℕ
  resolve_one type_ =
      if facts.is_protocol type_
      then elim (find bindings type_) [ none ↦ type_ | some implementation ↦ implementation ]
      else type_

  -- _resolve_hints, and _resolve_factory_deps, which does the same
  unfoldable pub resolve_hints : ClassDeps → ClassDeps
  unfolding resolve_one
  resolve_hints deps = map (λ (d : ℕ × ℕ). (d.0, resolve_one d.1)) deps

  unfoldable pub resolve : Signatures → List ℕ → ResolvedMap
  unfolding resolve_hints
  resolve signatures [] = []
  resolve signatures (cls ∷ rest) =
      (cls, resolve_hints (signatures.hints cls)) ∷ resolve signatures rest

  -- `d[key] = value`, which keeps the place of a key that is there.
  unfoldable pub set_item : ℕ → ClassDeps → ResolvedMap → ResolvedMap
  set_item key deps [] = (key, deps) ∷ []
  set_item key deps ((k, old) ∷ rest) =
      if k == key then (k, deps) ∷ rest else (k, old) ∷ set_item key deps rest

  unfoldable pub add_factories : List FactoryEntry → ResolvedMap → ResolvedMap
  unfolding set_item resolve_hints
  add_factories [] resolved = resolved
  add_factories (entry ∷ rest) resolved =
      add_factories rest (set_item entry.provided_type (resolve_hints entry.dependencies) resolved)

-- _merge_unique: the classes of `extra` that are not there yet, one after the other.
unfoldable pub merge_unique : List ℕ → List ℕ → List ℕ
merge_unique base [] = base
merge_unique base (cls ∷ extra) =
    merge_unique (if contains base cls then base else base ++ cls ∷ []) extra

-- The parameters with a default of the callable that builds a class: a factory method, the last
-- declared one, or the constructor.
abbrev pub optional_of : Signatures → List FactoryEntry → ℕ → List ℕ
optional_of signatures [] cls = signatures.defaults cls
optional_of signatures (entry ∷ rest) cls =
    if entry.provided_type == cls
      && not (contains (map (λ (e : FactoryEntry). e.provided_type) rest) cls)
    then entry.defaults
    else optional_of signatures rest cls

abbrev pub supplied : List ℕ → List ℕ → ClassDeps → ClassDeps
supplied optional available [] = []
supplied optional available ((param, dep) ∷ rest) =
    if contains optional param && not (contains available dep)
    then supplied optional available rest
    else (param, dep) ∷ supplied optional available rest

-- _drop_unsatisfiable_optional_deps
unfoldable pub drop_optional : Signatures → List FactoryEntry → List ℕ → ResolvedMap → ResolvedMap
drop_optional signatures entries available [] = []
drop_optional signatures entries available ((cls, deps) ∷ rest) =
    (cls, supplied (optional_of signatures entries cls) available deps)
    ∷ drop_optional signatures entries available rest

-- What is declared to the container before build(), with the bindings as _prepare_dynamic_binding
-- returns them.
pub record Declared : Type 0 where
  pub facts : ClassFacts
  pub signatures : Signatures
  pub scanned : List ℕ
  pub explicit_classes : List ℕ
  pub factory_entries : List FactoryEntry
  pub instances : List ℕ
  pub resolver_bindings : List (ℕ × ℕ)
  pub validation_bindings : Bindings
  pub order_rules : List (List ℕ)

abbrev pub all_classes : Declared → List ℕ
all_classes d = merge_unique d.scanned d.explicit_classes

abbrev pub factory_provided : Declared → List ℕ
factory_provided d = map (λ (e : FactoryEntry). e.provided_type) d.factory_entries

-- Steps 3 to 4b of build()
unfoldable pub resolved_map : Declared → ResolvedMap
unfolding drop_optional add_factories resolve merge_unique
resolved_map d =
    drop_optional d.signatures d.factory_entries
      (all_classes d ++ d.instances ++ factory_provided d)
      (add_factories d.facts d.resolver_bindings d.factory_entries
        (resolve d.facts d.resolver_bindings d.signatures (all_classes d)))

pub data BuildResult : Type 0 where
  built : List ℕ → BuildResult
  rejected : ValidationError → BuildResult
  invalid_order : List ℕ → BuildResult
  order_cycle : List ℕ → BuildResult
  out_of_fuel : BuildResult

abbrev pub plain_order : Option (List ℕ) → BuildResult
plain_order none = out_of_fuel
plain_order (some order) = built order

abbrev pub ruled_order : OrderResult → BuildResult
ruled_order (ordered order) = built order
ruled_order (invalid_rule names) = invalid_order names
ruled_order (rule_cycle cycle) = order_cycle cycle
ruled_order OrderResult.out_of_fuel = out_of_fuel

unfoldable pub order_of : DependencyGraph → List (List ℕ) → BuildResult
unfolding topological_order topological_order_with_rules
order_of graph [] = plain_order (topological_order graph)
order_of graph (rule ∷ rules) = ruled_order (topological_order_with_rules graph (rule ∷ rules))

-- build(), up to the registration of the plan: the order, or the first error.
unfoldable pub build_container : Declared → BuildResult
unfolding resolved_map order_of validate
build_container d =
    let resolved = resolved_map d in
    elim (validate d.facts resolved (build resolved) d.validation_bindings (all_classes d)
      d.instances (factory_provided d)) [
        | valid ↦ order_of (build resolved) d.order_rules
        | invalid e ↦ rejected e
        | Result.out_of_fuel ↦ out_of_fuel
      ]
