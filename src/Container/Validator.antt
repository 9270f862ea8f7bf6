-- ===== src/Container/Validator.antt =====
-- core/container/validator.py: the checks on the graph and the bindings, the first error raised.
-- What Python's reflection says of a class (is_protocol, get_protocol_methods, callable(getattr))
-- is a table of facts. The names in messages, their order and the hints are not modelled.
pub mod Protocols
pub mod Declared
pub mod Verdict
use xime_framework.Prelude.{
  ℕ, Bool, true, false, not, ◌&&◌, Option, none, some, List, [], ◌∷◌, ◌++◌, if◌then◌else◌, keep,
  contains,
}
use xime_framework.Container.Graph.{DependencyGraph, ResolvedMap}
use xime_framework.Container.Graph.Cycles.{detect_cycles}

pub record ClassFacts : Type 0 where
  pub is_protocol : ℕ → Bool
  pub protocol_methods : ℕ → List ℕ
  pub has_method : ℕ → ℕ → Bool

-- Bindings in order: an interface with its implementations, one or a tuple.
abbrev pub Bindings : Type 0
Bindings = List (ℕ × List ℕ)

pub data ValidationError : Type 0 where
  circular_dependency : List ℕ → ValidationError
  missing_implementation : ℕ → ValidationError
  missing_binding : ℕ → ℕ → ValidationError
  multiple_implementation : ℕ → List ℕ → ValidationError
  invalid_binding : ℕ → ℕ → List ℕ → ValidationError
  unregistered_dependency : ℕ → ℕ → ValidationError

pub data Result : Type 0 where
  valid : Result
  invalid : ValidationError → Result
  out_of_fuel : Result

abbrev pub all_of : (ℕ → Bool) → List ℕ → Bool
all_of p [] = true
all_of p (x ∷ xs) = p x && all_of p xs

module _ (facts : ClassFacts) where
  -- _satisfies
  abbrev pub satisfies : ℕ → List ℕ → Bool
  satisfies cls required = all_of (facts.has_method cls) required

  unfoldable pub find_candidates : ℕ → List ℕ → List ℕ
  find_candidates protocol classes =
      keep (λ cls. not (facts.is_protocol cls) && satisfies cls (facts.protocol_methods protocol))
        classes

  abbrev pub unresolved_error : ℕ → List ℕ → ValidationError
  unresolved_error protocol [] = missing_implementation protocol
  unresolved_error protocol (cls ∷ []) = missing_binding protocol cls
  unresolved_error protocol (cls ∷ other ∷ rest) =
      multiple_implementation protocol (cls ∷ other ∷ rest)

  -- The parameters of one class. `already_reported` is never added to without a raise, so no
  -- dependency is skipped for it.
  unfoldable pub check_protocols_of : List ℕ → List ℕ → List (ℕ × ℕ) → Option ValidationError
  unfolding find_candidates
  check_protocols_of classes pre_built [] = none
  check_protocols_of classes pre_built ((param, dep) ∷ rest) =
      if facts.is_protocol dep && not (contains pre_built dep)
      then some (unresolved_error dep (find_candidates dep classes))
      else check_protocols_of classes pre_built rest

  unfoldable pub check_unresolved_protocols : List ℕ → List ℕ → ResolvedMap → Option ValidationError
  unfolding check_protocols_of
  check_unresolved_protocols classes pre_built [] = none
  check_unresolved_protocols classes pre_built ((cls, deps) ∷ rest) =
      elim (check_protocols_of classes pre_built deps) [
        | some e ↦ some e
        | none ↦ check_unresolved_protocols classes pre_built rest
      ]

  abbrev pub missing_methods : ℕ → ℕ → List ℕ
  missing_methods interface implementation =
      keep (λ m. not (facts.has_method implementation m)) (facts.protocol_methods interface)

  abbrev pub binding_error : ℕ → ℕ → List ℕ → Option ValidationError
  binding_error interface implementation [] = none
  binding_error interface implementation (m ∷ ms) =
      some (invalid_binding interface implementation (m ∷ ms))

  unfoldable pub check_implementations : ℕ → List ℕ → Option ValidationError
  check_implementations interface [] = none
  check_implementations interface (implementation ∷ rest) =
      elim (binding_error interface implementation (missing_methods interface implementation)) [
        | some e ↦ some e
        | none ↦ check_implementations interface rest
      ]

  unfoldable pub check_bindings : Bindings → Option ValidationError
  unfolding check_implementations
  check_bindings [] = none
  check_bindings ((interface, implementations) ∷ rest) =
      elim (if facts.is_protocol interface
          then check_implementations interface implementations
          else none)
        as (λ _. Option ValidationError) [ some e ↦ some e | none ↦ check_bindings rest ]

  unfoldable pub check_concrete_of : List ℕ → ℕ → List (ℕ × ℕ) → Option ValidationError
  check_concrete_of registered cls [] = none
  check_concrete_of registered cls ((param, dep) ∷ rest) =
      if not (facts.is_protocol dep) && not (contains registered dep)
      then some (unregistered_dependency cls dep)
      else check_concrete_of registered cls rest

  unfoldable pub check_missing_concrete_deps : List ℕ → ResolvedMap → Option ValidationError
  unfolding check_concrete_of
  check_missing_concrete_deps registered [] = none
  check_missing_concrete_deps registered ((cls, deps) ∷ rest) =
      elim (check_concrete_of registered cls deps) [
        | some e ↦ some e
        | none ↦ check_missing_concrete_deps registered rest
      ]

  -- The first cycle found is the error.
  abbrev pub cycle_error : List (List ℕ) → Option ValidationError
  cycle_error [] = none
  cycle_error (cycle ∷ _) = some (circular_dependency cycle)

  abbrev pub after_cycles :
      ResolvedMap → Bindings → List ℕ → List ℕ → List ℕ → Option ValidationError
  after_cycles resolved bindings classes instances provided =
      elim (check_unresolved_protocols classes (instances ++ provided) resolved) [
        | some e ↦ some e
        | none ↦ elim (check_bindings bindings) [
          | some e ↦ some e
          | none ↦ check_missing_concrete_deps (classes ++ instances ++ provided) resolved
        ]
      ]

  abbrev pub result_of : Option ValidationError → Result
  result_of none = valid
  result_of (some e) = invalid e

  unfoldable pub validate :
      ResolvedMap → DependencyGraph → Bindings → List ℕ → List ℕ → List ℕ → Result
  unfolding check_unresolved_protocols check_bindings check_missing_concrete_deps detect_cycles
  validate resolved graph bindings classes instances provided = elim (detect_cycles graph) [
    | none ↦ out_of_fuel
    | some cycles ↦ elim (cycle_error cycles) [
      | some e ↦ invalid e
      | none ↦ result_of (after_cycles resolved bindings classes instances provided)
    ]
  ]
