-- ===== src/Container/Validator/Verdict.antt =====
-- core/container/validator.py: what a verdict of validate() says of the application.
use xime_framework.Prelude.{
  ℕ, ◌≡◌, refl, Option, none, some, List, [], ◌∷◌, ◌++◌, All, ◌⊎◌, inl, inr, subst, sym,
}
use xime_framework.Container.Graph.{ResolvedMap, build}
use xime_framework.Container.Graph.Cycles.Walks.{IsCycle}
use xime_framework.Container.Graph.Order.{detect_cycles_total}
use xime_framework.Container.Validator.{
  ClassFacts, Bindings, ValidationError, circular_dependency, Result, valid, invalid, out_of_fuel,
  check_unresolved_protocols, check_bindings, check_missing_concrete_deps, cycle_error,
  after_cycles, result_of, validate,
}
use xime_framework.Container.Validator.Protocols.{
  Judged, BlamesProtocol, IsResolved, IsNeeded, Needs, check_unresolved_protocols-Judged,
}
use xime_framework.Container.Validator.Declared.{
  BlamesBinding, BlamesConcrete, Binds, IsBound, IsRegistered, check_bindings-Judged,
  check_missing_concrete_deps-Judged,
}

module _ (facts : ClassFacts) (resolved : ResolvedMap) (bindings : Bindings)
    (classes instances provided : List ℕ) where
  abbrev pub IsAcyclic : Type 0
  IsAcyclic = (cycle : List ℕ) → ¬ IsCycle (build resolved).edges cycle

  -- Every protocol that a class needs is an instance or is provided.
  abbrev pub AreResolved : Type 0
  AreResolved =
      All (λ entry. All (IsResolved facts classes (instances ++ provided)) entry.1) resolved

  -- Every implementation bound to a protocol has all its methods.
  abbrev pub AreBound : Type 0
  AreBound = All (IsBound facts) bindings

  -- Every other class that a class needs is scanned, an instance or provided.
  abbrev pub AreRegistered : Type 0
  AreRegistered =
      All (λ entry. All (IsRegistered facts (classes ++ instances ++ provided)) entry.1) resolved

  abbrev pub BlamesCycle : ValidationError → Type 0
  BlamesCycle (circular_dependency cycle) = IsCycle (build resolved).edges cycle
  BlamesCycle _ = ⊥

  -- The error of the first check that does not hold.
  abbrev pub Blames : ValidationError → Type 0
  Blames e =
      BlamesCycle e
      ⊎ IsAcyclic
        × (BlamesProtocol facts classes (instances ++ provided) (IsNeeded resolved) e
            ⊎ AreResolved
              × (BlamesBinding facts (Binds bindings) e
                  ⊎ AreBound
                    × BlamesConcrete facts (classes ++ instances ++ provided) (Needs resolved) e))

  abbrev pub IsVerdict : Result → Type 0
  IsVerdict valid = IsAcyclic × AreResolved × AreBound × AreRegistered
  IsVerdict (invalid e) = Blames e
  IsVerdict out_of_fuel = ⊥

  result_of-IsVerdict :
      (p b c : Option ValidationError)
      → IsAcyclic
      → Judged AreResolved
          (BlamesProtocol facts classes (instances ++ provided) (IsNeeded resolved))
          p
      → Judged AreBound (BlamesBinding facts (Binds bindings)) b
      → Judged AreRegistered
          (BlamesConcrete facts (classes ++ instances ++ provided) (Needs resolved))
          c
      → IsVerdict (
          result_of facts (elim p as (λ _. Option ValidationError) [
            | some e ↦ some e
            | none ↦ elim b [ some e ↦ some e | none ↦ c ]
          ]))
  result_of-IsVerdict (some e) b c a hp hb hc = inr (a, inl hp)
  result_of-IsVerdict none (some e) c a hp hb hc = inr (a, inr (hp, inl hb))
  result_of-IsVerdict none none (some e) a hp hb hc = inr (a, inr (hp, inr (hb, hc)))
  result_of-IsVerdict none none none a hp hb hc = (a, hp, hb, hc)

  cycles-IsVerdict :
      (cycles : List (List ℕ))
      → All (IsCycle (build resolved).edges) cycles
      → (cycles ≡ [] → IsAcyclic)
      → IsVerdict (elim (cycle_error facts cycles) as (λ _. Result) [
        | some e ↦ invalid e
        | none ↦ result_of facts (after_cycles facts resolved bindings classes instances provided)
      ])
  cycles-IsVerdict (cycle ∷ rest) h a = inl h.0
  cycles-IsVerdict [] h a =
      result_of-IsVerdict
        (check_unresolved_protocols facts classes (instances ++ provided) resolved)
        (check_bindings facts bindings)
        (check_missing_concrete_deps facts (classes ++ instances ++ provided) resolved) (a refl)
        (check_unresolved_protocols-Judged facts classes (instances ++ provided) resolved)
        (check_bindings-Judged facts bindings)
        (check_missing_concrete_deps-Judged facts (classes ++ instances ++ provided) resolved)

  -- validate() accepts an application only if no dependency is circular, every protocol needed is
  -- an instance or provided, every implementation bound to a protocol has its methods, and every
  -- other class needed is registered. Its error is that of the first of these checks that does not
  -- hold, and names what breaks it.
  pub validate-IsVerdict :
      IsVerdict (validate facts resolved (build resolved) bindings classes instances provided)
  unfolding validate
  validate-IsVerdict =
      let (cycles, e, genuine, acyclic) = detect_cycles_total resolved in
      subst
        (λ o. IsVerdict (elim o as (λ _. Result) [
          | none ↦ out_of_fuel
          | some found ↦ elim (cycle_error facts found) [
            | some err ↦ invalid err
            | none ↦
                result_of facts (after_cycles facts resolved bindings classes instances provided)
          ]
        ]))
        (sym e) (cycles-IsVerdict cycles genuine acyclic)
