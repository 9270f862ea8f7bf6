-- ===== src/Container/Registry/Cases.antt =====
-- core/container/registry.py: _instantiate and get() by their branches.
use xime_framework.Prelude.{
  ℕ, suc, ◌≡◌, refl, Bool, true, false, Option, none, some, List, ◌∷◌, contains, is_some,
}
use xime_framework.Container.Registry.{
  DependencyRegistry, Outcome, made, failed, circular, not_registered, collect, construct,
  instantiate, get,
}

module _ {ℓ} {A : Type ℓ} (call : ℕ → ℕ → List (ℕ × A) → Option A) where
  -- A property of an attempt to build, case by case.
  pub instantiate_cases {κ} :
      (P : Outcome A × DependencyRegistry A → Type κ) (fuel : ℕ) (reg : DependencyRegistry A)
      (cls : ℕ)
      → ((a : A) → reg.instances cls ≡ some a → P (made a, reg))
      → (reg.instances cls ≡ none
          → contains reg.building cls ≡ true
          → P (failed (circular cls), reg))
      → (reg.instances cls ≡ none
          → contains reg.building cls ≡ false
          → P (
              construct call cls (
                collect
                  (instantiate call fuel)
                  (reg.plan cls)
                  (record reg { building = cls ∷ reg.building }))))
      → P (instantiate call (suc fuel) reg cls)
  unfolding instantiate
  instantiate_cases P fuel reg cls cached circle fresh = by_cache (reg.instances cls) refl
    where
      by_mark :
          (b : Bool)
          → reg.instances cls ≡ none
          → contains reg.building cls ≡ b
          → P (elim b as (λ _. Outcome A × DependencyRegistry A) [
            | true ↦ (failed (circular cls), reg)
            | false ↦ construct call cls (
                collect
                  (instantiate call fuel)
                  (reg.plan cls)
                  (record reg { building = cls ∷ reg.building }))
          ])
      by_mark true e i = circle e i
      by_mark false e i = fresh e i

      by_cache :
          (o : Option A)
          → reg.instances cls ≡ o
          → P (elim o as (λ _. Outcome A × DependencyRegistry A) [
            | some a ↦ (made a, reg)
            | none ↦ elim (contains reg.building cls) [
              | true ↦ (failed (circular cls), reg)
              | false ↦ construct call cls (
                  collect
                    (instantiate call fuel)
                    (reg.plan cls)
                    (record reg { building = cls ∷ reg.building }))
            ]
          ])
      by_cache (some a) e = cached a e
      by_cache none e = by_mark (contains reg.building cls) e refl

  pub get_cases {κ} :
      (P : Outcome A × DependencyRegistry A → Type κ) (fuel : ℕ) (reg : DependencyRegistry A)
      (cls : ℕ)
      → ((a : A) → reg.instances cls ≡ some a → P (made a, reg))
      → (reg.instances cls ≡ none
          → is_some (reg.factory cls) ≡ false
          → P (failed (not_registered cls), reg))
      → (reg.instances cls ≡ none
          → is_some (reg.factory cls) ≡ true
          → P (instantiate call fuel reg cls))
      → P (get call fuel reg cls)
  unfolding get
  get_cases P fuel reg cls cached unknown fresh = by_cache (reg.instances cls) refl
    where
      by_factory :
          (b : Bool)
          → reg.instances cls ≡ none
          → is_some (reg.factory cls) ≡ b
          → P (elim b as (λ _. Outcome A × DependencyRegistry A) [
            | true ↦ instantiate call fuel reg cls
            | false ↦ (failed (not_registered cls), reg)
          ])
      by_factory true n e = fresh n e
      by_factory false n e = unknown n e

      by_cache :
          (o : Option A)
          → reg.instances cls ≡ o
          → P (elim o as (λ _. Outcome A × DependencyRegistry A) [
            | some a ↦ (made a, reg)
            | none ↦ elim (is_some (reg.factory cls)) [
              | true ↦ instantiate call fuel reg cls
              | false ↦ (failed (not_registered cls), reg)
            ]
          ])
      by_cache (some a) e = cached a e
      by_cache none e = by_factory (is_some (reg.factory cls)) e refl
