-- ===== src/Container/Registry.antt =====
-- core/container/registry.py: the singletons, built on the first get() and cached.
-- A class, a parameter and a callable are numbers; a dict is a function to Option. The callables
-- are code of the application: `call n` says what the `n`-th call of the program returns for a callable
-- and its keyword arguments, `none` where it raises, so that two calls may return different objects;
-- `calls` counts them. The lock lets one thread build at a time, so a build is one step.
pub mod Cases
pub mod Cache
pub mod Total
pub mod Walk
use xime_framework.Prelude.{
  ℕ, zero, suc, ◌+◌, ◌≡◌, arith, Bool, true, false, Option, none, some, List, [], ◌∷◌, ◌||◌, ◌==◌,
  if◌then◌else◌, contains, without, is_some,
}
use xime_framework.Container.Graph.{ResolvedMap}

pub record DependencyRegistry {ℓ} (A : Type ℓ) : Type ℓ where
  pub instances : ℕ → Option A
  pub plan : ℕ → List (ℕ × ℕ)
  pub factory : ℕ → Option ℕ
  pub building : List ℕ
  pub calls : ℕ

abbrev pub create {ℓ} : {A : Type ℓ} → DependencyRegistry A
create = record {
  instances = λ _. none;
  plan = λ _. [];
  factory = λ _. none;
  building = [];
  calls = 0;
}

-- `d[key] = value`
abbrev pub put {ℓ} : {B : Type ℓ} → ℕ → B → (ℕ → B) → ℕ → B
put key value d k = if key == k then value else d k

pub put_self {ℓ} : {B : Type ℓ} (key : ℕ) (value : B) (d : ℕ → B) → put key value d key ≡ value
put_self key value d = ground arith

pub put_other {ℓ} :
    {B : Type ℓ} (key k : ℕ) (value : B) (d : ℕ → B) → (key == k) ≡ false → put key value d k ≡ d k
put_other key k value d e = ground (arith, e)

-- `self._instances.update(instances)`
abbrev pub update {ℓ} : {A : Type ℓ} → (ℕ → Option A) → (ℕ → Option A) → ℕ → Option A
update new old k = elim (new k) [ none ↦ old k | some a ↦ some a ]

-- `factory_map.get(cls, cls)`
abbrev pub factory_for : (ℕ → Option ℕ) → ℕ → ℕ
factory_for factory_map cls = elim (factory_map cls) [ none ↦ cls | some f ↦ f ]

module _ {ℓ} {A : Type ℓ} where
  unfoldable pub plan_each :
      ResolvedMap → (ℕ → Option ℕ) → DependencyRegistry A → DependencyRegistry A
  plan_each [] factory_map reg = reg
  plan_each ((cls, deps) ∷ rest) factory_map reg = plan_each rest factory_map (
      if is_some (reg.instances cls) then reg else record reg {
        plan = put cls deps reg.plan;
        factory = put cls (some (factory_for factory_map cls)) reg.factory;
      })

  unfoldable pub register :
      ResolvedMap → (ℕ → Option A) → (ℕ → Option ℕ) → DependencyRegistry A → DependencyRegistry A
  unfolding plan_each
  register resolved instances factory_map reg =
      plan_each resolved factory_map (record reg { instances = update instances reg.instances })

-- What an attempt to build ends with.
pub data Failure : Type 0 where
  raised circular not_registered : ℕ → Failure
  out_of_fuel : Failure

pub data Outcome {ℓ} (B : Type ℓ) : Type ℓ where
  made : B → Outcome B
  failed : Failure → Outcome B

module _ {ℓ} {A : Type ℓ} where
  -- `if dep_type in self._factory or dep_type in self._instances`
  abbrev pub known : DependencyRegistry A → ℕ → Bool
  known reg dep = is_some (reg.factory dep) || is_some (reg.instances dep)

  abbrev pub with_arg :
      ℕ
      → A
      → Outcome (List (ℕ × A)) × DependencyRegistry A
      → Outcome (List (ℕ × A)) × DependencyRegistry A
  with_arg param a (made args, reg) = (made ((param, a) ∷ args), reg)
  with_arg param a (failed e, reg) = (failed e, reg)

  abbrev pub next_arg :
      ℕ
      → Outcome A × DependencyRegistry A
      → (DependencyRegistry A → Outcome (List (ℕ × A)) × DependencyRegistry A)
      → Outcome (List (ℕ × A)) × DependencyRegistry A
  next_arg param (made a, reg) more = with_arg param a (more reg)
  next_arg param (failed e, reg) more = (failed e, reg)

  -- The keyword arguments, from left to right, with `build` for the recursive call.
  unfoldable pub collect :
      (DependencyRegistry A → ℕ → Outcome A × DependencyRegistry A)
      → List (ℕ × ℕ)
      → DependencyRegistry A
      → Outcome (List (ℕ × A)) × DependencyRegistry A
  collect build [] reg = (made [], reg)
  collect build ((param, dep) ∷ rest) reg = elim (known reg dep) [
    | false ↦ collect build rest reg
    | true ↦ next_arg param (build reg dep) (collect build rest)
  ]

  -- The `finally` that takes the class out of `_building`.
  abbrev pub leave : ℕ → DependencyRegistry A → DependencyRegistry A
  leave cls reg = record reg { building = without cls reg.building }

module _ {ℓ} {A : Type ℓ} (call : ℕ → ℕ → List (ℕ × A) → Option A) where
  -- The callable of the class with its arguments, and the cache.
  abbrev pub call_factory :
      ℕ → Option ℕ → List (ℕ × A) → DependencyRegistry A → Outcome A × DependencyRegistry A
  call_factory cls none args reg = (failed (not_registered cls), reg)
  call_factory cls (some f) args reg = elim (call reg.calls f args) [
    | none ↦ (failed (raised cls), record reg { calls = reg.calls + 1 })
    | some a ↦
        (made a, record reg { instances = put cls (some a) reg.instances; calls = reg.calls + 1 })
  ]

  unfoldable pub construct :
      ℕ → Outcome (List (ℕ × A)) × DependencyRegistry A → Outcome A × DependencyRegistry A
  construct cls (made args, reg) =
      let (outcome, reg') = call_factory cls (reg.factory cls) args reg in (outcome, leave cls reg')
  construct cls (failed e, reg) = (failed e, leave cls reg)

  -- _instantiate, on fuel.
  unfoldable pub instantiate : ℕ → DependencyRegistry A → ℕ → Outcome A × DependencyRegistry A
  unfolding collect construct
  instantiate zero reg cls = (failed out_of_fuel, reg)
  instantiate (suc fuel) reg cls = elim (reg.instances cls) [
    | some a ↦ (made a, reg)
    | none ↦ elim (contains reg.building cls) [
      | true ↦ (failed (circular cls), reg)
      | false ↦
          construct cls (
            collect (instantiate fuel) (reg.plan cls)
              (record reg { building = cls ∷ reg.building }))
    ]
  ]

  unfoldable pub get : ℕ → DependencyRegistry A → ℕ → Outcome A × DependencyRegistry A
  unfolding instantiate
  get fuel reg cls = elim (reg.instances cls) [
    | some a ↦ (made a, reg)
    | none ↦ elim (is_some (reg.factory cls)) [
      | true ↦ instantiate fuel reg cls
      | false ↦ (failed (not_registered cls), reg)
    ]
  ]

  -- The walk of XimeContainer.get_all_in_order, each instance with its class.
  unfoldable pub get_all :
      ℕ → List ℕ → DependencyRegistry A → Outcome (List (ℕ × A)) × DependencyRegistry A
  unfolding get
  get_all fuel [] reg = (made [], reg)
  get_all fuel (cls ∷ rest) reg = next_arg cls (get fuel reg cls) (get_all fuel rest)
