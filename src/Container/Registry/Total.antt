-- ===== src/Container/Registry/Total.antt =====
-- core/container/registry.py: in an order of the dependencies, get() fails only where the callable
-- of a class raises.
use xime_framework.Prelude.{
  ℕ, zero, suc, ◌+◌, ◌≡◌, ◌≤◌, ◌<◌, refl, Bool, true, false, ◌||◌, Option, none, some, List, [],
  ◌∷◌, arith, ap, sym, ◌∙◌, ◌==◌, contains, is_some, subst, All, Bool-cases, ◌⊎◌, inl, inr,
}
use xime_framework.Container.Registry.{
  DependencyRegistry, Outcome, Failure, made, failed, raised, known, with_arg, next_arg, collect,
  put, call_factory, construct, instantiate, get,
}
use xime_framework.Container.Registry.Cases.{instantiate_cases, get_cases}
use xime_framework.Container.Registry.Cache.{Extends, instantiate-Extends, collect-Extends}

module _ {A : Type 0} (call : ℕ → ℕ → List (ℕ × A) → Option A) where
  -- A result, or the failure of a class whose callable raises for some arguments.
  abbrev pub IsCause : (ℕ → Option ℕ) → Failure → Type 0
  IsCause factory (raised c) =
      (f : ℕ) × (args : List (ℕ × A)) × (n : ℕ) × (factory c ≡ some f) × (call n f args ≡ none)
  IsCause factory _ = ⊥

  abbrev pub Fine : {B : Type 0} → (ℕ → Option ℕ) → Outcome B → Type 0
  Fine factory (made b) = Unit
  Fine factory (failed e) = IsCause factory e

  with_arg-Fine :
      (factory : ℕ → Option ℕ) (param : ℕ) (a : A)
      (r : Outcome (List (ℕ × A)) × DependencyRegistry A)
      → Fine factory r.0
      → Fine factory (with_arg param a r).0
  with_arg-Fine factory param a (made args, reg) h = tt
  with_arg-Fine factory param a (failed e, reg) h = h

  next_arg-Fine :
      (factory : ℕ → Option ℕ) (param : ℕ) (r : Outcome A × DependencyRegistry A)
      (more : DependencyRegistry A → Outcome (List (ℕ × A)) × DependencyRegistry A)
      → Fine factory r.0
      → ((a : A) → r.0 ≡ made a → Fine factory (more r.1).0)
      → Fine factory (next_arg param r more).0
  next_arg-Fine factory param (made a, reg) more h m =
      with_arg-Fine factory param a (more reg) (m a refl)
  next_arg-Fine factory param (failed e, reg) more h m = h

  call_factory-Fine :
      (cls : ℕ) (f : Option ℕ) (args : List (ℕ × A)) (reg : DependencyRegistry A)
      → is_some f ≡ true
      → reg.factory cls ≡ f
      → Fine reg.factory (call_factory call cls f args reg).0
  call_factory-Fine cls none args reg s e = absurd (cc)
  call_factory-Fine cls (some f) args reg s e = by_call (call reg.calls f args) refl
    where
      by_call :
          (r : Option A)
          → call reg.calls f args ≡ r
          → Fine reg.factory
              (elim r as (λ _. Outcome A × DependencyRegistry A) [
                | none ↦ (failed (raised cls), record reg { calls = reg.calls + 1 })
                | some a ↦ (
                  made a,
                  record reg { instances = put cls (some a) reg.instances; calls = reg.calls + 1 },
                )
              ]).0
      by_call none k = (f, args, reg.calls, e, k)
      by_call (some a) k = tt

  construct-Fine :
      (cls : ℕ) (factory : ℕ → Option ℕ) (r : Outcome (List (ℕ × A)) × DependencyRegistry A)
      → is_some (factory cls) ≡ true
      → r.1.factory ≡ factory
      → Fine factory r.0
      → Fine factory (construct call cls r).0
  unfolding construct
  construct-Fine cls factory (made args, reg) s e h =
      subst (λ g. Fine g (call_factory call cls (reg.factory cls) args reg).0) e
        (call_factory-Fine cls (reg.factory cls) args reg (ap (λ g. is_some (g cls)) e ∙ s) refl)
  construct-Fine cls factory (failed f, reg) s e h = h

  -- The plan and the callables of a registry, where every dependency that is built comes before
  -- its class in a rank; the place in a topological order is one.
  module _ (plan : ℕ → List (ℕ × ℕ)) (factory : ℕ → Option ℕ) (rank : ℕ → ℕ) where
    abbrev pub IsRanked : Type 0
    IsRanked =
        (cls : ℕ)
        → All (λ (dep : ℕ × ℕ). is_some (factory dep.1) ≡ true → rank dep.1 < rank cls) (plan cls)

    record Has (reg : DependencyRegistry A) : Type 0 where
      same_plan : reg.plan ≡ plan
      same_factory : reg.factory ≡ factory

    later-Has : (reg reg' : DependencyRegistry A) → Extends reg reg' → Has reg → Has reg'
    later-Has reg reg' x h = record {
      same_plan = x.plan ∙ h.same_plan;
      same_factory = x.factory ∙ h.same_factory;
    }

    -- The class is cached, or it can be built with this fuel and is before all that are being built.
    abbrev Ready : ℕ → DependencyRegistry A → ℕ → Type 0
    Ready fuel reg cls =
        (is_some (reg.instances cls) ≡ true) × (1 ≤ fuel)
        ⊎ (is_some (factory cls) ≡ true)
          × (suc (rank cls) < fuel)
          × ((k : ℕ) → contains reg.building k ≡ true → rank cls < rank k)

    abbrev Builds : ℕ → Type 0
    Builds fuel =
        (reg : DependencyRegistry A) (cls : ℕ)
        → Has reg
        → Ready fuel reg cls
        → Fine factory (instantiate call fuel reg cls).0

    module _ (fuel top : ℕ) (build : Builds fuel) (enough : rank top < fuel) where
      dep-Ready :
          (reg : DependencyRegistry A) (dep : ℕ)
          → Has reg
          → known reg dep ≡ true
          → (is_some (factory dep) ≡ true → rank dep < rank top)
          → ((k : ℕ) → contains reg.building k ≡ true → rank top ≤ rank k)
          → Ready fuel reg dep
      dep-Ready reg dep h k lower above = elim (Bool-cases (is_some (reg.instances dep))) [
        | inl e ↦ inl (e, omega (arith, enough))
        | inr e ↦
            let f =
              ap (λ g. is_some (g dep)) (sym h.same_factory)
              ∙ by_factory (is_some (reg.factory dep)) (is_some (reg.instances dep)) k e in
            inr (f, omega (arith, lower f, enough), λ j m. omega (arith, lower f, above j m))
      ]
        where
          by_factory : (a b : Bool) → (a || b) ≡ true → b ≡ false → a ≡ true
          by_factory a b p q = ground arith

      collect-Fine :
          (deps : List (ℕ × ℕ)) (reg : DependencyRegistry A)
          → Has reg
          → All (λ (dep : ℕ × ℕ). is_some (factory dep.1) ≡ true → rank dep.1 < rank top) deps
          → ((k : ℕ) → contains reg.building k ≡ true → rank top ≤ rank k)
          → Fine factory (collect (instantiate call fuel) deps reg).0
      unfolding collect
      collect-Fine [] reg h lower above = tt
      collect-Fine ((param, dep) ∷ rest) reg h lower above =
          by_test (known reg dep) refl (λ s hs ab. collect-Fine rest s hs lower.1 ab)
        where
          by_test :
              (b : Bool)
              → known reg dep ≡ b
              → ((s : DependencyRegistry A)
                  → Has s
                  → ((k : ℕ) → contains s.building k ≡ true → rank top ≤ rank k)
                  → Fine factory (collect (instantiate call fuel) rest s).0)
              → Fine factory
                  (elim b as (λ _. Outcome (List (ℕ × A)) × DependencyRegistry A) [
                    | false ↦ collect (instantiate call fuel) rest reg
                    | true ↦
                        next_arg param
                          (instantiate call fuel reg dep)
                          (collect (instantiate call fuel) rest)
                  ]).0
          by_test false e more = more reg h above
          by_test true e more =
              let x = instantiate-Extends call fuel reg dep in
              next_arg-Fine factory param (instantiate call fuel reg dep)
                (collect (instantiate call fuel) rest)
                (build reg dep h (dep-Ready reg dep h e lower.0 above))
                (λ a f.
                  more _ (later-Has reg _ x h)
                    (λ k m. above k (ap (λ l. contains l k) (sym x.building) ∙ m)))

    above_marked :
        (building : List ℕ) (cls : ℕ)
        → ((k : ℕ) → contains building k ≡ true → rank cls < rank k)
        → (k : ℕ) → contains (cls ∷ building) k ≡ true
        → rank cls ≤ rank k
    above_marked building cls above k m = elim (Bool-cases (cls == k)) [
      | inl e ↦ omega (arith, ap rank (same cls k e))
      | inr e ↦ omega (arith, above k (ground arith))
    ]
      where
        same : (a b : ℕ) → (a == b) ≡ true → a ≡ b
        same a b e = ground arith

    module _ (ranked : IsRanked) where
      instantiate-Fine : (fuel : ℕ) → Builds fuel
      unfolding instantiate
      instantiate-Fine zero reg cls h (inl (_, z)) = absurd (omega (arith, z))
      instantiate-Fine zero reg cls h (inr (_, z, _)) = absurd (omega (arith, z))
      instantiate-Fine (suc fuel) reg cls h (inl (c, z)) =
          instantiate_cases call (λ r. Fine factory r.0) fuel reg cls (λ a e. tt)
            (λ e i. absurd (cc)) (λ e i. absurd (cc))
      instantiate-Fine (suc fuel) reg cls h (inr (s, z, above)) =
          instantiate_cases call (λ r. Fine factory r.0) fuel reg cls (λ a e. tt)
            (λ e i. absurd (omega (arith, above cls i)))
            (λ e i.
              let marked : DependencyRegistry A = record reg { building = cls ∷ reg.building } in
              let x =
                collect-Extends (instantiate call fuel) (instantiate-Extends call fuel)
                  (reg.plan cls) marked in
              construct-Fine cls factory (collect (instantiate call fuel) (reg.plan cls) marked) s
                (x.factory ∙ h.same_factory)
                (collect-Fine fuel cls (instantiate-Fine fuel) (omega (arith, z)) (reg.plan cls)
                  marked (record { same_plan = h.same_plan; same_factory = h.same_factory })
                  (subst
                    (λ (p : ℕ → List (ℕ × ℕ)).
                      All (λ (dep : ℕ × ℕ). is_some (factory dep.1) ≡ true → rank dep.1 < rank cls)
                        (p cls))
                    (sym h.same_plan) (ranked cls))
                  (above_marked reg.building cls above)))

      -- Where nothing is being built and the dependencies are ranked, get() of a registered class
      -- returns an instance, with fuel above its rank, or it fails as the callable of some class
      -- raises; it reports no circular dependency and no class without a provider.
      pub get-Fine :
          (fuel : ℕ) (reg : DependencyRegistry A) (cls : ℕ)
          → reg.plan ≡ plan
          → reg.factory ≡ factory
          → reg.building ≡ []
          → is_some (factory cls) ≡ true
          → suc (rank cls) < fuel
          → Fine factory (get call fuel reg cls).0
      get-Fine fuel reg cls p f b s z =
          get_cases call (λ r. Fine factory r.0) fuel reg cls (λ a e. tt)
            (λ n u. absurd (false_true (sym u ∙ ap (λ g. is_some (g cls)) f ∙ s)))
            (λ n u.
              instantiate-Fine fuel reg cls (record { same_plan = p; same_factory = f })
                (inr (s, z, λ k m. absurd (false_true (sym (ap (λ l. contains l k) b) ∙ m)))))
        where
          false_true : false ≡ true → ⊥
          false_true q = cc
