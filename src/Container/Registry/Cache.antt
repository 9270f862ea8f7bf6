-- ===== src/Container/Registry/Cache.antt =====
-- core/container/registry.py: what is cached stays, and an attempt to build leaves no mark behind.
use xime_framework.Prelude.{
  ℕ, zero, suc, ◌+◌, ◌≡◌, refl, Bool, true, false, Option, none, some, List, [], ◌∷◌, arith, ap,
  sym, ◌∙◌, ◌==◌, if◌then◌else◌, contains, without, subst, some_unique,
}
use xime_framework.Container.Registry.Cases.{instantiate_cases, get_cases}
use xime_framework.Container.Registry.{
  DependencyRegistry, Outcome, made, failed, raised, put, known, with_arg, next_arg, collect, leave,
  call_factory, construct, instantiate, get,
}

module _ {ℓ} {A : Type ℓ} where
  abbrev some_of : Outcome A → Option A
  some_of (made a) = some a
  some_of (failed e) = none

  -- A later registry: every cached instance is still there, nothing but the cache differs, and no
  -- class that is being built has been cached.
  pub record Extends (reg reg' : DependencyRegistry A) : Type ℓ where
    pub kept : (k : ℕ) (a : A) → reg.instances k ≡ some a → reg'.instances k ≡ some a
    pub busy : (k : ℕ) → contains reg.building k ≡ true → reg'.instances k ≡ reg.instances k
    pub plan : reg'.plan ≡ reg.plan
    pub factory : reg'.factory ≡ reg.factory
    pub building : reg'.building ≡ reg.building

  pub Extends-refl : (reg : DependencyRegistry A) → Extends reg reg
  Extends-refl reg = record {
    kept = λ k a e. e;
    busy = λ k m. refl;
    plan = refl;
    factory = refl;
    building = refl;
  }

  pub Extends-trans : (r s t : DependencyRegistry A) → Extends r s → Extends s t → Extends r t
  Extends-trans r s t p q = record {
    kept = λ k a e. q.kept k a (p.kept k a e);
    busy = λ k m. q.busy k (ap (λ l. contains l k) p.building ∙ m) ∙ p.busy k m;
    plan = q.plan ∙ p.plan;
    factory = q.factory ∙ p.factory;
    building = q.building ∙ p.building;
  }

  -- After `_building.add` and the `finally`, a registry that extends the marked one extends the
  -- one before.
  pub leave-Extends :
      (cls : ℕ) (reg reg' : DependencyRegistry A)
      → Extends (record reg { building = cls ∷ reg.building }) reg'
      → Extends reg (leave cls reg')
  leave-Extends cls reg reg' x = record {
    kept = x.kept;
    busy = λ k m. x.busy k (ground (arith, m));
    plan = x.plan;
    factory = x.factory;
    building = ap (without cls) x.building ∙ unmarked (cls == cls) (ground arith);
  }
    where
      unmarked :
          (b : Bool)
          → b ≡ true
          → (if b then reg.building else cls ∷ without cls reg.building) ≡ reg.building
      unmarked true e = refl
      unmarked false e = absurd (cc)

  put-kept :
      (cls : ℕ) (a : A) (old : ℕ → Option A)
      → old cls ≡ none
      → (k : ℕ) (b : A) → old k ≡ some b
      → put cls (some a) old k ≡ some b
  put-kept cls a old missing k b e = ground (arith, missing, e)

  abbrev pub Keeps : (DependencyRegistry A → ℕ → Outcome A × DependencyRegistry A) → Type ℓ
  Keeps build = (reg : DependencyRegistry A) (cls : ℕ) → Extends reg (build reg cls).1

  with_arg-snd :
      (param : ℕ) (a : A) (r : Outcome (List (ℕ × A)) × DependencyRegistry A)
      → (with_arg param a r).1 ≡ r.1
  with_arg-snd param a (made args, reg) = refl
  with_arg-snd param a (failed e, reg) = refl

  pub next_arg-Extends :
      (param : ℕ) (reg : DependencyRegistry A) (r : Outcome A × DependencyRegistry A)
      (more : DependencyRegistry A → Outcome (List (ℕ × A)) × DependencyRegistry A)
      → Extends reg r.1
      → ((s : DependencyRegistry A) → Extends s (more s).1)
      → Extends reg (next_arg param r more).1
  next_arg-Extends param reg (made a, reg') more x m =
      subst (Extends reg) (sym (with_arg-snd param a (more reg')))
        (Extends-trans reg reg' (more reg').1 x (m reg'))
  next_arg-Extends param reg (failed e, reg') more x m = x

  module _ (build : DependencyRegistry A → ℕ → Outcome A × DependencyRegistry A)
      (h : Keeps build) where
    pub collect-Extends :
        (deps : List (ℕ × ℕ)) (reg : DependencyRegistry A) → Extends reg (collect build deps reg).1
    unfolding collect
    collect-Extends [] reg = Extends-refl reg
    collect-Extends ((param, dep) ∷ rest) reg = by_test (known reg dep) (collect-Extends rest)
      where
        by_test :
            (b : Bool)
            → ((s : DependencyRegistry A) → Extends s (collect build rest s).1)
            → Extends reg
                (elim b as (λ _. Outcome (List (ℕ × A)) × DependencyRegistry A) [
                  | false ↦ collect build rest reg
                  | true ↦ next_arg param (build reg dep) (collect build rest)
                ]).1
        by_test false more = more reg
        by_test true more =
            next_arg-Extends param reg (build reg dep) (collect build rest) (h reg dep) more

module _ {ℓ} {A : Type ℓ} (call : ℕ → ℕ → List (ℕ × A) → Option A) where
  -- After the arguments: `reg` before the mark, `reg'` with the arguments built.
  module _ (cls : ℕ) (reg : DependencyRegistry A) (missing : reg.instances cls ≡ none)
      (idle : contains reg.building cls ≡ false) where
    abbrev marked : DependencyRegistry A
    marked = record reg { building = cls ∷ reg.building }

    call_factory-Extends :
        (f : Option ℕ) (args : List (ℕ × A)) (reg' : DependencyRegistry A)
        → Extends marked reg'
        → Extends reg (leave cls (call_factory call cls f args reg').1)
    call_factory-Extends none args reg' x = leave-Extends cls reg reg' x
    call_factory-Extends (some f) args reg' x = by_call (call reg'.calls f args)
      where
        by_call :
            (r : Option A)
            → Extends reg (
                leave cls
                  (elim r as (λ _. Outcome A × DependencyRegistry A) [
                    | none ↦ (failed (raised cls), record reg' { calls = reg'.calls + 1 })
                    | some a ↦ (
                      made a,
                      record reg' {
                        instances = put cls (some a) reg'.instances;
                        calls = reg'.calls + 1;
                      },
                    )
                  ]).1)
        by_call none =
            let base = leave-Extends cls reg reg' x in
            record {
              kept = base.kept;
              busy = base.busy;
              plan = base.plan;
              factory = base.factory;
              building = base.building;
            }
        by_call (some a) =
            let base = leave-Extends cls reg reg' x in
            record {
              kept = λ k b e.
                  put-kept cls a reg'.instances (x.busy cls (ground arith) ∙ missing) k b
                    (base.kept k b e);
              busy = λ k m. put_busy k m (cls == k) refl ∙ base.busy k m;
              plan = base.plan;
              factory = base.factory;
              building = base.building;
            }
          where
            put_busy :
                (k : ℕ)
                → contains reg.building k ≡ true
                → (b : Bool) → (cls == k) ≡ b
                → (if b then some a else reg'.instances k) ≡ reg'.instances k
            put_busy k m false e = refl
            put_busy k m true e = absurd (different (ground arith))
              where
                different : cls ≡ k → ⊥
                different p = absurd_bool (sym idle ∙ ap (contains reg.building) p ∙ m)
                  where
                    absurd_bool : false ≡ true → ⊥
                    absurd_bool q = cc

    construct-Extends :
        (r : Outcome (List (ℕ × A)) × DependencyRegistry A)
        → Extends marked r.1
        → Extends reg (construct call cls r).1
    unfolding construct
    construct-Extends (made args, reg') x = call_factory-Extends (reg'.factory cls) args reg' x
    construct-Extends (failed e, reg') x = leave-Extends cls reg reg' x

  pub instantiate-Extends : (fuel : ℕ) → Keeps (instantiate call fuel)
  unfolding instantiate
  instantiate-Extends zero reg cls = Extends-refl reg
  instantiate-Extends (suc fuel) reg cls =
      instantiate_cases call (λ r. Extends reg r.1) fuel reg cls (λ a e. Extends-refl reg)
        (λ e i. Extends-refl reg)
        (λ e i. construct-Extends cls reg e i _ (
          collect-Extends (instantiate call fuel) (instantiate-Extends fuel) (reg.plan cls)
            (record reg { building = cls ∷ reg.building })))

  -- Whatever a call of get() ends with, what was cached stays cached, and `_building` is again
  -- what it was.
  pub get-Extends : (fuel : ℕ) → Keeps (get call fuel)
  get-Extends fuel reg cls =
      get_cases call (λ r. Extends reg r.1) fuel reg cls (λ a e. Extends-refl reg)
        (λ n e. Extends-refl reg) (λ n e. instantiate-Extends fuel reg cls)

  -- What is returned is cached.
  abbrev pub IsCached : ℕ → Outcome A × DependencyRegistry A → Type ℓ
  IsCached cls r = (a : A) → r.0 ≡ made a → r.1.instances cls ≡ some a

  call_factory-IsCached :
      (cls : ℕ) (f : Option ℕ) (args : List (ℕ × A)) (reg : DependencyRegistry A)
      → IsCached cls (call_factory call cls f args reg)
  call_factory-IsCached cls none args reg a e = absurd (cc)
  call_factory-IsCached cls (some f) args reg a e = by_call (call reg.calls f args) e
    where
      by_call :
          (r : Option A)
          → (elim r as (λ _. Outcome A × DependencyRegistry A) [
            | none ↦ (failed (raised cls), record reg { calls = reg.calls + 1 })
            | some b ↦ (
              made b,
              record reg { instances = put cls (some b) reg.instances; calls = reg.calls + 1 },
            )
          ]).0
            ≡ made a
          → (elim r as (λ _. Outcome A × DependencyRegistry A) [
            | none ↦ (failed (raised cls), record reg { calls = reg.calls + 1 })
            | some b ↦ (
              made b,
              record reg { instances = put cls (some b) reg.instances; calls = reg.calls + 1 },
            )
          ]).1.instances
              cls
            ≡ some a
      by_call none k = absurd (cc)
      by_call (some b) k = ground (arith, k)

  construct-IsCached :
      (cls : ℕ) (r : Outcome (List (ℕ × A)) × DependencyRegistry A)
      → IsCached cls (construct call cls r)
  unfolding construct
  construct-IsCached cls (made args, reg) a e =
      call_factory-IsCached cls (reg.factory cls) args reg a e
  construct-IsCached cls (failed f, reg) a e = absurd (cc)

  instantiate-IsCached :
      (fuel : ℕ) (reg : DependencyRegistry A) (cls : ℕ)
      → IsCached cls (instantiate call fuel reg cls)
  unfolding instantiate
  instantiate-IsCached zero reg cls = λ a e. absurd (cc)
  instantiate-IsCached (suc fuel) reg cls =
      instantiate_cases call (IsCached cls) fuel reg cls (λ a e b f. e ∙ ap some_of f)
        (λ e i a f. absurd (cc))
        (λ e i. construct-IsCached cls (
          collect (instantiate call fuel) (reg.plan cls)
            (record reg { building = cls ∷ reg.building })))

  pub get-IsCached :
      (fuel : ℕ) (reg : DependencyRegistry A) (cls : ℕ) → IsCached cls (get call fuel reg cls)
  get-IsCached fuel reg cls =
      get_cases call (IsCached cls) fuel reg cls (λ a e b f. e ∙ ap some_of f)
        (λ n e a f. absurd (cc)) (λ n e. instantiate-IsCached fuel reg cls)

  -- The classes asked for, one after the other, whatever each of the calls ends with.
  unfoldable pub get_each : ℕ → List ℕ → DependencyRegistry A → DependencyRegistry A
  unfolding get
  get_each fuel [] reg = reg
  get_each fuel (cls ∷ rest) reg = get_each fuel rest (get call fuel reg cls).1

  get_each-Extends :
      (fuel : ℕ) (classes : List ℕ) (reg : DependencyRegistry A)
      → Extends reg (get_each fuel classes reg)
  unfolding get_each
  get_each-Extends fuel [] reg = Extends-refl reg
  get_each-Extends fuel (cls ∷ rest) reg =
      Extends-trans reg (get call fuel reg cls).1 _ (get-Extends fuel reg cls)
        (get_each-Extends fuel rest (get call fuel reg cls).1)

  -- A class whose get() returned is a singleton: after any further calls for any classes, whatever
  -- they end with, get() returns the same instance and changes nothing.
  pub get-get_each :
      (fuel : ℕ) (reg : DependencyRegistry A) (cls : ℕ) (classes : List ℕ) (a : A)
      → (get call fuel reg cls).0 ≡ made a
      → let later = get_each fuel classes (get call fuel reg cls).1 in
        get call fuel later cls ≡ (made a, later)
  get-get_each fuel reg cls classes a e =
      let now = (get call fuel reg cls).1 in
      let later = get_each fuel classes now in
      get_cached later
        ((get_each-Extends fuel classes now).kept cls a (get-IsCached fuel reg cls a e))
    where
      differ : none ≡ some a → ⊥
      differ p = cc

      get_cached :
          (later : DependencyRegistry A)
          → later.instances cls ≡ some a
          → get call fuel later cls ≡ (made a, later)
      get_cached later k =
          get_cases call (λ r. r ≡ (made a, later)) fuel later cls
            (λ b f. ap (λ x. (made x, later)) (some_unique f k))
            (λ n f. absurd (differ (sym n ∙ k))) (λ n f. absurd (differ (sym n ∙ k)))
