-- ===== src/Container/Registry/Walk.antt =====
-- core/container/__init__.py: get_all_in_order returns an instance for each class, the cached one.
use xime_framework.Prelude.{
  ℕ, suc, ◌≡◌, ◌<◌, refl, true, Option, some, List, [], ◌∷◌, ap, ◌∙◌, is_some, All, map,
}
use xime_framework.Container.Registry.{
  DependencyRegistry, Outcome, made, failed, with_arg, next_arg, get, get_all,
}
use xime_framework.Container.Registry.Cache.{
  Extends, Extends-refl, get-Extends, next_arg-Extends, IsCached, get-IsCached,
}
use xime_framework.Container.Registry.Total.{IsCause, Fine, IsRanked, get-Fine}

module _ {A : Type 0} (call : ℕ → ℕ → List (ℕ × A) → Option A) where
  -- An instance for each class in the order asked, the one that the registry keeps, or the failure of
  -- a class whose callable raises.
  abbrev pub Serves :
      (ℕ → Option ℕ) → List ℕ → Outcome (List (ℕ × A)) × DependencyRegistry A → Type 0
  Serves factory classes (made l, reg) =
      (map (λ (p : ℕ × A). p.0) l ≡ classes) × All (λ (p : ℕ × A). reg.instances p.0 ≡ some p.1) l
  Serves factory classes (failed e, reg) = IsCause call factory e

  get_all-Extends :
      (fuel : ℕ) (classes : List ℕ) (reg : DependencyRegistry A)
      → Extends reg (get_all call fuel classes reg).1
  unfolding get_all
  get_all-Extends fuel [] reg = Extends-refl reg
  get_all-Extends fuel (cls ∷ rest) reg =
      next_arg-Extends cls reg (get call fuel reg cls) (get_all call fuel rest)
        (get-Extends call fuel reg cls) (get_all-Extends fuel rest)

  with_arg-Serves :
      (factory : ℕ → Option ℕ) (cls : ℕ) (rest : List ℕ) (a : A)
      (r : Outcome (List (ℕ × A)) × DependencyRegistry A)
      → r.1.instances cls ≡ some a
      → Serves factory rest r
      → Serves factory (cls ∷ rest) (with_arg cls a r)
  with_arg-Serves factory cls rest a (made l, reg) e (names, cached) =
      (ap (λ t. cls ∷ t) names, (e, cached))
  with_arg-Serves factory cls rest a (failed f, reg) e h = h

  next_arg-Serves :
      (factory : ℕ → Option ℕ) (cls : ℕ) (rest : List ℕ) (r : Outcome A × DependencyRegistry A)
      (more : DependencyRegistry A → Outcome (List (ℕ × A)) × DependencyRegistry A)
      → Fine call factory r.0
      → IsCached call cls r
      → ((s : DependencyRegistry A) → Extends s (more s).1)
      → Serves factory rest (more r.1)
      → Serves factory (cls ∷ rest) (next_arg cls r more)
  next_arg-Serves factory cls rest (made a, reg) more fine cached grows h =
      with_arg-Serves factory cls rest a (more reg) ((grows reg).kept cls a (cached a refl)) h
  next_arg-Serves factory cls rest (failed e, reg) more fine cached grows h = fine

  module _ (plan : ℕ → List (ℕ × ℕ)) (factory : ℕ → Option ℕ) (rank : ℕ → ℕ)
      (ranked : IsRanked call plan factory rank) where
    -- Where nothing is being built and the dependencies are ranked, the walk of get_all_in_order over
    -- registered classes, with fuel above their ranks, returns one pair for each class, in the order of
    -- the classes, whose instance is the one that the registry now keeps for the class; or it fails as
    -- the callable of some class raises.
    pub get_all-Serves :
        (fuel : ℕ) (classes : List ℕ) (reg : DependencyRegistry A)
        → reg.plan ≡ plan
        → reg.factory ≡ factory
        → reg.building ≡ []
        → All (λ c. (is_some (factory c) ≡ true) × (suc (rank c) < fuel)) classes
        → Serves factory classes (get_all call fuel classes reg)
    unfolding get_all
    get_all-Serves fuel [] reg p f b h = (refl, tt)
    get_all-Serves fuel (c ∷ rest) reg p f b h =
        let x = get-Extends call fuel reg c in
        next_arg-Serves factory c rest (get call fuel reg c) (get_all call fuel rest)
          (get-Fine call plan factory rank ranked fuel reg c p f b h.0.0 h.0.1)
          (get-IsCached call fuel reg c) (get_all-Extends fuel rest)
          (get_all-Serves fuel rest (get call fuel reg c).1 (x.plan ∙ p) (x.factory ∙ f)
            (x.building ∙ b) h.1)
