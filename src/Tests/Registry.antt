-- ===== src/Tests/Registry.antt =====
-- core/container/registry.py with three classes: 1 needs 2 and 3, 2 needs 3. An instance has the
-- number of its call in front of the number of its arguments; the callable 9 raises.
use xime_framework.Prelude.{
  ℕ, ◌+◌, ◌-◌, ◌*◌, length, ◌≡◌, refl, Option, none, some, List, [], ◌∷◌, arith, ◌==◌,
  if◌then◌else◌,
}
use xime_framework.Container.Graph.{ResolvedMap}
use xime_framework.Container.Registry.{
  DependencyRegistry, create, register, get, get_all, made, failed, raised,
}
use xime_framework.Container.Registry.Cache.{get_each, get-get_each}
use xime_framework.Container.Registry.Total.{IsRanked, Fine, get-Fine}
use xime_framework.Container.Registry.Walk.{Serves, get_all-Serves}

abbrev service : ResolvedMap
service = (1, (10, 2) ∷ (11, 3) ∷ []) ∷ (2, (10, 3) ∷ []) ∷ (3, []) ∷ []

abbrev call : ℕ → ℕ → List (ℕ × ℕ) → Option ℕ
call n f args = if f == 9 then none else some (n * 10 + length args)

abbrev registry : DependencyRegistry ℕ
registry = register service (λ _. none) (λ _. none) create

-- The class 3 comes from a factory method that raises.
abbrev broken : DependencyRegistry ℕ
broken = register service (λ _. none) (λ c. if c == 3 then some 9 else none) create

get-registry : (get call 4 registry 1).0 ≡ made 22
unfolding get register
get-registry = refl

get-broken : (get call 4 broken 1).0 ≡ failed (raised 3)
unfolding get register
get-broken = refl

abbrev rank : ℕ → ℕ
rank c = 3 - c

registry-IsRanked : IsRanked call registry.plan registry.factory rank
unfolding register
registry-IsRanked cls = ground arith

get-Fine_example : Fine call registry.factory (get call 4 registry 1).0
unfolding register
get-Fine_example =
    get-Fine call registry.plan registry.factory rank registry-IsRanked 4 registry 1 refl refl refl
      refl (omega arith)

get-get_each_example :
    get call 4 (get_each call 4 (2 ∷ 7 ∷ 1 ∷ []) (get call 4 registry 1).1) 1
    ≡ (made 22, get_each call 4 (2 ∷ 7 ∷ 1 ∷ []) (get call 4 registry 1).1)
get-get_each_example = get-get_each call 4 registry 1 (2 ∷ 7 ∷ 1 ∷ []) 22 get-registry

get_all-Serves_example :
    Serves call registry.factory (3 ∷ 2 ∷ 1 ∷ []) (get_all call 6 (3 ∷ 2 ∷ 1 ∷ []) registry)
unfolding register
get_all-Serves_example =
    get_all-Serves call registry.plan registry.factory rank registry-IsRanked 6 (3 ∷ 2 ∷ 1 ∷ [])
      registry refl refl refl
      ((refl, omega arith), ((refl, omega arith), ((refl, omega arith), tt)))
