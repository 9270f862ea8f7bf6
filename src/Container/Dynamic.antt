-- ===== src/Container/Dynamic.antt =====
-- core/container/__init__.py, _prepare_dynamic_binding: bindings to one implementation or to a
-- tuple of them, and what the resolver and the validator get. A dict is a list of its items, so
-- its keys are different.
pub mod Maps
use xime_framework.Prelude.{
  ℕ, Bool, true, false, not, ◌&&◌, List, [], ◌∷◌, ◌++◌, map, if◌then◌else◌, keep, contains,
}
use xime_framework.Container.Switcher.{Implementations, declared, Tuples}
use xime_framework.Container.Validator.{Bindings}

pub data Target : Type 0 where
  single : ℕ → Target
  tuple : List ℕ → Target

pub data Split : Type 0 where
  split : List (ℕ × ℕ) → Tuples → Split
  empty_tuple : ℕ → Split

abbrev pub add_single : ℕ → ℕ → Split → Split
add_single i c (split singles tuples) = split ((i, c) ∷ singles) tuples
add_single i c (empty_tuple j) = empty_tuple j

abbrev pub add_tuple : ℕ → Implementations → Split → Split
add_tuple i impls (split singles tuples) = split singles ((i, impls) ∷ tuples)
add_tuple i impls (empty_tuple j) = empty_tuple j

-- A tuple of one is a single binding; an empty one is refused.
unfoldable pub split_bindings : List (ℕ × Target) → Split
split_bindings [] = split [] []
split_bindings ((i, single c) ∷ rest) = add_single i c (split_bindings rest)
split_bindings ((i, tuple []) ∷ rest) = empty_tuple i
split_bindings ((i, tuple (c ∷ [])) ∷ rest) = add_single i c (split_bindings rest)
split_bindings ((i, tuple (c ∷ d ∷ more)) ∷ rest) =
    add_tuple i (record { first = c; others = d ∷ more }) (split_bindings rest)

-- _register_managed_impls
unfoldable pub register_managed : List ℕ → List ℕ → List ℕ
register_managed classes [] = classes
register_managed classes (impl ∷ impls) =
    register_managed (if contains classes impl then classes else classes ++ impl ∷ []) impls

abbrev pub managed : Tuples → List ℕ
managed [] = []
managed ((i, impls) ∷ rest) = declared impls ++ managed rest

abbrev pub firsts : Tuples → List (ℕ × ℕ)
firsts tuples = map (λ (t : ℕ × Implementations). (t.0, t.1.first)) tuples

abbrev pub one_each : List (ℕ × ℕ) → Bindings
one_each singles = map (λ (s : ℕ × ℕ). (s.0, s.1 ∷ [])) singles

abbrev pub all_each : Tuples → Bindings
all_each tuples = map (λ (t : ℕ × Implementations). (t.0, declared t.1)) tuples

-- The two maps, the explicit classes after it, and the interfaces that get a proxy.
pub record Prepared : Type 0 where
  pub resolver_bindings : List (ℕ × ℕ)
  pub validation_bindings : Bindings
  pub explicit_classes : List ℕ
  pub proxies : List ℕ

abbrev pub is_empty : Tuples → Bool
is_empty [] = true
is_empty (_ ∷ _) = false

unfoldable pub prepare : Bool → List ℕ → List ℕ → List (ℕ × ℕ) → Tuples → Prepared
unfolding register_managed
prepare enabled explicit instances singles tuples =
    if enabled && not (is_empty tuples)
    then record {
      resolver_bindings = singles;
      validation_bindings = one_each singles ++ all_each tuples;
      explicit_classes = register_managed explicit (managed tuples);
      proxies =
          keep (λ i. not (contains instances i)) (map (λ (t : ℕ × Implementations). t.0) tuples);
    }
    else record {
      resolver_bindings = singles ++ firsts tuples;
      validation_bindings = one_each singles ++ one_each (firsts tuples);
      explicit_classes = explicit;
      proxies = [];
    }
