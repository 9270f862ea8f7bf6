-- ===== src/Tests/Dynamic.antt =====
-- core/container/__init__.py: the interface 5 has one implementation, 6 has two and 7 a tuple of one.
use xime_framework.Prelude.{ℕ, ◌≡◌, refl, true, List, [], ◌∷◌}
use xime_framework.Container.Dynamic.{Target, single, tuple, Split, split, split_bindings, prepare}
use xime_framework.Container.Dynamic.Maps.{Resolves, split_bindings-Resolves}

abbrev bindings : List (ℕ × Target)
bindings = (5, single 1) ∷ (6, tuple (2 ∷ 3 ∷ [])) ∷ (7, tuple (4 ∷ [])) ∷ []

abbrev pairs : Split
pairs = split ((5, 1) ∷ (7, 4) ∷ []) ((6, record { first = 2; others = 3 ∷ [] }) ∷ [])

split-bindings : split_bindings bindings ≡ pairs
unfolding split_bindings
split-bindings = refl

explicit-switching :
    (prepare true
      (2 ∷ [])
      []
      ((5, 1) ∷ [])
      ((6, record { first = 2; others = 3 ∷ [] }) ∷ [])).explicit_classes
    ≡ 2 ∷ 3 ∷ []
unfolding prepare
explicit-switching = refl

split_bindings-Resolves_example : Resolves true bindings [] [] (split_bindings bindings)
split_bindings-Resolves_example =
    split_bindings-Resolves bindings [] [] true (refl, (refl, (refl, tt)))
