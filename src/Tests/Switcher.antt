-- ===== src/Tests/Switcher.antt =====
-- core/container/switcher.py with the interface 5, whose implementations are 1, 2 and 3.
use xime_framework.Prelude.{◌≡◌, refl, true, false, some, List, [], ◌∷◌, contains}
use xime_framework.Container.Switcher.{Implementations, declared, Tuples, create, switch_to, reset}
use xime_framework.Container.Switcher.Selected.{
  Switching, using, resetting, call_all, selected_all, call_all-selected,
}

abbrev impls : Implementations
impls = record { first = 1; others = 2 ∷ 3 ∷ [] }

abbrev tuples : Tuples
tuples = (5, impls) ∷ (6, impls) ∷ []

abbrev calls : List Switching
calls = using 5 3 ∷ using 5 9 ∷ resetting (some 6) ∷ using 6 2 ∷ []

calls-current : (call_all (create tuples true) calls).current 5 ≡ some 3
unfolding call_all switch_to reset
calls-current = refl

calls-disabled : (call_all (create tuples false) calls).current 5 ≡ some 1
unfolding call_all switch_to reset
calls-disabled = refl

call_all-selected_example :
    ((call_all (create tuples true) calls).current 5 ≡ some (selected_all true 5 impls 1 calls))
    × (contains (declared impls) (selected_all true 5 impls 1 calls) ≡ true)
call_all-selected_example = call_all-selected tuples 5 impls (refl, (refl, tt)) refl true calls
