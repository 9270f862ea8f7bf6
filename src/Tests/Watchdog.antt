-- ===== src/Tests/Watchdog.antt =====
-- core/bootstrap/_watchdog.py: a table of two slots.
use xime_framework.Prelude.{◌≡◌, refl, none, List, [], ◌∷◌, arith}
use xime_framework.Watchdog.{create, silent, silent_for}
use xime_framework.Watchdog.History.{
  Event, patting, resetting, happen_all, last_pat, expected, happen_all-silent_for,
}

abbrev events : List Event
events = patting 1 7 ∷ patting 0 9 ∷ resetting 1 ∷ patting 1 12 ∷ patting 0 15 ∷ []

silent_for-events : silent_for (happen_all (create 2) events) 1 20 ≡ silent 8
unfolding silent_for happen_all
silent_for-events = refl

happen_all-silent_for_example :
    silent_for (happen_all (create 2) events) 1 20 ≡ expected (last_pat 1 none events) 20
happen_all-silent_for_example =
    happen_all-silent_for 2 1 20 events
      (omega arith, (omega arith, (omega arith, (omega arith, tt)))) (omega arith)
