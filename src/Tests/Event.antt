-- ===== src/Tests/Event.antt =====
-- core/event/bus.py with a ceiling of two tasks.
use xime_framework.Prelude.{◌+◌, ◌≡◌, refl, some, List, [], ◌∷◌, arith}
use xime_framework.Event.{EventBus, create, subscribe, publish, finish_task}
use xime_framework.Event.Ceiling.{
  Action, subscribing, publishing, finishing, perform_all, IsBounded, perform_all-IsBounded, answer,
  After, publish-After,
}
use xime_framework.Event.Drops.{IsThrottled, drops_in, perform_all-drops}

abbrev fresh : EventBus
fresh = create (record { max_pending = some 2; never_drop = [] })

-- Two handlers for one type: the second event finds no room until a task ends.
abbrev busy : List Action
busy =
    subscribing 7 1
    ∷ subscribing 7 2
    ∷ publishing 7
    ∷ publishing 7
    ∷ finishing 0
    ∷ finishing 0
    ∷ publishing 7
    ∷ publishing 8
    ∷ []

busy-dropped : (perform_all fresh busy).dropped ≡ 1
unfolding perform_all publish finish_task subscribe
busy-dropped = refl

fresh-IsBounded : IsBounded 2 fresh
fresh-IsBounded = record { ceiling = refl; no_exempt = refl; within = omega arith }

fresh-IsThrottled : IsThrottled fresh
fresh-IsThrottled = refl

publish-After_example :
    ((publish fresh 7).0 ≡ answer fresh 7 (fresh.handlers 7))
    × After fresh 7 (answer fresh 7 (fresh.handlers 7)) (publish fresh 7).1
publish-After_example = publish-After fresh 7

perform_all-IsBounded_example : IsBounded 2 (perform_all fresh busy)
perform_all-IsBounded_example = perform_all-IsBounded fresh busy fresh-IsBounded

perform_all-drops_example :
    ((perform_all fresh busy).dropped ≡ fresh.dropped + drops_in fresh busy)
    × IsThrottled (perform_all fresh busy)
perform_all-drops_example = perform_all-drops fresh busy fresh-IsThrottled
