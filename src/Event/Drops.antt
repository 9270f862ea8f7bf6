-- ===== src/Event/Drops.antt =====
-- core/event/bus.py: the counters of drops, and the throttle of the warning.
use xime_framework.Prelude.{
  ℕ, zero, suc, ◌+◌, ◌/◌, ◌≡◌, refl, Bool, true, false, List, [], ◌∷◌, arith, if◌then◌else◌, ap,
  ◌∙◌, sym, length,
}
use xime_framework.Event.{
  EventBus, PublishOutcome, scheduled, dropped, no_handlers, has_room, admit, record_drop, publish,
  publish_to, is_loud, subscribe, finish_task,
}
use xime_framework.Event.Ceiling.{
  Action, subscribing, publishing, finishing, perform, perform_all, Same, has_room-Same,
}

-- The lines that the throttle lets through for `n` drops: the first, and every thousandth.
abbrev pub lines_for : ℕ → ℕ
lines_for zero = 0
lines_for (suc n) = 1 + suc n / 1000

lines_for-suc :
    (n : ℕ) → lines_for (n + 1) ≡ (if is_loud (n + 1) then lines_for n + 1 else lines_for n)
lines_for-suc zero = refl
lines_for-suc (suc n) = ground arith

abbrev pub IsThrottled : EventBus → Type 0
IsThrottled bus = bus.warnings ≡ lines_for bus.dropped

-- 1 for an event that is dropped.
abbrev pub is_drop : PublishOutcome → ℕ
is_drop dropped = 1
is_drop scheduled = 0
is_drop no_handlers = 0

abbrev Counted : EventBus → PublishOutcome × EventBus → Type 0
Counted bus r = (r.1.dropped ≡ bus.dropped + is_drop r.0) × IsThrottled r.1

admit-Counted :
    (room : Bool) (bus bus' : EventBus) (t : ℕ)
    → Same bus bus'
    → IsThrottled bus
    → Counted bus (admit room bus' t)
unfolding admit record_drop
admit-Counted true bus bus' t s h =
    (omega (arith, s.dropped), s.warnings ∙ h ∙ ap lines_for (sym s.dropped))
admit-Counted false bus bus' t s h =
    (omega (arith, s.dropped), ground (arith, lines_for-suc bus'.dropped, s.warnings, s.dropped))

publish_to-Counted :
    (bus : EventBus) (t : ℕ) (hs : List ℕ) → IsThrottled bus → Counted bus (publish_to bus t hs)
unfolding publish_to
publish_to-Counted bus t [] h = (omega arith, h)
publish_to-Counted bus t (x ∷ hs) h =
    let n = suc (length hs) in
    admit-Counted (has_room bus t n).0 bus (has_room bus t n).1 t (has_room-Same bus t n) h

publish-Counted : (bus : EventBus) (t : ℕ) → IsThrottled bus → Counted bus (publish bus t)
unfolding publish
publish-Counted bus t h = publish_to-Counted bus t (bus.handlers t) h

-- How many of the actions are an event that is dropped.
pub drops_in : EventBus → List Action → ℕ
drops_in bus [] = 0
drops_in bus (publishing t ∷ rest) =
    is_drop (publish bus t).0 + drops_in (perform bus (publishing t)) rest
drops_in bus (a ∷ rest) = drops_in (perform bus a) rest

-- Whatever happens to a bus whose warnings are throttled, `dropped` goes up by the number of
-- events that are dropped, and the warnings logged stay those for the first drop and for every
-- thousandth.
pub perform_all-drops :
    (bus : EventBus) (actions : List Action)
    → IsThrottled bus
    → ((perform_all bus actions).dropped ≡ bus.dropped + drops_in bus actions)
      × IsThrottled (perform_all bus actions)
unfolding perform_all drops_in perform subscribe finish_task
perform_all-drops bus [] h = (omega arith, h)
perform_all-drops bus (publishing t ∷ rest) h =
    let (count, loud) = publish-Counted bus t h in
    let (counts, louds) = perform_all-drops (publish bus t).1 rest loud in
    (omega (arith, count, counts), louds)
perform_all-drops bus (subscribing t x ∷ rest) h = perform_all-drops (subscribe bus t x) rest h
perform_all-drops bus (finishing i ∷ rest) h = perform_all-drops (finish_task bus i) rest h
