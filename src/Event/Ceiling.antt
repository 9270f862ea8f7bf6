-- ===== src/Event/Ceiling.antt =====
-- core/event/bus.py: an event is scheduled whole or dropped whole, and the ceiling holds.
use xime_framework.Prelude.{
  ℕ, zero, suc, ◌+◌, ◌≤◌, ◌≡◌, refl, Bool, true, false, Option, none, some, List, [], ◌∷◌, ◌++◌,
  arith, if◌then◌else◌, leb, ltb, Bool-cases, inl, inr, length, length-append, contains, ap, ap₂,
  subst, ◌∙◌,
}
use xime_framework.Event.{
  PublishOutcome, scheduled, no_handlers, dropped, Task, EventBus, EventBusConfig, subscribe,
  has_room, admit, record_drop, warn_exempt_over_cap, tasks_of, publish, publish_to, remove_at,
  finish_task,
}

length-tasks_of : (t : ℕ) (handlers : List ℕ) → length (tasks_of t handlers) ≡ length handlers
length-tasks_of t [] = refl
length-tasks_of t (h ∷ hs) = ap suc (length-tasks_of t hs)

-- Whether an event of the type is let in: no ceiling, an exempt type, or room for all handlers.
abbrev pub lets_in : EventBus → ℕ → ℕ → Bool
lets_in bus t needed = elim bus.config.max_pending [
  | none ↦ true
  | some cap ↦
      if contains bus.config.never_drop t then true else leb (length bus.pending + needed) cap
]

-- What publish() answers for an event type with these handlers.
abbrev pub answer : EventBus → ℕ → List ℕ → PublishOutcome
answer bus t [] = no_handlers
answer bus t (h ∷ hs) = if lets_in bus t (length (h ∷ hs)) then scheduled else dropped

-- The bus after publish(), seen through the tasks in flight and the number of drops.
abbrev pub After : EventBus → ℕ → PublishOutcome → EventBus → Type 0
After bus t scheduled bus' =
    (bus'.pending ≡ bus.pending ++ tasks_of t (bus.handlers t)) × (bus'.dropped ≡ bus.dropped)
After bus t no_handlers bus' = bus' ≡ bus
After bus t dropped bus' = (bus'.pending ≡ bus.pending) × (bus'.dropped ≡ bus.dropped + 1)

room_case-fst :
    (bus : EventBus) (t n : ℕ) (cap : Option ℕ) (exempt : Bool) (b : ℕ → EventBus)
    → (elim cap as (λ _. Bool × EventBus) [
      | none ↦ (true, bus)
      | some c ↦ if exempt then (true, b c) else (leb (length bus.pending + n) c, bus)
    ]).0
      ≡ elim cap [ none ↦ true | some c ↦ if exempt then true else leb (length bus.pending + n) c ]
room_case-fst bus t n none exempt b = refl
room_case-fst bus t n (some c) true b = refl
room_case-fst bus t n (some c) false b = refl

has_room-eq-lets_in : (bus : EventBus) (t n : ℕ) → (has_room bus t n).0 ≡ lets_in bus t n
unfolding has_room
has_room-eq-lets_in bus t n =
    room_case-fst bus t n bus.config.max_pending (contains bus.config.never_drop t)
      (λ c. if ltb c (length bus.pending + n) then warn_exempt_over_cap bus else bus)

-- What two buses have in common where only the counters of the exempt types differ.
pub record Same (bus bus' : EventBus) : Type 0 where
  pub pending : bus'.pending ≡ bus.pending
  pub handlers : bus'.handlers ≡ bus.handlers
  pub config : bus'.config ≡ bus.config
  pub dropped : bus'.dropped ≡ bus.dropped
  pub dropped_by_type : bus'.dropped_by_type ≡ bus.dropped_by_type
  pub warnings : bus'.warnings ≡ bus.warnings

Same-refl : (bus : EventBus) → Same bus bus
Same-refl bus = record {
  pending = refl;
  handlers = refl;
  config = refl;
  dropped = refl;
  dropped_by_type = refl;
  warnings = refl;
}

exempt-Same :
    (bus : EventBus) (over : Bool) → Same bus (if over then warn_exempt_over_cap bus else bus)
unfolding warn_exempt_over_cap
exempt-Same bus true = record {
  pending = refl;
  handlers = refl;
  config = refl;
  dropped = refl;
  dropped_by_type = refl;
  warnings = refl;
}
exempt-Same bus false = Same-refl bus

room_case :
    (bus : EventBus) (n : ℕ) (cap : Option ℕ) (exempt : Bool)
    → Same bus
        (elim cap as (λ _. Bool × EventBus) [
          | none ↦ (true, bus)
          | some c ↦
              if exempt
              then (true, if ltb c (length bus.pending + n) then warn_exempt_over_cap bus else bus)
              else (leb (length bus.pending + n) c, bus)
        ]).1
room_case bus n none exempt = Same-refl bus
room_case bus n (some c) true = exempt-Same bus (ltb c (length bus.pending + n))
room_case bus n (some c) false = Same-refl bus

pub has_room-Same : (bus : EventBus) (t n : ℕ) → Same bus (has_room bus t n).1
unfolding has_room
has_room-Same bus t n = room_case bus n bus.config.max_pending (contains bus.config.never_drop t)

admit-After :
    (bus bus' : EventBus) (t : ℕ) (room : Bool)
    → Same bus bus'
    → ((admit room bus' t).0 ≡ (if room then scheduled else dropped))
      × After bus t (if room then scheduled else dropped) (admit room bus' t).1
unfolding admit record_drop
admit-After bus bus' t true s =
    (refl, (ap₂ (λ p (h : ℕ → List ℕ). p ++ tasks_of t (h t)) s.pending s.handlers, s.dropped))
admit-After bus bus' t false s = (refl, (s.pending, ap (λ n. n + 1) s.dropped))

publish_to-After :
    (bus : EventBus) (t : ℕ) (hs : List ℕ)
    → ((publish_to bus t hs).0 ≡ answer bus t hs)
      × After bus t (answer bus t hs) (publish_to bus t hs).1
unfolding publish_to
publish_to-After bus t [] = (refl, refl)
publish_to-After bus t (h ∷ hs) =
    let n = length (h ∷ hs) in
    subst
      (λ b.
        ((publish_to bus t (h ∷ hs)).0 ≡ (if b then scheduled else dropped))
        × After bus t (if b then scheduled else dropped) (publish_to bus t (h ∷ hs)).1)
      (has_room-eq-lets_in bus t n)
      (admit-After bus (has_room bus t n).1 t (has_room bus t n).0 (has_room-Same bus t n))

-- publish() answers NO_HANDLERS and changes nothing where no handler is subscribed. Otherwise it
-- answers SCHEDULED, with the tasks of all handlers and no others added, if there is no ceiling,
-- the type is exempt or all of them fit; and DROPPED, with no task added and one more drop
-- counted, if not.
pub publish-After :
    (bus : EventBus) (t : ℕ)
    → ((publish bus t).0 ≡ answer bus t (bus.handlers t))
      × After bus t (answer bus t (bus.handlers t)) (publish bus t).1
unfolding publish
publish-After bus t = publish_to-After bus t (bus.handlers t)

-- What the outside does to a bus: the application subscribes and publishes, and tasks end.
pub data Action : Type 0 where
  subscribing : ℕ → ℕ → Action
  publishing finishing : ℕ → Action

unfoldable pub perform : EventBus → Action → EventBus
perform bus (subscribing t h) = subscribe bus t h
perform bus (publishing t) = (publish bus t).1
perform bus (finishing i) = finish_task bus i

unfoldable pub perform_all : EventBus → List Action → EventBus
unfolding perform
perform_all bus [] = bus
perform_all bus (a ∷ rest) = perform_all (perform bus a) rest

-- A bus with a ceiling and no exempt type, and no more tasks than the ceiling.
pub record IsBounded (cap : ℕ) (bus : EventBus) : Type 0 where
  pub ceiling : bus.config.max_pending ≡ some cap
  pub no_exempt : bus.config.never_drop ≡ []
  pub within : length bus.pending ≤ cap

length-remove_at : (i : ℕ) (ts : List Task) → length (remove_at i ts) ≤ length ts
unfolding remove_at
length-remove_at i [] = omega arith
length-remove_at zero (t ∷ ts) = omega arith
length-remove_at (suc i) (t ∷ ts) = omega (arith, length-remove_at i ts)

admitted_fits :
    {cap : ℕ} (bus : EventBus) (t n : ℕ)
    → IsBounded cap bus
    → lets_in bus t n ≡ true
    → length bus.pending + n ≤ cap
admitted_fits bus t n v h = ground (arith, v.ceiling, v.no_exempt)

answer-eq-scheduled :
    (bus : EventBus) (t : ℕ) (hs : List ℕ)
    → answer bus t hs ≡ scheduled
    → lets_in bus t (length hs) ≡ true
answer-eq-scheduled bus t [] h = absurd (cc)
answer-eq-scheduled bus t (x ∷ hs) h = elim (Bool-cases (lets_in bus t (length (x ∷ hs)))) [
  | inl e ↦ e
  | inr e ↦ absurd (outcomes_differ (rw e at h))
]
  where
    outcomes_differ : dropped ≡ scheduled → ⊥
    outcomes_differ p = cc

After-le_cap :
    {cap : ℕ} (bus bus' : EventBus) (t : ℕ) (o : PublishOutcome)
    → IsBounded cap bus
    → answer bus t (bus.handlers t) ≡ o
    → After bus t o bus'
    → length bus'.pending ≤ cap
After-le_cap bus bus' t scheduled v e a = omega (
  arith,
  ap length a.0,
  length-append bus.pending (tasks_of t (bus.handlers t)),
  length-tasks_of t (bus.handlers t),
  admitted_fits bus t (length (bus.handlers t)) v (answer-eq-scheduled bus t (bus.handlers t) e),
)
After-le_cap bus bus' t no_handlers v e a = rw a v.within
After-le_cap bus bus' t dropped v e a = omega (arith, ap length a.0, v.within)

admit-config : (room : Bool) (bus : EventBus) (t : ℕ) → (admit room bus t).1.config ≡ bus.config
unfolding admit record_drop
admit-config true bus t = refl
admit-config false bus t = refl

publish_to-config :
    (bus : EventBus) (t : ℕ) (hs : List ℕ) → (publish_to bus t hs).1.config ≡ bus.config
unfolding publish_to
publish_to-config bus t [] = refl
publish_to-config bus t (h ∷ hs) =
    admit-config (has_room bus t (length (h ∷ hs))).0 (has_room bus t (length (h ∷ hs))).1 t
    ∙ (has_room-Same bus t (length (h ∷ hs))).config

publish-config : (bus : EventBus) (t : ℕ) → (publish bus t).1.config ≡ bus.config
unfolding publish
publish-config bus t = publish_to-config bus t (bus.handlers t)

perform-IsBounded :
    {cap : ℕ} (bus : EventBus) (a : Action) → IsBounded cap bus → IsBounded cap (perform bus a)
unfolding perform subscribe finish_task
perform-IsBounded bus (subscribing t h) v = record {
  ceiling = v.ceiling;
  no_exempt = v.no_exempt;
  within = v.within;
}
perform-IsBounded bus (publishing t) v = record {
  ceiling = ap (λ (c : EventBusConfig). c.max_pending) (publish-config bus t) ∙ v.ceiling;
  no_exempt = ap (λ (c : EventBusConfig). c.never_drop) (publish-config bus t) ∙ v.no_exempt;
  within =
      After-le_cap bus (publish bus t).1 t (answer bus t (bus.handlers t)) v refl
        (publish-After bus t).1;
}
perform-IsBounded bus (finishing i) v = record {
  ceiling = v.ceiling;
  no_exempt = v.no_exempt;
  within = omega (arith, length-remove_at i bus.pending, v.within);
}

-- From a bus with a ceiling and no exempt type, whatever is subscribed, published and ended, the
-- tasks in flight never pass the ceiling.
pub perform_all-IsBounded :
    {cap : ℕ} (bus : EventBus) (actions : List Action)
    → IsBounded cap bus
    → IsBounded cap (perform_all bus actions)
unfolding perform_all
perform_all-IsBounded bus [] v = v
perform_all-IsBounded bus (a ∷ rest) v =
    perform_all-IsBounded (perform bus a) rest (perform-IsBounded bus a v)
