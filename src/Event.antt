-- ===== src/Event.antt =====
-- core/event/bus.py: the in-process event bus and its ceiling.
-- An event type and a handler are numbers. `pending` holds the tasks in flight; the event loop
-- decides which of them ends next, so `finish_task` takes its place in the list. A handler that
-- fails is logged and its task ends like any other (`_dispatch`).
pub mod Ceiling
pub mod Drops
use xime_framework.Prelude.{
  ℕ, zero, suc, ◌+◌, ◌%◌, Bool, true, false, ◌||◌, Option, none, some, List, [], ◌∷◌, ◌++◌, map,
  ◌==◌, leb, ltb, if◌then◌else◌, length, contains,
}

pub data PublishOutcome : Type 0 where
  scheduled no_handlers dropped : PublishOutcome

-- max_pending (`none` is no ceiling) and never_drop
pub record EventBusConfig : Type 0 where
  pub max_pending : Option ℕ
  pub never_drop : List ℕ

pub record Task : Type 0 where
  pub handler : ℕ
  pub event_type : ℕ

-- `warnings` and `exempt_warnings` count the lines that the two throttled warnings have logged.
pub record EventBus : Type 0 where
  pub handlers : ℕ → List ℕ
  pub pending : List Task
  pub config : EventBusConfig
  pub dropped : ℕ
  pub dropped_by_type : ℕ → ℕ
  pub exempt_over_cap : ℕ
  pub warnings : ℕ
  pub exempt_warnings : ℕ

abbrev pub warn_every : ℕ
warn_every = 1000

abbrev pub create : EventBusConfig → EventBus
create config = record {
  handlers = λ _. [];
  pending = [];
  config = config;
  dropped = 0;
  dropped_by_type = λ _. 0;
  exempt_over_cap = 0;
  warnings = 0;
  exempt_warnings = 0;
}

-- __post_init__ of the configuration
unfoldable pub is_valid_config : EventBusConfig → Bool
is_valid_config config = elim config.max_pending [ none ↦ true | some cap ↦ leb 1 cap ]

unfoldable pub subscribe : EventBus → ℕ → ℕ → EventBus
subscribe bus event_type handler = record bus {
  handlers = λ t. if event_type == t then bus.handlers t ++ handler ∷ [] else bus.handlers t;
}

-- `n == 1 or n % _WARN_EVERY == 0`
abbrev pub is_loud : ℕ → Bool
is_loud n = n == 1 || n % warn_every == 0

unfoldable pub record_drop : EventBus → ℕ → EventBus
record_drop bus event_type =
    let n = bus.dropped + 1 in
    record bus {
      dropped = n;
      dropped_by_type =
          λ t. if event_type == t then bus.dropped_by_type t + 1 else bus.dropped_by_type t;
      warnings = if is_loud n then bus.warnings + 1 else bus.warnings;
    }

unfoldable pub warn_exempt_over_cap : EventBus → EventBus
warn_exempt_over_cap bus =
    let n = bus.exempt_over_cap + 1 in
    record bus {
      exempt_over_cap = n;
      exempt_warnings = if is_loud n then bus.exempt_warnings + 1 else bus.exempt_warnings;
    }

-- _has_room, with the bus after it, as the exempt branch may warn.
unfoldable pub has_room : EventBus → ℕ → ℕ → Bool × EventBus
unfolding warn_exempt_over_cap
has_room bus event_type needed = elim bus.config.max_pending [
  | none ↦ (true, bus)
  | some cap ↦
      if contains bus.config.never_drop event_type
      then (true, if ltb cap (length bus.pending + needed) then warn_exempt_over_cap bus else bus)
      else (leb (length bus.pending + needed) cap, bus)
]

abbrev pub tasks_of : ℕ → List ℕ → List Task
tasks_of event_type handlers = map (λ h. record { handler = h; event_type = event_type }) handlers

-- After the test for room: all tasks of the event, or a drop.
unfoldable pub admit : Bool → EventBus → ℕ → PublishOutcome × EventBus
unfolding record_drop
admit true bus event_type = (
  scheduled,
  record bus { pending = bus.pending ++ tasks_of event_type (bus.handlers event_type) },
)
admit false bus event_type = (dropped, record_drop bus event_type)

unfoldable pub publish_to : EventBus → ℕ → List ℕ → PublishOutcome × EventBus
unfolding has_room admit
publish_to bus event_type [] = (no_handlers, bus)
publish_to bus event_type (handler ∷ rest) =
    let (room, bus') = has_room bus event_type (length (handler ∷ rest)) in
    admit room bus' event_type

unfoldable pub publish : EventBus → ℕ → PublishOutcome × EventBus
unfolding publish_to
publish bus event_type = publish_to bus event_type (bus.handlers event_type)

-- A task that is done is discarded from `pending`.
unfoldable pub remove_at : ℕ → List Task → List Task
remove_at i [] = []
remove_at zero (t ∷ ts) = ts
remove_at (suc i) (t ∷ ts) = t ∷ remove_at i ts

unfoldable pub finish_task : EventBus → ℕ → EventBus
unfolding remove_at
finish_task bus i = record bus { pending = remove_at i bus.pending }

-- drain() changes nothing: it waits for the tasks that are in flight when it is called. Tasks that
-- a handler publishes meanwhile are not among them.
abbrev pub drain : EventBus → List Task
drain bus = bus.pending
