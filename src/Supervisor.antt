-- ===== src/Supervisor.antt =====
-- core/bootstrap/_supervisor.py: the parent that starts the processes, gives one the primary role,
-- restarts the dead and, in `Reaping`, kills the hung. A process is named by its place in the ids of
-- the topology, and times are in milliseconds. Sockets, signals and the messages of the log are not
-- modelled.
pub mod Reaping
pub mod Shape
pub mod Roles
pub mod Cluster
pub mod Refusals
pub mod Kept
pub mod Taken
pub mod Handover
pub mod Safety
pub mod Lives
use xime_framework.Prelude.{
  ℕ, zero, suc, ◌+◌, ◌-◌, ◌*◌, ◌^◌, min, Bool, true, false, not, ◌&&◌, ◌||◌, Option, none, some,
  List, [], ◌∷◌, ◌++◌, ◌==◌, leb, ltb, if◌then◌else◌, length, keep,
}
use xime_framework.Container.Registry.{put}
use xime_framework.Watchdog.{Heartbeats, reset, Silence, starting, silent, broken, silent_for}

abbrev pub respawn_delay : ℕ
respawn_delay = 1000

abbrev pub respawn_delay_max : ℕ
respawn_delay_max = 30000

abbrev pub respawn_reset_after : ℕ
respawn_reset_after = 60000

abbrev pub promotion_limit : ℕ
promotion_limit = 3

abbrev pub promotion_window : ℕ
promotion_window = 60000

-- A process that was started: whether it lives, which is_alive() tells, and whether it was started
-- as primary or has read that it takes the role, and has not refused.
pub record Child : Type 0 where
  pub alive : Bool
  pub role : Bool

abbrev pub Children : Type 0
Children = ℕ → Option Child

-- `linked` says that the shared memory has a link; `warned` is _canh_bao_da_keu. `unread p`: the link
-- holds a PROMOTE for the index `p` whose unread bit is set; all such rows of an index are read at
-- once. `sends n`: the `n`-th announcement goes out, and `announced` counts those that were tried.
pub record Supervisor : Type 0 where
  pub size : ℕ
  pub linked : Bool
  pub unread : ℕ → Bool
  pub sends : ℕ → Bool
  pub announced : ℕ
  pub beats : Option Heartbeats
  pub children : Children
  pub spawned_at : ℕ → ℕ
  pub warned : ℕ → ℕ
  pub killed_by_me : ℕ → Bool
  pub respawns : ℕ → ℕ
  pub stopping : Bool
  pub primary_id : Option ℕ
  pub run_once_done : Bool
  pub promotions : List ℕ
  pub promotion_stopped : Bool

abbrev pub new_supervisor : ℕ → Bool → Option Heartbeats → (ℕ → Bool) → ℕ → Supervisor
new_supervisor size linked beats sends primary = record {
  size = size;
  linked = linked;
  unread = λ _. false;
  sends = sends;
  announced = 0;
  beats = beats;
  children = λ _. none;
  spawned_at = λ _. 0;
  warned = λ _. 0;
  killed_by_me = λ _. false;
  respawns = λ _. 0;
  stopping = false;
  primary_id = some primary;
  run_once_done = false;
  promotions = [];
  promotion_stopped = false;
}

-- `0 .. n - 1`, from `i` on
abbrev pub ids_from : ℕ → ℕ → List ℕ
ids_from i zero = []
ids_from i (suc n) = i ∷ ids_from (i + 1) n

-- self._topology.ids
abbrev pub ids : Supervisor → List ℕ
ids s = ids_from 0 s.size

abbrev pub ordered_ids : ℕ → ℕ → List ℕ
ordered_ids primary size = primary ∷ keep (λ p. not (p == primary)) (ids_from 0 size)

-- `process_id == self._primary_id`
abbrev pub is_id : Option ℕ → ℕ → Bool
is_id none p = false
is_id (some q) p = q == p

abbrev pub reset_beat : Option Heartbeats → ℕ → Option Heartbeats
reset_beat none index = none
reset_beat (some beats) index = some (reset beats index)

-- The entry keeps its index, and an unread row for that index stays in the link.
unfoldable pub spawn : ℕ → ℕ → Supervisor → Supervisor
spawn now p s = record s {
  beats = reset_beat s.beats p;
  children = put p (some (record { alive = true; role = is_id s.primary_id p })) s.children;
  spawned_at = put p now s.spawned_at;
  killed_by_me = put p false s.killed_by_me;
}

-- `self._children[pid].is_alive()` of an entry
abbrev pub is_alive : Option Child → Bool
is_alive none = false
is_alive (some child) = child.alive

-- The first live process but the excluded one.
abbrev pub next_live : List ℕ → Option ℕ → Children → Option ℕ
next_live [] exclude children = none
next_live (p ∷ ps) exclude children =
    if not (is_id exclude p) && is_alive (children p) then some p else next_live ps exclude children

abbrev pub or_restart : Option ℕ → Option ℕ → Option ℕ
or_restart (some p) restart = some p
or_restart none restart = restart

-- link.announce_sync of PROMOTE to one index; when it raises, the log has it and the parent goes on.
abbrev pub announce : ℕ → Supervisor → Supervisor
announce c s = record s {
  unread = if s.sends s.announced then put c true s.unread else s.unread;
  announced = s.announced + 1;
}

unfoldable pub appoint : ℕ → Option ℕ → Option ℕ → Supervisor → Supervisor
appoint now none restart s = record s { primary_id = none }
appoint now (some c) restart s =
    let chosen = record s { promotions = s.promotions ++ now ∷ []; primary_id = some c } in
    if is_id restart c then chosen else announce c chosen

abbrev pub recent : ℕ → List ℕ → List ℕ
recent now promotions = keep (λ t. ltb (now - t) promotion_window) promotions

unfoldable pub promote_within : ℕ → Option ℕ → Option ℕ → Supervisor → Supervisor
unfolding appoint
promote_within now exclude restart s =
    if leb promotion_limit (length s.promotions)
    then record s { promotion_stopped = true; primary_id = none }
    else appoint now (or_restart (next_live (ids s) exclude s.children) restart) restart s

unfoldable pub promote_someone : ℕ → Option ℕ → Option ℕ → Supervisor → Supervisor
unfolding promote_within
promote_someone now exclude restart s =
    if not s.linked || s.promotion_stopped
    then s
    else promote_within now exclude restart (record s { promotions = recent now s.promotions })

-- What a child tells its parent, with its index.
pub data Message : Type 0 where
  run_once_done : ℕ → Message
  ready : ℕ → Message
  promoted : ℕ → Message
  promote_failed : ℕ → Message
  adapter_isolated : ℕ → Message

-- `none` is a name that no process has.
abbrev pub id_at : Supervisor → ℕ → Option ℕ
id_at s index = if ltb index s.size then some index else none

unfoldable pub on_control : ℕ → Message → Supervisor → Supervisor
unfolding promote_someone
on_control now (run_once_done index) s = record s { run_once_done = true }
on_control now (promote_failed index) s = promote_someone now (id_at s index) none s
on_control now _ s = s

unfoldable pub control_each : ℕ → List Message → Supervisor → Supervisor
unfolding on_control
control_each now [] s = s
control_each now (m ∷ ms) s = control_each now ms (on_control now m s)

-- _pump_control(), with the messages that drain_sync gave
unfoldable pub pump_control : ℕ → List Message → Supervisor → Supervisor
unfolding control_each
pump_control now messages s = if s.linked then control_each now messages s else s

-- How long to wait before the restart after so many deaths in a row.
abbrev pub delay_after : ℕ → ℕ
delay_after deaths = min (respawn_delay * 2 ^ (deaths - 1)) respawn_delay_max

-- The deaths in a row of a process that dies now.
abbrev pub count_death : ℕ → ℕ → Supervisor → ℕ
count_death now p s =
    (if leb respawn_reset_after (now - s.spawned_at p) then 0 else s.respawns p) + 1

unfoldable pub hand_over : ℕ → ℕ → Supervisor → Supervisor
unfolding promote_someone
hand_over now p s =
    if is_id s.primary_id p
    then promote_someone now (some p) (some p) (record s { primary_id = none })
    else s

unfoldable pub restart_child : ℕ → ℕ → Supervisor → Supervisor
unfolding spawn
restart_child now p s =
    let deaths = count_death now p s in
    spawn (now + delay_after deaths) p (record s { respawns = put p deaths s.respawns })

unfoldable pub respawn_popped : ℕ → ℕ → Supervisor → Supervisor
unfolding hand_over restart_child
respawn_popped now p s =
    if s.stopping
    then s
    else restart_child now p
        (hand_over now p (record s { killed_by_me = put p false s.killed_by_me }))

unfoldable pub respawn : ℕ → ℕ → Supervisor → Supervisor
unfolding respawn_popped
respawn now p s = elim (s.children p) [
  | none ↦ s
  | some child ↦ respawn_popped now p (record s { children = put p none s.children })
]
