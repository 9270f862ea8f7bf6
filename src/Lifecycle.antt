-- ===== src/Lifecycle.antt =====
-- core/lifecycle/manager.py: the hooks of all singletons, in topological order and back.
-- A hook is code of the application: `fails` says for each instance whether its hook raises. What
-- a run does to the outside is the list of the hooks that it called.
pub mod Teardown
use mathlib.Core.List.{reverse}
use xime_framework.Prelude.{
  ℕ, Bool, true, false, ◌&&◌, Option, none, some, List, [], ◌∷◌, ◌++◌, if◌then◌else◌, keep,
}

-- An instance, and which of the three hook protocols it satisfies.
pub record Instance : Type 0 where
  pub id : ℕ
  pub is_post_construct : Bool
  pub is_run_once : Bool
  pub is_pre_destroy : Bool

pub data Call : Type 0 where
  post_construct run_once pre_destroy : ℕ → Call

pub record LifecycleManager : Type 0 where
  pub instances : List Instance
  pub started : Option (List Instance)

abbrev pub create : List Instance → LifecycleManager
create instances = record { instances = instances; started = none }

-- How the loop of start() ends: the instance whose hook raised, if any.
pub record Started : Type 0 where
  pub raised : Option ℕ
  pub started : List Instance
  pub calls : List Call

unfoldable pub start_from : (ℕ → Bool) → List Instance → List Instance → Started
start_from fails [] started = record { raised = none; started = started; calls = [] }
start_from fails (i ∷ rest) started =
    let next = start_from fails rest (started ++ i ∷ []) in
    if i.is_post_construct
    then if fails i.id
      then record { raised = some i.id; started = started; calls = post_construct i.id ∷ [] }
      else record next { calls = post_construct i.id ∷ next.calls }
    else next

-- start(): `_started` is filled as the loop goes, so a failure leaves what was reached before it.
unfoldable pub start : (ℕ → Bool) → LifecycleManager → LifecycleManager × Started
unfolding start_from
start fails manager =
    let run = start_from fails manager.instances [] in
    (record manager { started = some run.started }, run)

-- run_once(): the first failure is passed on.
unfoldable pub run_each : (ℕ → Bool) → List Instance → Option ℕ × List Call
run_each fails [] = (none, [])
run_each fails (i ∷ rest) =
    let (raised, calls) = run_each fails rest in
    if fails i.id then (some i.id, run_once i.id ∷ []) else (raised, run_once i.id ∷ calls)

unfoldable pub run_all_once : (ℕ → Bool) → LifecycleManager → Option ℕ × List Call
unfolding run_each
run_all_once fails manager = run_each fails (keep (λ i. i.is_run_once) manager.instances)

-- stop(): every hook is attempted; the instances whose hook raised are collected.
unfoldable pub stop_each : (ℕ → Bool) → List Instance → List ℕ × List Call
stop_each fails [] = ([], [])
stop_each fails (i ∷ rest) =
    let (errors, calls) = stop_each fails rest in
    if i.is_pre_destroy
    then (if fails i.id then i.id ∷ errors else errors, pre_destroy i.id ∷ calls)
    else (errors, calls)

abbrev pub instances_to_stop : LifecycleManager → List Instance
instances_to_stop manager = elim manager.started [ none ↦ manager.instances | some l ↦ l ]

unfoldable pub stop : (ℕ → Bool) → LifecycleManager → List ℕ × List Call
unfolding stop_each
stop fails manager = stop_each fails (reverse (instances_to_stop manager))
