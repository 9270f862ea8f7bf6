-- ===== src/Lifecycle/Teardown.antt =====
-- core/lifecycle/manager.py: stop() tears down what start() completed, in reverse.
use mathlib.Core.List.{reverse, append_assoc, append-nil}
use xime_framework.Prelude.{
  ℕ, ◌≡◌, refl, Bool, true, false, none, some, List, [], ◌∷◌, ◌++◌, arith, if◌then◌else◌, keep, map,
  ap, ◌∙◌, sym, All, ◌&&◌,
}
use xime_framework.Lifecycle.{
  Instance, Call, post_construct, pre_destroy, Started, create, start_from, start, stop_each, stop,
}

abbrev pub post_calls : List Instance → List Call
post_calls l = map (λ i. post_construct i.id) (keep (λ i. i.is_post_construct) l)

abbrev pub destroyed : List Instance → List Instance
destroyed l = keep (λ i. i.is_pre_destroy) l

-- The instance has no post_construct(), or its hook does not raise.
abbrev pub Quiet : (ℕ → Bool) → Instance → Type 0
Quiet fails i = i.is_post_construct ≡ true → fails i.id ≡ false

-- What the loop of start() did to the instances `l`, with `before` already started: it reached all
-- of them and no hook raised, or those before the first whose hook raised.
pub data Reached (fails : ℕ → Bool) (before l : List Instance) (run : Started) : Type 0 where
  all_reached :
      run.raised ≡ none
      → All (Quiet fails) l
      → run.started ≡ before ++ l
      → run.calls ≡ post_calls l
      → Reached fails before l run
  stopped_at :
      (more : List Instance) (i : Instance) (rest : List Instance)
      → run.raised ≡ some i.id
      → i.is_post_construct ≡ true
      → fails i.id ≡ true
      → l ≡ more ++ i ∷ rest
      → All (Quiet fails) more
      → run.started ≡ before ++ more
      → run.calls ≡ post_calls more ++ post_construct i.id ∷ []
      → Reached fails before l run

module _ (fails : ℕ → Bool) (before : List Instance) (i : Instance) (rest : List Instance) where
  abbrev next : Started
  next = start_from fails rest (before ++ i ∷ [])

  regroup : (l : List Instance) → (before ++ i ∷ []) ++ l ≡ before ++ i ∷ l
  regroup l = append_assoc before (i ∷ []) l

  quiet_hook :
      i.is_post_construct ≡ false
      → Reached fails (before ++ i ∷ []) rest next
      → Reached fails before (i ∷ rest) next
  quiet_hook e (all_reached r q s c) =
      all_reached r ((λ h. absurd (cc)), q) (s ∙ regroup rest) (ground (arith, c))
  quiet_hook e (stopped_at more j after r p g l q s c) =
      stopped_at (i ∷ more) j after r p g (ap (λ t. i ∷ t) l) ((λ h. absurd (cc)), q)
        (s ∙ regroup more) (ground (arith, c))

  good_hook :
      i.is_post_construct ≡ true
      → fails i.id ≡ false
      → Reached fails (before ++ i ∷ []) rest next
      → Reached fails before (i ∷ rest) (record next { calls = post_construct i.id ∷ next.calls })
  good_hook e f (all_reached r q s c) =
      all_reached r ((λ h. f), q) (s ∙ regroup rest) (ground (arith, c))
  good_hook e f (stopped_at more j after r p g l q s c) =
      stopped_at (i ∷ more) j after r p g (ap (λ t. i ∷ t) l) ((λ h. f), q) (s ∙ regroup more)
        (ground (arith, c))

  -- By what the class of the instance says, and by whether its hook raises.
  by_case :
      (hook raises : Bool)
      → i.is_post_construct ≡ hook
      → fails i.id ≡ raises
      → Reached fails (before ++ i ∷ []) rest next
      → Reached fails before (i ∷ rest) (
          if hook
          then if raises
            then record { raised = some i.id; started = before; calls = post_construct i.id ∷ [] }
            else record next { calls = post_construct i.id ∷ next.calls }
          else next)
  by_case true true e f r = stopped_at [] i rest refl e f refl tt (sym (append-nil before)) refl
  by_case true false e f r = good_hook e f r
  by_case false raises e f r = quiet_hook e r

start_from-Reached :
    (fails : ℕ → Bool) (l before : List Instance)
    → Reached fails before l (start_from fails l before)
unfolding start_from
start_from-Reached fails [] before = all_reached refl tt (sym (append-nil before)) refl
start_from-Reached fails (i ∷ rest) before =
    by_case fails before i rest i.is_post_construct (fails i.id) refl refl
      (start_from-Reached fails rest (before ++ i ∷ []))

-- start() calls post_construct() in order and reaches all instances, and then no hook raises; or it
-- stops at the first whose hook raises, and has then started exactly those before it.
pub start-Reached :
    (fails : ℕ → Bool) (instances : List Instance)
    → Reached fails [] instances (start fails (create instances)).1
unfolding start
start-Reached fails instances = start_from-Reached fails instances []

stop_each_lem :
    (fails : ℕ → Bool) (l : List Instance)
    → stop_each fails l ≡ (
      map (λ i. i.id) (keep (λ i. fails i.id) (destroyed l)),
      map (λ i. pre_destroy i.id) (destroyed l),
    )
unfolding stop_each
stop_each_lem fails [] = refl
stop_each_lem fails (i ∷ rest) = ground (arith, stop_each_lem fails rest)

-- The instances before the first whose hook raises: those that are completed.
abbrev pub completed : (ℕ → Bool) → List Instance → List Instance
completed fails [] = []
completed fails (i ∷ rest) =
    if i.is_post_construct && fails i.id then [] else i ∷ completed fails rest

-- The loop has started what was started before and what it completed.
start_from-completed :
    (fails : ℕ → Bool) (l before : List Instance)
    → (start_from fails l before).started ≡ before ++ completed fails l
unfolding start_from
start_from-completed fails [] before = sym (append-nil before)
start_from-completed fails (i ∷ rest) before = by_case_started i.is_post_construct (fails i.id) (
    start_from-completed fails rest (before ++ i ∷ [])
    ∙ append_assoc before (i ∷ []) (completed fails rest))
  where
    next_started : Started
    next_started = start_from fails rest (before ++ i ∷ [])

    by_case_started :
        (hook raises : Bool)
        → next_started.started ≡ before ++ i ∷ completed fails rest
        → (if◌then◌else◌ {A = Started} hook
            (if raises
              then record { raised = some i.id; started = before; calls = post_construct i.id ∷ [] }
              else record next_started { calls = post_construct i.id ∷ next_started.calls })
            next_started).started
          ≡ before ++ (if hook && raises then [] else i ∷ completed fails rest)
    by_case_started true true e = sym (append-nil before)
    by_case_started true false e = e
    by_case_started false raises e = e

-- stop() after start(), whatever raises in either: pre_destroy() is called on every instance before
-- the first whose post_construct() raises, if it has the hook, last one first, and on no other; and
-- the collected errors are those of exactly the hooks that raised.
pub stop-start :
    (failing_start failing_stop : ℕ → Bool) (instances : List Instance)
    → let torn = destroyed (reverse (completed failing_start instances)) in
      stop failing_stop (start failing_start (create instances)).0
      ≡ (map (λ i. i.id) (keep (λ i. failing_stop i.id) torn), map (λ i. pre_destroy i.id) torn)
unfolding start stop
stop-start failing_start failing_stop instances =
    ap (λ l. stop_each failing_stop (reverse l)) (start_from-completed failing_start instances [])
    ∙ stop_each_lem failing_stop (reverse (completed failing_start instances))
