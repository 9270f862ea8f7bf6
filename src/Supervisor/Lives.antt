-- ===== src/Supervisor/Lives.antt =====
-- core/bootstrap/_supervisor.py: what the functions of the parent leave as it is.
use xime_framework.Prelude.{
  ℕ, ◌-◌, ◌≡◌, refl, Bool, true, false, Option, none, some, List, [], ◌∷◌, ◌==◌, leb, ltb,
  if◌then◌else◌, ap, ◌∙◌,
}
use xime_framework.Container.Registry.{put, put_other}
use xime_framework.Watchdog.{Heartbeats, Silence, starting, silent, broken, silent_for}
use xime_framework.Supervisor.{
  Child, Children, Supervisor, is_id, spawn, is_alive, promote_someone, ids, Message, run_once_done,
  ready, promoted, promote_failed, adapter_isolated, on_control, control_each, pump_control,
  hand_over, restart_child, respawn_popped, respawn, id_at,
}
use xime_framework.Supervisor.Reaping.{
  judge, kill, warn, warning_levels, level_of, silence_limit, startup_grace, reap_each,
  reap_hung_children,
}
use xime_framework.Supervisor.Shape.{if_both, promote_someone-children, hand_over-children}

-- The same processes live.
abbrev pub SameLives : Children → Children → Type 0
SameLives before after = (q : ℕ) → is_alive (after q) ≡ is_alive (before q)

on_control-children :
    (now : ℕ) (m : Message) (s : Supervisor) → (on_control now m s).children ≡ s.children
unfolding on_control
on_control-children now (run_once_done index) s = refl
on_control-children now (promote_failed index) s =
    promote_someone-children now (id_at s index) none s
on_control-children now (ready index) s = refl
on_control-children now (promoted index) s = refl
on_control-children now (adapter_isolated index) s = refl

control_each-children :
    (now : ℕ) (ms : List Message) (s : Supervisor) → (control_each now ms s).children ≡ s.children
unfolding control_each
control_each-children now [] s = refl
control_each-children now (m ∷ ms) s =
    control_each-children now ms (on_control now m s) ∙ on_control-children now m s

pub pump_control-lives :
    (now : ℕ) (ms : List Message) (s : Supervisor)
    → SameLives s.children (pump_control now ms s).children
unfolding pump_control
pump_control-lives now ms s q =
    if_both (λ (t : Supervisor). is_alive (t.children q) ≡ is_alive (s.children q)) s.linked
      (ap (λ t. is_alive (t q)) (control_each-children now ms s)) refl

-- A property of the supervisor after a respawn, by the two ways it may end.
pub respawn-cases :
    (P : Supervisor → Type 0) (now p : ℕ) (s : Supervisor)
    → P s
    → (let popped = record s { children = put p none s.children } in
        P popped
        × P (
            restart_child now p
              (hand_over now p (record popped { killed_by_me = put p false s.killed_by_me }))))
    → P (respawn now p s)
unfolding respawn respawn_popped
respawn-cases P now p s same rest = by_entry (s.children p)
  where
    popped : Supervisor
    popped = record s { children = put p none s.children }

    by_stop :
        (b : Bool)
        → P (
            if b
            then popped
            else restart_child now p
                (hand_over now p (record popped { killed_by_me = put p false s.killed_by_me })))
    by_stop true = rest.0
    by_stop false = rest.1

    by_entry :
        (o : Option Child) → P (elim o [ none ↦ s | some child ↦ respawn_popped now p popped ])
    by_entry none = same
    by_entry (some child) = by_stop s.stopping

-- The supervisor once the dead child is out of its tables.
abbrev pub forgotten : ℕ → Supervisor → Supervisor
forgotten p s = record s {
  children = put p none s.children;
  killed_by_me = put p false s.killed_by_me;
}

-- A respawn leaves the other processes alive or dead.
pub respawn-lives :
    (now p q : ℕ) (s : Supervisor)
    → (p == q) ≡ false
    → is_alive ((respawn now p s).children q) ≡ is_alive (s.children q)
unfolding restart_child spawn
respawn-lives now p q s other =
    respawn-cases (λ after. is_alive (after.children q) ≡ is_alive (s.children q)) now p s refl
      (
        ap is_alive (put_other p q none s.children other),
        ap is_alive (put_other p q _ (hand_over now p (forgotten p s)).children other)
            ∙ ap (λ t. is_alive (t q)) (hand_over-children now p (forgotten p s))
            ∙ ap is_alive (put_other p q none s.children other),
      )

hand_over-secondary :
    (now p : ℕ) (s : Supervisor) → is_id s.primary_id p ≡ false → hand_over now p s ≡ s
unfolding hand_over
hand_over-secondary now p s e = by_test (is_id s.primary_id p) e
  where
    by_test :
        (b : Bool)
        → b ≡ false
        → (if b then promote_someone now (some p) (some p) (record s { primary_id = none }) else s)
          ≡ s
    by_test false f = refl
    by_test true f = absurd (cc)

-- A respawn of a process that is not the primary leaves the others, the primary and what is unread
-- as they are.
pub respawn-others :
    (now p q : ℕ) (s : Supervisor)
    → is_id s.primary_id p ≡ false
    → (p == q) ≡ false
    → let after = respawn now p s in
      (after.children q ≡ s.children q)
      × (after.primary_id ≡ s.primary_id)
      × (after.unread ≡ s.unread)
unfolding restart_child spawn
respawn-others now p q s secondary other =
    let kept = hand_over-secondary now p (forgotten p s) secondary in
    respawn-cases
      (λ after.
        (after.children q ≡ s.children q)
        × (after.primary_id ≡ s.primary_id)
        × (after.unread ≡ s.unread))
      now p s (refl, refl, refl)
      (
        (put_other p q none s.children other, refl, refl),
        (
          put_other p q _ (hand_over now p (forgotten p s)).children other
              ∙ ap (λ t. t.children q) kept
              ∙ put_other p q none s.children other,
          ap (λ t. t.primary_id) kept,
          ap (λ t. t.unread) kept,
        ),
      )

-- The table of children, the primary and what is unread are the same.
abbrev pub SameTable : Supervisor → Supervisor → Type 0
SameTable before after =
    (after.children ≡ before.children)
    × (after.primary_id ≡ before.primary_id)
    × (after.unread ≡ before.unread)

judge-SameTable :
    (now p : ℕ) (silence : Silence) (s : Supervisor) → SameTable s (judge now p silence s)
unfolding judge kill warn
judge-SameTable now p starting s =
    if_both (SameTable s) (leb (now - s.spawned_at p) startup_grace) (refl, refl, refl)
      (refl, refl, refl)
judge-SameTable now p (silent quiet) s =
    if_both (SameTable s) (ltb silence_limit quiet) (refl, refl, refl)
      (if_both (SameTable s) (level_of warning_levels quiet == 0) (refl, refl, refl)
        (if_both (SameTable s) (leb (level_of warning_levels quiet) (s.warned p)) (refl, refl, refl)
          (refl, refl, refl)))
judge-SameTable now p broken s = (refl, refl, refl)

reap_each-SameTable :
    (now : ℕ) (beats : Heartbeats) (ps : List ℕ) (s : Supervisor)
    → SameTable s (reap_each now beats ps s)
unfolding reap_each
reap_each-SameTable now beats [] s = (refl, refl, refl)
reap_each-SameTable now beats (p ∷ ps) s =
    if_both (λ t. SameTable s (reap_each now beats ps t)) (is_alive (s.children p))
      (let after = judge now p (silent_for beats p now) s in
        let (same, known, left) = judge-SameTable now p (silent_for beats p now) s in
        let (same', known', left') = reap_each-SameTable now beats ps after in
        (same' ∙ same, known' ∙ known, left' ∙ left))
      (reap_each-SameTable now beats ps s)

pub reap_hung_children-SameTable :
    (now : ℕ) (s : Supervisor) → SameTable s (reap_hung_children now s)
unfolding reap_hung_children
reap_hung_children-SameTable now s = by_beats s.beats
  where
    by_beats :
        (o : Option Heartbeats)
        → SameTable s (elim o [ none ↦ s | some beats ↦ reap_each now beats (ids s) s ])
    by_beats none = (refl, refl, refl)
    by_beats (some beats) = reap_each-SameTable now beats (ids s) s
