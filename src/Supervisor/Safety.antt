-- ===== src/Supervisor/Safety.antt =====
-- core/bootstrap/_supervisor.py: at most one live process holds the primary role.
use xime_framework.Prelude.{ℕ, ◌≡◌, Bool, Option, some, inl, inr, some_unique}
use xime_framework.Watchdog.{Heartbeats}
use xime_framework.Supervisor.Roles.{Claims}
use xime_framework.Supervisor.Cluster.{
  Cluster, Step, starts, dies, refuses, tells, wakes, restarts, reaps, stops, takes, loses,
  ReadStep, AllRead, Reach, at_start, then_step,
}
use xime_framework.Supervisor.Refusals.{Inv}
use xime_framework.Supervisor.Taken.{takes-Inv, loses-Inv}
use xime_framework.Supervisor.Kept.{
  starts-Inv, dies-Inv, refuses-Inv, tells-Inv, wakes-Inv, restarts-Inv, reaps-Inv, stops-Inv,
}

Step-Inv : {c d : Cluster} → (step : Step c d) → ReadStep step → Inv c → Inv d
Step-Inv (starts now p idle absent) read inv = starts-Inv now p idle absent inv
Step-Inv (dies p role here) read inv = dies-Inv p role here read inv
Step-Inv (takes p role here u) read inv = takes-Inv p role here u inv
Step-Inv (loses p) read inv = loses-Inv p inv
Step-Inv (refuses p here) read inv = refuses-Inv p here inv
Step-Inv (tells m news) read inv = tells-Inv m news inv
Step-Inv (wakes now dead idle distinct all) read inv = wakes-Inv now dead distinct all inv
Step-Inv (restarts now p rest e) read inv = restarts-Inv now p rest e inv
Step-Inv (reaps now idle) read inv = reaps-Inv now inv
Step-Inv stops read inv = stops-Inv inv

Reach-Inv :
    {size : ℕ} {linked : Bool} {beats : Option Heartbeats} {sends : ℕ → Bool} {primary : ℕ}
    {c : Cluster} (r : Reach size linked beats sends primary c)
    → AllRead r
    → Inv c
Reach-Inv at_start read = record {
  owned = λ p. elim [ inl holds ↦ absurd holds | inr u ↦ absurd (cc) ];
  untaken = λ p u. absurd (cc);
  dead = tt;
  distinct = tt;
  pending = inl tt;
}
Reach-Inv (then_step r step) read = Step-Inv step read.1 (Reach-Inv r read.0)

-- In whatever order children start, die, are hung, read that they take the role, refuse it and
-- report, and the parent reads its channel and restarts the dead: when no process has died with a
-- PROMOTE for it unread, at most one live process holds the primary role or has a PROMOTE for it
-- unread, and it is the one the parent takes for the primary.
pub Reach-Holds :
    {size : ℕ} {linked : Bool} {beats : Option Heartbeats} {sends : ℕ → Bool} {primary : ℕ}
    {c : Cluster} (r : Reach size linked beats sends primary c)
    → AllRead r
    → (p q : ℕ) → Claims (c.parent.children p) (c.parent.unread p)
    → Claims (c.parent.children q) (c.parent.unread q)
    → (p ≡ q) × (c.parent.primary_id ≡ some p)
Reach-Holds r read p q claim_p claim_q =
    let inv = Reach-Inv r read in
    (some_unique (inv.owned p claim_p) (inv.owned q claim_q), inv.owned p claim_p)
