-- ===== src/Tests/Supervisor.antt =====
-- core/bootstrap/_supervisor.py: a cluster of three processes.
use xime_framework.Prelude.{ℕ, ◌≡◌, refl, true, false, none, some, [], ◌∷◌, arith, map, inr}
use xime_framework.Supervisor.{
  Supervisor, new_supervisor, ordered_ids, spawn, respawn, promote_failed, delay_after,
  pump_control,
}
use xime_framework.Supervisor.Cluster.{
  Cluster, change, Reach, at_start, then_step, starts, dies, refuses, wakes, restarts, takes,
  take_role, AllRead,
}
use xime_framework.Supervisor.Safety.{Reach-Holds}
use xime_framework.Supervisor.Roles.{Holds}
use xime_framework.Supervisor.Handover.{HasPrimary, respawn-HasPrimary}

ordered_ids-three : ordered_ids 1 3 ≡ 1 ∷ 0 ∷ 2 ∷ []
ordered_ids-three = refl

delay_after-deaths :
    map delay_after (1 ∷ 2 ∷ 3 ∷ 5 ∷ 6 ∷ 50 ∷ []) ≡ 1000 ∷ 2000 ∷ 4000 ∷ 16000 ∷ 30000 ∷ 30000 ∷ []
delay_after-deaths = refl

-- Process 0 is the primary; it dies, process 1 gets the role and refuses it, process 0 gets it
-- back.
abbrev started : Supervisor
started = spawn 0 2 (spawn 0 1 (spawn 0 0 (new_supervisor 3 true none (λ _. true) 0)))

abbrev bereaved : Supervisor
bereaved = change 0 (record { alive = false; role = true }) started

abbrev restarted : Supervisor
restarted = respawn 10 0 (pump_control 10 [] bereaved)

abbrev taken : Supervisor
taken = take_role 1 restarted

abbrev refused : Supervisor
refused = change 1 (record { alive = true; role = false }) taken

abbrev at_last : Cluster
at_last = record {
  parent = pump_control 2000 (promote_failed 1 ∷ []) refused;
  channel = [];
  found = [];
}

abbrev restarted-Reach :
    Reach 3 true none (λ _. true) 0 (record { parent = restarted; channel = []; found = [] })
unfolding spawn respawn pump_control
restarted-Reach =
    then_step
      (then_step
        (then_step
          (then_step (then_step (then_step at_start (starts 0 0 refl refl)) (starts 0 1 refl refl))
            (starts 0 2 refl refl))
          (dies 0 true refl))
        (wakes 10 (0 ∷ []) refl (refl, tt) (refl, tt)))
      (restarts 10 0 [] refl)

abbrev at_last-Reach : Reach 3 true none (λ _. true) 0 at_last
unfolding spawn respawn pump_control
at_last-Reach =
    then_step (then_step (then_step restarted-Reach (takes 1 false refl refl)) (refuses 1 refl))
      (wakes 2000 [] refl tt tt)

at_last-AllRead : AllRead at_last-Reach
unfolding spawn respawn pump_control
at_last-AllRead = (((((((((tt, tt), tt), tt), refl), tt), tt), tt), tt), tt)

Reach-Holds_example : (◌≡◌ {A = ℕ} 0 0) × (at_last.parent.primary_id ≡ some 0)
unfolding spawn respawn pump_control
Reach-Holds_example = Reach-Holds at_last-Reach at_last-AllRead 0 0 (inr refl) (inr refl)

respawn-HasPrimary_example : HasPrimary (respawn 10 0 bereaved)
unfolding spawn
respawn-HasPrimary_example =
    respawn-HasPrimary 10 0 (record { alive = false; role = true }) bereaved refl refl refl refl
      refl (omega arith) refl

-- Process 1 dies before it has read the PROMOTE, the role goes to process 0, which reads its own, and
-- the replacement of process 1 reads the old one: two processes hold the role, and nobody has refused.
abbrev bereaved_again : Supervisor
bereaved_again = change 1 (record { alive = false; role = false }) restarted

abbrev passed_on : Supervisor
passed_on = take_role 0 (respawn 2000 1 (pump_control 2000 [] bereaved_again))

abbrev doubled : Cluster
doubled = record { parent = take_role 1 passed_on; channel = []; found = [] }

doubled-Reach : Reach 3 true none (λ _. true) 0 doubled
unfolding spawn respawn pump_control
doubled-Reach =
    then_step
      (then_step
        (then_step
          (then_step (then_step restarted-Reach (dies 1 false refl))
            (wakes 2000 (1 ∷ []) refl (refl, tt) (refl, tt)))
          (restarts 2000 1 [] refl))
        (takes 0 false refl refl))
      (takes 1 false refl refl)

doubled-Holds :
    (doubled.parent.primary_id ≡ some 0)
    × Holds (doubled.parent.children 0)
    × Holds (doubled.parent.children 1)
unfolding spawn respawn pump_control
doubled-Holds = (refl, (refl, refl), (refl, refl))
