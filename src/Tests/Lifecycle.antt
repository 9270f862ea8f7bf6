-- ===== src/Tests/Lifecycle.antt =====
-- core/lifecycle/manager.py with four instances, the third of which fails to start.
use xime_framework.Prelude.{ℕ, ◌≡◌, refl, Bool, true, false, some, List, [], ◌∷◌, ◌==◌, map, keep}
use mathlib.Core.List.{reverse}
use xime_framework.Lifecycle.{Instance, pre_destroy, create, start, stop}
use xime_framework.Lifecycle.Teardown.{Reached, start-Reached, stop-start, destroyed, completed}

abbrev instances : List Instance
instances =
    record { id = 1; is_post_construct = true; is_run_once = false; is_pre_destroy = true }
    ∷ record { id = 2; is_post_construct = false; is_run_once = true; is_pre_destroy = true }
    ∷ record { id = 3; is_post_construct = true; is_run_once = false; is_pre_destroy = true }
    ∷ record { id = 4; is_post_construct = true; is_run_once = false; is_pre_destroy = true }
    ∷ []

abbrev third : ℕ → Bool
third n = n == 3

abbrev first : ℕ → Bool
first n = n == 1

start-instances : (start third (create instances)).1.raised ≡ some 3
unfolding start
start-instances = refl

stop-instances :
    stop first (start third (create instances)).0 ≡ (1 ∷ [], pre_destroy 2 ∷ pre_destroy 1 ∷ [])
unfolding start stop
stop-instances = refl

start-Reached_example : Reached third [] instances (start third (create instances)).1
start-Reached_example = start-Reached third instances

stop-start_example :
    let torn = destroyed (reverse (completed third instances)) in
    stop first (start third (create instances)).0
    ≡ (map (λ i. i.id) (keep (λ i. first i.id) torn), map (λ i. pre_destroy i.id) torn)
stop-start_example = stop-start third first instances
