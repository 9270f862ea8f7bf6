-- ===== src/Supervisor/Reaping.antt =====
-- core/bootstrap/_supervisor.py: the parent warns of a silent child, and kills a hung one.
use xime_framework.Prelude.{
  ℕ, ◌+◌, ◌-◌, true, none, some, List, [], ◌∷◌, ◌==◌, leb, ltb, if◌then◌else◌,
}
use xime_framework.Container.Registry.{put}
use xime_framework.Watchdog.{Heartbeats, Silence, starting, silent, broken, silent_for}
use xime_framework.Supervisor.{Supervisor, ids, is_alive}

abbrev pub startup_grace : ℕ
startup_grace = 60000

abbrev pub silence_limit : ℕ
silence_limit = 60000

-- _MUC_CANH_BAO
abbrev pub warning_levels : List ℕ
warning_levels = 10000 ∷ 25000 ∷ 45000 ∷ []

-- The number of levels that the silence has reached.
abbrev pub level_of : List ℕ → ℕ → ℕ
level_of [] quiet = 0
level_of (level ∷ levels) quiet = (if leb level quiet then 1 else 0) + level_of levels quiet

-- _canh_bao_dan
unfoldable pub warn : ℕ → ℕ → Supervisor → Supervisor
warn p quiet s =
    let level = level_of warning_levels quiet in
    if level == 0
    then record s { warned = put p 0 s.warned }
    else if leb level (s.warned p)
    then s
    else record s { warned = put p level s.warned }

unfoldable pub kill : ℕ → Supervisor → Supervisor
kill p s = record s { killed_by_me = put p true s.killed_by_me; warned = put p 0 s.warned }

unfoldable pub judge : ℕ → ℕ → Silence → Supervisor → Supervisor
unfolding warn kill
judge now p starting s = if leb (now - s.spawned_at p) startup_grace then s else kill p s
judge now p (silent quiet) s = if ltb silence_limit quiet then kill p s else warn p quiet s
judge now p broken s = kill p s

unfoldable pub reap_each : ℕ → Heartbeats → List ℕ → Supervisor → Supervisor
unfolding judge
reap_each now beats [] s = s
reap_each now beats (p ∷ ps) s =
    reap_each now beats ps
      (if is_alive (s.children p) then judge now p (silent_for beats p now) s else s)

-- _reap_hung_children
unfoldable pub reap_hung_children : ℕ → Supervisor → Supervisor
unfolding reap_each
reap_hung_children now s = elim s.beats [ none ↦ s | some beats ↦ reap_each now beats (ids s) s ]
