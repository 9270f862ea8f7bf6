-- ===== src/Supervisor/Cluster.antt =====
-- core/bootstrap/_supervisor.py: the parent and its children as steps that come in any order that
-- `run` and `_watch` allow. The parent reads the control channel before it restarts the dead.
use xime_framework.Prelude.{ℕ, ◌≡◌, Bool, true, false, Option, none, some, List, [], ◌∷◌, ◌++◌}
use xime_framework.Container.Registry.{put}
use xime_framework.Watchdog.{Heartbeats}
use xime_framework.Supervisor.{
  Child, Supervisor, new_supervisor, spawn, is_alive, Message, promote_failed, pump_control,
  respawn,
}
use xime_framework.Supervisor.Reaping.{reap_hung_children}
use xime_framework.Prelude.{IsDistinct, All}

-- The messages that the parent has not read, and the dead that it found and has not restarted.
pub record Cluster : Type 0 where
  pub parent : Supervisor
  pub channel : List Message
  pub found : List ℕ

-- A message that asks for nothing.
abbrev pub IsNews : Message → Type 0
IsNews (promote_failed index) = ⊥
IsNews _ = Unit

abbrev pub Dead : Supervisor → ℕ → Type 0
Dead s p = is_alive (s.children p) ≡ false

-- The process lives, and what it is like then.
abbrev pub change : ℕ → Child → Supervisor → Supervisor
change p child s = record s { children = put p (some child) s.children }

-- _on_control of a child: the row is read, and the process takes the role.
abbrev pub take_role : ℕ → Supervisor → Supervisor
take_role p s = record (change p (record { alive = true; role = true }) s) {
  unread = put p false s.unread;
}

pub data Step : Cluster → Cluster → Type 0 where
  -- run() starts a process
  starts :
      {c : Cluster} (now p : ℕ)
      → c.found ≡ []
      → c.parent.children p ≡ none
      → Step c (record c { parent = spawn now p c.parent })
  dies :
      {c : Cluster} (p : ℕ) (role : Bool)
      → c.parent.children p ≡ some (record { alive = true; role = role })
      → Step c (record c { parent = change p (record { alive = false; role = role }) c.parent })
  -- A process of the index reads the PROMOTE, whichever process it was meant for.
  takes :
      {c : Cluster} (p : ℕ) (role : Bool)
      → c.parent.children p ≡ some (record { alive = true; role = role })
      → c.parent.unread p ≡ true
      → Step c (record c { parent = take_role p c.parent })
  -- A later message claims the row of the PROMOTE, or a process without on_promote reads it.
  loses :
      {c : Cluster} (p : ℕ)
      → Step c (record c { parent = record c.parent { unread = put p false c.parent.unread } })
  -- A child that was given the role could not start its jobs, and says so.
  refuses :
      {c : Cluster} (p : ℕ)
      → c.parent.children p ≡ some (record { alive = true; role = true })
      → Step c (record c {
        parent = change p (record { alive = true; role = false }) c.parent;
        channel = c.channel ++ promote_failed p ∷ [];
      })
  tells :
      {c : Cluster} (m : Message) → IsNews m → Step c (record c { channel = c.channel ++ m ∷ [] })
  -- _watch() wakes up with some of the dead and reads the channel
  wakes :
      {c : Cluster} (now : ℕ) (dead : List ℕ)
      → c.found ≡ []
      → IsDistinct dead
      → All (Dead c.parent) dead
      → Step c (record { parent = pump_control now c.channel c.parent; channel = []; found = dead })
  restarts :
      {c : Cluster} (now p : ℕ) (rest : List ℕ)
      → c.found ≡ p ∷ rest
      → Step c (record c { parent = respawn now p c.parent; found = rest })
  reaps :
      {c : Cluster} (now : ℕ)
      → c.found ≡ []
      → Step c (record c { parent = reap_hung_children now c.parent })
  -- a signal
  stops : {c : Cluster} → Step c (record c { parent = record c.parent { stopping = true } })

pub data Reach (size : ℕ) (linked : Bool) (beats : Option Heartbeats) (sends : ℕ → Bool)
    (primary : ℕ) : Cluster → Type 0 where
  at_start :
      Reach size linked beats sends primary (record {
        parent = new_supervisor size linked beats sends primary;
        channel = [];
        found = [];
      })
  then_step :
      {c d : Cluster}
      → Reach size linked beats sends primary c
      → Step c d
      → Reach size linked beats sends primary d

-- The process that dies in this step has read what was sent to it.
abbrev pub ReadStep : {c d : Cluster} → Step c d → Type 0
ReadStep {c} (dies p role here) = c.parent.unread p ≡ false
ReadStep _ = Unit

-- No process of the run has died with a PROMOTE for it unread.
abbrev pub AllRead :
    {size : ℕ} {linked : Bool} {beats : Option Heartbeats} {sends : ℕ → Bool} {primary : ℕ}
    {c : Cluster}
    → Reach size linked beats sends primary c
    → Type 0
AllRead at_start = Unit
AllRead (then_step r step) = AllRead r × ReadStep step
