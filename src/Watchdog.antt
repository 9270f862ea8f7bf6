-- ===== src/Watchdog.antt =====
-- core/bootstrap/_watchdog.py: the table of heartbeats that the children write and the parent reads.
-- Time is a number of clock ticks. A cell is read and written whole; the memory it lies in, its
-- name and the loop that pats are not modelled. An index is that of a slot of the table.
pub mod History
use xime_framework.Prelude.{
  ℕ, ◌+◌, ◌-◌, ◌*◌, ◌^◌, Bool, true, false, Option, none, some, ◌==◌, ltb, if◌then◌else◌,
}
use xime_framework.Container.Registry.{put}

abbrev pub header_bytes : ℕ
header_bytes = 8

abbrev pub beat_bytes : ℕ
beat_bytes = 16

abbrev pub total_bytes : ℕ → ℕ
total_bytes slots = header_bytes + beat_bytes * slots

-- The time of the last beat, and how many there were.
pub record Beat : Type 0 where
  pub at : ℕ
  pub count : ℕ

abbrev pub never : Beat
never = record { at = 0; count = 0 }

pub record Heartbeats : Type 0 where
  pub slots : ℕ
  pub cells : ℕ → Beat

abbrev pub create : ℕ → Heartbeats
create slots = record { slots = slots; cells = λ _. never }

abbrev pub write : Heartbeats → ℕ → Beat → Heartbeats
write table index beat = record table { cells = put index beat table.cells }

-- pat(), and whether it returned: a count of 64 bits that is full raises, and writes nothing.
unfoldable pub pat : Heartbeats → ℕ → ℕ → Bool × Heartbeats
pat table index now =
    let count = (table.cells index).count + 1 in
    if ltb count (2 ^ 64)
    then (true, write table index (record { at = now; count = count }))
    else (false, table)

unfoldable pub reset : Heartbeats → ℕ → Heartbeats
reset table index = write table index never

-- A child that has not started, one that is silent for some time, and a cell that is broken.
pub data Silence : Type 0 where
  starting : Silence
  silent : ℕ → Silence
  broken : Silence

abbrev pub silence_of : Beat → ℕ → Silence
silence_of beat now =
    if beat.count == 0 then starting else if beat.at == 0 then broken else silent (now - beat.at)

unfoldable pub silent_for : Heartbeats → ℕ → ℕ → Silence
silent_for table index now = silence_of (table.cells index) now
